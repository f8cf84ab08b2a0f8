-- ===== src/Storage/Sqlite/Expiry.antt =====
-- The clean-up of rows that are too old.
use mathlib.Core.Path.{subst}
use novena_gateway.Common.{
  ℕ, ◌<◌, ◌≡◌, refl, sym, ap, ◌∙◌, List, [], ◌∷◌, ◌++◌, take, leb, arith, Bool-cases, inl, inr,
  if◌then◌else◌,
}
use mathlib.Core.List.{append_assoc, append-nil}
use novena_gateway.Storage.Sqlite.Passes.{next_clean_up, clean_up_early}
use novena_gateway.Storage.Sqlite.{Row, SqliteStorage, prepare, write_batch, run, insert_rows}

-- When a pass runs, what is too old then, and how many messages it collects.
pub record Pass : Type 0 where
  pub now : ℕ
  pub oldest : ℕ
  pub most : ℕ

unfoldable pub run_all : List Pass → SqliteStorage → SqliteStorage
run_all [] s = s
run_all (p ∷ ps) s = run_all ps (run p.now p.oldest p.most s)

-- Each pass runs before the given time.
abbrev pub Before : ℕ → List Pass → Type 0
Before t [] = Unit {0}
Before t (p ∷ ps) = (p.now < t) × Before t ps

record Grown (s s' : SqliteStorage) : Type 0 where
  new : List Row
  grown : s'.messages ≡ s.messages ++ new
  same_time : next_clean_up s' ≡ next_clean_up s

prepare-same :
    (s : SqliteStorage)
    → ((prepare s).messages ≡ s.messages) × (next_clean_up (prepare s) ≡ next_clean_up s)
unfolding prepare
prepare-same s = ground arith

written-Grown : (now most : ℕ) (s : SqliteStorage) → Grown s (write_batch now most (prepare s))
unfolding write_batch
written-Grown now most s =
    let (table, time) = prepare-same s in
    let q = prepare s in
    let n = if leb most q.settings.batch_size then most else q.settings.batch_size in
    let new = insert_rows q.last_id now (take n q.write_queue) in
    record { new = new; grown = ap (λ t. t ++ new) table; same_time = time }

run-Grown :
    (p : Pass) (s : SqliteStorage) → p.now < next_clean_up s → Grown s (run p.now p.oldest p.most s)
unfolding run
run-Grown p s early =
    let skipped = clean_up_early p.now p.oldest (prepare s) (omega (arith, (prepare-same s).1)) in
    elim (Bool-cases s.stopped) [
      | inl stopped ↦
          simp stopped (record { new = []; grown = sym (append-nil s.messages); same_time = refl })
      | inr open_still ↦ simp open_still (
          subst (λ q. Grown s (write_batch p.now p.most q)) (sym skipped)
            (written-Grown p.now p.most s))
    ]

-- The clean-up that a pass would make is next due at twice the time of the last one, a date in the far
-- future: any passes before that leave every row in the table, however old, and add rows only.
pub expired_stay :
    (ps : List Pass) (s : SqliteStorage)
    → Before (next_clean_up s) ps
    → (new : List Row) × ((run_all ps s).messages ≡ s.messages ++ new)
unfolding run_all
expired_stay [] s h = ([], sym (append-nil s.messages))
expired_stay (p ∷ ps) s (early, h) =
    let s' = run p.now p.oldest p.most s in
    let g = run-Grown p s early in
    let (new, e) = expired_stay ps s' (subst (λ n. Before n ps) (sym g.same_time) h) in
    (g.new ++ new, e ∙ ap (λ t. t ++ new) g.grown ∙ append_assoc s.messages g.new new)
