-- ===== src/Storage/Sqlite/Passes.antt =====
-- A pass of the thread keeps what the SQLite storage owes and its invariant.
use mathlib.Core.Path.{subst}
use mathlib.Core.List.{append_assoc}
use novena_gateway.Common.{
  ℕ, ◌+◌, ◌-◌, ◌<◌, not, ◌≡◌, refl, sym, ap, ◌∙◌, String, true, false, ◌&&◌, List, [], ◌∷◌, ◌++◌,
  length, take, drop, leb, arith, if◌then◌else◌, take-append-drop, Bool-cases, inl, inr,
}
use novena_gateway.Storage.Sqlite.{
  Row, SqliteStorage, insert_rows, write_batch, read_data, is_none, prepare, clean_up, run,
}
use novena_gateway.Storage.Sqlite.Rows.{
  Above, AtMost, texts, texts-append, texts-insert_rows, Above-drop, Above-append,
  Above-insert_rows, AtMost-raise, AtMost-append, AtMost-insert_rows, AllFull-append, AtMost-drop,
  AtMost-skip, AllFull-insert_rows, AllFullTexts-take, AllFullTexts-drop,
}
use novena_gateway.Storage.Sqlite.Selection.{take-length-take, drop-append, take-prefix}
use novena_gateway.Storage.Sqlite.Valid.{
  reach_of, reach, IsValid, Split, IsOut, owed, drop-reach, data_of-take,
}

is_none-eq : (rs : List Row) → is_none rs ≡ true → rs ≡ []
is_none-eq [] h = refl
is_none-eq (r ∷ rs) h = cc

prepare-IsValid : (s : SqliteStorage) → s.stopped ≡ false → IsValid s → IsValid (prepare s)
unfolding prepare read_data
prepare-IsValid s open_still v =
    elim (Bool-cases (s.can_prepare_new_batch && is_none s.next_batch)) [
      | inl due ↦
          let empty : s.next_batch ≡ [] = is_none-eq s.next_batch (ground (arith, due)) in
          let n = s.settings.max_read_records_count in
          let chosen =
            data_of-take s.next_batch s v.prepared
            ∙ ap (λ b. take (reach_of b n) s.messages) empty in
          simp (due, open_still, chosen)
            (record {
              rising = v.rising;
              bounded = v.bounded;
              full = v.full;
              queued = v.queued;
              prepared = take-length-take n s.messages;
              point = v.point;
              unread =
                  subst (Above s.delete_time_point)
                    (ap (λ b. drop (reach_of b n) s.messages) empty ∙ sym (drop-reach n s.messages))
                    v.unread;
            })
      | inr other ↦ simp other v
    ]

prepare-owed : (s : SqliteStorage) → owed (prepare s) ≡ owed s
unfolding prepare
prepare-owed s = elim (Bool-cases (s.can_prepare_new_batch && is_none s.next_batch)) [
  | inl due ↦ simp due refl
  | inr other ↦ simp other refl
]

prepare-IsOut : (s : SqliteStorage) (pack : List String) → IsOut s pack → IsOut (prepare s) pack
unfolding prepare
prepare-IsOut s pack h = elim (Bool-cases (s.can_prepare_new_batch && is_none s.next_batch)) [
  | inl due ↦ simp due h
  | inr other ↦ simp other h
]

-- How many messages `process` takes off the queue.
abbrev batch_of : ℕ → SqliteStorage → ℕ
batch_of most s = if leb most s.settings.batch_size then most else s.settings.batch_size

write_batch-IsValid :
    (now most : ℕ) (s : SqliteStorage) → IsValid s → IsValid (write_batch now most s)
unfolding write_batch
write_batch-IsValid now most s v =
    let batch = take (batch_of most s) s.write_queue in
    let new = insert_rows s.last_id now batch in
    let above = Above-insert_rows s.last_id now batch in
    record {
      rising = Above-append 0 s.last_id s.messages new (omega arith) v.rising v.bounded above;
      bounded =
          AtMost-append (s.last_id + length batch) s.messages new
            (AtMost-raise s.last_id _ s.messages (omega arith) v.bounded)
            (AtMost-insert_rows s.last_id now batch);
      full = AllFull-append s.messages new v.full (
          AllFull-insert_rows s.last_id now batch
            (AllFullTexts-take (batch_of most s) s.write_queue v.queued));
      queued = AllFullTexts-drop (batch_of most s) s.write_queue v.queued;
      prepared = take-prefix s.next_batch s.messages new v.prepared;
      point = ground (arith, v.point);
      unread = subst (Above s.delete_time_point) (sym (drop-append (reach s) s.messages new)) (
          Above-append s.delete_time_point s.last_id (drop (reach s) s.messages) _ v.point v.unread
            (AtMost-drop s.last_id (reach s) s.messages v.bounded)
            (Above-drop (reach s - length s.messages) s.last_id new above));
    }

write_batch-owed : (now most : ℕ) (s : SqliteStorage) → owed (write_batch now most s) ≡ owed s
unfolding write_batch
write_batch-owed now most s =
    let n = batch_of most s in
    let batch = take n s.write_queue in
    ap (λ t. t ++ drop n s.write_queue)
      (texts-append s.messages (insert_rows s.last_id now batch)
        ∙ ap (λ t. texts s.messages ++ t) (texts-insert_rows s.last_id now batch))
    ∙ append_assoc (texts s.messages) batch (drop n s.write_queue)
    ∙ ap (λ t. texts s.messages ++ t) (take-append-drop n s.write_queue)

write_batch-IsOut :
    (now most : ℕ) (s : SqliteStorage) (pack : List String)
    → s.stopped ≡ false
    → IsValid s
    → IsOut s pack
    → IsOut (write_batch now most s) pack
unfolding write_batch
write_batch-IsOut now most s pack open_still v h =
    let out : Split s.delete_time_point s.messages pack = simp open_still at h in
    let new = insert_rows s.last_id now (take (batch_of most s) s.write_queue) in
    simp open_still (record {
      first = out.first;
      rest = out.rest ++ new;
      split = ap (λ t. t ++ new) out.split ∙ append_assoc out.first out.rest new;
      read = out.read;
      unread =
          Above-append s.delete_time_point s.last_id out.rest new v.point out.unread
            (AtMost-skip s.last_id out.first out.rest
              (subst (AtMost s.last_id) out.split v.bounded))
            (Above-insert_rows s.last_id now (take (batch_of most s) s.write_queue));
      pack_of = out.pack_of;
    })

same_settings : (s : SqliteStorage) → (prepare s).stopped ≡ s.stopped
unfolding prepare
same_settings s = elim (Bool-cases (s.can_prepare_new_batch && is_none s.next_batch)) [
  | inl due ↦ simp due refl
  | inr other ↦ simp other refl
]

-- The time at which the next clean-up is due.
abbrev pub next_clean_up : SqliteStorage → ℕ
next_clean_up s = s.last_msg_check + s.last_msg_check + s.settings.messages_ttl_check_in_hours

pub clean_up_early :
    (now oldest : ℕ) (s : SqliteStorage) → now < next_clean_up s → clean_up now oldest s ≡ s
unfolding clean_up
clean_up_early now oldest s early =
    let late : (leb (next_clean_up s) now && not s.stopped) ≡ false = ground arith in simp late refl

prepare-next : (s : SqliteStorage) → next_clean_up (prepare s) ≡ next_clean_up s
unfolding prepare
prepare-next s = ground arith

-- A pass before a clean-up is due only prepares a batch and writes.
run_early :
    (now oldest most : ℕ) (s : SqliteStorage)
    → now < next_clean_up s
    → run now oldest most s ≡ (if s.stopped then s else write_batch now most (prepare s))
unfolding run
run_early now oldest most s early =
    ap (λ t. if s.stopped then s else write_batch now most t)
      (clean_up_early now oldest (prepare s) (subst (λ n. now < n) (sym (prepare-next s)) early))

module _ (now oldest most : ℕ) (s : SqliteStorage) (early : now < next_clean_up s) where
  pub run-IsValid : IsValid s → IsValid (run now oldest most s)
  run-IsValid v =
      subst IsValid (sym (run_early now oldest most s early)) (elim (Bool-cases s.stopped) [
        | inl stopped ↦ simp stopped v
        | inr open_still ↦
            simp open_still
              (write_batch-IsValid now most (prepare s) (prepare-IsValid s open_still v))
      ])

  pub run-owed : owed (run now oldest most s) ≡ owed s
  run-owed = ap owed (run_early now oldest most s early) ∙ (elim (Bool-cases s.stopped) [
    | inl stopped ↦ simp stopped refl
    | inr open_still ↦ simp open_still (write_batch-owed now most (prepare s) ∙ prepare-owed s)
  ])

  pub run-IsOut :
      (pack : List String) → IsValid s → IsOut s pack → IsOut (run now oldest most s) pack
  run-IsOut pack v h =
      subst (λ t. IsOut t pack) (sym (run_early now oldest most s early))
        (elim (Bool-cases s.stopped) [
          | inl stopped ↦ simp stopped (simp stopped at h)
          | inr open_still ↦ simp open_still (
              write_batch-IsOut now most (prepare s) pack (same_settings s ∙ open_still)
                (prepare-IsValid s open_still v) (prepare-IsOut s pack h))
        ])
