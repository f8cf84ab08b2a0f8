-- ===== src/Telemetry/Split.antt =====
-- `split_large_entries` of novena_gateway/gateway/entities/converted_data.py. The dict has each key
-- once, so that a new key is appended; `size` is `TBUtility.get_data_size` of one pair.
use novena_gateway.Common.{
  ℕ, ◌+◌, String, ◌≡◌, refl, sym, ap, ◌∙◌, Bool, true, false, Option, none, some, List, [], ◌∷◌,
  ◌++◌, leb, if◌then◌else◌, Bool-cases, inl, inr,
}
use mathlib.Core.Path.{subst}
use mathlib.Core.List.{append_assoc, append-nil}
use novena_gateway.Json.{Value}

abbrev pub Entries : Type 0
Entries = List (String × Value)

-- The chunks so far with their sizes, the chunk in work, its size and `ts_check`.
pub record Work : Type 0 where
  pub chunks : List (Entries × ℕ)
  pub current_chunk : Entries
  pub current_size : ℕ
  pub ts_check : Bool

abbrev is_empty {ℓ} : {A : Type ℓ} → List A → Bool
is_empty [] = true
is_empty (x ∷ xs) = false

-- `if current_chunk: split_chunks.append(current_chunk); …`
unfoldable pub close_chunk : Entries → ℕ → List (Entries × ℕ) → List (Entries × ℕ)
close_chunk [] n chunks = chunks
close_chunk (x ∷ xs) n chunks = chunks ++ (x ∷ xs, n) ∷ []

-- The size of an entry, and `ts_check` after it: the first entry of a chunk bears the timestamp.
abbrev entry_size : Option ℕ → ℕ → Bool → ℕ × Bool
entry_size none n check = (n + 1, check)
entry_size (some ts_size) n true = (n + 1, true)
entry_size (some ts_size) n false = (n + 1 + ts_size, true)

-- One round of the loop.
unfoldable pub split_entry : ℕ → ℕ → String × Value → ℕ × Bool → Work → Work
unfolding close_chunk
split_entry first_max max_size entry (n, check) w =
    if leb (if is_empty w.chunks then first_max else max_size) (w.current_size + n)
    then record {
      chunks = close_chunk w.current_chunk w.current_size w.chunks;
      current_chunk = entry ∷ [];
      current_size = n;
      ts_check = if is_empty w.current_chunk then check else false;
    }
    else record w {
      current_chunk = w.current_chunk ++ entry ∷ [];
      current_size = w.current_size + n;
      ts_check = check;
    }

module _ (size : String → Value → ℕ) (ts_size : Option ℕ) (first_max max_size : ℕ) where
  unfoldable pub split_loop : Entries → Work → Work
  unfolding split_entry
  split_loop [] w = w
  split_loop ((k, v) ∷ rest) w =
      split_loop rest
        (split_entry first_max max_size (k, v) (entry_size ts_size (size k v) w.ts_check) w)

  unfoldable pub split_large_entries : Entries → List (Entries × ℕ)
  unfolding split_loop close_chunk
  split_large_entries entries =
      let w : Work =
        split_loop entries
          (record { chunks = []; current_chunk = []; current_size = 0; ts_check = false }) in
      close_chunk w.current_chunk w.current_size w.chunks

abbrev pub joined : List (Entries × ℕ) → Entries
joined [] = []
joined ((c, n) ∷ cs) = c ++ joined cs

abbrev pub NoneEmpty : List (Entries × ℕ) → Type 0
NoneEmpty [] = Unit
NoneEmpty ((c, n) ∷ cs) = (is_empty c ≡ false) × NoneEmpty cs

joined-append : (xs ys : List (Entries × ℕ)) → joined (xs ++ ys) ≡ joined xs ++ joined ys
joined-append [] ys = refl
joined-append ((c, n) ∷ xs) ys =
    ap (λ l. c ++ l) (joined-append xs ys) ∙ sym (append_assoc c (joined xs) (joined ys))

NoneEmpty-append :
    (xs : List (Entries × ℕ)) (c : Entries) (n : ℕ)
    → NoneEmpty xs
    → is_empty c ≡ false
    → NoneEmpty (xs ++ (c, n) ∷ [])
NoneEmpty-append [] c n h k = (k, tt)
NoneEmpty-append ((d, m) ∷ xs) c n h k = (h.0, NoneEmpty-append xs c n h.1 k)

joined-close_chunk :
    (c : Entries) (n : ℕ) (cs : List (Entries × ℕ)) → joined (close_chunk c n cs) ≡ joined cs ++ c
unfolding close_chunk
joined-close_chunk [] n cs = sym (append-nil (joined cs))
joined-close_chunk (x ∷ xs) n cs =
    joined-append cs _ ∙ ap (λ l. joined cs ++ l) (append-nil (x ∷ xs))

NoneEmpty-close_chunk :
    (c : Entries) (n : ℕ) (cs : List (Entries × ℕ)) → NoneEmpty cs → NoneEmpty (close_chunk c n cs)
unfolding close_chunk
NoneEmpty-close_chunk [] n cs h = h
NoneEmpty-close_chunk (x ∷ xs) n cs h = NoneEmpty-append cs (x ∷ xs) n h refl

-- What a work holds, in order, and that no chunk is empty.
abbrev Holds : Entries → Work → Type 0
Holds seen w = (joined w.chunks ++ w.current_chunk ≡ seen) × NoneEmpty w.chunks

split_entry-Holds :
    (first_max max_size : ℕ) (seen : Entries) (e : String × Value) (s : ℕ × Bool) (w : Work)
    → Holds seen w
    → Holds (seen ++ e ∷ []) (split_entry first_max max_size e s w)
unfolding split_entry
split_entry-Holds first_max max_size seen e (n, check) w h =
    let limit : ℕ = if is_empty w.chunks then first_max else max_size in
    elim (Bool-cases (leb limit (w.current_size + n))) [
      | inl full ↦ rw full (
        ap (λ l. l ++ e ∷ []) (joined-close_chunk w.current_chunk w.current_size w.chunks ∙ h.0),
        NoneEmpty-close_chunk w.current_chunk w.current_size w.chunks h.1,
      )
      | inr room ↦ rw room (
        sym (append_assoc (joined w.chunks) w.current_chunk (e ∷ [])) ∙ ap (λ l. l ++ e ∷ []) h.0,
        h.1,
      )
    ]

split_loop-Holds :
    (size : String → Value → ℕ) (ts_size : Option ℕ) (first_max max_size : ℕ) (es seen : Entries)
    (w : Work)
    → Holds seen w
    → Holds (seen ++ es) (split_loop size ts_size first_max max_size es w)
unfolding split_loop
split_loop-Holds size ts_size first_max max_size [] seen w h = rw (append-nil seen) h
split_loop-Holds size ts_size first_max max_size ((k, v) ∷ es) seen w h =
    let step : Work =
      split_entry first_max max_size (k, v) (entry_size ts_size (size k v) w.ts_check) w in
    subst (λ l. Holds l (split_loop size ts_size first_max max_size es step))
      (append_assoc seen ((k, v) ∷ []) es)
      (split_loop-Holds size ts_size first_max max_size es (seen ++ (k, v) ∷ []) step
        (split_entry-Holds first_max max_size seen (k, v) _ w h))

-- Splitting loses no datapoint, repeats none and keeps their order, whatever the sizes and limits,
-- and makes no empty chunk.
pub split_large_entries-joined :
    (size : String → Value → ℕ) (ts_size : Option ℕ) (first_max max_size : ℕ) (es : Entries)
    → let chunks = split_large_entries size ts_size first_max max_size es in
      (joined chunks ≡ es) × NoneEmpty chunks
unfolding split_large_entries
split_large_entries-joined size ts_size first_max max_size es =
    let start : Work = record {
      chunks = [];
      current_chunk = [];
      current_size = 0;
      ts_check = false;
    } in
    let w : Work = split_loop size ts_size first_max max_size es start in
    let held : Holds es w =
      split_loop-Holds size ts_size first_max max_size es [] start (refl, tt) in
    (
      joined-close_chunk w.current_chunk w.current_size w.chunks ∙ held.0,
      NoneEmpty-close_chunk w.current_chunk w.current_size w.chunks held.1,
    )
