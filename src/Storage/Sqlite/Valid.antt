-- ===== src/Storage/Sqlite/Valid.antt =====
-- The invariant of the SQLite storage, the pack that is out, and the operations of its clients.
use mathlib.Core.Path.{subst}
use mathlib.Core.List.{append_assoc, append-nil}
use novena_gateway.Common.{
  ℕ, zero, suc, ◌≤◌, ◌≡◌, refl, sym, ap, ◌∙◌, String, Bool, true, false, List, [], ◌∷◌, ◌++◌,
  length, take, drop, take-append-drop, Bool-cases, inl, inr,
}
use novena_gateway.Storage.Buffer.{accepted_by}
use novena_gateway.Storage.Sqlite.{
  Row, SqliteStorage, put, delete_to, data_of, read_data, is_blank, time_point, get_event_pack,
  event_pack_processing_done,
}
use novena_gateway.Storage.Sqlite.Rows.{
  Above, AtMost, AllFull, AllFullTexts, texts, texts-append, collect_messages-texts, Above-drop,
  AllFull-take, delete_to-Above, delete_to-AtMost, AtMost-take, AtMost-delete_to, AllFull-delete_to,
  Above-delete_to,
}
use novena_gateway.Storage.Sqlite.Points.{time_point-Above, time_point-AtMost, time_point-bounded}
use novena_gateway.Storage.Sqlite.Selection.{drop-length-take}

abbrev pub reach_of : List Row → ℕ → ℕ
reach_of [] n = n
reach_of (r ∷ rs) n = length (r ∷ rs)

-- How many rows a selection returns now.
abbrev pub reach : SqliteStorage → ℕ
reach s = reach_of s.next_batch s.settings.max_read_records_count

pub record IsValid (s : SqliteStorage) : Type 0 where
  pub rising : Above 0 s.messages
  pub bounded : AtMost s.last_id s.messages
  pub full : AllFull s.messages
  pub queued : AllFullTexts s.write_queue
  pub prepared : s.next_batch ≡ take (length s.next_batch) s.messages
  pub point : s.delete_time_point ≤ s.last_id
  pub unread : Above s.delete_time_point (drop (reach s) s.messages)

-- The pack that is out is the first part of the table, up to the delete_time_point.
pub record Split (point : ℕ) (rows : List Row) (pack : List String) : Type 0 where
  pub first : List Row
  pub rest : List Row
  pub split : rows ≡ first ++ rest
  pub read : AtMost point first
  pub unread : Above point rest
  pub pack_of : texts first ≡ pack

abbrev pub OutOf : Bool → ℕ → List Row → List String → Type 0
OutOf true point rows pack = pack ≡ []
OutOf false point rows pack = Split point rows pack

abbrev pub IsOut : SqliteStorage → List String → Type 0
IsOut s pack = OutOf s.stopped s.delete_time_point s.messages pack

abbrev pub owed : SqliteStorage → List String
owed s = texts s.messages ++ s.write_queue

pub drop-reach : (n : ℕ) (rs : List Row) → drop (reach_of (take n rs) n) rs ≡ drop n rs
drop-reach zero rs = refl
drop-reach (suc n) [] = refl
drop-reach (suc n) (r ∷ rs) = drop-length-take n rs

pub put-owed :
    (e : String) (s : SqliteStorage) → owed (put e s).1 ≡ owed s ++ accepted_by e (put e s).0
unfolding put
put-owed e s = elim (Bool-cases s.stopped) [
  | inl stopped ↦ simp stopped (sym (append-nil (owed s)))
  | inr open_still ↦ simp open_still (sym (append_assoc (texts s.messages) s.write_queue (e ∷ [])))
]

queued-append :
    (ms : List String) (e : String)
    → AllFullTexts ms
    → is_blank e ≡ false
    → AllFullTexts (ms ++ e ∷ [])
queued-append [] e h full = (full, tt)
queued-append (m ∷ ms) e (f, h) full = (f, queued-append ms e h full)

pub put-IsValid :
    (e : String) (s : SqliteStorage) → is_blank e ≡ false → IsValid s → IsValid (put e s).1
unfolding put
put-IsValid e s full v = elim (Bool-cases s.stopped) [
  | inl stopped ↦ simp stopped v
  | inr open_still ↦ simp open_still (record {
    rising = v.rising;
    bounded = v.bounded;
    full = v.full;
    queued = queued-append s.write_queue e v.queued full;
    prepared = v.prepared;
    point = v.point;
    unread = v.unread;
  })
]

pub put-IsOut :
    (e : String) (s : SqliteStorage) (pack : List String) → IsOut s pack → IsOut (put e s).1 pack
unfolding put
put-IsOut e s pack h = elim (Bool-cases s.stopped) [
  | inl stopped ↦ simp stopped (simp stopped at h)
  | inr open_still ↦ simp open_still (simp open_still at h)
]

pub data_of-take :
    (batch : List Row) (s : SqliteStorage)
    → batch ≡ take (length batch) s.messages
    → data_of batch s ≡ take (reach_of batch s.settings.max_read_records_count) s.messages
data_of-take [] s h = refl
data_of-take (r ∷ rs) s h = h

pub get_event_pack-owed : (s : SqliteStorage) → owed (get_event_pack s).1 ≡ owed s
unfolding get_event_pack
get_event_pack-owed s = elim (Bool-cases s.stopped) [
  | inl stopped ↦ simp stopped refl
  | inr open_still ↦ simp open_still refl
]

-- After the selection, the point lies below what was not selected.
read-unread :
    (s : SqliteStorage)
    → IsValid s
    → Above (time_point s.delete_time_point (take (reach s) s.messages)) (drop (reach s) s.messages)
read-unread s v =
    time_point-Above 0 s.delete_time_point (take (reach s) s.messages) (drop (reach s) s.messages)
      (subst (Above 0) (sym (take-append-drop (reach s) s.messages)) v.rising) v.unread

pub get_event_pack-IsValid : (s : SqliteStorage) → IsValid s → IsValid (get_event_pack s).1
unfolding get_event_pack read_data
get_event_pack-IsValid s v = elim (Bool-cases s.stopped) [
  | inl stopped ↦ simp stopped v
  | inr open_still ↦
      let chosen = data_of-take s.next_batch s v.prepared in
      simp (open_still, chosen)
        (record {
          rising = v.rising;
          bounded = v.bounded;
          full = v.full;
          queued = v.queued;
          prepared = v.prepared;
          point =
              time_point-bounded s.delete_time_point s.last_id _ v.point
                (AtMost-take s.last_id (reach s) s.messages v.bounded);
          unread = read-unread s v;
        })
]

pub get_event_pack-IsOut :
    (s : SqliteStorage) → IsValid s → IsOut (get_event_pack s).1 (get_event_pack s).0
unfolding get_event_pack read_data
get_event_pack-IsOut s v = elim (Bool-cases s.stopped) [
  | inl stopped ↦ simp stopped refl
  | inr open_still ↦
      let chosen = data_of-take s.next_batch s v.prepared in
      let full = AllFull-take (reach s) s.messages v.full in
      simp (open_still, chosen)
        (record {
          first = take (reach s) s.messages;
          rest = drop (reach s) s.messages;
          split = sym (take-append-drop (reach s) s.messages);
          read = time_point-AtMost s.delete_time_point (take (reach s) s.messages) full;
          unread = read-unread s v;
          pack_of = sym (collect_messages-texts (take (reach s) s.messages) full);
        })
]

pub done-IsValid : (s : SqliteStorage) → IsValid s → IsValid (event_pack_processing_done s)
unfolding event_pack_processing_done
done-IsValid s v = elim (Bool-cases s.stopped) [
  | inl stopped ↦ simp stopped v
  | inr open_still ↦ simp open_still (record {
    rising = (Above-delete_to s.delete_time_point 0 s.messages v.rising).0;
    bounded = AtMost-delete_to s.last_id s.delete_time_point s.messages v.bounded;
    full = AllFull-delete_to s.delete_time_point s.messages v.full;
    queued = v.queued;
    prepared = refl;
    point = v.point;
    unread =
        Above-drop s.settings.max_read_records_count s.delete_time_point _
          (Above-delete_to s.delete_time_point 0 s.messages v.rising).1;
  })
]

pub done-owed :
    (s : SqliteStorage) (pack : List String)
    → IsOut s pack
    → owed s ≡ pack ++ owed (event_pack_processing_done s)
unfolding event_pack_processing_done
done-owed s pack h = elim (Bool-cases s.stopped) [
  | inl stopped ↦
      let none_out : pack ≡ [] = simp stopped at h in
      simp stopped (ap (λ t. t ++ owed s) (sym none_out))
  | inr open_still ↦
      let out : Split s.delete_time_point s.messages pack = simp open_still at h in
      simp open_still (
        ap (λ t. texts t ++ s.write_queue) out.split
        ∙ ap (λ t. t ++ s.write_queue)
            (texts-append out.first out.rest ∙ ap (λ t. t ++ texts out.rest) out.pack_of)
        ∙ append_assoc pack (texts out.rest) s.write_queue
        ∙ ap (λ t. pack ++ (texts t ++ s.write_queue))
            (sym (
              ap (delete_to s.delete_time_point) out.split
              ∙ delete_to-AtMost s.delete_time_point out.first out.rest out.read
              ∙ delete_to-Above s.delete_time_point out.rest out.unread)))
]
