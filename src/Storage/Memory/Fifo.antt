-- ===== src/Storage/Memory/Fifo.antt =====
-- The storage is a bounded queue: events leave in the order in which they were accepted, each once,
-- and a pack is handed out again until it is acknowledged.
use novena_gateway.Common.{
  ℕ, suc, ◌≤◌, ◌≡◌, refl, sym, ap, ◌∙◌, Bool, true, false, List, [], ◌∷◌, ◌++◌, length, min, arith,
  take-append-drop, length-append, length-drop, Bool-cases, inl, inr,
}
use mathlib.Core.List.{append_assoc, append-nil}
use novena_gateway.Storage.Memory.{
  Storage, is_full, put, get_event_pack, event_pack_processing_done, stop, len, read,
}

pub data Op (A : Type 0) : Type 0 where
  put_event : A → Op A
  get_pack : Op A
  processing_done : Op A
  stop_storage : Op A

module _ {A : Type 0} where
  -- What the storage still owes: the pack that is out, and then the queue.
  abbrev pub owed : Storage A → List A
  owed s = s.event_pack ++ s.events_queue

  abbrev accepted_by : A → Bool → List A
  accepted_by event true = event ∷ []
  accepted_by event false = []

  -- A step, with the events that it accepted and those that it was told are processed.
  unfoldable pub step : Op A → Storage A → Storage A × List A × List A
  step (put_event e) s = let (taken, s') = put e s in (s', accepted_by e taken, [])
  step get_pack s = ((get_event_pack s).1, [], [])
  step processing_done s = (event_pack_processing_done s, [], s.event_pack)
  step stop_storage s = (stop s, [], [])

  unfoldable pub run : List (Op A) → Storage A → Storage A × List A × List A
  unfolding step
  run [] s = (s, [], [])
  run (op ∷ ops) s =
      let (s', accepted, done) = step op s in
      let (s'', accepted', done') = run ops s' in (s'', accepted ++ accepted', done ++ done')

  read-owed :
      (n : ℕ) (pack : List A) (s : Storage A) → s.event_pack ≡ pack → owed (read n pack s) ≡ owed s
  read-owed n [] s h = take-append-drop n s.events_queue ∙ rw h
  read-owed n (e ∷ es) s h = refl

  -- Each step keeps the order: what was owed and what comes in is what goes out and is still owed.
  step-owed :
      (op : Op A) (s : Storage A)
      → let (s', accepted, done) = step op s in done ++ owed s' ≡ owed s ++ accepted
  unfolding step put get_event_pack event_pack_processing_done stop
  step-owed (put_event e) s = elim (Bool-cases s.stopped) [
    | inl stopped ↦ rw stopped (sym (append-nil (owed s)))
    | inr open_still ↦ elim (Bool-cases (is_full s.max_records_count (length s.events_queue))) [
      | inl full ↦ rw (open_still, full) (sym (append-nil (owed s)))
      | inr room ↦ rw (open_still, room) (sym (append_assoc s.event_pack s.events_queue (e ∷ [])))
    ]
  ]
  step-owed get_pack s =
      read-owed (min s.read_records_count (length s.events_queue)) s.event_pack s refl
      ∙ sym (append-nil (owed s))
  step-owed processing_done s = sym (append-nil (owed s))
  step-owed stop_storage s = sym (append-nil (owed s))

  -- Over any run, the events that were acknowledged and then those still owed are, in order, those
  -- that were owed at the start and then those that were accepted: none is lost, none twice.
  pub run-owed :
      (ops : List (Op A)) (s : Storage A)
      → let (s', accepted, done) = run ops s in done ++ owed s' ≡ owed s ++ accepted
  unfolding run
  run-owed [] s = sym (append-nil (owed s))
  run-owed (op ∷ ops) s =
      let (s', accepted, done) = step op s in
      let (s'', accepted', done') = run ops s' in
      append_assoc done done' (owed s'')
      ∙ ap (λ l. done ++ l) (run-owed ops s')
      ∙ sym (append_assoc done (owed s') accepted')
      ∙ ap (λ l. l ++ accepted') (step-owed op s)
      ∙ append_assoc (owed s) accepted accepted'

  -- The queue never holds more than its limit, where it has one.
  pub step-bounded :
      (op : Op A) (s : Storage A) (m : ℕ)
      → s.max_records_count ≡ suc m
      → len s ≤ suc m
      → len (step op s).0 ≤ suc m
  unfolding step put get_event_pack event_pack_processing_done stop len
  step-bounded (put_event e) s m limit h =
      ground (arith, length-append s.events_queue (e ∷ []), limit)
  step-bounded get_pack s m limit h =
      ground (arith, length-drop (min s.read_records_count (length s.events_queue)) s.events_queue)
  step-bounded processing_done s m limit h = h
  step-bounded stop_storage s m limit h = h
