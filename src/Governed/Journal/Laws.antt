-- ===== src/Governed/Journal/Laws.antt =====
-- What `write` does to the commands, the sequences and the spool of `DurableCommandJournal`.
use novena_gateway.Common.{
  ◌≤◌, String, ◌≡◌, refl, ap, ◌∙◌, Option, none, some, [], ◌∷◌, ◌++◌, arith, str_eq, if◌then◌else◌,
  Result, ok, err, length, length-take_last, string_eq, Option-cases, inl, inr,
}
use novena_gateway.Common.Int.{ℤ, ◌≤ℤ◌, max_ℤ}
use novena_gateway.Common.Dict.{lookup, insert, lookup-insert}
use novena_gateway.Json.{Fault}
use novena_gateway.Governed.Journal.{
  Key, slot, commit, event_of, reconciliation_events, key_eq, eq_key_iff, Entry, State, File,
  Journal, spool_limit, spool, raise_sequence, sequence_at, persist, write, get_command,
  max_sequence,
}

-- Raising one sequence lowers none, and reaches the value asked for.
raise_sequence_mono :
    (k j : Key) (z : ℤ) (s : State) → sequence_at k s ≤ℤ sequence_at k (raise_sequence j z s)
unfolding raise_sequence
raise_sequence_mono k j z s =
    ground (arith, lookup-insert j k (max_ℤ z (sequence_at j s)) s.sequences, eq_key_iff j k)

raise_sequence_reached : (k : Key) (z : ℤ) (s : State) → z ≤ℤ sequence_at k (raise_sequence k z s)
unfolding raise_sequence
raise_sequence_reached k z s =
    ground (arith, lookup-insert k k (max_ℤ z (sequence_at k s)) s.sequences, eq_key_iff k k)

-- What is in memory does not depend on the dump.
pub state-persist :
    (dump : State → Option File) (s : State) (j : Journal) → (persist dump s j).1.state ≡ s
unfolding persist
state-persist dump s j = elim (Option-cases (dump s)) [
  | inl refused ↦ rw refused refl
  | inr (f, dumped) ↦ rw dumped refl
]

module _ (dump : State → Option File) (now : ℤ) (id : String) (r : Entry) where
  get_command-commit :
      (slot : Result Fault (ℤ × Option Key)) (other : String) (s : State) (j : Journal)
      → get_command other (commit dump now id r slot s j).1 ≡ lookup other s.commands
  unfolding get_command commit spool raise_sequence
  get_command-commit (err e) other s j = refl
  get_command-commit (ok (z, none)) other s j =
      ap (λ t. lookup other t.commands) (state-persist dump (spool now id r z s) j)
  get_command-commit (ok (z, some k)) other s j =
      ap (λ t. lookup other t.commands)
        (state-persist dump (spool now id r z (raise_sequence k z s)) j)

  -- The record is found under its command, and no other command's record changes.
  pub get_command-write :
      (other : String) (j : Journal)
      → get_command other (write dump now id r j).1
        ≡ (if str_eq id other then some r else get_command other j)
  unfolding get_command write
  get_command-write other j =
      get_command-commit (slot r) other (record j.state { commands = insert id r j.state.commands })
        j
      ∙ lookup-insert id other r j.state.commands

  commit_mono :
      (slot : Result Fault (ℤ × Option Key)) (k : Key) (s : State) (j : Journal)
      → sequence_at k s ≤ℤ max_sequence k (commit dump now id r slot s j).1
  unfolding max_sequence commit
  commit_mono (err e) k s j = omega arith
  commit_mono (ok (z, none)) k s j = rw (state-persist dump (spool now id r z s) j) (omega arith)
  commit_mono (ok (z, some key)) k s j =
      rw (state-persist dump (spool now id r z (raise_sequence key z s)) j)
        (raise_sequence_mono k key z s)

  -- No write lowers the highest sequence of a device.
  pub sequence_mono :
      (k : Key) (j : Journal) → max_sequence k j ≤ℤ max_sequence k (write dump now id r j).1
  unfolding max_sequence write
  sequence_mono k j =
      commit_mono (slot r) k (record j.state { commands = insert id r j.state.commands }) j

  -- A write whose number and device are in order records its number for the device.
  pub sequence_reached :
      (k : Key) (z : ℤ) (j : Journal)
      → slot r ≡ ok (z, some k)
      → z ≤ℤ max_sequence k (write dump now id r j).1
  unfolding max_sequence write spool
  sequence_reached k z j h =
      let s = record j.state { commands = insert id r j.state.commands } in
      rw h (
        unfold commit in
        rw (state-persist dump (spool now id r z (raise_sequence k z s)) j)
          (raise_sequence_reached k z s))

  commit_spool :
      (slot : Result Fault (ℤ × Option Key)) (s : State) (j : Journal)
      → length s.events ≤ spool_limit
      → length (commit dump now id r slot s j).1.state.events ≤ spool_limit
  unfolding commit spool raise_sequence
  commit_spool (err e) s j h = h
  commit_spool (ok (z, none)) s j h =
      rw (state-persist dump (spool now id r z s) j)
        (omega (arith, length-take_last spool_limit (s.events ++ event_of now id r z ∷ [])))
  commit_spool (ok (z, some k)) s j h =
      rw (state-persist dump (spool now id r z (raise_sequence k z s)) j)
        (omega (arith, length-take_last spool_limit (s.events ++ event_of now id r z ∷ [])))

  -- The spool of events never passes its limit.
  pub spool_bounded :
      (j : Journal)
      → length (reconciliation_events j) ≤ spool_limit
      → length (reconciliation_events (write dump now id r j).1) ≤ spool_limit
  unfolding write
  spool_bounded j h =
      commit_spool (slot r) (record j.state { commands = insert id r j.state.commands }) j h
