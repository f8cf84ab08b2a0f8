-- ===== src/Publisher/Replay.antt =====
-- `_replay_loop` of the publisher: a pack of buffered events is sent again, and acknowledged to the
-- storage where all of it was sent.
pub mod Acked
use novena_gateway.Common.{
  ℕ, zero, suc, ◌+◌, String, Bool, true, false, not, ◌&&◌, ◌||◌, Option, none, some, List, [], ◌∷◌,
  ◌++◌, length, ◌==◌, if◌then◌else◌,
}
use novena_gateway.Storage.Buffer.{EventStorage}
use novena_gateway.Publisher.{Event, Wire, Publisher, give}
use novena_gateway.Json.{Value, eq_value}

-- The fields that other threads may change while a pack is sent, as the loop reads them for an event.
pub record Flags : Type 0 where
  pub stopped : Bool
  pub connected : Bool
  pub bootstrap_mode : Bool
  pub release_in_progress : Bool
  pub claim_id : Value

-- `event.get("claim_id") != self._claim_id`
abbrev pub other_claim : Event → Value → Bool
other_claim e claim = not (eq_value e.claim_id claim)

abbrev pub breaks : Flags → Bool
breaks f = f.stopped || not f.connected || f.release_in_progress

module _ {S : Type 0} where
  abbrev pub go_on : (Publisher S → ℕ × Publisher S) → Bool × ℕ × Publisher S → ℕ × Publisher S
  go_on rest (false, n, s) = (n, s)
  go_on rest (true, n, s) = let (m, s') = rest s in (n + m, s')

module _ {S : Type 0} (wire : Wire) where
  -- One event that was read: whether the loop goes on, the success, and the publisher.
  abbrev pub replay_read : Flags → Option Event → Publisher S → Bool × ℕ × Publisher S
  replay_read f none s = (true, 0, s)
  replay_read f (some e) s =
      if other_claim e f.claim_id
      then (true, 1, s)
      else if f.bootstrap_mode
      then (false, 0, s)
      else (true, (if wire.accepts (length s.sent) e then 1 else 0), give e s)

  -- `for event_str in pack`, with what the loop reads of the flags before each event: the number of
  -- successes, and the publisher.
  unfoldable pub replay_events : (ℕ → Flags) → ℕ → List String → Publisher S → ℕ × Publisher S
  replay_events flags i [] s = (0, s)
  replay_events flags i (t ∷ ts) s =
      let rest = replay_events flags (suc i) ts in
      if breaks (flags i) then (0, s) else go_on rest (replay_read (flags i) (wire.loads t) s)

  module _ (storage : EventStorage S String) where
    -- What follows a pack: the acknowledgement, or the count of the failure.
    abbrev pub settle : ℕ → List String → Publisher S → Publisher S
    settle successes pack s =
        if successes == length pack
        then record s {
          storage = storage.event_pack_processing_done s.storage;
          last_replay_status = "success";
        }
        else record s {
          last_replay_status = "partial_failure";
          replay_failure_count = s.replay_failure_count + 1;
        }

    abbrev pub replay_pack : (ℕ → Flags) → List String → Publisher S → Publisher S
    replay_pack flags [] s = s
    replay_pack flags (t ∷ ts) s =
        let (successes, s') = replay_events flags 0 (t ∷ ts) s in settle successes (t ∷ ts) s'

    abbrev pub replays : Publisher S → Bool
    replays s = not s.stopped && s.connected && not s.bootstrap_mode && not s.release_in_progress

    -- One turn of `_replay_loop`.
    unfoldable pub replay_turn : (ℕ → Flags) → Publisher S → Publisher S
    replay_turn flags s =
        if not (replays s)
        then s
        else if storage.len s.storage == 0
        then record s { last_replay_status = "complete" }
        else (let (pack, t) = storage.get_event_pack s.storage in
            replay_pack flags pack (record s { storage = t }))
