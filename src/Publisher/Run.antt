-- ===== src/Publisher/Run.antt =====
-- Steps of the publisher's threads and callbacks, in any order, and the account of the events: what each
-- step takes in, and what leaves for good. `disconnect` with its flush and the release are not among
-- them.
use novena_gateway.Common.{
  ℕ, String, Bool, not, ◌&&◌, ◌||◌, Option, List, [], ◌∷◌, ◌++◌, length, map, ◌==◌, if◌then◌else◌,
}
use novena_gateway.Json.{Value}
use novena_gateway.Storage.Memory.{is_full}
use novena_gateway.Storage.Buffer.{EventStorage}
use novena_gateway.Publisher.{
  Event, Wire, Publisher, event_of, give, is_foreign, publish, publish_turn,
}
use novena_gateway.Publisher.Replay.{Flags, replay_events, replays, replay_turn}
use novena_gateway.Publisher.Session.{Reason, on_connect, on_disconnect}

module _ {S : Type 0} (storage : EventStorage S String) where
  pub data Op : Type 0 where
    publish_payload : Value → Option String → Op
    publish_next : Op
    replay_next : (ℕ → Flags) → Op
    storage_work : storage.Work → Op
    connected : Reason → Bool → Op
    disconnected : Reason → Op

  -- What was taken in and what left for good, as the texts of the events.
  pub record Account : Type 0 where
    pub taken : List String
    pub gone : List String

  abbrev pub nothing : Account
  nothing = record { taken = []; gone = [] }

  module _ (wire : Wire) where
    unfoldable pub step : Op → Publisher S → Publisher S
    step (publish_payload payload topic) s = publish storage wire payload topic s
    step publish_next s = publish_turn storage wire s
    step (replay_next flags) s = replay_turn wire storage flags s
    step (storage_work w) s = record s { storage = storage.work w s.storage }
    step (connected reason erased) s = on_connect reason erased s
    step (disconnected reason) s = on_disconnect reason s

    -- An event that the storage does not take is gone.
    abbrev pub refused : Event → Publisher S → List String
    refused e s =
        if s.release_in_progress
        then wire.dumps e ∷ []
        else if (storage.put (wire.dumps e) s.storage).0
        then []
        else wire.dumps e ∷ []

    abbrev pub oldest : List Event → List String
    oldest [] = []
    oldest (e ∷ es) = wire.dumps e ∷ []

    abbrev pub displaced : Publisher S → List String
    displaced s = if is_full s.max_queue_size (length s.queue) then oldest s.queue else []

    -- Of the event that `_publish_loop` takes: it stays only where the storage takes it.
    abbrev pub item_gone : Event → Publisher S → List String
    item_gone e s =
        if is_foreign e s || s.release_in_progress
        then wire.dumps e ∷ []
        else if s.connected && not s.bootstrap_mode
        then (if wire.accepts (length s.sent) e then wire.dumps e ∷ [] else refused e (give e s))
        else refused e s

    abbrev pub first_gone : List Event → Publisher S → List String
    first_gone [] s = []
    first_gone (e ∷ es) s = item_gone e (record s { queue = es })

    abbrev pub pack_gone : (ℕ → Flags) → List String → Publisher S → List String
    pack_gone flags [] s = []
    pack_gone flags (t ∷ ts) s =
        if (replay_events wire flags 0 (t ∷ ts) s).0 == length (t ∷ ts) then t ∷ ts else []

    abbrev pub account : Op → Publisher S → Account
    account (publish_payload payload topic) s = if s.release_in_progress then nothing else record {
      taken = wire.dumps (event_of payload topic s) ∷ [];
      gone = if s.connected then displaced s else refused (event_of payload topic s) s;
    }
    account publish_next s =
        if s.stopped then nothing else record { taken = []; gone = first_gone s.queue s }
    account (replay_next flags) s =
        if not (replays wire storage s)
        then nothing
        else if storage.len s.storage == 0
        then nothing
        else record {
          taken = [];
          gone =
              pack_gone flags (storage.get_event_pack s.storage).0
                (record s { storage = (storage.get_event_pack s.storage).1 });
        }
    account (storage_work w) s = nothing
    account (connected reason erased) s = nothing
    account (disconnected reason) s = nothing

    unfoldable pub run : List Op → Publisher S → Publisher S × Account
    run [] s = (s, nothing)
    run (op ∷ ops) s =
        let (s', a) = run ops (step op s) in
        let first = account op s in
        (s', record { taken = first.taken ++ a.taken; gone = first.gone ++ a.gone })

    -- The work of the storage removes nothing that it owes.
    unfoldable pub IsQuietStep : Op → Publisher S → Type 0
    IsQuietStep (storage_work w) s = storage.IsQuiet w s.storage
    IsQuietStep _ s = Unit {0}

    unfoldable pub AllQuiet : List Op → Publisher S → Type 0
    unfolding IsQuietStep
    AllQuiet [] s = Unit {0}
    AllQuiet (op ∷ ops) s = IsQuietStep op s × AllQuiet ops (step op s)

    -- What the publisher still holds: the queue, and what the storage owes.
    abbrev pub held : Publisher S → List String
    held s = map wire.dumps s.queue ++ storage.owed s.storage
