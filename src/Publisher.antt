-- ===== src/Publisher.antt =====
-- `NovenaMqttPublisher` of novena_gateway/gateway/novena_mqtt_publisher.py: the queue of the messages to
-- send, the storage that buffers them, and the claim to which they belong. The storage is any that
-- fills `EventStorage`.
pub mod Replay
pub mod Session
pub mod Run
pub mod Keeps
pub mod Kept
pub mod Claims
pub mod Release
pub mod Flush
mod Tests
use novena_gateway.Common.{
  ℕ, zero, suc, ◌+◌, ◌-◌, String, Bool, true, false, not, ◌&&◌, ◌||◌, Option, none, some, List, [],
  ◌∷◌, ◌++◌, length, drop, any, str_eq, if◌then◌else◌,
}
use novena_gateway.Json.{Value, null, obj, Fields, truthy, eq_value, codes, eq_codes}
use novena_gateway.RemoteConfig.Edits.{set_field}
use novena_gateway.Storage.Memory.{is_full}
use novena_gateway.Storage.Buffer.{EventStorage}

-- A message with its topic and the claim under which it was published, as it stands in the queue.
pub record Event : Type 0 where
  pub topic : String
  pub payload : Value
  pub claim_id : Value

-- What the publisher takes from outside: the text of an event in the storage and its reading, none
-- where it raises, and the answer of the MQTT client to the n-th message that it is given.
pub record Wire : Type 0 where
  pub dumps : Event → String
  pub loads : String → Option Event
  pub accepts : ℕ → Event → Bool

-- `bootstrap` of the configuration: whether it is enabled, and its credentials, empty where missing.
pub record Bootstrap : Type 0 where
  pub enabled : Bool
  pub username : String
  pub password : String

-- The publisher. `sent` is what the client was given of the queue and of the storage, in order. Whether
-- a configuration file and the callbacks are set are tests; what is kept for diagnostics only is left
-- out.
pub record Publisher (S : Type 0) : Type 0 where
  pub telemetry_topic : String
  pub connected : Bool
  pub stopped : Bool
  pub bootstrap_mode : Bool
  pub release_in_progress : Bool
  pub claim_id : Value
  pub max_queue_size : ℕ
  pub queue : List Event
  pub dropped_message_count : ℕ
  pub last_replay_status : String
  pub replay_failure_count : ℕ
  pub serial_number : String
  pub username : Value
  pub password : Value
  pub bootstrap : Bootstrap
  pub has_config_path : Bool
  pub has_on_claim_changed : Bool
  pub has_on_release : Bool
  pub has_on_release_revoked : Bool
  pub consecutive_failures : ℕ
  pub activation_message_shown : Bool
  pub release_request_id : Option String
  pub operational_credentials_retired : Bool
  pub storage : S
  pub sent : List Event

abbrev pub ends_with : String → String → Bool
ends_with suffix s =
    eq_codes (drop (length (codes s) - length (codes suffix)) (codes s)) (codes suffix)

abbrev pub with_key : Value → Value → Value
with_key claim (obj fs) = obj (set_field "claim_id" claim fs)
with_key claim v = v

-- `_with_claim_id`, of a payload that is a dict.
unfoldable pub with_claim_id : Value → Value → String → Value
with_claim_id claim payload topic =
    if truthy claim && any (λ suffix. ends_with suffix topic) ("/telemetry" ∷ "/logs" ∷ [])
    then with_key claim payload
    else payload

abbrev pub or_topic : Option String → String → String
or_topic none t = t
or_topic (some s) t = if str_eq s "" then t else s

abbrev pub tail : List Event → List Event
tail [] = []
tail (e ∷ es) = es

module _ {S : Type 0} where
  -- The queue of a connected publisher: a full one loses its oldest message.
  unfoldable pub enqueue : Event → Publisher S → Publisher S
  enqueue e s =
      if is_full s.max_queue_size (length s.queue)
      then record s {
        queue = tail s.queue ++ e ∷ [];
        dropped_message_count = s.dropped_message_count + 1;
      }
      else record s { queue = s.queue ++ e ∷ [] }

  -- The message that `publish` makes of its arguments.
  abbrev pub event_of : Value → Option String → Publisher S → Event
  event_of payload topic s = record {
    topic = or_topic topic s.telemetry_topic;
    payload = with_claim_id s.claim_id payload (or_topic topic s.telemetry_topic);
    claim_id = s.claim_id;
  }

  abbrev pub give : Event → Publisher S → Publisher S
  give e s = record s { sent = s.sent ++ e ∷ [] }

  -- `claim_id != self._claim_id`
  abbrev pub is_foreign : Event → Publisher S → Bool
  is_foreign e s = not (eq_value e.claim_id s.claim_id)

  abbrev pub flush_items : List Event → Publisher S → Publisher S
  flush_items [] s = record s { queue = [] }
  flush_items (e ∷ es) s = flush_items es (if is_foreign e s then s else give e s)

  -- `_flush_queue`, while the connection stays as it is.
  unfoldable pub flush_queue : Publisher S → Publisher S
  flush_queue s = if s.connected && not s.bootstrap_mode then flush_items s.queue s else s

  -- A message that the storage does not take is counted as dropped.
  abbrev pub counted : Bool × S → Publisher S → Publisher S
  counted (true, t) s = record s { storage = t }
  counted (false, t) s = record s {
    storage = t;
    dropped_message_count = s.dropped_message_count + 1;
  }

module _ {S : Type 0} (storage : EventStorage S String) (wire : Wire) where
  -- `_buffer_event`, and the count of its callers: during a release the message is thrown away.
  unfoldable pub buffer_event : Event → Publisher S → Publisher S
  buffer_event e s =
      if s.release_in_progress then s else counted (storage.put (wire.dumps e) s.storage) s

  unfoldable pub publish : Value → Option String → Publisher S → Publisher S
  publish payload topic s =
      if s.release_in_progress
      then s
      else if s.connected
      then enqueue (event_of payload topic s) s
      else buffer_event (event_of payload topic s) s

  -- The rest of a turn of `_publish_loop`, with the message that it took from the queue.
  unfoldable pub publish_item : Event → Publisher S → Publisher S
  publish_item e s =
      if is_foreign e s || s.release_in_progress
      then s
      else if s.connected && not s.bootstrap_mode
      then (if wire.accepts (length s.sent) e then give e s else buffer_event e (give e s))
      else buffer_event e s

  abbrev pub publish_first : List Event → Publisher S → Publisher S
  publish_first [] s = s
  publish_first (e ∷ es) s = publish_item e (record s { queue = es })

  -- One turn of `_publish_loop`.
  unfoldable pub publish_turn : Publisher S → Publisher S
  publish_turn s = if s.stopped then s else publish_first s.queue s

-- `disconnect`, up to the calls of the client; `stop` is that of the storage.
unfoldable pub disconnect : {S : Type 0} → (S → S) → Publisher S → Publisher S
unfolding flush_queue
disconnect stop s = flush_queue (record s { stopped = true; storage = stop s.storage })
