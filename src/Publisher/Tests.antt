-- ===== src/Publisher/Tests.antt =====
-- The theorems on the publisher at concrete inputs, over the SQLite storage.
use novena_gateway.Common.{
  ℕ, zero, suc, ◌+◌, ◌≡◌, refl, ◌⊎◌, true, false, none, some, List, [], ◌∷◌, length, arith, ok,
}
use novena_gateway.Common.Int.{pos}
use novena_gateway.Json.{Value, null, str, obj, number, end, field, get_or, get_field, eq_value}
use novena_gateway.Storage.Sqlite.{put, Row, SqliteStorage, stop}
use novena_gateway.Storage.Sqlite.Valid.{IsValid}
use novena_gateway.Storage.Sqlite.Buffered.{sqlite}
use novena_gateway.Publisher.{publish, buffer_event, Event, Wire, Publisher, disconnect}
use novena_gateway.Publisher.Replay.{Flags, replay_turn}
use novena_gateway.Publisher.Replay.Acked.{AllSettled, replay_turn_storage}
use novena_gateway.Publisher.Session.{success, not_authorized, on_connect}
use novena_gateway.Publisher.Session.Fallback.{revoked_boots}
use novena_gateway.Publisher.Release.{
  Trust, aware, ResetSteps, handle_release, verify_release, check_target, check_claim,
  check_release_expiry, check_release_signature, reset_for, body_fields,
}
use novena_gateway.Publisher.Release.Sound.{Shown, Done, handle_release-Shown}
use novena_gateway.Publisher.Run.{
  Op, publish_payload, publish_next, replay_next, storage_work, connected, step, IsQuietStep,
  AllQuiet, run, held,
}
use novena_gateway.Publisher.Keeps.{tally}
use novena_gateway.Publisher.Kept.{run-balanced}
use novena_gateway.Publisher.Flush.{disconnect_forgets}

abbrev empty_storage : SqliteStorage
empty_storage = record {
  settings = record {
    max_read_records_count = 50;
    batch_size = 50;
    messages_ttl_check_in_hours = 3600;
  };
  messages = [];
  last_id = 0;
  write_queue = [];
  next_batch = [];
  can_prepare_new_batch = true;
  delete_time_point = 0;
  last_msg_check = 0;
  stopped = false;
}

empty-IsValid : IsValid empty_storage
empty-IsValid = record {
  rising = tt;
  bounded = tt;
  full = tt;
  queued = tt;
  prepared = refl;
  point = omega arith;
  unread = tt;
}

abbrev publisher : Publisher SqliteStorage
publisher = record {
  telemetry_topic = "v1/gateway/SN/telemetry";
  connected = false;
  stopped = false;
  bootstrap_mode = false;
  release_in_progress = false;
  claim_id = str "c1";
  max_queue_size = 10;
  queue = [];
  dropped_message_count = 0;
  last_replay_status = "idle";
  replay_failure_count = 0;
  serial_number = "SN";
  username = str "SN";
  password = str "pw";
  bootstrap = record { enabled = true; username = "boot"; password = "strap" };
  has_config_path = true;
  has_on_claim_changed = true;
  has_on_release = true;
  has_on_release_revoked = true;
  consecutive_failures = 0;
  activation_message_shown = false;
  release_request_id = none;
  operational_credentials_retired = false;
  storage = empty_storage;
  sent = [];
}

-- A text of an event is its topic; only one event is read back. The client refuses its second message.
abbrev event : Event
event = record {
  topic = "v1/gateway/SN/telemetry";
  payload = obj (field "claim_id" (str "c1") end);
  claim_id = str "c1";
}

abbrev wire : Wire
wire = record {
  dumps = λ e. "event";
  loads = λ t. some event;
  accepts = λ n e. elim n [ zero ↦ true | suc m ↦ false ];
}

abbrev flags : ℕ → Flags
flags i = record {
  stopped = false;
  connected = true;
  bootstrap_mode = false;
  release_in_progress = false;
  claim_id = str "c1";
}

-- An event is published offline, written by the storage's thread, and replayed after the connection.
abbrev ops : List (Op sqlite)
ops =
    publish_payload (obj end) none
    ∷ storage_work (7, 0, 50)
    ∷ connected success false
    ∷ replay_next flags
    ∷ publish_payload (obj end) none
    ∷ publish_next
    ∷ []

run-balanced_example :
    let (s', a) = run sqlite wire ops publisher in
    tally (λ t. true) (held sqlite wire s') + tally (λ t. true) a.gone
    ≡ tally (λ t. true) (held sqlite wire publisher) + tally (λ t. true) a.taken
run-balanced_example =
    run-balanced sqlite wire (λ e. refl) ops publisher (λ t. true)
      (unfold AllQuiet IsQuietStep step publish buffer_event put in
        (tt, (omega arith, (tt, (tt, (tt, (tt, tt)))))))
      empty-IsValid

abbrev waiting : Publisher SqliteStorage
waiting = record publisher { connected = true; queue = event ∷ [] }

abbrev row : Row
row = record { id = 1; timestamp = 7; message = "event" }

abbrev buffered : Publisher SqliteStorage
buffered = record publisher {
  connected = true;
  storage = record empty_storage { messages = row ∷ []; last_id = 1 };
}

replay_turn_storage_example :
    let (pack, t) = sqlite.get_event_pack buffered.storage in
    let s' = replay_turn wire sqlite flags buffered in
    (s'.storage ≡ buffered.storage)
    ⊎ ((s'.storage ≡ t)
        ⊎ ((s'.storage ≡ sqlite.event_pack_processing_done t)
            × AllSettled wire flags 0 (length buffered.sent) pack))
replay_turn_storage_example = replay_turn_storage wire sqlite flags buffered

disconnect_forgets_example :
    let s' = disconnect stop waiting in
    (s'.queue ≡ [])
    × (s'.storage ≡ stop waiting.storage)
    × (s'.dropped_message_count ≡ waiting.dropped_message_count)
disconnect_forgets_example = disconnect_forgets stop waiting refl refl

abbrev releasing : Publisher SqliteStorage
releasing = record publisher { release_in_progress = true; release_request_id = some "r1" }

revoked_boots_example :
    let s' = on_connect not_authorized true releasing in
    (s'.claim_id ≡ null)
    × (s'.bootstrap_mode ≡ true)
    × (s'.username ≡ str releasing.bootstrap.username)
    × (s'.password ≡ str releasing.bootstrap.password)
    × (s'.operational_credentials_retired ≡ true)
revoked_boots_example = revoked_boots releasing refl refl refl refl refl

abbrev order : Value
order = obj (
    field "schema_version" (number (pos 1)) (
      field "action" (str "release") (
        field "target" (obj (field "gateway_serial" (str "SN") end)) (
          field "request_id" (str "r1") (
            field "claim_id" (str "c1") (
              field "signing_key_id" (str "k1")
                (field "expires_at" (number (pos 90)) (field "signature" (str "s1") end))))))))

abbrev trust : Trust
trust = record {
  uuid_of = λ v. some "r1";
  expiry_of = λ v. some (aware (pos 90));
  b64decode = λ v. some (7 ∷ []);
  verify = λ key signature body. true;
  trusted_release_keys = λ v. some (str "key");
}

abbrev steps : ResetSteps
steps = record { written = true; cleared = true; recorded = true }

order_released : (handle_release trust steps (pos 40) order publisher).0 ≡ ok "r1"
unfolding handle_release verify_release check_target check_claim check_release_expiry
    check_release_signature reset_for body_fields get_or get_field eq_value
order_released = refl

handle_release-Shown_example :
    Shown trust (pos 40) order publisher
    × Done steps "r1" publisher (handle_release trust steps (pos 40) order publisher).1
handle_release-Shown_example =
    handle_release-Shown trust (pos 40) order publisher steps order_released
