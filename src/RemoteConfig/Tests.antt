-- ===== src/RemoteConfig/Tests.antt =====
-- A signed configuration envelope, and the updates that it leads to, at concrete inputs.
use novena_gateway.Common.{
  ℕ, String, string_eq, nat_eq, ◌≡◌, ◌⊎◌, refl, true, none, some, [], ◌∷◌, ok,
}
use novena_gateway.Common.Int.{pos, ◌<ℤ◌}
use novena_gateway.Common.Dict.{lookup, insert}
use novena_gateway.Json.{
  Value, null, str, arr, obj, number, nil, cons, Fields, end, field, get_or, get_field, index,
  to_int, eq_value, eq_decimal,
}
use novena_gateway.Governed.Samples.{platform, moment}
use novena_gateway.Governed.Guard.{trusted_key}
use novena_gateway.Governed.Validate.{signed_body}
use novena_gateway.Setup.{
  EnvelopeGuard, ready, check_signature, signed_by, check_addressee, check_expiry, parse_expiry,
  check_config, check_revision, known_or_new, replay_of, verify, record_result, record_request,
  prune,
}
use novena_gateway.Setup.Sound.{Shown, verify-Shown}
use novena_gateway.Setup.Once.{HasRevision, here, revisions_increase}
use novena_gateway.RemoteConfig.{
  Site, Status, Surroundings, unknown_status, apply_config_with_rollback, apply_over, started,
  decide, succeed, failures_of, normalize_connector_results, ensure_last_known_good, connectors_of,
}
use novena_gateway.RemoteConfig.Rollback.{Ended, good_of, apply_config-Ended}
use novena_gateway.RemoteConfig.Edits.{
  set_field, set_key, has_named, append_item, read_connectors, name_of, edit_add,
}
use novena_gateway.RemoteConfig.Update.{on_config_update}
use novena_gateway.RemoteConfig.Refused.{unverified_changes_nothing}

abbrev guard_with : ℕ → EnvelopeGuard
guard_with n = record {
  serial_number = "GW1";
  trusted_clock = true;
  keys = ("k1", 1 ∷ []) ∷ [];
  journal = record { max_revision = pos n; requests = [] };
}

abbrev guard : EnvelopeGuard
guard = guard_with 0

abbrev config : Fields
config = field "connectors" (arr nil) end

abbrev body_fields : ℕ → String → Fields
body_fields n key = field "schema_version" (number (pos 1)) (
    field "target" (obj (field "gateway_serial" (str "GW1") end)) (
      field "request_id" (str "r1") (
        field "idempotency_key" (str key) (
          field "expires_at" (str "expires") (
            field "config" (obj config)
              (field "checksum" (str "sum") (field "revision" (number (pos n)) end)))))))

abbrev envelope : ℕ → String → Value
envelope n key =
    obj (field "signature" (str "s") (field "signing_key_id" (str "k1") (body_fields n key)))

abbrev body : ℕ → String → Value
body n key = obj (body_fields n key)

accepts_first : verify platform guard moment (envelope 1 "a") ≡ ok (body 1 "a", none)
unfolding verify ready check_signature signed_by trusted_key check_addressee check_expiry
    parse_expiry check_config known_or_new check_revision replay_of signed_body get_or get_field
    index to_int eq_value eq_decimal lookup
accepts_first = refl

verify-Shown_example : Shown platform guard moment (envelope 1 "a")
verify-Shown_example = verify-Shown platform guard moment (envelope 1 "a") accepts_first

abbrev recorded : EnvelopeGuard
recorded = record guard {
  journal = record {
    max_revision = pos 1;
    requests = ("a", record { revision = pos 1; result = null }) ∷ [];
  };
}

records : record_result platform (body 1 "a") null guard ≡ ok recorded
unfolding record_result record_request prune insert index get_field to_int
records = refl

accepts_second : verify platform recorded moment (envelope 2 "b") ≡ ok (body 2 "b", none)
unfolding verify ready check_signature signed_by trusted_key check_addressee check_expiry
    parse_expiry check_config known_or_new check_revision replay_of signed_body get_or get_field
    index to_int eq_value eq_decimal lookup
accepts_second = refl

first_numbered : HasRevision (body 1 "a") (pos 1)
unfolding index get_field to_int
first_numbered = (number (pos 1), refl, refl)

second_numbered : HasRevision (body 2 "b") (pos 2)
unfolding index get_field to_int
second_numbered = (number (pos 2), refl, refl)

revisions_increase_example : pos 1 <ℤ pos 2
revisions_increase_example =
    revisions_increase platform moment moment guard recorded recorded (envelope 1 "a")
      (envelope 2 "b") (body 1 "a") (body 2 "b") null (pos 1) (pos 2) accepts_first first_numbered
      records here accepts_second second_numbered

abbrev surroundings : Surroundings
surroundings = record {
  first_start = λ v. some nil;
  second_start = λ v. some nil;
  redact_text = λ s. s;
  text_of = λ v. "";
  validate_config = λ v. [];
  replay_value = λ s. null;
  describe = λ e. "failed";
}

abbrev site : Site
site = record {
  config_file = some (obj end);
  last_known_good = none;
  backups = [];
  running = obj end;
  startup_status = "ready";
  connector_start_results = nil;
  last_update_status = unknown_status;
  guard = guard;
  calls = [];
}

abbrev applied : Status
applied = record unknown_status {
  config_update_status = "success";
  config_version_ts = some (pos 7);
  action = some "full_update";
}

applies :
    (apply_config_with_rollback surroundings 3 (pos 7) "full_update" (obj config) site).0
    ≡ ok applied
unfolding apply_config_with_rollback apply_over started decide succeed failures_of
    normalize_connector_results ensure_last_known_good
applies = refl

apply_config-Ended_example :
    Ended
      (obj config)
      (obj end)
      (good_of site)
      applied
      (apply_config_with_rollback surroundings 3 (pos 7) "full_update" (obj config) site).1
apply_config-Ended_example =
    apply_config-Ended surroundings 3 (pos 7) "full_update" (obj config) (obj end) site refl applies

abbrev connector : Value
connector = obj (field "name" (str "plc") end)

adds :
    edit_add connector (obj config) ≡ ok (obj (field "connectors" (arr (cons connector nil)) end))
unfolding edit_add name_of read_connectors connectors_of has_named append_item set_key set_field
    get_or get_field
adds = refl

unverified_changes_nothing_example :
    ((on_config_update platform surroundings 3 (pos 7) moment (str "online") null site).1 ≡ site)
    ⊎ ((b : Value) × (verify platform guard moment null ≡ ok (b, none)))
unverified_changes_nothing_example =
    unverified_changes_nothing platform surroundings 3 (pos 7) moment (str "online") null site
