-- ===== src/Rpc/Tests.antt =====
-- The dispatch of commands and the write of a device at concrete inputs.
use novena_gateway.Common.{
  String, string_eq, nat_eq, ◌≡◌, ◌≢◌, ◌↔◌, refl, true, false, none, some, [], ◌∷◌, ok,
}
use novena_gateway.Common.Int.{pos, ◌-ℤ◌}
use novena_gateway.Common.Dict.{lookup, insert}
use novena_gateway.Json.{
  Value, null, bool, str, obj, number, Fields, end, field, get, get_or, get_field, index, to_int,
  to_float, eq_value, eq_decimal, parse_int, finite, ltb_float, ltb_decimal, mem_items, truthy,
}
use novena_gateway.Governed.Samples.{
  platform, control, guard, moment, params, envelope, attributes, clock,
}
use novena_gateway.Governed.Journal.{
  key_of, get_command, max_sequence, write, slot, commit, raise_sequence, spool, persist,
}
use novena_gateway.Governed.Guard.{
  Guard, Error, verify_signed, signature_holds, trusted_key, known_key, parse_stamp,
  executing_entry, text_key, mark_executing, mark_terminal,
}
use novena_gateway.Governed.Validate.{
  signed_body, signed_wire, check_identity, check_identities, check_mapping, check_allowed,
  check_minimum, check_maximum, check_limits, check_existing, check_sequence, check_journal,
  check_target, check_window, control_epoch, check_epoch, check_control, check_value, check_signed,
  check_times, find_control, validate, mem_of,
}
use novena_gateway.Governed.Validate.Once.{here}
use novena_gateway.Governed.Prerequisites.{
  has_key, blocks_remote, check_equals, check_in, check_seen, check_age, matching, source_of,
  check_prerequisite, check_all, listed, enforce_prerequisites, value_at,
}
use novena_gateway.RemoteConfig.Edits.{set_field}
use novena_gateway.Rpc.Response.{find_response_error}
use novena_gateway.Rpc.Response.Clean.{IsClean, no_error_iff_IsClean}
use novena_gateway.Rpc.Device.{
  Registry, Request, decimal, matches, single, resolve_canonical_device, named_device,
  function_code_of, validate_int_param, validate_timeout, value_of, optional_count, optional_param,
  write_request, prepare_write,
}
use novena_gateway.Rpc.Device.Sound.{Sendable, prepare_write_sound}
use novena_gateway.Rpc.Device.Unchecked.{write_ignores_expected_value}
use novena_gateway.Rpc.Dispatch.{
  Accepted, changes_state, is_signed_diagnostic, request_id_of, method_of, is_ours, unless_replayed,
  check_write, check_command, govern_command, govern, govern_diagnostic, on_rpc_request,
}
use novena_gateway.Rpc.Dispatch.Execute.{
  Commands, execute, start_governed, start_marked, run_and_settle, run_command, settle, conclude_at,
  conclude, or_fail, accepted_by_device, wanted_read_back, stage_of,
}
use novena_gateway.Rpc.Dispatch.Guarded.{accepted_is_validated}
use novena_gateway.Rpc.Dispatch.Once.{calls_of, execute_ignores_journal, executed_not_accepted}

abbrev describe : Error → String
describe e = "rejected"

abbrev commands : Commands
commands = record {
  run = λ method given. ok (obj (field "device_accepted" (bool true) end));
  read_device = λ given. ok null;
  describe = λ e. "failed";
  clock = clock;
  attributes = attributes;
  devices = [];
}

abbrev accepted : Accepted
accepted = record {
  request_id = "r1";
  method = "write_device";
  params = params;
  control = some control;
}

accepts : on_rpc_request platform describe true guard moment (str "online") envelope ≡ ok accepted
unfolding on_rpc_request request_id_of method_of govern_diagnostic is_signed_diagnostic govern
    govern_command check_command is_ours check_write changes_state unless_replayed validate
    check_signed verify_signed signature_holds trusted_key known_key check_identities check_identity
    check_mapping check_limits check_allowed check_minimum check_maximum mem_of check_existing
    check_sequence check_journal check_target check_window control_epoch check_epoch check_control
    check_value check_times find_control signed_body signed_wire text_key parse_stamp get_or
    get_field index to_int to_float eq_value eq_decimal parse_int ltb_float ltb_decimal mem_items
    key_of get_command max_sequence lookup ◌-ℤ◌
accepts = refl

changes : changes_state accepted.method ≡ true
unfolding changes_state
changes = refl

accepted_is_validated_example :
    (true ≡ true)
    × (c : Value) × (accepted.control ≡ some c)
    × (validate platform guard moment envelope ≡ ok (c, none))
accepted_is_validated_example =
    accepted_is_validated platform describe true guard moment (str "online") envelope accepted
      accepts changes

runs : calls_of (execute platform commands (pos 150) envelope accepted guard).0 ≢ []
unfolding execute changes_state enforce_prerequisites check_all check_prerequisite source_of
    matching check_equals check_in check_age check_seen has_key value_at blocks_remote listed get_or
    get_field index eq_value mem_of start_governed start_marked mark_executing executing_entry
    text_key write slot commit raise_sequence spool persist insert key_of to_int lookup
    run_and_settle run_command accepted_by_device wanted_read_back settle conclude_at stage_of
    conclude or_fail mark_terminal
runs h = cc

-- The gateway after the write, and a request under the same id that changes no state.
abbrev written : Guard
written = (execute platform commands (pos 150) envelope accepted guard).1

abbrev ping : Value
ping = obj (
    field "request_id" (str "r2") (field "method" (str "ping") (field "command_id" (str "c1") end)))

abbrev pinged : Accepted
pinged = record { request_id = "r2"; method = "ping"; params = obj end; control = none }

accepts_ping : on_rpc_request platform describe true written moment (str "online") ping ≡ ok pinged
unfolding on_rpc_request request_id_of method_of govern_diagnostic is_signed_diagnostic govern
    changes_state get_or get_field eq_value
accepts_ping = refl

same_command : get ping "command_id" ≡ get envelope "command_id"
unfolding get_or get_field
same_command = refl

executed_not_accepted_example : changes_state "ping" ≡ false
executed_not_accepted_example =
    executed_not_accepted platform describe commands (pos 150) true guard written moment
      (str "online") envelope ping accepted pinged changes runs here same_command accepts_ping

both_marked :
    (mark_executing platform (pos 150) envelope guard).0
    ≡ (mark_executing platform (pos 150) envelope written).0
unfolding mark_executing executing_entry text_key write slot commit raise_sequence spool persist
    insert get_or get_field index key_of to_int lookup
both_marked = refl

execute_ignores_journal_example :
    calls_of (execute platform commands (pos 150) envelope accepted guard).0
    ≡ calls_of (execute platform commands (pos 150) envelope accepted written).0
execute_ignores_journal_example =
    execute_ignores_journal platform commands (pos 150) envelope accepted guard written both_marked

abbrev registry : Registry
registry = ("pump", record { device_id = str "d1"; connector = some "plc" }) ∷ []

abbrev write_fields : Fields
write_fields = field "device_id" (str "d1") (
    field "functionCode" (number (pos 6)) (
      field "address" (number (pos 40))
        (field "value" (number (pos 500)) (field "expected_value" (number (pos 5)) end))))

abbrev request : Request
request = record {
  device_name = "pump";
  connector = "plc";
  function_code = pos 6;
  address = pos 40;
  value = number (pos 500);
  timeout = finite (decimal (pos 50) 1);
  data_type = none;
  count = none;
}

prepares : prepare_write (λ v. "") registry (obj write_fields) ≡ ok request
unfolding prepare_write named_device resolve_canonical_device matches single function_code_of
    validate_int_param validate_timeout value_of optional_count optional_param write_request has_key
    get_or get_field to_int to_float ltb_float ltb_decimal eq_value
prepares = refl

prepare_write_sound_example : Sendable (λ v. "") registry (obj write_fields) request
prepare_write_sound_example =
    prepare_write_sound (λ v. "") registry (obj write_fields) request prepares

write_ignores_expected_value_example :
    prepare_write (λ v. "") registry (obj (set_field "expected_value" null write_fields))
    ≡ prepare_write (λ v. "") registry (obj write_fields)
write_ignores_expected_value_example =
    write_ignores_expected_value null write_fields (λ v. "") registry

abbrev answer : Value
answer = obj (field "success" (bool true) (field "error" null end))

no_error_iff_IsClean_example :
    (truthy (find_response_error (λ v. "text") answer) ≡ false) ↔ IsClean answer
no_error_iff_IsClean_example = no_error_iff_IsClean (λ v. "text") (λ v h. refl) answer
