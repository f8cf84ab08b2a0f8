-- ===== src/Governed/Tests.antt =====
-- The governed command guard at concrete inputs.
use novena_gateway.Common.{
  ℕ, String, string_eq, nat_eq, ◌≡◌, ◌≢◌, refl, true, none, some, List, [], ◌∷◌, ok,
}
use novena_gateway.Common.Int.{ℤ, pos, ◌<ℤ◌, ◌-ℤ◌}
use novena_gateway.Common.Dict.{lookup, insert}
use novena_gateway.Json.{
  Value, null, special, nan, finite, str, obj, number, end, field, get, get_or, get_field, index,
  to_int, to_float, eq_value, eq_decimal, or_dict, parse_int, ltb_float, ltb_decimal, mem_items,
}
use novena_gateway.Governed.Samples.{
  platform, control, bundle, guard_with, guard, moment, params, command, envelope, attributes,
  clock,
}
use novena_gateway.Governed.Journal.{
  Journal, Entry, key_of, key_eq, name, whole, open_journal, get_command, max_sequence, max_epoch,
  record_epoch, write, slot, commit, persist, raise_sequence, spool,
}
use novena_gateway.Governed.Journal.Restart.{number_forgotten}
use novena_gateway.Governed.Guard.{
  Guard, verify_signed, signature_holds, trusted_key, known_key, check_policy, checksum,
  install_policy, parse_stamp, executing_entry, text_key, mark_executing,
}
use novena_gateway.Governed.Guard.Policy.{Installable, install_policy_sound}
use novena_gateway.Governed.Validate.{
  signed_body, signed_wire, check_identity, check_identities, check_mapping, check_allowed,
  check_minimum, check_maximum, check_limits, check_existing, check_sequence, check_journal,
  check_target, check_window, control_epoch, check_epoch, check_control, check_value, check_signed,
  check_times, find_control, validate, mem_of,
}
use novena_gateway.Governed.Validate.Sound.{WithinLimits, wire_of, validate_signed, validate_limits}
use novena_gateway.Governed.Validate.Unbounded.{nan_passes}
use novena_gateway.Governed.Validate.Once.{
  here, device_key, sequence_of, executed_once, sequences_increase,
}
use novena_gateway.Governed.Prerequisites.{
  value_at, has_key, blocks_remote, check_equals, check_in, check_seen, check_age, matching,
  source_of, check_prerequisite, check_all, listed, enforce_prerequisites,
}

accepts_fresh : validate platform guard moment envelope ≡ ok (control, none)
unfolding validate check_signed verify_signed signature_holds trusted_key known_key check_identities
    check_identity check_mapping check_limits check_allowed check_minimum check_maximum mem_of
    check_existing check_sequence check_journal check_target check_window control_epoch check_epoch
    check_control check_value check_times find_control signed_body signed_wire text_key parse_stamp
    get_or get_field index to_int to_float eq_value eq_decimal parse_int ltb_float ltb_decimal
    mem_items key_of get_command max_sequence lookup ◌-ℤ◌
accepts_fresh = refl

-- The gateway after the command has been marked.
abbrev marked : Guard
marked = (mark_executing platform (pos 150) envelope guard).1

mark_returned : (mark_executing platform (pos 150) envelope guard).0 ≡ ok tt
unfolding mark_executing executing_entry text_key write slot commit raise_sequence spool persist
    insert get_or get_field index key_of to_int lookup
mark_returned = refl

executed_once_example : validate platform marked moment envelope ≢ ok (control, none)
executed_once_example =
    executed_once platform (pos 150) moment guard marked envelope envelope mark_returned here refl

abbrev second : Value
second = command 2 "c2"

accepts_second : validate platform marked moment second ≡ ok (control, none)
unfolding validate check_signed verify_signed signature_holds trusted_key known_key check_identities
    check_identity check_mapping check_limits check_allowed check_minimum check_maximum mem_of
    check_existing check_sequence check_journal check_target check_window control_epoch check_epoch
    check_control check_value check_times find_control signed_body signed_wire text_key parse_stamp
    get_or get_field index to_int to_float eq_value eq_decimal parse_int ltb_float ltb_decimal
    mem_items key_of get_command max_sequence lookup ◌-ℤ◌ mark_executing executing_entry write slot
    commit raise_sequence spool persist insert
accepts_second = refl

sequences_increase_example :
    (n : ℤ) × (n' : ℤ) × (sequence_of envelope ≡ ok n) × (sequence_of second ≡ ok n') × (n <ℤ n')
sequences_increase_example =
    sequences_increase platform (pos 150) moment moment guard guard marked envelope second
      accepts_fresh mark_returned here accepts_second
      (unfold device_key get_or get_field index key_of in refl)

validate_signed_example :
    (id : String) × (key : List ℕ) × (get envelope "signing_key_id" ≡ ok (str id))
    × (lookup id guard.keys ≡ some key)
    × (signature_holds platform key (wire_of envelope) ≡ true)
validate_signed_example = validate_signed platform guard moment envelope accepts_fresh

validate_limits_example :
    (target : Value) × (device : Value) × (given : Value) × (expected : Value) × (limits : Value)
    × (check_target guard envelope ≡ ok target)
    × (get envelope "params" ≡ ok given)
    × (find_control platform guard target (or_dict given) ≡ ok (device, control))
    × (get (or_dict given) "expected_value" ≡ ok expected)
    × (get control "limits" ≡ ok limits)
    × WithinLimits (or_dict limits) expected
validate_limits_example = validate_limits platform guard moment envelope accepts_fresh

abbrev outcome : Entry
outcome = record {
  state = "terminal";
  device_id = str "d1";
  sequence_number = number (pos 1);
  status = str "SUCCESS";
  result = null;
  error = null;
  stage = null;
  stamp = pos 160;
}

abbrev finished : Journal
finished = record {
  state = record {
    commands = ("c1", outcome) ∷ [];
    sequences = (name "d1", pos 1) ∷ [];
    events = [];
    max_epoch = pos 0;
  };
  file = none;
}

accepts_replay :
    validate platform (guard_with finished) moment envelope ≡ ok (control, some outcome)
unfolding validate check_signed verify_signed signature_holds trusted_key known_key check_identities
    check_identity check_mapping check_limits check_allowed check_minimum check_maximum mem_of
    check_existing check_sequence check_journal check_target check_window control_epoch check_epoch
    check_control check_value check_times find_control signed_body signed_wire text_key parse_stamp
    get_or get_field index to_int to_float eq_value eq_decimal parse_int ltb_float ltb_decimal
    mem_items key_of get_command max_sequence lookup ◌-ℤ◌
accepts_replay = refl

installs : (install_policy platform bundle guard).0 ≡ ok tt
unfolding install_policy check_policy checksum verify_signed signature_holds trusted_key known_key
    get_or get_field index to_int eq_value eq_decimal lookup record_epoch persist
installs = refl

install_policy_sound_example :
    let (r, g') = install_policy platform bundle guard in
    (incoming : ℤ) × Installable platform guard bundle g'.policy incoming
    × (g'.policy_file ≡ some bundle)
    × (max_epoch g'.journal ≡ incoming)
install_policy_sound_example = install_policy_sound platform guard bundle installs

enforced : enforce_prerequisites platform clock attributes [] control params ≡ ok tt
unfolding enforce_prerequisites check_all check_prerequisite source_of matching value_at
    check_equals check_in check_age check_seen has_key blocks_remote listed get_or get_field index
    eq_value mem_of
enforced = refl

number_forgotten_example :
    max_sequence
      (whole (pos 4))
      (open_journal (write platform.dump (pos 160) "c1" outcome finished).1.file)
    ≡ pos 0
number_forgotten_example =
    number_forgotten (pos 4) (write platform.dump (pos 160) "c1" outcome finished).1.file

abbrev limits : Value
limits = obj (field "min" (number (pos 0)) (field "max" (number (pos 10)) end))

nan_passes_example : check_limits limits (special nan) ≡ ok tt
nan_passes_example =
    nan_passes limits (number (pos 0)) (number (pos 10))
      (finite (record { mantissa = pos 0; places = 0 }))
      (finite (record { mantissa = pos 10; places = 0 })) (unfold get_or get_field in refl)
      (unfold get_or get_field in refl) (unfold get_or get_field in refl) (unfold to_float in refl)
      (unfold to_float in refl)
