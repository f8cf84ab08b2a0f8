-- ===== src/Governed/Samples.antt =====
-- A gateway with one trusted key and one retained control, and a command for it, on which the tests run.
use novena_gateway.Common.{
  ℕ, String, string_eq, nat_eq, true, none, some, [], ◌∷◌, str_eq, if◌then◌else◌,
}
use novena_gateway.Common.Int.{pos}
use novena_gateway.Json.{Value, str, arr, obj, number, nil, cons, end, field, Float, finite}
use novena_gateway.Governed.Journal.{Journal, key_eq, empty}
use novena_gateway.Governed.Guard.{Platform, Guard, Moment}

abbrev pub platform : Platform
platform = record {
  verify = λ key signature body. true;
  key_of_text = λ v. some (1 ∷ []);
  b64decode = λ v. some (2 ∷ []);
  canonical_bytes = λ v. 3 ∷ [];
  sha256 = λ bytes. "sum";
  parse_time = λ s. if str_eq s "issued" then some (pos 100) else some (pos 200);
  text_of = λ v. "";
  dump = λ s. some (record {
    commands = some s.commands;
    sequences = some [];
    events = some s.events;
    max_epoch = some s.max_epoch;
  });
}

abbrev pub control : Value
control = obj (
    field "policy_checksum" (str "c") (
      field "mapping"
        (obj (field "functionCode" (number (pos 6)) (field "address" (number (pos 40)) end)))
        (field "unit" (str "kW") (
          field "limits" (obj (field "min" (number (pos 0)) (field "max" (number (pos 10)) end))) (
            field "prerequisites"
              (arr (cons (obj (field "key" (str "mode") (field "equals" (str "remote") end))) nil))
              end)))))

abbrev pub policy : Value
policy = obj (
    field "gateway_serial" (str "GW1") (
      field "schema_version" (number (pos 1))
        (field "controls" (obj (field "d1:start" control end)) end)))

abbrev pub bundle : Value
bundle = obj (
    field "payload" policy (
      field "checksum" (str "sum")
        (field "signature" (str "s") (field "signing_key_id" (str "k1") end))))

abbrev pub guard_with : Journal → Guard
guard_with j = record {
  serial_number = "GW1";
  trusted_clock = true;
  max_clock_offset = pos 5;
  diagnostic_clock_skew = pos 5;
  keys = ("k1", 1 ∷ []) ∷ [];
  journal = j;
  policy = policy;
  policy_file = some bundle;
}

abbrev pub blank : Journal
blank = record { state = empty; file = none }

abbrev pub guard : Guard
guard = guard_with blank

abbrev pub moment : Moment
moment = record { clock_ready = true; now = pos 150 }

abbrev pub params : Value
params = obj (
    field "device_id" (str "d1") (
      field "command_key" (str "start") (
        field "functionCode" (number (pos 6)) (
          field "address" (number (pos 40))
            (field "unit" (str "kW") (field "expected_value" (number (pos 5)) end))))))

abbrev pub command : ℕ → String → Value
command n id = obj (
    field "schema_version" (number (pos 1)) (
      field "signature" (str "s") (
        field "signing_key_id" (str "k1") (
          field "request_id" (str "r1") (
            field "command_id" (str id) (
              field "idempotency_key" (str "i1") (
                field "target"
                  (obj (field "gateway_serial" (str "GW1") (field "device_id" (str "d1") end)))
                  (field "issued_at" (str "issued") (
                    field "expires_at" (str "expires") (
                      field "sequence_number" (number (pos n)) (
                        field "policy_checksum" (str "c") (
                          field "method" (str "write_device")
                            (field "params" params end)))))))))))))

abbrev pub envelope : Value
envelope = command 1 "c1"

abbrev pub attributes : Value
attributes = obj (field "authority_mode" (str "remote") (field "mode" (str "remote") end))

abbrev pub clock : Float
clock = finite (record { mantissa = pos 150; places = 0 })
