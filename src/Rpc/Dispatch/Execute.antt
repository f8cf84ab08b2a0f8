-- ===== src/Rpc/Dispatch/Execute.antt =====
-- `execute`, the body of the thread that `_on_rpc_request` starts: the prerequisites, the mark, the
-- command, the read-back and the outcome. The commands are parameters, and what happens is a list of
-- events in order.
use novena_gateway.Common.{
  String, Bool, true, false, not, ◌&&◌, ◌||◌, Option, none, some, List, [], ◌∷◌, ◌++◌, any, str_eq,
  if◌then◌else◌, Result, ok, err, ◌>>=◌,
}
use novena_gateway.Common.Int.{ℤ, pos}
use novena_gateway.Json.{
  Value, null, bool, str, obj, number, end, field, Fault, get, get_or, index, is_dict, is_null,
  truthy, or_dict, to_int, to_float, Float, of_float, sub_float, abs_float, ltb_float, eq_value,
}
use novena_gateway.Governed.Guard.{Platform, Guard, Error, mark_executing, mark_terminal}
use novena_gateway.Governed.Prerequisites.{enforce_prerequisites}
use novena_gateway.RemoteConfig.Edits.{set_key}
use novena_gateway.Rpc.Response.{or_else, is_false}
use novena_gateway.Rpc.Dispatch.{Accepted, Response, changes_state}

-- An exception: of the guard, of a command, or of an operation on a value.
pub data Raised : Type 0 where
  of_guard : Error → Raised
  of_command : String → Raised
  of_value : Fault → Raised

-- What the thread does that others see.
pub data Event : Type 0 where
  sent : Response → Event
  called : String → Value → Event
  read_back : Value → Event

-- The commands, `str` of an exception, and what `enforce_prerequisites` reads: the time in seconds, the
-- attributes and the devices.
pub record Commands : Type 0 where
  pub run : String → Value → Result Raised Value
  pub read_device : Value → Result Raised Value
  pub describe : Raised → String
  pub clock : Float
  pub attributes : Value
  pub devices : List Value

abbrev pub lift {ℓ} : {A : Type ℓ} → Result Fault A → Result Raised A
lift (ok a) = ok a
lift (err e) = err (of_value e)

abbrev of_error {ℓ} : {A : Type ℓ} → Result Error A → Result Raised A
of_error (ok a) = ok a
of_error (err e) = err (of_guard e)

-- The status, the result, and the error of a command that returned.
pub record Done : Type 0 where
  pub status : String
  pub result : Value
  pub error : Value

abbrev pub success : Value → Done
success result = record { status = "success"; result = result; error = null }

abbrev reports_acceptance : String → Bool
reports_acceptance method =
    any (str_eq method) ("read_device" ∷ "write_device" ∷ "register_preflight" ∷ [])

-- The test of `error` and `device_accepted`.
unfoldable pub accepted_by_device : String → Value → Result Fault Done
accepted_by_device method result =
    if not (reports_acceptance method && is_dict result) then ok (success result) else do
      error ← get result "error"
      accepted ← get result "device_accepted"
      ok (
          if truthy error || is_false (some accepted)
          then record {
            status = "error";
            result = result;
            error = or_else error (str "Device command was not accepted");
          }
          else success result)

-- The parameters of the read-back.
unfoldable pub read_back_params : Value → Value → Result Fault Value
read_back_params readback params = do
  device ← index params "device_name"
  raw_code ← get_or readback "functionCode" (number (pos 3))
  function_code ← to_int raw_code
  given ← index params "address"
  raw_address ← get_or readback "address" given
  address ← to_int raw_address
  raw_count ← get_or readback "objectsCount" (number (pos 1))
  count ← to_int raw_count
  given_type ← get params "type"
  type ← get_or readback "type" given_type
  ok (
      obj (
        field "device_name" device (
          field "functionCode" (number function_code) (
            field "address" (number address)
              (field "objectsCount" (number count) (field "type" type end))))))

-- `actual is None or abs(float(actual) - expected) > tolerance`
unfoldable pub differs : Value → Float → Float → Result Fault Bool
differs actual expected tolerance =
    if is_null actual
    then ok true
    else do x ← to_float actual; ok (ltb_float tolerance (abs_float (sub_float x expected)))

unfoldable pub verified : Value → Value → Float → Float → Bool → Value → Result Fault Done
verified control actual expected tolerance true result = do
  risk ← get control "risk"
  marked ←
      set_key "verification"
        (obj (
          field "status" (str "mismatch") (
            field "expected" (of_float expected) (
              field "actual" actual (
                field "tolerance" (of_float tolerance)
                  (field "critical" (bool (eq_value risk (str "critical"))) end))))))
        result
  ok (record { status = "error"; result = marked; error = str "Post-write verification mismatch" })
verified control actual expected tolerance false result = do
  marked ←
      set_key "verification"
        (obj (
          field "status" (str "verified") (
            field "expected" (of_float expected)
              (field "actual" actual (field "tolerance" (of_float tolerance) end)))))
        result
  ok (success marked)

-- The comparison of what was read back with what was expected.
unfoldable pub compare_read_back : Value → Value → Value → Value → Value → Result Fault Done
compare_read_back control readback params read_result result = do
  actual ← get read_result "read_value"
  raw_tolerance ← get_or readback "tolerance" (number (pos 0))
  tolerance ← to_float raw_tolerance
  raw_expected ← index params "expected_value"
  expected ← to_float raw_expected
  other ← differs actual expected tolerance
  verified control actual expected tolerance other result

-- `stage`, of a command that returned.
unfoldable pub stage_of : String → Done → Result Fault String
stage_of method d =
    if not (str_eq d.status "success")
    then ok "failed"
    else if str_eq method "write_device"
    then (do
      verification ←
          (if is_dict d.result then get_or d.result "verification" (obj end) else ok (obj end))
      status ← get verification "status"
      ok (
          if eq_value status (str "verified")
          then "field_execution_verified"
          else "field_protocol_accepted"))
    else if str_eq method "update_firmware"
    then ok "ota_initiated"
    else if changes_state method
    then ok "gateway_action_completed"
    else ok "diagnostic_completed"

abbrev pub response : Accepted → String → String → Value → Value → Response
response a status stage result error = record {
  request_id = a.request_id;
  method = str a.method;
  status = str status;
  stage = str stage;
  result = result;
  error = error;
}

module _ (p : Platform) (c : Commands) (now : ℤ) (payload : Value) (a : Accepted) where
  abbrev pub control : Value
  control = elim a.control [ none ↦ null | some v ↦ v ]

  -- The read-back of a write that succeeded, with the events that it adds.
  unfoldable pub read_back_write : Value → Done → Result Raised Done × List Event
  read_back_write readback d = elim (read_back_params readback a.params) [
    | err e ↦ (err (of_value e), [])
    | ok wanted ↦ (
      (do
        read_result ← c.read_device wanted
        lift (compare_read_back control readback a.params read_result d.result)),
      read_back wanted ∷ [],
    )
  ]

  -- Whether the control asks for a read-back, and the control's entry on it.
  unfoldable pub wanted_read_back : Done → Result Fault (Option Value)
  wanted_read_back d =
      if not (str_eq a.method "write_device" && str_eq d.status "success") then ok none else do
        raw ← get control "readback"
        required ← get (or_dict raw) "required"
        ok (if truthy required then some (or_dict raw) else none)

  abbrev after_command : Done → Result Raised Done × List Event
  after_command d = elim (wanted_read_back d) [
    | err e ↦ (err (of_value e), [])
    | ok none ↦ (ok d, [])
    | ok (some readback) ↦ read_back_write readback d
  ]

  -- The command itself, and what follows it up to the outcome.
  unfoldable pub run_command : Result Raised Done × List Event
  run_command = elim (c.run a.method a.params) [
    | err e ↦ (err e, called a.method a.params ∷ [])
    | ok result ↦ elim (accepted_by_device a.method result) [
      | err e ↦ (err (of_value e), called a.method a.params ∷ [])
      | ok d ↦ let (r, events) = after_command d in (r, called a.method a.params ∷ events)
    ]
  ]

  -- An answer that is sent where the mark has not raised.
  unfoldable pub unless_raised : Event → Result Error (Unit {0}) × Guard → List Event × Guard
  unless_raised answer (ok u, g) = (answer ∷ [], g)
  unless_raised answer (err f, g) = ([], g)

  -- The `except` clause.
  unfoldable pub fail : Raised → Guard → List Event × Guard
  fail e g =
      let answer : Event = sent (response a "error" "failed" null (str (c.describe e))) in
      if changes_state a.method
      then unless_raised answer (
          mark_terminal p now payload
            (record {
              status = str "error";
              result = null;
              error = str (c.describe e);
              stage = str "failed";
            })
            g)
      else (answer ∷ [], g)

  -- An answer that is sent where the mark has not raised, whose exception the `except` clause catches.
  unfoldable pub or_fail : Event → Result Error (Unit {0}) × Guard → List Event × Guard
  or_fail answer (ok u, g) = (answer ∷ [], g)
  or_fail answer (err f, g) = fail (of_guard f) g

  -- The end of the `try` block.
  unfoldable pub conclude : String → Done → Guard → List Event × Guard
  conclude stage d g =
      let answer : Event = sent (response a d.status stage d.result d.error) in
      if changes_state a.method
      then or_fail answer (
          mark_terminal p now payload
            (record {
              status = str d.status;
              result = d.result;
              error = d.error;
              stage = str stage;
            })
            g)
      else (answer ∷ [], g)

  unfoldable pub conclude_at : Done → Result Fault String → Guard → List Event × Guard
  conclude_at d (err e) g = fail (of_value e) g
  conclude_at d (ok stage) g = conclude stage d g

  -- What follows a command.
  unfoldable pub settle : Result Raised Done → Guard → List Event × Guard
  settle (err e) g = fail e g
  settle (ok d) g = conclude_at d (stage_of a.method d) g

  unfoldable pub run_and_settle : List Event → Guard → List Event × Guard
  run_and_settle before g =
      let (r, events) = run_command in
      let (after, g') = settle r g in (before ++ events ++ after, g')

  -- The mark, after the prerequisites: a command runs only once it is marked.
  unfoldable pub start_marked : Result Error (Unit {0}) × Guard → List Event × Guard
  start_marked (err e, g) = fail (of_guard e) g
  start_marked (ok u, g) =
      run_and_settle (sent (response a "processing" "executing" null null) ∷ []) g

  unfoldable pub start_governed : Result Error (Unit {0}) → Guard → List Event × Guard
  start_governed (err e) g = fail (of_guard e) g
  start_governed (ok u) g = start_marked (mark_executing p now payload g)

  unfoldable pub execute : Guard → List Event × Guard
  execute g =
      if changes_state a.method
      then start_governed (enforce_prerequisites p c.clock c.attributes c.devices control a.params)
          g
      else run_and_settle [] g
