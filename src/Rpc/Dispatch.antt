-- ===== src/Rpc/Dispatch.antt =====
-- `_on_rpc_request` of `RpcHandler` up to the start of its thread: a request is dropped, answered, or
-- accepted for execution. The texts of rejections are the source's; `describe` is `str` of an exception.
pub mod Execute
pub mod Guarded
pub mod Once
use novena_gateway.Common.{
  ℕ, String, Bool, true, false, not, ◌&&◌, ◌||◌, Option, none, some, List, [], ◌∷◌, any, str_eq,
  if◌then◌else◌, Result, ok, err, ◌>>=◌, ◌>>◌,
}
use novena_gateway.Common.Int.{ℤ, pos}
use novena_gateway.Json.{
  Value, null, str, arr, obj, number, Fields, end, field, Fault, type_error, get, get_or, is_dict,
  truthy, eq_value, codes, is_blank,
}
use novena_gateway.Governed.Journal.{Entry}
use novena_gateway.Governed.Guard.{Platform, Guard, Moment, Error}
use novena_gateway.Governed.Guard as Governed
use novena_gateway.Governed.Validate.{validate, validate_diagnostic, str_of}
use novena_gateway.Rpc.Response.{or_else}
use Prim.Native.String

abbrev pub state_changing : List String
state_changing =
    "set_log_level" ∷ "restart_connector" ∷ "restart_all" ∷ "reboot" ∷ "write_device"
    ∷ "update_firmware" ∷ []

abbrev pub signed_diagnostics : List String
signed_diagnostics =
    "scan_devices" ∷ "deployment_preflight" ∷ "deployment_discover" ∷ "deployment_validate" ∷ []

-- The keys of `self._commands`.
abbrev pub command_names : List String
command_names =
    "ping" ∷ "get_config" ∷ "get_config_status" ∷ "set_log_level" ∷ "restart_connector"
    ∷ "restart_all" ∷ "reboot" ∷ "get_status" ∷ "get_devices" ∷ "write_device" ∷ "read_device"
    ∷ "get_device_health" ∷ "register_preflight" ∷ "scan_devices" ∷ "deployment_preflight"
    ∷ "deployment_discover" ∷ "deployment_validate" ∷ "update_firmware" ∷ "network_preflight"
    ∷ "hardware_preflight" ∷ "privilege_preflight" ∷ []

unfoldable pub changes_state : String → Bool
changes_state method = any (str_eq method) state_changing

unfoldable pub is_signed_diagnostic : String → Bool
is_signed_diagnostic method = any (str_eq method) signed_diagnostics

-- What `_send_response` is given.
pub record Response : Type 0 where
  pub request_id : String
  pub method : Value
  pub status : Value
  pub stage : Value
  pub result : Value
  pub error : Value

-- Why a request is not executed: it is dropped, it is answered, or an exception passes through.
pub data Stop : Type 0 where
  dropped : Stop
  answered : Response → Stop
  raised : Fault → Stop

-- What the thread is started with.
pub record Accepted : Type 0 where
  pub request_id : String
  pub method : String
  pub params : Value
  pub control : Option Value

abbrev pub lift {ℓ} : {A : Type ℓ} → Result Fault A → Result Stop A
lift (ok a) = ok a
lift (err e) = err (raised e)

abbrev pub drop_if : Bool → Result Stop (Unit {0})
drop_if true = err dropped
drop_if false = ok tt

-- A response of the stage `rejected`.
abbrev pub rejection : String → Value → String → Response
rejection request_id method error = record {
  request_id = request_id;
  method = method;
  status = str "error";
  stage = str "rejected";
  result = null;
  error = str error;
}

abbrev pub reject_if : Bool → Response → Result Stop (Unit {0})
reject_if true r = err (answered r)
reject_if false r = ok tt

-- `isinstance(request_id, str)` and not blank.
unfoldable pub request_id_of : Value → Result Stop String
request_id_of (str s) = if is_blank (codes s) then err dropped else ok s
request_id_of _ = err dropped

-- `self._commands.get(method)`
unfoldable pub method_of : (Value → String) → String → Value → Result Stop String
method_of text request_id (str s) =
    if any (str_eq s) command_names
    then ok s
    else err (answered (rejection request_id (str s) (String.◌++◌ "Unknown RPC method: " s)))
method_of text request_id (arr vs) = err (raised type_error)
method_of text request_id (obj fs) = err (raised type_error)
method_of text request_id v =
    err (answered (rejection request_id v (String.◌++◌ "Unknown RPC method: " (text v))))

-- `isinstance(target, dict) and target.get("gateway_serial") == serial`
unfoldable pub is_ours : String → Value → Bool
is_ours serial target = elim (get target "gateway_serial") [
  | err e ↦ false
  | ok v ↦ eq_value v (str serial)
]

-- The response to a command whose outcome is recorded.
abbrev pub replayed : String → String → Entry → Response
replayed request_id method e = record {
  request_id = request_id;
  method = str method;
  status = e.status;
  stage = or_else e.stage (str "replayed_terminal_result");
  result = e.result;
  error = e.error;
}

-- A command that is new goes on, with its control.
unfoldable pub unless_replayed : String → String → Value × Option Entry → Result Stop (Option Value)
unless_replayed request_id method (control, none) = ok (some control)
unless_replayed request_id method (control, some e) = err (answered (replayed request_id method e))

module _ (p : Platform) (describe : Error → String) where
  -- `except GovernedCommandRejected`: other exceptions pass through.
  abbrev pub governed {ℓ} : {A : Type ℓ} → String → String → Result Error A → Result Stop A
  governed request_id method (ok a) = ok a
  governed request_id method (err (Governed.fault f)) = err (raised f)
  governed request_id method (err e) =
      err (answered (rejection request_id (str method) (describe e)))

  -- The device and the key that a write names.
  unfoldable pub check_write : String → String → Value → Value → Result Stop (Unit {0})
  check_write request_id method target params =
      if not (str_eq method "write_device") then ok tt else do
        device ← lift (get params "device_id")
        key ← lift (get params "command_key")
        aimed ← lift (get target "device_id")
        reject_if
            (not (truthy device)
              || not (truthy key)
              || not (str_eq (str_of p aimed) (str_of p device)))
            (rejection request_id (str method)
              "Governed device writes require one canonical device_id and command_key")

  -- The tests before `validate`.
  unfoldable pub check_command :
      Bool → String → String → String → Value → Value → Result Stop (Unit {0})
  check_command enabled serial request_id method params payload = do
    reject_if (not enabled)
        (rejection request_id (str method) "Local write-back is disabled on this Gateway")
    version ← lift (get payload "schema_version")
    reject_if (not (eq_value version (number (pos 1))))
        (rejection request_id (str method) "Unsupported or missing governed-command schema version")
    command_id ← lift (get payload "command_id")
    reject_if (not (truthy command_id))
        (rejection request_id (str method) "Governed state-changing commands require command_id")
    target ← lift (get payload "target")
    key ← lift (get payload "idempotency_key")
    reject_if (not (truthy key) || not (is_ours serial target)) (
        rejection request_id (str method)
          "Governed commands require canonical command and Gateway identity")
    check_write request_id method target params

  -- The branch of the commands that change state.
  unfoldable pub govern_command :
      Bool → Guard → Moment → String → String → Value → Value → Result Stop (Option Value)
  govern_command enabled g m request_id method params payload = do
    check_command enabled g.serial_number request_id method params payload
    found ← governed request_id method (validate p g m payload)
    unless_replayed request_id method found

  unfoldable pub govern :
      Bool → Guard → Moment → String → String → Value → Value → Result Stop (Option Value)
  govern enabled g m request_id method params payload =
      if changes_state method
      then govern_command enabled g m request_id method params payload
      else ok none

  -- The branch of the signed diagnostics.
  unfoldable pub govern_diagnostic :
      Guard → Moment → String → String → Value → Result Stop (Unit {0})
  govern_diagnostic g m request_id method payload =
      if not (is_signed_diagnostic method)
      then ok tt
      else (do body ← governed request_id method (validate_diagnostic p g m payload); ok tt)

  -- `_on_rpc_request`, for the `mode` of the gateway's MQTT section. An accepted request is first
  -- answered by the stage `gateway_received`.
  unfoldable pub on_rpc_request : Bool → Guard → Moment → Value → Value → Result Stop Accepted
  on_rpc_request enabled g m mode payload = do
    drop_if (eq_value mode (str "release_pending"))
    drop_if (not (is_dict payload))
    raw_id ← lift (get payload "request_id")
    raw_method ← lift (get_or payload "method" (str ""))
    params ← lift (get_or payload "params" (obj end))
    request_id ← request_id_of raw_id
    method ← method_of (str_of p) request_id raw_method
    reject_if (not (is_dict params))
        (rejection request_id (str method) "RPC params must be an object")
    govern_diagnostic g m request_id method payload
    control ← govern enabled g m request_id method params payload
    ok (record { request_id = request_id; method = method; params = params; control = control })
