-- ===== src/Rpc/Device.antt =====
-- The commands of `RpcHandler` that write and read a field device: `_cmd_write_device` and
-- `_cmd_read_device` with the tests of their parameters. A connector is its name, and the answer of its
-- `server_side_rpc_handler` a parameter.
pub mod Sound
pub mod Unchecked
use novena_gateway.Common.{
  ℕ, suc, String, Bool, true, false, not, ◌&&◌, ◌||◌, Option, none, some, List, [], ◌∷◌, any,
  str_eq, string_eq, if◌then◌else◌, Result, ok, err, ◌>>=◌, ◌>>◌, raise_if, or_raise,
}
use novena_gateway.Common.Int.{ℤ, pos, ltb_ℤ, eq_ℤ}
use novena_gateway.Common.Dict.{Dict, lookup}
use novena_gateway.Json.{
  Value, null, str, num, bool, arr, obj, number, Fields, end, field, Fault, type_error, value_error,
  get, get_or, get_field, truthy, is_null, to_int, to_float, Decimal, Float, finite, of_float,
  ltb_float, eq_value, codes, lower, is_prefix,
}
use novena_gateway.Governed.Prerequisites.{has_key}
use novena_gateway.Rpc.Response.{extract_response_value, build_command_result}
use Prim.Native.String

-- An entry of the gateway's registry of devices, under the device's name.
pub record DeviceInfo : Type 0 where
  pub device_id : Value
  pub connector : Option String

abbrev pub Registry : Type 0
Registry = Dict String DeviceInfo

-- The reasons of `raise ValueError`, and the exceptions that pass through.
pub data CommandError : Type 0 where
  missing : String → CommandError
  not_integer not_number too_low too_high : String → CommandError
  not_unique no_connector not_registered name_mismatch wrong_function_code null_value : CommandError
  too_few_objects : CommandError
  fault : Fault → CommandError

abbrev pub lift {ℓ} : {A : Type ℓ} → Result Fault A → Result CommandError A
lift (ok a) = ok a
lift (err e) = err (fault e)

-- `except (TypeError, ValueError)`
abbrev pub caught_as {ℓ} : {A : Type ℓ} → CommandError → Result Fault A → Result CommandError A
caught_as e (ok a) = ok a
caught_as e (err Fault.type_error) = err e
caught_as e (err Fault.value_error) = err e
caught_as e (err f) = err (fault f)

abbrev above : ℤ → Option ℤ → Bool
above value none = false
above value (some maximum) = ltb_ℤ maximum value

-- `_validate_int_param`
unfoldable pub validate_int_param : Value → String → ℤ → Option ℤ → Result CommandError ℤ
validate_int_param params name minimum maximum = do
  raise_if (not (has_key params name)) (missing name)
  raw ← lift (get params name)
  value ← caught_as (not_integer name) (to_int raw)
  raise_if (ltb_ℤ value minimum) (too_low name)
  raise_if (above value maximum) (too_high name)
  ok value

abbrev pub decimal : ℤ → ℕ → Decimal
decimal m k = record { mantissa = m; places = k }

-- `_validate_timeout`: from 0.1 to 60 seconds, and a NaN, which neither test refuses.
unfoldable pub validate_timeout : Value → Result CommandError Float
validate_timeout params = do
  raw ← lift (get_or params "timeout" (num (pos 50) 1))
  timeout ← caught_as (not_number "timeout") (to_float raw)
  raise_if (ltb_float timeout (finite (decimal (pos 1) 1))) (too_low "timeout")
  raise_if (ltb_float (finite (decimal (pos 60) 0)) timeout) (too_high "timeout")
  ok timeout

-- What a command asks of a connector; `count` is its `objectsCount`.
pub record Request : Type 0 where
  pub device_name : String
  pub connector : String
  pub function_code : ℤ
  pub address : ℤ
  pub value : Value
  pub timeout : Float
  pub data_type : Option Value
  pub count : Option ℤ

-- `params[name]` where `name in params`.
unfoldable pub optional_param : Value → String → Option Value
optional_param (obj fs) name = get_field name fs
optional_param _ name = none

unfoldable pub optional_count : Value → Result CommandError (Option ℤ)
optional_count params =
    if has_key params "objectsCount"
    then (do n ← validate_int_param params "objectsCount" (pos 1) (some (pos 125)); ok (some n))
    else ok none

unfoldable pub function_code_of : Value → List ℤ → Result CommandError ℤ
function_code_of params codes_allowed = do
  raw ← lift (get params "functionCode")
  raise_if (is_null raw) (missing "functionCode")
  function_code ← lift (to_int raw)
  raise_if (not (any (eq_ℤ function_code) codes_allowed)) wrong_function_code
  ok function_code

abbrev pub write_codes : List ℤ
write_codes = pos 5 ∷ pos 6 ∷ pos 15 ∷ pos 16 ∷ []

abbrev pub read_codes : List ℤ
read_codes = pos 1 ∷ pos 2 ∷ pos 3 ∷ pos 4 ∷ []

-- The single match, and the connector of its entry.
unfoldable pub single : List (String × DeviceInfo) → Result CommandError (String × String)
single [] = err not_unique
single ((name, info) ∷ []) = elim info.connector [ none ↦ err no_connector | some c ↦ ok (name, c) ]
single (a ∷ b ∷ rest) = err not_unique

unfoldable pub optional_field : String → Option Value → Fields → Fields
optional_field name none fs = fs
optional_field name (some v) fs = field name v fs

abbrev count_value : Option ℤ → Option Value
count_value none = none
count_value (some n) = some (number n)

-- The tests on `value`, which must be there and not be None.
unfoldable pub value_of : Value → Result CommandError Value
value_of params = do
  value ← or_raise (optional_param params "value") (missing "value")
  raise_if (is_null value) null_value
  ok value

unfoldable pub write_request :
    String × String → ℤ → ℤ → Float → Value → Option Value → Option ℤ → Request
write_request found function_code address timeout value data_type count = record {
  device_name = found.0;
  connector = found.1;
  function_code = function_code;
  address = address;
  value = value;
  timeout = timeout;
  data_type = data_type;
  count = count;
}

module _ (text_of : Value → String) where
  -- `str(v)`
  abbrev pub text : Value → String
  text (str s) = s
  text v = text_of v

  -- `str(info.get("device_id") or "")`
  abbrev id_text : Value → String
  id_text v = if truthy v then text v else ""

  unfoldable pub matches : Value → Registry → List (String × DeviceInfo)
  matches device_id [] = []
  matches device_id ((name, info) ∷ rest) =
      let others = matches device_id rest in
      if str_eq (id_text info.device_id) (text device_id) then (name, info) ∷ others else others

  -- `_resolve_canonical_device`: the device's name and connector.
  unfoldable pub resolve_canonical_device : Registry → Value → Result CommandError (String × String)
  resolve_canonical_device devices device_id = single (matches device_id devices)

  -- The device that a write names, by its id and, where there is one, by its name too.
  unfoldable pub named_device : Registry → Value → Result CommandError (String × String)
  named_device devices params = do
    device_id ← lift (get params "device_id")
    raise_if (not (truthy device_id)) (missing "device_id")
    found ← resolve_canonical_device devices device_id
    requested_name ← lift (get params "device_name")
    raise_if (truthy requested_name && not (eq_value requested_name (str found.0))) name_mismatch
    ok found

  -- `_cmd_write_device` up to the call of the connector.
  unfoldable pub prepare_write : Registry → Value → Result CommandError Request
  prepare_write devices params = do
    found ← named_device devices params
    function_code ← function_code_of params write_codes
    address ← validate_int_param params "address" (pos 0) none
    timeout ← validate_timeout params
    value ← value_of params
    count ← optional_count params
    ok (
        write_request found function_code address timeout value (optional_param params "type")
          count)

  -- The content that `_build_connector_rpc_content` makes of a write.
  unfoldable pub write_content : Request → Value
  write_content r =
      let params : Value = obj (
        field "functionCode" (number r.function_code) (
          field "address" (number r.address) (
            field "value" r.value (
              field "timeout" (of_float r.timeout) (
                optional_field "type" r.data_type
                  (optional_field "objectsCount" (count_value r.count) end)))))) in
      obj (
        field "device" (str r.device_name) (
          field "data"
            (obj (
              field "id" (number (pos 1)) (field "method" (str "set") (field "params" params end))))
            (field "timeout" (of_float r.timeout) end)))

  -- `_cmd_write_device`: the result, and the request that the connector was sent.
  unfoldable pub write_device :
      (String → Value → Result CommandError Value)
      → Registry
      → Value
      → Result CommandError Value × Option Request
  write_device call devices params = elim (prepare_write devices params) [
    | err e ↦ (err e, none)
    | ok r ↦ (
      (do
        response ← call r.connector (write_content r)
        ok (
            build_command_result text "write" r.device_name r.function_code r.address response
              r.value null (elim r.count [ none ↦ null | some n ↦ number n ]))),
      some r,
    )
  ]

  -- `_find_connector_for_device`
  unfoldable pub find_connector_for_device : Registry → Value → Result CommandError String
  find_connector_for_device devices (str name) = elim (lookup name devices) [
    | none ↦ err not_registered
    | some info ↦ or_raise info.connector no_connector
  ]
  find_connector_for_device devices (arr vs) = err (fault type_error)
  find_connector_for_device devices (obj fs) = err (fault type_error)
  find_connector_for_device devices _ = err not_registered

  -- `_cmd_read_device` up to the call of the connector, of any type but Modbus.
  unfoldable pub prepare_read : Registry → Value → Result CommandError Request
  prepare_read devices params = do
    device_name ← lift (get params "device_name")
    raise_if (not (truthy device_name)) (missing "device_name")
    function_code ← function_code_of params read_codes
    address ← validate_int_param params "address" (pos 0) none
    count ← optional_count params
    timeout ← validate_timeout params
    connector ← find_connector_for_device devices device_name
    ok (record {
      device_name = text device_name;
      connector = connector;
      function_code = function_code;
      address = address;
      value = null;
      timeout = timeout;
      data_type = optional_param params "type";
      count = some (elim count [ none ↦ pos 1 | some n ↦ n ]);
    })
