-- ===== src/Rpc/Response.antt =====
-- `_find_response_error`, `_extract_response_value` and `_build_command_result` of `RpcHandler`: what a
-- connector answered. Python's None is `null`.
pub mod Clean
use novena_gateway.Common.{ℕ, String, Bool, true, false, not, Option, none, some, if◌then◌else◌}
use novena_gateway.Common.Int.{ℤ}
use novena_gateway.Json.{
  special, Value, null, bool, num, str, arr, obj, number, Items, nil, cons, Fields, end, field,
  get_field, truthy, is_null,
}

abbrev pub field_or_null : Option Value → Value
field_or_null none = null
field_or_null (some v) = v

-- `response.get("success") is False`
abbrev pub is_false : Option Value → Bool
is_false (some (bool b)) = not b
is_false _ = false

-- `a or b`
abbrev pub or_else : Value → Value → Value
or_else a b = if truthy a then a else b

module _ (text_of : Value → String) where
  unfoldable mutual
    unfolding get_field

    pub find_response_error : Value → Value
    find_response_error null = str "empty response from connector"
    find_response_error (bool b) = null
    find_response_error (num m k) = null
    find_response_error (special x) = null
    find_response_error (str s) = null
    find_response_error (arr vs) = find_item_error vs
    find_response_error (obj fs) =
        let nested : Value = find_field_error fs in
        let error : Value = field_or_null (get_field "error" fs) in
        if is_false (get_field "success" fs)
        then or_else (field_or_null (get_field "message" fs))
            (str "connector reported unsuccessful execution")
        else if truthy error
        then str (text_of error)
        else nested

    pub find_item_error : Items → Value
    find_item_error nil = null
    find_item_error (cons v vs) = or_else (find_response_error v) (find_item_error vs)

    pub find_field_error : Fields → Value
    find_field_error end = null
    find_field_error (field k v fs) = or_else (find_response_error v) (find_field_error fs)

-- `_extract_response_value`
unfoldable pub extract_response_value : Value → Value
unfolding get_field
extract_response_value (obj fs) = elim (get_field "value" fs) [
  | some v ↦ v
  | none ↦ elim (get_field "result" fs) [ some v ↦ v | none ↦ obj fs ]
]
extract_response_value v = v

-- A field that is added where its value is not None.
abbrev optional : String → Value → Fields → Fields
optional name v fs = if is_null v then fs else field name v fs

-- `_build_command_result`, the optional fields last.
unfoldable pub build_command_result :
    (Value → String) → String → String → ℤ → ℤ → Value → Value → Value → Value → Value
build_command_result text_of operation device_name function_code address raw value read_value
      count =
    let error : Value = find_response_error text_of raw in
    obj (
      field "operation" (str operation) (
        field "device_name" (str device_name) (
          field "functionCode" (number function_code) (
            field "address" (number address) (
              field "gateway_received" (bool true) (
                field "connector_executed" (bool (not (is_null raw))) (
                  field "device_accepted" (bool (is_null error)) (
                    field "raw_response" raw (
                      field "error" error (
                        optional "value" value (
                          optional "read_value" read_value
                            (optional "objectsCount" count end))))))))))))
