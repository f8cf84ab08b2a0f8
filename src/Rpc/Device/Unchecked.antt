-- ===== src/Rpc/Device/Unchecked.antt =====
-- What a write does not read: the value that the governed command guard has tested.
use novena_gateway.Common.{String, ◌≡◌, refl, false, Option, none, some, arith, str_eq, eq_iff}
use novena_gateway.Common.Int.{ℤ, pos}
use novena_gateway.Json.{Value, num, null, obj, Fields, end, field, get_or, get_field}
use novena_gateway.Governed.Prerequisites.{has_key}
use novena_gateway.RemoteConfig.Edits.{set_field}
use novena_gateway.Rpc.Device.{
  Registry, validate_int_param, validate_timeout, optional_count, optional_param, function_code_of,
  value_of, named_device, prepare_write, write_codes,
}

get_field-other :
    (j k : String) (v : Value) (fs : Fields)
    → str_eq j k ≡ false
    → get_field k (set_field j v fs) ≡ get_field k fs
unfolding get_field set_field
get_field-other j k v end h = ground arith
get_field-other j k v (field i w fs) h =
    ground (arith, eq_iff i j, eq_iff i k, eq_iff j k, get_field-other j k v fs h)

module _ (v : Value) (fs : Fields) where
  abbrev changed : Value
  changed = obj (set_field "expected_value" v fs)

  get_or-changed :
      (k : String) (d : Value)
      → str_eq "expected_value" k ≡ false
      → get_or changed k d ≡ get_or (obj fs) k d
  unfolding get_or
  get_or-changed k d h = rw (get_field-other "expected_value" k v fs h) refl

  has_key-changed :
      (k : String) → str_eq "expected_value" k ≡ false → has_key changed k ≡ has_key (obj fs) k
  unfolding has_key
  has_key-changed k h = rw (has_key, get_field-other "expected_value" k v fs h) refl

  optional-changed :
      (k : String)
      → str_eq "expected_value" k ≡ false
      → optional_param changed k ≡ optional_param (obj fs) k
  unfolding optional_param
  optional-changed k h = get_field-other "expected_value" k v fs h

  int_param-changed :
      (k : String) (low : ℤ) (high : Option ℤ)
      → str_eq "expected_value" k ≡ false
      → validate_int_param changed k low high ≡ validate_int_param (obj fs) k low high
  unfolding validate_int_param
  int_param-changed k low high h = rw (has_key-changed k h, get_or-changed k null h) refl

  timeout-changed : validate_timeout changed ≡ validate_timeout (obj fs)
  unfolding validate_timeout
  timeout-changed = rw (get_or-changed "timeout" (num (pos 50) 1) refl) refl

  count-changed : optional_count changed ≡ optional_count (obj fs)
  unfolding optional_count
  count-changed =
      rw
        (
          has_key-changed "objectsCount" refl,
          int_param-changed "objectsCount" (pos 1) (some (pos 125)) refl,
        )
        refl

  value-changed : value_of changed ≡ value_of (obj fs)
  unfolding value_of
  value-changed = rw (optional-changed "value" refl) refl

  code-changed : function_code_of changed write_codes ≡ function_code_of (obj fs) write_codes
  unfolding function_code_of
  code-changed = rw (get_or-changed "functionCode" null refl) refl

  device-changed :
      (text_of : Value → String) (devices : Registry)
      → named_device text_of devices changed ≡ named_device text_of devices (obj fs)
  unfolding named_device
  device-changed text_of devices =
      rw (get_or-changed "device_id" null refl, get_or-changed "device_name" null refl) refl

  -- Where the parameters hold an `expected_value` or not, `_cmd_write_device` sends the same request, or
  -- raises the same error, as with any other `expected_value` in its place.
  pub write_ignores_expected_value :
      (text_of : Value → String) (devices : Registry)
      → prepare_write text_of devices changed ≡ prepare_write text_of devices (obj fs)
  unfolding prepare_write
  write_ignores_expected_value text_of devices =
      rw
        (
          device-changed text_of devices,
          code-changed,
          int_param-changed "address" (pos 0) none refl,
          timeout-changed,
          value-changed,
          optional-changed "type" refl,
          count-changed,
        )
        refl
