-- ===== src/Governed/Validate.antt =====
-- `validate`, `validate_diagnostic` and `enforce_prerequisites` of `GovernedCommandGuard`, in the
-- order of their tests. A block of tests is a definition, so that its proofs stay short.
pub mod Sound
pub mod Fresh
pub mod Once
pub mod Unbounded
use Prim.Native.String
use novena_gateway.Common.{
  ℕ, String, Bool, true, false, not, ◌&&◌, ◌||◌, Option, none, some, List, [], ◌∷◌, any, str_eq,
  if◌then◌else◌, Result, ok, err, ◌>>=◌, ◌>>◌,
}
use novena_gateway.Common.Int.{ℤ, pos, negsuc, ◌-ℤ◌, abs_ℤ, max_ℤ, ltb_ℤ, leb_ℤ, eq_ℤ}
use novena_gateway.Json.{
  Value, null, bool, num, str, arr, obj, number, Fields, end, field, Fault, type_error, get, get_or,
  index, is_dict, is_null, truthy, or_dict, to_int, to_float, Float, ltb_float, eq_value, mem_items,
  codes, is_blank, contains_text, get_field,
}
use novena_gateway.Governed.Journal
use novena_gateway.Governed.Journal.{Journal, Entry, Key, key_of, get_command, max_sequence}
use novena_gateway.Governed.Guard.{
  Platform, Reason, Error, rejected, fault, lift, reject_if, Guard, Moment, verify_signed,
  parse_stamp, text_key, no_clock, no_policy, wrong_schema, missing_identity, wrong_gateway,
  expired, outside_window, stale_epoch, no_identity, not_enabled, stale_revisions, stale_checksum,
  wrong_mapping, wrong_type, wrong_unit, not_allowed, below_minimum, above_maximum, uncertain,
  stale_sequence, unsupported_method,
}

-- The name of a control, `f"{device_id}:{command_key}"`.
abbrev pub join : String → String → String
join device key = String.◌++◌ device (String.◌++◌ ":" key)

-- The body that is signed: the envelope less its signature and its key's id.
abbrev signed_fields : Fields → Fields
signed_fields end = end
signed_fields (field k v fs) =
    let rest = signed_fields fs in
    if str_eq k "signature" || str_eq k "signing_key_id" then rest else field k v rest

unfoldable pub signed_body : Value → Value
signed_body (obj fs) = obj (signed_fields fs)
signed_body v = v

unfoldable pub signed_wire : Value → Value → Value → Value
signed_wire body signature key_id =
    obj (field "payload" body (field "signature" signature (field "signing_key_id" key_id end)))

abbrev present : Value → Bool
present (str s) = not (is_blank (codes s))
present _ = false

-- One round of the loop over the identity fields.
unfoldable pub check_identity : Value → String → Result Error (Unit {0})
check_identity envelope name = do
  v ← lift (get envelope name)
  reject_if (not (present v)) (missing_identity name)

unfoldable pub check_identities : Value → Result Error (Unit {0})
unfolding check_identity
check_identities envelope = do
  check_identity envelope "request_id"
  check_identity envelope "command_id"
  check_identity envelope "idempotency_key"

-- `params.get(name, -1)` against `mapping.get(name, -2)`.
unfoldable pub check_mapping : Value → Value → String → Result Error (Unit {0})
check_mapping params mapping name = do
  a ← lift (get_or params name (number (negsuc 0)))
  x ← lift (to_int a)
  b ← lift (get_or mapping name (number (negsuc 1)))
  y ← lift (to_int b)
  reject_if (not (eq_ℤ x y)) (wrong_mapping name)

-- `expected in allowed`
unfoldable pub mem_of : Value → Value → Result Fault Bool
mem_of v (arr vs) = ok (mem_items v vs)
mem_of (str s) (obj fs) = ok (elim (get_field s fs) [ none ↦ false | some w ↦ true ])
mem_of (arr vs) (obj fs) = err type_error
mem_of (obj gs) (obj fs) = err type_error
mem_of v (obj fs) = ok false
mem_of (str s) (str t) = ok (contains_text (codes s) (codes t))
mem_of v _ = err type_error

unfoldable pub check_allowed : Value → Value → Result Error (Unit {0})
check_allowed limit expected =
    if is_null limit
    then ok tt
    else do inside ← lift (mem_of expected limit); reject_if (not inside) not_allowed

unfoldable pub check_minimum : Value → Value → Result Error (Unit {0})
check_minimum limit expected = if is_null limit then ok tt else do
  x ← lift (to_float expected)
  low ← lift (to_float limit)
  reject_if (ltb_float x low) below_minimum

unfoldable pub check_maximum : Value → Value → Result Error (Unit {0})
check_maximum limit expected = if is_null limit then ok tt else do
  x ← lift (to_float expected)
  high ← lift (to_float limit)
  reject_if (ltb_float high x) above_maximum

-- The value limits of the retained control.
unfoldable pub check_limits : Value → Value → Result Error (Unit {0})
check_limits limits expected = do
  allowed ← lift (get limits "enum")
  check_allowed allowed expected
  low ← lift (get limits "min")
  check_minimum low expected
  high ← lift (get limits "max")
  check_maximum high expected

-- The journal's tests: a recorded command gives its outcome, or is refused; a new one needs a
-- sequence above every one that its device has had.
unfoldable pub check_existing : Value → Option Entry → Result Error (Option Entry)
check_existing control (some e) =
    if str_eq e.state "terminal" then ok (some e) else err (rejected uncertain)
check_existing control none = ok none

unfoldable pub check_sequence : Journal → Value → Value → Result Error (Unit {0})
check_sequence j envelope device = do
  raw ← lift (get_or envelope "sequence_number" (number (pos 0)))
  number_given ← lift (to_int raw)
  key ← lift (key_of device)
  reject_if (leb_ℤ number_given (max_sequence key j)) stale_sequence

unfoldable pub check_journal : Journal → Value → Value → Value → Result Error (Option Entry)
unfolding check_existing check_sequence
check_journal j envelope device control = do
  raw ← lift (get envelope "command_id")
  id ← lift (text_key raw)
  found ← check_existing control (get_command id j)
  if Journal.is_found found then ok found else (do check_sequence j envelope device; ok none)

-- `envelope.get("target") or {}`, for this gateway.
unfoldable pub check_target : Guard → Value → Result Error Value
check_target g envelope = do
  raw ← lift (get envelope "target")
  serial ← lift (get (or_dict raw) "gateway_serial")
  reject_if (not (eq_value serial (str g.serial_number))) wrong_gateway
  ok (or_dict raw)

unfoldable pub check_window : Guard → Moment → ℤ × ℤ → Result Error (Unit {0})
check_window g m (issued_at, expires_at) =
    reject_if
      (ltb_ℤ (max_ℤ g.max_clock_offset (expires_at -ℤ issued_at)) (abs_ℤ (m.now -ℤ issued_at)))
      outside_window

-- `self.control_epoch`, of a policy that is a dict or empty.
unfoldable pub control_epoch : Guard → Result Fault Value
control_epoch g = get_or (or_dict g.policy) "control_epoch" (number (pos 0))

unfoldable pub check_epoch : Guard → Value → Result Error (Unit {0})
unfolding control_epoch
check_epoch g envelope = do
  raw ← lift (get_or envelope "control_epoch" (number (pos 0)))
  given ← lift (to_int raw)
  current ← lift (control_epoch g)
  reject_if (not (eq_value (number given) current)) stale_epoch

-- The revisions, the checksum and the connector mapping.
unfoldable pub check_control : Value → Value → Value → Result Error (Unit {0})
check_control envelope params control = do
  revisions ← lift (get envelope "revisions")
  retained ← lift (get control "revisions")
  reject_if (not (eq_value revisions retained)) stale_revisions
  given ← lift (get envelope "policy_checksum")
  known ← lift (get control "policy_checksum")
  reject_if (not (eq_value given known)) stale_checksum
  raw ← lift (get control "mapping")
  check_mapping params (or_dict raw) "functionCode"
  check_mapping params (or_dict raw) "address"
  type ← lift (get (or_dict raw) "type")
  given_type ← lift (get params "type")
  reject_if (truthy type && not (eq_value given_type type)) wrong_type
  unit ← lift (get params "unit")
  retained_unit ← lift (get control "unit")
  reject_if (not (eq_value unit retained_unit)) wrong_unit

unfoldable pub check_value : Value → Value → Result Error (Unit {0})
check_value params control = do
  expected ← lift (get params "expected_value")
  raw ← lift (get control "limits")
  check_limits (or_dict raw) expected

abbrev is_diagnostic : Value → Bool
is_diagnostic v =
    any (λ name. eq_value v (str name))
      ("scan_devices" ∷ "deployment_preflight" ∷ "deployment_discover" ∷ "deployment_validate" ∷ [])

module _ (p : Platform) where
  -- `str(v)`
  abbrev pub str_of : Value → String
  str_of (str s) = s
  str_of v = p.text_of v

  -- The signature and the schema.
  unfoldable pub check_signed : Guard → Value → Result Error (Unit {0})
  check_signed g envelope = do
    signature ← lift (get envelope "signature")
    key_id ← lift (get envelope "signing_key_id")
    verify_signed p g (signed_wire (signed_body envelope) signature key_id)
    version ← lift (get envelope "schema_version")
    reject_if (not (eq_value version (number (pos 1)))) wrong_schema

  -- The two stamps, in microseconds, of a command that has not expired.
  unfoldable pub check_times : Moment → Value → Result Error (ℤ × ℤ)
  check_times m envelope = do
    issued ← lift (get envelope "issued_at")
    issued_at ← parse_stamp p issued
    expires ← lift (get envelope "expires_at")
    expires_at ← parse_stamp p expires
    reject_if (leb_ℤ expires_at m.now) expired
    ok (issued_at, expires_at)

  -- The retained control of the device and key that the command names.
  unfoldable pub find_control : Guard → Value → Value → Result Error (Value × Value)
  find_control g target params = do
    device ← lift (get target "device_id")
    key ← lift (get params "command_key")
    same ← lift (get params "device_id")
    reject_if
        (not (truthy device) || not (str_eq (str_of same) (str_of device)) || not (truthy key))
        no_identity
    controls ← lift (get_or g.policy "controls" (obj end))
    control ← lift (get controls (join (str_of device) (str_of key)))
    reject_if (not (truthy control)) not_enabled
    ok (device, control)

  -- `validate`: the retained control, and the recorded outcome of a command that has ended.
  unfoldable pub validate : Guard → Moment → Value → Result Error (Value × Option Entry)
  validate g m envelope = do
    reject_if (not g.trusted_clock || not m.clock_ready) no_clock
    reject_if (not (truthy g.policy)) no_policy
    check_signed g envelope
    check_identities envelope
    target ← check_target g envelope
    times ← check_times m envelope
    check_window g m times
    check_epoch g envelope
    raw ← lift (get envelope "params")
    found ← find_control g target (or_dict raw)
    check_control envelope (or_dict raw) found.1
    check_value (or_dict raw) found.1
    prior ← check_journal g.journal envelope found.0 found.1
    ok (found.1, prior)

  -- `validate_diagnostic`: the signed body.
  unfoldable pub validate_diagnostic : Guard → Moment → Value → Result Error Value
  validate_diagnostic g m envelope = do
    reject_if (not g.trusted_clock || not m.clock_ready) no_clock
    check_signed g envelope
    check_identities envelope
    target ← check_target g envelope
    method ← lift (get envelope "method")
    reject_if (not (is_diagnostic method)) unsupported_method
    times ← check_times m envelope
    reject_if (ltb_ℤ g.diagnostic_clock_skew (times.0 -ℤ m.now)) outside_window
    ok (signed_body envelope)
