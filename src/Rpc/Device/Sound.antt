-- ===== src/Rpc/Device/Sound.antt =====
-- What a write that reaches a connector has shown.
use mathlib.Core.Path.{subst}
use novena_gateway.Common.{
  ◌∙◌, ap, String, ◌≡◌, true, false, Option, none, some, List, [], ◌∷◌, any, arith, string_eq,
  Result, ok, value_or, bind_passed,
}
use novena_gateway.Common.Int.{ℤ, pos, ◌≤ℤ◌, eq_ℤ}
use novena_gateway.Json.{Value, null, get, is_null, Float, finite, ltb_float}
use novena_gateway.Rpc.Device.{
  DeviceInfo, Registry, Request, CommandError, validate_int_param, validate_timeout, optional_count,
  function_code_of, value_of, single, matches, resolve_canonical_device, named_device,
  write_request, optional_param, prepare_write, write_codes, decimal,
}

-- The device that the parameters name by its id is the only one of that id, the request goes to its
-- connector, and each number is within its bounds.
pub record Sendable (text_of : Value → String) (devices : Registry) (params : Value) (r : Request)
    : Type 0 where
  pub device_id : Value
  pub info : DeviceInfo
  pub named : get params "device_id" ≡ ok device_id
  pub only : matches text_of device_id devices ≡ (r.device_name, info) ∷ []
  pub connected : info.connector ≡ some r.connector
  pub writes : any (eq_ℤ r.function_code) write_codes ≡ true
  pub addressed : pos 0 ≤ℤ r.address
  pub not_short : ltb_float r.timeout (finite (decimal (pos 1) 1)) ≡ false
  pub not_long : ltb_float (finite (decimal (pos 60) 0)) r.timeout ≡ false
  pub valued : is_null r.value ≡ false
  pub counted : (n : ℤ) → r.count ≡ some n → (pos 1 ≤ℤ n) × (n ≤ℤ pos 125)

single-eq-ok :
    (xs : List (String × DeviceInfo)) {name connector : String}
    → single xs ≡ ok (name, connector)
    → (info : DeviceInfo) × (xs ≡ (name, info) ∷ []) × (info.connector ≡ some connector)
unfolding single
single-eq-ok [] h = cc
single-eq-ok ((n, info) ∷ []) h = (info, ground arith, ground arith)
single-eq-ok (a ∷ b ∷ rest) h = cc

function_code_of-eq-ok :
    (params : Value) (allowed : List ℤ) {n : ℤ}
    → function_code_of params allowed ≡ ok n
    → any (eq_ℤ n) allowed ≡ true
unfolding function_code_of
function_code_of-eq-ok params allowed h = ground arith

address-eq-ok :
    (params : Value) (name : String) {n : ℤ} (low : ℤ)
    → validate_int_param params name low none ≡ ok n
    → low ≤ℤ n
unfolding validate_int_param
address-eq-ok params name low h = ground arith

count-eq-ok :
    (params : Value) (name : String) {n : ℤ} (low high : ℤ)
    → validate_int_param params name low (some high) ≡ ok n
    → (low ≤ℤ n) × (n ≤ℤ high)
unfolding validate_int_param
count-eq-ok params name low high h = ground arith

optional_count-eq-ok :
    (params : Value) {n : ℤ} → optional_count params ≡ ok (some n) → (pos 1 ≤ℤ n) × (n ≤ℤ pos 125)
optional_count-eq-ok params {n} h =
    count-eq-ok params "objectsCount" (pos 1) (pos 125) (unfold optional_count in ground arith)

timeout-eq-ok :
    (params : Value) {t : Float}
    → validate_timeout params ≡ ok t
    → (ltb_float t (finite (decimal (pos 1) 1)) ≡ false)
      × (ltb_float (finite (decimal (pos 60) 0)) t ≡ false)
unfolding validate_timeout
timeout-eq-ok params h = ground arith

value_of-eq-ok : (params : Value) {v : Value} → value_of params ≡ ok v → is_null v ≡ false
unfolding value_of
value_of-eq-ok params h = ground arith

named_device-eq-ok :
    (text_of : Value → String) (devices : Registry) (params : Value) {name connector : String}
    → named_device text_of devices params ≡ ok (name, connector)
    → (device_id : Value) × (get params "device_id" ≡ ok device_id)
      × (resolve_canonical_device text_of devices device_id ≡ ok (name, connector))
unfolding named_device
named_device-eq-ok text_of devices params h =
    (value_or (get params "device_id") null, ground arith, ground arith)

ok_injective : {r s : Request} → ◌≡◌ {A = Result CommandError Request} (ok r) (ok s) → r ≡ s
ok_injective h = cc

-- The parts of a request, each of which has passed its test.
record Parts (text_of : Value → String) (devices : Registry) (params : Value) (r : Request)
    : Type 0 where
  found : String × String
  function_code : ℤ
  address : ℤ
  timeout : Float
  value : Value
  count : Option ℤ
  named : named_device text_of devices params ≡ ok found
  coded : function_code_of params write_codes ≡ ok function_code
  addressed : validate_int_param params "address" (pos 0) none ≡ ok address
  timed : validate_timeout params ≡ ok timeout
  valued : value_of params ≡ ok value
  counted : optional_count params ≡ ok count
  made :
      write_request found function_code address timeout value (optional_param params "type") count
      ≡ r

prepare_write-Parts :
    (text_of : Value → String) (devices : Registry) (params : Value) (r : Request)
    → prepare_write text_of devices params ≡ ok r
    → Parts text_of devices params r
unfolding prepare_write
prepare_write-Parts text_of devices params r h =
    let (found, named, to_code) = bind_passed (named_device text_of devices params) _ r h in
    let (function_code, coded, to_address) =
      bind_passed (function_code_of params write_codes) _ r to_code in
    let (address, addressed, to_timeout) =
      bind_passed (validate_int_param params "address" (pos 0) none) _ r to_address in
    let (timeout, timed, to_value) = bind_passed (validate_timeout params) _ r to_timeout in
    let (value, valued, to_count) = bind_passed (value_of params) _ r to_value in
    let (count, counted, made) = bind_passed (optional_count params) _ r to_count in
    record {
      found = found;
      function_code = function_code;
      address = address;
      timeout = timeout;
      value = value;
      count = count;
      named = named;
      coded = coded;
      addressed = addressed;
      timed = timed;
      valued = valued;
      counted = counted;
      made = ok_injective made;
    }

-- A write that is sent goes to the connector of the one device that has the given id, with a function
-- code that writes, an address that is not negative, a timeout that compares neither below 0.1 nor
-- above 60 seconds, as a NaN never does, a value that is not None and, where there is a count of
-- objects, one from 1 to 125.
pub prepare_write_sound :
    (text_of : Value → String) (devices : Registry) (params : Value) (r : Request)
    → prepare_write text_of devices params ≡ ok r
    → Sendable text_of devices params r
prepare_write_sound text_of devices params r h =
    let t : Parts text_of devices params r = prepare_write-Parts text_of devices params r h in
    let (device_id, named, resolved) = named_device-eq-ok text_of devices params t.named in
    let (info, only, connected) =
      single-eq-ok (matches text_of device_id devices) {name = t.found.0} {connector = t.found.1}
        (unfold resolve_canonical_device in resolved) in
    let (not_short, not_long) = timeout-eq-ok params t.timed in
    subst (Sendable text_of devices params) t.made (
      unfold write_request in
      record {
        device_id = device_id;
        info = info;
        named = named;
        only = only;
        connected = connected;
        writes = function_code_of-eq-ok params write_codes t.coded;
        addressed = address-eq-ok params "address" (pos 0) t.addressed;
        not_short = not_short;
        not_long = not_long;
        valued = value_of-eq-ok params t.valued;
        counted = λ n e. optional_count-eq-ok params (t.counted ∙ ap ok e);
      })
