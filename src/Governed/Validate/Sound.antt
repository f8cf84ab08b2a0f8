-- ===== src/Governed/Validate/Sound.antt =====
-- What `validate` has established when it returns.
use novena_gateway.Common.{
  String, ◌≡◌, refl, ap, ◌∙◌, [], Bool, true, false, not, ◌||◌, Option, none, some, arith,
  string_eq, ok, value_or, raise_if-eq-ok,
}
use novena_gateway.Common.Int.{ℤ, pos, ◌<ℤ◌, ◌≤ℤ◌, max_ℤ, abs_ℤ, ◌-ℤ◌}
use novena_gateway.Json.{
  Value, null, str, truthy, get, get_or, get_field, or_dict, is_null, to_float, Float, ltb_float,
}
use novena_gateway.Common.Dict.{lookup}
use novena_gateway.Governed.Journal.{Entry}
use novena_gateway.Governed.Guard.{
  Platform, Guard, Moment, Reason, rejected, reject_if, verify_signed, trusted_key, known_key,
  signature_holds, Bytes,
}
use novena_gateway.Governed.Validate.{
  validate, check_signed, check_identities, check_target, check_times, check_window, check_epoch,
  find_control, check_control, check_value, check_journal, check_limits, check_allowed,
  check_minimum, check_maximum, mem_of, signed_wire, signed_body,
}

reject_if-eq-ok : (b : Bool) (r : Reason) → reject_if b r ≡ ok tt → b ≡ false
reject_if-eq-ok b r h = raise_if-eq-ok b (rejected r) h

-- The object that `validate` hands to `_verify_signed`.
abbrev pub wire_of : Value → Value
wire_of envelope =
    signed_wire (signed_body envelope) (value_or (get envelope "signature") null)
      (value_or (get envelope "signing_key_id") null)

verify_signed-eq-ok :
    (p : Platform) (g : Guard) (body signature key_id : Value)
    → verify_signed p g (signed_wire body signature key_id) ≡ ok tt
    → (id : String) × (key : Bytes) × (key_id ≡ str id)
      × (lookup id g.keys ≡ some key)
      × (signature_holds p key (signed_wire body signature key_id) ≡ true)
unfolding verify_signed trusted_key known_key signed_wire get_or get_field
verify_signed-eq-ok p g body signature (str id) h =
    (id, found_key (lookup id g.keys), refl, ground arith, ground arith)
  where
    found_key : Option Bytes → Bytes
    found_key none = []
    found_key (some key) = key
verify_signed-eq-ok p g body signature _ h = cc

check_signed-eq-ok :
    (p : Platform) (g : Guard) (envelope : Value)
    → check_signed p g envelope ≡ ok tt
    → (id : String) × (key : Bytes) × (get envelope "signing_key_id" ≡ ok (str id))
      × (lookup id g.keys ≡ some key)
      × (signature_holds p key (wire_of envelope) ≡ true)
check_signed-eq-ok p g envelope h =
    let key_id : Value = value_or (get envelope "signing_key_id") null in
    let known : get envelope "signing_key_id" ≡ ok key_id = unfold check_signed in ground arith in
    let (id, key, same, found, holds) =
      verify_signed-eq-ok p g (signed_body envelope) (value_or (get envelope "signature") null)
        key_id (unfold check_signed in ground arith) in
    (id, key, known ∙ ap ok same, found, holds)

check_times-eq-ok :
    (p : Platform) (m : Moment) (envelope : Value) {t : ℤ × ℤ}
    → check_times p m envelope ≡ ok t
    → m.now <ℤ t.1
unfolding check_times
check_times-eq-ok p m envelope h = ground arith

check_window-eq-ok :
    (g : Guard) (m : Moment) (t : ℤ × ℤ)
    → check_window g m t ≡ ok tt
    → abs_ℤ (m.now -ℤ t.0) ≤ℤ max_ℤ g.max_clock_offset (t.1 -ℤ t.0)
unfolding check_window
check_window-eq-ok g m t h = ground arith

-- What the limits of a control say of a value, each where it is given.
pub record WithinLimits (limits expected : Value) : Type 0 where
  pub allowed :
      (vs : Value) → get limits "enum" ≡ ok vs → is_null vs ≡ false → mem_of expected vs ≡ ok true
  pub minimum :
      (low : Value) (x y : Float)
      → get limits "min" ≡ ok low
      → is_null low ≡ false
      → to_float expected ≡ ok x
      → to_float low ≡ ok y
      → ltb_float x y ≡ false
  pub maximum :
      (high : Value) (x y : Float)
      → get limits "max" ≡ ok high
      → is_null high ≡ false
      → to_float expected ≡ ok x
      → to_float high ≡ ok y
      → ltb_float y x ≡ false

check_limits-eq-ok :
    (limits expected : Value) → check_limits limits expected ≡ ok tt → WithinLimits limits expected
unfolding check_limits check_allowed check_minimum check_maximum
check_limits-eq-ok limits expected h = record {
  allowed = λ vs e n. ground arith;
  minimum = λ low x y e n ex ey. ground arith;
  maximum = λ high x y e n ex ey. ground arith;
}

check_value-eq-ok :
    (params control : Value)
    → check_value (or_dict params) control ≡ ok tt
    → (expected : Value) × (limits : Value) × (get (or_dict params) "expected_value" ≡ ok expected)
      × (get control "limits" ≡ ok limits)
      × WithinLimits (or_dict limits) expected
check_value-eq-ok params control h =
    let expected : Value = value_or (get (or_dict params) "expected_value") null in
    let limits : Value = value_or (get control "limits") null in
    (
      expected,
      limits,
      (unfold check_value in ground arith),
      (unfold check_value in ground arith),
      check_limits-eq-ok (or_dict limits) expected (unfold check_value in ground arith),
    )

-- The tests that a command has passed, block by block.
pub record Passed (p : Platform) (g : Guard) (m : Moment) (envelope control : Value)
    (prior : Option Entry) : Type 0 where
  pub target : Value
  pub times : ℤ × ℤ
  pub raw : Value
  pub device : Value
  pub clock : (not g.trusted_clock || not m.clock_ready) ≡ false
  pub policy : truthy g.policy ≡ true
  pub signed : check_signed p g envelope ≡ ok tt
  pub identities : check_identities envelope ≡ ok tt
  pub targeted : check_target g envelope ≡ ok target
  pub timed : check_times p m envelope ≡ ok times
  pub windowed : check_window g m times ≡ ok tt
  pub current : check_epoch g envelope ≡ ok tt
  pub given : get envelope "params" ≡ ok raw
  pub found : find_control p g target (or_dict raw) ≡ ok (device, control)
  pub matched : check_control envelope (or_dict raw) control ≡ ok tt
  pub valued : check_value (or_dict raw) control ≡ ok tt
  pub journalled : check_journal g.journal envelope device control ≡ ok prior

pub validate-Passed :
    (p : Platform) (g : Guard) (m : Moment) (envelope control : Value) (prior : Option Entry)
    → validate p g m envelope ≡ ok (control, prior)
    → Passed p g m envelope control prior
unfolding validate
validate-Passed p g m envelope control prior h =
    let params : Value = or_dict (value_or (get envelope "params") null) in
    let aim : Value = value_or (check_target g envelope) null in
    record {
      target = aim;
      times = value_or (check_times p m envelope) (pos 0, pos 0);
      raw = value_or (get envelope "params") null;
      device = (value_or (find_control p g aim params) (null, null)).0;
      clock = ground arith;
      policy = ground arith;
      signed = ground arith;
      identities = ground arith;
      targeted = ground arith;
      timed = ground arith;
      windowed = ground arith;
      current = ground arith;
      given = ground arith;
      found = ground arith;
      matched = ground arith;
      valued = ground arith;
      journalled = ground arith;
    }

-- A command that is accepted, fresh or not, carries the signature of a trusted key over its body.
pub validate_signed :
    (p : Platform) (g : Guard) (m : Moment) (envelope : Value) {r : Value × Option Entry}
    → validate p g m envelope ≡ ok r
    → (id : String) × (key : Bytes) × (get envelope "signing_key_id" ≡ ok (str id))
      × (lookup id g.keys ≡ some key)
      × (signature_holds p key (wire_of envelope) ≡ true)
validate_signed p g m envelope {r} h =
    let t : Passed p g m envelope r.0 r.1 = validate-Passed p g m envelope r.0 r.1 h in
    check_signed-eq-ok p g envelope t.signed

-- A command that is accepted comes at a synchronised clock, has not expired, and was issued no
-- further from now than the larger of the allowed offset and its own time to live.
pub validate_timely :
    (p : Platform) (g : Guard) (m : Moment) (envelope : Value) {r : Value × Option Entry}
    → validate p g m envelope ≡ ok r
    → (issued_at : ℤ) × (expires_at : ℤ) × (check_times p m envelope ≡ ok (issued_at, expires_at))
      × (g.trusted_clock ≡ true)
      × (m.clock_ready ≡ true)
      × (m.now <ℤ expires_at)
      × (abs_ℤ (m.now -ℤ issued_at) ≤ℤ max_ℤ g.max_clock_offset (expires_at -ℤ issued_at))
validate_timely p g m envelope {r} h =
    let t : Passed p g m envelope r.0 r.1 = validate-Passed p g m envelope r.0 r.1 h in
    (
      t.times.0,
      t.times.1,
      t.timed,
      (ground arith),
      (ground arith),
      check_times-eq-ok p m envelope t.timed,
      check_window-eq-ok g m t.times t.windowed,
    )

-- An accepted command's control is the one that the policy retains under its device and key, and its
-- `expected_value`, where that control bounds it, is one of the allowed values, and compares neither
-- below the minimum nor above the maximum, as a NaN never does.
pub validate_limits :
    (p : Platform) (g : Guard) (m : Moment) (envelope : Value) {control : Value}
    {prior : Option Entry}
    → validate p g m envelope ≡ ok (control, prior)
    → (target : Value) × (device : Value) × (params : Value) × (expected : Value) × (limits : Value)
      × (check_target g envelope ≡ ok target)
      × (get envelope "params" ≡ ok params)
      × (find_control p g target (or_dict params) ≡ ok (device, control))
      × (get (or_dict params) "expected_value" ≡ ok expected)
      × (get control "limits" ≡ ok limits)
      × WithinLimits (or_dict limits) expected
validate_limits p g m envelope {control} {prior} h =
    let t : Passed p g m envelope control prior = validate-Passed p g m envelope control prior h in
    let (expected, limits, value, bounds, within) = check_value-eq-ok t.raw control t.valued in
    (
      t.target, t.device, t.raw, expected, limits, t.targeted, t.given, t.found, value, bounds,
      within,
    )
