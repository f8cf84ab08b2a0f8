-- ===== src/Governed/Validate/Unbounded.antt =====
-- What the limits of a control let pass.
use novena_gateway.Common.{◌≡◌, refl, false, arith, ok}
use novena_gateway.Json.{
  Value, null, special, get, nan, infinity, minus_infinity, Float, finite, unusual, to_float,
  ltb_float,
}
use novena_gateway.Governed.Validate.{check_limits, check_allowed, check_minimum, check_maximum}

ltb-nan : (x : Float) → ltb_float (unusual nan) x ≡ false
unfolding ltb_float
ltb-nan (finite d) = refl
ltb-nan (unusual nan) = refl
ltb-nan (unusual infinity) = refl
ltb-nan (unusual minus_infinity) = refl

ltb_nan : (x : Float) → ltb_float x (unusual nan) ≡ false
unfolding ltb_float
ltb_nan (finite d) = refl
ltb_nan (unusual nan) = refl
ltb_nan (unusual infinity) = refl
ltb_nan (unusual minus_infinity) = refl

-- A control that has no set of allowed values, and whose minimum and maximum are numbers, lets an
-- `expected_value` of NaN pass, whatever its bounds.
pub nan_passes :
    (limits low high : Value) (x y : Float)
    → get limits "enum" ≡ ok null
    → get limits "min" ≡ ok low
    → get limits "max" ≡ ok high
    → to_float low ≡ ok x
    → to_float high ≡ ok y
    → check_limits limits (special nan) ≡ ok tt
unfolding check_limits check_allowed check_minimum check_maximum to_float
nan_passes limits low high x y free least most bottom top =
    ground (arith, free, least, most, bottom, top, ltb-nan x, ltb_nan y)
