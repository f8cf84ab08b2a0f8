-- ===== src/Json/Floating.antt =====
-- The values of `float`: decimals, and those that are no numbers; their texts, order and difference.
use novena_gateway.Common.{
  ℕ, ◌+◌, ◌-◌, ◌*◌, ◌^◌, Bool, true, false, ◌&&◌, ◌||◌, Option, none, some, List, [], ◌∷◌, ◌==◌,
  if◌then◌else◌,
}
use novena_gateway.Common.Int.{ℤ, pos, ◌-ℤ◌, ◌*ℤ◌, abs_ℤ, pos_part, neg_part, sub_ℕ, ltb_ℤ, eq_ℤ}
use novena_gateway.Json.Text.{codes, eq_codes, lower, lower_code, is_digit, is_blank, strip}

-- The values of `float` that are no numbers.
pub data Special : Type 0 where
  nan infinity minus_infinity : Special

pub record Decimal : Type 0 where
  pub mantissa : ℤ
  pub places : ℕ

-- The values of `float`.
pub data Float : Type 0 where
  finite : Decimal → Float
  unusual : Special → Float

abbrev signed_special : Bool → Special → Special
signed_special true infinity = minus_infinity
signed_special _ x = x

abbrev special_text : Bool → List ℕ → Option Float
special_text minus cs =
    if eq_codes cs (codes "nan")
    then some (unusual nan)
    else if eq_codes cs (codes "inf") || eq_codes cs (codes "infinity")
    then some (unusual (signed_special minus infinity))
    else none

-- The digits of a text with its point: what was read so far, how many stood after the point, whether
-- a point and a digit were read, and the rest. An underscore stands between two digits.
pub record Digits : Type 0 where
  pub mantissa : ℕ
  pub places : ℕ
  pub has_digit : Bool
  pub rest : List ℕ

abbrev starts_digit : List ℕ → Bool
starts_digit [] = false
starts_digit (c ∷ cs) = is_digit c

-- One run of digits, after a digit or not.
unfoldable pub read_digits : Bool → ℕ → ℕ → List ℕ → Digits
read_digits after n k [] = record { mantissa = n; places = k; has_digit = after; rest = [] }
read_digits after n k (c ∷ cs) =
    let more = read_digits true (n * 10 + (c - 48)) (k + 1) cs in
    let skipped = read_digits after n k cs in
    if is_digit c
    then more
    else if c == b'_' && after && starts_digit cs
    then skipped
    else record { mantissa = n; places = k; has_digit = after; rest = c ∷ cs }

-- What stands after the whole digits: a point with digits, or nothing.
abbrev fraction_after : Digits → List ℕ → Digits
fraction_after d [] = record d { places = 0 }
fraction_after d (c ∷ cs) =
    if c == b'.'
    then (let f = read_digits false d.mantissa 0 cs in
        record f { has_digit = d.has_digit || f.has_digit })
    else record d { places = 0 }

abbrev signed_by : Bool → ℕ → ℤ
signed_by true n = sub_ℕ 0 n
signed_by false n = pos n

-- The sign that a text starts with.
abbrev unsigned_part : List ℕ → Bool × List ℕ
unsigned_part [] = (false, [])
unsigned_part (c ∷ cs) =
    if c == b'-' then (true, cs) else if c == b'+' then (false, cs) else (false, c ∷ cs)

abbrev power_of : ℤ → ℕ → Option (Bool × ℕ) → Option Float
power_of m k none = none
power_of m k (some (true, e)) = some (finite (record { mantissa = m; places = k + e }))
power_of m k (some (false, e)) = some (finite (record { mantissa = m *ℤ pos (10 ^ e); places = k }))

-- The exponent: its digits up to the end.
abbrev read_exponent : Bool × List ℕ → Option (Bool × ℕ)
read_exponent (minus, cs) =
    let d = read_digits false 0 0 cs in
    if d.has_digit && is_blank d.rest then some (minus, d.mantissa) else none

abbrev scaled : Bool → Digits → List ℕ → Option Float
scaled minus d [] =
    some (finite (record { mantissa = signed_by minus d.mantissa; places = d.places }))
scaled minus d (c ∷ cs) =
    if lower_code c == b'e'
    then power_of (signed_by minus d.mantissa) d.places (read_exponent (unsigned_part cs))
    else none

abbrev read_plain : Bool → Digits → Option Float
read_plain minus whole =
    let d = fraction_after whole whole.rest in if d.has_digit then scaled minus d d.rest else none

abbrev read_number : Bool × List ℕ → Option Float
read_number (minus, cs) = elim (special_text minus (lower cs)) [
  | some x ↦ some x
  | none ↦ read_plain minus (read_digits false 0 0 cs)
]

-- `float(s)` of a text.
unfoldable pub parse_float : List ℕ → Option Float
unfolding read_digits
parse_float cs = read_number (unsigned_part (strip cs))

abbrev pub scale : Decimal → ℕ → ℤ
scale d k = sub_ℕ (pos_part d.mantissa * 10 ^ k) (neg_part d.mantissa * 10 ^ k)

-- `a < b` on decimals.
unfoldable pub ltb_decimal : Decimal → Decimal → Bool
ltb_decimal a b = ltb_ℤ (scale a b.places) (scale b a.places)

-- `a < b` on floats: a NaN is below nothing and above nothing.
unfoldable pub ltb_float : Float → Float → Bool
unfolding ltb_decimal
ltb_float (finite a) (finite b) = ltb_decimal a b
ltb_float (finite a) (unusual infinity) = true
ltb_float (finite a) (unusual _) = false
ltb_float (unusual minus_infinity) (finite b) = true
ltb_float (unusual minus_infinity) (unusual infinity) = true
ltb_float (unusual _) _ = false

abbrev pub eq_special : Special → Special → Bool
eq_special infinity infinity = true
eq_special minus_infinity minus_infinity = true
eq_special _ _ = false

unfoldable pub eq_decimal : Decimal → Decimal → Bool
eq_decimal a b = eq_ℤ (scale a b.places) (scale b a.places)

-- `a - b` on decimals.
unfoldable pub sub_decimal : Decimal → Decimal → Decimal
sub_decimal a b = record {
  mantissa = scale a b.places -ℤ scale b a.places;
  places = a.places + b.places;
}

abbrev opposite : Special → Special
opposite nan = nan
opposite infinity = minus_infinity
opposite minus_infinity = infinity

abbrev add_special : Special → Special → Special
add_special infinity infinity = infinity
add_special minus_infinity minus_infinity = minus_infinity
add_special _ _ = nan

-- `a - b`
unfoldable pub sub_float : Float → Float → Float
unfolding sub_decimal
sub_float (finite a) (finite b) = finite (sub_decimal a b)
sub_float (finite a) (unusual y) = unusual (opposite y)
sub_float (unusual x) (finite b) = unusual x
sub_float (unusual x) (unusual y) = unusual (add_special x (opposite y))

-- `abs(a)`
abbrev pub abs_float : Float → Float
abs_float (finite a) = finite (record a { mantissa = abs_ℤ a.mantissa })
abs_float (unusual minus_infinity) = unusual infinity
abs_float (unusual x) = unusual x
