-- ===== src/Json.antt =====
-- The values that `json.loads` yields, and the Python operations that the source applies to them.
-- A number is a decimal, `num m k` for m / 10^k: an `int` has k = 0, a `float` k > 0; `NaN`, `Infinity`
-- and `-Infinity` are `special`. The rounding of a decimal to a double, and its overflow to an
-- infinity, are not modelled.
mod Text
mod Floating
unfoldable pub use Text.*
unfoldable pub use Floating.*
use novena_gateway.Common.{
  ℕ, suc, ◌+◌, ◌-◌, ◌*◌, List, [], ◌∷◌, ◌||◌, ◌^◌, ◌/◌, String, ◌≡◌, Bool, true, false, not, ◌&&◌,
  Option, none, some, ltb, leb, ◌==◌, str_eq, if◌then◌else◌, Result, ok, err, ◌>>=◌, or_raise,
}
use novena_gateway.Common.Int.{ℤ, pos, negsuc, ◌*ℤ◌, pos_part, neg_part, sub_ℕ, ltb_ℤ, eq_ℤ}

mutual
  pub data Value : Type 0 where
    null : Value
    bool : Bool → Value
    num : ℤ → ℕ → Value
    special : Special → Value
    str : String → Value
    arr : Items → Value
    obj : Fields → Value

  pub data Fields : Type 0 where
    end : Fields
    field : String → Value → Fields → Fields

  pub data Items : Type 0 where
    nil : Items
    cons : Value → Items → Items

-- The built-in exceptions that an operation on a value of the wrong form raises.
pub data Fault : Type 0 where
  attribute_error type_error value_error key_error overflow_error : Fault

abbrev pub number : ℤ → Value
number z = num z 0

unfoldable pub get_field : String → Fields → Option Value
get_field k end = none
get_field k (field j v fs) = if str_eq j k then some v else get_field k fs

abbrev pub or_value : Option Value → Value → Value
or_value none d = d
or_value (some v) d = v

-- `v.get(k, d)`: only a dict has the method.
unfoldable pub get_or : Value → String → Value → Result Fault Value
unfolding get_field
get_or (obj fs) k d = ok (or_value (get_field k fs) d)
get_or _ k d = err attribute_error

-- `v.get(k)`
abbrev pub get : Value → String → Result Fault Value
get v k = get_or v k null

-- `v[k]` for a text k.
unfoldable pub index : Value → String → Result Fault Value
unfolding get_field
index (obj fs) k = or_raise (get_field k fs) key_error
index _ k = err type_error

abbrev pub is_dict : Value → Bool
is_dict (obj fs) = true
is_dict _ = false

abbrev pub is_null : Value → Bool
is_null null = true
is_null _ = false

-- The truth value of `if v:`.
abbrev pub truthy : Value → Bool
truthy null = false
truthy (bool b) = b
truthy (num m k) = not (eq_ℤ m (pos 0))
truthy (special x) = true
truthy (str s) = not (str_eq s "")
truthy (arr nil) = false
truthy (arr (cons v vs)) = true
truthy (obj end) = false
truthy (obj (field k v fs)) = true

-- `v or {}`
abbrev pub or_dict : Value → Value
or_dict v = if truthy v then v else obj end

abbrev pub trunc : ℤ → ℕ → ℤ
trunc (pos n) k = pos (n / 10 ^ k)
trunc (negsuc n) k = sub_ℕ 0 (suc n / 10 ^ k)

-- `int(v)`
unfoldable pub to_int : Value → Result Fault ℤ
unfolding parse_int
to_int (num m k) = ok (trunc m k)
to_int (special nan) = err value_error
to_int (special infinity) = err overflow_error
to_int (special minus_infinity) = err overflow_error
to_int (bool b) = ok (if b then pos 1 else pos 0)
to_int (str s) = or_raise (parse_int (codes s)) value_error
to_int _ = err type_error

-- `float(v)`
unfoldable pub to_float : Value → Result Fault Float
unfolding parse_float
to_float (num m k) = ok (finite (record { mantissa = m; places = k }))
to_float (special x) = ok (unusual x)
to_float (bool b) = ok (finite (record { mantissa = if b then pos 1 else pos 0; places = 0 }))
to_float (str s) = or_raise (parse_float (codes s)) value_error
to_float _ = err type_error

abbrev numeric : Value → Option Decimal
numeric (num m k) = some (record { mantissa = m; places = k })
numeric (bool b) = some (record { mantissa = if b then pos 1 else pos 0; places = 0 })
numeric _ = none

abbrev eq_numeric : Option Decimal → Option Decimal → Bool
eq_numeric (some a) (some b) = eq_decimal a b
eq_numeric _ _ = false

abbrev size : Fields → ℕ
size end = 0
size (field k v fs) = suc (size fs)

-- A float as a value.
abbrev pub of_float : Float → Value
of_float (finite d) = num d.mantissa d.places
of_float (unusual x) = special x

-- `a == b`: numbers and truth values by value, dicts whatever the order of their keys.
unfoldable mutual
  unfolding get_field eq_decimal

  pub eq_value : Value → Value → Bool
  eq_value null w = is_null w
  eq_value (bool b) w = eq_numeric (numeric (bool b)) (numeric w)
  eq_value (num m k) w = eq_numeric (numeric (num m k)) (numeric w)
  eq_value (special x) (special y) = eq_special x y
  eq_value (special x) _ = false
  eq_value (str s) (str t) = str_eq s t
  eq_value (str s) _ = false
  eq_value (arr vs) (arr ws) = eq_items vs ws
  eq_value (arr vs) _ = false
  eq_value (obj fs) (obj gs) = (size fs == size gs) && eq_fields fs gs
  eq_value (obj fs) _ = false

  pub eq_items : Items → Items → Bool
  eq_items nil nil = true
  eq_items nil (cons w ws) = false
  eq_items (cons v vs) nil = false
  eq_items (cons v vs) (cons w ws) = eq_value v w && eq_items vs ws

  pub eq_fields : Fields → Fields → Bool
  eq_fields end gs = true
  eq_fields (field k v fs) gs =
      let same : Bool = elim (get_field k gs) [ none ↦ false | some w ↦ eq_value v w ] in
      same && eq_fields fs gs

-- `v in vs`
unfoldable pub mem_items : Value → Items → Bool
mem_items v nil = false
mem_items v (cons w ws) = if eq_value w v then true else mem_items v ws
