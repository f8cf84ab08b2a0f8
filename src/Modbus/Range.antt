-- ===== src/Modbus/Range.antt =====
-- `Utils.parse_wide_range_request` of novena_gateway/connectors/modbus/utils.py: an address such as
-- "10-20" becomes a list of reads, each a start address and a number of registers.
pub mod Cover
use novena_gateway.Common.{
  ℕ, zero, suc, ◌+◌, ◌-◌, String, Bool, true, false, not, Option, none, some, List, [], ◌∷◌, ltb,
  leb, ◌==◌, if◌then◌else◌, min, Result, ok, err, ◌>>=◌, ◌>>◌, raise_if, or_raise, is_some,
}
use novena_gateway.Common.Int.{ℤ, pos, negsuc, ◌+ℤ◌, ◌-ℤ◌, leb_ℤ, ltb_ℤ, pos_part}
use novena_gateway.Json.{
  Value, str, num, Fault, type_error, value_error, attribute_error, codes, parse_int,
}

-- `address.split('-')`, by the code of the mark.
unfoldable pub split : ℕ → List ℕ → List (List ℕ)
split mark [] = [] ∷ []
split mark (c ∷ cs) =
    let rest = split mark cs in
    if c == mark
    then [] ∷ rest
    else elim rest [ [] ↦ (c ∷ []) ∷ [] | part ∷ parts ↦ (c ∷ part) ∷ parts ]

-- `'-' in address`
pub has_mark : ℕ → List ℕ → Bool
has_mark mark [] = false
has_mark mark (c ∷ cs) = if c == mark then true else has_mark mark cs

-- `is_wide_range_request`: only a text can be one.
unfoldable pub is_wide_range_request : Value → Bool
unfolding has_mark
is_wide_range_request (str s) = has_mark b'-' (codes s)
is_wide_range_request _ = false

unfoldable pub parse_parts : List (List ℕ) → Option (ℤ × ℤ)
unfolding parse_int
parse_parts (a ∷ b ∷ rest) = elim (parse_int a) [
  | none ↦ none
  | some first ↦ elim (parse_int b) [ none ↦ none | some last ↦ some (first, last) ]
]
parse_parts _ = none

-- `__parse_wide_range_address`: the first two parts; none where it raises.
unfoldable pub parse_wide_range_address : String → Option (ℤ × ℤ)
unfolding split parse_parts
parse_wide_range_address address = parse_parts (split b'-' (codes address))

-- `get_start_address`
unfoldable pub get_start_address : Value → Result Fault ℤ
unfolding is_wide_range_request parse_wide_range_address
get_start_address (num m zero) = ok m
get_start_address (str s) =
    if is_wide_range_request (str s)
    then (do r ← or_raise (parse_wide_range_address s) value_error; ok r.0)
    else err value_error
get_start_address _ = err value_error

-- The loop `while remaining_registers > 0`, on fuel.
unfoldable pub chunks : ℕ → ℤ → ℕ → ℕ → List (ℤ × ℕ)
chunks zero start remaining most = []
chunks (suc fuel) start zero most = []
chunks (suc fuel) start (suc n) most =
    let chunk : ℕ = min most (suc n) in
    (start, chunk) ∷ chunks fuel (start +ℤ pos chunk) (suc n - chunk) most

-- The body of the `try`. Each round of the loop takes at least one register, so that `total` rounds
-- are enough where `most` is not 0.
unfoldable pub plan : ℤ → ℤ → ℕ → Result Fault (List (ℤ × ℕ))
unfolding chunks
plan start (negsuc n) most = err value_error
plan start (pos zero) most = err value_error
plan start (pos (suc n)) most =
    if ltb most (suc n) then ok (chunks (suc n) start (suc n) most) else ok ((start, suc n) ∷ [])

-- `parse_wide_range_request`: every exception becomes a ValueError.
unfoldable pub parse_wide_range_request : String → ℕ → ℕ → Result Fault (List (ℤ × ℕ))
unfolding plan parse_wide_range_address
parse_wide_range_request address objects_count most = elim (parse_wide_range_address address) [
  | none ↦ err value_error
  | some (start, last) ↦ plan start (last -ℤ start +ℤ pos objects_count) most
]
