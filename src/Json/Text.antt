-- ===== src/Json/Text.antt =====
-- Texts as lists of code points, and the Python operations on them: `strip`, `lower`, `int`.
use Prim.Native.Char.{code}
use novena_gateway.Common.{
  ℕ, ◌+◌, ◌-◌, ◌*◌, String, Bool, true, false, ◌&&◌, ◌||◌, Option, none, some, List, [], ◌∷◌, leb,
  ◌==◌, if◌then◌else◌,
}
use novena_gateway.Common.Int.{ℤ, pos, sub_ℕ}

abbrev pub codes : String → List ℕ
codes String.[] = []
codes (String.◌∷◌ c s) = code c ∷ codes s

-- The white space of Latin-1, which is what `str.strip` takes off.
abbrev pub is_space : ℕ → Bool
is_space c = (leb 9 c && leb c 13) || (leb 28 c && leb c 32) || c == 133 || c == 160

-- `not s.strip()`: nothing is left of the text.
abbrev pub is_blank : List ℕ → Bool
is_blank [] = true
is_blank (c ∷ cs) = is_space c && is_blank cs

abbrev pub lower_code : ℕ → ℕ
lower_code c = if leb b'A' c && leb c b'Z' then c + 32 else c

-- `s.lower()`, of ASCII letters.
abbrev pub lower : List ℕ → List ℕ
lower [] = []
lower (c ∷ cs) = lower_code c ∷ lower cs

abbrev pub eq_codes : List ℕ → List ℕ → Bool
eq_codes [] [] = true
eq_codes [] (d ∷ ds) = false
eq_codes (c ∷ cs) [] = false
eq_codes (c ∷ cs) (d ∷ ds) = c == d && eq_codes cs ds

abbrev pub is_digit : ℕ → Bool
is_digit c = leb b'0' c && leb c b'9'

abbrev pub lstrip : List ℕ → List ℕ
lstrip [] = []
lstrip (c ∷ cs) = let rest = lstrip cs in if is_space c then rest else c ∷ cs

abbrev rstrip : List ℕ → List ℕ
rstrip [] = []
rstrip (c ∷ cs) = let rest = rstrip cs in if is_blank (c ∷ cs) then [] else c ∷ rest

-- `s.strip()`
abbrev pub strip : List ℕ → List ℕ
strip cs = lstrip (rstrip cs)

-- Digits up to the end, but for white space at the right.
abbrev digits : ℕ → List ℕ → Option ℕ
digits n [] = some n
digits n (c ∷ cs) =
    let rest = digits (n * 10 + (c - 48)) cs in
    if is_digit c then rest else if is_blank (c ∷ cs) then some n else none

abbrev unsigned : List ℕ → Option ℕ
unsigned [] = none
unsigned (c ∷ cs) = if is_digit c then digits 0 (c ∷ cs) else none

abbrev negated : Option ℕ → Option ℤ
negated none = none
negated (some n) = some (sub_ℕ 0 n)

abbrev plain : Option ℕ → Option ℤ
plain none = none
plain (some n) = some (pos n)

abbrev signed : List ℕ → Option ℤ
signed [] = none
signed (c ∷ cs) =
    if c == b'-'
    then negated (unsigned cs)
    else if c == b'+'
    then plain (unsigned cs)
    else plain (unsigned (c ∷ cs))

-- `int(s)` of a decimal text; underscores between digits are not read.
unfoldable pub parse_int : List ℕ → Option ℤ
parse_int s = signed (lstrip s)

abbrev pub is_prefix : List ℕ → List ℕ → Bool
is_prefix [] ds = true
is_prefix (c ∷ cs) [] = false
is_prefix (c ∷ cs) (d ∷ ds) = c == d && is_prefix cs ds

-- `part in text`
abbrev pub contains_text : List ℕ → List ℕ → Bool
contains_text part [] = is_prefix part []
contains_text part (c ∷ cs) = is_prefix part (c ∷ cs) || contains_text part cs
