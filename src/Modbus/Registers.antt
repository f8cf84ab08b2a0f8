-- ===== src/Modbus/Registers.antt =====
-- The registers of an answer in `BytesModbusUplinkConverter`
-- (novena_gateway/connectors/modbus/bytes_modbus_uplink_converter.py): their bytes, the order of
-- bytes and words, and the type by which they are decoded. A register is a number below 2 ^ 16, which
-- is what the Modbus client hands over.
pub mod Order
use Prim.Native.String
use novena_gateway.Common.{
  ℕ, ◌+◌, ◌*◌, ◌/◌, ◌%◌, String, Bool, true, false, ◌||◌, Option, none, some, List, [], ◌∷◌, ◌++◌,
  map, any, str_eq, ltb, ◌==◌, if◌then◌else◌, take,
}
use novena_gateway.Common.Int.{ℤ, pos, sub_ℕ}

pub data Endian : Type 0 where
  big little : Endian

-- `pack('>H', register)`: the high byte, then the low one.
unfoldable pub word_bytes : ℕ → List ℕ
word_bytes r = r / 256 ∷ r % 256 ∷ []

-- `_register_bytes`
unfoldable pub register_bytes : List ℕ → List ℕ
unfolding word_bytes
register_bytes [] = []
register_bytes (r ∷ rs) = word_bytes r ++ register_bytes rs

abbrev pub reverse_list {ℓ} : {A : Type ℓ} → List A → List A → List A
reverse_list acc [] = acc
reverse_list acc (x ∷ xs) = reverse_list (x ∷ acc) xs

-- `unpack('>H', word)[0]` of two bytes.
unfoldable pub unpack_word : List ℕ → ℕ
unpack_word (high ∷ low ∷ rest) = high * 256 + low
unpack_word _ = 0

abbrev order_bytes : Endian → List ℕ → List ℕ
order_bytes little word = reverse_list [] word
order_bytes big word = word

abbrev order_words : Endian → List (List ℕ) → List (List ℕ)
order_words little words = reverse_list [] words
order_words big words = words

-- `_ordered_registers`
unfoldable pub ordered_registers : List ℕ → Endian → Endian → List ℕ
unfolding word_bytes unpack_word
ordered_registers registers byte_order word_order =
    map unpack_word
      (order_words word_order (map (λ r. order_bytes byte_order (word_bytes r)) registers))

-- `unpack('>b', …)` and `unpack('>B', …)` of the first byte.
unfoldable pub first_byte : Bool → List ℕ → Option ℤ
first_byte signed [] = none
first_byte true (b ∷ bs) = some (if ltb b 128 then pos b else sub_ℕ b 256)
first_byte false (b ∷ bs) = some (pos b)

-- The type that is looked up in `decoder_types`: a width in bits and a kind.
pub data Kind : Type 0 where
  int uint float : Kind

pub data Resolved : Type 0 where
  typed : ℕ → Kind → Resolved
  unresolved : String → Resolved

abbrev one_of : String → List String → Bool
one_of s xs = any (str_eq s) xs

-- `resolved_type`: the types without a width take 16 bits for each register.
unfoldable pub resolve_type : String → ℕ → Resolved
resolve_type lower_type objects_count =
    if one_of lower_type ("int" ∷ "long" ∷ "integer" ∷ [])
    then typed (objects_count * 16) int
    else if one_of lower_type ("double" ∷ "float" ∷ [])
    then typed (objects_count * 16) float
    else if str_eq lower_type "uint"
    then typed (objects_count * 16) uint
    else if str_eq lower_type "16int"
    then typed 16 int
    else if str_eq lower_type "16uint"
    then typed 16 uint
    else if str_eq lower_type "16float"
    then typed 16 float
    else if str_eq lower_type "32int"
    then typed 32 int
    else if str_eq lower_type "32uint"
    then typed 32 uint
    else if str_eq lower_type "32float"
    then typed 32 float
    else if str_eq lower_type "64int"
    then typed 64 int
    else if str_eq lower_type "64uint"
    then typed 64 uint
    else if str_eq lower_type "64float"
    then typed 64 float
    else unresolved lower_type

-- `decoder_types`, with `16float`, which has its own branch: the registers that a type needs, or
-- none for an unknown type.
unfoldable pub required_registers : Resolved → Option ℕ
required_registers (unresolved s) = none
required_registers (typed bits kind) =
    if bits == 16 || bits == 32 || bits == 64 then some (bits / 16) else none
