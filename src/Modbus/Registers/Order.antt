-- ===== src/Modbus/Registers/Order.antt =====
-- The order of bytes and words loses nothing.
use novena_gateway.Common.{ℕ, ◌<◌, ◌≡◌, refl, ap, ◌∙◌, List, [], ◌∷◌, ◌++◌, map, arith}
use mathlib.Core.List.{append-nil}
use novena_gateway.Modbus.Registers.{
  Endian, big, little, word_bytes, reverse_list, unpack_word, order_bytes, ordered_registers,
}

abbrev pub AllWords : List ℕ → Type 0
AllWords [] = Unit
AllWords (r ∷ rs) = (r < 65536) × AllWords rs

swap : Endian → ℕ → ℕ
swap b r = unpack_word (order_bytes b (word_bytes r))

swap_twice : (b : Endian) (r : ℕ) → r < 65536 → swap b (swap b r) ≡ r
unfolding swap unpack_word word_bytes
swap_twice big r h = omega arith
swap_twice little r h = omega arith

map-reverse_list :
    {A B : Type 0} (f : A → B) (acc xs : List A)
    → map f (reverse_list acc xs) ≡ reverse_list (map f acc) (map f xs)
map-reverse_list f acc [] = refl
map-reverse_list f acc (x ∷ xs) = map-reverse_list f (x ∷ acc) xs

reverse_list_twice :
    (acc bs xs : List ℕ) → reverse_list bs (reverse_list acc xs) ≡ reverse_list (xs ++ bs) acc
reverse_list_twice acc bs [] = refl
reverse_list_twice acc bs (x ∷ xs) = reverse_list_twice (x ∷ acc) bs xs

flip : Endian → List ℕ → List ℕ
flip big rs = rs
flip little rs = reverse_list [] rs

flip_twice : (w : Endian) (rs : List ℕ) → flip w (flip w rs) ≡ rs
unfolding flip
flip_twice big rs = refl
flip_twice little rs = reverse_list_twice [] [] rs ∙ append-nil rs

map-flip : (f : ℕ → ℕ) (w : Endian) (rs : List ℕ) → map f (flip w rs) ≡ flip w (map f rs)
unfolding flip
map-flip f big rs = refl
map-flip f little rs = map-reverse_list f [] rs

map-swap :
    (b : Endian) (rs : List ℕ)
    → map unpack_word (map (λ r. order_bytes b (word_bytes r)) rs) ≡ map (swap b) rs
unfolding swap
map-swap b [] = refl
map-swap b (r ∷ rs) = ap (λ l. swap b r ∷ l) (map-swap b rs)

ordered-flip : (rs : List ℕ) (b w : Endian) → ordered_registers rs b w ≡ flip w (map (swap b) rs)
unfolding ordered_registers flip
ordered-flip rs b big = map-swap b rs
ordered-flip rs b little =
    map-reverse_list unpack_word [] (map (λ r. order_bytes b (word_bytes r)) rs)
    ∙ ap (reverse_list []) (map-swap b rs)

swap_all_twice : (b : Endian) (rs : List ℕ) → AllWords rs → map (swap b) (map (swap b) rs) ≡ rs
swap_all_twice b [] h = refl
swap_all_twice b (r ∷ rs) h = cc (swap_twice b r h.0, swap_all_twice b rs h.1)

-- Ordering registers, of 16 bits each, twice by the same byte and word order gives them back: the
-- order loses nothing and invents nothing.
pub ordered_registers_twice :
    (rs : List ℕ) (b w : Endian)
    → AllWords rs
    → ordered_registers (ordered_registers rs b w) b w ≡ rs
ordered_registers_twice rs b w h = rw (ordered-flip rs b w) (
    rw (ordered-flip (flip w (map (swap b) rs)) b w) (
      ap (flip w) (map-flip (swap b) w (map (swap b) rs))
      ∙ flip_twice w (map (swap b) (map (swap b) rs))
      ∙ swap_all_twice b rs h))
