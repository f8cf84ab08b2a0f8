-- ===== src/Storage/Sqlite/Selection.antt =====
-- Taking the first rows of a table that has grown.
use novena_gateway.Common.{
  ℕ, zero, suc, ◌-◌, ◌≤◌, ◌≡◌, refl, sym, ap, ◌∙◌, List, [], ◌∷◌, ◌++◌, length, take, drop, arith,
  length-take,
}
use novena_gateway.Storage.Sqlite.{Row}

pub take-length-take : (n : ℕ) (rs : List Row) → take n rs ≡ take (length (take n rs)) rs
take-length-take zero rs = refl
take-length-take (suc n) [] = refl
take-length-take (suc n) (r ∷ rs) = ap (λ t. r ∷ t) (take-length-take n rs)

pub drop-length-take : (n : ℕ) (rs : List Row) → drop (length (take n rs)) rs ≡ drop n rs
drop-length-take zero rs = refl
drop-length-take (suc n) [] = refl
drop-length-take (suc n) (r ∷ rs) = drop-length-take n rs

pub drop-append :
    (n : ℕ) (xs ys : List Row) → drop n (xs ++ ys) ≡ drop n xs ++ drop (n - length xs) ys
drop-append zero xs ys =
    let same : 0 ≡ 0 - length xs = omega arith in ap (λ k. xs ++ drop k ys) same
drop-append (suc n) [] ys = let same : suc n ≡ suc n - 0 = omega arith in ap (λ k. drop k ys) same
drop-append (suc n) (x ∷ xs) ys =
    let same : n - length xs ≡ suc n - suc (length xs) = omega arith in
    drop-append n xs ys ∙ ap (λ k. drop n xs ++ drop k ys) same

take-append_le : (n : ℕ) (xs ys : List Row) → n ≤ length xs → take n (xs ++ ys) ≡ take n xs
take-append_le zero xs ys h = refl
take-append_le (suc n) [] ys h = absurd (omega arith)
take-append_le (suc n) (x ∷ xs) ys h = ap (λ t. x ∷ t) (take-append_le n xs ys (omega arith))

pub take-prefix :
    (batch xs ys : List Row)
    → batch ≡ take (length batch) xs
    → batch ≡ take (length batch) (xs ++ ys)
take-prefix batch xs ys h =
    h
    ∙ sym (
        take-append_le (length batch) xs ys
          (omega (arith, ap length h, length-take (length batch) xs)))
