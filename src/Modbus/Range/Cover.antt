-- ===== src/Modbus/Range/Cover.antt =====
-- The reads of a range cover it: they follow one another without a gap, none asks for more than a
-- request may, and together they ask for all of it.
use novena_gateway.Common.{
  ℕ, zero, suc, ◌-◌, ◌≤◌, ◌<◌, String, ◌≡◌, refl, true, Option, none, some, List, [], ◌∷◌, min, ltb,
  arith, Result, ok, err, Bool-cases, inl, inr, if◌then◌else◌,
}
use novena_gateway.Common.Int.{ℤ, pos, negsuc, ◌+ℤ◌, ◌-ℤ◌, leb_ℤ, int_laws}
use novena_gateway.Json.{Fault, value_error}
use mathlib.Core.Path.{subst}
use novena_gateway.Modbus.Range.{chunks, plan, parse_wide_range_address, parse_wide_range_request}

ok-injective :
    {xs ys : List (ℤ × ℕ)} → ◌≡◌ {A = Result Fault (List (ℤ × ℕ))} (ok xs) (ok ys) → xs ≡ ys
ok-injective h = cc

-- Reads that start at `start` and follow one another up to `stop`, each of 1 to `most` registers.
pub data Covers (most : ℕ) : ℤ → ℤ → List (ℤ × ℕ) → Type 0 where
  done : {start : ℤ} → Covers most start start []
  read :
      {start stop : ℤ} {rest : List (ℤ × ℕ)} (n : ℕ)
      → 0 < n
      → n ≤ most
      → Covers most (start +ℤ pos n) stop rest
      → Covers most start stop ((start, n) ∷ rest)

add_zero : (a : ℤ) → a +ℤ pos 0 ≡ a
add_zero a = omega int_laws

add_split : (a : ℤ) (m n : ℕ) → m ≤ n → a +ℤ pos m +ℤ pos (n - m) ≡ a +ℤ pos n
add_split a m n h = omega int_laws

-- With fuel for a round to each register the loop ends, and its reads cover the range.
pub chunks-Covers :
    (fuel : ℕ) (start : ℤ) (n most : ℕ)
    → 0 < most
    → n ≤ fuel
    → Covers most start (start +ℤ pos n) (chunks fuel start n most)
unfolding chunks
chunks-Covers zero start zero most h f = rw add_zero done
chunks-Covers zero start (suc n) most h f = absurd (omega arith)
chunks-Covers (suc fuel) start zero most h f = rw add_zero done
chunks-Covers (suc fuel) start (suc n) most h f =
    let c : ℕ = min most (suc n) in
    let rest : Covers most (start +ℤ pos c) (start +ℤ pos c +ℤ pos (suc n - c))
        (chunks fuel (start +ℤ pos c) (suc n - c) most) =
      chunks-Covers fuel (start +ℤ pos c) (suc n - c) most h (omega arith) in
    read c (omega arith) (omega arith) (rw (add_split start c (suc n) (omega arith)) at rest)

plan-Covers :
    (start total : ℤ) (most : ℕ) {reads : List (ℤ × ℕ)}
    → 0 < most
    → plan start total most ≡ ok reads
    → Covers most start (start +ℤ total) reads
unfolding plan
plan-Covers start (negsuc n) most h e = cc
plan-Covers start (pos zero) most h e = cc
plan-Covers start (pos (suc n)) most h e = elim (Bool-cases (ltb most (suc n))) [
  | inl long ↦
      subst (Covers most start (start +ℤ pos (suc n))) (ok-injective (rw long at e))
        (chunks-Covers (suc n) start (suc n) most h (omega arith))
  | inr short ↦
      subst (Covers most start (start +ℤ pos (suc n))) (ok-injective (rw short at e))
        (read (suc n) (omega arith) (ground arith) done)
]

plan_total :
    (start : ℤ) (n most : ℕ) → (reads : List (ℤ × ℕ)) × (plan start (pos (suc n)) most ≡ ok reads)
unfolding plan
plan_total start n most = (
  (if ltb most (suc n) then chunks (suc n) start (suc n) most else (start, suc n) ∷ []),
  ground arith,
)

-- A range that asks for at least one register, where a request may hold one, becomes reads that
-- follow one another from the first address on, that hold no more than the limit each, and that
-- ask together for the whole of last - first + objects_count registers.
pub parse_wide_range_request_covers :
    (address : String) (start last : ℤ) (n objects_count most : ℕ)
    → parse_wide_range_address address ≡ some (start, last)
    → last -ℤ start +ℤ pos objects_count ≡ pos (suc n)
    → 0 < most
    → (reads : List (ℤ × ℕ)) × (parse_wide_range_request address objects_count most ≡ ok reads)
      × Covers most start (start +ℤ pos (suc n)) reads
parse_wide_range_request_covers address start last n objects_count most a total h =
    let (reads, e) = plan_total start n most in
    (
      reads,
      (unfold parse_wide_range_request in rw (a, parse_wide_range_request) (rw total e)),
      plan-Covers start (pos (suc n)) most h e,
    )

-- A text that is no range, or a range that asks for nothing, is a ValueError.
pub parse_wide_range_request_refuses :
    (address : String) (objects_count most : ℕ)
    → ((start last : ℤ)
        → parse_wide_range_address address ≡ some (start, last)
        → leb_ℤ (last -ℤ start +ℤ pos objects_count) (pos 0) ≡ true)
    → parse_wide_range_request address objects_count most ≡ err value_error
unfolding parse_wide_range_request plan
parse_wide_range_request_refuses address objects_count most h =
    go (parse_wide_range_address address) h
  where
    none_wanted : (start z : ℤ) → leb_ℤ z (pos 0) ≡ true → plan start z most ≡ err value_error
    none_wanted start (negsuc n) k = refl
    none_wanted start (pos zero) k = refl
    none_wanted start (pos (suc n)) k = ground arith

    go :
        (r : Option (ℤ × ℤ))
        → ((start last : ℤ)
            → r ≡ some (start, last)
            → leb_ℤ (last -ℤ start +ℤ pos objects_count) (pos 0) ≡ true)
        → elim r [
          | none ↦ err value_error
          | some (start, last) ↦ plan start (last -ℤ start +ℤ pos objects_count) most
        ]
          ≡ err value_error
    go none k = refl
    go (some (start, last)) k = none_wanted start _ (k start last refl)
