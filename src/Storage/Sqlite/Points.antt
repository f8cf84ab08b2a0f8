-- ===== src/Storage/Sqlite/Points.antt =====
-- The delete_time_point after a selection.
use mathlib.Core.Path.{subst}
use novena_gateway.Common.{
  ℕ, ◌≤◌, ◌≡◌, sym, false, List, [], ◌∷◌, ◌++◌, ltb, arith, if◌then◌else◌, Bool-cases, inl, inr,
}
use novena_gateway.Storage.Sqlite.{Row, is_blank, time_point}
use novena_gateway.Storage.Sqlite.Rows.{Above, AtMost, AllFull, Above-skip}

-- The point after a first part of the table lies between that part and the rest.
pub time_point-Above :
    (m point : ℕ) (xs ys : List Row)
    → Above m (xs ++ ys)
    → Above point ys
    → Above (time_point point xs) ys
unfolding time_point
time_point-Above m point [] ys h k = k
time_point-Above m point (x ∷ xs) ys (lt, h) k = elim (Bool-cases (is_blank x.message)) [
  | inl blank ↦ simp blank (time_point-Above x.id point xs ys h k)
  | inr full ↦ elim (Bool-cases (ltb point x.id)) [
    | inl later ↦ simp (full, later) (time_point-Above x.id x.id xs ys h (Above-skip x.id xs ys h))
    | inr earlier ↦ simp (full, earlier) (time_point-Above x.id point xs ys h k)
  ]
]

pub time_point-grows : (point : ℕ) (xs : List Row) → point ≤ time_point point xs
unfolding time_point
time_point-grows point [] = omega arith
time_point-grows point (x ∷ xs) =
    ground (arith, time_point-grows point xs, time_point-grows x.id xs)

time_point-step :
    (point : ℕ) (x : Row) (xs : List Row)
    → is_blank x.message ≡ false
    → time_point point (x ∷ xs) ≡ time_point (if ltb point x.id then x.id else point) xs
unfolding time_point
time_point-step point x xs full = ground (arith, full)

pub time_point-AtMost : (point : ℕ) (xs : List Row) → AllFull xs → AtMost (time_point point xs) xs
time_point-AtMost point [] h = tt
time_point-AtMost point (x ∷ xs) (full, h) =
    let next = if ltb point x.id then x.id else point in
    subst (λ n. AtMost n (x ∷ xs)) (sym (time_point-step point x xs full))
      (ground (arith, time_point-grows next xs), time_point-AtMost next xs h)

pub time_point-bounded :
    (point n : ℕ) (xs : List Row) → point ≤ n → AtMost n xs → time_point point xs ≤ n
unfolding time_point
time_point-bounded point n [] le h = le
time_point-bounded point n (x ∷ xs) le (bound, h) =
    ground (arith, time_point-bounded point n xs le h, time_point-bounded x.id n xs bound h)
