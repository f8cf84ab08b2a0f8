-- ===== src/Storage/Sqlite/Rows.antt =====
-- Tables whose ids increase.
use novena_gateway.Common.{
  ℕ, zero, suc, ◌+◌, ◌≤◌, ◌<◌, ◌≡◌, refl, ap, String, false, List, [], ◌∷◌, ◌++◌, length, take,
  drop, leb, arith, Bool-cases, inl, inr,
}
use novena_gateway.Storage.Sqlite.{Row, insert_rows, delete_to, is_blank, collect_messages}

-- All ids are above the given one, and increase.
abbrev pub Above : ℕ → List Row → Type 0
Above n [] = Unit {0}
Above n (r ∷ rs) = (n < r.id) × Above r.id rs

-- All ids are at most the given one.
abbrev pub AtMost : ℕ → List Row → Type 0
AtMost n [] = Unit {0}
AtMost n (r ∷ rs) = (r.id ≤ n) × AtMost n rs

-- No message is empty, so that none is passed over.
abbrev pub AllFull : List Row → Type 0
AllFull [] = Unit {0}
AllFull (r ∷ rs) = (is_blank r.message ≡ false) × AllFull rs

abbrev pub AllFullTexts : List String → Type 0
AllFullTexts [] = Unit {0}
AllFullTexts (m ∷ ms) = (is_blank m ≡ false) × AllFullTexts ms

abbrev pub texts : List Row → List String
texts [] = []
texts (r ∷ rs) = r.message ∷ texts rs

pub texts-append : (xs ys : List Row) → texts (xs ++ ys) ≡ texts xs ++ texts ys
texts-append [] ys = refl
texts-append (x ∷ xs) ys = ap (λ t. x.message ∷ t) (texts-append xs ys)

pub texts-insert_rows : (last now : ℕ) (ms : List String) → texts (insert_rows last now ms) ≡ ms
unfolding insert_rows
texts-insert_rows last now [] = refl
texts-insert_rows last now (m ∷ ms) = ap (λ t. m ∷ t) (texts-insert_rows (suc last) now ms)

pub collect_messages-texts : (rs : List Row) → AllFull rs → collect_messages rs ≡ texts rs
unfolding collect_messages
collect_messages-texts [] h = refl
collect_messages-texts (r ∷ rs) (full, h) = ground (arith, collect_messages-texts rs h)

pub Above-lower : (m n : ℕ) (rs : List Row) → m ≤ n → Above n rs → Above m rs
Above-lower m n [] le h = h
Above-lower m n (r ∷ rs) le (lt, h) = (omega arith, h)

pub Above-drop : (m n : ℕ) (rs : List Row) → Above n rs → Above n (drop m rs)
Above-drop zero n rs h = h
Above-drop (suc m) n [] h = h
Above-drop (suc m) n (r ∷ rs) (lt, h) =
    Above-lower n r.id (drop m rs) (omega arith) (Above-drop m r.id rs h)

pub Above-append :
    (m n : ℕ) (xs ys : List Row)
    → m ≤ n
    → Above m xs
    → AtMost n xs
    → Above n ys
    → Above m (xs ++ ys)
Above-append m n [] ys le h at_most k = Above-lower m n ys le k
Above-append m n (x ∷ xs) ys le (lt, h) (bound, at_most) k =
    (lt, Above-append x.id n xs ys bound h at_most k)

pub Above-insert_rows : (last now : ℕ) (ms : List String) → Above last (insert_rows last now ms)
unfolding insert_rows
Above-insert_rows last now [] = tt
Above-insert_rows last now (m ∷ ms) = (omega arith, Above-insert_rows (suc last) now ms)

pub AtMost-raise : (m n : ℕ) (rs : List Row) → m ≤ n → AtMost m rs → AtMost n rs
AtMost-raise m n [] le h = h
AtMost-raise m n (r ∷ rs) le (bound, h) = (omega arith, AtMost-raise m n rs le h)

pub AtMost-append : (n : ℕ) (xs ys : List Row) → AtMost n xs → AtMost n ys → AtMost n (xs ++ ys)
AtMost-append n [] ys h k = k
AtMost-append n (x ∷ xs) ys (bound, h) k = (bound, AtMost-append n xs ys h k)

pub AtMost-insert_rows :
    (last now : ℕ) (ms : List String) → AtMost (last + length ms) (insert_rows last now ms)
unfolding insert_rows
AtMost-insert_rows last now [] = tt
AtMost-insert_rows last now (m ∷ ms) = (
  omega arith,
  AtMost-raise (suc last + length ms) _ (insert_rows (suc last) now ms) (omega arith)
      (AtMost-insert_rows (suc last) now ms),
)

pub AllFull-append : (xs ys : List Row) → AllFull xs → AllFull ys → AllFull (xs ++ ys)
AllFull-append [] ys h k = k
AllFull-append (x ∷ xs) ys (full, h) k = (full, AllFull-append xs ys h k)

pub AllFull-take : (n : ℕ) (rs : List Row) → AllFull rs → AllFull (take n rs)
AllFull-take zero rs h = tt
AllFull-take (suc n) [] h = tt
AllFull-take (suc n) (r ∷ rs) (full, h) = (full, AllFull-take n rs h)

-- Deleting up to a point keeps what is above it, and takes a first part off a table that increases.
pub delete_to-Above : (n : ℕ) (rs : List Row) → Above n rs → delete_to n rs ≡ rs
unfolding delete_to
delete_to-Above n [] h = refl
delete_to-Above n (r ∷ rs) (lt, h) =
    ground (arith, delete_to-Above n rs (Above-lower n r.id rs (omega arith) h))

pub delete_to-AtMost :
    (n : ℕ) (xs ys : List Row) → AtMost n xs → delete_to n (xs ++ ys) ≡ delete_to n ys
unfolding delete_to
delete_to-AtMost n [] ys h = refl
delete_to-AtMost n (x ∷ xs) ys (bound, h) = ground (arith, delete_to-AtMost n xs ys h)

pub Above-skip : (m : ℕ) (xs ys : List Row) → Above m (xs ++ ys) → Above m ys
Above-skip m [] ys h = h
Above-skip m (x ∷ xs) ys (lt, h) = Above-lower m x.id ys (omega arith) (Above-skip x.id xs ys h)

pub AtMost-take : (n m : ℕ) (rs : List Row) → AtMost n rs → AtMost n (take m rs)
AtMost-take n zero rs h = tt
AtMost-take n (suc m) [] h = tt
AtMost-take n (suc m) (r ∷ rs) (bound, h) = (bound, AtMost-take n m rs h)

pub AtMost-delete_to : (n m : ℕ) (rs : List Row) → AtMost n rs → AtMost n (delete_to m rs)
unfolding delete_to
AtMost-delete_to n m [] h = tt
AtMost-delete_to n m (r ∷ rs) (bound, h) = elim (Bool-cases (leb r.id m)) [
  | inl old ↦ simp old (AtMost-delete_to n m rs h)
  | inr new ↦ simp new (bound, AtMost-delete_to n m rs h)
]

pub AllFull-delete_to : (m : ℕ) (rs : List Row) → AllFull rs → AllFull (delete_to m rs)
unfolding delete_to
AllFull-delete_to m [] h = tt
AllFull-delete_to m (r ∷ rs) (full, h) = elim (Bool-cases (leb r.id m)) [
  | inl old ↦ simp old (AllFull-delete_to m rs h)
  | inr new ↦ simp new (full, AllFull-delete_to m rs h)
]

-- What is left after a deletion is above its point, and no lower than it was.
pub Above-delete_to :
    (m n : ℕ) (rs : List Row) → Above n rs → Above n (delete_to m rs) × Above m (delete_to m rs)
unfolding delete_to
Above-delete_to m n [] h = (tt, tt)
Above-delete_to m n (r ∷ rs) (lt, h) = elim (Bool-cases (leb r.id m)) [
  | inl old ↦ simp old (
    Above-lower n r.id (delete_to m rs) (omega arith) (Above-delete_to m r.id rs h).0,
    (Above-delete_to m r.id rs h).1,
  )
  | inr new ↦
      simp new
        ((lt, (Above-delete_to m r.id rs h).0), (ground arith, (Above-delete_to m r.id rs h).0))
]

pub AtMost-drop : (n m : ℕ) (rs : List Row) → AtMost n rs → AtMost n (drop m rs)
AtMost-drop n zero rs h = h
AtMost-drop n (suc m) [] h = tt
AtMost-drop n (suc m) (r ∷ rs) (bound, h) = AtMost-drop n m rs h

pub AtMost-skip : (n : ℕ) (xs ys : List Row) → AtMost n (xs ++ ys) → AtMost n ys
AtMost-skip n [] ys h = h
AtMost-skip n (x ∷ xs) ys (bound, h) = AtMost-skip n xs ys h

pub AllFull-insert_rows :
    (last now : ℕ) (ms : List String) → AllFullTexts ms → AllFull (insert_rows last now ms)
unfolding insert_rows
AllFull-insert_rows last now [] h = tt
AllFull-insert_rows last now (m ∷ ms) (full, h) = (full, AllFull-insert_rows (suc last) now ms h)

pub AllFullTexts-take : (n : ℕ) (ms : List String) → AllFullTexts ms → AllFullTexts (take n ms)
AllFullTexts-take zero ms h = tt
AllFullTexts-take (suc n) [] h = tt
AllFullTexts-take (suc n) (m ∷ ms) (full, h) = (full, AllFullTexts-take n ms h)

pub AllFullTexts-drop : (n : ℕ) (ms : List String) → AllFullTexts ms → AllFullTexts (drop n ms)
AllFullTexts-drop zero ms h = h
AllFullTexts-drop (suc n) [] h = tt
AllFullTexts-drop (suc n) (m ∷ ms) (full, h) = AllFullTexts-drop n ms h
