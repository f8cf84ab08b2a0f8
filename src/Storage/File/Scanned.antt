-- ===== src/Storage/File/Scanned.antt =====
-- What the inner loop of a read makes of records that all decode.
use novena_gateway.Common.{
  ℕ, zero, suc, ◌+◌, ◌-◌, ◌<◌, ◌≡◌, refl, sym, ap, ◌∙◌, true, false, Option, some, List, [], ◌∷◌,
  ◌++◌, length, drop, map, arith, ◌==◌, if◌then◌else◌,
}
use mathlib.Core.Path.{subst}
use mathlib.Core.List.{append_assoc, append-nil}
use novena_gateway.Storage.File.Reader.{Scan, skip_lines, accept, scan}

module _ {L : Type 0} where
  pub drop-skip_lines : (k : ℕ) (ls : List L) → drop (skip_lines k ls) ls ≡ drop (suc k) ls
  unfolding skip_lines
  drop-skip_lines zero [] = refl
  drop-skip_lines zero (l ∷ ls) = refl
  drop-skip_lines (suc k) [] = drop-skip_lines k []
  drop-skip_lines (suc k) (l ∷ ls) = drop-skip_lines k ls

pub drop-map :
    {A L : Type 0} (f : A → L) (n : ℕ) (xs : List A) → drop n (map f xs) ≡ map f (drop n xs)
drop-map f zero xs = refl
drop-map f (suc n) [] = refl
drop-map f (suc n) (x ∷ xs) = drop-map f n xs

module _ {A : Type 0} where
  -- What a scan is after it has read as many records as were asked for.
  pub record Full (r q : Scan A) (xs : List A) : Type 0 where
    pub batch : q.batch ≡ r.batch ++ xs
    pub none_left : q.records_to_read ≡ 0
    pub counted : q.current_line ≡ r.current_line + length xs

module _ {L A : Type 0} (encode : A → L) (decode : L → Option A)
    (decode-encode : (a : A) → decode (encode a) ≡ some a) where
  scan_last :
      (x : A) (ls : List L) (r : Scan A)
      → r.records_to_read ≡ 1
      → scan decode (encode x ∷ ls) r ≡ accept x r
  unfolding scan
  scan_last x ls r h =
      let last : ((r.records_to_read - 1) == 0) ≡ true = ground arith in
      rw (decode-encode x) (ap (λ b. if b then accept x r else scan decode ls (accept x r)) last)

  scan_next :
      (x : A) (ls : List L) (r : Scan A)
      → 1 < r.records_to_read
      → scan decode (encode x ∷ ls) r ≡ scan decode ls (accept x r)
  unfolding scan
  scan_next x ls r h =
      let more : ((r.records_to_read - 1) == 0) ≡ false = ground arith in
      rw (decode-encode x) (ap (λ b. if b then accept x r else scan decode ls (accept x r)) more)

  pub scan-Full :
      (x : A) (xs : List A) (rest : List L) (r : Scan A)
      → r.records_to_read ≡ suc (length xs)
      → Full r (scan decode (map encode (x ∷ xs) ++ rest) r) (x ∷ xs)
  scan-Full x [] rest r h =
      subst (λ q. Full r q (x ∷ [])) (sym (scan_last x rest r h))
        (record { batch = refl; none_left = omega arith; counted = refl })
  scan-Full x (y ∷ ys) rest r h =
      let q = scan-Full y ys rest (accept x r) (omega arith) in
      subst (λ q. Full r q (x ∷ y ∷ ys)) (sym (scan_next x _ r (omega arith)))
        (record {
          batch = q.batch ∙ append_assoc r.batch (x ∷ []) (y ∷ ys);
          none_left = q.none_left;
          counted = omega (arith, q.counted);
        })

  pub scan_short :
      (xs : List A) (r : Scan A)
      → length xs < r.records_to_read
      → let q = scan decode (map encode xs) r in (q.batch ≡ r.batch ++ xs) × (q.at_end ≡ true)
  scan_short [] r h = unfold scan in (sym (append-nil r.batch), refl)
  scan_short (x ∷ xs) r h =
      let (batch, ended) = scan_short xs (accept x r) (omega arith) in
      rw (scan_next x (map encode xs) r (omega arith))
        (batch ∙ append_assoc r.batch (x ∷ []) xs, ended)
