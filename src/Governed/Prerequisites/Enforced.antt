-- ===== src/Governed/Prerequisites/Enforced.antt =====
-- What a passed `enforce_prerequisites` has established.
use novena_gateway.Common.{◌≡◌, false, List, arith, ok, value_or, >>-eq-ok}
use novena_gateway.Json.{Value, null, str, Items, nil, cons, get, get_or, Float}
use novena_gateway.Governed.Guard.{Platform}
use novena_gateway.Governed.Validate.{str_of}
use novena_gateway.Governed.Prerequisites.{
  blocks_remote, check_prerequisite, check_all, listed, enforce_prerequisites,
}

-- A property of every entry of a list of values.
abbrev pub Every : (Value → Type 0) → Items → Type 0
Every P nil = Unit
Every P (cons v vs) = P v × Every P vs

check_all-Every :
    (p : Platform) (now : Float) (runtime : Value) (devices : List Value) (params : Value)
    (vs : Items)
    → check_all p now runtime devices params vs ≡ ok tt
    → Every (λ v. check_prerequisite p now runtime devices params v ≡ ok tt) vs
unfolding check_all
check_all-Every p now runtime devices params nil h = tt
check_all-Every p now runtime devices params (cons v vs) h =
    let (first, rest) =
      >>-eq-ok (check_prerequisite p now runtime devices params v)
        (check_all p now runtime devices params vs) h in
    (first, check_all-Every p now runtime devices params vs rest)

-- Remote control passes only where the site's authority is none of local, hand and manual, and where
-- each prerequisite of the retained control holds.
pub enforce_prerequisites_sound :
    (p : Platform) (now : Float) (runtime : Value) (devices : List Value) (control params : Value)
    → enforce_prerequisites p now runtime devices control params ≡ ok tt
    → (authority : Value) × (raw : Value) × (vs : Items) × (get_or runtime "authority_mode"
          (str "unknown")
        ≡ ok authority)
      × (blocks_remote (str_of p authority) ≡ false)
      × (get control "prerequisites" ≡ ok raw)
      × (listed raw ≡ ok vs)
      × Every (λ v. check_prerequisite p now runtime devices params v ≡ ok tt) vs
enforce_prerequisites_sound p now runtime devices control params h =
    let raw : Value = value_or (get control "prerequisites") null in
    let vs : Items = value_or (listed raw) nil in
    (
      value_or (get_or runtime "authority_mode" (str "unknown")) null,
      raw,
      vs,
      (unfold enforce_prerequisites in ground arith),
      (unfold enforce_prerequisites in ground arith),
      (unfold enforce_prerequisites in ground arith),
      (unfold enforce_prerequisites in ground arith),
      check_all-Every p now runtime devices params vs
          (unfold enforce_prerequisites in ground arith),
    )
