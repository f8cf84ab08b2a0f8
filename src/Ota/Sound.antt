-- ===== src/Ota/Sound.antt =====
-- What a manifest has shown that `verify_manifest` returns.
use novena_gateway.Common.{
  String, ◌≡◌, Bool, true, false, Option, none, some, List, [], arith, ok, value_or,
}
use novena_gateway.Common.Int.{ℤ, pos, ◌-ℤ◌, ◌<ℤ◌, ◌≤ℤ◌}
use novena_gateway.Json.{Value, null, get}
use novena_gateway.Ota.{
  Bytes, Host, is_trusted, check_signature, check_window, parse_iso_datetime, max_manifest_age,
  verify_manifest,
}

-- The signature of a trusted key, and a validity that has begun, has not ended and is not too long.
pub record Verified (h : Host) (keys : List String) (now : ℤ) (manifest : Value)
    (signature_b64 : String) : Type 0 where
  pub key_id : Value
  pub named : get manifest "key_id" ≡ ok key_id
  pub trusted : is_trusted key_id keys ≡ ok true
  pub verify : Bytes → Bytes → Bool
  pub loaded : h.verify ≡ some verify
  pub signature : Bytes
  pub decoded : h.b64decode signature_b64 ≡ some signature
  pub signed : verify signature (h.canonical_manifest_bytes manifest) ≡ true
  pub issued_at : ℤ
  pub expires_at : ℤ
  pub issued : Value
  pub expires : Value
  pub issued_given : get manifest "issued_at" ≡ ok issued
  pub expires_given : get manifest "expires_at" ≡ ok expires
  pub issued_parsed : parse_iso_datetime h issued ≡ ok issued_at
  pub expires_parsed : parse_iso_datetime h expires ≡ ok expires_at
  pub begun : issued_at ≤ℤ now
  pub not_ended : now <ℤ expires_at
  pub bounded : expires_at -ℤ issued_at ≤ℤ max_manifest_age

check_signature-eq-ok :
    (h : Host) (manifest : Value) (text : String)
    → check_signature h manifest text ≡ ok tt
    → (verify : Bytes → Bytes → Bool) × (signature : Bytes) × (h.verify ≡ some verify)
      × (h.b64decode text ≡ some signature)
      × (verify signature (h.canonical_manifest_bytes manifest) ≡ true)
unfolding check_signature
check_signature-eq-ok h manifest text e =
    (key_of h.verify, bytes_of (h.b64decode text), ground arith, ground arith, ground arith)
  where
    key_of : Option (Bytes → Bytes → Bool) → Bytes → Bytes → Bool
    key_of none = λ s b. false
    key_of (some v) = v

    bytes_of : Option Bytes → Bytes
    bytes_of none = []
    bytes_of (some b) = b

check_window-eq-ok :
    (h : Host) (now : ℤ) (issued expires : Value)
    → check_window h now issued expires ≡ ok tt
    → (issued_at : ℤ) × (expires_at : ℤ) × (parse_iso_datetime h issued ≡ ok issued_at)
      × (parse_iso_datetime h expires ≡ ok expires_at)
      × (issued_at ≤ℤ now)
      × (now <ℤ expires_at)
      × (expires_at -ℤ issued_at ≤ℤ max_manifest_age)
unfolding check_window
check_window-eq-ok h now issued expires e = (
  value_or (parse_iso_datetime h issued) (pos 0),
  value_or (parse_iso_datetime h expires) (pos 0),
  ground arith,
  ground arith,
  ground arith,
  ground arith,
  ground arith,
)

-- A manifest that is accepted carries the signature of a trusted key over itself; it was issued no
-- later than now, expires later than now, and is valid for no more than 30 days.
pub verify_manifest_sound :
    (h : Host) (gateway_version : String) (keys : List String) (now : ℤ) (manifest : Value)
    (signature_b64 : String) {r : String × String}
    → verify_manifest h gateway_version keys now manifest signature_b64 ≡ ok r
    → Verified h keys now manifest signature_b64
verify_manifest_sound h gateway_version keys now manifest signature_b64 e =
    let (verify, signature, loaded, decoded, signed) =
      check_signature-eq-ok h manifest signature_b64 (unfold verify_manifest in ground arith) in
    let (issued_at, expires_at, from, until, begun, not_ended, bounded) =
      check_window-eq-ok h now (value_or (get manifest "issued_at") null)
        (value_or (get manifest "expires_at") null) (unfold verify_manifest in ground arith) in
    record {
      key_id = value_or (get manifest "key_id") null;
      named = unfold verify_manifest in ground arith;
      trusted = unfold verify_manifest in ground arith;
      verify = verify;
      loaded = loaded;
      signature = signature;
      decoded = decoded;
      signed = signed;
      issued_at = issued_at;
      expires_at = expires_at;
      issued = value_or (get manifest "issued_at") null;
      expires = value_or (get manifest "expires_at") null;
      issued_given = unfold verify_manifest in ground arith;
      expires_given = unfold verify_manifest in ground arith;
      issued_parsed = from;
      expires_parsed = until;
      begun = begun;
      not_ended = not_ended;
      bounded = bounded;
    }
