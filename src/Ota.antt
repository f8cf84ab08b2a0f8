-- ===== src/Ota.antt =====
-- `verify_manifest` of novena_gateway/gateway/ota_security.py: what a signed manifest of an update must
-- show. Times are microseconds of UTC.
pub mod Sound
pub mod Archive
pub mod Steps
pub mod Staging
pub mod Update
mod Tests
use novena_gateway.Common.{
  ℕ, zero, String, Bool, true, false, not, ◌&&◌, ◌||◌, Option, none, some, List, [], ◌∷◌, any,
  str_eq, if◌then◌else◌, Result, ok, err, ◌>>=◌, ◌>>◌, raise_if,
}
use novena_gateway.Common.Int.{ℤ, pos, ◌-ℤ◌, ltb_ℤ, leb_ℤ, eq_ℤ}
use novena_gateway.Json.{
  Value, null, bool, num, str, arr, obj, Fields, end, field, Fault, type_error, value_error,
  attribute_error, get, is_dict, truthy, eq_value, codes, parse_int,
}
use novena_gateway.Modbus.Range.{split}

abbrev pub Bytes : Type 0
Bytes = List ℕ

-- What the source takes from `cryptography`, `base64`, `json`, `datetime`, `urllib` and `re`. `verify` is
-- the loaded public key's, and none where `load_public_key` raises; `urlparse` gives scheme and host.
pub record Host : Type 0 where
  pub verify : Option (Bytes → Bytes → Bool)
  pub b64decode : String → Option Bytes
  pub canonical_manifest_bytes : Value → Bytes
  pub parse_time : String → Option ℤ
  pub urlparse : String → String × Option String
  pub is_version : String → Bool
  pub is_sha256 : String → Bool
  pub lower_text : String → String

-- One reason for each `raise OtaSecurityError`, and the built-in exceptions.
pub data OtaError : Type 0 where
  not_object no_signature untrusted_key invalid_key not_base64 signature_failed : OtaError
  invalid_version invalid_url insecure_url invalid_sha256 invalid_size invalid_channel : OtaError
  time_missing time_invalid expired in_future window_too_long below_minimum above_maximum : OtaError
  fault : Fault → OtaError

abbrev pub lift {ℓ} : {A : Type ℓ} → Result Fault A → Result OtaError A
lift (ok a) = ok a
lift (err e) = err (fault e)

abbrev pub or_reject {ℓ} : {A : Type ℓ} → Option A → OtaError → Result OtaError A
or_reject none e = err e
or_reject (some a) e = ok a

-- `MAX_MANIFEST_AGE_SECONDS`, in microseconds.
abbrev pub max_manifest_age : ℤ
max_manifest_age = pos 2592000000000

-- `key_id not in trusted`, of a set of texts.
unfoldable pub is_trusted : Value → List String → Result Fault Bool
is_trusted (str s) keys = ok (any (str_eq s) keys)
is_trusted (arr vs) keys = err type_error
is_trusted (obj fs) keys = err type_error
is_trusted _ keys = ok false

-- `int(part) for part in …`
unfoldable pub parse_numbers : List (List ℕ) → Result OtaError (List ℤ)
unfolding parse_int
parse_numbers [] = ok []
parse_numbers (part ∷ parts) = do
  n ← or_reject (parse_int part) (fault value_error)
  rest ← parse_numbers parts
  ok (n ∷ rest)

-- `a < b` on tuples.
unfoldable pub ltb_tuple : List ℤ → List ℤ → Bool
ltb_tuple [] [] = false
ltb_tuple [] (y ∷ ys) = true
ltb_tuple (x ∷ xs) [] = false
ltb_tuple (x ∷ xs) (y ∷ ys) =
    let rest = ltb_tuple xs ys in if ltb_ℤ x y then true else if eq_ℤ x y then rest else false

abbrev head_part : List (List ℕ) → List ℕ
head_part [] = []
head_part (part ∷ parts) = part

abbrev is_local : Option String → Bool
is_local none = false
is_local (some host) = str_eq host "localhost" || str_eq host "127.0.0.1"

unfoldable pub check_size : Value → Result OtaError (Unit {0})
check_size (num m zero) = raise_if (leb_ℤ m (pos 0)) invalid_size
check_size (bool b) = raise_if (not b) invalid_size
check_size _ = err invalid_size

unfoldable pub check_channel : Value → Result OtaError (Unit {0})
check_channel channel =
    raise_if (not (any (λ name. eq_value channel (str name)) ("stable" ∷ "pilot" ∷ "canary" ∷ [])))
      invalid_channel

module _ (h : Host) where
  -- `_parse_iso_datetime`
  unfoldable pub parse_iso_datetime : Value → Result OtaError ℤ
  parse_iso_datetime value = if not (truthy value) then err time_missing else (elim value [
    | str s ↦ or_reject (h.parse_time s) time_invalid
    | _ ↦ err (fault attribute_error)
  ])

  -- `_normalised_version`
  unfoldable pub normalised_version : Value → Result OtaError String
  normalised_version (str s) = if h.is_version s then ok s else err invalid_version
  normalised_version _ = err invalid_version

  -- `_version_tuple`
  unfoldable pub version_tuple : Value → Result OtaError (List ℤ)
  unfolding normalised_version parse_numbers split
  version_tuple value = do
    version ← normalised_version value
    parse_numbers (split b'.' (head_part (split b'-' (codes version))))

  unfoldable pub check_minimum : List ℤ → Value → Result OtaError (Unit {0})
  check_minimum current minimum =
      if truthy minimum
      then (do low ← version_tuple minimum; raise_if (ltb_tuple current low) below_minimum)
      else ok tt

  unfoldable pub check_maximum : List ℤ → Value → Result OtaError (Unit {0})
  check_maximum current maximum =
      if truthy maximum
      then (do high ← version_tuple maximum; raise_if (ltb_tuple high current) above_maximum)
      else ok tt

  -- `_validate_compatibility`
  unfoldable pub validate_compatibility : String → Value → Result OtaError (Unit {0})
  unfolding check_minimum check_maximum
  validate_compatibility gateway_version manifest = do
    current ← version_tuple (str gateway_version)
    minimum ← lift (get manifest "minimum_gateway_version")
    maximum ← lift (get manifest "maximum_gateway_version")
    check_minimum current minimum
    check_maximum current maximum

  unfoldable pub check_signature : Value → String → Result OtaError (Unit {0})
  check_signature manifest signature_b64 = do
    verify ← or_reject h.verify invalid_key
    signature ← or_reject (h.b64decode signature_b64) not_base64
    raise_if (not (verify signature (h.canonical_manifest_bytes manifest))) signature_failed

  unfoldable pub check_url : Value → Result OtaError (Unit {0})
  check_url (str url) =
      let (scheme, hostname) = h.urlparse url in
      raise_if (not (str_eq scheme "https") && not (str_eq scheme "http" && is_local hostname))
        insecure_url
  check_url _ = err invalid_url

  unfoldable pub check_sha256 : Value → Result OtaError String
  check_sha256 (str s) = if h.is_sha256 s then ok s else err invalid_sha256
  check_sha256 _ = err invalid_sha256

  unfoldable pub check_window : ℤ → Value → Value → Result OtaError (Unit {0})
  check_window now issued expires = do
    issued_at ← parse_iso_datetime issued
    expires_at ← parse_iso_datetime expires
    raise_if (leb_ℤ expires_at now) expired
    raise_if (ltb_ℤ now issued_at) in_future
    raise_if (ltb_ℤ max_manifest_age (expires_at -ℤ issued_at)) window_too_long

  -- `verify_manifest`: the version and the lower-case digest that it puts into its copy.
  unfoldable pub verify_manifest :
      String → List String → ℤ → Value → String → Result OtaError (String × String)
  verify_manifest gateway_version keys now manifest signature_b64 = do
    raise_if (not (is_dict manifest)) not_object
    raise_if (str_eq signature_b64 "") no_signature
    key_id ← lift (get manifest "key_id")
    trusted ← lift (is_trusted key_id keys)
    raise_if (not trusted) untrusted_key
    check_signature manifest signature_b64
    raw_version ← lift (get manifest "version")
    version ← normalised_version raw_version
    artifact_url ← lift (get manifest "artifact_url")
    check_url artifact_url
    digest ← lift (get manifest "artifact_sha256")
    artifact_sha256 ← check_sha256 digest
    size_bytes ← lift (get manifest "size_bytes")
    check_size size_bytes
    channel ← lift (get manifest "channel")
    check_channel channel
    issued ← lift (get manifest "issued_at")
    expires ← lift (get manifest "expires_at")
    check_window now issued expires
    validate_compatibility gateway_version manifest
    ok (version, h.lower_text artifact_sha256)
