-- ===== src/Publisher/Release.antt =====
-- The release of a gateway from its claim: `_verify_release`, `_handle_release` and
-- `clear_claim_buffer` of the publisher.
pub mod Sound
use novena_gateway.Common.{
  ℕ, String, Bool, true, false, not, ◌&&◌, ◌||◌, Option, none, some, List, [], ◌∷◌, str_eq,
  if◌then◌else◌, Result, ok, err, ◌>>=◌, ◌>>◌, or_raise, raise_if,
}
use novena_gateway.Common.Int.{ℤ, pos, leb_ℤ}
use novena_gateway.Json.{
  Value, null, str, obj, number, Fields, end, field, Fault, type_error, attribute_error, get,
  truthy, or_dict, eq_value, is_dict,
}
use novena_gateway.Publisher.{Publisher}
use novena_gateway.Governed.Guard.{Bytes}

-- `datetime.fromisoformat(str(value).replace("Z", "+00:00"))`, in microseconds of UTC where it has a
-- time zone.
pub data Expiry : Type 0 where
  naive : Expiry
  aware : ℤ → Expiry

-- What the source takes from `uuid`, `datetime`, `base64`, `json` and `cryptography`; none where a call
-- raises an exception that is caught. `verify` takes the key, the signature and the body.
pub record Trust : Type 0 where
  pub uuid_of : Value → Option String
  pub expiry_of : Value → Option Expiry
  pub b64decode : Value → Option Bytes
  pub verify : Bytes → Bytes → Value → Bool
  pub trusted_release_keys : Value → Option Value

-- The reasons of a refusal, one for each `raise`, and those of the libraries.
pub data Refusal : Type 0 where
  invalid_schema wrong_gateway invalid_request_id other_claim untrusted_key : Refusal
  invalid_expiry expired invalid_key invalid_signature unavailable not_reset : Refusal
  fault : Fault → Refusal

abbrev pub lift {ℓ} : {A : Type ℓ} → Result Fault A → Result Refusal A
lift (ok a) = ok a
lift (err e) = err (fault e)

abbrev pub is_expired : Expiry → ℤ → Bool
is_expired naive now = true
is_expired (aware t) now = leb_ℤ t now

-- The payload without signing_key_id and signature.
unfoldable pub body_fields : Fields → Fields
body_fields end = end
body_fields (field k v fs) =
    let rest = body_fields fs in
    if str_eq k "signing_key_id" || str_eq k "signature" then rest else field k v rest

abbrev pub body_of : Value → Value
body_of (obj fs) = obj (body_fields fs)
body_of v = v

-- `payload.get("signature") or ""`
abbrev pub or_text : Value → Value
or_text v = if truthy v then v else str ""

-- A key that is missing or empty is not trusted.
abbrev pub known_key : Option Value → Result Refusal Value
known_key none = err untrusted_key
known_key (some key) = if truthy key then ok key else err untrusted_key

module _ {S : Type 0} where
  unfoldable pub check_target : Value → Publisher S → Result Refusal (Unit {0})
  check_target payload s = do
    schema ← lift (get payload "schema_version")
    raise_if (not (eq_value schema (number (pos 1)))) invalid_schema
    action ← lift (get payload "action")
    target ← lift (get payload "target")
    raise_if (not (eq_value action (str "release"))) wrong_gateway
    serial ← lift (get (or_dict target) "gateway_serial")
    raise_if (not (eq_value serial (str s.serial_number))) wrong_gateway

  unfoldable pub check_claim : Value → Publisher S → Result Refusal (Unit {0})
  check_claim payload s = do
    claim ← lift (get payload "claim_id")
    raise_if (not (eq_value claim s.claim_id) || not (truthy s.claim_id)) other_claim

module _ (w : Trust) where
  unfoldable pub check_release_expiry : ℤ → Value → Result Refusal (Unit {0})
  check_release_expiry now payload = do
    value ← lift (get payload "expires_at")
    expiry ← or_raise (w.expiry_of value) invalid_expiry
    raise_if (is_expired expiry now) expired

  unfoldable pub check_release_signature : Value → Value → Result Refusal (Unit {0})
  check_release_signature encoded_key payload = do
    key ← or_raise (w.b64decode encoded_key) invalid_key
    signature ← lift (get payload "signature")
    signature ← or_raise (w.b64decode (or_text signature)) invalid_signature
    raise_if (not (w.verify key signature (body_of payload))) invalid_signature

module _ {S : Type 0} (w : Trust) where
  -- `_verify_release`: the request id that it returns.
  unfoldable pub verify_release : ℤ → Value → Publisher S → Result Refusal String
  verify_release now payload s = do
    raise_if (not (is_dict payload)) invalid_schema
    check_target payload s
    id ← lift (get payload "request_id")
    request_id ← or_raise (w.uuid_of id) invalid_request_id
    check_claim payload s
    key_id ← lift (get payload "signing_key_id")
    encoded_key ← known_key (w.trusted_release_keys key_id)
    check_release_expiry w now payload
    check_release_signature w encoded_key payload
    ok request_id

-- How the steps of a reset end: the configuration is read and written, the callback returns, and the
-- configuration is written with the request.
pub record ResetSteps : Type 0 where
  pub written : Bool
  pub cleared : Bool
  pub recorded : Bool

abbrev pub is_recorded : String → Option String → Bool
is_recorded id none = false
is_recorded id (some known) = str_eq known id

module _ {S : Type 0} where
  -- The reset for a request that is not yet recorded.
  unfoldable pub reset_for : ResetSteps → String → Publisher S → Result Refusal String × Publisher S
  reset_for r id s =
      if not (s.has_on_release && s.has_config_path)
      then (err unavailable, s)
      else if not r.written
      then (err not_reset, s)
      else if not (r.cleared && r.recorded)
      then (err not_reset, record s { release_in_progress = true })
      else (ok id, record s { release_in_progress = true; release_request_id = some id })

  abbrev pub released :
      ResetSteps → Result Refusal String → Publisher S → Result Refusal String × Publisher S
  released r (err e) s = (err e, s)
  released r (ok id) s =
      if is_recorded id s.release_request_id then (ok id, s) else reset_for r id s

  -- `_handle_release`: the request that it acknowledges, and the publisher.
  unfoldable pub handle_release :
      Trust → ResetSteps → ℤ → Value → Publisher S → Result Refusal String × Publisher S
  unfolding verify_release
  handle_release w r now payload s = released r (verify_release w now payload s) s

  -- `clear_claim_buffer`, with a new storage; it raises where the replay does not stop in time or the
  -- folder lies outside the data folder, and has emptied the queue then.
  unfoldable pub clear_claim_buffer : Bool → S → Publisher S → Bool × Publisher S
  clear_claim_buffer safe fresh s =
      let s' : Publisher S = record s { release_in_progress = true; queue = [] } in
      if safe then (true, record s' { storage = fresh }) else (false, s')
