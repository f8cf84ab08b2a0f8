-- ===== src/Setup/Sound.antt =====
-- What `ConfigEnvelopeGuard.verify` has established of an envelope that it returns.
use novena_gateway.Common.{
  String, ◌≡◌, true, Option, none, some, [], arith, string_eq, ok, value_or,
}
use novena_gateway.Common.Int.{ℤ, pos, ◌<ℤ◌}
use novena_gateway.Common.Dict.{lookup}
use novena_gateway.Json.{Value, null, str, get, index, or_dict, eq_value, is_dict}
use novena_gateway.Governed.Guard.{Platform, Bytes, Moment, trusted_key}
use novena_gateway.Governed.Validate.{signed_body}
use novena_gateway.Setup.{
  EnvelopeGuard, Replay, ready, signed_by, check_signature, check_addressee, check_expiry,
  parse_expiry, check_config, verify,
}

-- What an accepted envelope has shown: the signature of a trusted key over its body, this gateway's
-- serial number, an expiry later than now, and the checksum of the configuration that it carries.
pub record Shown (p : Platform) (g : EnvelopeGuard) (m : Moment) (wire : Value) : Type 0 where
  pub is_ready : ready g m ≡ true
  pub key_id : String
  pub key : Bytes
  pub signature : Value
  pub named : get wire "signing_key_id" ≡ ok (str key_id)
  pub trusted : lookup key_id g.keys ≡ some key
  pub given : get wire "signature" ≡ ok signature
  pub signed : signed_by p key signature (signed_body wire) ≡ true
  pub target : Value
  pub serial : Value
  pub aimed : get (signed_body wire) "target" ≡ ok target
  pub addressed : get (or_dict target) "gateway_serial" ≡ ok serial
  pub own : eq_value serial (str g.serial_number) ≡ true
  pub expires : Value
  pub expires_at : ℤ
  pub dated : index (signed_body wire) "expires_at" ≡ ok expires
  pub parsed : parse_expiry p expires ≡ ok expires_at
  pub current : m.now <ℤ expires_at
  pub config : Value
  pub checksum : Value
  pub carried : get (signed_body wire) "config" ≡ ok config
  pub is_object : is_dict config ≡ true
  pub summed : get (signed_body wire) "checksum" ≡ ok checksum
  pub same : eq_value checksum (str (p.sha256 (p.canonical_bytes config))) ≡ true

key_in : Option Bytes → Bytes
key_in none = []
key_in (some key) = key

text_in : Value → String
text_in (str s) = s
text_in _ = ""

check_signature-eq-ok :
    (p : Platform) (g : EnvelopeGuard) (wire : Value)
    → check_signature p g wire ≡ ok tt
    → (id : String) × (key : Bytes) × (signature : Value) × (get wire "signing_key_id"
        ≡ ok (str id))
      × (lookup id g.keys ≡ some key)
      × (get wire "signature" ≡ ok signature)
      × (signed_by p key signature (signed_body wire) ≡ true)
unfolding check_signature trusted_key key_in text_in
check_signature-eq-ok p g wire h =
    let id : String = text_in (value_or (get wire "signing_key_id") null) in
    (
      id,
      key_in (lookup id g.keys),
      value_or (get wire "signature") null,
      (ground arith),
      (ground arith),
      (ground arith),
      (ground arith),
    )

-- An envelope that `verify` accepts, as new or as a replay, carries the signature of a key that is trusted
-- over its body, names this gateway, expires later than now, and carries a configuration with the
-- checksum that it states.
pub verify-Shown :
    (p : Platform) (g : EnvelopeGuard) (m : Moment) (wire : Value) {r : Value × Option Replay}
    → verify p g m wire ≡ ok r
    → Shown p g m wire
verify-Shown p g m wire {r} h =
    let signature_passed : check_signature p g wire ≡ ok tt = unfold verify in ground arith in
    let (id, key, signature, named, trusted, given, signed) =
      check_signature-eq-ok p g wire signature_passed in
    let addressee : check_addressee g (signed_body wire) ≡ ok tt = unfold verify in ground arith in
    let unexpired : check_expiry p m (signed_body wire) ≡ ok tt = unfold verify in ground arith in
    let configured : check_config p (signed_body wire) ≡ ok tt = unfold verify in ground arith in
    let target : Value = value_or (get (signed_body wire) "target") null in
    let expires : Value = value_or (index (signed_body wire) "expires_at") null in
    record {
      is_ready = unfold verify in ground arith;
      key_id = id;
      key = key;
      signature = signature;
      named = named;
      trusted = trusted;
      given = given;
      signed = signed;
      target = target;
      serial = value_or (get (or_dict target) "gateway_serial") null;
      aimed = unfold check_addressee in ground arith;
      addressed = unfold check_addressee in ground arith;
      own = unfold check_addressee in ground arith;
      expires = expires;
      expires_at = value_or (parse_expiry p expires) (pos 0);
      dated = unfold check_expiry in ground arith;
      parsed = unfold check_expiry in ground arith;
      current = unfold check_expiry in ground arith;
      config = value_or (get (signed_body wire) "config") null;
      checksum = value_or (get (signed_body wire) "checksum") null;
      carried = unfold check_config in ground arith;
      is_object = unfold check_config in ground arith;
      summed = unfold check_config in ground arith;
      same = unfold check_config in ground arith;
    }
