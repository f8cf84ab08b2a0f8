-- ===== src/Governed/Guard/Policy.antt =====
-- The installed policy and its epoch: `install_policy`, `_load_policy`, `reset_for_new_claim`.
use novena_gateway.Common.{
  String, string_eq, ◌≡◌, refl, ap, ◌∙◌, true, Option, none, some, [], arith, ok, err, value_or,
}
use novena_gateway.Common.Int.{ℤ, pos, ◌≤ℤ◌, max_ℤ}
use novena_gateway.Common.Dict.{lookup}
use novena_gateway.Json.{Value, null, number, str, get, get_or, index, to_int, eq_value}
use novena_gateway.Governed.Journal.{max_epoch, record_epoch, reset, empty, State}
use novena_gateway.Governed.Journal.Laws.{state-persist}
use novena_gateway.Governed.Guard.{
  Platform, Bytes, Guard, Error, verify_signed, signature_holds, trusted_key, known_key, checksum,
  check_policy, install_policy, load_policy, reset_for_new_claim,
}

-- The conditions under which a bundle is installed: the key that it names is trusted and its signature
-- of the payload holds under that key, and so on.
pub record Installable (p : Platform) (g : Guard) (wire payload : Value) (incoming : ℤ)
    : Type 0 where
  pub raw : Value
  pub key_id : String
  pub key : Bytes
  pub named : get wire "signing_key_id" ≡ ok (str key_id)
  pub trusted : lookup key_id g.keys ≡ some key
  pub signed : signature_holds p key wire ≡ true
  pub carried : index wire "payload" ≡ ok payload
  pub summed :
      (given : Value)
      → get wire "checksum" ≡ ok given
      → eq_value given (str (checksum p payload)) ≡ true
  pub aimed :
      (serial : Value)
      → get payload "gateway_serial" ≡ ok serial
      → eq_value serial (str g.serial_number) ≡ true
  pub given : get_or payload "control_epoch" (number (pos 0)) ≡ ok raw
  pub counted : to_int raw ≡ ok incoming
  pub forward : max_epoch g.journal ≤ℤ incoming

abbrev found_key : Option Bytes → Bytes
found_key none = []
found_key (some key) = key

key_holds :
    (p : Platform) (g : Guard) (wire key_id : Value)
    → get wire "signing_key_id" ≡ ok key_id
    → verify_signed p g wire ≡ ok tt
    → (id : String) × (key : Bytes) × (get wire "signing_key_id" ≡ ok (str id))
      × (lookup id g.keys ≡ some key)
      × (signature_holds p key wire ≡ true)
unfolding verify_signed trusted_key known_key
key_holds p g wire (str id) e h = (id, found_key (lookup id g.keys), e, ground arith, ground arith)
key_holds p g wire _ e h = ground arith

check_policy-eq-ok :
    (p : Platform) (g : Guard) (wire : Value) {payload : Value} {incoming : ℤ}
    → check_policy p g wire ≡ ok (payload, incoming)
    → Installable p g wire payload incoming
unfolding check_policy
check_policy-eq-ok p g wire {payload} h =
    let verified : verify_signed p g wire ≡ ok tt = ground arith in
    let (id, key, named, trusted, signed) =
      key_holds p g wire (value_or (get wire "signing_key_id") null)
        (unfold verify_signed in ground (arith, verified)) verified in
    record {
      raw = value_or (get_or payload "control_epoch" (number (pos 0))) null;
      key_id = id;
      key = key;
      named = named;
      trusted = trusted;
      signed = signed;
      carried = ground arith;
      summed = λ given e. ground arith;
      aimed = λ serial e. ground arith;
      given = ground arith;
      counted = ground arith;
      forward = ground arith;
    }

installed-eq-ok :
    (p : Platform) (g : Guard) (wire : Value)
    → (install_policy p wire g).0 ≡ ok tt
    → (payload : Value) × (incoming : ℤ) × (check_policy p g wire ≡ ok (payload, incoming))
unfolding install_policy
installed-eq-ok p g wire h =
    let found : Value × ℤ = value_or (check_policy p g wire) (null, pos 0) in
    (found.0, found.1, ground arith)

-- A bundle whose installation returns names a trusted key, under which the signature of its payload
-- holds; it carries its own checksum and this gateway's serial number, and its epoch is not below the
-- highest that the journal held; it is then the policy, in memory and in the file, and its epoch the
-- journal's highest.
pub install_policy_sound :
    (p : Platform) (g : Guard) (wire : Value)
    → let (r, g') = install_policy p wire g in
      r ≡ ok tt
      → (incoming : ℤ) × Installable p g wire g'.policy incoming
        × (g'.policy_file ≡ some wire)
        × (max_epoch g'.journal ≡ incoming)
unfolding install_policy
install_policy_sound p g wire h =
    let (payload, incoming, checked) = installed-eq-ok p g wire h in
    let t : Installable p g wire payload incoming = check_policy-eq-ok p g wire checked in
    let s : State = record g.journal.state {
      max_epoch = max_ℤ incoming g.journal.state.max_epoch;
    } in
    let highest : max_epoch (record_epoch p.dump incoming g.journal).1 ≡ incoming =
      unfold record_epoch in
      ap (λ x. x.max_epoch) (state-persist p.dump s g.journal) ∙ ground (arith, t.forward) in
    rw (checked, install_policy) (incoming, t, refl, highest)

-- A bundle that a test refuses leaves the policy, its file and the journal as they were.
pub install_policy_atomic :
    (p : Platform) (g : Guard) (wire : Value) {e : Error}
    → check_policy p g wire ≡ err e
    → install_policy p wire g ≡ (err e, g)
unfolding install_policy
install_policy_atomic p g wire h = rw (h, install_policy) refl

-- After a new claim nothing is left of the former site: no command is known, no sequence, no event and
-- no epoch is in memory, and no policy in memory or in the file.
pub reset_forgets :
    (p : Platform) (g : Guard)
    → let g' = reset_for_new_claim p g in
      (g'.journal.state ≡ empty) × (g'.policy ≡ null) × (load_policy p g' ≡ ok null)
unfolding reset_for_new_claim reset load_policy
reset_forgets p g = (state-persist p.dump empty g.journal, refl, refl)
