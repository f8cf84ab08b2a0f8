-- ===== src/Publisher/Release/Sound.antt =====
-- What a release that is acknowledged has shown.
use mathlib.Core.Path.{subst}
use novena_gateway.Common.{
  ◌∙◌, ap, String, [], or_raise, value_or, string_eq, ◌≡◌, refl, true, false, not, ◌&&◌, ◌⊎◌, inl,
  inr, Option, none, some, arith, eq_iff, Result, ok, err, Bool-cases,
}
use novena_gateway.Common.Int.{ℤ}
use novena_gateway.Json.{Value, null, str, get, truthy, eq_value, or_dict}
use novena_gateway.Governed.Guard.{Bytes}
use novena_gateway.Publisher.{Publisher}
use novena_gateway.Publisher.Release.{
  Trust, Expiry, naive, Refusal, invalid_key, invalid_signature, invalid_expiry, body_of, or_text,
  known_key, check_target, check_claim, check_release_expiry, check_release_signature,
  verify_release, ResetSteps, reset_for, released, handle_release, is_recorded, is_expired,
}

is_recorded-eq : (id : String) (o : Option String) → is_recorded id o ≡ true → o ≡ some id
is_recorded-eq id none h = cc
is_recorded-eq id (some known) h = ap some ((eq_iff known id).0 h)

-- The request is recorded, or its reset has been made.
abbrev pub Done : {S : Type 0} → ResetSteps → String → Publisher S → Publisher S → Type 0
Done r id s s' =
    (s.release_request_id ≡ some id)
    ⊎ ((r.cleared ≡ true) × (s'.release_in_progress ≡ true) × (s'.release_request_id ≡ some id))

module _ {S : Type 0} (r : ResetSteps) where
  reset_for-eq-ok :
      (id : String) (s : Publisher S) {id' : String}
      → (reset_for r id s).0 ≡ ok id'
      → (id ≡ id') × Done r id s (reset_for r id s).1
  unfolding reset_for
  reset_for-eq-ok id s {id'} h =
      let here : not (s.has_on_release && s.has_config_path) ≡ false = ground arith in
      let readable : not r.written ≡ false = ground arith in
      let reset : not (r.cleared && r.recorded) ≡ false = ground arith in
      let same : id ≡ id' = ground arith in
      simp (here, readable, reset) (same, inr (ground arith, refl, refl))

  released-eq-ok :
      (v : Result Refusal String) (s : Publisher S) {id : String}
      → (released r v s).0 ≡ ok id
      → (v ≡ ok id) × Done r id s (released r v s).1
  released-eq-ok (err e) s h = cc
  released-eq-ok (ok id') s {id} h = elim (Bool-cases (is_recorded id' s.release_request_id)) [
    | inl known ↦
        let same = simp known at h in
        let equal : id' ≡ id = ground (arith, same) in
        (ap ok equal, inl (is_recorded-eq id' s.release_request_id known ∙ ap some equal))
    | inr new ↦
        let (equal, done) = reset_for-eq-ok id' s (simp new at h) in
        simp new (ap ok equal, subst (λ i. Done r i s (reset_for r id' s).1) equal done)
  ]

module _ {S : Type 0} (w : Trust) (now : ℤ) (payload : Value) (s : Publisher S) where
  -- The message is a release of this gateway from its present claim, has not expired, and carries a
  -- signature of its body that holds under a trusted key.
  pub record Shown : Type 0 where
    pub action : Value
    pub named : get payload "action" ≡ ok action
    pub releases : eq_value action (str "release") ≡ true
    pub target : Value
    pub aimed : get payload "target" ≡ ok target
    pub serial : Value
    pub addressed : get (or_dict target) "gateway_serial" ≡ ok serial
    pub own : eq_value serial (str s.serial_number) ≡ true
    pub claim : Value
    pub claims : get payload "claim_id" ≡ ok claim
    pub same_claim : eq_value claim s.claim_id ≡ true
    pub claimed : truthy s.claim_id ≡ true
    pub expires : Value
    pub expires_at : get payload "expires_at" ≡ ok expires
    pub time : Expiry
    pub parsed : w.expiry_of expires ≡ some time
    pub current : is_expired time now ≡ false
    pub key_id : Value
    pub key_named : get payload "signing_key_id" ≡ ok key_id
    pub encoded_key : Value
    pub trusted : w.trusted_release_keys key_id ≡ some encoded_key
    pub key : Bytes
    pub decoded : w.b64decode encoded_key ≡ some key
    pub given : Value
    pub carried : get payload "signature" ≡ ok given
    pub signature : Bytes
    pub signature_decoded : w.b64decode (or_text given) ≡ some signature
    pub signed : w.verify key signature (body_of payload) ≡ true

  verify_release-Shown : {id : String} → verify_release w now payload s ≡ ok id → Shown
  verify_release-Shown {id} h =
      let target_passed : check_target payload s ≡ ok tt = unfold verify_release in ground arith in
      let claim_passed : check_claim payload s ≡ ok tt = unfold verify_release in ground arith in
      let key_id : Value = value_or (get payload "signing_key_id") null in
      let encoded_key : Value = value_or (known_key (w.trusted_release_keys key_id)) null in
      let unexpired : check_release_expiry w now payload ≡ ok tt =
        unfold verify_release in ground arith in
      let signed : check_release_signature w encoded_key payload ≡ ok tt =
        unfold verify_release in ground arith in
      let target : Value = value_or (get payload "target") null in
      let expires : Value = value_or (get payload "expires_at") null in
      let key : Bytes = value_or (or_raise (w.b64decode encoded_key) invalid_key) [] in
      let given : Value = value_or (get payload "signature") null in
      record {
        action = value_or (get payload "action") null;
        named = unfold check_target in ground arith;
        releases = unfold check_target in ground arith;
        target = target;
        aimed = unfold check_target in ground arith;
        serial = value_or (get (or_dict target) "gateway_serial") null;
        addressed = unfold check_target in ground arith;
        own = unfold check_target in ground arith;
        claim = value_or (get payload "claim_id") null;
        claims = unfold check_claim in ground arith;
        same_claim = unfold check_claim in ground arith;
        claimed = unfold check_claim in ground arith;
        expires = expires;
        expires_at = unfold check_release_expiry in ground arith;
        time = value_or (or_raise (w.expiry_of expires) invalid_expiry) naive;
        parsed = unfold check_release_expiry in ground arith;
        current = unfold check_release_expiry in ground arith;
        key_id = key_id;
        key_named = unfold verify_release in ground arith;
        encoded_key = encoded_key;
        trusted = unfold verify_release in ground arith;
        key = key;
        decoded = unfold check_release_signature in ground arith;
        given = given;
        carried = unfold check_release_signature in ground arith;
        signature_decoded = unfold check_release_signature in ground arith;
        signature = value_or (or_raise (w.b64decode (or_text given)) invalid_signature) [];
        signed = unfold check_release_signature in ground arith;
      }

  -- A release that is acknowledged has shown its action, its target, the present claim of the gateway, a
  -- time that has not passed, and in its field `signature` a signature of its body under a trusted key; and
  -- its request was either recorded before, or its reset has been made, with the flag
  -- release_in_progress set and the request recorded.
  pub handle_release-Shown :
      (r : ResetSteps) {id : String}
      → (handle_release w r now payload s).0 ≡ ok id
      → Shown × Done r id s (handle_release w r now payload s).1
  unfolding handle_release
  handle_release-Shown r {id} h =
      let (verified, done) = released-eq-ok r (verify_release w now payload s) s h in
      (verify_release-Shown verified, done)
