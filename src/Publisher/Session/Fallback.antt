-- ===== src/Publisher/Session/Fallback.antt =====
-- The bootstrap credentials after the broker has revoked those of a released claim.
use novena_gateway.Common.{
  ◌≡◌, refl, true, false, not, ◌&&◌, ◌||◌, ltb, leb, arith, Bool-cases, inl, inr,
}
use novena_gateway.Json.{null, str}
use novena_gateway.Publisher.{Publisher}
use novena_gateway.Publisher.Session.{
  not_authorized, show_activation_message, awaits_revocation, has_bootstrap, switch_to_bootstrap,
  retire_credentials, on_connect,
}

module _ {S : Type 0} where
  record Booted (s s' : Publisher S) : Type 0 where
    claim : s'.claim_id ≡ s.claim_id
    mode : s'.bootstrap_mode ≡ true
    username : s'.username ≡ str s.bootstrap.username
    password : s'.password ≡ str s.bootstrap.password
    retired : s'.operational_credentials_retired ≡ s.operational_credentials_retired

  switch-Booted :
      (s : Publisher S)
      → (s.bootstrap_mode || ltb s.consecutive_failures 3) ≡ false
      → awaits_revocation s ≡ false
      → has_bootstrap s ≡ true
      → Booted s (switch_to_bootstrap s)
  unfolding switch_to_bootstrap
  switch-Booted s late free boots =
      simp (late, free, boots)
        (record { claim = refl; mode = refl; username = refl; password = refl; retired = refl })

  shown-Booted :
      (s : Publisher S)
      → (s.bootstrap_mode || ltb s.consecutive_failures 3) ≡ false
      → awaits_revocation s ≡ false
      → has_bootstrap s ≡ true
      → Booted s (switch_to_bootstrap (show_activation_message s))
  unfolding show_activation_message
  shown-Booted s late free boots =
      elim (Bool-cases (leb 3 s.consecutive_failures && not s.activation_message_shown)) [
        | inl due ↦
            let b = switch-Booted (record s { activation_message_shown = true }) late free boots in
            simp due (record {
              claim = b.claim;
              mode = b.mode;
              username = b.username;
              password = b.password;
              retired = b.retired;
            })
        | inr quiet ↦ simp quiet (switch-Booted s late free boots)
      ]

  abbrev retired : Publisher S → Publisher S
  retired s = record s {
    username = str "";
    password = str "";
    claim_id = null;
    operational_credentials_retired = true;
    consecutive_failures = 2;
  }

  retire_credentials-eq :
      (s : Publisher S)
      → awaits_revocation s ≡ true
      → s.bootstrap_mode ≡ false
      → s.has_config_path ≡ true
      → s.has_on_release_revoked ≡ true
      → retire_credentials true s ≡ retired s
  unfolding retire_credentials
  retire_credentials-eq s waits normal file hook =
      let due : (awaits_revocation s
            && not s.bootstrap_mode
            && s.has_config_path
            && s.has_on_release_revoked
            && true)
          ≡ true =
        ground arith in
      simp due refl

  -- A connection that the broker denies during a release that awaits it, with the file rewritten and
  -- bootstrap credentials configured, forgets the claim and uses the bootstrap credentials at once,
  -- without two further failures.
  pub revoked_boots :
      (s : Publisher S)
      → awaits_revocation s ≡ true
      → s.bootstrap_mode ≡ false
      → s.has_config_path ≡ true
      → s.has_on_release_revoked ≡ true
      → has_bootstrap s ≡ true
      → let s' = on_connect not_authorized true s in
        (s'.claim_id ≡ null)
        × (s'.bootstrap_mode ≡ true)
        × (s'.username ≡ str s.bootstrap.username)
        × (s'.password ≡ str s.bootstrap.password)
        × (s'.operational_credentials_retired ≡ true)
  unfolding on_connect
  revoked_boots s waits normal file hook boots =
      let s' : Publisher S = record s { connected = false } in
      let q : Publisher S = record (retired s') { consecutive_failures = 3 } in
      let late : (q.bootstrap_mode || ltb q.consecutive_failures 3) ≡ false =
        ground (arith, normal) in
      let free : awaits_revocation q ≡ false = ground arith in
      let b = shown-Booted q late free boots in
      rw (retire_credentials-eq s' waits normal file hook)
        (b.claim, b.mode, b.username, b.password, b.retired)
