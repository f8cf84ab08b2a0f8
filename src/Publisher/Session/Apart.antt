-- ===== src/Publisher/Session/Apart.antt =====
-- The connection's callbacks leave the messages alone.
use novena_gateway.Common.{
  ◌+◌, ◌≡◌, refl, ◌∙◌, Bool, false, not, ◌&&◌, ◌||◌, ltb, leb, Bool-cases, inl, inr,
}
use novena_gateway.Publisher.{Publisher}
use novena_gateway.Publisher.Session.{
  Reason, success, not_authorized, other, show_activation_message, awaits_revocation, has_bootstrap,
  switch_to_bootstrap, retire_credentials, failed, on_connect, on_disconnect,
}

module _ {S : Type 0} where
  pub record Apart (s s' : Publisher S) : Type 0 where
    pub queue : s'.queue ≡ s.queue
    pub storage : s'.storage ≡ s.storage
    pub sent : s'.sent ≡ s.sent

  Apart-refl : (s : Publisher S) → Apart s s
  Apart-refl s = record { queue = refl; storage = refl; sent = refl }

  Apart-trans : (s s' s'' : Publisher S) → Apart s s' → Apart s' s'' → Apart s s''
  Apart-trans s s' s'' a b = record {
    queue = b.queue ∙ a.queue;
    storage = b.storage ∙ a.storage;
    sent = b.sent ∙ a.sent;
  }

  show_activation_message-Apart : (s : Publisher S) → Apart s (show_activation_message s)
  unfolding show_activation_message
  show_activation_message-Apart s =
      elim (Bool-cases (leb 3 s.consecutive_failures && not s.activation_message_shown)) [
        | inl due ↦ simp due (record { queue = refl; storage = refl; sent = refl })
        | inr quiet ↦ simp quiet (Apart-refl s)
      ]

  switch_to_bootstrap-Apart : (s : Publisher S) → Apart s (switch_to_bootstrap s)
  unfolding switch_to_bootstrap
  switch_to_bootstrap-Apart s =
      elim (Bool-cases (s.bootstrap_mode || ltb s.consecutive_failures 3)) [
        | inl early ↦ simp early (Apart-refl s)
        | inr late ↦ elim (Bool-cases (awaits_revocation s)) [
          | inl waiting ↦ simp (late, waiting) (Apart-refl s)
          | inr free ↦ elim (Bool-cases (has_bootstrap s)) [
            | inl there ↦
                simp (late, free, there) (record { queue = refl; storage = refl; sent = refl })
            | inr missing ↦ simp (late, free, missing) (Apart-refl s)
          ]
        ]
      ]

  retire_credentials-Apart :
      (erased : Bool) (s : Publisher S) → Apart s (retire_credentials erased s)
  unfolding retire_credentials
  retire_credentials-Apart erased s =
      elim (Bool-cases (
        awaits_revocation s
        && not s.bootstrap_mode
        && s.has_config_path
        && s.has_on_release_revoked
        && erased)) [
          | inl due ↦ simp due (record { queue = refl; storage = refl; sent = refl })
          | inr kept ↦ simp kept (Apart-refl s)
        ]

  failed-Apart : (s : Publisher S) → Apart s (failed s)
  failed-Apart s =
      let s' : Publisher S = record s { consecutive_failures = s.consecutive_failures + 1 } in
      Apart-trans s (show_activation_message s') (failed s)
        (Apart-trans s s' (show_activation_message s')
          (record { queue = refl; storage = refl; sent = refl }) (show_activation_message-Apart s'))
        (switch_to_bootstrap-Apart (show_activation_message s'))

  offline_failed-Apart : (s : Publisher S) → Apart s (failed (record s { connected = false }))
  offline_failed-Apart s =
      let a = failed-Apart (record s { connected = false }) in
      record { queue = a.queue; storage = a.storage; sent = a.sent }

  pub on_connect-Apart :
      (r : Reason) (erased : Bool) (s : Publisher S) → Apart s (on_connect r erased s)
  unfolding on_connect
  on_connect-Apart success erased s = record { queue = refl; storage = refl; sent = refl }
  on_connect-Apart not_authorized erased s =
      let s' : Publisher S = record s { connected = false } in
      Apart-trans s (retire_credentials erased s') _
        (Apart-trans s s' _ (record { queue = refl; storage = refl; sent = refl })
          (retire_credentials-Apart erased s'))
        (failed-Apart (retire_credentials erased s'))
  on_connect-Apart other erased s = offline_failed-Apart s

  pub on_disconnect-Apart : (r : Reason) (s : Publisher S) → Apart s (on_disconnect r s)
  unfolding on_disconnect
  on_disconnect-Apart success s = record { queue = refl; storage = refl; sent = refl }
  on_disconnect-Apart not_authorized s = offline_failed-Apart s
  on_disconnect-Apart other s = offline_failed-Apart s
