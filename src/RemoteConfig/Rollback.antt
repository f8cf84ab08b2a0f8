-- ===== src/RemoteConfig/Rollback.antt =====
-- How `_apply_config_with_rollback` ends, and the backups that it keeps.
use mathlib.Core.Path.{subst}
use novena_gateway.Common.{
  ◌∙◌, ℕ, ◌≤◌, ◌-◌, String, ◌≡◌, refl, ◌⊎◌, inl, inr, Option, some, List, [], ◌∷◌, ◌++◌, arith,
  Result, ok, err, length, drop, length-drop,
}
use novena_gateway.Common.Int.{ℤ}
use novena_gateway.Common.Dict.{Dict}
use novena_gateway.Json.{Value, Items, nil, cons, Fault}
use novena_gateway.RemoteConfig.{
  Site, Status, Surroundings, GatewayCall, stop_connectors, start_connectors, max_backups,
  ensure_last_known_good, keep_backup, prune_backups, create_backup, restart_connectors,
  normalize_connector_results, failures_of, failures_text, rolled_back, roll_back, succeed, decide,
  started, apply_over, apply_config_with_rollback,
}

-- The configuration is in the file and in memory, the gateway's connectors were last stopped and then
-- started with it.
pub record InForce (config : Value) (s : Site) : Type 0 where
  pub before : List GatewayCall
  pub filed : s.config_file ≡ some config
  pub in_memory : s.running ≡ config
  pub last_calls : s.calls ≡ before ++ stop_connectors ∷ start_connectors config ∷ []

-- The two ends of a transaction that returns.
abbrev pub Ended : Value → Value → Option Value → Status → Site → Type 0
Ended new_config previous good status s =
    ((status.config_update_status ≡ "success")
      × InForce new_config s
      × (s.last_known_good ≡ some new_config))
    ⊎ ((status.config_update_status ≡ "rolled_back")
        × InForce previous s
        × (s.last_known_good ≡ good))

module _ (w : Surroundings) (now : ℤ) (action : String) where
  rolled_back-Ended :
      (new_config previous : Value) (error : String) (results : Items) (r : Result Fault Items)
      (s : Site) {status : Status}
      → InForce previous s
      → (rolled_back w now action error results r s).0 ≡ ok status
      → Ended new_config previous s.last_known_good status
          (rolled_back w now action error results r s).1
  unfolding rolled_back
  rolled_back-Ended new_config previous error results (err f) s h e = cc
  rolled_back-Ended new_config previous error results (ok rs) s h e = inr (
    ground (arith, e),
    record {
      before = h.before;
      filed = h.filed;
      in_memory = h.in_memory;
      last_calls = h.last_calls;
    },
    refl,
  )

  roll_back-Ended :
      (new_config previous : Value) (results : Items) (r : Result Fault String) (s : Site)
      {status : Status}
      → (roll_back w now action previous results r s).0 ≡ ok status
      → Ended new_config previous s.last_known_good status
          (roll_back w now action previous results r s).1
  unfolding roll_back restart_connectors
  roll_back-Ended new_config previous results (err f) s e = cc
  roll_back-Ended new_config previous results (ok error) s e =
      rolled_back-Ended new_config previous error results
        (normalize_connector_results (w.second_start previous) previous) _
        (record { before = s.calls; filed = refl; in_memory = refl; last_calls = refl }) e

  decide-Ended :
      (new_config previous : Value) (results : Items) (r : Result Fault Items) (s : Site)
      {status : Status}
      → InForce new_config s
      → (decide w now action previous new_config results r s).0 ≡ ok status
      → Ended new_config previous s.last_known_good status
          (decide w now action previous new_config results r s).1
  unfolding decide succeed
  decide-Ended new_config previous results (err f) s h e = cc
  decide-Ended new_config previous results (ok nil) s h e = inl (
    ground (arith, e),
    record {
      before = h.before;
      filed = h.filed;
      in_memory = h.in_memory;
      last_calls = h.last_calls;
    },
    refl,
  )
  decide-Ended new_config previous results (ok (cons f fs)) s h e =
      roll_back-Ended new_config previous results (failures_text w (cons f fs)) s e

  started-Ended :
      (new_config previous : Value) (r : Result Fault Items) (s : Site) {status : Status}
      → InForce new_config s
      → (started w now action previous new_config r s).0 ≡ ok status
      → Ended new_config previous s.last_known_good status
          (started w now action previous new_config r s).1
  unfolding started
  started-Ended new_config previous (err f) s h e = cc
  started-Ended new_config previous (ok results) s h e =
      decide-Ended new_config previous results (failures_of results) _
        (record {
          before = h.before;
          filed = h.filed;
          in_memory = h.in_memory;
          last_calls = h.last_calls;
        })
        e

-- The last known good configuration that the transaction finds: its file, or a copy of the one in use.
abbrev pub good_of : Site → Option Value
good_of s = (ensure_last_known_good s).last_known_good

good-create_backup : (ts : ℕ) (s : Site) → (create_backup ts s).last_known_good ≡ s.last_known_good
unfolding create_backup
good-create_backup ts s = ground arith

filed-ensure : (s : Site) → (ensure_last_known_good s).config_file ≡ s.config_file
unfolding ensure_last_known_good
filed-ensure s = ground arith

apply_over-Ended :
    (w : Surroundings) (ts : ℕ) (now : ℤ) (action : String) (new_config previous : Value) (s : Site)
    {status : Status}
    → (apply_over w ts now action new_config (some previous) s).0 ≡ ok status
    → Ended new_config previous s.last_known_good status
        (apply_over w ts now action new_config (some previous) s).1
unfolding apply_over restart_connectors
apply_over-Ended w ts now action new_config previous s {status} e =
    subst
      (λ good.
        Ended new_config previous good status
          (apply_over w ts now action new_config (some previous) s).1)
      (good-create_backup ts s)
      (started-Ended w now action new_config previous
        (normalize_connector_results (w.first_start new_config) new_config) _
        (record {
          before = (create_backup ts s).calls;
          filed = refl;
          in_memory = refl;
          last_calls = refl;
        })
        e)

-- A transaction that returns ends in one of two ways. Either its status is success, the new configuration
-- is in the file, in memory and started, and it is the last known good one; or its status is rolled_back,
-- the configuration that was in the file before is in the file, in memory and started again, and the
-- last known good one is that of before, or where there was none, the configuration in the file.
pub apply_config-Ended :
    (w : Surroundings) (ts : ℕ) (now : ℤ) (action : String) (new_config previous : Value) (s : Site)
    {status : Status}
    → s.config_file ≡ some previous
    → (apply_config_with_rollback w ts now action new_config s).0 ≡ ok status
    → Ended new_config previous
        (good_of s)
        status
        (apply_config_with_rollback w ts now action new_config s).1
unfolding apply_config_with_rollback
apply_config-Ended w ts now action new_config previous s filed e =
    let found : (ensure_last_known_good s).config_file ≡ some previous = filed-ensure s ∙ filed in
    rw found (
      apply_over-Ended w ts now action new_config previous (ensure_last_known_good s)
        (rw found at e))

prune_backups_bounded : (n : ℕ) (d : Dict ℕ Value) → length (drop (length d - n) d) ≤ n
prune_backups_bounded n d = omega (arith, length-drop (length d - n) d)

-- However many backups there were, at most ten are left after one is made.
pub backups_bounded :
    (ts : ℕ) (s : Site) {config : Value}
    → s.config_file ≡ some config
    → length (create_backup ts s).backups ≤ max_backups
unfolding create_backup prune_backups
backups_bounded ts s {config} filed =
    rw filed (prune_backups_bounded max_backups (keep_backup ts config s.backups))
