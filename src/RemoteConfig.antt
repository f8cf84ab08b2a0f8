-- ===== src/RemoteConfig.antt =====
-- `RemoteConfigHandler` of novena_gateway/gateway/remote_config_handler.py: a signed configuration, or an
-- edit of the connectors, is written, started, and rolled back where a connector fails. A `Site` holds
-- the files that the handler writes and the fields of the gateway that it sets; a write of a file
-- succeeds. What the connectors report as they start is a parameter.
pub mod Edits
pub mod Update
pub mod Rollback
pub mod Edited
pub mod Refused
mod Tests
use novena_gateway.Common.{
  ℕ, suc, String, Bool, true, false, not, Option, none, some, List, [], ◌∷◌, ◌++◌, drop, length,
  ltb, str_eq, nat_eq, ◌-◌, if◌then◌else◌, Result, ok, err, ◌>>=◌,
}
use novena_gateway.Common.Int.{ℤ}
use novena_gateway.Common.Dict.{Dict, insert}
use novena_gateway.Json.{
  Value, null, str, arr, obj, Items, nil, cons, end, field, Fault, type_error, attribute_error, get,
  get_or, truthy, eq_value,
}
use novena_gateway.Setup.{EnvelopeGuard, SetupError}
use Prim.Native.String

-- A call of the gateway: its connectors are stopped, or started with a configuration.
pub data GatewayCall : Type 0 where
  stop_connectors : GatewayCall
  start_connectors : Value → GatewayCall

-- The dict that `get_status` shows and that is recorded for a replay.
pub record Status : Type 0 where
  pub config_update_status : String
  pub config_update_error : Option String
  pub rollback_performed : Bool
  pub connector_results : Items
  pub rollback_connector_results : Items
  pub config_version_ts : Option ℤ
  pub action : Option String

abbrev pub unknown_status : Status
unknown_status = record {
  config_update_status = "unknown";
  config_update_error = none;
  rollback_performed = false;
  connector_results = nil;
  rollback_connector_results = nil;
  config_version_ts = none;
  action = none;
}

-- The files, and the gateway's `_config`, `_startup_status` and `_connector_start_results`; its
-- `_startup_error`, which only a success clears, is left out. A backup is
-- named by its second; texts of as many digits sort as their numbers.
pub record Site : Type 0 where
  pub config_file : Option Value
  pub last_known_good : Option Value
  pub backups : Dict ℕ Value
  pub running : Value
  pub startup_status : String
  pub connector_start_results : Items
  pub last_update_status : Status
  pub guard : EnvelopeGuard
  pub calls : List GatewayCall

-- What the code raises, one constructor for each `raise ValueError`, and what passes through.
pub data ConfigError : Type 0 where
  no_config unknown_action invalid_config not_a_list no_name not_found already_exists file_missing :
      ConfigError
  fault : Fault → ConfigError

-- What the connectors report as they are started for the first and for the second time, `none` for a
-- `_start_connectors` that returns None; `redact_text`; the text of a value;
-- `validate_config` of the gateway; the dict that `record` keeps of a status; and the text of an exception.
pub record Surroundings : Type 0 where
  pub first_start : Value → Option Items
  pub second_start : Value → Option Items
  pub redact_text : String → String
  pub text_of : Value → String
  pub validate_config : Value → List String
  pub replay_value : Status → Value
  pub describe : ConfigError → String

abbrev pub lift {ℓ} : {A : Type ℓ} → Result Fault A → Result ConfigError A
lift (ok a) = ok a
lift (err e) = err (fault e)

abbrev pub max_backups : ℕ
max_backups = 10

-- `_ensure_last_known_good`
unfoldable pub ensure_last_known_good : Site → Site
ensure_last_known_good s = elim s.last_known_good [
  | some good ↦ s
  | none ↦ record s { last_known_good = s.config_file }
]

-- The names in order: a new second is put in its place.
unfoldable pub keep_backup : ℕ → Value → Dict ℕ Value → Dict ℕ Value
keep_backup ts config [] = (ts, config) ∷ []
keep_backup ts config ((t, old) ∷ rest) =
    let others = keep_backup ts config rest in
    if ltb t ts
    then (t, old) ∷ others
    else if ltb ts t
    then (ts, config) ∷ (t, old) ∷ rest
    else (ts, config) ∷ rest

-- `_prune_backups`
unfoldable pub prune_backups : Dict ℕ Value → Dict ℕ Value
prune_backups backups = drop (length backups - max_backups) backups

-- `_create_backup`
unfoldable pub create_backup : ℕ → Site → Site
unfolding keep_backup prune_backups
create_backup ts s = elim s.config_file [
  | none ↦ s
  | some config ↦ record s { backups = prune_backups (keep_backup ts config s.backups) }
]

abbrev pub write_config : Value → Site → Site
write_config config s = record s { config_file = some config }

-- `_stop_connectors()`, the assignment of `_config`, and the call of `_start_connectors()`.
unfoldable pub restart_connectors : Value → Site → Site
restart_connectors config s = record s {
  running = config;
  calls = s.calls ++ stop_connectors ∷ start_connectors config ∷ [];
}

-- The elements of `config.get("connectors", [])`, on each of which `.get` is called. An empty text or
-- dict, which a valid configuration does not have there, raises here too.
unfoldable pub connectors_of : Value → Result Fault Items
connectors_of (arr vs) = ok vs
connectors_of (str s) = err attribute_error
connectors_of (obj fs) = err attribute_error
connectors_of _ = err type_error

unfoldable pub assumed_started : Items → Result Fault Items
assumed_started nil = ok nil
assumed_started (cons connector rest) = do
  type ← get_or connector "type" (str "unknown")
  name ← get_or connector "name" type
  others ← assumed_started rest
  ok (
      cons
        (obj (
          field "name" name
            (field "type" type (field "status" (str "success") (field "error" null end)))))
        others)

-- `_normalize_connector_results`
unfoldable pub normalize_connector_results : Option Items → Value → Result Fault Items
unfolding connectors_of assumed_started
normalize_connector_results (some results) config = ok results
normalize_connector_results none config = do
  connectors ← get_or config "connectors" (arr nil)
  items ← connectors_of connectors
  assumed_started items

-- `[result for result in connector_results if result.get("status") != "success"]`
unfoldable pub failures_of : Items → Result Fault Items
failures_of nil = ok nil
failures_of (cons result rest) = do
  status ← get result "status"
  others ← failures_of rest
  ok (if eq_value status (str "success") then others else cons result others)

module _ (w : Surroundings) where
  -- `f"{item.get('name')}: {item.get('error') or item.get('status')}"`
  unfoldable pub failure_text : Value → Result Fault String
  failure_text item = do
    name ← get item "name"
    error ← get item "error"
    status ← get item "status"
    ok (
        String.◌++◌ (w.text_of name)
          (String.◌++◌ ": " (w.text_of (if truthy error then error else status))))

  -- `"; ".join(…)`
  unfoldable pub failures_text : Items → Result Fault String
  unfolding failure_text
  failures_text nil = ok ""
  failures_text (cons item nil) = failure_text item
  failures_text (cons item (cons next rest)) = do
    text ← failure_text item
    others ← failures_text (cons next rest)
    ok (String.◌++◌ text (String.◌++◌ "; " others))

  -- The end of a rollback, from the results of the second start on.
  unfoldable pub rolled_back :
      ℤ → String → String → Items → Result Fault Items → Site → Result ConfigError Status × Site
  rolled_back now action error results (err f) s = (err (fault f), s)
  rolled_back now action error results (ok rollback_results) s =
      let status : Status = record {
        config_update_status = "rolled_back";
        config_update_error = some (w.redact_text error);
        rollback_performed = true;
        connector_results = results;
        rollback_connector_results = rollback_results;
        config_version_ts = some now;
        action = some action;
      } in
      (
        ok status,
        record s { connector_start_results = rollback_results; last_update_status = status },
      )

  -- The branch of `if failures:`.
  unfoldable pub roll_back :
      ℤ → String → Value → Items → Result Fault String → Site → Result ConfigError Status × Site
  unfolding rolled_back restart_connectors
  roll_back now action previous results (err f) s =
      (err (fault f), record s { startup_status = "degraded" })
  roll_back now action previous results (ok error) s =
      let s' : Site =
        restart_connectors previous
          (write_config previous (record s { startup_status = "degraded" })) in
      rolled_back now action error results
        (normalize_connector_results (w.second_start previous) previous) s'

  -- The branch of a start without failures.
  unfoldable pub succeed : ℤ → String → Value → Items → Site → Result ConfigError Status × Site
  succeed now action new_config results s =
      let status : Status = record {
        config_update_status = "success";
        config_update_error = none;
        rollback_performed = false;
        connector_results = results;
        rollback_connector_results = nil;
        config_version_ts = some now;
        action = some action;
      } in
      (
        ok status,
        record s {
          last_known_good = some new_config;
          startup_status = "ready";
          last_update_status = status;
        },
      )

  unfoldable pub decide :
      ℤ
      → String
      → Value
      → Value
      → Items
      → Result Fault Items
      → Site
      → Result ConfigError Status × Site
  unfolding roll_back succeed failures_text
  decide now action previous new_config results (err f) s = (err (fault f), s)
  decide now action previous new_config results (ok nil) s = succeed now action new_config results s
  decide now action previous new_config results (ok (cons failure rest)) s =
      roll_back now action previous results (failures_text (cons failure rest)) s

  unfoldable pub started :
      ℤ → String → Value → Value → Result Fault Items → Site → Result ConfigError Status × Site
  unfolding decide failures_of
  started now action previous new_config (err f) s = (err (fault f), s)
  started now action previous new_config (ok results) s =
      decide now action previous new_config results (failures_of results)
        (record s { connector_start_results = results })

  unfoldable pub apply_over :
      ℕ → ℤ → String → Value → Option Value → Site → Result ConfigError Status × Site
  unfolding started create_backup restart_connectors normalize_connector_results
  apply_over ts now action new_config none s = (err file_missing, s)
  apply_over ts now action new_config (some previous) s =
      started now action previous new_config
        (normalize_connector_results (w.first_start new_config) new_config)
        (restart_connectors new_config (write_config new_config (create_backup ts s)))

  -- `_apply_config_with_rollback`, at the second `ts` and the millisecond `now`.
  unfoldable pub apply_config_with_rollback :
      ℕ → ℤ → String → Value → Site → Result ConfigError Status × Site
  unfolding apply_over ensure_last_known_good
  apply_config_with_rollback ts now action new_config s =
      let s' : Site = ensure_last_known_good s in
      apply_over ts now action new_config s'.config_file s'
