-- ===== src/RemoteConfig/Update.antt =====
-- `_on_config_update` and `reset_for_new_claim` of `RemoteConfigHandler`: a message is verified, applied,
-- recorded and acknowledged.
use novena_gateway.Common.{
  ℕ, String, Bool, true, not, Option, none, some, List, [], ◌∷◌, ◌++◌, if◌then◌else◌, Result, ok,
  err, ◌>>=◌,
}
use novena_gateway.Common.Int.{ℤ}
use novena_gateway.Json.{Value, str, Fault, get, get_or, index, is_null, truthy, eq_value}
use novena_gateway.Governed.Guard.{Platform, Moment}
use novena_gateway.Setup.{EnvelopeGuard, Replay, SetupError, verify, record_result, reset_requests}
use novena_gateway.Setup as Setup
use novena_gateway.RemoteConfig.{
  Site, Status, Surroundings, ConfigError, fault, no_config, unknown_status,
}
use novena_gateway.RemoteConfig.Edits.{apply_action}

-- The fields of an acknowledgement that the model keeps: what the code passes to `_send_ack`.
pub data Ack : Type 0 where
  rejected : Value → Ack
  accepted : Value → Ack
  applied : Value → Status → Ack
  failed : Value → String → Ack
  replayed : Value → Value → Ack

-- `payload.get("request_id", "unknown")`
unfoldable pub request_of : Value → Value
request_of payload = elim (get_or payload "request_id" (str "unknown")) [
  | ok v ↦ v
  | err e ↦ str "unknown"
]

-- `payload.get("schema_version") is None`, of a payload that may be no dict.
unfoldable pub is_unsigned : Value → Bool
is_unsigned payload = elim (get payload "schema_version") [ ok v ↦ is_null v | err e ↦ true ]

-- The `except Exception` of the second `try`.
unfoldable pub apply_failed :
    Surroundings → ℤ → Value → ConfigError → Site → List Ack → List Ack × Site
apply_failed w now request_id e s acks = (
  acks ++ failed request_id (w.redact_text (w.describe e)) ∷ [],
  record s {
    last_update_status = record unknown_status {
      config_update_status = "failed";
      config_update_error = some (w.redact_text (w.describe e));
      config_version_ts = some now;
    };
  },
)

module _ (p : Platform) (w : Surroundings) where
  -- The end of the second `try`: the result is recorded and acknowledged.
  unfoldable pub record_applied :
      ℤ → Value → Value → Result ConfigError Status × Site → List Ack → List Ack × Site
  unfolding apply_failed
  record_applied now body request_id (err e, s) acks = apply_failed w now request_id e s acks
  record_applied now body request_id (ok status, s) acks =
      elim (record_result p body (w.replay_value status) s.guard) [
        | err e ↦ apply_failed w now request_id (fault e) s acks
        | ok guard ↦ (acks ++ applied request_id status ∷ [], record s { guard = guard })
      ]

  -- The second `try`, of a body that is new.
  unfoldable pub apply_new : ℕ → ℤ → Value → Value → Value → Value → Site → List Ack × Site
  unfolding record_applied
  apply_new ts now body request_id action new_config s =
      if not (truthy new_config)
      then apply_failed w now request_id no_config s []
      else record_applied now body request_id (apply_action w ts now action new_config s)
          (accepted request_id ∷ [])

  abbrev fields_of : Value → Result Fault (Value × Value × Value)
  fields_of body = do
    request_id ← index body "request_id"
    action ← get_or body "action" (str "full_update")
    new_config ← get body "config"
    ok (request_id, action, new_config)

  -- What a verified body leads to; an exception that is not caught is `err`.
  unfoldable pub handle_verified :
      ℕ
      → ℤ
      → Value
      → Result SetupError (Value × Option Replay)
      → Site
      → Result Fault (List Ack) × Site
  unfolding apply_new
  handle_verified ts now request_id (err (Setup.fault f)) s = (err f, s)
  handle_verified ts now request_id (err e) s = (ok (rejected request_id ∷ []), s)
  handle_verified ts now request_id (ok (body, some r)) s =
      ((do known ← index body "request_id"; ok (replayed known r.result ∷ [])), s)
  handle_verified ts now request_id (ok (body, none)) s = elim (fields_of body) [
    | err f ↦ (err f, s)
    | ok (known, action, new_config) ↦
        let (acks, s') = apply_new ts now body known action new_config s in (ok acks, s')
  ]

  -- `_on_config_update`, for the `mode` of the gateway's MQTT section.
  unfoldable pub on_config_update :
      ℕ → ℤ → Moment → Value → Value → Site → Result Fault (List Ack) × Site
  unfolding handle_verified
  on_config_update ts now m mode payload s =
      if eq_value mode (str "release_pending")
      then (ok [], s)
      else if is_unsigned payload
      then (ok (rejected (request_of payload) ∷ []), s)
      else handle_verified ts now (request_of payload) (verify p s.guard m payload) s

  -- `reset_for_new_claim`
  unfoldable pub reset_for_new_claim : Value → Site → Site
  reset_for_new_claim config s = record s {
    guard = record s.guard { journal = reset_requests s.guard.journal };
    last_known_good = some config;
    backups = [];
    last_update_status = unknown_status;
  }
