-- ===== src/Setup.antt =====
-- `ConfigReplayJournal` and `ConfigEnvelopeGuard` of novena_gateway/gateway/deployment_setup.py: signed
-- configuration envelopes. The journal is its state in memory; a write of its file succeeds. Times are
-- microseconds of UTC.
pub mod Sound
pub mod Once
use novena_gateway.Common.{
  ℕ, String, Bool, true, false, not, ◌&&◌, ◌||◌, Option, none, some, List, [], ◌∷◌, take, length,
  ltb, string_eq, if◌then◌else◌, Result, ok, err, ◌>>=◌, ◌>>◌,
}
use novena_gateway.Common.Int.{ℤ, pos, max_ℤ, ltb_ℤ, leb_ℤ}
use novena_gateway.Common.Dict.{Dict, lookup, insert}
use novena_gateway.Json.{
  Value, str, obj, number, Fault, type_error, value_error, key_error, attribute_error, get, index,
  is_dict, truthy, or_dict, to_int, eq_value,
}
use novena_gateway.Governed.Guard.{Platform, Bytes, trusted_key, Moment}
use novena_gateway.Governed.Validate.{signed_body, str_of}

-- The reasons of `DeploymentSetupRejected`, one for each `raise`, and the exceptions that pass through.
pub data SetupError : Type 0 where
  not_ready not_object key_not_trusted signature_failed wrong_schema wrong_gateway : SetupError
  no_identity expiry_invalid expired no_config wrong_checksum revision_invalid stale_revision :
      SetupError
  fault : Fault → SetupError

abbrev pub lift {ℓ} : {A : Type ℓ} → Result Fault A → Result SetupError A
lift (ok a) = ok a
lift (err e) = err (fault e)

abbrev pub reject_if : Bool → SetupError → Result SetupError (Unit {0})
reject_if true e = err e
reject_if false e = ok tt

-- `except (KeyError, TypeError, ValueError)`
abbrev pub caught_as {ℓ} : {A : Type ℓ} → SetupError → Result Fault A → Result SetupError A
caught_as e (ok a) = ok a
caught_as e (err Fault.attribute_error) = err (fault Fault.attribute_error)
caught_as e (err f) = err e

pub record Replay : Type 0 where
  pub revision : ℤ
  pub result : Value

pub record ReplayJournal : Type 0 where
  pub max_revision : ℤ
  pub requests : Dict String Replay

abbrev pub request_limit : ℕ
request_limit = 500

abbrev pub no_requests : ReplayJournal
no_requests = record { max_revision = pos 0; requests = [] }

-- `sorted(…, key=revision, reverse=True)`, which keeps the order of equal revisions.
unfoldable pub place : String × Replay → List (String × Replay) → List (String × Replay)
place x [] = x ∷ []
place x (y ∷ ys) =
    let rest = place x ys in if ltb_ℤ x.1.revision y.1.revision then y ∷ rest else x ∷ y ∷ ys

unfoldable pub by_revision : List (String × Replay) → List (String × Replay)
unfolding place
by_revision [] = []
by_revision (x ∷ xs) = place x (by_revision xs)

unfoldable pub prune : Dict String Replay → Dict String Replay
unfolding by_revision
prune requests =
    if ltb request_limit (length requests)
    then take request_limit (by_revision requests)
    else requests

-- `ConfigReplayJournal.record`
unfoldable pub record_request : String → ℤ → Value → ReplayJournal → ReplayJournal
unfolding prune
record_request key revision result j = record {
  max_revision = max_ℤ revision j.max_revision;
  requests = prune (insert key (record { revision = revision; result = result }) j.requests);
}

-- `ConfigReplayJournal.reset`
unfoldable pub reset_requests : ReplayJournal → ReplayJournal
reset_requests j = no_requests

-- `ConfigReplayJournal.get`
unfoldable pub replay_of : String → ReplayJournal → Option Replay
replay_of key j = lookup key j.requests

pub record EnvelopeGuard : Type 0 where
  pub serial_number : String
  pub trusted_clock : Bool
  pub keys : Dict String Bytes
  pub journal : ReplayJournal

abbrev has_keys : Dict String Bytes → Bool
has_keys [] = false
has_keys (k ∷ ks) = true

-- `ready`
unfoldable pub ready : EnvelopeGuard → Moment → Bool
ready g m = g.trusted_clock && m.clock_ready && has_keys g.keys

-- The replay, or a revision that is above every one recorded.
unfoldable pub check_revision : ReplayJournal → Value → Result SetupError (Unit {0})
check_revision j body = do
  revision ← caught_as revision_invalid (do raw ← index body "revision"; to_int raw)
  reject_if (leb_ℤ revision j.max_revision) stale_revision

unfoldable pub known_or_new :
    ReplayJournal → Value → Option Replay → Result SetupError (Value × Option Replay)
unfolding check_revision
known_or_new j body (some r) = ok (body, some r)
known_or_new j body none = do check_revision j body; ok (body, none)

-- The gateway and the identity that the body names.
unfoldable pub check_addressee : EnvelopeGuard → Value → Result SetupError (Unit {0})
check_addressee g body = do
  version ← lift (get body "schema_version")
  reject_if (not (eq_value version (number (pos 1)))) wrong_schema
  target ← lift (get body "target")
  serial ← lift (get (or_dict target) "gateway_serial")
  reject_if (not (eq_value serial (str g.serial_number))) wrong_gateway
  request_id ← lift (get body "request_id")
  idempotency_key ← lift (get body "idempotency_key")
  reject_if (not (truthy request_id) || not (truthy idempotency_key)) no_identity

module _ (p : Platform) where
  -- The `try` block around `key.verify`: what it raises is a rejection.
  unfoldable pub signed_by : Bytes → Value → Value → Bool
  signed_by key signature body = elim (p.b64decode signature) [
    | none ↦ false
    | some text ↦ p.verify key text (p.canonical_bytes body)
  ]

  unfoldable pub check_signature : EnvelopeGuard → Value → Result SetupError (Unit {0})
  unfolding signed_by
  check_signature g wire = do
    signature ← lift (get wire "signature")
    key_id ← lift (get wire "signing_key_id")
    found ← lift (trusted_key g.keys key_id)
    elim found [
      | none ↦ err key_not_trusted
      | some key ↦ do
        reject_if (not (truthy signature)) key_not_trusted
        reject_if (not (signed_by key signature (signed_body wire))) signature_failed
    ]

  unfoldable pub parse_expiry : Value → Result SetupError ℤ
  parse_expiry v = elim (p.parse_time (str_of p v)) [ none ↦ err expiry_invalid | some t ↦ ok t ]

  unfoldable pub check_expiry : Moment → Value → Result SetupError (Unit {0})
  unfolding parse_expiry
  check_expiry m body = do
    raw ← caught_as expiry_invalid (index body "expires_at")
    expires_at ← parse_expiry raw
    reject_if (leb_ℤ expires_at m.now) expired

  unfoldable pub check_config : Value → Result SetupError (Unit {0})
  check_config body = do
    config ← lift (get body "config")
    reject_if (not (is_dict config)) no_config
    given ← lift (get body "checksum")
    reject_if (not (eq_value given (str (p.sha256 (p.canonical_bytes config))))) wrong_checksum

  -- `ConfigEnvelopeGuard.verify`: the body, and what was recorded for its key.
  unfoldable pub verify : EnvelopeGuard → Moment → Value → Result SetupError (Value × Option Replay)
  verify g m wire = do
    reject_if (not (ready g m)) not_ready
    reject_if (not (is_dict wire)) not_object
    check_signature g wire
    check_addressee g (signed_body wire)
    check_expiry m (signed_body wire)
    check_config (signed_body wire)
    raw ← lift (index (signed_body wire) "idempotency_key")
    known_or_new g.journal (signed_body wire) (replay_of (str_of p raw) g.journal)

  -- `ConfigEnvelopeGuard.record`
  unfoldable pub record_result : Value → Value → EnvelopeGuard → Result Fault EnvelopeGuard
  record_result body result g = do
    raw ← index body "idempotency_key"
    given ← index body "revision"
    revision ← to_int given
    ok (record g { journal = record_request (str_of p raw) revision result g.journal })
