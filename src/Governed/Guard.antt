-- ===== src/Governed/Guard.antt =====
-- `GovernedCommandGuard` of novena_gateway/gateway/governed_commands.py: its state, the trusted keys,
-- the installed policy and the marks in the journal. Times are microseconds of UTC.
pub mod Policy
use novena_gateway.Common.{
  ℕ, String, Bool, true, false, not, ◌&&◌, Option, none, some, List, [], ◌∷◌, any, ltb, str_eq,
  string_eq, if◌then◌else◌, Result, ok, err, ◌>>=◌, ◌>>◌, raise_if,
}
use novena_gateway.Common.Int.{ℤ, pos, ltb_ℤ}
use novena_gateway.Common.Dict.{Dict, lookup, insert}
use novena_gateway.Json.{
  Value, null, bool, num, str, arr, obj, number, Fields, end, field, Fault, type_error, get, get_or,
  index, is_dict, truthy, to_int, eq_value,
}
use novena_gateway.Governed.Journal
use novena_gateway.Governed.Journal.{
  Journal, Entry, State, File, write, record_epoch, reset, open_journal, max_epoch,
}

abbrev pub Bytes : Type 0
Bytes = List ℕ

-- What the source takes from `cryptography`, `base64`, `json`, `hashlib`, `datetime` and `str`:
-- `verify` is `Ed25519PublicKey.verify` with a raw key, and `key_of_text` its decoding from base64;
-- `parse_time` reads an ISO text, and is none where that raises; `text_of` is `str` of what is no text.
-- `dump` is `json.dump` of the journal's state, and none where that raises.
pub record Platform : Type 0 where
  pub verify : Bytes → Bytes → Bytes → Bool
  pub key_of_text : Value → Option Bytes
  pub b64decode : Value → Option Bytes
  pub canonical_bytes : Value → Bytes
  pub sha256 : Bytes → String
  pub parse_time : String → Option ℤ
  pub text_of : Value → String
  pub dump : State → Option File

-- The reasons of `GovernedCommandRejected`, one for each `raise` of the source.
pub data Reason : Type 0 where
  key_not_trusted signature_failed : Reason
  policy_not_object policy_checksum policy_schema policy_gateway policy_epoch : Reason
  time_invalid no_clock no_policy wrong_schema : Reason
  missing_identity : String → Reason
  wrong_gateway expired outside_window stale_epoch no_identity not_enabled : Reason
  stale_revisions stale_checksum : Reason
  wrong_mapping : String → Reason
  wrong_type wrong_unit not_allowed below_minimum above_maximum : Reason
  uncertain stale_sequence unsupported_method : Reason
  local_authority prerequisite_invalid prerequisite_unmet prerequisite_stale : Reason

-- What a call raises: a rejection, or a built-in exception that the source does not catch.
pub data Error : Type 0 where
  rejected : Reason → Error
  fault : Fault → Error

abbrev pub lift {ℓ} : {A : Type ℓ} → Result Fault A → Result Error A
lift (ok a) = ok a
lift (err e) = err (fault e)

abbrev pub reject_if : Bool → Reason → Result Error (Unit {0})
reject_if b r = raise_if b (rejected r)

-- The object's state. `policy` is `null` where the source has None.
pub record Guard : Type 0 where
  pub serial_number : String
  pub trusted_clock : Bool
  pub max_clock_offset : ℤ
  pub diagnostic_clock_skew : ℤ
  pub keys : Dict String Bytes
  pub journal : Journal
  pub policy : Value
  pub policy_file : Option Value

-- What a call reads of its surroundings: `_clock_ready()` and the time.
pub record Moment : Type 0 where
  pub clock_ready : Bool
  pub now : ℤ

-- The outcome that `mark_terminal` is given by keyword.
pub record Outcome : Type 0 where
  pub status : Value
  pub result : Value
  pub error : Value
  pub stage : Value

-- The dict that `mark_executing` stores.
unfoldable pub executing_entry : ℤ → Value → Value → Entry
executing_entry now device sequence = record {
  state = "executing";
  device_id = device;
  sequence_number = sequence;
  status = null;
  result = null;
  error = null;
  stage = null;
  stamp = now;
}

-- `str`-typed `envelope["command_id"]`, which `validate` has checked.
unfoldable pub text_key : Value → Result Fault String
text_key (str s) = ok s
text_key _ = err type_error

abbrev pub executing : ℤ → Value → Result Fault (String × Entry)
executing now envelope = do
  target ← index envelope "target"
  raw ← index envelope "command_id"
  device ← index target "device_id"
  sequence ← index envelope "sequence_number"
  id ← text_key raw
  ok (id, executing_entry now device sequence)

abbrev pub terminal : ℤ → Value → Outcome → Result Fault (String × Entry)
terminal now envelope o = do
  raw ← index envelope "command_id"
  target ← index envelope "target"
  device ← index target "device_id"
  sequence ← index envelope "sequence_number"
  id ← text_key raw
  ok (
    id,
    record {
      state = "terminal";
      device_id = device;
      sequence_number = sequence;
      status = o.status;
      result = o.result;
      error = o.error;
      stage = o.stage;
      stamp = now;
    },
  )

-- `self._keys.get(key_id)`
unfoldable pub trusted_key : Dict String Bytes → Value → Result Fault (Option Bytes)
trusted_key keys (str id) = ok (lookup id keys)
trusted_key keys (arr vs) = err type_error
trusted_key keys (obj fs) = err type_error
trusted_key keys _ = ok none

unfoldable pub known_key : Option Bytes → Result Error Bytes
known_key none = err (rejected key_not_trusted)
known_key (some key) = ok key

module _ (p : Platform) where
  -- The loop of `__init__` over `trusted_command_keys`.
  unfoldable pub load_keys : List String → Dict String Value → Dict String Bytes
  load_keys revoked [] = []
  load_keys revoked ((id, encoded) ∷ rest) =
      let keys : Dict String Bytes = load_keys revoked rest in
      if any (str_eq id) revoked
      then keys
      else (elim (p.key_of_text encoded) [ none ↦ keys | some key ↦ (id, key) ∷ keys ])

  -- The `try` block of `_verify_signed`.
  unfoldable pub signature_holds : Bytes → Value → Bool
  signature_holds key wire = elim (index wire "signature") [
    | err e ↦ false
    | ok text ↦ elim (p.b64decode text) [
      | none ↦ false
      | some signature ↦ elim (index wire "payload") [
        | err e ↦ false
        | ok payload ↦ p.verify key signature (p.canonical_bytes payload)
      ]
    ]
  ]

  -- `_verify_signed`
  unfoldable pub verify_signed : Guard → Value → Result Error (Unit {0})
  unfolding trusted_key known_key
  verify_signed g wire = do
    key_id ← lift (get wire "signing_key_id")
    found ← lift (trusted_key g.keys key_id)
    key ← known_key found
    reject_if (not (signature_holds key wire)) signature_failed

  -- `checksum`
  unfoldable pub checksum : Value → String
  checksum payload = p.sha256 (p.canonical_bytes payload)

  -- The tests of `install_policy`, up to the first write; the payload and its epoch.
  unfoldable pub check_policy : Guard → Value → Result Error (Value × ℤ)
  unfolding checksum
  check_policy g wire = do
    reject_if (not (is_dict wire)) policy_not_object
    verify_signed g wire
    payload ← lift (index wire "payload")
    given ← lift (get wire "checksum")
    reject_if (not (eq_value given (str (checksum payload)))) policy_checksum
    version ← lift (get payload "schema_version")
    reject_if (not (eq_value version (number (pos 1)))) policy_schema
    serial ← lift (get payload "gateway_serial")
    reject_if (not (eq_value serial (str g.serial_number))) policy_gateway
    raw ← lift (get_or payload "control_epoch" (number (pos 0)))
    incoming ← lift (to_int raw)
    reject_if (ltb_ℤ incoming (max_epoch g.journal)) policy_epoch
    ok (payload, incoming)

  -- `install_policy`: the wire goes to the policy file, the payload into memory, the epoch into the
  -- journal. A raise of a test leaves all three alone.
  unfoldable pub install_policy : Value → Guard → Result Error (Unit {0}) × Guard
  install_policy wire g = elim (check_policy g wire) [
    | err e ↦ (err e, g)
    | ok (payload, incoming) ↦ (
      lift (record_epoch p.dump incoming g.journal).0,
      record g {
        policy = payload;
        policy_file = some wire;
        journal = (record_epoch p.dump incoming g.journal).1;
      },
    )
  ]

  -- What `_load_policy` catches: a rejection is a ValueError, and so is caught.
  abbrev caught : Error → Result Error Value
  caught (rejected r) = ok null
  caught (fault Fault.value_error) = ok null
  caught (fault Fault.key_error) = ok null
  caught (fault Fault.type_error) = err (fault Fault.type_error)
  caught (fault Fault.overflow_error) = err (fault Fault.overflow_error)
  caught (fault Fault.attribute_error) = err (fault Fault.attribute_error)

  abbrev read_policy : Guard → Value → Result Error Value
  read_policy g wire = do
    verify_signed g wire
    payload ← lift (index wire "payload")
    serial ← lift (get payload "gateway_serial")
    if eq_value serial (str g.serial_number) then ok payload else ok null

  abbrev handled : Result Error Value → Result Error Value
  handled (ok v) = ok v
  handled (err e) = caught e

  -- `_load_policy`
  unfoldable pub load_policy : Guard → Result Error Value
  load_policy g = elim g.policy_file [ none ↦ ok null | some wire ↦ handled (read_policy g wire) ]

  -- `reset_for_new_claim`; the empty state can be dumped.
  unfoldable pub reset_for_new_claim : Guard → Guard
  reset_for_new_claim g = record g {
    policy = null;
    policy_file = none;
    journal = (reset p.dump g.journal).1;
  }

  -- `_parse_time`
  unfoldable pub parse_stamp : Value → Result Error ℤ
  parse_stamp (str s) = elim (p.parse_time s) [ none ↦ err (rejected time_invalid) | some t ↦ ok t ]
  parse_stamp _ = err (rejected time_invalid)

  abbrev pub stored : ℤ → String → Entry → Guard → Result Error (Unit {0}) × Guard
  stored now id entry g =
      let (r, j) = write p.dump now id entry g.journal in (lift r, record g { journal = j })

  abbrev pub mark : ℤ → Result Fault (String × Entry) → Guard → Result Error (Unit {0}) × Guard
  mark now (err e) g = (err (fault e), g)
  mark now (ok (id, entry)) g = stored now id entry g

  unfoldable pub mark_executing : ℤ → Value → Guard → Result Error (Unit {0}) × Guard
  unfolding text_key executing_entry
  mark_executing now envelope g = mark now (executing now envelope) g

  unfoldable pub mark_terminal : ℤ → Value → Outcome → Guard → Result Error (Unit {0}) × Guard
  unfolding text_key
  mark_terminal now envelope o g = mark now (terminal now envelope o) g
