-- ===== src/Governed/Journal.antt =====
-- `DurableCommandJournal` of novena_gateway/gateway/governed_commands.py. The journal is its state
-- in memory and the file that `_persist` replaces; the file system does not fail. JSON has only texts
-- for keys, so the file holds each device key as a text.
pub mod Laws
pub mod Restart
use novena_gateway.Common.{
  ℕ, zero, suc, String, ◌≡◌, refl, Bool, true, false, Option, none, some, List, [], ◌∷◌, ◌++◌, map,
  arith, ◌==◌, str_eq, eq_iff, if◌then◌else◌, Eq, string_eq, ◌↔◌, Result, ok, err, ◌>>=◌, take_last,
}
use novena_gateway.Common.Int.{ℤ, pos, negsuc, max_ℤ, eq_ℤ, eq_ℤ→eq}
use novena_gateway.Common.Dict.{Dict, lookup, insert}
use novena_gateway.Json.{
  Value, null, bool, num, special, str, arr, obj, number, Fault, type_error, truthy, to_int,
}

-- A key of the dict of sequences: what a hashable JSON value is as a key. A fractional number and
-- NaN are refused here.
pub data Key : Type 0 where
  absent : Key
  whole : ℤ → Key
  name : String → Key

unfoldable pub key_of : Value → Result Fault Key
key_of null = ok absent
key_of (bool b) = ok (whole (if b then pos 1 else pos 0))
key_of (num m zero) = ok (whole m)
key_of (num m (suc k)) = err type_error
key_of (special x) = err type_error
key_of (str s) = ok (name s)
key_of (arr vs) = err type_error
key_of (obj fs) = err type_error

abbrev eq_key : Key → Key → Bool
eq_key absent absent = true
eq_key (whole a) (whole b) = eq_ℤ a b
eq_key (name s) (name t) = str_eq s t
eq_key _ _ = false

pub eq_key_iff : (a b : Key) → (eq_key a b ≡ true) ↔ (a ≡ b)
eq_key_iff absent absent = (λ _. refl, λ _. refl)
eq_key_iff absent (whole b) = (λ h. cc, λ h. cc)
eq_key_iff absent (name t) = (λ h. cc, λ h. cc)
eq_key_iff (whole a) absent = (λ h. cc, λ h. cc)
eq_key_iff (whole a) (whole b) = (λ h. cc (eq_ℤ→eq a b h), λ h. ground arith)
eq_key_iff (whole a) (name t) = (λ h. cc, λ h. cc)
eq_key_iff (name s) absent = (λ h. cc, λ h. cc)
eq_key_iff (name s) (whole b) = (λ h. cc, λ h. cc)
eq_key_iff (name s) (name t) = (λ h. ground (arith, eq_iff s t), λ h. ground (arith, eq_iff s t))

instance abbrev pub key_eq : Eq Key
key_eq = record { beq = eq_key; beq_iff = eq_key_iff }

-- The dict that is stored for a command. A field that the source leaves out is `null`.
pub record Entry : Type 0 where
  pub state : String
  pub device_id : Value
  pub sequence_number : Value
  pub status : Value
  pub result : Value
  pub error : Value
  pub stage : Value
  pub stamp : ℤ

pub record Event : Type 0 where
  pub command_id : String
  pub state : String
  pub status : Value
  pub stage : Value
  pub error : Value
  pub device_id : Value
  pub sequence_number : ℤ
  pub recorded_at : ℤ

pub record State : Type 0 where
  pub commands : Dict String Entry
  pub sequences : Dict Key ℤ
  pub events : List Event
  pub max_epoch : ℤ

-- The JSON object of the file, each member of which may be missing.
pub record File : Type 0 where
  pub commands : Option (Dict String Entry)
  pub sequences : Option (Dict String ℤ)
  pub events : Option (List Event)
  pub max_epoch : Option ℤ

pub record Journal : Type 0 where
  pub state : State
  pub file : Option File

abbrev pub is_found {ℓ} : {A : Type ℓ} → Option A → Bool
is_found none = false
is_found (some a) = true

abbrev pub empty : State
empty = record { commands = []; sequences = []; events = []; max_epoch = pos 0 }

abbrev or_default {ℓ} : {A : Type ℓ} → Option A → A → A
or_default none d = d
or_default (some a) d = a

abbrev as_name : String × ℤ → Key × ℤ
as_name (s, z) = (name s, z)

-- `_load`: a file that is missing, unreadable or no object gives the empty state.
unfoldable pub load : Option File → State
load none = empty
load (some f) = record {
  commands = or_default f.commands [];
  sequences = map as_name (or_default f.sequences []);
  events = or_default f.events [];
  max_epoch = or_default f.max_epoch (pos 0);
}

abbrev event_of : ℤ → String → Entry → ℤ → Event
event_of now id r sequence = record {
  command_id = id;
  state = r.state;
  status = r.status;
  stage = r.stage;
  error = r.error;
  device_id = r.device_id;
  sequence_number = sequence;
  recorded_at = now;
}

abbrev pub spool_limit : ℕ
spool_limit = 10000

-- The end of `write`: the event is appended, and the spool cut to its newest entries.
unfoldable pub spool : ℤ → String → Entry → ℤ → State → State
spool now id r sequence s = record s {
  events = take_last spool_limit (s.events ++ event_of now id r sequence ∷ []);
}

abbrev pub sequence_at : Key → State → ℤ
sequence_at k s = or_default (lookup k s.sequences) (pos 0)

unfoldable pub raise_sequence : Key → ℤ → State → State
raise_sequence k sequence s = record s {
  sequences = insert k (max_ℤ sequence (sequence_at k s)) s.sequences;
}

-- The sequence number of a record, and the key of its device where it names one.
unfoldable pub slot : Entry → Result Fault (ℤ × Option Key)
slot r = do
  sequence ← to_int r.sequence_number
  if truthy r.device_id
      then (do k ← key_of r.device_id; ok (sequence, some k))
      else ok (sequence, none)

-- What `json.dump` with `sort_keys` makes of the state is `dump`: none where it raises a TypeError, as
-- on keys of several types. What was assigned before an exception stays assigned, in memory only.
module _ (dump : State → Option File) where
  abbrev pub persisted : Option File → State → Journal → Result Fault (Unit {0}) × Journal
  persisted none s j = (err type_error, record j { state = s })
  persisted (some f) s j = (ok tt, record { state = s; file = some f })

  -- The state is changed and `_persist` is called.
  unfoldable pub persist : State → Journal → Result Fault (Unit {0}) × Journal
  persist s j = persisted (dump s) s j

  unfoldable pub reset : Journal → Result Fault (Unit {0}) × Journal
  unfolding persist
  reset j = persist empty j

  unfoldable pub record_epoch : ℤ → Journal → Result Fault (Unit {0}) × Journal
  unfolding persist
  record_epoch epoch j = persist (record j.state { max_epoch = max_ℤ epoch j.state.max_epoch }) j

  -- The rest of `write`, from the number and the key on.
  unfoldable pub commit :
      ℤ
      → String
      → Entry
      → Result Fault (ℤ × Option Key)
      → State
      → Journal
      → Result Fault (Unit {0}) × Journal
  unfolding raise_sequence spool persist
  commit now id r (err e) s j = (err e, record j { state = s })
  commit now id r (ok (sequence, none)) s j = persist (spool now id r sequence s) j
  commit now id r (ok (sequence, some k)) s j =
      persist (spool now id r sequence (raise_sequence k sequence s)) j

  -- `write`
  unfoldable pub write : ℤ → String → Entry → Journal → Result Fault (Unit {0}) × Journal
  write now id r j =
      commit now id r (slot r) (record j.state { commands = insert id r j.state.commands }) j

-- `get`; no record is an empty dict.
unfoldable pub get_command : String → Journal → Option Entry
get_command id j = lookup id j.state.commands

-- `max_sequence`
unfoldable pub max_sequence : Key → Journal → ℤ
max_sequence k j = or_default (lookup k j.state.sequences) (pos 0)

abbrev pub max_epoch : Journal → ℤ
max_epoch j = j.state.max_epoch

abbrev pub reconciliation_events : Journal → List Event
reconciliation_events j = j.state.events

-- The constructor: the state comes from the file.
unfoldable pub open_journal : Option File → Journal
unfolding load
open_journal f = record { state = load f; file = f }
