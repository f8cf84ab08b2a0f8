-- ===== src/Governed/Validate/Once.antt =====
-- A command that was marked is not accepted as new again by what follows: calls of `mark_executing`,
-- `mark_terminal` and `install_policy`, failing ones included. `reset_for_new_claim` and a restart are
-- not among them.
use novena_gateway.Common.{
  String, ◌≡◌, ◌≢◌, refl, ap, true, Option, none, some, arith, string_eq, Result, ok, err, ◌>>=◌,
  value_or, is_some, str_eq,
}
use novena_gateway.Common.Int.{ℤ, pos, max_ℤ, ◌<ℤ◌, ◌≤ℤ◌}
use novena_gateway.Json.{Value, null, str, number, Fault, get, get_or, index, to_int}
use novena_gateway.Governed.Journal.{
  Entry, Journal, Key, key_of, key_eq, record_epoch, get_command, max_sequence,
}
use novena_gateway.Governed.Journal.Laws.{get_command-write, sequence_mono, state-persist}
use novena_gateway.Governed.Guard.{
  Platform, Guard, Moment, Outcome, Error, mark, executing, terminal, executing_entry, text_key,
  check_policy, mark_executing, mark_terminal, install_policy,
}
use novena_gateway.Governed.Validate.{validate, check_journal, check_existing}
use novena_gateway.Governed.Validate.Sound.{Passed, validate-Passed}
use novena_gateway.Governed.Validate.Fresh.{
  Fresh, validate-Fresh, marked_known, mark_executing_records, name_of,
}

pub data Step (p : Platform) : Guard → Guard → Type 0 where
  executed : (now : ℤ) (envelope : Value) (g : Guard) → Step p g (mark_executing p now envelope g).1
  ended :
      (now : ℤ) (envelope : Value) (o : Outcome) (g : Guard)
      → Step p g (mark_terminal p now envelope o g).1
  installed : (wire : Value) (g : Guard) → Step p g (install_policy p wire g).1

pub data Reach (p : Platform) (g : Guard) : Guard → Type 0 where
  here : Reach p g g
  next : {h k : Guard} → Reach p g h → Step p h k → Reach p g k

-- What no step takes back: a command that is known, and the height of a sequence.
pub record Grows (g h : Guard) : Type 0 where
  pub known :
      (id : String)
      → is_some (get_command id g.journal) ≡ true
      → is_some (get_command id h.journal) ≡ true
  pub higher : (k : Key) → max_sequence k g.journal ≤ℤ max_sequence k h.journal

mark-Grows :
    (p : Platform) (now : ℤ) (e : Result Fault (String × Entry)) (g : Guard)
    → Grows g (mark p now e g).1
mark-Grows p now (err f) g = record { known = λ id h. h; higher = λ k. omega arith }
mark-Grows p now (ok (id, entry)) g = record {
  known = λ other h. ground (arith, get_command-write p.dump now id entry other g.journal);
  higher = λ k. sequence_mono p.dump now id entry k g.journal;
}

record_epoch-state :
    (p : Platform) (epoch : ℤ) (j : Journal)
    → (record_epoch p.dump epoch j).1.state
      ≡ record j.state { max_epoch = max_ℤ epoch j.state.max_epoch }
unfolding record_epoch
record_epoch-state p epoch j = state-persist p.dump _ j

epoch-Grows :
    (p : Platform) (wire : Value) (r : Result Error (Value × ℤ)) (g : Guard)
    → check_policy p g wire ≡ r
    → Grows g (install_policy p wire g).1
unfolding install_policy get_command max_sequence
epoch-Grows p wire (err e) g h =
    rw (h, install_policy) (record { known = λ id k. k; higher = λ k. omega arith })
epoch-Grows p wire (ok (payload, incoming)) g h =
    rw (h, install_policy)
      (record {
        known = λ id k. rw (record_epoch-state p incoming g.journal) k;
        higher = λ k. rw (record_epoch-state p incoming g.journal) (omega arith);
      })

Step-Grows : {p : Platform} {g h : Guard} → Step p g h → Grows g h
unfolding mark_executing mark_terminal
Step-Grows {p} (executed now envelope g) = mark-Grows p now (executing now envelope) g
Step-Grows {p} (ended now envelope o g) = mark-Grows p now (terminal now envelope o) g
Step-Grows {p} (installed wire g) = epoch-Grows p wire (check_policy p g wire) g refl

Reach-Grows : {p : Platform} {g h : Guard} → Reach p g h → Grows g h
Reach-Grows here = record { known = λ id h. h; higher = λ k. omega arith }
Reach-Grows (next r s) =
    let before : Grows _ _ = Reach-Grows r in
    let after : Grows _ _ = Step-Grows s in
    record {
      known = λ id h. after.known id (before.known id h);
      higher = λ k. omega (arith, before.higher k, after.higher k);
    }

-- Once `mark_executing` has returned for a command, no envelope with the command's id is accepted as new
-- after any further calls of `mark_executing`, `mark_terminal` and `install_policy`, whether they return
-- or raise. `reset_for_new_claim` and a restart are not among these calls.
pub executed_once :
    (p : Platform) (now : ℤ) (m : Moment) (g h : Guard) (envelope again : Value) {control : Value}
    → (mark_executing p now envelope g).0 ≡ ok tt
    → Reach p (mark_executing p now envelope g).1 h
    → get again "command_id" ≡ get envelope "command_id"
    → validate p h m again ≢ ok (control, none)
executed_once p now m g h envelope again returned r same repeated =
    let f : Fresh h.journal again = validate-Fresh p h m again repeated in
    let (id, named, recorded) = marked_known p now g envelope returned in
    let one : str id ≡ str f.id = cc (named, f.named, same) in
    cc ((Reach-Grows r).known id recorded, f.unseen, one)

-- The device of a command, as a key of the journal.
unfoldable pub device_key : Value → Result Fault Key
device_key envelope = do
  target ← index envelope "target"
  device ← index target "device_id"
  key_of device

-- `int(envelope.get("sequence_number", 0))`
unfoldable pub sequence_of : Value → Result Fault ℤ
sequence_of envelope = do raw ← get_or envelope "sequence_number" (number (pos 0)); to_int raw

-- Where a command is accepted as new on some guard, its mark has returned, and further calls of
-- `mark_executing`, `mark_terminal` and `install_policy` have followed, a command that is then accepted
-- as new for the same device has a higher sequence. `reset_for_new_claim` and a restart are not among
-- these calls.
pub sequences_increase :
    (p : Platform) (now : ℤ) (m m' : Moment) (origin g h : Guard) (envelope later : Value)
    {control control' : Value}
    → validate p origin m envelope ≡ ok (control, none)
    → (mark_executing p now envelope g).0 ≡ ok tt
    → Reach p (mark_executing p now envelope g).1 h
    → validate p h m' later ≡ ok (control', none)
    → device_key later ≡ device_key envelope
    → (n : ℤ) × (n' : ℤ) × (sequence_of envelope ≡ ok n) × (sequence_of later ≡ ok n') × (n <ℤ n')
unfolding device_key sequence_of
sequences_increase p now m m' origin g h envelope later accepted returned r repeated same =
    let f : Fresh origin.journal envelope = validate-Fresh p origin m envelope accepted in
    let f' : Fresh h.journal later = validate-Fresh p h m' later repeated in
    let (_, reached) = mark_executing_records p now g envelope f returned in
    let up = (Reach-Grows r).higher f.key in
    let keyed : device_key envelope ≡ ok f.key = rw (f.aimed, f.located) f.keyed in
    let keyed' : device_key later ≡ ok f'.key = rw (f'.aimed, f'.located) f'.keyed in
    let one : f'.key ≡ f.key = cc (keyed, keyed', same) in
    let above : max_sequence f.key h.journal <ℤ f'.sequence = rw one at f'.above in
    (
      f.sequence,
      f'.sequence,
      rw f.given f.counted,
      rw f'.given f'.counted,
      omega (arith, reached, up, above),
    )

check_journal-eq-some :
    (j : Journal) (envelope device control : Value) {e : Entry}
    → check_journal j envelope device control ≡ ok (some e)
    → (id : String) × (get envelope "command_id" ≡ ok (str id))
      × (get_command id j ≡ some e)
      × (str_eq e.state "terminal" ≡ true)
unfolding check_journal check_existing text_key
check_journal-eq-some j envelope device control h = (
  name_of (value_or (get envelope "command_id") null),
  (ground arith),
  (ground arith),
  (ground arith),
)

-- An outcome that `validate` hands back is the one that the journal holds for the command, and is
-- terminal.
pub validate_replay :
    (p : Platform) (g : Guard) (m : Moment) (envelope : Value) {control : Value} {e : Entry}
    → validate p g m envelope ≡ ok (control, some e)
    → (id : String) × (get envelope "command_id" ≡ ok (str id))
      × (get_command id g.journal ≡ some e)
      × (str_eq e.state "terminal" ≡ true)
validate_replay p g m envelope {control} {e} h =
    let t : Passed p g m envelope control (some e) =
      validate-Passed p g m envelope control (some e) h in
    check_journal-eq-some g.journal envelope t.device control t.journalled

not_terminal :
    (now : ℤ) (device raw : Value) (e : Entry)
    → e ≡ executing_entry now device raw
    → str_eq e.state "terminal" ≡ true
    → ⊥
unfolding executing_entry
not_terminal now device raw e same h = cc (ap (λ (x : Entry). str_eq x.state "terminal") same)

-- Between its start and its end a command is refused altogether: right after a `mark_executing` that
-- has returned for a command that was accepted, no envelope with its id is accepted, as new or as a
-- replay.
pub executing_refused :
    (p : Platform) (now : ℤ) (m m' : Moment) (g : Guard) (envelope again : Value) {control : Value}
    {r : Value × Option Entry}
    → validate p g m envelope ≡ ok (control, none)
    → (mark_executing p now envelope g).0 ≡ ok tt
    → get again "command_id" ≡ get envelope "command_id"
    → validate p (mark_executing p now envelope g).1 m' again ≢ ok r
executing_refused p now m m' g envelope again {r = (c, none)} accepted returned same repeated =
    executed_once p now m' g (mark_executing p now envelope g).1 envelope again returned here same
      repeated
executing_refused p now m m' g envelope again {r = (c, some e)} accepted returned same repeated =
    let f : Fresh g.journal envelope = validate-Fresh p g m envelope accepted in
    let (recorded, _) = mark_executing_records p now g envelope f returned in
    let (id, named, found, is_terminal) =
      validate_replay p (mark_executing p now envelope g).1 m' again repeated in
    let one : str f.id ≡ str id = cc (f.named, named, same) in
    not_terminal now f.device f.raw e (cc (found, recorded, one)) is_terminal
