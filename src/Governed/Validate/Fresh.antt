-- ===== src/Governed/Validate/Fresh.antt =====
-- What `validate` and `mark_executing` do to a command that the journal has not seen.
use novena_gateway.Common.{
  String, ◌≡◌, refl, ◌∙◌, Bool-cases, inl, inr, true, none, some, arith, string_eq, ok, err, Result,
  is_some, value_or, eq_iff,
}
use novena_gateway.Common.Int.{ℤ, pos, ◌<ℤ◌, ◌≤ℤ◌}
use novena_gateway.Json.{
  Value, null, str, number, Fault, truthy, get, get_or, get_field, index, or_dict, to_int, eq_value,
}
use novena_gateway.Governed.Journal.{
  Entry, Journal, Key, key_of, key_eq, slot, get_command, max_sequence,
}
use novena_gateway.Governed.Journal.Laws.{get_command-write, sequence_reached}
use novena_gateway.Governed.Guard.{
  Platform, Guard, Moment, text_key, executing_entry, executing, mark, mark_executing,
}
use novena_gateway.Governed.Validate.{
  validate, check_target, find_control, check_journal, check_existing, check_sequence,
}
use novena_gateway.Governed.Validate.Sound.{Passed, validate-Passed}

index-get :
    (v : Value) (k : String) (w : Value) → get v k ≡ ok w → truthy w ≡ true → index v k ≡ ok w
unfolding get_or index
index-get v k w h t = ground arith

-- The command's id, device and sequence, as the journal will record them.
pub record Fresh (j : Journal) (envelope : Value) : Type 0 where
  pub id : String
  pub target : Value
  pub device : Value
  pub key : Key
  pub raw : Value
  pub sequence : ℤ
  pub named : get envelope "command_id" ≡ ok (str id)
  pub aimed : index envelope "target" ≡ ok target
  pub located : index target "device_id" ≡ ok device
  pub has_device : truthy device ≡ true
  pub keyed : key_of device ≡ ok key
  pub given : get_or envelope "sequence_number" (number (pos 0)) ≡ ok raw
  pub counted : to_int raw ≡ ok sequence
  pub unseen : get_command id j ≡ none
  pub above : max_sequence key j <ℤ sequence

abbrev pub name_of : Value → String
name_of (str s) = s
name_of _ = ""

check_journal-eq-none :
    (j : Journal) (envelope device control : Value)
    → check_journal j envelope device control ≡ ok none
    → (id : String) × (key : Key) × (raw : Value) × (sequence : ℤ) × (get envelope "command_id"
        ≡ ok (str id))
      × (key_of device ≡ ok key)
      × (get_or envelope "sequence_number" (number (pos 0)) ≡ ok raw)
      × (to_int raw ≡ ok sequence)
      × (get_command id j ≡ none)
      × (max_sequence key j <ℤ sequence)
unfolding check_journal check_existing check_sequence text_key
check_journal-eq-none j envelope device control h =
    let raw : Value = value_or (get_or envelope "sequence_number" (number (pos 0))) null in
    (
      name_of (value_or (get envelope "command_id") null),
      value_or (key_of device) Key.absent,
      raw,
      value_or (to_int raw) (pos 0),
      (ground arith),
      (ground arith),
      (ground arith),
      (ground arith),
      (ground arith),
      (ground arith),
    )

check_target-eq-ok :
    (g : Guard) (envelope : Value) {t : Value}
    → check_target g envelope ≡ ok t
    → index envelope "target" ≡ ok t
unfolding check_target
check_target-eq-ok g envelope {t} h =
    let raw : Value = value_or (get envelope "target") null in
    let known : get envelope "target" ≡ ok raw = ground arith in
    elim (Bool-cases (truthy raw)) [
      | inl there ↦ index-get envelope "target" raw known there ∙ ground arith
      | inr missing ↦ unfold get_or get_field eq_value in ground arith
    ]

find_control-eq-ok :
    (p : Platform) (g : Guard) (target params : Value) {device control : Value}
    → find_control p g target params ≡ ok (device, control)
    → (get target "device_id" ≡ ok device) × (truthy device ≡ true)
unfolding find_control
find_control-eq-ok p g target params h = ground arith

-- A fresh acceptance: the journal holds nothing of the command, and its sequence is above every one
-- recorded for its device.
pub validate-Fresh :
    (p : Platform) (g : Guard) (m : Moment) (envelope : Value) {control : Value}
    → validate p g m envelope ≡ ok (control, none)
    → Fresh g.journal envelope
validate-Fresh p g m envelope {control} h =
    let t : Passed p g m envelope control none = validate-Passed p g m envelope control none h in
    let (id, key, raw, sequence, named, keyed, given, counted, unseen, above) =
      check_journal-eq-none g.journal envelope t.device control t.journalled in
    let (found, there) = find_control-eq-ok p g t.target (or_dict t.raw) t.found in
    record {
      id = id;
      target = t.target;
      device = t.device;
      key = key;
      raw = raw;
      sequence = sequence;
      named = named;
      aimed = check_target-eq-ok g envelope t.targeted;
      located = index-get t.target "device_id" t.device found there;
      has_device = there;
      keyed = keyed;
      given = given;
      counted = counted;
      unseen = unseen;
      above = above;
    }

index-sequence :
    (envelope raw r : Value)
    → get_or envelope "sequence_number" (number (pos 0)) ≡ ok raw
    → index envelope "sequence_number" ≡ ok r
    → index envelope "sequence_number" ≡ ok raw
unfolding get_or index
index-sequence envelope raw r h e = ground arith

index-name :
    (envelope : Value) (s : String)
    → get envelope "command_id" ≡ ok (str s)
    → index envelope "command_id" ≡ ok (str s)
unfolding get_or index
index-name envelope s h = ground arith

mark-eq-ok :
    (p : Platform) (now : ℤ) (e : Result Fault (String × Entry)) (g : Guard)
    → (mark p now e g).0 ≡ ok tt
    → (x : String × Entry) × (e ≡ ok x)
mark-eq-ok p now (err f) g h = cc
mark-eq-ok p now (ok x) g h = (x, refl)

executing-indexed :
    (now : ℤ) (envelope : Value) {x : String × Entry}
    → executing now envelope ≡ ok x
    → (r : Value) × (index envelope "sequence_number" ≡ ok r)
executing-indexed now envelope h = (value_or (index envelope "sequence_number") null, ground arith)

named_by :
    (now : ℤ) (envelope : Value) {id : String} {entry : Entry}
    → executing now envelope ≡ ok (id, entry)
    → get envelope "command_id" ≡ ok (str id)
unfolding text_key index get_or
named_by now envelope h = ground arith

-- A mark that has returned was of a command whose id is a text, which the journal then knows.
pub marked_known :
    (p : Platform) (now : ℤ) (g : Guard) (envelope : Value)
    → (mark_executing p now envelope g).0 ≡ ok tt
    → (id : String) × (get envelope "command_id" ≡ ok (str id))
      × (is_some (get_command id (mark_executing p now envelope g).1.journal) ≡ true)
unfolding mark_executing
marked_known p now g envelope h =
    let ((id, entry), built) = mark-eq-ok p now (executing now envelope) g h in
    (
      id,
      named_by now envelope built,
      rw built (ground (arith, get_command-write p.dump now id entry id g.journal, eq_iff id id)),
    )

-- Where `mark_executing` returns for a command that was fresh to some journal, it leaves the command in
-- its own journal as executing, and raises its device's sequence to the command's.
pub mark_executing_records :
    (p : Platform) (now : ℤ) (g : Guard) (envelope : Value) {j : Journal} (f : Fresh j envelope)
    → (mark_executing p now envelope g).0 ≡ ok tt
    → let g' = (mark_executing p now envelope g).1 in
      (get_command f.id g'.journal ≡ some (executing_entry now f.device f.raw))
      × (f.sequence ≤ℤ max_sequence f.key g'.journal)
mark_executing_records p now g envelope f returned =
    let entry : Entry = executing_entry now f.device f.raw in
    let (x, started) =
      mark-eq-ok p now (executing now envelope) g (unfold mark_executing in returned) in
    let (r, there) = executing-indexed now envelope started in
    let built : executing now envelope ≡ ok (f.id, entry) =
      rw
        (
          f.aimed,
          index-name envelope f.id f.named,
          f.located,
          index-sequence envelope f.raw r f.given there,
        )
        (unfold text_key in refl) in
    let slotted : slot entry ≡ ok (f.sequence, some f.key) =
      unfold slot executing_entry in ground (arith, f.counted, f.has_device, f.keyed) in
    unfold mark_executing in
    rw built (
      (get_command-write p.dump now f.id entry f.id g.journal ∙ ground (arith, eq_iff f.id f.id)),
      sequence_reached p.dump now f.id entry f.key f.sequence g.journal slotted,
    )
