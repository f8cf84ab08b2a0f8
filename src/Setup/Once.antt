-- ===== src/Setup/Once.antt =====
-- The revisions of the configuration updates that a gateway applies only grow.
use novena_gateway.Common.{
  ℕ, ◌≤◌, String, ◌≡◌, Option, none, some, arith, string_eq, ok, value_or, length, length-take,
  take, ltb, if◌then◌else◌,
}
use novena_gateway.Common.Int.{ℤ, pos, ◌<ℤ◌, ◌≤ℤ◌}
use novena_gateway.Common.Dict.{Dict, insert}
use novena_gateway.Json.{Value, null, index, to_int}
use novena_gateway.Governed.Guard.{Platform, Moment}
use novena_gateway.Governed.Validate.{signed_body, str_of}
use novena_gateway.Setup.{
  EnvelopeGuard, Replay, ReplayJournal, check_revision, known_or_new, record_request, record_result,
  prune, by_revision, request_limit, replay_of, verify,
}

-- The revision of a body, as an integer.
abbrev pub HasRevision : Value → ℤ → Type 0
HasRevision body n = (raw : Value) × (index body "revision" ≡ ok raw) × (to_int raw ≡ ok n)

known_or_new-eq-none :
    (j : ReplayJournal) (body : Value) (o : Option Replay) {b : Value}
    → known_or_new j body o ≡ ok (b, none)
    → (b ≡ body) × (n : ℤ) × HasRevision body n × (j.max_revision <ℤ n)
unfolding known_or_new check_revision
known_or_new-eq-none j body (some r) h = cc
known_or_new-eq-none j body none h =
    let raw : Value = value_or (index body "revision") null in
    (
      (ground arith),
      value_or (to_int raw) (pos 0),
      (raw, ground arith, ground arith),
      (ground arith),
    )

pub verify_new :
    (p : Platform) (g : EnvelopeGuard) (m : Moment) (wire : Value) {body : Value}
    → verify p g m wire ≡ ok (body, none)
    → (body ≡ signed_body wire) × (n : ℤ) × HasRevision body n × (g.journal.max_revision <ℤ n)
verify_new p g m wire {body} h =
    let key : Value = value_or (index (signed_body wire) "idempotency_key") null in
    let (same, n, (raw, given, counted), above) =
      known_or_new-eq-none g.journal (signed_body wire) (replay_of (str_of p key) g.journal)
        {b = body} (unfold verify in ground arith) in
    (same, n, (raw, rw same given, counted), above)

-- The journal between two updates: results are recorded, of whatever envelope.
pub data Records (p : Platform) (g : EnvelopeGuard) : EnvelopeGuard → Type 0 where
  here : Records p g g
  next :
      {h k : EnvelopeGuard} (body result : Value)
      → Records p g h
      → record_result p body result h ≡ ok k
      → Records p g k

record_result_mono :
    (p : Platform) (body result : Value) (g : EnvelopeGuard) {h : EnvelopeGuard}
    → record_result p body result g ≡ ok h
    → g.journal.max_revision ≤ℤ h.journal.max_revision
unfolding record_result record_request
record_result_mono p body result g e = ground arith

Records_mono :
    {p : Platform} {g h : EnvelopeGuard}
    → Records p g h
    → g.journal.max_revision ≤ℤ h.journal.max_revision
Records_mono here = omega arith
Records_mono {p} (next {h} body result r e) =
    omega (arith, Records_mono r, record_result_mono p body result h e)

record_result_reached :
    (p : Platform) (body result : Value) (g : EnvelopeGuard) {h : EnvelopeGuard} (n : ℤ)
    → HasRevision body n
    → record_result p body result g ≡ ok h
    → n ≤ℤ h.journal.max_revision
unfolding record_result record_request
record_result_reached p body result g n (raw, given, counted) e = ground arith

revision_unique : (body : Value) (m n : ℤ) → HasRevision body m → HasRevision body n → m ≡ n
revision_unique body m n (a, e, c) (b, f, d) = cc (e, f, c, d)

-- Where the result of an accepted update was recorded, an update that is accepted as new at any later
-- time, until the journal is
-- reset, has a higher revision.
pub revisions_increase :
    (p : Platform) (m m' : Moment) (g g' h : EnvelopeGuard) (wire later body body' result : Value)
    (n n' : ℤ)
    → verify p g m wire ≡ ok (body, none)
    → HasRevision body n
    → record_result p body result g ≡ ok g'
    → Records p g' h
    → verify p h m' later ≡ ok (body', none)
    → HasRevision body' n'
    → n <ℤ n'
revisions_increase p m m' g g' h wire later body body' result n n' accepted revision recorded r
      again revision' =
    let (_, k, has, above) = verify_new p h m' later again in
    let same : k ≡ n' = revision_unique body' k n' has revision' in
    let above' : h.journal.max_revision <ℤ n' = rw same at above in
    omega (arith, record_result_reached p body result g n revision recorded, Records_mono r, above')

cut_bounded :
    (n : ℕ) (d : Dict String Replay)
    → length (if ltb n (length d) then take n (by_revision d) else d) ≤ n
cut_bounded n d = ground (arith, length-take n (by_revision d))

prune_bounded : (d : Dict String Replay) → length (prune d) ≤ request_limit
unfolding prune
prune_bounded d = cut_bounded request_limit d

-- Whatever it held, the journal holds at most 500 requests after a result is recorded.
pub requests_bounded :
    (key : String) (revision : ℤ) (result : Value) (j : ReplayJournal)
    → length (record_request key revision result j).requests ≤ request_limit
unfolding record_request
requests_bounded key revision result j =
    prune_bounded (insert key (record { revision = revision; result = result }) j.requests)
