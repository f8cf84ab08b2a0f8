-- ===== src/Rpc/Dispatch/Once.antt =====
-- How often a command runs: once where a request is received after the execution before it has ended,
-- and as often as it was received where the requests come before the executions.
use novena_gateway.Common.{
  String, ◌≡◌, ◌≢◌, refl, sym, ap, ◌∙◌, Bool, true, false, List, [], ◌∷◌, ◌++◌, Result, ok, err,
  Bool-cases, inl, inr,
}
use mathlib.Core.List.{append-nil}
use novena_gateway.Common.Int.{ℤ}
use novena_gateway.Json.{Value, get, Fault}
use novena_gateway.Governed.Guard.{Platform, Guard, Moment, Error, mark_executing, mark_terminal}
use novena_gateway.Governed.Validate.Once.{Reach, here, next, ended, executed_once}
use novena_gateway.Rpc.Dispatch.{Response, Accepted, changes_state, on_rpc_request}
use novena_gateway.Rpc.Dispatch.Guarded.{accepted_is_validated}
use novena_gateway.Rpc.Dispatch.Execute.{
  of_guard, of_value, Event, sent, called, read_back, Raised, Done, Commands, run_command, settle,
  fail, conclude, conclude_at, unless_raised, or_fail, start_governed, run_and_settle, start_marked,
  execute, stage_of,
}

-- The commands among the events.
abbrev pub calls_of : List Event → List (String × Value)
calls_of [] = []
calls_of (sent r ∷ es) = calls_of es
calls_of (read_back v ∷ es) = calls_of es
calls_of (called method params ∷ es) = (method, params) ∷ calls_of es

calls-append : (xs ys : List Event) → calls_of (xs ++ ys) ≡ calls_of xs ++ calls_of ys
calls-append [] ys = refl
calls-append (sent r ∷ xs) ys = calls-append xs ys
calls-append (read_back v ∷ xs) ys = calls-append xs ys
calls-append (called m v ∷ xs) ys = ap (λ l. (m, v) ∷ l) (calls-append xs ys)

module _ (p : Platform) (c : Commands) (now : ℤ) (payload : Value) (a : Accepted) where
  -- What follows a command calls no other, and only marks ends.
  abbrev Quiet : Guard → List Event × Guard → Type 0
  Quiet g r = (calls_of r.0 ≡ []) × Reach p g r.1

  unless_raised-Quiet :
      (x : Response) (g : Guard) (r : Result Error (Unit {0}) × Guard)
      → Reach p g r.1
      → Quiet g (unless_raised p c now payload a (sent x) r)
  unfolding unless_raised
  unless_raised-Quiet x g (ok u, h) reach = (refl, reach)
  unless_raised-Quiet x g (err f, h) reach = (refl, reach)

  fail-Quiet : (e : Raised) (g h : Guard) → Reach p g h → Quiet g (fail p c now payload a e h)
  unfolding fail
  fail-Quiet e g h reach = elim (Bool-cases (changes_state a.method)) [
    | inl change ↦ rw change (
        unless_raised-Quiet _ g (mark_terminal p now payload _ h)
          (next reach (ended now payload _ h)))
    | inr quiet ↦ rw quiet (refl, reach)
  ]

  or_fail-Quiet :
      (x : Response) (g : Guard) (r : Result Error (Unit {0}) × Guard)
      → Reach p g r.1
      → Quiet g (or_fail p c now payload a (sent x) r)
  unfolding or_fail
  or_fail-Quiet x g (ok u, h) reach = (refl, reach)
  or_fail-Quiet x g (err f, h) reach = fail-Quiet (of_guard f) g h reach

  conclude-Quiet :
      (stage : String) (d : Done) (g h : Guard)
      → Reach p g h
      → Quiet g (conclude p c now payload a stage d h)
  unfolding conclude
  conclude-Quiet stage d g h reach = elim (Bool-cases (changes_state a.method)) [
    | inl change ↦
        rw change
          (or_fail-Quiet _ g (mark_terminal p now payload _ h) (next reach (ended now payload _ h)))
    | inr quiet ↦ rw quiet (refl, reach)
  ]

  conclude_at-Quiet :
      (d : Done) (r : Result Fault String) (g h : Guard)
      → Reach p g h
      → Quiet g (conclude_at p c now payload a d r h)
  unfolding conclude_at
  conclude_at-Quiet d (err e) g h reach = fail-Quiet (of_value e) g h reach
  conclude_at-Quiet d (ok stage) g h reach = conclude-Quiet stage d g h reach

  settle-Quiet :
      (r : Result Raised Done) (g h : Guard) → Reach p g h → Quiet g (settle p c now payload a r h)
  unfolding settle
  settle-Quiet (err e) g h reach = fail-Quiet e g h reach
  settle-Quiet (ok d) g h reach = conclude_at-Quiet d (stage_of a.method d) g h reach

  -- The calls of a run are those of its command, whatever the guard holds.
  run_calls :
      (before : List Event) (g : Guard)
      → (calls_of (run_and_settle p c now payload a before g).0
          ≡ calls_of before ++ calls_of (run_command p c now payload a).1)
        × Reach p g (run_and_settle p c now payload a before g).1
  unfolding run_and_settle
  run_calls before g =
      let (r, events) = run_command p c now payload a in
      let (silent, reach) = settle-Quiet r g g here in
      (
        calls-append (before ++ events) (settle p c now payload a r g).0
            ∙ ap (λ l. calls_of (before ++ events) ++ l) silent
            ∙ append-nil (calls_of (before ++ events))
            ∙ calls-append before events,
        reach,
      )

  start_marked-Reach :
      (x : Result Error (Unit {0}) × Guard) → Reach p x.1 (start_marked p c now payload a x).1
  unfolding start_marked
  start_marked-Reach (err e, g) = (fail-Quiet (of_guard e) g g here).1
  start_marked-Reach (ok u, g) = (run_calls _ g).1

  start_marked_same :
      (x y : Result Error (Unit {0}) × Guard)
      → x.0 ≡ y.0
      → calls_of (start_marked p c now payload a x).0
        ≡ calls_of (start_marked p c now payload a y).0
  unfolding start_marked
  start_marked_same (err e, g) (err f, h) same =
      (fail-Quiet (of_guard e) g g here).0 ∙ sym (fail-Quiet (of_guard f) h h here).0
  start_marked_same (err e, g) (ok u, h) same = cc
  start_marked_same (ok u, g) (err e, h) same = cc
  start_marked_same (ok u, g) (ok v, h) same = (run_calls _ g).0 ∙ sym (run_calls _ h).0

  start_governed_same :
      (r : Result Error (Unit {0})) (g h : Guard)
      → (mark_executing p now payload g).0 ≡ (mark_executing p now payload h).0
      → calls_of (start_governed p c now payload a r g).0
        ≡ calls_of (start_governed p c now payload a r h).0
  unfolding start_governed
  start_governed_same (err e) g h same =
      (fail-Quiet (of_guard e) g g here).0 ∙ sym (fail-Quiet (of_guard e) h h here).0
  start_governed_same (ok u) g h same =
      start_marked_same (mark_executing p now payload g) (mark_executing p now payload h) same

  start_marked-returned :
      (x : Result Error (Unit {0}) × Guard)
      → calls_of (start_marked p c now payload a x).0 ≢ []
      → x.0 ≡ ok tt
  unfolding start_marked
  start_marked-returned (err e, g) called_one =
      absurd (called_one (fail-Quiet (of_guard e) g g here).0)
  start_marked-returned (ok u, g) called_one = refl

  start_governed-returned :
      (r : Result Error (Unit {0})) (g : Guard)
      → calls_of (start_governed p c now payload a r g).0 ≢ []
      → (mark_executing p now payload g).0 ≡ ok tt
  unfolding start_governed
  start_governed-returned (err e) g called_one =
      absurd (called_one (fail-Quiet (of_guard e) g g here).0)
  start_governed-returned (ok u) g called_one =
      start_marked-returned (mark_executing p now payload g) called_one

  -- A command that changes state runs only after its mark has returned.
  execute-returned :
      (g : Guard)
      → changes_state a.method ≡ true
      → calls_of (execute p c now payload a g).0 ≢ []
      → (mark_executing p now payload g).0 ≡ ok tt
  unfolding execute
  execute-returned g change called_one = start_governed-returned _ g (rw change at called_one)

  start_governed-Reach :
      (r : Result Error (Unit {0})) (g : Guard)
      → calls_of (start_governed p c now payload a r g).0 ≢ []
      → Reach p (mark_executing p now payload g).1 (start_governed p c now payload a r g).1
  unfolding start_governed
  start_governed-Reach (err e) g called_one =
      absurd (called_one (fail-Quiet (of_guard e) g g here).0)
  start_governed-Reach (ok u) g called_one = start_marked-Reach (mark_executing p now payload g)

  execute-Reach :
      (g : Guard)
      → changes_state a.method ≡ true
      → calls_of (execute p c now payload a g).0 ≢ []
      → Reach p (mark_executing p now payload g).1 (execute p c now payload a g).1
  unfolding execute
  execute-Reach g change called_one = rw change (start_governed-Reach _ g (rw change at called_one))

  -- The commands that an accepted request runs do not depend on the journal, nor on anything else that
  -- the guard holds, but for the outcome of the mark: two requests for one command that are both accepted
  -- before either is executed run the same commands, each of them, where their marks have one outcome.
  pub execute_ignores_journal :
      (g h : Guard)
      → (mark_executing p now payload g).0 ≡ (mark_executing p now payload h).0
      → calls_of (execute p c now payload a g).0 ≡ calls_of (execute p c now payload a h).0
  unfolding execute
  execute_ignores_journal g h same = elim (Bool-cases (changes_state a.method)) [
    | inl change ↦ rw change (start_governed_same _ g h same)
    | inr quiet ↦ rw quiet ((run_calls [] g).0 ∙ sym (run_calls [] h).0)
  ]

Reach-join : {p : Platform} {g h k : Guard} → Reach p g h → Reach p h k → Reach p g k
Reach-join r here = r
Reach-join r (next s t) = next (Reach-join r s) t

-- Where the execution of a request has run a command that changes state, on whatever guard, and further
-- calls of `mark_executing`, `mark_terminal` and `install_policy` have followed, a request with the same
-- command's id that is then accepted is for a command that changes no state. `reset_for_new_claim` and a
-- restart are not among these calls.
pub executed_not_accepted :
    (p : Platform) (describe : Error → String) (c : Commands) (now : ℤ) (enabled : Bool)
    (g h : Guard) (m : Moment) (mode payload again : Value) (a b : Accepted)
    → changes_state a.method ≡ true
    → calls_of (execute p c now payload a g).0 ≢ []
    → Reach p (execute p c now payload a g).1 h
    → get again "command_id" ≡ get payload "command_id"
    → on_rpc_request p describe enabled h m mode again ≡ ok b
    → changes_state b.method ≡ false
executed_not_accepted p describe c now enabled g h m mode payload again a b change called_one r same
      repeated =
    elim (Bool-cases (changes_state b.method)) [
      | inr quiet ↦ quiet
      | inl change' ↦
          let (_, _, _, validated) =
            accepted_is_validated p describe enabled h m mode again b repeated change' in
          absurd (
            executed_once p now m g h payload again
              (execute-returned p c now payload a g change called_one)
              (Reach-join (execute-Reach p c now payload a g change called_one) r) same validated)
    ]
