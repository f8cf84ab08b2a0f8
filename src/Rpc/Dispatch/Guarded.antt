-- ===== src/Rpc/Dispatch/Guarded.antt =====
-- Which requests reach a command: those that the guard accepted as new, and only once they are marked.
use mathlib.Core.Path.{subst}
use novena_gateway.Common.{
  String, ◌≡◌, refl, Bool, true, false, not, Option, none, some, arith, Result, ok, err,
  bind_passed, >>-eq-ok, ◌∙◌, ap,
}
use novena_gateway.Json.{Value, str, obj, end, get, get_or, is_dict, eq_value}
use novena_gateway.Governed.Journal.{Entry}
use novena_gateway.Governed.Guard.{Platform, Guard, Moment, Error, mark_executing, mark_terminal}
use novena_gateway.Governed.Guard as Governed
use novena_gateway.Governed.Validate.{validate, str_of}
use novena_gateway.Rpc.Dispatch.{
  Accepted, Stop, changes_state, govern, govern_command, govern_diagnostic, request_id_of,
  method_of, lift, drop_if, reject_if, unless_replayed, governed, check_command, on_rpc_request,
}

unless_replayed-eq-ok :
    (request_id method : String) (found : Value × Option Entry) {c : Option Value}
    → unless_replayed request_id method found ≡ ok c
    → (control : Value) × (c ≡ some control) × (found ≡ (control, none))
unfolding unless_replayed
unless_replayed-eq-ok request_id method (control, none) h = (control, ground arith, refl)
unless_replayed-eq-ok request_id method (control, some e) h = cc

ok_injective : {a b : Accepted} → ◌≡◌ {A = Result Stop Accepted} (ok a) (ok b) → a ≡ b
ok_injective h = cc

module _ (p : Platform) (describe : Error → String) where
  governed-eq-ok :
      (request_id method : String) (r : Result Error (Value × Option Entry))
      {x : Value × Option Entry}
      → governed p describe request_id method r ≡ ok x
      → r ≡ ok x
  governed-eq-ok request_id method (ok a) h = ground arith
  governed-eq-ok request_id method (err (Governed.rejected e)) h = cc
  governed-eq-ok request_id method (err (Governed.fault f)) h = cc

  enabled-check_command :
      (enabled : Bool) (serial request_id method : String) (params payload : Value)
      → check_command p describe enabled serial request_id method params payload ≡ ok tt
      → enabled ≡ true
  unfolding check_command
  enabled-check_command true serial request_id method params payload h = refl
  enabled-check_command false serial request_id method params payload h = cc

  govern_command-eq-ok :
      (enabled : Bool) (g : Guard) (m : Moment) (request_id method : String)
      (params payload : Value) {c : Option Value}
      → govern_command p describe enabled g m request_id method params payload ≡ ok c
      → (enabled ≡ true)
        × (control : Value) × (c ≡ some control)
        × (validate p g m payload ≡ ok (control, none))
  unfolding govern_command
  govern_command-eq-ok enabled g m request_id method params payload {c} h =
      let (checked, to_validate) =
        >>-eq-ok (check_command p describe enabled g.serial_number request_id method params payload)
          _ h in
      let (found, accepted, new) =
        bind_passed (governed p describe request_id method (validate p g m payload)) _ c
          to_validate in
      let (control, given, same) = unless_replayed-eq-ok request_id method found new in
      (
        enabled-check_command enabled g.serial_number request_id method params payload checked,
        control,
        given,
        governed-eq-ok request_id method (validate p g m payload) accepted ∙ ap ok same,
      )

  -- The branch of an accepted request, with what it hands on.
  accepted-govern :
      (enabled : Bool) (g : Guard) (m : Moment) (mode payload : Value) (a : Accepted)
      → on_rpc_request p describe enabled g m mode payload ≡ ok a
      → (request_id : String) × (params : Value) × (govern p describe enabled g m request_id
            a.method params payload
          ≡ ok a.control)
  unfolding on_rpc_request
  accepted-govern enabled g m mode payload a h =
      let (_, h1) = >>-eq-ok (drop_if (eq_value mode (str "release_pending"))) _ h in
      let (_, h2) = >>-eq-ok (drop_if (not (is_dict payload))) _ h1 in
      let (raw_id, _, h3) = bind_passed (lift (get payload "request_id")) _ a h2 in
      let (raw_method, _, h4) = bind_passed (lift (get_or payload "method" (str ""))) _ a h3 in
      let (params, _, h5) = bind_passed (lift (get_or payload "params" (obj end))) _ a h4 in
      let (request_id, _, h6) = bind_passed (request_id_of raw_id) _ a h5 in
      let (method, _, h7) = bind_passed (method_of (str_of p) request_id raw_method) _ a h6 in
      let (_, h8) = >>-eq-ok (reject_if (not (is_dict params)) _) _ h7 in
      let (_, h9) = >>-eq-ok (govern_diagnostic p describe g m request_id method payload) _ h8 in
      let (control, passed, made) =
        bind_passed (govern p describe enabled g m request_id method params payload) _ a h9 in
      let same : record {
        request_id = request_id;
        method = method;
        params = params;
        control = control;
      }
          ≡ a =
        ok_injective made in
      (
        request_id,
        params,
        subst
            (λ (b : Accepted).
              govern p describe enabled g m request_id b.method params payload ≡ ok b.control)
            same passed,
      )

  -- A request for a command that changes state is accepted for execution only where local write-back is
  -- enabled and the guard accepts the request as new, with the control that the execution is given.
  pub accepted_is_validated :
      (enabled : Bool) (g : Guard) (m : Moment) (mode payload : Value) (a : Accepted)
      → on_rpc_request p describe enabled g m mode payload ≡ ok a
      → changes_state a.method ≡ true
      → (enabled ≡ true)
        × (control : Value) × (a.control ≡ some control)
        × (validate p g m payload ≡ ok (control, none))
  accepted_is_validated enabled g m mode payload a h change =
      let (request_id, params, passed) = accepted-govern enabled g m mode payload a h in
      govern_command-eq-ok enabled g m request_id a.method params payload
        (unfold govern in rw change at passed)
