-- ===== src/RemoteConfig/Refused.antt =====
-- A message that is not accepted as new changes nothing.
use novena_gateway.Common.{
  ℕ, ◌≡◌, refl, ◌⊎◌, inl, inr, Option, none, some, arith, Result, ok, err, Bool-cases,
}
use novena_gateway.Common.Int.{ℤ}
use novena_gateway.Json.{Value, str, eq_value}
use novena_gateway.Governed.Guard.{Platform, Moment}
use novena_gateway.Setup.{Replay, SetupError, verify}
use novena_gateway.RemoteConfig.{Site, Surroundings}
use novena_gateway.RemoteConfig.Update.{is_unsigned, request_of, handle_verified, on_config_update}

handle_verified_refused :
    (p : Platform) (w : Surroundings) (ts : ℕ) (now : ℤ) (request_id : Value) (s : Site)
    (r : Result SetupError (Value × Option Replay))
    → ((handle_verified p w ts now request_id r s).1 ≡ s) ⊎ ((body : Value) × (r ≡ ok (body, none)))
unfolding handle_verified
handle_verified_refused p w ts now request_id s (err e) = inl (ground arith)
handle_verified_refused p w ts now request_id s (ok (body, some r)) = inl refl
handle_verified_refused p w ts now request_id s (ok (body, none)) = inr (body, refl)

-- A message leaves the files, the gateway and the journal as they were, unless `verify` accepts it as new.
pub unverified_changes_nothing :
    (p : Platform) (w : Surroundings) (ts : ℕ) (now : ℤ) (m : Moment) (mode payload : Value)
    (s : Site)
    → ((on_config_update p w ts now m mode payload s).1 ≡ s)
      ⊎ ((body : Value) × (verify p s.guard m payload ≡ ok (body, none)))
unfolding on_config_update
unverified_changes_nothing p w ts now m mode payload s =
    elim (Bool-cases (eq_value mode (str "release_pending"))) [
      | inl pending ↦ rw pending (inl refl)
      | inr open_still ↦ elim (Bool-cases (is_unsigned payload)) [
        | inl unsigned ↦ rw (open_still, unsigned) (inl refl)
        | inr signed ↦
            rw (open_still, signed)
              (handle_verified_refused p w ts now (request_of payload) s
                (verify p s.guard m payload))
      ]
    ]
