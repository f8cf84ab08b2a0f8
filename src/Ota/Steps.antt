-- ===== src/Ota/Steps.antt =====
-- The effects of `_cmd_update_firmware` of novena_gateway/gateway/rpc_handler.py in their order, and a
-- chain of steps that an error ends.
use novena_gateway.Common.{
  ◌≡◌, refl, String, Bool, true, false, ◌||◌, Option, List, [], ◌∷◌, ◌++◌, any, arith, Result, ok,
  err,
}
use novena_gateway.Json.{Value, Fault}
use novena_gateway.Ota.{Bytes, OtaError}
use novena_gateway.Ota.Archive.{FilePath, ArchiveError}

-- One reason for each way in which the command ends without an answer.
pub data UpdateError : Type 0 where
  insecure_bypass missing_manifest : UpdateError
  rejected : OtaError → UpdateError
  unresolved : ArchiveError → UpdateError
  download_failed size_mismatch checksum_mismatch : UpdateError
  unsafe_archive : ArchiveError → UpdateError
  unreadable_archive name_error : UpdateError
  helper_failed : String → UpdateError
  fault : Fault → UpdateError

-- A status for the broker with its version and reason, a file that is written or removed, the manifest
-- that is written with its version and digest, and the helper's `run-upgrade`.
pub data Event : Type 0 where
  status : String → Option String → Option UpdateError → Event
  staged : FilePath → Bytes → Event
  removed : FilePath → Event
  saved : FilePath → Value → String → String → Event
  launched : FilePath → String → FilePath → Event

abbrev pub Steps {ℓ} : Type ℓ → Type ℓ
Steps A = List Event × Result UpdateError A

abbrev pub after {ℓ κ} :
    {A : Type ℓ} {B : Type κ}
    → List Event
    → Result UpdateError A
    → (A → List Event × Result UpdateError B)
    → List Event × Result UpdateError B
after es (err e) next = (es, err e)
after es (ok a) next = (es ++ (next a).0, (next a).1)

infixl 5 ◌>>=◌ ◌>>◌
abbrev pub ◌>>=◌ {ℓ κ} : {A : Type ℓ} {B : Type κ} → Steps A → (A → Steps B) → Steps B
m >>= next = after m.0 m.1 next

abbrev pub ◌>>◌ {κ} : {B : Type κ} → Steps (Unit {0}) → Steps B → Steps B
m >> next = after m.0 m.1 (λ u. next)

abbrev pub emit : Event → Steps (Unit {0})
emit e = (e ∷ [], ok tt)

abbrev pub is_launched : Event → Bool
is_launched (launched p v m) = true
is_launched _ = false

any-append {ℓ} :
    {A : Type ℓ} (p : A → Bool) (xs ys : List A) → any p (xs ++ ys) ≡ (any p xs || any p ys)
any-append p [] ys = refl
any-append p (x ∷ xs) ys = ground (arith, any-append p xs ys)

-- A launch after a step that launches nothing comes from what follows, and the step has returned.
pub launched_after {ℓ κ} :
    {A : Type ℓ} {B : Type κ} (es : List Event) (r : Result UpdateError A) (next : A → Steps B)
    → any is_launched es ≡ false
    → any is_launched (after es r next).0 ≡ true
    → (a : A) × (r ≡ ok a) × (any is_launched (next a).0 ≡ true)
launched_after es (err e) next quiet h = cc
launched_after es (ok a) next quiet h =
    (a, refl, ground (arith, any-append is_launched es (next a).0, quiet, h))
