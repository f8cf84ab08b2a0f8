-- ===== src/ClockHealth.antt =====
-- `SystemClockHealth` of novena_gateway/gateway/clock_health.py: whether signed operations may trust the
-- clock. Times are those of `monotonic`, in a unit that the model leaves open; `normalise` is
-- `(s or "").strip().lower()`.
pub mod Confirmed
use novena_gateway.Common.{
  ℕ, zero, ◌+◌, String, Bool, true, false, ◌&&◌, Option, none, some, List, [], ◌∷◌, ltb, str_eq,
  if◌then◌else◌,
}
use novena_gateway.Common.Int.{ℤ, pos, eq_ℤ}

-- What `timedatectl` did: an exception that `synchronized` catches, another exception, or a return code
-- with the output.
pub data Reading : Type 0 where
  failed uncaught : Reading
  result : ℤ → Option String → Reading

pub record ClockHealth : Type 0 where
  pub cache_seconds : ℕ
  pub checked_at : ℕ
  pub is_synchronized : Bool

unfoldable pub new : ℕ → ClockHealth
new cache_seconds = record {
  cache_seconds = cache_seconds;
  checked_at = 0;
  is_synchronized = false;
}

-- `self._checked_at and now - self._checked_at < self._cache_seconds`
abbrev pub is_cached : ℕ → ClockHealth → Bool
is_cached now c = ltb 0 c.checked_at && ltb now (c.cache_seconds + c.checked_at)

module _ (normalise : Option String → String) where
  unfoldable pub is_confirmed : Reading → Bool
  is_confirmed failed = false
  is_confirmed uncaught = false
  is_confirmed (result returncode stdout) =
      eq_ℤ returncode (pos 0) && str_eq (normalise stdout) "yes"

  -- What a reading leaves: an exception that is not caught passes after the time is set, and before the
  -- answer is.
  unfoldable pub checked : ℕ → Reading → ClockHealth → Option Bool × ClockHealth
  unfolding is_confirmed
  checked now uncaught c = (none, record c { checked_at = now })
  checked now failed c = (some false, record c { checked_at = now; is_synchronized = false })
  checked now (result returncode stdout) c =
      let answer = is_confirmed (result returncode stdout) in
      (some answer, record c { checked_at = now; is_synchronized = answer })

  -- `synchronized`, at a time at which a run of `timedatectl` would give the reading: none where it raises.
  unfoldable pub synchronized : ℕ → Reading → ClockHealth → Option Bool × ClockHealth
  unfolding checked
  synchronized now r c = if is_cached now c then (some c.is_synchronized, c) else checked now r c

  -- The calls so far, the last one first.
  unfoldable pub called : ℕ → List (ℕ × Reading) → ClockHealth
  unfolding new synchronized
  called cache_seconds [] = new cache_seconds
  called cache_seconds ((now, r) ∷ calls) =
      let before = called cache_seconds calls in (synchronized now r before).1
