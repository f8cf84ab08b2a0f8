-- ===== src/ClockHealth/Confirmed.antt =====
-- What stands behind a clock that is trusted.
use novena_gateway.Common.{
  ℕ, ◌+◌, ◌<◌, String, ◌≡◌, ◌≢◌, refl, false, ◌∙◌, some, true, ◌⊎◌, inl, inr, Option, List, [], ◌∷◌,
  arith, Bool-cases,
}
use novena_gateway.ClockHealth.{
  Reading, failed, uncaught, result, ClockHealth, new, is_cached, is_confirmed, checked,
  synchronized, called,
}

-- A call among those made.
pub data Called (now : ℕ) (r : Reading) : List (ℕ × Reading) → Type 0 where
  last : {calls : List (ℕ × Reading)} → Called now r ((now, r) ∷ calls)
  earlier :
      {x : ℕ × Reading} {calls : List (ℕ × Reading)} → Called now r calls → Called now r (x ∷ calls)

module _ (normalise : Option String → String) where
  -- One of the calls found the clock confirmed, and its time is `at`.
  pub record ConfirmedAt (at : ℕ) (calls : List (ℕ × Reading)) : Type 0 where
    pub reading : Reading
    pub made : Called at reading calls
    pub confirmed : is_confirmed normalise reading ≡ true

  earlier_too :
      {at : ℕ} {calls : List (ℕ × Reading)} (x : ℕ × Reading)
      → ConfirmedAt at calls
      → ConfirmedAt at (x ∷ calls)
  earlier_too x c = record { reading = c.reading; made = earlier c.made; confirmed = c.confirmed }

  -- No call has met an exception that is not caught.
  abbrev pub AllCaught : List (ℕ × Reading) → Type 0
  AllCaught [] = Unit {0}
  AllCaught ((now, r) ∷ calls) = (r ≢ uncaught) × AllCaught calls

  cache_kept :
      (now : ℕ) (r : Reading) (c : ClockHealth)
      → (checked normalise now r c).1.cache_seconds ≡ c.cache_seconds
  unfolding checked
  cache_kept now uncaught c = refl
  cache_kept now failed c = refl
  cache_kept now (result code out) c = refl

  synchronized_cache :
      (now : ℕ) (r : Reading) (c : ClockHealth)
      → (synchronized normalise now r c).1.cache_seconds ≡ c.cache_seconds
  unfolding synchronized
  synchronized_cache now r c = elim (Bool-cases (is_cached now c)) [
    | inl cached ↦ rw cached refl
    | inr stale ↦ rw stale (cache_kept now r c)
  ]

  called-cache : (n : ℕ) (calls : List (ℕ × Reading)) → (called normalise n calls).cache_seconds ≡ n
  unfolding called new
  called-cache n [] = refl
  called-cache n ((now, r) ∷ calls) =
      synchronized_cache now r (called normalise n calls) ∙ called-cache n calls

  checked-ConfirmedAt :
      (now : ℕ) (r : Reading) (calls : List (ℕ × Reading)) (c : ClockHealth)
      → r ≢ uncaught
      → (checked normalise now r c).1.is_synchronized ≡ true
      → ((checked normalise now r c).1.checked_at ≡ now) × ConfirmedAt now ((now, r) ∷ calls)
  unfolding checked
  checked-ConfirmedAt now uncaught calls c caught h = absurd (caught refl)
  checked-ConfirmedAt now failed calls c caught h = cc
  checked-ConfirmedAt now (result code out) calls c caught h =
      (refl, record { reading = result code out; made = last; confirmed = h })

  answered-ConfirmedAt :
      (now : ℕ) (r : Reading) (calls : List (ℕ × Reading)) (c : ClockHealth)
      → (checked normalise now r c).0 ≡ some true
      → ConfirmedAt now ((now, r) ∷ calls)
  unfolding checked
  answered-ConfirmedAt now uncaught calls c h = cc
  answered-ConfirmedAt now failed calls c h = cc
  answered-ConfirmedAt now (result code out) calls c h = record {
    reading = result code out;
    made = last;
    confirmed = ground (arith, h);
  }

  step-ConfirmedAt :
      (c : ClockHealth) (now : ℕ) (r : Reading) (calls : List (ℕ × Reading))
      → r ≢ uncaught
      → (c.is_synchronized ≡ true → ConfirmedAt c.checked_at calls)
      → (synchronized normalise now r c).1.is_synchronized ≡ true
      → ConfirmedAt (synchronized normalise now r c).1.checked_at ((now, r) ∷ calls)
  unfolding synchronized
  step-ConfirmedAt c now r calls caught before h = elim (Bool-cases (is_cached now c)) [
    | inl cached ↦ rw cached (earlier_too (now, r) (before (ground (arith, cached, h))))
    | inr stale ↦
        let (at_now, found) = checked-ConfirmedAt now r calls c caught (rw stale at h) in
        rw (stale, at_now) found
  ]

  -- A state that says synchronized was last checked by a call that confirmed it.
  called-ConfirmedAt :
      (n : ℕ) (calls : List (ℕ × Reading))
      → AllCaught calls
      → (called normalise n calls).is_synchronized ≡ true
      → ConfirmedAt (called normalise n calls).checked_at calls
  unfolding called new
  called-ConfirmedAt n [] all h = cc
  called-ConfirmedAt n ((now, r) ∷ calls) (caught, all) h =
      step-ConfirmedAt (called normalise n calls) now r calls caught
        (called-ConfirmedAt n calls all) h

  -- Whatever calls came before, none of which met an exception that is not caught, the clock is trusted
  -- only where one of the calls has run timedatectl and found it synchronized, and that call is this one
  -- or is less than the time of the cache ago.
  pub synchronized-ConfirmedAt :
      (n now : ℕ) (r : Reading) (calls : List (ℕ × Reading))
      → AllCaught calls
      → (synchronized normalise now r (called normalise n calls)).0 ≡ some true
      → (at : ℕ) × ConfirmedAt at ((now, r) ∷ calls) × ((at ≡ now) ⊎ (now < n + at))
  unfolding synchronized
  synchronized-ConfirmedAt n now r calls all h =
      elim (Bool-cases (is_cached now (called normalise n calls))) [
        | inl cached ↦ (
          (called normalise n calls).checked_at,
          earlier_too (now, r) (called-ConfirmedAt n calls all (ground (arith, cached, h))),
          inr (ground (arith, cached, called-cache n calls)),
        )
        | inr stale ↦ (
          now,
          answered-ConfirmedAt now r calls (called normalise n calls) (rw stale at h),
          inl refl,
        )
      ]

  -- After an exception that is not caught, at a time later than 0, an earlier answer that the clock is
  -- synchronized stands for the time of the cache again, however long ago it was given.
  pub stale_trusted :
      (now later : ℕ) (r : Reading) (c : ClockHealth)
      → is_cached now c ≡ false
      → c.is_synchronized ≡ true
      → 0 < now
      → later < c.cache_seconds + now
      → (synchronized normalise later r (synchronized normalise now uncaught c).1).0 ≡ some true
  unfolding synchronized checked
  stale_trusted now later r c stale trusted positive soon = ground (arith, stale, trusted)
