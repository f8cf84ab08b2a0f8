-- ===== src/Report/Cache/Laws.antt =====
-- What the cache's operations leave under each key, and when its clean-up runs.
use novena_gateway.Common.{
  ℕ, ◌≤◌, ◌<◌, ◌≡◌, refl, Bool, Option, none, some, arith, if◌then◌else◌, Eq, Bool-cases, inl, inr,
}
use novena_gateway.Common.Dict.{lookup, lookup-insert, lookup-erase}
use novena_gateway.Json.{Value}
use novena_gateway.Report.Cache.{
  Cache, DataRecord, found, renewed, if_found, StrategyConfig, get, put, update_key_value,
  update_ts, update_last_report_time, cleanup, expired, expiry,
}

-- The record of an entry that has not expired.
abbrev pub alive : ℕ → Option (DataRecord × ℕ) → Option DataRecord
alive now none = none
alive now (some (r, expire_ts)) = if expired expire_ts now then none else some r

abbrev pub mapped : (DataRecord → DataRecord) → Option DataRecord → Option DataRecord
mapped f none = none
mapped f (some r) = some (f r)

-- A record as `put` makes it.
abbrev pub fresh : Value → StrategyConfig → Bool → DataRecord
fresh v s t = record {
  value = v;
  report_strategy = s;
  last_report_time = none;
  is_telemetry = t;
  ts = none;
}

module _ {K : Type 0} ⦃e : Eq K⦄ where
  -- What `get` would return.
  unfoldable pub live : K → Cache K → Option DataRecord
  live k c = alive c.current_ts (lookup k c.entries)

  pub get-live : (k : K) (c : Cache K) → (get k c).0 ≡ live k c
  unfolding get live
  get-live k c = ground arith

  -- Reading one key loses no live record, of this or of another key.
  pub live-get : (k j : K) (c : Cache K) → live j (get k c).1 ≡ live j c
  unfolding get live
  live-get k j c = ground (arith, lookup-erase k j c.entries, e.beq_iff k j)

  -- The clean-up of expired entries never runs: its test subtracts the later time from the earlier.
  pub cleanup_never_deletes :
      (now : ℕ) (c : Cache K)
      → c.previous_cleanup_time ≤ now
      → 0 < c.cleanup_interval
      → cleanup now c ≡ record c { current_ts = now }
  unfolding cleanup
  cleanup_never_deletes now c later positive = ground arith

  -- A record that is put has not expired, and displaces no record of another key.
  pub live-put :
      (k j : K) (v : Value) (s : StrategyConfig) (t : Bool) (c : Cache K)
      → live j (put k v s t c) ≡ (if e.beq k j then some (fresh v s t) else live j c)
  unfolding put live
  live-put k j v s t c = ground (arith, lookup-insert k j (fresh v s t, expiry c s) c.entries)

  live-renewed :
      (f : DataRecord → DataRecord) (k j : K) (c : Cache K) (o : Option (DataRecord × ℕ))
      → lookup k c.entries ≡ o
      → live j (renewed k f (found k o c)) ≡ (if e.beq k j then mapped f (live j c) else live j c)
  unfolding live
  live-renewed f k j c none h = ground (arith, e.beq_iff k j)
  live-renewed f k j c (some (r, expire_ts)) h =
      elim (Bool-cases (expired expire_ts c.current_ts)) [
        | inl old ↦ rw old (ground (arith, lookup-erase k j c.entries, e.beq_iff k j))
        | inr live_still ↦ rw live_still (
            ground
              (arith, lookup-insert k j (f r, expiry c r.report_strategy) c.entries, e.beq_iff k j))
      ]

  live-if_found :
      (f : DataRecord → DataRecord) (k j : K) (c : Cache K) (o : Option (DataRecord × ℕ))
      → lookup k c.entries ≡ o
      → live j (if_found k f (found k o c)) ≡ (if e.beq k j then mapped f (live j c) else live j c)
  unfolding live
  live-if_found f k j c none h = ground (arith, e.beq_iff k j)
  live-if_found f k j c (some (r, expire_ts)) h =
      elim (Bool-cases (expired expire_ts c.current_ts)) [
        | inl old ↦ rw old (ground (arith, lookup-erase k j c.entries, e.beq_iff k j))
        | inr live_still ↦
            rw (live_still, h)
              (ground (arith, lookup-insert k j (f r, expire_ts) c.entries, e.beq_iff k j))
      ]

  -- An update of a live record changes that record alone.
  pub live-update_key_value :
      (k j : K) (v : Value) (c : Cache K)
      → live j (update_key_value k v c)
        ≡ (if e.beq k j then mapped (λ r. record r { value = v }) (live j c) else live j c)
  unfolding update_key_value
  live-update_key_value k j v c = live-renewed (λ r. record r { value = v }) k j c _ refl

  pub live-update_ts :
      (k j : K) (ts : ℕ) (c : Cache K)
      → live j (update_ts k ts c)
        ≡ (if e.beq k j then mapped (λ r. record r { ts = some ts }) (live j c) else live j c)
  unfolding update_ts
  live-update_ts k j ts c = live-renewed (λ r. record r { ts = some ts }) k j c _ refl

  pub live-update_last_report_time :
      (k j : K) (now : ℕ) (c : Cache K)
      → live j (update_last_report_time k now c) ≡ (
          if e.beq k j
          then mapped (λ r. record r { last_report_time = some now }) (live j c)
          else live j c)
  unfolding update_last_report_time
  live-update_last_report_time k j now c =
      live-if_found (λ r. record r { last_report_time = some now }) k j c _ refl
