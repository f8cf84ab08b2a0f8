-- ===== src/Report/Filter/Decisions.antt =====
-- What is sent at once, by strategy, and what the cache then holds.
use novena_gateway.Common.{
  ℕ, ◌≡◌, refl, sym, ◌∙◌, Bool, true, false, not, Option, none, some, arith, Eq, Bool-cases, inl,
  inr,
}
use novena_gateway.Json.{Value}
use novena_gateway.Report.Cache.{
  Cache, DataRecord, Strategy, on_report_period, on_change, on_change_or_report_period, on_received,
  disabled, StrategyConfig, has_period, get, put, update_key_value, update_last_report_time,
}
use novena_gateway.Report.Cache.Laws.{
  live, get-live, live-get, live-put, live-update_key_value, live-update_ts,
  live-update_last_report_time, mapped,
}
use novena_gateway.Report.Filter.{
  Service, is_equal, is_received, change, first, compared, stamp, filter_datapoint_and_cache,
}

-- What the decision is, given the live record of the datapoint.
unfoldable pub decision : Strategy → Option DataRecord → Value → Bool
decision on_received o v = true
decision s none v = true
decision on_change (some r) v = not (is_equal r.value v)
decision on_change_or_report_period (some r) v = not (is_equal r.value v)
decision on_report_period (some r) v = false
decision disabled (some r) v = false

-- The strategies that compare with the recorded value and record a value that differs.
abbrev pub tracks : Strategy → Bool
tracks on_report_period = true
tracks on_change = true
tracks on_change_or_report_period = true
tracks on_received = false
tracks disabled = false

-- A live record with a value that equals `v`.
abbrev pub Has : Value → Option DataRecord → Type 0
Has v none = ⊥
Has v (some r) = is_equal r.value v ≡ true

Has-mapped :
    (f : DataRecord → DataRecord) (v : Value) (o : Option DataRecord)
    → ((r : DataRecord) → (f r).value ≡ r.value)
    → Has v o
    → Has v (mapped f o)
Has-mapped f v none h k = k
Has-mapped f v (some r) h k = rw (h r) k

quiet :
    (s : Strategy) (o : Option DataRecord) (v : Value)
    → tracks s ≡ true
    → Has v o
    → decision s o v ≡ false
unfolding decision
quiet on_report_period (some r) v m h = refl
quiet on_change (some r) v m h = rw h
quiet on_change_or_report_period (some r) v m h = rw h
quiet on_received o v m h = cc
quiet disabled o v m h = cc
quiet _ none v m h = absurd h

module _ {K : Type 0} ⦃e : Eq K⦄ where
  compared-decision :
      (k : K) (v : Value) (ts now : ℕ) (s : StrategyConfig) (t : Bool) (o : Option DataRecord)
      (d : Service K)
      → is_received s.report_strategy ≡ false
      → (compared k v ts now s t o d).0 ≡ decision s.report_strategy o v
  unfolding compared change decision
  compared-decision k v ts now s t o d h = ground arith

  -- A datapoint is sent at once always under ON_RECEIVED, and under any strategy when the cache holds
  -- no live record of it; else under the two strategies of change exactly when its value differs
  -- from the recorded one, and not under ON_REPORT_PERIOD or DISABLED.
  pub filter_decides :
      (k : K) (v : Value) (ts now : ℕ) (s : StrategyConfig) (t : Bool) (d : Service K)
      → (filter_datapoint_and_cache k v ts now s t d).0
        ≡ decision s.report_strategy (live k d.cache) v
  unfolding filter_datapoint_and_cache
  filter_decides k v ts now s t d = elim (Bool-cases (is_received s.report_strategy)) [
    | inl received ↦ rw received (unfold decision in ground arith)
    | inr other ↦
        rw (other, ← get-live k d.cache)
          (compared-decision k v ts now s t (get k d.cache).0 _ other)
  ]

  live-stamp :
      (t : Bool) (k j : K) (ts : ℕ) (c : Cache K)
      → e.beq k j ≡ false
      → live j (stamp t k ts c) ≡ live j c
  live-stamp false k j ts c h = refl
  live-stamp true k j ts c h = live-update_ts k j ts c ∙ rw h

  same : (k : K) → e.beq k k ≡ true
  same k = (e.beq_iff k k).1 refl

  Has-stamp :
      (t : Bool) (k : K) (ts : ℕ) (c : Cache K) (v : Value)
      → Has v (live k c)
      → Has v (live k (stamp t k ts c))
  Has-stamp false k ts c v h = h
  Has-stamp true k ts c v h =
      rw (live-update_ts k k ts c, same k)
        (Has-mapped (λ r. record r { ts = some ts }) v (live k c) (λ r. refl) h)

  Has-put :
      (k : K) (v : Value) (s : StrategyConfig) (t : Bool) (c : Cache K)
      → is_equal v v ≡ true
      → Has v (live k (put k v s t c))
  Has-put k v s t c h = rw (live-put k k v s t c, same k) h

  Has-first :
      (k : K) (v : Value) (ts now : ℕ) (s : StrategyConfig) (t : Bool) (d : Service K)
      → is_equal v v ≡ true
      → Has v (live k (first k v ts now s t d).cache)
  unfolding first
  Has-first k v ts now s t d h = elim (Bool-cases (has_period s.report_strategy)) [
    | inr plain ↦ rw plain (Has-put k v s t d.cache h)
    | inl periodic ↦ rw periodic (
        Has-stamp t k ts (update_last_report_time k now (put k v s t d.cache)) v (
          rw (live-update_last_report_time k k now (put k v s t d.cache), same k)
            (Has-mapped (λ r. record r { last_report_time = some now }) v
              (live k (put k v s t d.cache)) (λ r. refl) (Has-put k v s t d.cache h))))
  ]

  Has-update :
      (k : K) (v : Value) (c : Cache K) {r : DataRecord}
      → live k c ≡ some r
      → is_equal v v ≡ true
      → Has v (live k (update_key_value k v c))
  Has-update k v c h q = rw (live-update_key_value k k v c, same k, h) q

  Has-change :
      (k : K) (v : Value) (ts : ℕ) (s : Strategy) (t : Bool) (c : Cache K) {r : DataRecord}
      → tracks s ≡ true
      → live k c ≡ some r
      → is_equal v v ≡ true
      → Has v (live k (change k v ts s t c).1)
  unfolding change
  Has-change k v ts on_change t c m h q =
      Has-stamp t k ts (update_key_value k v c) v (Has-update k v c h q)
  Has-change k v ts on_report_period t c m h q =
      Has-stamp t k ts (update_key_value k v c) v (Has-update k v c h q)
  Has-change k v ts on_change_or_report_period t c m h q =
      Has-stamp t k ts (update_key_value k v c) v (Has-update k v c h q)
  Has-change k v ts on_received t c m h q = cc
  Has-change k v ts disabled t c m h q = cc

  Has-compared :
      (k : K) (v : Value) (ts now : ℕ) (s : StrategyConfig) (t : Bool) (o : Option DataRecord)
      (d : Service K)
      → tracks s.report_strategy ≡ true
      → live k d.cache ≡ o
      → is_equal v v ≡ true
      → Has v (live k (compared k v ts now s t o d).1.cache)
  unfolding compared
  Has-compared k v ts now s t none d m h q = Has-first k v ts now s t d q
  Has-compared k v ts now s t (some r) d m h q = elim (Bool-cases (is_equal r.value v)) [
    | inl equal ↦ rw (equal, h) equal
    | inr differs ↦ rw differs (Has-change k v ts s.report_strategy t d.cache m h q)
  ]

  -- Under a strategy that tracks changes the cache holds, after a datapoint, a live record whose
  -- value is equal to the datapoint's.
  pub filter_records :
      (k : K) (v : Value) (ts now : ℕ) (s : StrategyConfig) (t : Bool) (d : Service K)
      → tracks s.report_strategy ≡ true
      → is_equal v v ≡ true
      → Has v (live k (filter_datapoint_and_cache k v ts now s t d).1.cache)
  unfolding filter_datapoint_and_cache
  filter_records k v ts now s t d m q =
      let other : is_received s.report_strategy ≡ false = ground arith in
      rw other (
        Has-compared k v ts now s t (get k d.cache).0 _ m
          (live-get k k d.cache ∙ sym (get-live k d.cache)) q)

  -- Under a strategy that tracks changes, the same value again, at the same clock of the cache, is not
  -- sent at once.
  pub repeat_suppressed :
      (k : K) (v : Value) (ts ts' now now' : ℕ) (s : StrategyConfig) (t : Bool) (d : Service K)
      → tracks s.report_strategy ≡ true
      → is_equal v v ≡ true
      → (filter_datapoint_and_cache k v ts' now' s t
          (filter_datapoint_and_cache k v ts now s t d).1).0
        ≡ false
  repeat_suppressed k v ts ts' now now' s t d m q =
      filter_decides k v ts' now' s t (filter_datapoint_and_cache k v ts now s t d).1
      ∙ quiet s.report_strategy _ v m (filter_records k v ts now s t d m q)
