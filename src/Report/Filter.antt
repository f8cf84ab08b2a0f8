-- ===== src/Report/Filter.antt =====
-- `filter_datapoint_and_cache` of report_strategy_service.py: whether a datapoint is sent at once, and
-- what the cache and the set of periodic keys are then. The strategy is the one in force for the
-- datapoint: that of its key, of its connector, or the main one.
pub mod Decisions
use novena_gateway.Common.{
  ℕ, suc, ◌+◌, ◌*◌, ◌^◌, String, Bool, true, false, not, ◌&&◌, ◌||◌, Option, none, some, List, [],
  ◌∷◌, ◌++◌, any, if◌then◌else◌, Eq, ltb,
}
use novena_gateway.Common.Int.{ℤ, pos, ◌-ℤ◌, abs_ℤ, ltb_ℤ}
use novena_gateway.Json.{Value, num, eq_value, Decimal, scale, ltb_decimal}
use novena_gateway.Report.Cache
use novena_gateway.Report.Cache.{
  Cache, DataRecord, Strategy, on_report_period, on_change, on_change_or_report_period, on_received,
  disabled, StrategyConfig, has_period, put, update_key_value, update_ts, update_last_report_time,
}

abbrev is_float : Value → Option Decimal
is_float (num m (suc k)) = some (record { mantissa = m; places = suc k })
is_float _ = none

-- `abs(a - b) < 0.001`
abbrev near : Decimal → Decimal → Bool
near a b =
    ltb_decimal
      (record {
        mantissa = abs_ℤ (scale a b.places -ℤ scale b a.places);
        places = a.places + b.places;
      })
      (record { mantissa = pos 1; places = 3 })

abbrev same_value : Value → Value → Option Decimal → Option Decimal → Bool
same_value a b (some x) (some y) = near x y
same_value a b _ _ = eq_value a b

-- `__is_equal`: two floats are equal below a thousandth.
unfoldable pub is_equal : Value → Value → Bool
is_equal a b = same_value a b (is_float a) (is_float b)

abbrev pub is_received : Strategy → Bool
is_received on_received = true
is_received _ = false

pub record Service (K : Type 0) : Type 0 where
  pub cache : Cache K
  pub periodic_keys : List K

module _ {K : Type 0} ⦃e : Eq K⦄ where
  -- `set.add`
  unfoldable pub add_key : K → List K → List K
  add_key k ks = if any (e.beq k) ks then ks else k ∷ ks

  abbrev pub stamp : Bool → K → ℕ → Cache K → Cache K
  stamp is_telemetry k ts c = if is_telemetry then update_ts k ts c else c

  -- The branch of ON_RECEIVED.
  unfoldable pub receive :
      K → Value → ℕ → StrategyConfig → Bool → Option DataRecord → Cache K → Cache K
  receive k v ts s is_telemetry (some r) c = stamp is_telemetry k ts c
  receive k v ts s is_telemetry none c = stamp is_telemetry k ts (put k v s is_telemetry c)

  -- The branch of a value that differs from the recorded one.
  unfoldable pub change : K → Value → ℕ → Strategy → Bool → Cache K → Bool × Cache K
  change k v ts on_change t c = (true, stamp t k ts (update_key_value k v c))
  change k v ts on_report_period t c = (false, stamp t k ts (update_key_value k v c))
  change k v ts on_change_or_report_period t c = (true, stamp t k ts (update_key_value k v c))
  change k v ts on_received t c = (false, c)
  change k v ts disabled t c = (false, c)

  -- The branch of a datapoint that the cache does not hold.
  unfoldable pub first : K → Value → ℕ → ℕ → StrategyConfig → Bool → Service K → Service K
  unfolding add_key
  first k v ts now s t d =
      let c : Cache K = put k v s t d.cache in
      if has_period s.report_strategy
      then record d {
        cache = stamp t k ts (update_last_report_time k now c);
        periodic_keys = add_key k d.periodic_keys;
      }
      else record d { cache = c }

  unfoldable pub compared :
      K → Value → ℕ → ℕ → StrategyConfig → Bool → Option DataRecord → Service K → Bool × Service K
  unfolding change first
  compared k v ts now s t none d = (true, first k v ts now s t d)
  compared k v ts now s t (some r) d =
      if is_equal r.value v
      then (false, d)
      else (let (send, c) = change k v ts s.report_strategy t d.cache in
          (send, record d { cache = c }))

  -- `filter_datapoint_and_cache`, at the monotonic time `now`.
  unfoldable pub filter_datapoint_and_cache :
      K → Value → ℕ → ℕ → StrategyConfig → Bool → Service K → Bool × Service K
  unfolding receive compared
  filter_datapoint_and_cache k v ts now s t d =
      let (found, c) = Cache.get k d.cache in
      if is_received s.report_strategy
      then (true, record d { cache = receive k v ts s t found c })
      else compared k v ts now s t found (record d { cache = c })
