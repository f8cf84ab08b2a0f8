-- ===== src/Report/Period.antt =====
-- One round of `__periodical_reporting` of report_strategy_service.py: which datapoints are sent
-- because their period has passed. The data that it sends are listed one by one; the code collects
-- them by connector and device.
use novena_gateway.Common.{
  ℕ, ◌+◌, ◌<◌, ◌≡◌, sym, ap, ◌∙◌, Bool, true, false, Option, none, some, List, [], ◌∷◌, any,
  if◌then◌else◌, Eq, arith, nat_eq,
}
use novena_gateway.Common.Dict.{lookup, erase, lookup-insert}
use novena_gateway.Json.{Value}
use novena_gateway.Report.Cache
use novena_gateway.Report.Cache.{
  Cache, DataRecord, StrategyConfig, has_period, should_be_reported_by_period, changed, expired,
}
use novena_gateway.Report.Filter.{Service}

pub record Report (K : Type 0) : Type 0 where
  pub key : K
  pub value : Value
  pub is_telemetry : Bool

-- The round: the service, what is to be sent, and the keys to be removed at the next round.
pub record Round (K : Type 0) : Type 0 where
  pub service : Service K
  pub data_to_report : List (Report K)
  pub to_removal_by_expiration : List K

-- The record after it has been reported: a telemetry datapoint gets the time of the clock.
abbrev pub reported : ℕ → ℕ → DataRecord → DataRecord
reported now ts r = record r {
  ts = if r.is_telemetry then some ts else r.ts;
  last_report_time = some now;
}

module _ {K : Type 0} ⦃e : Eq K⦄ where
  -- `self.__keys_to_report_periodically.remove(item)`, for each item
  unfoldable pub remove_keys : List K → List K → List K
  remove_keys gone [] = []
  remove_keys gone (k ∷ ks) =
      let rest = remove_keys gone ks in if any (e.beq k) gone then rest else k ∷ rest

  abbrev pub sent : K → DataRecord → Cache K → Round K → Round K
  sent k x c r = record r {
    service = record r.service { cache = c };
    data_to_report =
        record { key = k; value = x.value; is_telemetry = x.is_telemetry } ∷ r.data_to_report;
  }

  abbrev pub report_found : ℕ → ℕ → K → Option DataRecord → Cache K → Round K → Round K
  report_found now ts k none c r = record r {
    service = record r.service { cache = c };
    to_removal_by_expiration = k ∷ r.to_removal_by_expiration;
  }
  report_found now ts k (some x) c r =
      if should_be_reported_by_period x now
      then sent k x (changed k (reported now ts) (lookup k c.entries) c) r
      else record r { service = record r.service { cache = c } }

  -- The loop's body, for one key of the set.
  unfoldable pub report_key : ℕ → ℕ → K → Round K → Round K
  report_key now ts k r =
      let (found, c) = Cache.get k r.service.cache in report_found now ts k found c r

  unfoldable pub report_keys : ℕ → ℕ → List K → Round K → Round K
  report_keys now ts [] r = r
  report_keys now ts (k ∷ ks) r = report_keys now ts ks (report_key now ts k r)

  -- A round at the monotonic time `now` and the time `ts` of the clock.
  unfoldable pub periodical_reporting : ℕ → ℕ → Service K → List K → Round K
  periodical_reporting now ts d gone =
      let keys = remove_keys gone d.periodic_keys in
      report_keys now ts keys (record {
        service = record d { periodic_keys = keys };
        data_to_report = [];
        to_removal_by_expiration = [];
      })

  get_held :
      (k : K) (x : DataRecord) (expire_ts : ℕ) (c : Cache K)
      → lookup k c.entries ≡ some (x, expire_ts)
      → expired expire_ts c.current_ts ≡ false
      → Cache.get k c ≡ (some x, c)
  unfolding Cache.get
  get_held k x expire_ts c held fresh =
      ap (λ o. Cache.found k o c) held
      ∙ ap (λ b. if b then (none, record c { entries = erase k c.entries }) else (some x, c)) fresh

  report_key_held :
      (now ts : ℕ) (k : K) (x : DataRecord) (expire_ts : ℕ) (r : Round K) (due : Bool)
      → lookup k r.service.cache.entries ≡ some (x, expire_ts)
      → expired expire_ts r.service.cache.current_ts ≡ false
      → should_be_reported_by_period x now ≡ due
      → report_key now ts k r ≡ (
          if due
          then sent k x (changed k (reported now ts) (some (x, expire_ts)) r.service.cache) r
          else r)
  unfolding report_key
  report_key_held now ts k x expire_ts r due held fresh d =
      ap (λ g. report_found now ts k g.0 g.1 r) (get_held k x expire_ts r.service.cache held fresh)
      ∙ ap
          (λ b.
            if b
            then sent k x
                (changed k (reported now ts) (lookup k r.service.cache.entries) r.service.cache) r
            else r)
          d
      ∙ ap (λ o. if due then sent k x (changed k (reported now ts) o r.service.cache) r else r) held

  -- Where the cache holds a datapoint that has not expired and is due at `now`, its report at `now` is
  -- followed by no other at a time more than 50 ms before the end of its period, while nothing else
  -- changes the cache.
  pub report_key_again :
      (now ts later ts' : ℕ) (k : K) (x : DataRecord) (expire_ts : ℕ) (r : Round K)
      → lookup k r.service.cache.entries ≡ some (x, expire_ts)
      → expired expire_ts r.service.cache.current_ts ≡ false
      → should_be_reported_by_period x now ≡ true
      → later + 50 < x.report_strategy.report_period + now
      → let r' = report_key now ts k r in
        (report_key later ts' k r').data_to_report ≡ r'.data_to_report
  unfolding should_be_reported_by_period
  report_key_again now ts later ts' k x expire_ts r held fresh due early =
      let first = report_key_held now ts k x expire_ts r true held fresh due in
      let r' : Round K =
        sent k x (changed k (reported now ts) (some (x, expire_ts)) r.service.cache) r in
      ap (λ q. (report_key later ts' k q).data_to_report) first
      ∙ ap Round.data_to_report (
          report_key_held later ts' k (reported now ts x) expire_ts r' false
            (ground (
              arith,
              lookup-insert k k (reported now ts x, expire_ts) r.service.cache.entries,
              e.beq_iff k k,
            ))
            fresh (ground arith))
      ∙ ap Round.data_to_report (sym first)
