-- ===== src/Report/Cache.antt =====
-- `ReportStrategyDataCache` and `ReportStrategyDataRecord` of report_strategy_data_cache.py. A key
-- stands for the triple of datapoint key, device name and connector id; a record is reached through
-- the dict only, so that a change of the object is a change of the entry. The cache's clock and its
-- ttl have one unit, which the model leaves open.
pub mod Laws
use novena_gateway.Common.{
  ℕ, ◌+◌, String, Bool, true, false, not, ◌&&◌, Option, none, some, List, [], ◌∷◌, ltb, leb,
  if◌then◌else◌, Eq,
}
use novena_gateway.Common.Dict.{Dict, lookup, insert, erase}
use novena_gateway.Json.{Value}

-- `ReportStrategy` of novena_gateway/gateway/constants.py.
pub data Strategy : Type 0 where
  on_report_period on_change on_change_or_report_period on_received disabled : Strategy

-- `strategy in STRATEGIES_WITH_REPORT_PERIOD`
abbrev pub has_period : Strategy → Bool
has_period on_report_period = true
has_period on_change_or_report_period = true
has_period _ = false

-- The fields of `ReportStrategyConfig` that the cache and the service read; the period is in
-- milliseconds, and read only for the strategies that have one.
pub record StrategyConfig : Type 0 where
  pub report_strategy : Strategy
  pub report_period : ℕ
  pub ttl : ℕ

pub record DataRecord : Type 0 where
  pub value : Value
  pub report_strategy : StrategyConfig
  pub last_report_time : Option ℕ
  pub is_telemetry : Bool
  pub ts : Option ℕ

-- `should_be_reported_by_period`: 50 ms early is due.
unfoldable pub should_be_reported_by_period : DataRecord → ℕ → Bool
should_be_reported_by_period r now =
    if has_period r.report_strategy.report_strategy
    then (elim r.last_report_time [
      | none ↦ true
      | some last ↦ leb (r.report_strategy.report_period + last) (now + 50)
    ])
    else false

pub record Cache (K : Type 0) : Type 0 where
  pub entries : Dict K (DataRecord × ℕ)
  pub current_ts : ℕ
  pub previous_cleanup_time : ℕ
  pub cleanup_interval : ℕ

abbrev pub expired : ℕ → ℕ → Bool
expired expire_ts now = ltb 0 expire_ts && ltb expire_ts now

module _ {K : Type 0} where
  -- `expire_ts`; 0 stands for never.
  abbrev pub expiry : Cache K → StrategyConfig → ℕ
  expiry c s = if ltb 0 s.ttl then c.current_ts + s.ttl else 0

module _ {K : Type 0} ⦃e : Eq K⦄ where
  unfoldable pub put : K → Value → StrategyConfig → Bool → Cache K → Cache K
  put k v s is_telemetry c = record c {
    entries =
        insert k
          (
            record {
              value = v;
              report_strategy = s;
              last_report_time = none;
              is_telemetry = is_telemetry;
              ts = none;
            },
            expiry c s,
          )
          c.entries;
  }

  abbrev pub found : K → Option (DataRecord × ℕ) → Cache K → Option DataRecord × Cache K
  found k none c = (none, c)
  found k (some (r, expire_ts)) c =
      if expired expire_ts c.current_ts
      then (none, record c { entries = erase k c.entries })
      else (some r, c)

  -- `get`: an expired entry is dropped and not returned.
  unfoldable pub get : K → Cache K → Option DataRecord × Cache K
  get k c = found k (lookup k c.entries) c

  -- A change of the record that `get` returns, with a fresh expiry.
  abbrev pub renewed : K → (DataRecord → DataRecord) → Option DataRecord × Cache K → Cache K
  renewed k f (none, c) = c
  renewed k f (some r, c) = record c {
    entries = insert k (f r, expiry c r.report_strategy) c.entries;
  }

  -- A change of the object alone: its expiry stays.
  abbrev pub changed : K → (DataRecord → DataRecord) → Option (DataRecord × ℕ) → Cache K → Cache K
  changed k f none c = c
  changed k f (some (r, expire_ts)) c = record c { entries = insert k (f r, expire_ts) c.entries }

  abbrev pub if_found : K → (DataRecord → DataRecord) → Option DataRecord × Cache K → Cache K
  if_found k f (none, c) = c
  if_found k f (some r, c) = changed k f (lookup k c.entries) c

  unfoldable pub update_key_value : K → Value → Cache K → Cache K
  unfolding get
  update_key_value k v c = renewed k (λ r. record r { value = v }) (get k c)

  unfoldable pub update_ts : K → ℕ → Cache K → Cache K
  unfolding get
  update_ts k ts c = renewed k (λ r. record r { ts = some ts }) (get k c)

  unfoldable pub update_last_report_time : K → ℕ → Cache K → Cache K
  unfolding get
  update_last_report_time k now c =
      if_found k (λ r. record r { last_report_time = some now }) (get k c)

  -- The deletion in `_cleanup_loop`.
  abbrev stale : Cache K → DataRecord × ℕ → Bool
  stale c (r, expire_ts) =
      elim r.report_strategy.report_strategy [ on_received ↦ false | _ ↦ true ]
      && expired expire_ts c.current_ts

  unfoldable pub remove_stale : Cache K → Dict K (DataRecord × ℕ) → Dict K (DataRecord × ℕ)
  remove_stale c [] = []
  remove_stale c ((k, x) ∷ d) =
      let rest = remove_stale c d in if stale c x then rest else (k, x) ∷ rest

  -- One round of `_cleanup_loop` at a time: `previous - current >= interval`, without subtraction.
  unfoldable pub cleanup : ℕ → Cache K → Cache K
  cleanup now c =
      let c' : Cache K = record c { current_ts = now } in
      if leb (now + c.cleanup_interval) c.previous_cleanup_time
      then record c' { previous_cleanup_time = now; entries = remove_stale c' c.entries }
      else c'

  -- `clear`
  unfoldable pub clear : Cache K → Cache K
  clear c = record c { entries = [] }

  -- `delete_all_records_for_connector_by_connector_id`, by the test `key[2] == connector_id`.
  unfoldable pub delete_all : (K → Bool) → Dict K (DataRecord × ℕ) → Dict K (DataRecord × ℕ)
  delete_all ours [] = []
  delete_all ours ((k, x) ∷ d) =
      let rest = delete_all ours d in if ours k then rest else (k, x) ∷ rest
