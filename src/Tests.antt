-- ===== src/Tests.antt =====
-- The clock, the watchdog, the storage, the Modbus reads, the redaction and the telemetry at
-- concrete inputs.
use novena_gateway.Common.{
  ◌↔◌, ◌⊎◌, ◌<◌, ◌+◌, Option, str_eq, ℕ, String, string_eq, nat_eq, ◌≡◌, refl, Bool, true, false,
  none, some, List, [], ◌∷◌, ◌++◌, ok, arith, eq_iff,
}
use novena_gateway.Common.Int.{ℤ, pos, ◌+ℤ◌, ◌-ℤ◌, leb_ℤ}
use novena_gateway.Common.Dict.{lookup}
use novena_gateway.Json.{Value, null, str, obj, number, end, field, parse_int, eq_value, eq_decimal}
use novena_gateway.ClockHealth.{
  Reading, failed, uncaught, result, ClockHealth, new, is_confirmed, checked, synchronized, called,
}
use novena_gateway.ClockHealth.Confirmed.{ConfirmedAt, synchronized-ConfirmedAt, stale_trusted}
use novena_gateway.Watchdog.{
  World, Watchdog, active, keep, is_uplink, eligible, probe, is_healthy, check_network,
}
use novena_gateway.Watchdog.Selection.{active_kept}
use novena_gateway.Watchdog.Safety.{OnUplinks, check_network-OnUplinks}
use novena_gateway.Storage.Memory.{Storage}
use novena_gateway.Storage.Memory.Fifo.{
  Op, put_event, get_pack, processing_done, owed, run, run-owed,
}
use novena_gateway.Report.Filter.{is_equal}
use novena_gateway.Modbus.Range.{
  parse_wide_range_address, parse_wide_range_request, split, parse_parts,
}
use novena_gateway.Modbus.Range.Cover.{Covers, parse_wide_range_request_covers}
use novena_gateway.DeviceFilter.{DeviceFilter, validate_device, Denied, refused_iff_Denied}
use novena_gateway.Redaction.{redact_secrets}
use novena_gateway.Redaction.Hidden.{IsHidden, redact_secrets-IsHidden}
use novena_gateway.Telemetry.{TelemetryEntry, ConvertedData}
use novena_gateway.Telemetry.Split.{
  Entries, split_large_entries, joined, NoneEmpty, split_large_entries-joined,
}

-- Two uplinks, the first of which answers as `answers` says.
abbrev world : Bool → World
world answers = record {
  routes = ("eth0", 100) ∷ ("wlan0", 50) ∷ [];
  physical = λ i. true;
  ping = λ i. answers;
  profile = λ i. some ("uuid", pos 100);
  accepts = λ i uuid metric. true;
}

abbrev watchdog : Watchdog
watchdog = record {
  mode = active;
  interfaces = "eth0" ∷ "wlan0" ∷ [];
  roles = [];
  active_interface = "wlan0";
  failover_count = 0;
  original_metrics = [];
  preferred_successes = 1;
}

check_network-OnUplinks_example : OnUplinks [] (world true) (check_network (world true) watchdog).1
check_network-OnUplinks_example = check_network-OnUplinks (world true) watchdog

active_kept_example : (check_network (world true) watchdog).0.active_interface ≡ "wlan0"
active_kept_example =
    active_kept (world true) watchdog (λ h. ground (arith, eq_iff "wlan0" ""))
      (unfold keep is_healthy probe eligible is_uplink lookup in refl) (omega arith)

abbrev storage : Storage ℕ
storage = record {
  max_records_count = 3;
  read_records_count = 2;
  events_queue = 7 ∷ [];
  event_pack = [];
  stopped = false;
}

abbrev ops : List (Op ℕ)
ops = put_event 8 ∷ get_pack ∷ put_event 9 ∷ processing_done ∷ get_pack ∷ []

run-owed_example :
    let (s', accepted, done) = run ops storage in done ++ owed s' ≡ owed storage ++ accepted
run-owed_example = run-owed ops storage

twenty_equal : is_equal (number (pos 20)) (number (pos 20)) ≡ true
unfolding is_equal eq_value eq_decimal
twenty_equal = refl

ten_to_twenty : parse_wide_range_address "10-20" ≡ some (pos 10, pos 20)
unfolding parse_wide_range_address split parse_parts parse_int
ten_to_twenty = refl

parse_wide_range_request_covers_example :
    (reads : List (ℤ × ℕ)) × (parse_wide_range_request "10-20" 2 5 ≡ ok reads)
    × Covers 5 (pos 10) (pos 10 +ℤ pos 12) reads
parse_wide_range_request_covers_example =
    parse_wide_range_request_covers "10-20" (pos 10) (pos 20) 11 2 5 ten_to_twenty
      (unfold ◌+ℤ◌ ◌-ℤ◌ in refl) (omega arith)

ten_alone :
    (start last : ℤ)
    → parse_wide_range_address "10" ≡ some (start, last)
    → leb_ℤ (last -ℤ start +ℤ pos 2) (pos 0) ≡ true
unfolding parse_wide_range_address split parse_parts parse_int
ten_alone start last h = cc

abbrev devices : DeviceFilter
devices = record { deny = ("modbus", "pump" ∷ []) ∷ []; allow = [] }

refused_iff_Denied_example :
    (validate_device str_eq (record devices { allow = ("modbus", "fan" ∷ []) ∷ [] }) "modbus" "pump"
      ≡ false)
    ↔ Denied str_eq "modbus" "pump" devices.deny
refused_iff_Denied_example =
    refused_iff_Denied str_eq devices (("modbus", "fan" ∷ []) ∷ []) "modbus" "pump"

abbrev secrets : Value
secrets =
    obj (field "broker" (obj (field "Password" (str "hunter2") (field "host" (str "h") end))) end)

redact_secrets-IsHidden_example : IsHidden (redact_secrets secrets)
redact_secrets-IsHidden_example = redact_secrets-IsHidden secrets

abbrev entries : List TelemetryEntry
entries =
    record { ts = 5; values = ("a", number (pos 1)) ∷ [] }
    ∷ record { ts = 5; values = ("b", null) ∷ [] }
    ∷ []

abbrev data_of : ConvertedData
data_of = record {
  device_name = "pump";
  device_type = "default";
  device_id = none;
  telemetry = entries;
  attributes = ("model", str "x") ∷ [];
  telemetry_datapoints_count = 2;
  ts_index = [];
}

abbrev points : Entries
points = ("a", number (pos 1)) ∷ ("b", null) ∷ ("c", str "x") ∷ []

split_large_entries-joined_example :
    let chunks = split_large_entries (λ k v. 3) (some 10) 12 20 points in
    (joined chunks ≡ points) × NoneEmpty chunks
split_large_entries-joined_example = split_large_entries-joined (λ k v. 3) (some 10) 12 20 points

-- The trim and the case fold of an output that needs neither.
abbrev as_printed : Option String → String
as_printed none = ""
as_printed (some s) = s

abbrev synced : Reading
synced = result (pos 0) (some "yes")

still_trusted :
    (synchronized as_printed 12 failed (called as_printed 5 ((10, synced) ∷ []))).0 ≡ some true
unfolding synchronized checked called new is_confirmed
still_trusted = refl

synchronized-ConfirmedAt_example :
    (at : ℕ) × ConfirmedAt as_printed at ((12, failed) ∷ (10, synced) ∷ [])
    × ((at ≡ 12) ⊎ (12 < 5 + at))
synchronized-ConfirmedAt_example =
    synchronized-ConfirmedAt as_printed 5 12 failed ((10, synced) ∷ []) ((λ e. cc), tt)
      still_trusted

-- The answer of time 10 stands again at time 1002.
abbrev trusted_once : ClockHealth
trusted_once = record { cache_seconds = 5; checked_at = 10; is_synchronized = true }

stale_trusted_example :
    (synchronized as_printed 1002 failed (synchronized as_printed 1000 uncaught trusted_once).1).0
    ≡ some true
stale_trusted_example =
    stale_trusted as_printed 1000 1002 failed trusted_once refl refl (omega arith) (omega arith)
