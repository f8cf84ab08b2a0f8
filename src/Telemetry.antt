-- ===== src/Telemetry.antt =====
-- novena_gateway/gateway/entities and payload_formatter.py: the data of a device on its way from a
-- connector to the broker. Texts stand for the keys; timestamps are milliseconds.
pub mod Merge
pub mod Format
pub mod Split
use novena_gateway.Common.{
  ℕ, zero, suc, ◌+◌, ◌-◌, String, Bool, true, false, not, Option, none, some, List, [], ◌∷◌, ◌++◌,
  length, ◌==◌, leb, ltb, nat_eq, string_eq, str_eq, if◌then◌else◌, Eq,
}
use novena_gateway.Common.Dict.{Dict, lookup, insert}
use novena_gateway.Json.{Value, str}

-- `TelemetryEntry`, without its metadata and size.
pub record TelemetryEntry : Type 0 where
  pub ts : ℕ
  pub values : Dict String Value

-- `ConvertedData`, without the metadata.
pub record ConvertedData : Type 0 where
  pub device_name : String
  pub device_type : String
  pub device_id : Option String
  pub telemetry : List TelemetryEntry
  pub attributes : Dict String Value
  pub telemetry_datapoints_count : ℕ
  pub ts_index : Dict ℕ ℕ

unfoldable pub new_data : String → String → Option String → ConvertedData
new_data name type id = record {
  device_name = name;
  device_type = type;
  device_id = id;
  telemetry = [];
  attributes = [];
  telemetry_datapoints_count = 0;
  ts_index = [];
}

-- `d.update(other)`
unfoldable pub update : Dict String Value → Dict String Value → Dict String Value
update d [] = d
update d ((k, v) ∷ rest) = update (insert k v d) rest

-- `self.telemetry[index].values.update(values)`
unfoldable pub update_at : ℕ → Dict String Value → List TelemetryEntry → List TelemetryEntry
unfolding update
update_at i values [] = []
update_at zero values (t ∷ ts) = record t { values = update t.values values } ∷ ts
update_at (suc i) values (t ∷ ts) = t ∷ update_at i values ts

unfoldable pub size_at : ℕ → List TelemetryEntry → ℕ
size_at i [] = 0
size_at zero (t ∷ ts) = length t.values
size_at (suc i) (t ∷ ts) = size_at i ts

abbrev pub added : TelemetryEntry → Option ℕ → ConvertedData → ConvertedData
added entry (some i) d =
    let telemetry : List TelemetryEntry = update_at i entry.values d.telemetry in
    record d {
      telemetry = telemetry;
      telemetry_datapoints_count =
          d.telemetry_datapoints_count - size_at i d.telemetry + size_at i telemetry;
    }
added entry none d = record d {
  telemetry = d.telemetry ++ entry ∷ [];
  telemetry_datapoints_count = d.telemetry_datapoints_count + length entry.values;
  ts_index = insert entry.ts (length d.telemetry) d.ts_index;
}

-- `_add_single_telemetry_entry`, of a `TelemetryEntry`.
unfoldable pub add_single_telemetry_entry : TelemetryEntry → ConvertedData → ConvertedData
unfolding update_at size_at
add_single_telemetry_entry entry d = added entry (lookup entry.ts d.ts_index) d

-- `add_to_telemetry`, of a list.
unfoldable pub add_to_telemetry : List TelemetryEntry → ConvertedData → ConvertedData
add_to_telemetry [] d = d
add_to_telemetry (e ∷ es) d = add_to_telemetry es (add_single_telemetry_entry e d)

-- `add_to_attributes`, of a dict.
unfoldable pub add_to_attributes : Dict String Value → ConvertedData → ConvertedData
add_to_attributes values d = record d { attributes = update d.attributes values }

-- A payload of `PayloadFormatter.format`; an entry's has a timestamp.
pub record Payload : Type 0 where
  pub serial_number : String
  pub ts : Option ℕ
  pub device_name : String
  pub values : Dict String Value
  pub device_id : Option String

-- `if device_id:`
abbrev given : Option String → Option String
given none = none
given (some s) = if str_eq s "" then none else some s

unfoldable pub entry_payload : String → ConvertedData → TelemetryEntry → Payload
entry_payload serial d t = record {
  serial_number = serial;
  ts = some t.ts;
  device_name = d.device_name;
  values = insert "device_name" (str d.device_name) (update [] t.values);
  device_id = given d.device_id;
}

unfoldable pub entry_payloads : String → ConvertedData → List TelemetryEntry → List Payload
unfolding entry_payload update
entry_payloads serial d [] = []
entry_payloads serial d (t ∷ ts) = entry_payload serial d t ∷ entry_payloads serial d ts

unfoldable pub attribute_payloads : String → ConvertedData → Dict String Value → List Payload
unfolding update
attribute_payloads serial d [] = []
attribute_payloads serial d (a ∷ as_rest) =
    record {
      serial_number = serial;
      ts = none;
      device_name = d.device_name;
      values = insert "device_name" (str d.device_name) (update [] (a ∷ as_rest));
      device_id = given d.device_id;
    }
    ∷ []

-- `PayloadFormatter.format`
unfoldable pub format : String → ConvertedData → List Payload
unfolding entry_payloads attribute_payloads
format serial d = entry_payloads serial d d.telemetry ++ attribute_payloads serial d d.attributes
