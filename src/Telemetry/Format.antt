-- ===== src/Telemetry/Format.antt =====
-- What `PayloadFormatter.format` hands to the publisher.
use novena_gateway.Common.{
  ℕ, String, ◌≡◌, refl, ap, Option, none, some, List, [], ◌∷◌, ◌++◌, string_eq,
}
use novena_gateway.Common.Dict.{Dict, lookup, lookup-insert_self}
use novena_gateway.Json.{Value, str}
use novena_gateway.Telemetry.{
  TelemetryEntry, ConvertedData, Payload, entry_payloads, attribute_payloads, format,
}

-- A payload of the gateway for the device, which its values name too.
pub record IsFor (serial : String) (d : ConvertedData) (p : Payload) : Type 0 where
  pub from_gateway : p.serial_number ≡ serial
  pub of_device : p.device_name ≡ d.device_name
  pub named : lookup "device_name" p.values ≡ some (str d.device_name)

abbrev pub AllFor : String → ConvertedData → List Payload → Type 0
AllFor serial d [] = Unit
AllFor serial d (p ∷ ps) = IsFor serial d p × AllFor serial d ps

abbrev pub stamps : List Payload → List (Option ℕ)
stamps [] = []
stamps (p ∷ ps) = p.ts ∷ stamps ps

abbrev pub stamps_of : List TelemetryEntry → List (Option ℕ)
stamps_of [] = []
stamps_of (t ∷ ts) = some t.ts ∷ stamps_of ts

-- One more payload without a timestamp where there are attributes.
abbrev pub attribute_stamps : Dict String Value → List (Option ℕ)
attribute_stamps [] = []
attribute_stamps (a ∷ rest) = none ∷ []

attributes-AllFor :
    (serial : String) (d : ConvertedData) (values : Dict String Value)
    → AllFor serial d (attribute_payloads serial d values)
unfolding attribute_payloads
attributes-AllFor serial d [] = tt
attributes-AllFor serial d (a ∷ rest) =
    (record { from_gateway = refl; of_device = refl; named = lookup-insert_self _ _ _ }, tt)

entries-AllFor :
    (serial : String) (d : ConvertedData) (ts : List TelemetryEntry) (ps : List Payload)
    → AllFor serial d ps
    → AllFor serial d (entry_payloads serial d ts ++ ps)
unfolding entry_payloads
entries-AllFor serial d [] ps h = h
entries-AllFor serial d (t ∷ ts) ps h = (
  record { from_gateway = refl; of_device = refl; named = lookup-insert_self _ _ _ },
  entries-AllFor serial d ts ps h,
)

stamps-entries :
    (serial : String) (d : ConvertedData) (ts : List TelemetryEntry) (values : Dict String Value)
    → stamps (entry_payloads serial d ts ++ attribute_payloads serial d values)
      ≡ stamps_of ts ++ attribute_stamps values
unfolding entry_payloads attribute_payloads
stamps-entries serial d [] [] = refl
stamps-entries serial d [] (a ∷ rest) = refl
stamps-entries serial d (t ∷ ts) values =
    ap (λ l. some t.ts ∷ l) (stamps-entries serial d ts values)

-- Every payload carries the gateway's serial number and names the device, a datapoint of that name
-- notwithstanding; there is one for each telemetry entry, in order and with its timestamp, and one
-- more, without a timestamp, where there are attributes.
pub format_complete :
    (serial : String) (d : ConvertedData)
    → AllFor serial d (format serial d)
      × (stamps (format serial d) ≡ stamps_of d.telemetry ++ attribute_stamps d.attributes)
unfolding format
format_complete serial d = (
  entries-AllFor serial d d.telemetry _ (attributes-AllFor serial d d.attributes),
  stamps-entries serial d d.telemetry d.attributes,
)
