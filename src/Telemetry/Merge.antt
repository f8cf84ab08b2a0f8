-- ===== src/Telemetry/Merge.antt =====
-- The invariant of `ConvertedData`: one entry for each timestamp, and a count of all datapoints.
use novena_gateway.Common.{
  ℕ, zero, suc, ◌+◌, ◌≤◌, String, ◌≡◌, ◌≢◌, refl, ap, true, Option, none, some, List, [], ◌∷◌, ◌++◌,
  length, arith, nat_eq, string_eq, is_some,
}
use novena_gateway.Common.Dict.{Dict, lookup, insert, lookup-insert}
use novena_gateway.Json.{Value}
use novena_gateway.Telemetry.{
  TelemetryEntry, ConvertedData, new_data, update_at, size_at, added, add_single_telemetry_entry,
  add_to_telemetry,
}

abbrev pub times : List TelemetryEntry → List ℕ
times [] = []
times (t ∷ ts) = t.ts ∷ times ts

abbrev pub datapoints : List TelemetryEntry → ℕ
datapoints [] = 0
datapoints (t ∷ ts) = length t.values + datapoints ts

abbrev pub NotIn : ℕ → List ℕ → Type 0
NotIn x [] = Unit
NotIn x (y ∷ ys) = (x ≢ y) × NotIn x ys

abbrev pub Distinct : List ℕ → Type 0
Distinct [] = Unit
Distinct (x ∷ xs) = NotIn x xs × Distinct xs

abbrev pub AllIn : Dict ℕ ℕ → List ℕ → Type 0
AllIn d [] = Unit
AllIn d (x ∷ xs) = (is_some (lookup x d) ≡ true) × AllIn d xs

pub record IsValid (d : ConvertedData) : Type 0 where
  pub counted : d.telemetry_datapoints_count ≡ datapoints d.telemetry
  pub indexed : AllIn d.ts_index (times d.telemetry)
  pub distinct : Distinct (times d.telemetry)

times-update_at :
    (i : ℕ) (v : Dict String Value) (ts : List TelemetryEntry) → times (update_at i v ts) ≡ times ts
unfolding update_at
times-update_at i v [] = refl
times-update_at zero v (t ∷ ts) = refl
times-update_at (suc i) v (t ∷ ts) = ap (λ l. t.ts ∷ l) (times-update_at i v ts)

datapoints-update_at :
    (i : ℕ) (v : Dict String Value) (ts : List TelemetryEntry)
    → (datapoints (update_at i v ts) + size_at i ts ≡ datapoints ts + size_at i (update_at i v ts))
      × (size_at i ts ≤ datapoints ts)
unfolding update_at size_at
datapoints-update_at i v [] = omega arith
datapoints-update_at zero v (t ∷ ts) = omega arith
datapoints-update_at (suc i) v (t ∷ ts) =
    let (moved, fits) = datapoints-update_at i v ts in (omega (arith, moved), omega (arith, fits))

times-append :
    (ts : List TelemetryEntry) (e : TelemetryEntry) → times (ts ++ e ∷ []) ≡ times ts ++ e.ts ∷ []
times-append [] e = refl
times-append (t ∷ ts) e = ap (λ l. t.ts ∷ l) (times-append ts e)

datapoints-append :
    (ts : List TelemetryEntry) (e : TelemetryEntry)
    → datapoints (ts ++ e ∷ []) ≡ datapoints ts + length e.values
datapoints-append [] e = omega arith
datapoints-append (t ∷ ts) e = omega (arith, datapoints-append ts e)

NotIn-append : (x y : ℕ) (xs : List ℕ) → x ≢ y → NotIn x xs → NotIn x (xs ++ y ∷ [])
NotIn-append x y [] h k = (h, tt)
NotIn-append x y (z ∷ xs) h k = (k.0, NotIn-append x y xs h k.1)

-- A timestamp that the index lacks differs from each that it has.
Distinct-append :
    (d : Dict ℕ ℕ) (x : ℕ) (xs : List ℕ)
    → lookup x d ≡ none
    → AllIn d xs
    → Distinct xs
    → Distinct (xs ++ x ∷ [])
Distinct-append d x [] e h k = (tt, tt)
Distinct-append d x (y ∷ xs) e h k =
    (NotIn-append y x xs (λ same. cc (h.0, e, same)) k.0, Distinct-append d x xs e h.1 k.1)

AllIn-insert :
    (d : Dict ℕ ℕ) (x n : ℕ) (xs : List ℕ) → AllIn d xs → AllIn (insert x n d) (xs ++ x ∷ [])
AllIn-insert d x n [] h = (ground (arith, lookup-insert x x n d), tt)
AllIn-insert d x n (y ∷ xs) h =
    (ground (arith, lookup-insert x y n d, h.0), AllIn-insert d x n xs h.1)

added-IsValid :
    (e : TelemetryEntry) (o : Option ℕ) (d : ConvertedData)
    → lookup e.ts d.ts_index ≡ o
    → IsValid d
    → IsValid (added e o d)
added-IsValid e (some i) d h v = record {
  counted = omega (arith, v.counted, datapoints-update_at i e.values d.telemetry);
  indexed = rw (times-update_at i e.values d.telemetry) v.indexed;
  distinct = rw (times-update_at i e.values d.telemetry) v.distinct;
}
added-IsValid e none d h v = record {
  counted = omega (arith, v.counted, datapoints-append d.telemetry e);
  indexed =
      rw (times-append d.telemetry e)
        (AllIn-insert d.ts_index e.ts (length d.telemetry) (times d.telemetry) v.indexed);
  distinct =
      rw (times-append d.telemetry e)
        (Distinct-append d.ts_index e.ts (times d.telemetry) h v.indexed v.distinct);
}

-- Whatever entries are added, there is one entry for each timestamp, and the count is that of all the
-- datapoints held.
pub add_to_telemetry-IsValid :
    (es : List TelemetryEntry) (d : ConvertedData) → IsValid d → IsValid (add_to_telemetry es d)
unfolding add_to_telemetry add_single_telemetry_entry
add_to_telemetry-IsValid [] d v = v
add_to_telemetry-IsValid (e ∷ es) d v =
    add_to_telemetry-IsValid es (add_single_telemetry_entry e d)
      (added-IsValid e (lookup e.ts d.ts_index) d refl v)

pub new_data-IsValid : (name type : String) (id : Option String) → IsValid (new_data name type id)
unfolding new_data
new_data-IsValid name type id = record { counted = refl; indexed = tt; distinct = tt }
