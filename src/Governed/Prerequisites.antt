-- ===== src/Governed/Prerequisites.antt =====
-- `enforce_prerequisites` of `GovernedCommandGuard`: who has authority on site, and the supervisory
-- conditions of the retained control. The attributes that the gateway collects, its devices and the
-- time, in seconds, are arguments.
pub mod Enforced
use novena_gateway.Common.{
  ℕ, ◌+◌, String, Bool, true, false, not, ◌&&◌, ◌||◌, Option, none, some, List, [], ◌∷◌, any, map,
  str_eq, if◌then◌else◌, Result, ok, err, ◌>>=◌, ◌>>◌,
}
use novena_gateway.Common.Int.{ℤ, ◌-ℤ◌}
use novena_gateway.Json.{
  Value, null, bool, num, str, arr, obj, Fields, end, field, Fault, Items, nil, cons, type_error,
  attribute_error, get, get_or, get_field, is_dict, is_null, truthy, or_dict, to_float, Float,
  scale, ltb_float, sub_float, eq_value, codes, lower, eq_codes,
}
use novena_gateway.Governed.Guard.{
  Platform, Error, rejected, fault, lift, reject_if, local_authority, prerequisite_invalid,
  prerequisite_unmet, prerequisite_stale,
}
use novena_gateway.Governed.Validate.{str_of, mem_of}
use Prim.Native.String

unfoldable pub has_key : Value → String → Bool
unfolding get_field
has_key (obj fs) k = elim (get_field k fs) [ none ↦ false | some v ↦ true ]
has_key _ k = false

-- `str(authority).lower() in {"local", "hand", "manual"}`
unfoldable pub blocks_remote : String → Bool
blocks_remote authority =
    any (λ mode. eq_codes (lower (codes authority)) (codes mode)) ("local" ∷ "hand" ∷ "manual" ∷ [])

unfoldable pub check_equals : Value → Value → Result Error (Unit {0})
unfolding has_key
check_equals prerequisite actual =
    if has_key prerequisite "equals"
    then (do
      wanted ← lift (get prerequisite "equals")
      reject_if (not (eq_value actual wanted)) prerequisite_unmet)
    else ok tt

unfoldable pub check_in : Value → Value → Result Error (Unit {0})
unfolding has_key
check_in prerequisite actual =
    if has_key prerequisite "in"
    then (do
      wanted ← lift (get prerequisite "in")
      inside ← lift (mem_of actual wanted)
      reject_if (not inside) prerequisite_unmet)
    else ok tt

unfoldable pub check_seen : Float → Value → Value → Result Error (Unit {0})
check_seen now age observed_at =
    if is_null observed_at then err (rejected prerequisite_stale) else do
      seen ← lift (to_float observed_at)
      limit ← lift (to_float age)
      reject_if (ltb_float limit (sub_float now seen)) prerequisite_stale

unfoldable pub check_age : Float → Value → Value → Result Error (Unit {0})
unfolding check_seen
check_age now prerequisite observed_at = do
  age ← lift (get prerequisite "max_age_seconds")
  if is_null age then ok tt else check_seen now age observed_at

-- `source.get(key)`, of a key that is any value: a dict has texts for keys.
unfoldable pub value_at : Value → Value → Result Fault Value
value_at source (str s) = get source s
value_at (obj fs) (arr vs) = err type_error
value_at (obj fs) (obj gs) = err type_error
value_at (obj fs) key = ok null
value_at source key = err attribute_error

abbrev only : List Value → Value
only (info ∷ []) = info
only _ = obj end

-- `for prerequisite in control.get("prerequisites") or []`, over a list.
unfoldable pub listed : Value → Result Fault Items
listed (arr vs) = ok vs
listed v = if truthy v then err type_error else ok nil

module _ (p : Platform) where
  -- `str(info.get("device_id") or "")`
  abbrev id_text : Value → String
  id_text v = if truthy v then str_of p v else ""

  unfoldable pub matching : List Value → Value → Result Fault (List Value)
  matching [] device = ok []
  matching (info ∷ rest) device = do
    id ← get info "device_id"
    others ← matching rest device
    ok (if str_eq (id_text id) (str_of p device) then info ∷ others else others)

  -- The dict that a prerequisite reads.
  unfoldable pub source_of : Value → List Value → Value → Value → Result Fault Value
  unfolding matching
  source_of runtime devices params prerequisite = do
    kind ← get prerequisite "source"
    if eq_value kind (str "device")
        then (do
          device ← get params "device_id"
          matches ← matching devices device
          ok (only matches))
        else ok runtime

  -- One round of the loop.
  unfoldable pub check_prerequisite :
      Float → Value → List Value → Value → Value → Result Error (Unit {0})
  check_prerequisite now runtime devices params prerequisite = do
    reject_if (not (is_dict prerequisite)) prerequisite_invalid
    source ← lift (source_of runtime devices params prerequisite)
    key ← lift (get prerequisite "key")
    actual ← lift (value_at source key)
    check_equals prerequisite actual
    check_in prerequisite actual
    observed_at ← lift (get source (String.◌++◌ (str_of p key) "_observed_at"))
    check_age now prerequisite observed_at

  unfoldable pub check_all : Float → Value → List Value → Value → Items → Result Error (Unit {0})
  check_all now runtime devices params nil = ok tt
  check_all now runtime devices params (cons prerequisite rest) =
      check_prerequisite now runtime devices params prerequisite
      >> check_all now runtime devices params rest

  unfoldable pub enforce_prerequisites :
      Float → Value → List Value → Value → Value → Result Error (Unit {0})
  unfolding listed
  enforce_prerequisites now runtime devices control params = do
    authority ← lift (get_or runtime "authority_mode" (str "unknown"))
    reject_if (blocks_remote (str_of p authority)) local_authority
    raw ← lift (get control "prerequisites")
    prerequisites ← lift (listed raw)
    check_all now runtime devices params prerequisites
