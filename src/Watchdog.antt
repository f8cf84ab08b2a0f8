-- ===== src/Watchdog.antt =====
-- novena_gateway/gateway/network_watchdog_handler.py: `NetworkWatchdogHandler`, its modes, one
-- `_check_network` and the restoration of metrics. What the checks read of the system, the kernel's
-- routes, `/sys`, `ping`, `nmcli` and the privileged helper, is a `World`, one for each check.
pub mod Selection
pub mod Safety
use novena_gateway.Common.{
  ℕ, zero, suc, ◌+◌, ◌-◌, String, Bool, true, false, not, ◌&&◌, ◌||◌, Option, none, some, List, [],
  ◌∷◌, ◌++◌, any, head?, is_some, ltb, leb, ◌==◌, str_eq, string_eq, if◌then◌else◌, min,
}
use novena_gateway.Common.Int.{ℤ, pos}
use novena_gateway.Common.Dict.{Dict, lookup, insert, erase, contains}

pub data Mode : Type 0 where
  active diagnostic : Mode

abbrev pub is_active : Mode → Bool
is_active active = true
is_active diagnostic = false

-- `_resolve_mode`, of the requested mode and `helper.available()`.
unfoldable pub resolve_mode : String → Bool → Mode
resolve_mode requested available =
    if str_eq requested "diagnostic"
    then diagnostic
    else if str_eq requested "active" && available
    then active
    else if str_eq requested "active"
    then diagnostic
    else if available
    then active
    else diagnostic

-- `_default_routes` gives `routes`; `physical`, `ping`, `profile` and `accepts` are the answers of
-- `_is_interface_physically_up`, `_ping_interface`, `_nm_profile` and of the helper's
-- `set_route_metric`.
pub record World : Type 0 where
  pub routes : Dict String ℕ
  pub physical : String → Bool
  pub ping : String → Bool
  pub profile : String → Option (String × ℤ)
  pub accepts : String → String → ℤ → Bool

pub record Diagnostic : Type 0 where
  pub role : String
  pub role_reason : String
  pub physical_up : Bool
  pub default_route : Bool
  pub probe_ok : Option Bool
  pub status : String

pub record Watchdog : Type 0 where
  pub mode : Mode
  pub interfaces : List String
  pub roles : Dict String String
  pub active_interface : String
  pub failover_count : ℕ
  pub original_metrics : Dict String (String × ℤ)
  pub preferred_successes : ℕ

-- A call of the privileged helper: interface, profile and metric.
pub record Call : Type 0 where
  pub interface : String
  pub uuid : String
  pub metric : ℤ

abbrev non_empty : Option String → Option String
non_empty none = none
non_empty (some s) = if str_eq s "" then none else some s

-- `_role`
unfoldable pub role : Dict String String → World → String → String × String
role roles w interface = elim (non_empty (lookup interface roles)) [
  | some configured ↦ (configured, "configured")
  | none ↦
      if contains interface w.routes
      then ("uplink", "default_route")
      else ("field", "no_default_route")
]

unfoldable pub is_uplink : Dict String String → World → String → Bool
unfolding role
is_uplink roles w interface = str_eq (role roles w interface).0 "uplink"

unfoldable pub eligible : Dict String String → World → String → Bool
eligible roles w interface = is_uplink roles w interface && contains interface w.routes

-- `probe_ok`: the ping is sent only from an eligible interface that is up.
unfoldable pub probe : Dict String String → World → String → Option Bool
probe roles w interface =
    if eligible roles w interface && w.physical interface then some (w.ping interface) else none

abbrev pub is_true : Option Bool → Bool
is_true none = false
is_true (some b) = b

unfoldable pub is_healthy : Dict String String → World → String → Bool
is_healthy roles w interface = is_true (probe roles w interface)

-- The entry of `diagnostics`.
unfoldable pub diagnose : Dict String String → World → String → Diagnostic
unfolding role
diagnose roles w interface =
    let (r, reason) = role roles w interface in
    record {
      role = r;
      role_reason = reason;
      physical_up = w.physical interface;
      default_route = contains interface w.routes;
      probe_ok = probe roles w interface;
      status =
          if str_eq r "field"
          then "field"
          else if not (eligible roles w interface)
          then "no_default_route"
          else if not (w.physical interface)
          then "down"
          else if is_healthy roles w interface
          then "up"
          else "probe_failed";
    }

unfoldable pub keep : (String → Bool) → List String → List String
keep p [] = []
keep p (x ∷ xs) = let rest = keep p xs in if p x then x ∷ rest else rest

abbrev pub mem : String → List String → Bool
mem x xs = any (str_eq x) xs

abbrev pub or_empty : Option String → String
or_empty none = ""
or_empty (some s) = s

abbrev metric_of : World → String → ℕ
metric_of w i = elim (lookup i w.routes) [ none ↦ 0 | some n ↦ n ]

-- `min(xs, key=routes.get)`: the first of the least.
unfoldable pub least : World → String → List String → String
least w best [] = best
least w best (x ∷ xs) = least w (if ltb (metric_of w x) (metric_of w best) then x else best) xs

abbrev least_of : World → List String → String
least_of w [] = ""
least_of w (x ∷ xs) = least w x xs

-- The interface in use as the check begins: the recorded one, or that of the best default route.
unfoldable pub current : Watchdog → World → String
current d w =
    if str_eq d.active_interface ""
    then least_of w (keep (eligible d.roles w) d.interfaces)
    else d.active_interface

abbrev pub healthy : Watchdog → World → List String
healthy d w = keep (is_healthy d.roles w) d.interfaces

abbrev pub preferred : Watchdog → World → String
preferred d w = or_empty (head? (healthy d w))

-- The candidate, and the count of checks in a row in which a better interface was healthy.
unfoldable pub choose : Watchdog → World → String × ℕ
choose d w =
    if not (mem (current d w) (healthy d w))
    then (preferred d w, 0)
    else if not (str_eq (preferred d w) "") && not (str_eq (preferred d w) (current d w))
    then (
      (if leb 3 (d.preferred_successes + 1) then preferred d w else current d w),
      d.preferred_successes + 1,
    )
    else (current d w, 0)

-- The metrics of the other uplinks.
unfoldable pub other_metrics : Watchdog → World → String → List String → List ℕ
other_metrics d w candidate [] = []
other_metrics d w candidate (i ∷ rest) =
    let others = other_metrics d w candidate rest in
    if not (str_eq i candidate) && eligible d.roles w i then metric_of w i ∷ others else others

abbrev least_metric : ℕ → List ℕ → ℕ
least_metric m [] = m
least_metric m (n ∷ ns) = least_metric (min m n) ns

abbrev pub minimum : List ℕ → Option ℕ
minimum [] = none
minimum (m ∷ ms) = some (least_metric m ms)

-- `self._original_metrics.setdefault`
unfoldable pub set_default :
    String → String × ℤ → Dict String (String × ℤ) → Dict String (String × ℤ)
set_default k v d = if contains k d then d else insert k v d

-- `_set_interface_metric`, with the calls of the helper.
unfoldable pub set_interface_metric : World → String → ℤ → Watchdog → Bool × Watchdog × List Call
unfolding set_default
set_interface_metric w interface metric d =
    if not (is_active d.mode) then (true, d, []) else (elim (w.profile interface) [
      | none ↦ (false, d, [])
      | some (uuid, original) ↦
          let call : Call = record { interface = interface; uuid = uuid; metric = metric } in
          if w.accepts interface uuid metric
          then (
            true,
            record d {
              original_metrics = set_default interface (uuid, original) d.original_metrics;
            },
            call ∷ [],
          )
          else (false, d, call ∷ [])
    ])

-- `needs_metric` with the least metric of the others, where the candidate's route is not better.
unfoldable pub needed : Watchdog → World → String → Option ℕ
needed d w candidate = elim (minimum (other_metrics d w candidate d.interfaces)) [
  | none ↦ none
  | some m ↦ if leb m (metric_of w candidate) then some m else none
]

-- `success`
unfoldable pub attempt : World → String → Option ℕ → Watchdog → Bool × Watchdog × List Call
attempt w candidate none d = (true, d, [])
attempt w candidate (some zero) d = (false, d, [])
attempt w candidate (some (suc m)) d =
    if is_active d.mode then set_interface_metric w candidate (pos m) d else (false, d, [])

abbrev applied : String → String → Bool → Bool → Bool × Watchdog × List Call → Watchdog × List Call
applied candidate now_in_use initial moved (true, d, calls) = (
  record d {
    active_interface = candidate;
    failover_count =
        if not (str_eq now_in_use "") && moved then d.failover_count + 1 else d.failover_count;
  },
  calls,
)
applied candidate now_in_use initial moved (false, d, calls) = (
  if initial && not (str_eq now_in_use "") then record d { active_interface = now_in_use } else d,
  calls,
)

-- The middle of `_check_network`, from `changed` to the restoration.
unfoldable pub switch : World → String → Watchdog → Watchdog × List Call
switch w candidate d =
    let initial : Bool = str_eq d.active_interface "" in
    let before : String = current d w in
    if not (str_eq candidate "") && not (str_eq candidate before)
    then applied candidate before initial (is_some (needed d w candidate))
        (attempt w candidate (needed d w candidate) d)
    else if str_eq candidate "" && not (str_eq before "")
    then (record d { active_interface = "" }, [])
    else if initial && not (str_eq before "")
    then (record d { active_interface = before }, [])
    else (d, [])

-- The restoration of one metric, if the profile is still the one that was changed.
unfoldable pub put_back :
    World → String → String → ℤ → Option (String × ℤ) → Watchdog × List Call → Watchdog × List Call
put_back w interface uuid metric none r = r
put_back w interface uuid metric (some (found, _)) (d, calls) =
    let call : Call = record { interface = interface; uuid = uuid; metric = metric } in
    if not (str_eq found uuid)
    then (d, calls)
    else if w.accepts interface uuid metric
    then (record d { original_metrics = erase interface d.original_metrics }, calls ++ call ∷ [])
    else (d, calls ++ call ∷ [])

-- One round of the loop over a copy of the dict: only an uplink that is not in use.
unfoldable pub restore : World → String × (String × ℤ) → Watchdog × List Call → Watchdog × List Call
unfolding put_back
restore w (interface, (uuid, metric)) (d, calls) =
    if not (str_eq interface d.active_interface)
      && mem interface d.interfaces
      && is_uplink d.roles w interface
    then put_back w interface uuid metric (w.profile interface) (d, calls)
    else (d, calls)

unfoldable pub restore_all :
    World → List (String × (String × ℤ)) → Watchdog × List Call → Watchdog × List Call
restore_all w [] r = r
restore_all w (e ∷ es) r = restore_all w es (restore w e r)

-- `_check_network`: the new state, and the calls of the helper in order.
unfoldable pub check_network : World → Watchdog → Watchdog × List Call
check_network w d =
    let (candidate, successes) = choose d w in
    let after : Watchdog × List Call =
      switch w candidate (record d { preferred_successes = successes }) in
    restore_all w after.0.original_metrics after
