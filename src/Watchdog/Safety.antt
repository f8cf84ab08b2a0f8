-- ===== src/Watchdog/Safety.antt =====
-- What `_check_network` asks of the privileged helper, and what a change of the interface needs.
use novena_gateway.Common.{
  ℕ, zero, suc, String, ◌≡◌, ◌≢◌, refl, inl, inr, Bool, true, false, not, ◌&&◌, Option, none, some,
  List, [], ◌∷◌, ◌++◌, is_some, arith, str_eq, eq_iff, Bool-cases,
}
use novena_gateway.Common.Int.{ℤ}
use novena_gateway.Common.Dict.{Dict}
use novena_gateway.Watchdog.{
  World, Watchdog, Call, mem, is_healthy, eligible, is_uplink, probe, current, preferred, choose,
  needed, attempt, applied, set_interface_metric, switch, put_back, restore, restore_all,
  check_network,
}
use novena_gateway.Watchdog.Selection.{choose_other, preferred-is_healthy}

-- Every call is on an interface whose role is uplink.
abbrev pub OnUplinks : Dict String String → World → List Call → Type 0
OnUplinks roles w [] = Unit
OnUplinks roles w (c ∷ cs) = (is_uplink roles w c.interface ≡ true) × OnUplinks roles w cs

OnUplinks-append :
    (roles : Dict String String) (w : World) (xs ys : List Call)
    → OnUplinks roles w xs
    → OnUplinks roles w ys
    → OnUplinks roles w (xs ++ ys)
OnUplinks-append roles w [] ys h k = k
OnUplinks-append roles w (x ∷ xs) ys h k = (h.0, OnUplinks-append roles w xs ys h.1 k)

-- The roles stay, and the calls so far are on uplinks.
abbrev Guarded : Dict String String → World → Watchdog × List Call → Type 0
Guarded roles w (d, calls) = (d.roles ≡ roles) × OnUplinks roles w calls

put_back-Guarded :
    (roles : Dict String String) (w : World) (i uuid : String) (metric : ℤ)
    (found : Option (String × ℤ)) (d : Watchdog) (calls : List Call)
    → Guarded roles w (d, calls)
    → is_uplink roles w i ≡ true
    → Guarded roles w (put_back w i uuid metric found (d, calls))
unfolding put_back
put_back-Guarded roles w i uuid metric none d calls h up = h
put_back-Guarded roles w i uuid metric (some (found, m)) d calls h up =
    let call : Call = record { interface = i; uuid = uuid; metric = metric } in
    let more : OnUplinks roles w (calls ++ call ∷ []) =
      OnUplinks-append roles w calls (call ∷ []) h.1 (up, tt) in
    elim (Bool-cases (str_eq found uuid)) [
      | inr other ↦ rw other h
      | inl same ↦ elim (Bool-cases (w.accepts i uuid metric)) [
        | inl taken ↦ rw (same, taken) (h.0, more)
        | inr refused ↦ rw (same, refused) (h.0, more)
      ]
    ]

restore-Guarded :
    (roles : Dict String String) (w : World) (e : String × (String × ℤ)) (r : Watchdog × List Call)
    → Guarded roles w r
    → Guarded roles w (restore w e r)
unfolding restore
restore-Guarded roles w (i, (uuid, metric)) (d, calls) h =
    let test : Bool =
      not (str_eq i d.active_interface) && mem i d.interfaces && is_uplink d.roles w i in
    elim (Bool-cases test) [
      | inr stays ↦ rw stays h
      | inl goes ↦
          let up : is_uplink roles w i ≡ true = rw (← h.0) (ground arith) in
          rw goes (put_back-Guarded roles w i uuid metric (w.profile i) d calls h up)
    ]

restore_all-Guarded :
    (roles : Dict String String) (w : World) (es : List (String × (String × ℤ)))
    (r : Watchdog × List Call)
    → Guarded roles w r
    → Guarded roles w (restore_all w es r)
unfolding restore_all
restore_all-Guarded roles w [] r h = h
restore_all-Guarded roles w (e ∷ es) r h =
    restore_all-Guarded roles w es (restore w e r) (restore-Guarded roles w e r h)

healthy-uplink :
    (roles : Dict String String) (w : World) (i : String)
    → is_healthy roles w i ≡ true
    → eligible roles w i ≡ true
unfolding is_healthy probe
healthy-uplink roles w i h = ground arith

eligible-uplink :
    (roles : Dict String String) (w : World) (i : String)
    → eligible roles w i ≡ true
    → is_uplink roles w i ≡ true
unfolding eligible
eligible-uplink roles w i h = ground arith

attempt-Guarded :
    (w : World) (i : String) (m : Option ℕ) (d : Watchdog)
    → is_uplink d.roles w i ≡ true
    → ((attempt w i m d).1.roles ≡ d.roles) × OnUplinks d.roles w (attempt w i m d).2
unfolding attempt set_interface_metric
attempt-Guarded w i none d up = (refl, tt)
attempt-Guarded w i (some zero) d up = (refl, tt)
attempt-Guarded w i (some (suc m)) d up = ground arith

applied-Guarded :
    (roles : Dict String String) (w : World) (c before : String) (initial moved : Bool)
    (t : Bool × Watchdog × List Call)
    → Guarded roles w (t.1, t.2)
    → Guarded roles w (applied c before initial moved t)
applied-Guarded roles w c before initial moved (true, d, calls) h = h
applied-Guarded roles w c before true moved (false, d, calls) h = ground arith
applied-Guarded roles w c before false moved (false, d, calls) h = h

switch-Guarded :
    (w : World) (candidate : String) (d : Watchdog)
    → (candidate ≢ "" → candidate ≢ current d w → is_uplink d.roles w candidate ≡ true)
    → Guarded d.roles w (switch w candidate d)
unfolding switch
switch-Guarded w candidate d up =
    elim (Bool-cases (not (str_eq candidate "") && not (str_eq candidate (current d w)))) [
      | inr stays ↦ rw stays (ground arith)
      | inl goes ↦
          let on : is_uplink d.roles w candidate ≡ true =
            up (ground (arith, eq_iff candidate ""))
              (ground (arith, eq_iff candidate (current d w))) in
          rw goes (
            applied-Guarded d.roles w candidate (current d w) (str_eq d.active_interface "")
              (is_some (needed d w candidate)) (attempt w candidate (needed d w candidate) d)
              (attempt-Guarded w candidate (needed d w candidate) d on))
    ]

-- What `choose` proposes, where it is another interface than the one in use, is healthy.
chosen-uplink :
    (d : Watchdog) (w : World)
    → (choose d w).0 ≢ ""
    → (choose d w).0 ≢ current d w
    → eligible d.roles w (choose d w).0 ≡ true
chosen-uplink d w named other =
    let same : (choose d w).0 ≡ preferred d w = choose_other d w other in
    let well : is_healthy d.roles w (preferred d w) ≡ true =
      preferred-is_healthy d w (rw same at named) in
    rw same (healthy-uplink d.roles w (preferred d w) well)

-- A check calls the privileged helper only on interfaces whose role is uplink: the metric of a field
-- network is neither changed nor restored.
pub check_network-OnUplinks : (w : World) (d : Watchdog) → OnUplinks d.roles w (check_network w d).1
unfolding check_network
check_network-OnUplinks w d =
    let d' : Watchdog = record d { preferred_successes = (choose d w).1 } in
    let after : Watchdog × List Call = switch w (choose d w).0 d' in
    let guarded : Guarded d.roles w after = switch-Guarded w (choose d w).0 d' (λ named other.
      eligible-uplink d.roles w (choose d w).0
        (chosen-uplink d w named (unfold current in other))) in
    (restore_all-Guarded d.roles w after.0.original_metrics after guarded).1
