-- ===== src/Watchdog/Selection.antt =====
-- Which interface `_check_network` puts in use.
use novena_gateway.Common.{
  ℕ, ◌<◌, String, ◌≡◌, ◌≢◌, refl, ◌∙◌, ap, inl, inr, Bool, true, some, List, [], ◌∷◌, head?, arith,
  eq_iff, Option-cases,
}
use novena_gateway.Common.Int.{ℤ}
use novena_gateway.Watchdog.{
  World, Watchdog, Call, keep, mem, or_empty, is_healthy, current, healthy, preferred, choose,
  switch, restore, restore_all, check_network,
}

pub active-restore_all :
    (w : World) (es : List (String × (String × ℤ))) (r : Watchdog × List Call)
    → (restore_all w es r).0.active_interface ≡ r.0.active_interface
unfolding restore_all
active-restore_all w [] r = refl
active-restore_all w (e ∷ es) r =
    active-restore_all w es (restore w e r) ∙ (unfold restore in ground arith)

head-keep :
    (p : String → Bool) (xs : List String) (x : String) → head? (keep p xs) ≡ some x → p x ≡ true
unfolding keep
head-keep p [] y h = cc
head-keep p (x ∷ xs) y h = ground (arith, head-keep p xs y)

pub preferred-is_healthy :
    (d : Watchdog) (w : World) → preferred d w ≢ "" → is_healthy d.roles w (preferred d w) ≡ true
preferred-is_healthy d w h = elim (Option-cases (head? (healthy d w))) [
  | inl none_well ↦ absurd (h (ap or_empty none_well))
  | inr (x, e) ↦ rw e (head-keep (is_healthy d.roles w) d.interfaces x e)
]

pub choose_other :
    (d : Watchdog) (w : World) → (choose d w).0 ≢ current d w → (choose d w).0 ≡ preferred d w
unfolding choose
choose_other d w h = ground arith

pub active-check_network :
    (w : World) (d : Watchdog)
    → (check_network w d).0.active_interface
      ≡ (switch w
          (choose d w).0
          (record d { preferred_successes = (choose d w).1 })).0.active_interface
unfolding check_network
active-check_network w d = active-restore_all w _ _

current-record :
    (d : Watchdog) (w : World) (n : ℕ)
    → current (record d { preferred_successes = n }) w ≡ current d w
unfolding current
current-record d w n = refl

current-active :
    (d : Watchdog) (w : World) → d.active_interface ≢ "" → current d w ≡ d.active_interface
unfolding current
current-active d w h = ground (arith, eq_iff d.active_interface "")

choose_kept :
    (d : Watchdog) (w : World)
    → mem (current d w) (healthy d w) ≡ true
    → d.preferred_successes < 2
    → (choose d w).0 ≡ current d w
unfolding choose
choose_kept d w well few = ground arith

switch_same :
    (w : World) (d : Watchdog)
    → d.active_interface ≢ ""
    → (switch w d.active_interface d).0.active_interface ≡ d.active_interface
unfolding switch
switch_same w d used =
    rw (current-active d w used)
      (ground (arith, eq_iff d.active_interface "", eq_iff d.active_interface d.active_interface))

-- A check keeps an interface that is in use and is found healthy, while the counter of the checks in a row
-- in which another interface was preferred is below 2 as the check begins.
pub active_kept :
    (w : World) (d : Watchdog)
    → d.active_interface ≢ ""
    → mem d.active_interface (healthy d w) ≡ true
    → d.preferred_successes < 2
    → (check_network w d).0.active_interface ≡ d.active_interface
active_kept w d used well few =
    let same : current d w ≡ d.active_interface = current-active d w used in
    let chosen : (choose d w).0 ≡ d.active_interface = choose_kept d w (rw same well) few ∙ same in
    active-check_network w d
    ∙ rw chosen (switch_same w (record d { preferred_successes = (choose d w).1 }) used)

choose_reset : (d : Watchdog) (w : World) → healthy d w ≡ [] → (choose d w).0 ≡ ""
unfolding choose
choose_reset d w h = rw h

switch_none : (w : World) (d : Watchdog) → (switch w "" d).0.active_interface ≡ ""
unfolding switch current
switch_none w d = ground (arith, eq_iff d.active_interface "")

-- Where no interface is healthy, none is in use after the check.
pub none_healthy :
    (w : World) (d : Watchdog) → healthy d w ≡ [] → (check_network w d).0.active_interface ≡ ""
none_healthy w d h =
    active-check_network w d
    ∙ rw (choose_reset d w h) (switch_none w (record d { preferred_successes = (choose d w).1 }))
