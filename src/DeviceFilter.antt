-- ===== src/DeviceFilter.antt =====
-- `DeviceFilter` of novena_gateway/gateway/device_filter.py. `re.fullmatch` is a parameter: of a pattern
-- and a name, whether the whole name matches.
use novena_gateway.Common.{
  String, ◌≡◌, refl, ◌⊎◌, inl, inr, ◌↔◌, Bool, true, false, ◌&&◌, List, [], ◌∷◌, any, arith, str_eq,
  eq_iff, if◌then◌else◌, Bool-cases,
}
use novena_gateway.Common.Dict.{Dict}

-- The configuration: for each connector, the patterns of the devices that it denies and allows.
pub record DeviceFilter : Type 0 where
  pub deny : Dict String (List String)
  pub allow : Dict String (List String)

module _ (fullmatch : String → String → Bool) where
  -- One loop over a list: some pattern of the connector matches the device.
  unfoldable pub lists : String → String → Dict String (List String) → Bool
  lists connector device [] = false
  lists connector device ((con_name, device_list) ∷ rest) =
      if str_eq con_name connector
        && any (λ pattern_text. fullmatch pattern_text device) device_list
      then true
      else lists connector device rest

  unfoldable pub validate_device : DeviceFilter → String → String → Bool
  validate_device config connector device =
      if lists connector device config.deny
      then false
      else if lists connector device config.allow
      then true
      else true

  -- An entry of the list names the connector and holds a pattern that matches the device.
  abbrev pub Denied : String → String → Dict String (List String) → Type 0
  Denied connector device [] = ⊥
  Denied connector device ((con_name, device_list) ∷ rest) =
      ((con_name ≡ connector)
        × (any (λ pattern_text. fullmatch pattern_text device) device_list ≡ true))
      ⊎ Denied connector device rest

  lists-Denied :
      (connector device : String) (d : Dict String (List String))
      → (lists connector device d ≡ true) ↔ Denied connector device d
  unfolding lists
  lists-Denied connector device [] = (λ h. cc, λ h. absurd h)
  lists-Denied connector device ((n, ps) ∷ rest) =
      let (to, from) = lists-Denied connector device rest in
      elim (Bool-cases
        (str_eq n connector && any (λ pattern_text. fullmatch pattern_text device) ps)) [
          | inl hit ↦
              rw hit (λ h. inl (ground (arith, eq_iff n connector), ground arith), λ h. refl)
          | inr miss ↦ rw miss (
            λ h. inr (to h),
            λ h. elim h [
              | inl (same, found) ↦ ground (arith, eq_iff n connector, same, found, miss)
              | inr later ↦ from later
            ],
          )
        ]

  -- Whatever the allow list holds, a device is refused exactly when the deny list names its connector
  -- with a pattern that matches it.
  pub refused_iff_Denied :
      (config : DeviceFilter) (allowed : Dict String (List String)) (connector device : String)
      → (validate_device (record config { allow = allowed }) connector device ≡ false)
        ↔ Denied connector device config.deny
  unfolding validate_device
  refused_iff_Denied config allowed connector device =
      let (to, from) = lists-Denied connector device config.deny in
      (λ h. to (ground arith), λ h. rw (from h) refl)
