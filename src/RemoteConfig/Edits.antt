-- ===== src/RemoteConfig/Edits.antt =====
-- The four updates of `RemoteConfigHandler`: the whole configuration, and the replacement, addition and
-- removal of connectors, each on the configuration that is read from the file.
use novena_gateway.Common.{
  ℕ, suc, String, Bool, true, false, not, Option, none, some, List, [], ◌∷◌, str_eq, ◌==◌,
  if◌then◌else◌, Result, ok, err, ◌>>=◌, ◌>>◌, raise_if,
}
use novena_gateway.Common.Int.{ℤ}
use novena_gateway.Json.{
  Value, str, arr, obj, Items, nil, cons, Fields, end, field, Fault, type_error, get, get_or,
  get_field, truthy, eq_value,
}
use novena_gateway.RemoteConfig.{
  Site, Status, Surroundings, ConfigError, fault, lift, no_name, not_found, already_exists,
  not_a_list, invalid_config, unknown_action, file_missing, connectors_of,
  apply_config_with_rollback,
}

unfoldable pub set_field : String → Value → Fields → Fields
set_field k v end = field k v end
set_field k v (field j w fs) = if str_eq j k then field j v fs else field j w (set_field k v fs)

-- `d[k] = v`
unfoldable pub set_key : String → Value → Value → Result Fault Value
unfolding set_field
set_key k v (obj fs) = ok (obj (set_field k v fs))
set_key k v _ = err type_error

-- The loop of `_apply_connector_update`: the first connector of the name is replaced.
unfoldable pub replace_named : Value → Value → Items → Result Fault (Option Items)
replace_named name connector nil = ok none
replace_named name connector (cons c rest) = do
  given ← get c "name"
  if eq_value given name then ok (some (cons connector rest)) else (do
    others ← replace_named name connector rest
    elim others [ none ↦ ok none | some vs ↦ ok (some (cons c vs)) ])

-- `conn.get("name") == connector_name`, for some connector.
unfoldable pub has_named : Value → Items → Result Fault Bool
has_named name nil = ok false
has_named name (cons c rest) = do
  given ← get c "name"
  if eq_value given name then ok true else has_named name rest

unfoldable pub append_item : Items → Value → Items
append_item nil v = cons v nil
append_item (cons c rest) v = cons c (append_item rest v)

-- `[c for c in connectors if c.get("name") != connector_name]`
unfoldable pub without_named : Value → Items → Result Fault Items
without_named name nil = ok nil
without_named name (cons c rest) = do
  given ← get c "name"
  others ← without_named name rest
  ok (if eq_value given name then others else cons c others)

unfoldable pub count : Items → ℕ
count nil = 0
count (cons c rest) = let n = count rest in suc n

-- The connectors of the configuration that is read.
unfoldable pub read_connectors : Value → Result ConfigError Items
read_connectors config = lift (do raw ← get_or config "connectors" (arr nil); connectors_of raw)

-- The name, which must not be empty.
unfoldable pub name_of : Value → Result ConfigError Value
name_of connector_config = do
  name ← lift (get connector_config "name")
  raise_if (not (truthy name)) no_name
  ok name

unfoldable pub replaced : Option Items → Result ConfigError Items
replaced none = err not_found
replaced (some vs) = ok vs

-- The list that replaces the connectors.
unfoldable pub listed_connectors : Value → Value → Result ConfigError Value
listed_connectors (arr vs) config = lift (set_key "connectors" (arr vs) config)
listed_connectors _ config = err not_a_list

unfoldable pub update_named : Value → Value → Result ConfigError Value
unfolding read_connectors name_of replaced
update_named connector_config config = do
  name ← name_of connector_config
  connectors ← read_connectors config
  found ← lift (replace_named name connector_config connectors)
  others ← replaced found
  lift (set_key "connectors" (arr others) config)

-- The configuration that `_apply_connector_update` goes on with.
unfoldable pub edit_update : Value → Value → Result ConfigError Value
unfolding listed_connectors update_named
edit_update (obj fs) config = elim (get_field "connectors" fs) [
  | some connectors ↦ listed_connectors connectors config
  | none ↦ update_named (obj fs) config
]
edit_update connector_config config = err (fault type_error)

-- That of `_apply_connector_add`.
unfoldable pub edit_add : Value → Value → Result ConfigError Value
unfolding read_connectors name_of
edit_add connector_config config = do
  name ← name_of connector_config
  connectors ← read_connectors config
  taken ← lift (has_named name connectors)
  raise_if taken already_exists
  lift (set_key "connectors" (arr (append_item connectors connector_config)) config)

-- That of `_apply_connector_remove`.
unfoldable pub edit_remove : Value → Value → Result ConfigError Value
unfolding read_connectors name_of
edit_remove connector_config config = do
  name ← name_of connector_config
  connectors ← read_connectors config
  others ← lift (without_named name connectors)
  raise_if (count others == count connectors) not_found
  lift (set_key "connectors" (arr others) config)

abbrev is_nil : List String → Bool
is_nil [] = true
is_nil (x ∷ xs) = false

module _ (w : Surroundings) where
  -- The validation and the transaction, of an edited configuration.
  unfoldable pub apply_edited :
      ℕ → ℤ → String → Result ConfigError Value → Site → Result ConfigError Status × Site
  apply_edited ts now action (err e) s = (err e, s)
  apply_edited ts now action (ok config) s =
      if is_nil (w.validate_config config)
      then apply_config_with_rollback w ts now action config s
      else (err invalid_config, s)

  -- An edit of the configuration in the file.
  unfoldable pub apply_edit :
      ℕ → ℤ → String → (Value → Result ConfigError Value) → Site → Result ConfigError Status × Site
  unfolding apply_edited
  apply_edit ts now action edit s = elim s.config_file [
    | none ↦ (err file_missing, s)
    | some config ↦ apply_edited ts now action (edit config) s
  ]

  -- The branches of `_on_config_update` on the action.
  unfoldable pub apply_action : ℕ → ℤ → Value → Value → Site → Result ConfigError Status × Site
  unfolding apply_edit apply_edited edit_update edit_add edit_remove
  apply_action ts now action config s =
      if eq_value action (str "full_update")
      then apply_edited ts now "full_update" (ok config) s
      else if eq_value action (str "connector_update")
      then apply_edit ts now "connector_update" (edit_update config) s
      else if eq_value action (str "connector_add")
      then apply_edit ts now "connector_add" (edit_add config) s
      else if eq_value action (str "connector_remove")
      then apply_edit ts now "connector_remove" (edit_remove config) s
      else (err unknown_action, s)
