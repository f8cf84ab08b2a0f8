-- ===== src/Publisher/Session.antt =====
-- The connection and the credentials of the publisher: the callbacks of the MQTT client, the switch to
-- the bootstrap credentials, and their rotation. What the client does with the credentials is outside.
pub mod Apart
pub mod Fallback
use novena_gateway.Common.{
  ℕ, zero, suc, ◌+◌, String, Bool, true, false, not, ◌&&◌, ◌||◌, Option, none, some, List, [], ◌∷◌,
  ltb, leb, str_eq, is_some, if◌then◌else◌, Result, ok, err, ◌>>=◌, ◌>>◌,
}
use novena_gateway.Json.{Value, null, str, Fault, get, truthy, or_dict, eq_value}
use novena_gateway.Publisher.{Publisher, Bootstrap}

-- The reason code of a connection: success, or denied with the text "not authorized".
pub data Reason : Type 0 where
  success not_authorized other : Reason

module _ {S : Type 0} where
  -- `_show_activation_message_if_needed`
  unfoldable pub show_activation_message : Publisher S → Publisher S
  show_activation_message s =
      if leb 3 s.consecutive_failures && not s.activation_message_shown
      then record s { activation_message_shown = true }
      else s

  -- A pending release keeps the operational credentials until the broker has revoked them.
  abbrev pub awaits_revocation : Publisher S → Bool
  awaits_revocation s =
      s.release_in_progress && is_some s.release_request_id && not s.operational_credentials_retired

  abbrev pub has_bootstrap : Publisher S → Bool
  has_bootstrap s =
      s.bootstrap.enabled && not (str_eq s.bootstrap.username "" || str_eq s.bootstrap.password "")

  -- `_switch_to_bootstrap_if_needed`
  unfoldable pub switch_to_bootstrap : Publisher S → Publisher S
  switch_to_bootstrap s =
      if s.bootstrap_mode || ltb s.consecutive_failures 3
      then s
      else if awaits_revocation s
      then s
      else if has_bootstrap s
      then record s {
        bootstrap_mode = true;
        username = str s.bootstrap.username;
        password = str s.bootstrap.password;
      }
      else s

  -- `_retire_revoked_operational_credentials`, where `erased` says that the file names the same release
  -- and was written, and that the callback returned.
  unfoldable pub retire_credentials : Bool → Publisher S → Publisher S
  retire_credentials erased s =
      if awaits_revocation s
        && not s.bootstrap_mode
        && s.has_config_path
        && s.has_on_release_revoked
        && erased
      then record s {
        username = str "";
        password = str "";
        claim_id = null;
        operational_credentials_retired = true;
        consecutive_failures = 2;
      }
      else s

  abbrev pub failed : Publisher S → Publisher S
  failed s =
      switch_to_bootstrap
        (show_activation_message (record s { consecutive_failures = s.consecutive_failures + 1 }))

  -- `_on_connect`; the replay that it starts is a turn of its own.
  unfoldable pub on_connect : Reason → Bool → Publisher S → Publisher S
  on_connect success erased s = record s {
    connected = true;
    consecutive_failures = 0;
    activation_message_shown = false;
  }
  on_connect not_authorized erased s =
      failed (retire_credentials erased (record s { connected = false }))
  on_connect other erased s = failed (record s { connected = false })

  -- `_on_disconnect`
  unfoldable pub on_disconnect : Reason → Publisher S → Publisher S
  on_disconnect success s = record s { connected = false }
  on_disconnect not_authorized s = failed (record s { connected = false })
  on_disconnect other s = failed (record s { connected = false })

-- The arguments of `_rotate_password`, of which the acknowledgement repeats the others.
pub record Rotation : Type 0 where
  pub action : String
  pub new_password : Value
  pub new_username : Value
  pub claim_id : Value

-- What `_on_provision_message` does with a message.
pub data Provision : Type 0 where
  release missing_password unknown_action : Provision
  rotation : Rotation → Provision

abbrev pub or_value : Value → Value → Value
or_value a b = if truthy a then a else b

abbrev pub rotation_of : Value → String → Value → Value → Value → Provision
rotation_of password action username serial claim =
    if truthy password
    then rotation (record {
      action = action;
      new_password = password;
      new_username = or_value username serial;
      claim_id = claim;
    })
    else missing_password

unfoldable pub rotation_from : String → String → Value → Result Fault Provision
rotation_from serial_number action payload = do
  mqtt ← get payload "mqtt"
  password ← get payload "new_password"
  nested ← get (or_dict mqtt) "password"
  username ← get (or_dict mqtt) "username"
  claim ← get payload "claim_id"
  ok (rotation_of (or_value password nested) action username (str serial_number) claim)

abbrev pub names_action : Value → String → Bool
names_action action name = eq_value action (str name)

unfoldable pub provision_by : String → Value → Value → Result Fault Provision
unfolding rotation_from
provision_by serial_number payload action =
    if names_action action "release"
    then ok release
    else if names_action action "rotate_password"
    then rotation_from serial_number "rotate_password" payload
    else if names_action action "activate"
    then rotation_from serial_number "activate" payload
    else ok unknown_action

-- `_on_provision_message`, up to its call.
unfoldable pub provision_of : String → Value → Result Fault Provision
unfolding provision_by
provision_of serial_number payload = do
  action ← get payload "action"
  provision_by serial_number payload action

abbrev pub activates : Rotation → Bool
activates r = str_eq r.action "activate" && truthy r.claim_id

module _ {S : Type 0} where
  abbrev pub claim_changed : Rotation → Publisher S → Bool
  claim_changed r s = activates r && not (eq_value r.claim_id s.claim_id)

  -- The part of `_rotate_password` in memory.
  unfoldable pub adopt : Rotation → Publisher S → Publisher S
  adopt r s =
      let s' : Publisher S = record s {
        username = or_value r.new_username s.username;
        password = r.new_password;
        bootstrap_mode = false;
      } in
      if activates r
      then record s' {
        claim_id = r.claim_id;
        release_request_id = none;
        release_in_progress = false;
        operational_credentials_retired = false;
      }
      else s'

  -- `_rotate_password`, where `written` says that the file was written and `cleared` that the callback
  -- returned: the success that it acknowledges, and the publisher. Without a file the callback has no
  -- configuration to be called with.
  unfoldable pub rotate_password : Bool → Bool → Rotation → Publisher S → Bool × Publisher S
  unfolding adopt
  rotate_password written cleared r s =
      if s.has_config_path && not written
      then (false, s)
      else if claim_changed r s && s.has_on_claim_changed && not (s.has_config_path && cleared)
      then (false, s)
      else (true, adopt r s)
