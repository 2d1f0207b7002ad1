-- ===== src/Settings/Router.antt =====
-- apps/MeterCore/Services/settings/ipc/request_router.cpp: `RequestRouter::handle` and `dispatch`. The
-- settings handler that does the work is a parameter; JSON texts are kept as the values they encode.
pub mod Authority
pub mod Secrecy
use msap1_apu.Prelude.{
  ℕ, Bool, true, false, not, ◌||◌, ◌&&◌, List, [], ◌∷◌, ◌++◌, Option, none, some, Result, ok, err,
  if◌then◌else◌,
}
use msap1_apu.Settings.Texts.{
  equals, ends_with, client_key, client_key_suffix, sftp_key_suffix, ca, client_certificate,
  sftp_private_key, known_hosts, password, bearer_token, private_key_passphrase, mqtt_password,
  mqtt_passphrase, passphrase_key, channel_prefix, dot,
}
use msap1_apu.Settings.Access.{
  Command, get_active, save_active, factory_reset, set_secret, get_secret_status, subscribe_events,
  set_named_secret, clear_named_secret, get_named_secret_status, resolve_mqtt_credentials,
  put_asset, delete_asset, get_asset_status, download_asset, resolve_mqtt_assets,
  resolve_data_channel_credentials, resolve_data_channel_assets, Status, ok_status,
  permission_denied, recovery_mode_status, invalid_request, administrator_only, mqtt_runtime_only,
  data_sender_runtime_only, mutation_command, allowed_during_recovery, PeerCredentials, PeerAccess,
  evaluate_peer, may_resolve_runtime_for_uids, exception_status,
}

-- std::invalid_argument, or another exception with its message.
pub data Fault : Type 0 where
  invalid_argument : Fault
  exception : List ℕ → Fault

pub record Request : Type 0 where
  pub command : Command
  pub confirmed : Bool
  pub name : List ℕ
  pub json : List ℕ

pub record Snapshot : Type 0 where
  pub content_hash : List ℕ
  pub settings : List ℕ

-- `decode_settings` is the check of `SettingsCodec::decode`, `valid_channel` that of
-- `valid_data_channel_id`. An operation that can throw also says what it leaves.
pub record SettingsHandler : Type 1 where
  pub State : Type 0
  pub recovery_mode : State → Bool
  pub active : State → Result Fault Snapshot
  pub decode_settings : List ℕ → Result Fault (List ℕ)
  pub save : State → List ℕ → Result Fault Snapshot × State
  pub factory_reset_settings : State → Bool → Result Fault Snapshot × State
  pub set_secret_document : State → List ℕ → Result Fault (Unit {0}) × State
  pub has_secrets : State → Bool
  pub store_secret : State → List ℕ → List ℕ → Result Fault (Unit {0}) × State
  pub clear_secret : State → List ℕ → Result Fault (Unit {0}) × State
  pub has_secret : State → List ℕ → Bool
  pub runtime_secret : State → List ℕ → Result Fault (List ℕ)
  pub store_asset : State → List ℕ → List ℕ → Result Fault (Unit {0}) × State
  pub remove_asset : State → List ℕ → Result Fault (Unit {0}) × State
  pub has_asset : State → List ℕ → Bool
  pub read_asset : State → List ℕ → Result Fault (List ℕ)
  pub valid_channel : List ℕ → Bool

pub data Body : Type 0 where
  no_body subscribed refusal : Body
  document : Snapshot → Body
  presence : Bool → Body
  content : List ℕ → Body
  entries : List (List ℕ × List ℕ) → Body
  message : List ℕ → Body

pub data EventKind : Type 0 where
  settings_saved settings_factory_reset settings_secret_changed settings_asset_changed : EventKind

pub record Response : Type 0 where
  pub status : Status
  pub body : Body

-- The account numbers that the policy asks the system for.
pub record Accounts : Type 0 where
  pub service_group : ℕ
  pub mqtt_uid : Option ℕ
  pub data_sender_uid : Option ℕ

module _ (handler : SettingsHandler) where
  open handler use {
    State, recovery_mode, active, decode_settings, save, factory_reset_settings,
    set_secret_document, has_secrets, store_secret, clear_secret, has_secret, runtime_secret,
    store_asset, remove_asset, has_asset, read_asset, valid_channel,
  }

  -- The answer with the event to publish, or the exception; then the handler and the subscribers.
  abbrev pub Dispatched : Type 0
  Dispatched = Result Fault (Response × Option EventKind) × (State × List ℕ)

  answer_with : Body → Response
  answer_with b = record { status = ok_status; body = b }

  unchanged : State → List ℕ → Body → Dispatched
  unfolding answer_with
  unchanged s subs b = (ok (answer_with b, none), (s, subs))

  changed : EventKind → List ℕ → Result Fault (Unit {0}) × State → Dispatched
  unfolding answer_with
  changed event subs (err f, s) = (err f, (s, subs))
  changed event subs (ok u, s) = (ok (answer_with no_body, some event), (s, subs))

  saved : EventKind → List ℕ → Result Fault Snapshot × State → Dispatched
  unfolding answer_with
  saved event subs (err f, s) = (err f, (s, subs))
  saved event subs (ok snapshot, s) = (ok (answer_with (document snapshot), some event), (s, subs))

  shown : State → List ℕ → Result Fault Body → Dispatched
  unfolding answer_with
  shown s subs (err f) = (err f, (s, subs))
  shown s subs (ok b) = (ok (answer_with b, none), (s, subs))

  active_shown : State → List ℕ → Result Fault Snapshot → Dispatched
  active_shown s subs (err f) = (err f, (s, subs))
  active_shown s subs (ok snapshot) = (
    ok (
      record {
        status = if recovery_mode s then recovery_mode_status else ok_status;
        body = document snapshot;
      },
      none,
    ),
    (s, subs),
  )

  as_content : Result Fault (List ℕ) → Result Fault Body
  as_content (err f) = err f
  as_content (ok c) = ok (content c)

  as_entries : Result Fault (List (List ℕ × List ℕ)) → Result Fault Body
  as_entries (err f) = err f
  as_entries (ok es) = ok (entries es)

  entry :
      List ℕ
      → Result Fault (List ℕ)
      → Result Fault (List (List ℕ × List ℕ))
      → Result Fault (List (List ℕ × List ℕ))
  entry key (err f) rest = err f
  entry key (ok v) (err f) = err f
  entry key (ok v) (ok es) = ok ((key, v) ∷ es)

  -- The loops over the keys of a map, whose values are read under `prefix + key`.
  unfoldable pub collect :
      (List ℕ → Bool)
      → (List ℕ → Result Fault (List ℕ))
      → List ℕ
      → List (List ℕ)
      → Result Fault (List (List ℕ × List ℕ))
  unfolding entry
  collect has value prefix [] = ok []
  collect has value prefix (key ∷ keys) =
      let rest = collect has value prefix keys in
      if has (prefix ++ key) then entry key (value (prefix ++ key)) rest else rest

  save_decoded : State → List ℕ → Result Fault (List ℕ) → Dispatched
  unfolding saved
  save_decoded s subs (err f) = (err f, (s, subs))
  save_decoded s subs (ok settings) = saved settings_saved subs (save s settings)

  private_key : List ℕ → Bool
  private_key name =
      equals name client_key || ends_with name client_key_suffix || ends_with name sftp_key_suffix

  -- The `switch` of `dispatch`.
  unfoldable pub perform : Command → State → List ℕ → ℕ → Request → Dispatched
  unfolding unchanged changed saved shown active_shown as_content as_entries entry save_decoded
      private_key
  perform get_active s subs connection request = active_shown s subs (active s)
  perform save_active s subs connection request = save_decoded s subs (decode_settings request.json)
  perform factory_reset s subs connection request =
      saved settings_factory_reset subs (factory_reset_settings s request.confirmed)
  perform set_secret s subs connection request =
      changed settings_secret_changed subs (set_secret_document s request.json)
  perform get_secret_status s subs connection request = unchanged s subs (presence (has_secrets s))
  perform subscribe_events s subs connection request =
      unchanged s (subs ++ (connection ∷ [])) subscribed
  perform set_named_secret s subs connection request =
      changed settings_secret_changed subs (store_secret s request.name request.json)
  perform clear_named_secret s subs connection request =
      changed settings_secret_changed subs (clear_secret s request.name)
  perform get_named_secret_status s subs connection request =
      unchanged s subs (presence (has_secret s request.name))
  perform resolve_mqtt_credentials s subs connection request = shown s subs (
      as_entries (
        entry password (runtime_secret s mqtt_password)
          (entry passphrase_key (runtime_secret s mqtt_passphrase) (ok []))))
  perform put_asset s subs connection request =
      changed settings_asset_changed subs (store_asset s request.name request.json)
  perform delete_asset s subs connection request =
      changed settings_asset_changed subs (remove_asset s request.name)
  perform get_asset_status s subs connection request =
      unchanged s subs (presence (has_asset s request.name))
  perform download_asset s subs connection request =
      (if private_key request.name
        then (ok (record { status = permission_denied; body = refusal }, none), (s, subs))
        else shown s subs (as_content (read_asset s request.name)))
  perform resolve_mqtt_assets s subs connection request = shown s subs (
      as_entries
        (collect (has_asset s) (read_asset s) [] (ca ∷ client_certificate ∷ client_key ∷ [])))
  perform resolve_data_channel_credentials s subs connection request =
      (if not (valid_channel request.name)
        then (err invalid_argument, (s, subs))
        else shown s subs (
            as_entries (
              collect (has_secret s) (runtime_secret s) ((channel_prefix ++ request.name) ++ dot)
                (password ∷ bearer_token ∷ private_key_passphrase ∷ []))))
  perform resolve_data_channel_assets s subs connection request =
      (if not (valid_channel request.name)
        then (err invalid_argument, (s, subs))
        else shown s subs (
            as_entries (
              collect (has_asset s) (read_asset s) ((channel_prefix ++ request.name) ++ dot)
                (ca ∷ client_certificate ∷ client_key ∷ sftp_private_key ∷ known_hosts ∷ []))))

  unfoldable pub dispatch : State → List ℕ → ℕ → Request → Dispatched
  dispatch s subs connection request = perform request.command s subs connection request

  denied : State → List ℕ → Status → Response × (Option EventKind × (State × List ℕ))
  denied s subs status = (record { status = status; body = refusal }, (none, (s, subs)))

  finish : Dispatched → Response × (Option EventKind × (State × List ℕ))
  finish (ok (response, event), after) = (response, (event, after))
  finish (err invalid_argument, after) =
      (record { status = invalid_request; body = refusal }, (none, after))
  finish (err (exception text), after) =
      (record { status = exception_status text; body = message text }, (none, after))

  -- What `handle` sends back, the event that it publishes, and what it leaves.
  unfoldable pub handle :
      Accounts
      → State
      → List ℕ
      → ℕ
      → PeerCredentials
      → Request
      → Response × (Option EventKind × (State × List ℕ))
  unfolding denied finish
  handle accounts s subs connection peer request =
      let access = evaluate_peer accounts.service_group peer in
      if recovery_mode s && not (allowed_during_recovery request.command)
      then denied s subs recovery_mode_status
      else if mqtt_runtime_only request.command
          && not (may_resolve_runtime_for_uids peer.uid accounts.mqtt_uid)
      then denied s subs permission_denied
      else if data_sender_runtime_only request.command
          && not (may_resolve_runtime_for_uids peer.uid accounts.data_sender_uid)
      then denied s subs permission_denied
      else if mutation_command request.command && not access.operator_access
      then denied s subs permission_denied
      else if administrator_only request.command && not access.administrator
      then denied s subs permission_denied
      else finish (dispatch s subs connection request)
