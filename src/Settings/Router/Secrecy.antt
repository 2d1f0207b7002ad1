-- ===== src/Settings/Router/Secrecy.antt =====
-- apps/MeterCore/Services/settings/ipc/request_router.cpp: what the answers tell of the runtime secrets
-- and the private keys.
use msap1_apu.Prelude.{ℕ, ◌≡◌, ◌⊎◌, not, ◌&&◌, List, ◌++◌, Option, some, Result, if◌then◌else◌}
use msap1_apu.Settings.Texts.{client_key, client_key_suffix, sftp_key_suffix}
use msap1_apu.Settings.Access.{
  Command, resolve_mqtt_credentials, resolve_mqtt_assets, resolve_data_channel_credentials,
  resolve_data_channel_assets, permission_denied, recovery_mode_status, administrator_only,
  mqtt_runtime_only, data_sender_runtime_only, mutation_command, allowed_during_recovery,
  PeerCredentials, evaluate_peer, may_resolve_runtime_for_uids,
}
use msap1_apu.Settings.Router.{Fault, SettingsHandler, Response, EventKind, Accounts, denied}

-- The names under which private keys are kept.
abbrev pub IsPrivateKey : List ℕ → Type 0
IsPrivateKey name =
    (name ≡ client_key)
    ⊎ ((channel : List ℕ) × (name ≡ channel ++ client_key_suffix))
    ⊎ ((channel : List ℕ) × (name ≡ channel ++ sftp_key_suffix))

-- The peers that a command may show secrets to: root, and the account of one service.
abbrev pub Entitled : Accounts → PeerCredentials → Command → Type 0
Entitled accounts peer resolve_mqtt_credentials =
    (peer.uid ≡ 0) ⊎ (accounts.mqtt_uid ≡ some peer.uid)
Entitled accounts peer resolve_mqtt_assets = (peer.uid ≡ 0) ⊎ (accounts.mqtt_uid ≡ some peer.uid)
Entitled accounts peer resolve_data_channel_credentials =
    (peer.uid ≡ 0) ⊎ (accounts.data_sender_uid ≡ some peer.uid)
Entitled accounts peer resolve_data_channel_assets =
    (peer.uid ≡ 0) ⊎ (accounts.data_sender_uid ≡ some peer.uid)
Entitled accounts peer _ = ⊥

-- A second handler, which has other secrets and other private keys.
module _ (handler : SettingsHandler) (secret : handler.State → List ℕ → Result Fault (List ℕ))
    (asset : handler.State → List ℕ → Result Fault (List ℕ))
    (public : (s : handler.State) (name : List ℕ)
      → ¬ IsPrivateKey name
      → asset s name ≡ handler.read_asset s name) where
  open handler use {State, recovery_mode, valid_channel, read_asset}

  abbrev pub with_secrets : SettingsHandler
  with_secrets = record handler { runtime_secret = secret; read_asset = asset }

  -- The guards of `handle` before its last branch.
  abbrev Answered : Type 0
  Answered = Response × (Option EventKind × (State × List ℕ))

  guarded : Accounts → State → List ℕ → PeerCredentials → Command → Answered → Answered
  guarded accounts s subs peer c served =
      let access = evaluate_peer accounts.service_group peer in
      if recovery_mode s && not (allowed_during_recovery c)
      then denied handler s subs recovery_mode_status
      else if mqtt_runtime_only c && not (may_resolve_runtime_for_uids peer.uid accounts.mqtt_uid)
      then denied handler s subs permission_denied
      else if data_sender_runtime_only c
          && not (may_resolve_runtime_for_uids peer.uid accounts.data_sender_uid)
      then denied handler s subs permission_denied
      else if mutation_command c && not access.operator_access
      then denied handler s subs permission_denied
      else if administrator_only c && not access.administrator
      then denied handler s subs permission_denied
      else served
