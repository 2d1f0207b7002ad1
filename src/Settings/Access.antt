-- ===== src/Settings/Access.antt =====
-- apps/MeterCore/Services/settings/ipc/access_policy.hpp. The uids of accounts come from the system
-- and are parameters.
use msap1_apu.Prelude.{ℕ, Bool, true, false, ◌||◌, List, Option, none, some, ◌==◌, if◌then◌else◌}
use msap1_apu.Settings.Texts.{finds, recovery_text, stale_text, rejected_text, verification_text}

pub data Command : Type 0 where
  get_active save_active factory_reset set_secret get_secret_status subscribe_events : Command
  set_named_secret clear_named_secret get_named_secret_status resolve_mqtt_credentials : Command
  put_asset delete_asset get_asset_status download_asset resolve_mqtt_assets : Command
  resolve_data_channel_credentials resolve_data_channel_assets : Command

pub data Status : Type 0 where
  ok_status invalid_request conflict permission_denied apply_failed recovery_mode_status
        internal_error :
      Status

unfoldable pub administrator_only : Command → Bool
administrator_only factory_reset = true
administrator_only set_secret = true
administrator_only set_named_secret = true
administrator_only clear_named_secret = true
administrator_only put_asset = true
administrator_only delete_asset = true
administrator_only download_asset = true
administrator_only _ = false

unfoldable pub mqtt_runtime_only : Command → Bool
mqtt_runtime_only resolve_mqtt_credentials = true
mqtt_runtime_only resolve_mqtt_assets = true
mqtt_runtime_only _ = false

unfoldable pub data_sender_runtime_only : Command → Bool
data_sender_runtime_only resolve_data_channel_credentials = true
data_sender_runtime_only resolve_data_channel_assets = true
data_sender_runtime_only _ = false

unfoldable pub mutation_command : Command → Bool
mutation_command save_active = true
mutation_command factory_reset = true
mutation_command set_secret = true
mutation_command set_named_secret = true
mutation_command clear_named_secret = true
mutation_command put_asset = true
mutation_command delete_asset = true
mutation_command _ = false

unfoldable pub allowed_during_recovery : Command → Bool
allowed_during_recovery get_active = true
allowed_during_recovery get_secret_status = true
allowed_during_recovery factory_reset = true
allowed_during_recovery _ = false

pub record PeerCredentials : Type 0 where
  pub uid : ℕ
  pub gid : ℕ

pub record PeerAccess : Type 0 where
  pub operator_access : Bool
  pub administrator : Bool

unfoldable pub evaluate_peer : ℕ → PeerCredentials → PeerAccess
evaluate_peer service_group credentials =
    let trusted = credentials.uid == 0 || credentials.gid == service_group in
    record { operator_access = trusted; administrator = trusted }

unfoldable pub may_resolve_runtime_for_uids : ℕ → Option ℕ → Bool
may_resolve_runtime_for_uids peer_uid none = peer_uid == 0
may_resolve_runtime_for_uids peer_uid (some service_uid) = peer_uid == 0 || peer_uid == service_uid

unfoldable pub exception_status : List ℕ → Status
exception_status message =
    if finds message recovery_text
    then recovery_mode_status
    else if finds message stale_text
    then conflict
    else if finds message rejected_text || finds message verification_text
    then apply_failed
    else internal_error
