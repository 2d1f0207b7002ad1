-- ===== src/Settings/Router/Authority.antt =====
-- Who can change the settings.
use msap1_apu.Prelude.{
  ℕ, ◌≡◌, ◌≢◌, inl, inr, refl, true, false, ◌||◌, ◌&&◌, List, Option, none, Result, ok, err, ◌==◌,
  arith, Bool-cases,
}
use msap1_apu.Settings.Access.{
  Command, get_active, save_active, factory_reset, set_secret, get_secret_status, subscribe_events,
  set_named_secret, clear_named_secret, get_named_secret_status, resolve_mqtt_credentials,
  put_asset, delete_asset, get_asset_status, download_asset, resolve_mqtt_assets,
  resolve_data_channel_credentials, resolve_data_channel_assets, mutation_command,
  allowed_during_recovery, PeerCredentials, evaluate_peer,
}
use msap1_apu.Settings.Router.{
  Fault, Request, SettingsHandler, Response, EventKind, Accounts, Dispatched, Snapshot, Body,
  invalid_argument, exception, perform, dispatch, handle, denied, finish, shown, active_shown,
  unchanged, private_key,
}

module _ (handler : SettingsHandler) where
  open handler use {State, recovery_mode, valid_channel}

  abbrev Silent : Result Fault (Response × Option EventKind) → Type 0
  Silent (err f) = Unit {0}
  Silent (ok (r, event)) = event ≡ none

  -- The state is as it was, and there is nothing to publish.
  abbrev Reads : State → Dispatched handler → Type 0
  Reads s d = (d.1.0 ≡ s) × Silent d.0

  shown-Reads :
      (s : State) (subs : List ℕ) (r : Result Fault Body) → Reads s (shown handler s subs r)
  unfolding shown
  shown-Reads s subs (err f) = (refl, tt)
  shown-Reads s subs (ok b) = (refl, refl)

  active-Reads :
      (s : State) (subs : List ℕ) (r : Result Fault Snapshot)
      → Reads s (active_shown handler s subs r)
  unfolding active_shown
  active-Reads s subs (err f) = (refl, tt)
  active-Reads s subs (ok b) = (refl, refl)

  -- A command that is no mutation leaves the handler's state.
  perform-Reads :
      (c : Command) (s : State) (subs : List ℕ) (connection : ℕ) (request : Request)
      → mutation_command c ≡ false
      → Reads s (perform handler c s subs connection request)
  unfolding perform mutation_command unchanged
  perform-Reads get_active s subs n r e = active-Reads s subs _
  perform-Reads save_active s subs n r e = absurd (cc e)
  perform-Reads factory_reset s subs n r e = absurd (cc e)
  perform-Reads set_secret s subs n r e = absurd (cc e)
  perform-Reads get_secret_status s subs n r e = (refl, refl)
  perform-Reads subscribe_events s subs n r e = (refl, refl)
  perform-Reads set_named_secret s subs n r e = absurd (cc e)
  perform-Reads clear_named_secret s subs n r e = absurd (cc e)
  perform-Reads get_named_secret_status s subs n r e = (refl, refl)
  perform-Reads resolve_mqtt_credentials s subs n r e = shown-Reads s subs _
  perform-Reads put_asset s subs n r e = absurd (cc e)
  perform-Reads delete_asset s subs n r e = absurd (cc e)
  perform-Reads get_asset_status s subs n r e = (refl, refl)
  perform-Reads download_asset s subs n r e = elim (Bool-cases (private_key handler r.name)) [
    | inl secret ↦ rw (perform, secret) (refl, refl)
    | inr open_asset ↦ rw (perform, open_asset) (shown-Reads s subs _)
  ]
  perform-Reads resolve_mqtt_assets s subs n r e = shown-Reads s subs _
  perform-Reads resolve_data_channel_credentials s subs n r e =
      elim (Bool-cases (valid_channel r.name)) [
        | inl good ↦ rw (perform, good) (shown-Reads s subs _)
        | inr bad ↦ rw (perform, bad) (refl, tt)
      ]
  perform-Reads resolve_data_channel_assets s subs n r e =
      elim (Bool-cases (valid_channel r.name)) [
        | inl good ↦ rw (perform, good) (shown-Reads s subs _)
        | inr bad ↦ rw (perform, bad) (refl, tt)
      ]

  finish-Reads :
      (s : State) (d : Dispatched handler)
      → Reads s d
      → ((finish handler d).1.0 ≡ none) × ((finish handler d).1.1.0 ≡ s)
  unfolding finish
  finish-Reads s (err invalid_argument, after) (e, h) = (refl, e)
  finish-Reads s (err (exception text), after) (e, h) = (refl, e)
  finish-Reads s (ok (response, event), after) (e, h) = (h, e)

  -- Only root and the settings group change the settings: any other request, and any command that is
  -- not a mutation, leaves them as they are and publishes no event.
  pub handle_untrusted :
      (accounts : Accounts) (s : State) (subs : List ℕ) (connection : ℕ) (peer : PeerCredentials)
      (request : Request)
      → (mutation_command request.command && (peer.uid == 0 || peer.gid == accounts.service_group))
        ≡ false
      → ((handle handler accounts s subs connection peer request).1.0 ≡ none)
        × ((handle handler accounts s subs connection peer request).1.1.0 ≡ s)
  unfolding handle evaluate_peer denied dispatch
  handle_untrusted accounts s subs connection peer request h =
      elim (Bool-cases (mutation_command request.command)) [
        | inl mutates ↦ ground arith
        | inr reads ↦
            (let kept =
                finish-Reads s (perform handler request.command s subs connection request)
                  (perform-Reads request.command s subs connection request reads) in
              ground (arith, kept))
      ]

  reading_in_recovery :
      (c : Command)
      → allowed_during_recovery c ≡ true
      → c ≢ factory_reset
      → mutation_command c ≡ false
  unfolding allowed_during_recovery mutation_command
  reading_in_recovery get_active h other = refl
  reading_in_recovery get_secret_status h other = refl
  reading_in_recovery factory_reset h other = absurd (other refl)
  reading_in_recovery _ h other = absurd (cc h)

  -- In recovery mode only a factory reset changes the settings, whoever asks.
  pub recovery_frozen :
      (accounts : Accounts) (s : State) (subs : List ℕ) (connection : ℕ) (peer : PeerCredentials)
      (request : Request)
      → recovery_mode s ≡ true
      → request.command ≢ factory_reset
      → ((handle handler accounts s subs connection peer request).1.0 ≡ none)
        × ((handle handler accounts s subs connection peer request).1.1.0 ≡ s)
  unfolding handle denied
  recovery_frozen accounts s subs connection peer request on other =
      elim (Bool-cases (allowed_during_recovery request.command)) [
        | inl allowed ↦
            (let reads = reading_in_recovery request.command allowed other in
              handle_untrusted accounts s subs connection peer request (ground arith))
        | inr refused ↦ rw (handle, on, refused) (refl, refl)
      ]
