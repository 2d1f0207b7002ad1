-- ===== src/Settings/Examples.antt =====
-- The settings authority on a concrete handler and concrete peers.
use msap1_apu.Prelude.{
  ℕ, ◌≡◌, refl, Result, if◌then◌else◌, Bool, true, false, List, [], ◌∷◌, none, some, ok,
}
use msap1_apu.Settings.Texts.{client_key, equals}
use msap1_apu.Settings.Access.{save_active, download_asset, PeerCredentials, mutation_command}
use msap1_apu.Settings.Router.{Fault, Request, SettingsHandler, Accounts, handle}
use msap1_apu.Settings.Router.Authority.{handle_untrusted, recovery_frozen}

-- A handler whose state is the saved document, and which repairs itself when the document is empty.
abbrev nothing : List ℕ → Bool
nothing [] = true
nothing (c ∷ text) = false

abbrev store : SettingsHandler
store = record {
  State = List ℕ;
  recovery_mode = nothing;
  active = λ s. ok (record { content_hash = []; settings = s });
  decode_settings = λ json. ok json;
  save = λ s json. (ok (record { content_hash = []; settings = json }), json);
  factory_reset_settings = λ s sure. (ok (record { content_hash = []; settings = 1 ∷ [] }), 1 ∷ []);
  set_secret_document = λ s json. (ok tt, s);
  has_secrets = λ s. true;
  store_secret = λ s name value. (ok tt, s);
  clear_secret = λ s name. (ok tt, s);
  has_secret = λ s name. true;
  runtime_secret = λ s name. ok s;
  store_asset = λ s name value. (ok tt, s);
  remove_asset = λ s name. (ok tt, s);
  has_asset = λ s name. true;
  read_asset = λ s name. ok s;
  valid_channel = λ name. true;
}

abbrev accounts : Accounts
accounts = record { service_group = 700; mqtt_uid = some 801; data_sender_uid = some 802 }

abbrev visitor : PeerCredentials
visitor = record { uid = 1_000; gid = 1_000 }

abbrev saving : Request
saving = record { command = save_active; confirmed = false; name = []; json = 5 ∷ [] }

handle_untrusted_example :
    ((handle store accounts (1 ∷ []) [] 3 visitor saving).1.0 ≡ none)
    × ((handle store accounts (1 ∷ []) [] 3 visitor saving).1.1.0 ≡ 1 ∷ [])
handle_untrusted_example =
    handle_untrusted store accounts (1 ∷ []) [] 3 visitor saving (unfold mutation_command in refl)

abbrev root : PeerCredentials
root = record { uid = 0; gid = 0 }

recovery_frozen_example :
    ((handle store accounts [] [] 3 root saving).1.0 ≡ none)
    × ((handle store accounts [] [] 3 root saving).1.1.0 ≡ [])
recovery_frozen_example = recovery_frozen store accounts [] [] 3 root saving refl (λ e. cc e)

abbrev downloading : Request
downloading = record { command = download_asset; confirmed = false; name = client_key; json = [] }

-- Other secrets, and another key of the broker.
abbrev other_secret : List ℕ → List ℕ → Result Fault (List ℕ)
other_secret s name = ok (9 ∷ [])

abbrev other_asset : List ℕ → List ℕ → Result Fault (List ℕ)
other_asset s name = if equals name client_key then ok (9 ∷ []) else ok s
