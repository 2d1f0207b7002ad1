-- ===== src/Settings/Texts.antt =====
-- Texts of apps/MeterCore/Services/settings as lists of character codes, and the tests on them.
use msap1_apu.Prelude.{
  ℕ, Bool, true, false, ◌||◌, ◌&&◌, List, [], ◌∷◌, ◌==◌, ◌≡◌, refl, arith, ==_refl, ==_iff,
}

unfoldable pub starts_with : List ℕ → List ℕ → Bool
starts_with text [] = true
starts_with [] (c ∷ part) = false
starts_with (t ∷ text) (c ∷ part) = t == c && starts_with text part

unfoldable pub equals : List ℕ → List ℕ → Bool
equals [] [] = true
equals [] (c ∷ other) = false
equals (t ∷ text) [] = false
equals (t ∷ text) (c ∷ other) = t == c && equals text other

pub equals_refl : (xs : List ℕ) → equals xs xs ≡ true
unfolding equals
equals_refl [] = refl
equals_refl (x ∷ xs) = rw (==_refl x) (equals_refl xs)

pub equals_sound : (xs ys : List ℕ) → equals xs ys ≡ true → xs ≡ ys
unfolding equals
equals_sound [] [] e = refl
equals_sound [] (y ∷ ys) e = cc
equals_sound (x ∷ xs) [] e = cc
equals_sound (x ∷ xs) (y ∷ ys) e = ground (arith, equals_sound xs ys, ==_iff x y)

-- `text.find(part) != npos` and `text.ends_with(part)`.
unfoldable pub finds : List ℕ → List ℕ → Bool
finds [] part = starts_with [] part
finds (t ∷ text) part = starts_with (t ∷ text) part || finds text part

unfoldable pub ends_with : List ℕ → List ℕ → Bool
ends_with [] part = equals [] part
ends_with (t ∷ text) part = equals (t ∷ text) part || ends_with text part

-- "recovery mode"
abbrev pub recovery_text : List ℕ
recovery_text = 114 ∷ 101 ∷ 99 ∷ 111 ∷ 118 ∷ 101 ∷ 114 ∷ 121 ∷ 32 ∷ 109 ∷ 111 ∷ 100 ∷ 101 ∷ []

-- "stale"
abbrev pub stale_text : List ℕ
stale_text = 115 ∷ 116 ∷ 97 ∷ 108 ∷ 101 ∷ []

-- "rejected settings apply"
abbrev pub rejected_text : List ℕ
rejected_text =
    114 ∷ 101 ∷ 106 ∷ 101 ∷ 99 ∷ 116 ∷ 101 ∷ 100 ∷ 32 ∷ 115 ∷ 101 ∷ 116 ∷ 116 ∷ 105 ∷ 110 ∷ 103
    ∷ 115 ∷ 32 ∷ 97 ∷ 112 ∷ 112 ∷ 108 ∷ 121 ∷ []

-- "settings verification failed"
abbrev pub verification_text : List ℕ
verification_text =
    115 ∷ 101 ∷ 116 ∷ 116 ∷ 105 ∷ 110 ∷ 103 ∷ 115 ∷ 32 ∷ 118 ∷ 101 ∷ 114 ∷ 105 ∷ 102 ∷ 105 ∷ 99 ∷ 97
    ∷ 116 ∷ 105 ∷ 111 ∷ 110 ∷ 32 ∷ 102 ∷ 97 ∷ 105 ∷ 108 ∷ 101 ∷ 100 ∷ []

-- "client-key"
abbrev pub client_key : List ℕ
client_key = 99 ∷ 108 ∷ 105 ∷ 101 ∷ 110 ∷ 116 ∷ 45 ∷ 107 ∷ 101 ∷ 121 ∷ []

-- ".client-key"
abbrev pub client_key_suffix : List ℕ
client_key_suffix = 46 ∷ 99 ∷ 108 ∷ 105 ∷ 101 ∷ 110 ∷ 116 ∷ 45 ∷ 107 ∷ 101 ∷ 121 ∷ []

-- ".sftp-private-key"
abbrev pub sftp_key_suffix : List ℕ
sftp_key_suffix =
    46 ∷ 115 ∷ 102 ∷ 116 ∷ 112 ∷ 45 ∷ 112 ∷ 114 ∷ 105 ∷ 118 ∷ 97 ∷ 116 ∷ 101 ∷ 45 ∷ 107 ∷ 101 ∷ 121
    ∷ []

-- "ca"
abbrev pub ca : List ℕ
ca = 99 ∷ 97 ∷ []

-- "client-certificate"
abbrev pub client_certificate : List ℕ
client_certificate =
    99 ∷ 108 ∷ 105 ∷ 101 ∷ 110 ∷ 116 ∷ 45 ∷ 99 ∷ 101 ∷ 114 ∷ 116 ∷ 105 ∷ 102 ∷ 105 ∷ 99 ∷ 97 ∷ 116
    ∷ 101 ∷ []

-- "sftp-private-key"
abbrev pub sftp_private_key : List ℕ
sftp_private_key =
    115 ∷ 102 ∷ 116 ∷ 112 ∷ 45 ∷ 112 ∷ 114 ∷ 105 ∷ 118 ∷ 97 ∷ 116 ∷ 101 ∷ 45 ∷ 107 ∷ 101 ∷ 121 ∷ []

-- "known-hosts"
abbrev pub known_hosts : List ℕ
known_hosts = 107 ∷ 110 ∷ 111 ∷ 119 ∷ 110 ∷ 45 ∷ 104 ∷ 111 ∷ 115 ∷ 116 ∷ 115 ∷ []

-- "password"
abbrev pub password : List ℕ
password = 112 ∷ 97 ∷ 115 ∷ 115 ∷ 119 ∷ 111 ∷ 114 ∷ 100 ∷ []

-- "bearer-token"
abbrev pub bearer_token : List ℕ
bearer_token = 98 ∷ 101 ∷ 97 ∷ 114 ∷ 101 ∷ 114 ∷ 45 ∷ 116 ∷ 111 ∷ 107 ∷ 101 ∷ 110 ∷ []

-- "private-key-passphrase"
abbrev pub private_key_passphrase : List ℕ
private_key_passphrase =
    112 ∷ 114 ∷ 105 ∷ 118 ∷ 97 ∷ 116 ∷ 101 ∷ 45 ∷ 107 ∷ 101 ∷ 121 ∷ 45 ∷ 112 ∷ 97 ∷ 115 ∷ 115 ∷ 112
    ∷ 104 ∷ 114 ∷ 97 ∷ 115 ∷ 101 ∷ []

-- "mqtt.password"
abbrev pub mqtt_password : List ℕ
mqtt_password = 109 ∷ 113 ∷ 116 ∷ 116 ∷ 46 ∷ 112 ∷ 97 ∷ 115 ∷ 115 ∷ 119 ∷ 111 ∷ 114 ∷ 100 ∷ []

-- "mqtt.private_key_passphrase"
abbrev pub mqtt_passphrase : List ℕ
mqtt_passphrase =
    109 ∷ 113 ∷ 116 ∷ 116 ∷ 46 ∷ 112 ∷ 114 ∷ 105 ∷ 118 ∷ 97 ∷ 116 ∷ 101 ∷ 95 ∷ 107 ∷ 101 ∷ 121 ∷ 95
    ∷ 112 ∷ 97 ∷ 115 ∷ 115 ∷ 112 ∷ 104 ∷ 114 ∷ 97 ∷ 115 ∷ 101 ∷ []

-- "private_key_passphrase"
abbrev pub passphrase_key : List ℕ
passphrase_key =
    112 ∷ 114 ∷ 105 ∷ 118 ∷ 97 ∷ 116 ∷ 101 ∷ 95 ∷ 107 ∷ 101 ∷ 121 ∷ 95 ∷ 112 ∷ 97 ∷ 115 ∷ 115 ∷ 112
    ∷ 104 ∷ 114 ∷ 97 ∷ 115 ∷ 101 ∷ []

-- "data-channel."
abbrev pub channel_prefix : List ℕ
channel_prefix = 100 ∷ 97 ∷ 116 ∷ 97 ∷ 45 ∷ 99 ∷ 104 ∷ 97 ∷ 110 ∷ 110 ∷ 101 ∷ 108 ∷ 46 ∷ []

-- "."
abbrev pub dot : List ℕ
dot = 46 ∷ []
