-- ===== src/Datalogger/Outbox/Names.antt =====
-- The texts of common/mnc/datalogger/outbox_repository.cpp, as the bytes of the text above each.
use msap1_apu.Prelude.{ℕ, List, [], ◌∷◌}

-- "administrator discarded"
abbrev pub administrator_discarded : List ℕ
administrator_discarded =
    97 ∷ 100 ∷ 109 ∷ 105 ∷ 110 ∷ 105 ∷ 115 ∷ 116 ∷ 114 ∷ 97 ∷ 116 ∷ 111 ∷ 114 ∷ 32 ∷ 100 ∷ 105 ∷ 115
    ∷ 99 ∷ 97 ∷ 114 ∷ 100 ∷ 101 ∷ 100 ∷ []

-- "manifest payload is missing"
abbrev pub payload_missing : List ℕ
payload_missing =
    109 ∷ 97 ∷ 110 ∷ 105 ∷ 102 ∷ 101 ∷ 115 ∷ 116 ∷ 32 ∷ 112 ∷ 97 ∷ 121 ∷ 108 ∷ 111 ∷ 97 ∷ 100 ∷ 32
    ∷ 105 ∷ 115 ∷ 32 ∷ 109 ∷ 105 ∷ 115 ∷ 115 ∷ 105 ∷ 110 ∷ 103 ∷ []

-- "payload size mismatch"
abbrev pub size_mismatch : List ℕ
size_mismatch =
    112 ∷ 97 ∷ 121 ∷ 108 ∷ 111 ∷ 97 ∷ 100 ∷ 32 ∷ 115 ∷ 105 ∷ 122 ∷ 101 ∷ 32 ∷ 109 ∷ 105 ∷ 115 ∷ 109
    ∷ 97 ∷ 116 ∷ 99 ∷ 104 ∷ []

-- "payload checksum mismatch"
abbrev pub checksum_mismatch : List ℕ
checksum_mismatch =
    112 ∷ 97 ∷ 121 ∷ 108 ∷ 111 ∷ 97 ∷ 100 ∷ 32 ∷ 99 ∷ 104 ∷ 101 ∷ 99 ∷ 107 ∷ 115 ∷ 117 ∷ 109 ∷ 32
    ∷ 109 ∷ 105 ∷ 115 ∷ 109 ∷ 97 ∷ 116 ∷ 99 ∷ 104 ∷ []

-- "recovered local-only file without manifest"
abbrev pub local_recovered : List ℕ
local_recovered =
    114 ∷ 101 ∷ 99 ∷ 111 ∷ 118 ∷ 101 ∷ 114 ∷ 101 ∷ 100 ∷ 32 ∷ 108 ∷ 111 ∷ 99 ∷ 97 ∷ 108 ∷ 45 ∷ 111
    ∷ 110 ∷ 108 ∷ 121 ∷ 32 ∷ 102 ∷ 105 ∷ 108 ∷ 101 ∷ 32 ∷ 119 ∷ 105 ∷ 116 ∷ 104 ∷ 111 ∷ 117 ∷ 116
    ∷ 32 ∷ 109 ∷ 97 ∷ 110 ∷ 105 ∷ 102 ∷ 101 ∷ 115 ∷ 116 ∷ []

-- "recovered unsent file without delivery manifest"
abbrev pub unsent_recovered : List ℕ
unsent_recovered =
    114 ∷ 101 ∷ 99 ∷ 111 ∷ 118 ∷ 101 ∷ 114 ∷ 101 ∷ 100 ∷ 32 ∷ 117 ∷ 110 ∷ 115 ∷ 101 ∷ 110 ∷ 116 ∷ 32
    ∷ 102 ∷ 105 ∷ 108 ∷ 101 ∷ 32 ∷ 119 ∷ 105 ∷ 116 ∷ 104 ∷ 111 ∷ 117 ∷ 116 ∷ 32 ∷ 100 ∷ 101 ∷ 108
    ∷ 105 ∷ 118 ∷ 101 ∷ 114 ∷ 121 ∷ 32 ∷ 109 ∷ 97 ∷ 110 ∷ 105 ∷ 102 ∷ 101 ∷ 115 ∷ 116 ∷ []

-- "json"
abbrev pub json : List ℕ
json = 106 ∷ 115 ∷ 111 ∷ 110 ∷ []

-- "csv"
abbrev pub csv : List ℕ
csv = 99 ∷ 115 ∷ 118 ∷ []

-- "application/json"
abbrev pub json_mime : List ℕ
json_mime =
    97 ∷ 112 ∷ 112 ∷ 108 ∷ 105 ∷ 99 ∷ 97 ∷ 116 ∷ 105 ∷ 111 ∷ 110 ∷ 47 ∷ 106 ∷ 115 ∷ 111 ∷ 110 ∷ []

-- "text/csv; charset=utf-8"
abbrev pub csv_mime : List ℕ
csv_mime =
    116 ∷ 101 ∷ 120 ∷ 116 ∷ 47 ∷ 99 ∷ 115 ∷ 118 ∷ 59 ∷ 32 ∷ 99 ∷ 104 ∷ 97 ∷ 114 ∷ 115 ∷ 101 ∷ 116
    ∷ 61 ∷ 117 ∷ 116 ∷ 102 ∷ 45 ∷ 56 ∷ []

-- "recovered"
abbrev pub recovered : List ℕ
recovered = 114 ∷ 101 ∷ 99 ∷ 111 ∷ 118 ∷ 101 ∷ 114 ∷ 101 ∷ 100 ∷ []
