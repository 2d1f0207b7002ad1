-- ===== src/Energy/Columns.antt =====
-- common/msap1/meter/energy_ledger.cpp: how the ledger writes numbers into SQLite columns. An
-- integer array is a blob of little-endian words, a 64-bit identifier is 16 hexadecimal digits.
pub mod Laws
use msap1_apu.Prelude.{
  ℕ, zero, suc, ◌+◌, ◌-◌, ◌*◌, ◌/◌, ◌%◌, ◌^◌, Bool, ◌&&◌, List, [], ◌∷◌, ◌++◌, Option, none, some,
  Result, ok, err, ◌>>=◌, ◌>>◌, ensure, not, ltb, leb, ◌==◌, if◌then◌else◌, length, take, drop,
}
use msap1_apu.Prelude.Integers.{ℤ, pos, negsuc, to_i64}
use msap1_apu.Ipc.Bytes.{append_little, read_little_loop}

-- Why the ledger throws.
pub data Failure : Type 0 where
  negative_counter stale_sequence different_content counter_rollback negative_delta : Failure
  epoch_conflict incomplete_request no_checkpoint : Failure
  blob_size not_hexadecimal integer_overflow storage : Failure

-- std::bit_cast<std::uint64_t>.
unfoldable pub from_i64 : ℤ → ℕ
from_i64 (pos n) = n
from_i64 (negsuc n) = 2 ^ 64 - 1 - n

-- The blob filled so far, and the values that are left.
unfoldable pub encode_array_loop : List ℕ → List ℤ → List ℕ
encode_array_loop result [] = result
encode_array_loop result (value ∷ values) =
    encode_array_loop (append_little 8 result (from_i64 value)) values

unfoldable pub encode_array : List ℤ → List ℕ
encode_array values = encode_array_loop [] values

unfoldable pub decode_array_loop : ℕ → List ℕ → List ℤ
decode_array_loop zero bytes = []
decode_array_loop (suc count) bytes =
    to_i64 (read_little_loop (take 8 bytes) 0 0) ∷ decode_array_loop count (drop 8 bytes)

unfoldable pub decode_array : ℕ → List ℕ → Result Failure (List ℤ)
decode_array count bytes = do
  ensure (length bytes == count * 8) blob_size
  ok (decode_array_loop count bytes)

-- The character of a hexadecimal digit.
unfoldable pub hex_character : ℕ → ℕ
hex_character d = if ltb d 10 then 48 + d else 87 + d

unfoldable pub hex_digits : ℕ → ℕ → List ℕ
hex_digits zero value = []
hex_digits (suc width) value = hex_digits width (value / 16) ++ (hex_character (value % 16) ∷ [])

-- "%016llx".
unfoldable pub hex64 : ℕ → List ℕ
hex64 value = hex_digits 16 value

abbrev between : ℕ → ℕ → ℕ → Bool
between low high c = leb low c && leb c high

unfoldable pub hex_value : ℕ → Option ℕ
hex_value c =
    if between 48 57 c
    then some (c - 48)
    else if between 97 102 c
    then some (c - 87)
    else if between 65 70 c
    then some (c - 55)
    else none

-- The digits that `std::from_chars` reads; it has to read all of them.
unfoldable pub read_hex : ℕ → List ℕ → Result Failure ℕ
read_hex value [] = ok value
read_hex value (c ∷ cs) = elim (hex_value c) [
  | none ↦ err not_hexadecimal
  | some d ↦ read_hex (value * 16 + d) cs
]

unfoldable pub parse_hex64 : List ℕ → Result Failure ℕ
parse_hex64 text = do
  ensure (not (length text == 0)) not_hexadecimal
  value ← read_hex 0 text
  ensure (ltb value (2 ^ 64)) not_hexadecimal
  ok value
