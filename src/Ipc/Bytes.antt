-- ===== src/Ipc/Bytes.antt =====
-- common/mnc/ipc/ipc.cpp: ByteWriter and ByteReader. A byte vector is a list of numbers below 256;
-- a writer is the vector that it has filled so far.
pub mod Little
pub mod Laws
pub mod Text
use msap1_apu.Prelude.{
  ℕ, zero, suc, ◌+◌, ◌-◌, ◌*◌, ◌/◌, ◌^◌, ◌≤◌, ◌<◌, bit_and, bit_or, Bool, not, List, [], ◌∷◌, ◌++◌,
  Result, ok, err, ◌>>=◌, ◌>>◌, ensure, ltb, ◌==◌, length, take, drop, replicate,
}

pub data Error : Type 0 where
  field_size string_width truncated_payload trailing_bytes : Error
  envelope_length envelope_magic_mismatch unsupported_version invalid_kind : Error
  payload_too_large payload_size_mismatch end_of_stream : Error

abbrev pub IsByte : ℕ → Type 0
IsByte b = b < 256

-- `for (index = 0; index < sizeof(T); ++index)`: the rounds left, then `index`.
unfoldable pub append_little_loop : ℕ → ℕ → List ℕ → ℕ → List ℕ
append_little_loop zero index output value = output
append_little_loop (suc rounds) index output value =
    append_little_loop rounds (index + 1) (output ++ (bit_and (value / 2 ^ (index * 8)) 0xff ∷ []))
      value

-- `append_little<T>` at `sizeof(T) = size`.
unfoldable pub append_little : ℕ → List ℕ → ℕ → List ℕ
append_little size output value = append_little_loop size 0 output value

unfoldable pub read_little_loop : List ℕ → ℕ → ℕ → ℕ
read_little_loop [] index value = value
read_little_loop (b ∷ input) index value =
    read_little_loop input (index + 1) (bit_or value (b * 2 ^ (index * 8)))

unfoldable pub read_little : ℕ → List ℕ → Result Error ℕ
read_little size input = do
  ensure (length input == size) field_size
  ok (read_little_loop input 0 0)

unfoldable pub write_u8 : List ℕ → ℕ → List ℕ
write_u8 out value = out ++ (value ∷ [])

unfoldable pub write_u16 : List ℕ → ℕ → List ℕ
write_u16 out value = append_little 2 out value

unfoldable pub write_u32 : List ℕ → ℕ → List ℕ
write_u32 out value = append_little 4 out value

unfoldable pub write_u64 : List ℕ → ℕ → List ℕ
write_u64 out value = append_little 8 out value

unfoldable pub write_bytes : List ℕ → List ℕ → List ℕ
write_bytes out value = out ++ value

unfoldable pub write_fixed_string : List ℕ → List ℕ → ℕ → Result Error (List ℕ)
write_fixed_string out value width = do
  ensure (not (ltb width (length value))) string_width
  ok (out ++ (value ++ replicate (width - length value) 0))

pub record ByteReader : Type 0 where
  pub content : List ℕ
  pub offset : ℕ

unfoldable pub reader : List ℕ → ByteReader
reader bytes = record { content = bytes; offset = 0 }

unfoldable pub remaining : ByteReader → ℕ
remaining r = length r.content - r.offset

unfoldable pub take_bytes : ByteReader → ℕ → Result Error (List ℕ × ByteReader)
unfolding remaining
take_bytes r size = do
  ensure (not (ltb (remaining r) size)) truncated_payload
  ok (take size (drop r.offset r.content), record r { offset = r.offset + size })

-- The common body of `u16`, `u32` and `u64`: `read_little<T>(take(sizeof(T)))`.
unfoldable pub read_uint : ℕ → ByteReader → Result Error (ℕ × ByteReader)
read_uint size r = do
  (field, r') ← take_bytes r size
  value ← read_little size field
  ok (value, r')

unfoldable pub front_or : List ℕ → ℕ
front_or [] = 0
front_or (b ∷ bs) = b

unfoldable pub read_u8 : ByteReader → Result Error (ℕ × ByteReader)
unfolding front_or
read_u8 r = do (field, r') ← take_bytes r 1; ok (front_or field, r')

unfoldable pub read_u16 : ByteReader → Result Error (ℕ × ByteReader)
read_u16 r = read_uint 2 r

unfoldable pub read_u32 : ByteReader → Result Error (ℕ × ByteReader)
read_u32 r = read_uint 4 r

unfoldable pub read_u64 : ByteReader → Result Error (ℕ × ByteReader)
read_u64 r = read_uint 8 r

-- `std::find(value.begin(), value.end(), std::byte{0})`: what stands before the first zero.
unfoldable pub until_zero : List ℕ → List ℕ
until_zero [] = []
until_zero (zero ∷ bs) = []
until_zero (suc b ∷ bs) = suc b ∷ until_zero bs

unfoldable pub read_fixed_string : ByteReader → ℕ → Result Error (List ℕ × ByteReader)
read_fixed_string r width = do (field, r') ← take_bytes r width; ok (until_zero field, r')

unfoldable pub require_finished : ByteReader → Result Error (Unit {0})
unfolding remaining
require_finished r = ensure (remaining r == 0) trailing_bytes
