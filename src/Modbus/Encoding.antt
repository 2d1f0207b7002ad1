-- ===== src/Modbus/Encoding.antt =====
-- common/mnc/modbus/encoding.cpp: big-endian words in PDUs, and values split into registers.
use msap1_apu.Prelude.{
  ℕ, ◌+◌, ◌*◌, ◌/◌, ◌%◌, ◌^◌, ◌<◌, ◌≡◌, refl, ap, bit_and, bit_or, List, [], ◌∷◌, ◌++◌,
  append_assoc, length, All, arith, Result, ok, err,
}
use msap1_apu.Prelude.Bits.{bit_and_mask, bit_or_low}

pub data Error : Type 0 where
  truncated_value invalid_unit_id : Error

abbrev pub IsByte : ℕ → Type 0
IsByte b = b < 256

abbrev pub IsWord : ℕ → Type 0
IsWord w = w < 2 ^ 16

unfoldable pub read_u16_be : List ℕ → Result Error ℕ
read_u16_be [] = err truncated_value
read_u16_be (hi ∷ []) = err truncated_value
read_u16_be (hi ∷ lo ∷ bytes) = ok (bit_or (hi * 2 ^ 8) lo % 2 ^ 16)

unfoldable pub append_u16_be : List ℕ → ℕ → List ℕ
append_u16_be bytes value =
    (bytes ++ (bit_and (value / 2 ^ 8) 0xff ∷ [])) ++ (bit_and value 0xff ∷ [])

unfoldable pub encode_u16 : ℕ → List ℕ
encode_u16 value = value ∷ []

unfoldable pub encode_u32 : ℕ → List ℕ
encode_u32 value = (value / 2 ^ 16) % 2 ^ 16 ∷ bit_and value 0xffff % 2 ^ 16 ∷ []

unfoldable pub encode_u64 : ℕ → List ℕ
encode_u64 value =
    (value / 2 ^ 48) % 2 ^ 16
    ∷ bit_and (value / 2 ^ 32) 0xffff % 2 ^ 16
    ∷ bit_and (value / 2 ^ 16) 0xffff % 2 ^ 16
    ∷ bit_and value 0xffff % 2 ^ 16
    ∷ []

pub read_u16_be_lem :
    (hi lo : ℕ) (bytes : List ℕ)
    → IsByte hi
    → IsByte lo
    → read_u16_be (hi ∷ lo ∷ bytes) ≡ ok (hi * 256 + lo)
unfolding read_u16_be
read_u16_be_lem hi lo bytes h k = ap ok (omega (arith, bit_or_low 8 lo hi k))

pub append_u16_be_lem :
    (bytes : List ℕ) (value : ℕ)
    → IsWord value
    → append_u16_be bytes value ≡ bytes ++ (value / 256 ∷ value % 256 ∷ [])
unfolding append_u16_be
append_u16_be_lem bytes value h =
    let high : bit_and (value / 256) 0xff ≡ value / 256 =
      omega (arith, bit_and_mask 8 (value / 256)) in
    rw (append_assoc, high, bit_and_mask 8 value)

-- The number that registers hold, the first being the most significant.
abbrev pub join : List ℕ → ℕ → ℕ
join [] acc = acc
join (r ∷ rs) acc = join rs (acc * 2 ^ 16 + r)

-- `encode_u32` splits a value into two registers, most significant first, and loses nothing.
pub join-encode_u32 :
    (value : ℕ)
    → value < 2 ^ 32
    → (join (encode_u32 value) 0 ≡ value)
      × (length (encode_u32 value) ≡ 2)
      × All IsWord (encode_u32 value)
unfolding encode_u32
join-encode_u32 value h =
    let low = bit_and_mask 16 value in (omega (arith, low), refl, omega (arith, low))

-- `encode_u64` splits a value into four registers, most significant first, and loses nothing.
pub join-encode_u64 :
    (value : ℕ)
    → value < 2 ^ 64
    → (join (encode_u64 value) 0 ≡ value)
      × (length (encode_u64 value) ≡ 4)
      × All IsWord (encode_u64 value)
unfolding encode_u64
join-encode_u64 value h =
    let low = bit_and_mask 16 value in
    let second = bit_and_mask 16 (value / 2 ^ 16) in
    let third = bit_and_mask 16 (value / 2 ^ 32) in
    (omega (arith, low, second, third), refl, omega (arith, low, second, third))
