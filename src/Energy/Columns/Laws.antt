-- ===== src/Energy/Columns/Laws.antt =====
-- The columns are read back as they were written.
use native.Mathlib.Nat.{pow-suc}
use msap1_apu.Prelude.{
  ℕ, zero, suc, ◌+◌, ◌*◌, ◌/◌, ◌%◌, ◌^◌, ◌<◌, ◌≡◌, refl, sym, ap, ◌∙◌, true, List, [], ◌∷◌, ◌++◌,
  some, ok, arith, length, All, append_assoc, append-nil, length-append, take-append_exact,
  drop-append_exact, ==_refl, lt→ltb,
}
use msap1_apu.Prelude.Integers.{ℤ, pos, negsuc, to_i64, fits_i64}
use msap1_apu.Ipc.Bytes.{append_little}
use msap1_apu.Ipc.Bytes.Little.{
  append_little-digits, digits, length-digits, digits-IsByte, from_digits-digits, from_digits,
  read_little_loop_lem,
}
use msap1_apu.Energy.Columns.{
  from_i64, encode_array_loop, encode_array, decode_array_loop, decode_array, hex_character,
  hex_digits, hex64, hex_value, read_hex, parse_hex64,
}

abbrev pub FitsI64 : ℤ → Type 0
FitsI64 x = fits_i64 x ≡ true

to_i64-from_i64 : (x : ℤ) → FitsI64 x → to_i64 (from_i64 x) ≡ x
unfolding from_i64
to_i64-from_i64 (pos n) h = ground arith
to_i64-from_i64 (negsuc n) h = ground arith

from_i64-lt : (x : ℤ) → FitsI64 x → from_i64 x < 2 ^ 64
unfolding from_i64
from_i64-lt (pos n) h = ground arith
from_i64-lt (negsuc n) h = ground arith

blob : List ℤ → List ℕ
blob [] = []
blob (x ∷ xs) = digits 8 (from_i64 x) ++ blob xs

encode_array_loop-blob : (out : List ℕ) (xs : List ℤ) → encode_array_loop out xs ≡ out ++ blob xs
unfolding encode_array_loop blob
encode_array_loop-blob out [] = sym (append-nil out)
encode_array_loop-blob out (x ∷ xs) =
    encode_array_loop-blob (append_little 8 out (from_i64 x)) xs
    ∙ ap (λ t. t ++ blob xs) (append_little-digits 8 out (from_i64 x))
    ∙ append_assoc out (digits 8 (from_i64 x)) (blob xs)

length-blob : (xs : List ℤ) → length (blob xs) ≡ length xs * 8
unfolding blob
length-blob [] = refl
length-blob (x ∷ xs) = omega (
  arith,
  length-append (digits 8 (from_i64 x)) (blob xs),
  length-digits 8 (from_i64 x),
  length-blob xs,
)

decode_array_loop-blob :
    (xs : List ℤ) → All FitsI64 xs → decode_array_loop (length xs) (blob xs) ≡ xs
unfolding decode_array_loop blob
decode_array_loop-blob [] h = refl
decode_array_loop-blob (x ∷ xs) (hx, h) =
    let d = digits 8 (from_i64 x) in
    let first : to_i64 (from_digits d) ≡ x =
      ap to_i64 (from_digits-digits 8 (from_i64 x) (from_i64-lt x hx)) ∙ to_i64-from_i64 x hx in
    rw
      (
        take-append_exact 8 d (blob xs) (length-digits 8 (from_i64 x)),
        drop-append_exact 8 d (blob xs) (length-digits 8 (from_i64 x)),
        read_little_loop_lem d (digits-IsByte 8 (from_i64 x)),
        first,
        decode_array_loop-blob xs h,
      )
      refl

pub decode-encode_array :
    (n : ℕ) (xs : List ℤ)
    → length xs ≡ n
    → All FitsI64 xs
    → decode_array n (encode_array xs) ≡ ok xs
unfolding decode_array encode_array
decode-encode_array n xs e h =
    let size : length (blob xs) ≡ n * 8 = omega (arith, length-blob xs) in
    rw (encode_array_loop-blob [] xs, size, ==_refl (n * 8), ← e, decode_array_loop-blob xs h) refl

hex_value-character : (d : ℕ) → d < 16 → hex_value (hex_character d) ≡ some d
unfolding hex_value hex_character
hex_value-character d h = ground arith

read_hex-character :
    (d acc : ℕ) (rest : List ℕ)
    → d < 16
    → read_hex acc (hex_character d ∷ rest) ≡ read_hex (acc * 16 + d) rest
unfolding read_hex
read_hex-character d acc rest h = rw (read_hex, hex_value-character d h) refl

regroup : (n acc v : ℕ) → (acc * 16 ^ n + v / 16) * 16 + v % 16 ≡ acc * 16 ^ suc n + v
regroup n acc v = omega (arith, ap (λ (t : ℕ). acc * t) (pow-suc 16 n))

length-hex_digits : (n v : ℕ) → length (hex_digits n v) ≡ n
unfolding hex_digits
length-hex_digits zero v = refl
length-hex_digits (suc n) v = omega (
  arith,
  length-append (hex_digits n (v / 16)) (hex_character (v % 16) ∷ []),
  length-hex_digits n (v / 16),
)

read_hex-digits :
    (n acc v : ℕ) (rest : List ℕ)
    → v < 16 ^ n
    → read_hex acc (hex_digits n v ++ rest) ≡ read_hex (acc * 16 ^ n + v) rest
unfolding hex_digits
read_hex-digits zero acc v rest h = ap (λ t. read_hex t rest) (omega arith)
read_hex-digits (suc n) acc v rest h =
    let low = v % 16 in
    ap (read_hex acc) (append_assoc (hex_digits n (v / 16)) (hex_character low ∷ []) rest)
    ∙ read_hex-digits n acc (v / 16) (hex_character low ∷ rest) (omega (arith, pow-suc 16 n))
    ∙ read_hex-character low (acc * 16 ^ n + v / 16) rest (omega arith)
    ∙ ap (λ t. read_hex t rest) (regroup n acc v)

pub parse-hex64 : (v : ℕ) → v < 2 ^ 64 → parse_hex64 (hex64 v) ≡ ok v
unfolding parse_hex64 hex64 read_hex
parse-hex64 v h =
    let whole : read_hex 0 (hex_digits 16 v) ≡ ok v =
      ap (read_hex 0) (sym (append-nil (hex_digits 16 v)))
      ∙ read_hex-digits 16 0 v [] (omega arith)
      ∙ ap (λ t. read_hex t []) (omega arith) in
    rw (length-hex_digits 16 v, whole, lt→ltb v (2 ^ 64) h) refl
