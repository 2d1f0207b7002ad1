-- ===== src/Ipc/Bytes/Little.antt =====
-- What the two little-endian loops compute, as digits in base 256.
use native.Mathlib.Nat.{div-div-eq-div-mul, div-one, pow-suc}
use native.Mathlib.Numerals.{towards_suc}
use msap1_apu.Prelude.{
  ℕ, zero, suc, ◌+◌, ◌*◌, ◌/◌, ◌%◌, ◌^◌, ◌<◌, ◌≡◌, refl, sym, ap, ◌∙◌, bit_and, List, [], ◌∷◌, ◌++◌,
  arith, length, All, append_assoc, append-nil,
}
use msap1_apu.Prelude.Bits.{bit_and_mask, bit_or_high}
use msap1_apu.Ipc.Bytes.{IsByte, append_little_loop, append_little, read_little_loop}

-- `size` digits of `value`, lowest first, and the number that a list of digits stands for.
unfoldable pub digits : ℕ → ℕ → List ℕ
digits zero value = []
digits (suc size) value = value % 256 ∷ digits size (value / 256)

unfoldable pub from_digits : List ℕ → ℕ
from_digits [] = 0
from_digits (b ∷ bs) = b + 256 * from_digits bs

pow_next_byte : (i : ℕ) → 2 ^ ((i + 1) * 8) ≡ 2 ^ (i * 8) * 256
pow_next_byte i = ap (λ t. 2 ^ t) sum ∙ plus_eight (i * 8)
  where
    sum : (i + 1) * 8 ≡ i * 8 + 8
    sum = omega arith

    plus_eight : (s : ℕ) → 2 ^ (s + 8) ≡ 2 ^ s * 256
    plus_eight s = simp towards_suc (omega arith)

shift_next_byte : (i v : ℕ) → v / 2 ^ ((i + 1) * 8) ≡ v / 2 ^ (i * 8) / 256
shift_next_byte i v =
    ap (λ t. v / t) (pow_next_byte i) ∙ sym (div-div-eq-div-mul v (2 ^ (i * 8)) 256)

-- The writing loop appends the digits of what is left of the value.
append_little_loop-digits :
    (n i : ℕ) (out : List ℕ) (v : ℕ)
    → append_little_loop n i out v ≡ out ++ digits n (v / 2 ^ (i * 8))
unfolding append_little_loop digits
append_little_loop-digits zero i out v = sym (append-nil out)
append_little_loop-digits (suc n) i out v =
    let w = v / 2 ^ (i * 8) in
    append_little_loop-digits n (i + 1) (out ++ (bit_and w 0xff ∷ [])) v
    ∙ append_assoc out (bit_and w 0xff ∷ []) (digits n (v / 2 ^ ((i + 1) * 8)))
    ∙ rw (bit_and_mask 8 w, shift_next_byte i v)

pub append_little-digits :
    (size : ℕ) (out : List ℕ) (v : ℕ) → append_little size out v ≡ out ++ digits size v
unfolding append_little
append_little-digits size out v =
    append_little_loop-digits size 0 out v ∙ ap (λ t. out ++ digits size t) (div-one v)

next_fits : (v b x : ℕ) → v < x → b < 256 → v + b * x < x * 256
next_fits v b x h k = grind arith

-- The reading loop adds the digits above what it has read.
read_little_loop-from_digits :
    (bs : List ℕ) (i v : ℕ)
    → All IsByte bs
    → v < 2 ^ (i * 8)
    → read_little_loop bs i v ≡ v + from_digits bs * 2 ^ (i * 8)
unfolding read_little_loop from_digits
read_little_loop-from_digits [] i v h fits = omega arith
read_little_loop-from_digits (b ∷ bs) i v (hb, h) fits =
    let joined = bit_or_high (i * 8) v b fits in
    let fits' : v + b * 2 ^ (i * 8) < 2 ^ ((i + 1) * 8) =
      rw (pow_next_byte i) (next_fits v b (2 ^ (i * 8)) fits hb) in
    rw joined (
      omega (
        arith,
        read_little_loop-from_digits bs (i + 1) (v + b * 2 ^ (i * 8)) h fits',
        ap (λ (t : ℕ). from_digits bs * t) (pow_next_byte i),
      ))

pub length-digits : (n v : ℕ) → length (digits n v) ≡ n
unfolding digits
length-digits zero v = refl
length-digits (suc n) v = ap suc (length-digits n (v / 256))

pub digits-IsByte : (n v : ℕ) → All IsByte (digits n v)
unfolding digits
digits-IsByte zero v = tt
digits-IsByte (suc n) v = (omega arith, digits-IsByte n (v / 256))

pub from_digits-digits : (n v : ℕ) → v < 256 ^ n → from_digits (digits n v) ≡ v
unfolding digits from_digits
from_digits-digits zero v h = omega arith
from_digits-digits (suc n) v h =
    omega (arith, from_digits-digits n (v / 256) (omega (arith, pow-suc 256 n)))

pub from_digits-lt : (bs : List ℕ) → All IsByte bs → from_digits bs < 256 ^ length bs
unfolding from_digits
from_digits-lt [] h = omega arith
from_digits-lt (b ∷ bs) h = omega (arith, pow-suc 256 (length bs), from_digits-lt bs h.1)

pub digits-from_digits :
    (n : ℕ) (bs : List ℕ) → length bs ≡ n → All IsByte bs → digits n (from_digits bs) ≡ bs
unfolding digits from_digits
digits-from_digits zero [] e h = refl
digits-from_digits zero (b ∷ bs) e h = absurd (omega arith)
digits-from_digits (suc n) [] e h = absurd (omega arith)
digits-from_digits (suc n) (b ∷ bs) e h =
    let low : (b + 256 * from_digits bs) % 256 ≡ b = omega arith in
    let high : (b + 256 * from_digits bs) / 256 ≡ from_digits bs = omega arith in
    rw (low, high) (ap (◌∷◌ b) (digits-from_digits n bs (omega arith) h.1))

pub read_little_loop_lem : (bs : List ℕ) → All IsByte bs → read_little_loop bs 0 0 ≡ from_digits bs
read_little_loop_lem bs h = read_little_loop-from_digits bs 0 0 h (omega arith) ∙ omega arith
