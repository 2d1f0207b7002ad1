-- ===== src/Prelude/Bits.antt =====
-- Facts about `bit_and` and `bit_or` at variables: a shifted field or-ed into a word is a sum, and
-- a mask of low ones is a remainder.
use Prim.Native.Nat.{
  ℕ, zero, suc, ◌+◌, ◌-◌, ◌*◌, ◌/◌, ◌%◌, ◌^◌, ◌≤◌, ◌<◌, min, max, bit_and, bit_or, digits,
  bit_and-bitwise, bit_or-bitwise,
}
use mathlib.Core.Path.{◌≡◌, refl, ap, ◌∙◌}
use mathlib.Core.Logic.{◌⊎◌, inl, inr}
use native.Mathlib.Omega.{arith}
use native.Mathlib.Nat.{pow-suc, add-mul-mod_self_right, mod-eq_of_lt, mod-lt, div-add-mod}

-- The native operations run on a count of binary digits; digits beyond the number's change nothing.
module _ (rest : ℕ → ℕ) (bit : ℕ → ℕ → ℕ) where
  spare : (n x y : ℕ) → x ≤ n → digits rest bit (suc n) x y ≡ digits rest bit n x y
  spare zero zero y h = refl
  spare zero (suc x) y h = absurd (omega arith)
  spare (suc n) zero y h = refl
  spare (suc n) (suc x) y h =
      ap (λ high. high * 2 + bit (suc x % 2) (y % 2)) (spare n (suc x / 2) (y / 2) (omega arith))

  exact : (n x y : ℕ) → x ≤ n → digits rest bit n x y ≡ digits rest bit x x y
  exact zero x y h = let e : x ≡ 0 = omega arith in rw e refl
  exact (suc n) x y h =
      let at_once : (x ≤ n) ⊎ (x ≡ suc n) = omega arith in
      elim at_once [ inl below ↦ spare n x y below ∙ exact n x y below | inr same ↦ rw same refl ]

zero-bit_and : (y : ℕ) → bit_and 0 y ≡ 0
zero-bit_and y = bit_and-bitwise 0 y

zero-bit_or : (y : ℕ) → bit_or 0 y ≡ y
zero-bit_or y = bit_or-bitwise 0 y

-- The lowest digit, and the others.
bit_and_step : (x y : ℕ) → bit_and x y ≡ min (x % 2) (y % 2) + 2 * bit_and (x / 2) (y / 2)
bit_and_step zero y = omega (arith, zero-bit_and (y / 2), zero-bit_and y)
bit_and_step (suc x) y =
    let high = suc x / 2 in
    omega (
      arith,
      bit_and-bitwise high (y / 2),
      bit_and-bitwise (suc x) y,
      exact (λ y. zero) min x high (y / 2) (omega arith),
    )

bit_or_step : (x y : ℕ) → bit_or x y ≡ max (x % 2) (y % 2) + 2 * bit_or (x / 2) (y / 2)
bit_or_step zero y = omega (arith, zero-bit_or (y / 2), zero-bit_or y)
bit_or_step (suc x) y =
    let high = suc x / 2 in
    omega (
      arith,
      bit_or-bitwise high (y / 2),
      bit_or-bitwise (suc x) y,
      exact (λ y. y) max x high (y / 2) (omega arith),
    )

-- With no digits on the right, by a bound on those on the left.
no_digits : (bound x : ℕ) → x ≤ bound → (bit_or x 0 ≡ x) × (bit_and x 0 ≡ 0)
no_digits bound zero h = (refl, refl)
no_digits zero (suc x) h = absurd (omega arith)
no_digits (suc bound) (suc x) h =
    let (or, and) = no_digits bound (suc x / 2) (omega arith) in
    (omega (arith, bit_or_step (suc x) 0, or), omega (arith, bit_and_step (suc x) 0, and))

bit_or-zero : (x : ℕ) → bit_or x 0 ≡ x
bit_or-zero x = (no_digits x x (omega arith)).0

double_pow : (k b : ℕ) → b * 2 ^ suc k ≡ b * 2 ^ k * 2
double_pow k b = omega (arith, ap (λ (t : ℕ). b * t) (pow-suc 2 k))

-- A field shifted above the word that it joins is added to it.
pub bit_or_high : (k a b : ℕ) → a < 2 ^ k → bit_or a (b * 2 ^ k) ≡ a + b * 2 ^ k
bit_or_high zero a b h = let e : a ≡ 0 = omega arith in rw e (omega (arith, zero-bit_or (b * 1)))
bit_or_high (suc k) a b h = omega (
  arith,
  pow-suc 2 k,
  double_pow k b,
  bit_or_step a (b * 2 ^ suc k),
  halves,
  bit_or_high k (a / 2) b (omega (arith, pow-suc 2 k)),
)
  where
    half : b * 2 ^ suc k / 2 ≡ b * 2 ^ k
    half = omega (arith, double_pow k b)

    halves : bit_or (a / 2) (b * 2 ^ suc k / 2) ≡ bit_or (a / 2) (b * 2 ^ k)
    halves = ap (bit_or (a / 2)) half

-- The same with the shifted field first.
pub bit_or_low : (k a b : ℕ) → a < 2 ^ k → bit_or (b * 2 ^ k) a ≡ a + b * 2 ^ k
bit_or_low zero a b h = let e : a ≡ 0 = omega arith in rw e (omega (arith, bit_or-zero (b * 1)))
bit_or_low (suc k) a b h = omega (
  arith,
  pow-suc 2 k,
  double_pow k b,
  bit_or_step (b * 2 ^ suc k) a,
  halves,
  bit_or_low k (a / 2) b (omega (arith, pow-suc 2 k)),
)
  where
    half : b * 2 ^ suc k / 2 ≡ b * 2 ^ k
    half = omega (arith, double_pow k b)

    halves : bit_or (b * 2 ^ suc k / 2) (a / 2) ≡ bit_or (b * 2 ^ k) (a / 2)
    halves = ap (λ t. bit_or t (a / 2)) half

split_mod : (a m : ℕ) → 0 < m → a % (m * 2) ≡ a / 2 % m * 2 + a % 2
split_mod a m h =
    let r = a / 2 % m * 2 + a % 2 in
    let bound : r < m * 2 = omega (arith, mod-lt (a / 2) h) in
    let whole : a ≡ r + a / 2 / m * (m * 2) = omega (arith, div-add-mod (a / 2) m) in
    ap (λ t. t % (m * 2)) whole ∙ add-mul-mod_self_right r (a / 2 / m) (m * 2) ∙ mod-eq_of_lt bound

pub pow_pos : (k : ℕ) → 0 < 2 ^ k
pow_pos zero = omega arith
pow_pos (suc k) = omega (arith, pow-suc 2 k, pow_pos k)

-- A mask of `k` low ones.
pub bit_and_mask : (k a : ℕ) → bit_and a (2 ^ k - 1) ≡ a % 2 ^ k
bit_and_mask zero a = omega (arith, (no_digits a a (omega arith)).1)
bit_and_mask (suc k) a = omega (
  arith,
  pow-suc 2 k,
  pow_pos k,
  bit_and_step a (2 ^ suc k - 1),
  ap (bit_and (a / 2)) half,
  bit_and_mask k (a / 2),
  split_mod a (2 ^ k) (pow_pos k),
  ap (λ t. a % t) (pow-suc 2 k),
)
  where
    half : (2 ^ suc k - 1) / 2 ≡ 2 ^ k - 1
    half = omega (arith, pow-suc 2 k, pow_pos k)
