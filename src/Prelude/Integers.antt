-- ===== src/Prelude/Integers.antt =====
-- Signed integers over the native numbers, under the library's names, with C++'s division.
use Prim.Native.Nat.{ℕ, zero, suc, ◌+◌, ◌-◌, ◌*◌, ◌/◌, ◌%◌, ◌^◌, ◌≤◌}
use mathlib.Core.Path.{◌≡◌, refl, ap}
use mathlib.Core.Bool.{Bool, ◌&&◌}
use native.Mathlib.Omega.{arith}
use native.Mathlib.Nat.{add-mul-div_right, div-add-mod', zero-div, zero-mod}
use msap1_apu.Prelude.Tests.{leb, ltb, if◌then◌else◌}

-- `negsuc n` is -(n + 1).
pub data ℤ : Type 0 where
  pos negsuc : ℕ → ℤ

abbrev pub neg : ℕ → ℤ
neg zero = pos 0
neg (suc n) = negsuc n

-- The amounts above and below zero.
abbrev pub above : ℤ → ℕ
above (pos n) = n
above (negsuc n) = 0

abbrev pub below : ℤ → ℕ
below (pos n) = 0
below (negsuc n) = suc n

abbrev difference : ℕ → ℕ → ℤ
difference p n = if leb n p then pos (p - n) else neg (n - p)

infixl 65 ◌+ℤ◌ ◌-ℤ◌
unfoldable pub ◌+ℤ◌ : ℤ → ℤ → ℤ
x +ℤ y = difference (above x + above y) (below x + below y)

unfoldable pub ◌-ℤ◌ : ℤ → ℤ → ℤ
x -ℤ y = difference (above x + below y) (below x + above y)

abbrev pub ltb_ℤ : ℤ → ℤ → Bool
ltb_ℤ x y = ltb (above x + below y) (above y + below x)

abbrev pub scale : ℤ → ℕ → ℤ
scale (pos n) k = pos (n * k)
scale (negsuc n) k = neg (suc n * k)

-- `/` and `%` on signed integers truncate towards zero.
abbrev pub div_trunc : ℤ → ℕ → ℤ
div_trunc (pos n) k = pos (n / k)
div_trunc (negsuc n) k = neg (suc n / k)

abbrev pub rem_trunc : ℤ → ℕ → ℤ
rem_trunc (pos n) k = pos (n % k)
rem_trunc (negsuc n) k = neg (suc n % k)

-- The integer that a 64-bit word stands for.
abbrev pub to_i64 : ℕ → ℤ
to_i64 x = if ltb x (2 ^ 63) then pos x else neg (2 ^ 64 - x)

abbrev pub fits_i64 : ℤ → Bool
fits_i64 x = ltb (above x) (2 ^ 63) && leb (below x) (2 ^ 63)

pub +ℤ-pos : (x : ℤ) (a b : ℕ) → x +ℤ pos a +ℤ pos b ≡ x +ℤ pos (a + b)
unfolding ◌+ℤ◌
+ℤ-pos x a b = ground arith

pub +ℤ-neg : (x : ℤ) (a b : ℕ) → x +ℤ neg a +ℤ neg b ≡ x +ℤ neg (a + b)
unfolding ◌+ℤ◌
+ℤ-neg x a b = ground arith

-- A rounded quotient of a product, from whole parts and a remainder.
pub split_scaled : (d k r : ℕ) → 1 ≤ r → d / r * k + d % r * k / r ≡ d * k / r
split_scaled d k r h =
    let whole : d * k ≡ d % r * k + d / r * k * r =
      grind (arith, ap (λ n. n * k) (div-add-mod' d r)) in
    omega (arith, ap (λ n. n / r) whole, add-mul-div_right (d % r * k) (d / r * k) h)

pub scale-neg : (n k : ℕ) → scale (neg n) k ≡ neg (n * k)
scale-neg zero k = let e : 0 * k ≡ 0 = omega arith in rw e refl
scale-neg (suc n) k = refl

pub div_trunc-neg : (n k : ℕ) → div_trunc (neg n) k ≡ neg (n / k)
div_trunc-neg zero k = let e : 0 / k ≡ 0 = zero-div k in rw e refl
div_trunc-neg (suc n) k = refl

pub rem_trunc-neg : (n k : ℕ) → rem_trunc (neg n) k ≡ neg (n % k)
rem_trunc-neg zero k = let e : 0 % k ≡ 0 = omega (arith, zero-mod k) in rw e refl
rem_trunc-neg (suc n) k = refl

pub neg_parts : (n : ℕ) → (above (neg n) ≡ 0) × (below (neg n) ≡ n)
neg_parts zero = (refl, refl)
neg_parts (suc n) = (refl, refl)

-- A sum is no further from zero, on either side, than its terms together.
pub +ℤ-le : (x y : ℤ) → (above (x +ℤ y) ≤ above x + above y) × (below (x +ℤ y) ≤ below x + below y)
unfolding ◌+ℤ◌
+ℤ-le x y = ground arith
