-- ===== src/Datalogger/Retry.antt =====
-- common/mnc/datalogger/scheduler.cpp: `next_boundary`, `fnv1a` and `retry_delay`. Times are
-- nanoseconds since the epoch.
use msap1_apu.Prelude.{
  ℕ, ◌+◌, ◌-◌, ◌*◌, ◌/◌, ◌%◌, ◌^◌, ◌≤◌, ◌<◌, ◌≡◌, ap, not, ◌||◌, List, [], ◌∷◌, Result, ok, err,
  ◌==◌, if◌then◌else◌, arith, bit_and, bit_xor, min,
}
use msap1_apu.Prelude.Integers.{ℤ, pos, above, below, ◌-ℤ◌, ltb_ℤ}
use native.Mathlib.Nat.{div-add-mod', mod-lt, mul-div_cancel}
use msap1_apu.Prelude.Bits.{pow_pos}

pub data SchedulingError : Type 0 where
  invalid_interval : SchedulingError

abbrev maximum_i64 : ℕ
maximum_i64 = 2 ^ 63 - 1

unfoldable pub next_boundary : ℤ → ℤ → Result SchedulingError ℕ
next_boundary now interval =
    if ltb_ℤ now (pos 0) || not (ltb_ℤ (pos 0) interval) || ltb_ℤ (pos maximum_i64 -ℤ interval) now
    then err invalid_interval
    else ok ((above now + above interval - 1) / above interval * above interval)

-- `result ^= byte; result *= 1099511628211ull;`
unfoldable pub mix : ℕ → ℕ → ℕ
mix result byte = (bit_xor result byte * 1_099_511_628_211) % 2 ^ 64

unfoldable pub mix_all : ℕ → List ℕ → ℕ
mix_all result [] = result
mix_all result (byte ∷ bytes) = mix_all (mix result byte) bytes

unfoldable pub fnv1a : List ℕ → ℕ → ℕ
fnv1a value attempt =
    let text = mix_all 1_469_598_103_934_665_603 value in
    mix_all text (
      bit_and attempt 0xff
      ∷ bit_and (attempt / 2 ^ 8) 0xff
      ∷ bit_and (attempt / 2 ^ 16) 0xff
      ∷ bit_and (attempt / 2 ^ 24) 0xff
      ∷ [])

unfoldable pub base_seconds : ℕ → ℕ
base_seconds attempt_number =
    let attempt = if attempt_number == 0 then 1 else attempt_number in
    min (5 * 2 ^ min (attempt - 1) 10) 3600

unfoldable pub retry_delay : ℕ → List ℕ → ℕ
retry_delay attempt_number stable_identity =
    let attempt = if attempt_number == 0 then 1 else attempt_number in
    let base = base_seconds attempt_number in
    let jitter_range = min (base / 5) (3600 - base) in
    let jitter =
      if jitter_range == 0 then 0 else fnv1a stable_identity attempt % (jitter_range + 1) in
    (base + jitter) * 1_000_000_000

-- The first multiple of `d` that is not before `n`.
multiple :
    (n d : ℕ)
    → 1 ≤ d
    → (n ≤ (n + d - 1) / d * d)
      × ((n + d - 1) / d * d < n + d)
      × ((n + d - 1) / d * d / d * d ≡ (n + d - 1) / d * d)
multiple n d h = (
  omega (arith, div-add-mod' (n + d - 1) d, mod-lt (n + d - 1) h),
  omega (arith, div-add-mod' (n + d - 1) d, mod-lt (n + d - 1) h),
  ap (λ q. q * d) (mul-div_cancel ((n + d - 1) / d) h),
)

-- The boundary is the first multiple of the interval that is not before `now`.
pub next_boundary_sound :
    (now interval : ℤ) (boundary : ℕ)
    → next_boundary now interval ≡ ok boundary
    → (above now ≤ boundary)
      × (boundary < above now + above interval)
      × (boundary / above interval * above interval ≡ boundary)
      × (below now ≡ 0)
unfolding next_boundary
next_boundary_sound now interval boundary e =
    let some_interval : 1 ≤ above interval = ground arith in
    let (after, soon, whole) = multiple (above now) (above interval) some_interval in
    let same : (above now + above interval - 1) / above interval * above interval ≡ boundary =
      ground arith in
    rw (← same) (after, soon, whole, ground arith)

base_bounds : (attempt : ℕ) → (5 ≤ base_seconds attempt) × (base_seconds attempt ≤ 3600)
unfolding base_seconds
base_bounds attempt =
    let attempt' = if attempt == 0 then 1 else attempt in
    omega (arith, pow_pos (min (attempt' - 1) 10))

jitter_bound : (range hash : ℕ) → (if range == 0 then 0 else hash % (range + 1)) ≤ range
jitter_bound range hash = ground (arith, mod-lt hash {m = range + 1} (omega arith))

-- A failed delivery is tried again after at least 5 seconds and at most an hour, and after at most a
-- fifth more than the base delay, which doubles with each attempt up to the hour.
pub retry_delay_bounds :
    (attempt : ℕ) (identity : List ℕ)
    → (5_000_000_000 ≤ retry_delay attempt identity)
      × (retry_delay attempt identity ≤ 3_600_000_000_000)
      × (base_seconds attempt * 1_000_000_000 ≤ retry_delay attempt identity)
      × (retry_delay attempt identity * 5 ≤ base_seconds attempt * 6_000_000_000)
unfolding retry_delay
retry_delay_bounds attempt identity =
    let base = base_seconds attempt in
    let range = min (base / 5) (3600 - base) in
    let attempt' = if attempt == 0 then 1 else attempt in
    omega (arith, base_bounds attempt, jitter_bound range (fnv1a identity attempt'))
