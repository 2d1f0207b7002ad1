-- ===== src/Energy/Rows/Laws.antt =====
-- The row of a checkpoint is loaded as it was stored.
use native.Mathlib.Nat.{
  le-div_iff_mul-le, div-lt_iff_lt-mul, lt-mul-div-succ, mul-div-le, mul-le-mul_right,
}
use msap1_apu.Prelude.{
  ℕ, ◌+◌, ◌*◌, ◌/◌, ◌^◌, ◌≤◌, ◌<◌, max, ◌≡◌, ◌≢◌, refl, sym, subst, ap, ◌∙◌, Bool, true, false, ok,
  bit_or, arith, length, All, get_or,
}
use msap1_apu.Prelude.Integers.{ℤ, pos}
use msap1_apu.Energy.Values.{
  EnergyValues, SampleWindow, no_energy, assign_energy_counters, energy_qualities,
  for_each_energy_reading,
}
use msap1_apu.Energy.Columns.Laws.{FitsI64, decode-encode_array, parse-hex64}
use msap1_apu.Energy.Rows.{
  flag, bool_bit, EnergyState, sample_rate, energy_flags, assign_energy_qualities, load_row,
  energy_row, row_values,
}

-- Numbers of their C++ types.
pub record IsState (s : EnergyState) : Type 0 where
  pub session_fits : s.session_id < 2 ^ 64
  pub epoch_fits : s.epoch < 2 ^ 63
  pub session_length : length s.session_counters ≡ 28
  pub lifetime_length : length s.lifetime_counters ≡ 28
  pub session_counters_fit : All FitsI64 s.session_counters
  pub lifetime_counters_fit : All FitsI64 s.lifetime_counters

pub record IsEnergy (v : EnergyValues) : Type 0 where
  pub session_fits : v.session_id < 2 ^ 64
  pub last_fits : v.last_sample_index < 2 ^ 64
  pub accepted_fits : v.accepted_samples < 2 ^ 64
  pub skipped_fits : v.skipped_samples < 2 ^ 64

-- What a duplicate checkpoint is compared with.
pub record Agrees (v w : EnergyValues) : Type 0 where
  pub last : v.last_sample_index ≡ w.last_sample_index
  pub accepted_samples : v.accepted_samples ≡ w.accepted_samples
  pub skipped_samples : v.skipped_samples ≡ w.skipped_samples
  pub accepted_blocks : v.accepted_blocks ≡ w.accepted_blocks
  pub skipped_blocks : v.skipped_blocks ≡ w.skipped_blocks
  pub saturated : v.saturated ≡ w.saturated
  pub incomplete_input : v.incomplete_input ≡ w.incomplete_input
  pub discontinuity : v.discontinuity ≡ w.discontinuity
  pub qualities : energy_qualities v ≡ energy_qualities w

-- The values that a row of these loads as.
abbrev pub restored : EnergyValues → EnergyState → ℕ → ℕ → ℤ → EnergyValues
restored v s count rate now =
    row_values (energy_row v s count rate now)
      (for_each_energy_reading (λ i r. record r { quality = get_or (energy_qualities v) i 0 })
        (assign_energy_counters no_energy s.lifetime_counters))
      s.session_id v.last_sample_index v.accepted_samples v.skipped_samples

pub load_row-energy_row :
    (v : EnergyValues) (s : EnergyState) (count rate : ℕ) (now : ℤ)
    → IsState s
    → IsEnergy v
    → load_row (energy_row v s count rate now) ≡ ok (s, restored v s count rate now)
unfolding energy_row load_row assign_energy_qualities energy_qualities
load_row-energy_row v s count rate now hs hv =
    rw
      (
        parse-hex64 s.session_id hs.session_fits,
        decode-encode_array 28 s.session_counters hs.session_length hs.session_counters_fit,
        decode-encode_array 28 s.lifetime_counters hs.lifetime_length hs.lifetime_counters_fit,
        parse-hex64 v.last_sample_index hv.last_fits,
        parse-hex64 v.accepted_samples hv.accepted_fits,
        parse-hex64 v.skipped_samples hv.skipped_fits,
      )
      refl

flags_kept :
    (a b c : Bool)
    → let f = bit_or (bit_or (bool_bit a) (bool_bit b * 2 ^ 1)) (bool_bit c * 2 ^ 2) in
      (flag f 1 ≡ a) × (flag f 2 ≡ b) × (flag f 4 ≡ c)
flags_kept true true true = (refl, refl, refl)
flags_kept true true false = (refl, refl, refl)
flags_kept true false true = (refl, refl, refl)
flags_kept true false false = (refl, refl, refl)
flags_kept false true true = (refl, refl, refl)
flags_kept false true false = (refl, refl, refl)
flags_kept false false true = (refl, refl, refl)
flags_kept false false false = (refl, refl, refl)

pub restored-Agrees :
    (v : EnergyValues) (s : EnergyState) (count rate : ℕ) (now : ℤ)
    → Agrees (restored v s count rate now) v
unfolding row_values energy_row energy_flags energy_qualities assign_energy_counters
restored-Agrees v s count rate now =
    let (saturated, incomplete, discontinuity) =
      flags_kept v.saturated v.incomplete_input v.discontinuity in
    record {
      last = refl;
      accepted_samples = refl;
      skipped_samples = refl;
      accepted_blocks = refl;
      skipped_blocks = refl;
      saturated = saturated;
      incomplete_input = incomplete;
      discontinuity = discontinuity;
      qualities = refl;
    }

pub restored-IsEnergy :
    (v : EnergyValues) (s : EnergyState) (count rate : ℕ) (now : ℤ)
    → s.session_id < 2 ^ 64
    → IsEnergy v
    → IsEnergy (restored v s count rate now)
unfolding row_values for_each_energy_reading
restored-IsEnergy v s count rate now fits h = record {
  session_fits = fits;
  last_fits = h.last_fits;
  accepted_fits = h.accepted_fits;
  skipped_fits = h.skipped_fits;
}

-- The rate that gives a duration is at least the rate that the duration came from, and gives the
-- same duration again.
div_twice : (n r : ℕ) → 1 ≤ r → 1 ≤ n / r → n / (n / (n / r)) ≡ n / r
div_twice n r h k =
    let d = n / r in
    let q = n / d in
    let faster : r ≤ q = (le-div_iff_mul-le {k = d} {x = r} {y = n} k).1 (mul-div-le n r) in
    let wider : r * (d + 1) ≤ q * (d + 1) = mul-le-mul_right (d + 1) faster in
    let low : d ≤ n / q =
      (le-div_iff_mul-le {k = q} {x = d} {y = n} (omega arith)).1 (omega (arith, mul-div-le n d)) in
    let high : n / q < d + 1 =
      (div-lt_iff_lt-mul {k = q} {x = n} {y = d + 1} (omega arith)).1
        (omega (arith, lt-mul-div-succ n h, wider)) in
    omega arith

-- The window of a count of samples at a rate, as `source_window` computes it.
abbrev pub measured : ℕ → ℕ → SampleWindow
measured count rate = record { sample_count = count; duration = pos (count * 1000000000 / rate) }

pub record IsMeasured (w : SampleWindow) : Type 0 where
  pub rate : ℕ
  pub some_rate : 1 ≤ rate
  pub is_measured : w ≡ measured w.sample_count rate
  pub representable : sample_rate w ≢ 0

sample_rate_cases :
    (count d : ℕ)
    → let w : SampleWindow = record { sample_count = count; duration = pos d } in
      sample_rate w ≢ 0 → (1 ≤ d) × (sample_rate w ≡ count * 1000000000 / d)
unfolding sample_rate
sample_rate_cases count d h = ground arith

kept_at :
    (count rate : ℕ)
    → 1 ≤ rate
    → sample_rate (measured count rate) ≢ 0
    → pos (count * 1000000000 / max (sample_rate (measured count rate)) 1)
      ≡ pos (count * 1000000000 / rate)
kept_at count rate h k =
    let n = count * 1000000000 in
    let (some, e) = sample_rate_cases count (n / rate) k in
    let at_least : max (sample_rate (measured count rate)) 1 ≡ n / (n / rate) =
      omega (arith, e, nonzero _ k) in
    ap (λ q. pos (n / q)) at_least ∙ ap pos (div_twice n rate h some)
  where
    nonzero : (q : ℕ) → q ≢ 0 → 1 ≤ q
    nonzero q h = ground arith

abbrev pub row_window_of : ℕ → ℕ → SampleWindow
row_window_of count rate = record {
  sample_count = count;
  duration = pos (count * 1000000000 / max rate 1);
}

-- The window that the row gives back is the one that it was written from.
pub window_kept :
    (w : SampleWindow) → IsMeasured w → row_window_of w.sample_count (sample_rate w) ≡ w
window_kept w m =
    subst (λ u. row_window_of u.sample_count (sample_rate u) ≡ u) (sym m.is_measured)
      (ap (λ t. record { sample_count = w.sample_count; duration = t })
        (kept_at w.sample_count m.rate m.some_rate
          (subst (λ u. sample_rate u ≢ 0) m.is_measured m.representable)))
