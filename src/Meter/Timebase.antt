-- ===== src/Meter/Timebase.antt =====
-- common/msap1/meter/measurement_timebase.cpp: UTC labels for the samples of the free-running
-- counter. Times are nanoseconds. The mutex makes each operation one step.
pub mod Labels
use msap1_apu.Prelude.{
  ℕ, zero, suc, ◌+◌, ◌-◌, ◌*◌, ◌/◌, ◌%◌, ◌^◌, Bool, true, false, not, ◌||◌, Option, none, some,
  Result, ok, err, ◌>>=◌, ◌>>◌, ensure, ltb, ◌==◌, if◌then◌else◌,
}
use msap1_apu.Prelude.Integers.{
  ℤ, pos, ◌+ℤ◌, ◌-ℤ◌, ltb_ℤ, scale, div_trunc, rem_trunc, to_i64, fits_i64,
}

pub data TimeQuality : Type 0 where
  unsynchronized synchronized holdover : TimeQuality

pub record TimeSyncPoint : Type 0 where
  pub sample_counter : ℕ
  pub utc_ns : ℤ
  pub uncertainty_ns : ℕ
  pub sample_rate_hz : ℕ
  pub configuration_generation : ℕ
  pub utc_synchronized : Bool

pub record UtcEstimate : Type 0 where
  pub utc : ℤ
  pub uncertainty_ns : ℕ

abbrev pub max_backward_extrapolation_seconds : ℕ
max_backward_extrapolation_seconds = 60

pub record Timebase : Type 0 where
  pub staleness_threshold : ℤ
  pub latest_sync : Option TimeSyncPoint
  pub last_sync_at : ℤ

unfoldable pub record_sync : Timebase → TimeSyncPoint → ℤ → Timebase
record_sync tb sync now = record tb { latest_sync = some sync; last_sync_at = now }

unfoldable pub quality_of : Timebase → ℤ → Option TimeSyncPoint → TimeQuality
quality_of tb now none = unsynchronized
quality_of tb now (some sync) =
    if not sync.utc_synchronized
    then unsynchronized
    else if ltb_ℤ tb.staleness_threshold (now -ℤ tb.last_sync_at)
    then holdover
    else synchronized

unfoldable pub quality : Timebase → ℤ → TimeQuality
quality tb now = quality_of tb now tb.latest_sync

-- Signed overflow, which C++ leaves undefined.
pub data Undefined : Type 0 where
  signed_overflow : Undefined

unfoldable pub i64 : ℤ → Result Undefined ℤ
i64 x = do ensure (fits_i64 x) signed_overflow; ok x

-- The label that a sync point gives to a sample.
unfoldable pub extrapolate : TimeSyncPoint → ℕ → Result Undefined UtcEstimate
extrapolate sync sample_index = do
  let delta = to_i64 ((sample_index + 2 ^ 64 - sync.sample_counter) % 2 ^ 64)
  let whole_seconds = div_trunc delta sync.sample_rate_hz
  let remainder_samples = rem_trunc delta sync.sample_rate_hz
  seconds ← i64 (scale whole_seconds 1_000_000_000)
  second ← i64 (sync.utc_ns +ℤ seconds)
  scaled ← i64 (scale remainder_samples 1_000_000_000)
  utc ← i64 (second +ℤ div_trunc scaled sync.sample_rate_hz)
  ok (record { utc = utc; uncertainty_ns = sync.uncertainty_ns })

unfoldable pub too_far_behind : TimeSyncPoint → ℕ → Bool
too_far_behind sync sample_index =
    if ltb sample_index sync.sample_counter
    then ltb ((sync.sample_rate_hz * max_backward_extrapolation_seconds) % 2 ^ 64)
        (sync.sample_counter - sample_index)
    else false

unfoldable pub labelled_by : Option TimeSyncPoint → ℕ → ℕ → Result Undefined (Option UtcEstimate)
labelled_by none sample_index generation = ok none
labelled_by (some sync) sample_index generation =
    if not sync.utc_synchronized || sync.sample_rate_hz == 0
    then ok none
    else if not (generation == sync.configuration_generation)
    then ok none
    else if too_far_behind sync sample_index
    then ok none
    else do estimate ← extrapolate sync sample_index; ok (some estimate)

unfoldable pub utc_for_sample : Timebase → ℕ → ℕ → Result Undefined (Option UtcEstimate)
utc_for_sample tb sample_index generation = labelled_by tb.latest_sync sample_index generation
