-- ===== src/Meter/Examples.antt =====
-- The timebase on a concrete sync point.
use msap1_apu.Prelude.{
  ◌+◌, ◌*◌, ◌/◌, ◌≤◌, ◌≡◌, ◌≢◌, refl, true, ok, none, some, arith, ltb, if◌then◌else◌,
}
use msap1_apu.Prelude.Integers.{pos, neg, ◌+ℤ◌}
use msap1_apu.Meter.Timebase.{
  TimeSyncPoint, UtcEstimate, Timebase, record_sync, quality, unsynchronized, utc_for_sample,
  labelled_by, too_far_behind, extrapolate, i64,
}
use msap1_apu.Meter.Timebase.Labels.{IsSync, utc_forward, utc_backward, utc_sound}

-- 32000 samples a second, from sample 1000.
abbrev sync : TimeSyncPoint
sync = record {
  sample_counter = 1_000;
  utc_ns = pos 1_700_000_000_000_000_000;
  uncertainty_ns = 900;
  sample_rate_hz = 32_000;
  configuration_generation = 3;
  utc_synchronized = true;
}

sync-IsSync : IsSync sync
sync-IsSync = record {
  trusted = refl;
  counter_fits = omega arith;
  rate_set = omega arith;
  rate_fits = omega arith;
  not_late = omega arith;
  not_early = omega arith;
}

abbrev fresh : Timebase
fresh = record {
  staleness_threshold = pos 30_000_000_000;
  latest_sync = none;
  last_sync_at = pos 0;
}

utc_forward_example :
    utc_for_sample (record_sync fresh sync (pos 5)) (1_000 + 48_001) 3
    ≡ ok (
        some (record {
          utc = pos 1_700_000_000_000_000_000 +ℤ pos (48_001 * 1_000_000_000 / 32_000);
          uncertainty_ns = 900;
        }))
utc_forward_example =
    utc_forward fresh sync (pos 5) 48_001 sync-IsSync (omega arith) (omega arith) (omega arith)

utc_backward_example : utc_for_sample (record_sync fresh sync (pos 5)) 999 3 ≡ (
    if ltb (32_000 * 60) 1
    then ok none
    else ok (
        some (record {
          utc = pos 1_700_000_000_000_000_000 +ℤ neg (1 * 1_000_000_000 / 32_000);
          uncertainty_ns = 900;
        })))
utc_backward_example = utc_backward fresh sync (pos 5) 1 999 sync-IsSync (omega arith) refl

abbrev after_sync : Timebase
after_sync = record {
  staleness_threshold = pos 30_000_000_000;
  latest_sync = some sync;
  last_sync_at = pos 5;
}

abbrev estimate : UtcEstimate
estimate = record { utc = pos 1_700_000_000_000_031_250; uncertainty_ns = 900 }

labelled_sample : utc_for_sample after_sync 1_001 3 ≡ ok (some estimate)
unfolding utc_for_sample labelled_by too_far_behind extrapolate i64 ◌+ℤ◌
labelled_sample = refl

utc_sound_example :
    (quality after_sync (pos 9) ≢ unsynchronized)
    × ((s : TimeSyncPoint) × (after_sync.latest_sync ≡ some s)
        × (s.utc_synchronized ≡ true)
        × (1 ≤ s.sample_rate_hz)
        × (3 ≡ s.configuration_generation)
        × (estimate.uncertainty_ns ≡ s.uncertainty_ns))
utc_sound_example = utc_sound after_sync (pos 9) 1_001 3 estimate labelled_sample
