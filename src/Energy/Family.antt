-- ===== src/Energy/Family.antt =====
-- common/msap1/meter/energy_demand.cpp: the validation of an ENERGY-v1 record, the decoding of a
-- family, which is a summary and a quadrant record, and EnergyFamilyAssembler. The decoding throws
-- nothing but std::invalid_argument; here it is told apart by its cause.
use msap1_apu.Prelude.{
  ℕ, zero, suc, ◌+◌, ◌-◌, ◌*◌, ◌/◌, ◌%◌, ◌^◌, bit_and, Bool, not, ◌&&◌, Result, ok, ◌>>=◌, ◌>>◌,
  ensure, leb, ◌==◌, if◌then◌else◌,
}
use msap1_apu.Prelude.Integers.{ℤ, pos}
use msap1_apu.Energy.Values.{
  SampleWindow, Reading, PhaseAbcTotal, EnergyValues, quality_valid, quality_invalid,
  quality_out_of_range,
}
use msap1_apu.Energy.Record.{
  MeterRecord, word, unsigned64, header_valid, meter_energy_format, energy_part, energy_part_count,
  energy_family_complete, energy_category_valid_mask, energy_complete, energy_incomplete_input,
  energy_saturated, energy_discontinuity,
}

pub data InvalidRecord : Type 0 where
  envelope header_bits part_kind part_count incomplete status_bits transport_drops : InvalidRecord
  no_samples no_session reversed_anchors reserved_words counter_range sample_rate_zero :
      InvalidRecord
  duration_range summary_missing quadrant_missing identity_mismatch duplicate_differs :
      InvalidRecord

abbrev Checked : Type 0
Checked = Result InvalidRecord (Unit {0})

-- The words from `first` on, so many of them.
unfoldable pub require_zero_words : MeterRecord → ℕ → ℕ → Checked
unfolding word
require_zero_words r first zero = ok tt
require_zero_words r first (suc count) = do
  ensure (word r first == 0) reserved_words
  require_zero_words r (first + 1) count

unfoldable pub checked_counter : MeterRecord → ℕ → Result InvalidRecord ℤ
unfolding unsigned64
checked_counter r index = do
  ensure (leb (unsigned64 r index) (2 ^ 63 - 1)) counter_range
  ok (pos (unsigned64 r index))

-- The four counters of a group, of two words each.
unfoldable pub check_counters : MeterRecord → ℕ → ℕ → Checked
unfolding checked_counter
check_counters r base zero = ok tt
check_counters r base (suc count) = do
  value ← checked_counter r base
  check_counters r (base + 2) count

unfoldable pub validate_energy_part : MeterRecord → Checked
unfolding word unsigned64 require_zero_words check_counters
validate_energy_part r = do
  ensure (header_valid r && word r 1 == meter_energy_format) envelope
  ensure (bit_and (word r 13) (2 ^ 32 - 1 - 0xf1f) == 0) header_bits
  ensure (leb (energy_part r) 1) part_kind
  ensure (energy_part_count r == 2) part_count
  ensure (energy_family_complete r && energy_complete r) incomplete
  ensure (bit_and (word r 8) (2 ^ 32 - 1 - 0x1f) == 0) status_bits
  ensure (word r 11 == 0 && word r 12 == 0) transport_drops
  ensure (not (word r 6 == 0)) no_samples
  ensure (not (unsigned64 r 48 == 0)) no_session
  ensure (leb (unsigned64 r 9) (unsigned64 r 14)) reversed_anchors
  (if energy_part r == 0 then require_zero_words r 40 8 else ok tt)
  require_zero_words r 56 8
  check_counters r 16 4
  check_counters r 24 4
  check_counters r 32 4
  (if energy_part r == 0 then ok tt else check_counters r 40 4)

pub record EnergyFamilyIdentity : Type 0 where
  pub sequence : ℕ
  pub configuration_generation : ℕ
  pub sample_rate_hz : ℕ
  pub sample_count : ℕ
  pub source_valid_mask : ℕ
  pub status : ℕ
  pub first_sample_index : ℕ
  pub last_sample_index : ℕ
  pub session_id : ℕ
  pub accepted_samples : ℕ
  pub skipped_samples : ℕ
  pub accepted_blocks : ℕ
  pub skipped_blocks : ℕ

unfoldable pub decode_energy_identity : MeterRecord → Result InvalidRecord EnergyFamilyIdentity
unfolding validate_energy_part
decode_energy_identity r = do
  validate_energy_part r
  ok (record {
    sequence = word r 3;
    configuration_generation = word r 4;
    sample_rate_hz = word r 5;
    sample_count = word r 6;
    source_valid_mask = word r 7 % 2 ^ 8;
    status = word r 8;
    first_sample_index = unsigned64 r 9;
    last_sample_index = unsigned64 r 14;
    session_id = unsigned64 r 48;
    accepted_samples = unsigned64 r 50;
    skipped_samples = unsigned64 r 52;
    accepted_blocks = word r 54;
    skipped_blocks = word r 55;
  })

unfoldable pub same_identity : EnergyFamilyIdentity → EnergyFamilyIdentity → Bool
same_identity i j =
    i.sequence == j.sequence
    && (i.configuration_generation == j.configuration_generation
        && (i.sample_rate_hz == j.sample_rate_hz
            && (i.sample_count == j.sample_count
                && (i.source_valid_mask == j.source_valid_mask
                    && (i.status == j.status
                        && (i.first_sample_index == j.first_sample_index
                            && (i.last_sample_index == j.last_sample_index
                                && (i.session_id == j.session_id
                                    && (i.accepted_samples == j.accepted_samples
                                        && (i.skipped_samples == j.skipped_samples
                                            && (i.accepted_blocks == j.accepted_blocks
                                                && i.skipped_blocks == j.skipped_blocks)))))))))))

-- A sample count fits 32 bits, so the product does not wrap.
unfoldable pub source_window : MeterRecord → Result InvalidRecord SampleWindow
unfolding word
source_window r = do
  ensure (not (word r 5 == 0)) sample_rate_zero
  ensure (leb (word r 6 * 1000000000 / word r 5) (2 ^ 63 - 1)) duration_range
  ok (record { sample_count = word r 6; duration = pos (word r 6 * 1000000000 / word r 5) })

abbrev quality_of : Bool → Bool → ℕ
quality_of valid saturated =
    if not valid then quality_invalid else if saturated then quality_out_of_range else quality_valid

unfoldable pub counter_reading :
    MeterRecord → ℕ → Bool → Bool → ℤ → SampleWindow → Result InvalidRecord Reading
unfolding checked_counter
counter_reading r index valid saturated received_at window = do
  value ← checked_counter r index
  ok (record {
    value = value;
    quality = quality_of valid saturated;
    source_sequence = word r 3;
    measured_at = received_at;
    calculation_window = window;
  })

abbrev phase_valid : MeterRecord → ℕ → Bool
phase_valid r index = not (bit_and (energy_category_valid_mask r) (2 ^ index) == 0)

-- The four readings of a group. Which of the counters is checked first makes no difference.
unfoldable pub read_group :
    MeterRecord → ℕ → Bool → ℤ → SampleWindow → Result InvalidRecord (PhaseAbcTotal Reading)
unfolding counter_reading
read_group r base saturated at window = do
  phase_a ← counter_reading r base (phase_valid r 0) saturated at window
  phase_b ← counter_reading r (base + 2) (phase_valid r 1) saturated at window
  phase_c ← counter_reading r (base + 4) (phase_valid r 2) saturated at window
  total ← counter_reading r (base + 6) (phase_valid r 3) saturated at window
  ok (record { phase_a = phase_a; phase_b = phase_b; phase_c = phase_c; total = total })

-- The readings of two parts that belong together.
unfoldable pub family_values :
    MeterRecord → MeterRecord → ℤ → EnergyFamilyIdentity → Result InvalidRecord EnergyValues
unfolding read_group source_window
family_values summary quadrants received_at identity = do
  window ← source_window summary
  let saturated = energy_saturated summary
  active_import ← read_group summary 16 saturated received_at window
  active_export ← read_group summary 24 saturated received_at window
  apparent ← read_group summary 32 saturated received_at window
  quadrant_0 ← read_group quadrants 16 saturated received_at window
  quadrant_1 ← read_group quadrants 24 saturated received_at window
  quadrant_2 ← read_group quadrants 32 saturated received_at window
  quadrant_3 ← read_group quadrants 40 saturated received_at window
  ok (record {
    active_import = active_import;
    active_export = active_export;
    apparent = apparent;
    reactive_quadrants = record {
      quadrant_0 = quadrant_0;
      quadrant_1 = quadrant_1;
      quadrant_2 = quadrant_2;
      quadrant_3 = quadrant_3;
    };
    session_id = identity.session_id;
    last_sample_index = identity.last_sample_index;
    accepted_samples = identity.accepted_samples;
    skipped_samples = identity.skipped_samples;
    accepted_blocks = identity.accepted_blocks;
    skipped_blocks = identity.skipped_blocks;
    reset_epoch = 0;
    saturated = saturated;
    incomplete_input = energy_incomplete_input summary;
    discontinuity = energy_discontinuity summary;
  })

unfoldable pub decode_energy_family :
    MeterRecord → MeterRecord → ℤ → Result InvalidRecord EnergyValues
unfolding decode_energy_identity same_identity family_values
decode_energy_family summary quadrants received_at = do
  summary_identity ← decode_energy_identity summary
  quadrant_identity ← decode_energy_identity quadrants
  ensure (energy_part summary == 0) summary_missing
  ensure (energy_part quadrants == 1) quadrant_missing
  ensure (same_identity summary_identity quadrant_identity) identity_mismatch
  family_values summary quadrants received_at summary_identity
