-- ===== src/Energy/Rows.antt =====
-- common/msap1/meter/energy_ledger.cpp: the energy state of the ledger, and the SQLite row that
-- `persist_energy` writes and `load_energy` reads.
pub mod Laws
use msap1_apu.Prelude.{
  ℕ, zero, suc, ◌+◌, ◌-◌, ◌*◌, ◌/◌, ◌%◌, ◌^◌, max, bit_and, bit_or, Bool, true, false, not, ◌&&◌,
  ◌||◌, List, [], ◌∷◌, Option, none, some, Result, ok, err, ◌>>=◌, ◌>>◌, ensure, ltb, leb, ◌==◌,
  if◌then◌else◌, length, replicate, get_or, get_elem?,
}
use msap1_apu.Prelude.Integers.{ℤ, pos, negsuc, ◌+ℤ◌, ◌-ℤ◌, ltb_ℤ, div_trunc}
use msap1_apu.Settings.Texts.{equals}
use msap1_apu.Energy.Values.{
  EnergyValues, Reading, SampleWindow, no_energy, energy_counter_count, flatten_energy_counters,
  assign_energy_counters, energy_qualities, for_each_energy_reading, same_integer, same_list,
  same_window,
}
use msap1_apu.Energy.Columns.{
  Failure, negative_counter, stale_sequence, different_content, counter_rollback, negative_delta,
  epoch_conflict, incomplete_request, no_checkpoint, blob_size, integer_overflow, storage,
  encode_array, decode_array, hex64, parse_hex64,
}

pub record EnergyState : Type 0 where
  pub epoch : ℕ
  pub session_id : ℕ
  pub source_sequence : ℕ
  pub generation : ℕ
  pub session_counters : List ℤ
  pub lifetime_counters : List ℤ

abbrev pub no_state : EnergyState
no_state = record {
  epoch = 0;
  session_id = 0;
  source_sequence = 0;
  generation = 0;
  session_counters = replicate energy_counter_count (pos 0);
  lifetime_counters = replicate energy_counter_count (pos 0);
}

-- The row of the table `energy_state`.
pub record EnergyRow : Type 0 where
  pub epoch : ℕ
  pub session_id : List ℕ
  pub source_sequence : ℕ
  pub generation : ℕ
  pub session_counters : List ℕ
  pub lifetime_counters : List ℕ
  pub qualities : List ℕ
  pub last_sample : List ℕ
  pub accepted_samples : List ℕ
  pub skipped_samples : List ℕ
  pub accepted_blocks : ℕ
  pub skipped_blocks : ℕ
  pub flags : ℕ
  pub sample_count : ℕ
  pub sample_rate : ℕ
  pub updated_ns : ℤ

-- A sample count fits 32 bits, so the product does not wrap.
unfoldable pub sample_rate : SampleWindow → ℕ
sample_rate window =
    if window.sample_count == 0 || not (ltb_ℤ (pos 0) window.duration)
    then 0
    else (let result = above_zero window.sample_count window.duration in
        if ltb (2 ^ 32 - 1) result then 0 else result)
  where
    above_zero : ℕ → ℤ → ℕ
    above_zero count (pos duration) = count * 1000000000 / duration
    above_zero count (negsuc duration) = 0

abbrev bool_bit : Bool → ℕ
bool_bit true = 1
bool_bit false = 0

unfoldable pub energy_flags : EnergyValues → ℕ
energy_flags v =
    bit_or (bit_or (bool_bit v.saturated) (bool_bit v.incomplete_input * 2 ^ 1))
      (bool_bit v.discontinuity * 2 ^ 2)

-- The values that `persist_energy` binds.
unfoldable pub energy_row : EnergyValues → EnergyState → ℕ → ℕ → ℤ → EnergyRow
energy_row values state sample_count sample_rate updated_ns = record {
  epoch = state.epoch;
  session_id = hex64 state.session_id;
  source_sequence = state.source_sequence;
  generation = state.generation;
  session_counters = encode_array state.session_counters;
  lifetime_counters = encode_array state.lifetime_counters;
  qualities = energy_qualities values;
  last_sample = hex64 values.last_sample_index;
  accepted_samples = hex64 values.accepted_samples;
  skipped_samples = hex64 values.skipped_samples;
  accepted_blocks = values.accepted_blocks;
  skipped_blocks = values.skipped_blocks;
  flags = energy_flags values;
  sample_count = sample_count;
  sample_rate = sample_rate;
  updated_ns = updated_ns;
}

-- `bind` of an unsigned number throws where it does not fit SQLite's signed integers.
unfoldable pub persist_energy : EnergyValues → EnergyState → ℕ → ℕ → ℤ → Result Failure EnergyRow
unfolding energy_row
persist_energy values state sample_count sample_rate updated_ns = do
  ensure (ltb state.epoch (2 ^ 63)) integer_overflow
  ok (energy_row values state sample_count sample_rate updated_ns)

unfoldable pub assign_energy_qualities : EnergyValues → List ℕ → Result Failure EnergyValues
assign_energy_qualities values qualities = do
  ensure (length qualities == energy_counter_count) blob_size
  ok (for_each_energy_reading (λ i r. record r { quality = get_or qualities i 0 }) values)

abbrev flag : ℕ → ℕ → Bool
flag flags mask = not (bit_and flags mask == 0)

unfoldable pub row_window : EnergyRow → SampleWindow
row_window row = record {
  sample_count = row.sample_count;
  duration = pos (row.sample_count * 1000000000 / max row.sample_rate 1);
}

-- The loaded values, from the parts that had to be decoded.
unfoldable pub row_values : EnergyRow → EnergyValues → ℕ → ℕ → ℕ → ℕ → EnergyValues
unfolding row_window
row_values row values session_id last_sample_index accepted_samples skipped_samples =
    for_each_energy_reading
      (λ i r. record r {
        source_sequence = row.source_sequence;
        measured_at = row.updated_ns;
        calculation_window = row_window row;
      })
      (record values {
        session_id = session_id;
        last_sample_index = last_sample_index;
        accepted_samples = accepted_samples;
        skipped_samples = skipped_samples;
        accepted_blocks = row.accepted_blocks;
        skipped_blocks = row.skipped_blocks;
        saturated = flag row.flags 1;
        incomplete_input = flag row.flags 2;
        discontinuity = flag row.flags 4;
        reset_epoch = row.epoch;
      })

-- The state and the values that the row stands for.
unfoldable pub load_row : EnergyRow → Result Failure (EnergyState × EnergyValues)
unfolding row_values
load_row row = do
  session_id ← parse_hex64 row.session_id
  session_counters ← decode_array energy_counter_count row.session_counters
  lifetime_counters ← decode_array energy_counter_count row.lifetime_counters
  values ←
      assign_energy_qualities (assign_energy_counters no_energy lifetime_counters) row.qualities
  last_sample_index ← parse_hex64 row.last_sample
  accepted_samples ← parse_hex64 row.accepted_samples
  skipped_samples ← parse_hex64 row.skipped_samples
  ok (
    record {
      epoch = row.epoch;
      session_id = session_id;
      source_sequence = row.source_sequence;
      generation = row.generation;
      session_counters = session_counters;
      lifetime_counters = lifetime_counters;
    },
    row_values row values session_id last_sample_index accepted_samples skipped_samples,
  )
