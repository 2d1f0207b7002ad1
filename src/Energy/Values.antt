-- ===== src/Energy/Values.antt =====
-- common/msap1/meter/meter_data.hpp and energy_demand.cpp: energy readings, the array of their 28
-- counters, and their qualities. Times and durations are nanoseconds. A quality is the code of the
-- enumeration, whose underlying type is a byte.
use msap1_apu.Prelude.{ℕ, ◌+◌, Bool, true, false, ◌&&◌, List, [], ◌∷◌, ◌++◌, map, ◌==◌, get_or}
use msap1_apu.Prelude.Integers.{ℤ, pos, negsuc}

pub record SampleWindow : Type 0 where
  pub sample_count : ℕ
  pub duration : ℤ

pub record Reading : Type 0 where
  pub value : ℤ
  pub quality : ℕ
  pub source_sequence : ℕ
  pub measured_at : ℤ
  pub calculation_window : SampleWindow

-- MeasurementQuality.
abbrev pub quality_valid : ℕ
quality_valid = 1

abbrev pub quality_invalid : ℕ
quality_invalid = 2

abbrev pub quality_out_of_range : ℕ
quality_out_of_range = 3

pub record PhaseAbcTotal (T : Type 0) : Type 0 where
  pub phase_a : T
  pub phase_b : T
  pub phase_c : T
  pub total : T

-- The array of the four reactive quadrants.
pub record Quadrants (T : Type 0) : Type 0 where
  pub quadrant_0 : T
  pub quadrant_1 : T
  pub quadrant_2 : T
  pub quadrant_3 : T

pub record EnergyValues : Type 0 where
  pub active_import : PhaseAbcTotal Reading
  pub active_export : PhaseAbcTotal Reading
  pub apparent : PhaseAbcTotal Reading
  pub reactive_quadrants : Quadrants (PhaseAbcTotal Reading)
  pub session_id : ℕ
  pub last_sample_index : ℕ
  pub accepted_samples : ℕ
  pub skipped_samples : ℕ
  pub accepted_blocks : ℕ
  pub skipped_blocks : ℕ
  pub reset_epoch : ℕ
  pub saturated : Bool
  pub incomplete_input : Bool
  pub discontinuity : Bool

-- Default-initialised values.
abbrev pub no_reading : Reading
no_reading = record {
  value = pos 0;
  quality = 0;
  source_sequence = 0;
  measured_at = pos 0;
  calculation_window = record { sample_count = 0; duration = pos 0 };
}

abbrev pub phases : {T : Type 0} → T → PhaseAbcTotal T
phases x = record { phase_a = x; phase_b = x; phase_c = x; total = x }

abbrev pub no_energy : EnergyValues
no_energy = record {
  active_import = phases no_reading;
  active_export = phases no_reading;
  apparent = phases no_reading;
  reactive_quadrants = record {
    quadrant_0 = phases no_reading;
    quadrant_1 = phases no_reading;
    quadrant_2 = phases no_reading;
    quadrant_3 = phases no_reading;
  };
  session_id = 0;
  last_sample_index = 0;
  accepted_samples = 0;
  skipped_samples = 0;
  accepted_blocks = 0;
  skipped_blocks = 0;
  reset_epoch = 0;
  saturated = false;
  incomplete_input = false;
  discontinuity = false;
}

abbrev pub energy_counter_count : ℕ
energy_counter_count = 28

-- The order in which `visit` and `copy_group` take the phases.
unfoldable pub in_order : {T : Type 0} → PhaseAbcTotal T → List T
in_order group = group.phase_a ∷ group.phase_b ∷ group.phase_c ∷ group.total ∷ []

-- The readings in the order of `for_each_energy_reading`.
unfoldable pub energy_readings : EnergyValues → List Reading
unfolding in_order
energy_readings v =
    in_order v.active_import
    ++ (in_order v.active_export
        ++ (in_order v.apparent
            ++ (in_order v.reactive_quadrants.quadrant_0
                ++ (in_order v.reactive_quadrants.quadrant_1
                    ++ (in_order v.reactive_quadrants.quadrant_2
                        ++ in_order v.reactive_quadrants.quadrant_3)))))

unfoldable pub flatten_energy_counters : EnergyValues → List ℤ
unfolding energy_readings
flatten_energy_counters v = map (λ r. r.value) (energy_readings v)

unfoldable pub energy_qualities : EnergyValues → List ℕ
unfolding energy_readings
energy_qualities v = map (λ r. r.quality) (energy_readings v)

-- What `function(index, reading)` makes of the four readings of a group, from index `base` on.
unfoldable pub update_group :
    (ℕ → Reading → Reading) → ℕ → PhaseAbcTotal Reading → PhaseAbcTotal Reading
update_group f base group = record {
  phase_a = f base group.phase_a;
  phase_b = f (base + 1) group.phase_b;
  phase_c = f (base + 2) group.phase_c;
  total = f (base + 3) group.total;
}

unfoldable pub for_each_energy_reading : (ℕ → Reading → Reading) → EnergyValues → EnergyValues
unfolding update_group
for_each_energy_reading f v = record v {
  active_import = update_group f 0 v.active_import;
  active_export = update_group f 4 v.active_export;
  apparent = update_group f 8 v.apparent;
  reactive_quadrants = record {
    quadrant_0 = update_group f 12 v.reactive_quadrants.quadrant_0;
    quadrant_1 = update_group f 16 v.reactive_quadrants.quadrant_1;
    quadrant_2 = update_group f 20 v.reactive_quadrants.quadrant_2;
    quadrant_3 = update_group f 24 v.reactive_quadrants.quadrant_3;
  };
}

unfoldable pub assign_energy_counters : EnergyValues → List ℤ → EnergyValues
unfolding for_each_energy_reading
assign_energy_counters v counters =
    for_each_energy_reading (λ i r. record r { value = get_or counters i (pos 0) }) v

-- `==` on integers and on arrays.
abbrev pub same_integer : ℤ → ℤ → Bool
same_integer (pos a) (pos b) = a == b
same_integer (negsuc a) (negsuc b) = a == b
same_integer (pos a) (negsuc b) = false
same_integer (negsuc a) (pos b) = false

unfoldable pub same_list : {T : Type 0} → (T → T → Bool) → List T → List T → Bool
same_list same [] [] = true
same_list same [] (y ∷ ys) = false
same_list same (x ∷ xs) [] = false
same_list same (x ∷ xs) (y ∷ ys) = same x y && same_list same xs ys

unfoldable pub same_window : SampleWindow → SampleWindow → Bool
same_window left right =
    left.sample_count == right.sample_count && same_integer left.duration right.duration
