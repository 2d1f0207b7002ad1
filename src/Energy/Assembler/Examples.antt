-- ===== src/Energy/Assembler/Examples.antt =====
-- The two parts of a family, given to the assembler in turn.
use msap1_apu.Prelude.{
  ℕ, ◌≡◌, refl, inr, false, none, some, [], ◌∷◌, ◌++◌, Result, ok, err, replicate,
}
use msap1_apu.Prelude.Integers.{pos}
use msap1_apu.Energy.Values.{EnergyValues, no_energy}
use msap1_apu.Energy.Record.{
  MeterRecord, header_valid, energy_part, energy_part_count, energy_family_complete,
  energy_complete,
}
use msap1_apu.Energy.Family.{
  InvalidRecord, EnergyFamilyIdentity, decode_energy_identity, same_identity, decode_energy_family,
}
use msap1_apu.Energy.Assembler.{Assembler, empty, update, pending_parts, accept}
use msap1_apu.Energy.Assembler.Completion.{assembled, Calls, Given, AreParts, accept_completes}
use msap1_apu.Energy.Assembler.Order.{IsAway, either_order_completes}

-- A part of a family: 640 samples at 3200 per second.
abbrev part : ℕ → ℕ → MeterRecord
part sequence header = record {
  words =
      0x3152_544d
      ∷ 0x0003_0001
      ∷ 256
      ∷ sequence
      ∷ 1
      ∷ 3200
      ∷ 640
      ∷ 255
      ∷ 2
      ∷ 0
      ∷ 0
      ∷ 0
      ∷ 0
      ∷ header
      ∷ 640
      ∷ 0
      ∷ (1000 ∷ 0 ∷ 1000 ∷ 0 ∷ 1000 ∷ 0 ∷ 3000 ∷ 0 ∷ replicate 24 0
          ++ 7 ∷ 0 ∷ 640 ∷ replicate 13 0);
}

abbrev summary_part : MeterRecord
summary_part = part 5 0xf18

abbrev quadrant_part : MeterRecord
quadrant_part = part 5 0xf19

abbrev one_call : Calls
one_call = (quadrant_part, pos 8) ∷ []

abbrev values : Result InvalidRecord EnergyValues → EnergyValues
values (ok v) = v
values (err failure) = no_energy

abbrev family : EnergyValues
unfolding decode_energy_family
family = values (decode_energy_family summary_part quadrant_part (pos 9))

accept_completes_example :
    (s : MeterRecord) × (q : MeterRecord) × Given ((summary_part, pos 9) ∷ one_call) s
    × Given ((summary_part, pos 9) ∷ one_call) q
    × AreParts s q
    × (decode_energy_family s q (pos 9) ≡ ok family)
    × (pending_parts (assembled ((summary_part, pos 9) ∷ one_call)) ≡ 0)
unfolding accept assembled decode_energy_identity header_valid energy_part energy_part_count
    energy_family_complete energy_complete same_identity decode_energy_family
accept_completes_example =
    accept_completes one_call summary_part (pos 9)
      (record { completed = some family; incomplete_families = 0; duplicate_part = false }) family
      refl refl

abbrev fifth : EnergyFamilyIdentity
fifth = record {
  sequence = 5;
  configuration_generation = 1;
  sample_rate_hz = 3200;
  sample_count = 640;
  source_valid_mask = 255;
  status = 2;
  first_sample_index = 0;
  last_sample_index = 640;
  session_id = 7;
  accepted_samples = 640;
  skipped_samples = 0;
  accepted_blocks = 0;
  skipped_blocks = 0;
}

fifth-AreParts : AreParts summary_part quadrant_part
unfolding decode_energy_identity header_valid energy_part energy_part_count energy_family_complete
    energy_complete same_identity
fifth-AreParts = record {
  summary_identity = fifth;
  quadrant_identity = fifth;
  decodes_summary = refl;
  decodes_quadrants = refl;
  is_summary = refl;
  is_quadrants = refl;
  one_family = refl;
}

-- The summary of the fourth family waits for its quadrant record.
abbrev fourth_pending : Assembler
fourth_pending = record {
  identity = some (record fifth { sequence = 4 });
  summary = some (part 4 0xf18);
  quadrants = none;
}

decodes : decode_energy_family summary_part quadrant_part (pos 9) ≡ ok family
unfolding decode_energy_family decode_energy_identity header_valid energy_part energy_part_count
    energy_family_complete energy_complete same_identity family
decodes = refl

fourth-IsAway : IsAway fourth_pending fifth
unfolding same_identity
fourth-IsAway = inr (record fifth { sequence = 4 }, refl, refl)

either_order_completes_example :
    (accept quadrant_part (pos 9) (accept summary_part (pos 8) fourth_pending).1
      ≡ (ok (update (some family) 0 false), empty))
    × (accept summary_part (pos 9) (accept quadrant_part (pos 8) fourth_pending).1
        ≡ (ok (update (some family) 0 false), empty))
unfolding fifth-AreParts
either_order_completes_example =
    either_order_completes summary_part quadrant_part fifth-AreParts family (pos 8) (pos 9)
      fourth_pending decodes fourth-IsAway
