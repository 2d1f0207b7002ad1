-- ===== src/Energy/Assembler.antt =====
-- common/msap1/meter/energy_demand.cpp: EnergyFamilyAssembler, which joins the two parts of a family.
pub mod Completion
mod Examples
pub mod Order
use msap1_apu.Prelude.{
  ℕ, zero, ◌+◌, Bool, true, false, not, ◌&&◌, List, [], ◌∷◌, Option, none, some, Result, ok, err,
  ◌==◌, if◌then◌else◌,
}
use msap1_apu.Prelude.Integers.{ℤ}
use msap1_apu.Energy.Values.{EnergyValues, same_list}
use msap1_apu.Energy.Record.{MeterRecord, energy_part}
use msap1_apu.Energy.Family.{
  InvalidRecord, duplicate_differs, EnergyFamilyIdentity, decode_energy_identity, same_identity,
  decode_energy_family,
}

pub record EnergyAssemblyUpdate : Type 0 where
  pub completed : Option EnergyValues
  pub incomplete_families : ℕ
  pub duplicate_part : Bool

pub record Assembler : Type 0 where
  pub identity : Option EnergyFamilyIdentity
  pub summary : Option MeterRecord
  pub quadrants : Option MeterRecord

-- The state that `reset` leaves.
abbrev pub empty : Assembler
empty = record { identity = none; summary = none; quadrants = none }

abbrev pub has_value : {T : Type 0} → Option T → Bool
has_value none = false
has_value (some x) = true

unfoldable pub pending_parts : Assembler → ℕ
pending_parts a = (if has_value a.summary then 1 else 0) + (if has_value a.quadrants then 1 else 0)

-- A part of another family gives up what is pending: the assembler for the incoming family, and how
-- many families stay incomplete.
unfoldable pub turn_to :
    EnergyFamilyIdentity → Assembler → Option EnergyFamilyIdentity → Assembler × ℕ
turn_to incoming a none = (record a { identity = some incoming }, 0)
turn_to incoming a (some current) = if same_identity current incoming then (a, 0) else (
  record empty { identity = some incoming },
  if has_value a.summary then 1 else if has_value a.quadrants then 1 else 0,
)

-- The slot of the part: a duplicate has to be equal.
unfoldable pub fill : MeterRecord → Option MeterRecord → Result InvalidRecord (MeterRecord × Bool)
fill r none = ok (r, false)
fill r (some held) =
    if same_list ◌==◌ held.words r.words then ok (held, true) else err duplicate_differs

abbrev pub put : Bool → MeterRecord → Assembler → Assembler
put true r a = record a { summary = some r }
put false r a = record a { quadrants = some r }

abbrev pub slot : Bool → Assembler → Option MeterRecord
slot true a = a.summary
slot false a = a.quadrants

abbrev pub update : Option EnergyValues → ℕ → Bool → EnergyAssemblyUpdate
update completed incomplete duplicate = record {
  completed = completed;
  incomplete_families = incomplete;
  duplicate_part = duplicate;
}

-- What was decoded is passed on and the parts are given up; where the decoding throws, they stay.
unfoldable pub finish :
    ℕ
    → Bool
    → Assembler
    → Result InvalidRecord EnergyValues
    → Result InvalidRecord EnergyAssemblyUpdate × Assembler
finish incomplete duplicate a (ok values) = (ok (update (some values) incomplete duplicate), empty)
finish incomplete duplicate a (err failure) = (err failure, a)

-- Both parts are there, or one is awaited.
unfoldable pub complete_family :
    ℤ
    → ℕ
    → Bool
    → Assembler
    → Option MeterRecord
    → Option MeterRecord
    → Result InvalidRecord EnergyAssemblyUpdate × Assembler
unfolding finish
complete_family at incomplete duplicate a (some s) (some q) =
    finish incomplete duplicate a (decode_energy_family s q at)
complete_family at incomplete duplicate a (some s) none = (ok (update none incomplete duplicate), a)
complete_family at incomplete duplicate a none q = (ok (update none incomplete duplicate), a)

unfoldable pub place :
    ℤ
    → Assembler
    → ℕ
    → Bool
    → Result InvalidRecord (MeterRecord × Bool)
    → Result InvalidRecord EnergyAssemblyUpdate × Assembler
unfolding complete_family
place at a incomplete is_summary (err failure) = (err failure, a)
place at a incomplete is_summary (ok (held, duplicate)) =
    let b = put is_summary held a in complete_family at incomplete duplicate b b.summary b.quadrants

unfoldable pub accept_part :
    MeterRecord → ℤ → Assembler × ℕ → Result InvalidRecord EnergyAssemblyUpdate × Assembler
unfolding fill place
accept_part r at (a, incomplete) =
    let is_summary = energy_part r == 0 in
    place at a incomplete is_summary (fill r (slot is_summary a))

unfoldable pub accept_identified :
    MeterRecord
    → ℤ
    → Assembler
    → Result InvalidRecord EnergyFamilyIdentity
    → Result InvalidRecord EnergyAssemblyUpdate × Assembler
unfolding turn_to accept_part
accept_identified r at a (err failure) = (err failure, a)
accept_identified r at a (ok incoming) = accept_part r at (turn_to incoming a a.identity)

unfoldable pub accept :
    MeterRecord → ℤ → Assembler → Result InvalidRecord EnergyAssemblyUpdate × Assembler
unfolding accept_identified
accept r at a = accept_identified r at a (decode_energy_identity r)
