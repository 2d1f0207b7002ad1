-- ===== src/Energy/Record.antt =====
-- common/msap1/meter/meter_record.hpp: the 64 words of a measurement record, its common envelope and
-- the fields of ENERGY-v1. Every index is a constant below 64, so `word` never throws.
use msap1_apu.Prelude.{
  ℕ, ◌+◌, ◌*◌, ◌/◌, ◌^◌, bit_and, bit_or, Bool, false, not, ◌&&◌, ◌||◌, List, [], ◌∷◌, ◌==◌, get_or,
}

pub record MeterRecord : Type 0 where
  pub words : List ℕ

unfoldable pub word : MeterRecord → ℕ → ℕ
word r index = get_or r.words index 0

unfoldable pub unsigned64 : MeterRecord → ℕ → ℕ
unfolding word
unsigned64 r low_word = bit_or (word r low_word) (word r (low_word + 1) * 2 ^ 32)

abbrev pub meter_record_magic : ℕ
meter_record_magic = 0x3152_544d

abbrev pub meter_record_size : ℕ
meter_record_size = 256

abbrev pub meter_energy_format : ℕ
meter_energy_format = 0x0003_0001

-- The formats in the order of `header_valid`.
abbrev pub known_formats : List ℕ
known_formats =
    0x0001_0004 ∷ 0x0007_0001 ∷ 0x0008_0002 ∷ 0x0009_0002 ∷ 0x0003_0001 ∷ 0x0004_0001 ∷ 0x0002_0003
    ∷ 0x0010_0001 ∷ 0x0011_0002 ∷ 0x0012_0002 ∷ 0x000c_0001 ∷ 0x0013_0001 ∷ 0x0014_0002
    ∷ 0x0015_0002 ∷ 0x000d_0001 ∷ 0x0016_0001 ∷ 0x0017_0002 ∷ 0x0018_0002 ∷ 0x0020_0001
    ∷ 0x0021_0001 ∷ 0x0022_0002 ∷ 0x0023_0002 ∷ 0x0024_0001 ∷ 0x0025_0001 ∷ 0x0026_0002
    ∷ 0x0027_0002 ∷ 0x0005_0001 ∷ 0x001f_0001 ∷ 0x000b_0001 ∷ 0x0006_0001 ∷ 0x000e_0001
    ∷ 0x000f_0001 ∷ 0x0028_0001 ∷ 0x000a_0005 ∷ []

abbrev is_any_of : ℕ → List ℕ → Bool
is_any_of x [] = false
is_any_of x (y ∷ ys) = x == y || is_any_of x ys

unfoldable pub header_valid : MeterRecord → Bool
unfolding word
header_valid r =
    word r 0 == meter_record_magic
    && (is_any_of (word r 1) known_formats && word r 2 == meter_record_size)

unfoldable pub bit_set : MeterRecord → ℕ → ℕ → Bool
unfolding word
bit_set r index bit = not (bit_and (word r index) (2 ^ bit) == 0)

unfoldable pub energy_part : MeterRecord → ℕ
unfolding word
energy_part r = bit_and (word r 13) 0x3

unfoldable pub energy_part_count : MeterRecord → ℕ
unfolding word
energy_part_count r = bit_and (word r 13 / 2 ^ 2) 0x3

unfoldable pub energy_family_complete : MeterRecord → Bool
unfolding bit_set
energy_family_complete r = bit_set r 13 4

unfoldable pub energy_category_valid_mask : MeterRecord → ℕ
unfolding word
energy_category_valid_mask r = bit_and (word r 13 / 2 ^ 8) 0x0f

unfoldable pub energy_complete : MeterRecord → Bool
unfolding bit_set
energy_complete r = bit_set r 8 1

unfoldable pub energy_incomplete_input : MeterRecord → Bool
unfolding bit_set
energy_incomplete_input r = bit_set r 8 2

unfoldable pub energy_saturated : MeterRecord → Bool
unfolding bit_set
energy_saturated r = bit_set r 8 3

unfoldable pub energy_discontinuity : MeterRecord → Bool
unfolding bit_set
energy_discontinuity r = bit_set r 8 4
