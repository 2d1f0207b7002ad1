-- ===== src/Energy/Sums.antt =====
-- common/msap1/meter/energy_ledger.cpp: the sums of `ingest_energy` over the arrays of counters.
pub mod Alignment
pub mod Growth
use msap1_apu.Prelude.{
  ℕ, ◌-◌, ◌^◌, Bool, true, false, not, ◌&&◌, List, [], ◌∷◌, Result, ok, err, ◌>>=◌, ◌>>◌, ensure,
  if◌then◌else◌,
}
use msap1_apu.Prelude.Integers.{ℤ, pos, ◌+ℤ◌, ◌-ℤ◌, ltb_ℤ}
use msap1_apu.Energy.Columns.{Failure, negative_delta, counter_rollback}

abbrev pub int64_max : ℤ
int64_max = pos (2 ^ 63 - 1)

-- The value, and whether it is clamped.
unfoldable pub saturating_add : ℤ → ℤ → Bool → Result Failure (ℤ × Bool)
saturating_add value delta saturated = do
  ensure (not (ltb_ℤ delta (pos 0))) negative_delta
  ok (if ltb_ℤ (int64_max -ℤ delta) value then (int64_max, true) else (value +ℤ delta, saturated))

-- What `ingest_energy` adds to the lifetime counters, one counter after the other.
unfoldable pub add_growth : List ℤ → List ℤ → List ℤ → Bool → Result Failure (List ℤ × Bool)
unfolding saturating_add
add_growth (c ∷ counters) (s ∷ session) (l ∷ lifetime) saturated = do
  ensure (not (ltb_ℤ c s)) counter_rollback
  (sum, saturated') ← saturating_add l (c -ℤ s) saturated
  (sums, saturated'') ← add_growth counters session lifetime saturated'
  ok (sum ∷ sums, saturated'')
add_growth counters session lifetime saturated = ok ([], saturated)

-- The first checkpoint of a session counts from 0.
unfoldable pub add_session : List ℤ → List ℤ → Bool → Result Failure (List ℤ × Bool)
unfolding saturating_add
add_session (c ∷ counters) (l ∷ lifetime) saturated = do
  (sum, saturated') ← saturating_add l c saturated
  (sums, saturated'') ← add_session counters lifetime saturated'
  ok (sum ∷ sums, saturated'')
add_session counters lifetime saturated = ok ([], saturated)

unfoldable pub all_positive : List ℤ → Bool
all_positive [] = true
all_positive (c ∷ counters) = not (ltb_ℤ c (pos 0)) && all_positive counters
