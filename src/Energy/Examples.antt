-- ===== src/Energy/Examples.antt =====
-- Runs of the energy ledger on small inputs.
use msap1_apu.Prelude.{
  ℕ, ◌≡◌, ◌≢◌, refl, inl, Bool, true, false, ◌&&◌, List, [], ◌∷◌, Result, ok, err, arith, All,
}
use msap1_apu.Prelude.Integers.{ℤ, pos, fits_i64}
use msap1_apu.Energy.Values.{EnergyValues, Reading, no_energy, phases, flatten_energy_counters}
use msap1_apu.Energy.Columns.{Failure}
use msap1_apu.Energy.Columns.Laws.{FitsI64}
use msap1_apu.Energy.Rows.{persist_energy, sample_rate}
use msap1_apu.Energy.Rows.Laws.{IsMeasured, measured}
use msap1_apu.Energy.Ledger.{
  Ledger, ResetRequest, ResetResult, new_ledger, ingest_energy, reset_energy, reopen, first_window,
}
use msap1_apu.Energy.Sums.Growth.{Grown}
use msap1_apu.Energy.Ledger.Runs.{
  Step, ingested, zeroed, restarted, step, run, after, IsCheckpoint, IsLedger,
}
use msap1_apu.Energy.Ledger.Runs.Restart.{new_ledger-IsLedger}
use msap1_apu.Energy.Ledger.Runs.Session.{InSession, KeepsEpoch, run_telescopes, run-Rises}
use msap1_apu.Energy.Ledger.Runs.Validity.{Rises, run-IsLedger}
use msap1_apu.Energy.Ledger.Runs.Retry.{retry_after_restart}
use msap1_apu.Energy.Ledger.Runs.Once.{reset_once}

-- 640 samples at 3200 per second; every counter reads `energy`.
abbrev reading : ℕ → Reading
reading energy = record {
  value = pos energy;
  quality = 1;
  source_sequence = 0;
  measured_at = pos 0;
  calculation_window = measured 640 3200;
}

abbrev checkpoint : ℕ → ℕ → EnergyValues
checkpoint session energy = record no_energy {
  active_import = phases (reading energy);
  session_id = session;
  last_sample_index = 640;
}

abbrev all_fit : List ℤ → Bool
all_fit [] = true
all_fit (x ∷ xs) = fits_i64 x && all_fit xs

all_fit-All : (xs : List ℤ) → all_fit xs ≡ true → All FitsI64 xs
all_fit-All [] e = tt
all_fit-All (x ∷ xs) e = (ground arith, all_fit-All xs (ground arith))

first-IsCheckpoint : IsCheckpoint (checkpoint 7 100)
unfolding flatten_energy_counters
first-IsCheckpoint = record {
  is_energy = record {
    session_fits = omega arith;
    last_fits = omega arith;
    accepted_fits = omega arith;
    skipped_fits = omega arith;
  };
  counters_fit = all_fit-All (flatten_energy_counters (checkpoint 7 100)) refl;
}

second-IsCheckpoint : IsCheckpoint (checkpoint 7 130)
unfolding flatten_energy_counters
second-IsCheckpoint = record {
  is_energy = record {
    session_fits = omega arith;
    last_fits = omega arith;
    accepted_fits = omega arith;
    skipped_fits = omega arith;
  };
  counters_fit = all_fit-All (flatten_energy_counters (checkpoint 7 130)) refl;
}

abbrev first : Step
first = ingested true (checkpoint 7 100) 1 3 (pos 50)

abbrev second : Step
second = ingested true (checkpoint 7 130) 2 3 (pos 60)

-- The second checkpoint is not stored at first.
abbrev steps : List Step
steps =
    first
    ∷ ingested false (checkpoint 7 130) 2 3 (pos 55)
    ∷ restarted
    ∷ second
    ∷ first
    ∷ second
    ∷ []

in_session : All (InSession 7) steps
in_session =
    let one : InSession 7 first = (refl, first-IsCheckpoint) in
    let two : InSession 7 second = (refl, second-IsCheckpoint) in
    (one, (two, (tt, (two, (one, (two, tt))))))

no_reset : All KeepsEpoch steps
no_reset =
    let one = first-IsCheckpoint in
    let two = second-IsCheckpoint in (one, (two, (tt, (two, (one, (two, tt))))))

run_telescopes_example :
    Grown new_ledger.energy_state.session_counters
      (run new_ledger steps).energy_state.session_counters
      new_ledger.energy_state.lifetime_counters
      (run new_ledger steps).energy_state.lifetime_counters
run_telescopes_example =
    run_telescopes new_ledger 7 steps new_ledger-IsLedger (inl (refl, refl, refl)) in_session

run-Rises_example :
    Rises new_ledger.energy_state.lifetime_counters
      (run new_ledger steps).energy_state.lifetime_counters
run-Rises_example = run-Rises new_ledger steps new_ledger-IsLedger no_reset

-- What the call returns, and the ledger after it.
abbrev returned : {A : Type 0} → A → Result Failure (A × Ledger) → A
returned d (ok (value, l)) = value
returned d (err failure) = d

abbrev first_call : Result Failure (EnergyValues × Ledger)
first_call = ingest_energy (checkpoint 7 100) 1 3 (pos 50) true new_ledger

stored_once : first_call ≡ ok (returned no_energy first_call, after new_ledger first_call)
unfolding ingest_energy flatten_energy_counters persist_energy
stored_once = refl

abbrev first_ledger : Ledger
first_ledger = after new_ledger first_call

one_ne_zero : 1 ≢ new_ledger.energy_state.source_sequence
one_ne_zero e = omega arith

reading-IsMeasured : IsMeasured (first_window (checkpoint 7 100))
unfolding first_window sample_rate
reading-IsMeasured = record {
  rate = 3200;
  some_rate = omega arith;
  is_measured = refl;
  representable = λ e. omega arith;
}

retry_after_restart_example :
    (l'' : Ledger) × (w : EnergyValues) × (reopen first_ledger ≡ ok l'')
    × (ingest_energy (checkpoint 7 100) 1 3 (pos 90) true l'' ≡ ok (w, l''))
    × (flatten_energy_counters w ≡ flatten_energy_counters (returned no_energy first_call))
    × (l''.energy_state ≡ first_ledger.energy_state)
retry_after_restart_example =
    retry_after_restart new_ledger (checkpoint 7 100) 1 3 (pos 50) (pos 90) true true
      (returned no_energy first_call) first_ledger new_ledger-IsLedger first-IsCheckpoint
      reading-IsMeasured one_ne_zero stored_once

-- An administrator's reset, repeated after a restart and a checkpoint.
abbrev request : ResetRequest
request = record {
  expected_epoch = 0;
  idempotency_key = 107 ∷ [];
  actor = 97 ∷ [];
  request_id = 114 ∷ [];
  requested_at = pos 70;
}

abbrev reset_call : Result Failure (ResetResult × Ledger)
reset_call = reset_energy true first_ledger request

abbrev zeroed_ledger : Ledger
zeroed_ledger = after first_ledger reset_call

zeroed_once : reset_call ≡ ok (record { epoch = 1; replayed = false }, zeroed_ledger)
unfolding reset_energy ingest_energy flatten_energy_counters persist_energy
zeroed_once = refl

first_ledger-IsLedger : IsLedger first_ledger
unfolding run ingest_energy step
first_ledger-IsLedger =
    run-IsLedger new_ledger (first ∷ []) new_ledger-IsLedger (first-IsCheckpoint, tt)

zeroed_ledger-IsLedger : IsLedger zeroed_ledger
unfolding run reset_energy step
zeroed_ledger-IsLedger =
    run-IsLedger first_ledger (zeroed true request ∷ []) first_ledger-IsLedger (tt, tt)

reset_once_example :
    reset_energy false (run zeroed_ledger (restarted ∷ second ∷ [])) request
    ≡ ok (record { epoch = 1; replayed = true }, run zeroed_ledger (restarted ∷ second ∷ []))
reset_once_example =
    reset_once first_ledger request true false (record { epoch = 1; replayed = false })
      zeroed_ledger (restarted ∷ second ∷ []) zeroed_ledger-IsLedger (tt, (second-IsCheckpoint, tt))
      zeroed_once
