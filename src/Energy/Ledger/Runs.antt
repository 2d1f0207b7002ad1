-- ===== src/Energy/Ledger/Runs.antt =====
-- The ledger over the life of the meter: checkpoints, resets and restarts, with or without success.
pub mod Ingest
pub mod Reset
pub mod Restart
pub mod Validity
pub mod Session
pub mod Retry
pub mod Once
use msap1_apu.Prelude.{
  ℕ, ◌+◌, ◌%◌, ◌^◌, ◌<◌, ◌≡◌, refl, sym, ap, ◌∙◌, subst, ◌⊎◌, inl, inr, Bool, true, false, ◌==◌,
  ltb, if◌then◌else◌, List, [], ◌∷◌, Option, none, some, Option-cases, Bool-cases, Result, ok, err,
  ◌>>=◌, ◌>>◌, ensure, arith, length, All, ok-injective, >>=-eq-ok, replicate, ltb→lt, ==_iff,
}
use msap1_apu.Prelude.Integers.{ℤ, pos}
use msap1_apu.Energy.Values.{
  EnergyValues, flatten_energy_counters, assign_energy_counters, energy_counter_count,
}
use msap1_apu.Energy.Columns.{
  Failure, integer_overflow, storage, negative_counter, stale_sequence, different_content,
}
use msap1_apu.Energy.Columns.Laws.{FitsI64}
use msap1_apu.Energy.Rows.{
  EnergyState, EnergyRow, no_state, sample_rate, persist_energy, load_row, energy_row,
}
use msap1_apu.Energy.Rows.Laws.{
  IsState, IsEnergy, Agrees, restored, load_row-energy_row, restored-Agrees, restored-IsEnergy,
}
use msap1_apu.Energy.Sums.{all_positive, add_growth, add_session}
use msap1_apu.Energy.Ledger.{
  Ledger, ResetAudit, ResetRequest, ResetResult, store, first_window, ingest_energy, reset_energy,
  reopen, same_session, new_session, commit_growth, same_checkpoint, count_checkpoint,
}
use msap1_apu.Energy.Sums.Alignment.{
  IsAligned, IsAligned-fits, all_positive-IsAligned, IsAligned-length,
}
use msap1_apu.Energy.Sums.Growth.{add_growth_lem, add_session-Grown}

-- What the program asks of the ledger; the Boolean says whether the transaction commits.
pub data Step : Type 0 where
  ingested : Bool → EnergyValues → ℕ → ℕ → ℤ → Step
  zeroed : Bool → ResetRequest → Step
  restarted : Step

-- The ledger after a call; one that throws leaves it as it was.
abbrev pub after : {A : Type 0} → Ledger → Result Failure (A × Ledger) → Ledger
after l (ok (value, l')) = l'
after l (err failure) = l

unfoldable pub step : Ledger → Step → Ledger
step l (ingested committed session sequence generation now) =
    after l (ingest_energy session sequence generation now committed l)
step l (zeroed committed request) = after l (reset_energy committed l request)
step l restarted = after l (reopen l >>= λ l'. ok (tt {0}, l'))

unfoldable pub run : Ledger → List Step → Ledger
run l [] = l
run l (s ∷ steps) = run (step l s) steps

-- Numbers of their C++ types.
pub record IsCheckpoint (v : EnergyValues) : Type 0 where
  pub is_energy : IsEnergy v
  pub counters_fit : All FitsI64 (flatten_energy_counters v)

abbrev pub IsStep : Step → Type 0
IsStep (ingested committed session sequence generation now) = IsCheckpoint session
IsStep (zeroed committed request) = Unit
IsStep restarted = Unit

-- The row holds what the memory holds.
pub record Stored (l : Ledger) : Type 0 where
  pub latest : EnergyValues
  pub kept : EnergyRow
  pub loaded : EnergyValues
  pub is_latest : l.latest_energy ≡ some latest
  pub is_row : l.row ≡ some kept
  pub is_loaded : load_row kept ≡ ok (l.energy_state, loaded)
  pub agrees : Agrees loaded latest
  pub loaded_fits : IsEnergy loaded

abbrev pub IsNew : Ledger → Type 0
IsNew l = (l.latest_energy ≡ none) × (l.row ≡ none) × (l.energy_state ≡ no_state)

pub record IsLedger (l : Ledger) : Type 0 where
  pub is_aligned :
      IsAligned l.energy_state.session_counters l.energy_state.session_counters
        l.energy_state.lifetime_counters
  pub has_length : length l.energy_state.lifetime_counters ≡ 28
  pub session_fits : l.energy_state.session_id < 2 ^ 64
  pub latest_fits : (v : EnergyValues) → l.latest_energy ≡ some v → IsEnergy v
  pub durable : IsNew l ⊎ Stored l

-- The ledger that a transaction leaves.
abbrev pub stored : Ledger → EnergyState → EnergyValues → ℤ → List ResetAudit → Ledger
stored l next values now audit = record {
  energy_state = next;
  latest_energy = some values;
  row = some (
      energy_row values next (first_window values).sample_count (sample_rate (first_window values))
        now);
  reset_audit = audit;
}

pub passed :
    {A : Type 0} (f g : Failure) (fits committed : Bool) (x y : A)
    → (ensure fits f >> (ensure committed g >> ok x)) ≡ ok y
    → (fits ≡ true) × (x ≡ y) × (committed ≡ true)
passed f g true true x y e = (refl, ok-injective e, refl)
passed f g true false x y e = cc
passed f g false committed x y e = cc

pub store_inv :
    (l : Ledger) (next : EnergyState) (values : EnergyValues) (now : ℤ) (audit : List ResetAudit)
    (committed : Bool) (l' : Ledger)
    → store l next values now audit committed ≡ ok l'
    → (next.epoch < 2 ^ 63) × (stored l next values now audit ≡ l') × (committed ≡ true)
unfolding store persist_energy
store_inv l next values now audit committed l' e =
    let (fits, same, done) =
      passed integer_overflow storage (ltb next.epoch (2 ^ 63)) committed
        (stored l next values now audit) l' (sym (regroup (ltb next.epoch (2 ^ 63))) ∙ e) in
    (ltb→lt next.epoch (2 ^ 63) fits, same, done)
  where
    regroup :
        (fits : Bool)
        → ((ensure fits integer_overflow
              >> ok (
                  energy_row values next
                    (first_window values).sample_count
                    (sample_rate (first_window values))
                    now))
            >>= λ row.
                ensure committed storage
                >> ok (record {
                  energy_state = next;
                  latest_energy = some values;
                  row = some row;
                  reset_audit = audit;
                }))
          ≡ (ensure fits integer_overflow
              >> (ensure committed storage >> ok (stored l next values now audit)))
    regroup true = refl
    regroup false = refl

pub some-injective : {A : Type 0} {a b : A} → some a ≡ some b → a ≡ b
some-injective e = cc

pub stored-Stored :
    (l : Ledger) (next : EnergyState) (values : EnergyValues) (now : ℤ) (audit : List ResetAudit)
    → IsState next
    → IsEnergy values
    → Stored (stored l next values now audit)
stored-Stored l next values now audit is_state is_energy =
    let window = first_window values in
    let count = window.sample_count in
    let rate = sample_rate window in
    record {
      latest = values;
      kept = energy_row values next count rate now;
      loaded = restored values next count rate now;
      is_latest = refl;
      is_row = refl;
      is_loaded = load_row-energy_row values next count rate now is_state is_energy;
      agrees = restored-Agrees values next count rate now;
      loaded_fits = restored-IsEnergy values next count rate now is_state.session_fits is_energy;
    }

pub aligned-IsState :
    (next : EnergyState)
    → IsAligned next.session_counters next.session_counters next.lifetime_counters
    → length next.lifetime_counters ≡ 28
    → next.session_id < 2 ^ 64
    → next.epoch < 2 ^ 63
    → IsState next
aligned-IsState next aligned len fits epoch =
    let (fit, fit') =
      IsAligned-fits next.session_counters next.session_counters next.lifetime_counters aligned in
    let (same, _) =
      IsAligned-length next.session_counters next.session_counters next.lifetime_counters aligned in
    record {
      session_fits = fits;
      epoch_fits = epoch;
      session_length = same ∙ len;
      lifetime_length = len;
      session_counters_fit = fit;
      lifetime_counters_fit = fit';
    }

pub stored-IsLedger :
    (l : Ledger) (next : EnergyState) (values : EnergyValues) (now : ℤ) (audit : List ResetAudit)
    → IsAligned next.session_counters next.session_counters next.lifetime_counters
    → length next.lifetime_counters ≡ 28
    → next.session_id < 2 ^ 64
    → next.epoch < 2 ^ 63
    → IsEnergy values
    → IsLedger (stored l next values now audit)
stored-IsLedger l next values now audit aligned len fits epoch is_energy = record {
  is_aligned = aligned;
  has_length = len;
  session_fits = fits;
  latest_fits = λ v e. subst IsEnergy (some-injective e) is_energy;
  durable = inr (
      stored-Stored l next values now audit (aligned-IsState next aligned len fits epoch)
        is_energy);
}
