-- ===== src/Energy/Ledger.antt =====
-- common/msap1/meter/energy_ledger.cpp: the durable lifetime counters of EnergyLedger. The state
-- holds the members of Impl that are about energy, and the SQLite rows behind them. A transaction
-- either commits all of its statements or none; which of the two is an argument of the operations.
-- The demand half of the ledger is not modelled.
pub mod Runs
use msap1_apu.Prelude.{
  ℕ, zero, suc, ◌+◌, ◌-◌, ◌*◌, ◌/◌, ◌%◌, ◌^◌, max, bit_and, bit_or, Bool, true, false, not, ◌&&◌,
  ◌||◌, List, [], ◌∷◌, Option, none, some, Result, ok, err, ◌>>=◌, ◌>>◌, ensure, ltb, leb, ◌==◌,
  if◌then◌else◌, length, replicate, get_or, get_elem?,
}
use msap1_apu.Prelude.Integers.{ℤ, pos, negsuc, ◌+ℤ◌, ◌-ℤ◌, ltb_ℤ, div_trunc}
use msap1_apu.Settings.Texts.{equals}
use msap1_apu.Energy.Values.{
  EnergyValues, Reading, SampleWindow, no_energy, energy_counter_count, flatten_energy_counters,
  assign_energy_counters, energy_qualities, for_each_energy_reading, same_integer, same_list,
  same_window,
}
use msap1_apu.Energy.Columns.{
  Failure, negative_counter, stale_sequence, different_content, counter_rollback, negative_delta,
  epoch_conflict, incomplete_request, no_checkpoint, blob_size, integer_overflow, storage,
  encode_array, decode_array, hex64, parse_hex64,
}
use msap1_apu.Energy.Sums.{add_growth, add_session, all_positive}
use msap1_apu.Energy.Rows.{EnergyState, EnergyRow, no_state, sample_rate, persist_energy, load_row}

-- A row of the table `energy_reset_audit`.
pub record ResetAudit : Type 0 where
  pub idempotency_key : List ℕ
  pub request_id : List ℕ
  pub actor : List ℕ
  pub requested_ns : ℤ
  pub previous_epoch : ℕ
  pub resulting_epoch : ℕ

pub record Ledger : Type 0 where
  pub energy_state : EnergyState
  pub latest_energy : Option EnergyValues
  pub row : Option EnergyRow
  pub reset_audit : List ResetAudit

abbrev pub new_ledger : Ledger
new_ledger = record { energy_state = no_state; latest_energy = none; row = none; reset_audit = [] }

abbrev same_bool : Bool → Bool → Bool
same_bool true b = b
same_bool false b = not b

-- The window of the first reading stands for all.
unfoldable pub first_window : EnergyValues → SampleWindow
first_window v = v.active_import.phase_a.calculation_window

-- A checkpoint with the sequence number of the latest one has to be that one.
unfoldable pub same_checkpoint : EnergyState → EnergyValues → EnergyValues → ℕ → Bool
unfolding first_window
same_checkpoint state latest session generation =
    same_list same_integer (flatten_energy_counters session) state.session_counters
    && (generation == state.generation
        && (session.last_sample_index == latest.last_sample_index
            && (session.accepted_samples == latest.accepted_samples
                && (session.skipped_samples == latest.skipped_samples
                    && (session.accepted_blocks == latest.accepted_blocks
                        && (session.skipped_blocks == latest.skipped_blocks
                            && (same_bool session.incomplete_input latest.incomplete_input
                                && (same_bool session.discontinuity latest.discontinuity
                                    && (not (session.saturated && not latest.saturated)
                                        && (same_list ◌==◌ (energy_qualities session)
                                              (energy_qualities latest)
                                            && same_window (first_window session)
                                                (first_window latest)))))))))))

-- The transaction: the row is replaced, then the members are.
unfoldable pub store :
    Ledger → EnergyState → EnergyValues → ℤ → List ResetAudit → Bool → Result Failure Ledger
unfolding first_window
store l next values now audit committed = do
  let window = first_window values
  row ← persist_energy values next window.sample_count (sample_rate window) now
  ensure committed storage
  ok (record {
    energy_state = next;
    latest_energy = some values;
    row = some row;
    reset_audit = audit;
  })

load : List ResetAudit → Option EnergyRow → Result Failure Ledger
load audit none = ok (record new_ledger { reset_audit = audit })
load audit (some row) = do
  (state, values) ← load_row row
  ok (record {
    energy_state = state;
    latest_energy = some values;
    row = some row;
    reset_audit = audit;
  })

-- A new EnergyLedger on the database of this one.
unfoldable pub reopen : Ledger → Result Failure Ledger
unfolding load
reopen l = load l.reset_audit l.row

module _ (session : EnergyValues) (source_sequence configuration_generation : ℕ) (now : ℤ) where
  -- The rest of `ingest_energy`, once the new lifetime counters are known.
  commit_growth : Bool → Ledger → List ℤ × Bool → Result Failure (EnergyValues × Ledger)
  unfolding store
  commit_growth committed l (lifetime, saturated) = do
    let state = l.energy_state
    let result = record (assign_energy_counters session lifetime) {
      reset_epoch = state.epoch;
      saturated = saturated;
    }
    l' ←
        store l
          (record state {
            session_id = session.session_id;
            source_sequence = source_sequence;
            generation = configuration_generation;
            session_counters = flatten_energy_counters session;
            lifetime_counters = lifetime;
          })
          result now l.reset_audit committed
    ok (result, l')

  new_session : Bool → Ledger → Result Failure (EnergyValues × Ledger)
  unfolding commit_growth add_session
  new_session committed l = do
    growth ←
        add_session (flatten_energy_counters session) l.energy_state.lifetime_counters
          session.saturated
    commit_growth committed l growth

  same_session : Bool → Ledger → EnergyValues → Result Failure (EnergyValues × Ledger)
  unfolding commit_growth add_growth same_checkpoint
  same_session committed l latest =
      let state = l.energy_state in
      if ltb source_sequence state.source_sequence
      then err stale_sequence
      else if source_sequence == state.source_sequence
      then (do
        ensure (same_checkpoint state latest session configuration_generation) different_content
        ok (latest, l))
      else (do
        growth ←
            add_growth (flatten_energy_counters session) state.session_counters
              state.lifetime_counters session.saturated
        commit_growth committed l growth)

  count_checkpoint : Bool → Ledger → Option EnergyValues → Result Failure (EnergyValues × Ledger)
  unfolding new_session same_session
  count_checkpoint committed l none = new_session committed l
  count_checkpoint committed l (some latest) =
      if session.session_id == l.energy_state.session_id
      then same_session committed l latest
      else new_session committed l

  -- Where it throws, the ledger stays as it was.
  unfoldable pub ingest_energy : Bool → Ledger → Result Failure (EnergyValues × Ledger)
  unfolding count_checkpoint all_positive
  ingest_energy committed l = do
    ensure (all_positive (flatten_energy_counters session)) negative_counter
    count_checkpoint committed l l.latest_energy

pub record ResetRequest : Type 0 where
  pub expected_epoch : ℕ
  pub idempotency_key : List ℕ
  pub actor : List ℕ
  pub request_id : List ℕ
  pub requested_at : ℤ

pub record ResetResult : Type 0 where
  pub epoch : ℕ
  pub replayed : Bool

unfoldable pub validate_reset : ResetRequest → Result Failure (Unit {0})
validate_reset request =
    ensure
      (not
        (is_empty request.idempotency_key || is_empty request.actor || is_empty request.request_id))
      incomplete_request
  where
    is_empty : List ℕ → Bool
    is_empty [] = true
    is_empty (c ∷ text) = false

-- "SELECT resulting_epoch FROM energy_reset_audit WHERE idempotency_key=?"
unfoldable pub find_reset : List ℕ → List ResetAudit → Option ℕ
find_reset key [] = none
find_reset key (audit ∷ audits) =
    if equals audit.idempotency_key key then some audit.resulting_epoch else find_reset key audits

unfoldable pub audited : ResetRequest → ℕ → ℕ → ResetAudit
audited request previous epoch = record {
  idempotency_key = request.idempotency_key;
  request_id = request.request_id;
  actor = request.actor;
  requested_ns = request.requested_at;
  previous_epoch = previous;
  resulting_epoch = epoch;
}

-- The new epoch, and lifetime counters of 0.
commit_reset : Bool → Ledger → ResetRequest → EnergyValues → Result Failure (ResetResult × Ledger)
unfolding store audited
commit_reset committed l request latest = do
  let state = l.energy_state
  let epoch = (state.epoch + 1) % 2 ^ 64
  let lifetime = replicate energy_counter_count (pos 0)
  l' ←
      store l (record state { epoch = epoch; lifetime_counters = lifetime })
        (record (assign_energy_counters latest lifetime) { reset_epoch = epoch })
        request.requested_at (audited request state.epoch epoch ∷ l.reset_audit) committed
  ok (record { epoch = epoch; replayed = false }, l')

new_reset :
    Bool → Ledger → ResetRequest → Option EnergyValues → Result Failure (ResetResult × Ledger)
unfolding commit_reset
new_reset committed l request none = err no_checkpoint
new_reset committed l request (some latest) = do
  ensure (request.expected_epoch == l.energy_state.epoch) epoch_conflict
  commit_reset committed l request latest

replay_or_reset : Bool → Ledger → ResetRequest → Option ℕ → Result Failure (ResetResult × Ledger)
unfolding new_reset
replay_or_reset committed l request (some epoch) = ok (record { epoch = epoch; replayed = true }, l)
replay_or_reset committed l request none = new_reset committed l request l.latest_energy

unfoldable pub reset_energy : Bool → Ledger → ResetRequest → Result Failure (ResetResult × Ledger)
unfolding validate_reset replay_or_reset find_reset
reset_energy committed l request = do
  validate_reset request
  replay_or_reset committed l request (find_reset request.idempotency_key l.reset_audit)
