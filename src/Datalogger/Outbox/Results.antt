-- ===== src/Datalogger/Outbox/Results.antt =====
-- common/mnc/datalogger/outbox_repository.cpp: `record_result`, finalize_completed_locked,
-- prune_completed_locked and sanitize_result. Deleting an artifact deletes its deliveries, by the
-- foreign key.
use msap1_apu.Prelude.{
  ℕ, zero, suc, ◌+◌, ◌-◌, Bool, false, not, ◌&&◌, ◌||◌, List, [], ◌∷◌, Option, none, some, Result,
  ok, err, leb, ◌==◌, if◌then◌else◌, max,
}
use msap1_apu.Datalogger.Outbox.{
  DeliveryState, retry_wait, blocked, succeeded, is_final, is_succeeded, same_state, QueuedDelivery,
  Artifact, AuditRow, Repository, OutboxError, runtime_error, Luck, of_artifact, is_delivery,
  has_id, live,
}
use msap1_apu.Datalogger.Outbox.Tables.{
  update_where, delete_where, select_where, count_where, exists_where, find_where,
}
use msap1_apu.Datalogger.Outbox.Payloads.{remove_file}

-- Succeeded, Retryable and Blocked, whose names DeliveryState has as well.
pub data DeliveryDisposition : Type 0 where
  delivered retryable refused : DeliveryDisposition

pub record DeliveryResult : Type 0 where
  pub disposition : DeliveryDisposition
  pub remote_result : List ℕ
  pub sanitized_error : List ℕ

-- The loop with the room that is left of the 1024 bytes.
unfoldable pub sanitize_loop : ℕ → List ℕ → List ℕ
sanitize_loop zero value = []
sanitize_loop (suc room) [] = []
sanitize_loop (suc room) (c ∷ cs) =
    let kept = sanitize_loop room cs in
    let same_room = sanitize_loop (suc room) cs in
    if c == 13 || (c == 10 || c == 9)
    then 32 ∷ kept
    else if leb 32 c && not (c == 127)
    then c ∷ kept
    else same_room

unfoldable pub sanitize_result : List ℕ → List ℕ
unfolding sanitize_loop
sanitize_result value = sanitize_loop 1024 value

unfoldable pub next_state : DeliveryDisposition → DeliveryState
next_state delivered = succeeded
next_state retryable = retry_wait
next_state refused = blocked

unfoldable pub attempted : DeliveryResult → ℕ → ℕ → QueuedDelivery → QueuedDelivery
unfolding next_state sanitize_result same_state
attempted result attempted_at next d = record d {
  state = next_state result.disposition;
  attempt_count = d.attempt_count + 1;
  next_attempt = if same_state (next_state result.disposition) retry_wait then next else 0;
  last_attempt = attempted_at;
  remote_result = sanitize_result result.remote_result;
  last_error = sanitize_result result.sanitized_error;
}

-- The row that a result is recorded in.
unfoldable pub is_open_delivery : List ℕ → List ℕ → QueuedDelivery → Bool
unfolding is_delivery
is_open_delivery id channel d = is_delivery id channel d && not (is_final d.state)

-- All deliveries of an artifact have succeeded, and there is one.
unfoldable pub all_succeeded : List ℕ → List QueuedDelivery → Bool
unfolding of_artifact count_where
all_succeeded id rows =
    not (count_where (of_artifact id) rows == 0)
    && count_where (of_artifact id) rows
      == count_where (λ d. of_artifact id d && is_succeeded d.state) rows

unfoldable pub drop_payload : List ℕ → Artifact → Artifact
drop_payload id a = record a { payload_present = false }

-- The payload goes: the file, then the row; the directory is synced at the end.
unfoldable pub release_payload :
    Repository → List ℕ → Artifact → Luck → Result OutboxError (Unit {0}) × Repository
unfolding remove_file update_where has_id drop_payload
release_payload r id a luck =
    if not luck.removes
    then (ok tt, r)
    else (let removed = record r { files = remove_file false a.filename r.files } in
        if not luck.updates then (err runtime_error, removed) else (
          (if luck.syncs then ok tt else err runtime_error),
          record removed { artifacts = update_where (has_id id) (drop_payload id) r.artifacts },
        ))

unfoldable pub finalize_found :
    Repository → List ℕ → Luck → Option Artifact → Result OutboxError (Unit {0}) × Repository
unfolding release_payload all_succeeded
finalize_found r id luck none = (ok tt, r)
finalize_found r id luck (some a) =
    if a.local_only || (not a.payload_present || not (all_succeeded id r.deliveries))
    then (ok tt, r)
    else release_payload r id a luck

unfoldable pub finalize_completed :
    Repository → List ℕ → Luck → Result OutboxError (Unit {0}) × Repository
unfolding finalize_found find_where live
finalize_completed r id luck = finalize_found r id luck (find_where (live id) r.artifacts)

-- The latest attempt on an artifact.
unfoldable pub latest_attempt : List ℕ → List QueuedDelivery → ℕ
unfolding of_artifact
latest_attempt id [] = 0
latest_attempt id (d ∷ ds) =
    if of_artifact id d then max d.last_attempt (latest_attempt id ds) else latest_attempt id ds

-- The artifacts that are pruned: sent, without a payload, and not attempted since the cutoff.
unfoldable pub is_prunable : Repository → ℕ → Artifact → Bool
unfolding all_succeeded latest_attempt
is_prunable r cutoff a =
    (not a.local_only && (not a.payload_present && not a.delete_pending))
    && (all_succeeded a.artifact_id r.deliveries
        && (not (latest_attempt a.artifact_id r.deliveries == 0)
            && leb (latest_attempt a.artifact_id r.deliveries) cutoff))

-- DELETE FROM artifacts, with the deliveries of what is deleted.
unfoldable pub delete_artifacts : (Artifact → Bool) → Repository → Repository
unfolding delete_where exists_where select_where of_artifact
delete_artifacts test r = record r {
  artifacts = delete_where test r.artifacts;
  deliveries =
      delete_where (λ d. exists_where (λ a. test a && of_artifact a.artifact_id d) r.artifacts)
        r.deliveries;
}

abbrev pub is_old : ℕ → AuditRow → Bool
is_old cutoff row = leb row.occurred_at cutoff

unfoldable pub prune_before : Repository → ℕ → Luck → Result OutboxError (Unit {0}) × Repository
unfolding is_prunable delete_artifacts exists_where delete_where
prune_before r cutoff luck =
    if not (exists_where (is_prunable r cutoff) r.artifacts)
    then (ok tt, r)
    else if luck.commits
    then (
      ok tt,
      record (delete_artifacts (is_prunable r cutoff) r) {
        audit = delete_where (is_old cutoff) r.audit;
      },
    )
    else (err runtime_error, r)

unfoldable pub prune_completed : Repository → ℕ → Luck → Result OutboxError (Unit {0}) × Repository
unfolding prune_before
prune_completed r now luck =
    if leb now r.policy.completed_metadata_retention
    then (ok tt, r)
    else prune_before r (now - r.policy.completed_metadata_retention) luck

unfoldable pub pruned :
    ℕ
    → Luck
    → Result OutboxError (Unit {0}) × Repository
    → Result OutboxError (Unit {0}) × Repository
unfolding prune_completed
pruned now luck (err e, r) = (err e, r)
pruned now luck (ok u, r) = prune_completed r now luck

unfoldable pub recorded : QueuedDelivery → DeliveryResult → ℕ → ℕ → Repository → Repository
unfolding update_where is_open_delivery attempted
recorded delivery result attempted_at next r = record r {
  deliveries =
      update_where (is_open_delivery delivery.artifact_id delivery.channel_id)
        (attempted result attempted_at next) r.deliveries;
}

-- The luck of the update, of the finalization and of the pruning.
unfoldable pub record_result :
    Repository
    → QueuedDelivery
    → DeliveryResult
    → ℕ
    → ℕ
    → Luck
    → Luck
    → Luck
    → Result OutboxError (Unit {0}) × Repository
unfolding recorded finalize_completed pruned count_where
record_result r delivery result attempted_at next luck luck' luck'' =
    if not
        (count_where (is_open_delivery delivery.artifact_id delivery.channel_id) r.deliveries == 1)
      || not luck.commits
    then (err runtime_error, r)
    else pruned attempted_at luck'' (
        finalize_completed (recorded delivery result attempted_at next r) delivery.artifact_id
          luck')
