-- ===== src/Datalogger/Outbox/Removal.antt =====
-- common/mnc/datalogger/outbox_repository.cpp: `erase` and finish_pending_deletions_locked.
use msap1_apu.Prelude.{
  ℕ, zero, suc, ◌+◌, Bool, true, false, not, ◌&&◌, ◌||◌, List, [], ◌∷◌, Option, none, some, Result,
  ok, err, ltb, ◌==◌, if◌then◌else◌, length,
}
use msap1_apu.Datalogger.Outbox.{
  administratively_discarded, is_final, QueuedDelivery, Artifact, PayloadFile, Repository,
  OutboxError, invalid_argument, out_of_range, runtime_error, storage_failure, Luck, of_artifact,
  has_id, live,
}
use msap1_apu.Datalogger.Outbox.Names.{administrator_discarded}
use msap1_apu.Datalogger.Outbox.Tables.{update_where, count_where, find_where}
use msap1_apu.Datalogger.Outbox.Payloads.{remove_file}
use msap1_apu.Datalogger.Outbox.Results.{delete_artifacts}

pub record Target : Type 0 where
  pub artifact : Artifact
  pub unsent : ℕ

pub record ArtifactDeletionResult : Type 0 where
  pub deleted : ℕ
  pub discarded_deliveries : ℕ

-- The deliveries that are not final; a recovered payload without deliveries counts as one.
unfoldable pub is_unsent : List ℕ → QueuedDelivery → Bool
unfolding of_artifact
is_unsent id d = of_artifact id d && not (is_final d.state)

unfoldable pub unsent_of : Repository → Artifact → ℕ
unfolding is_unsent count_where
unsent_of r a =
    if not a.local_only && count_where (of_artifact a.artifact_id) r.deliveries == 0
    then 1
    else count_where (is_unsent a.artifact_id) r.deliveries

unfoldable pub target_of : Repository → Bool → Option Artifact → Result OutboxError Target
unfolding unsent_of
target_of r discard none = err out_of_range
target_of r discard (some a) =
    if not (unsent_of r a == 0) && not discard
    then err runtime_error
    else ok (record { artifact = a; unsent = unsent_of r a })

abbrev pub cons : {E T : Type 0} → Result E T → Result E (List T) → Result E (List T)
cons (err e) rest = err e
cons (ok x) (err e) = err e
cons (ok x) (ok xs) = ok (x ∷ xs)

unfoldable pub targets : Repository → List (List ℕ) → Bool → Result OutboxError (List Target)
unfolding target_of find_where live
targets r [] discard = ok []
targets r (id ∷ ids) discard =
    cons (target_of r discard (find_where (live id) r.artifacts)) (targets r ids discard)

unfoldable pub discard : QueuedDelivery → QueuedDelivery
discard d = record d {
  state = administratively_discarded;
  next_attempt = 0;
  last_error = administrator_discarded;
}

unfoldable pub mark_deleted : Artifact → Artifact
mark_deleted a = record a { delete_pending = true }

unfoldable pub mark_target : ℕ → Target → Repository → Repository
unfolding discard mark_deleted update_where is_unsent has_id
mark_target now t r = record r {
  deliveries =
      if t.unsent == 0
      then r.deliveries
      else update_where (is_unsent t.artifact.artifact_id) discard r.deliveries;
  artifacts = update_where (has_id t.artifact.artifact_id) mark_deleted r.artifacts;
  audit =
      record {
        artifact_id = t.artifact.artifact_id;
        discarded = not (t.unsent == 0);
        occurred_at = now;
        detail = t.artifact.filename;
      }
      ∷ r.audit;
}

-- The rows that the loop of the first transaction discards.
unfoldable pub discards : Target → Repository → ℕ
unfolding count_where is_unsent
discards t r =
    if t.unsent == 0 then 0 else count_where (is_unsent t.artifact.artifact_id) r.deliveries

unfoldable pub mark_all : ℕ → List Target → ℕ → Repository → ℕ × Repository
unfolding mark_target discards
mark_all now [] discarded r = (discarded, r)
mark_all now (t ∷ ts) discarded r = mark_all now ts (discarded + discards t r) (mark_target now t r)

-- The payloads, of which so many can be removed.
unfoldable pub remove_payloads :
    List Target → ℕ → Repository → Result OutboxError (Unit {0}) × Repository
unfolding remove_file
remove_payloads [] removals r = (ok tt, r)
remove_payloads (t ∷ ts) zero r =
    let rest = remove_payloads ts zero r in
    if t.artifact.payload_present then (err storage_failure, r) else rest
remove_payloads (t ∷ ts) (suc removals) r =
    remove_payloads ts (if t.artifact.payload_present then removals else suc removals) (
      if t.artifact.payload_present
      then record r { files = remove_file t.artifact.local_only t.artifact.filename r.files }
      else r)

unfoldable pub deletable : List ℕ → Artifact → Bool
unfolding has_id
deletable id a = has_id id a && a.delete_pending

unfoldable pub delete_targets : List Target → ℕ → Repository → ℕ × Repository
unfolding deletable delete_artifacts count_where
delete_targets [] deleted r = (deleted, r)
delete_targets (t ∷ ts) deleted r =
    delete_targets ts (deleted + count_where (deletable t.artifact.artifact_id) r.artifacts)
      (delete_artifacts (deletable t.artifact.artifact_id) r)

unfoldable pub removed_payloads :
    List Target
    → ℕ
    → Bool
    → Result OutboxError (Unit {0}) × Repository
    → Result OutboxError ArtifactDeletionResult × Repository
unfolding delete_targets
removed_payloads ts discarded commits (err e, r) = (err e, r)
removed_payloads ts discarded true (ok u, r) =
    let (deleted, r') = delete_targets ts 0 r in
    (ok (record { deleted = deleted; discarded_deliveries = discarded }), r')
removed_payloads ts discarded false (ok u, r) = (err runtime_error, r)

-- The luck of the two transactions.
unfoldable pub erase_targets :
    Repository
    → ℕ
    → Luck
    → Luck
    → ℕ
    → Result OutboxError (List Target)
    → Result OutboxError ArtifactDeletionResult × Repository
unfolding mark_all remove_payloads removed_payloads
erase_targets r now luck luck' removals (err e) = (err e, r)
erase_targets r now luck luck' removals (ok ts) =
    if luck.commits
    then (let (discarded, marked) = mark_all now ts 0 r in
        removed_payloads ts discarded luck'.commits (remove_payloads ts removals marked))
    else (err runtime_error, r)

unfoldable pub erase :
    Repository
    → List (List ℕ)
    → Bool
    → ℕ
    → Luck
    → Luck
    → ℕ
    → Result OutboxError ArtifactDeletionResult × Repository
unfolding targets erase_targets
erase r ids discard_unsent now luck luck' removals =
    if length ids == 0 || ltb 500 (length ids)
    then (err invalid_argument, r)
    else erase_targets r now luck luck' removals (targets r ids discard_unsent)

-- At a start: the deletions that were marked.
abbrev pub is_pending : Artifact → Bool
is_pending a = a.delete_pending

unfoldable pub remove_pending : List Artifact → List PayloadFile → List PayloadFile
unfolding remove_file
remove_pending [] files = files
remove_pending (a ∷ as') files = remove_pending as' (
    if a.delete_pending && a.payload_present
    then remove_file a.local_only a.filename files
    else files)

-- A removal that fails is ignored; at one start either all succeed or none.
unfoldable pub without_pending : Repository → Luck → Repository
unfolding remove_pending
without_pending r luck = record r {
  files = if luck.removes then remove_pending r.artifacts r.files else r.files;
}

unfoldable pub finish_pending_deletions :
    Repository → Luck → Result OutboxError (Unit {0}) × Repository
unfolding without_pending delete_artifacts
finish_pending_deletions r luck =
    if luck.commits
    then (ok tt, delete_artifacts is_pending (without_pending r luck))
    else (err runtime_error, without_pending r luck)
