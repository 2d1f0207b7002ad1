-- ===== src/Datalogger/Outbox/Kept/Runs.antt =====
-- common/mnc/datalogger/outbox_repository.cpp: the content of an artifact over any sequence of calls
-- and starts.
use msap1_apu.Prelude.{
  ℕ, ◌≡◌, sym, ap, ◌∙◌, subst, Bool, true, false, not, ◌||◌, List, [], ◌∷◌, some, Result, ok, err,
  ◌>>◌, ensure, ltb, leb, ◌==◌, ==_iff, if◌then◌else◌, length, All, if_elim, Bool-cases, ◌⊎◌, inl,
  inr, arith,
}
use msap1_apu.Settings.Texts.{equals, equals_refl}
use msap1_apu.Datalogger.Outbox.{
  Artifact, PayloadFile, QueuedDelivery, Repository, OutboxError, storage_failure, has_id, live,
  at_path,
}
use msap1_apu.Datalogger.Outbox.Tables.{
  exists_where, weaken_each, find_where-All, find_where_exists, exists_where_mono,
}
use msap1_apu.Datalogger.Outbox.Claims.{
  bad_limit, claim_due, retry, retried, retry_loop, retry_channel, safe_identity,
}
use msap1_apu.Datalogger.Outbox.Payloads.{
  GeneratedContent, enqueue, check_request, find_file, content, retained_content, read_content,
  store_watermark, update_storage_policy,
}
use msap1_apu.Datalogger.Outbox.Results.{recorded, all_succeeded}
use msap1_apu.Datalogger.Outbox.Runs.{
  Event, enqueued, claimed, resulted, requeued, channel_requeued, erased, pruned_at, watermarked,
  policy_updated, started, step, run,
}
use msap1_apu.Datalogger.Outbox.Kept.{IsRow, IsSame, IsPayload, Kept}
use msap1_apu.Datalogger.Outbox.Kept.Calls.{record_result-Kept, prune_completed-Kept}
use msap1_apu.Datalogger.Outbox.Kept.Removal.{erase-Kept}
use msap1_apu.Datalogger.Outbox.Kept.Additions.{enqueue_if-Kept}
use msap1_apu.Datalogger.Outbox.Kept.Starts.{initialize-Kept}

-- A result is recorded after which all deliveries of the artifact have succeeded, or the process is
-- started when they have.
abbrev pub completes : List ℕ → Event → Repository → Bool
completes id (resulted delivery result at next luck luck' luck'') r =
    all_succeeded id (recorded delivery result at next r).deliveries
completes id (started luck luck') r = all_succeeded id r.deliveries
completes id (enqueued d c channels local available luck) r = false
completes id (claimed now until limit luck) r = false
completes id (requeued ids now luck) r = false
completes id (channel_requeued name now luck) r = false
completes id (erased ids confirmed now luck luck' removals) r = false
completes id (pruned_at now luck) r = false
completes id (watermarked w luck) r = false
completes id (policy_updated policy) r = false

abbrev pub Sometime : (List ℕ → List ℕ) → List ℕ → List Event → Repository → Type 0
Sometime digest id [] r = ⊥
Sometime digest id (e ∷ es) r = (completes id e r ≡ true) ⊎ Sometime digest id es (step digest e r)

-- No deletion names the artifact.
abbrev pub NotErased : List ℕ → Event → Type 0
NotErased id (erased ids confirmed now luck luck' removals) = All (λ i. equals i id ≡ false) ids
NotErased id (enqueued d c channels local available luck) = Unit
NotErased id (claimed now until limit luck) = Unit
NotErased id (resulted delivery result at next luck luck' luck'') = Unit
NotErased id (requeued ids now luck) = Unit
NotErased id (channel_requeued name now luck) = Unit
NotErased id (pruned_at now luck) = Unit
NotErased id (watermarked w luck) = Unit
NotErased id (policy_updated policy) = Unit
NotErased id (started luck luck') = Unit

module _ (digest : List ℕ → List ℕ) (a : Artifact) (payload : List ℕ)
    (there : a.payload_present ≡ true) (alive : a.delete_pending ≡ false)
    (sized : a.size_bytes ≡ length payload) (checked : a.checksum ≡ digest payload) where
  abbrev Keeps : {T : Type 0} → Result OutboxError T × Repository → Type 0
  Keeps x = Kept a payload x.1

  step-Kept :
      (e : Event) (r : Repository)
      → NotErased a.artifact_id e
      → completes a.artifact_id e r ≡ false
      → Kept a payload r
      → Kept a payload (step digest e r)
  unfolding step enqueue claim_due retry retried retry_channel store_watermark update_storage_policy
  step-Kept (enqueued d c channels local available luck) r h unsent kept =
      enqueue_if-Kept a payload there alive digest (check_request digest d c channels local) r d c
        channels local available luck kept
  step-Kept (claimed now until limit luck) r h unsent kept =
      if_elim (Keeps {T = List QueuedDelivery}) (bad_limit limit || leb until now) (λ _. kept)
        (λ _. if_elim (Keeps {T = List QueuedDelivery}) luck.commits (λ _. kept) (λ _. kept))
  step-Kept (resulted delivery result at next luck luck' luck'') r h unsent kept =
      record_result-Kept a payload there alive r delivery result at next luck luck' luck'' unsent
        kept
  step-Kept (requeued ids now luck) r h unsent kept =
      if_elim (Keeps {T = Unit}) (length ids == 0 || ltb 500 (length ids)) (λ _. kept)
        (λ _. after luck.commits (retry_loop r.artifacts ids now r.deliveries))
    where
      after :
          (commits : Bool) (m : Result OutboxError (List QueuedDelivery))
          → Kept a payload (retried r commits m).1
      after commits (err f) = kept
      after true (ok rows) = kept
      after false (ok rows) = kept
  step-Kept (channel_requeued name now luck) r h unsent kept =
      if_elim (Keeps {T = Unit}) (not (safe_identity name)) (λ _. kept)
        (λ _. if_elim (Keeps {T = Unit}) luck.commits (λ _. kept) (λ _. kept))
  step-Kept (erased ids confirmed now luck luck' removals) r h unsent kept =
      erase-Kept a payload there alive r ids confirmed now luck luck' removals h kept
  step-Kept (pruned_at now luck) r h unsent kept =
      prune_completed-Kept a payload there alive r now luck kept
  step-Kept (watermarked w luck) r h unsent kept =
      if_elim (Keeps {T = Unit}) (not (safe_identity w.job_id) || w.job_revision == 0) (λ _. kept)
        (λ _. if_elim (Keeps {T = Unit}) luck.commits (λ _. kept) (λ _. kept))
  step-Kept (policy_updated policy) r h unsent kept =
      if_elim (Keeps {T = Unit})
        (policy.maximum_bytes == 0 || policy.completed_metadata_retention == 0) (λ _. kept)
        (λ _. kept)
  step-Kept (started luck luck') r h unsent kept =
      initialize-Kept digest a payload there alive sized checked r luck luck' unsent kept

  pub run-Kept :
      (es : List Event) (r : Repository)
      → All (NotErased a.artifact_id) es
      → Kept a payload r
      → Sometime digest a.artifact_id es r ⊎ Kept a payload (run digest es r)
  unfolding run
  run-Kept [] r h kept = inr kept
  run-Kept (e ∷ es) r h kept = elim (Bool-cases (completes a.artifact_id e r)) [
    | inl sent ↦ inl (inl sent)
    | inr unsent ↦ later (run-Kept es (step digest e r) h.1 (step-Kept e r h.0 unsent kept))
  ]
    where
      later :
          Sometime digest a.artifact_id es (step digest e r)
            ⊎ Kept a payload (run digest es (step digest e r))
          → Sometime digest a.artifact_id (e ∷ es) r
            ⊎ Kept a payload (run digest es (step digest e r))
      later (inl s) = inl (inr s)
      later (inr k) = inr k

  -- The content that is read.
  abbrev pub kept_content : GeneratedContent
  kept_content = record {
    artifact_id = a.artifact_id;
    filename = a.filename;
    mime_type = a.mime_type;
    extension = a.content_format;
    body = payload;
    sha256 = a.checksum;
  }

  live_there :
      (artifacts : List Artifact)
      → All (IsRow a payload) artifacts
      → exists_where (has_id a.artifact_id) artifacts ≡ true
      → exists_where (live a.artifact_id) artifacts ≡ true
  unfolding live
  live_there artifacts rows e =
      exists_where_mono (has_id a.artifact_id) (live a.artifact_id) artifacts
        (weaken_each (IsRow a payload)
          (λ b. has_id a.artifact_id b ≡ true → live a.artifact_id b ≡ true)
          (λ b row mine.
            let kept : b.delete_pending ≡ false =
              ap (λ (c : Artifact). c.delete_pending) (row.0 mine) ∙ alive in
            ground arith)
          artifacts rows)
        e

  read_content-Kept :
      (f : PayloadFile) → f.body ≡ payload → read_content digest a (some f) ≡ ok kept_content
  unfolding read_content
  read_content-Kept f body =
      let size : (length f.body == a.size_bytes) ≡ true =
        (==_iff (length f.body) a.size_bytes).1 (ap length body ∙ sym sized) in
      let sum : equals (digest f.body) a.checksum ≡ true =
        subst (λ y. equals (digest f.body) y ≡ true) (ap digest body ∙ sym checked)
          (equals_refl (digest f.body)) in
      ap (λ t. ensure t storage_failure >> read_checked f) size
      ∙ (ap (λ t. ensure t storage_failure >> ok (record kept_content { body = f.body })) sum
          ∙ ap (λ p. ok (record kept_content { body = p })) body)
    where
      read_checked : PayloadFile → Result OutboxError GeneratedContent
      read_checked f =
          ensure (equals (digest f.body) a.checksum) storage_failure
          >> ok (record kept_content { body = f.body })

  pub content-Kept :
      (r : Repository) → Kept a payload r → content digest r a.artifact_id ≡ ok kept_content
  unfolding content retained_content find_file live
  content-Kept r kept =
      let (b, found) =
        find_where_exists (live a.artifact_id) r.artifacts
          (live_there r.artifacts kept.rows kept.row_there) in
      let (row, is_live) =
        find_where-All (IsRow a payload) (live a.artifact_id) r.artifacts kept.rows b found in
      let same : IsSame a payload b = row.0 (ground arith) in
      let (f, at_file) =
        find_where_exists (at_path a.local_only a.filename) r.files kept.file_there in
      let (holds, hit) =
        find_where-All (IsPayload a payload) (at_path a.local_only a.filename) r.files kept.bodies f
          at_file in
      ap (retained_content digest r) found
      ∙ (ap (λ c. retained_content digest r (some c)) same
          ∙ (ap
                (λ t.
                  if not t
                  then err storage_failure
                  else read_content digest (record a { recovery_error = b.recovery_error })
                      (find_file a.local_only a.filename r.files))
                there
              ∙ (ap (read_content digest a) at_file ∙ read_content-Kept f (holds hit))))
