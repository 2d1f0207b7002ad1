-- ===== src/Datalogger/Outbox/Locks/Starts.antt =====
-- common/mnc/datalogger/outbox_repository.cpp: a start of the process under a lock, and any sequence
-- of calls and starts.
use msap1_apu.Prelude.{
  ℕ, ◌≡◌, refl, sym, subst, Bool, true, false, not, ◌&&◌, ◌||◌, List, [], ◌∷◌, Option, none, some,
  Result, ok, err, ◌==◌, length, All, if_elim, arith,
}
use msap1_apu.Settings.Texts.{equals}
use msap1_apu.Datalogger.Outbox.{
  blocked, same_state, is_final, QueuedDelivery, Artifact, PayloadFile, Repository, OutboxError,
  Luck, is_delivery,
}
use msap1_apu.Datalogger.Outbox.Claims.{is_retried, requeue, safe_identity}
use msap1_apu.Datalogger.Outbox.Payloads.{
  enqueue, check_request, store_watermark, update_storage_policy, find_file,
}
use msap1_apu.Datalogger.Outbox.Results.{attempted, is_open_delivery, all_succeeded}
use msap1_apu.Datalogger.Outbox.Removal.{
  is_unsent, is_pending, without_pending, finish_pending_deletions,
}
use msap1_apu.Datalogger.Outbox.Recovery.{
  block, block_deliveries, block_artifact, recover_missing, recover_present, recover_manifest,
  recover_manifests, recover_file, recover_files, recover_directories, recover, recover_after,
  initialize, is_orphan, listed, manifests_of,
}
use msap1_apu.Datalogger.Outbox.Runs.{
  Event, enqueued, claimed, resulted, requeued, channel_requeued, erased, pruned_at, watermarked,
  policy_updated, started, step, run,
}
use msap1_apu.Datalogger.Outbox.Locks.{Locked, NotDue, update_where-Locked, claim_due-Locked}
use msap1_apu.Datalogger.Outbox.Locks.Removal.{KeepsDiscard, erase-Locked}
use msap1_apu.Datalogger.Outbox.Locks.Additions.{enqueue_if-Locked}
use msap1_apu.Datalogger.Outbox.Locks.Calls.{
  Holds, finalize_completed-deliveries, retry-Locked, retry_channel-Locked, prune_completed-Locked,
  record_result-Locked, delete_artifacts-Locked,
}

abbrev Called : Type 0
Called = Result OutboxError (Unit {0}) × Repository

module _ (id channel : List ℕ) (L : QueuedDelivery → Type 0) where
  abbrev Keeps : Called → Type 0
  Keeps x = Holds id channel L x.1

  abbrev pub KeepsBlock : Type 0
  KeepsBlock = (e : List ℕ) (d : QueuedDelivery) → is_final d.state ≡ false → L d → L (block e d)

  -- What a call may do to a row under the lock.
  abbrev pub Admits : Event → Type 0
  Admits (enqueued d c channels local available luck) = equals d.artifact_id id ≡ false
  Admits (claimed now until limit luck) = NotDue id channel L now
  Admits (resulted delivery result at next luck luck' luck'') =
      (d : QueuedDelivery)
      → is_open_delivery delivery.artifact_id delivery.channel_id d ≡ true
      → is_delivery id channel d ≡ true
      → L d
      → L (attempted result at next d)
  Admits (requeued ids now luck) =
      (d : QueuedDelivery) → is_retried d.state ≡ true → L d → L (requeue now d)
  Admits (channel_requeued name now luck) =
      (d : QueuedDelivery) → same_state d.state blocked ≡ true → L d → L (requeue now d)
  Admits (erased ids confirmed now luck luck' removals) = KeepsDiscard id channel L
  Admits (pruned_at now luck) = Unit
  Admits (watermarked w luck) = Unit
  Admits (policy_updated policy) = Unit
  Admits (started luck luck') = KeepsBlock

  block_deliveries-Locked :
      (one e : List ℕ) (rows : List QueuedDelivery)
      → KeepsBlock
      → All (Locked id channel L) rows
      → All (Locked id channel L) (block_deliveries one e rows)
  unfolding block_deliveries block is_unsent
  block_deliveries-Locked one e rows h all =
      update_where-Locked id channel L (is_unsent one) (block e) (λ d. (refl, refl))
        (λ d selected mine held. h e d (ground arith) held) rows all

  recover_missing-Locked :
      (r : Repository) (a : Artifact) (sent : Bool)
      → KeepsBlock
      → Holds id channel L r
      → Holds id channel L (recover_missing r a sent)
  unfolding recover_missing
  recover_missing-Locked r a sent h all =
      if_elim (Holds id channel L) (not a.local_only && sent) (λ _. all)
        (λ _.
          if_elim (Holds id channel L) a.payload_present
            (λ _. block_deliveries-Locked a.artifact_id _ r.deliveries h all) (λ _. all))

  recover_present-Locked :
      (digest : List ℕ → List ℕ) (r : Repository) (a : Artifact) (sent : Bool) (luck : Luck)
      (f : PayloadFile)
      → KeepsBlock
      → Holds id channel L r
      → Keeps (recover_present digest r a sent luck f)
  unfolding recover_present block_artifact
  recover_present-Locked digest r a sent luck f h all =
      let blocked_rows =
        λ (e : List ℕ). block_deliveries-Locked a.artifact_id e r.deliveries h all in
      if_elim Keeps (not (length f.body == a.size_bytes)) (λ _. blocked_rows _)
        (λ _.
          if_elim Keeps (not (equals (digest f.body) a.checksum)) (λ _. blocked_rows _)
            (λ _.
              if_elim Keeps (not a.local_only && sent)
                (λ _.
                  subst (All (Locked id channel L))
                    (sym (finalize_completed-deliveries r a.artifact_id luck)) all)
                (λ _. all)))

  recover_manifest-Locked :
      (digest : List ℕ → List ℕ) (r : Repository) (a : Artifact) (sent : Bool) (luck : Luck)
      (found : Option PayloadFile)
      → KeepsBlock
      → Holds id channel L r
      → Keeps (recover_manifest digest r a sent luck found)
  unfolding recover_manifest
  recover_manifest-Locked digest r a sent luck none h all = recover_missing-Locked r a sent h all
  recover_manifest-Locked digest r a sent luck (some f) h all =
      recover_present-Locked digest r a sent luck f h all

  recover_manifests-Locked :
      (digest : List ℕ → List ℕ) (first : List QueuedDelivery) (rest : List Artifact) (luck : Luck)
      (x : Called)
      → KeepsBlock
      → Keeps x
      → Keeps (recover_manifests digest first rest luck x)
  unfolding recover_manifests
  recover_manifests-Locked digest first [] luck (err e, r) h all = all
  recover_manifests-Locked digest first [] luck (ok u, r) h all = all
  recover_manifests-Locked digest first (a ∷ rest) luck (err e, r) h all = all
  recover_manifests-Locked digest first (a ∷ rest) luck (ok u, r) h all =
      recover_manifests-Locked digest first rest luck
        (recover_manifest digest r a (all_succeeded a.artifact_id first) luck
          (find_file a.local_only a.filename r.files))
        h
        (recover_manifest-Locked digest r a (all_succeeded a.artifact_id first) luck
          (find_file a.local_only a.filename r.files) h all)

  recover_file-Locked :
      (digest : List ℕ → List ℕ) (r : Repository) (f : PayloadFile)
      → Holds id channel L r
      → Keeps (recover_file digest r f)
  unfolding recover_file
  recover_file-Locked digest r f all = if_elim Keeps _ (λ _. all) (λ _. all)

  recover_files-Locked :
      (digest : List ℕ → List ℕ) (manifests : List Artifact) (fs : List PayloadFile) (x : Called)
      → Keeps x
      → Keeps (recover_files digest manifests fs x)
  unfolding recover_files
  recover_files-Locked digest manifests [] (err e, r) all = all
  recover_files-Locked digest manifests [] (ok u, r) all = all
  recover_files-Locked digest manifests (f ∷ fs) (err e, r) all = all
  recover_files-Locked digest manifests (f ∷ fs) (ok u, r) all =
      recover_files-Locked digest manifests fs _ (
        if_elim Keeps (is_orphan digest manifests f) (λ _. recover_file-Locked digest r f all)
          (λ _. all))

  recover_directories-Locked :
      (digest : List ℕ → List ℕ) (manifests : List Artifact) (x : Called)
      → Keeps x
      → Keeps (recover_directories digest manifests x)
  unfolding recover_directories
  recover_directories-Locked digest manifests (err e, r) all = all
  recover_directories-Locked digest manifests (ok u, r) all =
      recover_files-Locked digest manifests (listed r.files) (ok u, r) all

  recover_after-Locked :
      (digest : List ℕ → List ℕ) (luck : Luck) (x : Called)
      → KeepsBlock
      → Keeps x
      → Keeps (recover_after digest luck x)
  unfolding recover_after recover
  recover_after-Locked digest luck (err e, r) h all = all
  recover_after-Locked digest luck (ok u, r) h all =
      recover_directories-Locked digest (manifests_of r)
        (recover_manifests digest r.deliveries (manifests_of r) luck (ok tt, r))
        (recover_manifests-Locked digest r.deliveries (manifests_of r) luck (ok tt, r) h all)

  initialize-Locked :
      (digest : List ℕ → List ℕ) (r : Repository) (luck luck' : Luck)
      → KeepsBlock
      → Holds id channel L r
      → Keeps (initialize digest r luck luck')
  unfolding initialize finish_pending_deletions without_pending
  initialize-Locked digest r luck luck' h all =
      recover_after-Locked digest luck' (finish_pending_deletions r luck) h (
        if_elim Keeps luck.commits
          (λ _. delete_artifacts-Locked id channel L is_pending (without_pending r luck) all)
          (λ _. all))

  -- A call that is admitted keeps the lock.
  step-Holds :
      (digest : List ℕ → List ℕ) (e : Event) (r : Repository)
      → Admits e
      → Holds id channel L r
      → Holds id channel L (step digest e r)
  unfolding step enqueue store_watermark update_storage_policy
  step-Holds digest (enqueued d c channels local available luck) r h all =
      enqueue_if-Locked id channel L digest (check_request digest d c channels local) r d c channels
        local available luck h all
  step-Holds digest (claimed now until limit luck) r h all =
      claim_due-Locked id channel L r now until limit luck h all
  step-Holds digest (resulted delivery result at next luck luck' luck'') r h all =
      record_result-Locked id channel L r delivery result at next luck luck' luck'' h all
  step-Holds digest (requeued ids now luck) r h all = retry-Locked id channel L r ids now luck h all
  step-Holds digest (channel_requeued name now luck) r h all =
      retry_channel-Locked id channel L r name now luck h all
  step-Holds digest (erased ids confirmed now luck luck' removals) r h all =
      erase-Locked id channel L r ids confirmed now luck luck' removals h all
  step-Holds digest (pruned_at now luck) r h all =
      prune_completed-Locked id channel L r now luck all
  step-Holds digest (watermarked w luck) r h all =
      if_elim Keeps (not (safe_identity w.job_id) || w.job_revision == 0) (λ _. all)
        (λ _. if_elim Keeps luck.commits (λ _. all) (λ _. all))
  step-Holds digest (policy_updated policy) r h all =
      if_elim Keeps (policy.maximum_bytes == 0 || policy.completed_metadata_retention == 0)
        (λ _. all) (λ _. all)
  step-Holds digest (started luck luck') r h all = initialize-Locked digest r luck luck' h all

  pub run-Holds :
      (digest : List ℕ → List ℕ) (es : List Event) (r : Repository)
      → All Admits es
      → Holds id channel L r
      → Holds id channel L (run digest es r)
  unfolding run
  run-Holds digest [] r h all = all
  run-Holds digest (e ∷ es) r h all =
      run-Holds digest es (step digest e r) h.1 (step-Holds digest e r h.0 all)
