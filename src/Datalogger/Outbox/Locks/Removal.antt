-- ===== src/Datalogger/Outbox/Locks/Removal.antt =====
-- common/mnc/datalogger/outbox_repository.cpp: `erase` under a lock.
use msap1_apu.Prelude.{
  ℕ, zero, suc, ◌≡◌, refl, Bool, true, false, ◌||◌, List, [], ◌∷◌, Result, ok, err, ltb, ◌==◌,
  if◌then◌else◌, length, All, if_elim, arith,
}
use msap1_apu.Datalogger.Outbox.{is_final, QueuedDelivery, Repository, OutboxError, Luck}
use msap1_apu.Datalogger.Outbox.Removal.{
  Target, ArtifactDeletionResult, is_unsent, discard, mark_target, mark_all, remove_payloads,
  delete_targets, removed_payloads, erase_targets, targets, erase,
}
use msap1_apu.Datalogger.Outbox.Locks.{Locked, update_where-Locked}
use msap1_apu.Datalogger.Outbox.Locks.Calls.{Called, Holds, delete_artifacts-Locked}

module _ (id channel : List ℕ) (L : QueuedDelivery → Type 0) where
  abbrev Keeps : {T : Type 0} → Called T → Type 0
  Keeps x = Holds id channel L x.1

  -- What `erase` does.
  abbrev pub KeepsDiscard : Type 0
  KeepsDiscard = (d : QueuedDelivery) → is_final d.state ≡ false → L d → L (discard d)

  mark_all-Locked :
      (now : ℕ) (ts : List Target) (n : ℕ) (r : Repository)
      → KeepsDiscard
      → Holds id channel L r
      → Holds id channel L (mark_all now ts n r).1
  unfolding mark_all mark_target is_unsent discard
  mark_all-Locked now [] n r h all = all
  mark_all-Locked now (t ∷ ts) n r h all = mark_all-Locked now ts _ (mark_target now t r) h (
      if_elim (All (Locked id channel L)) (t.unsent == 0) (λ _. all)
        (λ _.
          update_where-Locked id channel L (is_unsent t.artifact.artifact_id) discard
            (λ d. (refl, refl)) (λ d selected mine held. h d (ground arith) held) r.deliveries all))

  remove_payloads-Locked :
      (ts : List Target) (n : ℕ) (r : Repository)
      → Holds id channel L r
      → Holds id channel L (remove_payloads ts n r).1
  unfolding remove_payloads
  remove_payloads-Locked [] n r all = all
  remove_payloads-Locked (t ∷ ts) zero r all =
      if_elim (Keeps {T = Unit}) t.artifact.payload_present (λ _. all)
        (λ _. remove_payloads-Locked ts zero r all)
  remove_payloads-Locked (t ∷ ts) (suc n) r all =
      remove_payloads-Locked ts (if t.artifact.payload_present then n else suc n) _
        (if_elim (Holds id channel L) t.artifact.payload_present (λ _. all) (λ _. all))

  delete_targets-Locked :
      (ts : List Target) (n : ℕ) (r : Repository)
      → Holds id channel L r
      → Holds id channel L (delete_targets ts n r).1
  unfolding delete_targets
  delete_targets-Locked [] n r all = all
  delete_targets-Locked (t ∷ ts) n r all =
      delete_targets-Locked ts _ _ (delete_artifacts-Locked id channel L _ r all)

  removed_payloads-Locked :
      (ts : List Target) (n : ℕ) (commits : Bool) (x : Called Unit)
      → Holds id channel L x.1
      → Holds id channel L (removed_payloads ts n commits x).1
  unfolding removed_payloads
  removed_payloads-Locked ts n commits (err e, r) all = all
  removed_payloads-Locked ts n true (ok u, r) all = delete_targets-Locked ts 0 r all
  removed_payloads-Locked ts n false (ok u, r) all = all

  erase_targets-Locked :
      (r : Repository) (now : ℕ) (luck luck' : Luck) (n : ℕ) (m : Result OutboxError (List Target))
      → KeepsDiscard
      → Holds id channel L r
      → Holds id channel L (erase_targets r now luck luck' n m).1
  unfolding erase_targets
  erase_targets-Locked r now luck luck' n (err e) h all = all
  erase_targets-Locked r now luck luck' n (ok ts) h all =
      if_elim (Keeps {T = ArtifactDeletionResult}) luck.commits
        (λ _.
          removed_payloads-Locked ts _ luck'.commits (remove_payloads ts n (mark_all now ts 0 r).1)
            (remove_payloads-Locked ts n (mark_all now ts 0 r).1
              (mark_all-Locked now ts 0 r h all)))
        (λ _. all)

  pub erase-Locked :
      (r : Repository) (ids : List (List ℕ)) (confirmed : Bool) (now : ℕ) (luck luck' : Luck)
      (n : ℕ)
      → KeepsDiscard
      → Holds id channel L r
      → Holds id channel L (erase r ids confirmed now luck luck' n).1
  unfolding erase
  erase-Locked r ids confirmed now luck luck' n h all =
      if_elim (Keeps {T = ArtifactDeletionResult}) (length ids == 0 || ltb 500 (length ids))
        (λ _. all) (λ _. erase_targets-Locked r now luck luck' n (targets r ids confirmed) h all)
