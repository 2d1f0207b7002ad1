-- ===== src/Datalogger/Outbox/Kept/Removal.antt =====
-- common/mnc/datalogger/outbox_repository.cpp: `erase` of other artifacts keeps the payload.
use msap1_apu.Prelude.{
  ℕ, zero, suc, ◌≡◌, refl, subst, Bool, true, false, not, ◌&&◌, ◌||◌, List, [], ◌∷◌, Option, none,
  some, Result, ok, err, ltb, ◌==◌, if◌then◌else◌, length, All, if_elim, Bool-cases, clash,
  ok-injective, inl, inr, arith,
}
use msap1_apu.Settings.Texts.{equals}
use msap1_apu.Datalogger.Outbox.{Artifact, Repository, OutboxError, Luck, has_id, live, has_name}
use msap1_apu.Datalogger.Outbox.Tables.{find_where, find_where-All}
use msap1_apu.Datalogger.Outbox.Results.{delete_artifacts}
use msap1_apu.Datalogger.Outbox.Removal.{
  Target, ArtifactDeletionResult, target_of, targets, mark_target, mark_all, mark_deleted,
  remove_payloads, deletable, delete_targets, removed_payloads, erase_targets, erase, cons,
  unsent_of,
}
use msap1_apu.Datalogger.Outbox.Kept.{
  IsRow, Kept, remove_file-IsKept, update_where-IsKept, delete_where-IsKept, other_id,
}
use msap1_apu.Datalogger.Outbox.Kept.Calls.{Called, IsElsewhere, live_id}

module _ (a : Artifact) (payload : List ℕ) (there : a.payload_present ≡ true)
    (alive : a.delete_pending ≡ false) where
  abbrev Keeps : {T : Type 0} → Called T → Type 0
  Keeps x = Kept a payload x.1

  -- The targets of a deletion are rows of other identities.
  abbrev IsTarget : Target → Type 0
  IsTarget t =
      (equals t.artifact.artifact_id a.artifact_id ≡ false)
      × (equals t.artifact.filename a.filename ≡ false)

  target_of-IsTarget :
      (r : Repository) (id : List ℕ) (confirmed : Bool) (found : Option Artifact)
      → IsElsewhere a id
      → ((b : Artifact) → found ≡ some b → IsRow a payload b × (live id b ≡ true))
      → (t : Target) → target_of r confirmed found ≡ ok t
      → IsTarget t
  unfolding target_of has_id has_name
  target_of-IsTarget r id confirmed none h row t = λ e. cc
  target_of-IsTarget r id confirmed (some b) h row t =
      if_elim (λ m. m ≡ ok t → IsTarget t) (not (unsent_of r b == 0) && not confirmed) (λ _ e. cc)
        (λ _ e.
          let (is_row, is_live) = row b refl in
          let other = other_id a payload id b h (live_id id b is_live) in
          subst IsTarget (ok-injective e) (other, is_row.1 other))

  targets-IsTarget :
      (r : Repository) (ids : List (List ℕ)) (confirmed : Bool)
      → All (IsElsewhere a) ids
      → Kept a payload r
      → (ts : List Target) → targets r ids confirmed ≡ ok ts
      → All IsTarget ts
  unfolding targets
  targets-IsTarget r [] confirmed h kept ts e = subst (All IsTarget) (ok-injective e) tt
  targets-IsTarget r (id ∷ ids) confirmed h kept ts e =
      both (target_of r confirmed (find_where (live id) r.artifacts)) (targets r ids confirmed) e
        (target_of-IsTarget r id confirmed (find_where (live id) r.artifacts) h.0
          (find_where-All (IsRow a payload) (live id) r.artifacts kept.rows))
        (targets-IsTarget r ids confirmed h.1 kept)
    where
      both :
          (m : Result OutboxError Target) (rest : Result OutboxError (List Target))
          → cons m rest ≡ ok ts
          → ((t : Target) → m ≡ ok t → IsTarget t)
          → ((ts : List Target) → rest ≡ ok ts → All IsTarget ts)
          → All IsTarget ts
      both (ok t) (ok rest) e one others =
          subst (All IsTarget) (ok-injective e) (one t refl, others rest refl)
      both (ok t) (err f) e one others = cc
      both (err f) rest e one others = cc

  mark_all-Kept :
      (now : ℕ) (ts : List Target) (n : ℕ) (r : Repository)
      → All IsTarget ts
      → Kept a payload r
      → Kept a payload (mark_all now ts n r).1
  unfolding mark_all mark_target mark_deleted
  mark_all-Kept now [] n r h kept = kept
  mark_all-Kept now (t ∷ ts) n r h kept = mark_all-Kept now ts _ (mark_target now t r) h.1 (
      update_where-IsKept a payload t.artifact.artifact_id mark_deleted r.artifacts r.files h.0.0
        (λ b. refl) (λ b. refl) kept)

  remove_payloads-Kept :
      (ts : List Target) (n : ℕ) (r : Repository)
      → All IsTarget ts
      → Kept a payload r
      → Keeps (remove_payloads ts n r)
  unfolding remove_payloads
  remove_payloads-Kept [] n r h kept = kept
  remove_payloads-Kept (t ∷ ts) zero r h kept =
      if_elim (Keeps {T = Unit}) t.artifact.payload_present (λ _. kept)
        (λ _. remove_payloads-Kept ts zero r h.1 kept)
  remove_payloads-Kept (t ∷ ts) (suc n) r h kept =
      remove_payloads-Kept ts (if t.artifact.payload_present then n else suc n) _ h.1 (
        if_elim (Kept a payload) t.artifact.payload_present
          (λ _.
            remove_file-IsKept a payload t.artifact.local_only t.artifact.filename r.artifacts
              r.files h.0.1 kept)
          (λ _. kept))

  delete_targets-Kept :
      (ts : List Target) (n : ℕ) (r : Repository)
      → All IsTarget ts
      → Kept a payload r
      → Kept a payload (delete_targets ts n r).1
  unfolding delete_targets delete_artifacts deletable
  delete_targets-Kept [] n r h kept = kept
  delete_targets-Kept (t ∷ ts) n r h kept =
      delete_targets-Kept ts _ (delete_artifacts (deletable t.artifact.artifact_id) r) h.1 (
        delete_where-IsKept a payload (deletable t.artifact.artifact_id) r.artifacts r.files
          (λ b mine same. elim (Bool-cases (has_id t.artifact.artifact_id b)) [
            | inl theirs ↦
                clash (has_id a.artifact_id b) mine
                  (other_id a payload t.artifact.artifact_id b h.0.0 theirs)
            | inr other ↦ ground arith
          ])
          kept)

  removed_payloads-Kept :
      (ts : List Target) (n : ℕ) (commits : Bool) (x : Called Unit)
      → All IsTarget ts
      → Keeps x
      → Keeps (removed_payloads ts n commits x)
  unfolding removed_payloads
  removed_payloads-Kept ts n commits (err e, r) h kept = kept
  removed_payloads-Kept ts n true (ok u, r) h kept = delete_targets-Kept ts 0 r h kept
  removed_payloads-Kept ts n false (ok u, r) h kept = kept

  erase_targets-Kept :
      (r : Repository) (now : ℕ) (luck luck' : Luck) (n : ℕ) (m : Result OutboxError (List Target))
      → ((ts : List Target) → m ≡ ok ts → All IsTarget ts)
      → Kept a payload r
      → Keeps (erase_targets r now luck luck' n m)
  unfolding erase_targets
  erase_targets-Kept r now luck luck' n (err e) h kept = kept
  erase_targets-Kept r now luck luck' n (ok ts) h kept =
      if_elim (Keeps {T = ArtifactDeletionResult}) luck.commits
        (λ _.
          removed_payloads-Kept ts _ luck'.commits (remove_payloads ts n (mark_all now ts 0 r).1)
            (h ts refl)
            (remove_payloads-Kept ts n (mark_all now ts 0 r).1 (h ts refl)
              (mark_all-Kept now ts 0 r (h ts refl) kept)))
        (λ _. kept)

  pub erase-Kept :
      (r : Repository) (ids : List (List ℕ)) (confirmed : Bool) (now : ℕ) (luck luck' : Luck)
      (n : ℕ)
      → All (IsElsewhere a) ids
      → Kept a payload r
      → Keeps (erase r ids confirmed now luck luck' n)
  unfolding erase
  erase-Kept r ids confirmed now luck luck' n h kept =
      if_elim (Keeps {T = ArtifactDeletionResult}) (length ids == 0 || ltb 500 (length ids))
        (λ _. kept)
        (λ _.
          erase_targets-Kept r now luck luck' n (targets r ids confirmed)
            (targets-IsTarget r ids confirmed h kept) kept)
