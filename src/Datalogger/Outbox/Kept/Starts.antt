-- ===== src/Datalogger/Outbox/Kept/Starts.antt =====
-- common/mnc/datalogger/outbox_repository.cpp: a start of the process keeps the payload of an artifact.
use msap1_apu.Prelude.{
  ℕ, ◌≡◌, refl, sym, ap, ◌∙◌, subst, Bool, true, false, ◌&&◌, List, [], ◌∷◌, Result, length, All,
  if_elim, Bool-cases, clash, inl, inr, arith,
}
use msap1_apu.Settings.Texts.{equals, equals_sound}
use msap1_apu.Datalogger.Outbox.{
  Artifact, PayloadFile, QueuedDelivery, Repository, OutboxError, Luck, of_artifact, is_succeeded,
  has_id, has_name,
}
use msap1_apu.Datalogger.Outbox.Tables.{count_where, delete_where, every_row, exists_where}
use msap1_apu.Datalogger.Outbox.Results.{all_succeeded, delete_artifacts}
use msap1_apu.Datalogger.Outbox.Removal.{
  is_pending, remove_pending, without_pending, finish_pending_deletions,
}
use msap1_apu.Datalogger.Outbox.Recovery.{recover_after, initialize}
use msap1_apu.Datalogger.Outbox.Kept.{IsRow, IsKept, Kept, remove_file-IsKept, delete_where-IsKept}
use msap1_apu.Datalogger.Outbox.Kept.Recovery.{recover-Kept}

abbrev Called : Type 0
Called = Result OutboxError (Unit {0}) × Repository

equals_comm : (x y : List ℕ) → equals x y ≡ equals y x
unfolding equals
equals_comm [] [] = refl
equals_comm [] (c ∷ cs) = refl
equals_comm (b ∷ bs) [] = refl
equals_comm (b ∷ bs) (c ∷ cs) = ground (arith, equals_comm bs cs)

count_where-delete_where :
    {T : Type 0} (test other : T → Bool) (xs : List T)
    → All (λ x. test x ≡ true → other x ≡ false) xs
    → count_where test (delete_where other xs) ≡ count_where test xs
unfolding count_where delete_where
count_where-delete_where test other [] all = refl
count_where-delete_where test other (x ∷ xs) all =
    ground (arith, all.0, count_where-delete_where test other xs all.1)

module _ (digest : List ℕ → List ℕ) (a : Artifact) (payload : List ℕ)
    (there : a.payload_present ≡ true) (alive : a.delete_pending ≡ false)
    (sized : a.size_bytes ≡ length payload) (checked : a.checksum ≡ digest payload) where
  abbrev Keeps : Called → Type 0
  Keeps x = Kept a payload x.1

  abbrev IsRows : List Artifact → Type 0
  IsRows = All (IsRow a payload)

  -- A row that is to be deleted is another one.
  pending_other :
      (b : Artifact) → IsRow a payload b → b.delete_pending ≡ true → has_name a.filename b ≡ false
  pending_other b row p = elim (Bool-cases (has_id a.artifact_id b)) [
    | inl mine ↦
        clash b.delete_pending p (ap (λ (c : Artifact). c.delete_pending) (row.0 mine) ∙ alive)
    | inr other ↦ row.1 other
  ]

  remove_pending-IsKept :
      (rows artifacts : List Artifact) (files : List PayloadFile)
      → IsRows rows
      → IsKept a payload artifacts files
      → IsKept a payload artifacts (remove_pending rows files)
  unfolding remove_pending has_name
  remove_pending-IsKept [] artifacts files all kept = kept
  remove_pending-IsKept (b ∷ rows) artifacts files all kept =
      remove_pending-IsKept rows artifacts _ all.1 (
        if_elim (IsKept a payload artifacts) (b.delete_pending && b.payload_present)
          (λ pending.
            remove_file-IsKept a payload b.local_only b.filename artifacts files
              (pending_other b all.0 (ground arith)) kept)
          (λ _. kept))

  without_pending-Kept :
      (r : Repository) (luck : Luck) → Kept a payload r → Kept a payload (without_pending r luck)
  unfolding without_pending
  without_pending-Kept r luck kept =
      if_elim (IsKept a payload r.artifacts) luck.removes
        (λ _. remove_pending-IsKept r.artifacts r.artifacts r.files kept.rows kept) (λ _. kept)

  finish_pending_deletions-Kept :
      (r : Repository) (luck : Luck) → Kept a payload r → Keeps (finish_pending_deletions r luck)
  unfolding finish_pending_deletions delete_artifacts without_pending
  finish_pending_deletions-Kept r luck kept =
      let removed = without_pending-Kept r luck kept in
      if_elim Keeps luck.commits
        (λ _.
          delete_where-IsKept a payload is_pending r.artifacts _
            (λ b mine same. ap (λ (c : Artifact). c.delete_pending) same ∙ alive) removed)
        (λ _. removed)

  -- The deliveries of the artifact are not deleted with the rows that were marked.
  not_pending :
      (d : QueuedDelivery) (artifacts : List Artifact)
      → IsRows artifacts
      → of_artifact a.artifact_id d ≡ true
      → exists_where (λ b. is_pending b && of_artifact b.artifact_id d) artifacts ≡ false
  unfolding exists_where of_artifact has_id
  not_pending d [] all mine = refl
  not_pending d (b ∷ artifacts) all mine = elim (Bool-cases (has_id a.artifact_id b)) [
    | inl same ↦
        (let kept : b.delete_pending ≡ false =
            ap (λ (c : Artifact). c.delete_pending) (all.0.0 same) ∙ alive in
          rw kept (not_pending d artifacts all.1 mine))
    | inr other ↦
        (let apart : equals d.artifact_id b.artifact_id ≡ false =
            subst (λ n. equals n b.artifact_id ≡ false)
              (sym (equals_sound d.artifact_id a.artifact_id mine))
              (ground (arith, equals_comm a.artifact_id b.artifact_id)) in
          ground (arith, not_pending d artifacts all.1 mine))
  ]

  all_succeeded_unchanged :
      (r : Repository)
      → Kept a payload r
      → all_succeeded a.artifact_id (delete_artifacts is_pending r).deliveries
        ≡ all_succeeded a.artifact_id r.deliveries
  unfolding all_succeeded delete_artifacts
  all_succeeded_unchanged r kept =
      let deleted = λ (d : QueuedDelivery).
        exists_where (λ b. is_pending b && of_artifact b.artifact_id d) r.artifacts in
      let one = count_where-delete_where (of_artifact a.artifact_id) deleted r.deliveries (
        every_row (λ d. of_artifact a.artifact_id d ≡ true → deleted d ≡ false)
          (λ d mine. not_pending d r.artifacts kept.rows mine) r.deliveries) in
      let other =
        count_where-delete_where (λ d. of_artifact a.artifact_id d && is_succeeded d.state) deleted
          r.deliveries
          (every_row
            (λ d. (of_artifact a.artifact_id d && is_succeeded d.state) ≡ true → deleted d ≡ false)
            (λ d both. not_pending d r.artifacts kept.rows (ground arith)) r.deliveries) in
      rw (one, other) refl

  pub initialize-Kept :
      (r : Repository) (luck luck' : Luck)
      → all_succeeded a.artifact_id r.deliveries ≡ false
      → Kept a payload r
      → Keeps (initialize digest r luck luck')
  unfolding initialize finish_pending_deletions recover_after
  initialize-Kept r luck luck' unsent kept =
      let removed = without_pending-Kept r luck kept in
      if_elim (λ x. Keeps x → Keeps (recover_after digest luck' x)) luck.commits
        (λ _ finished.
          recover-Kept digest a payload there alive sized checked
            (delete_artifacts is_pending (without_pending r luck)) luck'
            (all_succeeded_unchanged (without_pending r luck) removed
              ∙ unfold without_pending in unsent)
            finished)
        (λ _ finished. finished) (finish_pending_deletions-Kept r luck kept)
