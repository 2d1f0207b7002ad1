-- ===== src/Datalogger/Outbox/Kept/Recovery.antt =====
-- common/mnc/datalogger/outbox_repository.cpp: recover_locked keeps the payload of an artifact whose
-- deliveries have not all succeeded.
use msap1_apu.Prelude.{
  ℕ, ◌≡◌, refl, sym, ap, ◌∙◌, subst, Bool, true, false, not, ◌&&◌, ◌||◌, List, [], ◌∷◌, Option,
  none, some, Result, ok, err, ◌==◌, ==_iff, length, All, if_elim, Bool-cases, clash, inl, inr,
  arith,
}
use msap1_apu.Settings.Texts.{equals, equals_refl}
use msap1_apu.Datalogger.Outbox.{
  Artifact, PayloadFile, QueuedDelivery, Repository, OutboxError, Luck, has_id, has_name, at_path,
}
use msap1_apu.Datalogger.Outbox.Tables.{
  exists_where, find_where, select_where-All, weaken_each, find_where-All, find_where_exists,
}
use msap1_apu.Datalogger.Outbox.Payloads.{find_file}
use msap1_apu.Datalogger.Outbox.Results.{all_succeeded}
use msap1_apu.Datalogger.Outbox.Recovery.{
  with_error, without_payload, block_artifact, recover_missing, recover_present, recover_manifest,
  recover_manifests, recovered_artifact, recovered_id, recover_file, recover_files,
  recover_directories, recover, is_orphan, is_kept, listed, manifests_of,
}
use msap1_apu.Datalogger.Outbox.Kept.{
  IsRow, IsSame, IsPayload, Kept, update_where-IsKept, cons-IsKept, free_id, free_name,
}
use msap1_apu.Datalogger.Outbox.Kept.Calls.{finalize_completed-Kept}

abbrev Called : Type 0
Called = Result OutboxError (Unit {0}) × Repository

module _ (digest : List ℕ → List ℕ) (a : Artifact) (payload : List ℕ)
    (there : a.payload_present ≡ true) (alive : a.delete_pending ≡ false)
    (sized : a.size_bytes ≡ length payload) (checked : a.checksum ≡ digest payload) where
  abbrev Keeps : Called → Type 0
  Keeps x = Kept a payload x.1

  abbrev IsRows : List Artifact → Type 0
  IsRows = All (IsRow a payload)

  -- The loop over the manifests: another artifact.
  recover_other :
      (r : Repository) (b : Artifact) (sent : Bool) (luck : Luck) (found : Option PayloadFile)
      → equals b.artifact_id a.artifact_id ≡ false
      → Kept a payload r
      → Keeps (recover_manifest digest r b sent luck found)
  unfolding recover_manifest recover_missing recover_present block_artifact
  recover_other r b sent luck none other kept =
      if_elim (Kept a payload) (not b.local_only && sent)
        (λ _.
          update_where-IsKept a payload b.artifact_id (without_payload _) r.artifacts r.files other
            (λ c. refl) (λ c. refl) kept)
        (λ _.
          if_elim (Kept a payload) b.payload_present
            (λ _.
              update_where-IsKept a payload b.artifact_id (without_payload _) r.artifacts r.files
                other (λ c. refl) (λ c. refl) kept)
            (λ _. kept))
  recover_other r b sent luck (some f) other kept =
      let blocked = λ (e : List ℕ).
        update_where-IsKept a payload b.artifact_id (with_error e) r.artifacts r.files other
          (λ c. refl) (λ c. refl) kept in
      if_elim Keeps (not (length f.body == b.size_bytes)) (λ _. blocked _)
        (λ _.
          if_elim Keeps (not (equals (digest f.body) b.checksum)) (λ _. blocked _)
            (λ _.
              if_elim Keeps (not b.local_only && sent)
                (λ _.
                  finalize_completed-Kept a payload there alive r b.artifact_id luck
                    (λ mine. clash (equals b.artifact_id a.artifact_id) mine other) kept)
                (λ _. kept)))

  -- The artifact itself, with its file.
  recover_same :
      (r : Repository) (b : Artifact) (luck : Luck) (f : PayloadFile)
      → IsSame a payload b
      → f.body ≡ payload
      → recover_present digest r b false luck f ≡ (ok tt, r)
  unfolding recover_present
  recover_same r b luck f same body =
      let size : (length f.body == b.size_bytes) ≡ true =
        (==_iff (length f.body) b.size_bytes).1
          (ap length body ∙ (sym sized ∙ sym (ap (λ (c : Artifact). c.size_bytes) same))) in
      let sum : equals (digest f.body) b.checksum ≡ true =
        subst (λ y. equals (digest f.body) y ≡ true)
          (ap digest body ∙ (sym checked ∙ sym (ap (λ (c : Artifact). c.checksum) same)))
          (equals_refl (digest f.body)) in
      ground arith

  recover_mine :
      (r : Repository) (b : Artifact) (first : List QueuedDelivery) (luck : Luck)
      → has_id a.artifact_id b ≡ true
      → IsSame a payload b
      → all_succeeded a.artifact_id first ≡ false
      → Kept a payload r
      → Keeps (
          recover_manifest digest r b
            (all_succeeded b.artifact_id first)
            luck
            (find_file b.local_only b.filename r.files))
  unfolding recover_manifest find_file
  recover_mine r b first luck mine same unsent kept =
      let (f, found) =
        find_where_exists (at_path a.local_only a.filename) r.files kept.file_there in
      let (holds, hit) =
        find_where-All (IsPayload a payload) (at_path a.local_only a.filename) r.files kept.bodies f
          found in
      let at_file : find_where (at_path b.local_only b.filename) r.files ≡ some f =
        ap (λ (c : Artifact). find_where (at_path c.local_only c.filename) r.files) same ∙ found in
      let sent : all_succeeded b.artifact_id first ≡ false =
        ap (λ (c : Artifact). all_succeeded c.artifact_id first) same ∙ unsent in
      let unchanged : recover_manifest digest r b (all_succeeded b.artifact_id first) luck
            (find_where (at_path b.local_only b.filename) r.files)
          ≡ (ok tt, r) =
        ap (recover_manifest digest r b (all_succeeded b.artifact_id first) luck) at_file
        ∙ (ap (λ t. recover_manifest digest r b t luck (some f)) sent
            ∙ recover_same r b luck f same (holds hit)) in
      subst Keeps (sym unchanged) kept

  recover_manifests-Kept :
      (first : List QueuedDelivery) (rest : List Artifact) (luck : Luck) (x : Called)
      → all_succeeded a.artifact_id first ≡ false
      → IsRows rest
      → Keeps x
      → Keeps (recover_manifests digest first rest luck x)
  unfolding recover_manifests
  recover_manifests-Kept first [] luck (err e, r) unsent all kept = kept
  recover_manifests-Kept first [] luck (ok u, r) unsent all kept = kept
  recover_manifests-Kept first (b ∷ rest) luck (err e, r) unsent all kept = kept
  recover_manifests-Kept first (b ∷ rest) luck (ok u, r) unsent all kept =
      recover_manifests-Kept first rest luck
        (recover_manifest digest r b (all_succeeded b.artifact_id first) luck
          (find_file b.local_only b.filename r.files))
        unsent all.1
        (elim (Bool-cases (has_id a.artifact_id b)) [
          | inl mine ↦ recover_mine r b first luck mine (all.0.0 mine) unsent kept
          | inr other ↦
              recover_other r b (all_succeeded b.artifact_id first) luck
                (find_file b.local_only b.filename r.files) (unfold has_id in other) kept
        ])

  recover_file-Kept :
      (r : Repository) (f : PayloadFile) → Kept a payload r → Keeps (recover_file digest r f)
  unfolding recover_file recovered_artifact has_id has_name
  recover_file-Kept r f kept =
      let id = recovered_id digest r.artifacts f in
      if_elim Keeps
        (exists_where (has_id id) r.artifacts || exists_where (has_name f.name) r.artifacts)
        (λ _. kept)
        (λ free.
          cons-IsKept a payload (recovered_artifact digest id f) r.artifacts r.files
            (free_id a payload id r.artifacts r.files kept (ground arith))
            (free_name a payload f.name r.artifacts r.files kept (ground arith)) kept)

  recover_files-Kept :
      (manifests : List Artifact) (fs : List PayloadFile) (x : Called)
      → Keeps x
      → Keeps (recover_files digest manifests fs x)
  unfolding recover_files
  recover_files-Kept manifests [] (err e, r) kept = kept
  recover_files-Kept manifests [] (ok u, r) kept = kept
  recover_files-Kept manifests (f ∷ fs) (err e, r) kept = kept
  recover_files-Kept manifests (f ∷ fs) (ok u, r) kept =
      recover_files-Kept manifests fs _
        (if_elim Keeps (is_orphan digest manifests f) (λ _. recover_file-Kept r f kept) (λ _. kept))

  recover_directories-Kept :
      (manifests : List Artifact) (x : Called)
      → Keeps x
      → Keeps (recover_directories digest manifests x)
  unfolding recover_directories
  recover_directories-Kept manifests (err e, r) kept = kept
  recover_directories-Kept manifests (ok u, r) kept =
      recover_files-Kept manifests (listed r.files) (ok u, r) kept

  pub recover-Kept :
      (r : Repository) (luck : Luck)
      → all_succeeded a.artifact_id r.deliveries ≡ false
      → Kept a payload r
      → Keeps (recover digest luck r)
  unfolding recover manifests_of
  recover-Kept r luck unsent kept =
      recover_directories-Kept (manifests_of r)
        (recover_manifests digest r.deliveries (manifests_of r) luck (ok tt, r))
        (recover_manifests-Kept r.deliveries (manifests_of r) luck (ok tt, r) unsent
          (weaken_each (λ b. (is_kept b ≡ true) × IsRow a payload b) (IsRow a payload) (λ b h. h.1)
            (manifests_of r) (select_where-All (IsRow a payload) is_kept r.artifacts kept.rows))
          kept)
