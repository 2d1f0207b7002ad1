-- ===== src/Datalogger/Outbox/Kept/Again.antt =====
-- common/mnc/datalogger/outbox_repository.cpp: an artifact that is enqueued once more.
use msap1_apu.Prelude.{
  ℕ, ◌≡◌, refl, sym, subst, length, arith, inl, inr, if_elim, clash, ap, ◌∙◌, Bool, true, List,
  none, some, Result, ok, err, if◌then◌else◌, All, ◌⊎◌,
}
use msap1_apu.Settings.Texts.{equals, equals_refl, equals_sound}
use msap1_apu.Datalogger.Outbox.{Artifact, Repository, OutboxError, storage_failure, Luck, has_id}
use msap1_apu.Datalogger.Outbox.Tables.{find_where, find_where-All, find_where_exists}
use msap1_apu.Datalogger.Outbox.Payloads.{
  GeneratedDataset, GeneratedContent, enqueue, enqueue_if, enqueue_checked, check_request,
  same_manifest, new_artifact,
}
use msap1_apu.Datalogger.Outbox.Runs.{Event, run}
use msap1_apu.Datalogger.Outbox.Kept.{IsRow, Kept}
use msap1_apu.Datalogger.Outbox.Kept.Runs.{Sometime, NotErased, run-Kept}
use msap1_apu.Datalogger.Outbox.Kept.Enqueued.{
  enqueue_if-Kept, enqueue_if_checked, check_request-valid_content, map_right,
}

-- The manifests agree in the filename, the checksum, the size, the window and the revision.
pub record SameManifest (d d' : GeneratedDataset) (c c' : GeneratedContent) : Type 0 where
  pub same_filename : c'.filename ≡ c.filename
  pub same_checksum : c'.sha256 ≡ c.sha256
  pub same_size : length c'.body ≡ length c.body
  pub same_start : d'.window_start ≡ d.window_start
  pub same_end : d'.window_end ≡ d.window_end
  pub same_revision : d'.job_revision ≡ d.job_revision

same_manifest_sound :
    (d d' : GeneratedDataset) (c c' : GeneratedContent) (local : Bool)
    → same_manifest d' c' (new_artifact d c local) ≡ true
    → SameManifest d d' c c'
unfolding same_manifest new_artifact
same_manifest_sound d d' c c' local e = record {
  same_filename = sym (equals_sound c.filename c'.filename (ground arith));
  same_checksum = sym (equals_sound c.sha256 c'.sha256 (ground arith));
  same_size = ground arith;
  same_start = ground arith;
  same_end = ground arith;
  same_revision = ground arith;
}

same_manifest_complete :
    (d d' : GeneratedDataset) (c c' : GeneratedContent) (local : Bool)
    → SameManifest d d' c c'
    → same_manifest d' c' (new_artifact d c local) ≡ true
unfolding same_manifest new_artifact
same_manifest_complete d d' c c' local same =
    let name =
      subst (λ n. equals c.filename n ≡ true) (sym same.same_filename) (equals_refl c.filename) in
    let sum =
      subst (λ n. equals c.sha256 n ≡ true) (sym same.same_checksum) (equals_refl c.sha256) in
    ground (arith, name, sum, same.same_size, same.same_start, same.same_end, same.same_revision)

-- What a second call answers: the repository stays as it is.
abbrev pub Answers :
    GeneratedDataset
    → GeneratedDataset
    → GeneratedContent
    → GeneratedContent
    → Repository
    → Result OutboxError (Unit {0}) × Repository
    → Type 0
Answers d d' c c' r call =
    (SameManifest d d' c c' × (call ≡ (ok tt, r)))
    ⊎ (¬ SameManifest d d' c c' × (call ≡ (err storage_failure, r)))

same_manifest-Answers :
    (d d' : GeneratedDataset) (c c' : GeneratedContent) (local : Bool) (r : Repository)
    → Answers d d' c c' r (
        if same_manifest d' c' (new_artifact d c local)
        then (ok tt, r)
        else (err storage_failure, r))
same_manifest-Answers d d' c c' local r =
    if_elim (Answers d d' c c' r) (same_manifest d' c' (new_artifact d c local))
      (λ same. inl (same_manifest_sound d d' c c' local same, refl))
      (λ other. inr (
        (λ same.
            clash (same_manifest d' c' (new_artifact d c local))
              (same_manifest_complete d d' c c' local same) other),
        refl,
      ))

module _ (digest : List ℕ → List ℕ) (a : Artifact) (payload : List ℕ) where
  -- The row of the artifact decides.
  enqueue-Kept :
      (r : Repository) (d : GeneratedDataset) (c : GeneratedContent) (channels : List (List ℕ))
      (local : Bool) (available : ℕ) (luck : Luck)
      → d.artifact_id ≡ a.artifact_id
      → check_request digest d c channels local ≡ ok tt
      → Kept a payload r
      → enqueue digest r d c channels local available luck
        ≡ (if same_manifest d c a then (ok tt, r) else (err storage_failure, r))
  unfolding enqueue enqueue_if enqueue_checked same_manifest
  enqueue-Kept r d c channels local available luck id valid kept =
      let (b, found) = find_where_exists (has_id a.artifact_id) r.artifacts kept.row_there in
      let (row, mine) =
        find_where-All (IsRow a payload) (has_id a.artifact_id) r.artifacts kept.rows b found in
      ap (λ m. enqueue_if digest m r d c channels local available luck) valid
      ∙ (ap
            (λ i.
              enqueue_checked r d c channels local available luck
                (find_where (has_id i) r.artifacts))
            id
          ∙ (ap (enqueue_checked r d c channels local available luck) found
              ∙ ap (λ x. enqueue_checked r d c channels local available luck (some x))
                  (row.0 mine)))

-- An artifact that was enqueued and is enqueued once more, after any calls and starts in which no
-- deletion names it, and at no result and no start of which all of its deliveries have succeeded: a
-- valid call changes nothing. It succeeds where the filename, the checksum, the size, the start and
-- the end of the window, and the revision are all the same as before; where one of them differs, it
-- fails with a storage failure.
pub enqueue_again :
    (digest : List ℕ → List ℕ) (r : Repository) (d : GeneratedDataset) (c : GeneratedContent)
    (channels : List (List ℕ)) (local : Bool) (available : ℕ) (luck : Luck) (es : List Event)
    (d' : GeneratedDataset) (c' : GeneratedContent) (channels' : List (List ℕ)) (local' : Bool)
    (available' : ℕ) (luck' : Luck)
    → find_where (has_id d.artifact_id) r.artifacts ≡ none
    → (enqueue digest r d c channels local available luck).0 ≡ ok tt
    → All (NotErased d.artifact_id) es
    → d'.artifact_id ≡ d.artifact_id
    → check_request digest d' c' channels' local' ≡ ok tt
    → let r' = (enqueue digest r d c channels local available luck).1 in
      Sometime digest d.artifact_id es r'
      ⊎ Answers d d' c c'
          (run digest es r')
          (enqueue digest (run digest es r') d' c' channels' local' available' luck')
unfolding enqueue new_artifact
enqueue_again digest r d c channels local available luck es d' c' channels' local' available' luck'
      no_row e spared id valid =
    let checked =
      enqueue_if_checked digest d c local (check_request digest d c channels local) r channels
        available luck e in
    let (same, sum) = check_request-valid_content digest d c local channels checked in
    let kept =
      enqueue_if-Kept digest d c local (check_request digest d c channels local) r channels
        available luck no_row e in
    let a = new_artifact d c local in
    let r' =
      (enqueue_if digest (check_request digest d c channels local) r d c channels local available
        luck).1 in
    map_right
      (λ (k : Kept a c.body (run digest es r')).
        subst (Answers d d' c c' (run digest es r'))
          (sym (
            enqueue-Kept digest a c.body (run digest es r') d' c' channels' local' available' luck'
              id valid k))
          (same_manifest-Answers d d' c c' local (run digest es r')))
      (run-Kept digest a c.body refl refl refl sum es r' spared kept)
