-- ===== src/Datalogger/Outbox/Kept/Additions.antt =====
-- common/mnc/datalogger/outbox_repository.cpp: `enqueue` of another artifact keeps the payload.
use msap1_apu.Prelude.{
  ℕ, ◌≡◌, refl, Bool, true, false, not, ◌&&◌, ◌||◌, List, Option, none, some, Result, ok, err,
  length, if_elim, arith,
}
use msap1_apu.Datalogger.Outbox.{Artifact, Repository, OutboxError, Luck, has_id, has_name}
use msap1_apu.Datalogger.Outbox.Tables.{exists_where, find_where, find_where-none}
use msap1_apu.Datalogger.Outbox.Payloads.{
  GeneratedDataset, GeneratedContent, enqueue_if, enqueue_checked, store_payload, insert_manifest,
  written, new_artifact, find_file, same_manifest, has_room, present,
}
use msap1_apu.Datalogger.Outbox.Kept.{
  Kept, cons-IsKept, cons_file-IsKept, free_id, free_name, free_path,
}
use msap1_apu.Datalogger.Outbox.Kept.Calls.{Called, IsElsewhere}

module _ (a : Artifact) (payload : List ℕ) (there : a.payload_present ≡ true)
    (alive : a.delete_pending ≡ false) where
  abbrev Keeps : {T : Type 0} → Called T → Type 0
  Keeps x = Kept a payload x.1

  -- What `enqueue` does, for another artifact.
  insert_manifest-Kept :
      (r : Repository) (d : GeneratedDataset) (c : GeneratedContent) (channels : List (List ℕ))
      (local commits : Bool)
      → IsElsewhere a d.artifact_id
      → Kept a payload (written r c local)
      → Keeps (insert_manifest r d c channels local commits)
  unfolding insert_manifest written new_artifact has_id has_name
  insert_manifest-Kept r d c channels local commits h kept =
      if_elim (Keeps {T = Unit}) (commits && not (exists_where (has_name c.filename) r.artifacts))
        (λ unique.
          cons-IsKept a payload (new_artifact d c local) r.artifacts _ h
            (free_name a payload c.filename r.artifacts _ kept (ground arith)) kept)
        (λ _. kept)

  store_payload-Kept :
      (r : Repository) (d : GeneratedDataset) (c : GeneratedContent) (channels : List (List ℕ))
      (local : Bool) (available : ℕ) (luck : Luck)
      → IsElsewhere a d.artifact_id
      → Kept a payload r
      → Keeps (store_payload r d c channels local available luck)
  unfolding store_payload written
  store_payload-Kept r d c channels local available luck h kept =
      let full =
        not (has_room r available (length c.body))
        || (present (find_file local c.filename r.files) || not luck.updates) in
      let wrote = λ (free : full ≡ false).
        cons_file-IsKept a payload (record { archived = local; name = c.filename; body = c.body })
          r.artifacts r.files
          (free_path a payload (record { archived = local; name = c.filename; body = c.body })
            r.artifacts r.files kept (ground arith))
          kept in
      if_elim (Keeps {T = Unit}) full (λ _. kept)
        (λ free.
          if_elim (Keeps {T = Unit}) (not luck.syncs) (λ _. wrote free)
            (λ _. insert_manifest-Kept r d c channels local luck.commits h (wrote free)))

  enqueue_checked-Kept :
      (r : Repository) (d : GeneratedDataset) (c : GeneratedContent) (channels : List (List ℕ))
      (local : Bool) (available : ℕ) (luck : Luck) (found : Option Artifact)
      → (found ≡ none → IsElsewhere a d.artifact_id)
      → Kept a payload r
      → Keeps (enqueue_checked r d c channels local available luck found)
  unfolding enqueue_checked
  enqueue_checked-Kept r d c channels local available luck none h kept =
      store_payload-Kept r d c channels local available luck (h refl) kept
  enqueue_checked-Kept r d c channels local available luck (some b) h kept =
      if_elim (Keeps {T = Unit}) (same_manifest d c b) (λ _. kept) (λ _. kept)

  pub enqueue_if-Kept :
      (digest : List ℕ → List ℕ) (checked : Result OutboxError Unit) (r : Repository)
      (d : GeneratedDataset) (c : GeneratedContent) (channels : List (List ℕ)) (local : Bool)
      (available : ℕ) (luck : Luck)
      → Kept a payload r
      → Keeps (enqueue_if digest checked r d c channels local available luck)
  unfolding enqueue_if
  enqueue_if-Kept digest (err f) r d c channels local available luck kept = kept
  enqueue_if-Kept digest (ok u) r d c channels local available luck kept =
      enqueue_checked-Kept r d c channels local available luck
        (find_where (has_id d.artifact_id) r.artifacts)
        (λ missing.
          free_id a payload d.artifact_id r.artifacts r.files kept
            (find_where-none (has_id d.artifact_id) r.artifacts missing))
        kept
