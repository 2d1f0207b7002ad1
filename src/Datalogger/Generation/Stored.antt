-- ===== src/Datalogger/Generation/Stored.antt =====
-- common/mnc/datalogger/scheduler.cpp over outbox_repository.cpp: the outbox of the generation is the
-- repository. What the disk does to a call comes with the dataset and the watermark.
use msap1_apu.Prelude.{
  ℕ, ◌≡◌, refl, ap, ◌∙◌, Bool, not, ◌&&◌, ◌||◌, List, Option, none, some, Result, ok, err, ◌==◌,
  length, if_elim,
}
use msap1_apu.Settings.Texts.{equals_refl}
use msap1_apu.Datalogger.Outbox.{
  Artifact, WatermarkRow, Repository, OutboxError, invalid_argument, out_of_range, runtime_error,
  storage_failure as no_storage, invalid_configuration, Luck, has_id, has_name,
}
use msap1_apu.Datalogger.Outbox.Tables.{find_where, exists_where}
use msap1_apu.Datalogger.Outbox.Claims.{safe_identity}
use msap1_apu.Datalogger.Outbox.Payloads.{
  GeneratedDataset, GeneratedContent, check_request, enqueue, enqueue_if, enqueue_checked,
  same_manifest, store_payload, insert_manifest, written, has_room, find_file, present, for_job,
  watermark, store_watermark,
}
use msap1_apu.Datalogger.Generation.{
  Failure, storage_failure, other_datalog_error, other_exception, JobWatermark, Outbox,
}

-- A DatalogError keeps its code.
unfoldable pub failure_of : OutboxError → Failure
failure_of no_storage = storage_failure
failure_of invalid_configuration = other_datalog_error
failure_of invalid_argument = other_exception
failure_of out_of_range = other_exception
failure_of runtime_error = other_exception

abbrev pub Called : Type 0
Called = Result OutboxError (Unit {0}) × Repository

unfoldable pub called : Called → Result Failure (Unit {0}) × Repository
unfolding failure_of
called (ok u, r) = (ok u, r)
called (err e, r) = (err (failure_of e), r)

pub called-state : (x : Called) → (called x).1 ≡ x.1
unfolding called
called-state (ok u, r) = refl
called-state (err e, r) = refl

-- What the datalogger and the writer have made of a window.
pub record Generated : Type 0 where
  pub dataset : GeneratedDataset
  pub content : GeneratedContent
  pub available : ℕ
  pub luck : Luck

unfoldable pub as_watermark : Option WatermarkRow → Option JobWatermark
as_watermark none = none
as_watermark (some w) = some (record {
  job_id = w.job_id;
  job_revision = w.job_revision;
  completed_through = w.completed_through;
})

abbrev pub row_of : ℕ → JobWatermark → WatermarkRow
row_of now w = record {
  job_id = w.job_id;
  job_revision = w.job_revision;
  completed_through = w.completed_through;
  updated_at = now;
}

abbrev SameWatermarks : Repository → Called → Type 0
SameWatermarks r x = x.1.watermarks ≡ r.watermarks

module _ (digest : List ℕ → List ℕ) where
  store_payload-watermarks :
      (r : Repository) (d : GeneratedDataset) (c : GeneratedContent) (channels : List (List ℕ))
      (local : Bool) (available : ℕ) (luck : Luck)
      → SameWatermarks r (store_payload r d c channels local available luck)
  unfolding store_payload insert_manifest written
  store_payload-watermarks r d c channels local available luck =
      let full =
        not (has_room r available (length c.body))
        || (present (find_file local c.filename r.files) || not luck.updates) in
      if_elim (SameWatermarks r) full (λ _. refl)
        (λ _.
          if_elim (SameWatermarks r) (not luck.syncs) (λ _. refl)
            (λ _.
              if_elim (SameWatermarks r)
                (luck.commits && not (exists_where (has_name c.filename) r.artifacts)) (λ _. refl)
                (λ _. refl)))

  enqueue_checked-watermarks :
      (r : Repository) (d : GeneratedDataset) (c : GeneratedContent) (channels : List (List ℕ))
      (local : Bool) (available : ℕ) (luck : Luck) (found : Option Artifact)
      → SameWatermarks r (enqueue_checked r d c channels local available luck found)
  unfolding enqueue_checked
  enqueue_checked-watermarks r d c channels local available luck none =
      store_payload-watermarks r d c channels local available luck
  enqueue_checked-watermarks r d c channels local available luck (some a) =
      if_elim (SameWatermarks r) (same_manifest d c a) (λ _. refl) (λ _. refl)

  enqueue-watermarks :
      (checked : Result OutboxError (Unit {0})) (r : Repository) (d : GeneratedDataset)
      (c : GeneratedContent) (channels : List (List ℕ)) (local : Bool) (available : ℕ) (luck : Luck)
      → SameWatermarks r (enqueue_if digest checked r d c channels local available luck)
  unfolding enqueue_if
  enqueue-watermarks (err e) r d c channels local available luck = refl
  enqueue-watermarks (ok u) r d c channels local available luck =
      enqueue_checked-watermarks r d c channels local available luck
        (find_where (has_id d.artifact_id) r.artifacts)

  pub watermark-called-enqueue :
      (r : Repository) (d : GeneratedDataset) (c : GeneratedContent) (channels : List (List ℕ))
      (local : Bool) (available : ℕ) (luck : Luck) (i : List ℕ)
      → as_watermark (watermark (called (enqueue digest r d c channels local available luck)).1 i)
        ≡ as_watermark (watermark r i)
  unfolding enqueue watermark
  watermark-called-enqueue r d c channels local available luck i =
      let checked = check_request digest d c channels local in
      ap (λ (s : Repository). as_watermark (find_where (for_job i) s.watermarks))
        (called-state (enqueue_if digest checked r d c channels local available luck))
      ∙ ap (λ rows. as_watermark (find_where (for_job i) rows))
          (enqueue-watermarks checked r d c channels local available luck)

  module _ (now : ℕ) (luck_of : JobWatermark → Luck) where
    abbrev pub put : Repository → JobWatermark → Called
    put r w = store_watermark r (row_of now w) (luck_of w)

    pub put-watermark :
        (r : Repository) (w : JobWatermark)
        → (called (put r w)).0 ≡ ok tt
        → as_watermark (watermark (put r w).1 w.job_id) ≡ some w
    unfolding called store_watermark watermark find_where for_job as_watermark
    put-watermark r w =
        if_elim Stored (not (safe_identity w.job_id) || w.job_revision == 0) (λ _ e. cc)
          (λ _.
            if_elim Stored (luck_of w).commits (λ _ e. rw (equals_refl w.job_id) refl) (λ _ e. cc))
      where
        Stored : Called → Type 0
        Stored x = (called x).0 ≡ ok tt → as_watermark (watermark x.1 w.job_id) ≡ some w

    pub put_failed :
        (r : Repository) (w : JobWatermark) (f : Failure)
        → (called (put r w)).0 ≡ err f
        → (put r w).1 ≡ r
    unfolding called store_watermark
    put_failed r w f =
        if_elim Failed (not (safe_identity w.job_id) || w.job_revision == 0) (λ _ e. refl)
          (λ _. if_elim Failed (luck_of w).commits (λ _ e. cc) (λ _ e. refl))
      where
        Failed : Called → Type 0
        Failed x = (called x).0 ≡ err f → x.1 ≡ r

    -- The repository as the engine sees it.
    abbrev pub stored_outbox : Outbox
    stored_outbox = record {
      State = Repository;
      Dataset = Generated;
      watermark = λ r i. as_watermark (watermark r i);
      enqueue = λ r job g.
          called (
            enqueue digest r g.dataset g.content job.channel_ids job.local_only g.available g.luck);
      store_watermark = λ r w. called (put r w);
      watermark-enqueue = λ r job g i.
          watermark-called-enqueue r g.dataset g.content job.channel_ids job.local_only g.available
            g.luck i;
      watermark-store = λ r w e.
          ap (λ s. as_watermark (watermark s w.job_id)) (called-state (put r w))
          ∙ put-watermark r w e;
      watermark_kept = λ r w f i e.
          ap (λ s. as_watermark (watermark s i)) (called-state (put r w) ∙ put_failed r w f e);
    }
