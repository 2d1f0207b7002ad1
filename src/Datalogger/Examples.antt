-- ===== src/Datalogger/Examples.antt =====
-- The engine on concrete times, jobs and a concrete outbox.
use msap1_apu.Prelude.{
  ◌≤◌, ◌<◌, ◌*◌, none, false, zero, suc, length, ◌++◌, ℕ, ◌+◌, ◌/◌, ◌≡◌, refl, true, List, [], ◌∷◌,
  some, Result, ok, err, ◌==◌, if◌then◌else◌,
}
use msap1_apu.Prelude.Integers.{pos, below, ◌-ℤ◌}
use msap1_apu.Datalogger.Retry.{next_boundary, next_boundary_sound}
use msap1_apu.Settings.Texts.{equals}
use msap1_apu.Datalogger.Outbox.{Repository, Luck, has_id}
use msap1_apu.Datalogger.Outbox.Names.{csv}
use msap1_apu.Datalogger.Outbox.Payloads.{content, watermark, enqueue, store_watermark}
use msap1_apu.Datalogger.Generation.Stored.{Generated, as_watermark, called, stored_outbox}
use msap1_apu.Datalogger.Generation.{
  JobWatermark, again, window_round, Ended, next_job, returned, thrown, Failure,
  source_retention_gap, Job, UtcWindow, nothing_yet, Outbox, job_windows,
}
use msap1_apu.Datalogger.Outbox.Tables.{find_where}
use msap1_apu.Datalogger.Generation.Counted.{generated_window_kept}
use msap1_apu.Datalogger.Generation.Progress.{IsDone, job_windows_progress}

-- A minute's boundary after 61 seconds.
minute : next_boundary (pos 61_000_000_000) (pos 60_000_000_000) ≡ ok 120_000_000_000
unfolding next_boundary ◌-ℤ◌
minute = refl

next_boundary_sound_example :
    (61_000_000_000 ≤ 120_000_000_000)
    × (120_000_000_000 < 61_000_000_000 + 60_000_000_000)
    × (120_000_000_000 / 60_000_000_000 * 60_000_000_000 ≡ 120_000_000_000)
    × (below (pos 61_000_000_000) ≡ 0)
next_boundary_sound_example =
    next_boundary_sound (pos 61_000_000_000) (pos 60_000_000_000) 120_000_000_000 minute

-- A digest of 64 characters.
abbrev repeated : ℕ → ℕ → List ℕ
repeated zero x = []
repeated (suc n) x = x ∷ repeated n x

abbrev digest : List ℕ → List ℕ
digest body = repeated 64 (48 + length body)

abbrev good : Luck
good = record { commits = true; removes = true; updates = true; syncs = true }

-- What is generated of a window, named after the window's number.
abbrev content_of : UtcWindow → List ℕ → Generated
content_of w id = record {
  dataset = record {
    artifact_id = id;
    job_id = 106 ∷ [];
    job_revision = 2;
    generated_at = 220_000_000_000;
    window_start = w.start;
    window_end = w.finish;
  };
  content = record {
    artifact_id = id;
    filename = id ++ (46 ∷ csv);
    mime_type = 116 ∷ [];
    extension = csv;
    body = 49 ∷ 10 ∷ [];
    sha256 = digest (49 ∷ 10 ∷ []);
  };
  available = 5_000;
  luck = good;
}

-- The source has lost what is older than 100 seconds.
abbrev source : Job → UtcWindow → Result Failure Generated
source j w =
    if w.start == 60_000_000_000
    then err source_retention_gap
    else ok (content_of w (119 ∷ (48 + w.start / 60_000_000_000) ∷ []))

abbrev every_minute : Job
every_minute = record {
  job_id = 106 ∷ [];
  revision = 2;
  generation_interval = 60_000_000_000;
  enabled = true;
  channel_ids = (99 ∷ []) ∷ [];
  local_only = false;
}

-- A repository with the job's watermark.
abbrev begun : Repository
begun = record {
  artifacts = [];
  deliveries = [];
  watermarks =
      record {
        job_id = 106 ∷ [];
        job_revision = 2;
        completed_through = 60_000_000_000;
        updated_at = 0;
      }
      ∷ [];
  audit = [];
  files = [];
  policy = record {
    maximum_bytes = 1_000;
    minimum_free_bytes = 10;
    completed_metadata_retention = 100;
  };
}

abbrev repository : Outbox
repository = stored_outbox digest 220_000_000_000 (λ w. good)

is_begun :
    repository.watermark begun (106 ∷ [])
    ≡ some (record { job_id = 106 ∷ []; job_revision = 2; completed_through = 60_000_000_000 })
unfolding as_watermark watermark equals
is_begun = refl

job_windows_progress_example :
    IsDone repository source 220_000_000_000 4 every_minute nothing_yet 60_000_000_000
      (job_windows repository source 220_000_000_000 4 every_minute nothing_yet begun)
job_windows_progress_example =
    job_windows_progress repository source 220_000_000_000 4 every_minute nothing_yet begun
      60_000_000_000 is_begun

-- One window is skipped, the next one is generated.
abbrev counts : Ended repository source 220_000_000_000 → ℕ × ℕ
counts (next_job left r s) = (r.generated, r.skipped_expired)
counts (returned r s) = (0, 0)
counts (thrown f s) = (0, 0)

one_of_two :
    counts (job_windows repository source 220_000_000_000 4 every_minute nothing_yet begun) ≡ (1, 1)
unfolding job_windows window_round nothing_yet equals as_watermark watermark called enqueue
    store_watermark
one_of_two = refl

-- The window that follows.
abbrev marked : Repository
marked = record begun {
  watermarks =
      record {
        job_id = 106 ∷ [];
        job_revision = 2;
        completed_through = 120_000_000_000;
        updated_at = 0;
      }
      ∷ [];
}

abbrev mark : JobWatermark
mark = record { job_id = 106 ∷ []; job_revision = 2; completed_through = 120_000_000_000 }

abbrev made : Generated
made = content_of (record { start = 120_000_000_000; finish = 180_000_000_000 }) (119 ∷ 50 ∷ [])

abbrev following : JobWatermark
following = record { job_id = 106 ∷ []; job_revision = 2; completed_through = 180_000_000_000 }

abbrev left_behind : Repository
left_behind =
    (repository.store_watermark (repository.enqueue marked every_minute made).1 following).1

is_marked : repository.watermark marked (106 ∷ []) ≡ some mark
unfolding as_watermark watermark equals
is_marked = refl

none_yet : find_where (has_id (119 ∷ 50 ∷ [])) marked.artifacts ≡ none
unfolding find_where
none_yet = refl

one_generated :
    window_round repository source 220_000_000_000 4 every_minute nothing_yet marked
    ≡ again (record nothing_yet { generated = 1 }) left_behind
unfolding window_round nothing_yet equals as_watermark watermark called enqueue store_watermark
one_generated = refl

generated_window_kept_example :
    (repository.watermark left_behind (106 ∷ []) ≡ some following)
    × (content digest left_behind (119 ∷ 50 ∷ []) ≡ ok made.content)
unfolding nothing_yet
generated_window_kept_example =
    generated_window_kept digest 220_000_000_000 (λ w. good) source 4 every_minute nothing_yet
      (record nothing_yet { generated = 1 }) marked left_behind mark made is_marked refl none_yet
      one_generated refl
