-- ===== src/Datalogger/Generation.antt =====
-- common/mnc/datalogger/scheduler.cpp: `generate_due`. The outbox and the generation of a window's
-- content are parameters. The list of statuses, which only reports, is left out. Times are
-- nanoseconds since the epoch.
pub mod Progress
pub mod Stored
pub mod Counted
use msap1_apu.Prelude.{
  ℕ, zero, suc, ◌+◌, ◌≡◌, Bool, true, false, not, ◌||◌, List, [], ◌∷◌, Option, none, some, Result,
  ok, err, ltb, ◌==◌, if◌then◌else◌,
}

abbrev pub generation_settle_delay : ℕ
generation_settle_delay = 30_000_000_000

-- A DatalogError by its code, or any other exception.
pub data Failure : Type 0 where
  source_retention_gap storage_failure other_datalog_error other_exception : Failure

pub record Job : Type 0 where
  pub job_id : List ℕ
  pub revision : ℕ
  pub generation_interval : ℕ
  pub enabled : Bool
  pub channel_ids : List (List ℕ)
  pub local_only : Bool

pub record JobWatermark : Type 0 where
  pub job_id : List ℕ
  pub job_revision : ℕ
  pub completed_through : ℕ

pub record UtcWindow : Type 0 where
  pub start : ℕ
  pub finish : ℕ

pub record GenerationRun : Type 0 where
  pub generated : ℕ
  pub skipped_expired : ℕ
  pub storage_blocked : Bool
  pub source_deferred : Bool

unfoldable pub nothing_yet : GenerationRun
nothing_yet = record {
  generated = 0;
  skipped_expired = 0;
  storage_blocked = false;
  source_deferred = false;
}

-- OutboxRepository, as far as the engine uses it. A stored watermark is the one that is read; an
-- enqueued dataset, and a watermark that is not stored, leave the watermarks alone.
pub record Outbox : Type 1 where
  pub State : Type 0
  pub Dataset : Type 0
  pub watermark : State → List ℕ → Option JobWatermark
  pub enqueue : State → Job → Dataset → Result Failure (Unit {0}) × State
  pub store_watermark : State → JobWatermark → Result Failure (Unit {0}) × State
  pub watermark-enqueue :
      (s : State) (j : Job) (d : Dataset) (i : List ℕ)
      → watermark (enqueue s j d).1 i ≡ watermark s i
  pub watermark-store :
      (s : State) (w : JobWatermark)
      → (store_watermark s w).0 ≡ ok tt
      → watermark (store_watermark s w).1 w.job_id ≡ some w
  pub watermark_kept :
      (s : State) (w : JobWatermark) (f : Failure) (i : List ℕ)
      → (store_watermark s w).0 ≡ err f
      → watermark (store_watermark s w).1 i ≡ watermark s i

module _ (outbox : Outbox) (generate : Job → UtcWindow → Result Failure outbox.Dataset)
    (now : ℕ) where
  open outbox use {State, Dataset, watermark, enqueue, store_watermark}

  -- How the loop over the windows of a job ends: with the next job, with an early return, or with
  -- an exception. The windows left of the batch are counted.
  pub data Ended : Type 0 where
    next_job : ℕ → GenerationRun → State → Ended
    returned : GenerationRun → State → Ended
    thrown : Failure → State → Ended

  -- One round of the loop, with what it leaves.
  pub data Round : Type 0 where
    again : GenerationRun → State → Round
    stop : Ended → Round

  abbrev pub through : Job → ℕ → JobWatermark
  through job finish = record {
    job_id = job.job_id;
    job_revision = job.revision;
    completed_through = finish;
  }

  skipped : GenerationRun → Result Failure (Unit {0}) × State → Round
  skipped r (err f, s) = stop (thrown f s)
  skipped r (ok u, s) = again (record r { skipped_expired = r.skipped_expired + 1 }) s

  -- The two `catch` blocks.
  caught : Job → UtcWindow → GenerationRun → State → Failure → Round
  caught job window r s source_retention_gap =
      skipped r (store_watermark s (through job window.finish))
  caught job window r s storage_failure = stop (returned (record r { storage_blocked = true }) s)
  caught job window r s other_datalog_error =
      stop (returned (record r { source_deferred = true }) s)
  caught job window r s other_exception = stop (returned (record r { source_deferred = true }) s)

  stored : Job → UtcWindow → GenerationRun → Result Failure (Unit {0}) × State → Round
  stored job window r (err f, s) = caught job window r s f
  stored job window r (ok u, s) = again (record r { generated = r.generated + 1 }) s

  enqueued : Job → UtcWindow → GenerationRun → Result Failure (Unit {0}) × State → Round
  enqueued job window r (err f, s) = caught job window r s f
  enqueued job window r (ok u, s) =
      stored job window r (store_watermark s (through job window.finish))

  generated_as : Job → UtcWindow → GenerationRun → State → Result Failure Dataset → Round
  generated_as job window r s (err f) = caught job window r s f
  generated_as job window r s (ok dataset) = enqueued job window r (enqueue s job dataset)

  due : ℕ → Job → GenerationRun → State → Option JobWatermark → Round
  due left job r s none = stop (next_job left r s)
  due left job r s (some w) =
      let window : UtcWindow = record {
        start = w.completed_through;
        finish = w.completed_through + job.generation_interval;
      } in
      if not (w.job_revision == job.revision)
      then stop (next_job left r s)
      else if ltb now (window.finish + generation_settle_delay)
      then stop (next_job left r s)
      else generated_as job window r s (generate job window)

  unfoldable pub window_round : ℕ → Job → GenerationRun → State → Round
  unfolding skipped caught stored enqueued generated_as due
  window_round left job r s = due left job r s (watermark s job.job_id)

  -- `while (processed_windows < maximum_windows)`, with the windows left.
  unfoldable pub job_windows : ℕ → Job → GenerationRun → State → Ended
  job_windows zero job r s = next_job zero r s
  job_windows (suc left) job r s = elim (window_round (suc left) job r s) [
    | stop e ↦ e
    | again r' s' ↦ job_windows left job r' s'
  ]

  -- The loop over the jobs.
  unfoldable pub all_jobs : ℕ → List Job → GenerationRun → State → Ended
  all_jobs left [] r s = returned r s
  all_jobs left (job ∷ jobs) r s =
      if not job.enabled then all_jobs left jobs r s else elim (job_windows left job r s) [
        | next_job left' r' s' ↦ all_jobs left' jobs r' s'
        | returned r' s' ↦ returned r' s'
        | thrown f s' ↦ thrown f s'
      ]
