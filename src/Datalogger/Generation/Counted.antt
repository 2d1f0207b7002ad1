-- ===== src/Datalogger/Generation/Counted.antt =====
-- common/mnc/datalogger/scheduler.cpp over outbox_repository.cpp: the windows that are counted as
-- generated.
use msap1_apu.Prelude.{
  ℕ, ◌+◌, ◌≡◌, refl, sym, ap, ◌∙◌, subst, not, List, [], ◌∷◌, Option, none, some, Result, ok, err,
  ltb, ◌==◌, if_elim, ok-injective, ◌⊎◌, inl, inr, arith,
}
use msap1_apu.Datalogger.Outbox.{WatermarkRow, Repository, OutboxError, Luck, has_id}
use msap1_apu.Datalogger.Outbox.Tables.{find_where}
use msap1_apu.Datalogger.Outbox.Payloads.{content, enqueue}
use msap1_apu.Datalogger.Outbox.Runs.{watermarked, step, run}
use msap1_apu.Datalogger.Outbox.Kept.Runs.{Sometime}
use msap1_apu.Datalogger.Outbox.Kept.Enqueued.{enqueued_content_kept}
use msap1_apu.Datalogger.Generation.{
  caught, skipped, stored, enqueued, generated_as, due, Failure, source_retention_gap,
  storage_failure, other_datalog_error, other_exception, Job, JobWatermark, UtcWindow,
  GenerationRun, Outbox, Round, again, stop, through, window_round, generation_settle_delay,
}
use msap1_apu.Datalogger.Generation.Stored.{
  Generated, called, called-state, put, row_of, stored_outbox,
}

module _ (outbox : Outbox) (generate : Job → UtcWindow → Result Failure outbox.Dataset)
    (now : ℕ) where
  open outbox use {State, Dataset, watermark, enqueue as enqueue_in, store_watermark}

  -- What holds of the state after a round that counts a window as generated.
  abbrev pub Counts : GenerationRun → (State → Type 0) → Round outbox generate now → Type 0
  Counts r P (again r' s) = r'.generated ≡ r.generated + 1 → P s
  Counts r P (stop e) = Unit

  caught-Counts :
      (P : State → Type 0) (job : Job) (window : UtcWindow) (r : GenerationRun) (s : State)
      (f : Failure)
      → Counts r P (caught outbox generate now job window r s f)
  unfolding caught skipped
  caught-Counts P job window r s source_retention_gap =
      skips (store_watermark s (through outbox generate now job window.finish))
    where
      skips : (m : Result Failure (Unit {0}) × State) → Counts r P (skipped outbox generate now r m)
      skips (err f, t) = tt
      skips (ok u, t) = λ more. absurd (omega arith)
  caught-Counts P job window r s storage_failure = tt
  caught-Counts P job window r s other_datalog_error = tt
  caught-Counts P job window r s other_exception = tt

  stored-Counts :
      (P : State → Type 0) (job : Job) (window : UtcWindow) (r : GenerationRun)
      (m : Result Failure (Unit {0}) × State)
      → (m.0 ≡ ok tt → P m.1)
      → Counts r P (stored outbox generate now job window r m)
  unfolding stored
  stored-Counts P job window r (err f, s) h = caught-Counts P job window r s f
  stored-Counts P job window r (ok u, s) h = λ _. h refl

  enqueued-Counts :
      (P : State → Type 0) (job : Job) (window : UtcWindow) (r : GenerationRun)
      (m : Result Failure (Unit {0}) × State)
      → (m.0 ≡ ok tt
          → let w = through outbox generate now job window.finish in
            (store_watermark m.1 w).0 ≡ ok tt → P (store_watermark m.1 w).1)
      → Counts r P (enqueued outbox generate now job window r m)
  unfolding enqueued
  enqueued-Counts P job window r (err f, s) h = caught-Counts P job window r s f
  enqueued-Counts P job window r (ok u, s) h =
      stored-Counts P job window r
        (store_watermark s (through outbox generate now job window.finish)) (h refl)

  abbrev pub window_of : Job → JobWatermark → UtcWindow
  window_of job w = record {
    start = w.completed_through;
    finish = w.completed_through + job.generation_interval;
  }

  -- A state in which a window's dataset was enqueued and its end was stored as the watermark.
  abbrev pub Generates : Job → State → State → Type 0
  Generates job s s' =
      (w : JobWatermark) × (d : Dataset) × (watermark s job.job_id ≡ some w)
      × (generate job (window_of job w) ≡ ok d)
      × ((enqueue_in s job d).0 ≡ ok tt)
      × let t =
          store_watermark (enqueue_in s job d).1
            (through outbox generate now job (window_of job w).finish) in
        (t.0 ≡ ok tt) × (t.1 ≡ s')

  generated_as-Counts :
      (job : Job) (w : JobWatermark) (r : GenerationRun) (s : State) (m : Result Failure Dataset)
      → watermark s job.job_id ≡ some w
      → generate job (window_of job w) ≡ m
      → Counts r (Generates job s) (generated_as outbox generate now job (window_of job w) r s m)
  unfolding generated_as
  generated_as-Counts job w r s (err f) e made =
      caught-Counts (Generates job s) job (window_of job w) r s f
  generated_as-Counts job w r s (ok d) e made =
      enqueued-Counts (Generates job s) job (window_of job w) r (enqueue_in s job d)
        (λ put_in marked. (w, d, e, made, put_in, (marked, refl)))

  due-Counts :
      (left : ℕ) (job : Job) (r : GenerationRun) (s : State) (m : Option JobWatermark)
      → watermark s job.job_id ≡ m
      → Counts r (Generates job s) (due outbox generate now left job r s m)
  unfolding due
  due-Counts left job r s none e = tt
  due-Counts left job r s (some w) e =
      if_elim (Counts r (Generates job s)) (not (w.job_revision == job.revision)) (λ _. tt)
        (λ _.
          if_elim (Counts r (Generates job s))
            (ltb now ((window_of job w).finish + generation_settle_delay)) (λ _. tt)
            (λ _. generated_as-Counts job w r s (generate job (window_of job w)) e refl))

  pub window_round-Counts :
      (left : ℕ) (job : Job) (r : GenerationRun) (s : State)
      → Counts r (Generates job s) (window_round outbox generate now left job r s)
  unfolding window_round
  window_round-Counts left job r s = due-Counts left job r s (watermark s job.job_id) refl

called_ok : (x : Result OutboxError (Unit {0}) × Repository) → (called x).0 ≡ ok tt → x.0 ≡ ok tt
unfolding called
called_ok (ok u, r) e = refl
called_ok (err f, r) e = cc

-- Storing a watermark completes no delivery.
marked_only :
    (digest : List ℕ → List ℕ) (id : List ℕ) (row : WatermarkRow) (luck : Luck) (r : Repository)
    {X : Type 0}
    → Sometime digest id (watermarked row luck ∷ []) r ⊎ X
    → X
marked_only digest id row luck r (inl (inl e)) = cc
marked_only digest id row luck r (inl (inr e)) = absurd e
marked_only digest id row luck r (inr x) = x

-- What the round has found, generated and left.
counted_round :
    (digest : List ℕ → List ℕ) (now : ℕ) (luck_of : JobWatermark → Luck)
    (generate : Job → UtcWindow → Result Failure Generated) (left : ℕ) (job : Job)
    (r r' : GenerationRun) (s s' : Repository)
    → let repository = stored_outbox digest now luck_of in
      window_round repository generate now left job r s ≡ again r' s'
      → r'.generated ≡ r.generated + 1
      → (w : JobWatermark) × (g : Generated) × (repository.watermark s job.job_id ≡ some w)
        × (generate job (window_of repository generate now job w) ≡ ok g)
        × (repository.watermark s' job.job_id
            ≡ some (
                through repository generate now job
                  (w.completed_through + job.generation_interval)))
        × (find_where (has_id g.dataset.artifact_id) s.artifacts ≡ none
            → content digest s' g.dataset.artifact_id ≡ ok g.content)
counted_round digest now luck_of generate left job r r' s s' e more =
    let repository = stored_outbox digest now luck_of in
    let (w, g, found, made, put_in, (marked, state)) =
      subst (Counts repository generate now r (Generates repository generate now job s)) e
        (window_round-Counts repository generate now left job r s) more in
    let after =
      through repository generate now job (w.completed_through + job.generation_interval) in
    let entered =
      enqueue digest s g.dataset g.content job.channel_ids job.local_only g.available g.luck in
    (
      w,
      g,
      found,
      made,
      ap (λ t. repository.watermark t job.job_id) (sym state)
          ∙ repository.watermark-store (called entered).1 after marked,
      λ no_row.
          subst (λ t. content digest t g.dataset.artifact_id ≡ ok g.content)
            (sym (called-state (put digest now luck_of entered.1 after))
              ∙ (ap (λ t. (called (put digest now luck_of t after)).1) (sym (called-state entered))
                  ∙ state))
            (marked_only digest g.dataset.artifact_id (row_of now after) (luck_of after) entered.1 (
              unfold run step in
              enqueued_content_kept digest s g.dataset g.content job.channel_ids job.local_only
                g.available g.luck (watermarked (row_of now after) (luck_of after) ∷ []) no_row
                (called_ok entered put_in) (tt, tt))),
    )

some-injective : {T : Type 0} {x y : T} → ◌≡◌ {A = Option T} (some x) (some y) → x ≡ y
some-injective e = cc

-- A round over the repository that counts a window as generated, where the window that begins at the
-- job's watermark gives a dataset of which the repository has no artifact: the watermark has moved to
-- the end of the window, and the content that was written is read back.
pub generated_window_kept :
    (digest : List ℕ → List ℕ) (now : ℕ) (luck_of : JobWatermark → Luck)
    (generate : Job → UtcWindow → Result Failure Generated) (left : ℕ) (job : Job)
    (r r' : GenerationRun) (s s' : Repository) (w : JobWatermark) (g : Generated)
    → let repository = stored_outbox digest now luck_of in
      repository.watermark s job.job_id ≡ some w
      → generate job (window_of repository generate now job w) ≡ ok g
      → find_where (has_id g.dataset.artifact_id) s.artifacts ≡ none
      → window_round repository generate now left job r s ≡ again r' s'
      → r'.generated ≡ r.generated + 1
      → (repository.watermark s' job.job_id
          ≡ some
              (through repository generate now job (w.completed_through + job.generation_interval)))
        × (content digest s' g.dataset.artifact_id ≡ ok g.content)
generated_window_kept digest now luck_of generate left job r r' s s' w g found made no_row e more =
    let repository = stored_outbox digest now luck_of in
    let (v, h, found', made', marked, kept) =
      counted_round digest now luck_of generate left job r r' s s' e more in
    let same : v ≡ w = some-injective (sym found' ∙ found) in
    let same_data : h ≡ g = ok-injective (
      sym (subst (λ x. generate job (window_of repository generate now job x) ≡ ok h) same made')
      ∙ made) in
    (
      subst
          (λ (x : JobWatermark).
            repository.watermark s' job.job_id
            ≡ some (
                through repository generate now job
                  (x.completed_through + job.generation_interval)))
          same marked,
      subst
          (λ (x : Generated).
            find_where (has_id x.dataset.artifact_id) s.artifacts ≡ none
            → content digest s' x.dataset.artifact_id ≡ ok x.content)
          same_data kept no_row,
    )
