-- ===== src/Datalogger/Generation/Progress.antt =====
-- A job's windows are taken in order, without gaps, and only when they have settled.
use msap1_apu.Prelude.{
  ℕ, zero, suc, ◌+◌, ◌*◌, ◌≤◌, ◌<◌, ◌≡◌, ◌⊎◌, inl, inr, refl, sym, ap, ◌∙◌, Bool, true, false, ◌||◌,
  some, Result, ok, err, ltb, arith, Bool-cases, ==_refl, ltb→lt,
}
use msap1_apu.Datalogger.Generation.{
  caught, skipped, stored, enqueued, generated_as, due, Failure, source_retention_gap,
  storage_failure, other_datalog_error, other_exception, Job, UtcWindow, GenerationRun, Outbox,
  Ended, next_job, returned, thrown, Round, again, stop, through, window_round, job_windows,
  generation_settle_delay,
}

next_start : (start n interval : ℕ) → start + interval + n * interval ≡ start + suc n * interval
next_start start n interval = grind arith

or_true : (b : Bool) → (b || true) ≡ true
or_true true = refl
or_true false = refl

module _ (outbox : Outbox) (generate : Job → UtcWindow → Result Failure outbox.Dataset)
    (now : ℕ) where
  open outbox use {
    State, watermark, enqueue, store_watermark, watermark-enqueue, watermark-store, watermark_kept,
  }

  abbrev pub processed : GenerationRun → ℕ
  processed r = r.generated + r.skipped_expired

  -- What a round does to the job's watermark.
  abbrev RoundKeeps : ℕ → Job → GenerationRun → ℕ → Round outbox generate now → Type 0
  RoundKeeps left job r start (again r' s') =
      (watermark s' job.job_id
        ≡ some (through outbox generate now job (start + job.generation_interval)))
      × (start + job.generation_interval + generation_settle_delay ≤ now)
      × (processed r' ≡ processed r + 1)
  RoundKeeps left job r start (stop (next_job left' r' s')) =
      (watermark s' job.job_id ≡ some (through outbox generate now job start))
      × (r' ≡ r)
      × (left' ≡ left)
      × (now < start + job.generation_interval + generation_settle_delay)
  RoundKeeps left job r start (stop (returned r' s')) =
      (watermark s' job.job_id ≡ some (through outbox generate now job start))
      × (processed r' ≡ processed r)
      × ((r'.storage_blocked || r'.source_deferred) ≡ true)
  RoundKeeps left job r start (stop (thrown f s')) =
      watermark s' job.job_id ≡ some (through outbox generate now job start)

  -- The watermark after it was stored, and after it was not.
  stored_through :
      (s t : State) (job : Job) (finish start : ℕ) {u : Unit {0}}
      → finish ≡ start + job.generation_interval
      → store_watermark s (through outbox generate now job finish) ≡ (ok u, t)
      → watermark t job.job_id
        ≡ some (through outbox generate now job (start + job.generation_interval))
  stored_through s t job finish start w done =
      ap (λ m. watermark m.1 job.job_id) (sym done)
      ∙ (watermark-store s (through outbox generate now job finish) (ap (λ m. m.0) done)
          ∙ ap (λ n. some (through outbox generate now job n)) w)

  kept_through :
      (s t : State) (job : Job) (finish start : ℕ) (f : Failure)
      → store_watermark s (through outbox generate now job finish) ≡ (err f, t)
      → watermark s job.job_id ≡ some (through outbox generate now job start)
      → watermark t job.job_id ≡ some (through outbox generate now job start)
  kept_through s t job finish start f done e =
      ap (λ m. watermark m.1 job.job_id) (sym done)
      ∙ (watermark_kept s (through outbox generate now job finish) f job.job_id (ap (λ m. m.0) done)
          ∙ e)

  caught-keeps :
      (left : ℕ) (job : Job) (window : UtcWindow) (r : GenerationRun) (s : State) (f : Failure)
      (start : ℕ)
      → window.finish ≡ start + job.generation_interval
      → start + job.generation_interval + generation_settle_delay ≤ now
      → watermark s job.job_id ≡ some (through outbox generate now job start)
      → RoundKeeps left job r start (caught outbox generate now job window r s f)
  unfolding caught skipped
  caught-keeps left job window r s source_retention_gap start w h e =
      skips (store_watermark s (through outbox generate now job window.finish)) refl
    where
      skips :
          (m : Result Failure (Unit {0}) × State)
          → store_watermark s (through outbox generate now job window.finish) ≡ m
          → RoundKeeps left job r start (skipped outbox generate now r m)
      skips (err f, t) done = kept_through s t job window.finish start f done e
      skips (ok u, t) done = (stored_through s t job window.finish start w done, h, omega arith)
  caught-keeps left job window r s storage_failure start w h e = (e, refl, refl)
  caught-keeps left job window r s other_datalog_error start w h e =
      (e, refl, or_true r.storage_blocked)
  caught-keeps left job window r s other_exception start w h e =
      (e, refl, or_true r.storage_blocked)

  stored-keeps :
      (left : ℕ) (job : Job) (window : UtcWindow) (r : GenerationRun) (s : State) (start : ℕ)
      (m : Result Failure (Unit {0}) × State)
      → window.finish ≡ start + job.generation_interval
      → start + job.generation_interval + generation_settle_delay ≤ now
      → watermark s job.job_id ≡ some (through outbox generate now job start)
      → store_watermark s (through outbox generate now job window.finish) ≡ m
      → RoundKeeps left job r start (stored outbox generate now job window r m)
  unfolding stored
  stored-keeps left job window r s start (err f, t) w h e done =
      caught-keeps left job window r t f start w h
        (kept_through s t job window.finish start f done e)
  stored-keeps left job window r s start (ok u, t) w h e done =
      (stored_through s t job window.finish start w done, h, omega arith)

  enqueued-keeps :
      (left : ℕ) (job : Job) (window : UtcWindow) (r : GenerationRun) (s : State) (start : ℕ)
      (d : outbox.Dataset) (m : Result Failure (Unit {0}) × State)
      → window.finish ≡ start + job.generation_interval
      → start + job.generation_interval + generation_settle_delay ≤ now
      → watermark s job.job_id ≡ some (through outbox generate now job start)
      → enqueue s job d ≡ m
      → RoundKeeps left job r start (enqueued outbox generate now job window r m)
  unfolding enqueued
  enqueued-keeps left job window r s start d (err f, t) w h e done =
      caught-keeps left job window r t f start w h
        (ap (λ m. watermark m.1 job.job_id) (sym done) ∙ (watermark-enqueue s job d job.job_id ∙ e))
  enqueued-keeps left job window r s start d (ok u, t) w h e done =
      stored-keeps left job window r t start
        (store_watermark t (through outbox generate now job window.finish)) w h
        (ap (λ m. watermark m.1 job.job_id) (sym done) ∙ (watermark-enqueue s job d job.job_id ∙ e))
        refl

  generated_as-keeps :
      (left : ℕ) (job : Job) (window : UtcWindow) (r : GenerationRun) (s : State) (start : ℕ)
      (m : Result Failure outbox.Dataset)
      → window.finish ≡ start + job.generation_interval
      → start + job.generation_interval + generation_settle_delay ≤ now
      → watermark s job.job_id ≡ some (through outbox generate now job start)
      → RoundKeeps left job r start (generated_as outbox generate now job window r s m)
  unfolding generated_as
  generated_as-keeps left job window r s start (err f) w h e =
      caught-keeps left job window r s f start w h e
  generated_as-keeps left job window r s start (ok d) w h e =
      enqueued-keeps left job window r s start d (enqueue s job d) w h e refl

  window_round-keeps :
      (left : ℕ) (job : Job) (r : GenerationRun) (s : State) (start : ℕ)
      → watermark s job.job_id ≡ some (through outbox generate now job start)
      → RoundKeeps left job r start (window_round outbox generate now left job r s)
  unfolding window_round due
  window_round-keeps left job r s start e =
      let finish = start + job.generation_interval in
      let window : UtcWindow = record { start = start; finish = finish } in
      elim (Bool-cases (ltb now (finish + generation_settle_delay))) [
        | inl early ↦
            rw (window_round, e, due, ==_refl job.revision, early)
              (e, refl, refl, ltb→lt now (finish + generation_settle_delay) early)
        | inr settled ↦
            rw (window_round, e, due, ==_refl job.revision, settled)
              (generated_as-keeps left job window r s start (generate job window) refl
                (ground arith) e)
      ]

  -- `n` windows of a job have been taken, from `start` on, each of them settled.
  pub record Taken (left : ℕ) (job : Job) (start n : ℕ) (s : State) : Type 0 where
    pub stored_through :
        watermark s job.job_id
        ≡ some (through outbox generate now job (start + n * job.generation_interval))
    pub within : n ≤ left
    pub settled : (n ≡ 0) ⊎ (start + n * job.generation_interval + generation_settle_delay ≤ now)

  -- How the loop over a job's windows may end.
  abbrev pub IsDone : ℕ → Job → GenerationRun → ℕ → Ended outbox generate now → Type 0
  IsDone left job r start (next_job left' r' s') =
      (n : ℕ) × Taken left job start n s'
      × (processed r' ≡ processed r + n)
      × (left' + n ≡ left)
      × ((left' ≡ 0)
          ⊎ (now
              < start
                + n * job.generation_interval
                + job.generation_interval
                + generation_settle_delay))
  IsDone left job r start (returned r' s') =
      (n : ℕ) × Taken left job start n s'
      × (processed r' ≡ processed r + n)
      × ((r'.storage_blocked || r'.source_deferred) ≡ true)
  IsDone left job r start (thrown f s') = (n : ℕ) × Taken left job start n s'

  none-Taken :
      (left : ℕ) (job : Job) (start : ℕ) (s : State)
      → watermark s job.job_id ≡ some (through outbox generate now job start)
      → Taken left job start 0 s
  none-Taken left job start s e = record {
    stored_through = e ∙ ap (λ n. some (through outbox generate now job n)) (omega arith);
    within = omega arith;
    settled = inl refl;
  }

  one_more-Taken :
      (left : ℕ) (job : Job) (start n : ℕ) (s : State)
      → start + job.generation_interval + generation_settle_delay ≤ now
      → Taken left job (start + job.generation_interval) n s
      → Taken (suc left) job start (suc n) s
  one_more-Taken left job start n s h t =
      let next = next_start start n job.generation_interval in
      record {
        stored_through = t.stored_through ∙ ap (λ m. some (through outbox generate now job m)) next;
        within = omega (arith, t.within);
        settled = inr (elim t.settled [
          | inl z ↦ omega (arith, next, ap (λ m. m * job.generation_interval) z)
          | inr k ↦ omega (arith, next, k)
        ]);
      }

  one_more-IsDone :
      (left : ℕ) (job : Job) (r r' : GenerationRun) (start : ℕ) (e : Ended outbox generate now)
      → start + job.generation_interval + generation_settle_delay ≤ now
      → processed r' ≡ processed r + 1
      → IsDone left job r' (start + job.generation_interval) e
      → IsDone (suc left) job r start e
  one_more-IsDone left job r r' start (next_job left' r2 s2) h p (n, t, more, used, why) = (
    suc n,
    one_more-Taken left job start n s2 h t,
    omega arith,
    omega arith,
    elim why [
      | inl full ↦ inl full
      | inr early ↦ inr (omega (arith, next_start start n job.generation_interval))
    ],
  )
  one_more-IsDone left job r r' start (returned r2 s2) h p (n, t, more, why) =
      (suc n, one_more-Taken left job start n s2 h t, omega arith, why)
  one_more-IsDone left job r r' start (thrown f s2) h p (n, t) =
      (suc n, one_more-Taken left job start n s2 h t)

  -- From the job's watermark on, the loop takes consecutive windows: the watermark ends after exactly
  -- the windows counted as generated or skipped, never more than the batch allows, and only windows
  -- that ended at least 30 seconds ago. It goes on to the next job only when the batch is used up or
  -- the next window has not settled; an early return is always reported as blocked or deferred.
  pub job_windows_progress :
      (left : ℕ) (job : Job) (r : GenerationRun) (s : State) (start : ℕ)
      → watermark s job.job_id ≡ some (through outbox generate now job start)
      → IsDone left job r start (job_windows outbox generate now left job r s)
  unfolding job_windows
  job_windows_progress zero job r s start e =
      (0, none-Taken 0 job start s e, omega arith, omega arith, inl refl)
  job_windows_progress (suc left) job r s start e =
      after
        (λ r' s' marked.
          job_windows_progress left job r' s' (start + job.generation_interval) marked)
        (window_round outbox generate now (suc left) job r s)
        (window_round-keeps (suc left) job r s start e)
    where
      after :
          (go_on : (r' : GenerationRun) (s' : State)
            → watermark s' job.job_id
              ≡ some (through outbox generate now job (start + job.generation_interval))
            → IsDone left job r'
                (start + job.generation_interval)
                (job_windows outbox generate now left job r' s'))
          → (round : Round outbox generate now) → RoundKeeps (suc left) job r start round
          → IsDone (suc left) job r start (elim round [
            | stop e ↦ e
            | again r' s' ↦ job_windows outbox generate now left job r' s'
          ])
      after go_on (again r' s') (marked, settled, counted) =
          one_more-IsDone left job r r' start (job_windows outbox generate now left job r' s')
            settled counted (go_on r' s' marked)
      after go_on (stop (next_job left' r' s')) (marked, same, kept, early) = (
        0,
        none-Taken (suc left) job start s' marked,
        omega (arith, ap processed same),
        omega arith,
        inr (omega (arith, early)),
      )
      after go_on (stop (returned r' s')) (marked, counted, why) =
          (0, none-Taken (suc left) job start s' marked, omega arith, why)
      after go_on (stop (thrown f s')) marked = (0, none-Taken (suc left) job start s' marked)
