-- ===== src/Datalogger/Outbox/Examples.antt =====
-- The outbox on a concrete artifact, its delivery and a concrete sequence of calls.
use msap1_apu.Prelude.{
  ℕ, zero, suc, ◌+◌, ◌≤◌, ◌<◌, ◌≡◌, refl, true, false, List, [], ◌∷◌, ◌++◌, none, Result, ok,
  length, All, ◌⊎◌, inl, arith,
}
use msap1_apu.Settings.Texts.{equals}
use msap1_apu.Datalogger.Outbox.{in_flight, QueuedDelivery, Repository, OutboxError, Luck, has_id}
use msap1_apu.Datalogger.Outbox.Names.{json}
use msap1_apu.Datalogger.Outbox.Tables.{find_where}
use msap1_apu.Datalogger.Outbox.Claims.{claim_due}
use msap1_apu.Datalogger.Outbox.Payloads.{
  GeneratedDataset, GeneratedContent, enqueue, check_request, content,
}
use msap1_apu.Datalogger.Outbox.Results.{DeliveryResult, delivered, retryable, record_result}
use msap1_apu.Datalogger.Outbox.Runs.{Event, claimed, resulted, pruned_at, started, step, run}
use msap1_apu.Datalogger.Outbox.Locks.{IsOther}
use msap1_apu.Datalogger.Outbox.Locks.Delivered.{delivered_once}
use msap1_apu.Datalogger.Outbox.Locks.Leased.{claim_exclusive}
use msap1_apu.Datalogger.Outbox.Kept.Runs.{Sometime}
use msap1_apu.Datalogger.Outbox.Kept.Enqueued.{enqueued_content_kept}
use msap1_apu.Datalogger.Outbox.Kept.Again.{Answers, enqueue_again}
use msap1_apu.Datalogger.Retry.{base_seconds, fnv1a, mix_all, mix}
use msap1_apu.Datalogger.Delivery.{Executor, attempt, deliver_one, next_attempt}
use msap1_apu.Datalogger.Delivery.Backoff.{failed_attempt_delayed}

-- A digest of 64 characters.
abbrev repeated : ℕ → ℕ → List ℕ
repeated zero x = []
repeated (suc n) x = x ∷ repeated n x

abbrev digest : List ℕ → List ℕ
digest body = repeated 64 (48 + length body)

abbrev good : Luck
good = record { commits = true; removes = true; updates = true; syncs = true }

abbrev empty_outbox : Repository
empty_outbox = record {
  artifacts = [];
  deliveries = [];
  watermarks = [];
  audit = [];
  files = [];
  policy = record {
    maximum_bytes = 1000;
    minimum_free_bytes = 10;
    completed_metadata_retention = 100;
  };
}

abbrev id : List ℕ
id = 97 ∷ []

abbrev channel : List ℕ
channel = 99 ∷ []

abbrev dataset : GeneratedDataset
dataset = record {
  artifact_id = id;
  job_id = 106 ∷ [];
  job_revision = 1;
  generated_at = 70;
  window_start = 0;
  window_end = 60;
}

abbrev generated : List ℕ → GeneratedContent
generated body = record {
  artifact_id = id;
  filename = id ++ (46 ∷ json);
  mime_type = 116 ∷ [];
  extension = json;
  body = body;
  sha256 = digest body;
}

abbrev other : List ℕ
other = 100 ∷ []

abbrev enqueued_once : Result OutboxError (Unit {0}) × Repository
enqueued_once =
    enqueue digest empty_outbox dataset (generated (123 ∷ 125 ∷ [])) (channel ∷ other ∷ []) false
      500 good

abbrev outbox : Repository
outbox = enqueued_once.1

is_enqueued : enqueued_once.0 ≡ ok tt
unfolding enqueue equals
is_enqueued = refl

none_before : find_where (has_id id) empty_outbox.artifacts ≡ none
unfolding find_where
none_before = refl

-- A row that is claimed until a time.
abbrev row : List ℕ → ℕ → QueuedDelivery
row name until = record {
  artifact_id = id;
  channel_id = name;
  state = in_flight;
  attempt_count = 0;
  next_attempt = until;
  last_attempt = 0;
  remote_result = [];
  last_error = [];
}

abbrev success : DeliveryResult
success = record { disposition = delivered; remote_result = []; sanitized_error = [] }

abbrev failure : DeliveryResult
failure = record { disposition = retryable; remote_result = []; sanitized_error = 120 ∷ [] }

-- One delivery succeeds, the other one fails, and the process starts again.
abbrev events : List Event
events =
    claimed 5 50 10 good
    ∷ resulted (row channel 50) success 6 0 good good good
    ∷ resulted (row other 50) failure 7 90 good good good
    ∷ started good good
    ∷ []

enqueued_content_kept_example :
    Sometime digest id events outbox
    ⊎ (content digest (run digest events outbox) id ≡ ok (generated (123 ∷ 125 ∷ [])))
enqueued_content_kept_example =
    enqueued_content_kept digest empty_outbox dataset (generated (123 ∷ 125 ∷ []))
      (channel ∷ other ∷ []) false 500 good events none_before is_enqueued
      (tt, (tt, (tt, (tt, tt))))

-- The same window, generated anew with another body.
abbrev later_dataset : GeneratedDataset
later_dataset = record dataset { generated_at = 80 }

is_valid :
    check_request digest later_dataset (generated (123 ∷ 32 ∷ 125 ∷ [])) (channel ∷ []) false
    ≡ ok tt
unfolding check_request equals
is_valid = refl

enqueue_again_example :
    Sometime digest id events outbox
    ⊎ Answers dataset later_dataset
        (generated (123 ∷ 125 ∷ []))
        (generated (123 ∷ 32 ∷ 125 ∷ []))
        (run digest events outbox)
        (enqueue digest
          (run digest events outbox)
          later_dataset
          (generated (123 ∷ 32 ∷ 125 ∷ []))
          (channel ∷ [])
          false
          500
          good)
enqueue_again_example =
    enqueue_again digest empty_outbox dataset (generated (123 ∷ 125 ∷ [])) (channel ∷ other ∷ [])
      false 500 good events later_dataset (generated (123 ∷ 32 ∷ 125 ∷ [])) (channel ∷ []) false 500
      good none_before is_enqueued (tt, (tt, (tt, (tt, tt)))) refl is_valid

abbrev sent : Result OutboxError (Unit {0}) × Repository
sent = record_result outbox (row channel 50) success 6 0 good good good

is_sent : sent.0 ≡ ok tt
unfolding enqueue equals record_result
is_sent = refl

only_other :
    (claim_due (run digest (started good good ∷ []) sent.1) 7 100 10 good).0
    ≡ ok (row other 100 ∷ [])
unfolding enqueue equals record_result run step claim_due
only_other = refl

delivered_once_example : All (IsOther id channel) (row other 100 ∷ [])
delivered_once_example =
    delivered_once digest outbox (row channel 50) success 6 0 good good good
      (started good good ∷ []) 7 100 10 good (row other 100 ∷ []) refl is_sent (tt, tt) only_other

first_claim : (claim_due outbox 5 100 1 good).0 ≡ ok (row channel 100 ∷ [])
unfolding enqueue equals claim_due
first_claim = refl

second_claim :
    (claim_due
      (run digest (pruned_at 6 good ∷ []) (claim_due outbox 5 100 1 good).1)
      7
      200
      10
      good).0
    ≡ ok (row other 200 ∷ [])
unfolding enqueue equals run step claim_due
second_claim = refl

claim_exclusive_example : All (IsOther id channel) (row other 200 ∷ [])
claim_exclusive_example =
    claim_exclusive digest outbox 5 100 1 good (row channel 100 ∷ []) (row channel 100)
      (pruned_at 6 good ∷ []) 7 200 10 good (row other 200 ∷ []) first_claim (inl refl) (tt, tt)
      (omega arith) second_claim

-- An executor whose channel is unavailable.
abbrev unreachable : Executor
unreachable name c r = (ok failure, r)

abbrev no_text : OutboxError → List ℕ
no_text e = []

abbrev failed : Result OutboxError (Unit {0}) × Repository
failed = deliver_one digest no_text unreachable outbox 5 (good, good, good) (row channel 100)

abbrev result : DeliveryResult
result = (attempt digest no_text unreachable outbox (row channel 100)).0

is_unreachable : result.disposition ≡ retryable
unfolding enqueue equals attempt
is_unreachable = refl

is_recorded : failed.0 ≡ ok tt
unfolding enqueue equals deliver_one
is_recorded = refl

not_yet : 6 < next_attempt 5 (row channel 100) result
unfolding enqueue equals attempt next_attempt base_seconds
not_yet = omega arith

other_claimed :
    (claim_due (run digest (started good good ∷ []) failed.1) 6 100 10 good).0
    ≡ ok (row other 100 ∷ [])
unfolding enqueue equals deliver_one run step claim_due base_seconds fnv1a mix_all mix
other_claimed = refl

failed_attempt_delayed_example :
    (5 + 5_000_000_000 ≤ next_attempt 5 (row channel 100) result)
    × (next_attempt 5 (row channel 100) result ≤ 5 + 3_600_000_000_000)
    × All (IsOther id channel) (row other 100 ∷ [])
failed_attempt_delayed_example =
    failed_attempt_delayed digest no_text unreachable outbox 5 good good good (row channel 100)
      (started good good ∷ []) 6 100 10 good (row other 100 ∷ []) is_unreachable is_recorded
      ((tt, tt), tt) not_yet other_claimed
