-- ===== src/Datalogger/Delivery.antt =====
-- common/mnc/datalogger/scheduler.cpp: `deliver_due` over the outbox. The executor that delivers the
-- content is a parameter; other threads may change the outbox while it runs. The texts of the
-- outbox's exceptions are a parameter as well.
pub mod Backoff
use msap1_apu.Prelude.{
  ℕ, ◌+◌, ◌%◌, ◌^◌, Bool, true, false, ◌||◌, List, [], ◌∷◌, ◌++◌, Result, ok, err, ltb, ◌==◌,
  if◌then◌else◌, length,
}
use msap1_apu.Datalogger.Retry.{retry_delay}
use msap1_apu.Datalogger.Outbox.{
  QueuedDelivery, Repository, OutboxError, invalid_argument, out_of_range, runtime_error,
  storage_failure, invalid_configuration, Luck,
}
use msap1_apu.Datalogger.Outbox.Claims.{claim_due}
use msap1_apu.Datalogger.Outbox.Payloads.{GeneratedContent, content}
use msap1_apu.Datalogger.Outbox.Results.{
  DeliveryDisposition, delivered, retryable, refused, DeliveryResult, record_result,
}

abbrev pub delivery_lease : ℕ
delivery_lease = 3_660_000_000_000

-- An exception of the executor: a DatalogError with its text, or another one.
pub data ExecutorFailure : Type 0 where
  datalog_error : List ℕ → ExecutorFailure
  other_exception : ExecutorFailure

abbrev pub Executor : Type 0
Executor =
    List ℕ → GeneratedContent → Repository → Result ExecutorFailure DeliveryResult × Repository

-- "delivery dependency is unavailable"
abbrev dependency_unavailable : List ℕ
dependency_unavailable =
    100 ∷ 101 ∷ 108 ∷ 105 ∷ 118 ∷ 101 ∷ 114 ∷ 121 ∷ 32 ∷ 100 ∷ 101 ∷ 112 ∷ 101 ∷ 110 ∷ 100 ∷ 101
    ∷ 110 ∷ 99 ∷ 121 ∷ 32 ∷ 105 ∷ 115 ∷ 32 ∷ 117 ∷ 110 ∷ 97 ∷ 118 ∷ 97 ∷ 105 ∷ 108 ∷ 97 ∷ 98 ∷ 108
    ∷ 101 ∷ []

-- The results of the two `catch` blocks.
abbrev pub blocked_result : List ℕ → DeliveryResult
blocked_result text = record { disposition = refused; remote_result = []; sanitized_error = text }

abbrev pub unavailable : DeliveryResult
unavailable = record {
  disposition = retryable;
  remote_result = [];
  sanitized_error = dependency_unavailable;
}

unfoldable pub caught : ExecutorFailure → DeliveryResult
caught (datalog_error text) = blocked_result text
caught other_exception = unavailable

unfoldable pub is_retryable : DeliveryDisposition → Bool
is_retryable retryable = true
is_retryable delivered = false
is_retryable refused = false

-- When the delivery is tried again; the attempts are counted in 32 bits.
unfoldable pub next_attempt : ℕ → QueuedDelivery → DeliveryResult → ℕ
unfolding is_retryable retry_delay
next_attempt now delivery result =
    if is_retryable result.disposition
    then now
      + retry_delay ((delivery.attempt_count + 1) % 2 ^ 32)
          (delivery.artifact_id ++ (58 ∷ delivery.channel_id))
    else 0

module _ (digest : List ℕ → List ℕ) (message : OutboxError → List ℕ) (deliver : Executor) where
  -- What the outbox throws: DatalogError has two of the codes.
  unfoldable pub content_failed : OutboxError → DeliveryResult
  content_failed storage_failure = blocked_result (message storage_failure)
  content_failed invalid_configuration = blocked_result (message invalid_configuration)
  content_failed invalid_argument = unavailable
  content_failed out_of_range = unavailable
  content_failed runtime_error = unavailable

  abbrev executed : Result ExecutorFailure DeliveryResult × Repository → DeliveryResult × Repository
  executed (ok result, r) = (result, r)
  executed (err failure, r) = (caught failure, r)

  unfoldable pub attempt_content :
      Repository
      → QueuedDelivery
      → Result OutboxError GeneratedContent
      → DeliveryResult × Repository
  unfolding content_failed caught
  attempt_content r delivery (ok c) = executed (deliver delivery.channel_id c r)
  attempt_content r delivery (err e) = (content_failed e, r)

  unfoldable pub attempt : Repository → QueuedDelivery → DeliveryResult × Repository
  unfolding attempt_content content
  attempt r delivery = attempt_content r delivery (content digest r delivery.artifact_id)

  -- The luck of the three parts of `record_result`.
  unfoldable pub deliver_one :
      Repository
      → ℕ
      → Luck × Luck × Luck
      → QueuedDelivery
      → Result OutboxError (Unit {0}) × Repository
  unfolding attempt record_result next_attempt
  deliver_one r now (luck, luck', luck'') delivery =
      let (result, r') = attempt r delivery in
      record_result r' delivery result now (next_attempt now delivery result) luck luck' luck''

  -- The loop; an exception of `record_result` ends it.
  unfoldable pub deliver_all :
      ℕ
      → (QueuedDelivery → Luck × Luck × Luck)
      → List QueuedDelivery
      → Result OutboxError (Unit {0}) × Repository
      → Result OutboxError (Unit {0}) × Repository
  unfolding deliver_one
  deliver_all now luck deliveries (err e, r) = (err e, r)
  deliver_all now luck [] (ok u, r) = (ok u, r)
  deliver_all now luck (delivery ∷ deliveries) (ok u, r) =
      deliver_all now luck deliveries (deliver_one r now (luck delivery) delivery)

  abbrev counted :
      ℕ → Result OutboxError (Unit {0}) × Repository → Result OutboxError ℕ × Repository
  counted n (ok u, r) = (ok n, r)
  counted n (err e, r) = (err e, r)

  unfoldable pub deliver_claimed :
      ℕ
      → (QueuedDelivery → Luck × Luck × Luck)
      → Result OutboxError (List QueuedDelivery) × Repository
      → Result OutboxError ℕ × Repository
  unfolding deliver_all
  deliver_claimed now luck (err e, r) = (err e, r)
  deliver_claimed now luck (ok claims, r) =
      counted (length claims) (deliver_all now luck claims (ok tt, r))

  unfoldable pub deliver_due :
      Repository
      → ℕ
      → ℕ
      → Luck
      → (QueuedDelivery → Luck × Luck × Luck)
      → Result OutboxError ℕ × Repository
  unfolding deliver_claimed claim_due
  deliver_due r now limit luck lucks =
      if limit == 0 || ltb 100 limit
      then (err invalid_argument, r)
      else deliver_claimed now lucks (claim_due r now (now + delivery_lease) limit luck)
