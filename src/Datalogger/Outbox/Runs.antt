-- ===== src/Datalogger/Outbox/Runs.antt =====
-- common/mnc/datalogger/outbox_repository.cpp: the calls that change the outbox, in any order, each
-- under its mutex; and a start of the process, which may follow any of them.
use msap1_apu.Prelude.{ℕ, Bool, List, [], ◌∷◌}
use msap1_apu.Datalogger.Outbox.{
  QueuedDelivery, WatermarkRow, OutboxStoragePolicy, Repository, Luck,
}
use msap1_apu.Datalogger.Outbox.Claims.{claim_due, retry, retry_channel}
use msap1_apu.Datalogger.Outbox.Payloads.{
  GeneratedDataset, GeneratedContent, enqueue, store_watermark, update_storage_policy,
}
use msap1_apu.Datalogger.Outbox.Results.{DeliveryResult, record_result, prune_completed}
use msap1_apu.Datalogger.Outbox.Removal.{erase}
use msap1_apu.Datalogger.Outbox.Recovery.{initialize}

pub data Event : Type 0 where
  enqueued : GeneratedDataset → GeneratedContent → List (List ℕ) → Bool → ℕ → Luck → Event
  claimed : ℕ → ℕ → ℕ → Luck → Event
  resulted : QueuedDelivery → DeliveryResult → ℕ → ℕ → Luck → Luck → Luck → Event
  requeued : List (List ℕ) → ℕ → Luck → Event
  channel_requeued : List ℕ → ℕ → Luck → Event
  erased : List (List ℕ) → Bool → ℕ → Luck → Luck → ℕ → Event
  pruned_at : ℕ → Luck → Event
  watermarked : WatermarkRow → Luck → Event
  policy_updated : OutboxStoragePolicy → Event
  started : Luck → Luck → Event

module _ (digest : List ℕ → List ℕ) where
  unfoldable pub step : Event → Repository → Repository
  unfolding enqueue claim_due record_result retry retry_channel erase prune_completed
      store_watermark update_storage_policy initialize
  step (enqueued d c channels local available luck) r =
      (enqueue digest r d c channels local available luck).1
  step (claimed now until limit luck) r = (claim_due r now until limit luck).1
  step (resulted delivery result at next luck luck' luck'') r =
      (record_result r delivery result at next luck luck' luck'').1
  step (requeued ids now luck) r = (retry r ids now luck).1
  step (channel_requeued channel now luck) r = (retry_channel r channel now luck).1
  step (erased ids discard now luck luck' removals) r =
      (erase r ids discard now luck luck' removals).1
  step (pruned_at now luck) r = (prune_completed r now luck).1
  step (watermarked w luck) r = (store_watermark r w luck).1
  step (policy_updated policy) r = (update_storage_policy r policy).1
  step (started luck luck') r = (initialize digest r luck luck').1

  unfoldable pub run : List Event → Repository → Repository
  run [] r = r
  run (e ∷ es) r = run es (step e r)
