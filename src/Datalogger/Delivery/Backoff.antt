-- ===== src/Datalogger/Delivery/Backoff.antt =====
-- common/mnc/datalogger/scheduler.cpp: a delivery that failed waits before it is tried again.
use msap1_apu.Prelude.{
  ℕ, ◌+◌, ◌≤◌, ◌<◌, ◌≡◌, refl, sym, ◌∙◌, true, false, List, ◌∷◌, ok, All, clash, ◌⊎◌, inl, inr,
  arith, ◌%◌, ◌^◌, ◌++◌,
}
use msap1_apu.Settings.Texts.{equals}
use msap1_apu.Datalogger.Retry.{retry_delay_bounds}
use msap1_apu.Datalogger.Outbox.{
  DeliveryState, pending, retry_wait, blocked, succeeded, administratively_discarded, in_flight,
  same_state, is_final, QueuedDelivery, Repository, OutboxError, Luck, is_delivery,
}
use msap1_apu.Datalogger.Outbox.Tables.{weaken_each}
use msap1_apu.Datalogger.Outbox.Claims.{is_due, claim_due}
use msap1_apu.Datalogger.Outbox.Results.{
  DeliveryResult, retryable, next_state, attempted, record_result,
}
use msap1_apu.Datalogger.Outbox.Removal.{discard}
use msap1_apu.Datalogger.Outbox.Recovery.{block}
use msap1_apu.Datalogger.Outbox.Runs.{
  Event, enqueued, claimed, resulted, requeued, channel_requeued, erased, pruned_at, watermarked,
  policy_updated, started, run,
}
use msap1_apu.Datalogger.Outbox.Locks.{IsOther, NotDue, is_delivery_trans, claim_due-Other}
use msap1_apu.Datalogger.Outbox.Locks.Calls.{record_result-Holds}
use msap1_apu.Datalogger.Outbox.Locks.Starts.{Admits, run-Holds}
use msap1_apu.Datalogger.Outbox.Locks.Delivered.{final-ne-due, open_not_final}
use msap1_apu.Datalogger.Delivery.{Executor, attempt, deliver_one, next_attempt, is_retryable}

-- Results are of other deliveries, nobody asks for a retry, and no artifact of the identity is
-- enqueued anew.
abbrev pub Waits : List ℕ → List ℕ → Event → Type 0
Waits id channel (enqueued d c channels local available luck) = equals d.artifact_id id ≡ false
Waits id channel (claimed now until limit luck) = Unit
Waits id channel (resulted delivery result at next luck luck' luck'') = IsOther id channel delivery
Waits id channel (requeued ids now luck) = ⊥
Waits id channel (channel_requeued name now luck) = ⊥
Waits id channel (erased ids confirmed now luck luck' removals) = Unit
Waits id channel (pruned_at now luck) = Unit
Waits id channel (watermarked w luck) = Unit
Waits id channel (policy_updated policy) = Unit
Waits id channel (started luck luck') = Unit

-- Claims come before a time.
abbrev pub Before : ℕ → Event → Type 0
Before until (claimed now later limit luck) = now < until
Before until (enqueued d c channels local available luck) = Unit
Before until (resulted delivery result at next luck luck' luck'') = Unit
Before until (requeued ids now luck) = Unit
Before until (channel_requeued name now luck) = Unit
Before until (erased ids confirmed now luck luck' removals) = Unit
Before until (pruned_at now luck) = Unit
Before until (watermarked w luck) = Unit
Before until (policy_updated policy) = Unit
Before until (started luck luck') = Unit

blocked-ne-due : (s : DeliveryState) → is_due s ≡ true → same_state s blocked ≡ true → ⊥
unfolding same_state
blocked-ne-due blocked due e = cc
blocked-ne-due succeeded due e = cc
blocked-ne-due administratively_discarded due e = cc
blocked-ne-due pending due e = cc
blocked-ne-due retry_wait due e = cc
blocked-ne-due in_flight due e = cc

module _ (until : ℕ) where
  -- The lock of a delivery that waits: it has ended, is blocked, or waits until then.
  abbrev IsWaiting : QueuedDelivery → Type 0
  IsWaiting d =
      (is_final d.state ≡ true) ⊎ (same_state d.state blocked ≡ true) ⊎ (until ≤ d.next_attempt)

  IsWaiting-NotDue : (id channel : List ℕ) (now : ℕ) → now < until → NotDue id channel IsWaiting now
  IsWaiting-NotDue id channel now h d due le (inl f) = final-ne-due d.state due f
  IsWaiting-NotDue id channel now h d due le (inr (inl b)) = blocked-ne-due d.state due b
  IsWaiting-NotDue id channel now h d due le (inr (inr later)) = absurd (ground arith)

  Waits-Admits :
      (id channel : List ℕ) (e : Event)
      → Waits id channel e × Before until e
      → Admits id channel IsWaiting e
  Waits-Admits id channel (enqueued d c channels local available luck) h = h.0
  Waits-Admits id channel (claimed now later limit luck) h = IsWaiting-NotDue id channel now h.1
  Waits-Admits id channel (resulted delivery result at next luck luck' luck'') h =
      λ d open_row mine held.
        let theirs : is_delivery delivery.artifact_id delivery.channel_id d ≡ true =
          (open_not_final delivery.artifact_id delivery.channel_id d open_row).0 in
        clash (is_delivery id channel delivery)
          (sym (is_delivery_trans id channel delivery d theirs) ∙ mine) h.0
  Waits-Admits id channel (requeued ids now luck) h = absurd h.0
  Waits-Admits id channel (channel_requeued name now luck) h = absurd h.0
  Waits-Admits id channel (erased ids confirmed now luck luck' removals) h =
      unfold discard in λ d f held. inl refl
  Waits-Admits id channel (pruned_at now luck) h = tt
  Waits-Admits id channel (watermarked w luck) h = tt
  Waits-Admits id channel (policy_updated policy) h = tt
  Waits-Admits id channel (started luck luck') h =
      unfold block same_state in λ text d f held. inr (inl refl)

attempted-IsWaiting :
    (result : DeliveryResult) (at next : ℕ) (d : QueuedDelivery)
    → result.disposition ≡ retryable
    → IsWaiting next (attempted result at next d)
unfolding attempted next_state same_state
attempted-IsWaiting result at next d failed = rw failed (inr (inr (omega arith)))

next_attempt_bounds :
    (now : ℕ) (delivery : QueuedDelivery) (result : DeliveryResult)
    → result.disposition ≡ retryable
    → (now + 5_000_000_000 ≤ next_attempt now delivery result)
      × (next_attempt now delivery result ≤ now + 3_600_000_000_000)
unfolding next_attempt is_retryable
next_attempt_bounds now delivery result failed =
    let bounds =
      retry_delay_bounds ((delivery.attempt_count + 1) % 2 ^ 32)
        (delivery.artifact_id ++ (58 ∷ delivery.channel_id)) in
    rw failed (omega arith, omega arith)

-- A delivery whose attempt failed for the time being is not claimed again before its next attempt,
-- which is at least 5 seconds and at most an hour later: not after any calls and starts in which
-- results are of other deliveries, nobody asks for a retry and its artifact is not enqueued anew.
pub failed_attempt_delayed :
    (digest : List ℕ → List ℕ) (message : OutboxError → List ℕ) (deliver : Executor)
    (r : Repository) (now : ℕ) (luck luck' luck'' : Luck) (delivery : QueuedDelivery)
    (es : List Event) (now' until limit : ℕ) (luck₁ : Luck) (claims : List QueuedDelivery)
    → (attempt digest message deliver r delivery).0.disposition ≡ retryable
    → (deliver_one digest message deliver r now (luck, luck', luck'') delivery).0 ≡ ok tt
    → let next = next_attempt now delivery (attempt digest message deliver r delivery).0 in
      All (λ e. Waits delivery.artifact_id delivery.channel_id e × Before next e) es
      → now' < next
      → (claim_due
          (run digest es
            (deliver_one digest message deliver r now (luck, luck', luck'') delivery).1)
          now'
          until
          limit
          luck₁).0
        ≡ ok claims
      → (now + 5_000_000_000 ≤ next)
        × (next ≤ now + 3_600_000_000_000)
        × All (IsOther delivery.artifact_id delivery.channel_id) claims
unfolding deliver_one
failed_attempt_delayed digest message deliver r now luck luck' luck'' delivery es now' until limit
      luck₁ claims failed e waits early claim =
    let id = delivery.artifact_id in
    let channel = delivery.channel_id in
    let (result, r') = attempt digest message deliver r delivery in
    let next = next_attempt now delivery result in
    let after = (record_result r' delivery result now next luck luck' luck'').1 in
    let bounds = next_attempt_bounds now delivery result failed in
    (
      bounds.0,
      bounds.1,
      claim_due-Other id channel (IsWaiting next) (run digest es after) now' until limit luck₁
          claims (IsWaiting-NotDue next id channel now' early)
          (run-Holds id channel (IsWaiting next) digest es after
            (weaken_each (λ e. Waits id channel e × Before next e)
              (Admits id channel (IsWaiting next)) (Waits-Admits next id channel) es waits)
            (record_result-Holds (IsWaiting next) r' delivery result now next luck luck' luck''
              (λ d. attempted-IsWaiting result now next d failed) (λ d f. inl f) e))
          claim,
    )
