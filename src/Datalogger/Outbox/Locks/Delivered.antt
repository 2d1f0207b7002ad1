-- ===== src/Datalogger/Outbox/Locks/Delivered.antt =====
-- common/mnc/datalogger/outbox_repository.cpp: a delivery that has succeeded, and one that is claimed.
use msap1_apu.Prelude.{ℕ, ◌≡◌, refl, true, false, List, ok, All, clash, arith}
use msap1_apu.Settings.Texts.{equals}
use msap1_apu.Datalogger.Outbox.{
  DeliveryState, pending, retry_wait, blocked, succeeded, administratively_discarded, in_flight,
  same_state, is_final, QueuedDelivery, Repository, Luck, is_delivery,
}
use msap1_apu.Datalogger.Outbox.Tables.{weaken_each}
use msap1_apu.Datalogger.Outbox.Claims.{is_due, claim_due, is_retried}
use msap1_apu.Datalogger.Outbox.Results.{
  DeliveryResult, delivered, next_state, attempted, is_open_delivery, record_result,
}
use msap1_apu.Datalogger.Outbox.Runs.{
  Event, enqueued, claimed, resulted, requeued, channel_requeued, erased, pruned_at, watermarked,
  policy_updated, started, run,
}
use msap1_apu.Datalogger.Outbox.Locks.{NotDue, IsOther, claim_due-Other}
use msap1_apu.Datalogger.Outbox.Locks.Calls.{record_result-Holds}
use msap1_apu.Datalogger.Outbox.Locks.Starts.{Admits, run-Holds}

pub final-ne-due : (s : DeliveryState) → is_due s ≡ true → is_final s ≡ true → ⊥
unfolding same_state
final-ne-due succeeded due e = cc
final-ne-due administratively_discarded due e = cc
final-ne-due pending due e = cc
final-ne-due retry_wait due e = cc
final-ne-due blocked due e = cc
final-ne-due in_flight due e = cc

pub final-ne-retried : (s : DeliveryState) → is_retried s ≡ true → is_final s ≡ true → ⊥
unfolding same_state is_retried
final-ne-retried succeeded r e = cc
final-ne-retried administratively_discarded r e = cc
final-ne-retried pending r e = cc
final-ne-retried retry_wait r e = cc
final-ne-retried blocked r e = cc
final-ne-retried in_flight r e = cc

pub in_flight-ne-retried :
    (s : DeliveryState) → is_retried s ≡ true → same_state s in_flight ≡ true → ⊥
unfolding same_state is_retried
in_flight-ne-retried in_flight r e = cc
in_flight-ne-retried succeeded r e = cc
in_flight-ne-retried administratively_discarded r e = cc
in_flight-ne-retried pending r e = cc
in_flight-ne-retried retry_wait r e = cc
in_flight-ne-retried blocked r e = cc

pub blocked-is_retried : (s : DeliveryState) → same_state s blocked ≡ true → is_retried s ≡ true
unfolding is_retried
blocked-is_retried s e = ground arith

pub open_not_final :
    (id channel : List ℕ) (d : QueuedDelivery)
    → is_open_delivery id channel d ≡ true
    → (is_delivery id channel d ≡ true) × (is_final d.state ≡ false)
unfolding is_open_delivery
open_not_final id channel d e = (ground arith, ground arith)

-- The lock of a delivery that has ended.
abbrev IsFinal : QueuedDelivery → Type 0
IsFinal d = is_final d.state ≡ true

-- No artifact of the identity is enqueued.
abbrev pub Spares : List ℕ → Event → Type 0
Spares id (enqueued d c channels local available luck) = equals d.artifact_id id ≡ false
Spares id (claimed now until limit luck) = Unit
Spares id (resulted delivery result at next luck luck' luck'') = Unit
Spares id (requeued ids now luck) = Unit
Spares id (channel_requeued name now luck) = Unit
Spares id (erased ids confirmed now luck luck' removals) = Unit
Spares id (pruned_at now luck) = Unit
Spares id (watermarked w luck) = Unit
Spares id (policy_updated policy) = Unit
Spares id (started luck luck') = Unit

module _ (id channel : List ℕ) where
  IsFinal-NotDue : (now : ℕ) → NotDue id channel IsFinal now
  IsFinal-NotDue now d due le e = final-ne-due d.state due e

  Spares-Admits : (e : Event) → Spares id e → Admits id channel IsFinal e
  Spares-Admits (enqueued d c channels local available luck) h = h
  Spares-Admits (claimed now until limit luck) h = IsFinal-NotDue now
  Spares-Admits (resulted delivery result at next luck luck' luck'') h = λ d open_row mine e.
      clash (is_final d.state) e
        (open_not_final delivery.artifact_id delivery.channel_id d open_row).1
  Spares-Admits (requeued ids now luck) h = λ d r e. absurd (final-ne-retried d.state r e)
  Spares-Admits (channel_requeued name now luck) h =
      λ d b e. absurd (final-ne-retried d.state (blocked-is_retried d.state b) e)
  Spares-Admits (erased ids confirmed now luck luck' removals) h =
      λ d f e. clash (is_final d.state) e f
  Spares-Admits (pruned_at now luck) h = tt
  Spares-Admits (watermarked w luck) h = tt
  Spares-Admits (policy_updated policy) h = tt
  Spares-Admits (started luck luck') h = λ text d f e. clash (is_final d.state) e f

attempted-IsFinal :
    (result : DeliveryResult) (at next : ℕ) (d : QueuedDelivery)
    → result.disposition ≡ delivered
    → IsFinal (attempted result at next d)
unfolding attempted next_state
attempted-IsFinal result at next d success = rw success refl

-- A delivery whose success was recorded is never claimed again: not after any calls, in any order,
-- with any failures and any starts of the process between, while no artifact of its identity is
-- enqueued anew.
pub delivered_once :
    (digest : List ℕ → List ℕ) (r : Repository) (delivery : QueuedDelivery)
    (result : DeliveryResult) (at next : ℕ) (luck luck' luck'' : Luck) (es : List Event)
    (now until limit : ℕ) (luck₁ : Luck) (claims : List QueuedDelivery)
    → result.disposition ≡ delivered
    → (record_result r delivery result at next luck luck' luck'').0 ≡ ok tt
    → All (Spares delivery.artifact_id) es
    → (claim_due
        (run digest es (record_result r delivery result at next luck luck' luck'').1)
        now
        until
        limit
        luck₁).0
      ≡ ok claims
    → All (IsOther delivery.artifact_id delivery.channel_id) claims
delivered_once digest r delivery result at next luck luck' luck'' es now until limit luck₁ claims
      success e spared =
    let id = delivery.artifact_id in
    let channel = delivery.channel_id in
    let r' = (record_result r delivery result at next luck luck' luck'').1 in
    claim_due-Other id channel IsFinal (run digest es r') now until limit luck₁ claims
      (IsFinal-NotDue id channel now)
      (run-Holds id channel IsFinal digest es r'
        (weaken_each (Spares id) (Admits id channel IsFinal) (Spares-Admits id channel) es spared)
        (record_result-Holds IsFinal r delivery result at next luck luck' luck''
          (λ d. attempted-IsFinal result at next d success) (λ d f. f) e))
