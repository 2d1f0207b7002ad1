-- ===== src/Datalogger/Outbox/Locks/Leased.antt =====
-- common/mnc/datalogger/outbox_repository.cpp: a delivery that is claimed, until its lease ends.
use msap1_apu.Prelude.{
  ℕ, ◌≤◌, ◌<◌, ◌≡◌, refl, sym, ◌∙◌, subst, true, false, ◌||◌, List, [], ◌∷◌, map, Result, ok, leb,
  All, if_elim, clash, ok-injective, ◌⊎◌, inl, inr, arith,
}
use msap1_apu.Settings.Texts.{equals}
use msap1_apu.Datalogger.Outbox.{
  in_flight, same_state, is_final, QueuedDelivery, Repository, OutboxError, Luck, is_delivery,
}
use msap1_apu.Datalogger.Outbox.Tables.{
  update_where, update_where-All, update_where_each, weaken_each,
}
use msap1_apu.Datalogger.Outbox.Claims.{
  bad_limit, selected, read_row, lease, claim_all, claim_due, is_retried,
}
use msap1_apu.Datalogger.Outbox.Removal.{discard}
use msap1_apu.Datalogger.Outbox.Runs.{
  Event, enqueued, claimed, resulted, requeued, channel_requeued, erased, pruned_at, watermarked,
  policy_updated, started, run,
}
use msap1_apu.Datalogger.Outbox.Locks.{IsOther, Locked, NotDue, is_delivery_trans, claim_due-Other}
use msap1_apu.Datalogger.Outbox.Locks.Calls.{Holds}
use msap1_apu.Datalogger.Outbox.Locks.Starts.{Admits, run-Holds}
use msap1_apu.Datalogger.Outbox.Locks.Delivered.{
  final-ne-due, final-ne-retried, in_flight-ne-retried, blocked-is_retried, open_not_final,
}

abbrev pub Stands : QueuedDelivery → List QueuedDelivery → Type 0
Stands c [] = ⊥
Stands c (x ∷ xs) = (x ≡ c) ⊎ Stands c xs

-- Claims come before the lease ends, results are of other deliveries, no artifact of the identity is
-- enqueued, and the process is not started again.
abbrev pub Within : ℕ → List ℕ → List ℕ → Event → Type 0
Within until id channel (enqueued d c channels local available luck) =
    equals d.artifact_id id ≡ false
Within until id channel (claimed now later limit luck) = now < until
Within until id channel (resulted delivery result at next luck luck' luck'') =
    IsOther id channel delivery
Within until id channel (requeued ids now luck) = Unit
Within until id channel (channel_requeued name now luck) = Unit
Within until id channel (erased ids confirmed now luck luck' removals) = Unit
Within until id channel (pruned_at now luck) = Unit
Within until id channel (watermarked w luck) = Unit
Within until id channel (policy_updated policy) = Unit
Within until id channel (started luck luck') = ⊥

module _ (until : ℕ) where
  -- The lock of a claimed delivery: it has ended, or it is in flight until then.
  abbrev IsLeased : QueuedDelivery → Type 0
  IsLeased d =
      (is_final d.state ≡ true) ⊎ ((same_state d.state in_flight ≡ true) × (until ≤ d.next_attempt))

  not_retried : (d : QueuedDelivery) → IsLeased d → is_retried d.state ≡ true → ⊥
  not_retried d (inl f) r = final-ne-retried d.state r f
  not_retried d (inr (f, later)) r = in_flight-ne-retried d.state r f

  lease-IsLeased : (d : QueuedDelivery) → IsLeased (lease until d)
  unfolding lease same_state
  lease-IsLeased d = inr (refl, omega arith)

  module _ (id channel : List ℕ) where
    IsLeased-NotDue : (now : ℕ) → now < until → NotDue id channel IsLeased now
    IsLeased-NotDue now h d due le (inl f) = final-ne-due d.state due f
    IsLeased-NotDue now h d due le (inr (f, later)) = absurd (ground arith)

    Within-Admits : (e : Event) → Within until id channel e → Admits id channel IsLeased e
    Within-Admits (enqueued d c channels local available luck) h = h
    Within-Admits (claimed now later limit luck) h = IsLeased-NotDue now h
    Within-Admits (resulted delivery result at next luck luck' luck'') h = λ d open_row mine held.
        let theirs : is_delivery delivery.artifact_id delivery.channel_id d ≡ true =
          (open_not_final delivery.artifact_id delivery.channel_id d open_row).0 in
        clash (is_delivery id channel delivery)
          (sym (is_delivery_trans id channel delivery d theirs) ∙ mine) h
    Within-Admits (requeued ids now luck) h = λ d r held. absurd (not_retried d held r)
    Within-Admits (channel_requeued name now luck) h =
        λ d b held. absurd (not_retried d held (blocked-is_retried d.state b))
    Within-Admits (erased ids confirmed now luck luck' removals) h =
        unfold discard in λ d f held. inl refl
    Within-Admits (pruned_at now luck) h = tt
    Within-Admits (watermarked w luck) h = tt
    Within-Admits (policy_updated policy) h = tt
    Within-Admits (started luck luck') h = absurd h

    claim_all-IsLeased :
        (claims rows : List QueuedDelivery)
        → All (Locked id channel IsLeased) rows
        → All (Locked id channel IsLeased) (claim_all until claims rows)
    unfolding claim_all
    claim_all-IsLeased [] rows all = all
    claim_all-IsLeased (c ∷ claims) rows all =
        claim_all-IsLeased claims
          (update_where (is_delivery c.artifact_id c.channel_id) (lease until) rows)
          (update_where-All (Locked id channel IsLeased) (is_delivery c.artifact_id c.channel_id)
            (lease until) (λ d selected held mine. lease-IsLeased d) rows all)

  -- A claim leases each row that it returns.
  claim_all-Stands :
      (claims rows : List QueuedDelivery) (c : QueuedDelivery)
      → Stands c claims
      → All (Locked c.artifact_id c.channel_id IsLeased) (claim_all until claims rows)
  unfolding claim_all
  claim_all-Stands [] rows c h = absurd h
  claim_all-Stands (x ∷ claims) rows c (inr h) =
      claim_all-Stands claims
        (update_where (is_delivery x.artifact_id x.channel_id) (lease until) rows) c h
  claim_all-Stands (x ∷ claims) rows c (inl e) =
      subst
        (λ (y : QueuedDelivery).
          All (Locked y.artifact_id y.channel_id IsLeased) (claim_all until (x ∷ claims) rows))
        e
        (claim_all-IsLeased x.artifact_id x.channel_id claims
          (update_where (is_delivery x.artifact_id x.channel_id) (lease until) rows)
          (update_where_each (Locked x.artifact_id x.channel_id IsLeased)
            (is_delivery x.artifact_id x.channel_id) (lease until)
            (λ d selected mine. lease-IsLeased d)
            (λ d other mine. clash (is_delivery x.artifact_id x.channel_id d) mine other) rows))

claim_due-Holds :
    (r : Repository) (now until limit : ℕ) (luck : Luck) (claims : List QueuedDelivery)
    (c : QueuedDelivery)
    → (claim_due r now until limit luck).0 ≡ ok claims
    → Stands c claims
    → Holds c.artifact_id c.channel_id (IsLeased until) (claim_due r now until limit luck).1
unfolding claim_due
claim_due-Holds r now until limit luck claims c =
    if_elim Claimed (bad_limit limit || leb until now) (λ _ e. cc)
      (λ _.
        if_elim Claimed luck.commits
          (λ _ e h.
            claim_all-Stands until (map (read_row in_flight until) (selected r now limit))
              r.deliveries c (subst (Stands c) (sym (ok-injective e)) h))
          (λ _ e. cc))
  where
    Claimed : Result OutboxError (List QueuedDelivery) × Repository → Type 0
    Claimed x =
        x.0 ≡ ok claims → Stands c claims → Holds c.artifact_id c.channel_id (IsLeased until) x.1

-- A delivery that a claim has returned is not returned by another claim before its lease ends: not
-- after any other claims, results of other deliveries, retries, deletions, prunings and failures,
-- while the process is not started again and no artifact of its identity is enqueued anew.
pub claim_exclusive :
    (digest : List ℕ → List ℕ) (r : Repository) (now until limit : ℕ) (luck : Luck)
    (claims : List QueuedDelivery) (c : QueuedDelivery) (es : List Event) (now' until' limit' : ℕ)
    (luck' : Luck) (claims' : List QueuedDelivery)
    → (claim_due r now until limit luck).0 ≡ ok claims
    → Stands c claims
    → All (Within until c.artifact_id c.channel_id) es
    → now' < until
    → (claim_due (run digest es (claim_due r now until limit luck).1) now' until' limit' luck').0
      ≡ ok claims'
    → All (IsOther c.artifact_id c.channel_id) claims'
claim_exclusive digest r now until limit luck claims c es now' until' limit' luck' claims' e h
      within early =
    let id = c.artifact_id in
    let channel = c.channel_id in
    let r' = (claim_due r now until limit luck).1 in
    claim_due-Other id channel (IsLeased until) (run digest es r') now' until' limit' luck' claims'
      (IsLeased-NotDue until id channel now' early)
      (run-Holds id channel (IsLeased until) digest es r'
        (weaken_each (Within until id channel) (Admits id channel (IsLeased until))
          (Within-Admits until id channel) es within)
        (claim_due-Holds r now until limit luck claims c e h))
