-- ===== src/Datalogger/Outbox/Locks/Calls.antt =====
-- common/mnc/datalogger/outbox_repository.cpp: every call of the outbox under a lock.
use msap1_apu.Prelude.{
  ℕ, ◌-◌, ◌≡◌, refl, sym, subst, Bool, true, false, not, ◌&&◌, ◌||◌, List, [], ◌∷◌, Option, none,
  some, Result, ok, err, ltb, leb, ◌==◌, length, All, if_elim, ok-injective, arith,
}
use msap1_apu.Settings.Texts.{equals}
use msap1_apu.Datalogger.Outbox.{
  blocked, same_state, is_final, QueuedDelivery, Artifact, Repository, OutboxError, Luck,
  of_artifact, is_delivery, live,
}
use msap1_apu.Datalogger.Outbox.Tables.{
  exists_where, find_where, count_where, delete_where-All, update_where_each,
}
use msap1_apu.Datalogger.Outbox.Claims.{
  safe_identity, is_retried, requeue, retry_rows, retry_loop, retried, retry, retry_channel,
}
use msap1_apu.Datalogger.Outbox.Results.{
  DeliveryResult, attempted, is_open_delivery, recorded, record_result, finalize_completed,
  finalize_found, release_payload, all_succeeded, delete_artifacts, is_prunable, prune_before,
  prune_completed, pruned,
}
use msap1_apu.Datalogger.Outbox.Locks.{Locked, update_where-Locked}

-- The result of a call with the outbox after it.
abbrev pub Called : Type 0 → Type 0
Called T = Result OutboxError T × Repository

-- Releasing a payload leaves the deliveries alone.
release_payload-deliveries :
    (r : Repository) (id : List ℕ) (a : Artifact) (luck : Luck)
    → (release_payload r id a luck).1.deliveries ≡ r.deliveries
unfolding release_payload
release_payload-deliveries r id a luck =
    if_elim (λ (x : Called Unit). x.1.deliveries ≡ r.deliveries) (not luck.removes) (λ _. refl)
      (λ _.
        if_elim (λ (x : Called Unit). x.1.deliveries ≡ r.deliveries) (not luck.updates) (λ _. refl)
          (λ _. refl))

finalize_found-deliveries :
    (r : Repository) (id : List ℕ) (luck : Luck) (found : Option Artifact)
    → (finalize_found r id luck found).1.deliveries ≡ r.deliveries
unfolding finalize_found
finalize_found-deliveries r id luck none = refl
finalize_found-deliveries r id luck (some a) =
    if_elim (λ (x : Called Unit). x.1.deliveries ≡ r.deliveries)
      (a.local_only || (not a.payload_present || not (all_succeeded id r.deliveries))) (λ _. refl)
      (λ _. release_payload-deliveries r id a luck)

pub finalize_completed-deliveries :
    (r : Repository) (id : List ℕ) (luck : Luck)
    → (finalize_completed r id luck).1.deliveries ≡ r.deliveries
unfolding finalize_completed
finalize_completed-deliveries r id luck =
    finalize_found-deliveries r id luck (find_where (live id) r.artifacts)

module _ (id channel : List ℕ) (L : QueuedDelivery → Type 0) where
  abbrev pub Holds : Repository → Type 0
  Holds r = All (Locked id channel L) r.deliveries

  abbrev Keeps : {T : Type 0} → Called T → Type 0
  Keeps x = Holds x.1

  retry_loop-Locked :
      (artifacts : List Artifact) (ids : List (List ℕ)) (now : ℕ) (rows : List QueuedDelivery)
      → ((d : QueuedDelivery) → is_retried d.state ≡ true → L d → L (requeue now d))
      → All (Locked id channel L) rows
      → (rows' : List QueuedDelivery) → retry_loop artifacts ids now rows ≡ ok rows'
      → All (Locked id channel L) rows'
  unfolding retry_loop retry_rows
  retry_loop-Locked artifacts [] now rows h all rows' =
      λ e. subst (All (Locked id channel L)) (ok-injective e) all
  retry_loop-Locked artifacts (one ∷ ids) now rows h all rows' =
      if_elim (λ m. m ≡ ok rows' → All (Locked id channel L) rows')
        (exists_where (live one) artifacts)
        (λ _.
          retry_loop-Locked artifacts ids now (retry_rows one now rows) h
            (update_where-Locked id channel L (λ d. of_artifact one d && is_retried d.state)
              (requeue now) (λ d. (refl, refl)) (λ d selected mine held. h d (ground arith) held)
              rows all)
            rows')
        (λ _ e. cc)

  pub retry-Locked :
      (r : Repository) (ids : List (List ℕ)) (now : ℕ) (luck : Luck)
      → ((d : QueuedDelivery) → is_retried d.state ≡ true → L d → L (requeue now d))
      → Holds r
      → Holds (retry r ids now luck).1
  unfolding retry retried
  retry-Locked r ids now luck h all =
      if_elim (Keeps {T = Unit}) (length ids == 0 || ltb 500 (length ids)) (λ _. all)
        (λ _.
          done luck.commits (retry_loop r.artifacts ids now r.deliveries)
            (retry_loop-Locked r.artifacts ids now r.deliveries h all))
    where
      done :
          (commits : Bool) (m : Result OutboxError (List QueuedDelivery))
          → ((rows : List QueuedDelivery) → m ≡ ok rows → All (Locked id channel L) rows)
          → Holds (retried r commits m).1
      done commits (err e) k = all
      done true (ok rows) k = k rows refl
      done false (ok rows) k = all

  pub retry_channel-Locked :
      (r : Repository) (name : List ℕ) (now : ℕ) (luck : Luck)
      → ((d : QueuedDelivery) → same_state d.state blocked ≡ true → L d → L (requeue now d))
      → Holds r
      → Holds (retry_channel r name now luck).1
  unfolding retry_channel
  retry_channel-Locked r name now luck h all =
      if_elim (Keeps {T = Unit}) (not (safe_identity name)) (λ _. all)
        (λ _.
          if_elim (Keeps {T = Unit}) luck.commits
            (λ _.
              update_where-Locked id channel L
                (λ d. equals d.channel_id name && same_state d.state blocked) (requeue now)
                (λ d. (refl, refl)) (λ d selected mine held. h d (ground arith) held) r.deliveries
                all)
            (λ _. all))

  pub delete_artifacts-Locked :
      (test : Artifact → Bool) (r : Repository) → Holds r → Holds (delete_artifacts test r)
  unfolding delete_artifacts
  delete_artifacts-Locked test r all = delete_where-All (Locked id channel L) _ r.deliveries all

  pub prune_completed-Locked :
      (r : Repository) (now : ℕ) (luck : Luck) → Holds r → Holds (prune_completed r now luck).1
  unfolding prune_completed prune_before
  prune_completed-Locked r now luck all =
      let cutoff = now - r.policy.completed_metadata_retention in
      if_elim (Keeps {T = Unit}) (leb now r.policy.completed_metadata_retention) (λ _. all)
        (λ _.
          if_elim (Keeps {T = Unit}) (not (exists_where (is_prunable r cutoff) r.artifacts))
            (λ _. all)
            (λ _.
              if_elim (Keeps {T = Unit}) luck.commits
                (λ _. delete_artifacts-Locked (is_prunable r cutoff) r all) (λ _. all)))

  pub pruned-Locked :
      (now : ℕ) (luck : Luck) (x : Called Unit) → Holds x.1 → Holds (pruned now luck x).1
  unfolding pruned
  pruned-Locked now luck (err e, r) all = all
  pruned-Locked now luck (ok u, r) all = prune_completed-Locked r now luck all

  pub record_result-Locked :
      (r : Repository) (delivery : QueuedDelivery) (result : DeliveryResult) (at next : ℕ)
      (luck luck' luck'' : Luck)
      → ((d : QueuedDelivery)
          → is_open_delivery delivery.artifact_id delivery.channel_id d ≡ true
          → is_delivery id channel d ≡ true
          → L d
          → L (attempted result at next d))
      → Holds r
      → Holds (record_result r delivery result at next luck luck' luck'').1
  unfolding record_result recorded attempted
  record_result-Locked r delivery result at next luck luck' luck'' h all =
      if_elim (Keeps {T = Unit}) _ (λ _. all)
        (λ _.
          pruned-Locked at luck''
            (finalize_completed (recorded delivery result at next r) delivery.artifact_id luck')
            (subst (All (Locked id channel L))
              (sym (
                finalize_completed-deliveries (recorded delivery result at next r)
                  delivery.artifact_id luck'))
              (update_where-Locked id channel L
                (is_open_delivery delivery.artifact_id delivery.channel_id)
                (attempted result at next) (λ d. (refl, refl)) h r.deliveries all)))

-- A recorded result puts all rows of the delivery under a lock that the attempted rows and the ended
-- rows are under.
pub record_result-Holds :
    (L : QueuedDelivery → Type 0) (r : Repository) (delivery : QueuedDelivery)
    (result : DeliveryResult) (at next : ℕ) (luck luck' luck'' : Luck)
    → ((d : QueuedDelivery) → L (attempted result at next d))
    → ((d : QueuedDelivery) → is_final d.state ≡ true → L d)
    → (record_result r delivery result at next luck luck' luck'').0 ≡ ok tt
    → Holds delivery.artifact_id delivery.channel_id L
        (record_result r delivery result at next luck luck' luck'').1
unfolding record_result recorded is_open_delivery
record_result-Holds L r delivery result at next luck luck' luck'' fresh ended =
    if_elim Recorded
      (not (
          count_where (is_open_delivery delivery.artifact_id delivery.channel_id) r.deliveries == 1)
        || not luck.commits)
      (λ _ e. cc)
      (λ _ e.
        pruned-Locked delivery.artifact_id delivery.channel_id L at luck''
          (finalize_completed (recorded delivery result at next r) delivery.artifact_id luck')
          (subst (All (Locked delivery.artifact_id delivery.channel_id L))
            (sym (
              finalize_completed-deliveries (recorded delivery result at next r)
                delivery.artifact_id luck'))
            (update_where_each (Locked delivery.artifact_id delivery.channel_id L)
              (is_open_delivery delivery.artifact_id delivery.channel_id) (attempted result at next)
              (λ d open_row mine. fresh d) (λ d closed mine. ended d (ground arith)) r.deliveries)))
  where
    Recorded : Called Unit → Type 0
    Recorded x = x.0 ≡ ok tt → Holds delivery.artifact_id delivery.channel_id L x.1
