-- ===== src/Datalogger/Outbox/Kept/Calls.antt =====
-- common/mnc/datalogger/outbox_repository.cpp: the calls that keep the payload of an artifact.
use msap1_apu.Prelude.{
  ℕ, ◌-◌, ◌≡◌, refl, sym, ap, ◌∙◌, subst, true, false, not, ◌||◌, List, Option, none, some, Result,
  ok, err, leb, ◌==◌, if_elim, Bool-cases, clash, inl, inr, arith,
}
use msap1_apu.Settings.Texts.{equals, equals_sound}
use msap1_apu.Datalogger.Outbox.{
  Artifact, QueuedDelivery, Repository, OutboxError, Luck, has_id, live, has_name,
}
use msap1_apu.Datalogger.Outbox.Tables.{exists_where, find_where, count_where, find_where-All}
use msap1_apu.Datalogger.Outbox.Results.{
  DeliveryResult, recorded, record_result, finalize_completed, finalize_found, release_payload,
  drop_payload, all_succeeded, delete_artifacts, is_prunable, prune_before, prune_completed, pruned,
  is_open_delivery,
}
use msap1_apu.Datalogger.Outbox.Kept.{
  IsRow, Kept, remove_file-IsKept, update_where-IsKept, delete_where-IsKept, other_id,
}

abbrev pub Called : Type 0 → Type 0
Called T = Result OutboxError T × Repository

-- An identity that is not the artifact's.
abbrev pub IsElsewhere : Artifact → List ℕ → Type 0
IsElsewhere a id = equals id a.artifact_id ≡ false

pub live_id : (id : List ℕ) (b : Artifact) → live id b ≡ true → has_id id b ≡ true
unfolding live
live_id id b e = ground arith

module _ (a : Artifact) (payload : List ℕ) (there : a.payload_present ≡ true)
    (alive : a.delete_pending ≡ false) where
  abbrev Keeps : {T : Type 0} → Called T → Type 0
  Keeps x = Kept a payload x.1

  -- Releasing the payload of another artifact.
  release_payload-Kept :
      (r : Repository) (id : List ℕ) (b : Artifact) (luck : Luck)
      → equals id a.artifact_id ≡ false
      → equals b.filename a.filename ≡ false
      → Kept a payload r
      → Keeps (release_payload r id b luck)
  unfolding release_payload drop_payload
  release_payload-Kept r id b luck h n kept =
      let removed = remove_file-IsKept a payload false b.filename r.artifacts r.files n kept in
      if_elim (Keeps {T = Unit}) (not luck.removes) (λ _. kept)
        (λ _.
          if_elim (Keeps {T = Unit}) (not luck.updates) (λ _. removed)
            (λ _.
              update_where-IsKept a payload id (drop_payload id) r.artifacts _ h (λ b. refl)
                (λ b. refl) removed))

  finalize_found-Kept :
      (r : Repository) (id : List ℕ) (luck : Luck) (found : Option Artifact)
      → ((b : Artifact) → found ≡ some b → IsRow a payload b × (live id b ≡ true))
      → (equals id a.artifact_id ≡ true → all_succeeded id r.deliveries ≡ false)
      → Kept a payload r
      → Keeps (finalize_found r id luck found)
  unfolding finalize_found
  finalize_found-Kept r id luck none row unsent kept = kept
  finalize_found-Kept r id luck (some b) row unsent kept =
      if_elim (Keeps {T = Unit})
        (b.local_only || (not b.payload_present || not (all_succeeded id r.deliveries))) (λ _. kept)
        (λ sent. elim (Bool-cases (equals id a.artifact_id)) [
          | inl mine ↦ clash (all_succeeded id r.deliveries) (ground arith) (unsent mine)
          | inr other ↦
              (let (is_row, is_live) = row b refl in
                release_payload-Kept r id b luck other
                  (unfold has_name in
                    is_row.1 (other_id a payload id b other (live_id id b is_live)))
                  kept)
        ])

  pub finalize_completed-Kept :
      (r : Repository) (id : List ℕ) (luck : Luck)
      → (equals id a.artifact_id ≡ true → all_succeeded id r.deliveries ≡ false)
      → Kept a payload r
      → Keeps (finalize_completed r id luck)
  unfolding finalize_completed
  finalize_completed-Kept r id luck unsent kept =
      finalize_found-Kept r id luck (find_where (live id) r.artifacts)
        (find_where-All (IsRow a payload) (live id) r.artifacts kept.rows) unsent kept

  pub prune_completed-Kept :
      (r : Repository) (now : ℕ) (luck : Luck)
      → Kept a payload r
      → Keeps (prune_completed r now luck)
  unfolding prune_completed prune_before delete_artifacts is_prunable
  prune_completed-Kept r now luck kept =
      let cutoff = now - r.policy.completed_metadata_retention in
      if_elim (Keeps {T = Unit}) (leb now r.policy.completed_metadata_retention) (λ _. kept)
        (λ _.
          if_elim (Keeps {T = Unit}) (not (exists_where (is_prunable r cutoff) r.artifacts))
            (λ _. kept)
            (λ _.
              if_elim (Keeps {T = Unit}) luck.commits
                (λ _.
                  delete_where-IsKept a payload (is_prunable r cutoff) r.artifacts r.files
                    (λ b mine same.
                      let e : b.payload_present ≡ true =
                        ap (λ (c : Artifact). c.payload_present) same ∙ there in
                      ground arith)
                    kept)
                (λ _. kept)))

  pruned-Kept : (now : ℕ) (luck : Luck) (x : Called Unit) → Keeps x → Keeps (pruned now luck x)
  unfolding pruned
  pruned-Kept now luck (err e, r) kept = kept
  pruned-Kept now luck (ok u, r) kept = prune_completed-Kept r now luck kept

  pub record_result-Kept :
      (r : Repository) (delivery : QueuedDelivery) (result : DeliveryResult) (at next : ℕ)
      (luck luck' luck'' : Luck)
      → all_succeeded a.artifact_id (recorded delivery result at next r).deliveries ≡ false
      → Kept a payload r
      → Keeps (record_result r delivery result at next luck luck' luck'')
  unfolding record_result recorded
  record_result-Kept r delivery result at next luck luck' luck'' unsent kept =
      if_elim (Keeps {T = Unit})
        (not (
            count_where (is_open_delivery delivery.artifact_id delivery.channel_id) r.deliveries
            == 1)
          || not luck.commits)
        (λ _. kept)
        (λ _.
          pruned-Kept at luck''
            (finalize_completed (recorded delivery result at next r) delivery.artifact_id luck')
            (finalize_completed-Kept (recorded delivery result at next r) delivery.artifact_id luck'
              (λ mine.
                subst
                  (λ id. all_succeeded id (recorded delivery result at next r).deliveries ≡ false)
                  (sym (equals_sound delivery.artifact_id a.artifact_id mine)) unsent)
              kept))
