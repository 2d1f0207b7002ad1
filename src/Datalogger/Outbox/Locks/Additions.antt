-- ===== src/Datalogger/Outbox/Locks/Additions.antt =====
-- common/mnc/datalogger/outbox_repository.cpp: `enqueue` of another artifact under a lock.
use msap1_apu.Prelude.{
  ℕ, ◌≡◌, Bool, false, not, ◌&&◌, ◌||◌, List, [], ◌∷◌, map, Option, none, some, Result, ok, err,
  length, All, All-append, if_elim, arith,
}
use msap1_apu.Settings.Texts.{equals}
use msap1_apu.Datalogger.Outbox.{
  QueuedDelivery, Artifact, Repository, OutboxError, Luck, of_artifact, is_delivery, has_id,
  has_name,
}
use msap1_apu.Datalogger.Outbox.Tables.{exists_where, find_where, All-map}
use msap1_apu.Datalogger.Outbox.Payloads.{
  GeneratedDataset, GeneratedContent, enqueue_if, enqueue_checked, store_payload, insert_manifest,
  written, new_delivery, find_file, same_manifest, has_room, present,
}
use msap1_apu.Datalogger.Outbox.Locks.{Locked}
use msap1_apu.Datalogger.Outbox.Locks.Calls.{Called, Holds}

module _ (id channel : List ℕ) (L : QueuedDelivery → Type 0) where
  abbrev Keeps : {T : Type 0} → Called T → Type 0
  Keeps x = Holds id channel L x.1

  -- What `enqueue` does, for another artifact.
  new_delivery-Locked :
      (other : List ℕ) (channels : List (List ℕ))
      → equals other id ≡ false
      → All (Locked id channel L) (map (new_delivery other) channels)
  unfolding new_delivery is_delivery of_artifact
  new_delivery-Locked other channels e =
      All-map (Locked id channel L) (new_delivery other) channels (each channels)
    where
      each :
          (names : List (List ℕ))
          → All (λ name. Locked id channel L (new_delivery other name)) names
      each [] = tt
      each (name ∷ names) = ((λ key. absurd (ground arith)), each names)

  insert_manifest-Locked :
      (r : Repository) (d : GeneratedDataset) (c : GeneratedContent) (channels : List (List ℕ))
      (local commits : Bool)
      → equals d.artifact_id id ≡ false
      → Holds id channel L r
      → Holds id channel L (insert_manifest r d c channels local commits).1
  unfolding insert_manifest written
  insert_manifest-Locked r d c channels local commits e all =
      if_elim (Keeps {T = Unit}) (commits && not (exists_where (has_name c.filename) r.artifacts))
        (λ _.
          All-append (Locked id channel L) (map (new_delivery d.artifact_id) channels) r.deliveries
            (new_delivery-Locked d.artifact_id channels e) all)
        (λ _. all)

  store_payload-Locked :
      (r : Repository) (d : GeneratedDataset) (c : GeneratedContent) (channels : List (List ℕ))
      (local : Bool) (available : ℕ) (luck : Luck)
      → equals d.artifact_id id ≡ false
      → Holds id channel L r
      → Holds id channel L (store_payload r d c channels local available luck).1
  unfolding store_payload written
  store_payload-Locked r d c channels local available luck e all =
      let full =
        not (has_room r available (length c.body))
        || (present (find_file local c.filename r.files) || not luck.updates) in
      if_elim (Keeps {T = Unit}) full (λ _. all)
        (λ _.
          if_elim (Keeps {T = Unit}) (not luck.syncs) (λ _. all)
            (λ _. insert_manifest-Locked r d c channels local luck.commits e all))

  enqueue_checked-Locked :
      (r : Repository) (d : GeneratedDataset) (c : GeneratedContent) (channels : List (List ℕ))
      (local : Bool) (available : ℕ) (luck : Luck) (found : Option Artifact)
      → equals d.artifact_id id ≡ false
      → Holds id channel L r
      → Holds id channel L (enqueue_checked r d c channels local available luck found).1
  unfolding enqueue_checked
  enqueue_checked-Locked r d c channels local available luck none e all =
      store_payload-Locked r d c channels local available luck e all
  enqueue_checked-Locked r d c channels local available luck (some a) e all =
      if_elim (Keeps {T = Unit}) (same_manifest d c a) (λ _. all) (λ _. all)

  pub enqueue_if-Locked :
      (digest : List ℕ → List ℕ) (checked : Result OutboxError Unit) (r : Repository)
      (d : GeneratedDataset) (c : GeneratedContent) (channels : List (List ℕ)) (local : Bool)
      (available : ℕ) (luck : Luck)
      → equals d.artifact_id id ≡ false
      → Holds id channel L r
      → Holds id channel L (enqueue_if digest checked r d c channels local available luck).1
  unfolding enqueue_if
  enqueue_if-Locked digest (err f) r d c channels local available luck e all = all
  enqueue_if-Locked digest (ok u) r d c channels local available luck e all =
      enqueue_checked-Locked r d c channels local available luck
        (find_where (has_id d.artifact_id) r.artifacts) e all
