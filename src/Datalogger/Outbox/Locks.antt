-- ===== src/Datalogger/Outbox/Locks.antt =====
-- common/mnc/datalogger/outbox_repository.cpp: what the calls do to the row of one delivery. A lock is
-- a property of the row that no admitted call breaks, and under which the row is not claimed.
pub mod Calls
pub mod Removal
pub mod Additions
pub mod Starts
pub mod Delivered
pub mod Leased
use msap1_apu.Prelude.{
  ℕ, zero, suc, ◌+◌, ◌≡◌, refl, sym, ap, ◌∙◌, subst, Bool, true, false, not, ◌&&◌, ◌||◌, List, [],
  ◌∷◌, ◌++◌, map, Option, none, some, Result, ok, err, leb, ◌==◌, if◌then◌else◌, All, All-append,
  Bool-cases, if_elim, ok-injective, ◌⊎◌, inl, inr, arith, take,
}
use msap1_apu.Settings.Texts.{equals, equals_sound}
use msap1_apu.Datalogger.Outbox.{
  DeliveryState, in_flight, blocked, same_state, is_final, QueuedDelivery, Artifact, Repository,
  OutboxError, Luck, of_artifact, is_delivery,
}
use msap1_apu.Datalogger.Outbox.Tables.{
  update_where, select_where, delete_where, update_where-All, delete_where-All, select_where-All,
  All-take, weaken_each, All-map,
}
use msap1_apu.Datalogger.Outbox.Claims.{
  bad_limit, is_due, due_row, insert_ordered, in_order, comes_before, selected, read_row, lease,
  claim_all, claim_due, is_retried, requeue, retry_rows, retry_loop, retried, retry, retry_channel,
}

-- A key that a row has is the key of each row that the row's key selects.
pub is_delivery_trans :
    (id channel : List ℕ) (c d : QueuedDelivery)
    → is_delivery c.artifact_id c.channel_id d ≡ true
    → is_delivery id channel d ≡ is_delivery id channel c
unfolding is_delivery of_artifact
is_delivery_trans id channel c d e =
    let e0 : equals d.artifact_id c.artifact_id ≡ true = ground arith in
    let e1 : equals d.channel_id c.channel_id ≡ true = ground arith in
    let i : d.artifact_id ≡ c.artifact_id = equals_sound d.artifact_id c.artifact_id e0 in
    let j : d.channel_id ≡ c.channel_id = equals_sound d.channel_id c.channel_id e1 in cc

insert_ordered-All :
    (P : QueuedDelivery → Type 0) (d : QueuedDelivery) (es : List QueuedDelivery)
    → P d
    → All P es
    → All P (insert_ordered d es)
unfolding insert_ordered
insert_ordered-All P d [] p all = (p, tt)
insert_ordered-All P d (e ∷ es) p all = elim (Bool-cases (comes_before e d)) [
  | inl before ↦ rw before (all.0, insert_ordered-All P d es p all.1)
  | inr after ↦ rw after (p, all)
]

in_order-All :
    (P : QueuedDelivery → Type 0) (ds : List QueuedDelivery) → All P ds → All P (in_order ds)
unfolding in_order
in_order-All P [] all = tt
in_order-All P (d ∷ ds) all = insert_ordered-All P d (in_order ds) all.0 (in_order-All P ds all.1)

-- A change of a row that leaves its key alone.
abbrev pub KeepsKey : (QueuedDelivery → QueuedDelivery) → Type 0
KeepsKey change =
    (d : QueuedDelivery)
    → ((change d).artifact_id ≡ d.artifact_id) × ((change d).channel_id ≡ d.channel_id)

is_delivery_kept :
    (id channel : List ℕ) (d e : QueuedDelivery)
    → e.artifact_id ≡ d.artifact_id
    → e.channel_id ≡ d.channel_id
    → is_delivery id channel e ≡ is_delivery id channel d
unfolding is_delivery of_artifact
is_delivery_kept id channel d e i j = cc

due_row_due :
    (r : Repository) (now : ℕ) (d : QueuedDelivery)
    → due_row r now d ≡ true
    → (is_due d.state ≡ true) × (leb d.next_attempt now ≡ true)
unfolding due_row
due_row_due r now d e = (ground arith, ground arith)

-- Rows of other deliveries.
abbrev pub IsOther : List ℕ → List ℕ → QueuedDelivery → Type 0
IsOther id channel d = is_delivery id channel d ≡ false

module _ (id channel : List ℕ) (L : QueuedDelivery → Type 0) where
  abbrev pub Locked : QueuedDelivery → Type 0
  Locked d = is_delivery id channel d ≡ true → L d

  abbrev Other : QueuedDelivery → Type 0
  Other = IsOther id channel

  -- No row under the lock is due.
  abbrev pub NotDue : ℕ → Type 0
  NotDue now =
      (d : QueuedDelivery) → is_due d.state ≡ true → leb d.next_attempt now ≡ true → L d → ⊥

  -- An update keeps the lock where the rows under it that it selects stay under it.
  pub update_where-Locked :
      (test : QueuedDelivery → Bool) (change : QueuedDelivery → QueuedDelivery)
      → KeepsKey change
      → ((d : QueuedDelivery)
          → test d ≡ true
          → is_delivery id channel d ≡ true
          → L d
          → L (change d))
      → (rows : List QueuedDelivery) → All Locked rows
      → All Locked (update_where test change rows)
  update_where-Locked test change same keeps rows all =
      update_where-All Locked test change
        (λ d selected held key.
          let mine : is_delivery id channel d ≡ true =
            sym (is_delivery_kept id channel d (change d) (same d).0 (same d).1) ∙ key in
          keeps d selected mine (held mine))
        rows all

  -- The rows that are selected are not under the lock.
  selected-Other :
      (r : Repository) (now limit : ℕ)
      → NotDue now
      → All Locked r.deliveries
      → All Other (selected r now limit)
  unfolding selected
  selected-Other r now limit h all =
      All-take Other limit (in_order (select_where (due_row r now) r.deliveries)) (
        in_order-All Other (select_where (due_row r now) r.deliveries) (
          weaken_each (λ d. (due_row r now d ≡ true) × Locked d) Other other
            (select_where (due_row r now) r.deliveries)
            (select_where-All Locked (due_row r now) r.deliveries all)))
    where
      other : (d : QueuedDelivery) → (due_row r now d ≡ true) × Locked d → Other d
      other d (due, held) = elim (Bool-cases (is_delivery id channel d)) [
        | inl mine ↦
            absurd (h d (due_row_due r now d due).0 (due_row_due r now d due).1 (held mine))
        | inr e ↦ e
      ]

  claim_all-Locked :
      (until : ℕ) (claimed rows : List QueuedDelivery)
      → All Other claimed
      → All Locked rows
      → All Locked (claim_all until claimed rows)
  unfolding claim_all lease
  claim_all-Locked until [] rows others all = all
  claim_all-Locked until (c ∷ claimed) rows others all =
      claim_all-Locked until claimed
        (update_where (is_delivery c.artifact_id c.channel_id) (lease until) rows) others.1
        (update_where-Locked (is_delivery c.artifact_id c.channel_id) (lease until)
          (λ d. (refl, refl))
          (λ d selected mine held. cc (is_delivery_trans id channel c d selected, others.0)) rows
          all)

  read_row-Other :
      (until : ℕ) (ds : List QueuedDelivery)
      → All Other ds
      → All Other (map (read_row in_flight until) ds)
  unfolding read_row
  read_row-Other until ds all = All-map Other (read_row in_flight until) ds (
      weaken_each Other (λ d. Other (read_row in_flight until d))
        (λ d other. is_delivery_kept id channel d (read_row in_flight until d) refl refl ∙ other) ds
        all)

  -- A claim does not return the delivery, and leaves the lock.
  pub claim_due-Other :
      (r : Repository) (now until limit : ℕ) (luck : Luck) (claimed : List QueuedDelivery)
      → NotDue now
      → All Locked r.deliveries
      → (claim_due r now until limit luck).0 ≡ ok claimed
      → All (IsOther id channel) claimed
  unfolding claim_due
  claim_due-Other r now until limit luck claimed h all =
      if_elim Claimed (bad_limit limit || leb until now) (λ _ e. cc)
        (λ _.
          if_elim Claimed luck.commits
            (λ _ e.
              subst (All Other) (ok-injective e)
                (read_row-Other until (selected r now limit) (selected-Other r now limit h all)))
            (λ _ e. cc))
    where
      Claimed : Result OutboxError (List QueuedDelivery) × Repository → Type 0
      Claimed x = x.0 ≡ ok claimed → All Other claimed

  pub claim_due-Locked :
      (r : Repository) (now until limit : ℕ) (luck : Luck)
      → NotDue now
      → All Locked r.deliveries
      → All Locked (claim_due r now until limit luck).1.deliveries
  unfolding claim_due
  claim_due-Locked r now until limit luck h all =
      if_elim
        (λ (x : Result OutboxError (List QueuedDelivery) × Repository). All Locked x.1.deliveries)
        (bad_limit limit || leb until now) (λ _. all)
        (λ _.
          if_elim
            (λ (x : Result OutboxError (List QueuedDelivery) × Repository).
              All Locked x.1.deliveries)
            luck.commits
            (λ _.
              claim_all-Locked until (map (read_row in_flight until) (selected r now limit))
                r.deliveries
                (read_row-Other until (selected r now limit) (selected-Other r now limit h all))
                all)
            (λ _. all))
