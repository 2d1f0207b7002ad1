-- ===== src/Energy/Ledger/Runs/Reset.antt =====
-- What a call of `reset_energy` that returns has done.
use msap1_apu.Prelude.{
  ℕ, ◌+◌, ◌%◌, ◌^◌, ◌<◌, ◌≡◌, refl, sym, ap, ◌∙◌, subst, ◌⊎◌, inl, inr, Bool, true, false, ◌==◌,
  if◌then◌else◌, List, ◌∷◌, Option, none, some, ok, ◌>>◌, ensure, ok-injective, >>=-eq-ok,
  replicate, ==_iff,
}
use msap1_apu.Prelude.Integers.{pos}
use msap1_apu.Energy.Values.{EnergyValues, assign_energy_counters, energy_counter_count}
use msap1_apu.Energy.Columns.{Failure, epoch_conflict}
use msap1_apu.Energy.Rows.{EnergyState}
use msap1_apu.Settings.Texts.{equals, equals_refl, equals_sound}
use msap1_apu.Energy.Ledger.{
  find_reset, commit_reset, audited, replay_or_reset, new_reset, validate_reset, Ledger, ResetAudit,
  ResetRequest, ResetResult, store, reset_energy,
}
use msap1_apu.Energy.Ledger.Runs.{stored, store_inv}

split :
    {A : Type 0} (P : Option A → Type 0) → P none → ((a : A) → P (some a)) → (o : Option A) → P o
split P n s none = n
split P n s (some a) = s a

ensured : (test : Bool) (f : Failure) (u : Unit {0}) → ensure test f ≡ ok u → test ≡ true
ensured true f u e = refl
ensured false f u e = cc

module _ (l : Ledger) (request : ResetRequest) where
  abbrev pub next_epoch : ℕ
  next_epoch = (l.energy_state.epoch + 1) % 2 ^ 64

  abbrev pub reset_state : EnergyState
  reset_state = record l.energy_state {
    epoch = next_epoch;
    lifetime_counters = replicate energy_counter_count (pos 0);
  }

  abbrev pub reset_values : EnergyValues → EnergyValues
  reset_values latest =
      record (assign_energy_counters latest (replicate energy_counter_count (pos 0))) {
        reset_epoch = next_epoch;
      }

  abbrev pub new_audit : ResetAudit
  new_audit = audited request l.energy_state.epoch next_epoch

  pub record Done (result : ResetResult) (l' : Ledger) : Type 0 where
    pub latest : EnergyValues
    pub is_latest : l.latest_energy ≡ some latest
    pub unseen : find_reset request.idempotency_key l.reset_audit ≡ none
    pub expected : request.expected_epoch ≡ l.energy_state.epoch
    pub epoch_fits : next_epoch < 2 ^ 63
    pub is_result : record { epoch = next_epoch; replayed = false } ≡ result
    pub is_stored :
        stored l reset_state (reset_values latest) request.requested_at (new_audit ∷ l.reset_audit)
        ≡ l'

  abbrev pub Outcome : ResetResult → Ledger → Type 0
  Outcome result l' =
      ((find_reset request.idempotency_key l.reset_audit ≡ some result.epoch) × (l ≡ l'))
      ⊎ Done result l'

  commit_reset_inv :
      (committed : Bool) (latest : EnergyValues) (result : ResetResult) (l' : Ledger)
      → find_reset request.idempotency_key l.reset_audit ≡ none
      → l.latest_energy ≡ some latest
      → request.expected_epoch ≡ l.energy_state.epoch
      → commit_reset committed l request latest ≡ ok (result, l')
      → Done result l'
  unfolding commit_reset
  commit_reset_inv committed latest result l' unseen o expected e =
      let (l1, e1, e2) =
        >>=-eq-ok
          (store l reset_state (reset_values latest) request.requested_at
            (new_audit ∷ l.reset_audit) committed)
          (λ l1. ok (record { epoch = next_epoch; replayed = false }, l1)) e in
      let (fits, same, _) =
        store_inv l reset_state (reset_values latest) request.requested_at
          (new_audit ∷ l.reset_audit) committed l1 e1 in
      record {
        latest = latest;
        is_latest = o;
        unseen = unseen;
        expected = expected;
        epoch_fits = fits;
        is_result = ap (λ (q : ResetResult × Ledger). q.0) (ok-injective e2);
        is_stored = same ∙ ap (λ (q : ResetResult × Ledger). q.1) (ok-injective e2);
      }

  expected_reset_inv :
      (committed : Bool) (latest : EnergyValues) (result : ResetResult) (l' : Ledger)
      → find_reset request.idempotency_key l.reset_audit ≡ none
      → l.latest_energy ≡ some latest
      → (ensure (request.expected_epoch == l.energy_state.epoch) epoch_conflict
          >> commit_reset committed l request latest)
        ≡ ok (result, l')
      → Done result l'
  expected_reset_inv committed latest result l' unseen o e =
      let test = request.expected_epoch == l.energy_state.epoch in
      let (u, met, e') =
        >>=-eq-ok (ensure test epoch_conflict) (λ _. commit_reset committed l request latest) e in
      commit_reset_inv committed latest result l' unseen o
        ((==_iff request.expected_epoch l.energy_state.epoch).0 (ensured test epoch_conflict u met))
        e'

  no_checkpoint_inv :
      {P : Type 0} (committed : Bool) (result : ResetResult) (l' : Ledger)
      → new_reset committed l request none ≡ ok (result, l')
      → P
  unfolding new_reset
  no_checkpoint_inv committed result l' e = cc

  new_reset_inv :
      (committed : Bool) (o : Option EnergyValues) (result : ResetResult) (l' : Ledger)
      → find_reset request.idempotency_key l.reset_audit ≡ none
      → l.latest_energy ≡ o
      → new_reset committed l request o ≡ ok (result, l')
      → Done result l'
  unfolding new_reset
  new_reset_inv committed o result l' unseen =
      split
        (λ o.
          l.latest_energy ≡ o → new_reset committed l request o ≡ ok (result, l') → Done result l')
        (λ _ e. no_checkpoint_inv committed result l' e)
        (λ latest is_latest e. expected_reset_inv committed latest result l' unseen is_latest e) o

  -- A call that returns repeats an earlier reset, or has committed a new one.
  pub reset_energy_inv :
      (committed : Bool) (result : ResetResult) (l' : Ledger)
      → reset_energy committed l request ≡ ok (result, l')
      → Outcome result l'
  unfolding reset_energy replay_or_reset
  reset_energy_inv committed result l' e =
      let (_, _, e') =
        >>=-eq-ok (validate_reset request)
          (λ _.
            replay_or_reset committed l request (find_reset request.idempotency_key l.reset_audit))
          e in
      go (find_reset request.idempotency_key l.reset_audit) refl e'
    where
      go :
          (o : Option ℕ)
          → find_reset request.idempotency_key l.reset_audit ≡ o
          → replay_or_reset committed l request o ≡ ok (result, l')
          → Outcome result l'
      go none found e = inr (new_reset_inv committed l.latest_energy result l' found refl e)
      go (some epoch) found e = inl (
        found ∙ ap (λ (q : ResetResult × Ledger). some q.0.epoch) (ok-injective e),
        ap (λ (q : ResetResult × Ledger). q.1) (ok-injective e),
      )

-- A recorded reset is found again after another one.
pub Done-find_reset :
    (l : Ledger) (request : ResetRequest) (r : ResetResult) (l' : Ledger) (key : List ℕ) (epoch : ℕ)
    → Done l request r l'
    → find_reset key l.reset_audit ≡ some epoch
    → find_reset key l'.reset_audit ≡ some epoch
unfolding find_reset audited
Done-find_reset l request r l' key epoch k found =
    subst (λ (m : Ledger). find_reset key m.reset_audit ≡ some epoch) k.is_stored
      (go (equals request.idempotency_key key) refl)
  where
    clash : (o : Option ℕ) → o ≡ none → o ≡ some epoch → ⊥
    clash o e h = cc

    go :
        (same : Bool)
        → equals request.idempotency_key key ≡ same
        → (if same then some (next_epoch l request) else find_reset key l.reset_audit) ≡ some epoch
    go true same = absurd (
        clash (find_reset key l.reset_audit)
          (sym
              (ap (λ t. find_reset t l.reset_audit) (equals_sound request.idempotency_key key same))
            ∙ k.unseen)
          found)
    go false other = found

-- The reset that was carried out is found.
pub Done-find_own :
    (l : Ledger) (request : ResetRequest) (r : ResetResult) (l' : Ledger)
    → Done l request r l'
    → find_reset request.idempotency_key l'.reset_audit ≡ some r.epoch
unfolding find_reset audited
Done-find_own l request r l' k =
    subst (λ (m : Ledger). find_reset request.idempotency_key m.reset_audit ≡ some r.epoch)
      k.is_stored
      (rw (equals_refl request.idempotency_key)
        (ap (λ (q : ResetResult). some q.epoch) k.is_result))
