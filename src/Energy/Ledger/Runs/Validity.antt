-- ===== src/Energy/Ledger/Runs/Validity.antt =====
-- Every call keeps the ledger well-formed.
use msap1_apu.Prelude.{
  ℕ, ◌≤◌, ◌≡◌, refl, sym, ap, ◌∙◌, subst, ◌⊎◌, inl, inr, Bool, true, List, [], ◌∷◌, Result, ok, err,
  ◌>>=◌, arith, length, All, replicate,
}
use msap1_apu.Prelude.Integers.{ℤ, pos, above}
use msap1_apu.Energy.Values.{EnergyValues, flatten_energy_counters, assign_energy_counters}
use msap1_apu.Energy.Columns.{Failure}
use msap1_apu.Energy.Rows.Laws.{IsEnergy}
use msap1_apu.Energy.Sums.{all_positive}
use msap1_apu.Energy.Ledger.{Ledger, ResetRequest, ResetResult, ingest_energy, reset_energy}
use msap1_apu.Energy.Sums.Alignment.{IsAligned, all_positive-IsAligned, IsAligned-length}
use msap1_apu.Energy.Sums.Growth.{add_growth_lem, add_session-Grown}
use msap1_apu.Energy.Ledger.Runs.{
  Step, ingested, zeroed, restarted, step, run, IsStep, IsCheckpoint, IsLedger, stored-IsLedger,
  after,
}
use msap1_apu.Energy.Sums.Alignment.{zeros}
use msap1_apu.Energy.Sums.Growth.{Grown}
use msap1_apu.Energy.Ledger.Runs.Ingest.{
  Committed, Opens, next_state, next_values, ingest_energy_inv,
}
use msap1_apu.Energy.Ledger.Runs.Reset.{
  Done, reset_state, reset_values, reset_energy_inv, new_audit,
}
use msap1_apu.Energy.Ledger.Runs.Restart.{restart}

-- Lifetime counters that are no less than before.
abbrev pub Rises : List ℤ → List ℤ → Type 0
Rises [] [] = Unit
Rises (l ∷ ls) (t ∷ ts) = (above l ≤ above t) × Rises ls ts
Rises _ _ = ⊥

pub Grown-Rises : (cs ss ls ts : List ℤ) → IsAligned cs ss ls → Grown ss cs ls ts → Rises ls ts
Grown-Rises [] [] [] [] h g = tt
Grown-Rises (pos c ∷ cs) (pos s ∷ ss) (pos l ∷ ls) (t ∷ ts) (hc, hs, hl, h) (a, e, g) =
    (omega (arith, e), Grown-Rises cs ss ls ts h g)
Grown-Rises _ _ _ _ h g = ground arith

module _ (session : EnergyValues) (sequence generation : ℕ) (now : ℤ) (l : Ledger) (w : IsLedger l)
    (c : IsCheckpoint session) where
  pub aligned :
      all_positive (flatten_energy_counters session) ≡ true
      → IsAligned
          (flatten_energy_counters session)
          l.energy_state.session_counters
          l.energy_state.lifetime_counters
  unfolding flatten_energy_counters
  aligned positive =
      all_positive-IsAligned l.energy_state.session_counters l.energy_state.lifetime_counters
        (flatten_energy_counters session) positive c.counters_fit (sym w.has_length) w.is_aligned

  abbrev pub Counts : List ℤ × Bool → Type 0
  Counts growth =
      IsAligned (flatten_energy_counters session) (flatten_energy_counters session) growth.0
      × ((Opens session sequence generation now l
            × Grown (zeros l.energy_state.lifetime_counters) (flatten_energy_counters session)
                l.energy_state.lifetime_counters growth.0)
          ⊎ ((session.session_id ≡ l.energy_state.session_id)
              × Grown l.energy_state.session_counters (flatten_energy_counters session)
                  l.energy_state.lifetime_counters growth.0))

  pub counts :
      (v : EnergyValues) (l' : Ledger) (k : Committed session sequence generation now l v l')
      → Counts k.growth
  counts v l' k = elim k.is_counted [
    | inl (opens, e) ↦
        (let (a, g) = add_session-Grown _ _ _ _ _ (aligned k.positive) e in (a, inl (opens, g)))
    | inr (same, e) ↦
        (let (a, g) = add_growth_lem _ _ _ _ _ (aligned k.positive) e in (a, inr (same, g)))
  ]

  pub next_values-IsEnergy :
      (r : List ℤ × Bool) → IsEnergy (next_values session sequence generation now l r)
  unfolding assign_energy_counters
  next_values-IsEnergy r = record {
    session_fits = c.is_energy.session_fits;
    last_fits = c.is_energy.last_fits;
    accepted_fits = c.is_energy.accepted_fits;
    skipped_fits = c.is_energy.skipped_fits;
  }

  pub Committed-IsLedger :
      (v : EnergyValues) (l' : Ledger)
      → Committed session sequence generation now l v l'
      → IsLedger l'
  unfolding flatten_energy_counters
  Committed-IsLedger v l' k =
      let (a, _) = counts v l' k in
      let (e, _) =
        IsAligned-length (flatten_energy_counters session) (flatten_energy_counters session)
          k.growth.0 a in
      subst IsLedger k.is_stored (
        stored-IsLedger l (next_state session sequence generation now l k.growth)
          (next_values session sequence generation now l k.growth) now l.reset_audit a (sym e)
          c.is_energy.session_fits k.epoch_fits (next_values-IsEnergy k.growth))

  -- The states of a committed checkpoint.
  pub Committed-state :
      (v : EnergyValues) (l' : Ledger) (k : Committed session sequence generation now l v l')
      → next_state session sequence generation now l k.growth ≡ l'.energy_state
  Committed-state v l' k = ap (λ (m : Ledger). m.energy_state) k.is_stored

zeros-replicate : (ls : List ℤ) → zeros ls ≡ replicate (length ls) (pos 0)
zeros-replicate [] = refl
zeros-replicate (l ∷ ls) = ap (◌∷◌ (pos 0)) (zeros-replicate ls)

zeroed-IsAligned : (cs ss ls : List ℤ) → IsAligned cs ss ls → IsAligned cs ss (zeros ls)
zeroed-IsAligned [] [] [] h = tt
zeroed-IsAligned (pos c ∷ cs) (pos s ∷ ss) (pos l ∷ ls) (hc, hs, hl, h) =
    (hc, hs, omega arith, zeroed-IsAligned cs ss ls h)
zeroed-IsAligned _ _ _ h = absurd h

values-IsEnergy :
    (l : Ledger) (request : ResetRequest) (v : EnergyValues)
    → IsEnergy v
    → IsEnergy (reset_values l request v)
unfolding assign_energy_counters
values-IsEnergy l request v h = record {
  session_fits = h.session_fits;
  last_fits = h.last_fits;
  accepted_fits = h.accepted_fits;
  skipped_fits = h.skipped_fits;
}

Done-IsLedger :
    (l : Ledger) (request : ResetRequest)
    → IsLedger l
    → (r : ResetResult) (l' : Ledger) → Done l request r l'
    → IsLedger l'
Done-IsLedger l request w r l' k =
    let s = l.energy_state in
    let none_left : zeros s.lifetime_counters ≡ replicate 28 (pos 0) =
      zeros-replicate s.lifetime_counters ∙ ap (λ n. replicate n (pos 0)) w.has_length in
    let aligned =
      subst (λ ls. IsAligned s.session_counters s.session_counters ls) none_left
        (zeroed-IsAligned s.session_counters s.session_counters s.lifetime_counters w.is_aligned) in
    subst IsLedger k.is_stored (
      stored-IsLedger l (reset_state l request) (reset_values l request k.latest)
        request.requested_at (new_audit l request ∷ l.reset_audit) aligned refl w.session_fits
        k.epoch_fits (values-IsEnergy l request k.latest (w.latest_fits k.latest k.is_latest)))

-- The well-formedness after a call, whether it returns or throws.
pub kept :
    {A : Type 0} (l : Ledger) (m : Result Failure (A × Ledger))
    → (P : Ledger → Type 0) → P l
    → ((a : A) (l' : Ledger) → m ≡ ok (a, l') → P l')
    → P (after l m)
kept l (err f) P w h = w
kept l (ok (a, l')) P w h = h a l' refl

pub step-IsLedger : (l : Ledger) (s : Step) → IsLedger l → IsStep s → IsLedger (step l s)
unfolding step
step-IsLedger l (ingested committed session q g now) w c =
    kept l (ingest_energy session q g now committed l) IsLedger w (λ v l' e.
      elim (ingest_energy_inv session q g now l committed v l' e) [
        | inl (_, _, same) ↦ subst IsLedger same w
        | inr k ↦ Committed-IsLedger session q g now l w c v l' k
      ])
step-IsLedger l (zeroed committed request) w c =
    kept l (reset_energy committed l request) IsLedger w (λ r l' e.
      elim (reset_energy_inv l request committed r l' e) [
        | inl (_, same) ↦ subst IsLedger same w
        | inr k ↦ Done-IsLedger l request w r l' k
      ])
step-IsLedger l restarted w c =
    let (l', e, w', _, _, _) = restart l w in
    subst (λ m. IsLedger (after l (m >>= λ l'. ok (tt {0}, l')))) (sym e) w'

pub run-IsLedger :
    (l : Ledger) (steps : List Step) → IsLedger l → All IsStep steps → IsLedger (run l steps)
unfolding run
run-IsLedger l [] w h = w
run-IsLedger l (s ∷ steps) w (hs, h) = run-IsLedger (step l s) steps (step-IsLedger l s w hs) h
