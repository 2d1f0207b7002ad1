-- ===== src/Energy/Ledger/Runs/Restart.antt =====
-- What a new EnergyLedger reads from the database.
use msap1_apu.Prelude.{
  ℕ, zero, suc, ◌≡◌, refl, sym, subst, inl, inr, Option, none, some, ok, arith, replicate,
}
use msap1_apu.Prelude.Integers.{pos}
use msap1_apu.Energy.Values.{EnergyValues}
use msap1_apu.Energy.Rows.{EnergyState}
use msap1_apu.Energy.Rows.Laws.{IsEnergy, Agrees}
use msap1_apu.Energy.Ledger.{load, new_ledger, Ledger, reopen}
use msap1_apu.Energy.Sums.Alignment.{IsAligned}
use msap1_apu.Energy.Ledger.Runs.{some-injective, IsLedger, Stored, IsNew}

pub reopen_new :
    (l : Ledger) → IsNew l → reopen l ≡ ok (record new_ledger { reset_audit = l.reset_audit })
unfolding reopen load
reopen_new l (_, empty, _) = rw empty refl

abbrev pub reopened : (l : Ledger) → Stored l → Ledger
reopened l s = record {
  energy_state = l.energy_state;
  latest_energy = some s.loaded;
  row = some s.kept;
  reset_audit = l.reset_audit;
}

pub reopen_stored : (l : Ledger) (s : Stored l) → reopen l ≡ ok (reopened l s)
unfolding reopen load
reopen_stored l s = rw (s.is_row, load, s.is_loaded) refl

replicate-IsAligned :
    (n : ℕ) → IsAligned (replicate n (pos 0)) (replicate n (pos 0)) (replicate n (pos 0))
replicate-IsAligned zero = tt
replicate-IsAligned (suc n) = (omega arith, omega arith, omega arith, replicate-IsAligned n)

pub new_ledger-IsLedger : IsLedger new_ledger
new_ledger-IsLedger = record {
  is_aligned = replicate-IsAligned 28;
  has_length = refl;
  session_fits = omega arith;
  latest_fits = λ v e. cc;
  durable = inl (refl, refl, refl);
}

pub new-IsLedger :
    (l : Ledger)
    → IsLedger l
    → IsNew l
    → IsLedger (record new_ledger { reset_audit = l.reset_audit })
new-IsLedger l w (a, b, e) = record {
  is_aligned =
      subst
        (λ (s : EnergyState). IsAligned s.session_counters s.session_counters s.lifetime_counters) e
        w.is_aligned;
  has_length = refl;
  session_fits = omega arith;
  latest_fits = λ v e. cc;
  durable = inl (refl, refl, refl);
}

pub reopened-IsLedger : (l : Ledger) (s : Stored l) → IsLedger l → IsLedger (reopened l s)
reopened-IsLedger l s w = record {
  is_aligned = w.is_aligned;
  has_length = w.has_length;
  session_fits = w.session_fits;
  latest_fits = λ v e. subst IsEnergy (some-injective e) s.loaded_fits;
  durable = inr (record {
    latest = s.loaded;
    kept = s.kept;
    loaded = s.loaded;
    is_latest = refl;
    is_row = refl;
    is_loaded = s.is_loaded;
    agrees = Agrees-refl s.loaded;
    loaded_fits = s.loaded_fits;
  });
}
  where
    Agrees-refl : (v : EnergyValues) → Agrees v v
    Agrees-refl v = record {
      last = refl;
      accepted_samples = refl;
      skipped_samples = refl;
      accepted_blocks = refl;
      skipped_blocks = refl;
      saturated = refl;
      incomplete_input = refl;
      discontinuity = refl;
      qualities = refl;
    }

pub not_empty : (l : Ledger) → Stored l → l.latest_energy ≡ none → ⊥
not_empty l s e = full l.latest_energy s.latest e s.is_latest
  where
    full : (o : Option EnergyValues) (v : EnergyValues) → o ≡ none → o ≡ some v → ⊥
    full o v e h = cc

-- A restart keeps the state, and fails for no well-formed ledger.
pub restart :
    (l : Ledger)
    → IsLedger l
    → (l' : Ledger) × (reopen l ≡ ok l')
      × IsLedger l'
      × (l'.energy_state ≡ l.energy_state)
      × (IsNew l → IsNew l')
      × (l'.reset_audit ≡ l.reset_audit)
restart l w = elim w.durable [
  | inl n ↦ (
    record new_ledger { reset_audit = l.reset_audit },
    reopen_new l n,
    new-IsLedger l w n,
    sym n.2,
    λ _. (refl, refl, refl),
    refl,
  )
  | inr s ↦ (
    reopened l s,
    reopen_stored l s,
    reopened-IsLedger l s w,
    refl,
    λ n. absurd (not_empty l s n.0),
    refl,
  )
]
