-- ===== src/Energy/Ledger/Runs/Once.antt =====
-- A reset is carried out at most once.
use msap1_apu.Prelude.{
  ℕ, ◌≡◌, refl, sym, subst, inl, inr, Bool, true, List, [], ◌∷◌, some, ok, ◌>>=◌, All, >>=-eq-ok,
}
use msap1_apu.Energy.Ledger.{Ledger, ResetRequest, ResetResult, ingest_energy, reset_energy}
use msap1_apu.Energy.Ledger.Runs.{
  Step, ingested, zeroed, restarted, step, run, IsStep, IsLedger, after,
}
use msap1_apu.Energy.Ledger.Runs.Ingest.{ingest_energy_inv}
use msap1_apu.Energy.Ledger.Runs.Reset.{reset_energy_inv}
use msap1_apu.Energy.Ledger.Runs.Restart.{restart}
use msap1_apu.Energy.Ledger.Runs.Validity.{kept, step-IsLedger}
use msap1_apu.Energy.Ledger.Runs.Validity.{step-IsLedger}
use msap1_apu.Energy.Ledger.Runs.Reset.{Done-find_reset, Done-find_own}
use msap1_apu.Energy.Ledger.{find_reset, validate_reset, replay_or_reset}

abbrev Finds : List ℕ → ℕ → Ledger → Type 0
Finds key epoch l = find_reset key l.reset_audit ≡ some epoch

step-Finds :
    (key : List ℕ) (epoch : ℕ) (l : Ledger) (s : Step)
    → IsLedger l
    → Finds key epoch l
    → Finds key epoch (step l s)
unfolding step
step-Finds key epoch l (ingested committed session q g now) w f =
    kept l (ingest_energy session q g now committed l) (Finds key epoch) f (λ v l' e.
      elim (ingest_energy_inv session q g now l committed v l' e) [
        | inl (_, _, still) ↦ subst (Finds key epoch) still f
        | inr k ↦ subst (Finds key epoch) k.is_stored f
      ])
step-Finds key epoch l (zeroed committed request) w f =
    kept l (reset_energy committed l request) (Finds key epoch) f (λ r l' e.
      elim (reset_energy_inv l request committed r l' e) [
        | inl (_, still) ↦ subst (Finds key epoch) still f
        | inr k ↦ Done-find_reset l request r l' key epoch k f
      ])
step-Finds key epoch l restarted w f =
    let (l', e, _, _, _, same) = restart l w in
    subst (λ m. Finds key epoch (after l (m >>= λ l'. ok (tt {0}, l')))) (sym e)
      (subst (λ audits. find_reset key audits ≡ some epoch) (sym same) f)

run-Finds :
    (key : List ℕ) (epoch : ℕ) (l : Ledger) (steps : List Step)
    → IsLedger l
    → All IsStep steps
    → Finds key epoch l
    → Finds key epoch (run l steps)
unfolding run
run-Finds key epoch l [] w h f = f
run-Finds key epoch l (s ∷ steps) w (hs, h) f =
    run-Finds key epoch (step l s) steps (step-IsLedger l s w hs) h (step-Finds key epoch l s w f)

-- A reset that has returned is carried out at most once: whatever happens afterwards, checkpoints,
-- other resets, failures and restarts, the same request returns the same epoch as a replay and
-- changes nothing.
pub reset_once :
    (l : Ledger) (request : ResetRequest) (committed again : Bool) (r : ResetResult) (l' : Ledger)
    (steps : List Step)
    → IsLedger l'
    → All IsStep steps
    → reset_energy committed l request ≡ ok (r, l')
    → reset_energy again (run l' steps) request
      ≡ ok (record { epoch = r.epoch; replayed = true }, run l' steps)
unfolding reset_energy replay_or_reset
reset_once l request committed again r l' steps w h e =
    let (_, valid, _) =
      >>=-eq-ok (validate_reset request)
        (λ _.
          replay_or_reset committed l request (find_reset request.idempotency_key l.reset_audit))
        e in
    let found : Finds request.idempotency_key r.epoch l' =
      elim (reset_energy_inv l request committed r l' e) [
        | inl (f, still) ↦ subst (Finds request.idempotency_key r.epoch) still f
        | inr k ↦ Done-find_own l request r l' k
      ] in
    rw (valid, run-Finds request.idempotency_key r.epoch l' steps w h found) refl
