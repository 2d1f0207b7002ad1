-- ===== src/Energy/Ledger/Runs/Session.antt =====
-- The lifetime counters over a run.
use msap1_apu.Prelude.{
  ℕ, ◌≡◌, refl, sym, ap, ◌∙◌, subst, ◌⊎◌, inl, inr, List, [], ◌∷◌, ok, ◌>>=◌, arith, All,
}
use msap1_apu.Prelude.Integers.{ℤ}
use msap1_apu.Energy.Values.{EnergyValues, flatten_energy_counters}
use msap1_apu.Energy.Rows.{EnergyState}
use msap1_apu.Energy.Ledger.{Ledger, ingest_energy}
use msap1_apu.Energy.Ledger.Runs.{
  Step, ingested, zeroed, restarted, step, run, IsCheckpoint, IsLedger, IsNew, after,
}
use msap1_apu.Energy.Sums.Alignment.{zeros-IsAligned, zeros}
use msap1_apu.Energy.Sums.Growth.{Grown, Grown-refl, Grown-trans}
use msap1_apu.Energy.Ledger.Runs.Ingest.{Committed, Opens, next_state, ingest_energy_inv}
use msap1_apu.Energy.Ledger.Runs.Restart.{restart, not_empty}
use msap1_apu.Energy.Ledger.Runs.Validity.{
  aligned, counts, kept, Committed-state, Committed-IsLedger, Rises, Grown-Rises,
}

-- No reset, and no other session.
abbrev pub InSession : ℕ → Step → Type 0
InSession id (ingested committed session sequence generation now) =
    (session.session_id ≡ id) × IsCheckpoint session
InSession id (zeroed committed request) = ⊥
InSession id restarted = Unit

-- The ledger is new, or its latest checkpoint is of this session.
abbrev pub Follows : ℕ → Ledger → Type 0
Follows id l = IsNew l ⊎ (l.energy_state.session_id ≡ id)

abbrev Telescopes : Ledger → Ledger → Type 0
Telescopes l l' =
    Grown l.energy_state.session_counters l'.energy_state.session_counters
      l.energy_state.lifetime_counters l'.energy_state.lifetime_counters

abbrev Continues : ℕ → Ledger → Ledger → Type 0
Continues id l l' = IsLedger l' × Follows id l' × Telescopes l l'

unchanged : (id : ℕ) (l : Ledger) → IsLedger l → Follows id l → Continues id l l
unchanged id l w f = (w, f, Grown-refl _ _ _ w.is_aligned)

zero_start :
    (l : Ledger)
    → IsNew l
    → zeros l.energy_state.lifetime_counters ≡ l.energy_state.session_counters
zero_start l n =
    subst (λ (s : EnergyState). zeros s.lifetime_counters ≡ s.session_counters) (sym n.2) refl

-- A checkpoint of the session that the ledger follows opens one only in a new ledger.
opens-IsNew :
    (id : ℕ) (l : Ledger) (session : EnergyValues) (q g : ℕ) (now : ℤ)
    → IsLedger l
    → Follows id l
    → session.session_id ≡ id
    → Opens session q g now l
    → IsNew l
opens-IsNew id l session q g now w f same opens = elim f [
  | inl n ↦ n
  | inr followed ↦ elim opens [
    | inr differs ↦ absurd (differs (same ∙ sym followed))
    | inl empty ↦ elim w.durable [ inl n ↦ n | inr s ↦ absurd (not_empty l s empty) ]
  ]
]

committed_continues :
    (id : ℕ) (l : Ledger) (session : EnergyValues) (q g : ℕ) (now : ℤ) (v : EnergyValues)
    (l' : Ledger)
    → IsLedger l
    → Follows id l
    → IsCheckpoint session
    → session.session_id ≡ id
    → Committed session q g now l v l'
    → Continues id l l'
committed_continues id l session q g now v l' w f c same k =
    let (_, grown) = counts session q g now l w c v l' k in
    let next = next_state session q g now l k.growth in
    (
      Committed-IsLedger session q g now l w c v l' k,
      inr (
          ap (λ (s : EnergyState). s.session_id)
            (sym (Committed-state session q g now l w c v l' k))
          ∙ same),
      subst
          (λ (s : EnergyState).
            Grown l.energy_state.session_counters s.session_counters
              l.energy_state.lifetime_counters s.lifetime_counters)
          (Committed-state session q g now l w c v l' k)
          (elim grown [
            | inl (opens, h) ↦
                subst
                  (λ ss.
                    Grown ss (flatten_energy_counters session) l.energy_state.lifetime_counters
                      k.growth.0)
                  (zero_start l (opens-IsNew id l session q g now w f same opens)) h
            | inr (_, h) ↦ h
          ]),
    )

step_continues :
    (id : ℕ) (l : Ledger) (s : Step)
    → IsLedger l
    → Follows id l
    → InSession id s
    → Continues id l (step l s)
unfolding step
step_continues id l (ingested committed session q g now) w f (same, c) =
    kept l (ingest_energy session q g now committed l) (Continues id l) (unchanged id l w f)
      (λ v l' e. elim (ingest_energy_inv session q g now l committed v l' e) [
        | inl (_, _, still) ↦ subst (Continues id l) still (unchanged id l w f)
        | inr k ↦ committed_continues id l session q g now v l' w f c same k
      ])
step_continues id l (zeroed committed request) w f c = absurd c
step_continues id l restarted w f c =
    let (l', e, w', same, renewed, _) = restart l w in
    subst (λ m. Continues id l (after l (m >>= λ l'. ok (tt {0}, l')))) (sym e)
      (
        w',
        elim f [
          | inl n ↦ inl (renewed n)
          | inr followed ↦ inr (ap (λ (s : EnergyState). s.session_id) same ∙ followed)
        ],
        subst
            (λ (s : EnergyState).
              Grown l.energy_state.session_counters s.session_counters
                l.energy_state.lifetime_counters s.lifetime_counters)
            (sym same) (Grown-refl _ _ _ w.is_aligned),
      )

-- Over any checkpoints of a session, in whatever order they are reported, repeated, rejected or not
-- stored, and over any restarts, each lifetime counter grows by exactly what the session counter of
-- the last stored checkpoint has grown, up to 2^63 - 1; session counters never fall.
pub run_telescopes :
    (l : Ledger) (id : ℕ) (steps : List Step)
    → IsLedger l
    → Follows id l
    → All (InSession id) steps
    → Grown l.energy_state.session_counters
        (run l steps).energy_state.session_counters
        l.energy_state.lifetime_counters
        (run l steps).energy_state.lifetime_counters
unfolding run
run_telescopes l id [] w f h = Grown-refl _ _ _ w.is_aligned
run_telescopes l id (s ∷ steps) w f (hs, h) =
    let (w', f', grown) = step_continues id l s w f hs in
    Grown-trans _ _ _ _ _ _ grown (run_telescopes (step l s) id steps w' f' h)

-- A run without resets.
abbrev pub KeepsEpoch : Step → Type 0
KeepsEpoch (ingested committed session sequence generation now) = IsCheckpoint session
KeepsEpoch (zeroed committed request) = ⊥
KeepsEpoch restarted = Unit

abbrev Higher : Ledger → Ledger → Type 0
Higher l l' = IsLedger l' × Rises l.energy_state.lifetime_counters l'.energy_state.lifetime_counters

Rises-refl : (ls : List ℤ) → Rises ls ls
Rises-refl [] = tt
Rises-refl (l ∷ ls) = (omega arith, Rises-refl ls)

Rises-trans : (ls ts us : List ℤ) → Rises ls ts → Rises ts us → Rises ls us
Rises-trans [] [] [] a b = tt
Rises-trans (l ∷ ls) (t ∷ ts) (u ∷ us) (a, h) (b, k) = (omega arith, Rises-trans ls ts us h k)
Rises-trans _ _ _ a b = ground arith

Committed-Higher :
    (l : Ledger) (session : EnergyValues) (q g : ℕ) (now : ℤ) (v : EnergyValues) (l' : Ledger)
    → IsLedger l
    → IsCheckpoint session
    → Committed session q g now l v l'
    → Higher l l'
Committed-Higher l session q g now v l' w c k =
    let (_, grown) = counts session q g now l w c v l' k in
    let from = aligned session q g now l w c k.positive in
    let ls = l.energy_state.lifetime_counters in
    (
      Committed-IsLedger session q g now l w c v l' k,
      subst (λ (s : EnergyState). Rises ls s.lifetime_counters)
          (Committed-state session q g now l w c v l' k)
          (elim grown [
            | inl (_, h) ↦
                Grown-Rises (flatten_energy_counters session) (zeros ls) ls k.growth.0
                  (zeros-IsAligned _ _ _ from) h
            | inr (_, h) ↦ Grown-Rises _ _ _ _ from h
          ]),
    )

step-Higher : (l : Ledger) (s : Step) → IsLedger l → KeepsEpoch s → Higher l (step l s)
unfolding step
step-Higher l (ingested committed session q g now) w c =
    kept l (ingest_energy session q g now committed l) (Higher l) (w, Rises-refl _)
      (λ v l' e. elim (ingest_energy_inv session q g now l committed v l' e) [
        | inl (_, _, still) ↦ subst (Higher l) still (w, Rises-refl _)
        | inr k ↦ Committed-Higher l session q g now v l' w c k
      ])
step-Higher l (zeroed committed request) w c = absurd c
step-Higher l restarted w c =
    let (l', e, w', same, _, _) = restart l w in
    subst (λ m. Higher l (after l (m >>= λ l'. ok (tt {0}, l')))) (sym e)
      (
        w',
        subst (λ (s : EnergyState). Rises l.energy_state.lifetime_counters s.lifetime_counters)
            (sym same) (Rises-refl _),
      )

-- Between resets no lifetime counter ever falls: not when sessions change, not when checkpoints are
-- stale, repeated, or cannot be stored, and not over restarts.
pub run-Rises :
    (l : Ledger) (steps : List Step)
    → IsLedger l
    → All KeepsEpoch steps
    → Rises l.energy_state.lifetime_counters (run l steps).energy_state.lifetime_counters
unfolding run
run-Rises l [] w h = Rises-refl _
run-Rises l (s ∷ steps) w (hs, h) =
    let (w', rises) = step-Higher l s w hs in
    Rises-trans _ _ _ rises (run-Rises (step l s) steps w' h)
