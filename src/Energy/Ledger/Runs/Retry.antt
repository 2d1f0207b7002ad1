-- ===== src/Energy/Ledger/Runs/Retry.antt =====
-- A checkpoint that is reported again after a restart is not counted again.
use msap1_apu.Prelude.{
  ℕ, ◌≡◌, refl, sym, ◌≢◌, ap, ◌∙◌, subst, inl, inr, Bool, true, false, ◌&&◌, not, ==_refl, ◌==◌,
  List, [], ◌∷◌, some, ok, arith, le→ltb, ==_iff,
}
use msap1_apu.Prelude.Integers.{ℤ, pos, negsuc}
use msap1_apu.Energy.Values.{
  same_list, same_integer, same_window, SampleWindow, energy_qualities, for_each_energy_reading,
  EnergyValues, flatten_energy_counters, assign_energy_counters,
}
use msap1_apu.Energy.Rows.{row_window, row_values, energy_row, row_values}
use msap1_apu.Energy.Rows.Laws.{IsMeasured, window_kept, Agrees}
use msap1_apu.Energy.Sums.{all_positive, add_growth, add_session}
use msap1_apu.Energy.Ledger.{
  same_bool, Ledger, first_window, ingest_energy, reopen, same_session, same_checkpoint,
  count_checkpoint,
}
use msap1_apu.Energy.Sums.Alignment.{IsAligned-length}
use msap1_apu.Energy.Ledger.Runs.{
  stored-Stored, aligned-IsState, IsCheckpoint, IsLedger, Stored, stored,
}
use msap1_apu.Energy.Sums.Growth.{add_growth_saturated, add_session_saturated}
use msap1_apu.Energy.Ledger.Runs.Ingest.{Committed, next_state, next_values, ingest_energy_inv}
use msap1_apu.Energy.Ledger.Runs.Validity.{aligned, next_values-IsEnergy, counts}
use msap1_apu.Energy.Ledger.Runs.Restart.{reopen_stored, reopened}

conj : (a b : Bool) → a ≡ true → b ≡ true → (a && b) ≡ true
conj true b e h = h
conj false b e h = e

same_list_refl :
    {T : Type 0} (same : T → T → Bool)
    → ((x : T) → same x x ≡ true)
    → (xs : List T) → same_list same xs xs ≡ true
unfolding same_list
same_list_refl same h [] = refl
same_list_refl same h (x ∷ xs) =
    conj (same x x) (same_list same xs xs) (h x) (same_list_refl same h xs)

same_integer_refl : (x : ℤ) → same_integer x x ≡ true
same_integer_refl (pos n) = ==_refl n
same_integer_refl (negsuc n) = ==_refl n

same_bool_refl : (b : Bool) → same_bool b b ≡ true
same_bool_refl true = refl
same_bool_refl false = refl

same_window_refl : (w : SampleWindow) → same_window w w ≡ true
unfolding same_window
same_window_refl w = conj _ _ (==_refl w.sample_count) (same_integer_refl w.duration)

not_less : (a b : Bool) → (a ≡ true → b ≡ true) → not (a && not b) ≡ true
not_less true true h = refl
not_less true false h = h refl
not_less false b h = refl

module _ (session : EnergyValues) (sequence generation : ℕ) (now : ℤ) (l : Ledger)
    (r : List ℤ × Bool) where
  -- The latest checkpoint, as it is stored or loaded, is the one reported.
  same_checkpoint_lem :
      (latest : EnergyValues)
      → Agrees latest (next_values session sequence generation now l r)
      → (session.saturated ≡ true → r.1 ≡ true)
      → first_window latest ≡ first_window session
      → same_checkpoint (next_state session sequence generation now l r) latest session generation
        ≡ true
  unfolding same_checkpoint assign_energy_counters for_each_energy_reading energy_qualities
  same_checkpoint_lem latest a h e =
      conj _ _ (same_list_refl same_integer same_integer_refl (flatten_energy_counters session)) (
        conj _ _ (==_refl generation) (
          conj _ _ ((==_iff session.last_sample_index latest.last_sample_index).1 (sym a.last)) (
            conj _ _
              ((==_iff session.accepted_samples latest.accepted_samples).1 (sym a.accepted_samples))
              (conj _ _
                ((==_iff session.skipped_samples latest.skipped_samples).1 (sym a.skipped_samples))
                (conj _ _
                  ((==_iff session.accepted_blocks latest.accepted_blocks).1
                    (sym a.accepted_blocks))
                  (conj _ _
                    ((==_iff session.skipped_blocks latest.skipped_blocks).1 (sym a.skipped_blocks))
                    (conj _ _
                      (subst (λ b. same_bool session.incomplete_input b ≡ true)
                        (sym a.incomplete_input) (same_bool_refl session.incomplete_input))
                      (conj _ _
                        (subst (λ b. same_bool session.discontinuity b ≡ true) (sym a.discontinuity)
                          (same_bool_refl session.discontinuity))
                        (conj _ _
                          (not_less session.saturated latest.saturated (λ s. a.saturated ∙ h s))
                          (conj _ _
                            (subst (λ qs. same_list ◌==◌ (energy_qualities session) qs ≡ true)
                              (sym a.qualities)
                              (same_list_refl ◌==◌ ==_refl (energy_qualities session)))
                            (subst (λ w. same_window (first_window session) w ≡ true) (sym e)
                              (same_window_refl (first_window session)))))))))))))

  counted_again :
      (committed : Bool) (m : Ledger) (latest : EnergyValues)
      → session.session_id ≡ m.energy_state.session_id
      → sequence ≡ m.energy_state.source_sequence
      → same_checkpoint m.energy_state latest session generation ≡ true
      → count_checkpoint session sequence generation now committed m (some latest) ≡ ok (latest, m)
  unfolding count_checkpoint same_session
  counted_again committed m latest same_id same_sequence same =
      let state = m.energy_state in
      rw
        (
          (==_iff session.session_id state.session_id).1 same_id,
          same_session,
          le→ltb sequence state.source_sequence (omega (arith, same_sequence)),
          (==_iff sequence state.source_sequence).1 same_sequence,
          same,
        )
        refl

  latest_again :
      (committed : Bool) (m : Ledger) (latest : EnergyValues)
      → all_positive (flatten_energy_counters session) ≡ true
      → m.latest_energy ≡ some latest
      → session.session_id ≡ m.energy_state.session_id
      → sequence ≡ m.energy_state.source_sequence
      → same_checkpoint m.energy_state latest session generation ≡ true
      → ingest_energy session sequence generation now committed m ≡ ok (latest, m)
  unfolding ingest_energy
  latest_again committed m latest positive is_latest same_id same_sequence same = rw positive (
      subst (λ o. count_checkpoint session sequence generation now committed m o ≡ ok (latest, m))
        (sym is_latest) (counted_again committed m latest same_id same_sequence same))

  saturated_stays :
      (v : EnergyValues) (l' : Ledger)
      → IsLedger l
      → IsCheckpoint session
      → (k : Committed session sequence generation now l v l') → session.saturated ≡ true
      → k.growth.1 ≡ true
  saturated_stays v l' w c k s = elim k.is_counted [
    | inl (_, e) ↦
        add_session_saturated _ _ _ _ (aligned session sequence generation now l w c k.positive) (
          subst
            (λ b.
              add_session (flatten_energy_counters session) l.energy_state.lifetime_counters b
              ≡ ok k.growth)
            s e)
    | inr (_, e) ↦
        add_growth_saturated _ _ _ _ (aligned session sequence generation now l w c k.positive) (
          subst
            (λ b.
              add_growth (flatten_energy_counters session) l.energy_state.session_counters
                l.energy_state.lifetime_counters b
              ≡ ok k.growth)
            s e)
  ]

-- A stored checkpoint that is reported again after a restart, because its publication failed, is
-- taken for what it is: the call returns the same lifetime counters and leaves the ledger as it was.
-- The checkpoint has a sequence number of its own and its readings were taken over a whole number of
-- samples per second, with a duration that the stored rate can express.
pub retry_after_restart :
    (l : Ledger) (session : EnergyValues) (sequence generation : ℕ) (now later : ℤ)
    (committed again : Bool) (v : EnergyValues) (l' : Ledger)
    → IsLedger l
    → IsCheckpoint session
    → IsMeasured (first_window session)
    → sequence ≢ l.energy_state.source_sequence
    → ingest_energy session sequence generation now committed l ≡ ok (v, l')
    → (l'' : Ledger) × (w : EnergyValues) × (reopen l' ≡ ok l'')
      × (ingest_energy session sequence generation later again l'' ≡ ok (w, l''))
      × (flatten_energy_counters w ≡ flatten_energy_counters v)
      × (l''.energy_state ≡ l'.energy_state)
unfolding flatten_energy_counters stored-Stored assign_energy_counters for_each_energy_reading
    row_values energy_row first_window row_window
retry_after_restart l session q g now later committed again v l' w c m fresh e =
    elim (ingest_energy_inv session q g now l committed v l' e) [
      | inl (same, _, _) ↦ absurd (fresh same)
      | inr k ↦
          (let next = next_state session q g now l k.growth in
            let values = next_values session q g now l k.growth in
            let at = stored l next values now l.reset_audit in
            let (a, _) = counts session q g now l w c v l' k in
            let s : Stored at =
              stored-Stored l next values now l.reset_audit
                (aligned-IsState next a
                  (sym
                    (IsAligned-length (flatten_energy_counters session)
                      (flatten_energy_counters session) k.growth.0 a).0)
                  c.is_energy.session_fits k.epoch_fits)
                (next_values-IsEnergy session q g now l w c k.growth) in
            (
              reopened at s,
              s.loaded,
              subst (λ t. reopen t ≡ ok (reopened at s)) k.is_stored (reopen_stored at s),
              latest_again session q g later l k.growth again (reopened at s) s.loaded k.positive
                  refl refl refl
                  (same_checkpoint_lem session q g now l k.growth s.loaded s.agrees
                    (saturated_stays session q g now l k.growth v l' w c k)
                    (window_kept (first_window session) m)),
              ap flatten_energy_counters k.is_value,
              ap (λ (t : Ledger). t.energy_state) k.is_stored,
            ))
    ]
