-- ===== src/Energy/Ledger/Runs/Ingest.antt =====
-- What a call of `ingest_energy` that returns has done.
use msap1_apu.Prelude.{
  ℕ, ◌^◌, ◌<◌, ◌≡◌, refl, ◌≢◌, ap, ◌∙◌, ◌⊎◌, inl, inr, Bool, true, false, ◌==◌, ltb, if◌then◌else◌,
  List, Option, none, some, Result, ok, err, ◌>>=◌, ◌>>◌, ensure, arith, ok-injective, >>=-eq-ok,
  ==_iff,
}
use msap1_apu.Prelude.Integers.{ℤ}
use msap1_apu.Energy.Values.{EnergyValues, flatten_energy_counters, assign_energy_counters}
use msap1_apu.Energy.Columns.{Failure, negative_counter, stale_sequence, different_content}
use msap1_apu.Energy.Rows.{EnergyState}
use msap1_apu.Energy.Sums.{all_positive, add_growth, add_session}
use msap1_apu.Energy.Ledger.{
  Ledger, store, ingest_energy, same_session, new_session, commit_growth, same_checkpoint,
  count_checkpoint,
}
use msap1_apu.Energy.Ledger.Runs.{stored, store_inv}

-- What a checkpoint becomes.
module _ (session : EnergyValues) (sequence generation : ℕ) (now : ℤ) (l : Ledger) where
  abbrev pub next_state : List ℤ × Bool → EnergyState
  next_state (lifetime, saturated) = record l.energy_state {
    session_id = session.session_id;
    source_sequence = sequence;
    generation = generation;
    session_counters = flatten_energy_counters session;
    lifetime_counters = lifetime;
  }

  abbrev pub next_values : List ℤ × Bool → EnergyValues
  next_values (lifetime, saturated) = record (assign_energy_counters session lifetime) {
    reset_epoch = l.energy_state.epoch;
    saturated = saturated;
  }

  -- The checkpoint opens a session.
  abbrev pub Opens : Type 0
  Opens = (l.latest_energy ≡ none) ⊎ (session.session_id ≢ l.energy_state.session_id)

  -- The two ways to count a checkpoint.
  abbrev pub Counted : List ℤ × Bool → Type 0
  Counted growth =
      (Opens
        × (add_session (flatten_energy_counters session) l.energy_state.lifetime_counters
              session.saturated
            ≡ ok growth))
      ⊎ ((session.session_id ≡ l.energy_state.session_id)
          × (add_growth (flatten_energy_counters session) l.energy_state.session_counters
                l.energy_state.lifetime_counters session.saturated
              ≡ ok growth))

  pub record Committed (v : EnergyValues) (l' : Ledger) : Type 0 where
    pub growth : List ℤ × Bool
    pub is_counted : Counted growth
    pub positive : all_positive (flatten_energy_counters session) ≡ true
    pub epoch_fits : l.energy_state.epoch < 2 ^ 63
    pub is_value : next_values growth ≡ v
    pub is_stored : stored l (next_state growth) (next_values growth) now l.reset_audit ≡ l'

  commit_growth_inv :
      (committed : Bool) (r : List ℤ × Bool) (v : EnergyValues) (l' : Ledger)
      → commit_growth session sequence generation now committed l r ≡ ok (v, l')
      → (l.energy_state.epoch < 2 ^ 63)
        × (next_values r ≡ v)
        × (stored l (next_state r) (next_values r) now l.reset_audit ≡ l')
  unfolding commit_growth
  commit_growth_inv committed r v l' e =
      let (l1, e1, e2) =
        >>=-eq-ok (store l (next_state r) (next_values r) now l.reset_audit committed)
          (λ l1. ok (next_values r, l1)) e in
      let (fits, same, _) =
        store_inv l (next_state r) (next_values r) now l.reset_audit committed l1 e1 in
      (
        fits,
        ap (λ (q : EnergyValues × Ledger). q.0) (ok-injective e2),
        same ∙ ap (λ (q : EnergyValues × Ledger). q.1) (ok-injective e2),
      )

  bind_inv :
      (committed : Bool) (m : Result Failure (List ℤ × Bool)) (v : EnergyValues) (l' : Ledger)
      → ((r : List ℤ × Bool) → m ≡ ok r → Counted r)
      → all_positive (flatten_energy_counters session) ≡ true
      → (m >>= commit_growth session sequence generation now committed l) ≡ ok (v, l')
      → Committed v l'
  bind_inv committed m v l' counted positive e =
      let (r, e1, e2) = >>=-eq-ok m (commit_growth session sequence generation now committed l) e in
      let (fits, is_value, is_stored) = commit_growth_inv committed r v l' e2 in
      record {
        growth = r;
        is_counted = counted r e1;
        positive = positive;
        epoch_fits = fits;
        is_value = is_value;
        is_stored = is_stored;
      }

  -- Nothing changes, or a new checkpoint is committed.
  abbrev pub Outcome : EnergyValues → Ledger → Type 0
  Outcome v l' =
      ((sequence ≡ l.energy_state.source_sequence) × (l.latest_energy ≡ some v) × (l ≡ l'))
      ⊎ Committed v l'

  new_session_inv :
      (committed : Bool) (v : EnergyValues) (l' : Ledger)
      → Opens
      → all_positive (flatten_energy_counters session) ≡ true
      → new_session session sequence generation now committed l ≡ ok (v, l')
      → Committed v l'
  unfolding new_session
  new_session_inv committed v l' opens positive e =
      bind_inv committed _ v l' (λ r h. inl (opens, h)) positive e

  same_session_inv :
      (committed : Bool) (latest v : EnergyValues) (l' : Ledger)
      → all_positive (flatten_energy_counters session) ≡ true
      → session.session_id ≡ l.energy_state.session_id
      → l.latest_energy ≡ some latest
      → same_session session sequence generation now committed l latest ≡ ok (v, l')
      → Outcome v l'
  unfolding same_session
  same_session_inv committed latest v l' positive same is_latest e =
      go (ltb sequence l.energy_state.source_sequence) (sequence == l.energy_state.source_sequence)
        (same_checkpoint l.energy_state latest session generation) refl e
    where
      go :
          (stale duplicate equal : Bool)
          → (sequence == l.energy_state.source_sequence) ≡ duplicate
          → (if stale
              then err stale_sequence
              else if duplicate
              then (ensure equal different_content >> ok (latest, l))
              else (add_growth
                    (flatten_energy_counters session)
                    l.energy_state.session_counters
                    l.energy_state.lifetime_counters
                    session.saturated
                  >>= commit_growth session sequence generation now committed l))
            ≡ ok (v, l')
          → Outcome v l'
      go true duplicate equal d e = cc
      go false true false d e = cc
      go false true true d e = inl (
        (==_iff sequence l.energy_state.source_sequence).0 d,
        is_latest ∙ ap (λ (q : EnergyValues × Ledger). some q.0) (ok-injective e),
        ap (λ (q : EnergyValues × Ledger). q.1) (ok-injective e),
      )
      go false false equal d e = inr (bind_inv committed _ v l' (λ r h. inr (same, h)) positive e)

  count_checkpoint_inv :
      (committed : Bool) (o : Option EnergyValues) (v : EnergyValues) (l' : Ledger)
      → all_positive (flatten_energy_counters session) ≡ true
      → l.latest_energy ≡ o
      → count_checkpoint session sequence generation now committed l o ≡ ok (v, l')
      → Outcome v l'
  unfolding count_checkpoint
  count_checkpoint_inv committed none v l' positive o e =
      inr (new_session_inv committed v l' (inl o) positive e)
  count_checkpoint_inv committed (some latest) v l' positive o e =
      go (session.session_id == l.energy_state.session_id) refl e
    where
      differs :
          (session.session_id == l.energy_state.session_id) ≡ false
          → session.session_id ≢ l.energy_state.session_id
      differs e same = ground arith

      go :
          (same : Bool)
          → (session.session_id == l.energy_state.session_id) ≡ same
          → (if same
              then same_session session sequence generation now committed l latest
              else new_session session sequence generation now committed l)
            ≡ ok (v, l')
          → Outcome v l'
      go true same e =
          same_session_inv committed latest v l' positive
            ((==_iff session.session_id l.energy_state.session_id).0 same) o e
      go false other e = inr (new_session_inv committed v l' (inr (differs other)) positive e)

  -- A call that returns repeats the latest checkpoint, or has committed a new one.
  pub ingest_energy_inv :
      (committed : Bool) (v : EnergyValues) (l' : Ledger)
      → ingest_energy session sequence generation now committed l ≡ ok (v, l')
      → Outcome v l'
  unfolding ingest_energy
  ingest_energy_inv committed v l' e = go (all_positive (flatten_energy_counters session)) refl e
    where
      go :
          (b : Bool)
          → all_positive (flatten_energy_counters session) ≡ b
          → (ensure b negative_counter
              >> count_checkpoint session sequence generation now committed l l.latest_energy)
            ≡ ok (v, l')
          → Outcome v l'
      go true positive e = count_checkpoint_inv committed l.latest_energy v l' positive refl e
      go false negative e = cc
