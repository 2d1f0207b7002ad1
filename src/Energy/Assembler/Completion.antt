-- ===== src/Energy/Assembler/Completion.antt =====
-- common/msap1/meter/energy_demand.cpp: what a family is made of, over any calls of `accept`.
use msap1_apu.Prelude.{
  ℕ, ◌≡◌, refl, ap, ◌∙◌, subst, ◌⊎◌, inl, inr, Bool, true, false, ◌==◌, ==_iff, List, [], ◌∷◌,
  Option, none, some, Result, ok, err, ensure, ok-injective, >>=-eq-ok, if◌then◌else◌,
}
use msap1_apu.Prelude.Integers.{ℤ}
use msap1_apu.Energy.Values.{EnergyValues, same_list}
use msap1_apu.Energy.Record.{MeterRecord, energy_part}
use msap1_apu.Energy.Family.{
  InvalidRecord, duplicate_differs, summary_missing, quadrant_missing, identity_mismatch,
  EnergyFamilyIdentity, decode_energy_identity, same_identity, decode_energy_family,
}
use msap1_apu.Energy.Assembler.{
  Assembler, pending_parts, EnergyAssemblyUpdate, empty, put, slot, turn_to, fill, finish,
  complete_family, place, accept_part, accept_identified, accept,
}

-- Calls of `accept`, the latest first.
abbrev pub Calls : Type 0
Calls = List (MeterRecord × ℤ)

unfoldable pub assembled : Calls → Assembler
unfolding accept
assembled [] = empty
assembled ((r, at) ∷ calls) = (accept r at (assembled calls)).1

abbrev pub Given : Calls → MeterRecord → Type 0
Given [] r = ⊥
Given ((given, at) ∷ calls) r = (given ≡ r) ⊎ Given calls r

either :
    {A : Type 0} (P : A → Type 0) (test : Bool) {x y : A} → P x → P y → P (if test then x else y)
either P true p q = p
either P false p q = q

module _ (P : MeterRecord → Type 0) where
  abbrev Each : Option MeterRecord → Type 0
  Each none = Unit
  Each (some r) = P r

  abbrev pub Known : Assembler → Type 0
  Known a = Each a.summary × Each a.quadrants

  abbrev pub Made : ℤ → EnergyValues → Type 0
  Made at v =
      (s : MeterRecord) × (q : MeterRecord) × P s × P q × (decode_energy_family s q at ≡ ok v)

  abbrev pub Completed : ℤ → Option EnergyValues → Assembler → Type 0
  Completed at none a = Unit
  Completed at (some v) a = Made at v × (a ≡ empty)

  abbrev pub Outcome : ℤ → Result InvalidRecord EnergyAssemblyUpdate × Assembler → Type 0
  Outcome at (err failure, a) = Known a
  Outcome at (ok update, a) = Known a × Completed at update.completed a

  finish-Outcome :
      (at : ℤ) (n : ℕ) (duplicate : Bool) (a : Assembler) (s q : MeterRecord)
      → Known a
      → P s
      → P q
      → (m : Result InvalidRecord EnergyValues) → decode_energy_family s q at ≡ m
      → Outcome at (finish n duplicate a m)
  unfolding finish
  finish-Outcome at n duplicate a s q k hs hq (ok v) e = ((tt, tt), ((s, q, hs, hq, e), refl))
  finish-Outcome at n duplicate a s q k hs hq (err failure) e = k

  complete_family-Outcome :
      (at : ℤ) (n : ℕ) (duplicate : Bool) (a : Assembler) (s q : Option MeterRecord)
      → Known a
      → Each s
      → Each q
      → Outcome at (complete_family at n duplicate a s q)
  unfolding complete_family
  complete_family-Outcome at n duplicate a (some s) (some q) k hs hq =
      finish-Outcome at n duplicate a s q k hs hq (decode_energy_family s q at) refl
  complete_family-Outcome at n duplicate a (some s) none k hs hq = (k, tt)
  complete_family-Outcome at n duplicate a none q k hs hq = (k, tt)

  place-Outcome :
      (at : ℤ) (a : Assembler) (n : ℕ) (first : Bool)
      (m : Result InvalidRecord (MeterRecord × Bool))
      → Known a
      → ((held : MeterRecord) (duplicate : Bool) → m ≡ ok (held, duplicate) → P held)
      → Outcome at (place at a n first m)
  unfolding place
  place-Outcome at a n first (err failure) k h = k
  place-Outcome at a n true (ok (held, duplicate)) k h =
      let p = h held duplicate refl in
      complete_family-Outcome at n duplicate (put true held a) (some held) a.quadrants (p, k.1) p
        k.1
  place-Outcome at a n false (ok (held, duplicate)) k h =
      let p = h held duplicate refl in
      complete_family-Outcome at n duplicate (put false held a) a.summary (some held) (k.0, p) k.0 p

  slot-Known : (first : Bool) (a : Assembler) → Known a → Each (slot first a)
  slot-Known true a k = k.0
  slot-Known false a k = k.1

  fill_known :
      (r : MeterRecord) (o : Option MeterRecord)
      → P r
      → Each o
      → (held : MeterRecord) (duplicate : Bool) → fill r o ≡ ok (held, duplicate)
      → P held
  unfolding fill
  fill_known r none p k held duplicate e = subst P (ap (λ x. x.0) (ok-injective e)) p
  fill_known r (some old) p k held duplicate e =
      accepted (same_list ◌==◌ old.words r.words) (ok (old, true))
        (λ e. ap (λ x. x.0) (ok-injective e)) e
    where
      accepted :
          (same : Bool) (m : Result InvalidRecord (MeterRecord × Bool))
          → (m ≡ ok (held, duplicate) → old ≡ held)
          → (if same then m else err duplicate_differs) ≡ ok (held, duplicate)
          → P held
      accepted true m h e = subst P (h e) k
      accepted false m h e = cc

  turn_to-Known :
      (incoming : EnergyFamilyIdentity) (a : Assembler) (o : Option EnergyFamilyIdentity)
      → Known a
      → Known (turn_to incoming a o).0
  unfolding turn_to
  turn_to-Known incoming a none k = k
  turn_to-Known incoming a (some current) k =
      either {A = Assembler × ℕ} (λ x. Known x.0) (same_identity current incoming) k (tt, tt)

  accept_part-Outcome :
      (r : MeterRecord) (at : ℤ) (a : Assembler) (n : ℕ)
      → P r
      → Known a
      → Outcome at (accept_part r at (a, n))
  unfolding accept_part
  accept_part-Outcome r at a n p k =
      let first = energy_part r == 0 in
      place-Outcome at a n first (fill r (slot first a)) k
        (fill_known r (slot first a) p (slot-Known first a k))

  accept_identified-Outcome :
      (r : MeterRecord) (at : ℤ) (a : Assembler) (m : Result InvalidRecord EnergyFamilyIdentity)
      → P r
      → Known a
      → Outcome at (accept_identified r at a m)
  unfolding accept_identified
  accept_identified-Outcome r at a (err failure) p k = k
  accept_identified-Outcome r at a (ok incoming) p k =
      let turned = turn_to incoming a a.identity in
      accept_part-Outcome r at turned.0 turned.1 p (turn_to-Known incoming a a.identity k)

  pub accept-Outcome :
      (r : MeterRecord) (at : ℤ) (a : Assembler) → P r → Known a → Outcome at (accept r at a)
  unfolding accept
  accept-Outcome r at a p k = accept_identified-Outcome r at a (decode_energy_identity r) p k

  Outcome-Known :
      (at : ℤ) (x : Result InvalidRecord EnergyAssemblyUpdate × Assembler)
      → Outcome at x
      → Known x.1
  Outcome-Known at (ok update, a) h = h.0
  Outcome-Known at (err failure, a) h = h

weaken :
    (P Q : MeterRecord → Type 0) (a : Assembler)
    → ((r : MeterRecord) → P r → Q r)
    → Known P a
    → Known Q a
weaken P Q a h k = (each a.summary k.0, each a.quadrants k.1)
  where
    each : (o : Option MeterRecord) → Each P o → Each Q o
    each none u = tt
    each (some r) p = h r p

assembled-Known : (calls : Calls) → Known (Given calls) (assembled calls)
unfolding assembled
assembled-Known [] = (tt, tt)
assembled-Known ((r, at) ∷ calls) =
    Outcome-Known (Given ((r, at) ∷ calls)) at (accept r at (assembled calls)) (
      accept-Outcome (Given ((r, at) ∷ calls)) r at (assembled calls) (inl refl) (
        weaken (Given calls) (Given ((r, at) ∷ calls)) (assembled calls) (λ r. inr)
          (assembled-Known calls)))

ensured : (test : Bool) (f : InvalidRecord) (u : Unit {0}) → ensure test f ≡ ok u → test ≡ true
ensured true f u e = refl
ensured false f u e = cc

-- Two records that are the parts of one family.
pub record AreParts (s q : MeterRecord) : Type 0 where
  pub summary_identity : EnergyFamilyIdentity
  pub quadrant_identity : EnergyFamilyIdentity
  pub decodes_summary : decode_energy_identity s ≡ ok summary_identity
  pub decodes_quadrants : decode_energy_identity q ≡ ok quadrant_identity
  pub is_summary : energy_part s ≡ 0
  pub is_quadrants : energy_part q ≡ 1
  pub one_family : same_identity summary_identity quadrant_identity ≡ true

decode_energy_family-AreParts :
    (s q : MeterRecord) (at : ℤ) (v : EnergyValues)
    → decode_energy_family s q at ≡ ok v
    → AreParts s q
unfolding decode_energy_family
decode_energy_family-AreParts s q at v e =
    let (i, e1, e) = >>=-eq-ok (decode_energy_identity s) _ e in
    let (j, e2, e) = >>=-eq-ok (decode_energy_identity q) _ e in
    let (u, e3, e) = >>=-eq-ok (ensure (energy_part s == 0) summary_missing) _ e in
    let (u', e4, e) = >>=-eq-ok (ensure (energy_part q == 1) quadrant_missing) _ e in
    let (u'', e5, e) = >>=-eq-ok (ensure (same_identity i j) identity_mismatch) _ e in
    record {
      summary_identity = i;
      quadrant_identity = j;
      decodes_summary = e1;
      decodes_quadrants = e2;
      is_summary = (==_iff _ _).0 (ensured _ summary_missing u e3);
      is_quadrants = (==_iff _ _).0 (ensured _ quadrant_missing u' e4);
      one_family = ensured _ identity_mismatch u'' e5;
    }

made :
    (P : MeterRecord → Type 0) (at : ℤ) (v : EnergyValues) (o : Option EnergyValues) (a : Assembler)
    → o ≡ some v
    → Completed P at o a
    → Made P at v × (a ≡ empty)
made P at v (some w) a e h = subst (λ x. Made P at x × (a ≡ empty)) (some_eq w v e) h
  where
    some_eq : (w v : EnergyValues) → ◌≡◌ {A = Option EnergyValues} (some w) (some v) → w ≡ v
    some_eq w v e = cc
made P at v none a e h = cc

completed :
    (P : MeterRecord → Type 0) (at : ℤ) (update : EnergyAssemblyUpdate) (v : EnergyValues)
    (x : Result InvalidRecord EnergyAssemblyUpdate × Assembler)
    → x.0 ≡ ok update
    → update.completed ≡ some v
    → Outcome P at x
    → Made P at v × (x.1 ≡ empty)
completed P at update v (err failure, a) e c h = cc
completed P at update v (ok given, a) e c h =
    made P at v given.completed a (ap (λ u. u.completed) (ok-injective e) ∙ c) h.1

-- After any calls of `accept`, in any order and with any failures between, a call that completes a
-- family gives the values of a summary and a quadrant record that were both given to the assembler,
-- that carry one family identity, and afterwards nothing is pending.
pub accept_completes :
    (calls : Calls) (r : MeterRecord) (at : ℤ) (update : EnergyAssemblyUpdate) (v : EnergyValues)
    → (accept r at (assembled calls)).0 ≡ ok update
    → update.completed ≡ some v
    → (s : MeterRecord) × (q : MeterRecord) × Given ((r, at) ∷ calls) s
      × Given ((r, at) ∷ calls) q
      × AreParts s q
      × (decode_energy_family s q at ≡ ok v)
      × (pending_parts (assembled ((r, at) ∷ calls)) ≡ 0)
unfolding assembled pending_parts
accept_completes calls r at update v e c =
    let P = Given ((r, at) ∷ calls) in
    let earlier = weaken (Given calls) P (assembled calls) (λ r. inr) (assembled-Known calls) in
    let ((s, q, hs, hq, d), idle) =
      completed P at update v (accept r at (assembled calls)) e c
        (accept-Outcome P r at (assembled calls) (inl refl) earlier) in
    (s, q, hs, hq, decode_energy_family-AreParts s q at v d, d, ap pending_parts idle)
