-- ===== src/Energy/Assembler/Order.antt =====
-- common/msap1/meter/energy_demand.cpp: the parts of a family may come in either order.
use msap1_apu.Prelude.{
  ℕ, ◌≡◌, refl, sym, ap, ◌∙◌, subst, ◌⊎◌, inl, inr, Bool, true, false, ◌==◌, none, some, Result, ok,
  arith, if◌then◌else◌,
}
use msap1_apu.Prelude.Integers.{ℤ}
use msap1_apu.Energy.Values.{EnergyValues}
use msap1_apu.Energy.Record.{MeterRecord, energy_part}
use msap1_apu.Energy.Family.{
  InvalidRecord, EnergyFamilyIdentity, decode_energy_identity, same_identity, decode_energy_family,
}
use msap1_apu.Energy.Assembler.{
  Assembler, EnergyAssemblyUpdate, empty, update, has_value, slot, turn_to, fill, finish,
  complete_family, place, accept_part, accept_identified, accept,
}
use msap1_apu.Energy.Assembler.Completion.{AreParts}

abbrev placed :
    MeterRecord → ℤ → Bool → Assembler × ℕ → Result InvalidRecord EnergyAssemblyUpdate × Assembler
placed r at first (b, n) = place at b n first (fill r (slot first b))

accept-eq-placed :
    (r : MeterRecord) (at : ℤ) (a : Assembler) (i : EnergyFamilyIdentity) (p : ℕ)
    → decode_energy_identity r ≡ ok i
    → energy_part r ≡ p
    → accept r at a ≡ placed r at (p == 0) (turn_to i a a.identity)
unfolding accept accept_identified accept_part
accept-eq-placed r at a i p e part =
    ap (accept_identified r at a) e ∙ ap (λ p. placed r at (p == 0) (turn_to i a a.identity)) part

if-false : {A : Type 0} (test : Bool) (x y : A) → test ≡ false → (if test then x else y) ≡ y
if-false true x y e = cc
if-false false x y e = refl

if-true : {A : Type 0} (test : Bool) (x y : A) → test ≡ true → (if test then x else y) ≡ x
if-true true x y e = refl
if-true false x y e = cc

abbrev pending : Assembler → ℕ
pending a = if has_value a.summary then 1 else if has_value a.quadrants then 1 else 0

-- Nothing is pending, or parts of another family are.
abbrev pub IsAway : Assembler → EnergyFamilyIdentity → Type 0
IsAway a i =
    (a ≡ empty)
    ⊎ ((other : EnergyFamilyIdentity) × (a.identity ≡ some other) × (same_identity other i ≡ false))

turn_away :
    (a : Assembler) (i : EnergyFamilyIdentity)
    → IsAway a i
    → (n : ℕ) × (turn_to i a a.identity ≡ (record empty { identity = some i }, n))
unfolding turn_to
turn_away a i (inl e) =
    (0, subst (λ a. turn_to i a a.identity ≡ (record empty { identity = some i }, 0)) (sym e) refl)
turn_away a i (inr (other, o, e)) =
    (pending a, ap (turn_to i a) o ∙ if-false (same_identity other i) _ _ e)

stay :
    (a : Assembler) (i j : EnergyFamilyIdentity)
    → same_identity i j ≡ true
    → turn_to j a (some i) ≡ (a, 0)
unfolding turn_to
stay a i j e = if-true (same_identity i j) _ _ e

same_identity_sym :
    (i j : EnergyFamilyIdentity) → same_identity i j ≡ true → same_identity j i ≡ true
unfolding same_identity
same_identity_sym i j e = ground arith

same_identity_trans :
    (o i j : EnergyFamilyIdentity)
    → same_identity o j ≡ true
    → same_identity j i ≡ true
    → same_identity o i ≡ true
unfolding same_identity
same_identity_trans o i j e h = ground arith

false-unless : (test : Bool) → (test ≡ true → true ≡ false) → test ≡ false
false-unless true h = h refl
false-unless false h = refl

also-IsAway :
    (a : Assembler) (i j : EnergyFamilyIdentity)
    → same_identity i j ≡ true
    → IsAway a i
    → IsAway a j
also-IsAway a i j e (inl idle) = inl idle
also-IsAway a i j e (inr (other, o, h)) = inr (
  other,
  o,
  false-unless (same_identity other j)
      (λ same. sym (same_identity_trans other i j same (same_identity_sym i j e)) ∙ h),
)

module _ (s q : MeterRecord) (parts : AreParts s q) (v : EnergyValues) (early late : ℤ) where
  started_summary :
      (a : Assembler)
      → IsAway a parts.summary_identity
      → (accept s early a).1
        ≡ record { identity = some parts.summary_identity; summary = some s; quadrants = none }
  unfolding place fill complete_family
  started_summary a e =
      let (n, turned) = turn_away a parts.summary_identity e in
      ap (λ x. x.1)
        (accept-eq-placed s early a parts.summary_identity 0 parts.decodes_summary parts.is_summary
          ∙ ap (placed s early true) turned)

  started_quadrants :
      (a : Assembler)
      → IsAway a parts.quadrant_identity
      → (accept q early a).1
        ≡ record { identity = some parts.quadrant_identity; summary = none; quadrants = some q }
  unfolding place fill complete_family
  started_quadrants a e =
      let (n, turned) = turn_away a parts.quadrant_identity e in
      ap (λ x. x.1)
        (accept-eq-placed q early a parts.quadrant_identity 1 parts.decodes_quadrants
            parts.is_quadrants
          ∙ ap (placed q early false) turned)

  finished_quadrants :
      decode_energy_family s q late ≡ ok v
      → accept q late
          (record { identity = some parts.summary_identity; summary = some s; quadrants = none })
        ≡ (ok (update (some v) 0 false), empty)
  unfolding place fill complete_family finish
  finished_quadrants d =
      accept-eq-placed q late _ parts.quadrant_identity 1 parts.decodes_quadrants parts.is_quadrants
      ∙ (ap (placed q late false)
            (stay _ parts.summary_identity parts.quadrant_identity parts.one_family)
          ∙ ap (finish 0 false _) d)

  finished_summary :
      decode_energy_family s q late ≡ ok v
      → accept s late
          (record { identity = some parts.quadrant_identity; summary = none; quadrants = some q })
        ≡ (ok (update (some v) 0 false), empty)
  unfolding place fill complete_family finish
  finished_summary d =
      accept-eq-placed s late _ parts.summary_identity 0 parts.decodes_summary parts.is_summary
      ∙ (ap (placed s late true) (
            stay _ parts.quadrant_identity parts.summary_identity
              (same_identity_sym parts.summary_identity parts.quadrant_identity parts.one_family))
          ∙ ap (finish 0 false _) d)

-- Where the assembler is idle or holds parts of another family, the two parts of a family that
-- decodes, in either order, complete it: the second call gives the values that are decoded from the
-- summary and the quadrant record, reports no incomplete family and no duplicate, and leaves the
-- assembler empty.
pub either_order_completes :
    (s q : MeterRecord) (parts : AreParts s q) (v : EnergyValues) (early late : ℤ) (a : Assembler)
    → decode_energy_family s q late ≡ ok v
    → IsAway a parts.summary_identity
    → (accept q late (accept s early a).1 ≡ (ok (update (some v) 0 false), empty))
      × (accept s late (accept q early a).1 ≡ (ok (update (some v) 0 false), empty))
either_order_completes s q parts v early late a d away = (
  ap (accept q late) (started_summary s q parts v early late a away)
      ∙ finished_quadrants s q parts v early late d,
  ap (accept s late) (
        started_quadrants s q parts v early late a
          (also-IsAway a parts.summary_identity parts.quadrant_identity parts.one_family away))
      ∙ finished_summary s q parts v early late d,
)
