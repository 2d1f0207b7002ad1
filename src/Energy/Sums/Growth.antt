-- ===== src/Energy/Sums/Growth.antt =====
-- Sums of the lifetime counters: over any checkpoints of a session, a lifetime counter grows by what
-- the session counter grows by.
use msap1_apu.Prelude.{
  ℕ, ◌+◌, ◌-◌, ◌^◌, ◌≤◌, ◌<◌, min, ◌≡◌, refl, sym, ap, ◌∙◌, Bool, true, false, ◌||◌, ltb, subst,
  ◌⊎◌, inl, inr, List, [], ◌∷◌, Result, ok, err, ◌>>=◌, arith, ok-injective, >>=-eq-ok,
}
use msap1_apu.Prelude.Integers.{ℤ, pos, above, ◌+ℤ◌, ◌-ℤ◌, ltb_ℤ}
use msap1_apu.Energy.Columns.{Failure, counter_rollback}
use msap1_apu.Energy.Sums.{add_growth, add_session, saturating_add}
use msap1_apu.Energy.Sums.Alignment.{IsAligned, zeros, zeros-IsAligned}

-- From session counters `s` to `c`, the lifetime counters grow from `l` to `t`, up to the maximum.
abbrev pub Grown : List ℤ → List ℤ → List ℤ → List ℤ → Type 0
Grown [] [] [] [] = Unit
Grown (s ∷ ss) (c ∷ cs) (l ∷ ls) (t ∷ ts) =
    (above s ≤ above c)
    × (above t ≡ min (above l + (above c - above s)) (2 ^ 63 - 1))
    × Grown ss cs ls ts
Grown _ _ _ _ = ⊥

saturating_add_lem :
    (l d : ℕ) (b : Bool)
    → l < 2 ^ 63
    → d < 2 ^ 63
    → saturating_add (pos l) (pos d) b
      ≡ ok (pos (min (l + d) (2 ^ 63 - 1)), b || ltb (2 ^ 63 - 1) (l + d))
unfolding saturating_add ◌+ℤ◌ ◌-ℤ◌
saturating_add_lem l d b hl hd = ground arith

sub-pos : (c s : ℕ) → s ≤ c → pos c -ℤ pos s ≡ pos (c - s)
unfolding ◌-ℤ◌
sub-pos c s h = ground arith

-- One round of the loop.
add_growth_step :
    (c s l : ℕ) (cs ss ls : List ℤ) (b : Bool)
    → s ≤ c
    → c < 2 ^ 63
    → l < 2 ^ 63
    → add_growth (pos c ∷ cs) (pos s ∷ ss) (pos l ∷ ls) b ≡ (
        add_growth cs ss ls (b || ltb (2 ^ 63 - 1) (l + (c - s))) >>= λ r.
        ok (pos (min (l + (c - s)) (2 ^ 63 - 1)) ∷ r.0, r.1))
unfolding add_growth
add_growth_step c s l cs ss ls b h hc hl =
    let ordered : ltb_ℤ (pos c) (pos s) ≡ false = ground arith in
    rw (add_growth, ordered, sub-pos c s h, saturating_add_lem l (c - s) b hl (omega arith)) refl

add_growth_rollback :
    (c s l : ℕ) (cs ss ls : List ℤ) (b : Bool)
    → c < s
    → add_growth (pos c ∷ cs) (pos s ∷ ss) (pos l ∷ ls) b ≡ err counter_rollback
unfolding add_growth
add_growth_rollback c s l cs ss ls b h =
    let reversed : ltb_ℤ (pos c) (pos s) ≡ true = ground arith in rw (add_growth, reversed) refl

-- What a round that does not throw has done.
add_growth_inv :
    (c s l : ℕ) (cs ss ls : List ℤ) (b : Bool) (r : List ℤ × Bool)
    → c < 2 ^ 63
    → l < 2 ^ 63
    → add_growth (pos c ∷ cs) (pos s ∷ ss) (pos l ∷ ls) b ≡ ok r
    → (s ≤ c)
      × (q : List ℤ × Bool) × (add_growth cs ss ls (b || ltb (2 ^ 63 - 1) (l + (c - s))) ≡ ok q)
      × ((pos (min (l + (c - s)) (2 ^ 63 - 1)) ∷ q.0, q.1) ≡ r)
add_growth_inv c s l cs ss ls b r hc hl e = elim order [
  | inl less ↦ absurd (refused (sym (add_growth_rollback c s l cs ss ls b less) ∙ e))
  | inr more ↦
      (let (q, others, e') =
          >>=-eq-ok (add_growth cs ss ls (b || ltb (2 ^ 63 - 1) (l + (c - s)))) _
            (sym (add_growth_step c s l cs ss ls b more hc hl) ∙ e) in
        (more, q, others, ok-injective e'))
]
  where
    order : (c < s) ⊎ (s ≤ c)
    order = omega arith

    refused : {r : List ℤ × Bool} → err counter_rollback ≡ ok r → ⊥
    refused h = cc

pub add_growth_lem :
    (cs ss ls : List ℤ) (b : Bool) (r : List ℤ × Bool)
    → IsAligned cs ss ls
    → add_growth cs ss ls b ≡ ok r
    → IsAligned cs cs r.0 × Grown ss cs ls r.0
unfolding add_growth
add_growth_lem [] [] [] b r h e =
    subst (λ (r : List ℤ × Bool). IsAligned [] [] r.0 × Grown [] [] [] r.0) (ok-injective e)
      (tt, tt)
add_growth_lem (pos c ∷ cs) (pos s ∷ ss) (pos l ∷ ls) b r (hc, hs, hl, h) e =
    let (more, q, others, e') = add_growth_inv c s l cs ss ls b r hc hl e in
    let (aligned, grown) =
      add_growth_lem cs ss ls (b || ltb (2 ^ 63 - 1) (l + (c - s))) q h others in
    subst
      (λ (r : List ℤ × Bool).
        IsAligned (pos c ∷ cs) (pos c ∷ cs) r.0 × Grown (pos s ∷ ss) (pos c ∷ cs) (pos l ∷ ls) r.0)
      e' ((hc, hc, omega arith, aligned), (more, refl, grown))
add_growth_lem _ _ _ b r h e = absurd h

pub Grown-refl : (cs ss ls : List ℤ) → IsAligned cs ss ls → Grown ss ss ls ls
Grown-refl [] [] [] h = tt
Grown-refl (pos c ∷ cs) (pos s ∷ ss) (pos l ∷ ls) (hc, hs, hl, h) =
    (omega arith, omega arith, Grown-refl cs ss ls h)
Grown-refl _ _ _ h = absurd h

pub Grown-trans :
    (ss cs ds ls ts us : List ℤ) → Grown ss cs ls ts → Grown cs ds ts us → Grown ss ds ls us
Grown-trans [] [] [] [] [] [] g h = tt
Grown-trans (s ∷ ss) (c ∷ cs) (d ∷ ds) (l ∷ ls) (t ∷ ts) (u ∷ us) (a, e, g) (b, f, h) =
    (omega arith, omega (arith, e, f, a, b), Grown-trans ss cs ds ls ts us g h)
Grown-trans _ _ _ _ _ _ g h = ground arith

sub-zero : (c : ℕ) → pos c -ℤ pos 0 ≡ pos c
unfolding ◌-ℤ◌
sub-zero c = ground arith

-- What the first round makes of the others.
abbrev first_round :
    ℕ → ℕ → (Bool → Result Failure (List ℤ × Bool)) → Bool → Result Failure (List ℤ × Bool)
first_round c l others b =
    others (b || ltb (2 ^ 63 - 1) (l + c)) >>= λ r. ok (pos (min (l + c) (2 ^ 63 - 1)) ∷ r.0, r.1)

add_session_step :
    (c l : ℕ) (cs ls : List ℤ) (b : Bool)
    → c < 2 ^ 63
    → l < 2 ^ 63
    → add_session (pos c ∷ cs) (pos l ∷ ls) b ≡ first_round c l (add_session cs ls) b
unfolding add_session
add_session_step c l cs ls b hc hl = rw (add_session, saturating_add_lem l c b hl hc) refl

add_growth_step_zero :
    (c l : ℕ) (cs ss ls : List ℤ) (b : Bool)
    → c < 2 ^ 63
    → l < 2 ^ 63
    → add_growth (pos c ∷ cs) (pos 0 ∷ ss) (pos l ∷ ls) b ≡ first_round c l (add_growth cs ss ls) b
unfolding add_growth
add_growth_step_zero c l cs ss ls b hc hl =
    let counted : ltb_ℤ (pos c) (pos 0) ≡ false = ground arith in
    rw (add_growth, counted, sub-zero c, saturating_add_lem l c b hl hc) refl

add_session_lem :
    (cs ss ls : List ℤ) (b : Bool)
    → IsAligned cs ss ls
    → add_session cs ls b ≡ add_growth cs (zeros ls) ls b
unfolding add_session add_growth
add_session_lem [] [] [] b h = refl
add_session_lem (pos c ∷ cs) (pos s ∷ ss) (pos l ∷ ls) b (hc, hs, hl, h) =
    add_session_step c l cs ls b hc hl
    ∙ ap (λ m. m >>= λ r. ok (pos (min (l + c) (2 ^ 63 - 1)) ∷ r.0, r.1))
        (add_session_lem cs ss ls (b || ltb (2 ^ 63 - 1) (l + c)) h)
    ∙ sym (add_growth_step_zero c l cs (zeros ls) ls b hc hl)
add_session_lem _ _ _ b h = absurd h

pub add_session-Grown :
    (cs ss ls : List ℤ) (b : Bool) (r : List ℤ × Bool)
    → IsAligned cs ss ls
    → add_session cs ls b ≡ ok r
    → IsAligned cs cs r.0 × Grown (zeros ls) cs ls r.0
add_session-Grown cs ss ls b r h e =
    add_growth_lem cs (zeros ls) ls b r (zeros-IsAligned cs ss ls h)
      (sym (add_session_lem cs ss ls b h) ∙ e)

-- Once saturated, always saturated.
pub add_growth_saturated :
    (cs ss ls : List ℤ) (r : List ℤ × Bool)
    → IsAligned cs ss ls
    → add_growth cs ss ls true ≡ ok r
    → r.1 ≡ true
unfolding add_growth
add_growth_saturated [] [] [] r h e = ap (λ (r : List ℤ × Bool). r.1) (sym (ok-injective e))
add_growth_saturated (pos c ∷ cs) (pos s ∷ ss) (pos l ∷ ls) r (hc, hs, hl, h) e =
    let (_, q, others, e') = add_growth_inv c s l cs ss ls true r hc hl e in
    ap (λ (r : List ℤ × Bool). r.1) (sym e') ∙ add_growth_saturated cs ss ls q h others
add_growth_saturated _ _ _ r h e = absurd h

pub add_session_saturated :
    (cs ss ls : List ℤ) (r : List ℤ × Bool)
    → IsAligned cs ss ls
    → add_session cs ls true ≡ ok r
    → r.1 ≡ true
add_session_saturated cs ss ls r h e =
    add_growth_saturated cs (zeros ls) ls r (zeros-IsAligned cs ss ls h)
      (sym (add_session_lem cs ss ls true h) ∙ e)
