-- ===== src/Energy/Sums/Alignment.antt =====
-- Arrays of counters that belong together.
use msap1_apu.Prelude.{suc, ◌^◌, ◌<◌, ◌≡◌, refl, ap, true, List, [], ◌∷◌, arith, length, All}
use msap1_apu.Prelude.Integers.{ℤ, pos, negsuc}
use msap1_apu.Energy.Columns.Laws.{FitsI64}
use msap1_apu.Energy.Sums.{all_positive}

-- A counter that is not negative and fits.
abbrev pub IsCounter : ℤ → Type 0
IsCounter (pos n) = n < 2 ^ 63
IsCounter (negsuc n) = ⊥

-- Counters at the same places: reported, of the last checkpoint, and lifetime.
abbrev pub IsAligned : List ℤ → List ℤ → List ℤ → Type 0
IsAligned [] [] [] = Unit
IsAligned (pos c ∷ cs) (pos s ∷ ss) (pos l ∷ ls) =
    (c < 2 ^ 63) × (s < 2 ^ 63) × (l < 2 ^ 63) × IsAligned cs ss ls
IsAligned _ _ _ = ⊥

-- Counters that are reported for the first time are counted from 0.
abbrev pub zeros : List ℤ → List ℤ
zeros [] = []
zeros (l ∷ ls) = pos 0 ∷ zeros ls

pub zeros-IsAligned : (cs ss ls : List ℤ) → IsAligned cs ss ls → IsAligned cs (zeros ls) ls
zeros-IsAligned [] [] [] h = tt
zeros-IsAligned (pos c ∷ cs) (pos s ∷ ss) (pos l ∷ ls) (hc, hs, hl, h) =
    (hc, omega arith, hl, zeros-IsAligned cs ss ls h)
zeros-IsAligned _ _ _ h = absurd h

pub IsAligned-length :
    (cs ss ls : List ℤ) → IsAligned cs ss ls → (length cs ≡ length ls) × (length ss ≡ length ls)
IsAligned-length [] [] [] h = (refl, refl)
IsAligned-length (pos c ∷ cs) (pos s ∷ ss) (pos l ∷ ls) (hc, hs, hl, h) =
    let (e, f) = IsAligned-length cs ss ls h in (ap suc e, ap suc f)
IsAligned-length _ _ _ h = absurd h

-- A checkpoint whose counters are not negative.
pub all_positive-IsAligned :
    (ss ls cs : List ℤ)
    → all_positive cs ≡ true
    → All FitsI64 cs
    → length cs ≡ length ls
    → IsAligned ss ss ls
    → IsAligned cs ss ls
unfolding all_positive
all_positive-IsAligned [] [] [] p f e h = tt
all_positive-IsAligned [] [] (c ∷ cs) p f e h = absurd (omega arith)
all_positive-IsAligned (pos s ∷ ss) (pos l ∷ ls) [] p f e h = absurd (omega arith)
all_positive-IsAligned (pos s ∷ ss) (pos l ∷ ls) (negsuc c ∷ cs) p f e h = ground arith
all_positive-IsAligned (pos s ∷ ss) (pos l ∷ ls) (pos c ∷ cs) p f e (hs, hs', hl, h) = (
  ground (arith, f.0),
  hs,
  hl,
  all_positive-IsAligned ss ls cs (ground arith) f.1 (omega arith) h,
)
all_positive-IsAligned _ _ _ p f e h = absurd h

pub IsAligned-fits : (cs ss ls : List ℤ) → IsAligned cs ss ls → All FitsI64 cs × All FitsI64 ls
IsAligned-fits [] [] [] h = (tt, tt)
IsAligned-fits (pos c ∷ cs) (pos s ∷ ss) (pos l ∷ ls) (hc, hs, hl, h) =
    let (e, f) = IsAligned-fits cs ss ls h in ((ground arith, e), (ground arith, f))
IsAligned-fits _ _ _ h = absurd h
