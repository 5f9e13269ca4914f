-- ===== src/Padding/Tests.antt =====
-- Two packets of two samples.
use aloe.Base.{arith, ℕ, ◌≡◌, refl, List, [], ◌∷◌, ◌++◌, replicate, some, ok, err, fault, copy}
use aloe.Padding.{work}
use aloe.Padding.Work.{padding, unpadding, work-padding-unpadding}

abbrev samples : List ℕ
samples = 1 ∷ 2 ∷ 3 ∷ 4 ∷ []

work-samples :
    work {A = ℕ} 0 (padding 1 2 2) samples 4 (replicate 11 9)
    ≡ (ok (some 10), 0 ∷ 1 ∷ 2 ∷ 0 ∷ 0 ∷ 0 ∷ 3 ∷ 4 ∷ 0 ∷ 0 ∷ 9 ∷ [])
unfolding work copy
work-samples = refl

-- Three samples are not two packets; packets shorter than the padding make a negative length.
odd_samples : work {A = ℕ} 0 (padding 1 2 2) samples 3 (replicate 11 9) ≡ (err, replicate 11 9)
unfolding work
odd_samples = refl

short_packets :
    work {A = ℕ} 0 (unpadding 1 2 2) samples 4 (replicate 11 9) ≡ (fault, replicate 11 9)
unfolding work
short_packets = refl

work-padding-unpadding_example :
    (sent : List ℕ) × (work 0 (padding 1 2 2) samples 4 (replicate 10 9) ≡ (ok (some 10), sent))
    × (work 0 (unpadding 1 2 2) sent 10 (replicate 5 9) ≡ (ok (some 4), samples ++ (9 ∷ [])))
work-padding-unpadding_example =
    work-padding-unpadding 0 1 2 2 2 samples (replicate 10 9) (replicate 5 9) (omega arith)
      (omega arith) (omega arith) (omega arith) (omega arith)
