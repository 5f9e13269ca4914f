-- ===== src/Ratematching/Tests.antt =====
-- A block of one row of 32 columns, and one that is filled up.
use aloe.Base.{arith, ℕ, ◌≡◌, refl, some, List, [], ◌∷◌, replicate}
use aloe.Ratematching.{char_interleave, interleave_from, pad, index, reduce, perm}
use aloe.Ratematching.Select.{char_ratematching, circular, select}
use aloe.Ratematching.Selection.{IsSelection, char_ratematching_lem}
use aloe.Ratematching.Roundtrip.{there_and_back, block, float_deinterleave-char_interleave}

-- With one row, the interleaver reads the block in the order of PERM, its own inverse.
one_row :
    char_interleave 2 perm 32
    ≡ some (
        0 ∷ 1 ∷ 2 ∷ 3 ∷ 4 ∷ 5 ∷ 6 ∷ 7 ∷ 8 ∷ 9 ∷ 10 ∷ 11 ∷ 12 ∷ 13 ∷ 14 ∷ 15 ∷ 16 ∷ 17 ∷ 18 ∷ 19 ∷ 20
        ∷ 21 ∷ 22 ∷ 23 ∷ 24 ∷ 25 ∷ 26 ∷ 27 ∷ 28 ∷ 29 ∷ 30 ∷ 31 ∷ [])
unfolding char_interleave interleave_from pad index reduce
one_row = refl

abbrev five_bits : List ℕ
five_bits = 1 ∷ 0 ∷ 1 ∷ 1 ∷ 0 ∷ replicate 27 0

float_deinterleave-char_interleave_example :
    there_and_back 2 five_bits (replicate 32 0) 5 ≡ some (block 2 five_bits 5)
float_deinterleave-char_interleave_example =
    float_deinterleave-char_interleave 2 five_bits (replicate 32 0) 5 refl refl

abbrev ones : List ℕ
ones = replicate 32 1

-- Sub-blocks of one row; the first bit sent is the one of column 2 of the first sub-block.
three_bits : char_ratematching ones (replicate 32 0) (replicate 32 2) 32 3 0 ≡ some (1 ∷ 1 ∷ 1 ∷ [])
unfolding char_ratematching select
three_bits = refl

char_ratematching_lem_example :
    IsSelection 3 (char_ratematching ones (replicate 32 0) (replicate 32 2) 32 3 0)
unfolding circular
char_ratematching_lem_example =
    char_ratematching_lem ones (replicate 32 0) (replicate 32 2) 32 3 0 0 refl refl refl
      (omega arith) (omega arith) (omega arith) (omega arith) (omega arith)
