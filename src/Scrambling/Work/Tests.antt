-- ===== src/Scrambling/Work/Tests.antt =====
-- The placeholder bits of a short input, and the generation of the sequences of a cell.
use aloe.Base.{
  arith, ℕ, zero, suc, ◌≡◌, refl, false, List, [], ◌∷◌, All, length, replicate, length-replicate,
  ok,
}
use aloe.Scrambling.Sequence.{Params, max_x, nof_subframes, x2init, sequence_generation}
use aloe.Scrambling.Sequence.Gold.{AreGold}
use aloe.Scrambling.Work.{verify_params, identify_xy, set_xy}
use aloe.Scrambling.Work.Verified.{sequence_generation_lem}

placeholders :
    identify_xy (1 ∷ 120 ∷ 121 ∷ []) ≡ ok (1 ∷ 0 ∷ 0 ∷ [], record { x = 1 ∷ []; y = 2 ∷ [] })
unfolding identify_xy
placeholders = refl

placed : set_xy (0 ∷ 0 ∷ 0 ∷ []) record { x = 1 ∷ []; y = 2 ∷ [] } ≡ ok (0 ∷ 1 ∷ 1 ∷ [])
unfolding set_xy
placed = refl

abbrev cell : Params
cell = record { q = 1; nc = 1600; cell_gr = 3; cell_sec = 2; nrnti = 61; n_mbsfn = 0; channel = 0 }

abbrev row : List ℕ
row = replicate max_x 0

row_size : length row ≡ max_x
row_size = length-replicate {A = ℕ} max_x 0

cell_passes : verify_params cell false ≡ ok (false, false)
unfolding verify_params
cell_passes = refl

same_rows : (n : ℕ) → All (λ x. length x ≡ max_x) (replicate n row)
same_rows zero = tt
same_rows (suc n) = (row_size, same_rows n)

sequence_generation_lem_example :
    AreGold (x2init cell) (sequence_generation cell row (replicate nof_subframes row))
sequence_generation_lem_example =
    sequence_generation_lem cell false (false, false) row (replicate nof_subframes row) cell_passes
      (omega arith) refl row_size (length-replicate nof_subframes row) (same_rows nof_subframes)
