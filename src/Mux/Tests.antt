-- ===== src/Mux/Tests.antt =====
-- Three inputs of two, no and one samples.
use aloe.Base.{
  arith, ℕ, ◌≡◌, refl, true, false, List, [], ◌∷◌, replicate, some, copy, ok, err, fault,
}
use aloe.Mux.{sum, mux, mux_work, mux_output, demux, demux_work}
use aloe.Mux.Roundtrip.{parted, demux-mux}
use aloe.Mux.Guards.{muxing, mux_work-guards}

abbrev inputs : List (List ℕ)
inputs = (1 ∷ 2 ∷ 3 ∷ []) ∷ (4 ∷ []) ∷ (5 ∷ []) ∷ []

abbrev lengths : List ℕ
lengths = 2 ∷ 0 ∷ 1 ∷ []

abbrev empty : List (List ℕ)
empty = replicate 2 9 ∷ replicate 2 9 ∷ replicate 2 9 ∷ []

mux_work-inputs :
    mux_work
      (record { nof_inputs = 3; exclusive = false; check_all = true })
      lengths
      inputs
      (some (replicate 4 9))
    ≡ (ok 3, some (1 ∷ 2 ∷ 5 ∷ 9 ∷ []))
unfolding mux_work copy
mux_work-inputs = refl

demux_work-inputs :
    demux_work {A = ℕ} 0
      (record { nof_outputs = 3; special_output_length = 2 ∷ 0 ∷ 0 ∷ []; nof_special_outputs = 1 })
      (1 ∷ 2 ∷ 3 ∷ 4 ∷ [])
      (some (replicate 2 9) ∷ some (replicate 2 9) ∷ some (replicate 2 9) ∷ [])
      4
    ≡ some (ok ((1 ∷ 2 ∷ []) ∷ (3 ∷ 9 ∷ []) ∷ (4 ∷ 9 ∷ []) ∷ []))
unfolding demux_work copy
demux_work-inputs = refl

-- All outputs with a length of their own: the remainder by 0.
all_special :
    demux_work {A = ℕ} 0
      (record { nof_outputs = 1; special_output_length = 2 ∷ []; nof_special_outputs = 1 })
      (1 ∷ 2 ∷ [])
      (some (replicate 2 9) ∷ [])
      2
    ≡ some fault
unfolding demux_work copy
all_special = refl

demux-mux_example :
    (sent : List ℕ) × (mux 3 inputs lengths (0 ∷ 0 ∷ 0 ∷ []) 0 (replicate 5 9) ≡ (ok tt, sent))
    × (demux 0 3 sent empty lengths (0 ∷ 0 ∷ 0 ∷ []) (0 ∷ 0 ∷ 0 ∷ []) 0
        ≡ ok (parted inputs lengths empty))
unfolding sum
demux-mux_example =
    demux-mux 0 inputs empty lengths (replicate 5 9) (omega arith, (omega arith, (omega arith, tt)))
      (omega arith, (omega arith, (omega arith, tt))) (omega arith)

mux_work-guards_example :
    (mux_work (muxing 3 true true) lengths inputs (some (replicate 4 9))
      ≡ (err, some (replicate 4 9)))
    × (mux_work (muxing 3 true false) lengths inputs (some (replicate 4 9))
        ≡ mux_output (muxing 3 true false) lengths inputs (some (replicate 4 9)))
mux_work-guards_example = mux_work-guards 3 true lengths inputs (some (replicate 4 9)) (omega arith)
