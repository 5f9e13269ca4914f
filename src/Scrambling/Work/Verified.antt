-- ===== src/Scrambling/Work/Verified.antt =====
-- What verify_params accepts.
use aloe.Base.{
  arith, ℕ, ◌^◌, ◌≤◌, ◌<◌, ◌≡◌, refl, Bool, true, false, List, length, All, if◌then◌else◌, Outcome,
  ok, err,
}
use aloe.Scrambling.Sequence.{Params, max_x, nof_subframes, x2init, sequence_generation}
use aloe.Scrambling.Sequence.Gold.{AreGold, sequence_generation-AreGold}
use aloe.Scrambling.Sequence.Initial.{Verified}
use aloe.Scrambling.Work.{verify_params, outside}

outside-false : (a last : ℕ) → last < 2 ^ 31 → outside a last ≡ false → a ≤ last
outside-false a last h e = ground arith

passed :
    {A : Type 0} (test : Bool) (rest : Outcome A) (a : A)
    → (if test then err else rest) ≡ ok a
    → (test ≡ false) × (rest ≡ ok a)
passed true rest a e = cc
passed false rest a e = (refl, e)

pub verify_params_lem :
    (ps : Params) (direct : Bool) (flags : Bool × Bool)
    → verify_params ps direct ≡ ok flags
    → Verified ps
unfolding verify_params
verify_params_lem ps direct flags e =
    let (a, r) = passed (outside (Params.q ps) 1) _ flags e in
    let (b, s) = passed (outside (Params.nrnti ps) 65535) _ flags r in
    let (c, t) = passed (outside (Params.cell_gr ps) 167) _ flags s in
    let (d, u) = passed (outside (Params.cell_sec ps) 2) _ flags t in
    (
      outside-false (Params.q ps) 1 (omega arith) a,
      outside-false (Params.nrnti ps) 65535 (omega arith) b,
      outside-false (Params.cell_gr ps) 167 (omega arith) c,
      outside-false (Params.cell_sec ps) 2 (omega arith) d,
    )

-- With parameters that verify_params accepts, sequence_generation leaves, for each subframe, the Gold
-- sequence of 36.211 that its initial value gives, whatever the arrays held; `nMBSFN`, which is not
-- tested, is below 2 ^ 30.
pub sequence_generation_lem :
    (ps : Params) (direct : Bool) (flags : Bool × Bool) (x1 : List ℕ) (x2 : List (List ℕ))
    → verify_params ps direct ≡ ok flags
    → Params.n_mbsfn ps < 2 ^ 30
    → Params.nc ps ≡ 1600
    → length x1 ≡ max_x
    → length x2 ≡ nof_subframes
    → All (λ x. length x ≡ max_x) x2
    → AreGold (x2init ps) (sequence_generation ps x1 x2)
sequence_generation_lem ps direct flags x1 x2 e =
    sequence_generation-AreGold ps x1 x2 (verify_params_lem ps direct flags e)
