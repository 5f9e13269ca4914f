-- ===== src/Scrambling/Sequence/Initial.antt =====
-- The values that x2init starts the registers of the second sequence with: 31 bits, if the parameters
-- are in their ranges.
use native.Mathlib.Nat.{mul-le-mul}
use aloe.Base.{
  arith, ℕ, zero, suc, ◌+◌, ◌-◌, ◌*◌, ◌%◌, ◌^◌, ◌==◌, ◌≤◌, ◌<◌, ◌≡◌, ap, Bool, true, false, List,
  All, if◌then◌else◌, tabulate, word_mod, replicate, length, length-tabulate, length-replicate,
}
use aloe.Scrambling.Sequence.{Params, nof_subframes, x2init}

-- The ranges that verify_params tests.
abbrev pub Verified : Params → Type 0
Verified ps =
    (Params.q ps ≤ 1)
    × (Params.nrnti ps ≤ 65535)
    × (Params.cell_gr ps ≤ 167)
    × (Params.cell_sec ps ≤ 2)

module _ (f : ℕ → ℕ) where
  -- The values of ten subframes.
  All-tabulate :
      (n i : ℕ)
      → ((k : ℕ) → k < i + n → f k < 2 ^ 31)
      → All (λ v. v < 2 ^ 31) (tabulate (λ k. f k % word_mod) n i)
  unfolding tabulate
  All-tabulate zero i h = tt
  All-tabulate (suc n) i h =
      (omega (arith, h i (omega arith)), All-tabulate n (i + 1) λ k l. h k (omega arith))

cells : (n n_cell : ℕ) → n < 10 → n_cell ≤ 503 → (n + 1) * (2 * n_cell + 1) ≤ 10 * 1007
cells n n_cell h l = mul-le-mul {n₂ = 10} {m₂ = 1007} (omega arith) (omega arith)

-- A value of 31 bits for each subframe.
abbrev pub Fits : List ℕ → Type 0
Fits xs = (length xs ≡ nof_subframes) × All (λ v. v < 2 ^ 31) xs

Fits-tabulate :
    (f : ℕ → ℕ)
    → ((k : ℕ) → k < nof_subframes → f k < 2 ^ 31)
    → Fits (tabulate (λ n. f n % word_mod) nof_subframes 0)
Fits-tabulate f h = (
  length-tabulate (λ n. f n % word_mod) nof_subframes 0,
  All-tabulate f nof_subframes 0 λ k l. h k (omega arith),
)

Fits-if : (t : Bool) (xs ys : List ℕ) → Fits xs → Fits ys → Fits (if t then xs else ys)
Fits-if true xs ys h l = h
Fits-if false xs ys h l = l

All-zeros : (n : ℕ) → All (λ v. v < 2 ^ 31) (replicate n 0)
All-zeros zero = tt
All-zeros (suc n) = (omega arith, All-zeros n)

zeros : (n : ℕ) → length {A = ℕ} (replicate n 0) ≡ n
zeros n = length-replicate n 0

pub x2init-Fits : (ps : Params) → Verified ps → Params.n_mbsfn ps < 2 ^ 30 → Fits (x2init ps)
unfolding x2init
x2init-Fits ps (a, b, c, d) e =
    let n_cell = 3 * Params.cell_gr ps + Params.cell_sec ps in
    let channel = Params.channel ps in
    Fits-if (channel == 0) _ _
      (Fits-tabulate (λ n. Params.nrnti ps * 2 ^ 14 + Params.q ps * 2 ^ 13 + n * 2 ^ 9 + n_cell)
        λ n h. omega arith)
      (Fits-if (channel == 1) _ _
        (Fits-tabulate (λ n. (n + 1) * (2 * n_cell + 1) * 2 ^ 9 + n_cell)
          λ n h. omega (arith, cells n n_cell h (omega arith)))
        (Fits-if (channel == 2) _ _ (Fits-tabulate (λ n. n * 2 ^ 9 + n_cell) λ n h. omega arith) (
          Fits-if (channel == 3) _ _
            (ap suc (zeros (nof_subframes - 1)), (omega arith, All-zeros (nof_subframes - 1)))
            (Fits-if (channel == 4) _ _
              (Fits-tabulate (λ n. n * 2 ^ 9 + Params.n_mbsfn ps) λ n h. omega arith)
              (Fits-if (channel == 5) _ _
                (Fits-tabulate (λ n. (n + 1) * (2 * n_cell + 1) * 2 ^ 16 + Params.nrnti ps)
                  λ n h. omega (arith, cells n n_cell h (omega arith)))
                (zeros nof_subframes, All-zeros nof_subframes))))))
