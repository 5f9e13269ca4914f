-- ===== src/Scrambling/Sequence.antt =====
-- scrambling.c: the generation of the scrambling sequences of the ten subframes, from two shift
-- register sequences that are computed a bit at a time into words.
pub mod Recurrence
pub mod First
pub mod Second
pub mod Initial
pub mod Gold
use Prim.Native.Nat.{bit_xor}
use aloe.Base.{
  ℕ, zero, suc, ◌+◌, ◌-◌, ◌*◌, ◌/◌, ◌%◌, ◌^◌, ◌==◌, Bool, true, false, ltb, leb, if◌then◌else◌,
  List, [], ◌∷◌, map, get_or, set, replicate, word_mod, tabulate,
}
use aloe.Scrambling.{bit_of, add_at, max_c}

-- MAX_x, NOF_SUBFRAMES
abbrev pub max_x : ℕ
max_x = 946

abbrev pub nof_subframes : ℕ
nof_subframes = 10

-- struct scrambling_params, of `int` patterns.
pub record Params : Type 0 where
  pub q : ℕ
  pub nc : ℕ
  pub cell_gr : ℕ
  pub cell_sec : ℕ
  pub nrnti : ℕ
  pub n_mbsfn : ℕ
  pub channel : ℕ

-- The bit that compute_x1 adds to the word `j` at the place `s`.
pub x1_bit : List ℕ → ℕ → ℕ → ℕ → ℕ
unfolding bit_of
x1_bit x j s d =
    if ltb s 28
    then bit_xor (bit_of x (j - 1) (s + 4)) (bit_of x (j - 1) (s + 1))
    else if ltb s 31
    then bit_xor (bit_of x j d) (bit_of x (j - 1) (s + 1))
    else bit_xor (bit_of x j 3) (bit_of x j 0)

-- `d` after the round.
abbrev pub next_d : ℕ → ℕ → ℕ
next_d s d = if ltb s 28 then d else if ltb s 31 then d + 1 else d

-- The loop of compute_x1, `left` rounds left.
pub x1_from : ℕ → ℕ → ℕ → ℕ → ℕ → List ℕ → List ℕ
unfolding x1_bit add_at
x1_from zero i j s d x = x
x1_from (suc left) i j s d x =
    let full = i == j * 32 in
    let j' = if full then j + 1 else j in
    let s' = if full then 0 else s in
    let d' = if full then 0 else d in
    let x' = if full then set x (j + 1) 0 else x in
    x1_from left (i + 1) j' (s' + 1) (next_d s' d') (add_at x' j' (x1_bit x' j' s' d') s')

pub compute_x1 : List ℕ → List ℕ
unfolding x1_from
compute_x1 x = x1_from ((max_x - 1) * 32) 0 1 0 0 (set (set x 0 (1 + 2 ^ 31)) 1 0)

-- The sum of four bits, modulo 2.
abbrev pub parity : ℕ → ℕ → ℕ → ℕ → ℕ
parity a b c d = (a + b + c + d) % 2

-- The bit that compute_x2 adds to the word `j` at the place `s`.
pub x2_bit : List ℕ → ℕ → ℕ → ℕ
unfolding bit_of
x2_bit x j s =
    let old = bit_of x (j - 1) in
    let new = bit_of x j in
    if ltb s 28
    then parity (old (s + 4)) (old (s + 3)) (old (s + 2)) (old (s + 1))
    else if s == 28
    then parity (new 0) (old (s + 3)) (old (s + 2)) (old (s + 1))
    else if s == 29
    then parity (new 1) (new 0) (old (s + 2)) (old (s + 1))
    else if s == 30
    then parity (new 2) (new 1) (new 0) (old (s + 1))
    else parity (new 3) (new 2) (new 1) (new 0)

-- The loop of compute_x2 on a subframe.
pub x2_from : ℕ → ℕ → ℕ → ℕ → List ℕ → List ℕ
unfolding x2_bit add_at
x2_from zero i j s x = x
x2_from (suc left) i j s x =
    let full = i == j * 32 in
    let j' = if full then j + 1 else j in
    let s' = if full then 0 else s in
    let x' = if full then set x (j + 1) 0 else x in
    x2_from left (i + 1) j' (s' + 1) (add_at x' j' (x2_bit x' j' s') s')

-- The first word of a subframe.
pub x2_first : ℕ → List ℕ → List ℕ
unfolding bit_of add_at
x2_first c_init x =
    let y = set x 0 c_init in
    add_at y 0 (parity (bit_of y 0 3) (bit_of y 0 2) (bit_of y 0 1) (bit_of y 0 0)) 31

-- The first loop of compute_x2.
pub x2_firsts : List ℕ → List (List ℕ) → List (List ℕ)
unfolding x2_first
x2_firsts (c_init ∷ inits) (x ∷ xs) = x2_first c_init x ∷ x2_firsts inits xs
x2_firsts _ xs = xs

-- A round of the second one.
pub x2_rest : List ℕ → List ℕ
unfolding x2_from
x2_rest x = x2_from ((max_x - 1) * 32) 0 1 0 (set x 1 0)

pub compute_x2 : List ℕ → List (List ℕ) → List (List ℕ)
unfolding x2_firsts x2_rest
compute_x2 c_init xs = map x2_rest (x2_firsts c_init xs)

-- The values that the registers of x2 start with, by the channel: PDSCH or PUSCH, PCFICH, PDCCH,
-- PBCH (on the first subframe only), PMCH, PUCCH.
pub x2init : Params → List ℕ
unfolding tabulate
x2init ps =
    let n_cell = 3 * Params.cell_gr ps + Params.cell_sec ps in
    let on : (ℕ → ℕ) → List ℕ = λ f. tabulate (λ n. f n % word_mod) nof_subframes 0 in
    let channel = Params.channel ps in
    if channel == 0
    then on (λ n. Params.nrnti ps * 2 ^ 14 + Params.q ps * 2 ^ 13 + n * 2 ^ 9 + n_cell)
    else if channel == 1
    then on (λ n. (n + 1) * (2 * n_cell + 1) * 2 ^ 9 + n_cell)
    else if channel == 2
    then on (λ n. n * 2 ^ 9 + n_cell)
    else if channel == 3
    then n_cell % word_mod ∷ replicate (nof_subframes - 1) 0
    else if channel == 4
    then on (λ n. n * 2 ^ 9 + Params.n_mbsfn ps)
    else if channel == 5
    then on (λ n. (n + 1) * (2 * n_cell + 1) * 2 ^ 16 + Params.nrnti ps)
    else replicate nof_subframes 0

-- The sequences, from what the static arrays `x1` and `x2` held before.
pub sequence_generation : Params → List ℕ → List (List ℕ) → List (List ℕ)
unfolding compute_x1 compute_x2 x2init
sequence_generation ps x1 x2 =
    let first = compute_x1 x1 in
    let k = Params.nc ps / 32 in
    map
      (λ second. tabulate (λ i. bit_xor (get_or first (i + k) 0) (get_or second (i + k) 0)) max_c 0)
      (compute_x2 (x2init ps) x2)
