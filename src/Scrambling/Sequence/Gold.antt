-- ===== src/Scrambling/Sequence/Gold.antt =====
-- The scrambling sequences that sequence_generation leaves are those of 36.211, section 7.2.
use Prim.Native.Nat.{bit_xor}
use mathlib.Core.Path.{subst}
use aloe.Base.{
  arith, ℕ, zero, suc, ◌+◌, ◌*◌, ◌/◌, ◌%◌, ◌^◌, ◌<◌, ◌≡◌, refl, sym, ap, ap₂, ◌∙◌, List, [], ◌∷◌,
  All, map, length, get_or, tabulate, get_or-tabulate,
}
use aloe.Scrambling.{bit_of, max_c}
use aloe.Scrambling.Words.{bit, bit-bit_of, bit_xor-bit}
use aloe.Scrambling.Sequence.{
  Params, max_x, nof_subframes, compute_x1, x2_first, x2_firsts, x2_rest, compute_x2, x2init,
  sequence_generation,
}
use aloe.Scrambling.Sequence.First.{IsFirst, compute_x1-IsFirst}
use aloe.Scrambling.Sequence.Second.{IsSecond, x2_rest-IsSecond}
use aloe.Scrambling.Sequence.Initial.{Verified, x2init-Fits}

-- The sequence that the initial value `c_init` gives: c(m) = x1(m+1600) + x2(m+1600) modulo 2.
pub IsGold : ℕ → List ℕ → Type 0
IsGold c_init c =
    (x1 : List ℕ) × (x2 : List ℕ) × IsFirst x1
    × IsSecond c_init x2
    × ((m : ℕ) → m < 32 * max_c → bit c m ≡ (bit x1 (m + 1600) + bit x2 (m + 1600)) % 2)

-- A sequence for each initial value, in order.
pub AreGold : List ℕ → List (List ℕ) → Type 0
AreGold inits cs =
    (length cs ≡ length inits)
    × ((n : ℕ) → n < length inits → IsGold (get_or inits n 0) (get_or cs n []))

-- A round of the last loop.
abbrev mixed : List ℕ → List ℕ → List ℕ
mixed x1 x2 = tabulate (λ i. bit_xor (get_or x1 (i + 50) 0) (get_or x2 (i + 50) 0)) max_c 0

bit-mixed :
    (x1 x2 : List ℕ) (m : ℕ)
    → m < 32 * max_c
    → bit (mixed x1 x2) m ≡ (bit x1 (m + 1600) + bit x2 (m + 1600)) % 2
unfolding bit bit_of
bit-mixed x1 x2 m h =
    let word : get_or (mixed x1 x2) (m / 32) 0
        ≡ bit_xor (get_or x1 (m / 32 + 50) 0) (get_or x2 (m / 32 + 50) 0) =
      get_or-tabulate (λ i. bit_xor (get_or x1 (i + 50) 0) (get_or x2 (i + 50) 0)) max_c 0 (m / 32)
        0 (omega arith)
      ∙ ap (λ i. bit_xor (get_or x1 (i + 50) 0) (get_or x2 (i + 50) 0)) (omega arith) in
    ap (λ w. w / 2 ^ (m % 32) % 2) word
    ∙ bit_xor-bit (get_or x1 (m / 32 + 50) 0) (get_or x2 (m / 32 + 50) 0) (m % 32)
    ∙ sym (
        ap₂ (λ a b. (a + b) % 2)
          (bit-bit_of x1 (m / 32 + 50) (m % 32) (m + 1600) (omega arith) (omega arith))
          (bit-bit_of x2 (m / 32 + 50) (m % 32) (m + 1600) (omega arith) (omega arith)))

rows_Gold :
    (x1 : List ℕ)
    → IsFirst x1
    → (inits : List ℕ) (xs : List (List ℕ)) → All (λ c. c < 2 ^ 31) inits
    → length xs ≡ length inits
    → All (λ x. length x ≡ max_x) xs
    → AreGold inits (map (mixed x1) (map x2_rest (x2_firsts inits xs)))
unfolding AreGold IsGold x2_firsts
rows_Gold x1 first [] [] small e sized = (refl, λ n h. absurd (omega arith))
rows_Gold x1 first [] (x ∷ xs) small e sized = absurd (omega arith)
rows_Gold x1 first (c ∷ inits) [] small e sized = absurd (omega arith)
rows_Gold x1 first (c ∷ inits) (x ∷ xs) (low, small) e (size, sized) =
    let (es, rest) = rows_Gold x1 first inits xs small (omega arith) sized in
    let x2 = x2_rest (x2_first c x) in (ap suc es, go rest)
  where
    go :
        ((n : ℕ)
          → n < length inits
          → IsGold
              (get_or inits n 0)
              (get_or (map (mixed x1) (map x2_rest (x2_firsts inits xs))) n []))
        → (n : ℕ) → n < suc (length inits)
        → IsGold (get_or (c ∷ inits) n 0) (
            get_or
              (mixed x1 (x2_rest (x2_first c x))
                ∷ map (mixed x1) (map x2_rest (x2_firsts inits xs)))
              n
              [])
    go rest zero h = (
      x1,
      x2_rest (x2_first c x),
      first,
      x2_rest-IsSecond c x low size,
      λ m l. bit-mixed x1 (x2_rest (x2_first c x)) m l,
    )
    go rest (suc n) h = rest n (omega arith)

pub sequence_generation-AreGold :
    (ps : Params) (x1 : List ℕ) (x2 : List (List ℕ))
    → Verified ps
    → Params.n_mbsfn ps < 2 ^ 30
    → Params.nc ps ≡ 1600
    → length x1 ≡ max_x
    → length x2 ≡ nof_subframes
    → All (λ x. length x ≡ max_x) x2
    → AreGold (x2init ps) (sequence_generation ps x1 x2)
unfolding sequence_generation compute_x2
sequence_generation-AreGold ps x1 x2 ranges mbsfn e size rows sized =
    let fit = x2init-Fits ps ranges mbsfn in
    let k_lem : 50 ≡ Params.nc ps / 32 = omega arith in
    subst
      (λ k. AreGold (x2init ps) (
        map
          (λ second.
            tabulate (λ i. bit_xor (get_or (compute_x1 x1) (i + k) 0) (get_or second (i + k) 0))
              max_c 0)
          (map x2_rest (x2_firsts (x2init ps) x2))))
      k_lem
      (rows_Gold (compute_x1 x1) (compute_x1-IsFirst x1 size) (x2init ps) x2 fit.1
        (rows ∙ sym fit.0) sized)
