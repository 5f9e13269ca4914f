-- ===== src/Scrambling/Hard.antt =====
-- int_scrambling, which works on words, against direct_scrambling, which works on bits; and
-- scrambling again, which takes the sequence off.
pub mod Fill
pub mod Ints
pub mod Scramble
use aloe.Base.{
  arith, ==_iff, ≢→==, lt→leb, le→leb, ℕ, zero, suc, ◌+◌, ◌-◌, ◌*◌, ◌/◌, ◌%◌, ◌^◌, ◌≤◌, ◌<◌, ◌==◌,
  ◌||◌, ◌≡◌, refl, sym, ap, ap₂, ◌∙◌, List, [], ◌∷◌, All, length, Outcome, ok, dec_lt, ℕ_discrete,
  leb, Bool, true, false, if◌then◌else◌,
}
use aloe.Scrambling.{bit_of, direct_from, direct_scrambling, put}
use aloe.Scrambling.Words.{bit, bit-bit_of, bit-bound}

abbrev pub IsBit : ℕ → Type 0
IsBit x = x < 2

-- The bits, each with the sequence's at its place, from the place `n` on, modulo 2.
unfoldable pub mask : List ℕ → ℕ → List ℕ → List ℕ
unfolding bit
mask c n [] = []
mask c n (x ∷ xs) = (x + bit c n) % 2 ∷ mask c (n + 1) xs

pub length-mask : (c : List ℕ) (n : ℕ) (xs : List ℕ) → length (mask c n xs) ≡ length xs
unfolding mask
length-mask c n [] = refl
length-mask c n (x ∷ xs) = ap suc (length-mask c (n + 1) xs)

pub mask-IsBit : (c : List ℕ) (n : ℕ) (xs : List ℕ) → All IsBit (mask c n xs)
unfolding mask
mask-IsBit c n [] = tt
mask-IsBit c n (x ∷ xs) = (omega arith, mask-IsBit c (n + 1) xs)

pub mask-mask : (c : List ℕ) (n : ℕ) (xs : List ℕ) → All IsBit xs → mask c n (mask c n xs) ≡ xs
unfolding mask
mask-mask c n [] h = refl
mask-mask c n (x ∷ xs) (h, hs) = ap₂ ◌∷◌ (omega arith) (mask-mask c (n + 1) xs hs)

differs : (x b : ℕ) → x < 2 → b < 2 → (if x == b then 0 else 1) ≡ (x + b) % 2
differs x b h l = elim (ℕ_discrete x b) [
  | yes e ↦ rw ((==_iff x b).1 e) (omega arith)
  | no e ↦ rw (≢→== x b e) (omega arith)
]

module _ (first : ℕ) (c : List ℕ) where
  -- A round within a word, and those behind it.
  direct_step :
      (i j s x : ℕ) (xs ys : List ℕ)
      → first ≤ j
      → i ≡ 32 * (j - first) + s
      → s < 32
      → j < length c
      → x < 2
      → direct_from first (i + 1) c j (s + 1) xs ≡ ok ys
      → direct_from first i c j s (x ∷ xs) ≡ ok ((x + bit c (32 * j + s)) % 2 ∷ ys)
  unfolding direct_from
  direct_step i j s x xs ys le place small inside is_bit rest =
      rw (≢→== i ((j - first + 1) * 32) λ e. absurd (omega arith)) (
        rw (lt→leb 32 s small, lt→leb (length c) j inside, rest)
          (ap (λ y. ok (y ∷ ys))
            (ap (λ b. if x == b then 0 else 1) (sym (bit-bit_of c j s (32 * j + s) small refl))
              ∙ differs x (bit c (32 * j + s)) is_bit (bit-bound c (32 * j + s)))))

  direct_full :
      (i j x : ℕ) (xs : List ℕ)
      → first ≤ j
      → i ≡ 32 * (j - first) + 32
      → direct_from first i c j 32 (x ∷ xs) ≡ direct_from first i c (j + 1) 0 (x ∷ xs)
  unfolding direct_from
  direct_full i j x xs le place =
      rw ((==_iff i ((j - first + 1) * 32)).1 (omega arith))
        (rw (≢→== i ((j + 1 - first + 1) * 32) λ e. absurd (omega arith)) refl)

  direct_from-mask :
      (i j s : ℕ) (xs : List ℕ)
      → first ≤ j
      → i ≡ 32 * (j - first) + s
      → s ≤ 32
      → 32 * j + s + length xs ≤ 32 * length c
      → All IsBit xs
      → direct_from first i c j s xs ≡ ok (mask c (32 * j + s) xs)
  unfolding direct_from mask
  direct_from-mask i j s [] le place small fits bits = refl
  direct_from-mask i j s (x ∷ xs) le place small fits (is_bit, bits) = elim (dec_lt s 32) [
    | yes l ↦ direct_step i j s x xs (mask c (32 * j + s + 1) xs) le place l (omega arith) is_bit (
        direct_from-mask (i + 1) j (s + 1) xs le (omega arith) (omega arith) (omega arith) bits
        ∙ ap (λ n. ok (mask c n xs)) {x = 32 * j + (s + 1)} {y = 32 * j + s + 1} (omega arith))
    | no l ↦
        ap (λ t. direct_from first i c j t (x ∷ xs)) {x = s} {y = 32} (omega arith)
        ∙ direct_full i j x xs le (omega arith)
        ∙ direct_step i (j + 1) 0 x xs (mask c (32 * j + s + 1) xs) (omega arith) (omega arith)
            (omega arith) (omega arith) is_bit
            (direct_from-mask (i + 1) (j + 1) 1 xs (omega arith) (omega arith) (omega arith)
                (omega arith) bits
              ∙ ap (λ n. ok (mask c n xs)) {x = 32 * (j + 1) + 1} {y = 32 * j + s + 1}
                  (omega arith))
        ∙ ap (λ n. ok ((x + bit c n) % 2 ∷ mask c (32 * j + s + 1) xs)) {x = 32 * (j + 1) + 0}
            {y = 32 * j + s} (omega arith)
  ]

-- From the first bit of the word `j`.
pub direct_scrambling-mask :
    (input c : List ℕ) (j : ℕ)
    → 32 * j + length input ≤ 32 * length c
    → All IsBit input
    → direct_scrambling input c j 0 ≡ ok (mask c (32 * j) input)
unfolding direct_scrambling
direct_scrambling-mask input c j fits bits =
    direct_from-mask j c 0 j 0 input (omega arith) (omega arith) (omega arith) (omega arith) bits
    ∙ ap (λ n. ok (mask c n input)) {x = 32 * j + 0} {y = 32 * j} (omega arith)
