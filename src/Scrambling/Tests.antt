-- ===== src/Scrambling/Tests.antt =====
-- Runs of the scrambling on concrete input, and its theorems at such.
use aloe.Base.{
  arith, ℕ, ◌≡◌, refl, Bool, true, false, ◌||◌, List, [], ◌∷◌, length, replicate, length-replicate,
  ok, fault,
}
use aloe.Scrambling.{max_c, Ints, direct_scrambling, int_scrambling, scramble, soft_scrambling}
use aloe.Scrambling.Hard.Scramble.{HasSize, int_scrambling-direct, scramble-scramble}
use aloe.Scrambling.Soft.{soft_scrambling-soft_scrambling}

abbrev three_bits : List ℕ
three_bits = 1 ∷ 0 ∷ 1 ∷ []

abbrev words : List ℕ
words = replicate max_c 6

abbrev zeros : List ℕ
zeros = replicate max_c 0

abbrev arrays : Ints
arrays = record { input_ints = words; out_ints = zeros }

words_size : length words ≡ max_c
words_size = length-replicate {A = ℕ} max_c 6

arrays-HasSize : HasSize arrays
arrays-HasSize = (words_size, length-replicate {A = ℕ} max_c 0)

direct_bits : direct_scrambling three_bits (6 ∷ []) 0 0 ≡ ok (1 ∷ 1 ∷ 0 ∷ [])
unfolding direct_scrambling
direct_bits = refl

int_bits :
    int_scrambling three_bits (6 ∷ []) record { input_ints = 9 ∷ []; out_ints = 9 ∷ [] }
    ≡ (ok (1 ∷ 1 ∷ 0 ∷ []), record { input_ints = 5 ∷ []; out_ints = 3 ∷ [] })
unfolding int_scrambling
int_bits = refl

-- A start within a word runs out of the word's bits.
past_word : direct_scrambling three_bits (6 ∷ 6 ∷ []) 0 30 ≡ fault
unfolding direct_scrambling
past_word = refl

int_scrambling-direct_example :
    (int_scrambling three_bits words arrays).0 ≡ direct_scrambling three_bits words 0 0
int_scrambling-direct_example =
    int_scrambling-direct three_bits words (omega arith, (omega arith, (omega arith, tt)))
      (omega arith) words_size arrays arrays-HasSize

scramble-scramble_example :
    (y : List ℕ) × ((scramble three_bits words false 0 arrays).0 ≡ ok y)
    × ((scramble y words true 0 arrays).0 ≡ ok three_bits)
scramble-scramble_example =
    scramble-scramble three_bits words false true arrays arrays
      (omega arith, (omega arith, (omega arith, tt))) (omega arith) words_size arrays-HasSize
      arrays-HasSize

-- Soft bits of two values, 0 for a positive and 1 for a negative one.
abbrev negate : Bool → Bool
negate true = false
negate false = true

abbrev same : Bool → Bool
same b = b

negate_twice : (b : Bool) → negate (negate b) ≡ b
negate_twice true = refl
negate_twice false = refl

number : (b : Bool) → (same (negate b) || negate (negate b)) ≡ (same b || negate b)
number true = refl
number false = refl

soft_scrambling-soft_scrambling_example :
    (ys : List Bool) × (soft_scrambling negate same negate
        (true ∷ false ∷ true ∷ [])
        (6 ∷ 6 ∷ [])
        32
      ≡ ok ys)
    × (soft_scrambling negate same negate ys (6 ∷ 6 ∷ []) 32 ≡ ok (true ∷ false ∷ true ∷ []))
soft_scrambling-soft_scrambling_example =
    soft_scrambling-soft_scrambling negate same negate negate_twice number
      (true ∷ false ∷ true ∷ []) (6 ∷ 6 ∷ []) 32 refl (omega arith)
