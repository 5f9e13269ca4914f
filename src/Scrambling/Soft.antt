-- ===== src/Scrambling/Soft.antt =====
-- Soft bits that are scrambled twice come back.
use aloe.Base.{
  arith, ==_iff, ≢→==, lt→leb, ℕ, suc, ◌+◌, ◌-◌, ◌*◌, ◌/◌, ◌%◌, ◌≤◌, ◌<◌, ◌==◌, ◌&&◌, ◌||◌, ◌≡◌,
  refl, sym, ap, ap₂, ◌∙◌, Bool, true, false, List, [], ◌∷◌, length, if◌then◌else◌, ok, dec_lt,
}
use aloe.Scrambling.{soft_from, soft_scrambling}
use aloe.Scrambling.Words.{bit, bit-bit_of}

distribute : (p q b : Bool) → (p && b || q && b) ≡ ((p || q) && b)
distribute true true true = refl
distribute true true false = refl
distribute true false true = refl
distribute true false false = refl
distribute false true true = refl
distribute false true false = refl
distribute false false true = refl
distribute false false false = refl

module _ {F : Type 0} (negate : F → F) (positive nonpositive : F → Bool) where
  -- A soft bit and the bit of the sequence.
  abbrev flip : F → Bool → F
  flip x b = if positive x && b || nonpositive x && b then negate x else x

  flip_lem :
      (x : F) (b : Bool) → flip x b ≡ (if (positive x || nonpositive x) && b then negate x else x)
  flip_lem x b = ap (λ t. if t then negate x else x) (distribute (positive x) (nonpositive x) b)

  -- The soft bits, those at the 1s of the sequence negated, from the place `n` on.
  pub flipped : List ℕ → ℕ → List F → List F
  flipped c n [] = []
  flipped c n (x ∷ xs) = flip x (bit c n == 1) ∷ flipped c (n + 1) xs

  length-flipped : (c : List ℕ) (n : ℕ) (xs : List F) → length (flipped c n xs) ≡ length xs
  unfolding flipped
  length-flipped c n [] = refl
  length-flipped c n (x ∷ xs) = ap suc (length-flipped c (n + 1) xs)

  module _ (first : ℕ) (c : List ℕ) where
    soft_step :
        (i j s : ℕ) (x : F) (xs ys : List F)
        → first ≤ j
        → i ≡ 32 * (j - first) + s
        → s < 32
        → j < length c
        → soft_from negate positive nonpositive first (i + 1) c j (s + 1) xs ≡ ok ys
        → soft_from negate positive nonpositive first i c j s (x ∷ xs)
          ≡ ok (flip x (bit c (32 * j + s) == 1) ∷ ys)
    unfolding soft_from
    soft_step i j s x xs ys le place small inside rest =
        rw (≢→== i ((j - first + 1) * 32) λ e. absurd (omega arith)) (
          rw (lt→leb 32 s small, lt→leb (length c) j inside, rest)
            (ap (λ b. ok (flip x (b == 1) ∷ ys)) (sym (bit-bit_of c j s (32 * j + s) small refl))))

    soft_full :
        (i j : ℕ) (x : F) (xs : List F)
        → first ≤ j
        → i ≡ 32 * (j - first) + 32
        → soft_from negate positive nonpositive first i c j 32 (x ∷ xs)
          ≡ soft_from negate positive nonpositive first i c (j + 1) 0 (x ∷ xs)
    unfolding soft_from
    soft_full i j x xs le place =
        rw ((==_iff i ((j - first + 1) * 32)).1 (omega arith))
          (rw (≢→== i ((j + 1 - first + 1) * 32) λ e. absurd (omega arith)) refl)

    soft_from-flipped :
        (i j s : ℕ) (xs : List F)
        → first ≤ j
        → i ≡ 32 * (j - first) + s
        → s ≤ 32
        → 32 * j + s + length xs ≤ 32 * length c
        → soft_from negate positive nonpositive first i c j s xs ≡ ok (flipped c (32 * j + s) xs)
    unfolding soft_from flipped
    soft_from-flipped i j s [] le place small fits = refl
    soft_from-flipped i j s (x ∷ xs) le place small fits = elim (dec_lt s 32) [
      | yes l ↦ soft_step i j s x xs (flipped c (32 * j + s + 1) xs) le place l (omega arith) (
          soft_from-flipped (i + 1) j (s + 1) xs le (omega arith) (omega arith) (omega arith)
          ∙ ap (λ n. ok (flipped c n xs)) {x = 32 * j + (s + 1)} {y = 32 * j + s + 1} (omega arith))
      | no l ↦
          ap (λ t. soft_from negate positive nonpositive first i c j t (x ∷ xs)) {x = s} {y = 32}
            (omega arith)
          ∙ soft_full i j x xs le (omega arith)
          ∙ soft_step i (j + 1) 0 x xs (flipped c (32 * j + s + 1) xs) (omega arith) (omega arith)
              (omega arith) (omega arith)
              (soft_from-flipped (i + 1) (j + 1) 1 xs (omega arith) (omega arith) (omega arith)
                  (omega arith)
                ∙ ap (λ n. ok (flipped c n xs)) {x = 32 * (j + 1) + 1} {y = 32 * j + s + 1}
                    (omega arith))
          ∙ ap (λ n. ok (flip x (bit c n == 1) ∷ flipped c (32 * j + s + 1) xs))
              {x = 32 * (j + 1) + 0} {y = 32 * j + s} (omega arith)
    ]

  soft_scrambling-flipped :
      (xs : List F) (c : List ℕ) (sample : ℕ)
      → sample % 32 ≡ 0
      → sample + length xs ≤ 32 * length c
      → soft_scrambling negate positive nonpositive xs c sample ≡ ok (flipped c sample xs)
  unfolding soft_scrambling
  soft_scrambling-flipped xs c sample whole fits =
      soft_from-flipped (sample / 32) c 0 (sample / 32) (sample % 32) xs (omega arith) (omega arith)
        (omega arith) (omega arith)
      ∙ ap (λ n. ok (flipped c n xs)) (omega arith)

  module _ (negate_twice : (x : F) → negate (negate x) ≡ x)
      (number : (x : F)
        → (positive (negate x) || nonpositive (negate x)) ≡ (positive x || nonpositive x)) where
    flip-flip : (x : F) (b : Bool) → flip (flip x b) b ≡ x
    flip-flip x b = go b (positive x || nonpositive x) refl
      where
        ordered : F → Bool
        ordered y = positive y || nonpositive y

        -- A soft bit that stays does so twice.
        stays : (c : Bool) → (ordered x && c) ≡ false → flip (flip x c) c ≡ x
        stays c e =
            let kept : flip x c ≡ x = flip_lem x c ∙ ap (λ t. if t then negate x else x) e in
            ap (λ y. flip y c) kept ∙ kept

        go : (c o : Bool) → ordered x ≡ o → flip (flip x c) c ≡ x
        go c false e = stays c (ap (λ t. t && c) e)
        go false true e = stays false (ap (λ t. t && false) e)
        go true true e =
            let turned : flip x true ≡ negate x =
              flip_lem x true ∙ ap (λ t. if t && true then negate x else x) e in
            ap (λ y. flip y true) turned
            ∙ flip_lem (negate x) true
            ∙ ap (λ t. if t && true then negate (negate x) else negate x) (number x ∙ e)
            ∙ negate_twice x

    flipped-flipped : (c : List ℕ) (n : ℕ) (xs : List F) → flipped c n (flipped c n xs) ≡ xs
    unfolding flipped
    flipped-flipped c n [] = refl
    flipped-flipped c n (x ∷ xs) =
        ap₂ ◌∷◌ (flip-flip x (bit c n == 1)) (flipped-flipped c (n + 1) xs)

    -- Soft bits that are scrambled come back when they are scrambled again, from the same place of the
    -- sequence, if it is a multiple of 32 and the sequence is long enough; negation undoes itself and
    -- leaves what is a number, and compares, one.
    pub soft_scrambling-soft_scrambling :
        (xs : List F) (c : List ℕ) (sample : ℕ)
        → sample % 32 ≡ 0
        → sample + length xs ≤ 32 * length c
        → (ys : List F) × (soft_scrambling negate positive nonpositive xs c sample ≡ ok ys)
          × (soft_scrambling negate positive nonpositive ys c sample ≡ ok xs)
    soft_scrambling-soft_scrambling xs c sample whole fits =
        let ys = flipped c sample xs in
        (
          ys,
          soft_scrambling-flipped xs c sample whole fits,
          soft_scrambling-flipped ys c sample whole (omega (arith, length-flipped c sample xs))
              ∙ ap ok (flipped-flipped c sample xs),
        )
