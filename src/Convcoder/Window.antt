-- ===== src/Convcoder/Window.antt =====
-- What the shift register holds: the last bits, and before the first one the bits from the end of
-- the packet, or zeros.
use aloe.Base.{
  arith, ltb, le→ltb, lt→ltb, ℕ, zero, suc, ◌+◌, ◌-◌, ◌≡◌, refl, ap, ap₂, ◌∙◌, Bool, List, ◌∷◌,
  if◌then◌else◌, get_or, tabulate,
}
use aloe.Convcoder.{first_register, shift_in}

module _ (tail_bit : Bool) (c_bits : List ℕ) (n : ℕ) where
  -- The bit `k` places before the bit `i`, counted from 1: for `k` of `i` or more it is taken from
  -- the end of the packet.
  abbrev pub past : ℕ → ℕ → ℕ
  past i k =
      if ltb k i
      then get_or c_bits (i - 1 - k) 0
      else if tail_bit
      then get_or c_bits (n + i - 1 - k) 0
      else 0

  pub first_register-tabulate :
      (left i : ℕ) → first_register tail_bit c_bits n left i ≡ tabulate (past 0) left i
  unfolding first_register tabulate
  first_register-tabulate zero i = refl
  first_register-tabulate (suc left) i =
      let place : n - i - 1 ≡ n + 0 - 1 - i = omega arith in
      ap₂ ◌∷◌
        (rw (le→ltb i 0 (omega arith)) (ap (λ j. if tail_bit then get_or c_bits j 0 else 0) place))
        (first_register-tabulate left (i + 1))

  past-suc : (i k : ℕ) → past i k ≡ past (i + 1) (k + 1)
  past-suc i k =
      let test : ltb (k + 1) (i + 1) ≡ ltb k i = ground arith in
      let near : i - 1 - k ≡ i + 1 - 1 - (k + 1) = omega arith in
      let far : n + i - 1 - k ≡ n + (i + 1) - 1 - (k + 1) = omega arith in
      rw test (
        ap₂
          (λ a b. if ltb k i then get_or c_bits a 0 else if tail_bit then get_or c_bits b 0 else 0)
          near far)

shift_in-tabulate :
    (f g : ℕ → ℕ) (b l j : ℕ)
    → b ≡ g j
    → ((k : ℕ) → f k ≡ g (k + 1))
    → shift_in b (tabulate f l j) ≡ tabulate g l j
unfolding shift_in tabulate
shift_in-tabulate f g b zero j e h = refl
shift_in-tabulate f g b (suc l) j e h = ap₂ ◌∷◌ e (shift_in-tabulate f g (f j) l (j + 1) (h j) h)

module _ (tail_bit : Bool) (c_bits : List ℕ) (n : ℕ) where
  abbrev pub window : ℕ → ℕ → List ℕ
  window l i = tabulate (past tail_bit c_bits n i) l 0

  -- The next bit moves the window by a place.
  pub shift_in-window :
      (l i b : ℕ) → b ≡ get_or c_bits i 0 → shift_in b (window l i) ≡ window l (i + 1)
  shift_in-window l i b e =
      let first : get_or c_bits i 0 ≡ past tail_bit c_bits n (i + 1) 0 =
        rw (lt→ltb 0 (i + 1) (omega arith))
          (ap (λ j. get_or c_bits j 0) {x = i} {y = i + 1 - 1 - 0} (omega arith)) in
      shift_in-tabulate (past tail_bit c_bits n i) (past tail_bit c_bits n (i + 1)) b l 0
        (e ∙ first) (past-suc tail_bit c_bits n i)
