-- ===== src/Scrambling/Hard/Scramble.antt =====
-- Both ways of scrambling bits, and scrambling twice.
use aloe.Base.{
  arith, le→ltb, ℕ, ◌+◌, ◌*◌, ◌/◌, ◌%◌, ◌<◌, ◌≡◌, sym, ap, ap₂, ◌∙◌, Bool, true, false, List, All,
  length, get_or, ok,
}
use aloe.Scrambling.{max_c, Ints, char2int, xor_words, direct_scrambling, int_scrambling, scramble}
use aloe.Scrambling.Words.{bit}
use aloe.Scrambling.Hard.{IsBit, mask, length-mask, mask-IsBit, mask-mask, direct_scrambling-mask}
use aloe.Scrambling.Hard.Fill.{char2int_lem}
use aloe.Scrambling.Hard.Ints.{bit-xor_words, int2char-tabulate, tabulate-mask}

-- The arrays have the size that they are declared with.
abbrev pub HasSize : Ints → Type 0
HasSize st = (length (Ints.input_ints st) ≡ max_c) × (length (Ints.out_ints st) ≡ max_c)

module _ (input c : List ℕ) (bits : All IsBit input) (short : length input < 32 * max_c)
    (whole : length c ≡ max_c) where
  pub int_scrambling-mask :
      (st : Ints) → HasSize st → (int_scrambling input c st).0 ≡ ok (mask c 0 input)
  unfolding int_scrambling
  int_scrambling-mask st (ins, outs) =
      let n = length input in
      let ints = char2int input (Ints.input_ints st) in
      let out = xor_words (n / 32 + 1) ints c (Ints.out_ints st) in
      let bit_lem : (k : ℕ) → k < n → bit out (0 + k) ≡ (get_or input k 0 + bit c (0 + k)) % 2 =
        λ k h.
          ap (bit out) {x = 0 + k} {y = k} (omega arith)
          ∙ bit-xor_words (n / 32 + 1) ints c (Ints.out_ints st) k (omega arith) (omega arith)
          ∙ ap₂ (λ a m. (a + bit c m) % 2)
              (char2int_lem input (Ints.input_ints st) (omega arith) bits k h) (omega arith) in
      rw
        (
          le→ltb (length (Ints.input_ints st)) (n / 32 + 1) (omega arith),
          le→ltb (length (Ints.out_ints st)) (n / 32 + 1) (omega arith),
          le→ltb (length c) (n / 32 + 1) (omega arith),
        )
        (ap ok (int2char-tabulate out n ∙ tabulate-mask (bit out) c 0 input bit_lem))

  -- The way over words returns what the way over bits does, from the start of the sequence, for fewer
  -- bits than the arrays have place for.
  pub int_scrambling-direct :
      (st : Ints) → HasSize st → (int_scrambling input c st).0 ≡ direct_scrambling input c 0 0
  int_scrambling-direct st size =
      int_scrambling-mask st size ∙ sym (direct_scrambling-mask input c 0 (omega arith) bits)

  pub scramble-mask :
      (direct : Bool) (st : Ints)
      → HasSize st
      → (scramble input c direct 0 st).0 ≡ ok (mask c 0 input)
  unfolding scramble
  scramble-mask true st size = direct_scrambling-mask input c 0 (omega arith) bits
  scramble-mask false st size = int_scrambling-mask st size

-- Bits that are scrambled from the start of the sequence, fewer than the arrays have place for, are
-- scrambled back with the same sequence, whichever way each call takes and whatever the arrays held.
pub scramble-scramble :
    (input c : List ℕ) (direct direct' : Bool) (st st' : Ints)
    → All IsBit input
    → length input < 32 * max_c
    → length c ≡ max_c
    → HasSize st
    → HasSize st'
    → (y : List ℕ) × ((scramble input c direct 0 st).0 ≡ ok y)
      × ((scramble y c direct' 0 st').0 ≡ ok input)
scramble-scramble input c direct direct' st st' bits short whole size size' =
    let y = mask c 0 input in
    (
      y,
      scramble-mask input c bits short whole direct st size,
      scramble-mask y c (mask-IsBit c 0 input) (omega (arith, length-mask c 0 input)) whole direct'
            st' size'
          ∙ ap ok (mask-mask c 0 input bits),
    )
