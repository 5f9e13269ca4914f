-- ===== src/Convcoder/Encode.antt =====
-- The loop of `conv_encode` and the whole call, against the convolution.
use aloe.Base.{
  arith, ltb, le→ltb, ℕ, suc, ◌+◌, ◌*◌, ◌≤◌, ◌<◌, ◌==◌, ◌≡◌, refl, sym, ap, ap₂, ◌∙◌, Bool, true,
  false, ◌&&◌, List, [], ◌∷◌, ◌++◌, All, length, length-take, get_or, get_or-take, take, drop, ok,
}
use aloe.Convcoder.{
  max_rate, taps, accumulate, odd, output_bits, encode_from, generators, first_register,
  conv_encode,
}
use aloe.Convcoder.Window.{window, shift_in-window, first_register-tabulate}
use aloe.Convcoder.Convolution.{IsBit, symbol, codeword, output-tapped, taps-IsBit, length-taps}

module _ (tail_bit : Bool) (c_bits : List ℕ) (n l : ℕ) (bits : All IsBit c_bits) (few : l < 128)
    (inside : tail_bit ≡ true → l ≤ n) where
  output_bits-symbol :
      (gs : List ℕ) (i : ℕ)
      → i < n
      → output_bits (window tail_bit c_bits n l (i + 1)) (generators l gs)
        ≡ symbol tail_bit c_bits n (generators l gs) i
  unfolding output_bits generators
  output_bits-symbol [] i h = refl
  output_bits-symbol (x ∷ gs) i h =
      let g = taps x l in
      let size : length g ≡ l = length-taps x l in
      ap₂ ◌∷◌
        (ap (λ m. odd (accumulate 0 (window tail_bit c_bits n m (i + 1)) g)) (sym size)
          ∙ output-tapped tail_bit c_bits n i g bits (taps-IsBit x l) (omega arith) h
              λ e. omega (arith, inside e))
        (output_bits-symbol gs i h)

  encode_from-codeword :
      (gs bs : List ℕ) (i : ℕ)
      → i + length bs ≤ n
      → ((k : ℕ) → k < length bs → get_or bs k 0 ≡ get_or c_bits (i + k) 0)
      → encode_from (generators l gs) (window tail_bit c_bits n l i) bs
        ≡ codeword tail_bit c_bits n (generators l gs) (length bs) i
  unfolding encode_from
  encode_from-codeword gs [] i h same = refl
  encode_from-codeword gs (b ∷ bs) i h same =
      let e : i + 0 ≡ i = omega arith in
      let bit : b ≡ get_or c_bits i 0 = same 0 (omega arith) ∙ ap (λ j. get_or c_bits j 0) e in
      ap (λ r. output_bits r (generators l gs) ++ encode_from (generators l gs) r bs)
        (shift_in-window tail_bit c_bits n l i b bit)
      ∙ ap₂ ◌++◌ (output_bits-symbol gs i (omega arith)) (
          encode_from-codeword gs bs (i + 1) (omega arith) λ k lt.
            let moved : i + suc k ≡ i + 1 + k = omega arith in
            same (suc k) (omega arith) ∙ ap (λ j. get_or c_bits j 0) moved)

-- For a packet of `n` bits, a register of at most 127 places, at most 3 generators, buffers with
-- room, and with `tail_bit` a packet no shorter than the register, `conv_encode` returns, and
-- writes, for each bit `i` and each generator, the parity of the bits that the generator taps: the
-- bit `i - k` for the tap `k`, where the bits before the first are 0, or with `tail_bit` those at the
-- end of the packet. The output behind stays as it was.
pub conv_encode-codeword :
    (c_bits g d_bits : List ℕ) (n constraint_len rate : ℕ) (tail_bit : Bool)
    → All IsBit c_bits
    → 1 ≤ constraint_len
    → constraint_len < 128
    → rate ≤ max_rate
    → rate ≤ length g
    → n ≤ length c_bits
    → n * rate ≤ length d_bits
    → (tail_bit ≡ true → constraint_len ≤ n)
    → conv_encode c_bits n constraint_len rate g tail_bit d_bits
      ≡ ok (
        codeword tail_bit c_bits n (generators constraint_len (take rate g)) n 0
            ++ drop (n * rate) d_bits,
        n * rate,
      )
unfolding conv_encode
conv_encode-codeword c_bits g d_bits n l rate tail_bit bits pos few r3 rg fits room inside =
    let gs = take rate g in
    let size : length (take n c_bits) ≡ n = omega (arith, length-take n c_bits) in
    let start : first_register tail_bit c_bits n l 0 ≡ window tail_bit c_bits n l 0 =
      first_register-tabulate tail_bit c_bits n l 0 in
    let loop : encode_from (generators l gs) (first_register tail_bit c_bits n l 0) (take n c_bits)
        ≡ codeword tail_bit c_bits n (generators l gs) n 0 =
      ap (λ r. encode_from (generators l gs) r (take n c_bits)) start
      ∙ encode_from-codeword tail_bit c_bits n l bits few inside gs (take n c_bits) 0 (omega arith)
          (λ k lt.
            get_or-take n k c_bits 0 (omega arith) ∙ ap (λ j. get_or c_bits j 0) (omega arith))
      ∙ ap (λ m. codeword tail_bit c_bits n (generators l gs) m 0) size in
    let some_places : (l == 0) ≡ false = ground arith in
    let whole : (tail_bit && ltb n l) ≡ false = whole_tail tail_bit inside in
    rw
      (
        some_places,
        le→ltb max_rate rate r3,
        le→ltb (length g) rate rg,
        whole,
        le→ltb (length c_bits) n fits,
        le→ltb (length d_bits) (n * rate) room,
        loop,
      )
      refl
  where
    whole_tail : (b : Bool) → (b ≡ true → l ≤ n) → (b && ltb n l) ≡ false
    whole_tail true h = le→ltb n l (h refl)
    whole_tail false h = refl
