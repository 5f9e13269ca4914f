-- ===== src/Convcoder/Tests.antt =====
-- The coder of the LTE broadcast channel, 7 places and 3 generators with a tail, on 8 bits, and the
-- shift register of a packet without a tail.
use aloe.Base.{
  arith, All, ℕ, ◌≡◌, refl, true, false, List, [], ◌∷◌, ◌++◌, replicate, get_elem?, Option, some,
  ok, err, fault,
}
use aloe.Convcoder.{Name, initialize, Parameters, conv_encode, generators, work}
use aloe.Convcoder.Convolution.{IsBit, codeword}
use aloe.Convcoder.Work.{work-codeword}

abbrev eight_bits : List ℕ
eight_bits = 1 ∷ 0 ∷ 1 ∷ 1 ∷ 0 ∷ 0 ∷ 1 ∷ 0 ∷ []

eight_bits-IsBit : All IsBit eight_bits
eight_bits-IsBit = ground arith

abbrev gens : List ℕ
gens = 91 ∷ 121 ∷ 117 ∷ []

abbrev given : Name → Option ℕ
given Name.constraint_length_name = some 7
given Name.tail_bit_name = some 1
given Name.rate_name = some 3
given (Name.generator_name i) = get_elem? gens i

abbrev lte : Parameters
lte = record { constraint_length = 7; tail_bit = true; rate = 3; generator = gens }

given-lte : initialize given ≡ ok lte
unfolding initialize
given-lte = refl

work-codeword_example :
    work lte 0 eight_bits (replicate 24 9) 8
    ≡ ok (codeword true eight_bits 8 (generators 7 gens) 8 0 ++ [] ++ [], 24)
work-codeword_example =
    work-codeword given 0 8 eight_bits (replicate 24 9) given-lte eight_bits-IsBit (omega arith)
      (omega arith) (omega arith) (omega arith) (λ e. omega arith)

-- A fourth generator is refused.
abbrev too_many : Name → Option ℕ
too_many Name.rate_name = some 4
too_many _ = some 1

rate_refused : initialize too_many ≡ err
unfolding initialize
rate_refused = refl

-- The impulse of two generators, 7 and 5, as in the textbooks, and two zeros of padding.
impulse :
    work
      (record { constraint_length = 3; tail_bit = false; rate = 2; generator = 7 ∷ 5 ∷ [] })
      2
      (1 ∷ 0 ∷ 0 ∷ [])
      (replicate 9 9)
      3
    ≡ ok (1 ∷ 1 ∷ 1 ∷ 0 ∷ 1 ∷ 1 ∷ 0 ∷ 0 ∷ 9 ∷ [], 8)
unfolding work
impulse = refl

-- A packet shorter than the register: the tail would be read before the buffer.
short_tail : conv_encode (1 ∷ 0 ∷ []) 2 3 1 (7 ∷ []) true (replicate 9 9) ≡ fault
unfolding conv_encode
short_tail = refl
