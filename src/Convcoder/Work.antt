-- ===== src/Convcoder/Work.antt =====
-- The module gen_convcoder from its parameters to a packet.
use aloe.Base.{
  arith, ltb, le→ltb, ℕ, zero, suc, ◌+◌, ◌*◌, ◌%◌, ◌≤◌, ◌<◌, ◌≡◌, refl, sym, ap, ◌∙◌, Bool, true,
  false, ◌||◌, is_negative, List, [], ◌∷◌, ◌++◌, All, if◌then◌else◌, length, length-map,
  length-append, length-drop, take, drop, take_all, replicate, take-append_left, drop-drop,
  drop-append_left, Option, none, some, Outcome, ok, err, fault,
}
use native.Mathlib.Nat.{suc-mul}
use aloe.Convcoder.{
  taps, Parameters, Name, required, read_generators, initialize, max_rate, generators, pad_output,
  work,
}
use aloe.Convcoder.Convolution.{IsBit, tapped, before, symbol, codeword}
use aloe.Convcoder.Encode.{conv_encode-codeword}

required_ok {ℓ} :
    {A : Type ℓ} {a : A} (o : Option ℕ) (k : ℕ → Outcome A)
    → required o k ≡ ok a
    → (x : ℕ) × (o ≡ some x) × (k x ≡ ok a)
unfolding required
required_ok none k e = absurd cc
required_ok (some x) k e = (x, refl, e)

generators_read :
    {ps : Parameters} (get : Name → Option ℕ) (left i : ℕ) (k : List ℕ → Outcome Parameters)
    → read_generators get left i k ≡ ok ps
    → (gs : List ℕ) × (length gs ≡ left) × (k gs ≡ ok ps)
unfolding read_generators
generators_read get zero i k e = ([], refl, e)
generators_read get (suc left) i k e =
    let (g, _, more) =
      required_ok (get (Name.generator_name i))
        (λ g. read_generators get left (i + 1) λ gs. k (g ∷ gs)) e in
    let (gs, size, rest) = generators_read get left (i + 1) (λ gs. k (g ∷ gs)) more in
    (g ∷ gs, ap suc size, rest)

abbrev rate_or : Outcome Parameters → ℕ
rate_or (ok ps) = Parameters.rate ps
rate_or err = 0
rate_or fault = 0

abbrev generators_or : Outcome Parameters → List ℕ
generators_or (ok ps) = Parameters.generator ps
generators_or err = []
generators_or fault = []

abbrev chosen : Bool → Outcome Parameters → Outcome Parameters
chosen bad k = if bad then err else k

chosen_ok :
    {ps : Parameters} (bad : Bool) (k : Outcome Parameters)
    → chosen bad k ≡ ok ps
    → (bad ≡ false) × (k ≡ ok ps)
chosen_ok true k e = absurd cc
chosen_ok false k e = (refl, e)

-- A module that is initialised has at most 3 generators, and as many as its rate says.
initialize_lem :
    {ps : Parameters} (get : Name → Option ℕ)
    → initialize get ≡ ok ps
    → (Parameters.rate ps ≤ max_rate) × (length (Parameters.generator ps) ≡ Parameters.rate ps)
unfolding initialize
initialize_lem {ps = ps} get e =
    let (l, _, e1) = required_ok (get Name.constraint_length_name) _ e in
    let (t, _, e2) = required_ok (get Name.tail_bit_name) _ e1 in
    let (r, _, e3) = required_ok (get Name.rate_name) _ e2 in
    let (valid, e4) = chosen_ok (is_negative r || ltb max_rate r) _ e3 in
    let (gs, size, e5) = generators_read get r 0 _ e4 in
    let rate_is : r ≡ Parameters.rate ps = ap rate_or e5 in
    let gs_are : gs ≡ Parameters.generator ps = ap generators_or e5 in
    (omega (arith, rate_is, not_above r valid), sym (ap length gs_are) ∙ size ∙ rate_is)
  where
    not_above : (r : ℕ) → (is_negative r || ltb max_rate r) ≡ false → r ≤ max_rate
    not_above r h = ground arith

length-codeword :
    (tail_bit : Bool) (c : List ℕ) (n : ℕ) (gs : List (List ℕ)) (left i : ℕ)
    → length (codeword tail_bit c n gs left i) ≡ left * length gs
length-codeword tail_bit c n gs zero i = omega arith
length-codeword tail_bit c n gs (suc left) i = omega (
  arith,
  length-append (symbol tail_bit c n gs i) (codeword tail_bit c n gs left (i + 1)),
  length-map (λ g. tapped (before tail_bit c n i) g 0 % 2) gs,
  length-codeword tail_bit c n gs left (i + 1),
  suc-mul left (length gs),
)

length-generators : (l : ℕ) (gs : List ℕ) → length (generators l gs) ≡ length gs
unfolding generators
length-generators l gs = length-map (λ g. taps g l) gs

-- What `pad_output` does behind a codeword.
pad_output_lem :
    (xs out : List ℕ) (n padding : ℕ)
    → length xs ≡ n
    → n + padding ≤ length out
    → pad_output padding (ok (xs ++ drop n out, n))
      ≡ ok (xs ++ replicate padding 0 ++ drop (n + padding) out, n + padding)
unfolding pad_output
pad_output_lem xs out n padding size room =
    let all : length (xs ++ drop n out) ≡ length out =
      omega (arith, length-append xs (drop n out), length-drop n out) in
    let behind : drop (n + padding) (xs ++ drop n out) ≡ drop (n + padding) out =
      sym (drop-drop padding n (n + padding) (xs ++ drop n out) (omega arith))
      ∙ ap (drop padding) (drop-append_left n xs (drop n out) (sym size))
      ∙ drop-drop padding n (n + padding) out (omega arith) in
    rw
      (
        le→ltb (length (xs ++ drop n out)) (n + padding) (omega arith),
        take-append_left n xs (drop n out) (sym size),
        behind,
      )
      refl

-- A module that is initialised, with a `constraint_length` of 1 to 127, on a packet of `n` bits with
-- room for the output, and with `tail_bit` a packet no shorter than `constraint_length`: `work`
-- sends `n * rate + padding` samples. They are, for each bit `i` and each generator, the parity of
-- the bits that the generator taps, the bit `i - k` for the tap `k`, where the bits before the
-- first are 0, or with `tail_bit` those at the end of the packet; then the zeros of the padding.
pub work-codeword :
    {ps : Parameters} (get : Name → Option ℕ) (padding n : ℕ) (input output : List ℕ)
    → initialize get ≡ ok ps
    → All IsBit input
    → 1 ≤ Parameters.constraint_length ps
    → Parameters.constraint_length ps < 128
    → n ≤ length input
    → n * Parameters.rate ps + padding ≤ length output
    → (Parameters.tail_bit ps ≡ true → Parameters.constraint_length ps ≤ n)
    → work ps padding input output n
      ≡ ok (
        codeword
              (Parameters.tail_bit ps)
              input
              n
              (generators (Parameters.constraint_length ps) (Parameters.generator ps))
              n
              0
            ++ replicate padding 0
            ++ drop (n * Parameters.rate ps + padding) output,
        n * Parameters.rate ps + padding,
      )
unfolding work
work-codeword {ps = ps} get padding n input output read bits pos few fits room inside =
    let l = Parameters.constraint_length ps in
    let r = Parameters.rate ps in
    let gs = Parameters.generator ps in
    let (r3, size) = initialize_lem get read in
    let whole : take r gs ≡ gs = take_all r gs (omega arith) in
    let cw = codeword (Parameters.tail_bit ps) input n (generators l gs) n 0 in
    let cw_size : length cw ≡ n * r =
      length-codeword (Parameters.tail_bit ps) input n (generators l gs) n 0
      ∙ ap (λ m. n * m) (length-generators l gs ∙ size) in
    ap (pad_output padding) (
      conv_encode-codeword input gs output n l r (Parameters.tail_bit ps) bits pos few r3
        (omega arith) fits (omega arith) inside
      ∙ ap
          (λ g. ok (
            codeword (Parameters.tail_bit ps) input n (generators l g) n 0 ++ drop (n * r) output,
            n * r,
          ))
          whole)
    ∙ pad_output_lem cw output (n * r) padding cw_size room
