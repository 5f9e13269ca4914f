-- ===== src/Convcoder/Convolution.antt =====
-- `conv_encode` against the convolution that 36.212 asks for: output bit `j` for input bit `i` is the
-- parity of the bits `i`, `i - 1`, … that generator `j` taps, around the packet with a tail.
use aloe.Base.{
  arith, ltb, leb, lt→leb, ℕ, zero, suc, ◌+◌, ◌-◌, ◌*◌, ◌%◌, ◌≤◌, ◌<◌, ◌≡◌, refl, sym, ap, ap₂, ◌∙◌,
  Bool, true, false, inl, inr, Bool-cases, List, [], ◌∷◌, ◌++◌, map, All, if◌then◌else◌, length,
  get_or, tabulate,
}
use native.Mathlib.Nat.{add-mod_left, mod-eq_of_lt}
use aloe.Convcoder.{taps, accumulate, odd}
use aloe.Convcoder.Window.{window, past}

-- `f j * g_0 + f (j + 1) * g_1 + …`
unfoldable pub tapped : (ℕ → ℕ) → List ℕ → ℕ → ℕ
tapped f [] j = 0
tapped f (g ∷ gs) j = f j * g + tapped f gs (j + 1)

abbrev pub IsBit : ℕ → Type 0
IsBit b = b < 2

product_bit : (a b : ℕ) → a < 2 → b < 2 → a * b ≤ 1
product_bit zero b p q = omega arith
product_bit (suc zero) b p q = omega arith
product_bit (suc (suc a)) b p q = absurd (omega arith)

tapped_bound :
    (f : ℕ → ℕ) (gs : List ℕ) (j : ℕ)
    → ((k : ℕ) → f k < 2)
    → All IsBit gs
    → tapped f gs j ≤ length gs
unfolding tapped
tapped_bound f [] j bits h = omega arith
tapped_bound f (g ∷ gs) j bits (b, more) =
    omega (arith, product_bit (f j) g (bits j) b, tapped_bound f gs (j + 1) bits more)

-- The `char` does not overflow below 128 taps.
accumulate-tapped :
    (f : ℕ → ℕ) (gs : List ℕ) (acc j : ℕ)
    → ((k : ℕ) → f k < 2)
    → All IsBit gs
    → acc + length gs < 128
    → accumulate acc (tabulate f (length gs) j) gs ≡ acc + tapped f gs j
unfolding accumulate tabulate tapped
accumulate-tapped f [] acc j bits h fits = omega arith
accumulate-tapped f (g ∷ gs) acc j bits (b, more) fits =
    let small : f j * g ≤ 1 = product_bit (f j) g (bits j) b in
    let kept : (acc + f j * g) % 256 ≡ acc + f j * g = omega arith in
    ap (λ t. accumulate t (tabulate f (length gs) (j + 1)) gs) kept
    ∙ accumulate-tapped f gs (acc + f j * g) (j + 1) bits more (omega arith)
    ∙ omega arith

odd_small : (d : ℕ) → d < 128 → odd d ≡ d % 2
unfolding odd
odd_small d h = rw (lt→leb 128 d h) refl

pub taps-IsBit : (g l : ℕ) → All IsBit (taps g l)
unfolding taps
taps-IsBit g zero = tt
taps-IsBit g (suc l) = (omega arith, taps-IsBit g l)

pub length-taps : (g l : ℕ) → length (taps g l) ≡ l
unfolding taps
length-taps g zero = refl
length-taps g (suc l) = ap suc (length-taps g l)

module _ (tail_bit : Bool) (c_bits : List ℕ) (n : ℕ) where
  -- The bit `k` places before bit `i`; with a tail, the packet is taken as a circle.
  abbrev pub before : ℕ → ℕ → ℕ
  before i k =
      if tail_bit
      then get_or c_bits ((i + n - k) % n) 0
      else if leb k i
      then get_or c_bits (i - k) 0
      else 0

  -- The output bits for bit `i`, one for each generator, and those from bit `i` on.
  abbrev pub symbol : List (List ℕ) → ℕ → List ℕ
  symbol gs i = map (λ g. tapped (before i) g 0 % 2) gs

  abbrev pub codeword : List (List ℕ) → ℕ → ℕ → List ℕ
  codeword gs zero i = []
  codeword gs (suc left) i = symbol gs i ++ codeword gs left (i + 1)

get_or-IsBit : (c : List ℕ) (i : ℕ) → All IsBit c → get_or c i 0 < 2
get_or-IsBit [] i h = omega arith
get_or-IsBit (b ∷ c) zero (x, h) = x
get_or-IsBit (b ∷ c) (suc i) (x, h) = get_or-IsBit c i h

past-IsBit : (tail_bit : Bool) (c : List ℕ) (n i k : ℕ) → All IsBit c → past tail_bit c n i k < 2
past-IsBit true c n i k h =
    ground (arith, get_or-IsBit c (i - 1 - k) h, get_or-IsBit c (n + i - 1 - k) h)
past-IsBit false c n i k h = ground (arith, get_or-IsBit c (i - 1 - k) h)

tapped_ext :
    (f g : ℕ → ℕ) (gs : List ℕ) (j : ℕ)
    → ((k : ℕ) → k < j + length gs → f k ≡ g k)
    → tapped f gs j ≡ tapped g gs j
unfolding tapped
tapped_ext f g [] j h = refl
tapped_ext f g (x ∷ gs) j h =
    ap₂ (λ a b. a * x + b) (h j (omega arith)) (tapped_ext f g gs (j + 1) λ k lt. h k (omega arith))

around_near : (n i k : ℕ) → i < n → k ≤ i → (i + n - k) % n ≡ i - k
around_near n i k h near =
    let e : i + n - k ≡ n + (i - k) = omega arith in
    ap (λ t. t % n) e ∙ add-mod_left n (i - k) ∙ mod-eq_of_lt (omega arith)

around_far : (n i k : ℕ) → i < k → k < n → (i + n - k) % n ≡ n + (i + 1) - 1 - k
around_far n i k far inside = mod-eq_of_lt (omega arith) ∙ omega arith

-- On the places that a register of `l` bits has, the window holds the bits before.
past-before :
    (tail_bit : Bool) (c_bits : List ℕ) (n i k : ℕ)
    → i < n
    → (tail_bit ≡ true → k < n)
    → past tail_bit c_bits n (i + 1) k ≡ before tail_bit c_bits n i k
past-before true c_bits n i k h inside = elim (Bool-cases (ltb k (i + 1))) [
  | inl near ↦
      let back : (i + n - k) % n ≡ i - k = around_near n i k h (ground arith) in
      rw (near, back) (ap (λ j. get_or c_bits j 0) {x = i + 1 - 1 - k} {y = i - k} (omega arith))
  | inr far ↦
      let around : (i + n - k) % n ≡ n + (i + 1) - 1 - k =
        around_far n i k (ground arith) (inside refl) in
      rw (far, around) refl
]
past-before false c_bits n i k h inside =
    let same : leb k i ≡ ltb k (i + 1) = ground arith in
    let near : i - k ≡ i + 1 - 1 - k = omega arith in
    rw same (ap (λ j. if ltb k (i + 1) then get_or c_bits j 0 else 0) (sym near))

-- A generator's output bit on a window is the convolution.
pub output-tapped :
    (tail_bit : Bool) (c_bits : List ℕ) (n i : ℕ) (g : List ℕ)
    → All IsBit c_bits
    → All IsBit g
    → length g < 128
    → i < n
    → (tail_bit ≡ true → length g ≤ n)
    → odd (accumulate 0 (window tail_bit c_bits n (length g) (i + 1)) g)
      ≡ tapped (before tail_bit c_bits n i) g 0 % 2
output-tapped tail_bit c_bits n i g bits tap_bits few h inside =
    let f = past tail_bit c_bits n (i + 1) in
    let f_bit : (k : ℕ) → f k < 2 = λ k. past-IsBit tail_bit c_bits n (i + 1) k bits in
    let sum : accumulate 0 (tabulate f (length g) 0) g ≡ tapped f g 0 =
      omega (arith, accumulate-tapped f g 0 0 f_bit tap_bits (omega arith)) in
    ap odd sum
    ∙ odd_small (tapped f g 0) (omega (arith, tapped_bound f g 0 f_bit tap_bits))
    ∙ ap (λ t. t % 2)
        (tapped_ext f (before tail_bit c_bits n i) g 0
          λ k lt. past-before tail_bit c_bits n i k h λ e. omega (arith, inside e))
