-- ===== src/Crc/Register.antt =====
-- The shift register of a 16-bit CRC, a bit at a time, as the reference for crc.c.
use Prim.Native.Nat.{bit_xor}
use aloe.Base.{
  arith, ℕ, zero, suc, ◌+◌, ◌*◌, ◌/◌, ◌%◌, ◌^◌, ◌≤◌, ◌<◌, ◌==◌, ◌≡◌, refl, sym, ap, ◌∙◌, inl, inr,
  Bool-cases, List, [], ◌∷◌, ◌++◌, if◌then◌else◌, length, word_mod, bit_xor_comm, bit_xor_assoc,
  double-bit_xor, bit_xor-mod, bit_xor-div, bit_xor-zero, bit_xor_fields,
}
use native.Mathlib.Nat.{one-le-pow, two-pow-succ}
use aloe.Crc.{test_bit, shift_once, shift_loop}

-- A register, and its 16 bits.
abbrev pub low : ℕ → ℕ
low t = t % 2 ^ 16

-- The next bit is compared with the top bit of the register, and the polynomial is taken off where
-- they differ.
unfoldable pub advance : ℕ → ℕ → ℕ
advance poly t = if test_bit 15 t then bit_xor (2 * t) poly else 2 * t

unfoldable pub register_step : ℕ → ℕ → ℕ → ℕ
unfolding advance
register_step poly crc b = low (advance poly (bit_xor crc (b * 2 ^ 15)))

register_step-low : (poly crc b : ℕ) → low (register_step poly crc b) ≡ register_step poly crc b
unfolding register_step
register_step-low poly crc b = omega arith

unfoldable pub register : ℕ → ℕ → List ℕ → ℕ
register poly crc [] = crc
register poly crc (b ∷ bs) = register poly (register_step poly crc b) bs

pub register-append :
    (poly crc : ℕ) (xs ys : List ℕ)
    → register poly crc (xs ++ ys) ≡ register poly (register poly crc xs) ys
unfolding register
register-append poly crc [] ys = refl
register-append poly crc (x ∷ xs) ys = register-append poly (register_step poly crc x) xs ys

-- The bits, the first at the place `n - 1`.
unfoldable pub aligned : ℕ → List ℕ → ℕ
aligned zero bs = 0
aligned (suc n) [] = 0
aligned (suc n) (b ∷ bs) = b * 2 ^ n + aligned n bs

unfoldable pub AreBits : List ℕ → Type 0
AreBits [] = Unit
AreBits (b ∷ bs) = (b < 2) × AreBits bs

low-bit_xor : (a b p : ℕ) → low a ≡ low b → low (bit_xor a p) ≡ low (bit_xor b p)
low-bit_xor a b p e = bit_xor-mod 16 a p ∙ ap (λ t. bit_xor t (low p)) e ∙ sym (bit_xor-mod 16 b p)

test_bit-low : (x y : ℕ) → low x ≡ low y → test_bit 15 x ≡ test_bit 15 y
test_bit-low x y e = ap (λ n. n == 1) (omega arith)

-- What a round leaves in the low 16 bits depends on the low 16 bits.
advance-low : (poly x y : ℕ) → low x ≡ low y → low (advance poly x) ≡ low (advance poly y)
unfolding advance
advance-low poly x y e = elim (Bool-cases (test_bit 15 x)) [
  | inl one ↦
      rw (one, sym (test_bit-low x y e) ∙ one) (low-bit_xor (2 * x) (2 * y) poly (omega arith))
  | inr none ↦ rw (none, sym (test_bit-low x y e) ∙ none) (omega arith)
]

shift_once-advance : (poly t : ℕ) → low (shift_once 16 poly t) ≡ low (advance poly t)
unfolding shift_once advance
shift_once-advance poly t = elim (Bool-cases (test_bit 15 t)) [
  | inl one ↦ rw one (low-bit_xor (t * 2 % word_mod) (2 * t) poly (omega arith))
  | inr none ↦ rw none (omega arith)
]

shift_loop-low :
    (poly n x y : ℕ) → low x ≡ low y → low (shift_loop 16 poly n x) ≡ low (shift_loop 16 poly n y)
unfolding shift_loop
shift_loop-low poly zero x y e = e
shift_loop-low poly (suc n) x y e =
    shift_loop-low poly n (shift_once 16 poly x) (shift_once 16 poly y)
      (shift_once-advance poly x ∙ advance-low poly x y e ∙ sym (shift_once-advance poly y))

bit-mul : (b m : ℕ) → b < 2 → b * m ≤ m
bit-mul zero m h = omega arith
bit-mul (suc zero) m h = omega arith
bit-mul (suc (suc b)) m h = absurd (omega arith)

pub aligned_bound : (n : ℕ) (bs : List ℕ) → AreBits bs → aligned n bs < 2 ^ n
unfolding aligned AreBits
aligned_bound zero bs h = omega arith
aligned_bound (suc n) [] h = one-le-pow (suc n) 2 (omega arith)
aligned_bound (suc n) (b ∷ bs) (bit, more) =
    omega (arith, two-pow-succ n, aligned_bound n bs more, bit-mul b (2 ^ n) bit)

pub aligned-suc : (n : ℕ) (bs : List ℕ) → length bs ≤ n → aligned (suc n) bs ≡ 2 * aligned n bs
unfolding aligned
aligned-suc zero [] h = refl
aligned-suc zero (b ∷ bs) h = absurd (omega arith)
aligned-suc (suc n) [] h = refl
aligned-suc (suc n) (b ∷ bs) h =
    omega (arith, aligned-suc n bs (omega arith), ap (λ (t : ℕ). b * t) (two-pow-succ n))

-- The bits below the top one wait, and move up by a place.
advance-waiting :
    (poly u r : ℕ) → r < 2 ^ 15 → advance poly (bit_xor u r) ≡ bit_xor (advance poly u) (2 * r)
unfolding advance
advance-waiting poly u r small =
    let same : test_bit 15 (bit_xor u r) ≡ test_bit 15 u =
      ap (λ t. t % 2 == 1)
        (bit_xor-div 15 u r
          ∙ ap (bit_xor (u / 2 ^ 15)) (omega arith)
          ∙ bit_xor-zero (u / 2 ^ 15)) in
    elim (Bool-cases (test_bit 15 u)) [
      | inl one ↦
          rw (same, one)
            (ap (λ t. bit_xor t poly) (sym (double-bit_xor u r))
              ∙ bit_xor_assoc (2 * u) (2 * r) poly
              ∙ ap (bit_xor (2 * u)) (bit_xor_comm (2 * r) poly)
              ∙ sym (bit_xor_assoc (2 * u) poly (2 * r)))
      | inr none ↦ rw (same, none) (sym (double-bit_xor u r))
    ]

-- A round with the bits combined at once is a step of the register with the first one.
shift_once-register :
    (poly t b : ℕ) (bs : List ℕ)
    → AreBits bs
    → length bs ≤ 15
    → low (shift_once 16 poly (bit_xor t (aligned 16 (b ∷ bs))))
      ≡ low (bit_xor (register_step poly (low t) b) (aligned 16 bs))
unfolding aligned register_step
shift_once-register poly t b bs bits few =
    let r = aligned 15 bs in
    let u = bit_xor t (b * 2 ^ 15) in
    let small : r < 2 ^ 15 = aligned_bound 15 bs bits in
    let regroup : bit_xor t (b * 2 ^ 15 + r) ≡ bit_xor u r =
      ap (bit_xor t) (sym (bit_xor_fields 15 b r small)) ∙ sym (bit_xor_assoc t (b * 2 ^ 15) r) in
    let step : low (advance poly u) ≡ low (low (advance poly (bit_xor (low t) (b * 2 ^ 15)))) =
      advance-low poly u (bit_xor (low t) (b * 2 ^ 15))
        (low-bit_xor t (low t) (b * 2 ^ 15) (omega arith))
      ∙ omega arith in
    shift_once-advance poly (bit_xor t (b * 2 ^ 15 + r))
    ∙ ap (λ x. low (advance poly x)) regroup
    ∙ ap low (advance-waiting poly u r small)
    ∙ low-bit_xor (advance poly u) (register_step poly (low t) b) (2 * r) step
    ∙ ap (λ x. low (bit_xor (register_step poly (low t) b) x)) (sym (aligned-suc 15 bs few))

-- `icrc1` with up to 16 bits at the top of its word steps the register through them.
pub shift_loop-register :
    (poly t : ℕ) (bs : List ℕ)
    → AreBits bs
    → length bs ≤ 16
    → low (shift_loop 16 poly (length bs) (bit_xor t (aligned 16 bs))) ≡ register poly (low t) bs
unfolding shift_loop register aligned AreBits
shift_loop-register poly t [] bits few = ap low (bit_xor-zero t)
shift_loop-register poly t (b ∷ bs) (bit, bits) few =
    shift_loop-low poly (length bs) (shift_once 16 poly (bit_xor t (aligned 16 (b ∷ bs))))
      (bit_xor (register_step poly (low t) b) (aligned 16 bs))
      (shift_once-register poly t b bs bits (omega arith))
    ∙ shift_loop-register poly (register_step poly (low t) b) bs bits (omega arith)
    ∙ ap (λ x. register poly x bs) (register_step-low poly (low t) b)

pub register-low :
    (poly t : ℕ) (bs : List ℕ) → low t ≡ t → low (register poly t bs) ≡ register poly t bs
unfolding register
register-low poly t [] e = e
register-low poly t (b ∷ bs) e =
    register-low poly (register_step poly t b) bs (register_step-low poly t b)

pub aligned-add :
    (m n : ℕ) (bs : List ℕ) → length bs ≤ n → aligned (m + n) bs ≡ aligned n bs * 2 ^ m
aligned-add zero n bs h = let e : 0 + n ≡ n = omega arith in ap (λ k. aligned k bs) e ∙ omega arith
aligned-add (suc m) n bs h =
    let e : suc m + n ≡ suc (m + n) = omega arith in
    ap (λ k. aligned k bs) e
    ∙ aligned-suc (m + n) bs (omega arith)
    ∙ omega (arith, aligned-add m n bs h, ap (λ (t : ℕ). aligned n bs * t) (two-pow-succ m))
