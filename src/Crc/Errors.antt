-- ===== src/Crc/Errors.antt =====
-- A packet damaged in one bit, at a CRC of 16 bits whose polynomial is odd: no two registers meet.
use Prim.Native.Nat.{bit_xor}
use mathlib.Core.List.{map-append}
use aloe.Base.{
  arith, ℕ, zero, suc, ◌*◌, ◌/◌, ◌%◌, ◌^◌, ◌≤◌, ◌<◌, ◌==◌, ==_iff, ◌≡◌, ◌≢◌, refl, sym, ap, ap₂,
  ◌∙◌, Bool, true, false, List, [], ◌∷◌, ◌++◌, if◌then◌else◌, length, drop, ok, none, some, add32,
  sub32, length-append, bit_xor-mod, bit_xor-odd, bit_xor_comm, bit_xor_cancel,
}
use aloe.Crc.{test_bit, Counters, Handled, finish, work}
use aloe.Crc.Register.{low, advance, register_step, register, register-append, register-low}
use aloe.Crc.Chunk.{bit_of, bits_of}
use aloe.Crc.Roundtrip.{codeword}
use aloe.Crc.Packets.{checker, pasted, work_check_lem}

low-cancel : (x y p : ℕ) → low (bit_xor x p) ≡ low (bit_xor y p) → low x ≡ low y
low-cancel x y p e =
    bit_xor_cancel (low x) (low y) (low p) (sym (bit_xor-mod 16 x p) ∙ e ∙ bit_xor-mod 16 y p)

low-odd : (x p : ℕ) → p % 2 ≡ 1 → low (bit_xor (2 * x) p) % 2 ≡ 1
low-odd x p odd = omega (arith, bit_xor-odd (2 * x) p)

high : (u : ℕ) → test_bit 15 u ≡ true → 2 ^ 15 ≤ u
high u h = omega (arith, (==_iff (u / 2 ^ 15 % 2) 1).0 h)

not_high : (u : ℕ) → u < 2 ^ 16 → test_bit 15 u ≡ false → u < 2 ^ 15
not_high u bound h = ground arith

abbrev advance_by : Bool → ℕ → ℕ → ℕ
advance_by bit poly u = if bit then bit_xor (2 * u) poly else 2 * u

-- With an odd polynomial the lowest bit tells whether it was taken off.
advance_by_inj :
    (a b : Bool) (poly u v : ℕ)
    → poly % 2 ≡ 1
    → u < 2 ^ 16
    → v < 2 ^ 16
    → test_bit 15 u ≡ a
    → test_bit 15 v ≡ b
    → low (advance_by a poly u) ≡ low (advance_by b poly v)
    → u ≡ v
advance_by_inj true true poly u v odd p q tu tv e =
    omega (arith, low-cancel (2 * u) (2 * v) poly e, high u tu, high v tv)
advance_by_inj true false poly u v odd p q tu tv e = absurd (omega (arith, low-odd u poly odd))
advance_by_inj false true poly u v odd p q tu tv e = absurd (omega (arith, low-odd v poly odd))
advance_by_inj false false poly u v odd p q tu tv e =
    omega (arith, not_high u p tu, not_high v q tv)

module _ (poly : ℕ) (odd : poly % 2 ≡ 1) where
  advance_inj :
      (u v : ℕ) → u < 2 ^ 16 → v < 2 ^ 16 → low (advance poly u) ≡ low (advance poly v) → u ≡ v
  unfolding advance
  advance_inj u v p q e =
      advance_by_inj (test_bit 15 u) (test_bit 15 v) poly u v odd p q refl refl e

  combined_bound : (c b : ℕ) → c < 2 ^ 16 → b < 2 → bit_xor c (b * 2 ^ 15) < 2 ^ 16
  combined_bound c b p q = omega (
    arith,
    bit_xor-mod 16 c (b * 2 ^ 15),
    ap₂ bit_xor (keep c p) (keep (b * 2 ^ 15) (omega arith)),
  )
    where
      keep : (n : ℕ) → n < 2 ^ 16 → low n ≡ n
      keep n h = omega arith

  step-combined :
      (c c' b b' : ℕ)
      → c < 2 ^ 16
      → c' < 2 ^ 16
      → b < 2
      → b' < 2
      → register_step poly c b ≡ register_step poly c' b'
      → bit_xor c (b * 2 ^ 15) ≡ bit_xor c' (b' * 2 ^ 15)
  unfolding register_step
  step-combined c c' b b' p p' q q' e =
      advance_inj (bit_xor c (b * 2 ^ 15)) (bit_xor c' (b' * 2 ^ 15)) (combined_bound c b p q)
        (combined_bound c' b' p' q') e

  step_bound : (c b : ℕ) → register_step poly c b < 2 ^ 16
  unfolding register_step
  step_bound c b = omega arith

  bit_of_bound : (c : ℕ) → bit_of c < 2
  bit_of_bound c = ground arith

  -- Registers that differ differ after the same bits.
  register_inj :
      (c c' : ℕ) (cs : List ℕ)
      → c < 2 ^ 16
      → c' < 2 ^ 16
      → register poly c (bits_of cs) ≡ register poly c' (bits_of cs)
      → c ≡ c'
  unfolding register
  register_inj c c' [] p p' e = e
  register_inj c c' (x ∷ cs) p p' e =
      let b = bit_of x in
      let same : register_step poly c b ≡ register_step poly c' b =
        register_inj (register_step poly c b) (register_step poly c' b) cs (step_bound c b)
          (step_bound c' b) e in
      bit_xor_cancel c c' (b * 2 ^ 15)
        (step-combined c c' b b p p' (bit_of_bound x) (bit_of_bound x) same)

  -- One character of the other bit changes the register.
  pub register_changed :
      (xs ys : List ℕ) (x y : ℕ)
      → register poly 0 (bits_of (xs ++ x ∷ ys)) ≡ register poly 0 (bits_of (xs ++ y ∷ ys))
      → bit_of x ≡ bit_of y
  unfolding register
  register_changed xs ys x y e =
      let c = register poly 0 (bits_of xs) in
      let small : c < 2 ^ 16 = omega (arith, register-low poly 0 (bits_of xs) refl) in
      let steps : register_step poly c (bit_of x) ≡ register_step poly c (bit_of y) =
        register_inj (register_step poly c (bit_of x)) (register_step poly c (bit_of y)) ys
          (step_bound c (bit_of x)) (step_bound c (bit_of y)) (sym (cut x) ∙ e ∙ cut y) in
      let combined : bit_xor c (bit_of x * 2 ^ 15) ≡ bit_xor c (bit_of y * 2 ^ 15) =
        step-combined c c (bit_of x) (bit_of y) small small (bit_of_bound x) (bit_of_bound y)
          steps in
      omega (
        arith,
        bit_xor_cancel (bit_of x * 2 ^ 15) (bit_of y * 2 ^ 15) c
            (bit_xor_comm (bit_of x * 2 ^ 15) c ∙ combined ∙ bit_xor_comm c (bit_of y * 2 ^ 15)),
      )
    where
      cut :
          (z : ℕ)
          → register poly 0 (bits_of (xs ++ z ∷ ys))
            ≡ register poly
                (register_step poly (register poly 0 (bits_of xs)) (bit_of z))
                (bits_of ys)
      cut z =
          ap (register poly 0) (map-append bit_of xs (z ∷ ys))
          ∙ register-append poly 0 (bits_of xs) (bits_of (z ∷ ys))

abbrev flagged : Bool → Counters → ℕ → List ℕ → Handled
flagged fwd cs n xs = record {
  counters = record {
    total_errors = add32 (Counters.total_errors cs) 1;
    total_pkts = add32 (Counters.total_pkts cs) 1;
  };
  buffer = xs;
  samples = if fwd then some (sub32 n 16) else none;
}

finish_wrong :
    (poly : ℕ) (fwd : Bool) (cs : Counters) (n r : ℕ) (xs : List ℕ)
    → r ≢ 0
    → finish (checker poly fwd) cs n (ok (r, xs)) ≡ ok (flagged fwd cs n xs)
unfolding finish
finish_wrong poly fwd cs n zero xs h = absurd (h refl)
finish_wrong poly true cs n (suc r) xs h =
    let wrong : (suc r == 0) ≡ false = ground arith in rw wrong refl
finish_wrong poly false cs n (suc r) xs h =
    let wrong : (suc r == 0) ≡ false = ground arith in rw wrong refl

-- A packet with its CRC of 16 bits behind it, of which one character, of the packet or of the CRC,
-- arrives as the other bit, at a module in MODE_CHECK with the same polynomial, an odd one, and an
-- output buffer with room for what arrives: `work` counts an error and the packet, and sends the
-- packet on only if `forward_on_error` is set.
pub work_check-damaged :
    (poly : ℕ) (fwd : Bool) (cs : Counters) (msg xs ys out : List ℕ) (x y : ℕ)
    → poly % 2 ≡ 1
    → xs ++ x ∷ ys ≡ msg ++ pasted poly msg
    → bit_of x ≢ bit_of y
    → length (xs ++ y ∷ ys) ≤ length out
    → (got : Handled) × (work
          (checker poly fwd)
          cs
          (xs ++ y ∷ ys)
          (some out)
          (length (xs ++ y ∷ ys))
        ≡ ok got)
      × (Counters.total_errors (Handled.counters got) ≡ add32 (Counters.total_errors cs) 1)
      × (Counters.total_pkts (Handled.counters got) ≡ add32 (Counters.total_pkts cs) 1)
      × (Handled.samples got ≡ (if fwd then some (sub32 (length (xs ++ y ∷ ys)) 16) else none))
work_check-damaged poly fwd cs msg xs ys out x y odd sent flipped fits =
    let frame = xs ++ y ∷ ys in
    let right : register poly 0 (bits_of (xs ++ x ∷ ys)) ≡ 0 =
      ap (λ l. register poly 0 (bits_of l)) sent ∙ codeword poly msg in
    let wrong : register poly 0 (bits_of frame) ≢ 0 =
      λ e. flipped (register_changed poly odd xs ys x y (right ∙ sym e)) in
    (
      flagged fwd cs (length frame) (frame ++ drop (length frame) out),
      work_check_lem poly fwd cs frame out (omega (arith, length-append xs (y ∷ ys))) fits
          ∙ finish_wrong poly fwd cs (length frame) (register poly 0 (bits_of frame))
              (frame ++ drop (length frame) out) wrong,
      refl,
      refl,
      refl,
    )
