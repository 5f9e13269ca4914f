-- ===== src/Scrambling/Sequence/First.antt =====
-- compute_x1: the first sequence, x(m+31) = x(m+3) + x(m) modulo 2.
use Prim.Native.Nat.{bit_xor}
use mathlib.Core.Path.{subst}
use native.Mathlib.Nat.{pow-le-pow_right, div-eq_of_lt}
use aloe.Base.{
  arith, ltb, lt→ltb, le→ltb, ==_iff, ≢→==, ℕ, zero, suc, ◌+◌, ◌-◌, ◌*◌, ◌/◌, ◌%◌, ◌^◌, ◌≤◌, ◌<◌,
  ◌≡◌, ◌≢◌, refl, sym, ap, ap₂, ◌∙◌, Bool, true, false, List, length, length-set, get_or, set,
  get_or-set_self, get_or-set_ne, dec_lt, if◌then◌else◌,
}
use aloe.Scrambling.{bit_of, add_at}
use aloe.Scrambling.Words.{bit, bit-bit_of, bit_of-bound, low_bit}
use aloe.Scrambling.Sequence.{x1_bit, next_d, x1_from, compute_x1, max_x}
use aloe.Scrambling.Sequence.Recurrence.{
  Recurs, Ready, Ready-append, Ready-clear_next, Continues, Continues-append, Continues-clear_next,
}

abbrev pub first_taps : ℕ → ℕ → ℕ → ℕ → ℕ
first_taps a b c d = (a + d) % 2

next_d_lem : (s d : ℕ) → d ≡ s - 28 → s + 1 < 32 → next_d s d ≡ s + 1 - 28
next_d_lem s d e h = ground arith

pub bit_xor-sum : (a b : ℕ) → a < 2 → b < 2 → bit_xor a b ≡ (a + b) % 2
bit_xor-sum zero zero h l = refl
bit_xor-sum zero (suc zero) h l = refl
bit_xor-sum (suc zero) zero h l = refl
bit_xor-sum (suc zero) (suc zero) h l = refl
bit_xor-sum zero (suc (suc b)) h l = absurd (omega arith)
bit_xor-sum (suc zero) (suc (suc b)) h l = absurd (omega arith)
bit_xor-sum (suc (suc a)) b h l = absurd (omega arith)

sum_of :
    (x : List ℕ) (j s k t m : ℕ)
    → s < 32
    → t < 32
    → m + 3 ≡ 32 * j + s
    → m ≡ 32 * k + t
    → bit_xor (bit_of x j s) (bit_of x k t) ≡ (bit x (m + 3) + bit x m) % 2
sum_of x j s k t m h l p q =
    bit_xor-sum (bit_of x j s) (bit_of x k t) (bit_of-bound x j s) (bit_of-bound x k t)
    ∙ ap₂ (λ a b. (a + b) % 2) (sym (bit-bit_of x j s (m + 3) h p)) (sym (bit-bit_of x k t m l q))

x1_bit_lem :
    (x : List ℕ) (j s d m : ℕ)
    → 1 ≤ j
    → s < 32
    → d ≡ s - 28
    → m + 31 ≡ 32 * j + s
    → x1_bit x j s d ≡ (bit x (m + 3) + bit x m) % 2
unfolding x1_bit
x1_bit_lem x j s d m h l e p = elim (dec_lt s 28) [
  | yes a ↦ rw (lt→ltb s 28 a) (
      sum_of x (j - 1) (s + 4) (j - 1) (s + 1) m (omega arith) (omega arith) (omega arith)
        (omega arith))
  | no a ↦ rw (le→ltb s 28 (omega arith)) (elim (dec_lt s 31) [
    | yes b ↦
        rw (lt→ltb s 31 b)
          (sum_of x j d (j - 1) (s + 1) m (omega arith) (omega arith) (omega arith) (omega arith))
    | no b ↦
        rw (le→ltb s 31 (omega arith))
          (sum_of x j 3 j 0 m (omega arith) (omega arith) (omega arith) (omega arith))
  ])
]

sum_bound : (x : List ℕ) (j s k t : ℕ) → bit_xor (bit_of x j s) (bit_of x k t) < 2
sum_bound x j s k t =
    omega
      (arith, bit_xor-sum (bit_of x j s) (bit_of x k t) (bit_of-bound x j s) (bit_of-bound x k t))

x1_bit-bound : (x : List ℕ) (j s d : ℕ) → x1_bit x j s d < 2
unfolding x1_bit
x1_bit-bound x j s d = go (ltb s 28) (ltb s 31)
  where
    go :
        (a b : Bool)
        → (if a
            then bit_xor (bit_of x (j - 1) (s + 4)) (bit_of x (j - 1) (s + 1))
            else if b
            then bit_xor (bit_of x j d) (bit_of x (j - 1) (s + 1))
            else bit_xor (bit_of x j 3) (bit_of x j 0))
          < 2
    go true b = sum_bound x (j - 1) (s + 4) (j - 1) (s + 1)
    go false true = sum_bound x j d (j - 1) (s + 1)
    go false false = sum_bound x j 3 j 0

-- A round that does not begin a new word.
x1_inside :
    (left i j s d : ℕ) (x : List ℕ)
    → i ≢ j * 32
    → x1_from (suc left) i j s d x
      ≡ x1_from left (i + 1) j (s + 1) (next_d s d) (add_at x j (x1_bit x j s d) s)
unfolding x1_from
x1_inside left i j s d x ne = rw (≢→== i (j * 32) ne) refl

-- One that does goes on as on the next word, cleared.
x1_full :
    (left i j s d : ℕ) (x : List ℕ)
    → i ≡ j * 32
    → x1_from (suc left) i j s d x ≡ x1_from (suc left) i (j + 1) 0 0 (set x (j + 1) 0)
unfolding x1_from
x1_full left i j s d x e =
    rw ((==_iff i (j * 32)).1 e) (rw (≢→== i ((j + 1) * 32) λ e'. absurd (omega arith)) refl)

-- A round within a word, and those behind it.
x1_step :
    (left : ℕ)
    → ((i j s d : ℕ) (x : List ℕ)
        → s ≤ 32
        → (s < 32 → d ≡ s - 28)
        → Ready first_taps left i j s x
        → Continues first_taps x (x1_from left i j s d x) (i + 32) left)
    → (i j s d : ℕ) (x : List ℕ) → s < 32
    → d ≡ s - 28
    → Ready first_taps (suc left) i j s x
    → Continues first_taps x (x1_from (suc left) i j s d x) (i + 32) (suc left)
x1_step left run i j s d x small e r =
    let new : (m : ℕ) → m + 31 ≡ 32 * j + s → x1_bit x j s d ≡ (bit x (m + 3) + bit x m) % 2 =
      λ m p. x1_bit_lem x j s d m r.0 small e p in
    let b = x1_bit x j s d in
    rw (x1_inside left i j s d x (omega arith)) (
      Continues-append first_taps left i j s b x
        (x1_from left (i + 1) j (s + 1) (next_d s d) (add_at x j b s)) small (x1_bit-bound x j s d)
        r
        (run (i + 1) j (s + 1) (next_d s d) (add_at x j b s) (omega arith) (λ h. next_d_lem s d e h)
          (Ready-append first_taps left i j s b x small (x1_bit-bound x j s d) new r)))

x1_run :
    (left i j s d : ℕ) (x : List ℕ)
    → s ≤ 32
    → (s < 32 → d ≡ s - 28)
    → Ready first_taps left i j s x
    → Continues first_taps x (x1_from left i j s d x) (i + 32) left
unfolding x1_from
x1_run zero i j s d x h e (pos, place, fits, empty, before) =
    ((λ m l. refl), λ m l. before m (omega arith))
x1_run (suc left) i j s d x h e r = elim (dec_lt s 32) [
  | yes small ↦ x1_step left (x1_run left) i j s d x small (e small) r
  | no large ↦
      let top : s ≡ 32 = omega arith in
      let r' : Ready first_taps (suc left) i j 32 x =
        subst (λ t. Ready first_taps (suc left) i j t x) top r in
      rw (x1_full left i j s d x (omega arith)) (
        Continues-clear_next first_taps left i j x
          (x1_from (suc left) i (j + 1) 0 0 (set x (j + 1) 0)) r'
          (x1_step left (x1_run left) i (j + 1) 0 0 (set x (j + 1) 0) (omega arith) refl
            (Ready-clear_next first_taps left i j x r')))
]

-- The first sequence begins with a 1 and 30 zeros.
pub IsFirst : List ℕ → Type 0
IsFirst x =
    (bit x 0 ≡ 1) × ((m : ℕ) → 0 < m → m < 31 → bit x m ≡ 0) × Recurs first_taps x (32 * max_x)

module _ (x : List ℕ) (room : 2 ≤ length x) where
  -- The words that are set before the loop.
  abbrev begun : List ℕ
  begun = set (set x 0 (1 + 2 ^ 31)) 1 0

  word_zero : get_or begun 0 0 ≡ 1 + 2 ^ 31
  word_zero =
      get_or-set_ne (set x 0 (1 + 2 ^ 31)) 1 0 0 0 (λ e. absurd (omega arith))
      ∙ get_or-set_self x 0 (1 + 2 ^ 31) 0 (omega arith)

  word_one : get_or begun 1 0 ≡ 0
  word_one =
      get_or-set_self (set x 0 (1 + 2 ^ 31)) 1 0 0 (omega (arith, length-set x 0 (1 + 2 ^ 31)))

  bit-begun : (m : ℕ) → m < 32 → bit begun m ≡ (1 + 2 ^ 31) / 2 ^ m % 2
  unfolding bit_of
  bit-begun m h = bit-bit_of begun 0 m m h (omega arith) ∙ ap (λ w. w / 2 ^ m % 2) word_zero

  bit-begun_zero : (m : ℕ) → 0 < m → m < 31 → bit begun m ≡ 0
  bit-begun_zero m pos h =
      let large : 2 ^ 1 ≤ 2 ^ m = pow-le-pow_right (omega arith) {i = 1} {j = m} pos in
      let none : 1 / 2 ^ m ≡ 0 = div-eq_of_lt (omega arith) in
      bit-begun m (omega arith) ∙ low_bit 1 1 31 m h ∙ ap (λ q. q % 2) none

  begun-Recurs : Recurs first_taps begun 32
  begun-Recurs zero h =
      bit-begun 31 (omega arith)
      ∙ sym (ap₂ (λ a b. (a + b) % 2) (bit-begun 3 (omega arith)) (bit-begun 0 (omega arith)))
  begun-Recurs (suc m) h = absurd (omega arith)

  begun-Ready : (left : ℕ) → 32 + left ≤ 32 * length x → Ready first_taps left 0 1 0 begun
  begun-Ready left fits =
      let size : length begun ≡ length x =
        length-set (set x 0 (1 + 2 ^ 31)) 1 0 ∙ length-set x 0 (1 + 2 ^ 31) in
      (omega arith, omega arith, omega arith, (λ h. omega (arith, word_one)), begun-Recurs)

  x1_total :
      (left n : ℕ)
      → 32 + left ≡ n
      → n ≤ 32 * length x
      → (bit (x1_from left 0 1 0 0 begun) 0 ≡ 1)
        × ((m : ℕ) → 0 < m → m < 31 → bit (x1_from left 0 1 0 0 begun) m ≡ 0)
        × Recurs first_taps (x1_from left 0 1 0 0 begun) n
  x1_total left n e fits =
      let r =
        x1_run left 0 1 0 0 begun (omega arith) (λ h. refl) (begun-Ready left (omega arith)) in
      (
        r.0 0 (omega arith) ∙ bit-begun 0 (omega arith),
        (λ m pos h. r.0 m (omega arith) ∙ bit-begun_zero m pos h),
        (λ m h. r.1 m (omega arith)),
      )

pub compute_x1-IsFirst : (x : List ℕ) → length x ≡ max_x → IsFirst (compute_x1 x)
unfolding compute_x1 IsFirst
compute_x1-IsFirst x size =
    x1_total x (omega arith) ((max_x - 1) * 32) (32 * max_x) (omega arith) (omega arith)
