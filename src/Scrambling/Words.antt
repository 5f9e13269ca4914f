-- ===== src/Scrambling/Words.antt =====
-- The bits of an array of words, and what `c[j]+=b<<s` makes of them when the word holds no bit from
-- `s` on.
use Prim.Native.Nat.{bit_xor}
use aloe.Base.{
  arith, ℕ, zero, suc, ◌+◌, ◌-◌, ◌*◌, ◌/◌, ◌%◌, ◌^◌, ◌≤◌, ◌<◌, ◌≡◌, ◌≢◌, sym, ap, ap₂, ◌∙◌, List,
  length, get_or, set, word_mod, get_or-set_self, length-set, get_or-set_ne, mul-two-pow-suc,
  ℕ_discrete, bit_xor-div, bit_xor-odd,
}
use native.Mathlib.Nat.{
  two-pow-succ, div-eq_of_lt, add-mul-div_right, one-le-pow, mod-eq_of_lt, pow-le-pow_right,
}
use aloe.Scrambling.{bit_of, add_at}

-- The bit `n` of the array.
unfoldable pub bit : List ℕ → ℕ → ℕ
unfolding bit_of
bit c n = bit_of c (n / 32) (n % 32)

pub bit-bit_of : (c : List ℕ) (j s n : ℕ) → s < 32 → n ≡ 32 * j + s → bit c n ≡ bit_of c j s
unfolding bit
bit-bit_of c j s n h e = ap₂ (bit_of c) (omega arith) (omega arith)

pub bit_of-bound : (c : List ℕ) (j s : ℕ) → bit_of c j s < 2
unfolding bit_of
bit_of-bound c j s = omega arith

pub bit-bound : (c : List ℕ) (n : ℕ) → bit c n < 2
unfolding bit
bit-bound c n = bit_of-bound c (n / 32) (n % 32)

times_bit : (b p : ℕ) → b < 2 → 0 < p → b * p ≤ p
times_bit zero p h q = omega arith
times_bit (suc zero) p h q = omega arith
times_bit (suc (suc b)) p h q = absurd (omega arith)

pub room : (w b s : ℕ) → w < 2 ^ s → b < 2 → w + b * 2 ^ s < 2 ^ (s + 1)
room w b s h l =
    let pos : 1 ≤ 2 ^ s = one-le-pow s 2 (omega arith) in
    let e : 2 ^ (s + 1) ≡ 2 ^ suc s = ap (λ (k : ℕ). 2 ^ k) (omega arith) in
    omega (arith, times_bit b (2 ^ s) l (omega arith), two-pow-succ s, e)

double : (b t k : ℕ) → b * 2 ^ (t + suc k) ≡ (b * 2 ^ k + b * 2 ^ k) * 2 ^ t
double b zero k =
    ap (λ (m : ℕ). b * 2 ^ m) {x = 0 + suc k} {y = suc k} (omega arith)
    ∙ mul-two-pow-suc b k
    ∙ omega arith
double b (suc t) k =
    ap (λ (m : ℕ). b * 2 ^ m) {x = suc t + suc k} {y = suc (t + suc k)} (omega arith)
    ∙ omega (
      arith,
      mul-two-pow-suc b (t + suc k),
      mul-two-pow-suc (b * 2 ^ k + b * 2 ^ k) t,
      double b t k,
    )

pub low_bit : (w b s t : ℕ) → t < s → (w + b * 2 ^ s) / 2 ^ t % 2 ≡ w / 2 ^ t % 2
low_bit w b s t h =
    let k = s - 1 - t in
    let q = b * 2 ^ k in
    let e : b * 2 ^ s ≡ (q + q) * 2 ^ t =
      ap (λ (m : ℕ). b * 2 ^ m) {x = s} {y = t + suc k} (omega arith) ∙ double b t k in
    let sum : (w + b * 2 ^ s) / 2 ^ t ≡ w / 2 ^ t + (q + q) =
      ap (λ m. (w + m) / 2 ^ t) e ∙ add-mul-div_right w (q + q) (one-le-pow t 2 (omega arith)) in
    omega (arith, sum)

new_bit : (w b s : ℕ) → w < 2 ^ s → b < 2 → (w + b * 2 ^ s) / 2 ^ s % 2 ≡ b
new_bit w b s h l =
    let e : w / 2 ^ s ≡ 0 = div-eq_of_lt h in
    let sum : (w + b * 2 ^ s) / 2 ^ s ≡ w / 2 ^ s + b =
      add-mul-div_right w b (one-le-pow s 2 (omega arith)) in
    omega (arith, e, sum)

pub length-add_at : (x : List ℕ) (j b s : ℕ) → length (add_at x j b s) ≡ length x
unfolding add_at
length-add_at x j b s = length-set x j ((get_or x j 0 + b * 2 ^ s) % word_mod)

pub get_or-add_at_ne :
    (x : List ℕ) (j b s k : ℕ) → j ≢ k → get_or (add_at x j b s) k 0 ≡ get_or x k 0
unfolding add_at
get_or-add_at_ne x j b s k ne = get_or-set_ne x j k ((get_or x j 0 + b * 2 ^ s) % word_mod) 0 ne

module _ (c : List ℕ) (j b s : ℕ) (inside : j < length c) (small : s < 32)
    (empty : get_or c j 0 < 2 ^ s) (is_bit : b < 2) where
  pub get_or-add_at : get_or (add_at c j b s) j 0 ≡ get_or c j 0 + b * 2 ^ s
  unfolding add_at
  get_or-add_at =
      get_or-set_self c j ((get_or c j 0 + b * 2 ^ s) % word_mod) 0 inside
      ∙ mod-eq_of_lt (omega (arith, room (get_or c j 0) b s empty is_bit, fits))
    where
      fits : 2 ^ (s + 1) ≤ 2 ^ 32
      fits = pow-le-pow_right (omega arith) {i = s + 1} {j = 32} (omega arith)

  pub add_at-room : get_or (add_at c j b s) j 0 < 2 ^ (s + 1)
  add_at-room = omega (arith, get_or-add_at, room (get_or c j 0) b s empty is_bit)

  pub bit-add_at_new : (n : ℕ) → n ≡ 32 * j + s → bit (add_at c j b s) n ≡ b
  unfolding bit_of
  bit-add_at_new n e =
      bit-bit_of (add_at c j b s) j s n small e
      ∙ ap (λ w. w / 2 ^ s % 2) get_or-add_at
      ∙ new_bit (get_or c j 0) b s empty is_bit

  pub bit-add_at_kept : (n : ℕ) → n < 32 * j + s → bit (add_at c j b s) n ≡ bit c n
  unfolding bit bit_of add_at
  bit-add_at_kept n h = elim (ℕ_discrete (n / 32) j) [
    | yes e ↦
        ap (λ i. get_or (add_at c j b s) i 0 / 2 ^ (n % 32) % 2) e
        ∙ ap (λ w. w / 2 ^ (n % 32) % 2) get_or-add_at
        ∙ low_bit (get_or c j 0) b s (n % 32) (omega arith)
        ∙ ap (λ i. get_or c i 0 / 2 ^ (n % 32) % 2) (sym e)
    | no other ↦
        ap (λ w. w / 2 ^ (n % 32) % 2)
          (get_or-set_ne c j (n / 32) ((get_or c j 0 + b * 2 ^ s) % word_mod) 0
            (λ e. other (sym e)))
  ]

-- A word is cleared.
pub bit-set_kept : (c : List ℕ) (j w n : ℕ) → n < 32 * j → bit (set c j w) n ≡ bit c n
unfolding bit bit_of
bit-set_kept c j w n h =
    ap (λ v. v / 2 ^ (n % 32) % 2) (get_or-set_ne c j (n / 32) w 0 λ e. absurd (omega arith))

-- A bit of `a ^ b`.
pub bit_xor-bit : (a b t : ℕ) → bit_xor a b / 2 ^ t % 2 ≡ (a / 2 ^ t % 2 + b / 2 ^ t % 2) % 2
bit_xor-bit a b t = ap (λ w. w % 2) (bit_xor-div t a b) ∙ bit_xor-odd (a / 2 ^ t) (b / 2 ^ t)
