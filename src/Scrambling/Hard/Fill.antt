-- ===== src/Scrambling/Hard/Fill.antt =====
-- char2int, as what it makes of the bits of the array: those of the input, in order.
use aloe.Base.{
  arith, ==_iff, ≢→==, lt→ltb, ℕ, zero, suc, ◌+◌, ◌-◌, ◌*◌, ◌/◌, ◌^◌, ◌≤◌, ◌<◌, ◌≡◌, refl, ap, ◌∙◌,
  List, [], ◌∷◌, All, length, length-set, get_or, set, get_or-set_self, get_or-set_ne, dec_lt,
  ℕ_discrete,
}
use aloe.Scrambling.{add_at, clear, char2int_from, char2int}
use aloe.Scrambling.Words.{
  bit, length-add_at, get_or-add_at_ne, bit-add_at_new, bit-add_at_kept, add_at-room,
}
use aloe.Scrambling.Hard.{IsBit}

length-clear : (k : ℕ) (out : List ℕ) → length (clear k out) ≡ length out
unfolding clear
length-clear zero out = refl
length-clear (suc k) out = length-set (clear k out) k 0 ∙ length-clear k out

get_or-clear :
    (k : ℕ) (out : List ℕ) (i : ℕ) → i < k → k ≤ length out → get_or (clear k out) i 0 ≡ 0
unfolding clear
get_or-clear zero out i h l = absurd (omega arith)
get_or-clear (suc k) out i h l = elim (ℕ_discrete k i) [
  | yes e ↦
      ap (λ m. get_or (set (clear k out) m 0) i 0) e
      ∙ get_or-set_self (clear k out) i 0 0 (omega (arith, length-clear k out))
  | no ne ↦
      get_or-set_ne (clear k out) k i 0 0 ne ∙ get_or-clear k out i (omega arith) (omega arith)
]

-- The first `w` words have no bit from the place `s` of the word `p` on.
abbrev Empty : ℕ → ℕ → ℕ → List ℕ → Type 0
Empty w p s out =
    (w ≤ length out)
    × (s < 32 → get_or out p 0 < 2 ^ s)
    × ((k : ℕ) → p < k → k < w → get_or out k 0 ≡ 0)

-- What the loop leaves: the bits below the place `n` stay, and those of the input follow.
abbrev Filled : ℕ → List ℕ → List ℕ → List ℕ → Type 0
Filled n xs out result =
    ((m : ℕ) → m < n → bit result m ≡ bit out m)
    × ((k : ℕ) → k < length xs → bit result (n + k) ≡ get_or xs k 0)

-- A round within the word `p`, and those behind it.
char2int_step :
    (w i p s x : ℕ) (xs out : List ℕ)
    → i ≡ 32 * p + s
    → s < 32
    → p < w
    → x < 2
    → Empty w p s out
    → (Empty w p (s + 1) (add_at out p x s)
        → Filled
            (i + 1)
            xs
            (add_at out p x s)
            (char2int_from (i + 1) (p + 1) (s + 1) xs (add_at out p x s)))
    → Filled i (x ∷ xs) out (char2int_from i (p + 1) s (x ∷ xs) out)
unfolding char2int_from
char2int_step w i p s x xs out place small below is_bit (cleared, empty, later) rest =
    let inside : p < length out = omega arith in
    let size : length (add_at out p x s) ≡ length out = length-add_at out p x s in
    let (kept, filled) = rest (
      omega arith,
      (λ h. add_at-room out p x s inside small (empty small) is_bit),
      λ k h l. get_or-add_at_ne out p x s k (λ e. absurd (omega arith)) ∙ later k h (omega arith),
    ) in
    let index : p + 1 - 1 ≡ p = omega arith in
    rw (≢→== i ((p + 1) * 32) λ e. absurd (omega arith)) (
      rw (lt→ltb x 128 (omega arith), index)
        (
          (λ m h.
              kept m (omega arith)
              ∙ bit-add_at_kept out p x s inside small (empty small) is_bit m (omega arith)),
          next (char2int_from (i + 1) (p + 1) (s + 1) xs (add_at out p x s)) kept filled,
        ))
  where
    next :
        (result : List ℕ)
        → ((m : ℕ) → m < i + 1 → bit result m ≡ bit (add_at out p x s) m)
        → ((k : ℕ) → k < length xs → bit result (i + 1 + k) ≡ get_or xs k 0)
        → (k : ℕ) → k < suc (length xs)
        → bit result (i + k) ≡ get_or (x ∷ xs) k 0
    next result kept filled zero h =
        ap (bit result) {x = i + 0} {y = i} (omega arith)
        ∙ kept i (omega arith)
        ∙ bit-add_at_new out p x s (omega arith) small (empty small) is_bit i place
    next result kept filled (suc k) h =
        ap (bit result) {x = i + suc k} {y = i + 1 + k} (omega arith) ∙ filled k (omega arith)

char2int_full :
    (i p x : ℕ) (xs out : List ℕ)
    → i ≡ 32 * p + 32
    → char2int_from i (p + 1) 32 (x ∷ xs) out ≡ char2int_from i (p + 1 + 1) 0 (x ∷ xs) out
unfolding char2int_from
char2int_full i p x xs out place =
    rw ((==_iff i ((p + 1) * 32)).1 (omega arith))
      (rw (≢→== i ((p + 1 + 1) * 32) λ e. absurd (omega arith)) refl)

char2int_from-Filled :
    (w i p s : ℕ) (xs out : List ℕ)
    → i ≡ 32 * p + s
    → s ≤ 32
    → 32 * p + s + length xs ≤ 32 * w
    → All IsBit xs
    → Empty w p s out
    → Filled i xs out (char2int_from i (p + 1) s xs out)
unfolding char2int_from
char2int_from-Filled w i p s [] out place small fits bits empty =
    ((λ m h. refl), λ k h. absurd (omega arith))
char2int_from-Filled w i p s (x ∷ xs) out place small fits (is_bit, bits) empty =
    elim (dec_lt s 32) [
      | yes l ↦ char2int_step w i p s x xs out place l (omega arith) is_bit empty (
          char2int_from-Filled w (i + 1) p (s + 1) xs (add_at out p x s) (omega arith) (omega arith)
            (omega arith) bits)
      | no l ↦
          let top : s ≡ 32 = omega arith in
          rw top (
            rw (char2int_full i p x xs out (omega arith)) (
              char2int_step w i (p + 1) 0 x xs out (omega arith) (omega arith) (omega arith) is_bit
                (
                  empty.0,
                  (λ h. omega (arith, empty.2 (p + 1) (omega arith) (omega arith))),
                  λ k h. empty.2 k (omega arith),
                )
                (char2int_from-Filled w (i + 1) (p + 1) 1 xs (add_at out (p + 1) x 0) (omega arith)
                  (omega arith) (omega arith) bits)))
    ]

pub char2int_lem :
    (input out : List ℕ)
    → length input / 32 < length out
    → All IsBit input
    → (k : ℕ) → k < length input
    → bit (char2int input out) k ≡ get_or input k 0
unfolding char2int
char2int_lem input out fits bits k h =
    let words = length input / 32 + 1 in
    let size : length (clear words out) ≡ length out = length-clear words out in
    ap (bit (char2int_from 0 1 0 input (clear words out))) {x = k} {y = 0 + k} (omega arith)
    ∙ (char2int_from-Filled words 0 0 0 input (clear words out) (omega arith) (omega arith)
          (omega arith) bits
          (
            omega arith,
            (λ h. omega (arith, get_or-clear words out 0 (omega arith) (omega arith))),
            λ j h l. get_or-clear words out j l (omega arith),
          )).1
        k h
