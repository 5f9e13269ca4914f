-- ===== src/Scrambling/Hard/Ints.antt =====
-- int2char and the `^` of the words, as what they make of the bits of the arrays.
use Prim.Native.Nat.{bit_xor}
use aloe.Base.{
  arith, ℕ, zero, suc, ◌+◌, ◌*◌, ◌/◌, ◌%◌, ◌^◌, ◌≤◌, ◌<◌, ◌≡◌, refl, sym, ap, ap₂, ◌∙◌, List, [],
  ◌∷◌, ◌++◌, length, length-set, get_or, set, get_or-set_self, get_or-set_ne, ℕ_discrete, tabulate,
  tabulate_add,
}
use aloe.Scrambling.{bit_of, word_bits, int2char_from, int2char, xor_words}
use aloe.Scrambling.Words.{bit, bit-bit_of, bit_xor-bit}
use aloe.Scrambling.Hard.{mask}

length-xor_words : (k : ℕ) (ints c out : List ℕ) → length (xor_words k ints c out) ≡ length out
unfolding xor_words
length-xor_words zero ints c out = refl
length-xor_words (suc k) ints c out =
    length-set (xor_words k ints c out) k (bit_xor (get_or ints k 0) (get_or c k 0))
    ∙ length-xor_words k ints c out

get_or-xor_words :
    (k : ℕ) (ints c out : List ℕ) (i : ℕ)
    → i < k
    → k ≤ length out
    → get_or (xor_words k ints c out) i 0 ≡ bit_xor (get_or ints i 0) (get_or c i 0)
unfolding xor_words
get_or-xor_words zero ints c out i h l = absurd (omega arith)
get_or-xor_words (suc k) ints c out i h l =
    let v = bit_xor (get_or ints k 0) (get_or c k 0) in
    elim (ℕ_discrete k i) [
      | yes e ↦
          ap (λ m. get_or (set (xor_words k ints c out) k v) m 0) (sym e)
          ∙ get_or-set_self (xor_words k ints c out) k v 0
              (omega (arith, length-xor_words k ints c out))
          ∙ ap (λ m. bit_xor (get_or ints m 0) (get_or c m 0)) e
      | no ne ↦
          get_or-set_ne (xor_words k ints c out) k i v 0 ne
          ∙ get_or-xor_words k ints c out i (omega arith) (omega arith)
    ]

pub bit-xor_words :
    (k : ℕ) (ints c out : List ℕ) (m : ℕ)
    → m < 32 * k
    → k ≤ length out
    → bit (xor_words k ints c out) m ≡ (bit ints m + bit c m) % 2
unfolding bit bit_of
bit-xor_words k ints c out m h l =
    ap (λ w. w / 2 ^ (m % 32) % 2) (get_or-xor_words k ints c out (m / 32) (omega arith) l)
    ∙ bit_xor-bit (get_or ints (m / 32) 0) (get_or c (m / 32) 0) (m % 32)

word_bits-tabulate :
    (input : List ℕ) (i j left : ℕ)
    → j + left ≤ 32
    → word_bits input i j left ≡ tabulate (bit input) left (32 * i + j)
unfolding word_bits tabulate
word_bits-tabulate input i j zero h = refl
word_bits-tabulate input i j (suc left) h =
    ap₂ ◌∷◌ (sym (bit-bit_of input i j (32 * i + j) (omega arith) refl)) (
      word_bits-tabulate input i (j + 1) left (omega arith)
      ∙ ap (tabulate (bit input) left) {x = 32 * i + (j + 1)} {y = 32 * i + j + 1} (omega arith))

int2char_from-tabulate :
    (input : List ℕ) (rem i left : ℕ)
    → rem < 32
    → int2char_from input rem i left ≡ tabulate (bit input) (32 * left + rem) (32 * i)
unfolding int2char_from
int2char_from-tabulate input rem i zero h =
    word_bits-tabulate input i 0 rem (omega arith)
    ∙ ap₂ (tabulate (bit input)) {x = rem} {y = 32 * 0 + rem} (omega arith) (omega arith)
int2char_from-tabulate input rem i (suc left) h =
    ap₂ ◌++◌
      (word_bits-tabulate input i 0 32 (omega arith)
        ∙ ap (tabulate (bit input) 32) {x = 32 * i + 0} {y = 32 * i} (omega arith))
      (int2char_from-tabulate input rem (i + 1) left h
        ∙ ap (tabulate (bit input) (32 * left + rem)) {x = 32 * (i + 1)} {y = 32 * i + 32}
            (omega arith))
    ∙ sym (tabulate_add (bit input) 32 (32 * left + rem) (32 * i))
    ∙ ap (λ n. tabulate (bit input) n (32 * i)) {x = 32 + (32 * left + rem)}
        {y = 32 * suc left + rem} (omega arith)

pub int2char-tabulate :
    (input : List ℕ) (n : ℕ) → int2char input n (n % 32) ≡ tabulate (bit input) n 0
unfolding int2char
int2char-tabulate input n =
    int2char_from-tabulate input (n % 32) 0 (n / 32) (omega arith)
    ∙ ap₂ (tabulate (bit input)) {x = 32 * (n / 32) + n % 32} {y = n} (omega arith) (omega arith)

pub tabulate-mask :
    (f : ℕ → ℕ) (c : List ℕ) (n : ℕ) (xs : List ℕ)
    → ((k : ℕ) → k < length xs → f (n + k) ≡ (get_or xs k 0 + bit c (n + k)) % 2)
    → tabulate f (length xs) n ≡ mask c n xs
unfolding tabulate mask
tabulate-mask f c n [] h = refl
tabulate-mask f c n (x ∷ xs) h =
    ap₂ ◌∷◌ (move (h 0 (omega arith)))
      (tabulate-mask f c (n + 1) xs λ k l. shift k (h (suc k) (omega arith)))
  where
    move : f (n + 0) ≡ (x + bit c (n + 0)) % 2 → f n ≡ (x + bit c n) % 2
    move e = ap f (omega arith) ∙ e ∙ ap (λ m. (x + bit c m) % 2) (omega arith)

    shift :
        (k : ℕ)
        → f (n + suc k) ≡ (get_or xs k 0 + bit c (n + suc k)) % 2
        → f (n + 1 + k) ≡ (get_or xs k 0 + bit c (n + 1 + k)) % 2
    shift k e = ap f (omega arith) ∙ e ∙ ap (λ m. (get_or xs k 0 + bit c m) % 2) (omega arith)
