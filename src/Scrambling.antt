-- ===== src/Scrambling.antt =====
-- modrep_osld/lte_scrambling/src/scrambling.c: the scrambling of bits and of soft bits with a
-- sequence that is held 32 bits to a word.
--
-- A `char` is its byte, `unsigned` a number below 2 ^ 32, and an output the list of the elements
-- written. A fault is an access out of an array, or a shift by 32 or more.
pub mod Words
pub mod Hard
pub mod Soft
pub mod Sequence
pub mod Work
mod Tests
use Prim.Native.Nat.{bit_xor}
use aloe.Base.{
  ℕ, zero, suc, ◌+◌, ◌-◌, ◌*◌, ◌/◌, ◌%◌, ◌^◌, ◌==◌, Bool, true, false, ◌&&◌, ◌||◌, ltb, leb,
  if◌then◌else◌, List, [], ◌∷◌, ◌++◌, length, get_or, set, word_mod, Outcome, ok, err, fault, Call,
}

-- MAX_c, BIT_PER_INT
abbrev pub max_c : ℕ
max_c = 896

abbrev pub bit_per_int : ℕ
bit_per_int = 32

-- `(c[j]>>s)&1`
unfoldable pub bit_of : List ℕ → ℕ → ℕ → ℕ
bit_of c j s = get_or c j 0 / 2 ^ s % 2

-- `c[j]+=v<<s`
unfoldable pub add_at : List ℕ → ℕ → ℕ → ℕ → List ℕ
add_at c j v s = set c j ((get_or c j 0 + v * 2 ^ s) % word_mod)

-- A `char` as `unsigned`, its sign kept.
abbrev pub extend : ℕ → ℕ
extend c = if ltb c 128 then c else c + (word_mod - 256)

-- The first loop of char2int, `output[i]=0` for `k` words.
pub clear : ℕ → List ℕ → List ℕ
clear zero output = output
clear (suc k) output = set (clear k output) k 0

-- The second loop, from the input `i` on.
pub char2int_from : ℕ → ℕ → ℕ → List ℕ → List ℕ → List ℕ
unfolding add_at
char2int_from i j s [] output = output
char2int_from i j s (x ∷ xs) output =
    let full = i == j * bit_per_int in
    let s' = if full then 0 else s in
    let j' = if full then j + 1 else j in
    char2int_from (i + 1) j' (s' + 1) xs (add_at output (j' - 1) (extend x) s')

pub char2int : List ℕ → List ℕ → List ℕ
unfolding clear char2int_from
char2int input output = char2int_from 0 1 0 input (clear (length input / bit_per_int + 1) output)

-- `left` bits of the word `i`, from the bit `j` on.
pub word_bits : List ℕ → ℕ → ℕ → ℕ → List ℕ
unfolding bit_of
word_bits input i j zero = []
word_bits input i j (suc left) = bit_of input i j ∷ word_bits input i (j + 1) left

-- The loop of int2char over the words from `i` on, `left` of them, and the one behind it.
pub int2char_from : List ℕ → ℕ → ℕ → ℕ → List ℕ
unfolding word_bits
int2char_from input rem_bits i zero = word_bits input i 0 rem_bits
int2char_from input rem_bits i (suc left) =
    word_bits input i 0 bit_per_int ++ int2char_from input rem_bits (i + 1) left

pub int2char : List ℕ → ℕ → ℕ → List ℕ
unfolding int2char_from
int2char input n rem_bits = int2char_from input rem_bits 0 (n / bit_per_int)

-- One more element in front of the output.
abbrev pub put : {A : Type 0} → A → Outcome (List A) → Outcome (List A)
put x (ok xs) = ok (x ∷ xs)
put x err = err
put x fault = fault

-- The loop of direct_scrambling, which began at the word `first`, from the input `i` on.
pub direct_from : ℕ → ℕ → List ℕ → ℕ → ℕ → List ℕ → Outcome (List ℕ)
unfolding bit_of
direct_from first i c j s [] = ok []
direct_from first i c j s (x ∷ xs) =
    let full = i == (j - first + 1) * 32 in
    let s' = if full then 0 else s in
    let j' = if full then j + 1 else j in
    let rest = direct_from first (i + 1) c j' (s' + 1) xs in
    if leb bit_per_int s' || leb (length c) j'
    then fault
    else put (if x == bit_of c j' s' then 0 else 1) rest

pub direct_scrambling : List ℕ → List ℕ → ℕ → ℕ → Outcome (List ℕ)
unfolding direct_from
direct_scrambling input c j s = direct_from j 0 c j s input

-- The static arrays that int_scrambling works on.
pub record Ints : Type 0 where
  input_ints : List ℕ
  out_ints : List ℕ

-- `out_ints[i] = input_ints[i] ^ c[i]` for `k` words
pub xor_words : ℕ → List ℕ → List ℕ → List ℕ → List ℕ
xor_words zero ints c out = out
xor_words (suc k) ints c out =
    set (xor_words k ints c out) k (bit_xor (get_or ints k 0) (get_or c k 0))

pub int_scrambling : List ℕ → List ℕ → Call Ints (List ℕ)
unfolding char2int xor_words int2char
int_scrambling input c st =
    let n = length input in
    let quot = n / bit_per_int + 1 in
    let ints = char2int input (Ints.input_ints st) in
    let out = xor_words quot ints c (Ints.out_ints st) in
    if ltb (length (Ints.input_ints st)) quot
      || ltb (length (Ints.out_ints st)) quot
      || ltb (length c) quot
    then (fault, st)
    else (ok (int2char out n (n % bit_per_int)), record { input_ints = ints; out_ints = out })

-- The choice of the way, and the place in the sequence.
pub scramble : List ℕ → List ℕ → Bool → ℕ → Call Ints (List ℕ)
unfolding direct_scrambling int_scrambling
scramble input c direct sample st =
    if direct
    then (direct_scrambling input c (sample / bit_per_int) (sample % bit_per_int), st)
    else int_scrambling input c st

-- Soft bits are floats: a type with `-` and the tests `> 0` and `<= 0`.
module _ {F : Type 0} (negate : F → F) (positive nonpositive : F → Bool) where
  pub soft_from : ℕ → ℕ → List ℕ → ℕ → ℕ → List F → Outcome (List F)
  unfolding bit_of
  soft_from first i c j s [] = ok []
  soft_from first i c j s (x ∷ xs) =
      let full = i == (j - first + 1) * 32 in
      let s' = if full then 0 else s in
      let j' = if full then j + 1 else j in
      let rest = soft_from first (i + 1) c j' (s' + 1) xs in
      let set_bit = bit_of c j' s' == 1 in
      if leb bit_per_int s' || leb (length c) j'
      then fault
      else put (if positive x && set_bit || nonpositive x && set_bit then negate x else x) rest

  pub soft_scrambling : List F → List ℕ → ℕ → Outcome (List F)
  unfolding soft_from
  soft_scrambling input c sample =
      soft_from (sample / bit_per_int) 0 c (sample / bit_per_int) (sample % bit_per_int) input
