-- ===== src/Ratematching/Select.antt =====
-- The other functions of modrep_osld/lte_ratematching/src/ratematching.c on `char`: splitting the
-- input, collecting the interleaved sub-blocks in a circular buffer, and selecting the bits that are
-- sent. `none` stands for a read out of range, a division by zero, or fuel that has run out. The
-- lengths of the arrays are not negative; `outlen` and `rvidx` are `int` patterns, and so are the
-- places in the circular buffer.
use aloe.Base.{
  ℕ, zero, suc, ◌+◌, ◌-◌, ◌*◌, ◌/◌, ◌==◌, ◌||◌, Option, none, some, List, [], ◌∷◌, ◌++◌, length,
  get_or, take, replicate, if◌then◌else◌, ltb, ◌%◌, add32, word_mod, is_negative,
}
use aloe.Ratematching.{cols, reduce, char_interleave}

-- DUMMYBIT, MAXCODEDSIZE
abbrev pub dummy_bit : ℕ
dummy_bit = 2

abbrev pub max_coded_size : ℕ
max_coded_size = 6144 * 3 + 32

-- `float_wrap`: `n` elements of each of three arrays in turn.
pub wrap : {A : Type 0} → ℕ → List A → List A → List A → Option (List A)
wrap zero a b c = some []
wrap (suc n) (x ∷ a) (y ∷ b) (z ∷ c) = elim (wrap n a b c) [
  | none ↦ none
  | some out ↦ some (x ∷ y ∷ z ∷ out)
]
wrap (suc n) _ _ _ = none

-- The loop of `char_unwrap`, with `n` rounds left.
pub unwrap : {A : Type 0} → ℕ → List A → Option (List A × List A × List A)
unwrap zero xs = some ([], [], [])
unwrap (suc n) (x ∷ y ∷ z ∷ xs) = elim (unwrap n xs) [
  | none ↦ none
  | some (a, b, c) ↦ some (x ∷ a, y ∷ b, z ∷ c)
]
unwrap (suc n) _ = none

-- The two arrays whose elements alternate in the second part of the circular buffer.
unfoldable pub weave : ℕ → List ℕ → List ℕ → List ℕ
weave zero b c = []
weave (suc n) b c = get_or b 0 0 ∷ get_or c 0 0 ∷ weave n (tail b) (tail c)
  where
    tail : List ℕ → List ℕ
    tail [] = []
    tail (x ∷ xs) = xs

unfoldable pub circular : List ℕ → List ℕ → List ℕ → ℕ → List ℕ
unfolding weave
circular a b c size = take size a ++ weave size b c

-- `while (k<outlen)`, with `left` bits to go and `fuel` rounds.
unfoldable pub select : List ℕ → ℕ → ℕ → ℕ → ℕ → ℕ → Option (List ℕ)
unfolding reduce
select buffer size k0 zero i left = none
select buffer size k0 (suc fuel) i left =
    let km = add32 k0 i in
    let bit = get_or buffer (reduce (km + 1) km size) 0 in
    let skipped = select buffer size k0 fuel (i + 1) left in
    let taken = select buffer size k0 fuel (i + 1) (left - 1) in
    if left == 0
    then some []
    else if is_negative km
    then none
    else if bit == dummy_bit
    then skipped
    else elim taken [ none ↦ none | some out ↦ some (bit ∷ out) ]

-- `R*(2*intceil(buffersize, (8*R))*rvidx+2)`, where R is not 0, before it wraps to an `int`.
abbrev pub exact_start : ℕ → ℕ → ℕ → ℕ
exact_start r size rvidx = r * (2 * ((size - 1) / (8 * r) + 1) * rvidx + 2)

abbrev pub start : ℕ → ℕ → ℕ → ℕ
start r size rvidx = exact_start r size rvidx % word_mod

-- Rounds that are enough if one of the bits is not a dummy: a turn of the buffer for each bit.
abbrev pub select_fuel : ℕ → ℕ → ℕ
select_fuel size outlen = (outlen + 1) * size + 1

unfoldable pub char_ratematching : List ℕ → List ℕ → List ℕ → ℕ → ℕ → ℕ → Option (List ℕ)
unfolding circular select
char_ratematching a b c interleaver_size outlen rvidx =
    let size = 3 * interleaver_size in
    let r = interleaver_size / cols in
    if ltb max_coded_size size || (r == 0)
    then none
    else if ltb (length a) interleaver_size
        || (ltb (length b) interleaver_size || ltb (length c) interleaver_size)
    then none
    else select (circular a b c interleaver_size) size (start r size rvidx)
        (select_fuel size outlen) 0 outlen

-- `char_RM_block`: what is left in `output`.
pub char_rm_block : List ℕ → ℕ → ℕ → ℕ → Option (List ℕ)
unfolding unwrap char_ratematching
char_rm_block input in_len out_len rvidx = elim (unwrap (in_len / 3) input) [
  | none ↦ none
  | some (a, b, c) ↦
      let n = in_len / 3 in
      let filled = λ (xs : List ℕ). char_interleave dummy_bit (spare xs) n in
      elim (filled a) [
        | none ↦ none
        | some a' ↦ elim (filled b) [
          | none ↦ none
          | some b' ↦ elim (filled c) [
            | none ↦ none
            | some c' ↦ char_ratematching a' b' c' (length a') out_len rvidx
          ]
        ]
      ]
]
  where
    -- The arrays on the stack are larger than what `char_unwrap` has written.
    spare : List ℕ → List ℕ
    spare xs = take max_coded_size (xs ++ replicate max_coded_size 0)
