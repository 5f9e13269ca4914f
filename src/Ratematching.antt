-- ===== src/Ratematching.antt =====
-- modrep_osld/lte_ratematching/src/ratematching.c: the sub-block interleaver of the rate matching.
-- The elements are of any type: the source interleaves `char` and deinterleaves `float`. A result of
-- `none` stands for an array that is shorter than the block.
pub mod Index
pub mod Roundtrip
pub mod Select
pub mod Selection
mod Tests
use aloe.Base.{
  ℕ, zero, suc, ◌+◌, ◌-◌, ◌*◌, ◌/◌, ◌==◌, ◌≤◌, ◌<◌, Bool, true, false, ◌||◌, Option, none, some,
  List, [], ◌∷◌, ◌++◌, length, get_or, set, if◌then◌else◌, leb, ltb,
}

-- COLS
abbrev pub cols : ℕ
cols = 32

-- PERM
abbrev pub perm : List ℕ
perm =
    0 ∷ 16 ∷ 8 ∷ 24 ∷ 4 ∷ 20 ∷ 12 ∷ 28 ∷ 2 ∷ 18 ∷ 10 ∷ 26 ∷ 6 ∷ 22 ∷ 14 ∷ 30 ∷ 1 ∷ 17 ∷ 9 ∷ 25 ∷ 5
    ∷ 21 ∷ 13 ∷ 29 ∷ 3 ∷ 19 ∷ 11 ∷ 27 ∷ 7 ∷ 23 ∷ 15 ∷ 31 ∷ []

-- ROWS: `(inlen-1)/COLS+1`, which is 1 for an `inlen` of 0 in C too.
abbrev pub rows_of : ℕ → ℕ
rows_of inlen = (inlen - 1) / cols + 1

-- `while (i>=m) i-=m`, with fuel: `i` rounds are enough for an `m` that is not 0.
pub reduce : ℕ → ℕ → ℕ → ℕ
reduce zero i m = i
reduce (suc fuel) i m = let rest = reduce fuel (i - m) m in if leb m i then rest else i

-- `index` of both loops.
pub index : ℕ → ℕ → ℕ → ℕ → ℕ
unfolding reduce
index block_size rows k km =
    let i = get_or perm (k / rows) 0 + cols * km in reduce (i + 1) i block_size

module _ {A : Type 0} (dummy : A) where
  -- The loop that fills the block, from index `k`, with `n` rounds left.
  pub pad : ℕ → ℕ → List A → List A
  pad zero k xs = xs
  pad (suc n) k xs = pad n (k + 1) (set xs k dummy)

  -- The values of `out` from `k` on.
  pub interleave_from : List A → ℕ → ℕ → ℕ → ℕ → ℕ → List A
  unfolding index
  interleave_from xs rows block_size zero k km = []
  interleave_from xs rows block_size (suc n) k km =
      get_or xs (index block_size rows k km) dummy
      ∷ interleave_from xs rows block_size n (k + 1) (if km + 1 == rows then 0 else km + 1)

  -- What the call leaves in `out`.
  pub char_interleave : List A → ℕ → Option (List A)
  unfolding pad interleave_from
  char_interleave xs inlen =
      let rows = rows_of inlen in
      let block_size = cols * rows in
      if ltb (length xs) block_size
      then none
      else some (interleave_from (pad (block_size - inlen) inlen xs) rows block_size block_size 0 0)

  pub deinterleave_from : List A → ℕ → ℕ → ℕ → ℕ → List A → List A
  unfolding index
  deinterleave_from xs rows block_size zero k out = out
  deinterleave_from xs rows block_size (suc n) k out =
      deinterleave_from xs rows block_size n (k + 1)
        (set out (index block_size rows k (reduce (k + 1) k rows)) (get_or xs k dummy))

  -- `out` after the call.
  pub float_deinterleave : List A → List A → ℕ → Option (List A)
  unfolding deinterleave_from
  float_deinterleave xs out block_size =
      if ltb (length xs) block_size || ltb (length out) block_size
      then none
      else some (deinterleave_from xs (block_size / cols) block_size block_size 0 out)
