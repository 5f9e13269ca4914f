-- ===== src/Ratematching/Roundtrip.antt =====
-- Deinterleaving what was interleaved gives the block back.
use mathlib.Core.Path.{subst}
use aloe.Base.{
  ℕ, zero, suc, ◌+◌, ◌-◌, ◌*◌, ◌/◌, ◌%◌, ◌==◌, ◌≤◌, ◌<◌, ◌≡◌, ◌∙◌, ap, ap₂, sym, refl, Option, none,
  some, List, [], ◌∷◌, ◌++◌, length, get_or, set, if◌then◌else◌, arith, ℕ_discrete, length-set,
  get_or-set_self, get_or-set_ne, get_or_ext, take, replicate, append-nil, take_all,
}
use native.Mathlib.Nat.{zero-mod, mul-div_right}
use aloe.Ratematching.{
  cols, rows_of, index, pad, interleave_from, char_interleave, deinterleave_from,
  float_deinterleave,
}
use aloe.Ratematching.Index.{
  position, position-lt, position-place, place, place-lt, index_lem, next-mod, reduce_lem,
}

module _ {A : Type 0} (dummy : A) (r : ℕ) (pos : 0 < r) where
  interleaved : List A → ℕ → ℕ → List A
  interleaved xs n k = interleave_from dummy xs r (cols * r) n k (k % r)

  length-interleave_from :
      (xs : List A) (n k km : ℕ) → length (interleave_from dummy xs r (cols * r) n k km) ≡ n
  unfolding interleave_from
  length-interleave_from xs zero k km = refl
  length-interleave_from xs (suc n) k km =
      ap suc (length-interleave_from xs n (k + 1) (if km + 1 == r then 0 else km + 1))

  interleaved_next :
      (xs : List A) (n k : ℕ)
      → k < cols * r
      → interleaved xs (suc n) k ≡ get_or xs (position r k) dummy ∷ interleaved xs n (k + 1)
  unfolding interleaved interleave_from
  interleaved_next xs n k h =
      ap₂ (λ i km. get_or xs i dummy ∷ interleave_from dummy xs r (cols * r) n (k + 1) km)
        (index_lem r pos k h) (next-mod k r pos)

  -- The element at `j` is the one at the position of `k + j`.
  get_or-interleaved :
      (xs : List A) (n k j : ℕ)
      → j < n
      → k + n ≤ cols * r
      → get_or (interleaved xs n k) j dummy ≡ get_or xs (position r (k + j)) dummy
  get_or-interleaved xs zero k j hj hk = absurd (omega arith)
  get_or-interleaved xs (suc n) k zero hj hk =
      ap (λ l. get_or l 0 dummy) (interleaved_next xs n k (omega arith))
      ∙ ap (λ m. get_or xs (position r m) dummy) (omega arith)
  get_or-interleaved xs (suc n) k (suc j) hj hk =
      ap (λ l. get_or l (suc j) dummy) (interleaved_next xs n k (omega arith))
      ∙ get_or-interleaved xs n (k + 1) j (omega arith) (omega arith)
      ∙ ap (λ m. get_or xs (position r m) dummy) (omega arith)

  -- Deinterleaving `ys` to the block `xs`, of which it holds the elements.
  module _ (xs ys : List A) (full : length xs ≡ cols * r)
      (holds : (k : ℕ) → k < cols * r → get_or ys k dummy ≡ get_or xs (position r k) dummy) where
    write : ℕ → List A → List A
    write k out = set out (position r k) (get_or ys k dummy)

    deinterleaved : ℕ → ℕ → List A → List A
    deinterleaved n k out = deinterleave_from dummy ys r (cols * r) n k out

    deinterleaved_next :
        (n k : ℕ) (out : List A)
        → k < cols * r
        → deinterleaved (suc n) k out ≡ deinterleaved n (k + 1) (write k out)
    unfolding deinterleaved deinterleave_from write
    deinterleaved_next n k out h =
        ap (λ i. deinterleave_from dummy ys r (cols * r) n (k + 1) (set out i (get_or ys k dummy)))
          (ap (index (cols * r) r k) (reduce_lem (k + 1) k r pos (omega arith))
            ∙ index_lem r pos k h)

    length-deinterleaved : (n k : ℕ) (out : List A) → length (deinterleaved n k out) ≡ length out
    unfolding deinterleaved deinterleave_from
    length-deinterleaved zero k out = refl
    length-deinterleaved (suc n) k out =
        length-deinterleaved n (k + 1) _ ∙ length-set out _ (get_or ys k dummy)

    length-write : (k : ℕ) (out : List A) → length (write k out) ≡ length out
    unfolding write
    length-write k out = length-set out (position r k) (get_or ys k dummy)

    -- The place `j` of `out` is as in the block.
    abbrev Right : ℕ → List A → Type 0
    Right j out = get_or out j dummy ≡ get_or xs j dummy

    write-Right :
        (j k : ℕ) (out : List A)
        → k < cols * r
        → length out ≡ cols * r
        → Right j out
        → Right j (write k out)
    unfolding write
    write-Right j k out hk hl right = elim (ℕ_discrete (position r k) j) [
      | yes e ↦
          subst (λ i. Right i (write k out)) e
            (get_or-set_self out (position r k) (get_or ys k dummy) dummy
                (omega (arith, position-lt r pos k hk))
              ∙ holds k hk)
      | no ne ↦ get_or-set_ne out (position r k) j (get_or ys k dummy) dummy ne ∙ right
    ]

    write_hits :
        (k : ℕ) (out : List A)
        → k < cols * r
        → length out ≡ cols * r
        → Right (position r k) (write k out)
    unfolding write
    write_hits k out hk hl =
        get_or-set_self out (position r k) (get_or ys k dummy) dummy
          (omega (arith, position-lt r pos k hk))
        ∙ holds k hk

    deinterleaved-Right :
        (j n k : ℕ) (out : List A)
        → k + n ≤ cols * r
        → length out ≡ cols * r
        → Right j out
        → Right j (deinterleaved n k out)
    unfolding deinterleaved deinterleave_from
    deinterleaved-Right j zero k out hk hl right = right
    deinterleaved-Right j (suc n) k out hk hl right =
        ap (λ l. get_or l j dummy) (deinterleaved_next n k out (omega arith))
        ∙ deinterleaved-Right j n (k + 1) (write k out) (omega arith) (length-write k out ∙ hl)
            (write-Right j k out (omega arith) hl right)

    -- Every place that is written is right.
    deinterleaved_hits :
        (m n k : ℕ) (out : List A)
        → k ≤ m
        → m < k + n
        → k + n ≤ cols * r
        → length out ≡ cols * r
        → Right (position r m) (deinterleaved n k out)
    deinterleaved_hits m zero k out lo hi hk hl = absurd (omega arith)
    deinterleaved_hits m (suc n) k out lo hi hk hl = elim (ℕ_discrete m k) [
      | yes e ↦
          subst (λ i. Right (position r i) (deinterleaved (suc n) k out)) (sym e)
            (ap (λ l. get_or l (position r k) dummy) (deinterleaved_next n k out (omega arith))
              ∙ deinterleaved-Right (position r k) n (k + 1) (write k out) (omega arith)
                  (length-write k out ∙ hl) (write_hits k out (omega arith) hl))
      | no ne ↦
          ap (λ l. get_or l (position r m) dummy) (deinterleaved_next n k out (omega arith))
          ∙ deinterleaved_hits m n (k + 1) (write k out) (omega arith) (omega arith) (omega arith)
              (length-write k out ∙ hl)
    ]

    deinterleaved_lem : (out : List A) → length out ≡ cols * r → deinterleaved (cols * r) 0 out ≡ xs
    deinterleaved_lem out hl =
        get_or_ext dummy (deinterleaved (cols * r) 0 out) xs
          (length-deinterleaved (cols * r) 0 out ∙ hl ∙ sym full)
          (λ j hj.
            let small : j < cols * r =
              omega (arith, length-deinterleaved (cols * r) 0 out, hl, full) in
            subst (λ i. Right i (deinterleaved (cols * r) 0 out)) (position-place r pos j small)
              (deinterleaved_hits (place r pos j) (cols * r) 0 out (omega arith)
                (omega (arith, place-lt r pos j small)) (omega arith) hl))

take-suc :
    {A : Type 0} (x : A) (xs : List A) (k n : ℕ) → n ≡ suc k → take n (x ∷ xs) ≡ x ∷ take k xs
take-suc x xs k n e = ap (λ m. take m (x ∷ xs)) e

take-set :
    {A : Type 0} (d : A) (xs : List A) (k : ℕ)
    → k < length xs
    → take (k + 1) (set xs k d) ≡ take k xs ++ (d ∷ [])
take-set d [] k h = absurd (omega arith)
take-set d (x ∷ xs) zero h = refl
take-set d (x ∷ xs) (suc k) h =
    take-suc x (set xs k d) (k + 1) (suc k + 1) (omega arith)
    ∙ ap (λ l. x ∷ l) (take-set d xs k (omega arith))

append_cons :
    {A : Type 0} (xs : List A) (y : A) (ys : List A) → (xs ++ (y ∷ [])) ++ ys ≡ xs ++ (y ∷ ys)
append_cons [] y ys = refl
append_cons (x ∷ xs) y ys = ap (λ l. x ∷ l) (append_cons xs y ys)

module _ {A : Type 0} (dummy : A) where
  pad_lem :
      (n k : ℕ) (xs : List A)
      → length xs ≡ k + n
      → pad dummy n k xs ≡ take k xs ++ replicate n dummy
  unfolding pad
  pad_lem zero k xs e = sym (append-nil (take k xs) ∙ take_all k xs (omega arith))
  pad_lem (suc n) k xs e =
      pad_lem n (k + 1) (set xs k dummy) (omega (arith, length-set xs k dummy))
      ∙ ap (λ l. l ++ replicate n dummy) (take-set dummy xs k (omega arith))
      ∙ append_cons (take k xs) dummy (replicate n dummy)

  length-pad : (n k : ℕ) (xs : List A) → length (pad dummy n k xs) ≡ length xs
  unfolding pad
  length-pad zero k xs = refl
  length-pad (suc n) k xs = length-pad n (k + 1) (set xs k dummy) ∙ length-set xs k dummy

  -- The block that is interleaved: the first `inlen` elements, filled up.
  abbrev pub block : List A → ℕ → List A
  block xs inlen = take inlen xs ++ replicate (cols * rows_of inlen - inlen) dummy

  -- `char_interleave` and then `float_deinterleave`.
  abbrev pub there_and_back : List A → List A → ℕ → Option (List A)
  there_and_back xs out inlen = elim (char_interleave dummy xs inlen) [
    | none ↦ none
    | some ys ↦ float_deinterleave dummy ys out (cols * rows_of inlen)
  ]

  -- The two calls on arrays of `r` rows.
  module _ (xs out : List A) (inlen r : ℕ) (rows : rows_of inlen ≡ r) (hx : length xs ≡ cols * r)
      (ho : length out ≡ cols * r) where
    padded : List A
    padded = pad dummy (cols * r - inlen) inlen xs

    output : List A
    output = interleave_from dummy padded r (cols * r) (cols * r) 0 0

    rows_pos : 0 < r
    rows_pos = omega (arith, rows)

    length-padded : length padded ≡ cols * r
    unfolding padded
    length-padded = length-pad (cols * r - inlen) inlen xs ∙ hx

    padded_lem : padded ≡ block xs inlen
    unfolding padded
    padded_lem =
        pad_lem (cols * r - inlen) inlen xs (omega (arith, rows))
        ∙ ap (λ n. take inlen xs ++ replicate (cols * n - inlen) dummy) (sym rows)

    output-eq-interleaved : output ≡ interleaved dummy r rows_pos padded (cols * r) 0
    unfolding output interleaved
    output-eq-interleaved =
        ap (interleave_from dummy padded r (cols * r) (cols * r) 0) (sym (zero-mod r))

    output_holds :
        (k : ℕ) → k < cols * r → get_or output k dummy ≡ get_or padded (position r k) dummy
    output_holds k h =
        ap (λ l. get_or l k dummy) output-eq-interleaved
        ∙ get_or-interleaved dummy r rows_pos padded (cols * r) 0 k h (omega arith)
        ∙ ap (λ m. get_or padded (position r m) dummy) (omega arith)

    char_interleave_lem : char_interleave dummy xs inlen ≡ some output
    unfolding char_interleave output padded
    char_interleave_lem = rw rows (ground (arith, hx))

    length-output : length output ≡ cols * r
    unfolding output
    length-output = length-interleave_from dummy r rows_pos padded (cols * r) 0 0

    guarded :
        float_deinterleave dummy output out (cols * r)
        ≡ some (deinterleave_from dummy output (cols * r / cols) (cols * r) (cols * r) 0 out)
    unfolding float_deinterleave
    guarded = ground (arith, length-output, ho)

    deinterleaved_output : deinterleave_from dummy output r (cols * r) (cols * r) 0 out ≡ padded
    unfolding deinterleaved
    deinterleaved_output =
        deinterleaved_lem dummy r rows_pos padded output length-padded output_holds out ho

    float_deinterleave_lem : float_deinterleave dummy output out (cols * r) ≡ some padded
    float_deinterleave_lem =
        guarded
        ∙ ap (λ q. some (deinterleave_from dummy output q (cols * r) (cols * r) 0 out))
            (mul-div_right r {m = cols} (omega arith))
        ∙ ap some deinterleaved_output

  -- For arrays of the size of the block, `float_deinterleave` gives back what `char_interleave` was
  -- given, filled up with dummies, whatever `out` held before.
  pub float_deinterleave-char_interleave :
      (xs out : List A) (inlen : ℕ)
      → length xs ≡ cols * rows_of inlen
      → length out ≡ cols * rows_of inlen
      → there_and_back xs out inlen ≡ some (block xs inlen)
  float_deinterleave-char_interleave xs out inlen hx ho =
      let r = rows_of inlen in
      ap
        (λ (o : Option (List A)). elim o [
          | none ↦ none
          | some ys ↦ float_deinterleave dummy ys out (cols * r)
        ])
        (char_interleave_lem xs out inlen r refl hx ho)
      ∙ float_deinterleave_lem xs out inlen r refl hx ho
      ∙ ap some (padded_lem xs out inlen r refl hx ho)
