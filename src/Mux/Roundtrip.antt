-- ===== src/Mux/Roundtrip.antt =====
-- `mux` puts the inputs one behind the other, and `demux` with the same lengths parts them again.
use aloe.Base.{
  arith, ℕ, ◌+◌, ◌≤◌, ◌≡◌, refl, sym, ap, ap₂, ◌∙◌, List, [], ◌∷◌, ◌++◌, append-nil, append_assoc,
  length, replicate, take, drop, drop-drop, ok, >>=_ok, write, copy, write_next, copy_next,
  length-append, length-take, length-drop, drop-append_left, take-append_left, ◌>>◌,
}
use aloe.Mux.{sum, mux, demux, demux_one, filled}

module _ {A : Type 0} where
  -- Each buffer holds as many samples as its length says.
  abbrev pub AllFit : List (List A) → List ℕ → Type 0
  AllFit [] [] = Unit
  AllFit (xs ∷ xss) (len ∷ lens) = (len ≤ length xs) × AllFit xss lens
  AllFit _ _ = ⊥

  -- The first samples of every input.
  abbrev pub joined : List (List A) → List ℕ → List A
  joined (xs ∷ xss) (len ∷ lens) = take len xs ++ joined xss lens
  joined _ _ = []

  -- The outputs, each with the samples of its input in front.
  abbrev pub parted : List (List A) → List ℕ → List (List A) → List (List A)
  parted (xs ∷ xss) (len ∷ lens) (out ∷ outs) = (take len xs ++ drop len out) ∷ parted xss lens outs
  parted _ _ _ = []

  length-joined :
      (xss : List (List A)) (lens : List ℕ) → AllFit xss lens → length (joined xss lens) ≡ sum lens
  unfolding sum
  length-joined [] [] h = refl
  length-joined (xs ∷ xss) (len ∷ lens) (fits, more) = omega (
    arith,
    length-append (take len xs) (joined xss lens),
    length-take len xs,
    length-joined xss lens more,
  )
  length-joined [] (len ∷ lens) h = absurd h
  length-joined (xs ∷ xss) [] h = absurd h

  -- What `mux` writes behind the samples that are there.
  mux_lem :
      (xss : List (List A)) (lens : List ℕ) (done rest : List A) (r : ℕ)
      → AllFit xss lens
      → r ≡ length done
      → sum lens ≤ length rest
      → mux (length xss) xss lens (replicate (length xss) 0) r (done ++ rest)
        ≡ (ok tt, done ++ joined xss lens ++ drop (sum lens) rest)
  unfolding sum mux
  mux_lem [] [] done rest r h e room = ap (λ l. (ok tt, l ++ rest)) (sym (append-nil done))
  mux_lem (xs ∷ xss) (len ∷ lens) done rest r (fits, more) e room =
      let part = take len xs in
      let rest' = drop len rest in
      let size : r + len ≡ length (done ++ part) =
        omega (arith, length-append done part, length-take len xs) in
      >>=_ok (copy r xs 0 len) (λ _. mux (length xss) xss lens (replicate (length xss) 0) (r + len))
        (done ++ rest) (copy_next done xs rest r 0 len e (omega arith) (omega arith))
        (mux_lem xss lens (done ++ part) rest' (r + len) more size
            (omega (arith, length-drop len rest))
          ∙ ap₂ (λ front back. (ok tt, front ++ back)) (append_assoc done part (joined xss lens))
              (drop-drop (sum lens) len (len + sum lens) rest (omega arith)))
  mux_lem [] (len ∷ lens) done rest r h e room = absurd h
  mux_lem (xs ∷ xss) [] done rest r h e room = absurd h

module _ {A : Type 0} (zero_sample : A) where
  -- A write of nothing.
  write_none : (done rest : List A) → write (length done) [] (done ++ rest) ≡ (ok tt, done ++ rest)
  write_none done rest =
      write_next done [] rest (length done) refl (omega arith)
      ∙ ap (λ l. (ok tt, l ++ rest)) (append-nil done)

  demux_one_lem :
      (input out : List A) (r len : ℕ)
      → r + len ≤ length input
      → len ≤ length out
      → demux_one zero_sample input r len 0 0 out ≡ (ok tt, take len (drop r input) ++ drop len out)
  unfolding demux_one
  demux_one_lem input out r len inside fits =
      let part = take len (drop r input) in
      let size : length part ≡ 0 + len =
        omega (arith, length-take len (drop r input), length-drop r input) in
      >>=_ok (λ o. (write 0 [] >> copy 0 input r len) o) (λ _. write (0 + len) []) out
        (>>=_ok (write 0 []) (λ _. copy 0 input r len) out (write_none [] out)
          (copy_next [] input out 0 r len refl inside fits))
        (ap (λ m. write m [] (part ++ drop len out)) (sym size) ∙ write_none part (drop len out))

  demux_lem :
      (xss : List (List A)) (lens : List ℕ) (outs : List (List A)) (before behind : List A) (r : ℕ)
      → AllFit xss lens
      → AllFit outs lens
      → r ≡ length before
      → demux zero_sample
          (length xss)
          (before ++ joined xss lens ++ behind)
          outs
          lens
          (replicate (length xss) 0)
          (replicate (length xss) 0)
          r
        ≡ ok (parted xss lens outs)
  unfolding demux filled
  demux_lem [] [] [] before behind r h fits e = refl
  demux_lem [] [] (out ∷ outs) before behind r h fits e = absurd fits
  demux_lem (xs ∷ xss) (len ∷ lens) [] before behind r h fits e = absurd fits
  demux_lem [] (len ∷ lens) outs before behind r h fits e = absurd h
  demux_lem (xs ∷ xss) [] outs before behind r h fits e = absurd h
  demux_lem (xs ∷ xss) (len ∷ lens) (out ∷ outs) before behind r (have, more) (fits, fit_more) e =
      let part = take len xs in
      let input = before ++ (part ++ joined xss lens) ++ behind in
      let size : length part ≡ len = omega (arith, length-take len xs) in
      let input_is : input ≡ before ++ part ++ joined xss lens ++ behind =
        ap (λ l. l ++ behind) (sym (append_assoc before part (joined xss lens))) in
      let total : length input ≡ length before + len + length (joined xss lens) + length behind =
        omega (
          arith,
          length-append (before ++ (part ++ joined xss lens)) behind,
          length-append before (part ++ joined xss lens),
          length-append part (joined xss lens),
        ) in
      let here : take len (drop r input) ≡ part =
        ap (λ l. take len (drop r l)) (append_assoc before (part ++ joined xss lens) behind)
        ∙ ap (take len) (
            drop-append_left r before ((part ++ joined xss lens) ++ behind) e
            ∙ append_assoc part (joined xss lens) behind)
        ∙ take-append_left len part (joined xss lens ++ behind) (sym size) in
      let one : demux_one zero_sample input r len 0 0 out ≡ (ok tt, part ++ drop len out) =
        demux_one_lem input out r len (omega (arith, total)) fits
        ∙ ap (λ l. (ok tt, l ++ drop len out)) here in
      let rest : demux zero_sample (length xss) input outs lens (replicate (length xss) 0)
            (replicate (length xss) 0) (r + len + 0)
          ≡ ok (parted xss lens outs) =
        ap
          (λ l.
            demux zero_sample (length xss) l outs lens (replicate (length xss) 0)
              (replicate (length xss) 0) (r + len + 0))
          input_is
        ∙ demux_lem xss lens outs (before ++ part) behind (r + len + 0) more fit_more
            (omega (arith, length-append before part)) in
      ap₂ filled one rest

  -- Inputs with as many samples as their lengths say, an output with room for their sum, and as many
  -- outputs with room for the lengths: `mux` without padding returns, and `demux` without padding,
  -- with the same lengths, on what it wrote, puts the samples of each input in front of the output
  -- of the same place, and leaves the rest of the output as it was.
  pub demux-mux :
      (xss outs : List (List A)) (lens : List ℕ) (out : List A)
      → AllFit xss lens
      → AllFit outs lens
      → sum lens ≤ length out
      → (sent : List A) × (mux (length xss) xss lens (replicate (length xss) 0) 0 out
          ≡ (ok tt, sent))
        × (demux zero_sample
              (length xss)
              sent
              outs
              lens
              (replicate (length xss) 0)
              (replicate (length xss) 0)
              0
            ≡ ok (parted xss lens outs))
  demux-mux xss outs lens out have fits room = (
    joined xss lens ++ drop (sum lens) out,
    mux_lem xss lens [] out 0 have refl room,
    demux_lem xss lens outs [] (drop (sum lens) out) 0 have fits refl,
  )
