-- ===== src/Base/Buffer.antt =====
-- `memcpy` and `memset` on a buffer of samples: calls that change the output, with a fault where C
-- would leave the buffer.
use Prim.Native.Nat.{ℕ, ◌+◌, ◌≤◌}
use mathlib.Core.Path.{◌≡◌, refl, sym, ap, ◌∙◌}
use mathlib.Core.Bool.{true}
use mathlib.Core.List.{List, ◌++◌}
use native.Mathlib.Omega.{arith}
use aloe.Base.Tests.{leb, le→leb, if◌then◌else◌}
use aloe.Base.Lists.{
  length, take, drop, take-append_left, drop-append_left, drop-drop, length-append, length-take,
  length-drop,
}
use aloe.Base.Calls.{ok, fault, Call, crash}

module _ {A : Type 0} where
  -- `memcpy(&out[pos],xs,length)`
  unfoldable pub write : ℕ → List A → Call (List A) (Unit {0})
  write pos xs out =
      if leb (pos + length xs) (length out)
      then (ok tt, take pos out ++ xs ++ drop (pos + length xs) out)
      else (fault, out)

  -- `memcpy(&out[pos],&input[from],len)`
  unfoldable pub copy : ℕ → List A → ℕ → ℕ → Call (List A) (Unit {0})
  unfolding write
  copy pos input from len =
      if leb (from + len) (length input) then write pos (take len (drop from input)) else crash

  -- A write behind what is there already.
  pub write_next :
      (done xs rest : List A) (pos : ℕ)
      → pos ≡ length done
      → length xs ≤ length rest
      → write pos xs (done ++ rest) ≡ (ok tt, done ++ xs ++ drop (length xs) rest)
  unfolding write
  write_next done xs rest pos e fits =
      let inside : leb (pos + length xs) (length (done ++ rest)) ≡ true =
        le→leb (pos + length xs) (length (done ++ rest)) (omega (arith, length-append done rest)) in
      let kept : drop (pos + length xs) (done ++ rest) ≡ drop (length xs) rest =
        sym (drop-drop (length xs) pos (pos + length xs) (done ++ rest) (omega arith))
        ∙ ap (drop (length xs)) (drop-append_left pos done rest e) in
      rw (inside, take-append_left pos done rest e, kept) refl

  pub copy_next :
      (done input rest : List A) (pos from len : ℕ)
      → pos ≡ length done
      → from + len ≤ length input
      → len ≤ length rest
      → copy pos input from len (done ++ rest)
        ≡ (ok tt, done ++ take len (drop from input) ++ drop len rest)
  unfolding copy
  copy_next done input rest pos from len e inside fits =
      let xs = take len (drop from input) in
      let size : length xs ≡ len =
        omega (arith, length-take len (drop from input), length-drop from input) in
      rw (le→leb (from + len) (length input) inside) (
        write_next done xs rest pos e (omega arith)
        ∙ ap (λ m. (ok tt, done ++ xs ++ drop m rest)) size)
