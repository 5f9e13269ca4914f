-- ===== src/Base/Calls.antt =====
-- How a C call ends, and the state monad of calls that change one object.
use mathlib.Core.Path.{◌≡◌, ap, ◌∙◌}

-- `ok` is a return of 0 (or of a value), `err` a return of -1, and `fault` an access out of range
-- or through NULL, which C leaves undefined.
pub data Outcome {ℓ} (A : Type ℓ) : Type ℓ where
  ok : A → Outcome A
  err fault : Outcome A

-- A call that reads and changes an object of type `S`; what it changed before it failed stays.
abbrev pub Call : Type 0 → Type 0 → Type 0
Call S A = S → Outcome A × S

abbrev pub proceed : {S A B : Type 0} → (A → Call S B) → Outcome A × S → Outcome B × S
proceed f (ok a, s) = f a s
proceed f (err, s) = (err, s)
proceed f (fault, s) = (fault, s)

infixl 5 ◌>>=◌ ◌>>◌
abbrev pub ◌>>=◌ : {S A B : Type 0} → Call S A → (A → Call S B) → Call S B
◌>>=◌ m f s = proceed f (m s)

abbrev pub ◌>>◌ : {S B : Type 0} → Call S (Unit {0}) → Call S B → Call S B
m >> k = m >>= λ _. k

abbrev pub return : {S A : Type 0} → A → Call S A
return a s = (ok a, s)

abbrev pub fail : {S A : Type 0} → Call S A
fail s = (err, s)

abbrev pub crash : {S A : Type 0} → Call S A
crash s = (fault, s)

module _ {S A B : Type 0} (m : Call S A) (f : A → Call S B) (s : S) where
  pub >>=_ok :
      {a : A} {s' : S} {r : Outcome B × S} → m s ≡ (ok a, s') → f a s' ≡ r → (m >>= f) s ≡ r
  >>=_ok e h = ap (proceed f) e ∙ h

  pub >>=_err : (m s).0 ≡ err → ((m >>= f) s).0 ≡ err
  >>=_err e = go (m s).0 (m s).1 e
    where
      go : (o : Outcome A) (t : S) → o ≡ err → (proceed f (o, t)).0 ≡ err
      go (ok a) t h = cc
      go err t h = h'
        where
          h' : ◌≡◌ {A = Outcome B} err err
          h' = λ i. err
      go fault t h = cc
