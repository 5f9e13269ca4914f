-- ===== src/Base/Tabulate.antt =====
-- The list of a function's values at consecutive numbers.
use Prim.Native.Nat.{ℕ, zero, suc, ◌+◌, ◌<◌}
use mathlib.Core.Path.{◌≡◌, refl, ap, ap₂, ◌∙◌}
use mathlib.Core.List.{List, [], ◌∷◌, ◌++◌}
use native.Mathlib.Omega.{arith}
use aloe.Base.Lists.{length, get_or}

-- `f i ∷ … ∷ f (i + n - 1) ∷ []`
unfoldable pub tabulate {ℓ} : {A : Type ℓ} → (ℕ → A) → ℕ → ℕ → List A
tabulate f zero i = []
tabulate f (suc n) i = f i ∷ tabulate f n (i + 1)

pub tabulate_ext {ℓ} :
    {A : Type ℓ} (f g : ℕ → A) (n i j : ℕ)
    → ((k : ℕ) → k < n → f (i + k) ≡ g (j + k))
    → tabulate f n i ≡ tabulate g n j
unfolding tabulate
tabulate_ext f g zero i j h = refl
tabulate_ext f g (suc n) i j h =
    ap₂ ◌∷◌ (here (h 0 (omega arith)))
      (tabulate_ext f g n (i + 1) (j + 1) λ k lt. there k (h (suc k) (omega arith)))
  where
    here : f (i + 0) ≡ g (j + 0) → f i ≡ g j
    here e = ap f (omega arith) ∙ e ∙ ap g (omega arith)

    there : (k : ℕ) → f (i + suc k) ≡ g (j + suc k) → f (i + 1 + k) ≡ g (j + 1 + k)
    there k e = ap f (omega arith) ∙ e ∙ ap g (omega arith)

module _ {ℓ} {A : Type ℓ} (f : ℕ → A) where
  pub length-tabulate : (n i : ℕ) → length (tabulate f n i) ≡ n
  unfolding tabulate
  length-tabulate zero i = refl
  length-tabulate (suc n) i = ap suc (length-tabulate n (i + 1))

  pub get_or-tabulate : (n i k : ℕ) (d : A) → k < n → get_or (tabulate f n i) k d ≡ f (i + k)
  unfolding tabulate
  get_or-tabulate zero i k d h = absurd (omega arith)
  get_or-tabulate (suc n) i zero d h = ap f (omega arith)
  get_or-tabulate (suc n) i (suc k) d h =
      get_or-tabulate n (i + 1) k d (omega arith) ∙ ap f (omega arith)

  pub tabulate_add : (n k i : ℕ) → tabulate f (n + k) i ≡ tabulate f n i ++ tabulate f k (i + n)
  unfolding tabulate
  tabulate_add zero k i =
      ap (λ m. tabulate f m i) {x = 0 + k} {y = k} (omega arith)
      ∙ ap (tabulate f k) {x = i} {y = i + 0} (omega arith)
  tabulate_add (suc n) k i =
      ap (λ m. tabulate f m i) {x = suc n + k} {y = suc (n + k)} (omega arith)
      ∙ ap (λ xs. f i ∷ xs)
          (tabulate_add n k (i + 1)
            ∙ ap (λ m. tabulate f n (i + 1) ++ tabulate f k m) {x = i + 1 + n} {y = i + suc n}
                (omega arith))
