-- ===== src/Waveform/Alloc.antt =====
-- The arrays of pointers to initial values: what they point to, and what `variable_alloc` makes.
use aloe.Base.{
  ℕ, zero, suc, ◌+◌, ◌≤◌, ◌<◌, ◌≡◌, ◌∙◌, ap, refl, Bool, true, Option, some, List, [], ◌∷◌, length,
  get_elem?, set, replicate, arith, ok, length-set, get_elem?-set_ne, get_elem?-set_self,
  length-replicate, lt→leb, ℕ_discrete,
}
use aloe.Waveform.{Variable, zeros, rounds, alloc_values, variable_alloc}

-- `ptrs` from `i` on points to the blocks `vs`, one for each mode.
abbrev pub PointsTo : List (Option (List ℕ)) → ℕ → List (List ℕ) → Type 0
PointsTo ptrs i [] = Unit
PointsTo ptrs i (v ∷ vs) = (get_elem? ptrs i ≡ some (some v)) × PointsTo ptrs (i + 1) vs

-- The entries from `i` on replaced by pointers to `vs`.
abbrev pub store : List (Option (List ℕ)) → ℕ → List (List ℕ) → List (Option (List ℕ))
store ptrs i [] = ptrs
store ptrs i (v ∷ vs) = store (set ptrs i (some v)) (i + 1) vs

-- Each of the `n` entries from `i` on points to a block of `size` bytes.
abbrev pub HasRoom : List (Option (List ℕ)) → ℕ → ℕ → ℕ → Type 0
HasRoom ptrs i size n =
    (j : ℕ)
    → i ≤ j
    → j < i + n
    → (b : List ℕ) × (get_elem? ptrs j ≡ some (some b)) × (length b ≡ size)

pub length-store :
    (ptrs : List (Option (List ℕ))) (i : ℕ) (vs : List (List ℕ))
    → length (store ptrs i vs) ≡ length ptrs
length-store ptrs i [] = refl
length-store ptrs i (v ∷ vs) =
    length-store (set ptrs i (some v)) (i + 1) vs ∙ length-set ptrs i (some v)

-- Entries before the first one replaced stay.
store_before :
    (ptrs : List (Option (List ℕ))) (i j : ℕ) (vs : List (List ℕ))
    → j < i
    → get_elem? (store ptrs i vs) j ≡ get_elem? ptrs j
store_before ptrs i j [] h = refl
store_before ptrs i j (v ∷ vs) h =
    store_before (set ptrs i (some v)) (i + 1) j vs (omega arith)
    ∙ get_elem?-set_ne ptrs i j (some v) (omega arith)

pub PointsTo-store :
    (ptrs : List (Option (List ℕ))) (i : ℕ) (vs : List (List ℕ))
    → i + length vs ≤ length ptrs
    → PointsTo (store ptrs i vs) i vs
PointsTo-store ptrs i [] h = tt
PointsTo-store ptrs i (v ∷ vs) h = (
  store_before (set ptrs i (some v)) (i + 1) i vs (omega arith)
      ∙ get_elem?-set_self ptrs i (some v) (omega arith),
  PointsTo-store (set ptrs i (some v)) (i + 1) vs (omega (arith, length-set ptrs i (some v))),
)

abbrev pub blanks : ℕ → ℕ → List (List ℕ)
blanks n size = replicate n (zeros size)

pub HasRoom-store-blanks :
    (ptrs : List (Option (List ℕ))) (i size n : ℕ)
    → i + n ≤ length ptrs
    → HasRoom (store ptrs i (blanks n size)) i size n
HasRoom-store-blanks ptrs i size zero h = λ j p q. absurd (omega arith)
HasRoom-store-blanks ptrs i size (suc n) h = λ j p q. elim (ℕ_discrete j i) [
  | yes e ↦ (
    zeros size,
    ap (get_elem? (store (set ptrs i (some (zeros size))) (i + 1) (blanks n size))) e
        ∙ store_before (set ptrs i (some (zeros size))) (i + 1) i (blanks n size) (omega arith)
        ∙ get_elem?-set_self ptrs i (some (zeros size)) (omega arith),
    length-replicate size 0,
  )
  | no ne ↦
      HasRoom-store-blanks (set ptrs i (some (zeros size))) (i + 1) size n
        (omega (arith, length-set ptrs i (some (zeros size)))) j (omega arith) (omega arith)
]

module _ (calloc : ℕ → ℕ → Bool) (memory : (n size : ℕ) → calloc n size ≡ true) where
  alloc_values_lem :
      (n i : ℕ) (v : Variable)
      → i + n ≤ length v.init_value
      → alloc_values calloc n i v
        ≡ (ok tt, record v { init_value = store v.init_value i (blanks n v.size) })
  unfolding alloc_values
  alloc_values_lem zero i v h = refl
  alloc_values_lem (suc n) i v h =
      rw (lt→leb (length v.init_value) i (omega arith), memory)
        (alloc_values_lem n (i + 1)
          (record v { init_value = set v.init_value i (some (zeros v.size)) })
          (omega (arith, length-set v.init_value i (some (zeros v.size)))))

  -- With memory at hand and no more modes than the array has entries, every mode gets a block.
  pub variable_alloc_lem :
      (nof_modes : ℕ) (v : Variable)
      → rounds nof_modes ≤ length v.init_value
      → variable_alloc calloc nof_modes v ≡ (
        ok tt,
        record v {
          init_value = store v.init_value 0 (blanks (rounds nof_modes) v.size);
          nof_modes = nof_modes;
        },
      )
  unfolding variable_alloc
  variable_alloc_lem nof_modes v h = rw (alloc_values_lem (rounds nof_modes) 0 v (omega arith))
