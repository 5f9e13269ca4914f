-- ===== src/Ratematching/Index.antt =====
-- The index that the interleaver reads for each place of the block, and that it reads them all.
use mathlib.Core.Path.{subst}
use aloe.Base.{
  ℕ, zero, suc, ◌+◌, ◌-◌, ◌*◌, ◌/◌, ◌%◌, ◌==◌, ◌<◌, ◌≡◌, ◌∙◌, ap, ap₂, sym, refl, List, [], ◌∷◌,
  get_or, if◌then◌else◌, arith, All, ℕ_discrete, dec_le,
}
use native.Mathlib.Nat.{
  mod-lt, mod-eq_of_lt, mod_self, suc-mod, mod-eq-sub-mod, div-lt_iff_lt-mul, mul-add-div,
  mul-add-mod_self_left, div-eq_of_lt, div-add-mod,
}
use aloe.Ratematching.{perm, cols, reduce, index}

-- The loop of subtractions is the remainder.
pub reduce_lem : (fuel i m : ℕ) → 0 < m → i < fuel → reduce fuel i m ≡ i % m
unfolding reduce
reduce_lem zero i m pos h = absurd (omega arith)
reduce_lem (suc fuel) i m pos h = elim (dec_le m i) [
  | yes le ↦ ground (arith, reduce_lem fuel (i - m) m pos (omega arith), mod-eq-sub-mod le)
  | no gt ↦ let lt : i < m = omega arith in ground (arith, mod-eq_of_lt lt)
]

after : (k r : ℕ) → (k + 1) % r ≡ (k % r + 1) % r
after k r =
    let up : (n : ℕ) → n + 1 ≡ suc n = λ n. omega arith in
    ap (λ n. n % r) (up k) ∙ suc-mod k r ∙ ap (λ n. n % r) (sym (up (k % r)))

-- The counter `km` is the remainder of `k`.
pub next-mod : (k r : ℕ) → 0 < r → (if k % r + 1 == r then 0 else k % r + 1) ≡ (k + 1) % r
next-mod k r pos = elim (ℕ_discrete (k % r + 1) r) [
  | yes e ↦ ground (arith, after k r, ap (λ n. n % r) e, mod_self r)
  | no ne ↦
      let lt : k % r + 1 < r = omega (arith, mod-lt k pos) in
      ground (arith, after k r, mod-eq_of_lt lt)
]

abbrev pub position : ℕ → ℕ → ℕ
position r k = get_or perm (k / r) 0 + cols * (k % r)

abbrev below : ℕ → List ℕ
below zero = []
below (suc n) = n ∷ below n

All-below : (P : ℕ → Type 0) (n : ℕ) → All P (below n) → (c : ℕ) → c < n → P c
All-below P zero a c h = absurd (omega arith)
All-below P (suc n) (p, a) c h = elim (ℕ_discrete c n) [
  | yes e ↦ subst P (sym e) p
  | no ne ↦ All-below P n a c (omega arith)
]

perm_small : (c : ℕ) → c < cols → get_or perm c 0 < cols
perm_small =
    All-below (λ c. get_or perm c 0 < cols) cols
      (
        omega arith,
        (
          omega arith,
          (
            omega arith,
            (
              omega arith,
              (
                omega arith,
                (
                  omega arith,
                  (
                    omega arith,
                    (
                      omega arith,
                      (
                        omega arith,
                        (
                          omega arith,
                          (
                            omega arith,
                            (
                              omega arith,
                              (
                                omega arith,
                                (
                                  omega arith,
                                  (
                                    omega arith,
                                    (
                                      omega arith,
                                      (
                                        omega arith,
                                        (
                                          omega arith,
                                          (
                                            omega arith,
                                            (
                                              omega arith,
                                              (
                                                omega arith,
                                                (
                                                  omega arith,
                                                  (
                                                    omega arith,
                                                    (
                                                      omega arith,
                                                      (
                                                        omega arith,
                                                        (
                                                          omega arith,
                                                          (
                                                            omega arith,
                                                            (
                                                            omega arith,
                                                            (
                                                            omega arith,
                                                            (
                                                            omega arith,
                                                            (omega arith, (omega arith, tt)),
                                                            ),
                                                            ),
                                                            ),
                                                          ),
                                                        ),
                                                      ),
                                                    ),
                                                  ),
                                                ),
                                              ),
                                            ),
                                          ),
                                        ),
                                      ),
                                    ),
                                  ),
                                ),
                              ),
                            ),
                          ),
                        ),
                      ),
                    ),
                  ),
                ),
              ),
            ),
          ),
        ),
      )

-- PERM is its own inverse.
perm-perm : (c : ℕ) → c < cols → get_or perm (get_or perm c 0) 0 ≡ c
perm-perm =
    All-below (λ c. get_or perm (get_or perm c 0) 0 ≡ c) cols
      (
        refl,
        (
          refl,
          (
            refl,
            (
              refl,
              (
                refl,
                (
                  refl,
                  (
                    refl,
                    (
                      refl,
                      (
                        refl,
                        (
                          refl,
                          (
                            refl,
                            (
                              refl,
                              (
                                refl,
                                (
                                  refl,
                                  (
                                    refl,
                                    (
                                      refl,
                                      (
                                        refl,
                                        (
                                          refl,
                                          (
                                            refl,
                                            (
                                              refl,
                                              (
                                                refl,
                                                (
                                                  refl,
                                                  (
                                                    refl,
                                                    (
                                                      refl,
                                                      (
                                                        refl,
                                                        (
                                                          refl,
                                                          (
                                                            refl,
                                                            (
                                                            refl,
                                                            (refl, (refl, (refl, (refl, tt)))),
                                                            ),
                                                          ),
                                                        ),
                                                      ),
                                                    ),
                                                  ),
                                                ),
                                              ),
                                            ),
                                          ),
                                        ),
                                      ),
                                    ),
                                  ),
                                ),
                              ),
                            ),
                          ),
                        ),
                      ),
                    ),
                  ),
                ),
              ),
            ),
          ),
        ),
      )

module _ (r : ℕ) (pos : 0 < r) where
  column_in : (k : ℕ) → k < cols * r → k / r < cols
  column_in k h = (div-lt_iff_lt-mul pos).1 h

  pub position-lt : (k : ℕ) → k < cols * r → position r k < cols * r
  position-lt k h = omega (arith, perm_small (k / r) (column_in k h), mod-lt k pos)

  pub index_lem : (k : ℕ) → k < cols * r → index (cols * r) r k (k % r) ≡ position r k
  unfolding index
  index_lem k h =
      reduce_lem (position r k + 1) (position r k) (cols * r) (omega arith) (omega arith)
      ∙ mod-eq_of_lt (position-lt k h)

  -- Where the element of index `j` goes.
  pub place : ℕ → ℕ
  place j = r * get_or perm (j % cols) 0 + j / cols

  row_in : (j : ℕ) → j < cols * r → j / cols < r
  row_in j h = omega (arith, div-add-mod j cols)

  place-div : (j : ℕ) → j < cols * r → place j / r ≡ get_or perm (j % cols) 0
  unfolding place
  place-div j h =
      mul-add-div pos (get_or perm (j % cols) 0) (j / cols)
      ∙ ap (λ n. get_or perm (j % cols) 0 + n) (div-eq_of_lt (row_in j h))
      ∙ omega arith

  place-mod : (j : ℕ) → j < cols * r → place j % r ≡ j / cols
  unfolding place
  place-mod j h =
      mul-add-mod_self_left r (get_or perm (j % cols) 0) (j / cols) ∙ mod-eq_of_lt (row_in j h)

  pub place-lt : (j : ℕ) → j < cols * r → place j < cols * r
  place-lt j h =
      (div-lt_iff_lt-mul {y = cols} pos).0
        (subst (λ n. n < cols) (sym (place-div j h)) (perm_small (j % cols) (omega arith)))

  pub position-place : (j : ℕ) → j < cols * r → position r (place j) ≡ j
  position-place j h =
      ap₂ (λ c m. get_or perm c 0 + cols * m) (place-div j h) (place-mod j h)
      ∙ ap (λ c. c + cols * (j / cols)) (perm-perm (j % cols) (omega arith))
      ∙ omega (arith, div-add-mod j cols)
