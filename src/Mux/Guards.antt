-- ===== src/Mux/Guards.antt =====
-- The guards of gen_mux, which count every input as one that has data.
use aloe.Base.{
  arith, lt→ltb, le→ltb, ℕ, zero, suc, ◌≤◌, ◌≡◌, refl, Bool, true, false, ◌&&◌, if◌then◌else◌, List,
  Option, Outcome, err,
}
use aloe.Mux.{Muxing, count_active, mux_output, mux_work}

count_active_lem : (lengths : List ℕ) (n : ℕ) → count_active lengths n ≡ n
unfolding count_active
count_active_lem lengths zero = refl
count_active_lem lengths (suc n) = omega (arith, count_active_lem lengths n)

abbrev pub muxing : ℕ → Bool → Bool → Muxing
muxing n check_all exclusive = record {
  nof_inputs = n;
  exclusive = exclusive;
  check_all = check_all;
}

module _ {A : Type 0} (n : ℕ) (check_all : Bool) (lengths : List ℕ) (inp : List (List A)) where
  exclusive_fails :
      (out : Option (List A))
      → 2 ≤ n
      → mux_work (muxing n check_all true) lengths inp out ≡ (err, out)
  unfolding mux_work
  exclusive_fails out several = rw (count_active_lem lengths n, lt→ltb 1 n several) refl

  unchecked :
      (out : Option (List A))
      → mux_work (muxing n check_all false) lengths inp out
        ≡ mux_output (muxing n check_all false) lengths inp out
  unfolding mux_work
  unchecked out = rw (count_active_lem lengths n, le→ltb n n (omega arith)) (never check_all)
    where
      passes : Outcome ℕ × Option (List A)
      passes = mux_output (muxing n check_all false) lengths inp out

      never : (b : Bool) → (if b && false then (err, out) else passes) ≡ passes
      never true = refl
      never false = refl

  -- With two inputs or more: if `exclusive` is set, `work` of gen_mux returns -1 and leaves the
  -- output alone, whatever the inputs received, also if only one or none of them has data; if it is
  -- not set, `work` multiplexes whatever they received, and `check_all` makes no difference.
  pub mux_work-guards :
      (out : Option (List A))
      → 2 ≤ n
      → (mux_work (muxing n check_all true) lengths inp out ≡ (err, out))
        × (mux_work (muxing n check_all false) lengths inp out
            ≡ mux_output (muxing n check_all false) lengths inp out)
  mux_work-guards out several = (exclusive_fails out several, unchecked out)
