-- ===== src/Scrambling/Sequence/Recurrence.antt =====
-- The sequences that scrambling.c generates against the recurrences of 36.211, section 7.2, on the
-- bits of the arrays.
use aloe.Base.{
  arith, ℕ, suc, ◌+◌, ◌*◌, ◌^◌, ◌≤◌, ◌<◌, ◌≡◌, sym, ap, ◌∙◌, List, length, length-set, get_or, set,
  get_or-set_self, ℕ_discrete,
}
use aloe.Scrambling.{add_at}
use aloe.Scrambling.Words.{
  bit, bit-add_at_new, bit-add_at_kept, add_at-room, bit-set_kept, length-add_at,
}

-- The bits below `n` obey x(m+31) = f(x(m+3),x(m+2),x(m+1),x(m)).
abbrev pub Recurs : (ℕ → ℕ → ℕ → ℕ → ℕ) → List ℕ → ℕ → Type 0
Recurs f x n =
    (m : ℕ)
    → m + 31 < n
    → bit x (m + 31) ≡ f (bit x (m + 3)) (bit x (m + 2)) (bit x (m + 1)) (bit x m)

-- `y` has the bits of `x` below `n`.
abbrev pub Agrees : List ℕ → List ℕ → ℕ → Type 0
Agrees x y n = (m : ℕ) → m < n → bit y m ≡ bit x m

module _ (f : ℕ → ℕ → ℕ → ℕ → ℕ) where
  taps_ext :
      {a b c d a' b' c' d' : ℕ} → a ≡ a' → b ≡ b' → c ≡ c' → d ≡ d' → f a b c d ≡ f a' b' c' d'
  taps_ext p q r s = λ i. f (p i) (q i) (r i) (s i)

  -- The next bit, computed from the bits before it.
  pub Recurs-step :
      (x y : List ℕ) (n : ℕ)
      → Recurs f x n
      → Agrees x y n
      → ((m : ℕ)
          → m + 31 ≡ n
          → bit y n ≡ f (bit x (m + 3)) (bit x (m + 2)) (bit x (m + 1)) (bit x m))
      → Recurs f y (n + 1)
  Recurs-step x y n before same new m below = place (ℕ_discrete (m + 31) n)
    where
      old :
          f (bit x (m + 3)) (bit x (m + 2)) (bit x (m + 1)) (bit x m)
          ≡ f (bit y (m + 3)) (bit y (m + 2)) (bit y (m + 1)) (bit y m)
      old =
          taps_ext (sym (same (m + 3) (omega arith))) (sym (same (m + 2) (omega arith)))
            (sym (same (m + 1) (omega arith))) (sym (same m (omega arith)))

      place :
          Dec (m + 31 ≡ n)
          → bit y (m + 31) ≡ f (bit y (m + 3)) (bit y (m + 2)) (bit y (m + 1)) (bit y m)
      place (yes e) = ap (bit y) e ∙ new m e ∙ old
      place (no other) = same (m + 31) (omega arith) ∙ before m (omega arith) ∙ old

  pub Recurs-agree : (x y : List ℕ) (n : ℕ) → Agrees x y n → Recurs f x n → Recurs f y n
  Recurs-agree x y n same before m below =
      same (m + 31) below
      ∙ before m below
      ∙ taps_ext (sym (same (m + 3) (omega arith))) (sym (same (m + 2) (omega arith)))
          (sym (same (m + 1) (omega arith))) (sym (same m (omega arith)))

  -- A bit added at the place `s` of the word `j`.
  pub Recurs-add_at :
      (x : List ℕ) (j b s n : ℕ)
      → n ≡ 32 * j + s
      → j < length x
      → s < 32
      → get_or x j 0 < 2 ^ s
      → b < 2
      → ((m : ℕ) → m + 31 ≡ n → b ≡ f (bit x (m + 3)) (bit x (m + 2)) (bit x (m + 1)) (bit x m))
      → Recurs f x n
      → Recurs f (add_at x j b s) (n + 1)
  Recurs-add_at x j b s n place inside small empty is_bit new before =
      Recurs-step x (add_at x j b s) n before
        (λ m h. bit-add_at_kept x j b s inside small empty is_bit m (omega arith))
        (λ m e. bit-add_at_new x j b s inside small empty is_bit n place ∙ new m e)

  -- What holds before a round, with `left` rounds left: the next bit is at the place `s` of the word
  -- `j`, which has no bit from there on.
  abbrev pub Ready : ℕ → ℕ → ℕ → ℕ → List ℕ → Type 0
  Ready left i j s x =
      (1 ≤ j)
      × (i + 32 ≡ 32 * j + s)
      × (i + 32 + left ≤ 32 * length x)
      × (s < 32 → get_or x j 0 < 2 ^ s)
      × Recurs f x (i + 32)

  -- What the rounds leave: the bits that were there stay.
  abbrev pub Continues : List ℕ → List ℕ → ℕ → ℕ → Type 0
  Continues x y n k = Agrees x y n × Recurs f y (n + k)

  -- A round that adds the next bit.
  pub Ready-append :
      (left i j s b : ℕ) (x : List ℕ)
      → s < 32
      → b < 2
      → ((m : ℕ)
          → m + 31 ≡ 32 * j + s
          → b ≡ f (bit x (m + 3)) (bit x (m + 2)) (bit x (m + 1)) (bit x m))
      → Ready (suc left) i j s x
      → Ready left (i + 1) j (s + 1) (add_at x j b s)
  Ready-append left i j s b x small is_bit new (pos, place, fits, empty, before) =
      let inside : j < length x = omega arith in
      let size : length (add_at x j b s) ≡ length x = length-add_at x j b s in
      (
        pos,
        omega arith,
        omega arith,
        (λ h. add_at-room x j b s inside small (empty small) is_bit),
        (λ m h.
            Recurs-add_at x j b s (i + 32) place inside small (empty small) is_bit
              (λ m e. new m (omega arith)) before m (omega arith)),
      )

  -- The next word is cleared.
  pub Ready-clear_next :
      (left i j : ℕ) (x : List ℕ)
      → Ready (suc left) i j 32 x
      → Ready (suc left) i (j + 1) 0 (set x (j + 1) 0)
  Ready-clear_next left i j x (pos, place, fits, empty, before) =
      let size : length (set x (j + 1) 0) ≡ length x = length-set x (j + 1) 0 in
      let cleared : get_or (set x (j + 1) 0) (j + 1) 0 ≡ 0 =
        get_or-set_self x (j + 1) 0 0 (omega arith) in
      (
        omega arith,
        omega arith,
        omega arith,
        (λ h. omega arith),
        Recurs-agree x (set x (j + 1) 0) (i + 32) (λ m h. bit-set_kept x (j + 1) 0 m (omega arith))
            before,
      )

  pub Continues-append :
      (left i j s b : ℕ) (x y : List ℕ)
      → s < 32
      → b < 2
      → Ready (suc left) i j s x
      → Continues (add_at x j b s) y (i + 1 + 32) left
      → Continues x y (i + 32) (suc left)
  Continues-append left i j s b x y small is_bit (pos, place, fits, empty, before) (same, after) = (
    (λ m h.
        same m (omega arith)
        ∙ bit-add_at_kept x j b s (omega arith) small (empty small) is_bit m (omega arith)),
    (λ m h. after m (omega arith)),
  )

  pub Continues-clear_next :
      (left i j : ℕ) (x y : List ℕ)
      → Ready (suc left) i j 32 x
      → Continues (set x (j + 1) 0) y (i + 32) (suc left)
      → Continues x y (i + 32) (suc left)
  Continues-clear_next left i j x y (pos, place, fits, empty, before) (same, after) =
      ((λ m h. same m h ∙ bit-set_kept x (j + 1) 0 m (omega arith)), after)
