-- ===== src/Ratematching/Selection.antt =====
-- What is selected from the circular buffer, and that the selection ends.
use mathlib.Core.Path.{subst}
use aloe.Base.{
  ℕ, zero, suc, ◌+◌, ◌-◌, ◌*◌, ◌/◌, ◌%◌, ◌≤◌, ◌<◌, ◌≡◌, ◌≢◌, ◌∙◌, ap, sym, refl, Option, some, List,
  [], ◌∷◌, length, get_or, arith, All, ℕ_discrete, dec_le, add32, int_limit, is_negative, lt→leb,
  ==_iff, ≢→==, ◌==◌, true, false,
}
use native.Mathlib.Nat.{mod-lt, add-mod_right, mod-add-mod, mod-eq_of_lt}
use aloe.Ratematching.{cols, reduce}
use aloe.Ratematching.Index.{reduce_lem}
use aloe.Ratematching.Select.{
  dummy_bit, max_coded_size, select, select_fuel, start, exact_start, circular, char_ratematching,
}

-- Exactly `n` bits, none of which is a dummy.
pub record IsSelection (n : ℕ) (o : Option (List ℕ)) : Type 0 where
  pub output : List ℕ
  pub ended : o ≡ some output
  pub counted : length output ≡ n
  pub no_dummies : All (λ b. b ≢ dummy_bit) output

module _ (buffer : List ℕ) (size k0 : ℕ) (pos : 0 < size) where
  -- The bit that round `i` reads.
  bit_at : ℕ → ℕ
  bit_at i = get_or buffer ((k0 + i) % size) 0

  select_done : (fuel i : ℕ) → select buffer size k0 (suc fuel) i 0 ≡ some []
  unfolding select
  select_done fuel i = ground arith

  -- Below 2 ^ 31 the place is a number that does not wrap.
  read :
      (i : ℕ)
      → k0 + i < int_limit
      → get_or buffer (reduce (add32 k0 i + 1) (add32 k0 i) size) 0 ≡ bit_at i
  unfolding bit_at
  read i fits =
      let km : add32 k0 i ≡ k0 + i = mod-eq_of_lt (omega arith) in
      ap (λ m. get_or buffer (reduce (m + 1) m size) 0) km
      ∙ ap (λ m. get_or buffer m 0) (reduce_lem (k0 + i + 1) (k0 + i) size pos (omega arith))

  positive : (i : ℕ) → k0 + i < int_limit → is_negative (add32 k0 i) ≡ false
  positive i fits = lt→leb int_limit (add32 k0 i) (omega arith)

  more : (left : ℕ) → (suc left == 0) ≡ false
  more left = ≢→== (suc left) 0 λ e. absurd (omega arith)

  select_skip :
      (fuel i left : ℕ)
      → k0 + i < int_limit
      → bit_at i ≡ dummy_bit
      → select buffer size k0 (suc fuel) i (suc left)
        ≡ select buffer size k0 fuel (i + 1) (suc left)
  unfolding select
  select_skip fuel i left fits e =
      let dummy : (bit_at i == dummy_bit) ≡ true = (==_iff (bit_at i) dummy_bit).1 e in
      rw (more left, positive i fits, read i fits, dummy) refl

  select_take :
      (fuel i left : ℕ) (out : List ℕ)
      → k0 + i < int_limit
      → bit_at i ≢ dummy_bit
      → select buffer size k0 fuel (i + 1) left ≡ some out
      → select buffer size k0 (suc fuel) i (suc left) ≡ some (bit_at i ∷ out)
  unfolding select
  select_take fuel i left out fits ne e =
      let same : suc left - 1 ≡ left = omega arith in
      rw (more left, positive i fits, read i fits, ≢→== (bit_at i) dummy_bit ne, same, e)
        (ap (λ b. some (b ∷ out)) (read i fits))

  IsSelection-skip :
      (fuel i left : ℕ)
      → k0 + i < int_limit
      → bit_at i ≡ dummy_bit
      → IsSelection (suc left) (select buffer size k0 fuel (i + 1) (suc left))
      → IsSelection (suc left) (select buffer size k0 (suc fuel) i (suc left))
  IsSelection-skip fuel i left fits e s = record {
    output = s.output;
    ended = select_skip fuel i left fits e ∙ s.ended;
    counted = s.counted;
    no_dummies = s.no_dummies;
  }

  IsSelection-take :
      (fuel i left : ℕ)
      → k0 + i < int_limit
      → bit_at i ≢ dummy_bit
      → IsSelection left (select buffer size k0 fuel (i + 1) left)
      → IsSelection (suc left) (select buffer size k0 (suc fuel) i (suc left))
  IsSelection-take fuel i left fits ne s = record {
    output = bit_at i ∷ s.output;
    ended = select_take fuel i left s.output fits ne s.ended;
    counted = ap suc s.counted;
    no_dummies = (ne, s.no_dummies);
  }

  turns : (left : ℕ) → suc left * size ≡ left * size + size
  turns left = omega arith

  -- `p` is a place whose bit is not a dummy; it is read `d` rounds after round `i`.
  module _ (p : ℕ) (real : get_or buffer p 0 ≢ dummy_bit) where
    abbrev Ahead : ℕ → ℕ → Type 0
    Ahead i d = (k0 + (i + d)) % size ≡ p

    here : (i : ℕ) → Ahead i 0 → bit_at i ≢ dummy_bit
    unfolding bit_at
    here i e dummy =
        real (sym (ap (λ m. get_or buffer m 0) (ap (λ n. n % size) (omega arith) ∙ e)) ∙ dummy)

    nearer : (i d : ℕ) → Ahead i (suc d) → Ahead (i + 1) d
    nearer i d e = ap (λ n. n % size) (omega arith) ∙ e

    next_turn : (i : ℕ) → Ahead i 0 → Ahead (i + 1) (size - 1)
    next_turn i e = ap (λ n. n % size) (omega arith) ∙ add-mod_right (k0 + (i + 0)) size ∙ e

    select_lem :
        (fuel i left d : ℕ)
        → d < size
        → Ahead i d
        → left * size + d < fuel
        → k0 + i + fuel ≤ int_limit
        → IsSelection left (select buffer size k0 fuel i left)
    select_lem zero i left d hd a hf hk = absurd (omega arith)
    select_lem (suc fuel) i zero d hd a hf hk = record {
      output = [];
      ended = select_done fuel i;
      counted = refl;
      no_dummies = tt;
    }
    select_lem (suc fuel) i (suc left) zero hd a hf hk =
        IsSelection-take fuel i left (omega arith) (here i a) (
          select_lem fuel (i + 1) left (size - 1) (omega arith) (next_turn i a)
            (omega (arith, turns left)) (omega arith))
    select_lem (suc fuel) i (suc left) (suc d) hd a hf hk = elim (ℕ_discrete (bit_at i) dummy_bit) [
      | yes e ↦ IsSelection-skip fuel i left (omega arith) e (
          select_lem fuel (i + 1) (suc left) d (omega arith) (nearer i d a) (omega arith)
            (omega arith))
      | no ne ↦ IsSelection-take fuel i left (omega arith) ne (
          select_lem fuel (i + 1) left d (omega arith) (nearer i d a) (omega (arith, turns left))
            (omega arith))
    ]

  -- Every place is read within the first turn.
  first_turn : (p : ℕ) → p < size → (d : ℕ) × (d < size) × (k0 + (0 + d)) % size ≡ p
  first_turn p hp = elim (dec_le (k0 % size) p) [
    | yes le ↦ (
      p - k0 % size,
      omega arith,
      reach (p - k0 % size) ∙ ap (λ n. n % size) (omega arith) ∙ mod-eq_of_lt hp,
    )
    | no gt ↦ (
      p + size - k0 % size,
      omega (arith, mod-lt k0 pos),
      reach (p + size - k0 % size)
          ∙ ap (λ n. n % size) (back p)
          ∙ add-mod_right p size
          ∙ mod-eq_of_lt hp,
    )
  ]
    where
      reach : (d : ℕ) → (k0 + (0 + d)) % size ≡ (k0 % size + d) % size
      reach d = ap (λ n. n % size) (omega arith) ∙ sym (mod-add-mod k0 size d)

      back : (q : ℕ) → k0 % size + (q + size - k0 % size) ≡ q + size
      back q = omega (arith, mod-lt k0 pos)

enough : (size outlen d : ℕ) → d < size → outlen * size + d < select_fuel size outlen
enough size outlen d h = omega arith

-- `char_ratematching` returns `outlen` bits and no dummy among them, if one of the bits of its
-- circular buffer is not a dummy, the three sub-blocks have the size given, that size is at least a
-- row and within the buffer, and the place to start at and a turn of the buffer for each bit and one
-- more stay within an `int`; so its loop ends.
pub char_ratematching_lem :
    (a b c : List ℕ) (interleaver_size outlen rvidx p : ℕ)
    → length a ≡ interleaver_size
    → length b ≡ interleaver_size
    → length c ≡ interleaver_size
    → cols ≤ interleaver_size
    → 3 * interleaver_size ≤ max_coded_size
    → exact_start (interleaver_size / cols) (3 * interleaver_size) rvidx
        + (outlen + 1) * (3 * interleaver_size)
      < int_limit
    → p < 3 * interleaver_size
    → get_or (circular a b c interleaver_size) p 0 ≢ dummy_bit
    → IsSelection outlen (char_ratematching a b c interleaver_size outlen rvidx)
unfolding char_ratematching
char_ratematching_lem a b c n outlen rvidx p ha hb hc some_rows fits small_int hp real =
    let size = 3 * n in
    let pos : 0 < 3 * n = omega arith in
    let k0 = start (n / cols) size rvidx in
    let exact : start (n / cols) size rvidx ≡ exact_start (n / cols) size rvidx =
      mod-eq_of_lt (omega arith) in
    let (d, small, ahead) = first_turn (circular a b c n) size k0 pos p hp in
    subst (IsSelection outlen) (sym guarded) (
      select_lem (circular a b c n) size k0 pos p real (select_fuel size outlen) 0 outlen d small
        ahead (enough size outlen d small) (omega (arith, exact)))
  where
    turn : (m k : ℕ) → 0 < k → m ≤ m * k
    turn m k h = grind arith

    short : is_negative outlen ≡ false
    short = lt→leb int_limit outlen (omega (arith, turn (outlen + 1) (3 * n) (omega arith)))

    guarded :
        char_ratematching a b c n outlen rvidx
        ≡ select
            (circular a b c n)
            (3 * n)
            (start (n / cols) (3 * n) rvidx)
            (select_fuel (3 * n) outlen)
            0
            outlen
    guarded = ground (arith, ha, hb, hc, short)
