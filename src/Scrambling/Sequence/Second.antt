-- ===== src/Scrambling/Sequence/Second.antt =====
-- compute_x2: the second sequence, x(m+31) = x(m+3) + x(m+2) + x(m+1) + x(m) modulo 2.
use mathlib.Core.Path.{subst}
use aloe.Base.{
  arith, ltb, lt→ltb, le→ltb, ==_iff, ≢→==, ℕ, zero, suc, ◌+◌, ◌-◌, ◌*◌, ◌/◌, ◌%◌, ◌^◌, ◌≤◌, ◌<◌,
  ◌==◌, ◌≡◌, ◌≢◌, refl, sym, ap, ◌∙◌, Bool, true, false, List, length, length-set, get_or, set,
  get_or-set_self, dec_lt, if◌then◌else◌, ℕ_discrete,
}
use aloe.Scrambling.{bit_of, add_at}
use aloe.Scrambling.Words.{
  bit, bit-bit_of, bit-add_at_new, bit-add_at_kept, bit-set_kept, length-add_at,
}
use aloe.Scrambling.Sequence.{parity, x2_bit, x2_from, x2_first, x2_rest, max_x}
use aloe.Scrambling.Sequence.Recurrence.{
  Recurs, Ready, Ready-append, Ready-clear_next, Continues, Continues-append, Continues-clear_next,
}

module _ (x : List ℕ) (m : ℕ) where
  four :
      (i s j t k u l v : ℕ)
      → (m + 3 ≡ 32 * i + s) × (m + 2 ≡ 32 * j + t) × (m + 1 ≡ 32 * k + u) × (m ≡ 32 * l + v)
      → (s < 32) × (t < 32) × (u < 32) × (v < 32)
      → parity (bit_of x i s) (bit_of x j t) (bit_of x k u) (bit_of x l v)
        ≡ parity (bit x (m + 3)) (bit x (m + 2)) (bit x (m + 1)) (bit x m)
  four i s j t k u l v (p, q, r, e) (hs, ht, hu, hv) = sym λ n.
      parity (bit-bit_of x i s (m + 3) hs p n) (bit-bit_of x j t (m + 2) ht q n)
        (bit-bit_of x k u (m + 1) hu r n) (bit-bit_of x l v m hv e n)

  x2_bit_lem :
      (j s : ℕ)
      → 1 ≤ j
      → s < 32
      → m + 31 ≡ 32 * j + s
      → x2_bit x j s ≡ parity (bit x (m + 3)) (bit x (m + 2)) (bit x (m + 1)) (bit x m)
  unfolding x2_bit
  x2_bit_lem j s h l e = elim (dec_lt s 28) [
    | yes a ↦ rw (lt→ltb s 28 a) (
        four (j - 1) (s + 4) (j - 1) (s + 3) (j - 1) (s + 2) (j - 1) (s + 1)
          (omega arith, omega arith, omega arith, omega arith)
          (omega arith, omega arith, omega arith, omega arith))
    | no a ↦ rw (le→ltb s 28 (omega arith)) (elim (ℕ_discrete s 28) [
      | yes b ↦ rw ((==_iff s 28).1 b) (
          four j 0 (j - 1) (s + 3) (j - 1) (s + 2) (j - 1) (s + 1)
            (omega arith, omega arith, omega arith, omega arith)
            (omega arith, omega arith, omega arith, omega arith))
      | no b ↦ rw (≢→== s 28 b) (elim (ℕ_discrete s 29) [
        | yes c ↦ rw ((==_iff s 29).1 c) (
            four j 1 j 0 (j - 1) (s + 2) (j - 1) (s + 1)
              (omega arith, omega arith, omega arith, omega arith)
              (omega arith, omega arith, omega arith, omega arith))
        | no c ↦ rw (≢→== s 29 c) (elim (ℕ_discrete s 30) [
          | yes d ↦ rw ((==_iff s 30).1 d) (
              four j 2 j 1 j 0 (j - 1) (s + 1) (omega arith, omega arith, omega arith, omega arith)
                (omega arith, omega arith, omega arith, omega arith))
          | no d ↦ rw (≢→== s 30 d) (
              four j 3 j 2 j 1 j 0 (omega arith, omega arith, omega arith, omega arith)
                (omega arith, omega arith, omega arith, omega arith))
        ])
      ])
    ])
  ]

parity-bound : (a b c d : ℕ) → parity a b c d < 2
parity-bound a b c d = omega arith

if-bound : (t : Bool) (a b : ℕ) → a < 2 → b < 2 → (if t then a else b) < 2
if-bound true a b h l = h
if-bound false a b h l = l

x2_bit-bound : (x : List ℕ) (j s : ℕ) → x2_bit x j s < 2
unfolding x2_bit
x2_bit-bound x j s = if-bound (ltb s 28) _ _ (omega arith) (
    if-bound (s == 28) _ _ (omega arith)
      (if-bound (s == 29) _ _ (omega arith) (if-bound (s == 30) _ _ (omega arith) (omega arith))))

-- A round that does not begin a new word, and one that does.
x2_inside :
    (left i j s : ℕ) (x : List ℕ)
    → i ≢ j * 32
    → x2_from (suc left) i j s x ≡ x2_from left (i + 1) j (s + 1) (add_at x j (x2_bit x j s) s)
unfolding x2_from
x2_inside left i j s x ne = rw (≢→== i (j * 32) ne) refl

x2_full :
    (left i j s : ℕ) (x : List ℕ)
    → i ≡ j * 32
    → x2_from (suc left) i j s x ≡ x2_from (suc left) i (j + 1) 0 (set x (j + 1) 0)
unfolding x2_from
x2_full left i j s x e =
    rw ((==_iff i (j * 32)).1 e) (rw (≢→== i ((j + 1) * 32) λ e'. absurd (omega arith)) refl)

-- A round within a word, and those behind it.
x2_step :
    (left : ℕ)
    → ((i j s : ℕ) (x : List ℕ)
        → s ≤ 32
        → Ready parity left i j s x
        → Continues parity x (x2_from left i j s x) (i + 32) left)
    → (i j s : ℕ) (x : List ℕ) → s < 32
    → Ready parity (suc left) i j s x
    → Continues parity x (x2_from (suc left) i j s x) (i + 32) (suc left)
x2_step left run i j s x small r =
    let b = x2_bit x j s in
    let is_bit : x2_bit x j s < 2 = x2_bit-bound x j s in
    rw (x2_inside left i j s x (omega arith)) (
      Continues-append parity left i j s b x (x2_from left (i + 1) j (s + 1) (add_at x j b s)) small
        is_bit r
        (run (i + 1) j (s + 1) (add_at x j b s) (omega arith) (
          Ready-append parity left i j s b x small is_bit (λ m p. x2_bit_lem x m j s r.0 small p)
            r)))

x2_run :
    (left i j s : ℕ) (x : List ℕ)
    → s ≤ 32
    → Ready parity left i j s x
    → Continues parity x (x2_from left i j s x) (i + 32) left
unfolding x2_from
x2_run zero i j s x h (pos, place, fits, empty, before) =
    ((λ m l. refl), λ m l. before m (omega arith))
x2_run (suc left) i j s x h r = elim (dec_lt s 32) [
  | yes small ↦ x2_step left (x2_run left) i j s x small r
  | no large ↦
      let top : s ≡ 32 = omega arith in
      let r' : Ready parity (suc left) i j 32 x =
        subst (λ t. Ready parity (suc left) i j t x) top r in
      rw (x2_full left i j s x (omega arith)) (
        Continues-clear_next parity left i j x (x2_from (suc left) i (j + 1) 0 (set x (j + 1) 0)) r'
          (x2_step left (x2_run left) i (j + 1) 0 (set x (j + 1) 0) (omega arith)
            (Ready-clear_next parity left i j x r')))
]

-- The second sequence begins with the 31 digits of the initial value.
pub IsSecond : ℕ → List ℕ → Type 0
IsSecond c_init x = ((m : ℕ) → m < 31 → bit x m ≡ c_init / 2 ^ m % 2) × Recurs parity x (32 * max_x)

module _ (c_init : ℕ) (small : c_init < 2 ^ 31) (x : List ℕ) (room : 2 ≤ length x) where
  abbrev started : List ℕ
  started = set x 0 c_init

  abbrev top : ℕ
  top = parity (bit_of started 0 3) (bit_of started 0 2) (bit_of started 0 1) (bit_of started 0 0)

  abbrev begun : List ℕ
  begun = set (add_at started 0 top 31) 1 0

  word_zero : get_or started 0 0 ≡ c_init
  word_zero = get_or-set_self x 0 c_init 0 (omega arith)

  size : length started ≡ length x
  size = length-set x 0 c_init

  empty : get_or started 0 0 < 2 ^ 31
  empty = omega (arith, word_zero)

  bit-begun_kept : (m : ℕ) → m < 31 → bit begun m ≡ bit started m
  bit-begun_kept m h =
      bit-set_kept (add_at started 0 top 31) 1 0 m (omega arith)
      ∙ bit-add_at_kept started 0 top 31 (omega (arith, size)) (omega arith) empty (omega arith) m
          (omega arith)

  bit-begun : (m : ℕ) → m < 31 → bit begun m ≡ c_init / 2 ^ m % 2
  unfolding bit_of
  bit-begun m h =
      bit-begun_kept m h
      ∙ bit-bit_of started 0 m m (omega arith) (omega arith)
      ∙ ap (λ w. w / 2 ^ m % 2) word_zero

  last_bit : bit begun 31 ≡ top
  last_bit =
      bit-set_kept (add_at started 0 top 31) 1 0 31 (omega arith)
      ∙ bit-add_at_new started 0 top 31 (omega (arith, size)) (omega arith) empty (omega arith) 31
          (omega arith)

  begun-Recurs : Recurs parity begun 32
  begun-Recurs zero h =
      let old : (m : ℕ) → m < 31 → bit_of started 0 m ≡ bit begun m =
        λ m l. sym (bit-begun_kept m l ∙ bit-bit_of started 0 m m (omega arith) (omega arith)) in
      last_bit ∙ λ i.
      parity (old 3 (omega arith) i) (old 2 (omega arith) i) (old 1 (omega arith) i)
        (old 0 (omega arith) i)
  begun-Recurs (suc m) h = absurd (omega arith)

  begun-Ready : (left : ℕ) → 32 + left ≤ 32 * length x → Ready parity left 0 1 0 begun
  begun-Ready left fits =
      let all : length begun ≡ length x =
        length-set (add_at started 0 top 31) 1 0 ∙ length-add_at started 0 top 31 ∙ size in
      let one : get_or begun 1 0 ≡ 0 =
        get_or-set_self (add_at started 0 top 31) 1 0 0
          (omega (arith, length-add_at started 0 top 31, size)) in
      (omega arith, omega arith, omega arith, (λ h. omega arith), begun-Recurs)

  x2_total :
      (left n : ℕ)
      → 32 + left ≡ n
      → n ≤ 32 * length x
      → ((m : ℕ) → m < 31 → bit (x2_from left 0 1 0 begun) m ≡ c_init / 2 ^ m % 2)
        × Recurs parity (x2_from left 0 1 0 begun) n
  x2_total left n e fits =
      let r = x2_run left 0 1 0 begun (omega arith) (begun-Ready left (omega arith)) in
      ((λ m h. r.0 m (omega arith) ∙ bit-begun m h), λ m h. r.1 m (omega arith))

pub x2_rest-IsSecond :
    (c_init : ℕ) (x : List ℕ)
    → c_init < 2 ^ 31
    → length x ≡ max_x
    → IsSecond c_init (x2_rest (x2_first c_init x))
unfolding x2_rest x2_first IsSecond
x2_rest-IsSecond c_init x small fits =
    x2_total c_init small x (omega arith) ((max_x - 1) * 32) (32 * max_x) (omega arith)
      (omega arith)
