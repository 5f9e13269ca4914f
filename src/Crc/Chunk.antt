-- ===== src/Crc/Chunk.antt =====
-- `icrc` at 16 bits: its words of 8 characters step the shift register through the whole packet,
-- wherever the packet ends.
use Prim.Native.Nat.{bit_xor}
use native.Mathlib.Nat.{one-le-pow, two-pow-succ}
use aloe.Base.{
  arith, ℕ, zero, suc, ◌+◌, ◌-◌, ◌*◌, ◌%◌, ◌^◌, ◌≤◌, ◌<◌, ◌==◌, ◌≡◌, refl, sym, ap, ap₂, ◌∙◌, inl,
  inr, Bool-cases, List, [], ◌∷◌, if◌then◌else◌, length, take, drop, map, length-take, length-map,
  length-drop, take-append-drop, word_mod, bit_or_fields,
}
use mathlib.Core.List.{map-append}
use aloe.Crc.{Gathered, or_bit, gather, keep, shift_loop, icrc1, absorb_word, absorb}
use aloe.Crc.Register.{
  low, register, register-append, aligned, AreBits, shift_loop-register, register-low, aligned-add,
  aligned_bound,
}

-- The bit that a character stands for.
abbrev pub bit_of : ℕ → ℕ
bit_of c = if c == 0 then 0 else 1

abbrev pub bits_of : List ℕ → List ℕ
bits_of cs = map bit_of cs

bits_of-AreBits : (cs : List ℕ) → AreBits (bits_of cs)
unfolding AreBits
bits_of-AreBits [] = tt
bits_of-AreBits (c ∷ cs) = (ground arith, bits_of-AreBits cs)

half_below : (k : ℕ) → 2 ^ k < 2 ^ suc k
half_below k = omega (arith, two-pow-succ k, one-le-pow k 2 (omega arith))

or_bit-add : (c k q : ℕ) → or_bit c k (q * 2 ^ suc k) ≡ q * 2 ^ suc k + bit_of c * 2 ^ k
or_bit-add c k q = elim (Bool-cases (c == 0)) [
  | inl e ↦ rw e (omega arith)
  | inr e ↦ rw e (bit_or_fields (suc k) q (2 ^ k) (half_below k) ∙ omega arith)
]

gathered :
    {w x i j : ℕ} {r s : List ℕ}
    → w ≡ x
    → i ≡ j
    → r ≡ s
    → ◌≡◌ {A = Gathered}
        (record { data_word = w; count = i; rest = r })
        (record { data_word = x; count = j; rest = s })
gathered p q e = λ k. record { data_word = p k; count = q k; rest = e k }

next_word :
    (half left i q w c : ℕ)
    → suc left + i ≡ half
    → w ≡ q * 2 ^ suc left
    → or_bit c (half - 1 - i) w ≡ q * 2 ^ suc left + bit_of c * 2 ^ left
next_word half left i q w c e h = ap₂ (or_bit c) (omega arith) h ∙ or_bit-add c left q

regroup : (q b left r : ℕ) → (q * 2 + b) * 2 ^ left + r ≡ q * 2 ^ suc left + (b * 2 ^ left + r)
regroup q b left r = grind (arith, two-pow-succ left)

-- The word, the count and the rest that a run of the inner loop leaves.
gather_lem :
    (half left i q w c : ℕ) (cs : List ℕ)
    → left + i ≡ half
    → w ≡ q * 2 ^ left
    → gather half left i w (c ∷ cs) ≡ record {
      data_word = q * 2 ^ left + aligned left (bits_of (take left (c ∷ cs)));
      count = i + length (take left (c ∷ cs));
      rest = drop left (c ∷ cs);
    }
unfolding gather aligned
gather_lem half zero i q w c cs e h = gathered (omega arith) (omega arith) refl
gather_lem half (suc zero) i q w c [] e h =
    gathered (next_word half zero i q w c e h ∙ omega arith) refl refl
gather_lem half (suc (suc left)) i q w c [] e h =
    gathered (next_word half (suc left) i q w c e h ∙ omega arith) refl refl
gather_lem half (suc left) i q w c (d ∷ cs) e h =
    let word : or_bit c (half - 1 - i) w ≡ (q * 2 + bit_of c) * 2 ^ left =
      next_word half left i q w c e h ∙ sym (omega (arith, regroup q (bit_of c) left 0)) in
    gather_lem half left (i + 1) (q * 2 + bit_of c) (or_bit c (half - 1 - i) w) d cs (omega arith)
      word
    ∙ gathered (regroup q (bit_of c) left (aligned left (bits_of (take left (d ∷ cs)))))
        (omega arith) refl

abbrev eight : List ℕ → List ℕ
eight cs = bits_of (take 8 cs)

eight-length : (cs : List ℕ) → length (eight cs) ≡ length (take 8 cs)
eight-length cs = length-map bit_of (take 8 cs)

-- The word of at most 8 characters is at the top of the register.
absorb_word-register :
    (poly cword c : ℕ) (cs : List ℕ)
    → absorb_word 16 poly cword (gather 8 8 0 0 (c ∷ cs))
      ≡ register poly (low cword) (eight (c ∷ cs))
unfolding absorb_word icrc1
absorb_word-register poly cword c cs =
    let bs = eight (c ∷ cs) in
    let few : length bs ≤ 8 = omega (arith, eight-length (c ∷ cs), length-take 8 (c ∷ cs)) in
    let top : aligned 8 bs * 2 ^ 8 % word_mod ≡ aligned 16 bs =
      omega
        (arith, aligned-add 8 8 bs few, aligned_bound 8 bs (bits_of-AreBits (take 8 (c ∷ cs)))) in
    let word : keep 16 cword ≡ low cword = omega arith in
    ap (absorb_word 16 poly cword) (gather_lem 8 8 0 0 0 c cs refl refl)
    ∙ (let tmp = bit_xor (keep 16 cword) ((0 * 2 ^ 8 + aligned 8 bs) * 2 ^ 8 % word_mod) in
        let n = 0 + length (take 8 (c ∷ cs)) in
        let same : tmp ≡ bit_xor (low cword) (aligned 16 bs) =
          ap₂ bit_xor word (omega (arith, top)) in
        let rounds : n ≡ length bs = omega (arith, eight-length (c ∷ cs)) in
        keep-low (shift_loop 16 poly n tmp)
        ∙ ap₂ (λ k t. low (shift_loop 16 poly k t)) rounds same
        ∙ shift_loop-register poly (low cword) bs (bits_of-AreBits (take 8 (c ∷ cs))) (omega arith))
    ∙ ap (λ t. register poly t bs) (omega arith)
  where
    keep-low : (w : ℕ) → keep 16 w ≡ low w
    keep-low w = omega arith

rest-drop : (c : ℕ) (cs : List ℕ) → Gathered.rest (gather 8 8 0 0 (c ∷ cs)) ≡ drop 8 (c ∷ cs)
rest-drop c cs = ap Gathered.rest (gather_lem 8 8 0 0 0 c cs refl refl)

abbrev continued : ℕ → ℕ → ℕ → List ℕ → ℕ
continued fuel poly next r = if length r == 0 then next else absorb fuel 16 poly next r

continued-register :
    (fuel poly next : ℕ) (r : List ℕ)
    → low next ≡ next
    → ((d : ℕ) (ds : List ℕ)
        → r ≡ d ∷ ds
        → absorb fuel 16 poly next (d ∷ ds) ≡ register poly (low next) (bits_of (d ∷ ds)))
    → continued fuel poly next r ≡ register poly next (bits_of r)
unfolding register
continued-register fuel poly next [] e more = refl
continued-register fuel poly next (d ∷ ds) e more =
    ground (arith, more d ds refl ∙ ap (λ t. register poly t (bits_of (d ∷ ds))) e)

register-split :
    (poly t n : ℕ) (cs : List ℕ)
    → register poly (register poly t (bits_of (take n cs))) (bits_of (drop n cs))
      ≡ register poly t (bits_of cs)
register-split poly t n cs =
    sym (register-append poly t (bits_of (take n cs)) (bits_of (drop n cs)))
    ∙ ap (register poly t) (sym (map-append bit_of (take n cs) (drop n cs)))
    ∙ ap (λ l. register poly t (bits_of l)) (take-append-drop n cs)

-- `while(!stop)`, from any register.
pub absorb-register :
    (fuel poly cword c : ℕ) (cs : List ℕ)
    → length cs < fuel
    → absorb fuel 16 poly cword (c ∷ cs) ≡ register poly (low cword) (bits_of (c ∷ cs))
unfolding absorb
absorb-register zero poly cword c cs h = absurd (omega arith)
absorb-register (suc fuel) poly cword c cs h =
    let next = absorb_word 16 poly cword (gather 8 8 0 0 (c ∷ cs)) in
    let word : next ≡ register poly (low cword) (eight (c ∷ cs)) =
      absorb_word-register poly cword c cs in
    let small : low next ≡ next =
      ap low word ∙ register-low poly (low cword) (eight (c ∷ cs)) (omega arith) ∙ sym word in
    ap (continued fuel poly next) (rest-drop c cs)
    ∙ continued-register fuel poly next (drop 8 (c ∷ cs)) small (λ d ds e.
      absorb-register fuel poly next d ds (omega (arith, ap length e, length-drop 8 (c ∷ cs))))
    ∙ ap (λ t. register poly t (bits_of (drop 8 (c ∷ cs)))) word
    ∙ register-split poly (low cword) 8 (c ∷ cs)
