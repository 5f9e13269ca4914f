-- ===== src/Crc/Roundtrip.antt =====
-- `icrc` at 16 bits against the shift register, and a packet that one `work` protects and the other
-- checks.
use Prim.Native.Nat.{bit_xor}
use mathlib.Core.List.{map-append}
use aloe.Base.{
  arith, le→ltb, ℕ, zero, suc, ◌+◌, ◌*◌, ◌/◌, ◌%◌, ◌^◌, ◌≤◌, ◌<◌, ◌==◌, ◌≡◌, refl, sym, ap, ◌∙◌,
  Bool, true, false, List, [], ◌∷◌, ◌++◌, if◌then◌else◌, length, take, drop, word_mod,
  bit_xor_remove, mul-two-pow-suc, ok, length-take,
}
use native.Mathlib.Nat.{add-mul, mul_assoc, div-add-mod, mul-add-mod_self_left}
use aloe.Crc.{test_bit, absorb, paste, icrc}
use aloe.Crc.Register.{low, advance, register_step, register, register-low, register-append}
use aloe.Crc.Chunk.{bit_of, bits_of, absorb-register}

-- The top bit of the register as the next bit: it is shifted out without the polynomial.
register_step_top : (poly c : ℕ) → c < 2 ^ 16 → register_step poly c (c / 2 ^ 15) ≡ 2 * c % 2 ^ 16
unfolding register_step advance
register_step_top poly c h =
    let rest : bit_xor c (c / 2 ^ 15 * 2 ^ 15) ≡ c % 2 ^ 15 =
      ap (λ t. bit_xor t (c / 2 ^ 15 * 2 ^ 15)) (omega arith)
      ∙ bit_xor_remove 15 (c / 2 ^ 15) (c % 2 ^ 15) (omega arith) in
    let clear : test_bit 15 (c % 2 ^ 15) ≡ false = ap (λ n. n == 1) {y = 0} (omega arith) in
    rw (rest, clear) (omega arith)

bit_of_bit : (b : ℕ) → b < 2 → bit_of b ≡ b
bit_of_bit b h = ground arith

scaled-mod : (m x k : ℕ) → x % m * k % m ≡ x * k % m
scaled-mod m x k =
    let split : m * (x / m) + x % m ≡ x = div-add-mod x m in
    let e : m * (x / m * k) + x % m * k ≡ x * k =
      sym (add-mul (m * (x / m)) (x % m) k ∙ ap (λ t. t + x % m * k) (mul_assoc m (x / m) k))
      ∙ ap (λ t. t * k) split in
    sym (mul-add-mod_self_left m (x / m * k) (x % m * k)) ∙ ap (λ t. t % m) e

paste-register :
    (poly n c cword : ℕ)
    → c < 2 ^ 16
    → cword ≡ c * 2 ^ 16
    → register poly c (bits_of (paste n cword)) ≡ c * 2 ^ n % 2 ^ 16
unfolding register paste
paste-register poly zero c cword h e = omega arith
paste-register poly (suc n) c cword h e =
    let bit : bit_of (cword / 2 ^ 31) ≡ c / 2 ^ 15 =
      bit_of_bit (cword / 2 ^ 31) (omega arith) ∙ omega arith in
    ap (λ b. register poly (register_step poly c b) (bits_of (paste n (cword * 2 % word_mod)))) bit
    ∙ ap (λ t. register poly t (bits_of (paste n (cword * 2 % word_mod))))
        (register_step_top poly c h)
    ∙ paste-register poly n (2 * c % 2 ^ 16) (cword * 2 % word_mod) (omega arith) (omega arith)
    ∙ scaled-mod (2 ^ 16) (2 * c) (2 ^ n)
    ∙ ap (λ t. t % 2 ^ 16) (mul_assoc 2 c (2 ^ n) ∙ sym (mul-two-pow-suc c n))

pub length-paste : (n cword : ℕ) → length (paste n cword) ≡ n
unfolding paste
length-paste zero cword = refl
length-paste (suc n) cword = ap suc (length-paste n (cword * 2 % word_mod))

-- A packet with the characters pasted behind it leaves the register at 0.
pub codeword :
    (poly : ℕ) (msg : List ℕ)
    → register poly 0
        (bits_of (msg ++ paste 16 (register poly 0 (bits_of msg) * 2 ^ 16 % word_mod)))
      ≡ 0
codeword poly msg =
    let c = register poly 0 (bits_of msg) in
    let pasted = paste 16 (c * 2 ^ 16 % word_mod) in
    let small : c < 2 ^ 16 = omega (arith, register-low poly 0 (bits_of msg) refl) in
    ap (register poly 0) (map-append bit_of msg pasted)
    ∙ register-append poly 0 (bits_of msg) (bits_of pasted)
    ∙ paste-register poly 16 c (c * 2 ^ 16 % word_mod) small (omega arith)
    ∙ omega arith

-- `icrc` with a CRC of 16 bits returns what a shift register holds after the bits of the packet, a
-- bit at a time, whatever the length of the packet is, and changes only the 16 characters that it
-- pastes.
pub icrc-register :
    (crc : ℕ) (buf : List ℕ) (len poly : ℕ) (paste_word : Bool)
    → 1 ≤ len
    → (if paste_word then len + 16 else len) ≤ length buf
    → icrc crc buf len 16 poly paste_word ≡ (
        let c = register poly (low crc) (bits_of (take len buf)) in
        if paste_word
        then ok (c, take len buf ++ paste 16 (c * 2 ^ 16 % word_mod) ++ drop (len + 16) buf)
        else ok (c, buf))
unfolding icrc
icrc-register crc buf zero poly paste_word pos fits = absurd (omega arith)
icrc-register crc [] (suc n) poly true pos fits = absurd (omega arith)
icrc-register crc [] (suc n) poly false pos fits = absurd (omega arith)
icrc-register crc (c ∷ buf) (suc n) poly true pos fits =
    let len = suc n in
    let word : absorb len 16 poly crc (take len (c ∷ buf))
        ≡ register poly (low crc) (bits_of (take len (c ∷ buf))) =
      absorb-register len poly crc c (take n buf) (omega (arith, length-take n buf)) in
    let some_bits : (suc n == 0) ≡ false = ground arith in
    rw (some_bits, le→ltb (length (c ∷ buf)) (len + 16) fits, word) refl
icrc-register crc (c ∷ buf) (suc n) poly false pos fits =
    let len = suc n in
    let word : absorb len 16 poly crc (take len (c ∷ buf))
        ≡ register poly (low crc) (bits_of (take len (c ∷ buf))) =
      absorb-register len poly crc c (take n buf) (omega (arith, length-take n buf)) in
    let some_bits : (suc n == 0) ≡ false = ground arith in
    rw (some_bits, le→ltb (length (c ∷ buf)) len fits, word) refl
