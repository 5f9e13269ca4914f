-- ===== src/Base/Bits.antt =====
-- C's `^` at variables: the law of the lowest digit, the algebra of `^`, single bits and
-- remainders by a power of two.
use Prim.Native.Nat.{
  ℕ, zero, suc, ◌+◌, ◌*◌, ◌/◌, ◌%◌, ◌^◌, ◌≤◌, ◌<◌, bit_xor, digits, differ, bit_xor-bitwise,
}
use mathlib.Core.Path.{◌≡◌, refl, sym, ap, ap₂, ◌∙◌}
use native.Mathlib.Omega.{arith}
use native.Mathlib.Nat.{
  div-add-mod, mod-lt, mod-eq_of_lt, mul-add-mod_self_left, mod-one, one-le-pow, two-pow-succ,
  div-one, div-div-eq-div-mul,
}

abbrev xor_digits : ℕ → ℕ → ℕ → ℕ
xor_digits n a b = digits (λ b. b) differ n a b

xor_digits_fuel : (n m a b : ℕ) → a ≤ n → a ≤ m → xor_digits n a b ≡ xor_digits m a b
xor_digits_fuel zero zero a b p q = refl
xor_digits_fuel zero (suc m) zero b p q = refl
xor_digits_fuel zero (suc m) (suc a) b p q = absurd (omega arith)
xor_digits_fuel (suc n) zero zero b p q = refl
xor_digits_fuel (suc n) zero (suc a) b p q = absurd (omega arith)
xor_digits_fuel (suc n) (suc m) zero b p q = refl
xor_digits_fuel (suc n) (suc m) (suc a) b p q =
    omega (arith, xor_digits_fuel n m (suc a / 2) (b / 2) (omega arith) (omega arith))

differ-mod : (x y : ℕ) → x < 2 → y < 2 → differ x y ≡ (x + y) % 2
differ-mod zero zero p q = refl
differ-mod zero (suc zero) p q = refl
differ-mod (suc zero) zero p q = refl
differ-mod (suc zero) (suc zero) p q = refl
differ-mod zero (suc (suc y)) p q = absurd (omega arith)
differ-mod (suc zero) (suc (suc y)) p q = absurd (omega arith)
differ-mod (suc (suc x)) y p q = absurd (omega arith)

pub zero-bit_xor : (b : ℕ) → bit_xor 0 b ≡ b
zero-bit_xor b = bit_xor-bitwise 0 b

pub bit_xor_step : (a b : ℕ) → bit_xor a b ≡ bit_xor (a / 2) (b / 2) * 2 + (a % 2 + b % 2) % 2
bit_xor_step zero b = omega (arith, zero-bit_xor b, zero-bit_xor (b / 2))
bit_xor_step (suc a) b = omega (
  arith,
  bit_xor-bitwise (suc a) b,
  bit_xor-bitwise (suc a / 2) (b / 2),
  xor_digits_fuel a (suc a / 2) (suc a / 2) (b / 2) (omega arith) (omega arith),
  differ-mod (suc a % 2) (b % 2) (omega arith) (omega arith),
)

-- Both numbers are read digit by digit, hence the bound on the number of digits.
bit_xor_comm_fuel : (n a b : ℕ) → a + b ≤ n → bit_xor a b ≡ bit_xor b a
bit_xor_comm_fuel n zero zero h = refl
bit_xor_comm_fuel zero (suc a) b h = absurd (omega arith)
bit_xor_comm_fuel zero zero (suc b) h = absurd (omega arith)
bit_xor_comm_fuel (suc n) a b h =
    omega
      (arith, bit_xor_step a b, bit_xor_step b a, bit_xor_comm_fuel n (a / 2) (b / 2) (omega arith))

pub bit_xor_comm : (a b : ℕ) → bit_xor a b ≡ bit_xor b a
bit_xor_comm a b = bit_xor_comm_fuel (a + b) a b (omega arith)

pub bit_xor-zero : (a : ℕ) → bit_xor a 0 ≡ a
bit_xor-zero a = bit_xor_comm a 0 ∙ zero-bit_xor a

-- The halves and the lowest digit of `a ^ b`.
pub bit_xor-half : (a b : ℕ) → bit_xor a b / 2 ≡ bit_xor (a / 2) (b / 2)
bit_xor-half a b = omega (arith, bit_xor_step a b)

pub bit_xor-odd : (a b : ℕ) → bit_xor a b % 2 ≡ (a % 2 + b % 2) % 2
bit_xor-odd a b = omega (arith, bit_xor_step a b)

bit_xor_assoc_fuel :
    (n a b c : ℕ) → a + b + c ≤ n → bit_xor (bit_xor a b) c ≡ bit_xor a (bit_xor b c)
bit_xor_assoc_fuel n zero b c h =
    ap (λ t. bit_xor t c) (zero-bit_xor b) ∙ sym (zero-bit_xor (bit_xor b c))
bit_xor_assoc_fuel zero (suc a) b c h = absurd (omega arith)
bit_xor_assoc_fuel (suc n) (suc a) b c h =
    let ih : bit_xor (bit_xor (suc a / 2) (b / 2)) (c / 2)
        ≡ bit_xor (suc a / 2) (bit_xor (b / 2) (c / 2)) =
      bit_xor_assoc_fuel n (suc a / 2) (b / 2) (c / 2) (omega arith) in
    let left : bit_xor (bit_xor (suc a) b / 2) (c / 2)
        ≡ bit_xor (bit_xor (suc a / 2) (b / 2)) (c / 2) =
      ap (λ t. bit_xor t (c / 2)) (bit_xor-half (suc a) b) in
    let right : bit_xor (suc a / 2) (bit_xor b c / 2)
        ≡ bit_xor (suc a / 2) (bit_xor (b / 2) (c / 2)) =
      ap (bit_xor (suc a / 2)) (bit_xor-half b c) in
    omega (
      arith,
      bit_xor_step (bit_xor (suc a) b) c,
      bit_xor_step (suc a) (bit_xor b c),
      bit_xor-odd (suc a) b,
      bit_xor-odd b c,
      ih,
      left,
      right,
    )

pub bit_xor_assoc : (a b c : ℕ) → bit_xor (bit_xor a b) c ≡ bit_xor a (bit_xor b c)
bit_xor_assoc a b c = bit_xor_assoc_fuel (a + b + c) a b c (omega arith)

-- `(a ^ b) << 1`
pub double-bit_xor : (a b : ℕ) → bit_xor (2 * a) (2 * b) ≡ 2 * bit_xor a b
double-bit_xor a b =
    let halves : bit_xor (2 * a / 2) (2 * b / 2) ≡ bit_xor a b =
      ap₂ bit_xor (omega arith) (omega arith) in
    omega (arith, bit_xor_step (2 * a) (2 * b), halves)

mod-double : (x r m : ℕ) → r < 2 → 0 < m → (2 * x + r) % (2 * m) ≡ 2 * (x % m) + r
mod-double x r m h pos =
    let split : m * (x / m) + x % m ≡ x = div-add-mod x m in
    let below : x % m < m = mod-lt x pos in
    let e : 2 * x + r ≡ 2 * m * (x / m) + (2 * (x % m) + r) = grind arith in
    ap (λ t. t % (2 * m)) e
    ∙ mul-add-mod_self_left (2 * m) (x / m) (2 * (x % m) + r)
    ∙ mod-eq_of_lt (omega arith)

half-mod : (a m : ℕ) → 0 < m → a % (2 * m) ≡ 2 * (a / 2 % m) + a % 2
half-mod a m pos =
    let e : a ≡ 2 * (a / 2) + a % 2 = omega arith in
    ap (λ t. t % (2 * m)) e ∙ mod-double (a / 2) (a % 2) m (omega arith) pos

low_digits : (k a : ℕ) → a % 2 ^ suc k ≡ 2 * (a / 2 % 2 ^ k) + a % 2
low_digits k a =
    ap (λ t. a % t) (omega (arith, two-pow-succ k))
    ∙ half-mod a (2 ^ k) (one-le-pow k 2 (omega arith))

-- The low `k` digits of `a ^ b` are those of `a` and `b`, combined.
pub bit_xor-mod : (k a b : ℕ) → bit_xor a b % 2 ^ k ≡ bit_xor (a % 2 ^ k) (b % 2 ^ k)
bit_xor-mod zero a b =
    let x : a % 1 ≡ 0 = mod-one a in
    let y : b % 1 ≡ 0 = mod-one b in mod-one (bit_xor a b) ∙ sym (ap₂ bit_xor x y)
bit_xor-mod (suc k) a b =
    let low : (n : ℕ) → n % 2 ^ suc k ≡ 2 * (n / 2 % 2 ^ k) + n % 2 = low_digits k in
    let halves : bit_xor (a % 2 ^ suc k / 2) (b % 2 ^ suc k / 2)
        ≡ bit_xor (a / 2 % 2 ^ k) (b / 2 % 2 ^ k) =
      ap₂ bit_xor (omega (arith, low a)) (omega (arith, low b)) in
    let top : bit_xor a b / 2 % 2 ^ k ≡ bit_xor (a / 2) (b / 2) % 2 ^ k =
      ap (λ t. t % 2 ^ k) (bit_xor-half a b) in
    omega (
      arith,
      low a,
      low b,
      low (bit_xor a b),
      top,
      halves,
      bit_xor-mod k (a / 2) (b / 2),
      bit_xor-odd a b,
      bit_xor_step (a % 2 ^ suc k) (b % 2 ^ suc k),
    )

pub mul-two-pow-suc : (q k : ℕ) → q * 2 ^ suc k ≡ 2 * (q * 2 ^ k)
mul-two-pow-suc q k = omega (arith, ap (λ (t : ℕ). q * t) (two-pow-succ k))

-- Digits that no position shares add up.
pub bit_xor_fields : (k q r : ℕ) → r < 2 ^ k → bit_xor (q * 2 ^ k) r ≡ q * 2 ^ k + r
bit_xor_fields zero q r fits =
    let e : r ≡ 0 = omega arith in ap (bit_xor (q * 1)) e ∙ bit_xor-zero (q * 1) ∙ omega arith
bit_xor_fields (suc k) q r fits =
    let e : q * 2 ^ suc k ≡ 2 * (q * 2 ^ k) = mul-two-pow-suc q k in
    let half : bit_xor (q * 2 ^ suc k / 2) (r / 2) ≡ bit_xor (q * 2 ^ k) (r / 2) =
      ap (λ t. bit_xor t (r / 2)) (omega arith) in
    omega (
      arith,
      two-pow-succ k,
      bit_xor_step (q * 2 ^ suc k) r,
      half,
      bit_xor_fields k q (r / 2) (omega (arith, two-pow-succ k)),
    )

bit_xor_self_fuel : (n a : ℕ) → a ≤ n → bit_xor a a ≡ 0
bit_xor_self_fuel n zero h = refl
bit_xor_self_fuel zero (suc a) h = absurd (omega arith)
bit_xor_self_fuel (suc n) (suc a) h =
    omega (arith, bit_xor_step (suc a) (suc a), bit_xor_self_fuel n (suc a / 2) (omega arith))

pub bit_xor_self : (a : ℕ) → bit_xor a a ≡ 0
bit_xor_self a = bit_xor_self_fuel a a (omega arith)

pub bit_xor_cancel : (a b p : ℕ) → bit_xor a p ≡ bit_xor b p → a ≡ b
bit_xor_cancel a b p e = sym (twice a) ∙ ap (λ t. bit_xor t p) e ∙ twice b
  where
    twice : (n : ℕ) → bit_xor (bit_xor n p) p ≡ n
    twice n = bit_xor_assoc n p p ∙ ap (bit_xor n) (bit_xor_self p) ∙ bit_xor-zero n

-- `^` takes the digits from `k` on off again.
pub bit_xor_remove : (k q r : ℕ) → r < 2 ^ k → bit_xor (q * 2 ^ k + r) (q * 2 ^ k) ≡ r
bit_xor_remove k q r fits =
    ap (λ t. bit_xor t (q * 2 ^ k)) (sym (bit_xor_fields k q r fits) ∙ bit_xor_comm (q * 2 ^ k) r)
    ∙ bit_xor_assoc r (q * 2 ^ k) (q * 2 ^ k)
    ∙ ap (bit_xor r) (bit_xor_self (q * 2 ^ k))
    ∙ bit_xor-zero r

-- `(a ^ b) >> k`
pub bit_xor-div : (k a b : ℕ) → bit_xor a b / 2 ^ k ≡ bit_xor (a / 2 ^ k) (b / 2 ^ k)
bit_xor-div zero a b = div-one (bit_xor a b) ∙ sym (ap₂ bit_xor (div-one a) (div-one b))
bit_xor-div (suc k) a b =
    shift (bit_xor a b)
    ∙ ap (λ t. t / 2 ^ k) (bit_xor-half a b)
    ∙ bit_xor-div k (a / 2) (b / 2)
    ∙ sym (ap₂ bit_xor (shift a) (shift b))
  where
    shift : (n : ℕ) → n / 2 ^ suc k ≡ n / 2 / 2 ^ k
    shift n = ap (λ t. n / t) (omega (arith, two-pow-succ k)) ∙ sym (div-div-eq-div-mul n 2 (2 ^ k))
