-- ===== src/Base/Word.antt =====
-- C's `int` and `unsigned` as 32-bit patterns, below 2 ^ 32: sums wrap, comparisons of `int` are
-- signed, and an object in memory is its four bytes, the lowest first.
use Prim.Native.Nat.{ℕ, ◌+◌, ◌-◌, ◌*◌, ◌/◌, ◌%◌, ◌^◌, ◌<◌}
use mathlib.Core.Path.{◌≡◌}
use mathlib.Core.Bool.{Bool}
use mathlib.Core.List.{List, [], ◌∷◌}
use native.Mathlib.Omega.{arith}
use aloe.Base.Tests.{ltb, leb}

-- INT_MAX + 1, the first pattern of a negative `int`
abbrev pub int_limit : ℕ
int_limit = 2 ^ 31

abbrev pub word_mod : ℕ
word_mod = 2 ^ 32

abbrev pub add32 : ℕ → ℕ → ℕ
add32 a b = (a + b) % word_mod

abbrev pub sub32 : ℕ → ℕ → ℕ
sub32 a b = (a + word_mod - b) % word_mod

-- `a < 0` at `int`
abbrev pub is_negative : ℕ → Bool
is_negative a = leb int_limit a

-- `a < b` at `int`: the order of the patterns once the sign bit is flipped
abbrev pub lt_int : ℕ → ℕ → Bool
lt_int a b = ltb (add32 a int_limit) (add32 b int_limit)

-- The four bytes of an `int` object (a little-endian machine), and the `int` that four bytes hold.
unfoldable pub bytes_of_int : ℕ → List ℕ
bytes_of_int w = w % 256 ∷ w / 256 % 256 ∷ w / 65536 % 256 ∷ w / 16777216 % 256 ∷ []

unfoldable pub int_of_bytes : List ℕ → ℕ
int_of_bytes (a ∷ b ∷ c ∷ d ∷ []) = a + 256 * b + 65536 * c + 16777216 * d
int_of_bytes _ = 0

pub int_of_bytes-bytes_of_int : (w : ℕ) → w < word_mod → int_of_bytes (bytes_of_int w) ≡ w
unfolding bytes_of_int int_of_bytes
int_of_bytes-bytes_of_int w h = omega arith
