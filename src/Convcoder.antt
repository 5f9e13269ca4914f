-- ===== src/Convcoder.antt =====
-- modrep_osld/gen_convcoder/src/conv_encode.c and the round of `work` in gen_convcoder.c: the
-- convolutional coder, its shift register of `constraint_len` bits as a list, the newest bit first.
--
-- A `char` is its pattern of 8 bits, `rate` and the lengths are not negative, and the generators are
-- numbers. A fault stands for an access out of range.
pub mod Window
pub mod Convolution
pub mod Encode
pub mod Work
mod Tests
use aloe.Base.{
  ℕ, zero, suc, ◌+◌, ◌-◌, ◌*◌, ◌/◌, ◌%◌, ◌^◌, ◌==◌, Bool, true, false, ◌&&◌, ◌||◌, ltb, leb,
  if◌then◌else◌, List, [], ◌∷◌, ◌++◌, map, length, get_or, take, drop, replicate, not, is_negative,
  Option, none, some, Outcome, ok, err, fault,
}

-- MAX_RATE, and the size of g_array
abbrev pub max_rate : ℕ
max_rate = 3

-- The entries from `i` on, `left` of them: `c_bits[N_c_bits-i-1]` with a tail, else 0.
pub first_register : Bool → List ℕ → ℕ → ℕ → ℕ → List ℕ
first_register tail_bit c_bits n zero i = []
first_register tail_bit c_bits n (suc left) i =
    (if tail_bit then get_or c_bits (n - i - 1) 0 else 0)
    ∷ first_register tail_bit c_bits n left (i + 1)

-- A row of g_array, the last `left` entries: `(g >> (constraint_len-j-1)) & 1`.
pub taps : ℕ → ℕ → List ℕ
taps g zero = []
taps g (suc left) = g / 2 ^ left % 2 ∷ taps g left

-- Every entry takes the one before it, the first takes the bit.
pub shift_in : ℕ → List ℕ → List ℕ
shift_in b [] = []
shift_in b (x ∷ xs) = b ∷ shift_in x xs

-- `d_bits[i*rate + j] += s_reg[k]*g_array[j][k]`, at `char`
pub accumulate : ℕ → List ℕ → List ℕ → ℕ
accumulate acc (s ∷ ss) (g ∷ gs) = accumulate ((acc + s * g) % 256) ss gs
accumulate acc _ _ = acc

-- `d %= 2` at a signed `char`: -1 for a negative odd number
pub odd : ℕ → ℕ
odd d = if leb 128 d && (d % 2 == 1) then 255 else d % 2

-- The output bits for a register.
pub output_bits : List ℕ → List (List ℕ) → List ℕ
unfolding accumulate odd
output_bits reg [] = []
output_bits reg (g ∷ gs) = odd (accumulate 0 reg g) ∷ output_bits reg gs

-- The loop over the input.
pub encode_from : List (List ℕ) → List ℕ → List ℕ → List ℕ
unfolding shift_in output_bits
encode_from gs reg [] = []
encode_from gs reg (b ∷ bs) =
    let next = shift_in b reg in output_bits next gs ++ encode_from gs next bs

pub generators : ℕ → List ℕ → List (List ℕ)
unfolding taps
generators constraint_len gs = map (λ g. taps g constraint_len) gs

-- `d_bits` and `*N_d_bits` after the call.
pub conv_encode : List ℕ → ℕ → ℕ → ℕ → List ℕ → Bool → List ℕ → Outcome (List ℕ × ℕ)
unfolding first_register encode_from generators
conv_encode c_bits n constraint_len rate g tail_bit d_bits =
    if constraint_len == 0
      || ltb max_rate rate
      || ltb (length g) rate
      || (tail_bit && ltb n constraint_len)
      || ltb (length c_bits) n
      || ltb (length d_bits) (n * rate)
    then fault
    else ok (
      encode_from (generators constraint_len (take rate g))
            (first_register tail_bit c_bits n constraint_len 0) (take n c_bits)
          ++ drop (n * rate) d_bits,
      n * rate,
    )

-- The parameters that `initialize` reads.
pub record Parameters : Type 0 where
  constraint_length : ℕ
  tail_bit : Bool
  rate : ℕ
  generator : List ℕ

-- The names that `initialize` asks `param_get_int_name` for.
pub data Name : Type 0 where
  constraint_length_name tail_bit_name rate_name : Name
  generator_name : ℕ → Name

-- `if (param_get_int_name(name,&x)) return -1;`
pub required {ℓ} : {A : Type ℓ} → Option ℕ → (ℕ → Outcome A) → Outcome A
required none k = err
required (some x) k = k x

-- The loop over the generators, `left` of them from `i` on.
pub read_generators : (Name → Option ℕ) → ℕ → ℕ → (List ℕ → Outcome Parameters) → Outcome Parameters
unfolding required
read_generators get zero i k = k []
read_generators get (suc left) i k =
    required (get (generator_name i)) λ g. read_generators get left (i + 1) λ gs. k (g ∷ gs)

-- `initialize`, on the parameters that `get` finds: `int`s as patterns.
pub initialize : (Name → Option ℕ) → Outcome Parameters
unfolding required read_generators
initialize get = required (get constraint_length_name) λ length_read.
    required (get tail_bit_name) λ tail_read. required (get rate_name) λ rate_read.
      if is_negative rate_read || ltb max_rate rate_read
      then err
      else read_generators get rate_read 0 λ gs. ok (record {
        constraint_length = length_read;
        tail_bit = not (tail_read == 0);
        rate = rate_read;
        generator = gs;
      })

-- `output[out_len+j] = 0` for every `j` below `padding`, and the number of samples sent.
pub pad_output : ℕ → Outcome (List ℕ × ℕ) → Outcome (List ℕ × ℕ)
pad_output padding (ok (output, out_len)) =
    if ltb (length output) (out_len + padding)
    then fault
    else ok (
      take out_len output ++ replicate padding 0 ++ drop (out_len + padding) output,
      out_len + padding,
    )
pad_output padding err = err
pad_output padding fault = fault

-- `work` on one interface that received `rcv_samples` samples, not 0.
pub work : Parameters → ℕ → List ℕ → List ℕ → ℕ → Outcome (List ℕ × ℕ)
unfolding conv_encode pad_output
work ps padding input output rcv_samples = pad_output padding (
    conv_encode input rcv_samples (Parameters.constraint_length ps) (Parameters.rate ps)
      (Parameters.generator ps) (Parameters.tail_bit ps) output)
