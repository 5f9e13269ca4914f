-- ===== src/Crc.antt =====
-- modrep_osld/gen_crc/src/crc.c and the loop of gen_crc.c's `work`: the CRC that the transmitter
-- pastes behind a packet and the receiver checks.
--
-- `unsigned int` is a number below 2 ^ 32, a `char` is any number, and 0 is the character of a zero
-- bit. The characters from `bufptr[k]` up to `len` are passed on as the list of them.
pub mod Register
pub mod Chunk
pub mod Roundtrip
pub mod Packets
pub mod Errors
mod Tests
use Prim.Native.Nat.{bit_xor, bit_or}
use aloe.Base.{
  ℕ, zero, suc, ◌+◌, ◌-◌, ◌*◌, ◌/◌, ◌%◌, ◌^◌, ◌==◌, Bool, true, false, not, ◌&&◌, ◌||◌, ltb, leb,
  if◌then◌else◌, List, [], ◌∷◌, ◌++◌, length, take, drop, word_mod, add32, sub32, Outcome, ok, err,
  fault, Option, none, some,
}

-- `t & (0x1<<k)`
abbrev pub test_bit : ℕ → ℕ → Bool
test_bit k t = t / 2 ^ k % 2 == 1

-- A round of `icrc1`: the shift of 32 bits drops the top bit.
pub shift_once : ℕ → ℕ → ℕ → ℕ
shift_once long_crc poly tmp =
    let shifted = tmp * 2 % word_mod in
    if test_bit (long_crc - 1) tmp then bit_xor shifted poly else shifted

pub shift_loop : ℕ → ℕ → ℕ → ℕ → ℕ
unfolding shift_once
shift_loop long_crc poly zero tmp = tmp
shift_loop long_crc poly (suc n) tmp = shift_loop long_crc poly n (shift_once long_crc poly tmp)

pub icrc1 : ℕ → ℕ → ℕ → ℕ → ℕ → ℕ
unfolding shift_loop
icrc1 crc onech long_crc left_shift poly =
    shift_loop long_crc poly left_shift (bit_xor crc (onech * 2 ^ (long_crc / 2) % word_mod))

-- `data` and `i` after the inner loop, and the characters from `bufptr[k]` on; `stop` is set when
-- there is none left.
pub record Gathered : Type 0 where
  data_word : ℕ
  count : ℕ
  rest : List ℕ

-- The bit of a character, at place `k` of the word.
abbrev pub or_bit : ℕ → ℕ → ℕ → ℕ
or_bit c k word = if c == 0 then word else bit_or word (2 ^ k)

-- `for (i=0;i<long_crc/2;i++)`, with `left` rounds left
pub gather : ℕ → ℕ → ℕ → ℕ → List ℕ → Gathered
gather half zero i word cs = record { data_word = word; count = i; rest = cs }
gather half (suc left) i word [] = record { data_word = word; count = i; rest = [] }
gather half (suc left) i word (c ∷ []) = record {
  data_word = or_bit c (half - 1 - i) word;
  count = i + 1;
  rest = [];
}
gather half (suc left) i word (c ∷ d ∷ cs) =
    gather half left (i + 1) (or_bit c (half - 1 - i) word) (d ∷ cs)

-- `(w<<long_crc)>>long_crc`, at 32 bits
abbrev pub keep : ℕ → ℕ → ℕ
keep long_crc w = w * 2 ^ long_crc % word_mod / 2 ^ long_crc

-- The word after the next characters.
pub absorb_word : ℕ → ℕ → ℕ → Gathered → ℕ
unfolding icrc1
absorb_word long_crc poly cword g =
    keep long_crc
      (icrc1 (keep long_crc cword) (Gathered.data_word g) long_crc (Gathered.count g) poly)

-- `while(!stop)`: a round takes a character at least, so that `length cs` rounds are enough.
pub absorb : ℕ → ℕ → ℕ → ℕ → List ℕ → ℕ
unfolding gather absorb_word
absorb zero long_crc poly cword cs = cword
absorb (suc fuel) long_crc poly cword cs =
    let g = gather (long_crc / 2) (long_crc / 2) 0 0 cs in
    let next = absorb_word long_crc poly cword g in
    let more = absorb fuel long_crc poly next (Gathered.rest g) in
    if length (Gathered.rest g) == 0 then next else more

-- The characters that `paste_word` writes, from the word shifted to the top.
pub paste : ℕ → ℕ → List ℕ
paste zero cword = []
paste (suc n) cword = cword / 2 ^ 31 ∷ paste n (cword * 2 % word_mod)

-- The result and the buffer after the call. A fault stands for a loop that runs past the buffer
-- (`len` of 0) or never ends (`long_crc` below 2), a shift by 32 or more and a buffer too short.
pub icrc : ℕ → List ℕ → ℕ → ℕ → ℕ → Bool → Outcome (ℕ × List ℕ)
unfolding absorb paste
icrc crc bufptr len long_crc poly paste_word =
    let needed = if paste_word then len + long_crc else len in
    let cword = absorb len long_crc poly crc (take len bufptr) in
    let pasted = paste long_crc (cword * 2 ^ (32 - long_crc) % word_mod) in
    if len == 0 || ltb long_crc 2 || leb 32 long_crc || ltb (length bufptr) needed
    then fault
    else if paste_word
    then ok (cword, take len bufptr ++ pasted ++ drop (len + long_crc) bufptr)
    else ok (cword, bufptr)

-- MODE_ADD, MODE_CHECK
abbrev pub mode_add : ℕ
mode_add = 0

abbrev pub mode_check : ℕ
mode_check = 1

-- The parameters of the module that its results depend on.
pub record Parameters : Type 0 where
  mode : ℕ
  long_crc : ℕ
  poly : ℕ
  forward_on_error : Bool

pub record Counters : Type 0 where
  total_errors : ℕ
  total_pkts : ℕ

-- After a packet: the counters, the characters in the buffer that `icrc` ran on, and the number of
-- samples sent (`none` where `set_output_samples` is not called).
pub record Handled : Type 0 where
  counters : Counters
  buffer : List ℕ
  samples : Option ℕ

-- `memcpy(out[i],inp[i],rcv_samples)`; without an output buffer `icrc` runs on the input.
pub copy_input : List ℕ → Option (List ℕ) → ℕ → Outcome (List ℕ)
copy_input inp none rcv_samples = ok inp
copy_input inp (some out) rcv_samples =
    if ltb (length inp) rcv_samples || ltb (length out) rcv_samples
    then fault
    else ok (take rcv_samples inp ++ drop rcv_samples out)

-- The end of the round, on what `icrc` returned.
pub finish : Parameters → Counters → ℕ → Outcome (ℕ × List ℕ) → Outcome Handled
finish ps cs rcv_samples err = err
finish ps cs rcv_samples fault = fault
finish ps cs rcv_samples (ok (n, buffer)) =
    let wrong = not (n == 0) in
    if Parameters.mode ps == mode_check
    then ok (record {
      counters = record {
        total_errors =
            if wrong then add32 (Counters.total_errors cs) 1 else Counters.total_errors cs;
        total_pkts = add32 (Counters.total_pkts cs) 1;
      };
      buffer = buffer;
      samples =
          if not (not (Parameters.forward_on_error ps) && wrong)
          then some (sub32 rcv_samples (Parameters.long_crc ps))
          else none;
    })
    else ok (record {
      counters = cs;
      buffer = buffer;
      samples = some (add32 rcv_samples (Parameters.long_crc ps));
    })

pub run_icrc : Parameters → Counters → ℕ → Outcome (List ℕ) → Outcome Handled
unfolding icrc finish
run_icrc ps cs rcv_samples err = err
run_icrc ps cs rcv_samples fault = fault
run_icrc ps cs rcv_samples (ok input) = finish ps cs rcv_samples (
    icrc 0 input rcv_samples (Parameters.long_crc ps) (Parameters.poly ps)
      (Parameters.mode ps == mode_add))

-- `work` on one interface that received `rcv_samples` samples, not 0.
pub work : Parameters → Counters → List ℕ → Option (List ℕ) → ℕ → Outcome Handled
unfolding copy_input run_icrc
work ps cs inp out rcv_samples = run_icrc ps cs rcv_samples (copy_input inp out rcv_samples)
