-- ===== src/Crc/Packets.antt =====
-- `work` of gen_crc.c at a CRC of 16 bits: a packet that one module protects and another checks,
-- and what the other does with a packet damaged on the way.
use aloe.Base.{
  arith, le→ltb, ℕ, ◌+◌, ◌*◌, ◌%◌, ◌^◌, ◌≤◌, ◌<◌, ◌≡◌, refl, sym, ap, ap₂, ◌∙◌, Bool, true, false,
  List, ◌++◌, length, take, drop, word_mod, int_limit, ok, some, add32, sub32, length-append,
  length-drop, take-append_left, take_all, append_assoc,
}
use aloe.Crc.{
  paste, Parameters, Counters, Handled, mode_add, mode_check, copy_input, run_icrc, finish, work,
}
use aloe.Crc.Register.{register}
use aloe.Crc.Chunk.{bits_of}
use aloe.Crc.Roundtrip.{codeword, icrc-register, length-paste}

abbrev pub adder : ℕ → Bool → Parameters
adder poly fwd = record { mode = mode_add; long_crc = 16; poly = poly; forward_on_error = fwd }

abbrev pub checker : ℕ → Bool → Parameters
checker poly fwd = record { mode = mode_check; long_crc = 16; poly = poly; forward_on_error = fwd }

-- The characters behind a packet.
abbrev pub pasted : ℕ → List ℕ → List ℕ
pasted poly msg = paste 16 (register poly 0 (bits_of msg) * 2 ^ 16 % word_mod)

copied :
    (inp out : List ℕ)
    → length inp ≤ length out
    → copy_input inp (some out) (length inp) ≡ ok (inp ++ drop (length inp) out)
unfolding copy_input
copied inp out fits =
    rw
      (
        le→ltb (length out) (length inp) fits,
        le→ltb (length inp) (length inp) (omega arith),
        take_all (length inp) inp (omega arith),
      )
      refl

length-copied :
    (inp out : List ℕ)
    → length inp ≤ length out
    → length (inp ++ drop (length inp) out) ≡ length out
length-copied inp out fits =
    omega (arith, length-append inp (drop (length inp) out), length-drop (length inp) out)

pub work_add_lem :
    (poly : ℕ) (fwd : Bool) (cs : Counters) (msg out : List ℕ)
    → 1 ≤ length msg
    → length msg + 16 ≤ length out
    → work (adder poly fwd) cs msg (some out) (length msg)
      ≡ ok (record {
        counters = cs;
        buffer = msg ++ pasted poly msg ++ drop (length msg + 16) (msg ++ drop (length msg) out);
        samples = some (add32 (length msg) 16);
      })
unfolding work run_icrc finish
work_add_lem poly fwd cs msg out pos fits =
    let n = length msg in
    let input = msg ++ drop n out in
    let first : take n input ≡ msg = take-append_left n msg (drop n out) refl in
    rw
      (
        copied msg out (omega arith),
        icrc-register 0 input n poly true pos (omega (arith, length-copied msg out (omega arith))),
        first,
      )
      refl

pub work_check_lem :
    (poly : ℕ) (fwd : Bool) (cs : Counters) (frame out : List ℕ)
    → 1 ≤ length frame
    → length frame ≤ length out
    → work (checker poly fwd) cs frame (some out) (length frame)
      ≡ finish
          (checker poly fwd)
          cs
          (length frame)
          (ok (register poly 0 (bits_of frame), frame ++ drop (length frame) out))
unfolding work run_icrc
work_check_lem poly fwd cs frame out pos fits =
    let n = length frame in
    let input = frame ++ drop n out in
    let first : take n input ≡ frame = take-append_left n frame (drop n out) refl in
    rw
      (
        copied frame out (omega arith),
        icrc-register 0 input n poly false pos
            (omega (arith, length-copied frame out (omega arith))),
        first,
      )
      refl

finish_right :
    (poly : ℕ) (fwd : Bool) (cs : Counters) (n : ℕ) (xs : List ℕ)
    → finish (checker poly fwd) cs n (ok (0, xs))
      ≡ ok (record {
        counters = record {
          total_errors = Counters.total_errors cs;
          total_pkts = add32 (Counters.total_pkts cs) 1;
        };
        buffer = xs;
        samples = some (sub32 n 16);
      })
unfolding finish
finish_right poly true cs n xs = refl
finish_right poly false cs n xs = refl

-- A packet `msg` that a module in MODE_ADD sends and a module in MODE_CHECK with the same
-- polynomial receives, at a CRC of 16 bits, for a packet that is not empty, buffers with room for it
-- and 16 characters, and lengths that an `int` holds: the first sends 16 samples more, and the
-- second finds no error, counts the packet, and passes on exactly the samples of `msg`.
pub work_check-work_add :
    (poly : ℕ) (fwd fwd' : Bool) (cs cs' : Counters) (msg out out' : List ℕ)
    → 1 ≤ length msg
    → length msg + 16 ≤ length out
    → length msg + 16 ≤ length out'
    → length msg + 16 < int_limit
    → (sent got : Handled) × (work (adder poly fwd) cs msg (some out) (length msg) ≡ ok sent)
      × (Handled.samples sent ≡ some (length msg + 16))
      × (work
            (checker poly fwd')
            cs'
            (take (length msg + 16) (Handled.buffer sent))
            (some out')
            (length msg + 16)
          ≡ ok got)
      × (Handled.samples got ≡ some (length msg))
      × (take (length msg) (Handled.buffer got) ≡ msg)
      × (Counters.total_errors (Handled.counters got) ≡ Counters.total_errors cs')
      × (Counters.total_pkts (Handled.counters got) ≡ add32 (Counters.total_pkts cs') 1)
work_check-work_add poly fwd fwd' cs cs' msg out out' pos fits fits' int =
    let n = length msg in
    let frame = msg ++ pasted poly msg in
    let tail = drop (n + 16) (msg ++ drop n out) in
    let size : length frame ≡ n + 16 = omega (
      arith,
      length-append msg (pasted poly msg),
      length-paste 16 (register poly 0 (bits_of msg) * 2 ^ 16 % word_mod),
    ) in
    let on_air : take (n + 16) (msg ++ pasted poly msg ++ tail) ≡ frame =
      take-append_left (n + 16) frame tail (sym size) in
    let checked = work_check_lem poly fwd' cs' frame out' (omega arith) (omega arith) in
    (
      record {
        counters = cs;
        buffer = msg ++ pasted poly msg ++ tail;
        samples = some (add32 n 16);
      },
      record {
        counters = record {
          total_errors = Counters.total_errors cs';
          total_pkts = add32 (Counters.total_pkts cs') 1;
        };
        buffer = frame ++ drop (length frame) out';
        samples = some (sub32 (length frame) 16);
      },
      work_add_lem poly fwd cs msg out pos fits,
      ap some (omega arith),
      ap₂ (λ xs k. work (checker poly fwd') cs' xs (some out') k) on_air (sym size)
          ∙ checked
          ∙ ap
              (λ r.
                finish (checker poly fwd') cs' (length frame)
                  (ok (r, frame ++ drop (length frame) out')))
              (codeword poly msg)
          ∙ finish_right poly fwd' cs' (length frame) (frame ++ drop (length frame) out'),
      ap some (omega arith),
      ap (take n) (append_assoc msg (pasted poly msg) (drop (length frame) out'))
          ∙ take-append_left n msg (pasted poly msg ++ drop (length frame) out') refl,
      refl,
      refl,
    )
