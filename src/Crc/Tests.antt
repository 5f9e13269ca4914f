-- ===== src/Crc/Tests.antt =====
-- A packet of five characters through both modes, and what a CRC of 24 bits does.
use aloe.Base.{
  arith, ℕ, ◌≡◌, refl, false, List, [], ◌∷◌, ◌++◌, take, replicate, Outcome, ok, err, fault, Option,
  none, some, add32,
}
use aloe.Crc.{
  Parameters, Counters, Handled, mode_add, mode_check, icrc, icrc1, absorb, absorb_word, gather,
  paste, shift_loop, shift_once, copy_input, run_icrc, finish, work,
}
use aloe.Crc.Register.{low, register, register_step, advance}
use aloe.Crc.Chunk.{bits_of}
use aloe.Crc.Roundtrip.{icrc-register}
use aloe.Crc.Packets.{adder, checker, work_check-work_add}
use aloe.Crc.Errors.{work_check-damaged}

abbrev message : List ℕ
message = 1 ∷ 0 ∷ 1 ∷ 1 ∷ 0 ∷ []

abbrev room : List ℕ
room = replicate 40 7

abbrev fresh : Counters
fresh = record { total_errors = 0; total_pkts = 0 }

-- DEFAULT_POLY
abbrev default_poly : ℕ
default_poly = 0x8005

icrc-message : icrc 0 (message ++ room) 5 16 default_poly false ≡ ok (32887, message ++ room)
unfolding icrc absorb absorb_word gather icrc1 shift_loop shift_once
icrc-message = refl

icrc-register_example :
    icrc 0 (message ++ room) 5 16 default_poly false
    ≡ ok (register default_poly (low 0) (bits_of (take 5 (message ++ room))), message ++ room)
icrc-register_example =
    icrc-register 0 (message ++ room) 5 default_poly false (omega arith) (omega arith)

work_check-work_add_example :
    (sent got : Handled) × (work (adder default_poly false) fresh message (some room) 5 ≡ ok sent)
    × (Handled.samples sent ≡ some 21)
    × (work (checker default_poly false) fresh (take 21 (Handled.buffer sent)) (some room) 21
        ≡ ok got)
    × (Handled.samples got ≡ some 5)
    × (take 5 (Handled.buffer got) ≡ message)
    × (Counters.total_errors (Handled.counters got) ≡ 0)
    × (Counters.total_pkts (Handled.counters got) ≡ add32 0 1)
work_check-work_add_example =
    work_check-work_add default_poly false false fresh fresh message room room (omega arith)
      (omega arith) (omega arith) (omega arith)

-- The message and its CRC, 0x8077, from the fourth character on.
abbrev behind : List ℕ
behind = 1 ∷ 0 ∷ 1 ∷ 0 ∷ 0 ∷ 0 ∷ 0 ∷ 0 ∷ 0 ∷ 0 ∷ 0 ∷ 1 ∷ 1 ∷ 1 ∷ 0 ∷ 1 ∷ 1 ∷ 1 ∷ []

work_check-damaged_example :
    (got : Handled) × (work (checker default_poly false) fresh (1 ∷ 0 ∷ 0 ∷ behind) (some room) 21
      ≡ ok got)
    × (Counters.total_errors (Handled.counters got) ≡ add32 0 1)
    × (Counters.total_pkts (Handled.counters got) ≡ add32 0 1)
    × (Handled.samples got ≡ none)
unfolding paste register register_step advance
work_check-damaged_example =
    work_check-damaged default_poly false fresh message (1 ∷ 0 ∷ []) behind room 1 0 refl refl
      (λ e. absurd (omega (arith, e))) (omega arith)

-- With `long_crc` 24 and the polynomial of LTE, `icrc` keeps 8 bits of its register between words,
-- and a packet that one module protects fails the check of the other.
abbrev long_adder : Parameters
long_adder = record { mode = mode_add; long_crc = 24; poly = 0x1864CFB; forward_on_error = false }

abbrev long_checker : Parameters
long_checker = record {
  mode = mode_check;
  long_crc = 24;
  poly = 0x1864CFB;
  forward_on_error = false;
}

abbrev errors_of : Outcome Handled → Option ℕ
errors_of (ok h) = some (Counters.total_errors (Handled.counters h))
errors_of err = none
errors_of fault = none

abbrev then_check : Outcome Handled → Outcome Handled
unfolding work
then_check (ok h) = work long_checker fresh (take 29 (Handled.buffer h)) (some room) 29
then_check err = err
then_check fault = fault

long_crc_fails : errors_of (then_check (work long_adder fresh message (some room) 5)) ≡ some 1
unfolding then_check work run_icrc copy_input finish icrc absorb absorb_word gather icrc1 shift_loop
    shift_once paste
long_crc_fails = refl
