-- ===== src/Padding/Work.antt =====
-- `work` of gen_padding in both directions, one after the other.
use native.Mathlib.Nat.{mul-div_right, mul-mod_right, mul-div_cancel, mul-mod_left, mul-pos}
use aloe.Base.{
  arith, le→ltb, ℕ, ◌+◌, ◌-◌, ◌*◌, ◌/◌, ◌%◌, ◌==◌, ◌≤◌, ◌≡◌, refl, ap, ◌∙◌, true, false, List, [],
  ◌++◌, length, take, drop, some, ok, return, >>=_ok, ◌>>=◌, ◌>>◌,
}
use aloe.Padding.{Parameters, pad_packets, unpad_packets, move_packets, work}
use aloe.Padding.Packets.{padded, pad_packets_lem}
use aloe.Padding.Roundtrip.{plain-take, unpad_packets_lem}

abbrev pub padding : ℕ → ℕ → ℕ → Parameters
padding pre post n = record {
  direction = false;
  pre_padding = pre;
  post_padding = post;
  nof_packets = n;
}

abbrev pub unpadding : ℕ → ℕ → ℕ → Parameters
unpadding pre post n = record {
  direction = true;
  pre_padding = pre;
  post_padding = post;
  nof_packets = n;
}

module _ {A : Type 0} (zero_sample : A) where
  -- The guards of `work` on a stream of whole packets.
  work-packets :
      (ps : Parameters) (input out : List A) (rcv len : ℕ)
      → 1 ≤ Parameters.nof_packets ps
      → 1 ≤ rcv
      → rcv % Parameters.nof_packets ps ≡ 0
      → rcv / Parameters.nof_packets ps ≡ len
      → work zero_sample ps input rcv out
        ≡ (move_packets zero_sample ps input len >>= λ sent. return (some sent)) out
  unfolding work
  work-packets ps input out rcv len several pos whole size =
      let samples : (rcv == 0) ≡ false = ground arith in
      let packets : (Parameters.nof_packets ps == 0) ≡ false = ground arith in
      rw (samples, packets, whole, size) refl

  move-padding :
      (pre post n len : ℕ) (input out : List A)
      → n * len ≤ length input
      → n * (len + (pre + post)) ≤ length out
      → move_packets zero_sample (padding pre post n) input len out ≡ (
        ok ((len + (pre + post)) * n),
        padded zero_sample (padding pre post n) input len n 0
            ++ drop (n * (len + (pre + post))) out,
      )
  unfolding move_packets
  move-padding pre post n len input out inside room =
      let e : (0 + n) * len ≡ n * len = ap (λ m. m * len) {x = 0 + n} {y = n} (omega arith) in
      >>=_ok (pad_packets zero_sample (padding pre post n) input len (len + (pre + post)) n 0)
        (λ _. return ((len + (pre + post)) * n)) out
        (pad_packets_lem zero_sample (padding pre post n) input len n 0 [] out (omega arith) room
          (omega (arith, e)))
        refl

  move-unpadding :
      (pre post n len : ℕ) (input out behind : List A)
      → n * len ≤ length input
      → n * len ≤ length out
      → move_packets zero_sample
          (unpadding pre post n)
          (padded zero_sample (padding pre post n) input len n 0 ++ behind)
          (len + (pre + post))
          out
        ≡ (ok (len * n), take (n * len) input ++ drop (n * len) out)
  unfolding move_packets
  move-unpadding pre post n len input out behind inside room =
      let wide = len + (pre + post) in
      let e : (0 + n) * len ≡ n * len = ap (λ m. m * len) {x = 0 + n} {y = n} (omega arith) in
      let none : 0 * len ≡ 0 = omega arith in
      let source = padded zero_sample (padding pre post n) input len n 0 ++ behind in
      let back : wide - (pre + post) ≡ len = omega arith in
      let run =
        >>=_ok (unpad_packets zero_sample (unpadding pre post n) source wide len n 0)
          (λ _. return (len * n)) out
          (unpad_packets_lem zero_sample (padding pre post n) input len true n 0 [] behind [] out
            (omega arith) (omega arith) room (omega (arith, e)))
          refl in
      rw (le→ltb wide (pre + post) (omega arith)) (
        ap
          (λ k.
            (unpad_packets zero_sample (unpadding pre post n) source wide k n 0 >> return (k * n))
              out)
          back
        ∙ run)
      ∙ ap (λ l. (ok (len * n), l ++ drop (n * len) out))
          (plain-take zero_sample (padding pre post n) input len n 0
            ∙ ap (λ m. take (n * len) (drop m input)) none)

  -- A stream of `n` packets of `len` samples, neither 0, that a gen_padding pads and another one with
  -- the same parameters takes the padding off, given output buffers with room: the first sends `n`
  -- packets of `len + pre + post` samples, and the second, on what it wrote, sends the `n * len`
  -- samples of the stream, unchanged, and leaves the rest of its output as it was.
  pub work-padding-unpadding :
      (pre post n len : ℕ) (input out out' : List A)
      → 1 ≤ n
      → 1 ≤ len
      → n * len ≤ length input
      → n * (len + (pre + post)) ≤ length out
      → n * len ≤ length out'
      → (sent : List A) × (work zero_sample (padding pre post n) input (n * len) out
          ≡ (ok (some ((len + (pre + post)) * n)), sent))
        × (work zero_sample (unpadding pre post n) sent ((len + (pre + post)) * n) out'
            ≡ (ok (some (len * n)), take (n * len) input ++ drop (n * len) out'))
  work-padding-unpadding pre post n len input out out' several pos inside room room' =
      let wide = len + (pre + post) in
      let sent = padded zero_sample (padding pre post n) input len n 0 ++ drop (n * wide) out in
      let some_in : 1 ≤ n * len = mul-pos several pos in
      let some_out : 1 ≤ wide * n = mul-pos (omega arith) several in
      (
        sent,
        work-packets (padding pre post n) input out (n * len) len several some_in
              (mul-mod_right n len) (mul-div_right len several)
            ∙ >>=_ok (move_packets zero_sample (padding pre post n) input len)
                (λ k. return (some k)) out (move-padding pre post n len input out inside room) refl,
        work-packets (unpadding pre post n) sent out' (wide * n) wide several some_out
              (mul-mod_left wide n) (mul-div_cancel wide several)
            ∙ >>=_ok (move_packets zero_sample (unpadding pre post n) sent wide)
                (λ k. return (some k)) out'
                (move-unpadding pre post n len input out' (drop (n * wide) out) inside room') refl,
      )
