-- ===== src/Padding.antt =====
-- modrep_osld/gen_padding/src/gen_padding.c: zeros before and after each packet of a stream, and their
-- removal.
--
-- Samples are of any type, with the one whose bytes are 0; the parameters are not negative, and the
-- lengths fit an `int`. A fault is an access out of a buffer, or a division by 0.
pub mod Packets
pub mod Roundtrip
pub mod Work
mod Tests
use aloe.Base.{
  ℕ, zero, suc, ◌+◌, ◌-◌, ◌*◌, ◌/◌, ◌%◌, ◌==◌, Bool, true, false, not, ltb, if◌then◌else◌, List, [],
  ◌∷◌, length, replicate, take, drop, Option, none, some, Call, return, fail, crash, ◌>>◌, ◌>>=◌,
  write, copy,
}

-- The parameters of the module.
pub record Parameters : Type 0 where
  direction : Bool
  pre_padding : ℕ
  post_padding : ℕ
  nof_packets : ℕ

module _ {A : Type 0} (zero_sample : A) where
  -- A round of the padding loop: packet `j`.
  pub pad_packet : Parameters → List A → ℕ → ℕ → ℕ → Call (List A) (Unit {0})
  pad_packet ps input in_pkt_len out_pkt_len j =
      let pre = Parameters.pre_padding ps in
      write (j * out_pkt_len) (replicate pre zero_sample)
      >> copy (j * out_pkt_len + pre) input (j * in_pkt_len) in_pkt_len
      >> write (j * out_pkt_len + (pre + in_pkt_len))
          (replicate (Parameters.post_padding ps) zero_sample)

  -- The loop, `n` packets left, from packet `j` on.
  pub pad_packets : Parameters → List A → ℕ → ℕ → ℕ → ℕ → Call (List A) (Unit {0})
  unfolding pad_packet
  pad_packets ps input in_pkt_len out_pkt_len zero j = return tt
  pad_packets ps input in_pkt_len out_pkt_len (suc n) j =
      pad_packet ps input in_pkt_len out_pkt_len j
      >> pad_packets ps input in_pkt_len out_pkt_len n (j + 1)

  pub unpad_packets : Parameters → List A → ℕ → ℕ → ℕ → ℕ → Call (List A) (Unit {0})
  unpad_packets ps input in_pkt_len out_pkt_len zero j = return tt
  unpad_packets ps input in_pkt_len out_pkt_len (suc n) j =
      copy (j * out_pkt_len) input (j * in_pkt_len + Parameters.pre_padding ps) out_pkt_len
      >> unpad_packets ps input in_pkt_len out_pkt_len n (j + 1)

  -- Both directions, on packets of `in_pkt_len` samples; `memcpy` with a negative length faults.
  pub move_packets : Parameters → List A → ℕ → Call (List A) ℕ
  unfolding pad_packets unpad_packets
  move_packets ps input in_pkt_len =
      let n = Parameters.nof_packets ps in
      let padding = Parameters.pre_padding ps + Parameters.post_padding ps in
      let removed = in_pkt_len - padding in
      let added = in_pkt_len + padding in
      if Parameters.direction ps
      then (if ltb in_pkt_len padding
          then crash
          else unpad_packets ps input in_pkt_len removed n 0 >> return (removed * n))
      else (pad_packets ps input in_pkt_len added n 0 >> return (added * n))

  -- `work` on one interface: the number of samples sent, or `none` if there is nothing to do.
  pub work : Parameters → List A → ℕ → Call (List A) (Option ℕ)
  unfolding move_packets
  work ps input rcv_samples =
      let n = Parameters.nof_packets ps in
      if rcv_samples == 0
      then return none
      else if n == 0
      then crash
      else if not (rcv_samples % n == 0)
      then fail
      else move_packets ps input (rcv_samples / n) >>= λ sent. return (some sent)
