-- ===== src/Padding/Packets.antt =====
-- What the loop that pads writes: each packet between its zeros.
use native.Mathlib.Nat.{suc-mul, add-mul}
use aloe.Base.{
  arith, ℕ, zero, suc, ◌+◌, ◌-◌, ◌*◌, ◌≤◌, ◌≡◌, sym, ap, ap₂, ◌∙◌, List, [], ◌++◌, append-nil,
  append_assoc, length, replicate, take, drop, drop-drop, ok, >>=_ok, ◌>>◌, write, copy, write_next,
  copy_next, length-append, length-take, length-drop, length-replicate,
}
use aloe.Padding.{Parameters, pad_packet, pad_packets}

-- Packet `j` of the stream.
abbrev pub packet : {A : Type 0} → List A → ℕ → ℕ → List A
packet input len j = take len (drop (j * len) input)

module _ {A : Type 0} (zero_sample : A) (ps : Parameters) (input : List A) (len : ℕ) where
  abbrev pub zeros : ℕ → List A
  zeros n = replicate n zero_sample

  abbrev pub padded_packet : ℕ → List A
  padded_packet j =
      zeros (Parameters.pre_padding ps) ++ packet input len j ++ zeros (Parameters.post_padding ps)

  -- The packets from `j` on, `n` of them.
  abbrev pub padded : ℕ → ℕ → List A
  padded zero j = []
  padded (suc n) j = padded_packet j ++ padded n (j + 1)

  abbrev pub padded_len : ℕ
  padded_len = len + (Parameters.pre_padding ps + Parameters.post_padding ps)

  pub length-packet : (j : ℕ) → j * len + len ≤ length input → length (packet input len j) ≡ len
  length-packet j h =
      omega (arith, length-take len (drop (j * len) input), length-drop (j * len) input)

  pub length-padded_packet :
      (j : ℕ) → j * len + len ≤ length input → length (padded_packet j) ≡ padded_len
  length-padded_packet j h = omega (
    arith,
    length-append (zeros (Parameters.pre_padding ps) ++ packet input len j)
        (zeros (Parameters.post_padding ps)),
    length-append (zeros (Parameters.pre_padding ps)) (packet input len j),
    length-packet j h,
    length-replicate (Parameters.pre_padding ps) zero_sample,
    length-replicate (Parameters.post_padding ps) zero_sample,
  )

  pad_packet_lem :
      (done rest : List A) (j : ℕ)
      → j * padded_len ≡ length done
      → padded_len ≤ length rest
      → j * len + len ≤ length input
      → pad_packet zero_sample ps input len padded_len j (done ++ rest)
        ≡ (ok tt, done ++ padded_packet j ++ drop padded_len rest)
  unfolding pad_packet
  pad_packet_lem done rest j e room inside =
      let pre = Parameters.pre_padding ps in
      let post = Parameters.post_padding ps in
      let at = j * padded_len in
      let body = packet input len j in
      let pre_size : length (zeros pre) ≡ pre = length-replicate pre zero_sample in
      let post_size : length (zeros post) ≡ post = length-replicate post zero_sample in
      let body_size : length body ≡ len = length-packet j inside in
      let done₁ = done ++ zeros pre in
      let done₂ = done₁ ++ body in
      let rest₁ = drop (length (zeros pre)) rest in
      let rest₂ = drop len rest₁ in
      let size₁ : at + pre ≡ length done₁ = omega (arith, length-append done (zeros pre)) in
      let size₂ : at + (pre + len) ≡ length done₂ = omega (arith, length-append done₁ body) in
      let left₁ : length rest₁ ≡ length rest - pre =
        omega (arith, length-drop (length (zeros pre)) rest) in
      let left₂ : length rest₂ ≡ length rest₁ - len = length-drop len rest₁ in
      let first =
        >>=_ok (write at (zeros pre)) (λ _. copy (at + pre) input (j * len) len) (done ++ rest)
          (write_next done (zeros pre) rest at e (omega arith))
          (copy_next done₁ input rest₁ (at + pre) (j * len) len size₁ inside (omega arith)) in
      let second =
        >>=_ok (λ o. (write at (zeros pre) >> copy (at + pre) input (j * len) len) o)
          (λ _. write (at + (pre + len)) (zeros post)) (done ++ rest) first
          (write_next done₂ (zeros post) rest₂ (at + (pre + len)) size₂ (omega arith)) in
      second
      ∙ ap₂ (λ front back. (ok tt, front ++ back))
          (append_assoc done₁ body (zeros post)
            ∙ append_assoc done (zeros pre) (body ++ zeros post)
            ∙ ap (λ l. done ++ l) (sym (append_assoc (zeros pre) body (zeros post))))
          (ap (λ l. drop (length (zeros post)) l)
              (drop-drop len (length (zeros pre)) (pre + len) rest (omega arith))
            ∙ drop-drop (length (zeros post)) (pre + len) padded_len rest (omega arith))

  -- The loop, behind the packets that are done.
  pub pad_packets_lem :
      (n j : ℕ) (done rest : List A)
      → j * padded_len ≡ length done
      → n * padded_len ≤ length rest
      → (j + n) * len ≤ length input
      → pad_packets zero_sample ps input len padded_len n j (done ++ rest)
        ≡ (ok tt, done ++ padded n j ++ drop (n * padded_len) rest)
  unfolding pad_packets
  pad_packets_lem zero j done rest e room inside =
      let none : 0 * padded_len ≡ 0 = omega arith in
      ap₂ (λ l m. (ok tt, l ++ drop m rest)) (sym (append-nil done)) (sym none)
  pad_packets_lem (suc n) j done rest e room inside =
      let total : suc n * padded_len ≡ n * padded_len + padded_len = suc-mul n padded_len in
      let next : (j + 1) * padded_len ≡ j * padded_len + padded_len =
        ground (arith, add-mul j 1 padded_len) in
      let all : (j + suc n) * len ≡ j * len + (n * len + len) = ground arith in
      let moved : (j + 1 + n) * len ≡ (j + suc n) * len =
        ap (λ m. m * len) {x = j + 1 + n} {y = j + suc n} (omega arith) in
      let step = pad_packet_lem done rest j e (omega (arith, total)) (omega (arith, all)) in
      let size : (j + 1) * padded_len ≡ length (done ++ padded_packet j) = omega (
        arith,
        next,
        length-append done (padded_packet j),
        length-padded_packet j (omega (arith, all)),
      ) in
      >>=_ok (pad_packet zero_sample ps input len padded_len j)
        (λ _. pad_packets zero_sample ps input len padded_len n (j + 1)) (done ++ rest) step
        (pad_packets_lem n (j + 1) (done ++ padded_packet j) (drop padded_len rest) size
            (omega (arith, total, length-drop padded_len rest)) (omega (arith, moved))
          ∙ ap₂ (λ front back. (ok tt, front ++ back))
              (append_assoc done (padded_packet j) (padded n (j + 1)))
              (drop-drop (n * padded_len) padded_len (suc n * padded_len) rest
                (omega (arith, total))))
