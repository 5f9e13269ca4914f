-- ===== src/Padding/Roundtrip.antt =====
-- A stream that one gen_padding pads and another takes the padding off again.
use native.Mathlib.Nat.{suc-mul, add-mul}
use aloe.Base.{
  arith, ℕ, zero, suc, ◌+◌, ◌*◌, ◌≤◌, ◌≡◌, sym, ap, ap₂, ◌∙◌, Bool, List, [], ◌++◌, append-nil,
  append_assoc, length, take, drop, drop-drop, ok, >>=_ok, copy, copy_next, length-append,
  length-drop, length-replicate, take_add, take-append_left, drop-append_left,
}
use aloe.Padding.{Parameters, unpad_packets}
use aloe.Padding.Packets.{
  packet, zeros, padded_packet, padded, padded_len, length-packet, length-padded_packet,
}

module _ {A : Type 0} (zero_sample : A) (ps : Parameters) (input : List A) (len : ℕ) where
  -- The packets from `j` on, `n` of them, without padding.
  abbrev pub plain : ℕ → ℕ → List A
  plain zero j = []
  plain (suc n) j = packet input len j ++ plain n (j + 1)

  pub plain-take : (n j : ℕ) → plain n j ≡ take (n * len) (drop (j * len) input)
  plain-take zero j =
      let none : 0 ≡ 0 * len = omega arith in ap (λ m. take m (drop (j * len) input)) none
  plain-take (suc n) j =
      let total : suc n * len ≡ len + n * len = omega (arith, suc-mul n len) in
      let next : (j + 1) * len ≡ len + j * len = ground (arith, add-mul j 1 len) in
      ap (λ l. packet input len j ++ l)
        (plain-take n (j + 1)
          ∙ ap (take (n * len)) (sym (drop-drop len (j * len) ((j + 1) * len) input next)))
      ∙ sym (take_add len (n * len) (suc n * len) (drop (j * len) input) total)

  -- Packet `j` stands behind its zeros.
  packet_at :
      (before more behind : List A) (j at : ℕ)
      → at ≡ length before + Parameters.pre_padding ps
      → j * len + len ≤ length input
      → take len (drop at (before ++ (padded_packet zero_sample ps input len j ++ more) ++ behind))
        ≡ packet input len j
  packet_at before more behind j at e inside =
      let pre = zeros zero_sample ps input len (Parameters.pre_padding ps) in
      let post = zeros zero_sample ps input len (Parameters.post_padding ps) in
      let body = packet input len j in
      let form : before ++ (pre ++ body ++ post ++ more) ++ behind
          ≡ (before ++ pre) ++ (body ++ (post ++ more ++ behind)) =
        simp append_assoc in
      ap (λ l. take len (drop at l)) form
      ∙ ap (take len) (
          drop-append_left at (before ++ pre) (body ++ (post ++ more ++ behind)) (
            omega (
              arith,
              length-append before pre,
              length-replicate (Parameters.pre_padding ps) zero_sample,
            )))
      ∙ take-append_left len body (post ++ more ++ behind)
          (sym (length-packet zero_sample ps input len j inside))

  abbrev pub stream : List A → ℕ → ℕ → List A → List A
  stream before n j behind = before ++ padded zero_sample ps input len n j ++ behind

  -- The loop that takes the padding off, on what the other loop wrote.
  pub unpad_packets_lem :
      (direction : Bool) (n j : ℕ) (before behind done rest : List A)
      → j * padded_len zero_sample ps input len ≡ length before
      → j * len ≡ length done
      → n * len ≤ length rest
      → (j + n) * len ≤ length input
      → unpad_packets zero_sample
          (record ps { direction = direction })
          (stream before n j behind)
          (padded_len zero_sample ps input len)
          len
          n
          j
          (done ++ rest)
        ≡ (ok tt, done ++ plain n j ++ drop (n * len) rest)
  unfolding unpad_packets
  unpad_packets_lem direction zero j before behind done rest e d room inside =
      let none : 0 * len ≡ 0 = omega arith in
      ap₂ (λ l m. (ok tt, l ++ drop m rest)) (sym (append-nil done)) (sym none)
  unpad_packets_lem direction (suc n) j before behind done rest e d room inside =
      let wide = padded_len zero_sample ps input len in
      let mode = record ps { direction = direction } in
      let front = padded_packet zero_sample ps input len j in
      let more = padded zero_sample ps input len n (j + 1) in
      let source = before ++ (front ++ more) ++ behind in
      let all : (j + suc n) * len ≡ j * len + (n * len + len) = ground arith in
      let moved : (j + 1 + n) * len ≡ (j + suc n) * len =
        ap (λ m. m * len) {x = j + 1 + n} {y = j + suc n} (omega arith) in
      let next : (j + 1) * wide ≡ j * wide + wide = ground (arith, add-mul j 1 wide) in
      let next_plain : (j + 1) * len ≡ j * len + len = ground (arith, add-mul j 1 len) in
      let total : suc n * len ≡ n * len + len = suc-mul n len in
      let front_size : length front ≡ wide =
        length-padded_packet zero_sample ps input len j (omega (arith, all)) in
      let source_size : length source ≡ length before + wide + length more + length behind = omega (
        arith,
        length-append (before ++ (front ++ more)) behind,
        length-append before (front ++ more),
        length-append front more,
      ) in
      let at = j * wide + Parameters.pre_padding ps in
      let body : take len (drop at source) ≡ packet input len j =
        packet_at before more behind j at (omega arith) (omega (arith, all)) in
      let step : copy (j * len) source at len (done ++ rest)
          ≡ (ok tt, done ++ packet input len j ++ drop len rest) =
        copy_next done source rest (j * len) at len d (omega (arith, source_size))
          (omega (arith, total))
        ∙ ap (λ l. (ok tt, done ++ l ++ drop len rest)) body in
      let source_is : source ≡ stream (before ++ front) n (j + 1) behind =
        ap (λ l. l ++ behind) (sym (append_assoc before front more)) in
      >>=_ok (copy (j * len) source at len)
        (λ _. unpad_packets zero_sample mode source wide len n (j + 1)) (done ++ rest) step
        (ap
            (λ l.
              unpad_packets zero_sample mode l wide len n (j + 1)
                (done ++ packet input len j ++ drop len rest))
            source_is
          ∙ unpad_packets_lem direction n (j + 1) (before ++ front) behind
              (done ++ packet input len j) (drop len rest)
              (omega (arith, next, length-append before front))
              (omega (
                arith,
                next_plain,
                length-append done (packet input len j),
                length-packet zero_sample ps input len j (omega (arith, all)),
              ))
              (omega (arith, total, length-drop len rest)) (omega (arith, moved))
          ∙ ap₂ (λ a b. (ok tt, a ++ b)) (append_assoc done (packet input len j) (plain n (j + 1)))
              (drop-drop (n * len) len (suc n * len) rest (omega (arith, total))))
