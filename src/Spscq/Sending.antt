-- ===== src/Spscq/Sending.antt =====
-- `rtdal_itfspscq_send` on a queue that holds given messages.
use aloe.Base.{
  ℕ, zero, suc, ◌≤◌, ◌<◌, ◌≡◌, ◌≢◌, ◌∙◌, ap, sym, refl, false, none, some, List, [], ◌∷◌, ◌++◌,
  length, set, drop, arith, leb, if◌then◌else◌, length-set, length-append, get_or-set_self,
  get_or-set_ne, take-append_left, is_negative, length-drop, dec_lt, ℕ_discrete, add32,
}
use aloe.Spscq.{
  Queue, Slot, returns, sent, full, large, slot, null_slot, next, request, push, send, fill,
}
use aloe.Spscq.Fifo.{Message}
use aloe.Spscq.Ring.{
  around_ne, next-around, nth, message, IsHeld, Holds, write_unused, write_used, write-lt,
}

-- The writing slot is free exactly when there is room.
request_lem :
    (q : Queue) (msgs : List Message)
    → is_negative q.delay ≡ false
    → Holds q msgs
    → request q ≡ returns (if leb q.max_msg (length msgs) then none else some q.write)
unfolding request
request_lem q msgs d h = elim (dec_lt (length msgs) q.max_msg) [
  | yes room ↦ ground (arith, write_unused h room)
  | no filled ↦ ground (arith, write_used h (omega (arith, h.bounded)))
]

abbrev pub snoc : List Message → Message → List Message
snoc msgs m = msgs ++ (m ∷ [])

message-snoc_before :
    (msgs : List Message) (m : Message) (k : ℕ)
    → k < length msgs
    → message (snoc msgs m) k ≡ message msgs k
message-snoc_before [] m k h = absurd (omega arith)
message-snoc_before (x ∷ xs) m zero h = refl
message-snoc_before (x ∷ xs) m (suc k) h = message-snoc_before xs m k (omega arith)

message-snoc_last :
    (msgs : List Message) (m : Message) (k : ℕ) → k ≡ length msgs → message (snoc msgs m) k ≡ m
message-snoc_last [] m zero e = refl
message-snoc_last [] m (suc k) e = absurd (omega arith)
message-snoc_last (x ∷ xs) m zero e = absurd (omega arith)
message-snoc_last (x ∷ xs) m (suc k) e = message-snoc_last xs m k (omega arith)

module _ (q : Queue) (msgs : List Message) (h : Holds q msgs) (bytes : List ℕ) (now : ℕ) where
  -- The queue once `bytes` have been copied to the writing slot and pushed.
  abbrev pub pushed : Queue
  pushed = push (length bytes) now (fill q.write bytes q)

  abbrev pub due : ℕ
  due = add32 now q.delay

  -- The slot that has been filled.
  abbrev pub filled : Slot
  filled = record (slot q q.write) {
    valid = 1;
    tstamp = due;
    len = length bytes;
    block = bytes ++ drop (length bytes) (slot q q.write).block;
  }

  abbrev pub copied : List Slot
  copied =
      set q.packets q.write
        (record (slot q q.write) { block = bytes ++ drop (length bytes) (slot q q.write).block })

  abbrev pub stored : Queue
  stored = record q { packets = set copied q.write filled; write = next q.max_msg q.write }

  length-copied : length copied ≡ q.max_msg
  length-copied =
      length-set q.packets q.write
        (record (slot q q.write) { block = bytes ++ drop (length bytes) (slot q q.write).block })
      ∙ h.slots

  pub pushed_lem : 0 < length bytes → pushed ≡ stored
  unfolding push
  pushed_lem some_bytes = ground (
    arith,
    get_or-set_self q.packets q.write
        (record (slot q q.write) { block = bytes ++ drop (length bytes) (slot q q.write).block })
        null_slot,
    h.slots,
    write-lt h,
  )

  stored_there : (i : ℕ) → i ≡ q.write → slot stored i ≡ filled
  stored_there i e =
      ap (slot stored) e
      ∙ get_or-set_self copied q.write filled null_slot (omega (arith, length-copied, write-lt h))

  stored_elsewhere : (i : ℕ) → q.write ≢ i → slot stored i ≡ slot q i
  stored_elsewhere i ne =
      get_or-set_ne copied q.write i filled null_slot ne
      ∙ get_or-set_ne q.packets q.write i
          (record (slot q q.write) { block = bytes ++ drop (length bytes) (slot q q.write).block })
          null_slot ne

  module _ (room : length msgs < q.max_msg) (fits : length bytes ≤ q.max_msg_sz) where
    write_ne : (k : ℕ) → k < q.max_msg → k ≢ length msgs → q.write ≢ nth q k
    write_ne k hk ne e =
        around_ne q.max_msg q.read k (length msgs) h.read_in hk room ne (sym e ∙ h.write_at)

    filled-IsHeld : IsHeld filled (due, bytes)
    filled-IsHeld = record {
      marked = refl;
      due = refl;
      size = refl;
      content =
          take-append_left (length bytes) bytes (drop (length bytes) (slot q q.write).block) refl;
    }

    stored_used :
        (k : ℕ)
        → k < length (snoc msgs (due, bytes))
        → IsHeld (slot stored (nth q k)) (message (snoc msgs (due, bytes)) k)
    stored_used k hk = elim (ℕ_discrete k (length msgs)) [
      | yes e ↦
          rw
            (
              stored_there (nth q k) (ap (nth q) e ∙ sym h.write_at),
              message-snoc_last msgs (due, bytes) k e,
            )
            filled-IsHeld
      | no ne ↦
          let before : k < length msgs = omega (arith, length-append msgs ((due, bytes) ∷ [])) in
          rw
            (
              stored_elsewhere (nth q k) (write_ne k (omega arith) ne),
              message-snoc_before msgs (due, bytes) k before,
            )
            (h.used k before)
    ]

    pub stored-Holds : Holds stored (snoc msgs (due, bytes))
    stored-Holds = record {
      read_in = h.read_in;
      slots = length-set copied q.write filled ∙ length-copied;
      bounded = omega (arith, length-append msgs ((due, bytes) ∷ []));
      write_at =
          ap (next q.max_msg) h.write_at
          ∙ next-around q.max_msg q.read (length msgs) h.read_in room
          ∙ ap (nth q) (omega (arith, length-append msgs ((due, bytes) ∷ [])));
      used = stored_used;
      unused = λ k lo hi.
          ap (λ (s : Slot). s.valid)
            (stored_elsewhere (nth q k)
              (write_ne k hi (omega (arith, length-append msgs ((due, bytes) ∷ [])))))
          ∙ h.unused k (omega (arith, length-append msgs ((due, bytes) ∷ []))) hi;
      blocks = λ i hi. elim (ℕ_discrete i q.write) [
        | yes e ↦ rw (stored_there i e) (
            omega (
              arith,
              length-append bytes (drop (length bytes) (slot q q.write).block),
              length-drop (length bytes) (slot q q.write).block,
              h.blocks q.write (write-lt h),
            ))
        | no ne ↦ rw (stored_elsewhere i (λ e. ne (sym e))) (h.blocks i hi)
      ];
    }

module _ (q : Queue) (msgs : List Message) (bytes : List ℕ) (now : ℕ)
    (delayed : is_negative q.delay ≡ false) (h : Holds q msgs) where
  pub send_large : q.max_msg_sz < length bytes → send bytes now q ≡ (returns large, q)
  unfolding send
  send_large big = ground arith

  pub send_full :
      length bytes ≤ q.max_msg_sz → q.max_msg ≤ length msgs → send bytes now q ≡ (returns full, q)
  unfolding send
  send_full fits filled = ground (arith, request_lem q msgs delayed h)

  pub send_stored :
      length bytes ≤ q.max_msg_sz
      → length msgs < q.max_msg
      → send bytes now q ≡ (returns sent, push (length bytes) now (fill q.write bytes q))
  unfolding send
  send_stored fits room =
      ground (arith, request_lem q msgs delayed h, h.blocks q.write (write-lt h))
