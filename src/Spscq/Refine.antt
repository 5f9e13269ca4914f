-- ===== src/Spscq/Refine.antt =====
-- A queue with a delay of 0 or more behaves as the abstract queue of its messages.
use aloe.Base.{
  ℕ, ◌≤◌, ◌<◌, ◌≡◌, ap, refl, false, List, [], ◌∷◌, ◌++◌, length, arith, lt→ltb, le→ltb, lt→leb,
  le→leb, is_negative, inl, inr, Bool-cases, dec_lt, dec_le, set-get_or, lt_int, add32,
  if◌then◌else◌, ◌==◌,
}
use aloe.Spscq.{Queue, Reply, returns, sent, null_slot, push, release, send, recv, fill}
use aloe.Spscq.Fifo
use aloe.Spscq.Fifo.{Message}
use aloe.Spscq.Ring.{Holds}
use aloe.Spscq.Sending.{send_large, send_full, send_stored, pushed_lem, stored-Holds}
use aloe.Spscq.Receiving.{recv_empty, recv_early, recv_taken, release-Holds}

-- What a call returns and the messages that it leaves, against the abstract call.
pub record Matches (q : Queue) {A : Type 0} (r : Reply A × Queue) (s : A × List Message)
    : Type 0 where
  pub same_result : r.0 ≡ returns s.0
  pub holds : Holds r.1 s.1
  pub same_cap : r.1.max_msg ≡ q.max_msg
  pub same_size : r.1.max_msg_sz ≡ q.max_msg_sz
  pub same_delay : r.1.delay ≡ q.delay

module _ (q : Queue) (msgs : List Message) (delayed : is_negative q.delay ≡ false)
    (h : Holds q msgs) where
  push_nothing : (now : ℕ) → push 0 now (fill q.write [] q) ≡ q
  unfolding push
  push_nothing now = ap (λ ps. record q { packets = ps }) (set-get_or q.packets q.write null_slot)

  some_bytes : (x : ℕ) (xs : List ℕ) → (length (x ∷ xs) == 0) ≡ false
  some_bytes x xs = ground arith

  stored_case :
      (bytes : List ℕ) (now : ℕ)
      → length bytes ≤ q.max_msg_sz
      → length msgs < q.max_msg
      → Matches q
          (returns sent, push (length bytes) now (fill q.write bytes q))
          (if length bytes == 0
            then (sent, msgs)
            else (sent, msgs ++ ((add32 now q.delay, bytes) ∷ [])))
  stored_case [] now fits room = rw (push_nothing now) (record {
    same_result = refl;
    holds = h;
    same_cap = refl;
    same_size = refl;
    same_delay = refl;
  })
  stored_case (x ∷ xs) now fits room =
      rw (some_bytes x xs, pushed_lem q msgs h (x ∷ xs) now (omega arith))
        (record {
          same_result = refl;
          holds = stored-Holds q msgs h (x ∷ xs) now room fits;
          same_cap = refl;
          same_size = refl;
          same_delay = refl;
        })

  -- `rtdal_itfspscq_send` returns what the abstract queue returns, and leaves the ring holding what
  -- that queue holds: too long, full, empty message, or stored.
  pub send_refines :
      (bytes : List ℕ) (now : ℕ)
      → Matches q (send bytes now q) (Fifo.send q.max_msg q.max_msg_sz q.delay bytes now msgs)
  send_refines bytes now = elim (dec_lt q.max_msg_sz (length bytes)) [
    | yes big ↦
        rw (send_large q msgs bytes now delayed h big, lt→ltb _ _ big)
          (record {
            same_result = refl;
            holds = h;
            same_cap = refl;
            same_size = refl;
            same_delay = refl;
          })
    | no fits ↦ elim (dec_le q.max_msg (length msgs)) [
      | yes filled ↦
          rw
            (
              send_full q msgs bytes now delayed h (omega arith) filled,
              le→ltb _ _ (fits_le fits),
              le→leb _ _ filled,
            )
            (record {
              same_result = refl;
              holds = h;
              same_cap = refl;
              same_size = refl;
              same_delay = refl;
            })
      | no room ↦
          rw
            (
              send_stored q msgs bytes now delayed h (omega arith) (omega arith),
              le→ltb _ _ (fits_le fits),
              lt→leb _ _ (room_lt room),
            )
            (stored_case bytes now (omega arith) (omega arith))
    ]
  ]
    where
      fits_le : ¬ (q.max_msg_sz < length bytes) → length bytes ≤ q.max_msg_sz
      fits_le f = omega arith

      room_lt : ¬ (q.max_msg ≤ length msgs) → length msgs < q.max_msg
      room_lt f = omega arith

-- `rtdal_itfspscq_recv` returns the oldest message that is due, cut to the buffer, and nothing
-- else, and frees its slot.
pub recv_refines :
    (q : Queue) (msgs : List Message)
    → is_negative q.delay ≡ false
    → Holds q msgs
    → (len now tstamp : ℕ) → Matches q (recv len now tstamp q) (Fifo.recv len now msgs)
unfolding release
recv_refines q [] delayed h len now tstamp =
    rw (recv_empty q len now tstamp delayed h) (record {
      same_result = refl;
      holds = h;
      same_cap = refl;
      same_size = refl;
      same_delay = refl;
    })
recv_refines q ((at, bytes) ∷ msgs) delayed h len now tstamp = elim (Bool-cases (lt_int now at)) [
  | inl early ↦
      rw (recv_early q (at, bytes) msgs h len now tstamp delayed early, early)
        (record {
          same_result = refl;
          holds = h;
          same_cap = refl;
          same_size = refl;
          same_delay = refl;
        })
  | inr late ↦
      rw (recv_taken q (at, bytes) msgs h len now tstamp delayed late, late)
        (record {
          same_result = refl;
          holds = release-Holds q (at, bytes) msgs h;
          same_cap = refl;
          same_size = refl;
          same_delay = refl;
        })
]
