-- ===== src/Spscq/Fifo.antt =====
-- The abstract queue: at most `cap` messages of at most `msg_sz` bytes, in the order in which they
-- were sent, each with the timeslot from which on it can be received.
use aloe.Base.{
  ℕ, ◌==◌, Option, none, some, List, [], ◌∷◌, ◌++◌, length, take, if◌then◌else◌, ltb, leb, add32,
  lt_int,
}
use aloe.Spscq.{Sent, sent, full, large}

-- When a message is due, and its bytes.
abbrev pub Message : Type 0
Message = ℕ × List ℕ

abbrev pub no_message : Message
no_message = (0, [])

module _ (cap msg_sz delay : ℕ) where
  -- An empty message is accepted and dropped.
  abbrev pub send : List ℕ → ℕ → List Message → Sent × List Message
  send bytes now q =
      if ltb msg_sz (length bytes)
      then (large, q)
      else if leb cap (length q)
      then (full, q)
      else if length bytes == 0
      then (sent, q)
      else (sent, q ++ ((add32 now delay, bytes) ∷ []))

-- The oldest message, cut to the receiver's buffer, unless it is not due yet.
abbrev pub recv : ℕ → ℕ → List Message → Option (List ℕ) × List Message
recv len now [] = (none, [])
recv len now ((due, bytes) ∷ q) =
    if lt_int now due then (none, (due, bytes) ∷ q) else (some (take len bytes), q)
