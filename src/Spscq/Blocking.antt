-- ===== src/Spscq/Blocking.antt =====
-- The blocking queue of `rtdal_itfspscq_new` with a delay of -1.
use aloe.Base.{
  ℕ, ◌-◌, ◌≡◌, true, false, some, List, arith, length, lt_int, is_negative, word_mod, [],
}
use aloe.Spscq.{Queue, returns, waits, slot, request, pop}
use aloe.Spscq.Fifo.{Message}
use aloe.Spscq.Ring.{Holds, write_used, read_first}

-- A blocking queue that is full makes the sender wait, and no message is lost.
pub request_blocking :
    (q : Queue) (msgs : List Message)
    → is_negative q.delay ≡ true
    → Holds q msgs
    → length msgs ≡ q.max_msg
    → request q ≡ waits
unfolding request
request_blocking q msgs d h filled = ground (arith, write_used h filled)

-- On a queue with a delay of -1 that holds no message, `rtdal_itfspscq_pop` waits only while the
-- timestamp left in the slot is in the future; otherwise it returns 1, with the slot's old length.
pub pop_empty_blocking :
    (q : Queue) (now tstamp : ℕ)
    → q.delay ≡ word_mod - 1
    → Holds q []
    → lt_int tstamp (slot q q.read).tstamp ≡ false
    → pop now tstamp q ≡ returns (some (q.read, (slot q q.read).len))
unfolding pop
pop_empty_blocking q now tstamp d h late =
    ground (arith, h.unused 0 (omega arith) (omega (arith, h.read_in)), read_first h)
