-- ===== src/Spscq/Tests.antt =====
-- The queue at concrete sizes.
use aloe.Base.{◌≡◌, ◌-◌, refl, none, some, List, [], ◌∷◌, arith, word_mod}
use aloe.Spscq.{Queue, returns, sent, full, large, new, send, recv, pop, slot}
use aloe.Spscq.Fifo
use aloe.Spscq.Ring.{Holds}
use aloe.Spscq.Refine.{Matches, send_refines, recv_refines}
use aloe.Spscq.Delivery.{recv-send}
use aloe.Spscq.Runs.{
  Op, sends, receives, Seen, of_send, of_recv, run, fifo_run, run_refines, new-Holds,
}
use aloe.Spscq.Blocking.{pop_empty_blocking}

-- Two messages of four bytes, one timeslot of delay.
abbrev two_slots : Queue
two_slots = new 2 4 1

two_slots-Holds : Holds two_slots []
unfolding new
two_slots-Holds = new-Holds 2 4 1 (omega arith)

abbrev calls : List Op
calls =
    sends (7 ∷ 8 ∷ []) 5
    ∷ receives 4 5 5
    ∷ sends (9 ∷ []) 5
    ∷ sends (1 ∷ []) 6
    ∷ receives 1 6 6
    ∷ sends (1 ∷ 2 ∷ 3 ∷ 4 ∷ 5 ∷ []) 6
    ∷ receives 4 6 6
    ∷ receives 4 6 6
    ∷ []

abbrev seen : List Seen
seen =
    of_send (returns sent)
    ∷ of_recv (returns none)
    ∷ of_send (returns sent)
    ∷ of_send (returns full)
    ∷ of_recv (returns (some (7 ∷ [])))
    ∷ of_send (returns large)
    ∷ of_recv (returns (some (9 ∷ [])))
    ∷ of_recv (returns none)
    ∷ []

run_two_slots : (run calls two_slots).0 ≡ seen
unfolding new send recv
run_two_slots = refl

run_refines_example :
    ((run calls two_slots).0 ≡ (fifo_run 2 4 1 calls []).0)
    × Holds (run calls two_slots).1 (fifo_run 2 4 1 calls []).1
unfolding new
run_refines_example = run_refines calls two_slots [] 2 4 1 refl refl refl refl two_slots-Holds

send_refines_example :
    Matches two_slots (send (7 ∷ 8 ∷ []) 5 two_slots) (Fifo.send 2 4 1 (7 ∷ 8 ∷ []) 5 [])
unfolding new
send_refines_example = send_refines two_slots [] refl two_slots-Holds (7 ∷ 8 ∷ []) 5

abbrev one_sent : Queue
one_sent = (send (7 ∷ 8 ∷ []) 5 two_slots).1

one_sent-Holds : Holds one_sent ((6, 7 ∷ 8 ∷ []) ∷ [])
unfolding new
one_sent-Holds = (send_refines two_slots [] refl two_slots-Holds (7 ∷ 8 ∷ []) 5).holds

recv_refines_example : Matches one_sent (recv 1 6 6 one_sent) (Fifo.recv 1 6 ((6, 7 ∷ 8 ∷ []) ∷ []))
unfolding new send
recv_refines_example = recv_refines one_sent ((6, 7 ∷ 8 ∷ []) ∷ []) refl one_sent-Holds 1 6 6

-- A second message, and both at the slot in which they are due.
recv-send_example :
    ((send (9 ∷ []) 5 one_sent).0 ≡ returns sent)
    × ((run (receives 4 6 6 ∷ receives 4 6 6 ∷ []) (send (9 ∷ []) 5 one_sent).1).0
        ≡ of_recv (returns (some (7 ∷ 8 ∷ []))) ∷ of_recv (returns (some (9 ∷ []))) ∷ [])
    × Holds (run (receives 4 6 6 ∷ receives 4 6 6 ∷ []) (send (9 ∷ []) 5 one_sent).1).1 []
unfolding new send
recv-send_example =
    recv-send one_sent ((6, 7 ∷ 8 ∷ []) ∷ []) refl one_sent-Holds (9 ∷ []) 5 4 6 6 (omega arith)
      (omega arith) (omega arith) (refl, tt) refl

abbrev blocking : Queue
blocking = new 2 4 (word_mod - 1)

blocking-Holds : Holds blocking []
unfolding new
blocking-Holds = new-Holds 2 4 (word_mod - 1) (omega arith)

pop_empty_blocking_example :
    pop 9 9 blocking ≡ returns (some (blocking.read, (slot blocking blocking.read).len))
unfolding new
pop_empty_blocking_example = pop_empty_blocking blocking 9 9 refl blocking-Holds refl
