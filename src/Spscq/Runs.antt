-- ===== src/Spscq/Runs.antt =====
-- Sequences of calls of `rtdal_itfspscq_send` and `rtdal_itfspscq_recv`, in any order, on a queue
-- with a delay of 0 or more.
use aloe.Base.{
  ℕ, zero, suc, ◌<◌, ◌≡◌, ◌∙◌, ap, sym, refl, false, Option, List, [], ◌∷◌, length, get_or, map,
  replicate, arith, is_negative, length-replicate, length-map,
}
use aloe.Spscq.{Queue, Slot, Reply, returns, Sent, null_slot, new, reset, send, recv}
use aloe.Spscq.Fifo
use aloe.Spscq.Fifo.{Message}
use aloe.Spscq.Ring.{Holds, around, around-lt, around_start}
use aloe.Spscq.Refine.{send_refines, recv_refines}

-- One call, with the timeslot in which it is made.
pub data Op : Type 0 where
  sends : List ℕ → ℕ → Op
  receives : ℕ → ℕ → ℕ → Op

-- What the call returns.
pub data Seen : Type 0 where
  of_send : Reply Sent → Seen
  of_recv : Reply (Option (List ℕ)) → Seen

abbrev pub step : Op → Queue → Seen × Queue
step (sends bytes now) q = (of_send (send bytes now q).0, (send bytes now q).1)
step (receives len now tstamp) q = (of_recv (recv len now tstamp q).0, (recv len now tstamp q).1)

abbrev pub run : List Op → Queue → List Seen × Queue
run [] q = ([], q)
run (op ∷ ops) q = let s = step op q in let rest = run ops s.1 in (s.0 ∷ rest.0, rest.1)

module _ (cap msg_sz delay : ℕ) where
  abbrev pub fifo_step : Op → List Message → Seen × List Message
  fifo_step (sends bytes now) msgs =
      let s = Fifo.send cap msg_sz delay bytes now msgs in (of_send (returns s.0), s.1)
  fifo_step (receives len now tstamp) msgs =
      let s = Fifo.recv len now msgs in (of_recv (returns s.0), s.1)

  abbrev pub fifo_run : List Op → List Message → List Seen × List Message
  fifo_run [] msgs = ([], msgs)
  fifo_run (op ∷ ops) msgs =
      let s = fifo_step op msgs in let rest = fifo_run ops s.1 in (s.0 ∷ rest.0, rest.1)

-- The queue after some calls on it, against the abstract queue.
record Follows (cap msg_sz delay : ℕ) (r : Seen × Queue) (s : Seen × List Message) : Type 0 where
  same_seen : r.0 ≡ s.0
  holds : Holds r.1 s.1
  cap_at : r.1.max_msg ≡ cap
  size_at : r.1.max_msg_sz ≡ msg_sz
  delay_at : r.1.delay ≡ delay

step_refines :
    (op : Op) (q : Queue) (msgs : List Message)
    → is_negative q.delay ≡ false
    → Holds q msgs
    → Follows q.max_msg q.max_msg_sz q.delay
        (step op q)
        (fifo_step q.max_msg q.max_msg_sz q.delay op msgs)
step_refines (sends bytes now) q msgs d h =
    let m = send_refines q msgs d h bytes now in
    record {
      same_seen = ap of_send m.same_result;
      holds = m.holds;
      cap_at = m.same_cap;
      size_at = m.same_size;
      delay_at = m.same_delay;
    }
step_refines (receives len now tstamp) q msgs d h =
    let m = recv_refines q msgs d h len now tstamp in
    record {
      same_seen = ap of_recv m.same_result;
      holds = m.holds;
      cap_at = m.same_cap;
      size_at = m.same_size;
      delay_at = m.same_delay;
    }

-- Every run of calls returns what the abstract queue returns, call by call, and leaves the ring
-- holding what that queue holds.
pub run_refines :
    (ops : List Op) (q : Queue) (msgs : List Message) (cap msg_sz delay : ℕ)
    → q.max_msg ≡ cap
    → q.max_msg_sz ≡ msg_sz
    → q.delay ≡ delay
    → is_negative delay ≡ false
    → Holds q msgs
    → ((run ops q).0 ≡ (fifo_run cap msg_sz delay ops msgs).0)
      × Holds (run ops q).1 (fifo_run cap msg_sz delay ops msgs).1
run_refines [] q msgs cap msg_sz delay ec es ed d h = (refl, h)
run_refines (op ∷ ops) q msgs cap msg_sz delay ec es ed d h =
    let m : Follows cap msg_sz delay (step op q) (fifo_step cap msg_sz delay op msgs) =
      rw (← ec, ← es, ← ed) (step_refines op q msgs (ap is_negative ed ∙ d) h) in
    let rest =
      run_refines ops (step op q).1 (fifo_step cap msg_sz delay op msgs).1 cap msg_sz delay m.cap_at
        m.size_at m.delay_at d m.holds in
    (rw (m.same_seen, rest.0) refl, rest.1)

get_or-replicate : {A : Type 0} (n i : ℕ) (a b : A) → i < n → get_or (replicate n a) i b ≡ a
get_or-replicate zero i a b h = absurd (omega arith)
get_or-replicate (suc n) zero a b h = refl
get_or-replicate (suc n) (suc i) a b h = get_or-replicate n i a b (omega arith)

get_or-map :
    {A B : Type 0} (f : A → B) (xs : List A) (i : ℕ) (a : A) (b : B)
    → i < length xs
    → get_or (map f xs) i b ≡ f (get_or xs i a)
get_or-map f [] i a b h = absurd (omega arith)
get_or-map f (x ∷ xs) zero a b h = refl
get_or-map f (x ∷ xs) (suc i) a b h = get_or-map f xs i a b (omega arith)

-- A new queue is empty, with all blocks of the size asked for.
pub new-Holds : (max_msg msg_sz delay : ℕ) → 0 < max_msg → Holds (new max_msg msg_sz delay) []
unfolding new
new-Holds max_msg msg_sz delay pos = record {
  read_in = pos;
  slots = length-replicate max_msg (record null_slot { block = replicate msg_sz 0 });
  bounded = omega arith;
  write_at = sym (around_start max_msg 0 pos);
  used = λ k hk. absurd (omega arith);
  unused = λ k lo hi.
      ap (λ (s : Slot). s.valid)
        (get_or-replicate max_msg (around max_msg 0 k)
          (record null_slot { block = replicate msg_sz 0 }) null_slot
          (around-lt max_msg 0 k pos (omega arith)));
  blocks = λ i hi.
      ap (λ (s : Slot). length s.block)
        (get_or-replicate max_msg i (record null_slot { block = replicate msg_sz 0 }) null_slot hi)
      ∙ length-replicate msg_sz 0;
}

-- A queue that is reset is empty, whatever it held.
reset-Holds : (q : Queue) (msgs : List Message) → Holds q msgs → Holds (reset q) []
unfolding reset
reset-Holds q msgs h = record {
  read_in = pos;
  slots = length-map {A = Slot} (λ s. record s { valid = 0 }) q.packets ∙ h.slots;
  bounded = omega arith;
  write_at = sym (around_start q.max_msg 0 pos);
  used = λ k hk. absurd (omega arith);
  unused = λ k lo hi.
      ap (λ (s : Slot). s.valid)
        (get_or-map {A = Slot} (λ s. record s { valid = 0 }) q.packets (around q.max_msg 0 k)
          null_slot null_slot (omega (arith, h.slots, around-lt q.max_msg 0 k pos (omega arith))));
  blocks = λ i hi.
      ap (λ (s : Slot). length s.block)
        (get_or-map {A = Slot} (λ s. record s { valid = 0 }) q.packets i null_slot null_slot
          (omega (arith, h.slots)))
      ∙ h.blocks i hi;
}
  where
    pos : 0 < q.max_msg
    pos = omega (arith, h.read_in)
