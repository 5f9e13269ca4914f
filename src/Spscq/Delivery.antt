-- ===== src/Spscq/Delivery.antt =====
-- A message that is sent is received: what receiving, once it is due, comes to.
use aloe.Base.{
  arith, le→ltb, lt→leb, ◌==◌, ℕ, suc, ◌≤◌, ◌<◌, ◌≡◌, refl, sym, ap, ◌∙◌, false, List, [], ◌∷◌,
  ◌++◌, All, map, length, length-append, take, replicate, some, is_negative, lt_int, add32,
}
use mathlib.Core.Path.{subst}
use aloe.Spscq.{Queue, returns, Sent, sent, send}
use aloe.Spscq.Fifo
use aloe.Spscq.Fifo.{Message}
use aloe.Spscq.Ring.{Holds}
use aloe.Spscq.Refine.{Matches, send_refines}
use aloe.Spscq.Runs.{receives, Seen, of_recv, run, fifo_run, run_refines}

-- A message that can be received in the slot.
abbrev pub IsDue : ℕ → Message → Type 0
IsDue now m = lt_int now m.0 ≡ false

-- What a receiver with a buffer of `len` bytes sees.
abbrev pub received : ℕ → List Message → List Seen
received len msgs = map (λ m. of_recv (returns (some (take len m.1)))) msgs

fifo_drain :
    (cap msg_sz delay len now tstamp : ℕ) (msgs : List Message)
    → All (IsDue now) msgs
    → fifo_run cap msg_sz delay (replicate (length msgs) (receives len now tstamp)) msgs
      ≡ (received len msgs, [])
fifo_drain cap msg_sz delay len now tstamp [] due = refl
fifo_drain cap msg_sz delay len now tstamp (m ∷ msgs) (here, due) = rw here (
    ap (λ r. (of_recv (returns (some (take len m.1))) ∷ r.0, r.1))
      (fifo_drain cap msg_sz delay len now tstamp msgs due))

fifo_send_stored :
    (cap msg_sz delay now : ℕ) (bytes : List ℕ) (msgs : List Message)
    → 1 ≤ length bytes
    → length bytes ≤ msg_sz
    → length msgs < cap
    → Fifo.send cap msg_sz delay bytes now msgs ≡ (sent, msgs ++ (add32 now delay, bytes) ∷ [])
fifo_send_stored cap msg_sz delay now bytes msgs pos fits room =
    let some_bytes : (length bytes == 0) ≡ false = ground arith in
    rw (le→ltb msg_sz (length bytes) fits, lt→leb cap (length msgs) room, some_bytes) refl

All-append :
    (now : ℕ) (msgs : List Message) (m : Message)
    → All (IsDue now) msgs
    → IsDue now m
    → All (IsDue now) (msgs ++ m ∷ [])
All-append now [] m due last = (last, tt)
All-append now (x ∷ msgs) m (here, due) last = (here, All-append now msgs m due last)

module _ (q : Queue) (msgs : List Message) (delayed : is_negative q.delay ≡ false)
    (h : Holds q msgs) where
  -- On a queue with a delay of 0 or more that holds `msgs` and has room for one more, a message of 1
  -- to `max_msg_sz` bytes is sent; and as soon as it and the messages before it are due, as many
  -- receives as there are messages return them all, in the order in which they were sent, each cut to
  -- the receiver's buffer, the new one last, and leave the queue empty.
  pub recv-send :
      (bytes : List ℕ) (now len later tstamp : ℕ)
      → 1 ≤ length bytes
      → length bytes ≤ q.max_msg_sz
      → length msgs < q.max_msg
      → All (IsDue later) msgs
      → IsDue later (add32 now q.delay, bytes)
      → ((send bytes now q).0 ≡ returns sent)
        × (run (replicate (suc (length msgs)) (receives len later tstamp)) (send bytes now q).1).0
          ≡ received len (msgs ++ (add32 now q.delay, bytes) ∷ [])
        × Holds
            (run (replicate (suc (length msgs)) (receives len later tstamp)) (send bytes now q).1).1
            []
  recv-send bytes now len later tstamp pos fits room due last =
      let kept = msgs ++ (add32 now q.delay, bytes) ∷ [] in
      let ops = replicate (suc (length msgs)) (receives len later tstamp) in
      let m : Matches q (send bytes now q)
          (Fifo.send q.max_msg q.max_msg_sz q.delay bytes now msgs) =
        send_refines q msgs delayed h bytes now in
      let stored : Fifo.send q.max_msg q.max_msg_sz q.delay bytes now msgs ≡ (sent, kept) =
        fifo_send_stored q.max_msg q.max_msg_sz q.delay now bytes msgs pos fits room in
      let held : Holds (send bytes now q).1 kept =
        subst (λ (s : Sent × List Message). Holds (send bytes now q).1 s.1) stored m.holds in
      let count : length kept ≡ suc (length msgs) =
        omega (arith, length-append msgs ((add32 now q.delay, bytes) ∷ [])) in
      let drained : fifo_run q.max_msg q.max_msg_sz q.delay ops kept ≡ (received len kept, []) =
        ap
          (λ n.
            fifo_run q.max_msg q.max_msg_sz q.delay (replicate n (receives len later tstamp)) kept)
          (sym count)
        ∙ fifo_drain q.max_msg q.max_msg_sz q.delay len later tstamp kept
            (All-append later msgs (add32 now q.delay, bytes) due last) in
      let seen =
        run_refines ops (send bytes now q).1 kept q.max_msg q.max_msg_sz q.delay m.same_cap
          m.same_size m.same_delay delayed held in
      (
        m.same_result ∙ ap (λ (s : Sent × List Message). returns s.0) stored,
        seen.0 ∙ ap (λ (r : List Seen × List Message). r.0) drained,
        subst (λ (r : List Seen × List Message). Holds (run ops (send bytes now q).1).1 r.1) drained
            seen.1,
      )
