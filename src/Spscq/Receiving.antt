-- ===== src/Spscq/Receiving.antt =====
-- `rtdal_itfspscq_recv` on a queue that holds given messages.
use aloe.Base.{
  ℕ, suc, ◌<◌, ◌≡◌, ◌≢◌, ◌∙◌, ap, sym, true, false, none, some, List, [], ◌∷◌, length, take, arith,
  length-set, get_or-set_self, get_or-set_ne, is_negative, length-take, take-min, ℕ_discrete,
  lt_int,
}
use aloe.Spscq.{Queue, Slot, returns, slot, null_slot, next, release, recv}
use aloe.Spscq.Fifo.{Message}
use aloe.Spscq.Ring.{
  around, around_ne, around-next, around_start, around_end, next-lt, nth, IsHeld, Holds, read_first,
}

module _ (q : Queue) (len now tstamp : ℕ) (delayed : is_negative q.delay ≡ false) where
  pub recv_empty : Holds q [] → recv len now tstamp q ≡ (returns none, q)
  unfolding recv
  recv_empty h = ground (
    arith,
    h.unused 0 (omega arith) (omega (arith, h.read_in)),
    around_start q.max_msg q.read h.read_in,
  )

module _ (q : Queue) (m : Message) (msgs : List Message) (h : Holds q (m ∷ msgs)) where
  oldest : IsHeld (slot q q.read) m
  oldest = rw (← read_first h) (h.used 0 (omega arith))

  module _ (len now tstamp : ℕ) (delayed : is_negative q.delay ≡ false) where
    pub recv_early : lt_int now m.0 ≡ true → recv len now tstamp q ≡ (returns none, q)
    unfolding recv
    recv_early early = ground (arith, oldest.marked, oldest.due)

    pub recv_taken :
        lt_int now m.0 ≡ false → recv len now tstamp q ≡ (returns (some (take len m.1)), release q)
    unfolding recv
    recv_taken due = ground (
      arith,
      oldest.marked,
      oldest.due,
      oldest.size,
      oldest.content,
      take-min (slot q q.read).len len (slot q q.read).block,
      ap (length {A = ℕ}) oldest.content,
      length-take (slot q q.read).len (slot q q.read).block,
    )

  abbrev freed : Slot
  freed = record (slot q q.read) { valid = 0 }

  freed_there : (i : ℕ) → i ≡ q.read → slot (release q) i ≡ freed
  unfolding release
  freed_there i e =
      ap (slot (release q)) e
      ∙ get_or-set_self q.packets q.read freed null_slot (omega (arith, h.slots, h.read_in))

  freed_elsewhere : (i : ℕ) → q.read ≢ i → slot (release q) i ≡ slot q i
  unfolding release
  freed_elsewhere i ne = get_or-set_ne q.packets q.read i freed null_slot ne

  read_ne : (k : ℕ) → 0 < k → k < q.max_msg → q.read ≢ nth q k
  read_ne k pos hk e =
      around_ne q.max_msg q.read k 0 h.read_in hk (omega arith) (omega arith)
        (sym e ∙ sym (around_start q.max_msg q.read h.read_in))

  nth_after : (k : ℕ) → k < q.max_msg → around q.max_msg (next q.max_msg q.read) k ≡ nth q (suc k)
  nth_after k hk = around-next q.max_msg q.read k h.read_in hk ∙ ap (nth q) (omega arith)

  freed_after :
      (k : ℕ)
      → suc k < q.max_msg
      → slot (release q) (around q.max_msg (next q.max_msg q.read) k) ≡ slot q (nth q (suc k))
  freed_after k hk =
      ap (slot (release q)) (nth_after k (omega arith))
      ∙ freed_elsewhere (nth q (suc k)) (read_ne (suc k) (omega arith) hk)

  freed_last :
      (k : ℕ)
      → suc k ≡ q.max_msg
      → slot (release q) (around q.max_msg (next q.max_msg q.read) k) ≡ freed
  freed_last k e =
      freed_there (around q.max_msg (next q.max_msg q.read) k)
        (nth_after k (omega arith) ∙ ap (nth q) e ∙ around_end q.max_msg q.read h.read_in)

  -- Taking the oldest message moves every other one place forward.
  pub release-Holds : Holds (release q) msgs
  unfolding release
  release-Holds = record {
    read_in = next-lt q.max_msg q.read h.read_in;
    slots = length-set q.packets q.read freed ∙ h.slots;
    bounded = omega (arith, h.bounded);
    write_at =
        h.write_at
        ∙ ap (nth q) (omega arith)
        ∙ sym (around-next q.max_msg q.read (length msgs) h.read_in (omega (arith, h.bounded)));
    used = λ k hk. rw (freed_after k (omega (arith, h.bounded))) (h.used (suc k) (omega arith));
    unused = λ k lo hi. elim (ℕ_discrete (suc k) q.max_msg) [
      | yes e ↦ ap (λ (s : Slot). s.valid) (freed_last k e)
      | no ne ↦
          ap (λ (s : Slot). s.valid) (freed_after k (omega arith))
          ∙ h.unused (suc k) (omega arith) (omega arith)
    ];
    blocks = λ i hi. elim (ℕ_discrete i q.read) [
      | yes e ↦ rw (freed_there i e) (h.blocks q.read h.read_in)
      | no ne ↦ rw (freed_elsewhere i (λ e. ne (sym e))) (h.blocks i hi)
    ];
  }
