-- ===== src/Spscq/Ring.antt =====
-- The ring of slots: the indices that go round, and which slots hold which messages.
use aloe.Base.{
  ℕ, ◌+◌, ◌-◌, ◌≤◌, ◌<◌, ◌≡◌, ◌≢◌, ◌∙◌, ap, sym, List, length, get_or, take, arith, ltb,
  if◌then◌else◌,
}
use aloe.Spscq.{Queue, Slot, slot, next}
use aloe.Spscq.Fifo.{Message, no_message}

-- The `k`-th index from `r` on, going round at `m`.
pub around : ℕ → ℕ → ℕ → ℕ
around m r k = if ltb (r + k) m then r + k else r + k - m

pub around-lt : (m r k : ℕ) → r < m → k ≤ m → around m r k < m
unfolding around
around-lt m r k hr hk = ground arith

pub around_ne : (m r i j : ℕ) → r < m → i < m → j < m → i ≢ j → around m r i ≢ around m r j
unfolding around
around_ne m r i j hr hi hj ne = ground arith

pub next-around : (m r k : ℕ) → r < m → k < m → next m (around m r k) ≡ around m r (k + 1)
unfolding around
next-around m r k hr hk = ground arith

pub around-next : (m r k : ℕ) → r < m → k < m → around m (next m r) k ≡ around m r (k + 1)
unfolding around
around-next m r k hr hk = ground arith

pub around_start : (m r : ℕ) → r < m → around m r 0 ≡ r
unfolding around
around_start m r hr = ground arith

pub around_end : (m r : ℕ) → r < m → around m r m ≡ r
unfolding around
around_end m r hr = ground arith

pub next-lt : (m r : ℕ) → r < m → next m r < m
next-lt m r hr = ground arith

abbrev pub nth : Queue → ℕ → ℕ
nth q k = around q.max_msg q.read k

abbrev pub message : List Message → ℕ → Message
message msgs k = get_or msgs k no_message

-- A slot that holds a message.
pub record IsHeld (s : Slot) (m : Message) : Type 0 where
  pub marked : s.valid ≡ 1
  pub due : s.tstamp ≡ m.0
  pub size : s.len ≡ length m.1
  pub content : take s.len s.block ≡ m.1

-- `q` holds `msgs`, oldest first: they fill the slots from `read` on, all others are free.
pub record Holds (q : Queue) (msgs : List Message) : Type 0 where
  pub read_in : q.read < q.max_msg
  pub slots : length q.packets ≡ q.max_msg
  pub bounded : length msgs ≤ q.max_msg
  pub write_at : q.write ≡ nth q (length msgs)
  pub used : (k : ℕ) → k < length msgs → IsHeld (slot q (nth q k)) (message msgs k)
  pub unused : (k : ℕ) → length msgs ≤ k → k < q.max_msg → (slot q (nth q k)).valid ≡ 0
  pub blocks : (i : ℕ) → i < q.max_msg → length (slot q i).block ≡ q.max_msg_sz

module _ {q : Queue} {msgs : List Message} (h : Holds q msgs) where
  pub write_unused : length msgs < q.max_msg → (slot q q.write).valid ≡ 0
  write_unused room =
      ap (λ i. (slot q i).valid) h.write_at ∙ h.unused (length msgs) (omega arith) room

  pub write_used : length msgs ≡ q.max_msg → (slot q q.write).valid ≡ 1
  write_used all =
      ap (λ i. (slot q i).valid)
        (h.write_at
          ∙ ap (nth q) all
          ∙ around_end q.max_msg q.read h.read_in
          ∙ sym (around_start q.max_msg q.read h.read_in))
      ∙ (h.used 0 (omega (arith, h.read_in))).marked

  pub write-lt : q.write < q.max_msg
  write-lt = omega (arith, h.write_at, around-lt q.max_msg q.read (length msgs) h.read_in h.bounded)

  pub read_first : slot q (nth q 0) ≡ slot q q.read
  read_first = ap (slot q) (around_start q.max_msg q.read h.read_in)
