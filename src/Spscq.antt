-- ===== src/Spscq.antt =====
-- rtdal_lnx/src/rtdal_itfspscq.c: the queue between two modules, with one producer and one
-- consumer. The message buffers are the blocks of the slots, and the pointer that `request` and
-- `pop` hand out is the slot's index. The semaphores of a blocking queue appear as `waits`: the
-- call does not return until the other side has moved. `rtdal_time_slot()` is the argument `now`.
pub mod Fifo
pub mod Ring
pub mod Sending
pub mod Receiving
pub mod Refine
pub mod Runs
pub mod Delivery
pub mod Blocking
mod Tests
use aloe.Base.{
  ℕ, ◌+◌, ◌-◌, ◌==◌, Bool, true, false, not, ◌&&◌, ◌||◌, Option, none, some, List, ◌++◌, length,
  get_or, set, take, drop, map, replicate, if◌then◌else◌, ltb, leb, add32, lt_int, is_negative,
  word_mod, min,
}

-- `r_pkt_t`; `block` is what `data` points to.
pub record Slot : Type 0 where
  pub valid : ℕ
  pub tstamp : ℕ
  pub len : ℕ
  pub block : List ℕ

-- `rtdal_itfspscq_t`
pub record Queue : Type 0 where
  pub delay : ℕ
  pub max_msg : ℕ
  pub max_msg_sz : ℕ
  pub read : ℕ
  pub write : ℕ
  pub packets : List Slot

-- How a call ends: it returns, it blocks on a semaphore, or it touches memory out of range.
pub data Reply (A : Type 0) : Type 0 where
  returns : A → Reply A
  waits faults : Reply A

abbrev pub null_slot : Slot
null_slot = record { valid = 0; tstamp = 0; len = 0; block = replicate 0 0 }

-- `itf->packets[i]`
abbrev pub slot : Queue → ℕ → Slot
slot q i = get_or q.packets i null_slot

-- -2, the delay of a queue that polls.
abbrev pub polling : ℕ
polling = word_mod - 2

-- `rtdal_itfspscq_new`, once `malloc`, `posix_memalign` and `calloc` have found memory.
pub new : ℕ → ℕ → ℕ → Queue
new max_msg msg_sz delay = record {
  delay = delay;
  max_msg = max_msg;
  max_msg_sz = msg_sz;
  read = 0;
  write = 0;
  packets = replicate max_msg (record null_slot { block = replicate msg_sz 0 });
}

pub reset : Queue → Queue
reset q = record q {
  read = 0;
  write = 0;
  packets = map {A = Slot} (λ s. record s { valid = 0 }) q.packets;
}

-- `read += (read+1 >= max_msg) ? (1-max_msg) : 1`, and the same for `write`.
abbrev pub next : ℕ → ℕ → ℕ
next max_msg i = if leb max_msg (i + 1) then i + 1 - max_msg else i + 1

-- `spscq_is_empty`
pub is_empty : Queue → ℕ → Reply Bool
is_empty q tstamp =
    if not (is_negative q.delay) || (q.delay == polling)
    then returns ((slot q q.read).valid == 0)
    else if ((slot q q.read).valid == 0) && lt_int tstamp (slot q q.read).tstamp
    then waits
    else returns false

-- `spscq_is_full`
pub is_full : Queue → Reply Bool
is_full q =
    if not (is_negative q.delay)
    then returns (not ((slot q q.write).valid == 0))
    else if not ((slot q q.write).valid == 0)
    then waits
    else returns false

-- The slot to fill; `none` for a return of 0.
pub request : Queue → Reply (Option ℕ)
unfolding is_full
request q = elim (is_full q) [
  | returns true ↦ returns none
  | returns false ↦ returns (some q.write)
  | waits ↦ waits
  | faults ↦ faults
]

-- Always returns 1.
pub push : ℕ → ℕ → Queue → Queue
push len now q = if len == 0 then q else record q {
  packets =
      set q.packets q.write
        (record (slot q q.write) { tstamp = add32 now q.delay; len = len; valid = 1 });
  write = next q.max_msg q.write;
}

-- The slot to read and the length of its message; `none` for a return of 0.
pub pop : ℕ → ℕ → Queue → Reply (Option (ℕ × ℕ))
unfolding is_empty
pop now tstamp q = elim (is_empty q tstamp) [
  | returns true ↦ returns none
  | returns false ↦
      if not (is_negative q.delay) && lt_int now (slot q q.read).tstamp
      then returns none
      else returns (some (q.read, (slot q q.read).len))
  | waits ↦ waits
  | faults ↦ faults
]

-- Always returns 1.
pub release : Queue → Queue
release q = record q {
  packets = set q.packets q.read (record (slot q q.read) { valid = 0 });
  read = next q.max_msg q.read;
}

-- `memcpy(ptr, buffer, len)` for the block of slot `i`.
abbrev pub fill : ℕ → List ℕ → Queue → Queue
fill i bytes q = record q {
  packets =
      set q.packets i (record (slot q i) { block = bytes ++ drop (length bytes) (slot q i).block });
}

-- What `rtdal_itfspscq_send` returns: 1, 0, or -1 with RTDAL_ERROR_LARGE.
pub data Sent : Type 0 where
  sent full large : Sent

pub send : List ℕ → ℕ → Queue → Reply Sent × Queue
unfolding request push
send bytes now q =
    if ltb q.max_msg_sz (length bytes) then (returns large, q) else elim (request q) [
      | returns (some i) ↦
          if ltb (length (slot q i).block) (length bytes)
          then (faults, q)
          else (returns sent, push (length bytes) now (fill i bytes q))
      | returns none ↦ (returns full, q)
      | waits ↦ (waits, q)
      | faults ↦ (faults, q)
    ]

-- The bytes copied to the caller's buffer of `len` bytes, whose number is returned; `none` for a
-- return of 0 with nothing received.
pub recv : ℕ → ℕ → ℕ → Queue → Reply (Option (List ℕ)) × Queue
unfolding pop release
recv len now tstamp q = elim (pop now tstamp q) [
  | returns (some (i, plen)) ↦
      if ltb (length (slot q i).block) (min plen len)
      then (faults, q)
      else (returns (some (take (min plen len) (slot q i).block)), release q)
  | returns none ↦ (returns none, q)
  | waits ↦ (waits, q)
  | faults ↦ (faults, q)
]
