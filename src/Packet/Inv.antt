-- ===== src/Packet/Inv.antt =====
-- The invariant of a packet with a buffer, and what its operations do under it: no sum of `int`s
-- wraps and no `memcpy` leaves the buffer.
use aloe.Base.{
  ℕ, ◌+◌, ◌^◌, ◌≤◌, ◌<◌, ◌≡◌, ◌∙◌, List, [], ◌++◌, none, some, length, take, drop, arith, refl, ok,
  err, fault, add32, lt_int, le→ltb, lt→ltb, length-append, length-take, length-drop, append_assoc,
  take_all, take-append_left, take-drop-take, lt→leb, dec_le, inl, inr, ◌⊎◌, true, false,
}
use aloe.Packet.{Packet, no_dest, splice, packet_clear, packet_add_data, packet_get_data}

abbrev pub bytes : Packet → List ℕ
bytes p = elim p.buffer [ none ↦ [] | some buf ↦ buf ]

-- What has been written since the last clear, and what of it has not been read.
abbrev pub written : Packet → List ℕ
written p = take p.w_ptr (bytes p)

abbrev pub unread : Packet → List ℕ
unread p = drop p.r_ptr (written p)

-- The largest packet and the largest item that the theorems cover, a quarter of the range of
-- `int`; the program's packets have 512 * 1024 bytes.
abbrev pub max_size : ℕ
max_size = 2 ^ 29

pub record IsValid (p : Packet) : Type 0 where
  pub allocated : p.buffer ≡ some (bytes p)
  pub storage : length (bytes p) ≡ p.size
  pub small : p.size ≤ max_size
  pub write_in : p.w_ptr ≤ p.size
  pub read_in : p.r_ptr ≤ p.w_ptr

pub length-written : (p : Packet) → IsValid p → length (written p) ≡ p.w_ptr
length-written p v = omega (arith, length-take p.w_ptr (bytes p))

-- `p'` is `p` with `bs` behind what was written, and nothing read in between.
pub record Appended (p : Packet) (bs : List ℕ) (p' : Packet) : Type 0 where
  pub valid : IsValid p'
  pub same_size : p'.size ≡ p.size
  pub moved : p'.w_ptr ≡ p.w_ptr + length bs
  pub kept : p'.r_ptr ≡ p.r_ptr
  pub stored : written p' ≡ written p ++ bs

-- `p` with `bs` copied behind what was written.
abbrev pub extend : Packet → List ℕ → Packet
extend p bs = record p { w_ptr = p.w_ptr + length bs; buffer = some (splice (bytes p) p.w_ptr bs) }

length-splice :
    (buf : List ℕ) (at : ℕ) (bs : List ℕ)
    → at + length bs ≤ length buf
    → length (splice buf at bs) ≡ length buf
length-splice buf at bs h = omega (
  arith,
  length-append (take at buf) (bs ++ drop (at + length bs) buf),
  length-append bs (drop (at + length bs) buf),
  length-take at buf,
  length-drop (at + length bs) buf,
)

take-splice :
    (buf : List ℕ) (at : ℕ) (bs : List ℕ)
    → at + length bs ≤ length buf
    → take (at + length bs) (splice buf at bs) ≡ take at buf ++ bs
take-splice buf at bs h = rw (← append_assoc (take at buf) bs (drop (at + length bs) buf)) (
    take-append_left (at + length bs) (take at buf ++ bs) (drop (at + length bs) buf)
      (omega (arith, length-append (take at buf) bs, length-take at buf)))

pub extend-Appended :
    (bs : List ℕ) (p : Packet)
    → IsValid p
    → p.w_ptr + length bs ≤ p.size
    → Appended p bs (extend p bs)
extend-Appended bs p v h = record {
  valid = record {
    allocated = refl;
    storage = length-splice (bytes p) p.w_ptr bs (omega arith) ∙ v.storage;
    small = v.small;
    write_in = h;
    read_in = omega arith;
  };
  same_size = refl;
  moved = refl;
  kept = refl;
  stored = take-splice (bytes p) p.w_ptr bs (omega arith);
}

-- The signed test of `packet_add_data` finds that `w + n` is beyond `size`.
lt_int-add32 :
    (size w n : ℕ)
    → size ≤ max_size
    → w ≤ size
    → n ≤ max_size
    → size < w + n
    → lt_int size (add32 w n) ≡ true
lt_int-add32 size w n hs hw hn h = lt→ltb _ _ (omega arith)

pub packet_add_data-fits :
    (bs : List ℕ) (p : Packet)
    → IsValid p
    → p.w_ptr + length bs ≤ p.size
    → packet_add_data (some bs) (length bs) p ≡ (ok tt, extend p bs)
unfolding packet_add_data
packet_add_data-fits bs p v h = ground (arith, take_all (length bs) bs)

pub packet_add_data-full :
    (bs : List ℕ) (p : Packet)
    → IsValid p
    → length bs ≤ max_size
    → p.size < p.w_ptr + length bs
    → packet_add_data (some bs) (length bs) p ≡ (err, p)
unfolding packet_add_data
packet_add_data-full bs p v small h = ground (
  arith,
  lt→leb (2 ^ 31) (length bs),
  lt_int-add32 p.size p.w_ptr (length bs) v.small v.write_in small h,
)

-- Adding `bs` to a valid packet succeeds exactly when it fits behind what was written. It then
-- appends just `bs`, keeps the reading position and the invariant; otherwise it returns -1 and
-- changes nothing.
pub packet_add_data_lem :
    (bs : List ℕ) (p : Packet)
    → IsValid p
    → length bs ≤ max_size
    → ((p.w_ptr + length bs ≤ p.size)
        × ((packet_add_data (some bs) (length bs) p).0 ≡ ok tt)
        × Appended p bs (packet_add_data (some bs) (length bs) p).1)
      ⊎ ((p.size < p.w_ptr + length bs) × (packet_add_data (some bs) (length bs) p ≡ (err, p)))
packet_add_data_lem bs p v small = elim (dec_le (p.w_ptr + length bs) p.size) [
  | yes h ↦ rw (packet_add_data-fits bs p v h) (inl (h, refl, extend-Appended bs p v h))
  | no h ↦ inr (omega arith, packet_add_data-full bs p v small (omega arith))
]

pub packet_get_data-some :
    (room len : ℕ) (p : Packet)
    → IsValid p
    → 0 < len
    → len ≤ room
    → p.r_ptr + len ≤ p.w_ptr
    → packet_get_data (some room) len p
      ≡ (ok (take len (unread p)), record p { r_ptr = p.r_ptr + len })
unfolding packet_get_data
packet_get_data-some room len p v pos fits h =
    ground (arith, take-drop-take len p.r_ptr p.w_ptr (bytes p))

pub packet_get_data-short :
    (room len : ℕ) (p : Packet)
    → IsValid p
    → len ≤ max_size
    → p.w_ptr < p.r_ptr + len
    → packet_get_data (some room) len p ≡ (err, p)
unfolding packet_get_data
packet_get_data-short room len p v small h = ground arith

-- Only the first `len` bytes of what `data` points to are copied.
pub packet_add_data_prefix :
    (bs : List ℕ) (len : ℕ) (p : Packet)
    → IsValid p
    → len ≤ length bs
    → p.w_ptr + len ≤ p.size
    → packet_add_data (some bs) len p ≡ (ok tt, extend p (take len bs))
unfolding packet_add_data
packet_add_data_prefix bs len p v fits h = ground (arith, length-take len bs)

-- A valid packet cleared: empty, with the same room.
pub packet_clear_lem :
    (p : Packet)
    → IsValid p
    → packet_clear p ≡ (ok tt, record p { dest = no_dest; r_ptr = 0; w_ptr = 0 })
unfolding packet_clear
packet_clear_lem p v = ground arith

overflow_lt :
    (size w n : ℕ)
    → size ≤ max_size
    → w ≤ size
    → n < 2 ^ 31
    → 2 ^ 31 ≤ w + n
    → lt_int size (add32 w n) ≡ false
overflow_lt size w n hs hw hn h = le→ltb _ _ (omega arith)

-- Where the sum of the writing position and the length leaves the range of `int`, the test of
-- `packet_add_data` passes and `memcpy` writes beyond the buffer, whatever the data.
pub packet_add_data_overflow :
    (bs : List ℕ) (len : ℕ) (p : Packet)
    → IsValid p
    → len < 2 ^ 31
    → 2 ^ 31 ≤ p.w_ptr + len
    → packet_add_data (some bs) len p ≡ (fault, p)
unfolding packet_add_data
packet_add_data_overflow bs len p v h wraps =
    ground (arith, lt→leb (2 ^ 31) len, overflow_lt p.size p.w_ptr len v.small v.write_in h wraps)
