-- ===== src/Packet.antt =====
-- oesr/src/common/packet.c and oesr/src/common/include/packet.h: the packet in which manager and
-- node exchange serialized objects. `int` fields are 32-bit patterns; what `memcpy` would touch
-- out of range is a `fault`. `packet_sendto` stands in `Packet.Send`.
pub mod Inv
pub mod Stream
pub mod Send
mod Tests
use aloe.Base.{
  ℕ, ◌+◌, ◌==◌, Bool, true, false, ◌||◌, Option, none, some, List, [], ◌∷◌, ◌++◌, length, take,
  drop, replicate, if◌then◌else◌, ltb, add32, sub32, lt_int, is_negative, Outcome, ok, err, fault,
  Call,
}

-- `packet_command_t`
pub data Command : Type 0 where
  cmd_load cmd_set cmd_get cmd_connect cmd_disconnect cmd_hwinfo : Command

-- `packet_dest_t`; `node` is an address.
pub record Dest : Type 0 where
  pub waveform_id : ℕ
  pub module_id : ℕ
  pub variable_id : ℕ
  pub node : ℕ

-- `packet_t`; `buffer` is `none` while it is NULL.
pub record Packet : Type 0 where
  pub cmd : Command
  pub dest : Dest
  pub ack : ℕ
  pub w_ptr : ℕ
  pub r_ptr : ℕ
  pub size : ℕ
  pub buffer : Option (List ℕ)

-- The macro `assert_init` at the head of a function.
abbrev assert_init : {A : Type 0} → (List ℕ → Call Packet A) → Call Packet A
assert_init body pkt = elim pkt.buffer [ none ↦ (err, pkt) | some buf ↦ body buf pkt ]

-- `size` bytes from `malloc`: `storage` is what it returned. The other fields are left as they are.
pub packet_init : Option (List ℕ) → ℕ → Call Packet (Unit {0})
packet_init none size pkt = (err, record pkt { buffer = none })
packet_init (some storage) size pkt = (ok tt, record pkt { buffer = some storage; size = size })

abbrev pub no_dest : Dest
no_dest = record { waveform_id = 0; module_id = 0; variable_id = 0; node = 0 }

unfoldable pub packet_clear : Call Packet (Unit {0})
packet_clear = assert_init λ buf pkt. (ok tt, record pkt { dest = no_dest; r_ptr = 0; w_ptr = 0 })

unfoldable pub packet_set_cmd : Command → Call Packet (Unit {0})
packet_set_cmd cmd = assert_init λ buf pkt. (ok tt, record pkt { cmd = cmd })

pub packet_get_cmd : Call Packet Command
packet_get_cmd = assert_init λ buf pkt. (ok pkt.cmd, pkt)

-- `memcpy(&buf[at], bytes, length bytes)` within `buf`
abbrev pub splice : List ℕ → ℕ → List ℕ → List ℕ
splice buf at bytes = take at buf ++ (bytes ++ drop (at + length bytes) buf)

-- `bytes` is what `data` points to, `none` for NULL; `len` is an `int`.
unfoldable pub packet_add_data : Option (List ℕ) → ℕ → Call Packet (Unit {0})
packet_add_data none len = assert_init λ buf pkt. (err, pkt)
packet_add_data (some bytes) len = assert_init λ buf pkt.
    if is_negative len
    then (err, pkt)
    else if lt_int pkt.size (add32 pkt.w_ptr len)
    then (err, pkt)
    else if ltb (length buf) (pkt.w_ptr + len) || ltb (length bytes) len
    then (fault, pkt)
    else (
      ok tt,
      record pkt {
        w_ptr = add32 pkt.w_ptr len;
        buffer = some (splice buf pkt.w_ptr (take len bytes));
      },
    )

-- `room` is the size of what `data` points to, `none` for NULL; the bytes read are returned.
pub packet_get_data : Option ℕ → ℕ → Call Packet (List ℕ)
packet_get_data none len = assert_init λ buf pkt. (err, pkt)
packet_get_data (some room) len = assert_init λ buf pkt.
    if is_negative len || (len == 0)
    then (err, pkt)
    else if lt_int (sub32 pkt.w_ptr pkt.r_ptr) len
    then (err, pkt)
    else if ltb (length buf) (pkt.r_ptr + len) || ltb room len
    then (fault, pkt)
    else (ok (take len (drop pkt.r_ptr buf)), record pkt { r_ptr = add32 pkt.r_ptr len })

unfoldable pub packet_total_size : Call Packet ℕ
packet_total_size = assert_init λ buf pkt. (ok pkt.w_ptr, pkt)

pub packet_toread_size : Call Packet ℕ
packet_toread_size = assert_init λ buf pkt. (ok (sub32 pkt.w_ptr pkt.r_ptr), pkt)

pub packet_set_ack : ℕ → Call Packet (Unit {0})
packet_set_ack ack = assert_init λ buf pkt. (ok tt, record pkt { ack = ack })

unfoldable pub packet_get_ack : Call Packet ℕ
packet_get_ack = assert_init λ buf pkt. (ok pkt.ack, pkt)

pub packet_get_dest : Call Packet Dest
packet_get_dest = assert_init λ buf pkt. (ok pkt.dest, pkt)

-- "Not yet implemented"
pub packet_read : Call Packet (Unit {0})
packet_read = assert_init λ buf pkt. (err, pkt)
