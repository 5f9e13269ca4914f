-- ===== src/Packet/Send.antt =====
-- `packet_sendto` of oesr/src/common/packet.c: within one process the packet is handed to the node
-- as the content of the node's own packet, and what the node leaves there is appended to the
-- sender's. The node's handler `nod_anode_cmd_recv` is a parameter here.
use mathlib.Core.Path.{subst}
use aloe.Base.{
  Option, sym, ℕ, ◌+◌, ◌-◌, ◌≤◌, ◌≡◌, ◌∙◌, ap, refl, none, some, List, ◌++◌, arith, Outcome, ok,
  err, fault, Call, word_mod,
}
use aloe.Packet.{Packet, Dest, packet_clear, packet_set_cmd, packet_add_data, packet_total_size}
use aloe.Packet.Inv.{
  IsValid, Appended, written, unread, bytes, extend, extend-Appended, length-written,
  packet_add_data_prefix,
}

-- The sender's packet and `node_packet`.
pub record Channel : Type 0 where
  pub pkt : Packet
  pub node_packet : Packet

abbrev pub on_pkt : {A : Type 0} → Call Packet A → Call Channel A
on_pkt m c = let r = m c.pkt in (r.0, record c { pkt = r.1 })

abbrev pub on_node : {A : Type 0} → Call Packet A → Call Channel A
on_node m c = let r = m c.node_packet in (r.0, record c { node_packet = r.1 })

-- The value that an `int` function returns, -1 where it fails.
abbrev int_result : Outcome ℕ → ℕ
int_result (ok n) = n
int_result err = word_mod - 1
int_result fault = word_mod - 1

-- The packet after a call whose result is dropped.
abbrev after : {A : Type 0} → Call Packet A → Packet → Packet
after m p = (m p).1

-- What the node has before it handles the packet: command and destination, and an empty buffer.
abbrev addressed : Dest → Channel → Packet
addressed dest c = record (after (packet_set_cmd c.pkt.cmd) (after packet_clear c.node_packet)) {
  dest = dest;
}

-- "copy the packet back", once the node has answered.
reply : Channel → ℕ → Packet → Outcome (Unit {0}) × Channel
reply c ack answer =
    let back =
      packet_add_data answer.buffer (int_result (packet_total_size answer).0)
        (record (c.pkt) { ack = ack }) in
    (back.0, record { pkt = back.1; node_packet = answer })

-- The rest of `packet_sendto`, once the content has been copied to the node's packet.
deliver :
    (Packet → ℕ × Packet) → Channel → Outcome (Unit {0}) × Packet → Outcome (Unit {0}) × Channel
deliver receive c (ok _, node) = reply c (receive node).0 (receive node).1
deliver receive c (err, node) = (err, record c { node_packet = node })
deliver receive c (fault, node) = (fault, record c { node_packet = node })

-- `receive` is `nod_anode_cmd_recv` on the node's packet: its return value and what it leaves.
unfoldable pub packet_sendto : (Packet → ℕ × Packet) → Dest → Call Channel (Unit {0})
unfolding reply deliver
packet_sendto receive dest c = elim c.pkt.buffer [
  | none ↦ (err, c)
  | some _ ↦
      deliver receive c
        (packet_add_data c.pkt.buffer (int_result (packet_total_size c.pkt).0) (addressed dest c))
]

-- The node's packet when the handler is called.
abbrev pub delivered : Dest → Channel → Packet
delivered dest c =
    extend (record (c.node_packet) { cmd = c.pkt.cmd; dest = dest; w_ptr = 0; r_ptr = 0 })
      (written c.pkt)

-- The sender's packet when the node has left `answer`.
abbrev pub answered : ℕ → Packet → Channel → Packet
answered ack answer c = extend (record (c.pkt) { ack = ack }) (written answer)

module _ (dest : Dest) (c : Channel) where
  -- What the node receives.
  pub record IsDelivered (p : Packet) : Type 0 where
    pub valid : IsValid p
    pub all_unread : unread p ≡ written c.pkt
    pub same_cmd : p.cmd ≡ c.pkt.cmd
    pub new_dest : p.dest ≡ dest

  -- What `packet_sendto` returns and leaves when the node has answered with `ack` and `answer`.
  pub record IsAnswered (ack : ℕ) (answer : Packet) (r : Outcome (Unit {0}) × Channel)
      : Type 0 where
    pub returns : r.0 ≡ ok tt
    pub acknowledged : r.1.pkt.ack ≡ ack
    pub valid : IsValid r.1.pkt
    pub copied_back : written r.1.pkt ≡ written c.pkt ++ written answer
    pub same_unread : r.1.pkt.r_ptr ≡ c.pkt.r_ptr
    pub left_at_node : r.1.node_packet ≡ answer

total : (p : Packet) → IsValid p → int_result (packet_total_size p).0 ≡ p.w_ptr
unfolding packet_total_size
total p v = ground arith

-- `packet_add_data(p, q->buffer, packet_total_size(q))`
copy_written :
    (q p : Packet)
    → IsValid q
    → IsValid p
    → p.w_ptr + q.w_ptr ≤ p.size
    → packet_add_data q.buffer (int_result (packet_total_size q).0) p
      ≡ (ok tt, extend p (written q))
copy_written q p vq vp h =
    ap (λ b. packet_add_data b (int_result (packet_total_size q).0) p) vq.allocated
    ∙ ap (λ n. packet_add_data (some (bytes q)) n p) (total q vq)
    ∙ packet_add_data_prefix (bytes q) q.w_ptr p vp (omega (arith, vq.storage, vq.write_in)) h

module _ (dest : Dest) (c : Channel) (vp : IsValid c.pkt) (vn : IsValid c.node_packet) where
  pub delivered-IsValid :
      c.pkt.w_ptr ≤ c.node_packet.size
      → Appended
          (record (c.node_packet) { cmd = c.pkt.cmd; dest = dest; w_ptr = 0; r_ptr = 0 })
          (written c.pkt)
          (delivered dest c)
  delivered-IsValid fits =
      extend-Appended (written c.pkt)
        (record (c.node_packet) { cmd = c.pkt.cmd; dest = dest; w_ptr = 0; r_ptr = 0 })
        (record {
          allocated = vn.allocated;
          storage = vn.storage;
          small = vn.small;
          write_in = omega arith;
          read_in = omega arith;
        })
        (omega (arith, length-written c.pkt vp))

  addressed_lem :
      addressed dest c
      ≡ record (c.node_packet) { cmd = c.pkt.cmd; dest = dest; w_ptr = 0; r_ptr = 0 }
  unfolding packet_clear packet_set_cmd
  addressed_lem = ground arith

  hand_over :
      c.pkt.w_ptr ≤ c.node_packet.size
      → packet_add_data c.pkt.buffer (int_result (packet_total_size c.pkt).0) (addressed dest c)
        ≡ (ok tt, delivered dest c)
  hand_over fits =
      ap (packet_add_data c.pkt.buffer (int_result (packet_total_size c.pkt).0)) addressed_lem
      ∙ copy_written c.pkt
          (record (c.node_packet) { cmd = c.pkt.cmd; dest = dest; w_ptr = 0; r_ptr = 0 }) vp
          (record {
            allocated = vn.allocated;
            storage = vn.storage;
            small = vn.small;
            write_in = omega arith;
            read_in = omega arith;
          })
          (omega arith)

  acked_IsValid : (ack : ℕ) → IsValid (record (c.pkt) { ack = ack })
  acked_IsValid ack = record {
    allocated = vp.allocated;
    storage = vp.storage;
    small = vp.small;
    write_in = vp.write_in;
    read_in = vp.read_in;
  }

  reply_lem :
      (ack : ℕ) (answer : Packet)
      → IsValid answer
      → c.pkt.w_ptr + answer.w_ptr ≤ c.pkt.size
      → reply c ack answer ≡ (ok tt, record { pkt = answered ack answer c; node_packet = answer })
  unfolding reply
  reply_lem ack answer va fits =
      ap (λ (r : Outcome (Unit {0}) × Packet). (r.0, record { pkt = r.1; node_packet = answer }))
        (copy_written answer (record (c.pkt) { ack = ack }) va (acked_IsValid ack) fits)

  answered_lem :
      (ack : ℕ) (answer : Packet)
      → IsValid answer
      → c.pkt.w_ptr + answer.w_ptr ≤ c.pkt.size
      → IsAnswered dest c ack answer
          (ok tt, record { pkt = answered ack answer c; node_packet = answer })
  answered_lem ack answer va fits =
      let a =
        extend-Appended (written answer) (record (c.pkt) { ack = ack }) (acked_IsValid ack)
          (omega (arith, length-written answer va)) in
      record {
        returns = refl;
        acknowledged = refl;
        valid = a.valid;
        copied_back = a.stored;
        same_unread = refl;
        left_at_node = refl;
      }

  packet_sendto-eq-reply :
      (receive : Packet → ℕ × Packet)
      → c.pkt.w_ptr ≤ c.node_packet.size
      → packet_sendto receive dest c
        ≡ reply c (receive (delivered dest c)).0 (receive (delivered dest c)).1
  unfolding packet_sendto deliver
  packet_sendto-eq-reply receive fits =
      ap
        (λ (b : Option (List ℕ)). elim b [
          | none ↦ (err, c)
          | some _ ↦ deliver receive c (
              packet_add_data c.pkt.buffer (int_result (packet_total_size c.pkt).0)
                (addressed dest c))
        ])
        vp.allocated
      ∙ ap (deliver receive c) (hand_over fits)

  -- With room for the request in the node's packet, and for the answer behind it in the sender's,
  -- `packet_sendto` shows the node just what was written, with the sender's command and the given
  -- destination; it then returns 0, stores the acknowledgement, and appends just what the node
  -- left, for every handler.
  pub packet_sendto_lem :
      (receive : Packet → ℕ × Packet)
      → c.pkt.w_ptr ≤ c.node_packet.size
      → IsValid (receive (delivered dest c)).1
      → c.pkt.w_ptr + (receive (delivered dest c)).1.w_ptr ≤ c.pkt.size
      → IsDelivered dest c (delivered dest c)
        × IsAnswered dest c
            (receive (delivered dest c)).0
            (receive (delivered dest c)).1
            (packet_sendto receive dest c)
  packet_sendto_lem receive fits va fits_back = (
    record {
      valid = (delivered-IsValid fits).valid;
      all_unread = (delivered-IsValid fits).stored;
      same_cmd = refl;
      new_dest = refl;
    },
    subst (IsAnswered dest c (receive (delivered dest c)).0 (receive (delivered dest c)).1)
        (sym (packet_sendto-eq-reply receive fits ∙ reply_lem _ _ va fits_back))
        (answered_lem _ _ va fits_back),
  )
