-- ===== src/Serializable/Wave/Truncated.antt =====
-- The packet of a change of mode: `waveform_serialize` for WAVEFORM_MODE drops what
-- `packet_add_data` returns for a module's mode.
use aloe.Base.{ℕ, ◌+◌, ◌==◌, ◌≤◌, ◌<◌, ◌≡◌, true, length, arith, bytes_of_int, ok, >>=_ok}
use aloe.Packet.{Packet}
use aloe.Packet.Inv.{IsValid, Appended, packet_add_data-full}
use aloe.Packet.Stream.{add_int, Writes-add_int}
use aloe.Waveform.{Layout, Module}
use aloe.Serializable.Wave.{add_mode_if_on_node, add_ignored, mode_bytes, module_mode_size}

module _ (layout : Layout) (m : Module) (node_id : ℕ) where
  mode_full :
      (p : Packet)
      → IsValid p
      → p.size < p.w_ptr + 12
      → add_ignored (mode_bytes m.mode) module_mode_size p ≡ (ok tt, p)
  unfolding add_ignored bytes_of_int
  mode_full p v h = ground (arith, packet_add_data-full (mode_bytes m.mode) p v (omega arith) h)

  room : (p : Packet) → p.w_ptr + 4 ≤ p.size → p.w_ptr + length (bytes_of_int m.id) ≤ p.size
  unfolding bytes_of_int
  room p h = omega arith

  shut :
      (p q : Packet)
      → Appended p (bytes_of_int m.id) q
      → p.size < p.w_ptr + 16
      → q.size < q.w_ptr + 12
  unfolding bytes_of_int
  shut p q a h = omega (arith, a.moved, a.same_size)

  on_this_node : node_id ≡ m.node_id → (node_id == m.node_id) ≡ true
  on_this_node h = ground arith

  -- For a module on the node, where there is room for its identifier and not for its mode too, the
  -- round of the loop succeeds, and has written the identifier alone.
  pub add_mode_if_on_node-truncated :
      (p : Packet)
      → IsValid p
      → node_id ≡ m.node_id
      → p.w_ptr + 4 ≤ p.size
      → p.size < p.w_ptr + 16
      → (p' : Packet) × (add_mode_if_on_node layout node_id m p ≡ (ok tt, p'))
        × Appended p (bytes_of_int m.id) p'
  unfolding add_mode_if_on_node
  add_mode_if_on_node-truncated p v here fits full =
      let (q, e, a) = (Writes-add_int m.id).fits p v (room p fits) in
      (
        q,
        rw (on_this_node here) (
            >>=_ok (add_int m.id) (λ _. add_ignored (mode_bytes m.mode) module_mode_size) p e
              (mode_full q a.valid (shut p q a full))),
        a,
      )
