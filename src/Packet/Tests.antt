-- ===== src/Packet/Tests.antt =====
-- Runs of the packet operations, and the packet theorems at concrete packets.
use aloe.Base.{ℕ, ◌+◌, ◌-◌, ◌^◌, ◌≤◌, ◌<◌, ◌≡◌, refl, some, [], ◌∷◌, arith, ok, err, fault, ◌⊎◌}
use aloe.Packet.{Packet, Dest, cmd_get, no_dest, packet_add_data, packet_get_data}
use aloe.Packet.Inv.{
  IsValid, Appended, written, unread, packet_add_data_lem, packet_add_data_overflow,
}
use aloe.Packet.Stream.{Consumed, packet_get_data_lem}
use aloe.Packet.Send.{Channel, packet_sendto, packet_sendto_lem, delivered, IsDelivered, IsAnswered}

-- Three bytes written, one of them read, in a buffer of six.
abbrev half_read : Packet
half_read = record {
  cmd = cmd_get;
  dest = no_dest;
  ack = 0;
  w_ptr = 3;
  r_ptr = 1;
  size = 6;
  buffer = some (7 ∷ 8 ∷ 9 ∷ 0 ∷ 0 ∷ 0 ∷ []);
}

half_read-IsValid : IsValid half_read
half_read-IsValid = record {
  allocated = refl;
  storage = refl;
  small = omega arith;
  write_in = omega arith;
  read_in = omega arith;
}

two_more : unread (packet_add_data (some (1 ∷ 2 ∷ [])) 2 half_read).1 ≡ 8 ∷ 9 ∷ 1 ∷ 2 ∷ []
unfolding packet_add_data
two_more = refl

no_room : packet_add_data (some (1 ∷ 2 ∷ 3 ∷ 4 ∷ [])) 4 half_read ≡ (err, half_read)
unfolding packet_add_data
no_room = refl

read_two : (packet_get_data (some 4) 2 half_read).0 ≡ ok (8 ∷ 9 ∷ [])
unfolding packet_get_data
read_two = refl

packet_add_data_lem_example :
    ((3 + 2 ≤ 6)
      × ((packet_add_data (some (1 ∷ 2 ∷ [])) 2 half_read).0 ≡ ok tt)
      × Appended half_read (1 ∷ 2 ∷ []) (packet_add_data (some (1 ∷ 2 ∷ [])) 2 half_read).1)
    ⊎ ((6 < 3 + 2) × (packet_add_data (some (1 ∷ 2 ∷ [])) 2 half_read ≡ (err, half_read)))
packet_add_data_lem_example =
    packet_add_data_lem (1 ∷ 2 ∷ []) half_read half_read-IsValid (omega arith)

packet_get_data_lem_example :
    let r = packet_get_data (some 4) 2 half_read in
    ((2 ≤ 2) × (r.0 ≡ ok (8 ∷ 9 ∷ [])) × Consumed half_read [] r.1 × (written r.1 ≡ 7 ∷ 8 ∷ 9 ∷ []))
    ⊎ ((2 < 2) × (r ≡ (err, half_read)))
packet_get_data_lem_example =
    packet_get_data_lem 2 4 half_read half_read-IsValid (omega arith) (omega arith) (omega arith)

packet_add_data_overflow_example :
    packet_add_data (some (1 ∷ [])) (2 ^ 31 - 1) half_read ≡ (fault, half_read)
packet_add_data_overflow_example =
    packet_add_data_overflow (1 ∷ []) (2 ^ 31 - 1) half_read half_read-IsValid (omega arith)
      (omega arith)

abbrev node_dest : Dest
node_dest = record { waveform_id = 4; module_id = 0; variable_id = 0; node = 1 }

abbrev two_packets : Channel
two_packets = record { pkt = half_read; node_packet = half_read }

-- A node that consumes what it got, answers nothing and acknowledges with 5.
abbrev silent_node : Packet → ℕ × Packet
silent_node p = (5, record p { w_ptr = 0; r_ptr = 0 })

silent_answer-IsValid : IsValid (silent_node (delivered node_dest two_packets)).1
silent_answer-IsValid = record {
  allocated = refl;
  storage = refl;
  small = omega arith;
  write_in = omega arith;
  read_in = omega arith;
}

packet_sendto_lem_example :
    IsDelivered node_dest two_packets (delivered node_dest two_packets)
    × IsAnswered node_dest two_packets 5
        (silent_node (delivered node_dest two_packets)).1
        (packet_sendto silent_node node_dest two_packets)
packet_sendto_lem_example =
    packet_sendto_lem node_dest two_packets half_read-IsValid half_read-IsValid silent_node
      (omega arith) silent_answer-IsValid (omega arith)
