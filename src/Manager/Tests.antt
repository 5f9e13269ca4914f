-- ===== src/Manager/Tests.antt =====
-- A waveform of no modules on one node that accepts every command.
use aloe.Base.{
  ℕ, ◌≡◌, refl, true, some, none, List, [], ◌∷◌, ◌++◌, arith, ok, err, replicate, inl, inr,
  bytes_of_int, int_of_bytes,
}
use aloe.Packet.{
  Packet, cmd_load, packet_clear, packet_set_cmd, packet_get_ack, packet_add_data,
  packet_total_size,
}
use aloe.Packet.Send.{packet_sendto}
use aloe.Packet.Stream.{add_int}
use aloe.Serializable.Wave.{waveform_serialize}
use aloe.Waveform.{Layout, zeros}
use aloe.Manager.{
  waveform_send, send_to, Managed, Nodes, cur_status, init, run, stop, loaded, waveform_status_set,
  status_is_valid, Nodes,
}
use aloe.Manager.Status.{Allowed, status_is_valid_lem, initialise}
use aloe.Manager.Sending.{
  IsCarriedOut, set_status, waveform_status_set-Allowed, waveform_status_set_refused,
}
use aloe.Manager.Requests.{Idle, Request, make_requests, requests-Idle}

abbrev sizes : Layout
sizes = record { execinfo_size = 8; interface_size = 4; variable_size = 400; module_size = 300 }

-- The node handles the packet and clears it.
abbrev accepting : Nodes
accepting i p = (0, record p { w_ptr = 0; r_ptr = 0 })

abbrev refusing : Nodes
refusing i p = (1, record p { w_ptr = 0; r_ptr = 0 })

abbrev empty_packet : Packet
empty_packet = record {
  cmd = cmd_load;
  dest = record { waveform_id = 0; module_id = 0; variable_id = 0; node = 0 };
  ack = 0;
  w_ptr = 0;
  r_ptr = 0;
  size = 64;
  buffer = some (replicate 64 0);
}

abbrev managed : ℕ → Managed
managed status = record {
  waveform = record {
    id = 3;
    modules = none;
    status = bytes_of_int status ++ replicate 4 0;
    modes = [];
    nof_modules = 0;
    name = zeros 64;
    nof_modes = 0;
    granularity_us = 1000;
    precach_pipeline = 0;
  };
  modules_x_node = 1 ∷ 0 ∷ [];
  channel = record { pkt = empty_packet; node_packet = empty_packet };
}

abbrev request : ℕ → List ℕ
request s = bytes_of_int s ++ replicate 4 0

status_is_valid_lem_example :
    (status_is_valid loaded init ≡ true → Allowed loaded init)
    × (Allowed loaded init → status_is_valid loaded init ≡ true)
status_is_valid_lem_example = status_is_valid_lem loaded init

loaded_to_run : ¬ Allowed loaded run
unfolding status_is_valid
loaded_to_run a = absurd (ground (arith, (status_is_valid_lem loaded run).1 a))

-- An accepted request, and one that the node refuses.
set_init :
    ((waveform_status_set sizes accepting (0 ∷ []) (request init) (managed loaded)).0 ≡ ok tt)
    × (cur_status
          (waveform_status_set sizes accepting (0 ∷ []) (request init) (managed loaded)).1.waveform
        ≡ init)
    × ((waveform_status_set sizes refusing (0 ∷ []) (request init) (managed loaded)).0 ≡ err)
unfolding waveform_status_set status_is_valid int_of_bytes bytes_of_int waveform_serialize
    packet_clear packet_set_cmd packet_get_ack packet_add_data packet_total_size packet_sendto
    waveform_send send_to add_int
set_init = (refl, refl, refl)

waveform_status_set-Allowed_example :
    IsCarriedOut sizes accepting
      (0 ∷ [])
      (managed loaded)
      (request init)
      (set_status sizes accepting (0 ∷ []) (managed loaded) (request init))
unfolding int_of_bytes bytes_of_int
waveform_status_set-Allowed_example =
    waveform_status_set-Allowed sizes accepting (0 ∷ []) (managed loaded) (request init) initialise

waveform_status_set_refused_example :
    set_status sizes accepting (0 ∷ []) (managed loaded) (request run) ≡ (err, managed loaded)
unfolding int_of_bytes bytes_of_int
waveform_status_set_refused_example =
    waveform_status_set_refused sizes accepting (0 ∷ []) (managed loaded) (request run)
      loaded_to_run

abbrev requests : List Request
requests = (accepting, request run) ∷ (refusing, request stop) ∷ (accepting, request run) ∷ []

requests-Idle_example :
    Idle (cur_status (make_requests sizes (0 ∷ []) requests (managed loaded)).waveform)
unfolding int_of_bytes bytes_of_int
requests-Idle_example =
    requests-Idle sizes (0 ∷ []) requests (managed loaded)
      (omega arith, (omega arith, (omega arith, tt))) (inr (inl refl))
