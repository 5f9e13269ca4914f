-- ===== src/Serializable/Tests.antt =====
-- A small waveform, and the serialization theorems at it.
use aloe.Base.{
  ℕ, ◌≡◌, refl, Bool, true, none, some, List, [], ◌∷◌, replicate, arith, ok, ◌>>◌, bytes_of_int,
}
use aloe.Packet.{Packet, cmd_load, no_dest}
use aloe.Packet.Inv.{IsValid, Appended, unread}
use aloe.Packet.Stream.{Writes}
use aloe.Waveform.{Layout, Variable, Module, Waveform, null_variable, null_module, zeros}
use aloe.Serializable.{cp_init, waveform_load}
use aloe.Serializable.Values.{IsSendable}
use aloe.Serializable.Modules.{module_serialize, module_unserialize_to}
use aloe.Serializable.Modules.Wire.{Valued, IsSendableModule, receive_module}
use aloe.Serializable.Roundtrip.{module_unserialize_to-module_serialize}
use aloe.Serializable.Wave.{waveform_serialize, add_mode_if_on_node}
use aloe.Serializable.Wave.Truncated.{add_mode_if_on_node-truncated}
use aloe.Serializable.Wave.Send.{
  Loaded, IsSendableWaveform, encode_waveform, waveform_serialize-Writes,
}

abbrev layout : Layout
layout = record { execinfo_size = 3; interface_size = 2; variable_size = 1; module_size = 1 }

abbrev plenty : ℕ → ℕ → Bool
plenty n size = true

plenty_memory : (n size : ℕ) → plenty n size ≡ true
plenty_memory n size = refl

abbrev blank_packet : Packet
blank_packet = record {
  cmd = cmd_load;
  dest = no_dest;
  ack = 0;
  w_ptr = 0;
  r_ptr = 0;
  size = 600;
  buffer = some (zeros 600);
}

blank_packet-IsValid : IsValid blank_packet
blank_packet-IsValid = record {
  allocated = refl;
  storage = refl;
  small = omega arith;
  write_in = omega arith;
  read_in = omega arith;
}

-- A gain with a value for each of two modes.
abbrev gain_values : List (List ℕ)
gain_values = (1 ∷ 2 ∷ 3 ∷ 4 ∷ []) ∷ (5 ∷ 6 ∷ 7 ∷ 8 ∷ []) ∷ []

abbrev gain : Variable
gain = record null_variable {
  id = 9;
  size = 4;
  type = 1;
  nof_modes = 2;
  init_value = some (1 ∷ 2 ∷ 3 ∷ 4 ∷ []) ∷ some (5 ∷ 6 ∷ 7 ∷ 8 ∷ []) ∷ replicate 23 none;
}

gain-IsSendable : IsSendable gain gain_values 2
gain-IsSendable = record {
  id_word = omega arith;
  type_word = omega arith;
  size_pos = omega arith;
  size_small = omega arith;
  name_full = refl;
  modes_few = omega arith;
  one_each = refl;
  blocks = (refl, (refl, tt));
  points = (refl, (refl, tt));
}

abbrev mixer : Module
mixer = record (null_module layout) {
  id = 5;
  node_id = 1;
  nof_modes = 2;
  variables = some (gain ∷ null_variable ∷ []);
  inputs = some ((10 ∷ 11 ∷ []) ∷ (0 ∷ 0 ∷ []) ∷ []);
  outputs = some ((12 ∷ 13 ∷ []) ∷ []);
  nof_variables = 1;
  nof_inputs = 1;
  nof_outputs = 1;
}

abbrev mixer_vars : List Valued
mixer_vars = (gain, gain_values) ∷ []

mixer-IsSendableModule :
    IsSendableModule layout mixer mixer_vars ((10 ∷ 11 ∷ []) ∷ []) ((12 ∷ 13 ∷ []) ∷ [])
mixer-IsSendableModule = record {
  spare_vars = null_variable ∷ [];
  spare_ins = (0 ∷ 0 ∷ []) ∷ [];
  spare_outs = [];
  variables_at = refl;
  inputs_at = refl;
  outputs_at = refl;
  variables_counted = refl;
  inputs_counted = refl;
  outputs_counted = refl;
  counts_small = (omega arith, omega arith, omega arith);
  words = (omega arith, omega arith, omega arith, omega arith, omega arith, omega arith);
  name_full = refl;
  binary_full = refl;
  execinfo_full = refl;
  layout_pos = (omega arith, omega arith);
  layout_small = (omega arith, omega arith);
  variables_ok = (gain-IsSendable, tt);
  inputs_ok = (refl, tt);
  outputs_ok = (refl, tt);
}

module_unserialize_to-module_serialize_example :
    let r =
      (module_serialize layout mixer cp_init
          >> module_unserialize_to layout plenty (null_module layout) cp_init)
        blank_packet in
    (r.0
      ≡ ok (
          receive_module
            (null_module layout)
            mixer
            mixer_vars
            ((10 ∷ 11 ∷ []) ∷ [])
            ((12 ∷ 13 ∷ []) ∷ [])))
    × (unread r.1 ≡ [])
unfolding bytes_of_int
module_unserialize_to-module_serialize_example =
    module_unserialize_to-module_serialize plenty plenty_memory blank_packet blank_packet-IsValid
      refl layout mixer (null_module layout) mixer_vars ((10 ∷ 11 ∷ []) ∷ []) ((12 ∷ 13 ∷ []) ∷ [])
      mixer-IsSendableModule refl refl refl (omega arith)

abbrev elsewhere : Module
elsewhere = record (null_module layout) { id = 6; node_id = 2 }

abbrev radio : Waveform
radio = record {
  id = 3;
  modules = some (mixer ∷ []);
  status = zeros 8;
  modes = zeros 192 ∷ zeros 192 ∷ [];
  nof_modules = 1;
  name = zeros 64;
  nof_modes = 1;
  granularity_us = 1000;
  precach_pipeline = 0;
}

abbrev radio_modules : List Loaded
radio_modules =
    record {
      object = mixer;
      vars = mixer_vars;
      ins = (10 ∷ 11 ∷ []) ∷ [];
      outs = (12 ∷ 13 ∷ []) ∷ [];
    }
    ∷ []

radio-IsSendableWaveform : IsSendableWaveform layout radio radio_modules (zeros 192 ∷ [])
radio-IsSendableWaveform = record {
  modules_at = refl;
  modules_counted = refl;
  spare_modes = zeros 192 ∷ [];
  modes_at = refl;
  modes_counted = refl;
  counts_small = (omega arith, omega arith);
  name_full = refl;
  modes_full = (refl, tt);
  modules_ok = (mixer-IsSendableModule, tt);
}

waveform_serialize-Writes_example :
    Writes
      (waveform_serialize layout radio 1 waveform_load cp_init)
      (encode_waveform radio 1 radio_modules (zeros 192 ∷ []))
waveform_serialize-Writes_example =
    waveform_serialize-Writes layout radio radio_modules (zeros 192 ∷ []) 1 radio-IsSendableWaveform

abbrev small_packet : Packet
small_packet = record blank_packet { size = 8; buffer = some (zeros 8) }

small_packet-IsValid : IsValid small_packet
small_packet-IsValid = record {
  allocated = refl;
  storage = refl;
  small = omega arith;
  write_in = omega arith;
  read_in = omega arith;
}

add_mode_if_on_node-truncated_example :
    (p' : Packet) × (add_mode_if_on_node layout 2 elsewhere small_packet ≡ (ok tt, p'))
    × Appended small_packet (bytes_of_int 6) p'
add_mode_if_on_node-truncated_example =
    add_mode_if_on_node-truncated layout elsewhere 2 small_packet small_packet-IsValid refl
      (omega arith) (omega arith)
