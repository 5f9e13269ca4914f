-- ===== src/Serializable/Modules.antt =====
-- `module_serialize` and `module_unserialize_to` of oesr/src/common/serializable.c.
pub mod Wire
pub mod Send
pub mod Receive
use aloe.Base.{
  ℕ, ◌+◌, Bool, Option, none, some, List, [], ◌∷◌, Outcome, ok, err, fault, Call, ◌>>=◌, ◌>>◌,
  return, add32,
}
use aloe.Packet.{Packet}
use aloe.Packet.Stream.{add_int, get_int}
use aloe.Waveform.{Layout, Module, ModuleMode, rounds, str_len, nof_user_variables, module_alloc}
use aloe.Serializable.{
  CopyData, add_bytes, get_bytes, on_object, variable_serialize, variable_unserialize_to,
  execinfo_serialize, execinfo_unserialize_to, interface_serialize, interface_unserialize_to,
  for_each, map_each, array,
}

module _ (layout : Layout) where
  -- The identification of a module, as far as the three counts.
  add_header : Module → Call Packet (Unit {0})
  add_header src = do
    add_int src.id
    add_int src.processor_idx
    add_int src.exec_position
    add_int src.nof_modes
    add_int src.mode.cur_mode
    add_int src.log_enable
    add_bytes src.name str_len
    add_bytes src.binary str_len
    execinfo_serialize layout src.execinfo

  pub module_serialize : Module → CopyData → Call Packet (Unit {0})
  unfolding add_header
  module_serialize src copy_data = do
    add_header src
    add_int src.nof_variables
    add_int src.nof_inputs
    add_int src.nof_outputs
    for_each (λ v. variable_serialize v copy_data src.nof_modes) (rounds src.nof_variables)
        (array src.variables)
    for_each (interface_serialize layout) (rounds src.nof_inputs) (array src.inputs)
    for_each (interface_serialize layout) (rounds src.nof_outputs) (array src.outputs)

  get_header : Module → Call Packet Module
  get_header dest = do
    id ← get_int
    processor_idx ← get_int
    exec_position ← get_int
    nof_modes ← get_int
    cur_mode ← get_int
    log_enable ← get_int
    name ← get_bytes str_len
    binary ← get_bytes str_len
    execinfo ← execinfo_unserialize_to layout
    return (record dest {
      id = id;
      processor_idx = processor_idx;
      exec_position = exec_position;
      nof_modes = nof_modes;
      mode = record { cur_mode = cur_mode; next_mode = dest.mode.next_mode; next_tslot = 0 };
      log_enable = log_enable;
      name = name;
      binary = binary;
      execinfo = execinfo;
    })

  module _ (calloc : ℕ → ℕ → Bool) where
    -- The arrays, once `module_alloc` has made them.
    get_arrays : CopyData → ℕ → Module → Call Packet Module
    get_arrays copy_data nof_variables m = do
      variables ←
          map_each (λ v. variable_unserialize_to calloc v copy_data m.nof_modes)
            (rounds nof_variables) (array m.variables)
      inputs ←
          map_each (λ _. interface_unserialize_to layout) (rounds m.nof_inputs) (array m.inputs)
      outputs ←
          map_each (λ _. interface_unserialize_to layout) (rounds m.nof_outputs) (array m.outputs)
      return (record m { variables = some variables; inputs = some inputs; outputs = some outputs })

    pub module_unserialize_to : Module → CopyData → Call Packet Module
    unfolding get_header get_arrays
    module_unserialize_to dest copy_data = do
      m ← get_header dest
      nof_variables ← get_int
      nof_inputs ← get_int
      nof_outputs ← get_int
      m' ← on_object (
          module_alloc layout calloc nof_inputs nof_outputs (add32 nof_variables nof_user_variables)
            m)
      get_arrays copy_data nof_variables m'
