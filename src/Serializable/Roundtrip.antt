-- ===== src/Serializable/Roundtrip.antt =====
-- What variables and modules that go through a packet come back with.
use aloe.Base.{ℕ, ◌+◌, ◌≤◌, ◌≡◌, Bool, true, none, List, [], length, ok, ◌>>◌, arith}
use aloe.Packet.{Packet}
use aloe.Packet.Inv.{IsValid, unread}
use aloe.Packet.Stream.{Writes-Reads}
use aloe.Waveform.{Layout, Variable, Module, rounds, modes_max}
use aloe.Waveform.Alloc.{PointsTo, PointsTo-store, store, blanks, length-store}
use aloe.Serializable.{cp_init, variable_serialize, variable_unserialize_to}
use aloe.Serializable.Values.{
  IsSendable, encode_variable, receive_variable, variable_serialize-Writes,
  variable_unserialize_to-Reads,
}
use aloe.Serializable.Modules.{module_serialize, module_unserialize_to}
use aloe.Serializable.Modules.Wire.{Valued, IsSendableModule, encode_module, receive_module}
use aloe.Serializable.Modules.Send.{module_serialize-Writes}
use aloe.Serializable.Modules.Receive.{module_unserialize_to-Reads}

module _ (calloc : ℕ → ℕ → Bool) (memory : (n size : ℕ) → calloc n size ≡ true) (p : Packet)
    (v : IsValid p) (empty : unread p ≡ []) where
  -- A variable whose fields are `int`s, whose size is not 0 and whose name and initial values are as
  -- long as declared, serialized into a packet that is all read and has room for it and then
  -- unserialized over any variable with room for the modes, gives it the id, size, type, name,
  -- number of modes and initial values of the source, and leaves nothing in the packet.
  pub variable_unserialize_to-variable_serialize :
      (src dest : Variable) (vs : List (List ℕ)) (nof_modes : ℕ)
      → IsSendable src vs nof_modes
      → length dest.init_value ≡ modes_max
      → p.w_ptr + length (encode_variable src vs) ≤ p.size
      → let r =
          (variable_serialize src cp_init nof_modes
              >> variable_unserialize_to calloc dest cp_init nof_modes)
            p in
        (r.0 ≡ ok (receive_variable dest src vs nof_modes))
        × PointsTo (receive_variable dest src vs nof_modes).init_value 0 vs
        × (unread r.1 ≡ [])
  variable_unserialize_to-variable_serialize src dest vs nof_modes s full fits =
      let done =
        Writes-Reads (variable_serialize-Writes src vs nof_modes s)
          (variable_unserialize_to-Reads calloc memory dest src vs nof_modes full s) p v empty
          fits in
      (
        done.0,
        PointsTo-store (store dest.init_value 0 (blanks (rounds nof_modes) src.size)) 0 vs (
            omega (
              arith,
              length-store dest.init_value 0 (blanks (rounds nof_modes) src.size),
              s.one_each,
              s.modes_few,
              full,
            )),
        done.1,
      )

  -- A module whose fields are `int`s and whose strings, variables and interfaces are as long as
  -- declared, serialized with CP_INIT into a packet that is all read and has room for it and then
  -- unserialized, with memory to be found, over a module that has no arrays yet, gives it the id,
  -- processor_idx, exec_position, nof_modes, current mode, log_enable, name, binary and `execinfo` of
  -- the source, all its interfaces, and its variables with their id, size, type, name, modes and
  -- initial values, with ten null variables behind these, and the numbers of all of them. The other
  -- fields of the variables are null, those of the module stay as they were, but for next_tslot,
  -- which is 0, and nothing is left in the packet.
  pub module_unserialize_to-module_serialize :
      (layout : Layout) (src dest : Module) (vars : List Valued) (ins outs : List (List ℕ))
      → IsSendableModule layout src vars ins outs
      → dest.inputs ≡ none
      → dest.outputs ≡ none
      → dest.variables ≡ none
      → p.w_ptr + length (encode_module src vars ins outs) ≤ p.size
      → let r =
          (module_serialize layout src cp_init >> module_unserialize_to layout calloc dest cp_init)
            p in
        (r.0 ≡ ok (receive_module dest src vars ins outs)) × (unread r.1 ≡ [])
  module_unserialize_to-module_serialize layout src dest vars ins outs s hi ho hv fits =
      let done =
        Writes-Reads (module_serialize-Writes layout src vars ins outs s)
          (module_unserialize_to-Reads layout calloc memory src vars ins outs s dest hi ho hv) p v
          empty fits in
      (done.0, done.1)
