-- ===== src/Serializable/Wave.antt =====
-- `waveform_serialize` and `waveform_unserialize_to` of oesr/src/common/serializable.c, and
-- `nod_waveform_serialize` of oesr/src/node/nod_waveform.c, whose packets the latter reads. A
-- waveform's array of modules holds `nof_modules` of them.
pub mod Send
pub mod Truncated
use aloe.Base.{
  ℕ, zero, suc, ◌+◌, ◌==◌, Bool, true, false, Option, none, some, List, [], ◌∷◌, Outcome, ok, err,
  fault, Call, ◌>>=◌, ◌>>◌, return, fail, crash, if◌then◌else◌, set, get_elem?, bytes_of_int, ◌++◌,
}
use aloe.Packet.{Packet, packet_add_data}
use aloe.Packet.Stream.{add_int, get_int}
use aloe.Waveform.{
  Layout, Module, ModuleMode, Waveform, rounds, str_len, waveform_alloc, find_module_id,
}
use aloe.Serializable.{
  CopyData, Action, waveform_load, waveform_status, waveform_mode, code_of_copy, code_of_action,
  add_bytes, on_object, waveform_mode_serialize, execinfo_serialize, execinfo_unserialize_to,
  for_each, array,
}
use aloe.Serializable.Modules.{module_serialize, module_unserialize_to}

-- The counting loop: how many of the first `n` modules are on the node; `none` for a read beyond
-- the array.
pub count_on_node : ℕ → ℕ → List Module → Option ℕ
count_on_node loading_node_id zero ms = some 0
count_on_node loading_node_id (suc n) [] = none
count_on_node loading_node_id (suc n) (m ∷ ms) = elim (count_on_node loading_node_id n ms) [
  | none ↦ none
  | some k ↦ some (if loading_node_id == m.node_id then k + 1 else k)
]

add_count : Option ℕ → Call Packet (Unit {0})
add_count none = crash
add_count (some nof_modules) = add_int nof_modules

-- `sizeof(waveform_status_t)` and `sizeof(module_mode_t)`
abbrev waveform_status_size : ℕ
waveform_status_size = 8

abbrev module_mode_size : ℕ
module_mode_size = 12

-- The bytes of a `module_mode_t`.
abbrev pub mode_bytes : ModuleMode → List ℕ
mode_bytes m = bytes_of_int m.cur_mode ++ (bytes_of_int m.next_mode ++ bytes_of_int m.next_tslot)

-- The result of `packet_add_data` is dropped: the loop goes on after a failure.
add_ignored : List ℕ → ℕ → Call Packet (Unit {0})
add_ignored bs len p = elim (packet_add_data (some bs) len p).0 [
  | fault ↦ packet_add_data (some bs) len p
  | _ ↦ (ok tt, (packet_add_data (some bs) len p).1)
]

module _ (layout : Layout) where
  -- `if (loading_node_id == node->id) module_serialize(...)`
  add_if_on_node : ℕ → CopyData → Module → Call Packet (Unit {0})
  add_if_on_node loading_node_id copy_data m =
      if loading_node_id == m.node_id then module_serialize layout m copy_data else return tt

  pub add_mode_if_on_node : ℕ → Module → Call Packet (Unit {0})
  add_mode_if_on_node loading_node_id m =
      if loading_node_id == m.node_id
      then (add_int m.id >> add_ignored (mode_bytes m.mode) module_mode_size)
      else return tt

  unfoldable pub waveform_serialize : Waveform → ℕ → Action → CopyData → Call Packet (Unit {0})
  unfolding add_count add_if_on_node add_mode_if_on_node add_ignored
  waveform_serialize src loading_node_id waveform_load copy_data = do
    add_int (code_of_action waveform_load)
    add_int (code_of_copy copy_data)
    add_int src.id
    add_int src.granularity_us
    add_int src.precach_pipeline
    add_bytes src.name str_len
    add_int src.nof_modes
    for_each waveform_mode_serialize (rounds src.nof_modes) src.modes
    add_count (count_on_node loading_node_id (rounds src.nof_modules) (array src.modules))
    for_each (add_if_on_node loading_node_id copy_data) (rounds src.nof_modules) (array src.modules)
  waveform_serialize src loading_node_id waveform_status copy_data = do
    add_int (code_of_action waveform_status)
    add_bytes src.status waveform_status_size
  waveform_serialize src loading_node_id waveform_mode copy_data = do
    add_int (code_of_action waveform_mode)
    add_count (count_on_node loading_node_id (rounds src.nof_modules) (array src.modules))
    for_each (add_mode_if_on_node loading_node_id) (rounds src.nof_modules) (array src.modules)

  -- The node's answer: all of each module, or its `execinfo` alone.
  pub nod_waveform_serialize : List Module → ℕ → ℕ → CopyData → Call Packet (Unit {0})
  nod_waveform_serialize modules nof_modules all_module copy_data = do
    add_int all_module
    add_int nof_modules
    for_each
        (λ m.
          add_int m.id
          >> (if all_module == 0
              then execinfo_serialize layout m.execinfo
              else module_serialize layout m copy_data))
        (rounds nof_modules) modules

  module _ (calloc : ℕ → ℕ → Bool) where
    get_report : ℕ → CopyData → Module → Call Packet Module
    get_report all_module copy_data m =
        if all_module == 0
        then (execinfo_unserialize_to layout >>= λ bs. return (record m { execinfo = bs }))
        else module_unserialize_to layout calloc m copy_data

    -- The loop over the modules of the packet, `n` of them left.
    pub get_reports : ℕ → ℕ → CopyData → List Module → Call Packet (List Module)
    unfolding get_report
    get_reports zero all_module copy_data ms = return ms
    get_reports (suc n) all_module copy_data ms = get_int >>= λ module_id.
        elim (find_module_id ms module_id) [
          | none ↦ fail
          | some i ↦ elim (get_elem? ms i) [
            | none ↦ crash
            | some m ↦ get_report all_module copy_data m >>= λ m'.
                get_reports n all_module copy_data (set ms i m')
          ]
        ]

    pub waveform_unserialize_to : Waveform → CopyData → Call Packet Waveform
    waveform_unserialize_to dest copy_data = do
      all_module ← get_int
      nof_modules ← get_int
      w ← on_object (
          if dest.nof_modules == 0
          then waveform_alloc layout calloc nof_modules dest
          else (ok tt, dest))
      ms ← get_reports (rounds nof_modules) all_module copy_data (array w.modules)
      return (record w { modules = some ms })
