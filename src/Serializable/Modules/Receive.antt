-- ===== src/Serializable/Modules/Receive.antt =====
-- What `module_unserialize_to` makes of a packet that `module_serialize` filled.
use aloe.Base.{
  ℕ, ◌+◌, ◌≡◌, Bool, true, none, some, List, [], ◌++◌, map, length, replicate, All, arith, add32,
}
use aloe.Packet.Stream.{Reads, Reads-get_int, Reads->>=, Reads-map, Reads-get_sized}
use aloe.Waveform.{Layout, Module, str_len, nof_user_variables, null_variable, zeros}
use aloe.Waveform.Arrays.{module_alloc_lem}
use aloe.Serializable.{
  cp_init, map_each, variable_unserialize_to, interface_unserialize_to, execinfo_unserialize_to,
}
use aloe.Serializable.Values.{
  IsSendable, encode_variable, receive_variable, variable_unserialize_to-Reads,
}
use aloe.Serializable.Arrays.{encode_all, Filled-replicate, Reads-map_each, All-map, rounds_small}
use aloe.Serializable.Modules.{module_unserialize_to, get_header, get_arrays}
use aloe.Serializable.Modules.Wire.{
  Valued, IsSendableModule, encode_header, encode_arrays, encode_module, receive_module,
}

module _ (layout : Layout) (calloc : ℕ → ℕ → Bool) (memory : (n size : ℕ) → calloc n size ≡ true)
    (src : Module) (vars : List Valued) (ins outs : List (List ℕ))
    (s : IsSendableModule layout src vars ins outs) where
  interfaces-Reads :
      (items : List (List ℕ))
      → All (λ b. length b ≡ layout.interface_size) items
      → Reads
          (map_each
            (λ _. interface_unserialize_to layout)
            (length items)
            (replicate (length items) (zeros layout.interface_size)))
          (encode_all (λ b. b) items)
          (map (λ b. b) items ++ [])
  unfolding interface_unserialize_to
  interfaces-Reads items ok_all = Reads-map_each (
      Filled-replicate (λ _. interface_unserialize_to layout) (List ℕ) (λ b. b) (λ b. b)
        (zeros layout.interface_size) items (length items) 0 (omega arith)
        (All-map (λ b. length b ≡ layout.interface_size)
          (λ b. Reads (interface_unserialize_to layout) b b)
          (λ b e.
            Reads-get_sized b layout.interface_size layout.interface_size e s.layout_pos.1
              (omega arith))
          items ok_all))

  variables-Reads :
      Reads
        (map_each
          (λ v. variable_unserialize_to calloc v cp_init src.nof_modes)
          (length vars)
          (replicate (length vars + nof_user_variables) null_variable))
        (encode_all (λ v. encode_variable v.0 v.1) vars)
        (map (λ v. receive_variable null_variable v.0 v.1 src.nof_modes) vars
          ++ replicate nof_user_variables null_variable)
  variables-Reads = Reads-map_each (
      Filled-replicate (λ v. variable_unserialize_to calloc v cp_init src.nof_modes) Valued
        (λ v. encode_variable v.0 v.1) (λ v. receive_variable null_variable v.0 v.1 src.nof_modes)
        null_variable vars (length vars + nof_user_variables) nof_user_variables (omega arith)
        (All-map (λ v. IsSendable v.0 v.1 src.nof_modes)
          (λ v.
            Reads (variable_unserialize_to calloc null_variable cp_init src.nof_modes)
              (encode_variable v.0 v.1) (receive_variable null_variable v.0 v.1 src.nof_modes))
          (λ v.
            variable_unserialize_to-Reads calloc memory null_variable v.0 v.1 src.nof_modes
              (omega arith))
          vars s.variables_ok))

  abbrev headed : Module → Module
  headed dest = record dest {
    id = src.id;
    processor_idx = src.processor_idx;
    exec_position = src.exec_position;
    nof_modes = src.nof_modes;
    mode = record { cur_mode = src.mode.cur_mode; next_mode = dest.mode.next_mode; next_tslot = 0 };
    log_enable = src.log_enable;
    name = src.name;
    binary = src.binary;
    execinfo = src.execinfo;
  }

  header-Reads : (dest : Module) → Reads (get_header layout dest) (encode_header src) (headed dest)
  unfolding get_header execinfo_unserialize_to
  header-Reads dest = Reads->>= _ (Reads-get_int src.id s.words.0) (
      Reads->>= _ (Reads-get_int src.processor_idx s.words.1) (
        Reads->>= _ (Reads-get_int src.exec_position s.words.2) (
          Reads->>= _ (Reads-get_int src.nof_modes s.words.3) (
            Reads->>= _ (Reads-get_int src.mode.cur_mode s.words.4) (
              Reads->>= _ (Reads-get_int src.log_enable s.words.5) (
                Reads->>= _
                  (Reads-get_sized src.name str_len str_len s.name_full (omega arith) (omega arith))
                  (Reads->>= _
                    (Reads-get_sized src.binary str_len str_len s.binary_full (omega arith)
                      (omega arith))
                    (Reads-map (λ bs. record (headed dest) { execinfo = bs })
                      (Reads-get_sized src.execinfo layout.execinfo_size layout.execinfo_size
                        s.execinfo_full s.layout_pos.0 (omega arith))))))))))

  abbrev made : Module → Module
  made dest = record (headed dest) {
    inputs = some (replicate (length ins) (zeros layout.interface_size));
    outputs = some (replicate (length outs) (zeros layout.interface_size));
    variables = some (replicate (length vars + nof_user_variables) null_variable);
    nof_inputs = length ins;
    nof_outputs = length outs;
    nof_variables = length vars + nof_user_variables;
  }

  arrays-Reads :
      (dest : Module)
      → Reads
          (get_arrays layout calloc cp_init (length vars) (made dest))
          (encode_arrays vars ins outs)
          (receive_module dest src vars ins outs)
  unfolding get_arrays
  arrays-Reads dest =
      rw
        (
          rounds_small (length vars) s.counts_small.0,
          rounds_small (length ins) s.counts_small.1,
          rounds_small (length outs) s.counts_small.2,
        )
        (Reads->>= _ variables-Reads (
          Reads->>= _ (interfaces-Reads ins s.inputs_ok) (
            Reads-map (λ bs. record (receive_module dest src vars ins outs) { outputs = some bs })
              (interfaces-Reads outs s.outputs_ok))))

  pub module_unserialize_to-Reads :
      (dest : Module)
      → dest.inputs ≡ none
      → dest.outputs ≡ none
      → dest.variables ≡ none
      → Reads
          (module_unserialize_to layout calloc dest cp_init)
          (encode_module src vars ins outs)
          (receive_module dest src vars ins outs)
  unfolding module_unserialize_to
  module_unserialize_to-Reads dest hi ho hv = Reads->>= _ (header-Reads dest) (
      Reads->>= _ (Reads-get_int (length vars) (omega (arith, s.counts_small.0))) (
        Reads->>= _ (Reads-get_int (length ins) (omega (arith, s.counts_small.1))) (
          Reads->>= _ (Reads-get_int (length outs) (omega (arith, s.counts_small.2))) (
            rw
              (
                wide,
                module_alloc_lem layout calloc memory (length ins) (length outs)
                    (length vars + nof_user_variables) (headed dest) hi ho hv,
              )
              (arrays-Reads dest)))))
    where
      wide : add32 (length vars) nof_user_variables ≡ length vars + nof_user_variables
      wide = omega (arith, s.counts_small.0)
