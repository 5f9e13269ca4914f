-- ===== src/Serializable/Modules/Send.antt =====
-- What `module_serialize` puts into a packet.
use aloe.Base.{ℕ, ◌≡◌, List, ◌++◌, map, length, All, arith}
use aloe.Packet.Stream.{Writes, Writes-add_int, Writes->>, Writes-add_sized}
use aloe.Waveform.{Layout, Module, str_len}
use aloe.Serializable.{
  cp_init, for_each, variable_serialize, interface_serialize, execinfo_serialize,
}
use aloe.Serializable.Values.{IsSendable, encode_variable, variable_serialize-Writes}
use aloe.Serializable.Arrays.{encode_all, Writes-for_each, All-map, rounds_small}
use aloe.Serializable.Modules.{module_serialize, add_header}
use aloe.Serializable.Modules.Wire.{Valued, IsSendableModule, encode_header, encode_module}

module _ (layout : Layout) (src : Module) (vars : List Valued) (ins outs : List (List ℕ))
    (s : IsSendableModule layout src vars ins outs) where
  interfaces-Writes :
      (items spare : List (List ℕ))
      → All (λ b. length b ≡ layout.interface_size) items
      → Writes
          (for_each (interface_serialize layout) (length items) (map (λ b. b) items ++ spare))
          (encode_all (λ b. b) items)
  unfolding interface_serialize
  interfaces-Writes items spare ok_all =
      Writes-for_each (interface_serialize layout) (List ℕ) (λ b. b) (λ b. b) items spare
        (All-map (λ b. length b ≡ layout.interface_size)
          (λ b. Writes (interface_serialize layout b) b)
          (λ b e. Writes-add_sized b layout.interface_size e s.layout_small.1) items ok_all)

  variables-Writes :
      Writes
        (for_each
          (λ v. variable_serialize v cp_init src.nof_modes)
          (length vars)
          (map (λ v. v.0) vars ++ s.spare_vars))
        (encode_all (λ v. encode_variable v.0 v.1) vars)
  variables-Writes =
      Writes-for_each (λ v. variable_serialize v cp_init src.nof_modes) Valued (λ v. v.0)
        (λ v. encode_variable v.0 v.1) vars s.spare_vars
        (All-map (λ v. IsSendable v.0 v.1 src.nof_modes)
          (λ v. Writes (variable_serialize v.0 cp_init src.nof_modes) (encode_variable v.0 v.1))
          (λ v. variable_serialize-Writes v.0 v.1 src.nof_modes) vars s.variables_ok)

  execinfo-Writes : Writes (execinfo_serialize layout src.execinfo) src.execinfo
  unfolding execinfo_serialize
  execinfo-Writes =
      Writes-add_sized src.execinfo layout.execinfo_size s.execinfo_full s.layout_small.0

  header-Writes : Writes (add_header layout src) (encode_header src)
  unfolding add_header
  header-Writes = Writes->> (Writes-add_int src.id) (
      Writes->> (Writes-add_int src.processor_idx) (
        Writes->> (Writes-add_int src.exec_position) (
          Writes->> (Writes-add_int src.nof_modes) (
            Writes->> (Writes-add_int src.mode.cur_mode) (
              Writes->> (Writes-add_int src.log_enable) (
                Writes->> (Writes-add_sized src.name str_len s.name_full (omega arith)) (
                  Writes->> (Writes-add_sized src.binary str_len s.binary_full (omega arith))
                    execinfo-Writes)))))))

  pub module_serialize-Writes :
      Writes (module_serialize layout src cp_init) (encode_module src vars ins outs)
  unfolding module_serialize add_header
  module_serialize-Writes =
      rw
        (
          s.variables_at,
          s.inputs_at,
          s.outputs_at,
          s.variables_counted,
          s.inputs_counted,
          s.outputs_counted,
          rounds_small (length vars) s.counts_small.0,
          rounds_small (length ins) s.counts_small.1,
          rounds_small (length outs) s.counts_small.2,
        )
        (Writes->> header-Writes (
          Writes->> (Writes-add_int (length vars)) (
            Writes->> (Writes-add_int (length ins)) (
              Writes->> (Writes-add_int (length outs)) (
                Writes->> variables-Writes (
                  Writes->> (interfaces-Writes ins s.spare_ins s.inputs_ok)
                    (interfaces-Writes outs s.spare_outs s.outputs_ok)))))))
