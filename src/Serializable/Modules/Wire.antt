-- ===== src/Serializable/Modules/Wire.antt =====
-- Modules as they are sent: the objects that the theorems cover, the bytes that stand for them, and
-- what the receiver makes of those.
use aloe.Base.{
  ℕ, ◌+◌, ◌≤◌, ◌<◌, ◌≡◌, some, List, [], ◌++◌, map, length, replicate, All, word_mod, bytes_of_int,
}
use aloe.Packet.Inv.{max_size}
use aloe.Waveform.{Layout, Variable, Module, str_len, nof_user_variables, null_variable}
use aloe.Serializable.Values.{IsSendable, encode_variable, receive_variable}
use aloe.Serializable.Arrays.{encode_all}

-- A variable beside its initial values.
abbrev pub Valued : Type 0
Valued = Variable × List (List ℕ)

-- A module as the manager holds it, with the variables `vars` and the interfaces `ins` and `outs`.
pub record IsSendableModule (layout : Layout) (src : Module) (vars : List Valued)
    (ins outs : List (List ℕ)) : Type 0 where
  pub spare_vars : List Variable
  pub spare_ins : List (List ℕ)
  pub spare_outs : List (List ℕ)
  pub variables_at : src.variables ≡ some (map (λ v. v.0) vars ++ spare_vars)
  pub inputs_at : src.inputs ≡ some (map (λ b. b) ins ++ spare_ins)
  pub outputs_at : src.outputs ≡ some (map (λ b. b) outs ++ spare_outs)
  pub variables_counted : src.nof_variables ≡ length vars
  pub inputs_counted : src.nof_inputs ≡ length ins
  pub outputs_counted : src.nof_outputs ≡ length outs
  pub counts_small : (length vars ≤ max_size) × (length ins ≤ max_size) × (length outs ≤ max_size)
  pub words :
      (src.id < word_mod)
      × (src.processor_idx < word_mod)
      × (src.exec_position < word_mod)
      × (src.nof_modes < word_mod)
      × (src.mode.cur_mode < word_mod)
      × (src.log_enable < word_mod)
  pub name_full : length src.name ≡ str_len
  pub binary_full : length src.binary ≡ str_len
  pub execinfo_full : length src.execinfo ≡ layout.execinfo_size
  pub layout_pos : (0 < layout.execinfo_size) × (0 < layout.interface_size)
  pub layout_small : (layout.execinfo_size ≤ max_size) × (layout.interface_size ≤ max_size)
  pub variables_ok : All (λ v. IsSendable v.0 v.1 src.nof_modes) vars
  pub inputs_ok : All (λ b. length b ≡ layout.interface_size) ins
  pub outputs_ok : All (λ b. length b ≡ layout.interface_size) outs

abbrev pub encode_header : Module → List ℕ
encode_header src =
    bytes_of_int src.id
    ++ (bytes_of_int src.processor_idx
        ++ (bytes_of_int src.exec_position
            ++ (bytes_of_int src.nof_modes
                ++ (bytes_of_int src.mode.cur_mode
                    ++ (bytes_of_int src.log_enable
                        ++ (src.name ++ (src.binary ++ src.execinfo)))))))

abbrev pub encode_arrays : List Valued → List (List ℕ) → List (List ℕ) → List ℕ
encode_arrays vars ins outs =
    encode_all (λ v. encode_variable v.0 v.1) vars
    ++ (encode_all (λ b. b) ins ++ encode_all (λ b. b) outs)

abbrev pub encode_module : Module → List Valued → List (List ℕ) → List (List ℕ) → List ℕ
encode_module src vars ins outs =
    encode_header src
    ++ (bytes_of_int (length vars)
        ++ (bytes_of_int (length ins)
            ++ (bytes_of_int (length outs) ++ encode_arrays vars ins outs)))

-- What `module_unserialize_to` makes of `dest`: its arrays come from `module_alloc`, which makes room
-- for ten more variables.
abbrev pub receive_module : Module → Module → List Valued → List (List ℕ) → List (List ℕ) → Module
receive_module dest src vars ins outs = record dest {
  id = src.id;
  processor_idx = src.processor_idx;
  exec_position = src.exec_position;
  nof_modes = src.nof_modes;
  mode = record { cur_mode = src.mode.cur_mode; next_mode = dest.mode.next_mode; next_tslot = 0 };
  log_enable = src.log_enable;
  name = src.name;
  binary = src.binary;
  execinfo = src.execinfo;
  nof_variables = length vars + nof_user_variables;
  nof_inputs = length ins;
  nof_outputs = length outs;
  variables = some (
      map (λ v. receive_variable null_variable v.0 v.1 src.nof_modes) vars
      ++ replicate nof_user_variables null_variable);
  inputs = some (map (λ b. b) ins ++ []);
  outputs = some (map (λ b. b) outs ++ []);
}
