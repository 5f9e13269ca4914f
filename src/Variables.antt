-- ===== src/Variables.antt =====
-- oesr/src/oesr_api/oesr_var.c: the parameters of a module that runs, with a value for each mode; and
-- the search and creation of a variable in oesr/src/node/nod_module.c.
--
-- A handle of a variable is its index in the module's array. Sizes are `int` patterns. A fault is an
-- access out of an array or through NULL. Names end within their arrays, and the array of variables has
-- `nof_variables` entries.
pub mod Values
pub mod Switching
mod Tests
use aloe.Base.{
  ℕ, zero, suc, ◌+◌, ◌-◌, ◌==◌, Bool, true, false, not, ◌&&◌, ◌||◌, ltb, leb, lt_int, is_negative,
  if◌then◌else◌, List, [], ◌∷◌, ◌++◌, length, get_elem?, set, take, drop, min, Option, none, some,
  Outcome, ok, err, fault,
}
use aloe.Waveform.{Layout, Variable, Module, ModuleMode, str_len, str_equal, variable_alloc}
use aloe.Serializable.{array}

-- `(variable->size > size)?size:variable->size`
abbrev pub copy_size : ℕ → ℕ → ℕ
copy_size size variable_size = if lt_int size variable_size then size else variable_size

-- A change of mode is planned for the time slot `now` or an earlier one.
abbrev pub change_due : ℕ → ModuleMode → Bool
change_due now mode =
    not (ModuleMode.next_tslot mode == 0) && not (lt_int now (ModuleMode.next_tslot mode))

-- A change of mode that is due takes effect.
pub switch_mode : ℕ → Module → Module
switch_mode now m =
    let mode = Module.mode m in
    if change_due now mode
    then record m { mode = record mode { cur_mode = ModuleMode.next_mode mode; next_tslot = 0 } }
    else m

-- `memcpy(value, init_value[cur_mode], cpy_sz)`
pub read_value : ℕ → Option (Option (List ℕ)) → Outcome (List ℕ)
read_value cpy_sz none = fault
read_value cpy_sz (some none) = fault
read_value cpy_sz (some (some block)) =
    if leb cpy_sz (length block) then ok (take cpy_sz block) else fault

pub read_variable : ℕ → ℕ → Option Variable → Outcome (List ℕ)
unfolding read_value
read_variable size cur_mode none = fault
read_variable size cur_mode (some v) =
    read_value (copy_size size (Variable.size v)) (get_elem? (Variable.init_value v) cur_mode)

-- At the time slot `now`.
pub oesr_var_param_get_value : Module → ℕ → ℕ → ℕ → Outcome (List ℕ) × Module
unfolding switch_mode read_variable
oesr_var_param_get_value m parameter size now =
    let m' = switch_mode now m in
    if is_negative size || size == 0 then (err, m) else (
      read_variable size (ModuleMode.cur_mode (Module.mode m'))
          (get_elem? (array (Module.variables m')) parameter),
      m',
    )

-- `memcpy(init_value[cur_mode], value, cpy_sz)`: the variable after it.
pub write_value : ℕ → ℕ → List ℕ → Variable → Option (Option (List ℕ)) → Outcome Variable
write_value cpy_sz cur_mode value v none = fault
write_value cpy_sz cur_mode value v (some none) = fault
write_value cpy_sz cur_mode value v (some (some block)) =
    if leb cpy_sz (length block) && leb cpy_sz (length value)
    then ok (record v {
      init_value =
          set (Variable.init_value v) cur_mode (some (take cpy_sz value ++ drop cpy_sz block));
    })
    else fault

pub put_variable : Module → ℕ → ℕ → Outcome Variable → Outcome ℕ × Module
put_variable m parameter cpy_sz (ok v) =
    (ok cpy_sz, record m { variables = some (set (array (Module.variables m)) parameter v) })
put_variable m parameter cpy_sz err = (err, m)
put_variable m parameter cpy_sz fault = (fault, m)

pub write_variable : Module → ℕ → List ℕ → ℕ → Option Variable → Outcome ℕ × Module
unfolding write_value put_variable
write_variable m parameter value size none = (fault, m)
write_variable m parameter value size (some v) =
    let cpy_sz = copy_size size (Variable.size v) in
    let cur_mode = ModuleMode.cur_mode (Module.mode m) in
    put_variable m parameter cpy_sz
      (write_value cpy_sz cur_mode value v (get_elem? (Variable.init_value v) cur_mode))

pub oesr_var_param_set_value : Module → ℕ → List ℕ → ℕ → Outcome ℕ × Module
unfolding write_variable
oesr_var_param_set_value m parameter value size =
    if is_negative size || size == 0
    then (err, m)
    else write_variable m parameter value size (get_elem? (array (Module.variables m)) parameter)

-- The index is not compared with `nof_variables`.
pub oesr_var_param_set_value_idx : Module → ℕ → List ℕ → ℕ → Outcome ℕ × Module
unfolding oesr_var_param_set_value
oesr_var_param_set_value_idx m idx value size =
    if is_negative idx then (err, m) else oesr_var_param_set_value m idx value size

-- The loop of `nod_module_variable_get`, over the variables that are left.
pub find_variable : List ℕ → List Variable → Option ℕ
find_variable name [] = none
find_variable name (v ∷ vs) =
    if str_equal str_len name (Variable.name v)
    then some 0
    else elim (find_variable name vs) [ none ↦ none | some i ↦ some (i + 1) ]

pub oesr_var_param_get : Module → List ℕ → Option ℕ
unfolding find_variable
oesr_var_param_get m name =
    find_variable name (take (Module.nof_variables m) (array (Module.variables m)))

-- `oesr_var_close`
pub oesr_var_close : Variable → Variable
oesr_var_close v = record v { size = 0; id = 0; cur_value = none }
