-- ===== src/Waveform.antt =====
-- oesr/src/common/waveform.c and oesr/src/common/include/waveform.h: the objects that describe a
-- waveform, and the functions that allocate and search them. `int` fields are 32-bit patterns,
-- arrays of a fixed type are lists, a pointer to an array is `none` while it is NULL. Fields that
-- none of the modelled functions touch are left out, and so is which blocks have been freed.
pub mod Alloc
pub mod Arrays
use aloe.Base.{
  ℕ, zero, suc, ◌+◌, ◌-◌, ◌*◌, ◌==◌, ◌<◌, Bool, true, false, not, ◌&&◌, ◌||◌, Option, none, some,
  List, [], ◌∷◌, ◌++◌, length, get_elem?, set, take, replicate, if◌then◌else◌, Outcome, ok, err,
  fault, Call, ◌>>=◌, ◌>>◌, fail, ltb, leb, is_negative, add32,
}

-- STR_LEN, modes_MAX, NOF_USER_VARIABLES
abbrev pub str_len : ℕ
str_len = 64

abbrev pub modes_max : ℕ
modes_max = 25

abbrev pub nof_user_variables : ℕ
nof_user_variables = 10

-- `sizeof` of the structures that hold pointers or `time_t`, which the platform decides:
-- `execinfo_t`, `interface_t`, `variable_t`, `module_t`.
pub record Layout : Type 0 where
  pub execinfo_size : ℕ
  pub interface_size : ℕ
  pub variable_size : ℕ
  pub module_size : ℕ

-- `variable_t`
pub record Variable : Type 0 where
  pub id : ℕ
  pub size : ℕ
  pub name : List ℕ
  pub window : ℕ
  pub period : ℕ
  pub init_value : List (Option (List ℕ))
  pub cur_value : Option (List ℕ)
  pub nof_modes : ℕ
  pub type : ℕ

-- `module_mode_t`
pub record ModuleMode : Type 0 where
  pub cur_mode : ℕ
  pub next_mode : ℕ
  pub next_tslot : ℕ

-- `module_t`; `node_id` is `node->id`. An `execinfo_t` and an `interface_t` are the bytes of the
-- structure.
pub record Module : Type 0 where
  pub variables : Option (List Variable)
  pub inputs : Option (List (List ℕ))
  pub outputs : Option (List (List ℕ))
  pub execinfo : List ℕ
  pub node_id : ℕ
  pub id : ℕ
  pub name : List ℕ
  pub binary : List ℕ
  pub processor_idx : ℕ
  pub exec_position : ℕ
  pub status : ℕ
  pub nof_variables : ℕ
  pub nof_inputs : ℕ
  pub nof_outputs : ℕ
  pub mode : ModuleMode
  pub nof_modes : ℕ
  pub stage : ℕ
  pub log_enable : ℕ

-- `waveform_t`; a `waveform_mode_t` and a `waveform_status_t` are the bytes of the structure.
pub record Waveform : Type 0 where
  pub id : ℕ
  pub modules : Option (List Module)
  pub status : List ℕ
  pub modes : List (List ℕ)
  pub nof_modules : ℕ
  pub name : List ℕ
  pub nof_modes : ℕ
  pub granularity_us : ℕ
  pub precach_pipeline : ℕ

-- The number of rounds of `for (i=0; i<n; i++)` for an `int` n.
abbrev pub rounds : ℕ → ℕ
rounds n = if is_negative n then 0 else n

-- The bytes of a structure or of a block that `calloc` returns.
abbrev pub zeros : ℕ → List ℕ
zeros n = replicate n 0

abbrev pub null_variable : Variable
null_variable = record {
  id = 0;
  size = 0;
  name = zeros str_len;
  window = 0;
  period = 0;
  init_value = replicate modes_max none;
  cur_value = none;
  nof_modes = 0;
  type = 0;
}

abbrev pub null_module : Layout → Module
null_module layout = record {
  variables = none;
  inputs = none;
  outputs = none;
  execinfo = zeros layout.execinfo_size;
  node_id = 0;
  id = 0;
  name = zeros str_len;
  binary = zeros str_len;
  processor_idx = 0;
  exec_position = 0;
  status = 0;
  nof_variables = 0;
  nof_inputs = 0;
  nof_outputs = 0;
  mode = record { cur_mode = 0; next_mode = 0; next_tslot = 0 };
  nof_modes = 0;
  stage = 0;
  log_enable = 0;
}

-- `waveform_find_module_id`: the index of the first module of that id.
pub find_module_id : List Module → ℕ → Option ℕ
find_module_id [] module_id = none
find_module_id (m ∷ ms) module_id =
    if m.id == module_id
    then some 0
    else elim (find_module_id ms module_id) [ none ↦ none | some i ↦ some (i + 1) ]

-- `strncmp(a, b, n) == 0`; a string that ends with no NUL in its array is not read further.
unfoldable pub str_equal : ℕ → List ℕ → List ℕ → Bool
str_equal zero a b = true
str_equal (suc n) [] b = true
str_equal (suc n) (x ∷ a) [] = true
str_equal (suc n) (x ∷ a) (y ∷ b) = (x == y) && ((x == 0) || str_equal n a b)

-- `waveform_find_module_name`
pub find_module_name : List Module → List ℕ → Option ℕ
find_module_name [] name = none
find_module_name (m ∷ ms) name =
    if str_equal str_len m.name name
    then some 0
    else elim (find_module_name ms name) [ none ↦ none | some i ↦ some (i + 1) ]

-- `calloc n size` says whether `n` elements of `size` bytes are found when `calloc` or `realloc` is
-- asked for them; `pool_alloc` and `pool_realloc` pass it on.
module _ (calloc : ℕ → ℕ → Bool) where
  abbrev pub pool_alloc {ℓ} : {A : Type ℓ} → A → ℕ → ℕ → Option (List A)
  pool_alloc zeroed n size = if calloc n size then some (replicate n zeroed) else none

  -- The loop of `variable_alloc` from index `i`, with `n` rounds left.
  pub alloc_values : ℕ → ℕ → Call Variable (Unit {0})
  alloc_values zero i v = (ok tt, v)
  alloc_values (suc n) i v =
      if leb (length v.init_value) i
      then (fault, v)
      else if calloc 1 v.size
      then alloc_values n (i + 1)
          (record v { init_value = set v.init_value i (some (zeros v.size)) })
      else (err, record v { init_value = set v.init_value i none })

  pub variable_alloc : ℕ → Call Variable (Unit {0})
  variable_alloc nof_modes v =
      (alloc_values (rounds nof_modes) 0 >> λ u. (ok tt, record u { nof_modes = nof_modes })) v

-- The loop of `variable_free` touches `init_value[i]` for each mode and frees what is there.
pub variable_free : Variable → Outcome (Unit {0})
variable_free v = if ltb (length v.init_value) (rounds v.nof_modes) then fault else ok tt

-- The loop of `module_free` over its variables, `n` of them left.
free_variables : ℕ → List Variable → Outcome (Unit {0})
free_variables zero vs = ok tt
free_variables (suc n) [] = fault
free_variables (suc n) (v ∷ vs) = elim (variable_free v) [
  | ok _ ↦ free_variables n vs
  | err ↦ err
  | fault ↦ fault
]

pub module_free : Call Module (Unit {0})
module_free m =
    let m' = record m { inputs = none; outputs = none } in
    let done = record m {
      inputs = none;
      outputs = none;
      variables = none;
      nof_inputs = 0;
      nof_outputs = 0;
      nof_variables = 0;
    } in
    elim m.variables [
      | none ↦ (ok tt, done)
      | some vs ↦ elim (free_variables (rounds m.nof_variables) vs) [
        | ok _ ↦ (ok tt, done)
        | err ↦ (err, m')
        | fault ↦ (fault, m')
      ]
    ]

abbrev pub is_null {ℓ} : {A : Type ℓ} → Option A → Bool
is_null none = true
is_null (some a) = false

module _ (layout : Layout) (calloc : ℕ → ℕ → Bool) where
  -- What the three calls of `pool_alloc` in `module_alloc` leave in the module.
  abbrev pub with_arrays : ℕ → ℕ → ℕ → Module → Module
  with_arrays nof_inputs nof_outputs nof_variables m = record m {
    inputs = pool_alloc calloc (zeros layout.interface_size) nof_inputs layout.interface_size;
    outputs = pool_alloc calloc (zeros layout.interface_size) nof_outputs layout.interface_size;
    variables = pool_alloc calloc null_variable nof_variables layout.variable_size;
  }

  pub module_alloc : ℕ → ℕ → ℕ → Call Module (Unit {0})
  module_alloc nof_inputs nof_outputs nof_variables m =
      if not (is_null m.inputs && (is_null m.outputs && is_null m.variables))
      then (err, m)
      else let m' = with_arrays nof_inputs nof_outputs nof_variables m in
        if is_null m'.inputs || (is_null m'.outputs || is_null m'.variables)
        then (module_free >> fail) m'
        else (
          ok tt,
          record m' {
            nof_inputs = nof_inputs;
            nof_outputs = nof_outputs;
            nof_variables = nof_variables;
          },
        )

  -- `realloc` keeps the modules that there were; `memset` clears those behind them, through NULL
  -- where `realloc` finds no memory.
  pub waveform_alloc : ℕ → Call Waveform (Unit {0})
  waveform_alloc nof_modules w =
      let total = add32 w.nof_modules nof_modules in
      if calloc total layout.module_size
      then elim w.modules [
        | none ↦ (
          ok tt,
          record w { nof_modules = total; modules = some (replicate total (null_module layout)) },
        )
        | some ms ↦ (
          ok tt,
          record w {
            nof_modules = total;
            modules = some (take w.nof_modules ms ++ replicate nof_modules (null_module layout));
          },
        )
      ]
      else elim w.modules [
        | none ↦ (err, record w { nof_modules = total; modules = none })
        | some ms ↦ (fault, record w { nof_modules = total; modules = none })
      ]

pub waveform_free : Call Waveform (Unit {0})
waveform_free w = (ok tt, record w { modules = none; nof_modules = 0 })
