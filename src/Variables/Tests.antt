-- ===== src/Variables/Tests.antt =====
-- A module with two parameters and two modes.
use aloe.Base.{arith, ℕ, ◌≡◌, refl, lt_int, List, [], ◌∷◌, none, some, ok, err, if◌then◌else◌}
use aloe.Waveform.{Layout, Variable, Module, ModuleMode, null_module, str_equal}
use aloe.Node.{NodModule, null_nod_module}
use aloe.Variables.{oesr_var_param_get_value, oesr_var_param_set_value, oesr_var_param_get}
use aloe.Variables.Values.{get_value-set_value}
use aloe.Variables.Switching.{planned, switched, get_value-plan}

abbrev layout : Layout
layout = record { execinfo_size = 8; interface_size = 8; variable_size = 8; module_size = 8 }

abbrev variable : ℕ → List ℕ → Variable
variable id name = record {
  id = id;
  size = 2;
  name = name;
  window = 0;
  period = 0;
  init_value = some (1 ∷ id ∷ []) ∷ some (2 ∷ id ∷ []) ∷ [];
  cur_value = none;
  nof_modes = 2;
  type = 0;
}

abbrev two_modes : Module
two_modes = record (null_module layout) {
  variables = some (variable 7 (97 ∷ 0 ∷ []) ∷ variable 8 (98 ∷ 0 ∷ []) ∷ []);
  nof_variables = 2;
}

abbrev on_node : NodModule
on_node = record (null_nod_module layout) { parent = two_modes }

abbrev plan_of : ℕ → ModuleMode
plan_of tslot = record { cur_mode = 0; next_mode = 1; next_tslot = tslot }

named : oesr_var_param_get two_modes (98 ∷ 0 ∷ []) ≡ some 1
unfolding oesr_var_param_get str_equal
named = refl

unnamed : oesr_var_param_get two_modes (99 ∷ 0 ∷ []) ≡ none
unfolding oesr_var_param_get str_equal
unnamed = refl

no_size : (oesr_var_param_get_value two_modes 0 0 5).0 ≡ err
unfolding oesr_var_param_get_value
no_size = refl

-- A change is due at slot 5; a value that is set then goes to the mode that ends, and reading gives
-- that of the other mode.
set_when_due :
    (oesr_var_param_get_value
      (oesr_var_param_set_value (record two_modes { mode = plan_of 5 }) 0 (9 ∷ 9 ∷ []) 2).1
      0
      2
      5).0
    ≡ ok (2 ∷ 7 ∷ [])
unfolding oesr_var_param_get_value oesr_var_param_set_value
set_when_due = refl

get_value-set_value_example :
    (m' : Module) × (oesr_var_param_set_value two_modes 0 (9 ∷ 9 ∷ 9 ∷ []) 3 ≡ (ok 2, m'))
    × (oesr_var_param_get_value m' 0 3 5 ≡ (ok (9 ∷ 9 ∷ []), m'))
    × ((oesr_var_param_get_value m' 1 2 5).0 ≡ (oesr_var_param_get_value two_modes 1 2 5).0)
get_value-set_value_example =
    get_value-set_value two_modes 0 1 3 2 5 (9 ∷ 9 ∷ 9 ∷ []) (1 ∷ 7 ∷ []) (variable 7 (97 ∷ 0 ∷ []))
      (omega arith) refl refl (omega arith) refl (λ e. absurd (omega (arith, e))) refl refl refl
      refl (omega arith)

get_value-plan_example : oesr_var_param_get_value (planned on_node (plan_of 5)) 0 2 5 ≡ (
    if lt_int 5 5
    then (ok (1 ∷ 7 ∷ []), planned on_node (plan_of 5))
    else (ok (2 ∷ 7 ∷ []), switched (planned on_node (plan_of 5))))
get_value-plan_example =
    get_value-plan on_node (plan_of 5) 0 2 5 (variable 7 (97 ∷ 0 ∷ [])) (1 ∷ 7 ∷ []) (2 ∷ 7 ∷ [])
      (omega arith) (omega arith) (λ e. absurd (omega (arith, e))) (omega arith) refl refl refl refl
      refl refl refl
