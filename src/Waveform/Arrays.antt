-- ===== src/Waveform/Arrays.antt =====
-- `module_alloc`: what it makes where memory is at hand, and what it leaves where it is not.
use aloe.Base.{ℕ, ◌≡◌, Bool, true, none, some, replicate, arith, ok}
use aloe.Waveform.{Layout, Module, null_variable, zeros, module_alloc}

module _ (layout : Layout) (calloc : ℕ → ℕ → Bool) where
  -- With memory at hand a module that has no arrays gets them, cleared.
  pub module_alloc_lem :
      ((n size : ℕ) → calloc n size ≡ true)
      → (nof_inputs nof_outputs nof_variables : ℕ) (m : Module) → m.inputs ≡ none
      → m.outputs ≡ none
      → m.variables ≡ none
      → module_alloc layout calloc nof_inputs nof_outputs nof_variables m ≡ (
        ok tt,
        record m {
          inputs = some (replicate nof_inputs (zeros layout.interface_size));
          outputs = some (replicate nof_outputs (zeros layout.interface_size));
          variables = some (replicate nof_variables null_variable);
          nof_inputs = nof_inputs;
          nof_outputs = nof_outputs;
          nof_variables = nof_variables;
        },
      )
  unfolding module_alloc
  module_alloc_lem memory n_in n_out n_var m hi ho hv = ground (
    arith,
    memory n_in layout.interface_size,
    memory n_out layout.interface_size,
    memory n_var layout.variable_size,
  )
