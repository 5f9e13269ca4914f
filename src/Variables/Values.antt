-- ===== src/Variables/Values.antt =====
-- A value that is set is the value that is read.
use aloe.Base.{
  arith, le→leb, ℕ, zero, suc, ◌≤◌, ◌<◌, ◌==◌, ◌≡◌, ◌≢◌, refl, sym, ap, ◌∙◌, false, ◌||◌,
  is_negative, List, [], ◌∷◌, ◌++◌, length, length-take, length-append, get_elem?,
  get_elem?-set_self, get_elem?-set_ne, set, take, drop, take-append_left, some, Outcome, ok, err,
  fault, if◌then◌else◌,
}
use aloe.Waveform.{Variable, Module, ModuleMode}
use aloe.Serializable.{array}
use aloe.Variables.{
  copy_size, change_due, switch_mode, read_value, read_variable, oesr_var_param_get_value,
  write_value, put_variable, write_variable, oesr_var_param_set_value,
}

pub copy_size_bound :
    (size variable_size : ℕ)
    → is_negative size ≡ false
    → is_negative variable_size ≡ false
    → copy_size size variable_size ≤ variable_size
copy_size_bound size variable_size p q = ground arith

inside : {A : Type 0} (xs : List A) (i : ℕ) (x : A) → get_elem? xs i ≡ some x → i < length xs
inside [] i x e = absurd cc
inside (y ∷ xs) zero x e = omega arith
inside (y ∷ xs) (suc i) x e = omega (arith, inside xs i x e)

pub not_due :
    (now : ℕ) (m : Module) → change_due now (Module.mode m) ≡ false → switch_mode now m ≡ m
unfolding switch_mode
not_due now m h =
    ap
      (λ b.
        if b
        then record m {
          mode = record (Module.mode m) {
            cur_mode = ModuleMode.next_mode (Module.mode m);
            next_tslot = 0;
          };
        }
        else m)
      h

-- The guard on the size, which is not 0.
pub size_guard :
    (size : ℕ) → 1 ≤ size → is_negative size ≡ false → (is_negative size || size == 0) ≡ false
size_guard size pos h = ground arith

-- What is read where no change of mode is due.
pub get_value_lem :
    (m : Module) (parameter size now : ℕ)
    → 1 ≤ size
    → is_negative size ≡ false
    → change_due now (Module.mode m) ≡ false
    → oesr_var_param_get_value m parameter size now ≡ (
      read_variable size
          (ModuleMode.cur_mode (Module.mode m))
          (get_elem? (array (Module.variables m)) parameter),
      m,
    )
unfolding oesr_var_param_get_value
get_value_lem m parameter size now pos nonneg later =
    ap
      (λ b. if b then (err, m) else (
        read_variable size (ModuleMode.cur_mode (Module.mode (switch_mode now m)))
            (get_elem? (array (Module.variables (switch_mode now m))) parameter),
        switch_mode now m,
      ))
      (size_guard size pos nonneg)
    ∙ ap
        (λ (m' : Module). (
          read_variable size (ModuleMode.cur_mode (Module.mode m'))
              (get_elem? (array (Module.variables m')) parameter),
          m',
        ))
        (not_due now m later)

-- A block as long as what is copied.
pub read_block :
    (size cur_mode : ℕ) (v : Variable) (block : List ℕ)
    → get_elem? (Variable.init_value v) cur_mode ≡ some (some block)
    → copy_size size (Variable.size v) ≤ length block
    → read_variable size cur_mode (some v) ≡ ok (take (copy_size size (Variable.size v)) block)
unfolding read_variable read_value
read_block size cur_mode v block at room =
    ap (read_value (copy_size size (Variable.size v))) at
    ∙ ap (λ b. if b then ok (take (copy_size size (Variable.size v)) block) else fault)
        (le→leb (copy_size size (Variable.size v)) (length block) room)

-- What `set_value` leaves, where the block and the value are long enough.
write_block :
    (m : Module) (parameter size : ℕ) (value block : List ℕ) (v : Variable)
    → get_elem? (Variable.init_value v) (ModuleMode.cur_mode (Module.mode m)) ≡ some (some block)
    → copy_size size (Variable.size v) ≤ length block
    → copy_size size (Variable.size v) ≤ length value
    → write_variable m parameter value size (some v) ≡ (
      ok (copy_size size (Variable.size v)),
      record m {
        variables = some (
            set (array (Module.variables m)) parameter (record v {
              init_value = set (Variable.init_value v) (ModuleMode.cur_mode (Module.mode m)) (
                  some (
                    take (copy_size size (Variable.size v)) value
                    ++ drop (copy_size size (Variable.size v)) block));
            }));
      },
    )
unfolding write_variable write_value put_variable
write_block m parameter size value block v at room given =
    rw
      (
        at,
        le→leb (copy_size size (Variable.size v)) (length block) room,
        le→leb (copy_size size (Variable.size v)) (length value) given,
      )
      refl

-- A parameter with a block for the current mode that is as long as the parameter, in a module with
-- no change of mode due: setting it to a value of at least as many bytes as are copied returns their
-- number, and reading it then, with the same size, gives those bytes; what reading another
-- parameter gives stays the same.
pub get_value-set_value :
    (m : Module) (parameter other size other_size now : ℕ) (value block : List ℕ) (v : Variable)
    → 1 ≤ size
    → is_negative size ≡ false
    → is_negative (Variable.size v) ≡ false
    → 1 ≤ other_size
    → is_negative other_size ≡ false
    → parameter ≢ other
    → change_due now (Module.mode m) ≡ false
    → get_elem? (array (Module.variables m)) parameter ≡ some v
    → get_elem? (Variable.init_value v) (ModuleMode.cur_mode (Module.mode m)) ≡ some (some block)
    → length block ≡ Variable.size v
    → copy_size size (Variable.size v) ≤ length value
    → (m' : Module) × (oesr_var_param_set_value m parameter value size
        ≡ (ok (copy_size size (Variable.size v)), m'))
      × (oesr_var_param_get_value m' parameter size now
          ≡ (ok (take (copy_size size (Variable.size v)) value), m'))
      × ((oesr_var_param_get_value m' other other_size now).0
          ≡ (oesr_var_param_get_value m other other_size now).0)
unfolding oesr_var_param_set_value
get_value-set_value m parameter other size other_size now value block v pos nonneg vnonneg pos'
      nonneg' ne later var at size_is given =
    let n = copy_size size (Variable.size v) in
    let cur = ModuleMode.cur_mode (Module.mode m) in
    let vars = array (Module.variables m) in
    let bound : n ≤ Variable.size v = copy_size_bound size (Variable.size v) nonneg vnonneg in
    let written = take n value ++ drop n block in
    let v' = record v { init_value = set (Variable.init_value v) cur (some written) } in
    let m' = record m { variables = some (set vars parameter v') } in
    let fresh : get_elem? (Variable.init_value v') cur ≡ some (some written) =
      get_elem?-set_self (Variable.init_value v) cur (some written)
        (inside (Variable.init_value v) cur (some block) at) in
    let total : n ≤ length written =
      omega (arith, length-append (take n value) (drop n block), length-take n value) in
    let cut : take n written ≡ take n value =
      take-append_left n (take n value) (drop n block) (omega (arith, length-take n value)) in
    (
      m',
      ap
            (λ b.
              if b
              then (err, m)
              else write_variable m parameter value size
                  (get_elem? (array (Module.variables m)) parameter))
            (size_guard size pos nonneg)
          ∙ ap (write_variable m parameter value size) var
          ∙ write_block m parameter size value block v at (omega arith) given,
      get_value_lem m' parameter size now pos nonneg later
          ∙ ap (λ r. (r, m'))
              (ap (read_variable size cur)
                  (get_elem?-set_self vars parameter v' (inside vars parameter v var))
                ∙ read_block size cur v' written fresh total
                ∙ ap ok cut),
      ap (λ (r : Outcome (List ℕ) × Module). r.0)
            (get_value_lem m' other other_size now pos' nonneg' later)
          ∙ ap (read_variable other_size cur) (get_elem?-set_ne vars parameter other v' ne)
          ∙ sym (
              ap (λ (r : Outcome (List ℕ) × Module). r.0)
                (get_value_lem m other other_size now pos' nonneg' later)),
    )
