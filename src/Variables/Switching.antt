-- ===== src/Variables/Switching.antt =====
-- A change of mode that the node read from a packet, and the values that the module reads.
use aloe.Base.{
  arith, ℕ, zero, suc, ◌≤◌, ◌<◌, ◌==◌, ◌≡◌, ◌≢◌, refl, ap, ap₂, ◌∙◌, true, false, not, ◌&&◌,
  is_negative, lt_int, word_mod, bytes_of_int, int_of_bytes-bytes_of_int, List, length, get_elem?,
  take, inl, inr, Bool-cases, some, ok, if◌then◌else◌,
}
use aloe.Waveform.{Variable, Module, ModuleMode}
use aloe.Serializable.{array}
use aloe.Serializable.Wave.{mode_bytes}
use aloe.Node.{NodModule}
use aloe.Node.Modes.{plan}
use aloe.Variables.{copy_size, change_due, switch_mode, read_variable, oesr_var_param_get_value}
use aloe.Variables.Values.{copy_size_bound, size_guard, get_value_lem, read_block}

-- The module once a change is made.
abbrev pub switched : Module → Module
switched m = record m {
  mode = record (Module.mode m) { cur_mode = ModuleMode.next_mode (Module.mode m); next_tslot = 0 };
}

due_value :
    (m : Module) (parameter size now : ℕ)
    → 1 ≤ size
    → is_negative size ≡ false
    → change_due now (Module.mode m) ≡ true
    → oesr_var_param_get_value m parameter size now ≡ (
      read_variable size
          (ModuleMode.next_mode (Module.mode m))
          (get_elem? (array (Module.variables m)) parameter),
      switched m,
    )
unfolding oesr_var_param_get_value switch_mode
due_value m parameter size now pos nonneg due = rw (due, size_guard size pos nonneg) refl

-- The fields of a plan that was sent as bytes.
abbrev pub planned : NodModule → ModuleMode → Module
planned m mode = (plan (mode_bytes mode) m).parent

planned_lem :
    (m : NodModule) (mode : ModuleMode)
    → ModuleMode.next_mode mode < word_mod
    → ModuleMode.next_tslot mode < word_mod
    → (ModuleMode.next_mode (Module.mode (planned m mode)) ≡ ModuleMode.next_mode mode)
      × (ModuleMode.next_tslot (Module.mode (planned m mode)) ≡ ModuleMode.next_tslot mode)
unfolding bytes_of_int
planned_lem m mode p q = (
  int_of_bytes-bytes_of_int (ModuleMode.next_mode mode) p,
  int_of_bytes-bytes_of_int (ModuleMode.next_tslot mode) q,
)

due_is :
    (now tslot : ℕ)
    → tslot ≢ 0
    → (not (tslot == 0) && not (lt_int now tslot)) ≡ not (lt_int now tslot)
due_is now zero h = absurd (h refl)
due_is now (suc t) h = let e : (suc t == 0) ≡ false = ground arith in rw e refl

-- A module in some mode gets the plan to change its mode at a time slot that is not 0, as the bytes
-- of a packet. A parameter of the module with a block for the mode of the plan and one for the mode
-- before, each as long as the parameter: reading it before the time slot gives the value of the
-- mode before and leaves the module as it was, and from that time slot on the value of the new
-- mode, and the module is in the new mode, with no change planned. The value is cut to the size
-- asked for, which is above 0.
pub get_value-plan :
    (m : NodModule) (mode : ModuleMode) (parameter size now : ℕ) (v : Variable) (old new : List ℕ)
    → ModuleMode.next_mode mode < word_mod
    → ModuleMode.next_tslot mode < word_mod
    → ModuleMode.next_tslot mode ≢ 0
    → 1 ≤ size
    → is_negative size ≡ false
    → is_negative (Variable.size v) ≡ false
    → get_elem? (array (Module.variables m.parent)) parameter ≡ some v
    → get_elem? (Variable.init_value v) (ModuleMode.cur_mode (Module.mode m.parent))
      ≡ some (some old)
    → get_elem? (Variable.init_value v) (ModuleMode.next_mode mode) ≡ some (some new)
    → length old ≡ Variable.size v
    → length new ≡ Variable.size v
    → oesr_var_param_get_value (planned m mode) parameter size now ≡ (
        if lt_int now (ModuleMode.next_tslot mode)
        then (ok (take (copy_size size (Variable.size v)) old), planned m mode)
        else (ok (take (copy_size size (Variable.size v)) new), switched (planned m mode)))
get_value-plan m mode parameter size now v old new p q some_slot pos nonneg vnonneg var at_old
      at_new old_size new_size =
    let m' = planned m mode in
    let (next_is, slot_is) = planned_lem m mode p q in
    let n = copy_size size (Variable.size v) in
    let bound : n ≤ Variable.size v = copy_size_bound size (Variable.size v) nonneg vnonneg in
    let due : change_due now (Module.mode m') ≡ not (lt_int now (ModuleMode.next_tslot mode)) =
      ap (λ t. not (t == 0) && not (lt_int now t)) slot_is
      ∙ due_is now (ModuleMode.next_tslot mode) some_slot in
    elim (Bool-cases (lt_int now (ModuleMode.next_tslot mode))) [
      | inl early ↦ rw early (
          get_value_lem m' parameter size now pos nonneg (due ∙ ap not early)
          ∙ ap (λ r. (r, m'))
              (ap (read_variable size (ModuleMode.cur_mode (Module.mode m'))) var
                ∙ read_block size (ModuleMode.cur_mode (Module.mode m')) v old at_old
                    (omega arith)))
      | inr late ↦ rw late (
          due_value m' parameter size now pos nonneg (due ∙ ap not late)
          ∙ ap (λ r. (r, switched m'))
              (ap₂ (read_variable size) next_is var
                ∙ read_block size (ModuleMode.next_mode mode) v new at_new (omega arith)))
    ]
