-- ===== src/Dispatcher/Search.antt =====
-- The loop by which SET and GET look for a module: `for (mi=0; mi<loaded_waveforms[mi].nof_modules;
-- mi++)`.
use aloe.Base.{
  ℕ, ◌+◌, ◌==◌, ◌≡◌, ◌≢◌, ◌≤◌, ◌<◌, ◌∙◌, ap, List, [], ◌∷◌, length, arith, All, ok, err, fault,
  none, refl, get_elem?, ≢→==, if◌then◌else◌,
}
use aloe.Waveform.{rounds}
use aloe.Node.{NodModule, NodWaveform}
use aloe.Packet.{Dest}
use aloe.Serializable.{array}
use aloe.Dispatcher.{search_module, module_found, find_variable}

-- Where the search stops when it looks at every module: at the first of that id, or at the end.
pub found_index : List NodModule → ℕ → ℕ
found_index [] module_id = 0
found_index (m ∷ ms) module_id =
    if m.parent.id == module_id then 0 else found_index ms module_id + 1

search_from :
    (ws : List NodWaveform) (ms : List NodModule) (module_id mi n : ℕ)
    → mi + length ms ≡ n
    → length ms < length ws
    → All (λ w. rounds w.nof_modules ≡ n) ws
    → search_module ws ms module_id mi ≡ ok (mi + found_index ms module_id)
unfolding search_module found_index
search_from [] ms module_id mi n e h same = absurd (omega arith)
search_from (w ∷ ws) [] module_id mi n e h (s, same) = ground arith
search_from (w ∷ ws) (m ∷ ms) module_id mi n e h (s, same) =
    ground (arith, search_from ws ms module_id (mi + 1) n (omega arith) (omega arith) same)

-- If all the waveforms of the node have as many modules as the one that was found, and there are
-- more of them than modules, the search finds the module as `nod_waveform_find_module_id` does.
search_module_lem :
    (ws : List NodWaveform) (ms : List NodModule) (module_id : ℕ)
    → length ms < length ws
    → All (λ w. rounds w.nof_modules ≡ length ms) ws
    → search_module ws ms module_id 0 ≡ ok (found_index ms module_id)
search_module_lem ws ms module_id h same =
    search_from ws ms module_id 0 (length ms) (omega arith) h same ∙ ap ok (omega arith)

-- If the first place of the node holds a waveform with modules, and the second none or one of a
-- single module, the search stops at index 1 for every identifier that is not the first module's.
search_module_second :
    (w next : NodWaveform) (ws : List NodWaveform) (m : NodModule) (ms : List NodModule)
    (module_id : ℕ)
    → 0 < rounds w.nof_modules
    → rounds next.nof_modules ≤ 1
    → m.parent.id ≢ module_id
    → search_module (w ∷ next ∷ ws) (m ∷ ms) module_id 0 ≡ ok 1
unfolding search_module
search_module_second w next ws m [] module_id some_modules few other = ground arith
search_module_second w next ws m (m₁ ∷ ms) module_id some_modules few other = ground arith

-- If the first place of the node holds a waveform with modules, and the second place none or one of a
-- single module, SET and GET for a module and a variable, with identifiers that are not 0, find no
-- variable of a module other than the first of the waveform that was found, whatever the waveform has:
-- they fail if it has one module, and otherwise read a module that the second place does not have.
pub find_variable_second :
    (w next v : NodWaveform) (ws : List NodWaveform) (m : NodModule) (ms : List NodModule) (wi : ℕ)
    (dest : Dest)
    → 0 < rounds w.nof_modules
    → rounds next.nof_modules ≤ 1
    → length (array next.modules) ≤ 1
    → array v.modules ≡ m ∷ ms
    → m.parent.id ≢ dest.module_id
    → dest.module_id ≢ 0
    → dest.variable_id ≢ 0
    → find_variable (w ∷ next ∷ ws) wi v dest ≡ (if v.nof_modules == 1 then err else fault)
unfolding find_variable module_found
find_variable_second w next v ws m ms wi dest some_modules few short those other named variable =
    let stops : search_module (w ∷ next ∷ ws) (array v.modules) dest.module_id 0 ≡ ok 1 =
      ap (λ l. search_module (w ∷ next ∷ ws) l dest.module_id 0) those
      ∙ search_module_second w next ws m ms dest.module_id some_modules few other in
    let absent : get_elem? (array next.modules) 1 ≡ none = none_there (array next.modules) short in
    rw (≢→== dest.module_id 0 named, stops, ≢→== dest.variable_id 0 variable, absent)
      (ap (λ b. if b then err else fault) (same_test v.nof_modules))
  where
    none_there : {A : Type 0} (xs : List A) → length xs ≤ 1 → get_elem? xs 1 ≡ none
    none_there [] h = refl
    none_there (x ∷ []) h = refl
    none_there (x ∷ y ∷ xs) h = absurd (omega arith)

    same_test : (n : ℕ) → (1 == n) ≡ (n == 1)
    same_test n = ground arith
