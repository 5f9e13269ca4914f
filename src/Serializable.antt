-- ===== src/Serializable.antt =====
-- oesr/src/common/serializable.c and oesr/src/common/include/serializable.h: how waveforms, modules
-- and variables go into a packet and come back. A function that unserializes to `dest` returns the
-- object that `dest` has become; what a failed call leaves there is not modelled.
pub mod Modules
pub mod Wave
pub mod Roundtrip
pub mod Values
pub mod Arrays
mod Tests
use aloe.Base.{
  ℕ, zero, suc, ◌+◌, ◌==◌, Bool, true, false, Option, none, some, List, [], ◌∷◌, length, get_elem?,
  set, if◌then◌else◌, Outcome, ok, err, fault, Call, ◌>>=◌, ◌>>◌, return, fail, crash, add32, ltb,
}
use aloe.Packet.{Packet, packet_add_data, packet_get_data}
use aloe.Packet.Stream.{add_int, get_int}
use aloe.Waveform.{
  Layout, Variable, Module, ModuleMode, Waveform, rounds, str_len, modes_max, nof_user_variables,
  variable_alloc, module_alloc, waveform_alloc, find_module_id,
}

-- `enum variable_serialize_data`
pub data CopyData : Type 0 where
  no_data cp_value cp_init : CopyData

-- `enum waveform_serialize_action`
pub data Action : Type 0 where
  waveform_load waveform_status waveform_mode : Action

abbrev pub code_of_copy : CopyData → ℕ
code_of_copy no_data = 0
code_of_copy cp_value = 1
code_of_copy cp_init = 2

abbrev pub code_of_action : Action → ℕ
code_of_action waveform_load = 0
code_of_action waveform_status = 1
code_of_action waveform_mode = 2

-- A structure or a string of a fixed array.
abbrev pub add_bytes : List ℕ → ℕ → Call Packet (Unit {0})
add_bytes bs len = packet_add_data (some bs) len

abbrev pub get_bytes : ℕ → Call Packet (List ℕ)
get_bytes len = packet_get_data (some len) len

-- Runs a function on another object than the packet.
abbrev pub on_object : {S A : Type 0} → (Outcome A × S) → Call Packet S
on_object (ok a, s) = return s
on_object (err, s) = fail
on_object (fault, s) = crash

-- The loop over the initial values from index `i`, with `n` rounds left.
pub add_values : ℕ → ℕ → List (Option (List ℕ)) → ℕ → Call Packet (Unit {0})
add_values zero i values size = return tt
add_values (suc n) i values size = elim (get_elem? values i) [
  | none ↦ crash
  | some ptr ↦ packet_add_data ptr size >> add_values n (i + 1) values size
]

abbrev add_payload : Variable → CopyData → ℕ → Call Packet (Unit {0})
add_payload src cp_init nof_modes =
    add_bytes src.name str_len >> add_values (rounds nof_modes) 0 src.init_value src.size
add_payload src cp_value nof_modes = packet_add_data src.cur_value src.size
add_payload src no_data nof_modes = add_int src.window >> add_int src.period

pub variable_serialize : Variable → CopyData → ℕ → Call Packet (Unit {0})
variable_serialize src copy_data nof_modes = do
  add_int src.id
  add_int src.size
  add_int src.type
  add_payload src copy_data nof_modes

-- `packet_get_data(pkt, values[i], size)`: the block that `values[i]` points to is overwritten.
abbrev get_value : Option (List ℕ) → ℕ → Call Packet (List ℕ)
get_value none size = packet_get_data none size
get_value (some block) size = packet_get_data (some (length block)) size

pub get_values : ℕ → ℕ → List (Option (List ℕ)) → ℕ → Call Packet (List (Option (List ℕ)))
get_values zero i values size = return values
get_values (suc n) i values size = elim (get_elem? values i) [
  | none ↦ crash
  | some ptr ↦ get_value ptr size >>= λ bs. get_values n (i + 1) (set values i (some bs)) size
]

module _ (calloc : ℕ → ℕ → Bool) where
  abbrev get_payload : Variable → CopyData → ℕ → Call Packet Variable
  get_payload dest cp_init nof_modes = do
    v ← on_object (variable_alloc calloc nof_modes dest)
    name ← get_bytes str_len
    values ← get_values (rounds nof_modes) 0 v.init_value v.size
    return (record v { name = name; init_value = values })
  get_payload dest cp_value nof_modes = elim dest.cur_value [
    | none ↦ fail
    | some block ↦
        get_value (some block) dest.size >>= λ bs. return (record dest { cur_value = some bs })
  ]
  get_payload dest no_data nof_modes = do
    window ← get_int
    period ← get_int
    return (record dest { window = window; period = period })

  pub variable_unserialize_to : Variable → CopyData → ℕ → Call Packet Variable
  variable_unserialize_to dest copy_data nof_modes = do
    id ← get_int
    size ← get_int
    type ← get_int
    get_payload (record dest { id = id; size = size; type = type; nof_modes = nof_modes }) copy_data
        nof_modes

-- `execinfo_serialize`, `interface_serialize` and `waveform_mode_serialize` copy one structure.
unfoldable pub execinfo_serialize : Layout → List ℕ → Call Packet (Unit {0})
execinfo_serialize layout src = add_bytes src layout.execinfo_size

unfoldable pub execinfo_unserialize_to : Layout → Call Packet (List ℕ)
execinfo_unserialize_to layout = get_bytes layout.execinfo_size

unfoldable pub interface_serialize : Layout → List ℕ → Call Packet (Unit {0})
interface_serialize layout src = add_bytes src layout.interface_size

unfoldable pub interface_unserialize_to : Layout → Call Packet (List ℕ)
interface_unserialize_to layout = get_bytes layout.interface_size

-- `sizeof(waveform_mode_t)`: three strings.
abbrev pub waveform_mode_size : ℕ
waveform_mode_size = 192

unfoldable pub waveform_mode_serialize : List ℕ → Call Packet (Unit {0})
waveform_mode_serialize src = add_bytes src waveform_mode_size

unfoldable pub waveform_mode_unserialize_to : Call Packet (List ℕ)
waveform_mode_unserialize_to = get_bytes waveform_mode_size

-- `for (i=0; i<n; i++)` over an array, with `n` rounds left: reading beyond it is a fault.
pub for_each : {A : Type 0} → (A → Call Packet (Unit {0})) → ℕ → List A → Call Packet (Unit {0})
for_each body zero xs = return tt
for_each body (suc n) [] = crash
for_each body (suc n) (x ∷ xs) = body x >> for_each body n xs

-- The same where each element is replaced by what `body` makes of it.
pub map_each : {A : Type 0} → (A → Call Packet A) → ℕ → List A → Call Packet (List A)
map_each body zero xs = return xs
map_each body (suc n) [] = crash
map_each body (suc n) (x ∷ xs) = body x >>= λ y. map_each body n xs >>= λ ys. return (y ∷ ys)

-- A NULL array: a fault as soon as it is read.
abbrev pub array : {A : Type 0} → Option (List A) → List A
array none = []
array (some xs) = xs
