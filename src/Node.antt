-- ===== src/Node.antt =====
-- oesr/src/node/nod_waveform.c and nod_module.c: the waveforms that a node has loaded. A module's
-- process is a handle of the run-time (NULL is 0), its functions `init` and `stop` and the calls
-- of the run-time are arguments.
pub mod Init
pub mod Passes
pub mod Modes
pub mod Commands
mod Tests
use aloe.Base.{
  ℕ, zero, suc, ◌+◌, ◌-◌, ◌/◌, ◌==◌, Bool, true, false, not, ◌&&◌, ◌||◌, Option, none, some, List,
  [], ◌∷◌, ◌++◌, length, take, drop, map, set, replicate, get_elem?, if◌then◌else◌, leb, ltb,
  Outcome, ok, err, fault, Call, ◌>>=◌, ◌>>◌, return, fail, crash, add32, sub32, is_negative,
  word_mod, int_of_bytes, bytes_of_int,
}
use aloe.Packet.{Packet}
use aloe.Packet.Stream.{get_int}
use aloe.Waveform.{
  Layout, Module, ModuleMode, rounds, str_len, zeros, null_module, module_free, pool_alloc,
  str_equal,
}
use aloe.Serializable.{
  CopyData, no_data, cp_value, cp_init, get_bytes, waveform_mode_unserialize_to, array,
}
use aloe.Serializable.Modules.{module_unserialize_to}

-- `nod_module_t`; `context` says whether the module's context is allocated.
pub record NodModule : Type 0 where
  pub parent : Module
  pub process : ℕ
  pub context : Bool
  pub changing_status : ℕ

-- `nod_waveform_t`; a `waveform_status_t` and a `waveform_mode_t` are the bytes of the structure.
pub record NodWaveform : Type 0 where
  pub modules : Option (List NodModule)
  pub status : List ℕ
  pub modes : List (List ℕ)
  pub nof_modes : ℕ
  pub nof_modules : ℕ
  pub id : ℕ
  pub tslot_multiplicity : ℕ
  pub precach_pipeline : ℕ
  pub name : List ℕ

abbrev pub null_nod_module : Layout → NodModule
null_nod_module layout = record {
  parent = null_module layout;
  process = 0;
  context = false;
  changing_status = 0;
}

-- LOADED, INIT and STOP of `waveform_status_enum`
abbrev pub status_loaded : ℕ
status_loaded = 1

abbrev pub status_init : ℕ
status_init = 2

abbrev pub status_stop : ℕ
status_stop = 6

abbrev pub with_status : ℕ → NodWaveform → NodWaveform
with_status s w = record w { status = bytes_of_int s ++ drop 4 w.status }

-- `nod_waveform_find_module_id`: the index of the module.
pub nod_find_module_id : List NodModule → ℕ → Option ℕ
nod_find_module_id [] module_id = none
nod_find_module_id (m ∷ ms) module_id =
    if m.parent.id == module_id
    then some 0
    else elim (nod_find_module_id ms module_id) [ none ↦ none | some i ↦ some (i + 1) ]

-- `nod_waveform_find_module_name`; `name` ends with its NUL.
pub nod_find_module_name : List NodModule → List ℕ → Option ℕ
nod_find_module_name [] name = none
nod_find_module_name (m ∷ ms) name =
    if str_equal (length name) m.parent.name name
    then some 0
    else elim (nod_find_module_name ms name) [ none ↦ none | some i ↦ some (i + 1) ]

-- `/` of two `int`.
abbrev pub div_int : ℕ → ℕ → ℕ
div_int a b =
    let size = λ (n : ℕ). if is_negative n then word_mod - n else n in
    let q = size a / size b in
    if is_negative a
    then (if is_negative b then q else sub32 0 q)
    else if is_negative b
    then sub32 0 q
    else q

-- An `enum variable_serialize_data` that a packet holds.
abbrev pub copy_data_of : ℕ → CopyData
copy_data_of n = if n == 1 then cp_value else if n == 2 then cp_init else no_data

-- What a command reads and changes: the packet and the waveform.
pub record Handling : Type 0 where
  pub pkt : Packet
  pub dest : NodWaveform

abbrev pub on_pkt : {A : Type 0} → Call Packet A → Call Handling A
on_pkt c h = let r = c h.pkt in (r.0, record h { pkt = r.1 })

abbrev pub on_dest : Call NodWaveform (Unit {0}) → Call Handling (Unit {0})
on_dest c h = let r = c h.dest in (r.0, record h { dest = r.1 })

abbrev pub change : (NodWaveform → NodWaveform) → Call Handling (Unit {0})
change f h = (ok tt, record h { dest = f h.dest })

module _ (layout : Layout) (calloc : ℕ → ℕ → Bool) (module_size : ℕ) where
  -- `module_size` is `sizeof(nod_module_t)`.
  pub nod_waveform_alloc : ℕ → Call NodWaveform (Unit {0})
  nod_waveform_alloc nof_modules w =
      elim (pool_alloc calloc (null_nod_module layout) nof_modules module_size) [
        | none ↦ (err, record w { modules = none })
        | some ms ↦ (ok tt, record w { modules = some ms; nof_modules = nof_modules })
      ]

pub nod_waveform_free : NodWaveform → NodWaveform
nod_waveform_free w = record w { modules = none; nof_modules = 0 }

-- `rtdal_process_remove` fails for the processes of which `removed` is false.
module _ (removed : ℕ → Bool) where
  pub nod_module_remove : Call NodModule (Unit {0})
  nod_module_remove m =
      if not (m.process == 0) && not (removed m.process)
      then (err, m)
      else elim (module_free m.parent).0 [
        | ok _ ↦ (
          ok tt,
          record m {
            parent = record ((module_free m.parent).1) { id = 0 };
            context = false;
            changing_status = 0;
          },
        )
        | err ↦ (err, record m { parent = (module_free m.parent).1 })
        | fault ↦ (fault, record m { parent = (module_free m.parent).1 })
      ]

  -- The loop over the modules, `n` of them left.
  pub remove_modules : ℕ → Call (List NodModule) (Unit {0})
  unfolding nod_module_remove
  remove_modules zero ms = (ok tt, ms)
  remove_modules (suc n) [] = (fault, [])
  remove_modules (suc n) (m ∷ ms) =
      let r = if m.parent.id == 0 then (ok tt, m) else nod_module_remove m in
      let rest = remove_modules n ms in
      elim r.0 [ ok _ ↦ (rest.0, r.1 ∷ rest.1) | err ↦ (err, r.1 ∷ ms) | fault ↦ (fault, r.1 ∷ ms) ]

  pub nod_waveform_remove : Call NodWaveform (Unit {0})
  unfolding remove_modules nod_waveform_free
  nod_waveform_remove w =
      let r = remove_modules (rounds w.nof_modules) (array w.modules) in
      elim r.0 [
        | ok _ ↦ (ok tt, record (with_status status_stop (nod_waveform_free w)) { id = 0 })
        | err ↦ (err, record w { modules = some r.1 })
        | fault ↦ (fault, record w { modules = some r.1 })
      ]
