-- ===== src/Node/Tests.antt =====
-- Waveforms of one and two modules.
use aloe.Packet.{Packet, cmd_set, no_dest}
use aloe.Packet.Inv.{IsValid}
use aloe.Serializable.{waveform_status, cp_init}
use aloe.Serializable.Wave.{waveform_serialize}
use aloe.Node.Commands.{
  IsHandled, after_status, handle, nod_waveform_unserialize_to-waveform_serialize,
}
use aloe.Base.{
  none, List, Bool, Call, ok, ℕ, ◌+◌, ◌==◌, ◌≡◌, refl, true, some, [], ◌∷◌, arith, if◌then◌else◌,
  map,
}
use aloe.Waveform.{Layout, Waveform, null_module, zeros}
use aloe.Node.{NodWaveform, NodModule, null_nod_module, status_init}
use aloe.Node.Init.{
  Init, again, done, all_done, gave_up, is_some, status_init_thread, status_init_thread_ends,
}
use aloe.Node.Passes.{initialised, status_init_thread_ready, status_init_thread_late}

abbrev sizes : Layout
sizes = record { execinfo_size = 8; interface_size = 4; variable_size = 400; module_size = 300 }

abbrev fresh : ℕ → NodModule
fresh id = record (null_nod_module sizes) { parent = record (null_module sizes) { id = id } }

abbrev in_init : NodModule → NodModule
in_init m = record m { parent = record (m.parent) { status = status_init } }

-- A module that is initialised at once, and one that is at the third call.
abbrev prompt : NodModule → Init × NodModule
prompt m = (done, in_init m)

abbrev patient : NodModule → Init × NodModule
patient m =
    if m.changing_status == 2
    then (done, in_init m)
    else (again, record m { changing_status = m.changing_status + 1 })

status_init_thread_ends_example : is_some (status_init_thread patient (fresh 1 ∷ [])) ≡ true
status_init_thread_ends_example = status_init_thread_ends patient (fresh 1 ∷ [])

status_init_thread_ready_example :
    status_init_thread prompt (fresh 1 ∷ fresh 2 ∷ [])
    ≡ some (all_done, map (initialised prompt) (fresh 1 ∷ fresh 2 ∷ []))
status_init_thread_ready_example = status_init_thread_ready prompt (fresh 1 ∷ fresh 2 ∷ []) (
  record { fresh = omega arith; prompt = refl },
  (record { fresh = omega arith; prompt = refl }, tt),
)

status_init_thread_late_example :
    status_init_thread patient (fresh 1 ∷ [])
    ≡ some (gave_up, initialised patient (initialised patient (initialised patient (fresh 1))) ∷ [])
status_init_thread_late_example = status_init_thread_late patient (fresh 1) (record {
  fresh = omega arith;
  first = refl;
  still_fresh = omega arith;
  second = refl;
  again_fresh = omega arith;
  third = refl;
})

abbrev plenty : ℕ → ℕ → Bool
plenty n size = true

abbrev free : NodWaveform
free = record {
  modules = none;
  status = zeros 8;
  modes = [];
  nof_modes = 0;
  nof_modules = 0;
  id = 3;
  tslot_multiplicity = 1;
  precach_pipeline = 0;
  name = zeros 64;
}

-- The node takes the status over, and stops by clearing the identifier.
abbrev take_over : List ℕ → Call NodWaveform (Unit {0})
take_over status w = (ok tt, record w { status = status })

abbrev stop_it : Call NodWaveform (Unit {0})
stop_it w = (ok tt, record w { id = 0 })

abbrev running : Waveform
running = record {
  id = 3;
  modules = none;
  status = 3 ∷ zeros 7;
  modes = [];
  nof_modules = 0;
  name = zeros 64;
  nof_modes = 0;
  granularity_us = 1000;
  precach_pipeline = 0;
}

abbrev blank : Packet
blank = record {
  cmd = cmd_set;
  dest = no_dest;
  ack = 0;
  w_ptr = 0;
  r_ptr = 0;
  size = 64;
  buffer = some (zeros 64);
}

blank-IsValid : IsValid blank
blank-IsValid = record {
  allocated = refl;
  storage = refl;
  small = omega arith;
  write_in = omega arith;
  read_in = omega arith;
}

nod_waveform_unserialize_to-waveform_serialize_example :
    IsHandled sizes plenty 500 100 true 1000000 take_over stop_it
      (after_status stop_it (take_over running.status free))
      (handle sizes plenty 500 100 true 1000000 take_over stop_it (record {
        pkt = (waveform_serialize sizes running 0 waveform_status cp_init blank).1;
        dest = free;
      }))
nod_waveform_unserialize_to-waveform_serialize_example =
    nod_waveform_unserialize_to-waveform_serialize sizes plenty 500 100 true 1000000 take_over
      stop_it running 0 blank free refl blank-IsValid refl (omega arith)
