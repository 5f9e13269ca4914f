-- ===== src/Dispatcher/Tests.antt =====
-- A node with one loaded waveform of two modules and a free place.
use aloe.Base.{
  int_of_bytes, ℕ, ◌≡◌, refl, fault, true, some, List, [], ◌∷◌, ◌++◌, arith, ok, replicate, Bool,
  get_elem?, Call, bytes_of_int, length,
}
use aloe.Packet.{Command, Dest, cmd_load}
use aloe.Waveform.{Layout, null_module, zeros}
use aloe.Node.{NodModule, NodWaveform, Handling, null_nod_module}
use aloe.Dispatcher.{Anode, find_variable, nod_anode_dispatch}
use aloe.Dispatcher.Search.{find_variable_second}
use aloe.Dispatcher.Target.{IsFirst, IsTarget}
use aloe.Dispatcher.Commands.{nod_anode_dispatch_elsewhere}

abbrev sizes : Layout
sizes = record { execinfo_size = 8; interface_size = 4; variable_size = 400; module_size = 300 }

abbrev with_id : ℕ → NodModule
with_id id = record (null_nod_module sizes) { parent = record (null_module sizes) { id = id } }

abbrev waveform_of : ℕ → ℕ → List NodModule → NodWaveform
waveform_of id status ms = record {
  modules = some ms;
  status = bytes_of_int status ++ replicate 4 0;
  modes = [];
  nof_modes = 0;
  nof_modules = length ms;
  id = id;
  tslot_multiplicity = 1;
  precach_pipeline = 0;
  name = zeros 64;
}

abbrev two : List NodModule
two = with_id 11 ∷ with_id 12 ∷ []

abbrev loaded_one : NodWaveform
loaded_one = waveform_of 5 1 two

abbrev free_place : NodWaveform
free_place = waveform_of 0 6 []

abbrev anode_for : Command → Anode
anode_for cmd = record {
  packet = record {
    cmd = cmd;
    dest = record { waveform_id = 5; module_id = 0; variable_id = 0; node = 0 };
    ack = 0;
    w_ptr = 0;
    r_ptr = 0;
    size = 64;
    buffer = some (replicate 64 0);
  };
  loaded_waveforms = loaded_one ∷ free_place ∷ [];
}

-- Reading the packet renames the waveform.
abbrev unserialize : Call Handling (Unit {0})
unserialize h = (ok tt, record h { dest = record (h.dest) { id = 9 } })

abbrev load : Call Handling (Unit {0})
load h = (ok tt, h)

abbrev remove : NodWaveform → NodWaveform
remove w = record w { id = 0 }

abbrev plenty : ℕ → ℕ → Bool
plenty n size = true

running_first : ¬ IsTarget cmd_load (anode_for cmd_load) 0
unfolding IsTarget IsFirst int_of_bytes bytes_of_int
running_first e = let running : 1 ≡ 6 = e in absurd (omega (arith, running))

-- Variable 3 of the second module, 12.
abbrev second_module : Dest
second_module = record { waveform_id = 5; module_id = 12; variable_id = 3; node = 0 }

find_variable_second_example :
    find_variable (loaded_one ∷ free_place ∷ []) 0 loaded_one second_module ≡ fault
find_variable_second_example =
    find_variable_second loaded_one free_place loaded_one [] (with_id 11) (with_id 12 ∷ []) 0
      second_module (omega arith) (omega arith) (omega arith) refl (omega arith) (omega arith)
      (omega arith)

-- LOAD takes the second place, which is the first that is stopped, and leaves the first.
nod_anode_dispatch_elsewhere_example :
    get_elem?
      (nod_anode_dispatch sizes plenty unserialize load remove
        (anode_for cmd_load)).1.loaded_waveforms
      0
    ≡ get_elem? (anode_for cmd_load).loaded_waveforms 0
nod_anode_dispatch_elsewhere_example =
    nod_anode_dispatch_elsewhere sizes plenty unserialize load remove 0 (anode_for cmd_load)
      running_first
