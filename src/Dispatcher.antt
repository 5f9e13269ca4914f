-- ===== src/Dispatcher.antt =====
-- oesr/src/node/nod_dispatcher.c: how a node executes the command in a packet. The waveforms are
-- the array `anode.loaded_waveforms`. `nod_waveform_unserializeTo`, `nod_waveform_load` and
-- `nod_waveform_remove` are parameters here; `Node` and
-- `Node.Modes` model the first and the last. The packet is initialised.
pub mod Search
pub mod Target
pub mod Commands
mod Tests
use aloe.Base.{
  ℕ, zero, suc, ◌+◌, ◌==◌, Bool, true, false, not, ◌&&◌, Option, none, some, List, [], ◌∷◌, ◌++◌,
  length, take, drop, map, set, get_elem?, if◌then◌else◌, ltb, Outcome, ok, err, fault, Call, ◌>>=◌,
  ◌>>◌, return, fail, crash, int_of_bytes,
}
use aloe.Packet.{
  Packet, Command, cmd_load, cmd_set, cmd_get, cmd_connect, cmd_disconnect, cmd_hwinfo, Dest,
  packet_get_dest, packet_get_cmd, packet_clear,
}
use aloe.Waveform.{Layout, Module, Variable, rounds}
use aloe.Serializable.{
  CopyData, no_data, cp_value, array, variable_serialize, variable_unserialize_to,
}
use aloe.Serializable.Wave.{nod_waveform_serialize}
use aloe.Node.{NodModule, NodWaveform, Handling, status_stop}

pub record Anode : Type 0 where
  pub packet : Packet
  pub loaded_waveforms : List NodWaveform

abbrev pub node_status : NodWaveform → ℕ
node_status w = int_of_bytes (take 4 w.status)

-- The index of the first waveform that is stopped; the length if there is none.
pub find_stopped : List NodWaveform → ℕ
find_stopped [] = 0
find_stopped (w ∷ ws) = if node_status w == status_stop then 0 else find_stopped ws + 1

pub find_waveform : List NodWaveform → ℕ → ℕ
find_waveform [] waveform_id = 0
find_waveform (w ∷ ws) waveform_id =
    if w.id == waveform_id then 0 else find_waveform ws waveform_id + 1

-- The loop over `mi`: its bound is read from `loaded_waveforms[mi]`, the first argument from `mi`
-- on, and the modules are those of the waveform that was found, from `mi` on.
pub search_module : List NodWaveform → List NodModule → ℕ → ℕ → Outcome ℕ
search_module [] ms module_id mi = fault
search_module (w ∷ ws) [] module_id mi = if ltb mi (rounds w.nof_modules) then fault else ok mi
search_module (w ∷ ws) (m ∷ ms) module_id mi =
    if ltb mi (rounds w.nof_modules)
    then (if m.parent.id == module_id then ok mi else search_module ws ms module_id (mi + 1))
    else ok mi

-- The loop over `vi` below `n`, over the variables from `vi` on.
pub search_variable : ℕ → List Variable → ℕ → Outcome ℕ
search_variable zero vs variable_id = ok 0
search_variable (suc n) [] variable_id = fault
search_variable (suc n) (v ∷ vs) variable_id =
    if v.id == variable_id
    then ok 0
    else elim (search_variable n vs variable_id) [ ok vi ↦ ok (vi + 1) | err ↦ err | fault ↦ fault ]

-- `anode.loaded_waveforms[mi].modules[mi]` and `anode.loaded_waveforms[wi].modules[mi]`.
abbrev pub module_at : List NodWaveform → ℕ → ℕ → Option Module
module_at ws wi mi = elim (get_elem? ws wi) [
  | none ↦ none
  | some w ↦ elim (get_elem? (array w.modules) mi) [ none ↦ none | some m ↦ some (m.parent) ]
]

-- What SET and GET find: a variable of a module, by their indices, and the number of modes that
-- is passed on.
pub record Found : Type 0 where
  pub mi : ℕ
  pub vi : ℕ
  pub nof_modes : ℕ
  pub variable : Variable

-- The variables in which SET and GET look; they are read only if the loop makes a round.
abbrev variables_at : List NodWaveform → ℕ → ℕ → List Variable
variables_at ws wi mi = elim (module_at ws wi mi) [ none ↦ [] | some m ↦ array m.variables ]

-- The loop over `vi`, and the test after it.
pub pick_variable : List Variable → ℕ → ℕ → ℕ → ℕ → Outcome Found
unfolding search_variable
pick_variable vars nof_variables nof_modes mi variable_id =
    elim (search_variable (rounds nof_variables) vars variable_id) [
      | err ↦ err
      | fault ↦ fault
      | ok vi ↦ if vi == nof_variables then err else elim (get_elem? vars vi) [
        | none ↦ fault
        | some v ↦ ok (record { mi = mi; vi = vi; nof_modes = nof_modes; variable = v })
      ]
    ]

-- What follows the search for the module: `loaded_waveforms[mi].modules[mi]` bounds the loop.
pub module_found : List NodWaveform → ℕ → ℕ → ℕ → ℕ → Outcome Found
unfolding pick_variable
module_found ws wi mi nof_modules variable_id =
    if mi == nof_modules then err else if variable_id == 0 then err else elim (get_elem? ws mi) [
      | none ↦ fault
      | some other ↦ elim (get_elem? (array other.modules) mi) [
        | none ↦ fault
        | some bound ↦
            pick_variable (variables_at ws wi mi) bound.parent.nof_variables other.nof_modes mi
              variable_id
      ]
    ]

-- From the test of `module_id` to the variable, in waveform `wi`, which is `w`.
pub find_variable : List NodWaveform → ℕ → NodWaveform → Dest → Outcome Found
unfolding search_module module_found
find_variable ws wi w dest =
    if dest.module_id == 0
    then err
    else elim (search_module ws (array w.modules) dest.module_id 0) [
      | err ↦ err
      | fault ↦ fault
      | ok mi ↦ module_found ws wi mi w.nof_modules dest.variable_id
    ]

-- A variable put back where it was found; one that fails to be read stays as it was.
abbrev pub put_variable : ℕ → NodWaveform → Found → Variable → NodWaveform
put_variable wi w f v = elim (get_elem? (array w.modules) f.mi) [
  | none ↦ w
  | some m ↦ record w {
    modules = some (
        set (array w.modules) f.mi (record m {
          parent = record (m.parent) { variables = some (set (array m.parent.variables) f.vi v) };
        }));
  }
]

abbrev pub is_whole : Dest → Bool
is_whole dest = (dest.module_id == 0) && (dest.variable_id == 0)

-- A command for waveform `wi`, which is `w`, on the packet.
abbrev pub on_waveform : ℕ → NodWaveform → Call Handling (Unit {0}) → Call Anode (Unit {0})
on_waveform wi w c a =
    let r = c (record { pkt = a.packet; dest = w }) in
    (r.0, record { packet = (r.1).pkt; loaded_waveforms = set a.loaded_waveforms wi (r.1).dest })

abbrev pub on_packet : {A : Type 0} → Call Packet A → Call Anode A
on_packet c a = let r = c a.packet in (r.0, record a { packet = r.1 })

-- What follows a search for a waveform or a variable.
abbrev pub with_found :
    (NodWaveform → Call Anode (Unit {0})) → Option NodWaveform → Call Anode (Unit {0})
with_found k none a = (err, a)
with_found k (some w) a = k w a

abbrev pub with_variable : (Found → Call Anode (Unit {0})) → Outcome Found → Call Anode (Unit {0})
with_variable k (ok f) a = k f a
with_variable k err a = (err, a)
with_variable k fault a = (fault, a)

-- The search for the waveform that heads SET and GET.
abbrev pub with_waveform : (ℕ → NodWaveform → Call Anode (Unit {0})) → Call Anode (Unit {0})
with_waveform k a =
    let wi = find_waveform a.loaded_waveforms a.packet.dest.waveform_id in
    if a.packet.dest.waveform_id == 0
    then (err, a)
    else with_found (k wi) (get_elem? a.loaded_waveforms wi) a

-- The load of a waveform that has been read; one that fails to load is removed.
abbrev pub load_or_remove :
    Call Handling (Unit {0}) → (NodWaveform → NodWaveform) → Call Handling (Unit {0})
load_or_remove load remove h =
    let r = load h in
    elim r.0 [ ok _ ↦ r | err ↦ (err, record (r.1) { dest = remove (r.1).dest }) | fault ↦ r ]

module _ (layout : Layout) (calloc : ℕ → ℕ → Bool) (unserialize load : Call Handling (Unit {0}))
    (remove : NodWaveform → NodWaveform) where
  pub nod_dispatcher_load : Call Anode (Unit {0})
  unfolding find_stopped
  nod_dispatcher_load a =
      let i = find_stopped a.loaded_waveforms in
      with_found (λ w. on_waveform i w (unserialize >> load_or_remove load remove))
        (get_elem? a.loaded_waveforms i) a

  set_variable : ℕ → NodWaveform → Call Anode (Unit {0})
  unfolding find_variable
  set_variable wi w a =
      with_variable
        (λ f. on_packet (variable_unserialize_to calloc f.variable cp_value f.nof_modes) >>= λ v.
          λ b. (
            ok tt,
            record b { loaded_waveforms = set b.loaded_waveforms wi (put_variable wi w f v) },
          ))
        (find_variable a.loaded_waveforms wi w a.packet.dest) a

  pub nod_dispatcher_set : Call Anode (Unit {0})
  unfolding find_waveform set_variable
  nod_dispatcher_set = with_waveform λ wi w a.
      if is_whole a.packet.dest then on_waveform wi w unserialize a else set_variable wi w a

  get_variable : ℕ → NodWaveform → Call Anode (Unit {0})
  unfolding find_variable
  get_variable wi w a =
      with_variable (λ f. on_packet (variable_serialize f.variable cp_value f.nof_modes))
        (find_variable a.loaded_waveforms wi w a.packet.dest) a

  pub nod_dispatcher_get : Call Anode (Unit {0})
  unfolding find_waveform get_variable
  nod_dispatcher_get = with_waveform λ wi w a.
      if is_whole a.packet.dest
      then on_packet
          (nod_waveform_serialize layout (map (λ m. m.parent) (array w.modules)) w.nof_modules 0
            no_data)
          a
      else get_variable wi w a

  -- `packet_clear(pkt)` after LOAD and SET, whatever they came to.
  abbrev pub and_clear : Call Anode (Unit {0}) → Call Anode (Unit {0})
  and_clear c a = let r = c a in (r.0, record (r.1) { packet = (packet_clear (r.1).packet).1 })

  -- The switch; CONNECT, DISCONNECT and HWINFO are not yet implemented.
  pub execute : Command → Call Anode (Unit {0})
  unfolding nod_dispatcher_load nod_dispatcher_set nod_dispatcher_get
  execute cmd_load = and_clear nod_dispatcher_load
  execute cmd_set = and_clear nod_dispatcher_set
  execute cmd_get = nod_dispatcher_get
  execute cmd_connect = fail
  execute cmd_disconnect = fail
  execute cmd_hwinfo = fail

  pub nod_anode_dispatch : Call Anode (Unit {0})
  unfolding execute
  nod_anode_dispatch a = execute a.packet.cmd a
