-- ===== src/Manager.antt =====
-- oesr/src/manager/man_waveform.c: what the manager does to a waveform. The object is the waveform,
-- the number of its modules on each node, and the packet that is shared with the node of this
-- process. `mapping_map` is a parameter: the waveform and the modules on each node that it leaves,
-- or `none` where it fails. So is what each node does with a packet, and `rtdal_time_slot()`.
pub mod Status
pub mod Sending
pub mod Requests
mod Tests
use aloe.Base.{
  ℕ, zero, suc, ◌+◌, ◌==◌, Bool, true, false, not, ◌&&◌, ◌||◌, Option, none, some, List, [], ◌∷◌,
  ◌++◌, length, take, drop, map, get_or, if◌then◌else◌, Outcome, ok, err, fault, Call, ◌>>=◌, ◌>>◌,
  return, fail, crash, add32, int_of_bytes, bytes_of_int,
}
use aloe.Packet.{
  Packet, Command, cmd_load, cmd_set, cmd_get, Dest, packet_clear, packet_set_cmd, packet_get_ack,
}
use aloe.Packet.Send.{Channel, on_pkt, packet_sendto}
use aloe.Waveform.{Layout, Module, Waveform, rounds, str_equal}
use aloe.Serializable.{
  Action, waveform_load, waveform_status, waveform_mode, CopyData, no_data, cp_init, array,
}
use aloe.Serializable.Wave.{waveform_serialize, waveform_unserialize_to}

-- `waveform_status_enum`
abbrev pub parsed : ℕ
parsed = 0

abbrev pub loaded : ℕ
loaded = 1

abbrev pub init : ℕ
init = 2

abbrev pub run : ℕ
run = 3

abbrev pub step : ℕ
step = 4

abbrev pub pause : ℕ
pause = 5

abbrev pub stop : ℕ
stop = 6

-- `status.cur_status`, the first field of the structure.
abbrev pub cur_status : Waveform → ℕ
cur_status w = int_of_bytes (take 4 w.status)

abbrev pub with_status : ℕ → Waveform → Waveform
with_status s w = record w { status = bytes_of_int s ++ drop 4 w.status }

pub record Managed : Type 0 where
  pub waveform : Waveform
  pub modules_x_node : List ℕ
  pub channel : Channel

abbrev pub on_channel : {A : Type 0} → Call Channel A → Call Managed A
on_channel c m = let r = c m.channel in (r.0, record m { channel = r.1 })

abbrev pub change : (Waveform → Waveform) → Call Managed (Unit {0})
change f m = (ok tt, record m { waveform = f m.waveform })

-- A call whose result is dropped.
abbrev pub ignoring : {S A : Type 0} → Call S A → Call S (Unit {0})
ignoring c s = (ok tt, (c s).1)

-- The switch on the new status, and what the current one has to be.
pub status_is_valid : ℕ → ℕ → Bool
status_is_valid cur new =
    if (new == parsed) || (new == loaded)
    then false
    else if new == init
    then cur == loaded
    else if new == run
    then (cur == pause) || ((cur == init) || (cur == step))
    else if new == step
    then (cur == run) || ((cur == init) || ((cur == pause) || (cur == step)))
    else if new == pause
    then (cur == run) || (cur == step)
    else new == stop

pub status_is_loaded : ℕ → Bool
status_is_loaded s = (s == loaded) || ((s == init) || ((s == pause) || (s == run)))

pub status_is_running : ℕ → Bool
status_is_running s = (s == run) || (s == pause)

-- What the node of that index answers to a packet: its acknowledgement and the packet it leaves.
abbrev pub Nodes : Type 0
Nodes = ℕ → Packet → ℕ × Packet

-- The destination of the packets for a waveform as a whole; a node's index stands for its address.
abbrev pub whole_waveform : ℕ → ℕ → Dest
whole_waveform node waveform_id = record {
  node = node;
  waveform_id = waveform_id;
  module_id = 0;
  variable_id = 0;
}

module _ (layout : Layout) (receive : Nodes) where
  -- One round of the loop for a node that has modules of the waveform.
  pub send_to : Waveform → Command → Action → ℕ → ℕ → Call Channel (Unit {0})
  send_to waveform cmd action i node_id = do
    ignoring (on_pkt packet_clear)
    on_pkt (waveform_serialize layout waveform node_id action cp_init)
    ignoring (on_pkt (packet_set_cmd cmd))
    packet_sendto (receive i) (whole_waveform i waveform.id)
    ack ← on_pkt packet_get_ack
    if ack == 0 then return tt else fail

  -- The loop over the nodes from index `i` on; `counts` is `modules_x_node` from there, and
  -- `node_ids` the `id` of each node of the platform.
  pub send_all : Waveform → Command → Action → ℕ → List ℕ → List ℕ → Call Channel (Unit {0})
  send_all waveform cmd action i node_ids [] = return tt
  send_all waveform cmd action i node_ids (n ∷ counts) =
      (if n == 0 then return tt else send_to waveform cmd action i (get_or node_ids i 0))
      >> send_all waveform cmd action (i + 1) node_ids counts

  module _ (node_ids : List ℕ) where
    pub waveform_send : Command → Action → Call Managed (Unit {0})
    unfolding send_all
    waveform_send cmd action m =
        on_channel (send_all m.waveform cmd action 0 node_ids m.modules_x_node) m

    pub waveform_load_on : (Waveform → Option (Waveform × List ℕ)) → Call Managed (Unit {0})
    unfolding waveform_send
    waveform_load_on mapping_map m = elim (mapping_map (with_status parsed m.waveform)) [
      | none ↦ (err, record m { waveform = with_status parsed m.waveform })
      | some (w, counts) ↦
          (waveform_send cmd_load waveform_load >> change (with_status loaded))
            (record m { waveform = w; modules_x_node = counts })
    ]

    -- What follows the test of the transition.
    pub send_status : List ℕ → Call Managed (Unit {0})
    send_status new_status = do
      change (λ w. record w { status = new_status })
      waveform_send cmd_set waveform_status
      change (
          let new = int_of_bytes (take 4 new_status) in
          with_status (if new == stop then parsed else new))

    -- `new_status` is the bytes of the structure.
    pub waveform_status_set : List ℕ → Call Managed (Unit {0})
    unfolding send_status
    waveform_status_set new_status m =
        if status_is_valid (cur_status m.waveform) (int_of_bytes (take 4 new_status))
        then send_status new_status m
        else (err, m)

    -- The first of `n` modes that has the name, which ends with its NUL; -1 if there is none.
    pub find_mode : ℕ → List (List ℕ) → List ℕ → Outcome ℕ
    find_mode zero modes name = err
    find_mode (suc n) [] name = fault
    find_mode (suc n) (mode ∷ modes) name =
        if str_equal (length name) mode name
        then ok 0
        else elim (find_mode n modes name) [ ok i ↦ ok (i + 1) | err ↦ err | fault ↦ fault ]

    abbrev pub plan_mode : ℕ → ℕ → Module → Module
    plan_mode i tstamp m = record m {
      mode = record (m.mode) { next_mode = i; next_tslot = add32 (add32 tstamp 10) m.stage };
    }

    -- The loop over the modules, `n` of them left.
    pub plan_modes : ℕ → ℕ → ℕ → List Module → Outcome (List Module)
    plan_modes zero i tstamp ms = ok ms
    plan_modes (suc n) i tstamp [] = fault
    plan_modes (suc n) i tstamp (m ∷ ms) = elim (plan_modes n i tstamp ms) [
      | ok rest ↦ ok (plan_mode i tstamp m ∷ rest)
      | err ↦ err
      | fault ↦ fault
    ]

    -- `tstamp` is `rtdal_time_slot()`.
    pub waveform_mode_set : ℕ → List ℕ → Call Managed (Unit {0})
    unfolding find_mode plan_modes waveform_send
    waveform_mode_set tstamp name m =
        elim (find_mode (rounds m.waveform.nof_modes) m.waveform.modes name) [
          | err ↦ (err, m)
          | fault ↦ (fault, m)
          | ok i ↦
              elim (plan_modes (rounds m.waveform.nof_modules) i tstamp
                (array m.waveform.modules)) [
                  | err ↦ (err, m)
                  | fault ↦ (fault, m)
                  | ok ms ↦
                      (change (λ w. record w { modules = some ms })
                          >> waveform_send cmd_set waveform_mode)
                        m
                ]
        ]

    ask : Waveform → (ℕ → ℕ → Bool) → Call Channel Waveform
    ask w calloc = do
      ignoring (on_pkt (packet_set_cmd cmd_get))
      ignoring (on_pkt packet_clear)
      packet_sendto (receive 0) (whole_waveform 0 w.id)
      on_pkt (waveform_unserialize_to layout calloc w no_data)

    -- The answer of the first node, read into the waveform.
    pub waveform_update : (ℕ → ℕ → Bool) → Call Managed (Unit {0})
    unfolding ask
    waveform_update calloc m = (on_channel (ask m.waveform calloc) >>= λ w. change (λ _. w)) m
