-- ===== src/Dispatcher/Target.antt =====
-- oesr/src/node/nod_dispatcher.c: the waveform that a command is for.
use aloe.Base.{
  length, take, int_of_bytes, ==_iff, ◌<◌, ◌+◌, ℕ, zero, suc, ◌==◌, ◌≡◌, refl, Bool, true, false,
  List, [], ◌∷◌, arith, if◌then◌else◌,
}
use aloe.Packet.{Command, cmd_load, cmd_set}
use aloe.Node.{NodWaveform, status_stop}
use aloe.Dispatcher.{Anode, node_status, find_stopped, find_waveform}

-- Place `i` holds the first waveform that `P` holds of.
unfoldable pub IsFirst : (NodWaveform → Type 0) → List NodWaveform → ℕ → Type 0
IsFirst P [] i = ⊥
IsFirst P (w ∷ ws) zero = P w
IsFirst P (w ∷ ws) (suc i) = ¬ P w × IsFirst P ws i

abbrev pub IsStopped : NodWaveform → Type 0
IsStopped w = int_of_bytes (take 4 w.status) ≡ status_stop

-- The place that the command may change: for LOAD the first waveform that is stopped, for SET the
-- first with the identifier in the packet's destination, for the others none.
unfoldable pub IsTarget : Command → Anode → ℕ → Type 0
IsTarget cmd_load a i = IsFirst IsStopped a.loaded_waveforms i
IsTarget cmd_set a i = IsFirst (λ w. w.id ≡ a.packet.dest.waveform_id) a.loaded_waveforms i
IsTarget _ a i = ⊥

-- What one step of a search makes of the place: the first waveform, or a place behind it.
module _ (P : NodWaveform → Type 0) (w : NodWaveform) (ws : List NodWaveform) where
  IsFirst-suc :
      (i rest : ℕ) (here : Bool)
      → ((here ≡ true) → P w)
      → ((here ≡ false) → ¬ P w)
      → ((j : ℕ) → j ≡ rest → j < length ws → IsFirst P ws j)
      → i ≡ (if here then 0 else rest + 1)
      → i < suc (length ws)
      → IsFirst P (w ∷ ws) i
  unfolding IsFirst
  IsFirst-suc zero rest true found other behind e h = found refl
  IsFirst-suc (suc i) rest true found other behind e h = absurd (omega arith)
  IsFirst-suc zero rest false found other behind e h = absurd (omega arith)
  IsFirst-suc (suc i) rest false found other behind e h =
      (other refl, behind i (omega arith) (omega arith))

-- The searches stop at the first one, or past the end.
pub find_stopped-IsFirst :
    (ws : List NodWaveform) (i : ℕ) → i ≡ find_stopped ws → i < length ws → IsFirst IsStopped ws i
unfolding find_stopped
find_stopped-IsFirst [] i e h = absurd (omega arith)
find_stopped-IsFirst (w ∷ ws) i e h =
    IsFirst-suc IsStopped w ws i (find_stopped ws) (node_status w == status_stop)
      ((==_iff (node_status w) status_stop).0) (λ e s. ground arith) (find_stopped-IsFirst ws) e h

pub find_waveform-IsFirst :
    (waveform_id : ℕ) (ws : List NodWaveform) (i : ℕ)
    → i ≡ find_waveform ws waveform_id
    → i < length ws
    → IsFirst (λ w. w.id ≡ waveform_id) ws i
unfolding find_waveform
find_waveform-IsFirst waveform_id [] i e h = absurd (omega arith)
find_waveform-IsFirst waveform_id (w ∷ ws) i e h =
    IsFirst-suc (λ v. v.id ≡ waveform_id) w ws i (find_waveform ws waveform_id)
      (w.id == waveform_id) ((==_iff w.id waveform_id).0) (λ e s. ground arith)
      (find_waveform-IsFirst waveform_id ws) e h
