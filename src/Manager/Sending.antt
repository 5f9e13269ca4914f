-- ===== src/Manager/Sending.antt =====
-- What `waveform_status_set` leaves, for every answer of the nodes, and sequences of such calls.
use aloe.Base.{
  ℕ, ◌==◌, ◌≡◌, ◌<◌, refl, List, take, arith, int_of_bytes, bytes_of_int, int_of_bytes-bytes_of_int,
  word_mod, Outcome, ok, err, fault, proceed, if◌then◌else◌, Bool-cases, inl, inr,
}
use aloe.Packet.{cmd_set}
use aloe.Packet.Send.{Channel}
use aloe.Waveform.{Layout, Waveform}
use aloe.Serializable.{waveform_status}
use aloe.Manager.{
  parsed, stop, cur_status, with_status, Managed, Nodes, status_is_valid, waveform_send,
  waveform_status_set, send_status, change,
}
use aloe.Manager.Status.{
  Allowed, status_is_valid_lem, initialise, start, resume, free_run, step_running, step_first,
  step_paused, step_again, pause_running, pause_stepping, stop_any,
}

-- The status that a `waveform_status_t` asks for.
abbrev pub asked : List ℕ → ℕ
asked new_status = int_of_bytes (take 4 new_status)

-- The status in the end, by what sending came to.
abbrev pub settled : Outcome (Unit {0}) → ℕ → ℕ
settled (ok _) new = if new == stop then parsed else new
settled err new = new
settled fault new = new

Allowed-small : {s t : ℕ} → Allowed s t → t < word_mod
Allowed-small initialise = omega arith
Allowed-small start = omega arith
Allowed-small resume = omega arith
Allowed-small free_run = omega arith
Allowed-small step_running = omega arith
Allowed-small step_first = omega arith
Allowed-small step_paused = omega arith
Allowed-small step_again = omega arith
Allowed-small pause_running = omega arith
Allowed-small pause_stepping = omega arith
Allowed-small stop_any = omega arith

cur_status-with_status : (s : ℕ) (w : Waveform) → s < word_mod → cur_status (with_status s w) ≡ s
unfolding bytes_of_int
cur_status-with_status s w h = int_of_bytes-bytes_of_int s h

module _ (layout : Layout) (receive : Nodes) (node_ids : List ℕ) (m : Managed)
    (new_status : List ℕ) where
  abbrev pub set_status : Outcome (Unit {0}) × Managed
  set_status = waveform_status_set layout receive node_ids new_status m

  -- The call that sends the status, on the waveform that has it.
  abbrev pub status_sent : Outcome (Unit {0}) × Managed
  status_sent =
      waveform_send layout receive node_ids cmd_set waveform_status
        (record m { waveform = record (m.waveform) { status = new_status } })

  -- A transition that is not allowed is refused: nothing is sent and nothing changes.
  pub waveform_status_set_refused :
      ¬ Allowed (cur_status m.waveform) (asked new_status) → set_status ≡ (err, m)
  unfolding waveform_status_set
  waveform_status_set_refused bad =
      elim (Bool-cases (status_is_valid (cur_status m.waveform) (asked new_status))) [
        | inl valid ↦
            absurd (bad ((status_is_valid_lem (cur_status m.waveform) (asked new_status)).0 valid))
        | inr invalid ↦ rw invalid refl
      ]

  pub record IsCarriedOut (r : Outcome (Unit {0}) × Managed) : Type 0 where
    pub same_result : r.0 ≡ status_sent.0
    pub same_channel : r.1.channel ≡ status_sent.1.channel
    pub status_settled : cur_status r.1.waveform ≡ settled status_sent.0 (asked new_status)

  settled_small :
      (o : Outcome (Unit {0}))
      → asked new_status < word_mod
      → settled o (asked new_status) < word_mod
  settled_small (ok u) h = ground arith
  settled_small err h = h
  settled_small fault h = h

  -- The waveform that is sent.
  abbrev requested : Channel → Managed
  requested c = record m { waveform = record (m.waveform) { status = new_status }; channel = c }

  -- The last step of the call, when sending has come to `o`.
  abbrev settle : Outcome (Unit {0}) → Channel → Outcome (Unit {0}) × Managed
  settle o c =
      proceed
        (λ _. change (with_status (if asked new_status == stop then parsed else asked new_status)))
        (o, requested c)

  settle_lem :
      (o : Outcome (Unit {0})) (c : Channel)
      → asked new_status < word_mod
      → ((settle o c).0 ≡ o)
        × ((settle o c).1.channel ≡ c)
        × (cur_status (settle o c).1.waveform ≡ settled o (asked new_status))
  settle_lem (ok u) c h = (
    refl,
    refl,
    cur_status-with_status (settled (ok u) (asked new_status)) (requested c).waveform
        (settled_small (ok u) h),
  )
  settle_lem err c h = (refl, refl, refl)
  settle_lem fault c h = (refl, refl, refl)

  send_status_lem :
      asked new_status < word_mod → IsCarriedOut (send_status layout receive node_ids new_status m)
  unfolding send_status waveform_send
  send_status_lem h =
      let s = settle_lem status_sent.0 status_sent.1.channel h in
      record { same_result = s.0; same_channel = s.1; status_settled = s.2 }

  -- An allowed one is sent to the nodes; the call returns what sending came to.
  pub waveform_status_set-Allowed :
      Allowed (cur_status m.waveform) (asked new_status) → IsCarriedOut set_status
  unfolding waveform_status_set
  waveform_status_set-Allowed good =
      rw ((status_is_valid_lem (cur_status m.waveform) (asked new_status)).1 good)
        (send_status_lem (Allowed-small good))
