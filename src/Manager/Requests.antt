-- ===== src/Manager/Requests.antt =====
-- Sequences of calls of `waveform_status_set`: how a waveform comes to execute.
use mathlib.Core.Path.{subst}
use aloe.Base.{
  ℕ, ◌≡◌, ◌≢◌, refl, sym, List, [], ◌∷◌, arith, Outcome, ok, err, fault, inl, inr, ◌⊎◌, All,
  Bool-cases,
}
use aloe.Waveform.{Layout}
use aloe.Manager.{
  parsed, loaded, init, stop, cur_status, Managed, Nodes, status_is_valid, waveform_status_set,
}
use aloe.Manager.Status.{
  Allowed, status_is_valid_lem, initialise, start, resume, free_run, step_running, step_first,
  step_paused, step_again, pause_running, pause_stepping, stop_any,
}
use aloe.Manager.Sending.{
  asked, settled, waveform_status_set_refused, waveform_status_set-Allowed, status_sent,
}

-- The states in which a waveform does not execute.
abbrev pub Idle : ℕ → Type 0
Idle s = (s ≡ parsed) ⊎ ((s ≡ loaded) ⊎ (s ≡ stop))

-- Requests to change the status, each with what the nodes do with the packet.
abbrev pub Request : Type 0
Request = Nodes × List ℕ

Idle-Allowed : {s t : ℕ} → Idle s → Allowed s t → t ≢ init → t ≡ stop
Idle-Allowed i initialise ne = absurd (ne refl)
Idle-Allowed i stop_any ne = refl
Idle-Allowed i start ne = absurd (omega arith)
Idle-Allowed i resume ne = absurd (omega arith)
Idle-Allowed i free_run ne = absurd (omega arith)
Idle-Allowed i step_running ne = absurd (omega arith)
Idle-Allowed i step_first ne = absurd (omega arith)
Idle-Allowed i step_paused ne = absurd (omega arith)
Idle-Allowed i step_again ne = absurd (omega arith)
Idle-Allowed i pause_running ne = absurd (omega arith)
Idle-Allowed i pause_stepping ne = absurd (omega arith)

settled-Idle : (o : Outcome (Unit {0})) (t : ℕ) → t ≡ stop → Idle (settled o t)
settled-Idle (ok u) t e = rw e (inl refl)
settled-Idle err t e = rw e (inr (inr refl))
settled-Idle fault t e = rw e (inr (inr refl))

module _ (layout : Layout) (node_ids : List ℕ) where
  -- All the calls, whatever they return.
  abbrev pub make_requests : List Request → Managed → Managed
  make_requests [] m = m
  make_requests ((receive, new_status) ∷ rs) m =
      make_requests rs (waveform_status_set layout receive node_ids new_status m).1

  one_request :
      (receive : Nodes) (new_status : List ℕ) (m : Managed)
      → asked new_status ≢ init
      → Idle (cur_status m.waveform)
      → Idle (cur_status (waveform_status_set layout receive node_ids new_status m).1.waveform)
  one_request receive new_status m ne idle =
      elim (Bool-cases (status_is_valid (cur_status m.waveform) (asked new_status))) [
        | inl valid ↦
            let good = (status_is_valid_lem (cur_status m.waveform) (asked new_status)).0 valid in
            let set = waveform_status_set-Allowed layout receive node_ids m new_status good in
            subst Idle (sym set.status_settled) (
              settled-Idle (status_sent layout receive node_ids m new_status).0 (asked new_status)
                (Idle-Allowed idle good ne))
        | inr invalid ↦
            rw
              (waveform_status_set_refused layout receive node_ids m new_status (λ a. absurd (
                ground
                  (arith, (status_is_valid_lem (cur_status m.waveform) (asked new_status)).1 a))))
              idle
      ]

  -- A waveform that is idle stays idle through any requests but INIT, whatever the nodes answer.
  pub requests-Idle :
      (rs : List Request) (m : Managed)
      → All (λ r. asked r.1 ≢ init) rs
      → Idle (cur_status m.waveform)
      → Idle (cur_status (make_requests rs m).waveform)
  requests-Idle [] m ne idle = idle
  requests-Idle ((receive, new_status) ∷ rs) m (ne, nes) idle =
      requests-Idle rs (waveform_status_set layout receive node_ids new_status m).1 nes
        (one_request receive new_status m ne idle)
