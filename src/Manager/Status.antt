-- ===== src/Manager/Status.antt =====
-- `waveform_status_is_valid` and `waveform_status_set` as a state machine.
use mathlib.Core.Path.{subst}
use aloe.Base.{ℕ, ◌≡◌, refl, sym, true, arith, ℕ_discrete}
use aloe.Manager.{loaded, init, run, step, pause, stop, status_is_valid}

-- The transitions that the manager may ask a node for.
pub data Allowed : ℕ → ℕ → Type 0 where
  initialise : Allowed loaded init
  start : Allowed init run
  resume : Allowed pause run
  free_run : Allowed step run
  step_running : Allowed run step
  step_first : Allowed init step
  step_paused : Allowed pause step
  step_again : Allowed step step
  pause_running : Allowed run pause
  pause_stepping : Allowed step pause
  stop_any : {s : ℕ} → Allowed s stop

-- `waveform_status_is_valid` returns 1 for every allowed transition.
Allowed-valid : {s t : ℕ} → Allowed s t → status_is_valid s t ≡ true
unfolding status_is_valid
Allowed-valid initialise = refl
Allowed-valid start = refl
Allowed-valid resume = refl
Allowed-valid free_run = refl
Allowed-valid step_running = refl
Allowed-valid step_first = refl
Allowed-valid step_paused = refl
Allowed-valid step_again = refl
Allowed-valid pause_running = refl
Allowed-valid pause_stepping = refl
Allowed-valid stop_any = refl

valid_init : (s : ℕ) → status_is_valid s init ≡ true → Allowed s init
unfolding status_is_valid
valid_init s e = elim (ℕ_discrete s loaded) [
  | yes h ↦ subst (λ x. Allowed x init) (sym h) initialise
  | no a ↦ absurd (ground arith)
]

valid_run : (s : ℕ) → status_is_valid s run ≡ true → Allowed s run
unfolding status_is_valid
valid_run s e = elim (ℕ_discrete s pause) [
  | yes h ↦ subst (λ x. Allowed x run) (sym h) resume
  | no a ↦ elim (ℕ_discrete s init) [
    | yes h ↦ subst (λ x. Allowed x run) (sym h) start
    | no b ↦ elim (ℕ_discrete s step) [
      | yes h ↦ subst (λ x. Allowed x run) (sym h) free_run
      | no c ↦ absurd (ground arith)
    ]
  ]
]

valid_step : (s : ℕ) → status_is_valid s step ≡ true → Allowed s step
unfolding status_is_valid
valid_step s e = elim (ℕ_discrete s run) [
  | yes h ↦ subst (λ x. Allowed x step) (sym h) step_running
  | no a ↦ elim (ℕ_discrete s init) [
    | yes h ↦ subst (λ x. Allowed x step) (sym h) step_first
    | no b ↦ elim (ℕ_discrete s pause) [
      | yes h ↦ subst (λ x. Allowed x step) (sym h) step_paused
      | no c ↦ elim (ℕ_discrete s step) [
        | yes h ↦ subst (λ x. Allowed x step) (sym h) step_again
        | no d ↦ absurd (ground arith)
      ]
    ]
  ]
]

valid_pause : (s : ℕ) → status_is_valid s pause ≡ true → Allowed s pause
unfolding status_is_valid
valid_pause s e = elim (ℕ_discrete s run) [
  | yes h ↦ subst (λ x. Allowed x pause) (sym h) pause_running
  | no a ↦ elim (ℕ_discrete s step) [
    | yes h ↦ subst (λ x. Allowed x pause) (sym h) pause_stepping
    | no b ↦ absurd (ground arith)
  ]
]

at : (s : ℕ) {t u : ℕ} → t ≡ u → status_is_valid s t ≡ true → status_is_valid s u ≡ true
at s h e = subst (λ x. status_is_valid s x ≡ true) h e

valid-Allowed : (s t : ℕ) → status_is_valid s t ≡ true → Allowed s t
unfolding status_is_valid
valid-Allowed s t e = elim (ℕ_discrete t init) [
  | yes h ↦ subst (Allowed s) (sym h) (valid_init s (at s h e))
  | no a ↦ elim (ℕ_discrete t run) [
    | yes h ↦ subst (Allowed s) (sym h) (valid_run s (at s h e))
    | no b ↦ elim (ℕ_discrete t step) [
      | yes h ↦ subst (Allowed s) (sym h) (valid_step s (at s h e))
      | no c ↦ elim (ℕ_discrete t pause) [
        | yes h ↦ subst (Allowed s) (sym h) (valid_pause s (at s h e))
        | no d ↦ elim (ℕ_discrete t stop) [
          | yes h ↦ subst (Allowed s) (sym h) stop_any
          | no f ↦ absurd (ground arith)
        ]
      ]
    ]
  ]
]

-- `waveform_status_is_valid` returns 1 for just the transitions of the state machine.
pub status_is_valid_lem :
    (s t : ℕ)
    → (status_is_valid s t ≡ true → Allowed s t) × (Allowed s t → status_is_valid s t ≡ true)
status_is_valid_lem s t = (valid-Allowed s t, Allowed-valid)
