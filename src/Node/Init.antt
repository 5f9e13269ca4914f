-- ===== src/Node/Init.antt =====
-- `nod_waveform_status_init_thread` of oesr/src/node/nod_waveform.c: the modules of a waveform are
-- initialised in passes, because a module may ask to be called again. What `module->init` returns
-- and does to the module is a parameter.
use mathlib.Core.Path.{subst}
use aloe.Base.{
  ℕ, zero, suc, ◌+◌, ◌*◌, ◌==◌, ◌≤◌, ◌<◌, ◌≡◌, ◌≢◌, refl, Bool, true, false, Option, none, some,
  List, [], ◌∷◌, length, set, get_elem?, if◌then◌else◌, leb, arith, ℕ_discrete,
}
use aloe.Node.{NodModule, status_init}

-- `n < 0`, `n == 0`, `n > 0`
pub data Init : Type 0 where
  failed again done : Init

-- What the thread returns: 1 or NULL; `outside` is an access beyond the array.
pub data Verdict : Type 0 where
  all_done gave_up outside : Verdict

abbrev pub is_some {ℓ} : {A : Type ℓ} → Option A → Bool
is_some none = false
is_some (some a) = true

module _ (initialise : NodModule → Init × NodModule) where
  -- One round of the loop calls `nod_module_init` for a module that is not in INIT.
  abbrev pub try_init : NodModule → Init × NodModule
  try_init m = if m.parent.status == status_init then (again, m) else initialise m

  abbrev pub count : Init → ℕ → ℕ
  count done n = n + 1
  count again n = n
  count failed n = n

  -- `while (nof_initiated < waveform->nof_modules)`, with fuel; `nof` is `nof_modules`.
  unfoldable pub init_loop : ℕ → ℕ → ℕ → ℕ → ℕ → List NodModule → Option (Verdict × List NodModule)
  init_loop zero nof i nof_trials nof_initiated ms = none
  init_loop (suc fuel) nof i nof_trials nof_initiated ms =
      if leb nof nof_initiated then some (all_done, ms) else elim (get_elem? ms i) [
        | none ↦ some (outside, ms)
        | some m ↦
            let r = try_init m in
            let ms' = set ms i r.1 in
            let next_pass = init_loop fuel nof 0 (nof_trials + 1) (count r.0 nof_initiated) ms' in
            let next_module = init_loop fuel nof (i + 1) nof_trials (count r.0 nof_initiated) ms' in
            elim r.0 [
              | failed ↦ some (gave_up, ms')
              | _ ↦
                  if i + 1 == nof
                  then (if nof_trials + 1 == 3 then some (gave_up, ms') else next_pass)
                  else next_module
            ]
      ]

  -- Three passes over the modules and the last test of the loop.
  abbrev pub init_fuel : ℕ → ℕ
  init_fuel nof = 3 * nof + 1

  unfoldable pub status_init_thread : List NodModule → Option (Verdict × List NodModule)
  unfolding init_loop
  status_init_thread ms = init_loop (init_fuel (length ms)) (length ms) 0 0 0 ms

  -- `spent` rounds have been used by the passes before.
  data Spent (nof : ℕ) : ℕ → ℕ → Type 0 where
    none_yet : Spent nof 0 0
    one_pass : Spent nof 1 nof
    two_passes : Spent nof 2 (nof + nof)

  Spent-small : {nof trials spent : ℕ} → Spent nof trials spent → spent ≤ nof + nof
  Spent-small none_yet = omega arith
  Spent-small one_pass = omega arith
  Spent-small two_passes = omega arith

  Spent-next :
      {nof trials spent : ℕ}
      → Spent nof trials spent
      → trials + 1 ≢ 3
      → Spent nof (trials + 1) (spent + nof)
  Spent-next {nof} none_yet ne = subst (Spent nof 1) (omega arith) one_pass
  Spent-next one_pass ne = two_passes
  Spent-next two_passes ne = absurd (ne refl)

  -- With that much fuel the loop ends within the rounds that are left of three passes.
  abbrev Ends : ℕ → Type 0
  Ends fuel =
      (nof i trials initiated spent : ℕ) (ms : List NodModule)
      → i < nof
      → Spent nof trials spent
      → 3 * nof < fuel + (i + spent)
      → is_some (init_loop fuel nof i trials initiated ms) ≡ true

  -- One round, when the rounds after it end.
  module _ (fuel : ℕ) (ends : Ends fuel) (nof i trials initiated spent : ℕ) (ms : List NodModule)
      (hi : i < nof) (hs : Spent nof trials spent) (hf : 3 * nof < suc fuel + (i + spent)) where
    next_ends :
        (m : NodModule) (k : ℕ) (ms' : List NodModule)
        → i + 1 ≢ nof
        → is_some (init_loop fuel nof (i + 1) trials k ms') ≡ true
    next_ends m k ms' ne = ends nof (i + 1) trials k spent ms' (omega arith) hs (omega arith)

    pass_ends :
        (m : NodModule) (k : ℕ) (ms' : List NodModule)
        → i + 1 ≡ nof
        → trials + 1 ≢ 3
        → is_some (init_loop fuel nof 0 (trials + 1) k ms') ≡ true
    pass_ends m k ms' e ne =
        ends nof 0 (trials + 1) k (spent + nof) ms' (omega arith) (Spent-next hs ne) (omega arith)

    round_ends :
        (g : Option NodModule)
        → get_elem? ms i ≡ g
        → is_some (init_loop (suc fuel) nof i trials initiated ms) ≡ true
    unfolding init_loop
    round_ends none e = ground (arith, e)
    round_ends (some m) e = elim (ℕ_discrete (i + 1) nof) [
      | yes last ↦ elim (ℕ_discrete (trials + 1) 3) [
        | yes third ↦ ground (arith, e)
        | no more ↦ ground (
          arith,
          e,
          pass_ends m (count (try_init m).0 initiated) (set ms i (try_init m).1) last more,
        )
      ]
      | no between ↦
          ground (
            arith,
            e,
            next_ends m (count (try_init m).0 initiated) (set ms i (try_init m).1) between,
          )
    ]

  init_loop-Ends : (fuel : ℕ) → Ends fuel
  init_loop-Ends zero nof i trials initiated spent ms hi hs hf =
      absurd (omega (arith, Spent-small hs))
  init_loop-Ends (suc fuel) nof i trials initiated spent ms hi hs hf =
      round_ends fuel (init_loop-Ends fuel) nof i trials initiated spent ms hi hs hf
        (get_elem? ms i) refl

  -- The thread ends, whatever the modules' `init` functions return.
  pub status_init_thread_ends : (ms : List NodModule) → is_some (status_init_thread ms) ≡ true
  unfolding status_init_thread init_loop
  status_init_thread_ends [] = refl
  status_init_thread_ends (m ∷ ms) =
      init_loop-Ends (init_fuel (length (m ∷ ms))) (length (m ∷ ms)) 0 0 0 0 (m ∷ ms) (omega arith)
        none_yet (omega arith)
