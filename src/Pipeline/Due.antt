-- ===== src/Pipeline/Due.antt =====
-- Which processes are called in a time slot, by the state at its start, and what the code of the
-- modules and of the node may change meanwhile.
use aloe.Base.{
  ==_iff, ≢→==, ℕ, ◌==◌, ◌≡◌, ◌≢◌, refl, sym, ap, ap₂, ◌∙◌, ◌⊎◌, inl, inr, Bool-cases, Bool, true,
  false, not, ◌&&◌, ◌||◌, ℕ_discrete, List, [], ◌∷◌, get_or, if◌then◌else◌,
}
use aloe.Pipeline.{Process, World, is_due}

-- What rtdal.h says of a `run_point`: it changes its own process, and removes none.
pub record IsRunPoint (f : ℕ → World → Bool × World) : Type 0 where
  pub pipeline_kept : (pid : ℕ) (w : World) → World.pipeline (f pid w).1 ≡ World.pipeline w
  pub runnable_kept :
      (pid q : ℕ) (w : World) → q ≢ pid → World.runnable (f pid w).1 q ≡ World.runnable w q
  pub code_kept :
      (pid q : ℕ) (w : World) → q ≢ pid → World.finish_code (f pid w).1 q ≡ World.finish_code w q
  pub notified_kept : (pid : ℕ) (w : World) → World.notified (f pid w).1 ≡ World.notified w

-- And of a `finish_callback`: the process is not run, nor, as nod_module_finish_callback in
-- oesr/src/node/nod_module.c has it, are the others of its group, which is a waveform; it removes none.
-- That one is so for the errors RUNERROR and RTFAULT, without FINISH_ON_RUNERROR; for SIG_RECV it
-- removes the waveform's processes at once, and an error of another number it leaves alone.
pub record IsCallback (group_of : ℕ → ℕ) (f : ℕ → World → World) : Type 0 where
  pub pipeline_kept : (pid : ℕ) (w : World) → World.pipeline (f pid w) ≡ World.pipeline w
  pub stopped :
      (pid q : ℕ) (w : World) → group_of q ≡ group_of pid → World.runnable (f pid w) q ≡ false
  pub runnable_kept :
      (pid q : ℕ) (w : World)
      → group_of q ≢ group_of pid
      → World.runnable (f pid w) q ≡ World.runnable w q
  pub code_kept :
      (pid q : ℕ) (w : World)
      → group_of q ≢ group_of pid
      → World.finish_code (f pid w) q ≡ World.finish_code w q
  pub notified_kept :
      (pid g : ℕ) (w : World)
      → g ≢ group_of pid
      → get_or (World.notified (f pid w)) g false ≡ get_or (World.notified w) g false

-- One of the processes has an error to be notified and is of the group.
unfoldable pub is_stopped : World → List Process → ℕ → Bool
is_stopped w [] g = false
is_stopped w (p ∷ before) g = is_due w p && Process.process_group_id p == g || is_stopped w before g

-- The process is enabled, and none of its group among `before` has an error to be notified.
unfoldable pub runs : World → List Process → Process → Bool
unfolding is_stopped
runs w before p =
    World.runnable w (Process.pid p) && not (is_stopped w before (Process.process_group_id p))

-- The processes of the list that are called, with those of `before` in front of it.
unfoldable pub due : World → List Process → List Process → List ℕ
unfolding runs
due w before [] = []
due w before (p ∷ ps) =
    if runs w (p ∷ before) p then Process.pid p ∷ due w (p ∷ before) ps else due w (p ∷ before) ps

false_and : (a b : Bool) → a ≡ false → (a && b) ≡ false
false_and true b e = cc
false_and false b e = refl

or_true : (a b : Bool) → b ≡ true → (a || b) ≡ true
or_true true b e = refl
or_true false b e = e

and_false : (a b : Bool) → b ≡ false → (a && b) ≡ false
and_false true b e = e
and_false false b e = refl

-- A process that has no error, is of another group, or whose group is stopped already, makes no
-- difference.
pub runs-same :
    (w : World) (p q : Process) (before : List Process)
    → (is_due w p ≡ false)
      ⊎ (Process.process_group_id p ≢ Process.process_group_id q)
      ⊎ (is_stopped w before (Process.process_group_id p) ≡ true)
    → runs w (p ∷ before) q ≡ runs w before q
unfolding runs is_stopped
runs-same w p q before h = ap (λ b. World.runnable w (Process.pid q) && not b) (go h)
  where
    g : ℕ
    g = Process.process_group_id q

    drop_front :
        (is_due w p && Process.process_group_id p == Process.process_group_id q) ≡ false
        → (is_due w p && Process.process_group_id p == Process.process_group_id q
            || is_stopped w before (Process.process_group_id q))
          ≡ is_stopped w before (Process.process_group_id q)
    drop_front e = ap (λ b. b || is_stopped w before (Process.process_group_id q)) e

    go :
        (is_due w p ≡ false)
          ⊎ (Process.process_group_id p ≢ Process.process_group_id q)
          ⊎ (is_stopped w before (Process.process_group_id p) ≡ true)
        → (is_due w p && Process.process_group_id p == Process.process_group_id q
            || is_stopped w before (Process.process_group_id q))
          ≡ is_stopped w before (Process.process_group_id q)
    go (inl none) =
        drop_front
          (false_and (is_due w p) (Process.process_group_id p == Process.process_group_id q) none)
    go (inr (inl other)) = drop_front (
        and_false (is_due w p) (Process.process_group_id p == Process.process_group_id q)
          (≢→== (Process.process_group_id p) (Process.process_group_id q) other))
    go (inr (inr already)) =
        elim (ℕ_discrete (Process.process_group_id p) (Process.process_group_id q)) [
          | no other ↦ drop_front (
              and_false (is_due w p) (Process.process_group_id p == Process.process_group_id q)
                (≢→== (Process.process_group_id p) (Process.process_group_id q) other))
          | yes e ↦
              let stopped : is_stopped w before (Process.process_group_id q) ≡ true =
                ap (is_stopped w before) (sym e) ∙ already in
              or_true (is_due w p && Process.process_group_id p == Process.process_group_id q)
                (is_stopped w before (Process.process_group_id q)) stopped
              ∙ sym stopped
        ]

-- An error stops the processes of its group.
pub runs-stopped :
    (w : World) (p q : Process) (before : List Process)
    → is_due w p ≡ true
    → Process.process_group_id p ≡ Process.process_group_id q
    → runs w (p ∷ before) q ≡ false
unfolding runs is_stopped
runs-stopped w p q before e same =
    let here : (is_due w p && Process.process_group_id p == Process.process_group_id q) ≡ true =
      ap₂ ◌&&◌ e ((==_iff (Process.process_group_id p) (Process.process_group_id q)).1 same) in
    ap
      (λ b.
        World.runnable w (Process.pid q)
        && not (b || is_stopped w before (Process.process_group_id q)))
      here
    ∙ and_false (World.runnable w (Process.pid q)) false refl

-- In the world `v` of a later round, with `before` passed, a process is enabled if it is to run, and
-- then its error is that at the start, `w`.
abbrev pub Like : World → World → List Process → Process → Type 0
Like w v before q =
    (World.runnable v (Process.pid q) ≡ runs w before q)
    × (runs w before q ≡ true
        → (World.finish_code v (Process.pid q) ≡ World.finish_code w (Process.pid q))
          × (get_or (World.notified v) (Process.process_group_id q) false
              ≡ get_or (World.notified w) (Process.process_group_id q) false))

both : (a b : Bool) → (a && b) ≡ true → (a ≡ true) × (b ≡ true)
both true true e = (refl, refl)
both true false e = cc
both false b e = cc

is_on :
    (w : World) (before : List Process) (q : Process)
    → runs w before q ≡ true
    → World.runnable w (Process.pid q) ≡ true
unfolding runs
is_on w before q e =
    (both (World.runnable w (Process.pid q))
      (not (is_stopped w before (Process.process_group_id q))) e).0

first_of : (a b c d : Bool) → (a && b && c && d) ≡ true → a ≡ true
first_of true b c d e = refl
first_of false b c d e = e

is_due_on : (w : World) (p : Process) → is_due w p ≡ true → World.runnable w (Process.pid p) ≡ true
is_due_on w p e =
    first_of (World.runnable w (Process.pid p)) (not (World.finish_code w (Process.pid p) == 0))
      (not (get_or (World.notified w) (Process.process_group_id p) false)) (Process.has_callback p)
      e

on_stopped : (a b : Bool) → a ≡ true → (a && not b) ≡ false → b ≡ true
on_stopped true true e h = refl
on_stopped true false e h = sym h
on_stopped false b e h = cc

stopped_before :
    (w : World) (before : List Process) (p : Process)
    → World.runnable w (Process.pid p) ≡ true
    → runs w before p ≡ false
    → is_stopped w before (Process.process_group_id p) ≡ true
unfolding runs
stopped_before w before p on off =
    on_stopped (World.runnable w (Process.pid p)) (is_stopped w before (Process.process_group_id p))
      on off

-- The error of a process that is to run is that at the start.
is_due-Like :
    (w v : World) (before : List Process) (p : Process)
    → Like w v before p
    → runs w before p ≡ true
    → is_due v p ≡ is_due w p
is_due-Like w v before p (on, same) e =
    let (code, told) = same e in
    λ i.
      (on ∙ e ∙ sym (is_on w before p e)) i
      && not (code i == 0)
      && not (told i)
      && Process.has_callback p

-- An error that is found is one at the start, of a process that is to run.
pub found_due :
    (w v : World) (before : List Process) (p : Process)
    → Like w v before p
    → is_due v p ≡ true
    → (is_due w p ≡ true) × (runs w before p ≡ true)
found_due w v before p l e =
    let run : runs w before p ≡ true = sym l.0 ∙ is_due_on v p e in
    (sym (is_due-Like w v before p l run) ∙ e, run)

-- Where none is found, the process makes no difference.
pub no_due :
    (w v : World) (before : List Process) (p q : Process)
    → Like w v before p
    → is_due v p ≡ false
    → runs w (p ∷ before) q ≡ runs w before q
no_due w v before p q l e = runs-same w p q before (elim (Bool-cases (runs w before p)) [
  | inl run ↦ inl (sym (is_due-Like w v before p l run) ∙ e)
  | inr off ↦ elim (Bool-cases (is_due w p)) [
    | inl error ↦ inr (inr (stopped_before w before p (is_due_on w p error) off))
    | inr none ↦ inl none
  ]
])
