-- ===== src/Pipeline/Slot.antt =====
-- What a time slot runs, where no process fails.
use mathlib.Core.Path.{subst}
use aloe.Base.{
  arith, le→ltb, ℕ, suc, ◌+◌, ◌≤◌, ◌≡◌, refl, sym, ap, ap₂, ◌∙◌, Bool, true, false, ◌&&◌, List, [],
  ◌∷◌, ◌++◌, append-nil, append_assoc, All, length, if◌then◌else◌,
}
use aloe.Pipeline.{
  Process, Pipeline, World, Trace, behind, run_from, finish_slot, pipeline_run_time_slot,
}
use aloe.Pipeline.Due.{IsRunPoint, IsCallback, is_stopped, runs, due, Like}
use aloe.Pipeline.Round.{Same, checked, check_status_lem, module_run, run_module_lem}
use aloe.Pipeline.Linked.{Distinct, Linked, Distinct-Linked, passed}

All-map :
    {P Q R : Process → Type 0} (ps : List Process)
    → ((q : Process) → P q → Q q → R q)
    → All P ps
    → All Q ps
    → All R ps
All-map [] f hp hq = tt
All-map (p ∷ ps) f (x, hp) (y, hq) = (f p x y, All-map ps f hp hq)

module _ (run_point : ℕ → World → Bool × World) (finish_callback : ℕ → World → World)
    (group_of : ℕ → ℕ) (rp : IsRunPoint run_point) (cb : IsCallback group_of finish_callback) where
  -- `group_of` gives the group of a process.
  abbrev pub InGroup : Process → Type 0
  InGroup p = group_of (Process.pid p) ≡ Process.process_group_id p

  -- The process does not fail when it is called.
  abbrev pub NeverFails : Process → Type 0
  NeverFails p = (u : World) → (run_point (Process.pid p) u).0 ≡ false

  -- The loop stands before `cur`, in the world `v`; the slot began in `w`.
  abbrev pub Going : World → List Process → World → List Process → Type 0
  Going w before v cur =
      Linked cur (Pipeline.processes (World.pipeline v))
      × All (Like w v before) cur
      × All InGroup cur
      × Distinct cur

  -- A round.
  abbrev pub round : Process → ℕ → World → Trace → World × Trace
  round p idx v t =
      module_run run_point finish_callback group_of rp cb p idx
        (checked run_point finish_callback group_of rp cb p v t)

  pub round_lem :
      (w v : World) (t : Trace) (before : List Process) (p : Process) (ps : List Process) (idx : ℕ)
      → NeverFails p
      → Going w before v (p ∷ ps)
      → let s = round p idx v t in
        Going w (p ∷ before) s.0 ps
        × Same (World.pipeline v) (World.pipeline s.0)
        × (Trace.ran s.1
            ≡ (if runs w (p ∷ before) p then Trace.ran t ++ Process.pid p ∷ [] else Trace.ran t))
  round_lem w v t before p ps idx fine ((here, linked), (l, ls), (g, gs), (ne, distinct)) =
      let c = checked run_point finish_callback group_of rp cb p v t in
      let (pipe, kept, next) =
        check_status_lem run_point finish_callback group_of rp cb w v t before p g l in
      let (same, ran, after) =
        run_module_lem run_point finish_callback group_of rp cb w c.0 c.1 (p ∷ before) p idx fine in
      let s = round p idx v t in
      let procs : Pipeline.processes (World.pipeline s.0) ≡ Pipeline.processes (World.pipeline v) =
        same.0 ∙ ap Pipeline.processes pipe in
      (
        (
          subst (Linked ps) (sym procs) linked,
          All-map ps after ne (All-map ps next gs ls),
          gs,
          distinct,
        ),
        (procs, same.1 ∙ ap Pipeline.nof_processes pipe),
        ran
            ∙ ap (λ b. if b then Trace.ran c.1 ++ Process.pid p ∷ [] else Trace.ran c.1)
                (next p g l).0
            ∙ ap (λ r. if runs w (p ∷ before) p then r ++ Process.pid p ∷ [] else r) kept,
      )

  -- The loop goes on behind the process, as the list is after the round.
  pub run_step :
      (fuel idx : ℕ) (v : World) (t : Trace) (p : Process) (ps next : List Process)
      → idx ≤ Pipeline.nof_processes (World.pipeline v)
      → behind (Process.pid p) (Pipeline.processes (World.pipeline (round p idx v t).0)) ≡ next
      → run_from run_point finish_callback (suc fuel) (p ∷ ps) idx (v, t)
        ≡ run_from run_point finish_callback fuel next (idx + 1) (round p idx v t)
  unfolding run_from
  run_step fuel idx v t p ps next inside e =
      rw (le→ltb (Pipeline.nof_processes (World.pipeline v)) idx inside)
        (ap (λ l. run_from run_point finish_callback fuel l (idx + 1) (round p idx v t)) e)

  -- The loop through processes that do not fail.
  pub run_from-append :
      (w : World) (xs rest : List Process) (fuel idx : ℕ) (v : World) (t : Trace)
      (before : List Process)
      → All NeverFails xs
      → Going w before v (xs ++ rest)
      → idx + length xs ≤ Pipeline.nof_processes (World.pipeline v) + 1
      → (v' : World) × (t' : Trace) × (run_from run_point finish_callback
            (length xs + fuel)
            (xs ++ rest)
            idx
            (v, t)
          ≡ run_from run_point finish_callback fuel rest (idx + length xs) (v', t'))
        × Going w (passed before xs) v' rest
        × Same (World.pipeline v) (World.pipeline v')
        × (Trace.ran t' ≡ Trace.ran t ++ due w before xs)
  unfolding due
  run_from-append w [] rest fuel idx v t before fine going inside = (
    v,
    t,
    ap₂ (λ f i. run_from run_point finish_callback f rest i (v, t)) {x = 0 + fuel} {y = fuel}
        (omega arith) (omega arith),
    going,
    (refl, refl),
    sym (append-nil (Trace.ran t)),
  )
  run_from-append w (p ∷ xs) rest fuel idx v t before (fine, more) going inside =
      let (ahead, same, ran) = round_lem w v t before p (xs ++ rest) idx fine going in
      let s = round p idx v t in
      let (v', t', run, end, kept, rest_ran) =
        run_from-append w xs rest fuel (idx + 1) s.0 s.1 (p ∷ before) more ahead
          (omega (arith, same.1)) in
      let linked : behind (Process.pid p) (Pipeline.processes (World.pipeline s.0)) ≡ xs ++ rest =
        ap (behind (Process.pid p)) same.0 ∙ going.0.0 in
      (
        v',
        t',
        ap (λ f. run_from run_point finish_callback f (p ∷ xs ++ rest) idx (v, t))
              {x = suc (length xs) + fuel} {y = suc (length xs + fuel)} (omega arith)
            ∙ run_step (length xs + fuel) idx v t p (xs ++ rest) (xs ++ rest) (omega arith) linked
            ∙ run
            ∙ ap (λ i. run_from run_point finish_callback fuel rest i (v', t')) (omega arith),
        end,
        (kept.0 ∙ same.0, kept.1 ∙ same.1),
        rest_ran
            ∙ ap (λ l. l ++ due w (p ∷ before) xs) ran
            ∙ join (runs w (p ∷ before) p) (Trace.ran t) (Process.pid p) (due w (p ∷ before) xs),
      )
    where
      join :
          (b : Bool) (l : List ℕ) (x : ℕ) (ys : List ℕ)
          → (if b then l ++ x ∷ [] else l) ++ ys ≡ l ++ (if b then x ∷ ys else ys)
      join true l x ys = append_assoc l (x ∷ []) ys
      join false l x ys = refl

  -- The world in which the loop begins.
  abbrev pub begun : World → World
  begun w = record w { pipeline = record (World.pipeline w) { finished = false } }

  begin-Like : (w : World) (q : Process) → Like w (begun w) [] q
  unfolding runs is_stopped
  begin-Like w q = (sym (and_true (World.runnable w (Process.pid q))), λ h. (refl, refl))
    where
      and_true : (b : Bool) → (b && true) ≡ b
      and_true true = refl
      and_true false = refl

  All-Like : (w : World) (ps : List Process) → All (Like w (begun w) []) ps
  All-Like w [] = tt
  All-Like w (p ∷ ps) = (begin-Like w p, All-Like w ps)

  -- What a pipeline and its processes are like before a slot: it is enabled, counts its processes,
  -- which have pids of their own, and the groups are those of `group_of`.
  pub record IsReady (w : World) : Type 0 where
    pub enabled : Pipeline.enable (World.pipeline w) ≡ true
    pub counted :
        Pipeline.nof_processes (World.pipeline w) ≡ length (Pipeline.processes (World.pipeline w))
    pub distinct : Distinct (Pipeline.processes (World.pipeline w))
    pub grouped : All InGroup (Pipeline.processes (World.pipeline w))

  pub begin-Going :
      (w : World) → IsReady w → Going w [] (begun w) (Pipeline.processes (World.pipeline w))
  begin-Going w r =
      let ps = Pipeline.processes (World.pipeline w) in
      (
        Distinct-Linked ps (IsReady.distinct r),
        All-Like w ps,
        IsReady.grouped r,
        IsReady.distinct r,
      )

  pub enabled_slot :
      (now : ℕ) (w : World) (t : Trace)
      → Pipeline.enable (World.pipeline w) ≡ true
      → pipeline_run_time_slot run_point finish_callback now (w, t)
        ≡ finish_slot run_point finish_callback now (
            run_from run_point finish_callback
              (Pipeline.nof_processes (World.pipeline w) + 2)
              (Pipeline.processes (World.pipeline w))
              0
              (begun w, t))
  unfolding pipeline_run_time_slot
  enabled_slot now w t on = rw on refl
