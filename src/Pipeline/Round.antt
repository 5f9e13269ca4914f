-- ===== src/Pipeline/Round.antt =====
-- What a round of a time slot does to the processes that follow: the notification of an error, and the
-- call of the process.
use aloe.Base.{
  ℕ, ◌≡◌, ◌≢◌, refl, sym, ap, ◌∙◌, inl, inr, Bool-cases, Bool, true, false, ℕ_discrete, get_or, set,
  get_or-set_ne, List, [], ◌∷◌, ◌++◌, if◌then◌else◌, some,
}
use aloe.Pipeline.{
  Process, Pipeline, World, Trace, is_due, pipeline_remove, pipeline_run_thread_check_status,
  pipeline_run_thread_run_module,
}
use aloe.Pipeline.Due.{
  IsRunPoint, IsCallback, runs, Like, found_due, no_due, runs-stopped, runs-same,
}

-- The pipeline after a part of the loop in which no process failed.
abbrev pub Same : Pipeline → Pipeline → Type 0
Same obj obj' =
    (Pipeline.processes obj' ≡ Pipeline.processes obj)
    × (Pipeline.nof_processes obj' ≡ Pipeline.nof_processes obj)

module _ (run_point : ℕ → World → Bool × World) (finish_callback : ℕ → World → World)
    (group_of : ℕ → ℕ) (rp : IsRunPoint run_point) (cb : IsCallback group_of finish_callback) where
  abbrev pub Grouped : Process → Type 0
  Grouped p = group_of (Process.pid p) ≡ Process.process_group_id p

  -- The call of the callback.
  abbrev notify : Process → World → World
  notify p v =
      finish_callback (Process.pid p)
        (record v { notified = set (World.notified v) (Process.process_group_id p) true })

  notify-Like :
      (w v : World) (before : List Process) (p q : Process)
      → Grouped p
      → Grouped q
      → is_due w p ≡ true
      → Like w v before q
      → Like w (notify p v) (p ∷ before) q
  notify-Like w v before p q gp gq error (on, same) =
      let marked = record v {
        notified = set (World.notified v) (Process.process_group_id p) true;
      } in
      elim (ℕ_discrete (Process.process_group_id p) (Process.process_group_id q)) [
        | yes e ↦
            let off : runs w (p ∷ before) q ≡ false = runs-stopped w p q before error e in
            (
              IsCallback.stopped cb (Process.pid p) (Process.pid q) marked (gq ∙ sym e ∙ sym gp)
                  ∙ sym off,
              λ h. cc,
            )
        | no ne ↦
            let alike : runs w (p ∷ before) q ≡ runs w before q =
              runs-same w p q before (inr (inl ne)) in
            let apart : group_of (Process.pid q) ≢ group_of (Process.pid p) =
              λ e. ne (sym gp ∙ sym e ∙ gq) in
            let elsewhere : Process.process_group_id q ≢ group_of (Process.pid p) =
              λ e. ne (sym gp ∙ sym e) in
            (
              IsCallback.runnable_kept cb (Process.pid p) (Process.pid q) marked apart
                  ∙ on
                  ∙ sym alike,
              λ h.
                  let r = same (sym alike ∙ h) in
                  (
                    IsCallback.code_kept cb (Process.pid p) (Process.pid q) marked apart ∙ r.0,
                    IsCallback.notified_kept cb (Process.pid p) (Process.process_group_id q) marked
                          elsewhere
                        ∙ get_or-set_ne (World.notified v) (Process.process_group_id p)
                            (Process.process_group_id q) true false ne
                        ∙ r.1,
                  ),
            )
      ]

  check_status_due :
      (p : Process) (v : World) (t : Trace)
      → is_due v p ≡ true
      → pipeline_run_thread_check_status run_point finish_callback p (v, t)
        ≡ (notify p v, record t { called_back = Trace.called_back t ++ Process.pid p ∷ [] })
  unfolding pipeline_run_thread_check_status
  check_status_due p v t e = rw e refl

  check_status_none :
      (p : Process) (v : World) (t : Trace)
      → is_due v p ≡ false
      → pipeline_run_thread_check_status run_point finish_callback p (v, t) ≡ (v, t)
  unfolding pipeline_run_thread_check_status
  check_status_none p v t e = rw e refl

  Like-next :
      (w v : World) (before : List Process) (p q : Process)
      → runs w (p ∷ before) q ≡ runs w before q
      → Like w v before q
      → Like w v (p ∷ before) q
  Like-next w v before p q alike (on, same) = (on ∙ sym alike, λ h. same (sym alike ∙ h))

  -- The world and trace once the error of `p`, if it has one, is notified.
  abbrev pub checked : Process → World → Trace → World × Trace
  checked p v t = pipeline_run_thread_check_status run_point finish_callback p (v, t)

  pub check_status_lem :
      (w v : World) (t : Trace) (before : List Process) (p : Process)
      → Grouped p
      → Like w v before p
      → (World.pipeline (checked p v t).0 ≡ World.pipeline v)
        × (Trace.ran (checked p v t).1 ≡ Trace.ran t)
        × ((q : Process) → Grouped q → Like w v before q → Like w (checked p v t).0 (p ∷ before) q)
  check_status_lem w v t before p gp l = elim (Bool-cases (is_due v p)) [
    | inl e ↦ rw (check_status_due p v t e) (
      IsCallback.pipeline_kept cb (Process.pid p)
          (record v { notified = set (World.notified v) (Process.process_group_id p) true }),
      refl,
      λ q gq lq. notify-Like w v before p q gp gq (found_due w v before p l e).0 lq,
    )
    | inr e ↦
        rw (check_status_none p v t e)
          (refl, refl, λ q gq lq. Like-next w v before p q (no_due w v before p q l e) lq)
  ]

  -- The world in which `run_point` is called.
  abbrev pub called : Process → ℕ → World → World
  called p idx v = record v {
    pipeline = record (World.pipeline v) {
      running_process = some (Process.pid p);
      running_process_idx = idx;
    };
  }

  abbrev pub module_run : Process → ℕ → World × Trace → World × Trace
  module_run = pipeline_run_thread_run_module run_point finish_callback

  abbrev pub add_run : Process → Trace → Trace
  add_run p t = record t { ran = Trace.ran t ++ Process.pid p ∷ [] }

  pub run_off :
      (p : Process) (idx : ℕ) (v : World) (t : Trace)
      → World.runnable v (Process.pid p) ≡ false
      → module_run p idx (v, t) ≡ (v, t)
  unfolding pipeline_run_thread_run_module
  run_off p idx v t e = rw e refl

  pub run_on :
      (p : Process) (idx : ℕ) (v : World) (t : Trace)
      → World.runnable v (Process.pid p) ≡ true
      → (run_point (Process.pid p) (called p idx v)).0 ≡ false
      → module_run p idx (v, t) ≡ ((run_point (Process.pid p) (called p idx v)).1, add_run p t)
  unfolding pipeline_run_thread_run_module
  run_on p idx v t e fine = rw (e, fine) refl

  pub run_failed :
      (p : Process) (idx : ℕ) (v : World) (t : Trace)
      → World.runnable v (Process.pid p) ≡ true
      → (run_point (Process.pid p) (called p idx v)).0 ≡ true
      → let u = (run_point (Process.pid p) (called p idx v)).1 in
        module_run p idx (v, t) ≡ (
          record u { pipeline = (pipeline_remove (World.pipeline u) (Process.pid p)).1 },
          add_run p t,
        )
  unfolding pipeline_run_thread_run_module
  run_failed p idx v t e failed = rw (e, failed) refl

  run-Like :
      (w v : World) (before : List Process) (p q : Process) (idx : ℕ)
      → Process.pid q ≢ Process.pid p
      → Like w v before q
      → Like w (run_point (Process.pid p) (called p idx v)).1 before q
  run-Like w v before p q idx ne (on, same) =
      let u = called p idx v in
      (
        IsRunPoint.runnable_kept rp (Process.pid p) (Process.pid q) u ne ∙ on,
        λ h.
            let r = same h in
            (
              IsRunPoint.code_kept rp (Process.pid p) (Process.pid q) u ne ∙ r.0,
              ap (λ l. get_or l (Process.process_group_id q) false)
                    (IsRunPoint.notified_kept rp (Process.pid p) u)
                  ∙ r.1,
            ),
      )

  -- A process that does not fail, if it is called.
  pub run_module_lem :
      (w v : World) (t : Trace) (before : List Process) (p : Process) (idx : ℕ)
      → ((u : World) → (run_point (Process.pid p) u).0 ≡ false)
      → let s = module_run p idx (v, t) in
        Same (World.pipeline v) (World.pipeline s.0)
        × (Trace.ran s.1 ≡ (
            if World.runnable v (Process.pid p)
            then Trace.ran t ++ Process.pid p ∷ []
            else Trace.ran t))
        × ((q : Process) → Process.pid q ≢ Process.pid p → Like w v before q → Like w s.0 before q)
  run_module_lem w v t before p idx fine = elim (Bool-cases (World.runnable v (Process.pid p))) [
    | inl e ↦
        let kept = IsRunPoint.pipeline_kept rp (Process.pid p) (called p idx v) in
        rw (run_on p idx v t e (fine (called p idx v))) (
          (ap Pipeline.processes kept, ap Pipeline.nof_processes kept),
          ap (λ b. if b then Trace.ran t ++ Process.pid p ∷ [] else Trace.ran t) (sym e),
          λ q ne l. run-Like w v before p q idx ne l,
        )
    | inr e ↦ rw (run_off p idx v t e) (
      (refl, refl),
      ap (λ b. if b then Trace.ran t ++ Process.pid p ∷ [] else Trace.ran t) (sym e),
      λ q ne l. l,
    )
  ]
