-- ===== src/Pipeline.antt =====
-- rtdal_lnx/src/pipeline.c: the list of processes that a pipeline runs in every time slot, and
-- rtdal_process.c's functions on a process.
--
-- The linked list of processes is a list, and a process is known by its `pid`; the fields of a
-- process that other code changes through its handle, `runnable` and `finish_code`, stand in a store
-- by pid. `run_point` and `finish_callback` are code of the modules and of the node, and are
-- parameters that may change all of it. `is_running`, which is set during a call of `run_point`
-- only, is left out. Process groups are below MAX_PROCESS_GROUP_ID.
pub mod Order
pub mod Due
pub mod Round
pub mod Linked
pub mod Slot
pub mod Failure
mod Tests
use aloe.Base.{
  ℕ, zero, suc, ◌+◌, ◌-◌, ◌==◌, Bool, true, false, not, ◌&&◌, ltb, lt_int, if◌then◌else◌, List, [],
  ◌∷◌, ◌++◌, get_or, set, Option, none, some, Outcome, ok, err, fault, ◌||◌, leb, is_negative,
}

-- rtdal_process_t, with the attributes that pipelines use
pub record Process : Type 0 where
  pub pid : ℕ
  pub exec_position : ℕ
  pub process_group_id : ℕ
  pub has_callback : Bool

-- pipeline_t
pub record Pipeline : Type 0 where
  pub processes : List Process
  pub nof_processes : ℕ
  pub running_process : Option ℕ
  pub running_process_idx : ℕ
  pub enable : Bool
  pub finished : Bool
  pub ts_counter : ℕ

-- `while(p->next && exec_pos >= p->next->attributes.exec_position)`, from `p` on: the list and `i`
pub place : Process → Process → List Process → ℕ → List Process × ℕ
place q p [] i = (p ∷ q ∷ [], i)
place q p (r ∷ rs) i =
    let behind = place q r rs (i + 1) in
    if not (lt_int (Process.exec_position q) (Process.exec_position r))
    then (p ∷ behind.0, behind.1)
    else (p ∷ q ∷ r ∷ rs, i)

pub insert : Process → List Process → List Process × ℕ
unfolding place
insert q [] = (q ∷ [], 0)
insert q (p ∷ ps) =
    if lt_int (Process.exec_position q) (Process.exec_position p)
    then (q ∷ p ∷ ps, 0)
    else place q p ps 0

-- The pipeline after the call, and the number that it returns.
pub pipeline_add : Pipeline → Process → Pipeline × ℕ
unfolding insert
pipeline_add obj q =
    let r = insert q (Pipeline.processes obj) in
    (record obj { processes = r.0; nof_processes = Pipeline.nof_processes obj + 1 }, r.1)

-- The list without the process, or `none` if it is not found.
pub unlink : ℕ → List Process → Option (List Process)
unlink pid [] = none
unlink pid (p ∷ ps) =
    if Process.pid p == pid
    then some ps
    else elim (unlink pid ps) [ none ↦ none | some rest ↦ some (p ∷ rest) ]

pub removed : Pipeline → Option (List Process) → Outcome (Unit {0}) × Pipeline
removed obj none = (err, obj)
removed obj (some ps) =
    (ok tt, record obj { processes = ps; nof_processes = Pipeline.nof_processes obj - 1 })

pub pipeline_remove : Pipeline → ℕ → Outcome (Unit {0}) × Pipeline
unfolding unlink removed
pipeline_remove obj pid = removed obj (unlink pid (Pipeline.processes obj))

-- FINISH_OK
abbrev pub finish_ok : ℕ
finish_ok = 0

-- What the threads of the pipelines, the modules and the node share: the pipeline, the fields of the
-- processes by pid, and `pgroup_notified_failure`.
pub record World : Type 0 where
  pub pipeline : Pipeline
  pub runnable : ℕ → Bool
  pub finish_code : ℕ → ℕ
  pub notified : List Bool

-- The processes that were called, and those whose finish_callback was, in order.
pub record Trace : Type 0 where
  pub ran : List ℕ
  pub called_back : List ℕ

abbrev pub update : {A : Type 0} → (ℕ → A) → ℕ → A → ℕ → A
update f p v q = if p == q then v else f q

-- The rest of the list behind the process, which is where its `next` points: NULL once it is removed.
pub behind : ℕ → List Process → List Process
behind pid [] = []
behind pid (p ∷ ps) = if Process.pid p == pid then ps else behind pid ps

-- An error that is to be notified.
abbrev pub is_due : World → Process → Bool
is_due w p =
    World.runnable w (Process.pid p)
    && not (World.finish_code w (Process.pid p) == finish_ok)
    && not (get_or (World.notified w) (Process.process_group_id p) false)
    && Process.has_callback p

module _ (run_point : ℕ → World → Bool × World) (finish_callback : ℕ → World → World) where
  pub pipeline_run_thread_check_status : Process → World × Trace → World × Trace
  pipeline_run_thread_check_status p (w, t) =
      let called =
        finish_callback (Process.pid p)
          (record w { notified = set (World.notified w) (Process.process_group_id p) true }) in
      if is_due w p
      then (called, record t { called_back = Trace.called_back t ++ Process.pid p ∷ [] })
      else (w, t)

  -- The call of `run_point`, and the removal of a process that fails.
  pub pipeline_run_thread_run_module : Process → ℕ → World × Trace → World × Trace
  unfolding pipeline_remove
  pipeline_run_thread_run_module p idx (w, t) =
      let pid = Process.pid p in
      let running = record (World.pipeline w) {
        running_process = some pid;
        running_process_idx = idx;
      } in
      let r = run_point pid (record w { pipeline = running }) in
      let after =
        if r.0
        then record (r.1) { pipeline = (pipeline_remove (World.pipeline (r.1)) pid).1 }
        else r.1 in
      if World.runnable w pid then (after, record t { ran = Trace.ran t ++ pid ∷ [] }) else (w, t)

  -- The loop of a time slot from the process at `idx` on, which heads the list; `err` is the end of
  -- the whole program.
  pub run_from : ℕ → List Process → ℕ → World × Trace → Outcome (World × Trace)
  unfolding pipeline_run_thread_check_status pipeline_run_thread_run_module behind
  run_from fuel [] idx s = ok s
  run_from zero (p ∷ ps) idx s = fault
  run_from (suc fuel) (p ∷ ps) idx s =
      let after = pipeline_run_thread_run_module p idx (pipeline_run_thread_check_status p s) in
      let next =
        run_from fuel (behind (Process.pid p) (Pipeline.processes (World.pipeline after.0)))
          (idx + 1) after in
      if ltb (Pipeline.nof_processes (World.pipeline s.0)) idx then err else next

  -- The end of the slot at the time slot `now`.
  pub finish_slot : ℕ → Outcome (World × Trace) → Outcome (World × Trace)
  finish_slot now (ok (w, t)) =
      ok
        (record w { pipeline = record (World.pipeline w) { ts_counter = now; finished = true } }, t)
  finish_slot now other = other

  -- A round for each process, one for the test of `idx` that ends the program, and one more.
  pub pipeline_run_time_slot : ℕ → World × Trace → Outcome (World × Trace)
  unfolding run_from finish_slot
  pipeline_run_time_slot now (w, t) =
      let obj = World.pipeline w in
      let start = record w { pipeline = record obj { finished = false } } in
      finish_slot now (
        if Pipeline.enable obj
        then run_from (Pipeline.nof_processes obj + 2) (Pipeline.processes obj) 0 (start, t)
        else ok (start, t))

-- rtdal_process.c
pub rtdal_process_run : ℕ → World → World
rtdal_process_run pid w = record w { runnable = update (World.runnable w) pid true }

pub rtdal_process_stop : ℕ → World → World
rtdal_process_stop pid w = record w { runnable = update (World.runnable w) pid false }

pub rtdal_process_seterror : ℕ → ℕ → World → World
rtdal_process_seterror pid code w = record w { finish_code = update (World.finish_code w) pid code }

-- MAX_PROCESS_GROUP_ID, the length of pgroup_notified_failure
abbrev pub max_process_group_id : ℕ
max_process_group_id = 100

-- The guard lets the group MAX_PROCESS_GROUP_ID pass, which the array does not have.
pub rtdal_process_group_notified : Process → World → Outcome (Unit {0}) × World
rtdal_process_group_notified obj w =
    let group = Process.process_group_id obj in
    if is_negative group || ltb max_process_group_id group
    then (err, w)
    else if leb max_process_group_id group
    then (fault, w)
    else (ok tt, record w { notified = set (World.notified w) group false })
