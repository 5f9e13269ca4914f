-- ===== src/Pipeline/Tests.antt =====
-- Four processes, of two waveforms, in time slots with a failure and with an error.
use aloe.Base.{
  arith, ℕ, ◌-◌, ◌≡◌, refl, Bool, true, false, not, ◌&&◌, ◌==◌, if◌then◌else◌, List, [], ◌∷◌,
  length, none, replicate, set, Outcome, ok, err, fault,
}
use aloe.Pipeline.{
  Process, Pipeline, World, Trace, update, finish_ok, pipeline_add, pipeline_remove,
  pipeline_run_time_slot, rtdal_process_seterror, rtdal_process_group_notified,
}
use aloe.Pipeline.Order.{InOrder, Inserted, pipeline_add_lem}

-- The waveform 1 has the first three processes, and the waveform 0 the others.
abbrev group_of : ℕ → ℕ
group_of pid = if pid == 4 then 0 else 1

abbrev process : ℕ → ℕ → Process
process pid position = record {
  pid = pid;
  exec_position = position;
  process_group_id = group_of pid;
  has_callback = true;
}

abbrev three : Pipeline
three = record {
  processes = process 1 0 ∷ process 2 5 ∷ process 3 5 ∷ [];
  nof_processes = 3;
  running_process = none;
  running_process_idx = 0;
  enable = true;
  finished = true;
  ts_counter = 6;
}

abbrev four : Pipeline
four = record three {
  processes = process 1 0 ∷ process 2 5 ∷ process 3 5 ∷ process 4 6 ∷ [];
  nof_processes = 4;
}

abbrev quiet : World
quiet = record {
  pipeline = four;
  runnable = λ pid. true;
  finish_code = λ pid. 0;
  notified = replicate 100 false;
}

abbrev no_calls : Trace
no_calls = record { ran = []; called_back = [] }

-- A `run_point` that does nothing, and fails for the process `bad`.
abbrev failing : ℕ → ℕ → World → Bool × World
failing bad pid w = (pid == bad, w)

-- A callback that restarts the waveform, as nod_module_finish_callback does: its processes stop, the
-- error of the process is reset and the group may be notified again.
abbrev restart : ℕ → World → World
restart pid w = record w {
  runnable = λ q. World.runnable w q && not (group_of q == group_of pid);
  finish_code = update (World.finish_code w) pid finish_ok;
  notified = set (World.notified w) (group_of pid) false;
}

-- Behind those at position 5: the call returns 2 where there are three processes before it.
added_last : (pipeline_add three (process 4 5)).1 ≡ 2
unfolding pipeline_add
added_last = refl

removed_third : (pipeline_remove three 7).0 ≡ err
unfolding pipeline_remove
removed_third = refl

-- An error of process 2.
abbrev faulty : World
unfolding rtdal_process_seterror
faulty = rtdal_process_seterror 2 3 quiet

abbrev calls : Outcome (World × Trace) → List ℕ × List ℕ
calls (ok (w, t)) = (Trace.ran t, Trace.called_back t)
calls err = ([], [])
calls fault = ([], [])

-- The first process of the waveform runs, the second is notified, and that stops it and the third.
one_callback :
    calls (pipeline_run_time_slot (failing 9) restart 7 (faulty, no_calls)) ≡ (1 ∷ 4 ∷ [], 2 ∷ [])
unfolding pipeline_run_time_slot faulty
one_callback = refl

-- A group that is notified already has its processes run in spite of their error.
still_runs :
    calls (
      pipeline_run_time_slot
        (failing 9)
        restart
        7
        (record faulty { notified = replicate 100 true }, no_calls))
    ≡ (1 ∷ 2 ∷ 3 ∷ 4 ∷ [], [])
unfolding pipeline_run_time_slot faulty
still_runs = refl

-- The group past the end of the array.
last_group :
    (rtdal_process_group_notified (record (process 1 0) { process_group_id = 100 }) quiet).0 ≡ fault
unfolding rtdal_process_group_notified
last_group = refl

pipeline_add_lem_example :
    (n : ℕ) × Inserted
      (process 4 3)
      (Pipeline.processes three)
      (Pipeline.processes (pipeline_add three (process 4 3)).0)
      n
    × ((pipeline_add three (process 4 3)).1 ≡ n - 1)
    × InOrder (Pipeline.processes (pipeline_add three (process 4 3)).0)
    × (Pipeline.nof_processes (pipeline_add three (process 4 3)).0
        ≡ length (Pipeline.processes (pipeline_add three (process 4 3)).0))
pipeline_add_lem_example =
    pipeline_add_lem three (process 4 3)
      ((omega arith, (omega arith, tt)), ((omega arith, tt), (tt, tt))) refl

abbrev troubled : World
troubled = record quiet { finish_code = λ pid. if pid == 2 then 3 else 0 }
