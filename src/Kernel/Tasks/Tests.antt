-- ===== src/Kernel/Tasks/Tests.antt =====
-- The theorems on processes of src/os/src/task/ at a concrete system.
use project_r_core.Common.{
  ℕ, ◌+◌, ◌≡◌, refl, ◌≢◌, arith, Option, none, some, List, [], ◌∷◌, ◌==◌, if◌then◌else◌, ◌++◌,
  ◌>>=◌,
}
use project_r_core.Kernel.Pids.{PidAllocator, dealloc}
use project_r_core.Kernel.Tasks.{
  TaskControlBlock, TaskStatus, System, Resources, count, edges, set_task, sys_fork, sys_waitpid,
  exit_current_and_run_next, suspend_current_and_run_next, run_tasks, reap, leave, to_list,
  strong_count, any_process, no_children_running,
}
use project_r_core.Kernel.Tasks.Invariant.{IsForest, IsValid, Like}
use project_r_core.Kernel.Tasks.Switch.{yield-Rotates}
use project_r_core.Kernel.Tasks.Wait.{Waits, sys_waitpid-Waits}
use project_r_core.Kernel.Tasks.Fork.{Forks, sys_fork-Forks}
use project_r_core.Kernel.Tasks.Leave.{Exits, exit-Exits}

abbrev task : ℕ → TaskStatus → Option ℕ → List ℕ → ℕ → TaskControlBlock ℕ
task pid status parent children exit_code = record {
  pid = pid;
  task_status = status;
  parent = parent;
  children = children;
  exit_code = exit_code;
  resources = pid;
}

-- Task 7 is INITPROC and ready; task 8, its child, is running; task 9, a child of task 8, has exited.
abbrev tasks : ℕ → Option (TaskControlBlock ℕ)
tasks i =
    if i == 7
    then some (task 0 TaskStatus.ready none (8 ∷ []) 0)
    else if i == 8
    then some (task 1 TaskStatus.running (some 7) (9 ∷ []) 0)
    else if i == 9
    then some (task 2 TaskStatus.zombie (some 8) [] 42)
    else none

abbrev pids : PidAllocator
pids = record { current = 3; recycled = [] }

abbrev system : System ℕ ℕ
system = record {
  tasks = tasks;
  fresh = 10;
  initproc = 7;
  ready_queue = 7 ∷ [];
  pid_to_task = (0, 7) ∷ (1, 8) ∷ [];
  current = some 8;
  pids = pids;
  world = 0;
}

system-IsForest : IsForest tasks 10 7 pids
unfolding edges count
system-IsForest = record {
  owned = λ i. ground arith;
  made = λ i h. ground arith;
  init_live = refl;
  oldest = λ i h. ground arith;
  below = λ j c. ground arith;
  parents = λ j c. ground arith;
  childless = λ i. ground arith;
  pids_valid = record { below = tt; distinct = tt };
  pid_alive = λ i p. ground arith;
  pid_unique = λ i j p. ground arith;
}

system-IsValid : IsValid system
unfolding count
system-IsValid = record {
  forest = system-IsForest;
  runs = λ i. ground arith;
  known = λ i. ground arith;
  keys = (refl, (refl, tt));
}

-- The resources of a task are its number; the world adds up the exit codes that were written.
abbrev resources : Resources ℕ ℕ
resources = record {
  copy = λ pid a w. some (pid, w);
  release = λ a w. some (a, w);
  put_user = λ a exit_code w. some (w + exit_code);
  free = λ pid a w. some w;
}

sys_waitpid-Waits_example :
    Waits resources system 8 any_process (sys_waitpid resources any_process system)
sys_waitpid-Waits_example = sys_waitpid-Waits resources system 8 any_process system-IsValid refl

sys_fork-Forks_example : Forks resources system 8 (sys_fork resources system)
sys_fork-Forks_example = sys_fork-Forks resources system 8 system-IsValid refl (omega arith)

exit-Exits_example : Exits resources system 8 5 (exit_current_and_run_next resources 5 system)
exit-Exits_example = exit-Exits resources system 8 5 system-IsValid refl

yield-Rotates_example :
    (s' : System ℕ ℕ) × ((suspend_current_and_run_next system >>= λ s. run_tasks s) ≡ some s')
    × IsValid s'
    × (to_list s'.current ++ s'.ready_queue ≡ 7 ∷ 8 ∷ [])
    × (s'.current ≢ none)
    × (s'.pid_to_task ≡ system.pid_to_task)
    × ((j : ℕ) → Like (system.tasks j) (s'.tasks j))
yield-Rotates_example = yield-Rotates system 8 system-IsValid refl

abbrev result : Option (ℕ × System ℕ ℕ) → Option (ℕ × ℕ)
result none = none
result (some (pid, s)) = some (pid, s.world)

wait_runs : result (sys_waitpid resources any_process system) ≡ some (2, 42)
unfolding sys_waitpid reap strong_count set_task dealloc
wait_runs = refl

wait_missing : result (sys_waitpid resources 5 system) ≡ some (no_children_running, 0)
unfolding sys_waitpid
wait_missing = refl

-- After an exit, INITPROC reaps the child that it was given.
abbrev exit_and_wait : Option (ℕ × System ℕ ℕ)
exit_and_wait = do
  s ← exit_current_and_run_next resources 5 system
  s' ← run_tasks s
  sys_waitpid resources 2 s'

exit_runs : result exit_and_wait ≡ some (2, 42)
unfolding exit_current_and_run_next leave run_tasks sys_waitpid reap strong_count set_task dealloc
exit_runs = refl
