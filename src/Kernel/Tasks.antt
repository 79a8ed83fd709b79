-- ===== src/Kernel/Tasks.antt =====
-- src/os/src/task/{task,mod,manager,processor}.rs and src/os/src/syscall/process.rs: the life of
-- processes. An `Arc<TaskControlBlock>` is a number; `tasks` is `none` where no task was made yet or the
-- last `Arc` of one was dropped. The rest of a task (its address space, kernel stack, files and signals)
-- and what it works on are of the types `A` and `W`, with the operations of `Resources`. `none` is a
-- panic.
pub mod Count
pub mod Invariant
pub mod Switch
pub mod Reap
pub mod Wait
pub mod Forked
pub mod Fork
pub mod HandOver
pub mod Exit
pub mod Leave
mod Tests
use project_r_core.Common.{
  ℕ, zero, suc, ◌+◌, ◌-◌, ◌^◌, Bool, true, false, not, ◌&&◌, ◌||◌, Option, none, some, List, [],
  ◌∷◌, ◌++◌, ◌==◌, if◌then◌else◌, assert, ◌>>=◌, ◌>>◌,
}
use project_r_core.Kernel.Pids
use project_r_core.Kernel.Pids.{PidAllocator}

pub data TaskStatus : Type 0 where
  ready running zombie : TaskStatus

pub record TaskControlBlock (A : Type 0) : Type 0 where
  pub pid : ℕ
  pub task_status : TaskStatus
  pub parent : Option ℕ
  pub children : List ℕ
  pub exit_code : ℕ
  pub resources : A

-- is_zombie
abbrev pub is_zombie : TaskStatus → Bool
is_zombie TaskStatus.zombie = true
is_zombie TaskStatus.running = false
is_zombie TaskStatus.ready = false

-- What `fork`, `exit` and `waitpid` do beside the bookkeeping of tasks.
pub record Resources (A W : Type 0) : Type 0 where
  -- KernelStack::new for the pid, and the copy of the address space, the files and the signals
  pub copy : ℕ → A → W → Option (A × W)
  -- memory_set.release_areas()
  pub release : A → W → Option (A × W)
  -- the write through `exit_code_ptr`
  pub put_user : A → ℕ → W → Option W
  -- the drop of a task with this pid
  pub free : ℕ → A → W → Option W

-- TASK_MANAGER, PID_TO_TASK, PROCESSOR, INITPROC and PID_ALLOCATOR; `fresh` is the next `Arc`.
pub record System (A W : Type 0) : Type 0 where
  pub tasks : ℕ → Option (TaskControlBlock A)
  pub fresh : ℕ
  pub initproc : ℕ
  pub ready_queue : List ℕ
  pub pid_to_task : List (ℕ × ℕ)
  pub current : Option ℕ
  pub pids : PidAllocator
  pub world : W

-- The map from pids, by key.
pub insert : ℕ → ℕ → List (ℕ × ℕ) → List (ℕ × ℕ)
insert p i [] = (p, i) ∷ []
insert p i ((q, j) ∷ m) = if q == p then (p, i) ∷ m else (q, j) ∷ insert p i m

pub get : ℕ → List (ℕ × ℕ) → Option ℕ
get p [] = none
get p ((q, j) ∷ m) = let rest = get p m in if q == p then some j else rest

pub remove : ℕ → List (ℕ × ℕ) → List (ℕ × ℕ)
remove p [] = []
remove p ((q, j) ∷ m) = if q == p then m else (q, j) ∷ remove p m

abbrev pub any_process : ℕ
any_process = 2 ^ 64 - 1

-- -1 and -2 as `usize`.
abbrev pub no_children_running : ℕ
no_children_running = 2 ^ 64 - 1

abbrev pub children_running : ℕ
children_running = 2 ^ 64 - 2

-- How often a number occurs.
pub count : ℕ → List ℕ → ℕ
count a [] = 0
count a (x ∷ xs) = (if x == a then 1 else 0) + count a xs

abbrev pub values : List (ℕ × ℕ) → List ℕ
values [] = []
values ((q, j) ∷ m) = j ∷ values m

abbrev pub to_list : Option ℕ → List ℕ
to_list none = []
to_list (some i) = i ∷ []

-- The first element that satisfies the test, and the vector without it: `find` and `remove`.
pub take_first : (ℕ → Bool) → List ℕ → Option (ℕ × List ℕ)
take_first p [] = none
take_first p (c ∷ cs) =
    let rest = take_first p cs in if p c then some (c, cs) else (rest >>= λ r. some (r.0, c ∷ r.1))

module _ {A : Type 0} where
  unfoldable pub set_task :
      (ℕ → Option (TaskControlBlock A))
      → ℕ
      → Option (TaskControlBlock A)
      → ℕ
      → Option (TaskControlBlock A)
  set_task tasks i t j = if i == j then t else tasks j

  abbrev pub children_of : Option (TaskControlBlock A) → List ℕ
  children_of none = []
  children_of (some t) = t.children

  -- The `Arc`s in the `children` of the tasks made so far.
  pub edges : (ℕ → Option (TaskControlBlock A)) → ℕ → ℕ → ℕ
  unfolding count
  edges tasks zero c = 0
  edges tasks (suc n) c = count c (children_of (tasks n)) + edges tasks n c

module _ {A W : Type 0} where
  -- Arc::strong_count, less the local variables.
  unfoldable pub strong_count : System A W → ℕ → ℕ
  unfolding edges
  strong_count s i =
      count i s.ready_queue
      + count i (to_list s.current)
      + count i (values s.pid_to_task)
      + edges s.tasks s.fresh i
      + (if s.initproc == i then 1 else 0)

  pub add_task : ℕ → System A W → Option (System A W)
  unfolding insert
  add_task i s = s.tasks i >>= λ t. some (record s {
    pid_to_task = insert t.pid i s.pid_to_task;
    ready_queue = s.ready_queue ++ (i ∷ []);
  })

  pub get_task_by_pid : ℕ → System A W → Option ℕ
  unfolding get
  get_task_by_pid pid s = get pid s.pid_to_task

  pub remove_from_pid_to_task : ℕ → System A W → Option (System A W)
  unfolding get remove
  remove_from_pid_to_task pid s =
      get pid s.pid_to_task >>= λ _. some (record s { pid_to_task = remove pid s.pid_to_task })

  -- One round of `run_tasks`, on the idle control flow; an empty queue leaves it waiting.
  pub run_tasks : System A W → Option (System A W)
  run_tasks s = elim s.ready_queue [
    | [] ↦ some s
    | i ∷ rest ↦ s.tasks i >>= λ t. some (record s {
      ready_queue = rest;
      tasks = set_task s.tasks i (some (record t { task_status = TaskStatus.running }));
      current = some i;
    })
  ]

  pub suspend_current_and_run_next : System A W → Option (System A W)
  unfolding add_task
  suspend_current_and_run_next s = s.current >>= λ i. s.tasks i >>= λ t. add_task i (record s {
    current = none;
    tasks = set_task s.tasks i (some (record t { task_status = TaskStatus.ready }));
  })

  -- The loop over the children of `i`, which go to INITPROC. A second borrow of a task is a panic.
  pub hand_over : ℕ → List ℕ → System A W → Option (System A W)
  hand_over i [] s = some s
  hand_over i (c ∷ cs) s =
      assert (not (c == i) && not (c == s.initproc))
      >> (s.tasks c >>= λ child. s.tasks s.initproc >>= λ init. hand_over i cs (record s {
        tasks =
            set_task (set_task s.tasks c (some (record child { parent = some s.initproc })))
              s.initproc (some (record init { children = init.children ++ (c ∷ []) }));
      }))

  -- The end of `exit_current_and_run_next`, on the task itself.
  pub leave : Resources A W → ℕ → System A W → Option (System A W)
  unfolding remove_from_pid_to_task
  leave r i s = s.tasks i >>= λ t. r.release t.resources s.world >>= λ released.
      remove_from_pid_to_task t.pid (record s {
        tasks = set_task s.tasks i (some (record t { children = []; resources = released.0 }));
        world = released.1;
      })

  pub exit_current_and_run_next : Resources A W → ℕ → System A W → Option (System A W)
  unfolding hand_over leave
  exit_current_and_run_next r exit_code s = s.current >>= λ i. s.tasks i >>= λ t.
      assert (not (i == s.initproc))
      >> (hand_over i t.children (record s {
        current = none;
        tasks =
            set_task s.tasks i
              (some (record t { task_status = TaskStatus.zombie; exit_code = exit_code }));
      })
          >>= leave r i)

  -- `fork` of the task and `sys_fork`; the pid of the child.
  pub sys_fork : Resources A W → System A W → Option (ℕ × System A W)
  unfolding add_task
  sys_fork r s = s.current >>= λ i. s.tasks i >>= λ t.
      let (pid, pids') = Pids.alloc s.pids in
      (r.copy pid t.resources s.world >>= λ copied.
      let child : TaskControlBlock A = record {
        pid = pid;
        task_status = TaskStatus.ready;
        parent = some i;
        children = [];
        exit_code = 0;
        resources = copied.0;
      } in
      add_task s.fresh (record s {
        tasks =
            set_task (set_task s.tasks s.fresh (some child)) i
              (some (record t { children = t.children ++ (s.fresh ∷ []) }));
        fresh = s.fresh + 1;
        pids = pids';
        world = copied.1;
      })
      >>= λ s'. some (pid, s'))

  -- pid == ANY_PROCESS || (pid as usize) == child.getpid()
  pub is_wanted : System A W → ℕ → ℕ → Bool
  is_wanted s pid c = elim (s.tasks c) [
    | none ↦ false
    | some t ↦ pid == any_process || pid == t.pid
  ]

  pub is_zombie_child : System A W → ℕ → ℕ → Bool
  unfolding is_wanted
  is_zombie_child s pid c = elim (s.tasks c) [
    | none ↦ false
    | some t ↦ is_zombie t.task_status && is_wanted s pid c
  ]

  -- The child `c` was taken out of the children of `i` in `s`: it is dropped at the end.
  pub reap : Resources A W → TaskControlBlock A → ℕ → System A W → Option (ℕ × System A W)
  reap r t c s =
      assert (strong_count s c + 1 == 1)
      >> (s.tasks c >>= λ child. r.put_user t.resources child.exit_code s.world >>= λ w.
          Pids.dealloc s.pids child.pid >>= λ pids'. r.free child.pid child.resources w >>= λ w'.
          some (child.pid, record s { tasks = set_task s.tasks c none; pids = pids'; world = w' }))

  pub sys_waitpid : Resources A W → ℕ → System A W → Option (ℕ × System A W)
  unfolding is_wanted is_zombie_child take_first reap
  sys_waitpid r pid s = s.current >>= λ i. s.tasks i >>= λ t.
      elim (take_first (is_wanted s pid) t.children) [
        | none ↦ some (no_children_running, s)
        | some _ ↦ elim (take_first (is_zombie_child s pid) t.children) [
          | none ↦ some (children_running, s)
          | some (c, rest) ↦
              reap r t c
                (record s { tasks = set_task s.tasks i (some (record t { children = rest })) })
        ]
      ]

  pub sys_getpid : System A W → Option ℕ
  sys_getpid s = s.current >>= λ i. s.tasks i >>= λ t. some t.pid
