-- ===== src/Kernel/Tasks/Invariant.antt =====
-- src/os/src/task/: the tree of processes, and where an `Arc` of a task may be.
use project_r_core.Common.{
  ℕ, zero, suc, ◌+◌, ◌≤◌, ◌<◌, ◌≡◌, refl, ◌∙◌, ap, ap₂, sym, subst, arith, Option, none, some, List,
  [], ◌∷◌, ◌==◌, if◌then◌else◌, if_true, ℕ_discrete, eq→==,
}
use project_r_core.Kernel.Pids.{PidAllocator}
use project_r_core.Kernel.Pids.Invariant as PidsInvariant
use project_r_core.Kernel.Tasks.{
  TaskControlBlock, is_zombie, System, count, values, to_list, set_task, children_of, edges,
  strong_count,
}
use project_r_core.Kernel.Tasks.Count.{
  count-singleton, set_task_self, set_task_ne, pid_of, KeysAgree,
}

module _ {A : Type 0} where
  -- 1 for a task that exists, and for one that exists and has not exited.
  abbrev pub alive : Option (TaskControlBlock A) → ℕ
  alive none = 0
  alive (some t) = 1

  abbrev pub live : Option (TaskControlBlock A) → ℕ
  live none = 0
  live (some t) = if is_zombie t.task_status then 0 else 1

  abbrev pub parent_of : Option (TaskControlBlock A) → Option ℕ
  parent_of none = none
  parent_of (some t) = t.parent

  -- INITPROC is the oldest task and the only one that is no child. Every other task is the child of one
  -- task, an older one, its `parent`. A zombie has no children. No two tasks have the same pid.
  pub record IsForest (tasks : ℕ → Option (TaskControlBlock A)) (fresh initproc : ℕ)
      (pids : PidAllocator) : Type 0 where
    pub owned : (i : ℕ) → edges tasks fresh i + (if initproc == i then 1 else 0) ≡ alive (tasks i)
    pub made : (i : ℕ) → fresh ≤ i → tasks i ≡ none
    pub init_live : live (tasks initproc) ≡ 1
    pub oldest : (i : ℕ) → i < initproc → tasks i ≡ none
    pub below : (j c : ℕ) → 0 < count c (children_of (tasks j)) → j < c
    pub parents : (j c : ℕ) → 0 < count c (children_of (tasks j)) → parent_of (tasks c) ≡ some j
    pub childless : (i : ℕ) → live (tasks i) ≡ 0 → children_of (tasks i) ≡ []
    pub pids_valid : PidsInvariant.IsValid pids
    pub pid_alive : (i p : ℕ) → pid_of (tasks i) ≡ some p → PidsInvariant.IsAlive pids p
    pub pid_unique : (i j p : ℕ) → pid_of (tasks i) ≡ some p → pid_of (tasks j) ≡ some p → i ≡ j

  -- Tasks that differ in what the invariant does not speak of.
  pub record Like (t t' : Option (TaskControlBlock A)) : Type 0 where
    pub alive_eq : alive t' ≡ alive t
    pub live_eq : live t' ≡ live t
    pub pid_eq : pid_of t' ≡ pid_of t
    pub children_eq : children_of t' ≡ children_of t
    pub parent_eq : parent_of t' ≡ parent_of t
    pub none_eq : t ≡ none → t' ≡ none

  pub Like-refl : (t : Option (TaskControlBlock A)) → Like t t
  Like-refl t = record {
    alive_eq = refl;
    live_eq = refl;
    pid_eq = refl;
    children_eq = refl;
    parent_eq = refl;
    none_eq = λ e. e;
  }

  edges-Like :
      (tasks tasks' : ℕ → Option (TaskControlBlock A)) (n c : ℕ)
      → ((i : ℕ) → Like (tasks i) (tasks' i))
      → edges tasks' n c ≡ edges tasks n c
  unfolding edges
  edges-Like tasks tasks' zero c h = refl
  edges-Like tasks tasks' (suc n) c h =
      ap₂ (λ cs e. count c cs + e) ((h n).children_eq) (edges-Like tasks tasks' n c h)

  pub IsForest-Like :
      (tasks tasks' : ℕ → Option (TaskControlBlock A)) (fresh initproc : ℕ) (pids : PidAllocator)
      → ((i : ℕ) → Like (tasks i) (tasks' i))
      → IsForest tasks fresh initproc pids
      → IsForest tasks' fresh initproc pids
  IsForest-Like tasks tasks' fresh initproc pids h v = record {
    owned = λ i. rw (edges-Like tasks tasks' fresh i h, (h i).alive_eq) (v.owned i);
    made = λ i hi. (h i).none_eq (v.made i hi);
    init_live = (h initproc).live_eq ∙ v.init_live;
    oldest = λ i hi. (h i).none_eq (v.oldest i hi);
    below = λ j c hc. v.below j c (subst (λ cs. 0 < count c cs) ((h j).children_eq) hc);
    parents = λ j c hc.
        (h c).parent_eq ∙ v.parents j c (subst (λ cs. 0 < count c cs) ((h j).children_eq) hc);
    childless = λ i dead. (h i).children_eq ∙ v.childless i (sym (h i).live_eq ∙ dead);
    pids_valid = v.pids_valid;
    pid_alive = λ i p e. v.pid_alive i p (sym (h i).pid_eq ∙ e);
    pid_unique = λ i j p e e'. v.pid_unique i j p (sym (h i).pid_eq ∙ e) (sym (h j).pid_eq ∙ e');
  }

  pub set_task-Like :
      (tasks : ℕ → Option (TaskControlBlock A)) (i : ℕ) (t : Option (TaskControlBlock A))
      → Like (tasks i) t
      → (j : ℕ) → Like (tasks j) (set_task tasks i t j)
  set_task-Like tasks i t h j = elim (ℕ_discrete i j) [
    | yes e ↦ subst (λ k. Like (tasks k) (set_task tasks i t k)) e (rw (set_task_self tasks i t) h)
    | no ne ↦ rw (set_task_ne tasks i j t ne) (Like-refl (tasks j))
  ]

  pub KeysAgree-ext :
      (tasks tasks' : ℕ → Option (TaskControlBlock A)) (m : List (ℕ × ℕ))
      → ((i : ℕ) → 0 < count i (values m) → pid_of (tasks' i) ≡ pid_of (tasks i))
      → KeysAgree tasks m
      → KeysAgree tasks' m
  unfolding count
  KeysAgree-ext tasks tasks' [] h keys = tt
  KeysAgree-ext tasks tasks' ((q, j) ∷ m) h keys = (
    h j (rw (eq→== j j refl) (omega arith)) ∙ keys.0,
    KeysAgree-ext tasks tasks' m (λ i hi. h i (omega arith)) keys.1,
  )

  pub alive_of_live :
      (t : Option (TaskControlBlock A)) → 0 < live t → (b : TaskControlBlock A) × (t ≡ some b)
  alive_of_live none h = absurd (omega arith)
  alive_of_live (some t) h = (t, refl)

  pub live-le-one : (t : Option (TaskControlBlock A)) → live t ≤ 1
  live-le-one none = omega arith
  live-le-one (some t) = ground arith

  pub alive-le-one : (t : Option (TaskControlBlock A)) → alive t ≤ 1
  alive-le-one none = omega arith
  alive-le-one (some t) = omega arith

  pub live-le-alive : (t : Option (TaskControlBlock A)) → live t ≤ alive t
  live-le-alive none = omega arith
  live-le-alive (some t) = ground arith

-- A task that has not exited is either current or once in the queue, and once in the map under its pid.
pub record IsValid {A W : Type 0} (s : System A W) : Type 0 where
  pub forest : IsForest s.tasks s.fresh s.initproc s.pids
  pub runs : (i : ℕ) → count i s.ready_queue + count i (to_list s.current) ≡ live (s.tasks i)
  pub known : (i : ℕ) → count i (values s.pid_to_task) ≡ live (s.tasks i)
  pub keys : KeysAgree s.tasks s.pid_to_task

module _ {A W : Type 0} (s : System A W) (v : IsValid s) where
  -- The `Arc`s of a task: three while it has not exited, the one of its parent when it has, and none
  -- when it was reaped.
  pub strong_count_lem :
      (i : ℕ) → strong_count s i ≡ live (s.tasks i) + live (s.tasks i) + alive (s.tasks i)
  unfolding strong_count
  strong_count_lem i = omega (arith, v.runs i, v.known i, v.forest.owned i)

  -- The current task exists and has not exited.
  pub current_lem :
      (i : ℕ)
      → s.current ≡ some i
      → (t : TaskControlBlock A) × (s.tasks i ≡ some t)
        × (live (some t) ≡ 1)
        × (count i s.ready_queue ≡ 0)
        × ((x : ℕ) → count x (to_list s.current) ≡ (if i == x then 1 else 0))
  current_lem i e =
      let at : (x : ℕ) → count x (to_list s.current) ≡ (if i == x then 1 else 0) =
        λ x. ap (λ o. count x (to_list o)) e ∙ count-singleton x i in
      let one = at i ∙ if_true 1 0 (eq→== i i refl) in
      let (t, found) = alive_of_live (s.tasks i) (omega (arith, v.runs i, one)) in
      let most = live-le-one (some t) in
      let same = ap live found in
      (
        t,
        found,
        omega (arith, v.runs i, one, most, same),
        omega (arith, v.runs i, one, live-le-one (s.tasks i)),
        at,
      )
