-- ===== src/Kernel/Tasks/Switch.antt =====
-- src/os/src/task/mod.rs and processor.rs: `suspend_current_and_run_next` and `run_tasks`.
use project_r_core.Common.{
  ℕ, ◌+◌, ◌≡◌, refl, ◌≢◌, ◌⊎◌, inl, inr, ◌∙◌, ap, sym, arith, false, Option, none, some, List, [],
  ◌∷◌, ◌++◌, ◌==◌, if◌then◌else◌, if_true, eq→==, ◌>>=◌,
}
use project_r_core.Kernel.Tasks.{
  TaskControlBlock, TaskStatus, is_zombie, System, count, to_list, insert, set_task, run_tasks,
  suspend_current_and_run_next,
}
use project_r_core.Kernel.Tasks.Count.{
  count-append, count-singleton, set_task_self, pid_of, insert_again,
}
use project_r_core.Kernel.Tasks.Invariant.{
  live, Like, IsForest-Like, set_task-Like, Like-refl, KeysAgree-ext, alive_of_live, live-le-one,
  IsValid, current_lem,
}

append-ne-nil : (xs : List ℕ) (x : ℕ) → xs ++ (x ∷ []) ≢ []
append-ne-nil [] x e = cc
append-ne-nil (y ∷ xs) x e = cc

queue-cases : (q : List ℕ) → (q ≡ []) ⊎ ((i : ℕ) × (rest : List ℕ) × (q ≡ i ∷ rest))
queue-cases [] = inl refl
queue-cases (i ∷ rest) = inr (i, rest, refl)

module _ {A : Type 0} where
  -- Another status that is not that of a zombie.
  with_status-Like :
      (t : TaskControlBlock A) (status : TaskStatus)
      → live (some t) ≡ 1
      → is_zombie status ≡ false
      → Like (some t) (some (record t { task_status = status }))
  with_status-Like t status l z = record {
    alive_eq = refl;
    live_eq = rw z (sym l);
    pid_eq = refl;
    children_eq = refl;
    parent_eq = refl;
    none_eq = λ e. cc;
  }

  Like-trans : {t t' t'' : Option (TaskControlBlock A)} → Like t t' → Like t' t'' → Like t t''
  Like-trans a b = record {
    alive_eq = b.alive_eq ∙ a.alive_eq;
    live_eq = b.live_eq ∙ a.live_eq;
    pid_eq = b.pid_eq ∙ a.pid_eq;
    children_eq = b.children_eq ∙ a.children_eq;
    parent_eq = b.parent_eq ∙ a.parent_eq;
    none_eq = λ e. b.none_eq (a.none_eq e);
  }

module _ {A W : Type 0} where
  -- `suspend_current_and_run_next` succeeds whenever there is a current task: that task is ready, the last
  -- in the queue, and no longer current, and nothing else of the system changes.
  pub suspend-IsValid :
      (s : System A W) (i : ℕ)
      → IsValid s
      → s.current ≡ some i
      → (s' : System A W) × (suspend_current_and_run_next s ≡ some s')
        × IsValid s'
        × (s'.ready_queue ≡ s.ready_queue ++ (i ∷ []))
        × (s'.current ≡ none)
        × (s'.pid_to_task ≡ s.pid_to_task)
        × ((j : ℕ) → Like (s.tasks j) (s'.tasks j))
  unfolding suspend_current_and_run_next count
  suspend-IsValid s i v e =
      let (t, found, live_t, unqueued, at) = current_lem s v i e in
      let t' : TaskControlBlock A = record t { task_status = TaskStatus.ready } in
      let tasks' = set_task s.tasks i (some t') in
      let like : (j : ℕ) → Like (s.tasks j) (tasks' j) =
        set_task-Like s.tasks i (some t')
          (rw found (with_status-Like t TaskStatus.ready live_t refl)) in
      let again : insert t.pid i s.pid_to_task ≡ s.pid_to_task =
        insert_again s.tasks t.pid i s.pid_to_task v.keys (ap pid_of found)
          (λ j p. v.forest.pid_unique j i t.pid p (ap pid_of found))
          (omega (arith, v.known i, live_t, ap live found)) in
      (
        record s { tasks = tasks'; current = none; ready_queue = s.ready_queue ++ (i ∷ []) },
        rw (e, found, set_task_self s.tasks i (some t'), again) refl,
        record {
          forest = IsForest-Like s.tasks tasks' s.fresh s.initproc s.pids like v.forest;
          runs = λ x. omega (
            arith,
            count-append x s.ready_queue (i ∷ []),
            count-singleton x i,
            at x,
            v.runs x,
            (like x).live_eq,
          );
          known = λ x. v.known x ∙ sym (like x).live_eq;
          keys = KeysAgree-ext s.tasks tasks' s.pid_to_task (λ x h. (like x).pid_eq) v.keys;
        },
        refl,
        refl,
        refl,
        like,
      )

  pub run_tasks-IsValid :
      (s : System A W)
      → IsValid s
      → s.current ≡ none
      → (s' : System A W) × (run_tasks s ≡ some s')
        × IsValid s'
        × (to_list s'.current ++ s'.ready_queue ≡ s.ready_queue)
        × (s.ready_queue ≢ [] → s'.current ≢ none)
        × (s'.pid_to_task ≡ s.pid_to_task)
        × ((j : ℕ) → Like (s.tasks j) (s'.tasks j))
  unfolding run_tasks count
  run_tasks-IsValid s v idle = elim (queue-cases s.ready_queue) [
    | inl empty ↦ (
      s,
      ground (arith, empty),
      v,
      rw (idle) refl,
      (λ ne. absurd (ne empty)),
      refl,
      λ j. Like-refl (s.tasks j),
    )
    | inr (i, rest, e) ↦
        let queued : (x : ℕ) → count x s.ready_queue ≡ (if i == x then 1 else 0) + count x rest =
          λ x. ap (count x) e in
        let none_current : (x : ℕ) → count x (to_list s.current) ≡ 0 =
          λ x. ap (λ o. count x (to_list o)) idle in
        let one = if_true {A = ℕ} 1 0 (eq→== i i refl) in
        let (t, found) = alive_of_live (s.tasks i) (omega (arith, v.runs i, queued i, one)) in
        let live_t : live (some t) ≡ 1 =
          omega (arith, ap live found, live-le-one (some t), v.runs i, queued i, one) in
        let t' : TaskControlBlock A = record t { task_status = TaskStatus.running } in
        let tasks' = set_task s.tasks i (some t') in
        let like : (j : ℕ) → Like (s.tasks j) (tasks' j) =
          set_task-Like s.tasks i (some t')
            (rw found (with_status-Like t TaskStatus.running live_t refl)) in
        (
          record s { tasks = tasks'; current = some i; ready_queue = rest },
          rw (e, run_tasks) (rw found refl),
          record {
            forest = IsForest-Like s.tasks tasks' s.fresh s.initproc s.pids like v.forest;
            runs = λ x. omega (arith, queued x, none_current x, v.runs x, (like x).live_eq);
            known = λ x. v.known x ∙ sym (like x).live_eq;
            keys = KeysAgree-ext s.tasks tasks' s.pid_to_task (λ x h. (like x).pid_eq) v.keys;
          },
          sym e,
          (λ ne same. cc),
          refl,
          like,
        )
  ]

  -- A task that yields goes to the end of the queue, and the first of the queue runs, which is the same task
  -- if no other one is ready: the current task and those that are ready take turns in a fixed order. No task
  -- is lost or repeated, none exits, and the tree of processes stays as it is.
  pub yield-Rotates :
      (s : System A W) (i : ℕ)
      → IsValid s
      → s.current ≡ some i
      → (s' : System A W) × ((suspend_current_and_run_next s >>= λ s. run_tasks s) ≡ some s')
        × IsValid s'
        × (to_list s'.current ++ s'.ready_queue ≡ s.ready_queue ++ (i ∷ []))
        × (s'.current ≢ none)
        × (s'.pid_to_task ≡ s.pid_to_task)
        × ((j : ℕ) → Like (s.tasks j) (s'.tasks j))
  yield-Rotates s i v e =
      let (mid, suspended, mid_valid, queue, idle, map_eq, like) = suspend-IsValid s i v e in
      let (s', ran, valid, order, busy, map_eq', like') = run_tasks-IsValid mid mid_valid idle in
      (
        s',
        ap (λ o. o >>= λ s. run_tasks s) suspended ∙ ran,
        valid,
        order ∙ queue,
        busy (λ empty. append-ne-nil s.ready_queue i (sym queue ∙ empty)),
        map_eq' ∙ map_eq,
        λ j. Like-trans (like j) (like' j),
      )
