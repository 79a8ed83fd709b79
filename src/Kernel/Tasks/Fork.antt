-- ===== src/Kernel/Tasks/Fork.antt =====
-- src/os/src/task/task.rs and src/os/src/syscall/process.rs: `fork` and `sys_fork`.
use project_r_core.Common.{
  ℕ, ◌+◌, ◌^◌, ◌<◌, ◌≡◌, refl, ◌≢◌, ◌⊎◌, inl, inr, ◌∙◌, sym, Option, none, some, [], ◌∷◌, ◌++◌,
  Option-cases,
}
use project_r_core.Kernel.Pids
use project_r_core.Kernel.Pids.{PidAllocator}
use project_r_core.Kernel.Pids.Invariant as PidsInvariant
use project_r_core.Kernel.Tasks.{
  TaskControlBlock, TaskStatus, System, Resources, sys_fork, add_task,
}
use project_r_core.Kernel.Tasks.Count.{set_task_self, set_task_ne, pid_of}
use project_r_core.Kernel.Tasks.Invariant.{live, IsValid, current_lem}
use project_r_core.Kernel.Tasks.Forked.{
  added, with_child, forked_fresh, after_fork, after_fork-IsValid,
}

-- The child of task `i`, and nothing else, is new: it is ready, at the end of the queue, with a pid that no
-- task has, and the last of the children of `i`.
abbrev pub Forks :
    {A W : Type 0} → Resources A W → System A W → ℕ → Option (ℕ × System A W) → Type 0
Forks {A} {W} r s i out =
    let pid = (Pids.alloc s.pids).0 in
    (t : TaskControlBlock A) × (s.tasks i ≡ some t)
    × (((copied : A × W) × (s' : System A W) × (r.copy pid t.resources s.world ≡ some copied)
          × (out ≡ some (pid, s'))
          × IsValid s'
          × (s'.world ≡ copied.1)
          × ((j : ℕ) → pid_of (s.tasks j) ≢ some pid)
          × (s'.tasks s.fresh
              ≡ some (record {
                pid = pid;
                task_status = TaskStatus.ready;
                parent = some i;
                children = [];
                exit_code = 0;
                resources = copied.0;
              }))
          × (s'.tasks i ≡ some (record t { children = t.children ++ (s.fresh ∷ []) }))
          × ((x : ℕ) → x ≢ i → x ≢ s.fresh → s'.tasks x ≡ s.tasks x)
          × (s'.ready_queue ≡ s.ready_queue ++ (s.fresh ∷ [])))
        ⊎ ((r.copy pid t.resources s.world ≡ none) × (out ≡ none)))

fork_lem :
    {A W : Type 0} (r : Resources A W) (s : System A W) (i : ℕ) (t : TaskControlBlock A)
    → IsValid s
    → s.current ≡ some i
    → s.tasks i ≡ some t
    → live (some t) ≡ 1
    → PidsInvariant.IsValid (Pids.alloc s.pids).1
    → PidsInvariant.Adds s.pids (Pids.alloc s.pids).0 (Pids.alloc s.pids).1
    → ((j : ℕ) → pid_of (s.tasks j) ≢ some (Pids.alloc s.pids).0)
    → Forks r s i (sys_fork r s)
unfolding sys_fork add_task
fork_lem {A} {W} r s i t v cur at_i live_t valid adds new_pid =
    let pid = (Pids.alloc s.pids).0 in
    (
      t,
      at_i,
      elim (Option-cases (r.copy pid t.resources s.world)) [
        | inl failed ↦ inr (failed, rw (cur, at_i, failed) refl)
        | inr (copied, e) ↦
            let child : TaskControlBlock A = record {
              pid = pid;
              task_status = TaskStatus.ready;
              parent = some i;
              children = [];
              exit_code = 0;
              resources = copied.0;
            } in
            let found = forked_fresh s v i pid t child at_i live_t refl refl refl refl new_pid in
            let t' = with_child s v i pid t child at_i live_t refl refl refl refl new_pid in
            let added' = added s v i pid t child at_i live_t refl refl refl refl new_pid in
            inl (
              copied,
              after_fork s v i pid t child at_i live_t refl refl refl refl new_pid
                  (Pids.alloc s.pids).1 copied.1,
              e,
              rw (cur, at_i, e, found) refl,
              after_fork-IsValid s v i pid t child at_i live_t refl refl refl refl new_pid
                  (Pids.alloc s.pids).1 copied.1 valid adds,
              refl,
              new_pid,
              found,
              set_task_self added' i (some t'),
              (λ x ne ne'.
                  set_task_ne added' i x (some t') (λ same. ne (sym same))
                  ∙ set_task_ne s.tasks s.fresh x (some child) (λ same. ne' (sym same))),
              refl,
            )
      ],
    )

-- `sys_fork` fails only if the resources of the task can not be copied. Otherwise there is one task more, a
-- child of the current one, ready at the end of the queue, with a pid that no other task has; no other task
-- changes, and the invariant is kept: provided that the counter of pids does not wrap.
pub sys_fork-Forks :
    {A W : Type 0} (r : Resources A W) (s : System A W) (i : ℕ)
    → IsValid s
    → s.current ≡ some i
    → s.pids.current + 1 < 2 ^ 64
    → Forks r s i (sys_fork r s)
sys_fork-Forks r s i v cur narrow =
    let (t, at_i, live_t, unqueued, at) = current_lem s v i cur in
    let adds = PidsInvariant.alloc-Adds s.pids v.forest.pids_valid narrow in
    fork_lem r s i t v cur at_i live_t (PidsInvariant.alloc-IsValid s.pids v.forest.pids_valid) adds
      (λ j e. adds.0 (v.forest.pid_alive j (Pids.alloc s.pids).0 e))
