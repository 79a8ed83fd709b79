-- ===== src/Kernel/Tasks/Leave.antt =====
-- src/os/src/task/mod.rs: what `exit_current_and_run_next` leaves behind.
use project_r_core.Common.{
  ℕ, ◌<◌, ◌≡◌, refl, ◌≢◌, ◌⊎◌, inl, inr, ◌∙◌, ap, arith, Option, none, some, [], Option-cases,
  ℕ_discrete, eq→==, ne→not-==,
}
use project_r_core.Kernel.Tasks.{
  TaskControlBlock, TaskStatus, System, Resources, count, set_task, children_of, strong_count,
  hand_over, leave, exit_current_and_run_next,
}
use project_r_core.Kernel.Tasks.Count.{count-append, set_task_self, set_task_ne}
use project_r_core.Kernel.Tasks.Invariant.{
  alive, live, parent_of, IsValid, current_lem, strong_count_lem,
}
use project_r_core.Kernel.Tasks.HandOver.{HandsOver}
use project_r_core.Kernel.Tasks.Exit.{
  zombie, marked, handed, left, final_reads, at_i', known_map, after_exit, after_exit-IsValid,
}

-- The task `i` is a zombie without children afterwards, held by its parent alone, and its children are those
-- of INITPROC.
abbrev pub Leaves :
    {A W : Type 0} → System A W → ℕ → ℕ → TaskControlBlock A → A × W → System A W → Type 0
Leaves s i exit_code t released s' =
    IsValid s'
    × (s'.current ≡ none)
    × (s'.world ≡ released.1)
    × (s'.tasks i
        ≡ some (record t {
          task_status = TaskStatus.zombie;
          exit_code = exit_code;
          children = [];
          resources = released.0;
        }))
    × (strong_count s' i ≡ 1)
    × ((c : ℕ)
        → 0 < count c t.children
        → (parent_of (s'.tasks c) ≡ some s.initproc)
          × (0 < count c (children_of (s'.tasks s.initproc))))
    × ((x : ℕ) → i ≢ x → live (s'.tasks x) ≡ live (s.tasks x))

abbrev pub Exits :
    {A W : Type 0} → Resources A W → System A W → ℕ → ℕ → Option (System A W) → Type 0
Exits {A} {W} r s i exit_code out =
    (t : TaskControlBlock A) × (s.tasks i ≡ some t)
    × (((i ≡ s.initproc) × (out ≡ none))
        ⊎ ((r.release t.resources s.world ≡ none) × (out ≡ none))
        ⊎ ((released : A × W) × (s' : System A W) × (r.release t.resources s.world ≡ some released)
            × (out ≡ some s')
            × Leaves s i exit_code t released s'))

module _ {A W : Type 0} (r : Resources A W) (s : System A W) (v : IsValid s) (i exit_code : ℕ)
    (t : TaskControlBlock A) (at_i : s.tasks i ≡ some t) (live_i : live (some t) ≡ 1)
    (not_init : i ≢ s.initproc) (cur : s.current ≡ some i)
    (tasks' : ℕ → Option (TaskControlBlock A))
    (over : hand_over i t.children (marked s v i exit_code t at_i live_i not_init)
      ≡ some (record (marked s v i exit_code t at_i live_i not_init) { tasks = tasks' }))
    (h : HandsOver t.children (marked s v i exit_code t at_i live_i not_init) tasks') where
  exit_failed :
      r.release t.resources s.world ≡ none → exit_current_and_run_next r exit_code s ≡ none
  unfolding exit_current_and_run_next leave
  exit_failed failed =
      let found = at_i' s v i exit_code t at_i live_i not_init tasks' h t.resources in
      rw (cur, at_i, ne→not-== i s.initproc not_init, over, found, failed) refl

  exit_left :
      (released : A × W)
      → r.release t.resources s.world ≡ some released
      → exit_current_and_run_next r exit_code s
        ≡ some (after_exit s v i exit_code t at_i live_i not_init tasks' h released.0 released.1)
  unfolding exit_current_and_run_next leave
  exit_left released e =
      let found = at_i' s v i exit_code t at_i live_i not_init tasks' h t.resources in
      let known = known_map s v i exit_code t at_i live_i not_init tasks' h t.resources in
      let got = known.0 in rw (cur, at_i, ne→not-== i s.initproc not_init, over, found, e, got) refl

  after_exit-Leaves :
      (released : A × W)
      → Leaves s i exit_code t released
          (after_exit s v i exit_code t at_i live_i not_init tasks' h released.0 released.1)
  after_exit-Leaves released =
      let v' =
        after_exit-IsValid s v i exit_code t at_i live_i not_init tasks' h released.0 released.1
          cur in
      let t' = left s v i exit_code t at_i live_i not_init tasks' h released.0 in
      let old_at = at_i in
      let now_at = set_task_self tasks' i (some t') in
      (
        v',
        refl,
        refl,
        now_at,
        strong_count_lem _ v' i ∙ omega (arith, ap live now_at, ap alive now_at),
        (λ c held. (
          final_reads s v i exit_code t old_at live_i not_init tasks' h released.0 parent_of refl c
              ∙ h.new_parent c held,
          omega (
            arith,
            held,
            ap (λ o. count c (children_of o)) (set_task_ne tasks' i s.initproc (some t') not_init),
            ap (count c) h.init_children,
            count-append c
                (children_of (
                  set_task s.tasks i (some (zombie s v i exit_code t old_at live_i not_init))
                    s.initproc))
                t.children,
          ),
        )),
        λ x ne.
            ap live (set_task_ne tasks' i x (some t') ne)
            ∙ h.live_eq x
            ∙ ap live (set_task_ne s.tasks i x _ ne),
      )

exit_lem :
    {A W : Type 0} (r : Resources A W) (s : System A W) (i exit_code : ℕ) (t : TaskControlBlock A)
    → IsValid s
    → s.current ≡ some i
    → s.tasks i ≡ some t
    → live (some t) ≡ 1
    → Exits r s i exit_code (exit_current_and_run_next r exit_code s)
unfolding exit_current_and_run_next
exit_lem {A} {W} r s i exit_code t v cur at_i live_i = (
  t,
  at_i,
  elim (ℕ_discrete i s.initproc) [
    | yes e ↦ inl (e, rw (cur, at_i, eq→== i s.initproc e) refl)
    | no not_init ↦
        let (tasks', over, h) = handed s v i exit_code t at_i live_i not_init in
        elim (Option-cases (r.release t.resources s.world)) [
          | inl failed ↦ inr (
              inl (
                failed,
                exit_failed r s v i exit_code t at_i live_i not_init cur tasks' over h failed,
              ))
          | inr (released, e) ↦ inr (
              inr (
                released,
                after_exit s v i exit_code t at_i live_i not_init tasks' h released.0 released.1,
                e,
                exit_left r s v i exit_code t at_i live_i not_init cur tasks' over h released e,
                after_exit-Leaves r s v i exit_code t at_i live_i not_init cur tasks' over h
                    released,
              ))
        ]
  ],
)

-- `exit_current_and_run_next` panics if the current task is INITPROC, which it would borrow twice, or if the
-- address space can not be released. Otherwise the current task is a zombie with the given exit code and no
-- children, which only its parent holds; its children are children of INITPROC; no other task exits, and the
-- invariant is kept.
pub exit-Exits :
    {A W : Type 0} (r : Resources A W) (s : System A W) (i exit_code : ℕ)
    → IsValid s
    → s.current ≡ some i
    → Exits r s i exit_code (exit_current_and_run_next r exit_code s)
exit-Exits r s i exit_code v cur =
    let (t, at_i, live_t, unqueued, at) = current_lem s v i cur in
    exit_lem r s i exit_code t v cur at_i live_t
