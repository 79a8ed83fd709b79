-- ===== src/Kernel/Tasks/Wait.antt =====
-- src/os/src/syscall/process.rs: the three results of `sys_waitpid`.
use project_r_core.Common.{
  ℕ, ◌<◌, ◌≡◌, refl, ◌≢◌, ◌⊎◌, inl, inr, ◌∙◌, ap, sym, arith, true, false, Option, none, some, ◌==◌,
  ◌||◌, ◌&&◌, if_true, Bool-cases, Option-cases, eq→==, ==→eq, not-==→ne, dec_lt,
}
use project_r_core.Kernel.Tasks.{
  TaskControlBlock, is_zombie, System, Resources, count, set_task, children_of, is_wanted,
  is_zombie_child, reap, sys_waitpid, no_children_running, children_running, any_process,
}
use project_r_core.Kernel.Tasks.Count.{take_first_lem, count-le-edges, pid_of}
use project_r_core.Kernel.Tasks.Invariant.{alive, live, IsValid, current_lem}
use project_r_core.Kernel.Tasks.Reap.{after, stays, gone, reap_lem}

module _ {A W : Type 0} where
  -- `c` is a child of `i` that a call with `pid` waits for.
  abbrev pub Wanted : System A W → ℕ → ℕ → ℕ → Type 0
  Wanted s i pid c =
      (0 < count c (children_of (s.tasks i)))
      × ((pid ≡ any_process) ⊎ (pid_of (s.tasks c) ≡ some pid))

  is_wanted_found :
      (s : System A W) (pid c : ℕ) (t : TaskControlBlock A)
      → s.tasks c ≡ some t
      → is_wanted s pid c ≡ (pid == any_process || pid == t.pid)
  unfolding is_wanted
  is_wanted_found s pid c t e = rw (e, is_wanted) refl

  is_zombie_child_found :
      (s : System A W) (pid c : ℕ) (t : TaskControlBlock A)
      → s.tasks c ≡ some t
      → is_zombie_child s pid c ≡ (is_zombie t.task_status && is_wanted s pid c)
  unfolding is_zombie_child
  is_zombie_child_found s pid c t e = rw (e, is_zombie_child) refl

  is_wanted_lem :
      (s : System A W) (pid c : ℕ) (t : TaskControlBlock A)
      → s.tasks c ≡ some t
      → ((is_wanted s pid c ≡ true) × ((pid ≡ any_process) ⊎ (pid_of (s.tasks c) ≡ some pid)))
        ⊎ ((is_wanted s pid c ≡ false) × ¬ ((pid ≡ any_process) ⊎ (pid_of (s.tasks c) ≡ some pid)))
  is_wanted_lem s pid c t e =
      let value = is_wanted_found s pid c t e in
      elim (Bool-cases (pid == any_process)) [
        | inl any ↦ inl (value ∙ rw any refl, inl (==→eq pid any_process any))
        | inr one ↦ elim (Bool-cases (pid == t.pid)) [
          | inl same ↦ inl (
            value ∙ rw (one, same) refl,
            inr (ap pid_of e ∙ ap some (sym (==→eq pid t.pid same))),
          )
          | inr other ↦ inr (
            value ∙ rw (one, other) refl,
            λ h. elim h [
              | inl any ↦ not-==→ne pid any_process one any
              | inr same ↦ let known = ap pid_of e in not-==→ne pid t.pid other (cc)
            ],
          )
        ]
      ]

  -- What becomes of a zombie `c` that was found: its exit code is written to the user's memory, its
  -- resources are freed, and no `Arc` of it is left; the other tasks keep their pids.
  abbrev pub Reaps : Resources A W → System A W → ℕ → ℕ → Option (ℕ × System A W) → Type 0
  Reaps r s i c out =
      (t : TaskControlBlock A) × (child : TaskControlBlock A) × (s.tasks i ≡ some t)
      × (s.tasks c ≡ some child)
      × (((w : W) × (s' : System A W) × (r.put_user t.resources child.exit_code s.world ≡ some w)
            × (r.free child.pid child.resources w ≡ some s'.world)
            × (out ≡ some (child.pid, s'))
            × IsValid s'
            × (s'.tasks c ≡ none)
            × ((x : ℕ) → c ≢ x → pid_of (s'.tasks x) ≡ pid_of (s.tasks x)))
          ⊎ (((r.put_user t.resources child.exit_code s.world ≡ none)
                ⊎ ((w : W) × (r.put_user t.resources child.exit_code s.world ≡ some w)
                    × (r.free child.pid child.resources w ≡ none)))
              × (out ≡ none)))

  abbrev pub Waits : Resources A W → System A W → ℕ → ℕ → Option (ℕ × System A W) → Type 0
  Waits r s i pid out =
      (((c : ℕ) → ¬ Wanted s i pid c) × (out ≡ some (no_children_running, s)))
      ⊎ ((c : ℕ) × Wanted s i pid c
          × ((x : ℕ) → Wanted s i pid x → live (s.tasks x) ≡ 1)
          × (out ≡ some (children_running, s)))
      ⊎ ((c : ℕ) × Wanted s i pid c × (live (s.tasks c) ≡ 0) × Reaps r s i c out)

module _ {A W : Type 0} (r : Resources A W) (s : System A W) (i pid : ℕ) (v : IsValid s)
    (t : TaskControlBlock A) (at_i : s.tasks i ≡ some t) (live_i : live (some t) ≡ 1) where
  -- The children exist.
  child_found : (c : ℕ) → 0 < count c t.children → (b : TaskControlBlock A) × (s.tasks c ≡ some b)
  child_found c h = elim (Option-cases (s.tasks c)) [
    | inr found ↦ found
    | inl out ↦ elim (dec_lt i s.fresh) [
      | yes inside ↦ absurd (
          omega (
            arith,
            h,
            v.forest.owned c,
            ap alive out,
            count-le-edges s.tasks i s.fresh c inside,
            ap (λ o. count c (children_of o)) at_i,
          ))
      | no outside ↦ let unmade = v.forest.made i (omega arith) in absurd (cc)
    ]
  ]

  child_count : (c : ℕ) → count c (children_of (s.tasks i)) ≡ count c t.children
  child_count c = ap (λ o. count c (children_of o)) at_i

  unwanted : (c : ℕ) → (0 < count c t.children → is_wanted s pid c ≡ false) → ¬ Wanted s i pid c
  unwanted c h (held, wanted) =
      let in_children : 0 < count c t.children = omega (arith, held, child_count c) in
      let (b, found) = child_found c in_children in
      elim (is_wanted_lem s pid c b found) [
        | inl (yes_wanted, w) ↦ let f = h in_children in absurd (cc)
        | inr (not_wanted, ne) ↦ ne wanted
      ]

  Wanted-of : (c : ℕ) → 0 < count c t.children → is_wanted s pid c ≡ true → Wanted s i pid c
  Wanted-of c h e =
      let (b, found) = child_found c h in
      (
        omega (arith, h, child_count c),
        elim (is_wanted_lem s pid c b found) [
          | inl (same, w) ↦ w
          | inr (not_wanted, ne) ↦ absurd (cc)
        ],
      )

  zombie_wanted :
      (c : ℕ)
      → 0 < count c t.children
      → is_zombie_child s pid c ≡ true
      → (is_wanted s pid c ≡ true)
        × ((b : TaskControlBlock A) × (s.tasks c ≡ some b) × (live (some b) ≡ 0))
  zombie_wanted c h e =
      let (b, found) = child_found c h in
      let value = is_zombie_child_found s pid c b found in
      elim (Bool-cases (is_zombie b.task_status)) [
        | inl z ↦ (sym (value ∙ rw z refl) ∙ e, (b, found, rw z refl))
        | inr z ↦ let no_zombie : is_zombie_child s pid c ≡ false = value ∙ rw z refl in absurd (cc)
      ]

  not_zombie :
      (c : ℕ)
      → Wanted s i pid c
      → (0 < count c t.children → is_zombie_child s pid c ≡ false)
      → live (s.tasks c) ≡ 1
  not_zombie c (held, wanted) h =
      let in_children : 0 < count c t.children = omega (arith, held, child_count c) in
      let (b, found) = child_found c in_children in
      let value = is_zombie_child_found s pid c b found in
      elim (Bool-cases (is_zombie b.task_status)) [
        | inr z ↦ ap live found ∙ rw z refl
        | inl z ↦ elim (is_wanted_lem s pid c b found) [
          | inl (yes_wanted, w) ↦
              let f = h in_children in
              let tr : is_zombie_child s pid c ≡ true = value ∙ rw (z, yes_wanted) refl in
              absurd (cc)
          | inr (not_wanted, ne) ↦ absurd (ne wanted)
        ]
      ]

  wait_lem : s.current ≡ some i → Waits r s i pid (sys_waitpid r pid s)
  unfolding sys_waitpid
  wait_lem cur = elim (take_first_lem (is_wanted s pid) t.children) [
    | inl (none_wanted, all) ↦
        inl ((λ c. unwanted c (all c)), ground (arith, cur, at_i, none_wanted))
    | inr (first, others, some_wanted, is_first, first_counts) ↦
        let in_children : 0 < count first t.children =
          omega (arith, first_counts first, if_true {A = ℕ} 1 0 (eq→== first first refl)) in
        elim (take_first_lem (is_zombie_child s pid) t.children) [
          | inl (no_zombie, all) ↦ inr (
              inl (
                first,
                Wanted-of first in_children is_first,
                (λ x wanted. not_zombie x wanted (all x)),
                ground (arith, cur, at_i, some_wanted, no_zombie),
              ))
          | inr (c, rest, some_zombie, is_dead, counts) ↦
              let held : 0 < count c t.children =
                omega (arith, counts c, if_true {A = ℕ} 1 0 (eq→== c c refl)) in
              let (wanted, (child, at_c, dead)) = zombie_wanted c held is_dead in
              let out_eq : sys_waitpid r pid s
                  ≡ reap r t c (record s {
                    tasks = set_task s.tasks i (some (record t { children = rest }));
                  }) =
                ground (arith, cur, at_i, some_wanted, some_zombie) in
              inr (
                inr (
                  c,
                  Wanted-of c held wanted,
                  ap live at_c ∙ dead,
                  (
                    t,
                    child,
                    at_i,
                    at_c,
                    elim (reap_lem s v i c t child rest at_i live_i at_c dead counts r) [
                      | inl (w, w', b, written, freed, e, v') ↦ inl (
                        w,
                        record s {
                          tasks = after s v i c t child rest at_i live_i at_c dead counts;
                          pids = b;
                          world = w';
                        },
                        written,
                        freed,
                        out_eq ∙ e,
                        v',
                        gone s v i c t child rest at_i live_i at_c dead counts,
                        λ x ne.
                            stays s v i c t child rest at_i live_i at_c dead counts pid_of refl x
                              ne,
                      )
                      | inr (failed, e) ↦ inr (failed, out_eq ∙ e)
                    ],
                  ),
                ))
        ]
  ]

-- `sys_waitpid` of the current task never fails an assertion: if it has no child that the call waits
-- for, it returns -1, and if none of those has exited, it returns -2, and nothing changes; otherwise one
-- that has exited is reaped, and its pid returned, unless the user's memory can not be written or the
-- resources of the child can not be freed. The invariant is kept.
pub sys_waitpid-Waits :
    {A W : Type 0} (r : Resources A W) (s : System A W) (i pid : ℕ)
    → IsValid s
    → s.current ≡ some i
    → Waits r s i pid (sys_waitpid r pid s)
sys_waitpid-Waits r s i pid v cur =
    let (t, found, live_t, unqueued, at) = current_lem s v i cur in
    wait_lem r s i pid v t found live_t cur
