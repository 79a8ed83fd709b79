-- ===== src/Kernel/Tasks/Reap.antt =====
-- src/os/src/syscall/process.rs: `sys_waitpid`.
use project_r_core.Common.{
  ℕ, ◌+◌, ◌≤◌, ◌<◌, ◌≡◌, refl, ◌≢◌, ◌⊎◌, inl, inr, ◌∙◌, ap, sym, arith, Option, none, some, List,
  ◌==◌, if◌then◌else◌, if_true, if_false, Option-cases, ℕ_discrete, eq→==, ne→not-==, dec_lt,
}
use project_r_core.Kernel.Pids.{PidAllocator}
use project_r_core.Kernel.Pids.Invariant as PidsInvariant
use project_r_core.Kernel.Tasks.{
  TaskControlBlock, System, Resources, count, set_task, children_of, edges, strong_count, reap,
}
use project_r_core.Kernel.Tasks.Count.{
  count-nil, set_task_self, set_task_ne, set_task_all, edges-set_task, count-le-edges, pid_of,
}
use project_r_core.Kernel.Tasks.Invariant.{alive, live, parent_of, IsForest, KeysAgree-ext, IsValid}

module _ {A W : Type 0} (s : System A W) (v : IsValid s) (i c : ℕ) (t child : TaskControlBlock A)
    (rest : List ℕ) (at_i : s.tasks i ≡ some t) (live_i : live (some t) ≡ 1)
    (at_c : s.tasks c ≡ some child) (dead : live (some child) ≡ 0)
    (counts : (x : ℕ) → count x t.children ≡ count x rest + (if c == x then 1 else 0)) where
  abbrev pub left : ℕ → Option (TaskControlBlock A)
  left = set_task s.tasks i (some (record t { children = rest }))

  abbrev pub after : ℕ → Option (TaskControlBlock A)
  after = set_task left c none

  apart : i ≢ c
  apart e =
      let same = ap (λ x. live (s.tasks x)) e in
      omega (arith, ap live at_i, ap live at_c, same, live_i, dead)

  not_init : s.initproc ≢ c
  not_init e =
      let same = ap (λ x. live (s.tasks x)) e in
      omega (arith, ap live at_c, same, v.forest.init_live, dead)

  made : (j : ℕ) (b : TaskControlBlock A) → s.tasks j ≡ some b → j < s.fresh
  made j b e = elim (dec_lt j s.fresh) [
    | yes h ↦ h
    | no h ↦ let out = v.forest.made j (omega arith) in absurd (cc)
  ]

  edges_left : (x : ℕ) → edges left s.fresh x + (if c == x then 1 else 0) ≡ edges s.tasks s.fresh x
  edges_left x = omega (
    arith,
    edges-set_task s.tasks i s.fresh x (some (record t { children = rest })) (made i t at_i),
    ap (λ o. count x (children_of o)) at_i,
    counts x,
  )

  left_c : left c ≡ some child
  left_c = set_task_ne s.tasks i c (some (record t { children = rest })) apart ∙ at_c

  edges-after :
      (x : ℕ) → edges after s.fresh x + (if c == x then 1 else 0) ≡ edges s.tasks s.fresh x
  unfolding count
  edges-after x =
      let no_children = ap (count x) (
        ap children_of left_c
        ∙ sym (ap children_of at_c)
        ∙ v.forest.childless c (ap live at_c ∙ dead)) in
      omega
        (arith, edges-set_task left c s.fresh x none (made c child at_c), edges_left x, no_children)

  -- The assertion of `sys_waitpid` on the child that it takes out.
  strong_count_left : strong_count (record s { tasks = left }) c ≡ 0
  unfolding strong_count
  strong_count_left =
      let self = if_true {A = ℕ} 1 0 (eq→== c c refl) in
      let init = if_false {A = ℕ} 1 0 (ne→not-== s.initproc c not_init) in
      omega (
        arith,
        v.runs c,
        v.known c,
        v.forest.owned c,
        ap live at_c,
        ap alive at_c,
        dead,
        edges_left c,
        self,
        init,
      )

  -- Whatever does not read the children is the same for the tasks that stay.
  pub stays :
      {B : Type 0} (f : Option (TaskControlBlock A) → B)
      → f (some (record t { children = rest })) ≡ f (some t)
      → (x : ℕ) → c ≢ x
      → f (after x) ≡ f (s.tasks x)
  stays f same x ne =
      ap f (set_task_ne left c x none ne)
      ∙ set_task_all (λ j o. f o ≡ f (s.tasks j)) s.tasks i (some (record t { children = rest }))
          (same ∙ sym (ap f at_i)) (λ j off. refl) x

  fewer : (j x : ℕ) → count x (children_of (after j)) ≤ count x (children_of (s.tasks j))
  unfolding count
  fewer j x =
      set_task_all (λ j o. count x (children_of o) ≤ count x (children_of (s.tasks j))) left c none
        (omega arith)
        (set_task_all (λ j o. c ≢ j → count x (children_of o) ≤ count x (children_of (s.tasks j)))
          s.tasks i (some (record t { children = rest }))
          (λ ne. omega (arith, counts x, ap (λ o. count x (children_of o)) at_i))
          (λ j off ne. omega arith))
        j

  pub gone : after c ≡ none
  gone = set_task_self left c none

  -- A child of a task that stays was its child before, and is not the one that was taken out.
  stays_child : (j x : ℕ) → 0 < count x (children_of (after j)) → c ≢ x
  stays_child j x h e = elim (dec_lt j s.fresh) [
    | yes inside ↦
        let self = if_true {A = ℕ} 1 0 (eq→== c x e) in
        let one = ap (λ y. alive (s.tasks y)) (sym e) in
        omega (
          arith,
          h,
          count-le-edges after j s.fresh x inside,
          edges-after x,
          v.forest.owned x,
          self,
          one,
          ap alive at_c,
        )
    | no outside ↦
        let old = ap (λ o. count x (children_of o)) (v.forest.made j (omega arith)) in
        omega (arith, h, fewer j x, old, count-nil x)
  ]

  stays_none : (x : ℕ) → s.tasks x ≡ none → after x ≡ none
  stays_none x out = elim (ℕ_discrete c x) [
    | yes e ↦ ap after (sym e) ∙ gone
    | no ne ↦
        set_task_ne left c x none ne
        ∙ set_task_ne s.tasks i x (some (record t { children = rest }))
            (λ e. let same = ap s.tasks e in let inside = at_i in cc)
        ∙ out
  ]

  stays_pid : (x p : ℕ) → pid_of (after x) ≡ some p → (c ≢ x) × (pid_of (s.tasks x) ≡ some p)
  stays_pid x p e = elim (ℕ_discrete c x) [
    | yes same ↦ let empty = ap pid_of (ap after (sym same) ∙ gone) in absurd (cc)
    | no ne ↦ (ne, sym (stays pid_of refl x ne) ∙ e)
  ]

  after-IsForest :
      (pids' : PidAllocator)
      → PidsInvariant.IsValid pids'
      → PidsInvariant.Adds pids' child.pid s.pids
      → IsForest after s.fresh s.initproc pids'
  after-IsForest pids' valid (unused, used, others) = record {
    owned = λ x. elim (ℕ_discrete c x) [
      | yes e ↦
          let self = if_true {A = ℕ} 1 0 (eq→== c x e) in
          let one = ap (λ y. alive (s.tasks y)) (sym e) in
          let zero_now = ap alive (ap after (sym e) ∙ gone) in
          omega (arith, edges-after x, v.forest.owned x, self, one, ap alive at_c, zero_now)
      | no ne ↦
          let other = if_false {A = ℕ} 1 0 (ne→not-== c x ne) in
          omega (arith, edges-after x, v.forest.owned x, stays alive refl x ne, other)
    ];
    made = λ x h. stays_none x (v.forest.made x h);
    init_live = stays live refl s.initproc (λ e. not_init (sym e)) ∙ v.forest.init_live;
    oldest = λ x h. stays_none x (v.forest.oldest x h);
    below = λ j x h. v.forest.below j x (omega (arith, fewer j x));
    parents = λ j x h.
        stays parent_of refl x (stays_child j x h)
        ∙ v.forest.parents j x (omega (arith, fewer j x));
    childless = λ x dead_x. elim (ℕ_discrete c x) [
      | yes e ↦ ap children_of (ap after (sym e) ∙ gone)
      | no ne ↦
          let was = sym (stays live refl x ne) ∙ dead_x in
          let off : i ≢ x = λ e.
            let same = ap (λ y. live (s.tasks y)) e in
            omega (arith, ap live at_i, live_i, same, was) in
          ap children_of (
            set_task_ne left c x none ne
            ∙ set_task_ne s.tasks i x (some (record t { children = rest })) off)
          ∙ v.forest.childless x was
    ];
    pids_valid = valid;
    pid_alive = λ x p e.
        let (ne, old) = stays_pid x p e in
        (others p
            (λ same. ne (v.forest.pid_unique c x p (ap pid_of at_c ∙ ap some (sym same)) old))).1
          (v.forest.pid_alive x p old);
    pid_unique = λ x y p e e'. v.forest.pid_unique x y p (stays_pid x p e).1 (stays_pid y p e').1;
  }

  after-IsValid :
      (pids' : PidAllocator) (w : W)
      → PidsInvariant.IsValid pids'
      → PidsInvariant.Adds pids' child.pid s.pids
      → IsValid (record s { tasks = after; pids = pids'; world = w })
  after-IsValid pids' w valid adds = record {
    forest = after-IsForest pids' valid adds;
    runs = λ x. v.runs x ∙ live_same x;
    known = λ x. v.known x ∙ live_same x;
    keys =
        KeysAgree-ext s.tasks after s.pid_to_task
          (λ x h. stays pid_of refl x (λ e.
            let same = ap (λ y. live (s.tasks y)) e in
            omega (arith, h, v.known x, ap live at_c, dead, same)))
          v.keys;
  }
    where
      live_same : (x : ℕ) → live (s.tasks x) ≡ live (after x)
      live_same x = elim (ℕ_discrete c x) [
        | yes e ↦
            ap (λ y. live (s.tasks y)) (sym e)
            ∙ ap live at_c
            ∙ dead
            ∙ sym (ap live (ap after (sym e) ∙ gone))
        | no ne ↦ sym (stays live refl x ne)
      ]

  -- A zombie among the children of the current task is reaped, unless the user's memory can not be
  -- written or the resources of the task can not be freed.
  pub reap_lem :
      (r : Resources A W)
      → let s' = record s { tasks = left } in
        ((w w' : W) × (b : PidAllocator) × (r.put_user t.resources child.exit_code s.world ≡ some w)
          × (r.free child.pid child.resources w ≡ some w')
          × (reap r t c s' ≡ some (child.pid, record s { tasks = after; pids = b; world = w' }))
          × IsValid (record s { tasks = after; pids = b; world = w' }))
        ⊎ (((r.put_user t.resources child.exit_code s.world ≡ none)
              ⊎ ((w : W) × (r.put_user t.resources child.exit_code s.world ≡ some w)
                  × (r.free child.pid child.resources w ≡ none)))
            × (reap r t c s' ≡ none))
  unfolding reap
  reap_lem r = elim (PidsInvariant.dealloc_lem s.pids child.pid v.forest.pids_valid) [
    | inr (unused, e) ↦ absurd (unused (v.forest.pid_alive c child.pid (ap pid_of at_c)))
    | inl (used, (b, e, valid, adds)) ↦
        let count_eq = strong_count_left in
        elim (Option-cases (r.put_user t.resources child.exit_code s.world)) [
          | inl failed ↦ inr (inl failed, rw (count_eq, left_c, failed) refl)
          | inr (w, written) ↦ elim (Option-cases (r.free child.pid child.resources w)) [
            | inl failed ↦
                inr (inr (w, written, failed), rw (count_eq, left_c, written, e, failed) refl)
            | inr (w', freed) ↦ inl (
              w,
              w',
              b,
              written,
              freed,
              rw (count_eq, left_c, written, e, freed) refl,
              after-IsValid b w' valid adds,
            )
          ]
        ]
  ]
