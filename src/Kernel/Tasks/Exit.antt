-- ===== src/Kernel/Tasks/Exit.antt =====
-- src/os/src/task/mod.rs: `exit_current_and_run_next`.
use project_r_core.Common.{
  ℕ, ◌+◌, ◌<◌, ◌≡◌, refl, ◌≢◌, ◌⊎◌, inl, inr, ◌∙◌, ap, sym, arith, Option, none, some, List, [],
  ◌∷◌, ◌==◌, if◌then◌else◌, if_true, if_false, All, ℕ_discrete, eq→==, ne→not-==, dec_lt,
}
use project_r_core.Kernel.Tasks.{
  TaskControlBlock, TaskStatus, System, count, values, to_list, set_task, children_of, edges,
  hand_over, remove, get,
}
use project_r_core.Kernel.Tasks.Count.{
  count-nil, count-append, count-singleton, set_task_self, set_task_ne, set_task_all,
  edges-set_task, count-le-edges, edges-set_task_same, two-le-edges, remove_known, pid_of,
  remove-KeysAgree,
}
use project_r_core.Kernel.Tasks.Invariant.{
  alive, live, parent_of, IsForest, KeysAgree-ext, live-le-alive, alive-le-one, IsValid,
}
use project_r_core.Kernel.Tasks.HandOver.{HandsOver, hand_over_lem}

none_of_alive : {A : Type 0} (o : Option (TaskControlBlock A)) → alive o ≡ 0 → o ≡ none
none_of_alive none h = refl
none_of_alive (some t) h = absurd (omega (arith, h))

-- Each element of a list occurs in it.
All-count : {P : ℕ → Type 0} (xs : List ℕ) → ((c : ℕ) → 0 < count c xs → P c) → All P xs
unfolding count
All-count [] h = tt
All-count (x ∷ xs) h =
    (h x (rw (eq→== x x refl) (omega arith)), All-count xs (λ c held. h c (omega arith)))

module _ {A W : Type 0} (s : System A W) (v : IsValid s) (i exit_code : ℕ) (t : TaskControlBlock A)
    (at_i : s.tasks i ≡ some t) (live_i : live (some t) ≡ 1) (not_init : i ≢ s.initproc) where
  abbrev pub zombie : TaskControlBlock A
  zombie = record t { task_status = TaskStatus.zombie; exit_code = exit_code }

  abbrev pub marked : System A W
  marked = record s { current = none; tasks = set_task s.tasks i (some zombie) }

  made : (j : ℕ) (b : TaskControlBlock A) → s.tasks j ≡ some b → j < s.fresh
  made j b e = elim (dec_lt j s.fresh) [
    | yes h ↦ h
    | no h ↦ let out = v.forest.made j (omega arith) in absurd (cc)
  ]

  init_made : s.initproc < s.fresh
  init_made = elim (dec_lt s.initproc s.fresh) [
    | yes h ↦ h
    | no h ↦ omega (arith, v.forest.init_live, ap live (v.forest.made s.initproc (omega arith)))
  ]

  init_older : s.initproc < i
  init_older = elim (dec_lt i s.initproc) [
    | yes h ↦ let out = v.forest.oldest i h in absurd (cc)
    | no h ↦ omega arith
  ]

  held_by_i : (c : ℕ) → 0 < count c t.children → 0 < count c (children_of (s.tasks i))
  held_by_i c h = omega (arith, h, ap (λ o. count c (children_of o)) at_i)

  child_alive : (c : ℕ) → 0 < count c t.children → alive (s.tasks c) ≡ 1
  child_alive c h = omega (
    arith,
    v.forest.owned c,
    count-le-edges s.tasks i s.fresh c (made i t at_i),
    held_by_i c h,
    alive-le-one (s.tasks c),
  )

  child_not_init : (c : ℕ) → 0 < count c t.children → c ≢ s.initproc
  child_not_init c h e = omega (arith, v.forest.below i c (held_by_i c h), init_older, e)

  marked_reads :
      {B : Type 0} (f : Option (TaskControlBlock A) → B)
      → f (some zombie) ≡ f (some t)
      → (x : ℕ) → f (marked.tasks x) ≡ f (s.tasks x)
  marked_reads f same =
      set_task_all (λ j o. f o ≡ f (s.tasks j)) s.tasks i (some zombie) (same ∙ sym (ap f at_i))
        (λ j off. refl)

  -- The loop over the children of the task ends.
  pub handed :
      (tasks' : ℕ → Option (TaskControlBlock A)) × (hand_over i t.children marked
        ≡ some (record marked { tasks = tasks' }))
      × HandsOver t.children marked tasks'
  handed =
      hand_over_lem i t.children marked
        (marked_reads alive refl s.initproc
          ∙ omega (
            arith,
            v.forest.init_live,
            live-le-alive (s.tasks s.initproc),
            alive-le-one (s.tasks s.initproc),
          ))
        (All-count t.children (λ c h. (
          (λ e. omega (arith, v.forest.below i c (held_by_i c h), e)),
          child_not_init c h,
          marked_reads alive refl c ∙ child_alive c h,
        )))

  module _ (tasks' : ℕ → Option (TaskControlBlock A)) (h : HandsOver t.children marked tasks')
      (res : A) where
    abbrev pub left : TaskControlBlock A
    left = record zombie { children = []; resources = res }

    abbrev pub final : ℕ → Option (TaskControlBlock A)
    final = set_task tasks' i (some left)

    own_child : count i t.children ≡ 0
    own_child = elim (dec_lt 0 (count i t.children)) [
      | yes held ↦ omega (arith, v.forest.below i i (held_by_i i held))
      | no none_held ↦ omega arith
    ]

    pub at_i' : tasks' i ≡ some zombie
    at_i' = h.same i (λ e. not_init (sym e)) own_child ∙ set_task_self s.tasks i (some zombie)

    pub final_reads :
        {B : Type 0} (f : Option (TaskControlBlock A) → B)
        → f (some left) ≡ f (some zombie)
        → (x : ℕ) → f (final x) ≡ f (tasks' x)
    final_reads f same =
        set_task_all (λ j o. f o ≡ f (tasks' j)) tasks' i (some left) (same ∙ sym (ap f at_i'))
          (λ j off. refl)

    alive-final : (x : ℕ) → alive (final x) ≡ alive (s.tasks x)
    alive-final x = final_reads alive refl x ∙ h.alive_eq x ∙ marked_reads alive refl x

    pid_final : (x : ℕ) → pid_of (final x) ≡ pid_of (s.tasks x)
    pid_final x = final_reads pid_of refl x ∙ h.pid_eq x ∙ marked_reads pid_of refl x

    live-final : (x : ℕ) → live (final x) + (if i == x then 1 else 0) ≡ live (s.tasks x)
    live-final x = elim (ℕ_discrete i x) [
      | yes e ↦ omega (
        arith,
        if_true {A = ℕ} 1 0 (eq→== i x e),
        ap (λ y. live (final y)) (sym e),
        ap live (set_task_self tasks' i (some left)),
        ap (λ y. live (s.tasks y)) (sym e),
        ap live at_i,
        live_i,
      )
      | no ne ↦ omega (
        arith,
        if_false {A = ℕ} 1 0 (ne→not-== i x ne),
        final_reads live refl x,
        h.live_eq x,
        ap live (set_task_ne s.tasks i x (some zombie) ne),
      )
    ]

    edges-final : (x : ℕ) → edges final s.fresh x ≡ edges s.tasks s.fresh x
    edges-final x = omega (
      arith,
      edges-set_task tasks' i s.fresh x (some left) (made i t at_i),
      ap (λ o. count x (children_of o)) at_i',
      count-nil x,
      h.edges_eq s.fresh x init_made,
      edges-set_task_same s.tasks i s.fresh x (some zombie) (sym (ap children_of at_i)),
    )

    -- Where a child is afterwards.
    child_final :
        (j x : ℕ)
        → 0 < count x (children_of (final j))
        → ((0 < count x (children_of (s.tasks j))) × (i ≢ j))
          ⊎ ((j ≡ s.initproc) × (0 < count x t.children))
    child_final j x =
        set_task_all
          (λ k o.
            0 < count x (children_of o)
            → ((0 < count x (children_of (s.tasks k))) × (i ≢ k))
              ⊎ ((k ≡ s.initproc) × (0 < count x t.children)))
          tasks' i (some left) (λ held. absurd (omega (arith, held, count-nil x)))
          (λ k off held. elim (ℕ_discrete s.initproc k) [
            | no ne ↦ inl (
              omega (
                arith,
                held,
                ap (count x) (h.children_eq k ne),
                ap (count x) (marked_reads children_of refl k),
              ),
              off,
            )
            | yes e ↦ elim (dec_lt 0 (count x t.children)) [
              | yes given ↦ inr (sym e, given)
              | no not_given ↦ inl (
                omega (
                  arith,
                  held,
                  not_given,
                  ap (λ y. count x (children_of (tasks' y))) e,
                  ap (count x) h.init_children,
                  count-append x (children_of (marked.tasks s.initproc)) t.children,
                  ap (count x) (marked_reads children_of refl s.initproc),
                  ap (λ y. count x (children_of (s.tasks y))) e,
                ),
                off,
              )
            ]
          ])
          j

    -- A child of another task is none of the children of `i`.
    one_parent : (j x : ℕ) → i ≢ j → 0 < count x (children_of (s.tasks j)) → count x t.children ≡ 0
    one_parent j x ne held = elim (dec_lt j s.fresh) [
      | no outside ↦ absurd (
          omega (
            arith,
            held,
            ap (λ o. count x (children_of o)) (v.forest.made j (omega arith)),
            count-nil x,
          ))
      | yes inside ↦ omega (
        arith,
        held,
        two-le-edges s.tasks i j s.fresh x (made i t at_i) inside ne,
        v.forest.owned x,
        alive-le-one (s.tasks x),
        ap (λ o. count x (children_of o)) at_i,
      )
    ]

    final_childless : (x : ℕ) → live (final x) ≡ 0 → children_of (final x) ≡ []
    final_childless x dead = elim (ℕ_discrete i x) [
      | yes e ↦
          ap (λ y. children_of (final y)) (sym e)
          ∙ ap children_of (set_task_self tasks' i (some left))
      | no ne ↦
          let was : live (s.tasks x) ≡ 0 =
            omega (arith, live-final x, dead, if_false {A = ℕ} 1 0 (ne→not-== i x ne)) in
          ap children_of (set_task_ne tasks' i x (some left) ne)
          ∙ h.children_eq x
              (λ e. omega (arith, was, v.forest.init_live, ap (λ y. live (s.tasks y)) e))
          ∙ ap children_of (set_task_ne s.tasks i x (some zombie) ne)
          ∙ v.forest.childless x was
    ]

    pub final-IsForest : IsForest final s.fresh s.initproc s.pids
    final-IsForest = record {
      owned = λ x. omega (arith, edges-final x, alive-final x, v.forest.owned x);
      made = λ x lt. none_of_alive (final x) (alive-final x ∙ ap alive (v.forest.made x lt));
      init_live = omega (
        arith,
        live-final s.initproc,
        v.forest.init_live,
        if_false {A = ℕ} 1 0 (ne→not-== i s.initproc not_init),
      );
      oldest = λ x lt. none_of_alive (final x) (alive-final x ∙ ap alive (v.forest.oldest x lt));
      below = λ j x held. elim (child_final j x held) [
        | inl (old, ne) ↦ v.forest.below j x old
        | inr (at, given) ↦ omega (arith, at, init_older, v.forest.below i x (held_by_i x given))
      ];
      parents = λ j x held. final_reads parent_of refl x ∙ elim (child_final j x held) [
        | inl (old, ne) ↦
            h.old_parent x (one_parent j x ne old)
            ∙ marked_reads parent_of refl x
            ∙ v.forest.parents j x old
        | inr (at, given) ↦ h.new_parent x given ∙ ap some (sym at)
      ];
      childless = final_childless;
      pids_valid = v.forest.pids_valid;
      pid_alive = λ x p e. v.forest.pid_alive x p (sym (pid_final x) ∙ e);
      pid_unique =
          λ x y p e e'. v.forest.pid_unique x y p (sym (pid_final x) ∙ e) (sym (pid_final y) ∙ e');
    }

    pub known_map :
        (get t.pid s.pid_to_task ≡ some i)
        × ((x : ℕ)
            → count x (values (remove t.pid s.pid_to_task)) + (if i == x then 1 else 0)
              ≡ count x (values s.pid_to_task))
    known_map =
        remove_known s.tasks t.pid i s.pid_to_task v.keys (ap pid_of at_i)
          (λ j e. v.forest.pid_unique j i t.pid e (ap pid_of at_i))
          (omega (arith, v.known i, ap live at_i, live_i))

    abbrev pub after_exit : W → System A W
    after_exit w = record s {
      tasks = final;
      current = none;
      pid_to_task = remove t.pid s.pid_to_task;
      world = w;
    }

    pub after_exit-IsValid : (w : W) → s.current ≡ some i → IsValid (after_exit w)
    after_exit-IsValid w cur = record {
      forest = final-IsForest;
      runs = λ x. omega (
        arith,
        v.runs x,
        ap (λ o. count x (to_list o)) cur,
        count-singleton x i,
        count-nil x,
        live-final x,
      );
      known = λ x. omega (arith, known_map.1 x, v.known x, live-final x);
      keys =
          remove-KeysAgree final t.pid s.pid_to_task
            (KeysAgree-ext s.tasks final s.pid_to_task (λ x held. pid_final x) v.keys);
    }
