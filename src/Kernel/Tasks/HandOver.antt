-- ===== src/Kernel/Tasks/HandOver.antt =====
-- src/os/src/task/mod.rs: the children of a task that exits go to INITPROC.
use project_r_core.Common.{
  ℕ, ◌+◌, ◌<◌, ◌≡◌, refl, ◌≢◌, ◌∙◌, ap, sym, arith, Option, none, some, List, [], ◌∷◌, ◌++◌,
  if_true, if_false, All, All-map, append_assoc, ℕ_discrete, eq→==, ne→not-==, dec_lt,
}
use project_r_core.Kernel.Tasks.{
  TaskControlBlock, System, count, set_task, children_of, edges, hand_over,
}
use project_r_core.Kernel.Tasks.Count.{
  count-append, count-singleton, set_task_self, set_task_ne, set_task_all, edges-set_task,
  edges-set_task_same, pid_of,
}
use project_r_core.Kernel.Tasks.Invariant.{alive, live, parent_of}

count-nil : (x : ℕ) → count x [] ≡ 0
unfolding count
count-nil x = refl

append-nil : (xs : List ℕ) → xs ++ [] ≡ xs
append-nil [] = refl
append-nil (x ∷ xs) = ap (◌∷◌ x) (append-nil xs)

module _ {A : Type 0} where
  alive_found :
      (o : Option (TaskControlBlock A)) → alive o ≡ 1 → (b : TaskControlBlock A) × (o ≡ some b)
  alive_found none h = absurd (omega arith)
  alive_found (some b) h = (b, refl)

module _ {A W : Type 0} where
  -- What the loop over the children `cs` does to the tasks; it does nothing else.
  pub record HandsOver (cs : List ℕ) (s : System A W) (tasks' : ℕ → Option (TaskControlBlock A))
      : Type 0 where
    pub alive_eq : (x : ℕ) → alive (tasks' x) ≡ alive (s.tasks x)
    pub live_eq : (x : ℕ) → live (tasks' x) ≡ live (s.tasks x)
    pub pid_eq : (x : ℕ) → pid_of (tasks' x) ≡ pid_of (s.tasks x)
    pub children_eq : (x : ℕ) → s.initproc ≢ x → children_of (tasks' x) ≡ children_of (s.tasks x)
    pub init_children : children_of (tasks' s.initproc) ≡ children_of (s.tasks s.initproc) ++ cs
    pub new_parent : (x : ℕ) → 0 < count x cs → parent_of (tasks' x) ≡ some s.initproc
    pub old_parent : (x : ℕ) → count x cs ≡ 0 → parent_of (tasks' x) ≡ parent_of (s.tasks x)
    pub same : (x : ℕ) → s.initproc ≢ x → count x cs ≡ 0 → tasks' x ≡ s.tasks x
    pub edges_eq : (n x : ℕ) → s.initproc < n → edges tasks' n x ≡ edges s.tasks n x + count x cs

  module _ (s : System A W) (c : ℕ) (child init : TaskControlBlock A)
      (at_c : s.tasks c ≡ some child) (at_init : s.tasks s.initproc ≡ some init)
      (apart : c ≢ s.initproc) where
    abbrev child' : TaskControlBlock A
    child' = record child { parent = some s.initproc }

    abbrev init' : TaskControlBlock A
    init' = record init { children = init.children ++ (c ∷ []) }

    abbrev given : ℕ → Option (TaskControlBlock A)
    given = set_task s.tasks c (some child')

    abbrev handed : ℕ → Option (TaskControlBlock A)
    handed = set_task given s.initproc (some init')

    given-init : given s.initproc ≡ some init
    given-init = set_task_ne s.tasks c s.initproc (some child') apart ∙ at_init

    -- What reads neither the parent nor the children stays as it was.
    reads_same :
        {B : Type 0} (f : Option (TaskControlBlock A) → B)
        → f (some child') ≡ f (some child)
        → f (some init') ≡ f (some init)
        → (x : ℕ) → f (handed x) ≡ f (s.tasks x)
    reads_same f same_c same_init =
        set_task_all (λ j o. f o ≡ f (s.tasks j)) given s.initproc (some init')
          (same_init ∙ sym (ap f at_init))
          (λ j off.
            set_task_all (λ k o. f o ≡ f (s.tasks k)) s.tasks c (some child')
              (same_c ∙ sym (ap f at_c)) (λ k off. refl) j)

    -- The loop goes on from one child handed over.
    HandsOver-step :
        (cs : List ℕ) (tasks' : ℕ → Option (TaskControlBlock A))
        → HandsOver cs (record s { tasks = handed }) tasks'
        → HandsOver (c ∷ cs) s tasks'
    unfolding count
    HandsOver-step cs tasks' h = record {
      alive_eq = λ x. h.alive_eq x ∙ reads_same alive refl refl x;
      live_eq = λ x. h.live_eq x ∙ reads_same live refl refl x;
      pid_eq = λ x. h.pid_eq x ∙ reads_same pid_of refl refl x;
      children_eq = λ x ne.
          h.children_eq x ne
          ∙ ap children_of (set_task_ne given s.initproc x (some init') ne)
          ∙ set_task_all (λ k o. children_of o ≡ children_of (s.tasks k)) s.tasks c (some child')
              (sym (ap children_of at_c)) (λ k off. refl) x;
      init_children =
          h.init_children
          ∙ ap (λ o. children_of o ++ cs) (set_task_self given s.initproc (some init'))
          ∙ append_assoc init.children (c ∷ []) cs
          ∙ ap (λ o. children_of o ++ (c ∷ cs)) (sym at_init);
      new_parent = λ x held. elim (dec_lt 0 (count x cs)) [
        | yes more ↦ h.new_parent x more
        | no last ↦ elim (ℕ_discrete c x) [
          | yes e ↦
              h.old_parent x (omega arith)
              ∙ ap (λ y. parent_of (handed y)) (sym e)
              ∙ ap parent_of (
                  set_task_ne given s.initproc c (some init') (λ e'. apart (sym e'))
                  ∙ set_task_self s.tasks c (some child'))
          | no ne ↦ absurd (omega (arith, held, if_false {A = ℕ} 1 0 (ne→not-== c x ne)))
        ]
      ];
      old_parent = λ x free.
          let other : c ≢ x = λ e. omega (arith, free, if_true {A = ℕ} 1 0 (eq→== c x e)) in
          h.old_parent x (omega (arith, free))
          ∙ set_task_all (λ j o. c ≢ j → parent_of o ≡ parent_of (s.tasks j)) given s.initproc
              (some init') (λ ne. sym (ap parent_of at_init))
              (λ j off ne. ap parent_of (set_task_ne s.tasks c j (some child') ne)) x other;
      same = λ x ne free.
          let other : c ≢ x = λ e. omega (arith, free, if_true {A = ℕ} 1 0 (eq→== c x e)) in
          h.same x ne (omega (arith, free))
          ∙ set_task_ne given s.initproc x (some init') ne
          ∙ set_task_ne s.tasks c x (some child') other;
      edges_eq = λ n x lt. omega (
        arith,
        h.edges_eq n x lt,
        edges-set_task given s.initproc n x (some init') lt,
        edges-set_task_same s.tasks c n x (some child') (sym (ap children_of at_c)),
        ap (λ o. count x (children_of o)) given-init,
        count-append x init.children (c ∷ []),
        count-singleton x c,
      );
    }

  -- The loop ends, provided that the children are other tasks than `i` and INITPROC, and exist.
  pub hand_over_lem :
      (i : ℕ) (cs : List ℕ) (s : System A W)
      → alive (s.tasks s.initproc) ≡ 1
      → All (λ c. (c ≢ i) × (c ≢ s.initproc) × (alive (s.tasks c) ≡ 1)) cs
      → (tasks' : ℕ → Option (TaskControlBlock A)) × (hand_over i cs s
          ≡ some (record s { tasks = tasks' }))
        × HandsOver cs s tasks'
  unfolding hand_over
  hand_over_lem i [] s init all = (
    s.tasks,
    refl,
    record {
      alive_eq = λ x. refl;
      live_eq = λ x. refl;
      pid_eq = λ x. refl;
      children_eq = λ x ne. refl;
      init_children = sym (append-nil (children_of (s.tasks s.initproc)));
      new_parent = λ x held. absurd (omega (arith, held, count-nil x));
      old_parent = λ x free. refl;
      same = λ x ne free. refl;
      edges_eq = λ n x lt. omega (arith, count-nil x);
    },
  )
  hand_over_lem i (c ∷ cs) s init_alive ((off, apart, c_alive), all) =
      let (child, at_c) = alive_found (s.tasks c) c_alive in
      let (init, at_init) = alive_found (s.tasks s.initproc) init_alive in
      let same = reads_same s c child init at_c at_init apart alive refl refl in
      let next = record s { tasks = handed s c child init at_c at_init apart } in
      let (tasks', e, h) =
        hand_over_lem i cs next (same s.initproc ∙ init_alive)
          (All-map (λ x p. (p.0, p.1, same x ∙ p.2)) cs all) in
      (
        tasks',
        rw (ne→not-== c i off, ne→not-== c s.initproc apart, at_c, at_init) e,
        HandsOver-step s c child init at_c at_init apart cs tasks' h,
      )
