-- ===== src/Kernel/Tasks/Forked.antt =====
-- The invariant after `fork` of src/os/src/task/task.rs: the tasks with the child among them.
use project_r_core.Common.{
  ℕ, suc, ◌+◌, ◌<◌, ◌≡◌, refl, ◌≢◌, ◌⊎◌, inl, inr, ◌∙◌, ap, sym, subst, arith, Option, none, some,
  List, [], ◌∷◌, ◌++◌, ◌==◌, if◌then◌else◌, if_true, if_false, All, ℕ_discrete, eq→==, ne→not-==,
  dec_lt,
}
use project_r_core.Kernel.Pids.{PidAllocator}
use project_r_core.Kernel.Pids.Invariant as PidsInvariant
use project_r_core.Kernel.Tasks.{
  TaskControlBlock, System, count, insert, set_task, children_of, edges,
}
use project_r_core.Kernel.Tasks.Count.{
  count-nil, count-append, count-singleton, set_task_self, set_task_ne, set_task_all,
  edges-set_task, edges-set_task_out, count-le-edges, count-insert_new, pid_of, KeysAgree,
  insert-KeysAgree,
}
use project_r_core.Kernel.Tasks.Invariant.{alive, live, parent_of, IsForest, KeysAgree-ext, IsValid}

keys_ne :
    {A : Type 0} (tasks : ℕ → Option (TaskControlBlock A)) (p : ℕ) (m : List (ℕ × ℕ))
    → ((j : ℕ) → pid_of (tasks j) ≢ some p)
    → KeysAgree tasks m
    → All (λ e. e.0 ≢ p) m
keys_ne tasks p [] h keys = tt
keys_ne tasks p ((q, j) ∷ m) h keys = ((λ e. h j (keys.0 ∙ ap some e)), keys_ne tasks p m h keys.1)

count_ne : (x y : ℕ) → x ≢ y → count y (x ∷ []) ≡ 0
count_ne x y ne = count-singleton y x ∙ if_false {A = ℕ} 1 0 (ne→not-== x y ne)

count_self : (x : ℕ) → count x (x ∷ []) ≡ 1
count_self x = count-singleton x x ∙ if_true {A = ℕ} 1 0 (eq→== x x refl)

module _ {A W : Type 0} (s : System A W) (v : IsValid s) (i pid : ℕ) (t child : TaskControlBlock A)
    (at_i : s.tasks i ≡ some t) (live_i : live (some t) ≡ 1) (child_pid : child.pid ≡ pid)
    (child_live : live (some child) ≡ 1) (child_parent : child.parent ≡ some i)
    (no_children : child.children ≡ []) (new_pid : (j : ℕ) → pid_of (s.tasks j) ≢ some pid) where
  abbrev pub with_child : TaskControlBlock A
  with_child = record t { children = t.children ++ (s.fresh ∷ []) }

  abbrev pub added : ℕ → Option (TaskControlBlock A)
  added = set_task s.tasks s.fresh (some child)

  abbrev pub forked : ℕ → Option (TaskControlBlock A)
  forked = set_task added i (some with_child)

  made : i < s.fresh
  made = elim (dec_lt i s.fresh) [
    | yes h ↦ h
    | no h ↦ let out = v.forest.made i (omega arith) in absurd (cc)
  ]

  unmade : s.tasks s.fresh ≡ none
  unmade = v.forest.made s.fresh (omega arith)

  off : i ≢ s.fresh
  off e = omega (arith, e, made)

  added_i : added i ≡ some t
  added_i = set_task_ne s.tasks s.fresh i (some child) (λ e. off (sym e)) ∙ at_i

  pub forked_fresh : forked s.fresh ≡ some child
  forked_fresh =
      set_task_ne added i s.fresh (some with_child) off ∙ set_task_self s.tasks s.fresh (some child)

  -- The old tasks keep all but their children.
  pub kept :
      {B : Type 0} (f : Option (TaskControlBlock A) → B)
      → f (some with_child) ≡ f (some t)
      → (x : ℕ) → s.fresh ≢ x
      → f (forked x) ≡ f (s.tasks x)
  kept f same x ne =
      set_task_all (λ j o. s.fresh ≢ j → f o ≡ f (s.tasks j)) added i (some with_child)
        (λ n. same ∙ sym (ap f at_i))
        (λ j apart n. ap f (set_task_ne s.tasks s.fresh j (some child) n)) x ne

  fresh_children : (x : ℕ) → count x (children_of (added s.fresh)) ≡ 0
  unfolding count
  fresh_children x =
      ap (λ o. count x (children_of o)) (set_task_self s.tasks s.fresh (some child))
      ∙ ap (count x) no_children

  edges-added : (x : ℕ) → edges added (suc s.fresh) x ≡ edges s.tasks s.fresh x
  unfolding edges
  edges-added x = omega (
    arith,
    fresh_children x,
    edges-set_task_out s.tasks s.fresh s.fresh x (some child) (omega arith),
  )

  edges-forked :
      (x : ℕ)
      → edges forked (s.fresh + 1) x ≡ edges s.tasks s.fresh x + (if s.fresh == x then 1 else 0)
  edges-forked x =
      let next : s.fresh + 1 ≡ suc s.fresh = omega arith in
      omega (
        arith,
        ap (λ n. edges forked n x) next,
        edges-set_task added i (suc s.fresh) x (some with_child) (omega (arith, made)),
        edges-added x,
        ap (λ o. count x (children_of o)) added_i,
        count-append x t.children (s.fresh ∷ []),
        count-singleton x s.fresh,
      )

  -- The children of a task are the old ones, and for `i` the new one.
  children_forked :
      (j x : ℕ)
      → 0 < count x (children_of (forked j))
      → (0 < count x (children_of (s.tasks j))) ⊎ ((j ≡ i) × (x ≡ s.fresh))
  children_forked j x =
      set_task_all
        (λ k o.
          0 < count x (children_of o)
          → (0 < count x (children_of (s.tasks k))) ⊎ ((k ≡ i) × (x ≡ s.fresh)))
        added i (some with_child)
        (λ h. elim (ℕ_discrete s.fresh x) [
          | yes e ↦ inr (refl, sym e)
          | no ne ↦ inl (
              omega (
                arith,
                h,
                count-append x t.children (s.fresh ∷ []),
                count_ne s.fresh x ne,
                ap (λ o. count x (children_of o)) at_i,
              ))
        ])
        (λ k apart.
          set_task_all
            (λ l o.
              0 < count x (children_of o)
              → (0 < count x (children_of (s.tasks l))) ⊎ ((l ≡ i) × (x ≡ s.fresh)))
            s.tasks s.fresh (some child)
            (λ h. absurd (omega (arith, h, ap (count x) no_children, count-nil x)))
            (λ l apart' h. inl h) k)
        j

  init_made : s.initproc < s.fresh
  init_made = elim (dec_lt s.initproc s.fresh) [
    | yes h ↦ h
    | no h ↦ omega (arith, v.forest.init_live, ap live (v.forest.made s.initproc (omega arith)))
  ]

  kept_none : (x : ℕ) → s.fresh ≢ x → s.tasks x ≡ none → forked x ≡ none
  kept_none x ne out =
      set_task_ne added i x (some with_child) (λ e. let same = ap s.tasks e in cc)
      ∙ set_task_ne s.tasks s.fresh x (some child) ne
      ∙ out

  old_child : (j x : ℕ) → 0 < count x (children_of (s.tasks j)) → s.fresh ≢ x
  old_child j x h e =
      let none_yet = ap (λ y. alive (s.tasks y)) (sym e) ∙ ap alive unmade in
      elim (dec_lt j s.fresh) [
        | yes inside ↦
            omega (arith, h, count-le-edges s.tasks j s.fresh x inside, v.forest.owned x, none_yet)
        | no outside ↦ omega (
          arith,
          h,
          ap (λ o. count x (children_of o)) (v.forest.made j (omega arith)),
          count-nil x,
        )
      ]

  forked_pid :
      (x p : ℕ)
      → pid_of (forked x) ≡ some p
      → ((s.fresh ≡ x) × (p ≡ pid)) ⊎ ((s.fresh ≢ x) × (pid_of (s.tasks x) ≡ some p) × (p ≢ pid))
  forked_pid x p e = elim (ℕ_discrete s.fresh x) [
    | yes same ↦ let known = ap pid_of (ap forked (sym same) ∙ forked_fresh) in inl (same, cc)
    | no ne ↦
        let old = sym (kept pid_of refl x ne) ∙ e in
        inr (ne, old, λ same. new_pid x (old ∙ ap some same))
  ]

  forked-IsForest :
      (pids' : PidAllocator)
      → PidsInvariant.IsValid pids'
      → PidsInvariant.Adds s.pids pid pids'
      → IsForest forked (s.fresh + 1) s.initproc pids'
  forked-IsForest pids' valid (unused, used, others) = record {
    owned = λ x. elim (ℕ_discrete s.fresh x) [
      | yes e ↦
          let self = if_true {A = ℕ} 1 0 (eq→== s.fresh x e) in
          let none_before = ap (λ y. alive (s.tasks y)) (sym e) ∙ ap alive unmade in
          omega (
            arith,
            edges-forked x,
            v.forest.owned x,
            self,
            none_before,
            ap (λ y. alive (forked y)) (sym e),
            ap alive forked_fresh,
          )
      | no ne ↦ omega (
        arith,
        edges-forked x,
        v.forest.owned x,
        if_false {A = ℕ} 1 0 (ne→not-== s.fresh x ne),
        kept alive refl x ne,
      )
    ];
    made = λ x h. kept_none x (λ e. omega (arith, e, h)) (v.forest.made x (omega (arith, h)));
    init_live = kept live refl s.initproc (λ e. omega (arith, e, init_made)) ∙ v.forest.init_live;
    oldest = λ x h. kept_none x (λ e. omega (arith, e, h, init_made)) (v.forest.oldest x h);
    below = λ j x h. elim (children_forked j x h) [
      | inl old ↦ v.forest.below j x old
      | inr (at, new) ↦ omega (arith, at, new, made)
    ];
    parents = λ j x h. elim (children_forked j x h) [
      | inl old ↦ kept parent_of refl x (old_child j x old) ∙ v.forest.parents j x old
      | inr (at, new) ↦
          ap (λ y. parent_of (forked y)) new
          ∙ ap parent_of forked_fresh
          ∙ child_parent
          ∙ ap some (sym at)
    ];
    childless = λ x dead. elim (ℕ_discrete s.fresh x) [
      | yes e ↦
          absurd (
            omega
              (arith, dead, ap (λ y. live (forked y)) (sym e), ap live forked_fresh, child_live))
      | no ne ↦
          let was = sym (kept live refl x ne) ∙ dead in
          let apart : i ≢ x = λ e.
            let same = ap (λ y. live (s.tasks y)) e in
            omega (arith, ap live at_i, live_i, same, was) in
          ap children_of (
            set_task_ne added i x (some with_child) apart
            ∙ set_task_ne s.tasks s.fresh x (some child) ne)
          ∙ v.forest.childless x was
    ];
    pids_valid = valid;
    pid_alive = λ x p e. elim (forked_pid x p e) [
      | inl (new, same) ↦ subst (PidsInvariant.IsAlive pids') (sym same) used
      | inr (ne, old, apart) ↦ (others p apart).0 (v.forest.pid_alive x p old)
    ];
    pid_unique = λ x y p e e'. elim (forked_pid x p e) [
      | inl (new, same) ↦ elim (forked_pid y p e') [
        | inl (new', same') ↦ sym new ∙ new'
        | inr (ne, old, apart) ↦ absurd (apart same)
      ]
      | inr (ne, old, apart) ↦ elim (forked_pid y p e') [
        | inl (new', same') ↦ absurd (apart same')
        | inr (ne', old', apart') ↦ v.forest.pid_unique x y p old old'
      ]
    ];
  }

  live-forked : (x : ℕ) → live (forked x) ≡ live (s.tasks x) + (if s.fresh == x then 1 else 0)
  live-forked x = elim (ℕ_discrete s.fresh x) [
    | yes e ↦
        let self = if_true {A = ℕ} 1 0 (eq→== s.fresh x e) in
        omega (
          arith,
          self,
          child_live,
          ap (λ y. live (forked y)) (sym e),
          ap live forked_fresh,
          ap (λ y. live (s.tasks y)) (sym e),
          ap live unmade,
        )
    | no ne ↦ omega (arith, kept live refl x ne, if_false {A = ℕ} 1 0 (ne→not-== s.fresh x ne))
  ]

  -- The system after `fork` and `add_task` of the child.
  abbrev pub after_fork : PidAllocator → W → System A W
  after_fork pids' w = record s {
    tasks = forked;
    fresh = s.fresh + 1;
    ready_queue = s.ready_queue ++ (s.fresh ∷ []);
    pid_to_task = insert pid s.fresh s.pid_to_task;
    pids = pids';
    world = w;
  }

  pub after_fork-IsValid :
      (pids' : PidAllocator) (w : W)
      → PidsInvariant.IsValid pids'
      → PidsInvariant.Adds s.pids pid pids'
      → IsValid (after_fork pids' w)
  after_fork-IsValid pids' w valid adds = record {
    forest = forked-IsForest pids' valid adds;
    runs = λ x. omega (
      arith,
      count-append x s.ready_queue (s.fresh ∷ []),
      count-singleton x s.fresh,
      v.runs x,
      live-forked x,
    );
    known = λ x. omega (
      arith,
      count-insert_new pid s.fresh s.pid_to_task x
          (keys_ne s.tasks pid s.pid_to_task new_pid v.keys),
      v.known x,
      live-forked x,
    );
    keys =
        insert-KeysAgree forked pid s.fresh s.pid_to_task
          (KeysAgree-ext s.tasks forked s.pid_to_task
            (λ x h. kept pid_of refl x (λ e.
              omega (arith, h, v.known x, ap (λ y. live (s.tasks y)) (sym e), ap live unmade)))
            v.keys)
          (ap pid_of forked_fresh ∙ ap some child_pid);
  }
