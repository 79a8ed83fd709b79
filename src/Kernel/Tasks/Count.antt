-- ===== src/Kernel/Tasks/Count.antt =====
-- How often the lists of src/os/src/task/ hold an `Arc`: the children of tasks, and the map from pids.
use project_r_core.Common.{
  ℕ, zero, suc, ◌+◌, ◌≤◌, ◌<◌, ◌≡◌, refl, ◌≢◌, ◌⊎◌, inl, inr, ◌∙◌, ap, sym, subst, arith, Bool,
  true, false, Option, none, some, List, [], ◌∷◌, ◌++◌, ◌==◌, if◌then◌else◌, All, Bool-cases,
  ℕ_discrete, ne→not-==, ==→eq, not-==→ne, dec_lt,
}
use project_r_core.Kernel.Tasks.{
  TaskControlBlock, count, values, insert, get, remove, take_first, set_task, children_of, edges,
}

pub count-nil : (x : ℕ) → count x [] ≡ 0
unfolding count
count-nil x = refl

pub count-append : (a : ℕ) (xs ys : List ℕ) → count a (xs ++ ys) ≡ count a xs + count a ys
unfolding count
count-append a [] ys = omega arith
count-append a (x ∷ xs) ys = omega (arith, count-append a xs ys)

pub count-singleton : (a x : ℕ) → count a (x ∷ []) ≡ (if x == a then 1 else 0)
unfolding count
count-singleton a x = omega arith

pub count-insert_new :
    (p i : ℕ) (m : List (ℕ × ℕ)) (x : ℕ)
    → All (λ e. e.0 ≢ p) m
    → count x (values (insert p i m)) ≡ count x (values m) + (if i == x then 1 else 0)
unfolding insert count
count-insert_new p i [] x h = omega arith
count-insert_new p i ((q, j) ∷ m) x h =
    rw (ne→not-== q p h.0) (omega (arith, count-insert_new p i m x h.1))

-- `take_first` finds the first element that satisfies the test, if there is one, and leaves the others.
pub take_first_lem :
    (p : ℕ → Bool) (xs : List ℕ)
    → ((take_first p xs ≡ none) × ((c : ℕ) → 0 < count c xs → p c ≡ false))
      ⊎ ((c : ℕ) × (rest : List ℕ) × (take_first p xs ≡ some (c, rest))
          × (p c ≡ true)
          × ((x : ℕ) → count x xs ≡ count x rest + (if c == x then 1 else 0)))
unfolding take_first count
take_first_lem p [] = inl (refl, λ c h. absurd (omega arith))
take_first_lem p (x ∷ xs) = elim (Bool-cases (p x)) [
  | inl found ↦ inr (x, xs, rw found refl, found, λ y. omega arith)
  | inr other ↦ elim (take_first_lem p xs) [
    | inl (e, all) ↦ inl (
      rw (other, e) refl,
      λ c h. elim (Bool-cases (x == c)) [
        | inl same ↦ subst (λ y. p y ≡ false) (==→eq x c same) other
        | inr ne ↦ all c (ground arith)
      ],
    )
    | inr (c, rest, e, found, counts) ↦
        inr (c, x ∷ rest, rw (other, e) refl, found, λ y. omega (arith, counts y))
  ]
]

module _ {A : Type 0} where
  pub set_task_self :
      (tasks : ℕ → Option (TaskControlBlock A)) (i : ℕ) (t : Option (TaskControlBlock A))
      → set_task tasks i t i ≡ t
  unfolding set_task
  set_task_self tasks i t = if_self i
    where
      if_self : (j : ℕ) → (if j == j then t else tasks i) ≡ t
      if_self j = ground arith

  pub set_task_ne :
      (tasks : ℕ → Option (TaskControlBlock A)) (i j : ℕ) (t : Option (TaskControlBlock A))
      → i ≢ j
      → set_task tasks i t j ≡ tasks j
  unfolding set_task
  set_task_ne tasks i j t ne = rw (ne→not-== i j ne) refl

  -- What holds of the new task and of the old ones holds of all.
  pub set_task_all :
      (P : ℕ → Option (TaskControlBlock A) → Type 0) (tasks : ℕ → Option (TaskControlBlock A))
      (i : ℕ) (t : Option (TaskControlBlock A))
      → P i t
      → ((j : ℕ) → i ≢ j → P j (tasks j))
      → (j : ℕ) → P j (set_task tasks i t j)
  set_task_all P tasks i t here there j = elim (ℕ_discrete i j) [
    | yes e ↦ subst (λ k. P k (set_task tasks i t k)) e (rw (set_task_self tasks i t) here)
    | no ne ↦ rw (set_task_ne tasks i j t ne) (there j ne)
  ]

  pub edges-set_task_out :
      (tasks : ℕ → Option (TaskControlBlock A)) (j n c : ℕ) (t : Option (TaskControlBlock A))
      → n ≤ j
      → edges (set_task tasks j t) n c ≡ edges tasks n c
  unfolding edges
  edges-set_task_out tasks j zero c t h = refl
  edges-set_task_out tasks j (suc n) c t h = rw (set_task_ne tasks j n t (omega arith)) (
      ap (λ e. count c (children_of (tasks n)) + e)
        (edges-set_task_out tasks j n c t (omega arith)))

  edges-set_task_last :
      (tasks : ℕ → Option (TaskControlBlock A)) (n c : ℕ) (t : Option (TaskControlBlock A))
      → edges (set_task tasks n t) (suc n) c + count c (children_of (tasks n))
        ≡ edges tasks (suc n) c + count c (children_of t)
  unfolding edges
  edges-set_task_last tasks n c t =
      rw (set_task_self tasks n t) (omega (arith, edges-set_task_out tasks n n c t (omega arith)))

  pub edges-set_task :
      (tasks : ℕ → Option (TaskControlBlock A)) (j n c : ℕ) (t : Option (TaskControlBlock A))
      → j < n
      → edges (set_task tasks j t) n c + count c (children_of (tasks j))
        ≡ edges tasks n c + count c (children_of t)
  unfolding edges
  edges-set_task tasks j zero c t h = absurd (omega arith)
  edges-set_task tasks j (suc n) c t h = elim (ℕ_discrete j n) [
    | yes e ↦
        subst
          (λ k.
            edges (set_task tasks k t) (suc n) c + count c (children_of (tasks k))
            ≡ edges tasks (suc n) c + count c (children_of t))
          (sym e) (edges-set_task_last tasks n c t)
    | no ne ↦
        rw (set_task_ne tasks j n t ne) (omega (arith, edges-set_task tasks j n c t (omega arith)))
  ]

  pub count-le-edges :
      (tasks : ℕ → Option (TaskControlBlock A)) (j n c : ℕ)
      → j < n
      → count c (children_of (tasks j)) ≤ edges tasks n c
  unfolding edges
  count-le-edges tasks j zero c h = absurd (omega arith)
  count-le-edges tasks j (suc n) c h = elim (ℕ_discrete j n) [
    | yes e ↦ rw e (omega arith)
    | no ne ↦ omega (arith, count-le-edges tasks j n c (omega arith))
  ]

  -- Two tasks hold no more than all.
  pub two-le-edges :
      (tasks : ℕ → Option (TaskControlBlock A)) (i j n c : ℕ)
      → i < n
      → j < n
      → i ≢ j
      → count c (children_of (tasks i)) + count c (children_of (tasks j)) ≤ edges tasks n c
  unfolding edges
  two-le-edges tasks i j zero c hi hj ne = absurd (omega arith)
  two-le-edges tasks i j (suc n) c hi hj ne = elim (ℕ_discrete i n) [
    | yes e ↦
        let last = ap (λ k. count c (children_of (tasks k))) e in
        omega (arith, last, count-le-edges tasks j n c (omega arith))
    | no ne' ↦ elim (ℕ_discrete j n) [
      | yes e ↦
          let last = ap (λ k. count c (children_of (tasks k))) e in
          omega (arith, last, count-le-edges tasks i n c (omega arith))
      | no ne'' ↦ omega (arith, two-le-edges tasks i j n c (omega arith) (omega arith) ne)
    ]
  ]

  -- A task with the same children.
  pub edges-set_task_same :
      (tasks : ℕ → Option (TaskControlBlock A)) (j n c : ℕ) (t : Option (TaskControlBlock A))
      → children_of t ≡ children_of (tasks j)
      → edges (set_task tasks j t) n c ≡ edges tasks n c
  edges-set_task_same tasks j n c t e = elim (dec_lt j n) [
    | yes inside ↦ omega (arith, edges-set_task tasks j n c t inside, ap (count c) e)
    | no outside ↦ edges-set_task_out tasks j n c t (omega arith)
  ]

  abbrev pub pid_of : Option (TaskControlBlock A) → Option ℕ
  pid_of none = none
  pid_of (some t) = some t.pid

  -- Each key of the map is the pid of the task under it.
  abbrev pub KeysAgree : (ℕ → Option (TaskControlBlock A)) → List (ℕ × ℕ) → Type 0
  KeysAgree tasks m = All (λ e. pid_of (tasks e.1) ≡ some e.0) m

  -- A task that is in the map stands under its pid.
  pub insert_again :
      (tasks : ℕ → Option (TaskControlBlock A)) (p i : ℕ) (m : List (ℕ × ℕ))
      → KeysAgree tasks m
      → pid_of (tasks i) ≡ some p
      → ((j : ℕ) → pid_of (tasks j) ≡ some p → j ≡ i)
      → 0 < count i (values m)
      → insert p i m ≡ m
  unfolding insert count
  insert_again tasks p i [] keys pid same h = absurd (omega arith)
  insert_again tasks p i ((q, j) ∷ m) keys pid same h = elim (Bool-cases (q == p)) [
    | inl e ↦ let at = same j (keys.0 ∙ ap some (==→eq q p e)) in rw (e, at, ==→eq q p e) refl
    | inr ne ↦ rw ne (
        ap (◌∷◌ (q, j)) (
          insert_again tasks p i m keys.1 pid same (elim (Bool-cases (j == i)) [
            | inl e ↦
                let other : some q ≡ some p =
                  sym keys.0 ∙ ap (λ x. pid_of (tasks x)) (==→eq j i e) ∙ pid in
                absurd (not-==→ne q p ne (cc))
            | inr off ↦ ground arith
          ])))
  ]

  pub insert-KeysAgree :
      (tasks : ℕ → Option (TaskControlBlock A)) (p i : ℕ) (m : List (ℕ × ℕ))
      → KeysAgree tasks m
      → pid_of (tasks i) ≡ some p
      → KeysAgree tasks (insert p i m)
  unfolding insert
  insert-KeysAgree tasks p i [] keys pid = (pid, tt)
  insert-KeysAgree tasks p i ((q, j) ∷ m) keys pid = elim (Bool-cases (q == p)) [
    | inl e ↦ rw e (pid, keys.1)
    | inr ne ↦ rw ne (keys.0, insert-KeysAgree tasks p i m keys.1 pid)
  ]

  pub remove-KeysAgree :
      (tasks : ℕ → Option (TaskControlBlock A)) (p : ℕ) (m : List (ℕ × ℕ))
      → KeysAgree tasks m
      → KeysAgree tasks (remove p m)
  unfolding remove
  remove-KeysAgree tasks p [] keys = tt
  remove-KeysAgree tasks p ((q, j) ∷ m) keys = elim (Bool-cases (q == p)) [
    | inl e ↦ rw e keys.1
    | inr ne ↦ rw ne (keys.0, remove-KeysAgree tasks p m keys.1)
  ]

  -- The map without a task that is in it.
  pub remove_known :
      (tasks : ℕ → Option (TaskControlBlock A)) (p i : ℕ) (m : List (ℕ × ℕ))
      → KeysAgree tasks m
      → pid_of (tasks i) ≡ some p
      → ((j : ℕ) → pid_of (tasks j) ≡ some p → j ≡ i)
      → 0 < count i (values m)
      → (get p m ≡ some i)
        × ((x : ℕ) → count x (values (remove p m)) + (if i == x then 1 else 0) ≡ count x (values m))
  unfolding get remove count
  remove_known tasks p i [] keys pid same h = absurd (omega arith)
  remove_known tasks p i ((q, j) ∷ m) keys pid same h = elim (Bool-cases (q == p)) [
    | inl e ↦
        let at = same j (keys.0 ∙ ap some (==→eq q p e)) in
        rw e (ap some at, λ x. rw at (omega arith))
    | inr ne ↦
        let (got, counts) = remove_known tasks p i m keys.1 pid same (elim (Bool-cases (j == i)) [
          | inl e ↦
              let other : some q ≡ some p =
                sym keys.0 ∙ ap (λ x. pid_of (tasks x)) (==→eq j i e) ∙ pid in
              absurd (not-==→ne q p ne (cc))
          | inr off ↦ ground arith
        ]) in
        rw ne (got, λ x. omega (arith, counts x))
  ]
