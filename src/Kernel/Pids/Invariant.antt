-- ===== src/Kernel/Pids/Invariant.antt =====
-- src/os/src/task/pid.rs: no two living processes have the same pid.
use project_r_core.Common.{
  ℕ, ◌+◌, ◌^◌, ◌≤◌, ◌<◌, ◌≡◌, refl, ◌≢◌, ◌⊎◌, inl, inr, false, none, some, List, [], ◌∷◌, arith,
  mem_b, ltb, All, IsDistinct, Bool-cases,
}
use project_r_core.Kernel.Pids.{PidAllocator, new, alloc, dealloc}

-- The pids that were handed out and have not come back.
abbrev pub IsAlive : PidAllocator → ℕ → Type 0
IsAlive a pid = (pid < a.current) × (mem_b pid a.recycled ≡ false)

pub record IsValid (a : PidAllocator) : Type 0 where
  pub below : All (λ pid. pid < a.current) a.recycled
  pub distinct : IsDistinct a.recycled

All-mono : (m n : ℕ) (xs : List ℕ) → m ≤ n → All (λ x. x < m) xs → All (λ x. x < n) xs
All-mono m n [] h all = tt
All-mono m n (x ∷ xs) h all = (omega arith, All-mono m n xs h all.1)

not-mem_b : (n : ℕ) (xs : List ℕ) → All (λ x. x < n) xs → mem_b n xs ≡ false
not-mem_b n [] all = refl
not-mem_b n (x ∷ xs) all = ground (arith, not-mem_b n xs all.1)

pub new-IsValid : IsValid new
unfolding new
new-IsValid = record { below = tt; distinct = tt }

alloc_cases-IsValid :
    (current : ℕ) (recycled : List ℕ)
    → let a : PidAllocator = record { current = current; recycled = recycled } in
      IsValid a → IsValid (alloc a).1
unfolding alloc
alloc_cases-IsValid current [] v = record { below = tt; distinct = tt }
alloc_cases-IsValid current (pid ∷ rest) v = record { below = v.below.1; distinct = v.distinct.1 }

pub alloc-IsValid : (a : PidAllocator) → IsValid a → IsValid (alloc a).1
alloc-IsValid a v = alloc_cases-IsValid a.current a.recycled v

-- What `alloc` does to the living pids: the new one was not among them, and is the only change.
abbrev pub Adds : PidAllocator → ℕ → PidAllocator → Type 0
Adds a pid b =
    ¬ IsAlive a pid
    × IsAlive b pid
    × ((other : ℕ)
        → other ≢ pid
        → (IsAlive a other → IsAlive b other) × (IsAlive b other → IsAlive a other))

alloc_cases-Adds :
    (current : ℕ) (recycled : List ℕ)
    → let a : PidAllocator = record { current = current; recycled = recycled } in
      IsValid a → current + 1 < 2 ^ 64 → Adds a (alloc a).0 (alloc a).1
unfolding alloc
alloc_cases-Adds current [] v h =
    (ground arith, ground arith, λ other ne. (ground arith, ground arith))
alloc_cases-Adds current (pid ∷ rest) v h =
    (ground arith, ground arith, λ other ne. (ground arith, ground arith))

-- As long as the counter of fresh pids does not wrap, `alloc` hands out a pid that no living process
-- has, and leaves the other living pids alone.
pub alloc-Adds :
    (a : PidAllocator) → IsValid a → a.current + 1 < 2 ^ 64 → Adds a (alloc a).0 (alloc a).1
alloc-Adds a v h = alloc_cases-Adds a.current a.recycled v h

-- `dealloc` succeeds on living pids only: anything else fails an assertion. It ends the life of
-- that pid and of no other, and keeps the invariant.
pub dealloc_lem :
    (a : PidAllocator) (pid : ℕ)
    → IsValid a
    → (IsAlive a pid × ((b : PidAllocator) × (dealloc a pid ≡ some b) × IsValid b × Adds b pid a))
      ⊎ (¬ IsAlive a pid × (dealloc a pid ≡ none))
unfolding dealloc
dealloc_lem a pid v = elim (Bool-cases (ltb pid a.current)) [
  | inl used ↦ elim (Bool-cases (mem_b pid a.recycled)) [
    | inl free ↦ inr (ground arith, ground arith)
    | inr alive ↦ inl (
      (ground arith, alive),
      (
        record a { recycled = pid ∷ a.recycled },
        ground arith,
        record { below = (ground arith, v.below); distinct = (alive, v.distinct) },
        (ground arith, ground arith, λ other ne. (ground arith, ground arith)),
      ),
    )
  ]
  | inr unused ↦ inr (ground arith, ground arith)
]
