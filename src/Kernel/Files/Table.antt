-- ===== src/Kernel/Files/Table.antt =====
-- src/os/src/task/task.rs and src/os/src/syscall/fs.rs: what a descriptor of the table names.
use project_r_core.Common.{
  ℕ, zero, suc, ◌+◌, ◌-◌, ◌≤◌, ◌<◌, ◌≡◌, refl, ◌≢◌, ◌⊎◌, inl, inr, ◌∙◌, ap, subst, arith, Option,
  none, some, List, [], ◌∷◌, ◌++◌, length, length-append, set, Option-cases,
}
use project_r_core.Kernel.Files.{find_free, alloc_fd, install, get_file, sys_dup}

module _ {A : Type 0} where
  -- `fd` is the lowest free descriptor.
  pub record IsLowestFree (table : List (Option A)) (fd : ℕ) : Type 0 where
    pub free : get_file fd table ≡ none
    pub lower : (i : ℕ) → i < fd → get_file i table ≢ none

  pub record Installs (f : A) (table : List (Option A)) (fd : ℕ) (table' : List (Option A))
      : Type 0 where
    pub lowest : IsLowestFree table fd
    pub named : get_file fd table' ≡ some f
    pub others : (i : ℕ) → i ≢ fd → get_file i table' ≡ get_file i table

  get_file-set_self :
      (table : List (Option A)) (fd : ℕ) (f : Option A)
      → fd < length table
      → get_file fd (set table fd f) ≡ f
  unfolding get_file
  get_file-set_self [] fd f h = absurd (omega arith)
  get_file-set_self (x ∷ xs) zero f h = refl
  get_file-set_self (x ∷ xs) (suc fd) f h = get_file-set_self xs fd f (omega arith)

  get_file-set_ne :
      (table : List (Option A)) (fd i : ℕ) (f : Option A)
      → i ≢ fd
      → get_file i (set table fd f) ≡ get_file i table
  unfolding get_file
  get_file-set_ne [] fd i f h = refl
  get_file-set_ne (x ∷ xs) zero zero f h = absurd (h refl)
  get_file-set_ne (x ∷ xs) zero (suc i) f h = refl
  get_file-set_ne (x ∷ xs) (suc fd) zero f h = refl
  get_file-set_ne (x ∷ xs) (suc fd) (suc i) f h = get_file-set_ne xs fd i f (λ e. h (ap suc e))

  get_file-append :
      (table : List (Option A)) (i : ℕ) → get_file i (table ++ (none ∷ [])) ≡ get_file i table
  unfolding get_file
  get_file-append [] zero = refl
  get_file-append [] (suc i) = refl
  get_file-append (x ∷ xs) zero = refl
  get_file-append (x ∷ xs) (suc i) = get_file-append xs i

  get_file-end : (table : List (Option A)) (i : ℕ) → length table ≤ i → get_file i table ≡ none
  unfolding get_file
  get_file-end [] i h = refl
  get_file-end (x ∷ xs) zero h = absurd (omega arith)
  get_file-end (x ∷ xs) (suc i) h = get_file-end xs i (omega arith)

  -- The search from descriptor `at` on, at the front of `table`.
  abbrev Searched : ℕ → List (Option A) → Option ℕ → Type 0
  Searched at table none = (i : ℕ) → i < length table → get_file i table ≢ none
  Searched at table (some fd) =
      (k : ℕ) × (fd ≡ at + k)
      × (k < length table)
      × (get_file k table ≡ none)
      × ((i : ℕ) → i < k → get_file i table ≢ none)

  search_on :
      (at : ℕ) (f : A) (table : List (Option A)) (r : Option ℕ)
      → Searched (at + 1) table r
      → Searched at (some f ∷ table) r
  unfolding get_file
  search_on at f table none h = λ i lt. used i lt
    where
      used : (i : ℕ) → i < suc (length table) → get_file i (some f ∷ table) ≢ none
      used zero lt = λ e. cc
      used (suc i) lt = h i (omega arith)
  search_on at f table (some fd) (k, e, inside, free, lower) =
      (suc k, omega (arith, e), omega arith, free, λ i lt. used i lt)
    where
      used : (i : ℕ) → i < suc k → get_file i (some f ∷ table) ≢ none
      used zero lt = λ e. cc
      used (suc i) lt = lower i (omega arith)

  find_free-Searched : (table : List (Option A)) (at : ℕ) → Searched at table (find_free table at)
  unfolding find_free get_file
  find_free-Searched [] at = λ i lt. absurd (omega arith)
  find_free-Searched (none ∷ files) at =
      (0, omega arith, omega arith, refl, λ i lt. absurd (omega arith))
  find_free-Searched (some f ∷ files) at =
      search_on at f files (find_free files (at + 1)) (find_free-Searched files (at + 1))

  -- A new descriptor is the lowest that is free, whether the table has room or grows; afterwards it names
  -- the file, and every other descriptor what it named before.
  pub install-Installs :
      (f : A) (table : List (Option A)) → Installs f table (install f table).0 (install f table).1
  unfolding install alloc_fd
  install-Installs f table = split (find_free table 0) (find_free-Searched table 0)
    where
      split :
          (r : Option ℕ)
          → Searched 0 table r
          → let slot : ℕ × List (Option A) = elim r [
            | some fd ↦ (fd, table)
            | none ↦ (length (table ++ (none ∷ [])) - 1, table ++ (none ∷ []))
          ] in
            Installs f table slot.0 (set slot.1 slot.0 (some f))
      split (some fd) (k, e, inside, free, lower) =
          let same : k ≡ fd = omega (arith, e) in
          record {
            lowest = record {
              free = subst (λ i. get_file i table ≡ none) same free;
              lower = λ i lt. lower i (omega (arith, same));
            };
            named = get_file-set_self table fd (some f) (omega (arith, same));
            others = λ i ne. get_file-set_ne table fd i (some f) ne;
          }
      split none used =
          let len = length-append table (none ∷ []) in
          record {
            lowest = record {
              free = get_file-end table (length (table ++ (none ∷ [])) - 1) (omega (arith, len));
              lower = λ i lt. used i (omega (arith, len));
            };
            named =
                get_file-set_self (table ++ (none ∷ [])) (length (table ++ (none ∷ [])) - 1)
                  (some f) (omega (arith, len));
            others = λ i ne.
                get_file-set_ne (table ++ (none ∷ [])) (length (table ++ (none ∷ [])) - 1) i
                  (some f) ne
                ∙ get_file-append table i;
          }

  -- `sys_dup` of an open descriptor returns another one that names the same file, the lowest that is
  -- free, and leaves the others as they are; of one that is not open, or out of range, it fails.
  pub sys_dup-Installs :
      (fd : ℕ) (table : List (Option A))
      → ((f : A) × (get_file fd table ≡ some f)
          × (new_fd : ℕ) × (table' : List (Option A)) × (sys_dup fd table ≡ some (new_fd, table'))
          × Installs f table new_fd table'
          × (get_file fd table' ≡ some f))
        ⊎ ((get_file fd table ≡ none) × (sys_dup fd table ≡ none))
  unfolding sys_dup
  sys_dup-Installs fd table = elim (Option-cases (get_file fd table)) [
    | inl closed ↦ inr (closed, rw closed refl)
    | inr (f, opened) ↦
        let x = install-Installs f table in
        inl (
          f,
          opened,
          (install f table).0,
          (install f table).1,
          rw opened refl,
          x,
          x.others fd (λ e. let free = x.lowest.free in let at = ap (λ i. get_file i table) e in cc)
              ∙ opened,
        )
  ]
