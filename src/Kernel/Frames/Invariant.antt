-- ===== src/Kernel/Frames/Invariant.antt =====
-- src/os/src/mm/frame_allocator.rs: a frame has one owner, and lies in the region given to `init`.
use project_r_core.Common.{
  ℕ, ◌+◌, ◌^◌, ◌≤◌, ◌<◌, ◌≡◌, refl, ◌≢◌, ◌⊎◌, inl, inr, false, Option, none, some, List, [], ◌∷◌,
  arith, length, mem_b, leb, All, IsDistinct, Bool-cases, ℕ_discrete, eq→==, ne→not-==, not-leb→lt,
  ◌∙◌, ◌-◌, ◌%◌, ◌||◌,
}
use project_r_core.Common.Bytes.{Bytes}
use project_r_core.Kernel.Address.{phys_page_num_from, floor}
use project_r_core.Kernel.Address.Fields.{phys_page_num_from_mod}
use project_r_core.Kernel.Frames.{
  StackFrameAllocator, alloc, dealloc, clear_frame, track, Machine, frame_alloc,
}

-- `start` is the page number that `init` was given, which the allocator does not keep.
pub record IsValid (start : ℕ) (a : StackFrameAllocator) : Type 0 where
  pub from_start : start ≤ a.current
  pub to_end : a.current ≤ a.end
  pub narrow : a.end < 2 ^ 44
  pub inside : All (λ ppn. (start ≤ ppn) × (ppn < a.current)) a.recycled
  pub distinct : IsDistinct a.recycled

-- A frame of the region that was handed out and has not come back.
abbrev pub IsUsed : ℕ → StackFrameAllocator → ℕ → Type 0
IsUsed start a ppn = (start ≤ ppn) × (ppn < a.current) × (mem_b ppn a.recycled ≡ false)

All-mono :
    (start m n : ℕ) (xs : List ℕ)
    → m ≤ n
    → All (λ x. (start ≤ x) × (x < m)) xs
    → All (λ x. (start ≤ x) × (x < n)) xs
All-mono start m n [] h all = tt
All-mono start m n (x ∷ xs) h all = ((all.0.0, omega arith), All-mono start m n xs h all.1)

-- What `alloc` does to the used frames: the new one was not among them, and is the only change.
abbrev pub Adds : ℕ → StackFrameAllocator → ℕ → StackFrameAllocator → Type 0
Adds start a ppn b =
    ¬ IsUsed start a ppn
    × IsUsed start b ppn
    × ((other : ℕ)
        → other ≢ ppn
        → (IsUsed start a other → IsUsed start b other)
          × (IsUsed start b other → IsUsed start a other))

abbrev pub Allocates : ℕ → StackFrameAllocator → Option ℕ × StackFrameAllocator → Type 0
Allocates start a (none, b) = (b ≡ a) × ((ppn : ℕ) → start ≤ ppn → ppn < a.end → IsUsed start a ppn)
Allocates start a (some ppn, b) = IsValid start b × (ppn < a.end) × Adds start a ppn b

-- The masks and the wrap of the counter do nothing below 2 ^ 44.
narrow_lem : (n : ℕ) → n < 2 ^ 44 → phys_page_num_from n ≡ n
narrow_lem n h = omega (arith, phys_page_num_from_mod n)

alloc_cases :
    (start current end : ℕ) (recycled : List ℕ)
    → let a : StackFrameAllocator = record { current = current; end = end; recycled = recycled } in
      IsValid start a → Allocates start a (alloc a)
unfolding alloc
alloc_cases start current end [] v = elim (ℕ_discrete current end) [
  | yes none_left ↦ rw (eq→== current end none_left) (refl, λ ppn lo hi. (lo, omega arith, refl))
  | no some_left ↦
      let same : phys_page_num_from (current + 1 - 1) ≡ current =
        narrow_lem (current + 1 - 1) (omega arith) ∙ omega arith in
      let next : (current + 1) % 2 ^ 64 ≡ current + 1 = omega arith in
      rw (ne→not-== current end some_left, same, next)
        (
          record {
            from_start = omega arith;
            to_end = omega arith;
            narrow = v.narrow;
            inside = tt;
            distinct = tt;
          },
          omega arith,
          (
            λ u. omega arith,
            (omega arith, omega arith, refl),
            λ other ne. (ground arith, ground arith),
          ),
        )
]
alloc_cases start current end (ppn ∷ rest) v =
    let same : phys_page_num_from ppn ≡ ppn = narrow_lem ppn (omega arith) in
    rw same (
      record {
        from_start = v.from_start;
        to_end = v.to_end;
        narrow = v.narrow;
        inside = v.inside.1;
        distinct = v.distinct.1;
      },
      omega arith,
      (ground arith, ground arith, λ other ne. (ground arith, ground arith)),
    )

-- `alloc` fails only if every frame of the region is used, and then changes nothing. Otherwise it
-- hands out an unused frame of the region, leaves the others alone and keeps the invariant.
pub alloc-Allocates :
    (start : ℕ) (a : StackFrameAllocator) → IsValid start a → Allocates start a (alloc a)
alloc-Allocates start a v = alloc_cases start a.current a.end a.recycled v

-- Giving back a frame of the region succeeds if it is used, and makes it the only one that is not
-- used any more; a frame that is not used is a panic, so that no frame is given back twice.
pub dealloc-IsUsed :
    (start : ℕ) (a : StackFrameAllocator) (ppn : ℕ)
    → IsValid start a
    → start ≤ ppn
    → (IsUsed start a ppn
        × ((b : StackFrameAllocator) × (dealloc a ppn ≡ some b)
            × IsValid start b
            × Adds start b ppn a))
      ⊎ (¬ IsUsed start a ppn × (dealloc a ppn ≡ none))
unfolding dealloc
dealloc-IsUsed start a ppn v h = elim (Bool-cases (leb a.current ppn)) [
  | inl unused ↦ inr (ground arith, ground arith)
  | inr below ↦ elim (Bool-cases (mem_b ppn a.recycled)) [
    | inl free ↦ inr (ground arith, ground arith)
    | inr used ↦ inl (
      (h, not-leb→lt _ _ below, used),
      (
        record a { recycled = ppn ∷ a.recycled },
        ground arith,
        record {
          from_start = v.from_start;
          to_end = v.to_end;
          narrow = v.narrow;
          inside = ((h, not-leb→lt _ _ below), v.inside);
          distinct = (used, v.distinct);
        },
        (ground arith, (h, not-leb→lt _ _ below, used), λ other ne. (ground arith, ground arith)),
      ),
    )
  ]
]

not-mem_b :
    (start m ppn : ℕ) (xs : List ℕ)
    → All (λ x. (start ≤ x) × (x < m)) xs
    → ppn < start
    → mem_b ppn xs ≡ false
not-mem_b start m ppn [] all h = refl
not-mem_b start m ppn (x ∷ xs) all h = ground (arith, not-mem_b start m ppn xs all.1)

-- The check of `dealloc` does not know where the region starts: the number of a page below it (of
-- the kernel's own text, say) is taken, and is the next frame that `alloc` hands out.
pub dealloc_below :
    (start : ℕ) (a : StackFrameAllocator) (ppn : ℕ)
    → IsValid start a
    → ppn < start
    → (b : StackFrameAllocator) × (dealloc a ppn ≡ some b) × (alloc b ≡ (some ppn, a))
unfolding dealloc alloc
dealloc_below start a ppn v h =
    let known : ppn < a.current = omega arith in
    (
      record a { recycled = ppn ∷ a.recycled },
      ground (arith, not-mem_b start a.current ppn a.recycled),
      rw (narrow_lem ppn (omega arith)),
    )

clear_frame-inside : (ppn at : ℕ) (mem : Bytes) → floor at ≡ ppn → clear_frame ppn mem at ≡ 0
unfolding clear_frame
clear_frame-inside ppn at mem e = ground arith

clear_frame-outside : (ppn at : ℕ) (mem : Bytes) → floor at ≢ ppn → clear_frame ppn mem at ≡ mem at
unfolding clear_frame
clear_frame-outside ppn at mem e = ground arith

abbrev pub Gives : ℕ → Machine → Option ℕ × Machine → Type 0
Gives start m r =
    ((r.0 ≡ none)
      × (r.1 ≡ m)
      × ((ppn : ℕ) → start ≤ ppn → ppn < m.allocator.end → IsUsed start m.allocator ppn))
    ⊎ ((ppn : ℕ) × (r.0 ≡ some ppn)
        × (ppn < m.allocator.end)
        × IsValid start r.1.allocator
        × Adds start m.allocator ppn r.1.allocator
        × ((at : ℕ) → floor at ≡ ppn → r.1.mem at ≡ 0)
        × ((at : ℕ) → floor at ≢ ppn → r.1.mem at ≡ m.mem at))

track-Gives :
    (start : ℕ) (m : Machine) (r : Option ℕ × StackFrameAllocator)
    → Allocates start m.allocator r
    → Gives start m (track m r)
unfolding track
track-Gives start m (none, b) (same, used) = inl (refl, rw same refl, used)
track-Gives start m (some ppn, b) (v, h, adds) = inr (
  ppn,
  refl,
  h,
  v,
  adds,
  (λ at k. clear_frame-inside ppn at m.mem k),
  (λ at k. clear_frame-outside ppn at m.mem k),
)

-- `frame_alloc` hands out a frame of the region that nobody uses, with every byte of it 0 and no
-- other byte of memory changed; it fails only if every frame is used.
pub frame_alloc_lem :
    (start : ℕ) (m : Machine) → IsValid start m.allocator → Gives start m (frame_alloc m)
unfolding frame_alloc
frame_alloc_lem start m v =
    track-Gives start m (alloc m.allocator) (alloc-Allocates start m.allocator v)

-- The frames that `alloc` can still hand out.
abbrev pub free : StackFrameAllocator → ℕ
free a = length a.recycled + (a.end - a.current)

free_cases :
    (start current end : ℕ) (recycled : List ℕ)
    → let a : StackFrameAllocator = record { current = current; end = end; recycled = recycled } in
      IsValid start a → 0 < free a → ((alloc a).0 ≢ none) × (free (alloc a).1 + 1 ≡ free a)
unfolding alloc
free_cases start current end [] v h =
    let some_left : current ≢ end = omega arith in
    rw (ne→not-== current end some_left) ((λ e. cc), omega arith)
free_cases start current end (ppn ∷ rest) v h = ((λ e. cc), omega arith)

track-none : (m : Machine) (r : Option ℕ × StackFrameAllocator) → r.0 ≢ none → (track m r).0 ≢ none
unfolding track
track-none m (none, a) ne = ne
track-none m (some ppn, a) ne = λ e. cc

track-allocator : (m : Machine) (r : Option ℕ × StackFrameAllocator) → (track m r).1.allocator ≡ r.1
unfolding track
track-allocator m (none, a) = refl
track-allocator m (some ppn, a) = refl

-- While frames are left, `frame_alloc` succeeds and takes one.
pub frame_alloc_free :
    (start : ℕ) (m : Machine)
    → IsValid start m.allocator
    → 0 < free m.allocator
    → ((frame_alloc m).0 ≢ none) × (free (frame_alloc m).1.allocator + 1 ≡ free m.allocator)
unfolding frame_alloc
frame_alloc_free start m v h =
    let (got, left) =
      free_cases start m.allocator.current m.allocator.end m.allocator.recycled v h in
    (track-none m (alloc m.allocator) got, rw (track-allocator m (alloc m.allocator)) left)

-- A frame that is given back can be handed out.
pub dealloc_free :
    (a : StackFrameAllocator) (ppn : ℕ) (b : StackFrameAllocator)
    → dealloc a ppn ≡ some b
    → free b ≡ free a + 1
unfolding dealloc
dealloc_free a ppn b e = elim (Bool-cases (leb a.current ppn || mem_b ppn a.recycled)) [
  | inl refused ↦ absurd (ground arith)
  | inr ok ↦
      let same : record a { recycled = ppn ∷ a.recycled } ≡ b = ground arith in
      rw (← same) (omega arith)
]
