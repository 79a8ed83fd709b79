-- ===== src/Kernel/MapArea/Held.antt =====
-- The frames that an area of src/os/src/mm/memory_set.rs holds, and giving one back.
use project_r_core.Common.{
  ℕ, zero, suc, ◌+◌, ◌≤◌, ◌<◌, ◌≡◌, refl, ◌≢◌, inl, inr, ◌∙◌, ap, sym, subst, arith, none, some,
  List, [], ◌∷◌, All, eq→==, ne→not-==,
}
use project_r_core.Kernel.Frames.{Machine, StackFrameAllocator, frame_dealloc}
use project_r_core.Kernel.Frames.Invariant.{IsUsed, free, dealloc-IsUsed, dealloc_free}
use project_r_core.Kernel.PageTable.{PageTable}
use project_r_core.Kernel.PageTable.Tree.{Place}
use project_r_core.Kernel.PageTable.Walk.{lookup}
use project_r_core.Kernel.PageTable.Descend.{IsSound, IsData}
use project_r_core.Kernel.MapArea.Frames.{find}
use project_r_core.Kernel.MapArea.Pages.{IsRun}

-- The pages l, l + 1, …, n of them, are mapped, and the list has for each a frame of its own.
abbrev pub Held : ℕ → (ℕ → Place) → PageTable → Machine → ℕ → ℕ → List (ℕ × ℕ) → Type 0
Held start place t m l zero fs = fs ≡ []
Held start place t m l (suc n) [] = ⊥
Held start place t m l (suc n) ((page, frame) ∷ fs) =
    (page ≡ l)
    × (lookup t l m.mem ≢ none)
    × IsData start place m frame
    × All (λ x. x.1 ≢ frame) fs
    × Held start place t m (l + 1) n fs

-- They are held as long as their pages and frames stay as they are.
pub Held-later :
    (start : ℕ) (place : ℕ → Place) (t : PageTable) (m m' : Machine) (f l n : ℕ) (fs : List (ℕ × ℕ))
    → ((page : ℕ) → l ≤ page → page < l + n → lookup t page m'.mem ≡ lookup t page m.mem)
    → ((r : ℕ) → r ≢ f → IsData start place m r → IsData start place m' r)
    → All (λ x. x.1 ≢ f) fs
    → Held start place t m l n fs
    → Held start place t m' l n fs
Held-later start place t m m' f l zero fs same kept apart h = h
Held-later start place t m m' f l (suc n) [] same kept apart h = h
Held-later start place t m m' f l (suc n) ((page, frame) ∷ fs) same kept apart
      (e, mapped, d, ne, rest) =
    (
      e,
      (λ none_found. mapped (sym (same l (omega arith) (omega arith)) ∙ none_found)),
      kept frame apart.0 d,
      ne,
      Held-later start place t m m' f (l + 1) n fs
          (λ page lo hi. same page (omega arith) (omega arith)) kept apart.1 rest,
    )

find-head : (page f : ℕ) (fs : List (ℕ × ℕ)) → find page ((page, f) ∷ fs) ≡ some f
find-head page f fs = rw (eq→== page page refl) refl

find-tail : (p page f : ℕ) (fs : List (ℕ × ℕ)) → p ≢ page → find page ((p, f) ∷ fs) ≡ find page fs
find-tail p page f fs ne = rw (ne→not-== p page ne) refl

-- A frame that no page of a run has is none of its frames.
pub run_apart :
    (f n l : ℕ) (fs : List (ℕ × ℕ))
    → IsRun l n fs
    → ((page : ℕ) → l ≤ page → page < l + n → find page fs ≢ some f)
    → All (λ x. x.1 ≢ f) fs
run_apart f zero l fs run apart = rw run tt
run_apart f (suc n) l [] run apart = tt
run_apart f (suc n) l ((page, g) ∷ fs) (e, run) apart = (
  (λ same. apart page (omega arith) (omega arith) (find-head page g fs ∙ ap some same)),
  run_apart f n (l + 1) fs run (λ p lo hi found.
      apart p (omega arith) (omega arith) (find-tail page p g fs (omega arith) ∙ found)),
)

-- A run is held if each of its pages is mapped to a frame of its own.
pub run-Held :
    (start : ℕ) (place : ℕ → Place) (t : PageTable) (m : Machine) (n l : ℕ) (fs : List (ℕ × ℕ))
    → IsRun l n fs
    → ((page : ℕ)
        → l ≤ page
        → page < l + n
        → (ppn : ℕ) × (find page fs ≡ some ppn)
          × (lookup t page m.mem ≢ none)
          × IsData start place m ppn)
    → ((a b : ℕ) → l ≤ a → a < b → b < l + n → find a fs ≢ find b fs)
    → Held start place t m l n fs
run-Held start place t m zero l fs run backed apart = run
run-Held start place t m (suc n) l [] run backed apart = run
run-Held start place t m (suc n) l ((page, f) ∷ fs) (e, run) backed apart =
    let (ppn, found, mapped, d) = backed page (omega arith) (omega arith) in
    let head = find-head page f fs in
    let same : ppn ≡ f = cc in
    (
      e,
      subst (λ p. lookup t p m.mem ≢ none) e mapped,
      subst (IsData start place m) same d,
      run_apart f n (l + 1) fs run (λ p lo hi found'.
          apart page p (omega arith) (omega arith) (omega arith)
            (head ∙ sym (find-tail page p f fs (omega arith) ∙ found'))),
      run-Held start place t m n (l + 1) fs run
          (λ p lo hi.
            let (ppn', found', mapped', d') = backed p (omega arith) (omega arith) in
            (ppn', sym (find-tail page p f fs (omega arith)) ∙ found', mapped', d'))
          (λ a b lo ab hi eq.
            apart a b (omega arith) ab (omega arith) (
              find-tail page a f fs (omega arith)
              ∙ eq
              ∙ sym (find-tail page b f fs (omega arith)))),
    )

-- What giving back a frame of data has made of the memory: tables, bytes and other frames stay.
pub record GivesBack (start : ℕ) (place : ℕ → Place) (root f : ℕ) (m m' : Machine) : Type 0 where
  pub sound : IsSound start place root m'
  pub returned : ¬ IsUsed start m'.allocator f
  pub kept : (r : ℕ) → r ≢ f → IsUsed start m.allocator r → IsUsed start m'.allocator r
  pub shrinks : (r : ℕ) → IsUsed start m'.allocator r → IsUsed start m.allocator r
  pub gain : free m'.allocator ≡ free m.allocator + 1

pub frame_dealloc-GivesBack :
    (start : ℕ) (place : ℕ → Place) (root f : ℕ) (m : Machine)
    → IsSound start place root m
    → IsData start place m f
    → (a : StackFrameAllocator) × (frame_dealloc m f ≡ some (record m { allocator = a }))
      × GivesBack start place root f m (record m { allocator = a })
unfolding frame_dealloc
frame_dealloc-GivesBack start place root f m s d =
    elim (dealloc-IsUsed start m.allocator f s.valid d.0.0) [
      | inr (unused, failed) ↦ absurd (unused d.0)
      | inl (used, (b, e, v, (gone, was, others))) ↦ (
        b,
        rw e refl,
        record {
          sound = record {
            tree = s.tree;
            valid = v;
            owned = λ p inside. (others p (λ e'. inside (ap place e' ∙ d.1))).1 (s.owned p inside);
          };
          returned = gone;
          kept = λ r ne. (others r ne).1;
          shrinks = λ r u. (others r (λ e'. gone (subst (IsUsed start b) e' u))).0 u;
          gain = dealloc_free m.allocator f b e;
        },
      )
    ]
