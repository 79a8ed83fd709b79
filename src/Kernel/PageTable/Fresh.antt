-- ===== src/Kernel/PageTable/Fresh.antt =====
-- `PageTable::new` of src/os/src/mm/page_table.rs: a root table without entries.
use project_r_core.Common.{
  ℕ, ◌^◌, ◌<◌, ◌≡◌, refl, ◌≢◌, sym, subst, arith, false, none, some, [], ◌∷◌, ◌==◌, if◌then◌else◌,
  ℕ_discrete, eq→==, ne→not-==,
}
use project_r_core.Kernel.Address.Fields.{indexes_lem}
use project_r_core.Kernel.Frames.{Machine}
use project_r_core.Kernel.Frames.Invariant.{IsUsed, IsValid, free}
use project_r_core.Kernel.PageTable.{PageTable, new_table, is_valid}
use project_r_core.Kernel.PageTable.Entry.{pte_roundtrip}
use project_r_core.Kernel.PageTable.Tree.{Place, entry}
use project_r_core.Kernel.PageTable.Walk.{lookup}
use project_r_core.Kernel.PageTable.Descend.{IsSound, IsData, entry_cleared}
use project_r_core.Kernel.PageTable.Data.{NewFrame, frame_alloc-NewFrame}

abbrev pub root_only : ℕ → ℕ → Place
root_only root p = if root == p then Place.top else Place.outside

empty_invalid : is_valid 0 ≡ false
empty_invalid = (pte_roundtrip 0 0 (omega arith) (omega arith)).3

module _ (start root : ℕ) (m : Machine) (v : IsValid start m.allocator) (narrow : root < 2 ^ 44)
    (used : IsUsed start m.allocator root)
    (zeros : (j : ℕ) → j < 512 → entry m.mem root j ≡ 0) where
  invalid : (j : ℕ) → j < 512 → is_valid (entry m.mem root j) ≡ false
  invalid j hj = rw (zeros j hj) empty_invalid

  root_only-IsUsed : (p : ℕ) → root_only root p ≢ Place.outside → IsUsed start m.allocator p
  root_only-IsUsed p inside = elim (ℕ_discrete root p) [
    | yes e ↦ subst (IsUsed start m.allocator) e used
    | no ne ↦ absurd (inside (rw (ne→not-== root p ne) refl))
  ]

  no_middle : (p i : ℕ) → root_only root p ≢ Place.middle i
  no_middle p i at = elim (ℕ_discrete root p) [
    | yes e ↦ (let at' : Place.top ≡ Place.middle i = rw (eq→== root p e) at at in cc)
    | no ne ↦ (let at' : Place.outside ≡ Place.middle i = rw (ne→not-== root p ne) at at in cc)
  ]

  -- A table without entries is a tree of one table, and maps nothing.
  pub fresh-IsSound : IsSound start (root_only root) root m
  fresh-IsSound = record {
    tree = record {
      narrow = narrow;
      root_place = rw (eq→== root root refl) refl;
      first = λ i hi valid. absurd (let e = invalid i hi in cc);
      second = λ p i j at hp hj valid. absurd (no_middle p i at);
    };
    valid = v;
    owned = root_only-IsUsed;
  }

  pub fresh-lookup :
      (t : PageTable) (page : ℕ) → t.root_ppn ≡ root → page < 2 ^ 27 → lookup t page m.mem ≡ none
  unfolding lookup
  fresh-lookup t page e hp =
      let (h0, h1, h2, digits) = indexes_lem page hp in rw (e, invalid _ h0) refl

-- A new table beside another one, whose tables stand at `place`.
pub record NewTable (start : ℕ) (place : ℕ → Place) (root : ℕ) (m : Machine) (t : PageTable)
    (m' : Machine) : Type 0 where
  pub frame : NewFrame start place root t.root_ppn m m'
  pub sound : IsSound start (root_only t.root_ppn) t.root_ppn m'
  pub empty : (page : ℕ) → page < 2 ^ 27 → lookup t page m'.mem ≡ none
  pub apart : (r : ℕ) → IsUsed start m.allocator r → IsData start (root_only t.root_ppn) m' r

pub new_table-NewTable :
    (start : ℕ) (place : ℕ → Place) (root : ℕ) (m : Machine)
    → IsSound start place root m
    → 0 < free m.allocator
    → (t : PageTable) × (m' : Machine) × (new_table m ≡ some (t, m'))
      × NewTable start place root m t m'
unfolding new_table
new_table-NewTable start place root m s left =
    let (ppn, m', e, n) = frame_alloc-NewFrame start place root m s left in
    let t : PageTable = record { root_ppn = ppn; frames = ppn ∷ [] } in
    let zeros : (j : ℕ) → j < 512 → entry m'.mem ppn j ≡ 0 =
      λ j hj. entry_cleared m'.mem ppn j n.narrow hj n.zeros in
    (
      t,
      m',
      rw e refl,
      record {
        frame = n;
        sound = fresh-IsSound start ppn m' n.sound.valid n.narrow n.is_data.0 zeros;
        empty = λ page hp.
            fresh-lookup start ppn m' n.sound.valid n.narrow n.is_data.0 zeros t page refl hp;
        apart = λ r u. (
          n.keeps.used_kept r u,
          rw (ne→not-== ppn r (λ e'. n.unused (subst (IsUsed start m.allocator) (sym e') u))) refl,
        );
      },
    )
