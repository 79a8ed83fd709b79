-- ===== src/Kernel/PageTable/Data.antt =====
-- Changes of memory outside the tables of src/os/src/mm/page_table.rs: they leave the mapping as it is.
use project_r_core.Common.{
  Bool-cases, ◌>>=◌, if◌then◌else◌, ℕ, ◌+◌, ◌^◌, ◌<◌, ◌≡◌, refl, ◌≢◌, inl, inr, ◌∙◌, ap, sym, subst,
  arith, Option, none, some,
}
use project_r_core.Common.Bytes.{Bytes, le_read_ext}
use project_r_core.Kernel.Address.{floor}
use project_r_core.Kernel.Address.Fields.{indexes_lem}
use project_r_core.Kernel.Frames.{Machine, frame_alloc}
use project_r_core.Kernel.Frames.Invariant.{
  IsUsed, IsValid, Adds, Gives, free, frame_alloc_lem, frame_alloc_free,
}
use project_r_core.Kernel.PageTable.{
  PageTable, PageTableEntry, is_valid, find_pte, translate, pte_addr, read_pte,
}
use project_r_core.Kernel.PageTable.Entry.{pte_ppn-lt}
use project_r_core.Kernel.PageTable.Tree.{Place, Place-discrete, entry, IsTree, pte_addr_lem}
use project_r_core.Kernel.PageTable.Walk.{
  lookup, lookup-find_pte, look0, look0_ext, look1_ext, look2_ext,
}
use project_r_core.Kernel.PageTable.Descend.{IsSound, IsData, Keeps}

entry_ext :
    (mem mem' : Bytes) (r j : ℕ)
    → r < 2 ^ 44
    → j < 512
    → ((at : ℕ) → floor at ≡ r → mem' at ≡ mem at)
    → entry mem' r j ≡ entry mem r j
unfolding read_pte floor
entry_ext mem mem' r j hr hj same =
    le_read_ext 8 mem' mem (pte_addr r j) (λ b lo hi. same b (omega (arith, pte_addr_lem r j hr)))

-- `translate` of a page that is mapped.
pub lookup-translate :
    (t : PageTable) (page : ℕ) (mem : Bytes) (e : PageTableEntry)
    → lookup t page mem ≡ some e
    → translate t page mem ≡ some e
unfolding translate
lookup-translate t page mem e found =
    found_entry (find_pte mem t page) mem e (sym (lookup-find_pte t page mem) ∙ found)
  where
    found_entry :
        (at : Option ℕ) (mem : Bytes) (e : PageTableEntry)
        → (at >>= λ at. if is_valid (read_pte mem at) then some (read_pte mem at) else none)
          ≡ some e
        → (at >>= λ at. some (read_pte mem at)) ≡ some e
    found_entry none mem e h = h
    found_entry (some at) mem e h = elim (Bool-cases (is_valid (read_pte mem at))) [
      | inl valid ↦ rw valid at h
      | inr invalid ↦ absurd (ground arith)
    ]

module _ (place : ℕ → Place) (root : ℕ) (mem mem' : Bytes) (tree : IsTree place root mem)
    (same : (at : ℕ) → place (floor at) ≢ Place.outside → mem' at ≡ mem at) where
  table_ext :
      (r j : ℕ) (x : Place)
      → r < 2 ^ 44
      → j < 512
      → place r ≡ x
      → x ≢ Place.outside
      → entry mem' r j ≡ entry mem r j
  table_ext r j x hr hj at ne =
      entry_ext mem mem' r j hr hj (λ b e. same b (λ out. ne (sym at ∙ ap place (sym e) ∙ out)))

  root_ext : (i : ℕ) → i < 512 → entry mem' root i ≡ entry mem root i
  root_ext i hi = table_ext root i Place.top tree.narrow hi tree.root_place (λ e. cc)

  pub data-IsTree : IsTree place root mem'
  data-IsTree = record {
    narrow = tree.narrow;
    root_place = tree.root_place;
    first = λ i hi valid. let e = root_ext i hi in rw e (tree.first i hi (rw e at valid));
    second = λ p i j at hp hj valid.
        let e = table_ext p j (Place.middle i) hp hj at (λ e. cc) in
        rw e (tree.second p i j at hp hj (rw e at valid));
  }

  data-look0 :
      (a b c : ℕ) → a < 512 → b < 512 → c < 512 → look0 mem' root a b c ≡ look0 mem root a b c
  data-look0 a b c ha hb hc = look0_ext mem mem' root a b c (root_ext a ha) λ valid.
      let at = tree.first a ha valid in
      look1_ext mem mem' _ b c (table_ext _ b (Place.middle a) (pte_ppn-lt _) hb at (λ e. cc))
        λ valid'. look2_ext mem mem' _ c (
          table_ext _ c (Place.bottom a b) (pte_ppn-lt _) hc
            (tree.second _ a b at (pte_ppn-lt _) hb valid') (λ e. cc))

  pub data-lookup :
      (t : PageTable) (page : ℕ)
      → t.root_ppn ≡ root
      → page < 2 ^ 27
      → lookup t page mem' ≡ lookup t page mem
  unfolding lookup
  data-lookup t page e hp =
      let (h0, h1, h2, digits) = indexes_lem page hp in rw e (data-look0 _ _ _ h0 h1 h2)

-- A new frame for data: nobody used it, it holds zeros, and tables and other data are as before.
pub record NewFrame (start : ℕ) (place : ℕ → Place) (root ppn : ℕ) (m m' : Machine) : Type 0 where
  pub unused : ¬ IsUsed start m.allocator ppn
  pub is_data : IsData start place m' ppn
  pub zeros : (at : ℕ) → floor at ≡ ppn → m'.mem at ≡ 0
  pub narrow : ppn < 2 ^ 44
  pub sound : IsSound start place root m'
  pub same :
      (t : PageTable) (page : ℕ)
      → t.root_ppn ≡ root
      → page < 2 ^ 27
      → lookup t page m'.mem ≡ lookup t page m.mem
  pub keeps : Keeps start place place m m'
  pub cost : free m'.allocator + 1 ≡ free m.allocator
  pub others : (at : ℕ) → floor at ≢ ppn → m'.mem at ≡ m.mem at

module _ (start : ℕ) (place : ℕ → Place) (root : ℕ) (m : Machine)
    (s : IsSound start place root m) where
  unused_outside : (q : ℕ) → ¬ IsUsed start m.allocator q → place q ≡ Place.outside
  unused_outside q unused = elim (Place-discrete (place q) Place.outside) [
    | yes out ↦ out
    | no ne ↦ absurd (unused (s.owned q ne))
  ]

  added-NewFrame :
      (ppn : ℕ) (m' : Machine)
      → ppn < m.allocator.end
      → IsValid start m'.allocator
      → Adds start m.allocator ppn m'.allocator
      → ((at : ℕ) → floor at ≡ ppn → m'.mem at ≡ 0)
      → ((at : ℕ) → floor at ≢ ppn → m'.mem at ≡ m.mem at)
      → free m'.allocator + 1 ≡ free m.allocator
      → NewFrame start place root ppn m m'
  added-NewFrame ppn m' below v (unused, used, others) zeros kept cost =
      let out = unused_outside ppn unused in
      let tables : (at : ℕ) → place (floor at) ≢ Place.outside → m'.mem at ≡ m.mem at =
        λ at ne. kept at (λ e. ne (ap place e ∙ out)) in
      record {
        unused = unused;
        is_data = (used, out);
        zeros = zeros;
        narrow = omega (arith, s.valid.narrow);
        sound = record {
          tree = data-IsTree place root m.mem m'.mem s.tree tables;
          valid = v;
          owned = λ p ne. (others p (λ e. ne (ap place e ∙ out))).0 (s.owned p ne);
        };
        same = data-lookup place root m.mem m'.mem s.tree tables;
        keeps = record {
          used_kept = λ r u. (others r (λ e. unused (subst (IsUsed start m.allocator) e u))).0 u;
          data_kept = λ r d. ((others r (new_apart r d)).0 d.0, d.1);
          bytes_kept = λ at d. kept at (new_apart _ d);
        };
        cost = cost;
        others = kept;
      }
    where
      new_apart : (r : ℕ) → IsData start place m r → r ≢ ppn
      new_apart r d e = unused (subst (IsUsed start m.allocator) e d.0)

  given-NewFrame :
      (got : Option ℕ × Machine)
      → Gives start m got
      → got.0 ≢ none
      → free got.1.allocator + 1 ≡ free m.allocator
      → (ppn : ℕ) × (m' : Machine) × (got ≡ (some ppn, m')) × NewFrame start place root ppn m m'
  given-NewFrame (none, m') gives ne cost = absurd (ne refl)
  given-NewFrame (some q, m') (inl (e, rest, all)) ne cost = absurd (ne e)
  given-NewFrame (some q, m') (inr (q', e, below, v, adds, zeros, kept)) ne cost =
      let same : q ≡ q' = ground arith in
      (
        q,
        m',
        refl,
        added-NewFrame q m' (rw same below) v (rw same adds) (rw same zeros) (rw same kept) cost,
      )

  -- While a frame is left, `frame_alloc` gives a new one for data.
  pub frame_alloc-NewFrame :
      0 < free m.allocator
      → (ppn : ℕ) × (m' : Machine) × (frame_alloc m ≡ (some ppn, m'))
        × NewFrame start place root ppn m m'
  frame_alloc-NewFrame left =
      let (got, cost) = frame_alloc_free start m s.valid left in
      given-NewFrame (frame_alloc m) (frame_alloc_lem start m s.valid) got cost
