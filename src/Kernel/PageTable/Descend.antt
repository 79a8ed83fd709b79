-- ===== src/Kernel/PageTable/Descend.antt =====
-- One step of `find_pte_create` of src/os/src/mm/page_table.rs: the table that an entry leads to, made if
-- need be from a cleared frame.
use project_r_core.Common.{
  ℕ, ◌+◌, ◌^◌, ◌≤◌, ◌<◌, ◌≡◌, refl, ◌≢◌, ◌⊎◌, inl, inr, ◌∙◌, ap, sym, subst, arith, true, false,
  Option, none, some, List, [], ◌∷◌, ◌++◌, ℕ_discrete, Bool-cases,
}
use project_r_core.Common.Bytes.{Bytes, le_read, le_read_ext}
use project_r_core.Kernel.Address.{floor}
use project_r_core.Kernel.Frames.{Machine, StackFrameAllocator, frame_alloc}
use project_r_core.Kernel.Frames.Invariant.{
  IsValid, IsUsed, Adds, Gives, frame_alloc_lem, free, frame_alloc_free,
}
use project_r_core.Kernel.PageTable.{
  pte_new, pte_ppn, is_valid, pte_addr, read_pte, write_pte, descend, link, flag_v,
}
use project_r_core.Kernel.PageTable.Entry.{pte_ppn-lt, pte_roundtrip, pte_new_lem}
use project_r_core.Kernel.PageTable.Tree.{
  Place, Place-discrete, entry, IsTree, Links, Writes, write_pte-Writes, write_pte_outside,
  with_place, with_place_self, with_place_ne, pte_addr_lem,
}
use project_r_core.Kernel.PageTable.Walk.{look0}

-- A tree of tables in frames that are in use.
pub record IsSound (start : ℕ) (place : ℕ → Place) (root : ℕ) (m : Machine) : Type 0 where
  pub tree : IsTree place root m.mem
  pub valid : IsValid start m.allocator
  pub owned : (p : ℕ) → place p ≢ Place.outside → IsUsed start m.allocator p

-- A frame in use that is no table.
abbrev pub IsData : ℕ → (ℕ → Place) → Machine → ℕ → Type 0
IsData start place m r = IsUsed start m.allocator r × (place r ≡ Place.outside)

-- Frames stay in use, those that are no tables stay so, and their bytes stay the same.
pub record Keeps (start : ℕ) (place place' : ℕ → Place) (m m' : Machine) : Type 0 where
  pub used_kept : (r : ℕ) → IsUsed start m.allocator r → IsUsed start m'.allocator r
  pub data_kept : (r : ℕ) → IsData start place m r → IsData start place' m' r
  pub bytes_kept : (at : ℕ) → IsData start place m (floor at) → m'.mem at ≡ m.mem at

pub Keeps-trans :
    {start : ℕ} {place place' place'' : ℕ → Place} {m m' m'' : Machine}
    → Keeps start place place' m m'
    → Keeps start place' place'' m' m''
    → Keeps start place place'' m m''
Keeps-trans k k' = record {
  used_kept = λ r u. k'.used_kept r (k.used_kept r u);
  data_kept = λ r d. k'.data_kept r (k.data_kept r d);
  bytes_kept = λ at d. k'.bytes_kept at (k.data_kept _ d) ∙ k.bytes_kept at d;
}

pub entry_cleared :
    (mem : Bytes) (q j : ℕ)
    → q < 2 ^ 44
    → j < 512
    → ((at : ℕ) → floor at ≡ q → mem at ≡ 0)
    → entry mem q j ≡ 0
unfolding read_pte le_read floor
entry_cleared mem q j hq hj cleared =
    le_read_ext 8 mem (λ at. 0) (pte_addr q j)
      (λ b lo hi. cleared b (omega (arith, pte_addr_lem q j hq)))

pub entry_kept :
    (mem mem' : Bytes) (q r j : ℕ)
    → r < 2 ^ 44
    → j < 512
    → q ≢ r
    → ((at : ℕ) → floor at ≢ q → mem' at ≡ mem at)
    → entry mem' r j ≡ entry mem r j
unfolding read_pte floor
entry_kept mem mem' q r j hr hj ne kept =
    le_read_ext 8 mem' mem (pte_addr r j)
      (λ b lo hi. kept b (λ e. ne (omega (arith, e, pte_addr_lem r j hr))))

-- A cleared frame whose number is written into an invalid entry is a new table there.
pub link-Links :
    (mem cleared : Bytes) (p i q : ℕ)
    → p < 2 ^ 44
    → i < 512
    → q < 2 ^ 44
    → p ≢ q
    → is_valid (entry mem p i) ≡ false
    → ((at : ℕ) → floor at ≡ q → cleared at ≡ 0)
    → ((at : ℕ) → floor at ≢ q → cleared at ≡ mem at)
    → Links mem (write_pte cleared (pte_addr p i) (pte_new q flag_v)) p i q
link-Links mem cleared p i q hp hi hq ne invalid zeros kept =
    let (ppn, flags, valid, empty) = pte_roundtrip q 0 hq (omega arith) in
    let (ppn', flags', valid', empty') = pte_roundtrip q 1 hq (omega arith) in
    let w : Writes cleared (write_pte cleared (pte_addr p i) (pte_new q flag_v)) p i
        (pte_new q flag_v) =
      write_pte-Writes cleared p i (pte_new q flag_v) hp hi (omega (arith, pte_new_lem q 1 hq)) in
    record {
      was_invalid = invalid;
      now_valid = rw w.written valid;
      leads = rw w.written ppn';
      fresh = λ j hj. rw (w.others q j hq hj (inl ne), entry_cleared cleared q j hq hj zeros) empty;
      others = λ r j hr hj off apart.
          w.others r j hr hj apart ∙ entry_kept mem cleared q r j hr hj off kept;
    }

-- The table `q` behind entry `i` of table `p` after a step from `m` to `m'`, at place `x`.
pub record Descends (start root p i : ℕ) (place : ℕ → Place) (x : Place) (m m' : Machine) (q : ℕ)
    : Type 0 where
  pub place' : ℕ → Place
  pub sound : IsSound start place' root m'
  pub child : place' q ≡ x
  pub narrow : q < 2 ^ 44
  pub now_valid : is_valid (entry m'.mem p i) ≡ true
  pub leads : pte_ppn (entry m'.mem p i) ≡ q
  pub extends : (r : ℕ) → place r ≢ Place.outside → place' r ≡ place r
  pub same :
      (a b c : ℕ) → a < 512 → b < 512 → c < 512 → look0 m'.mem root a b c ≡ look0 m.mem root a b c
  pub cost : free m.allocator ≤ free m'.allocator + 1
  pub keeps : Keeps start place place' m m'
  pub kept :
      (r j : ℕ)
      → r < 2 ^ 44
      → j < 512
      → place r ≢ Place.outside
      → (p ≢ r) ⊎ (i ≢ j)
      → entry m'.mem r j ≡ entry m.mem r j

module _ (start root p i : ℕ) (place : ℕ → Place) (x : Place) (hp : p < 2 ^ 44) (hi : i < 512)
    (inside : place p ≢ Place.outside) (x_inside : x ≢ Place.outside)
    (relink : (mem mem' : Bytes) (q : ℕ)
      → IsTree place root mem
      → place q ≡ Place.outside
      → Links mem mem' p i q
      → IsTree (with_place place q x) root mem')
    (relook : (mem mem' : Bytes) (q a b c : ℕ)
      → IsTree place root mem
      → place q ≡ Place.outside
      → Links mem mem' p i q
      → a < 512
      → b < 512
      → c < 512
      → look0 mem' root a b c ≡ look0 mem root a b c)
    (m : Machine) (frames : List ℕ) (s : IsSound start place root m) where
  -- The new table is none of the old ones.
  unused_outside : (q : ℕ) → ¬ IsUsed start m.allocator q → place q ≡ Place.outside
  unused_outside q unused = elim (Place-discrete (place q) Place.outside) [
    | yes out ↦ out
    | no ne ↦ absurd (unused (s.owned q ne))
  ]

  owned_after :
      (q : ℕ) (a : StackFrameAllocator)
      → Adds start m.allocator q a
      → (r : ℕ) → with_place place q x r ≢ Place.outside
      → IsUsed start a r
  owned_after q a (unused, used, others) r ne = elim (ℕ_discrete r q) [
    | yes e ↦ rw e used
    | no off ↦
        (others r off).0
          (s.owned r (λ out. ne (with_place_ne place q r x (λ e. off (sym e)) ∙ out)))
  ]

  abbrev Made : Option (ℕ × List ℕ × Machine) → Type 0
  Made r =
      (q : ℕ) × (frames' : List ℕ) × (m' : Machine) × (r ≡ some (q, frames', m'))
      × Descends start root p i place x m m' q

  apart : (q r : ℕ) → place q ≡ Place.outside → place r ≢ Place.outside → q ≢ r
  apart q r out ne = λ e. ne (ap place (sym e) ∙ out)

  -- The frame of the new table was not in use, and its number is written into another table.
  link-Keeps :
      (q v : ℕ) (m' : Machine)
      → Adds start m.allocator q m'.allocator
      → ((at : ℕ) → floor at ≢ q → m'.mem at ≡ m.mem at)
      → Keeps start place
          (with_place place q x)
          m
          (record m' { mem = write_pte m'.mem (pte_addr p i) v })
  link-Keeps q v m' adds kept = record {
    used_kept = λ r u. (adds.2 r (λ e. adds.0 (subst (IsUsed start m.allocator) e u))).0 u;
    data_kept = λ r d.
        let ne : q ≢ r = new_apart r d in
        ((adds.2 r (λ e. ne (sym e))).0 d.0, with_place_ne place q r x ne ∙ d.1);
    bytes_kept = λ at d.
        write_pte_outside m'.mem p i v at hp hi (λ e. inside (ap place (sym e) ∙ d.1))
        ∙ kept at (λ e. new_apart _ d (sym e));
  }
    where
      new_apart : (r : ℕ) → IsData start place m r → q ≢ r
      new_apart r d e = adds.0 (subst (IsUsed start m.allocator) (sym e) d.0)

  link-some :
      (q : ℕ) (m' : Machine)
      → is_valid (entry m.mem p i) ≡ false
      → q < m.allocator.end
      → IsValid start m'.allocator
      → Adds start m.allocator q m'.allocator
      → ((at : ℕ) → floor at ≡ q → m'.mem at ≡ 0)
      → ((at : ℕ) → floor at ≢ q → m'.mem at ≡ m.mem at)
      → free m'.allocator + 1 ≡ free m.allocator
      → Made (link (pte_addr p i) frames (some q, m'))
  unfolding link
  link-some q m' invalid below v adds zeros kept cost =
      let out = unused_outside q adds.0 in
      let hq : q < 2 ^ 44 = omega (arith, s.valid.narrow) in
      let mem' = write_pte m'.mem (pte_addr p i) (pte_new q flag_v) in
      let l : Links m.mem mem' p i q =
        link-Links m.mem m'.mem p i q hp hi hq (λ e. apart q p out inside (sym e)) invalid zeros
          kept in
      (
        pte_ppn (entry mem' p i),
        frames ++ (q ∷ []),
        record m' { mem = mem' },
        refl,
        subst (λ t. Descends start root p i place x m (record m' { mem = mem' }) t) (sym l.leads)
            (record {
              place' = with_place place q x;
              sound = record {
                tree = relink m.mem mem' q s.tree out l;
                valid = v;
                owned = owned_after q m'.allocator adds;
              };
              child = with_place_self place q x;
              narrow = hq;
              now_valid = l.now_valid;
              leads = l.leads;
              extends = λ r ne. with_place_ne place q r x (apart q r out ne);
              same = λ a b c ha hb hc. relook m.mem mem' q a b c s.tree out l ha hb hc;
              cost = omega arith;
              keeps = link-Keeps q (pte_new q flag_v) m' adds kept;
              kept = λ r j hr hj ne off. l.others r j hr hj (apart q r out ne) off;
            }),
      )

  link-Made :
      (got : Option ℕ × Machine)
      → is_valid (entry m.mem p i) ≡ false
      → Gives start m got
      → got.0 ≢ none
      → free got.1.allocator + 1 ≡ free m.allocator
      → Made (link (pte_addr p i) frames got)
  unfolding link
  link-Made (none, m') invalid gives ne cost = absurd (ne refl)
  link-Made (some q, m') invalid (inl (e, rest, all)) ne cost = absurd (ne e)
  link-Made (some q, m') invalid (inr (q', e, below, v, adds, zeros, kept)) ne cost =
      let same : q ≡ q' = ground arith in
      link-some q m' invalid (rw same below) v (rw same adds) (rw same zeros) (rw same kept) cost

  pub descend_lem :
      (is_valid (entry m.mem p i) ≡ true → place (pte_ppn (entry m.mem p i)) ≡ x)
      → 0 < free m.allocator
      → Made (descend (pte_addr p i) frames m)
  unfolding descend
  descend_lem known left = elim (Bool-cases (is_valid (entry m.mem p i))) [
    | inl valid ↦ rw valid (
      pte_ppn (entry m.mem p i),
      frames,
      m,
      refl,
      record {
        place' = place;
        sound = s;
        child = known valid;
        narrow = pte_ppn-lt (entry m.mem p i);
        now_valid = valid;
        leads = refl;
        extends = λ r ne. refl;
        same = λ a b c ha hb hc. refl;
        cost = omega arith;
        keeps = record { used_kept = λ r u. u; data_kept = λ r d. d; bytes_kept = λ at d. refl };
        kept = λ r j hr hj ne apart. refl;
      },
    )
    | inr invalid ↦
        let (got, cost) = frame_alloc_free start m s.valid left in
        rw invalid (link-Made (frame_alloc m) invalid (frame_alloc_lem start m s.valid) got cost)
  ]
