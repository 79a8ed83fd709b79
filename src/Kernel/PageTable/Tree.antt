-- ===== src/Kernel/PageTable/Tree.antt =====
-- The tables of src/os/src/mm/page_table.rs as a tree: each table of a lower level hangs on one entry.
use project_r_core.Common.{
  ℕ, ◌+◌, ◌*◌, ◌^◌, ◌<◌, ◌≡◌, ◌≢◌, ◌⊎◌, inl, inr, ◌∙◌, ap, sym, arith, true, false, ◌==◌,
  if◌then◌else◌, ℕ_discrete, dec_lt,
}
use project_r_core.Common.Bytes.{
  Bytes, le_read-le_write_self, le_read-le_write_apart, le_write_apart, IsApart,
}
use project_r_core.Kernel.Address.{addr_of_page_num, floor}
use project_r_core.Kernel.PageTable.{
  PageTableEntry, pte_ppn, is_valid, pte_addr, read_pte, write_pte,
}

-- Where a frame stands: the root table, the table of the first index, of the first two, or no table.
pub data Place : Type 0 where
  top outside : Place
  middle : ℕ → Place
  bottom : ℕ → ℕ → Place

pub Place-discrete : Discrete Place
Place-discrete = hlevel ℕ_discrete

-- The `i`-th entry of table `p`.
abbrev pub entry : Bytes → ℕ → ℕ → PageTableEntry
entry mem p i = read_pte mem (pte_addr p i)

-- Valid entries lead down; no two of them lead to the same table.
pub record IsTree (place : ℕ → Place) (root : ℕ) (mem : Bytes) : Type 0 where
  pub narrow : root < 2 ^ 44
  pub root_place : place root ≡ Place.top
  pub first :
      (i : ℕ)
      → i < 512
      → is_valid (entry mem root i) ≡ true
      → place (pte_ppn (entry mem root i)) ≡ Place.middle i
  pub second :
      (p i j : ℕ)
      → place p ≡ Place.middle i
      → p < 2 ^ 44
      → j < 512
      → is_valid (entry mem p j) ≡ true
      → place (pte_ppn (entry mem p j)) ≡ Place.bottom i j

pub pte_addr_lem : (p i : ℕ) → p < 2 ^ 44 → pte_addr p i ≡ p * 4096 + 8 * i
unfolding pte_addr addr_of_page_num
pte_addr_lem p i h = omega arith

pte_addr-IsApart :
    (p i q j : ℕ)
    → p < 2 ^ 44
    → q < 2 ^ 44
    → i < 512
    → j < 512
    → (p ≢ q) ⊎ (i ≢ j)
    → IsApart (pte_addr p i) 8 (pte_addr q j) 8
pte_addr-IsApart p i q j hp hq hi hj ne = elim (dec_lt p q) [
  | yes below ↦ inl (omega (arith, pte_addr_lem p i hp, pte_addr_lem q j hq))
  | no not_below ↦ elim (dec_lt q p) [
    | yes above ↦ inr (omega (arith, pte_addr_lem p i hp, pte_addr_lem q j hq))
    | no not_above ↦ omega (arith, pte_addr_lem p i hp, pte_addr_lem q j hq)
  ]
]

-- A write to an entry leaves the other frames as they are.
pub write_pte_outside :
    (mem : Bytes) (p i v at : ℕ)
    → p < 2 ^ 44
    → i < 512
    → floor at ≢ p
    → write_pte mem (pte_addr p i) v at ≡ mem at
unfolding write_pte floor
write_pte_outside mem p i v at hp hi ne =
    let e = pte_addr_lem p i hp in
    le_write_apart 8 mem (pte_addr p i) v at
      (elim (dec_lt at (p * 4096)) [ yes below ↦ inr (omega arith) | no above ↦ inl (omega arith) ])

-- One entry is written, the others stay.
pub record Writes (mem mem' : Bytes) (p i : ℕ) (v : PageTableEntry) : Type 0 where
  pub written : entry mem' p i ≡ v
  pub others : (q j : ℕ) → q < 2 ^ 44 → j < 512 → (p ≢ q) ⊎ (i ≢ j) → entry mem' q j ≡ entry mem q j

pub write_pte-Writes :
    (mem : Bytes) (p i v : ℕ)
    → p < 2 ^ 44
    → i < 512
    → v < 2 ^ 64
    → Writes mem (write_pte mem (pte_addr p i) v) p i v
unfolding read_pte write_pte
write_pte-Writes mem p i v hp hi hv = record {
  written = le_read-le_write_self 8 mem (pte_addr p i) v hv;
  others = λ q j hq hj ne.
      le_read-le_write_apart 8 8 mem (pte_addr p i) (pte_addr q j) v
        (pte_addr-IsApart p i q j hp hq hi hj ne);
}

-- A new table `q`, all of whose entries are invalid, is hung on an invalid entry.
pub record Links (mem mem' : Bytes) (p i q : ℕ) : Type 0 where
  pub was_invalid : is_valid (entry mem p i) ≡ false
  pub now_valid : is_valid (entry mem' p i) ≡ true
  pub leads : pte_ppn (entry mem' p i) ≡ q
  pub fresh : (j : ℕ) → j < 512 → is_valid (entry mem' q j) ≡ false
  pub others :
      (r j : ℕ) → r < 2 ^ 44 → j < 512 → q ≢ r → (p ≢ r) ⊎ (i ≢ j) → entry mem' r j ≡ entry mem r j

-- A table on the way down is none that a place says otherwise.
pub apart_of_place :
    (place : ℕ → Place) {p q : ℕ} (x y : Place) → place p ≡ x → place q ≡ y → x ≢ y → p ≢ q
apart_of_place place x y hp hq ne e = ne (sym hp ∙ ap place e ∙ hq)

-- The places after table `q` was added at `x`.
abbrev pub with_place : (ℕ → Place) → ℕ → Place → ℕ → Place
with_place place q x r = if q == r then x else place r

pub with_place_self : (place : ℕ → Place) (q : ℕ) (x : Place) → with_place place q x q ≡ x
with_place_self place q x = ground arith

pub with_place_ne :
    (place : ℕ → Place) (q r : ℕ) (x : Place) → q ≢ r → with_place place q x r ≡ place r
with_place_ne place q r x ne = ground arith

module _ (place : ℕ → Place) (root : ℕ) (mem mem' : Bytes) (q : ℕ) (tree : IsTree place root mem)
    (out : place q ≡ Place.outside) where
  root_apart : q ≢ root
  root_apart = apart_of_place place Place.outside Place.top out tree.root_place (λ e. cc)

  keeps : (r : ℕ) (x y : Place) → place r ≡ x → x ≢ Place.outside → with_place place q y r ≡ x
  keeps r x y at ne =
      with_place_ne place q r y (apart_of_place place Place.outside x out at (λ e. ne (sym e))) ∙ at

  -- Hanging a table on the root keeps the tree.
  pub link_first :
      (i : ℕ)
      → i < 512
      → Links mem mem' root i q
      → IsTree (with_place place q (Place.middle i)) root mem'
  link_first i hi l = record {
    narrow = tree.narrow;
    root_place = keeps root Place.top (Place.middle i) tree.root_place (λ e. cc);
    first = λ j hj valid. elim (ℕ_discrete i j) [
      | yes e ↦ rw (← e) (rw l.leads (with_place_self place q (Place.middle i) ∙ ground arith))
      | no ne ↦
          let same = l.others root j tree.narrow hj root_apart (inr ne) in
          rw same (keeps _ (Place.middle j) _ (tree.first j hj (rw same at valid)) (λ e. cc))
    ];
    second = λ p a j at hp hj valid. elim (ℕ_discrete q p) [
      | yes e ↦ absurd (no_child p j hj l (rw e) valid)
      | no ne ↦
          let at' : place p ≡ Place.middle a =
            sym (with_place_ne place q p (Place.middle i) ne) ∙ at in
          let off = apart_of_place place Place.top (Place.middle a) tree.root_place at' (λ e. cc) in
          let same = l.others p j hp hj ne (inl off) in
          rw same (
            keeps _ (Place.bottom a j) _ (tree.second p a j at' hp hj (rw same at valid)) (λ e. cc))
    ];
  }
    where
      no_child :
          (p j : ℕ)
          → j < 512
          → Links mem mem' root i q
          → p ≡ q
          → is_valid (entry mem' p j) ≡ true
          → ⊥
      no_child p j hj l e valid = let f = l.fresh j hj in let v = rw e at valid in cc

  -- So does hanging one on a table of the middle level.
  pub link_second :
      (p i j : ℕ)
      → place p ≡ Place.middle i
      → j < 512
      → Links mem mem' p j q
      → IsTree (with_place place q (Place.bottom i j)) root mem'
  link_second p i j at hj l = record {
    narrow = tree.narrow;
    root_place = keeps root Place.top (Place.bottom i j) tree.root_place (λ e. cc);
    first = λ k hk valid.
        let same = l.others root k tree.narrow hk root_apart (inl off_root) in
        rw same (keeps _ (Place.middle k) _ (tree.first k hk (rw same at valid)) (λ e. cc));
    second = λ r a k at_r hr hk valid. elim (ℕ_discrete q r) [
      | yes e ↦
          let place_r : Place.bottom i j ≡ Place.middle a =
            sym (with_place_self place q (Place.bottom i j))
            ∙ ap (with_place place q (Place.bottom i j)) e
            ∙ at_r in
          cc
      | no ne ↦
          let old : place r ≡ Place.middle a =
            sym (with_place_ne place q r (Place.bottom i j) ne) ∙ at_r in
          elim (ℕ_discrete p r) [
            | yes e ↦ elim (ℕ_discrete j k) [
              | yes e' ↦
                  let same_place : Place.bottom i j ≡ Place.bottom a k =
                    bottom_eq (sym at ∙ ap place e ∙ old) e' in
                  rw (← e, ← e')
                    (rw l.leads (
                      with_place_self place q (Place.bottom i j)
                      ∙ same_place
                      ∙ ap (Place.bottom a) (sym e')))
              | no ne' ↦ other_entry r a k old hr hk ne (inr ne') valid
            ]
            | no ne' ↦ other_entry r a k old hr hk ne (inl ne') valid
          ]
    ];
  }
    where
      off_root : p ≢ root
      off_root = apart_of_place place (Place.middle i) Place.top at tree.root_place (λ e. cc)

      bottom_eq :
          {a k : ℕ} → Place.middle i ≡ Place.middle a → j ≡ k → Place.bottom i j ≡ Place.bottom a k
      bottom_eq e e' = cc

      other_entry :
          (r a k : ℕ)
          → place r ≡ Place.middle a
          → r < 2 ^ 44
          → k < 512
          → q ≢ r
          → (p ≢ r) ⊎ (j ≢ k)
          → is_valid (entry mem' r k) ≡ true
          → with_place place q (Place.bottom i j) (pte_ppn (entry mem' r k)) ≡ Place.bottom a k
      other_entry r a k old hr hk ne apart valid =
          let same = l.others r k hr hk ne apart in
          rw same (
            keeps _ (Place.bottom a k) _ (tree.second r a k old hr hk (rw same at valid)) (λ e. cc))

-- Writing an entry of a table of the lowest level keeps the tree.
pub write-IsTree :
    (place : ℕ → Place) (root : ℕ) (mem mem' : Bytes) (p i j k v : ℕ)
    → IsTree place root mem
    → place p ≡ Place.bottom i j
    → Writes mem mem' p k v
    → IsTree place root mem'
write-IsTree place root mem mem' p i j k v tree at w = record {
  narrow = tree.narrow;
  root_place = tree.root_place;
  first = λ a ha valid.
      let same = w.others root a tree.narrow ha (inl off_root) in
      rw same (tree.first a ha (rw same at valid));
  second = λ r a b at_r hr hb valid.
      let off = apart_of_place place (Place.bottom i j) (Place.middle a) at at_r (λ e. cc) in
      let same = w.others r b hr hb (inl off) in
      rw same (tree.second r a b at_r hr hb (rw same at valid));
}
  where
    off_root : p ≢ root
    off_root = apart_of_place place (Place.bottom i j) Place.top at tree.root_place (λ e. cc)
