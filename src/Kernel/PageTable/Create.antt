-- ===== src/Kernel/PageTable/Create.antt =====
-- src/os/src/mm/page_table.rs: `find_pte_create` reaches the table of the lowest level.
use project_r_core.Common.{
  ℕ, ◌+◌, ◌^◌, ◌≤◌, ◌<◌, ◌≡◌, refl, inl, ◌∙◌, ap, arith, some, List, [], ◌∷◌,
}
use project_r_core.Kernel.Frames.{Machine}
use project_r_core.Kernel.Frames.Invariant.{free}
use project_r_core.Kernel.PageTable.{pte_addr, walk_create, descend}
use project_r_core.Kernel.PageTable.Tree.{Place, link_first, link_second}
use project_r_core.Kernel.PageTable.Walk.{look0, link_first-look0, link_second-look0, Path3}
use project_r_core.Kernel.PageTable.Descend.{IsSound, Descends, descend_lem, Keeps, Keeps-trans}

-- The table `p` of the lowest level for the indexes `i` and `j`, reached from `m` in state `m'`.
pub record Reaches (start root i j : ℕ) (place : ℕ → Place) (m m' : Machine) (p : ℕ) : Type 0 where
  pub place' : ℕ → Place
  pub sound : IsSound start place' root m'
  pub path : Path3 m'.mem root i j p
  pub narrow : p < 2 ^ 44
  pub middle_narrow : path.middle < 2 ^ 44
  pub at_bottom : place' p ≡ Place.bottom i j
  pub at_middle : place' path.middle ≡ Place.middle i
  pub same :
      (a b c : ℕ) → a < 512 → b < 512 → c < 512 → look0 m'.mem root a b c ≡ look0 m.mem root a b c
  pub cost : free m.allocator ≤ free m'.allocator + 2
  pub keeps : Keeps start place place' m m'

module _ (start root : ℕ) (place : ℕ → Place) (m : Machine) (frames : List ℕ) (i j : ℕ)
    (s : IsSound start place root m) (hi : i < 512) (hj : j < 512) where
  first_step :
      0 < free m.allocator
      → (q : ℕ) × (frames' : List ℕ) × (m' : Machine) × (descend (pte_addr root i) frames m
          ≡ some (q, frames', m'))
        × Descends start root root i place (Place.middle i) m m' q
  first_step left =
      descend_lem start root root i place (Place.middle i) s.tree.narrow hi
        (λ out. let top = s.tree.root_place in cc) (λ e. cc)
        (λ mem mem' q tree out l. link_first place root mem mem' q tree out i hi l)
        (λ mem mem' q a b c tree out l ha hb hc.
          link_first-look0 place root mem mem' q tree out i a b c hi ha hb hc l)
        m frames s (λ valid. s.tree.first i hi valid) left

  second_step :
      (p : ℕ)
      → p < 2 ^ 44
      → place p ≡ Place.middle i
      → 0 < free m.allocator
      → (q : ℕ) × (frames' : List ℕ) × (m' : Machine) × (descend (pte_addr p j) frames m
          ≡ some (q, frames', m'))
        × Descends start root p j place (Place.bottom i j) m m' q
  second_step p hp at left =
      descend_lem start root p j place (Place.bottom i j) hp hj (λ out. cc) (λ e. cc)
        (λ mem mem' q tree out l. link_second place root mem mem' q tree out p i j at hj l)
        (λ mem mem' q a b c tree out l ha hb hc.
          link_second-look0 place root mem mem' q tree out p i j a b c at hj ha hb hc l)
        m frames s (λ valid. s.tree.second p i j at hp hj valid) left

-- With two frames left the walk reaches the entry of the page, whichever tables were missing.
pub walk_create_lem :
    (start root : ℕ) (place : ℕ → Place) (m : Machine) (frames : List ℕ) (i j k : ℕ)
    → IsSound start place root m
    → i < 512
    → j < 512
    → 2 ≤ free m.allocator
    → (p : ℕ) × (frames' : List ℕ) × (m' : Machine) × (walk_create (i ∷ j ∷ k ∷ []) root frames m
        ≡ some (pte_addr p k, frames', m'))
      × Reaches start root i j place m m' p
unfolding walk_create
walk_create_lem start root place m frames i j k s hi hj left =
    let (q, frames1, m1, e1, d1) = first_step start root place m frames i j s hi hj (omega arith) in
    let cost1 = d1.cost in
    let (p, frames2, m2, e2, d2) =
      second_step start root d1.place' m1 frames1 i j d1.sound hi hj q d1.narrow d1.child
        (omega arith) in
    let cost2 = d2.cost in
    let kept =
      d2.kept root i s.tree.narrow hi (λ out. let top = d1.sound.tree.root_place in cc)
        (inl (λ e.
          let top = d1.sound.tree.root_place in
          let mid = d1.child in let same = ap d1.place' e in cc)) in
    (
      p,
      frames2,
      m2,
      rw (e1, e2) refl,
      record {
        place' = d2.place';
        sound = d2.sound;
        path = record {
          middle = q;
          first_valid = rw kept d1.now_valid;
          first_leads = rw kept d1.leads;
          second_valid = d2.now_valid;
          second_leads = d2.leads;
        };
        narrow = d2.narrow;
        middle_narrow = d1.narrow;
        at_bottom = d2.child;
        at_middle = d2.extends q (λ out. let mid = d1.child in cc) ∙ d1.child;
        same = λ a b c ha hb hc. d2.same a b c ha hb hc ∙ d1.same a b c ha hb hc;
        cost = omega arith;
        keeps = Keeps-trans d1.keeps d2.keeps;
      },
    )
