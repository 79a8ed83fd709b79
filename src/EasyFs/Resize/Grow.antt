-- ===== src/EasyFs/Resize/Grow.antt =====
-- src/easy-fs/src/layout.rs: what `increase_size` does behind the direct blocks.
use project_r_core.Common.{
  le→leb, lt→not-leb, min, leb, ℕ, ◌+◌, ◌-◌, ◌/◌, ◌%◌, ◌^◌, ◌≤◌, ◌<◌, ◌≡◌, refl, ◌∙◌, ap, sym,
  subst, arith, Option, some, List, ltb, if◌then◌else◌, ℕ_discrete, dec_lt, if_true, if_false,
  length, get_or, IsDistinct, ne→not-==, lt→ltb, le→not-ltb,
}
use project_r_core.EasyFs.Layout.{DiskInodeType}
use project_r_core.EasyFs.Resize.{
  Growth, alloc_indirect1, fill_indirect1, alloc_indirect2, fill_indirect2, grow_indirect1,
  grow_indirect2,
}
use project_r_core.EasyFs.Resize.Index.{index_size}
use project_r_core.EasyFs.Resize.Enter.{Indexed, Fills}
use project_r_core.EasyFs.Resize.Second.{place, Ends, alloc_indirect2-Fills}
use project_r_core.EasyFs.Resize.Loop.{place_lem, fill_indirect2-Ends}
use project_r_core.EasyFs.Resize.Fill.{alloc_indirect1-Fills, fill_indirect1-Fills}

pub index_size_low : (n : ℕ) → n ≤ 28 → index_size n ≡ n
index_size_low n h = ground arith

pub index_size_mid : (n : ℕ) → 28 < n → n ≤ 156 → index_size n ≡ n + 1
index_size_mid n h k = ground arith

pub index_size_high :
    (c : ℕ) → 128 < c → index_size (28 + c) ≡ place ((c - 128) / 128) ((c - 128) % 128)
index_size_high c h = ground (arith, place_lem ((c - 128) / 128) ((c - 128) % 128))

grow_indirect2_step :
    (rest c : ℕ) (g g' : Growth)
    → alloc_indirect2 g ≡ some g'
    → g'.current_blocks ≡ c
    → grow_indirect2 rest g
      ≡ fill_indirect2
          (rest - 128 - (c - 128) + 1)
          ((rest - 128) / 128)
          ((rest - 128) % 128)
          ((c - 128) / 128)
          ((c - 128) % 128)
          g'
unfolding grow_indirect2
grow_indirect2_step rest c g g' e at = rw e (rw at refl)

grow_indirect1_step :
    (total c : ℕ) (g g1 g3 : Growth)
    → alloc_indirect1 g ≡ some g1
    → g1.current_blocks ≡ c
    → fill_indirect1 (min (total - 28) 128 - (c - 28)) (record g1 { current_blocks = c - 28 })
      ≡ some g3
    → grow_indirect1 total g
      ≡ (if leb (total - 28) 128 then some g3 else grow_indirect2 (total - 28) g3)
unfolding grow_indirect1
grow_indirect1_step total c g g1 g3 e at filled = rw e (rw at (rw filled refl))

module _ (all : List ℕ) (size : ℕ) (kind : DiskInodeType) (distinct : IsDistinct all)
    (narrow : (i : ℕ) → i < length all → get_or all i 0 < 2 ^ 32) where
  abbrev Ends' : ℕ → Option Growth → Type 0
  Ends' = Ends all size kind distinct narrow

  moved : {p q : ℕ} {g : Growth} → p ≡ q → Indexed all size kind p g → Indexed all size kind q g
  moved {g = g} e = subst (λ t. Indexed all size kind t g) e

  place_left : (rest : ℕ) → 128 < rest → index_size (28 + rest) ≤ length all → 158 ≤ length all
  place_left rest h left = omega (
    arith,
    index_size_high rest (omega arith),
    place_lem ((rest - 128) / 128) ((rest - 128) % 128),
  )

  second_alloc :
      (c : ℕ) (g : Growth)
      → Indexed all size kind (index_size (28 + c)) g
      → g.current_blocks ≡ c
      → 128 ≤ c
      → c ≤ 16512
      → 158 ≤ length all
      → Fills all size kind distinct narrow
          (place ((c - 128) / 128) ((c - 128) % 128))
          c
          (alloc_indirect2 g)
  unfolding alloc_indirect2 place
  second_alloc c g x at h bound left = elim (ℕ_discrete c 128) [
    | yes e ↦ rw e (
        alloc_indirect2-Fills all size kind distinct narrow g
          (moved (ap (λ n. index_size (28 + n)) e) x) (at ∙ e) left)
    | no ne ↦ (
      g,
      if_false _ _ (ne→not-== g.current_blocks 128 (λ e. ne (sym at ∙ e))),
      moved (index_size_high c (omega arith)) x,
      at,
    )
  ]

  -- From `c` data blocks behind `direct` on, to `rest`, when some of them are behind `indirect2`.
  grow_indirect2-Ends :
      (rest c : ℕ) (g : Growth)
      → Indexed all size kind (index_size (28 + c)) g
      → g.current_blocks ≡ c
      → 128 ≤ c
      → c ≤ rest
      → 128 < rest
      → rest ≤ 16512
      → index_size (28 + rest) ≤ length all
      → Ends' (index_size (28 + rest)) (grow_indirect2 rest g)
  grow_indirect2-Ends rest c g x at h le some_second bound left =
      let (g', e, x', at') =
        second_alloc c g x at h (omega arith) (place_left rest some_second left) in
      let a0 = (c - 128) / 128 in
      let b0 = (c - 128) % 128 in
      let total : index_size (28 + rest) ≡ place ((rest - 128) / 128) ((rest - 128) % 128) =
        index_size_high rest (omega arith) in
      let (g2, e2, x2) =
        fill_indirect2-Ends all size kind distinct narrow (rest - 128 - (c - 128) + 1)
          ((rest - 128) / 128) ((rest - 128) % 128) a0 b0 g' x' (omega arith) (omega arith)
          (omega arith) (omega arith) (omega arith) (omega (arith, total)) in
      (g2, grow_indirect2_step rest c g g' e at' ∙ e2, moved (sym total) x2)

  place_first : (n : ℕ) → 28 < n → index_size n ≤ length all → 29 ≤ length all
  place_first n h left = ground arith

  -- From `n` data blocks on, when some of them are behind `indirect1`.
  first_alloc :
      (n : ℕ) (g : Growth)
      → Indexed all size kind (index_size n) g
      → g.current_blocks ≡ n
      → 28 ≤ n
      → 29 ≤ length all
      → Fills all size kind distinct narrow
          (if ltb 156 n then index_size n else n + 1)
          n
          (alloc_indirect1 g)
  unfolding alloc_indirect1
  first_alloc n g x at h left = elim (ℕ_discrete n 28) [
    | yes e ↦ rw e (
        alloc_indirect1-Fills all size kind distinct narrow g (moved (ap index_size e) x) (at ∙ e)
          left)
    | no ne ↦ (
      g,
      if_false _ _ (ne→not-== g.current_blocks 28 (λ e. ne (sym at ∙ e))),
      moved (ground arith) x,
      at,
    )
  ]

  recount :
      {p : ℕ} {g : Growth} (c : ℕ)
      → Indexed all size kind p g
      → Indexed all size kind p (record g { current_blocks = c })
  recount c x = record {
    direct28 = x.direct28;
    content = x.content;
    same_size = x.same_size;
    same_type = x.same_type;
  }

  -- The data blocks behind `direct` that are there after the loop over `indirect1`.
  record Filled (n total : ℕ) (r : Option Growth) : Type 0 where
    pub result : Growth
    pub returned : r ≡ some result
    pub indexed : Indexed all size kind (index_size (28 + result.current_blocks)) result
    pub not_less : n ≤ 28 + result.current_blocks
    pub not_more : 28 + result.current_blocks ≤ total
    pub all_there : total ≤ 156 → 28 + result.current_blocks ≡ total
    pub block_full : 156 < total → 128 ≤ result.current_blocks

  first_fill :
      (n total : ℕ) (g : Growth)
      → Indexed all size kind (if ltb 156 n then index_size n else n + 1) g
      → 28 ≤ n
      → n ≤ total
      → 28 < total
      → index_size total ≤ length all
      → Filled n total
          (fill_indirect1 (min (total - 28) 128 - (n - 28)) (record g { current_blocks = n - 28 }))
  unfolding fill_indirect1
  first_fill n total g x h le some_first left = elim (dec_lt 156 n) [
    | yes high ↦
        let none_left : min (total - 28) 128 - (n - 28) ≡ 0 = omega arith in
        rw none_left (record {
          result = record g { current_blocks = n - 28 };
          returned = refl;
          indexed = recount (n - 28) (
              moved
                (if_true _ _ (lt→ltb 156 n high)
                  ∙ ap index_size {x = n} {y = 28 + (n - 28)} (omega arith))
                x);
          not_less = omega arith;
          not_more = omega arith;
          all_there = λ k. omega arith;
          block_full = λ k. omega arith;
        })
    | no low ↦
        let k = min (total - 28) 128 - (n - 28) in
        let (g3, e, x3, at) =
          fill_indirect1-Fills all size kind distinct narrow k (n - 28)
            (record g { current_blocks = n - 28 })
            (recount (n - 28)
              (moved (if_false _ _ (le→not-ltb 156 n (omega arith)) ∙ omega arith) x))
            refl (omega arith) (ground arith) in
        record {
          result = g3;
          returned = e;
          indexed =
              moved
                (omega arith
                  ∙ sym (
                      index_size_mid (28 + g3.current_blocks) (omega (arith, at))
                        (omega (arith, at))))
                x3;
          not_less = omega (arith, at);
          not_more = omega (arith, at);
          all_there = λ k. omega (arith, at);
          block_full = λ k. omega (arith, at);
        }
  ]

  pub grow_indirect1-Ends :
      (n total : ℕ) (g : Growth)
      → Indexed all size kind (index_size n) g
      → g.current_blocks ≡ n
      → 28 ≤ n
      → n ≤ total
      → 28 < total
      → total ≤ 16540
      → index_size total ≤ length all
      → Ends' (index_size total) (grow_indirect1 total g)
  grow_indirect1-Ends n total g x at h le some_first bound left =
      let (g1, e1, x1, at1) = first_alloc n g x at h (place_first total some_first left) in
      let f = first_fill n total g1 x1 h le some_first left in
      let step = grow_indirect1_step total n g g1 f.result e1 at1 f.returned in
      elim (dec_lt 156 total) [
        | no low ↦ (
          f.result,
          step ∙ if_true _ _ (le→leb (total - 28) 128 (omega arith)),
          moved (ap index_size (f.all_there (omega arith))) f.indexed,
        )
        | yes high ↦
            let c = f.result.current_blocks in
            let behind : 28 + (total - 28) ≡ total = omega arith in
            let (g4, e4, x4) =
              grow_indirect2-Ends (total - 28) c f.result f.indexed refl (f.block_full high)
                (omega (arith, f.not_more)) (omega arith) (omega arith) (rw behind left) in
            (
              g4,
              step ∙ if_false _ _ (lt→not-leb (total - 28) 128 (omega arith)) ∙ e4,
              moved (ap index_size behind) x4,
            )
      ]
