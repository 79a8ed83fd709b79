-- ===== src/EasyFs/Resize/Loop.antt =====
-- src/easy-fs/src/layout.rs: the loop of `increase_size` over the block `indirect2`.
use project_r_core.Common.{
  ℕ, zero, suc, ◌+◌, ◌*◌, ◌^◌, ◌≤◌, ◌<◌, ◌≡◌, refl, ◌⊎◌, inl, inr, ◌∙◌, ap₂, subst, arith, true,
  false, Option, some, List, ◌==◌, ◌&&◌, ◌||◌, ltb, if◌then◌else◌, ℕ_discrete, dec_lt, if_true,
  if_false, length, get_or, IsDistinct, eq→==, ne→not-==, lt→ltb,
}
use project_r_core.EasyFs.Layout.{DiskInodeType}
use project_r_core.EasyFs.Resize.{Growth, alloc_entry, fill_entry, fill_indirect2}
use project_r_core.EasyFs.Resize.Enter.{Indexed}
use project_r_core.EasyFs.Resize.Second.{place, Ends, alloc_entry-Ends, fill_entry-Ends}

pub place_lem :
    (a b : ℕ)
    → ((b ≡ 0) × (place a b ≡ 158 + 129 * a)) ⊎ ((0 < b) × (place a b ≡ 159 + 129 * a + b))
unfolding place
place_lem a zero = inl (refl, refl)
place_lem a (suc b) = inr (omega arith, omega arith)

round_step :
    (fuel a1 b1 a0 b0 a0' b0' : ℕ) (g g1 g2 : Growth)
    → (ltb a0 a1 || (a0 == a1 && ltb b0 b1)) ≡ true
    → ltb a0 128 ≡ true
    → alloc_entry a0 b0 g ≡ some g1
    → fill_entry a0 b0 g1 ≡ some g2
    → (if b0 + 1 == 128 then a0 + 1 else a0) ≡ a0'
    → (if b0 + 1 == 128 then 0 else b0 + 1) ≡ b0'
    → fill_indirect2 (suc fuel) a1 b1 a0 b0 g ≡ fill_indirect2 fuel a1 b1 a0' b0' g2
unfolding fill_indirect2
round_step fuel a1 b1 a0 b0 a0' b0' g g1 g2 more inside e1 e2 ea eb =
    rw (more, inside, e1) (rw e2 (rw (ea, eb) refl))

done_step :
    (fuel a1 b1 a0 b0 : ℕ) (g : Growth)
    → (ltb a0 a1 || (a0 == a1 && ltb b0 b1)) ≡ false
    → fill_indirect2 (suc fuel) a1 b1 a0 b0 g ≡ some g
unfolding fill_indirect2
done_step fuel a1 b1 a0 b0 g done = if_false _ _ done

more_true :
    (a1 b1 a0 b0 : ℕ)
    → b0 < 128
    → b1 < 128
    → a0 * 128 + b0 < a1 * 128 + b1
    → (ltb a0 a1 || (a0 == a1 && ltb b0 b1)) ≡ true
more_true a1 b1 a0 b0 h0 h1 h = ground arith

more_false : (a b : ℕ) → (ltb a a || (a == a && ltb b b)) ≡ false
more_false a b = ground arith

module _ (all : List ℕ) (size : ℕ) (kind : DiskInodeType) (distinct : IsDistinct all)
    (narrow : (i : ℕ) → i < length all → get_or all i 0 < 2 ^ 32) where
  abbrev Ends' : ℕ → Option Growth → Type 0
  Ends' = Ends all size kind distinct narrow

  -- The entry `b0` of block `a0`, and that block if it is the first entry.
  entry-Ends :
      (a0 b0 : ℕ) (g : Growth)
      → Indexed all size kind (place a0 b0) g
      → a0 < 128
      → b0 < 128
      → 160 + 129 * a0 + b0 ≤ length all
      → (g1 : Growth) × (g2 : Growth) × (alloc_entry a0 b0 g ≡ some g1)
        × (fill_entry a0 b0 g1 ≡ some g2)
        × Indexed all size kind (160 + 129 * a0 + b0) g2
  entry-Ends a0 b0 g x ha hb left =
      let (g1, e1, x1) =
        alloc_entry-Ends all size kind distinct narrow a0 b0 g x ha (omega arith) in
      let (g2, e2, x2) = fill_entry-Ends all size kind distinct narrow a0 b0 g1 x1 ha hb left in
      (g1, g2, e1, e2, x2)

  -- The loop ends with `a1` full blocks and `b1` entries in the next.
  pub fill_indirect2-Ends :
      (fuel a1 b1 a0 b0 : ℕ) (g : Growth)
      → Indexed all size kind (place a0 b0) g
      → b0 < 128
      → b1 < 128
      → a1 * 128 + b1 ≤ 16384
      → a0 * 128 + b0 ≤ a1 * 128 + b1
      → a1 * 128 + b1 < a0 * 128 + b0 + fuel
      → place a1 b1 ≤ length all
      → Ends' (place a1 b1) (fill_indirect2 fuel a1 b1 a0 b0 g)
  fill_indirect2-Ends zero a1 b1 a0 b0 g x h0 h1 bound le enough left = absurd (omega arith)
  fill_indirect2-Ends (suc fuel) a1 b1 a0 b0 g x h0 h1 bound le enough left =
      elim (dec_lt (a0 * 128 + b0) (a1 * 128 + b1)) [
        | no done ↦
            let ea : a0 ≡ a1 = omega arith in
            let eb : b0 ≡ b1 = omega arith in
            (
              g,
              done_step fuel a1 b1 a0 b0 g (rw (ea, eb) (more_false a1 b1)),
              subst (λ q. Indexed all size kind q g) (ap₂ place ea eb) x,
            )
        | yes more ↦
            let (g1, g2, e1, e2, x2) =
              entry-Ends a0 b0 g x (omega arith) h0 (omega (arith, place_lem a1 b1)) in
            elim (ℕ_discrete (b0 + 1) 128) [
              | yes full ↦
                  let (g3, e3, x3) =
                    fill_indirect2-Ends fuel a1 b1 (a0 + 1) 0 g2
                      (subst (λ q. Indexed all size kind q g2) (omega (arith, place_lem (a0 + 1) 0))
                        x2)
                      (omega arith) h1 bound (omega arith) (omega arith) left in
                  (
                    g3,
                    round_step fuel a1 b1 a0 b0 (a0 + 1) 0 g g1 g2
                          (more_true a1 b1 a0 b0 h0 h1 more) (lt→ltb a0 128 (omega arith)) e1 e2
                          (if_true _ _ (eq→== (b0 + 1) 128 full))
                          (if_true _ _ (eq→== (b0 + 1) 128 full))
                        ∙ e3,
                    x3,
                  )
              | no room ↦
                  let (g3, e3, x3) =
                    fill_indirect2-Ends fuel a1 b1 a0 (b0 + 1) g2
                      (subst (λ q. Indexed all size kind q g2)
                        (omega (arith, place_lem a0 (b0 + 1))) x2)
                      (omega arith) h1 bound (omega arith) (omega arith) left in
                  (
                    g3,
                    round_step fuel a1 b1 a0 b0 a0 (b0 + 1) g g1 g2
                          (more_true a1 b1 a0 b0 h0 h1 more) (lt→ltb a0 128 (omega arith)) e1 e2
                          (if_false _ _ (ne→not-== (b0 + 1) 128 room))
                          (if_false _ _ (ne→not-== (b0 + 1) 128 room))
                        ∙ e3,
                    x3,
                  )
            ]
      ]
