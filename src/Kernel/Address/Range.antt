-- ===== src/Kernel/Address/Range.antt =====
-- `SimpleRange` of src/os/src/mm/address.rs: which page numbers a `for` loop visits.
use project_r_core.Common.{
  ℕ, zero, suc, ◌+◌, ◌-◌, ◌≤◌, ◌<◌, ◌^◌, ◌≡◌, refl, some, none, List, [], ◌∷◌, arith,
}
use project_r_core.Kernel.Address.{SimpleRange, into_iter, items, step}

-- l, l + 1, …, n of them.
abbrev pub count_from : ℕ → ℕ → List ℕ
count_from l zero = []
count_from l (suc n) = l ∷ count_from (l + 1) n

items_from :
    (n fuel l r : ℕ)
    → l + n ≡ r
    → r < 2 ^ 64
    → n < fuel
    → items fuel (record { current = l; end = r }) ≡ some (count_from l n)
unfolding items
items_from n zero l r e h k = absurd (omega arith)
items_from zero (suc fuel) l r e h k = ground arith
items_from (suc n) (suc fuel) l r e h k =
    let s : step l ≡ l + 1 = omega arith in
    ground (arith, s, items_from n fuel (l + 1) r (omega arith) h (omega arith))

pub range_items :
    (range : SimpleRange) (fuel : ℕ)
    → range.l ≤ range.r
    → range.r < 2 ^ 64
    → range.r - range.l < fuel
    → items fuel (into_iter range) ≡ some (count_from range.l (range.r - range.l))
unfolding into_iter
range_items range fuel h k enough =
    items_from (range.r - range.l) fuel range.l range.r (omega arith) k enough

items_above :
    (fuel l r : ℕ) → r < l → l + fuel ≤ 2 ^ 64 → items fuel (record { current = l; end = r }) ≡ none
unfolding items
items_above zero l r h k = refl
items_above (suc zero) l r h k = ground arith
items_above (suc (suc fuel)) l r h k =
    let s : step l ≡ l + 1 = omega arith in
    ground (arith, s, items_above (suc fuel) (l + 1) r (omega arith) (omega arith))

-- Started above its end, a loop does not stop before the number wraps: it visits every page number
-- from its start to 2 ^ 64 - 1.
pub range_overruns :
    (fuel l r : ℕ)
    → r < l
    → l + fuel ≤ 2 ^ 64
    → items fuel (into_iter (record { l = l; r = r })) ≡ none
unfolding into_iter
range_overruns fuel l r h k = items_above fuel l r h k
