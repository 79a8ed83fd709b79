-- ===== src/Kernel/PageTable/Entry.antt =====
-- src/os/src/mm/page_table.rs: what a page table entry and a `satp` token hold.
use project_r_core.Common.{
  ℕ, ◌+◌, ◌*◌, ◌/◌, ◌%◌, ◌^◌, ◌-◌, ◌<◌, ◌≡◌, ◌∙◌, ap, arith, bit_and, bit_or, true, false, not,
  ◌==◌,
}
use project_r_core.Common.Bits.{bit_and_mask, bit_or_fields, bit_or_step, bit_or-zero}
use project_r_core.Kernel.Address.Fields.{phys_page_num_from_mod}
use project_r_core.Kernel.PageTable.{
  pte_new, pte_ppn, pte_flags, is_valid, PageTable, from_token, token, flag_v,
}

pub pte_ppn_lem : (bits : ℕ) → pte_ppn bits ≡ bits / 2 ^ 10 % 2 ^ 44
unfolding pte_ppn
pte_ppn_lem bits =
    phys_page_num_from_mod (bit_and (bits / 2 ^ 10) (2 ^ 44 - 1))
    ∙ ap (λ n. n % 2 ^ 44) (bit_and_mask 44 (bits / 2 ^ 10))
    ∙ omega arith

pub pte_ppn-lt : (bits : ℕ) → pte_ppn bits < 2 ^ 44
pte_ppn-lt bits = omega (arith, pte_ppn_lem bits)

pub pte_new_lem :
    (ppn flags : ℕ) → ppn < 2 ^ 44 → flags < 2 ^ 8 → pte_new ppn flags ≡ ppn * 2 ^ 10 + flags
unfolding pte_new
pte_new_lem ppn flags h k =
    let e : ppn * 2 ^ 10 % 2 ^ 64 ≡ ppn * 2 ^ 10 = omega arith in
    rw e (bit_or_fields 10 ppn flags (omega arith))

is_valid_odd : (bits : ℕ) → is_valid bits ≡ not (bits % 2 == 0)
unfolding is_valid
is_valid_odd bits = ground (arith, bit_and_mask 1 (bits % 2 ^ 8))

pub with_flag_v : (flags : ℕ) → bit_or flags flag_v ≡ flags / 2 * 2 + 1
with_flag_v flags = omega (arith, bit_or_step flags 1, bit_or-zero (flags / 2))

-- An entry gives back the frame number and the flags that it was made of; with the flag V it is
-- valid, and the empty entry is not.
pub pte_roundtrip :
    (ppn flags : ℕ)
    → ppn < 2 ^ 44
    → flags < 2 ^ 8
    → (pte_ppn (pte_new ppn flags) ≡ ppn)
      × (pte_flags (pte_new ppn flags) ≡ flags)
      × (is_valid (pte_new ppn (bit_or flags flag_v)) ≡ true)
      × (is_valid 0 ≡ false)
unfolding pte_flags
pte_roundtrip ppn flags h k =
    let e = pte_new_lem ppn flags h k in
    let e' = pte_new_lem ppn (bit_or flags flag_v) h (omega (arith, with_flag_v flags)) in
    (
      omega (arith, pte_ppn_lem (pte_new ppn flags), e),
      omega (arith, e),
      ground (arith, is_valid_odd (pte_new ppn (bit_or flags flag_v)), e', with_flag_v flags),
      ground (arith, is_valid_odd 0),
    )

-- The token selects Sv39 and leads back to the same root table.
pub token_roundtrip :
    (t : PageTable)
    → t.root_ppn < 2 ^ 44
    → (token t / 2 ^ 60 ≡ 8) × ((from_token (token t)).root_ppn ≡ t.root_ppn)
unfolding token from_token
token_roundtrip t h =
    let e : bit_or (8 * 2 ^ 60) t.root_ppn ≡ 8 * 2 ^ 60 + t.root_ppn =
      bit_or_fields 60 8 t.root_ppn (omega arith) in
    (omega (arith, e), omega (arith, e, phys_page_num_from_mod (token t)))
