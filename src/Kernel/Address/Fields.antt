-- ===== src/Kernel/Address/Fields.antt =====
-- src/os/src/mm/address.rs: an address and its page number and offset, the indexes of the three levels,
-- and the sign extension of virtual addresses.
use project_r_core.Common.{
  ℕ, ◌+◌, ◌-◌, ◌*◌, ◌/◌, ◌%◌, ◌^◌, ◌≤◌, ◌<◌, ◌≡◌, ◌⊎◌, inl, inr, some, none, arith, Bool-cases,
  dec_lt,
}
use project_r_core.Common.Bits.{bit_and_mask, bit_or_fields_right}
use project_r_core.Kernel.Address.{
  floor, ceil, page_offset, aligned, page_num_of_addr, addr_of_page_num, usize_of_virt_addr,
  virt_addr_from, phys_addr_from, phys_page_num_from, indexes,
}

pub phys_addr_from_mod : (v : ℕ) → phys_addr_from v ≡ v % 2 ^ 56
unfolding phys_addr_from
phys_addr_from_mod v = bit_and_mask 56 v

pub phys_page_num_from_mod : (v : ℕ) → phys_page_num_from v ≡ v % 2 ^ 44
unfolding phys_page_num_from
phys_page_num_from_mod v = bit_and_mask 44 v

pub virt_addr_from_mod : (v : ℕ) → virt_addr_from v ≡ v % 2 ^ 39
unfolding virt_addr_from
virt_addr_from_mod v = bit_and_mask 39 v

pub page_offset_mod : (v : ℕ) → page_offset v ≡ v % 4096
unfolding page_offset
page_offset_mod v = bit_and_mask 12 v

-- Page number and offset make up the address.
pub floor-page_offset : (v : ℕ) → v < 2 ^ 64 → addr_of_page_num (floor v) + page_offset v ≡ v
unfolding addr_of_page_num floor
floor-page_offset v h = omega (arith, page_offset_mod v)

-- The conversion of an address to its page number succeeds at the start of a page only, and is then
-- undone by the conversion back.
pub page_num_of_addr_lem :
    (v : ℕ)
    → v < 2 ^ 64
    → ((page_offset v ≡ 0) × ((n : ℕ) × (page_num_of_addr v ≡ some n) × (addr_of_page_num n ≡ v)))
      ⊎ ((0 < page_offset v) × (page_num_of_addr v ≡ none))
unfolding page_num_of_addr addr_of_page_num
page_num_of_addr_lem v h = elim (Bool-cases (aligned v)) [
  | inl fits ↦ inl (ground arith, (v / 4096, ground arith, ground (arith, page_offset_mod v)))
  | inr off ↦ inr (ground arith, ground arith)
]

-- `ceil` is the least page number whose address is not below the given one, except for addresses
-- in the last page, where the sum wraps.
pub ceil_lem :
    (v : ℕ) → v + 4096 ≤ 2 ^ 64 → (v ≤ ceil v * 4096) × ((n : ℕ) → v ≤ n * 4096 → ceil v ≤ n)
unfolding ceil
ceil_lem v h = (omega arith, λ n k. omega arith)

-- The indexes of the three levels are digits of the page number, and determine it.
pub indexes_lem :
    (vpn : ℕ)
    → vpn < 2 ^ 27
    → let i = indexes vpn in
      (i.idx0 < 512)
      × (i.idx1 < 512)
      × (i.idx2 < 512)
      × (i.idx0 * 2 ^ 18 + i.idx1 * 2 ^ 9 + i.idx2 ≡ vpn)
unfolding indexes
indexes_lem vpn h =
    omega (
      arith,
      bit_and_mask 9 (vpn / 2 ^ 9 / 2 ^ 9),
      bit_and_mask 9 (vpn / 2 ^ 9),
      bit_and_mask 9 vpn,
    )

-- The addresses that Sv39 can name: bits 39 to 63 repeat bit 38.
abbrev pub IsCanonical : ℕ → Type 0
IsCanonical v = (v < 2 ^ 38) ⊎ ((2 ^ 64 ≤ v + 2 ^ 38) × (v < 2 ^ 64))

usize_of_virt_addr_high :
    (v : ℕ) → 2 ^ 38 ≤ v → v < 2 ^ 39 → usize_of_virt_addr v ≡ 2 ^ 64 - 2 ^ 39 + v
unfolding usize_of_virt_addr
usize_of_virt_addr_high v lo hi = ground (arith, bit_or_fields_right 39 (2 ^ 25 - 1) v)

usize_of_virt_addr_low : (v : ℕ) → v < 2 ^ 38 → usize_of_virt_addr v ≡ v
unfolding usize_of_virt_addr
usize_of_virt_addr_low v h = ground arith

sign_extended :
    (v : ℕ)
    → v < 2 ^ 39
    → IsCanonical (usize_of_virt_addr v) × (virt_addr_from (usize_of_virt_addr v) ≡ v)
sign_extended v h = elim (dec_lt v (2 ^ 38)) [
  | yes low ↦
      let e = usize_of_virt_addr_low v low in
      (inl (omega arith), omega (arith, virt_addr_from_mod (usize_of_virt_addr v)))
  | no high ↦
      let e = usize_of_virt_addr_high v (omega arith) h in
      (inr (omega arith, omega arith), omega (arith, virt_addr_from_mod (usize_of_virt_addr v)))
]

truncated : (v : ℕ) → IsCanonical v → usize_of_virt_addr (virt_addr_from v) ≡ v
truncated v (inl low) =
    let e : virt_addr_from v ≡ v = omega (arith, virt_addr_from_mod v) in
    rw e (usize_of_virt_addr_low v low)
truncated v (inr (high, fits)) =
    let e : virt_addr_from v + (2 ^ 64 - 2 ^ 39) ≡ v = omega (arith, virt_addr_from_mod v) in
    omega (arith, e, usize_of_virt_addr_high (virt_addr_from v) (omega arith) (omega arith))

-- Virtual addresses and canonical `usize` values are the same thing: each conversion undoes the
-- other, and the sign extension is always canonical.
pub virt_addr_roundtrip :
    (v : ℕ)
    → (v < 2 ^ 39
        → IsCanonical (usize_of_virt_addr v) × (virt_addr_from (usize_of_virt_addr v) ≡ v))
      × (IsCanonical v → usize_of_virt_addr (virt_addr_from v) ≡ v)
virt_addr_roundtrip v = (sign_extended v, truncated v)
