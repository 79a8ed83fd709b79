-- ===== src/Kernel/Address.antt =====
-- src/os/src/mm/address.rs: physical and virtual addresses and page numbers of Sv39. Each is a struct
-- around one `usize`, which is the number here. Shifts and sums of `usize` wrap at 2 ^ 64, as in the
-- release build that the Makefile makes.
pub mod Fields
pub mod Range
mod Tests
use project_r_core.Common.{
  ℕ, zero, suc, ◌+◌, ◌-◌, ◌*◌, ◌/◌, ◌%◌, ◌^◌, bit_and, bit_or, Bool, Option, none, some, List, [],
  ◌∷◌, leb, ◌==◌, if◌then◌else◌, assert, ◌>>=◌, ◌>>◌,
}

abbrev pub PhysAddr : Type 0
PhysAddr = ℕ

abbrev pub PhysPageNum : Type 0
PhysPageNum = ℕ

abbrev pub VirtAddr : Type 0
VirtAddr = ℕ

abbrev pub VirtPageNum : Type 0
VirtPageNum = ℕ

abbrev pub page_size_bits : ℕ
page_size_bits = 12

abbrev pub page_size : ℕ
page_size = 0x1000

abbrev pub pa_width_sv39 : ℕ
pa_width_sv39 = 56

abbrev pub va_width_sv39 : ℕ
va_width_sv39 = 39

abbrev pub ppn_width_sv39 : ℕ
ppn_width_sv39 = pa_width_sv39 - page_size_bits

abbrev pub vpn_width_sv39 : ℕ
vpn_width_sv39 = va_width_sv39 - page_size_bits

-- From<usize> for PhysAddr, PhysPageNum, VirtAddr and VirtPageNum.
unfoldable pub phys_addr_from : ℕ → PhysAddr
phys_addr_from v = bit_and v (2 ^ pa_width_sv39 - 1)

unfoldable pub phys_page_num_from : ℕ → PhysPageNum
phys_page_num_from v = bit_and v (2 ^ ppn_width_sv39 - 1)

unfoldable pub virt_addr_from : ℕ → VirtAddr
virt_addr_from v = bit_and v (2 ^ va_width_sv39 - 1)

unfoldable pub virt_page_num_from : ℕ → VirtPageNum
virt_page_num_from v = bit_and v (2 ^ vpn_width_sv39 - 1)

-- `floor`, `ceil`, `page_offset` and `aligned` read alike for PhysAddr and VirtAddr.
unfoldable pub floor : ℕ → ℕ
floor v = v / page_size

-- `self.0 - 1 + PAGE_SIZE`
unfoldable pub ceil : ℕ → ℕ
ceil v = ((v + 2 ^ 64 - 1) % 2 ^ 64 + page_size) % 2 ^ 64 / page_size

unfoldable pub page_offset : ℕ → ℕ
page_offset v = bit_and v (page_size - 1)

unfoldable pub aligned : ℕ → Bool
unfolding page_offset
aligned v = page_offset v == 0

-- From<PhysAddr> for PhysPageNum and From<VirtAddr> for VirtPageNum: `none` is the failed assertion.
unfoldable pub page_num_of_addr : ℕ → Option ℕ
unfolding aligned floor
page_num_of_addr v = do assert (aligned v); some (floor v)

-- From<PhysPageNum> for PhysAddr and From<VirtPageNum> for VirtAddr.
unfoldable pub addr_of_page_num : ℕ → ℕ
addr_of_page_num n = n * 2 ^ page_size_bits % 2 ^ 64

-- From<VirtAddr> for usize: bit 38 is copied to the bits above it.
unfoldable pub usize_of_virt_addr : VirtAddr → ℕ
usize_of_virt_addr v =
    if leb (2 ^ (va_width_sv39 - 1)) v then bit_or v (2 ^ 64 - 1 - (2 ^ va_width_sv39 - 1)) else v

-- `idxlen` bits of the page number for each level of the page table.
abbrev pub idxlen : ℕ
idxlen = vpn_width_sv39 / 3

-- VirtPageNum::indexes: the loop fills the array from its end.
pub record Indexes : Type 0 where
  pub idx0 : ℕ
  pub idx1 : ℕ
  pub idx2 : ℕ

unfoldable pub indexes : VirtPageNum → Indexes
indexes vpn =
    let rest = vpn / 2 ^ idxlen in
    let rest' = rest / 2 ^ idxlen in
    record {
      idx0 = bit_and rest' (2 ^ idxlen - 1);
      idx1 = bit_and rest (2 ^ idxlen - 1);
      idx2 = bit_and vpn (2 ^ idxlen - 1);
    }

-- StepByOne
abbrev pub step : ℕ → ℕ
step n = (n + 1) % 2 ^ 64

-- SimpleRange of page numbers.
pub record SimpleRange : Type 0 where
  pub l : ℕ
  pub r : ℕ

-- SimpleRangeIterator
pub record SimpleRangeIterator : Type 0 where
  pub current : ℕ
  pub end : ℕ

unfoldable pub into_iter : SimpleRange → SimpleRangeIterator
into_iter range = record { current = range.l; end = range.r }

unfoldable pub next : SimpleRangeIterator → Option (ℕ × SimpleRangeIterator)
next it =
    if it.current == it.end
    then none
    else some (it.current, record it { current = step it.current })

-- The items of a `for` loop over the iterator: `none` if the fuel is spent before its end.
unfoldable pub items : ℕ → SimpleRangeIterator → Option (List ℕ)
unfolding next
items zero it = none
items (suc fuel) it = elim (next it) [
  | none ↦ some []
  | some (n, it') ↦ do rest ← items fuel it'; some (n ∷ rest)
]
