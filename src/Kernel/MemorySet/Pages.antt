-- ===== src/Kernel/MemorySet/Pages.antt =====
-- `copy_pages` of src/os/src/mm/memory_set.rs, the loop of `from_existed_user` over the pages of an area.
use project_r_core.Common.{
  ℕ, zero, suc, ◌+◌, ◌*◌, ◌%◌, ◌/◌, ◌^◌, ◌≤◌, ◌<◌, ◌≡◌, refl, ◌≢◌, ◌∙◌, ap, sym, arith, some,
  ℕ_discrete, eq→==, ne→not-==,
}
use project_r_core.Common.Bytes.{Bytes}
use project_r_core.Kernel.Address.{floor, addr_of_page_num}
use project_r_core.Kernel.Address.Range.{count_from}
use project_r_core.Kernel.Frames.{Machine}
use project_r_core.Kernel.PageTable.{PageTableEntry, pte_ppn, translate}
use project_r_core.Kernel.MemorySet.{MemorySet, copy_frame, copy_pages}

copy_frame-outside :
    (dst src at : ℕ) (mem : Bytes) → floor at ≢ dst → copy_frame dst src mem at ≡ mem at
unfolding copy_frame
copy_frame-outside dst src at mem ne = rw (ne→not-== (floor at) dst ne) refl

copy_frame-inside :
    (dst src o : ℕ) (mem : Bytes)
    → src < 2 ^ 44
    → o < 4096
    → copy_frame dst src mem (dst * 4096 + o) ≡ mem (src * 4096 + o)
unfolding copy_frame floor addr_of_page_num
copy_frame-inside dst src o mem hs ho =
    let at : (dst * 4096 + o) / 4096 ≡ dst = omega arith in
    let from : src * 2 ^ 12 % 2 ^ 64 + (dst * 4096 + o) % 4096 ≡ src * 4096 + o = omega arith in
    rw (eq→== _ dst at) (ap mem from)

pub in_frame : (p o : ℕ) → o < 4096 → floor (p * 4096 + o) ≡ p
unfolding floor
in_frame p o ho = omega arith

-- Only the frames `dst` of the pages l, l + 1, …, n of them, may differ.
abbrev pub Agrees : (ℕ → ℕ) → ℕ → ℕ → Bytes → Bytes → Type 0
Agrees dst l n mem mem' =
    (at : ℕ) → ((page : ℕ) → l ≤ page → page < l + n → floor at ≢ dst page) → mem' at ≡ mem at

-- A page leads to the frame `src page` in the one space and to `dst page` in the other.
abbrev pub LeadsTo : MemorySet → MemorySet → (ℕ → ℕ) → (ℕ → ℕ) → Bytes → ℕ → Type 0
LeadsTo user s src dst mem page =
    (e : PageTableEntry) × (e' : PageTableEntry) × (translate user.page_table page mem ≡ some e)
    × (pte_ppn e ≡ src page)
    × (translate s.page_table page mem ≡ some e')
    × (pte_ppn e' ≡ dst page)

-- If every page leads to its frames as long as only the frames `dst` change, those frames are distinct,
-- and none of them is a source, each gets the bytes of the source, and no other byte changes.
pub copy_pages_lem :
    (user s : MemorySet) (src dst : ℕ → ℕ) (n l : ℕ) (m : Machine)
    → ((mem' : Bytes)
        → Agrees dst l n m.mem mem'
        → (page : ℕ) → l ≤ page
        → page < l + n
        → LeadsTo user s src dst mem' page)
    → ((a b : ℕ) → l ≤ a → a < b → b < l + n → dst a ≢ dst b)
    → ((a b : ℕ) → l ≤ a → a < l + n → l ≤ b → b < l + n → src a ≢ dst b)
    → ((page : ℕ) → l ≤ page → page < l + n → src page < 2 ^ 44)
    → (mem' : Bytes) × (copy_pages user s (count_from l n) m ≡ some (record m { mem = mem' }))
      × Agrees dst l n m.mem mem'
      × ((page o : ℕ)
          → l ≤ page
          → page < l + n
          → o < 4096
          → mem' (dst page * 4096 + o) ≡ m.mem (src page * 4096 + o))
unfolding copy_pages
copy_pages_lem user s src dst zero l m leads distinct apart narrow =
    (m.mem, refl, (λ at off. refl), λ page o lo hi ho. absurd (omega arith))
copy_pages_lem user s src dst (suc n) l m leads distinct apart narrow =
    let (e, e', found, p, found', q) = leads m.mem (λ at off. refl) l (omega arith) (omega arith) in
    let m1 : Machine = record m { mem = copy_frame (dst l) (src l) m.mem } in
    let wider : (mem' : Bytes)
        → Agrees dst (l + 1) n m1.mem mem'
        → Agrees dst l (suc n) m.mem mem' =
      λ mem' same at off.
        same at (λ page lo hi. off page (omega arith) (omega arith))
        ∙ copy_frame-outside (dst l) (src l) at m.mem (off l (omega arith) (omega arith)) in
    let (mem', done, agrees, copied) =
      copy_pages_lem user s src dst n (l + 1) m1
        (λ mem' same page lo hi. leads mem' (wider mem' same) page (omega arith) (omega arith))
        (λ a b lo ab hi. distinct a b (omega arith) ab (omega arith))
        (λ a b lo hi lo' hi'. apart a b (omega arith) (omega arith) (omega arith) (omega arith))
        (λ page lo hi. narrow page (omega arith) (omega arith)) in
    (
      mem',
      rw (found, found', p, q) done,
      wider mem' agrees,
      λ page o lo hi ho. elim (ℕ_discrete page l) [
        | yes same ↦ rw same (
            agrees (dst l * 4096 + o) (λ b lo' hi' eq.
              distinct l b (omega arith) (omega arith) (omega arith)
                (sym (in_frame (dst l) o ho) ∙ eq))
            ∙ copy_frame-inside (dst l) (src l) o m.mem (narrow l (omega arith) (omega arith)) ho)
        | no ne ↦
            copied page o (omega arith) (omega arith) ho
            ∙ copy_frame-outside (dst l) (src l) (src page * 4096 + o) m.mem (λ eq.
              apart page l lo hi (omega arith) (omega arith) (sym (in_frame (src page) o ho) ∙ eq))
      ],
    )
