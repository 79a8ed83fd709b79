-- ===== src/Kernel/UserBuffer.antt =====
-- src/os/src/mm/page_table.rs: the buffers of a user program as pieces of physical frames, and the iterator
-- over their bytes. A `&mut [u8]` is its address and its length, a `*mut u8` an address.
pub mod Pieces
mod Tests
use project_r_core.Common.{
  ℕ, zero, suc, ◌+◌, ◌-◌, ◌%◌, ◌^◌, min, Option, none, some, List, [], ◌∷◌, ◌==◌, ltb,
  if◌then◌else◌, assert, ◌>>=◌, ◌>>◌, get_elem?,
}
use project_r_core.Common.Bytes.{Bytes}
use project_r_core.Kernel.Address.{
  virt_addr_from, usize_of_virt_addr, addr_of_page_num, floor, page_offset, step,
}
use project_r_core.Kernel.PageTable.{
  PageTable, find_pte, read_pte, pte_ppn, from_token, translate_va,
}

-- A piece of memory: its address and its length.
pub record Slice : Type 0 where
  pub base : ℕ
  pub len : ℕ

pub record UserBuffer : Type 0 where
  pub buffers : List Slice

-- The loop of `translated_byte_buffer`, on fuel; `none` is the panic for a page without a table.
pub translate_loop : ℕ → PageTable → Bytes → ℕ → ℕ → Option (List Slice)
translate_loop zero t mem start end = none
translate_loop (suc fuel) t mem start end =
    let start_va = virt_addr_from start in
    let vpn = floor start_va in
    let end_va = min (addr_of_page_num (step vpn)) (virt_addr_from end) in
    let piece : ℕ → Slice = λ at.
      let bytes = addr_of_page_num (pte_ppn (read_pte mem at)) in
      record {
        base = bytes + page_offset start_va;
        len = (if page_offset end_va == 0 then 4096 else page_offset end_va) - page_offset start_va;
      } in
    let rest = translate_loop fuel t mem (usize_of_virt_addr end_va) end in
    if ltb start end
    then (find_pte mem t vpn >>= λ at. rest >>= λ pieces. some (piece at ∷ pieces))
    else some []

pub translated_byte_buffer : ℕ → ℕ → ℕ → Bytes → Option (List Slice)
unfolding translate_loop
translated_byte_buffer token ptr len mem =
    translate_loop (len + 1) (from_token token) mem ptr ((ptr + len) % 2 ^ 64)

-- The loop of `translated_str`, on fuel: the bytes up to the first 0.
pub str_loop : ℕ → PageTable → Bytes → ℕ → Option (List ℕ)
str_loop zero t mem va = none
str_loop (suc fuel) t mem va =
    let rest = str_loop fuel t mem (va + 1) in
    translate_va t (virt_addr_from va) mem >>= λ pa.
    if mem pa == 0 then some [] else (rest >>= λ string. some (mem pa ∷ string))

pub translated_str : ℕ → ℕ → ℕ → Bytes → Option (List ℕ)
unfolding str_loop
translated_str fuel token ptr mem = str_loop fuel (from_token token) mem ptr

-- translated_ref and translated_ref_mut: the physical address behind the pointer.
pub translated_ref : ℕ → ℕ → Bytes → Option ℕ
translated_ref token ptr mem = translate_va (from_token token) (virt_addr_from ptr) mem

-- UserBuffer::len
pub total_len : List Slice → ℕ
total_len [] = 0
total_len (s ∷ ss) = s.len + total_len ss

pub record UserBufferIterator : Type 0 where
  pub buffers : List Slice
  pub current_buffer : ℕ
  pub current_idx : ℕ

pub into_iter : UserBuffer → UserBufferIterator
into_iter b = record { buffers = b.buffers; current_buffer = 0; current_idx = 0 }

-- The body of `next` on the current piece; `none` is a panic for an index out of range.
pub next_in : UserBufferIterator → Slice → Option (ℕ × UserBufferIterator)
next_in it s =
    assert (ltb it.current_idx s.len)
    >> some (
      s.base + it.current_idx,
      (if it.current_idx + 1 == s.len
          then record it { current_buffer = it.current_buffer + 1; current_idx = 0 }
          else record it { current_idx = it.current_idx + 1 }),
    )

-- UserBufferIterator::next: `some none` is the end.
pub next : UserBufferIterator → Option (Option (ℕ × UserBufferIterator))
unfolding next_in
next it = elim (get_elem? it.buffers it.current_buffer) [
  | none ↦ some none
  | some s ↦ next_in it s >>= λ r. some (some r)
]

-- A `for` loop over the iterator, on fuel.
pub collect : ℕ → UserBufferIterator → Option (List ℕ)
unfolding next
collect zero it = none
collect (suc fuel) it = next it >>= λ r. elim r [
  | none ↦ some []
  | some (at, it') ↦ collect fuel it' >>= λ rest. some (at ∷ rest)
]
