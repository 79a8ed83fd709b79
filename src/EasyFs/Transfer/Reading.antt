-- ===== src/EasyFs/Transfer/Reading.antt =====
-- src/easy-fs/src/layout.rs: `read_at` reads the bytes of the file from `offset` on.
use project_r_core.Common.{
  ℕ, zero, suc, ◌+◌, ◌-◌, ◌*◌, ◌/◌, ◌%◌, ◌^◌, ◌≤◌, ◌<◌, ◌≡◌, refl, ◌⊎◌, inl, inr, ◌∙◌, ap, ap₂, sym,
  arith, min, Bool, true, Option, none, some, List, [], ◌∷◌, ◌++◌, if_true, if_false, ℕ_discrete,
  dec_le, eq→==, ne→not-==, le→leb, lt→not-leb, lt→ltb, assert, ◌>>◌, length,
}
use project_r_core.EasyFs.Disk.{Disk}
use project_r_core.EasyFs.Layout.{DiskInode, get_block_id}
use project_r_core.EasyFs.Transfer.{slice, read_loop, read_at}
use project_r_core.EasyFs.Resize.Increase.{max_size}

abbrev or_zero : Option ℕ → ℕ
or_zero none = 0
or_zero (some b) = b

-- The block of part `i` of a file, for any `i`.
pub block_of : DiskInode → Disk → ℕ → ℕ
block_of inode d i = or_zero (get_block_id inode i d)

-- Byte `i` of a file.
unfoldable pub file_byte : DiskInode → Disk → ℕ → ℕ
unfolding block_of
file_byte inode d i = d (block_of inode d (i / 512)) (i % 512)

-- `n` bytes of a file from the `from`-th on.
unfoldable pub file_bytes : DiskInode → Disk → ℕ → ℕ → List ℕ
file_bytes inode d from zero = []
file_bytes inode d from (suc n) = file_byte inode d from ∷ file_bytes inode d (from + 1) n

assert-some : {b : Bool} → b ≡ true → (x : ℕ) → (assert b >> some x) ≡ some x
assert-some e x = rw e refl

get_block_id-some :
    (inode : DiskInode) (d : Disk) (i : ℕ) → i < 16540 → (b : ℕ) × (get_block_id inode i d ≡ some b)
unfolding get_block_id
get_block_id-some inode d i h = (_, assert-some (lt→ltb i 16540 h) _)

get_block_id-block_of :
    (inode : DiskInode) (d : Disk) (i : ℕ)
    → i < 16540
    → get_block_id inode i d ≡ some (block_of inode d i)
unfolding block_of
get_block_id-block_of inode d i h =
    let (b, e) = get_block_id-some inode d i h in e ∙ sym (ap (λ r. some (or_zero r)) e)

file_bytes-append :
    (inode : DiskInode) (d : Disk) (from mid n k : ℕ)
    → from + n ≡ mid
    → file_bytes inode d from n ++ file_bytes inode d mid k ≡ file_bytes inode d from (n + k)
unfolding file_bytes
file_bytes-append inode d from mid zero k e =
    ap (λ i. file_bytes inode d i k) {x = mid} {y = from} (omega arith)
    ∙ ap (file_bytes inode d from) {x = k} {y = 0 + k} (omega arith)
file_bytes-append inode d from mid (suc n) k e =
    ap (◌∷◌ (file_byte inode d from)) (file_bytes-append inode d (from + 1) mid n k (omega arith))
    ∙ ap (file_bytes inode d from) {x = suc (n + k)} {y = suc n + k} (omega arith)

length-file_bytes :
    (inode : DiskInode) (d : Disk) (from n : ℕ) → length (file_bytes inode d from n) ≡ n
unfolding file_bytes
length-file_bytes inode d from zero = refl
length-file_bytes inode d from (suc n) = ap suc (length-file_bytes inode d (from + 1) n)

-- A part of one block.
slice-file_bytes :
    (inode : DiskInode) (d : Disk) (b r from n : ℕ)
    → ((k : ℕ) → k < n → d b (r + k) ≡ file_byte inode d (from + k))
    → slice (d b) r n ≡ file_bytes inode d from n
unfolding slice file_bytes
slice-file_bytes inode d b r from zero same = refl
slice-file_bytes inode d b r from (suc n) same =
    ap₂ ◌∷◌
      (ap (d b) {x = r} {y = r + 0} (omega arith)
        ∙ same 0 (omega arith)
        ∙ ap (file_byte inode d) {x = from + 0} {y = from} (omega arith))
      (slice-file_bytes inode d b (r + 1) (from + 1) n (λ k h.
        ap (d b) {x = r + 1 + k} {y = r + (k + 1)} (omega arith)
        ∙ same (k + 1) (omega arith)
        ∙ ap (file_byte inode d) {x = from + (k + 1)} {y = from + 1 + k} (omega arith)))

module _ (inode : DiskInode) (d : Disk) (end : ℕ) (bound : end ≤ max_size) where
  -- One round of the loop.
  round-file_bytes :
      (start n : ℕ)
      → start % 512 + n ≤ 512
      → slice (d (block_of inode d (start / 512))) (start % 512) n ≡ file_bytes inode d start n
  unfolding file_byte
  round-file_bytes start n h =
      slice-file_bytes inode d (block_of inode d (start / 512)) (start % 512) start n λ k lt.
        let q : (start + k) / 512 ≡ start / 512 = omega arith in
        let r : (start + k) % 512 ≡ start % 512 + k = omega arith in rw (q, r) refl

  read_loop-file_bytes :
      (fuel offset start sb : ℕ) (got : List ℕ)
      → offset ≤ start
      → start < end
      → (start % 512 ≡ 0) ⊎ (start ≡ offset)
      → got ≡ file_bytes inode d offset (start - offset)
      → sb ≡ start / 512
      → end / 512 < sb + fuel
      → read_loop fuel inode d end start sb got
        ≡ some (end - offset, file_bytes inode d offset (end - offset))
  unfolding read_loop
  read_loop-file_bytes zero offset start sb got from to aligned e block enough =
      absurd (omega arith)
  read_loop-file_bytes (suc fuel) offset start sb got from to aligned e block enough =
      let stop = min ((sb + 1) * 512) end in
      let n = stop - start in
      let part =
        ap (λ t. slice (d (block_of inode d t)) (start % 512) n) block
        ∙ round-file_bytes start n (omega arith) in
      let narrow : sb % 2 ^ 32 ≡ sb = omega arith in
      let got' : got ++ slice (d (block_of inode d sb)) (start % 512) n
          ≡ file_bytes inode d offset (stop - offset) =
        ap₂ ◌++◌ e part
        ∙ file_bytes-append inode d offset start (start - offset) n (omega arith)
        ∙ ap (file_bytes inode d offset) {x = start - offset + n} {y = stop - offset}
            (omega arith) in
      rw (narrow, get_block_id-block_of inode d sb (omega arith), got')
        (elim (ℕ_discrete stop end) [
          | yes last ↦
              if_true _ _ (eq→== stop end last)
              ∙ ap₂ (λ k xs. some (k, xs))
                  (length-file_bytes inode d offset (stop - offset) ∙ ap (λ t. t - offset) last)
                  (ap (λ t. file_bytes inode d offset (t - offset)) last)
          | no more ↦
              if_false _ _ (ne→not-== stop end more)
              ∙ read_loop-file_bytes fuel offset stop (sb + 1)
                  (file_bytes inode d offset (stop - offset)) (omega arith) (omega arith)
                  (inl (omega arith)) refl (omega arith) (omega arith)
        ])

-- `read_at` succeeds and returns the bytes of the file from `offset` on, up to the length of the
-- buffer or the end of the file: for a file that is not above the greatest size, and a buffer whose
-- end fits in a `usize`.
pub read_at-file_bytes :
    (inode : DiskInode) (offset len : ℕ) (d : Disk)
    → inode.size ≤ max_size
    → offset + len < 2 ^ 64
    → let n = min (offset + len) inode.size - offset in
      read_at inode offset len d ≡ some (n, file_bytes inode d offset n)
unfolding read_at file_bytes
read_at-file_bytes inode offset len d bound fits =
    let wrap : (offset + len) % 2 ^ 64 ≡ offset + len = omega arith in
    let end = min (offset + len) inode.size in
    rw wrap (elim (dec_le end offset) [
      | yes past ↦
          let none_left : end - offset ≡ 0 = omega arith in
          if_true _ _ (le→leb end offset past) ∙ rw none_left refl
      | no some_left ↦
          if_false _ _ (lt→not-leb end offset (omega arith))
          ∙ read_loop-file_bytes inode d end (omega arith) (end / 512 + 1) offset offset
              (offset / 512) [] (omega arith) (omega arith) (inr refl)
              (ap (file_bytes inode d offset) {x = 0} {y = offset - offset} (omega arith)) refl
              (omega arith)
    ])
