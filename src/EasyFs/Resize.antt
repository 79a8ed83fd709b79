-- ===== src/EasyFs/Resize.antt =====
-- src/easy-fs/src/layout.rs: `increase_size`, which enters new blocks in the index of an inode, and
-- `clear_size`, which takes all of them out. `none` is a panic: an iterator that is used up, an index
-- out of range, a failed assertion.
pub mod Index
pub mod Enter
pub mod Fill
pub mod Second
pub mod Loop
pub mod Grow
pub mod Increase
pub mod Take
pub mod Clear
mod Tests
use project_r_core.Common.{
  ℕ, zero, suc, ◌+◌, ◌-◌, ◌*◌, ◌/◌, ◌%◌, min, Bool, true, false, Option, none, some, List, [], ◌∷◌,
  ◌++◌, ◌==◌, ◌&&◌, ◌||◌, ltb, leb, if◌then◌else◌, assert, ◌>>=◌, ◌>>◌, get_or, set,
}
use project_r_core.EasyFs.Disk.{Disk, word, set_word}
use project_r_core.EasyFs.Layout.{
  DiskInode, data_blocks, data_blocks_of, inode_direct_count, inode_indirect1_count,
  inode_indirect2_count,
}

-- The variables of `increase_size`, with the blocks that the iterator has left.
pub record Growth : Type 0 where
  pub current_blocks : ℕ
  pub inode : DiskInode
  pub disk : Disk
  pub new_blocks : List ℕ

-- new_blocks_iter.next().unwrap()
pub next_block : Growth → Option (ℕ × Growth)
next_block g = elim g.new_blocks [ [] ↦ none | b ∷ rest ↦ some (b, record g { new_blocks = rest }) ]

-- The loop over `direct`, with `n` rounds left.
pub fill_direct : ℕ → Growth → Option Growth
fill_direct zero g = some g
fill_direct (suc n) g = do
  (b, g') ← next_block g
  let inode' : DiskInode = record g'.inode { direct = set g'.inode.direct g'.current_blocks b }
  fill_direct n (record g' { inode = inode'; current_blocks = g'.current_blocks + 1 })

pub alloc_indirect1 : Growth → Option Growth
alloc_indirect1 g =
    if g.current_blocks == inode_direct_count
    then (next_block g >>= λ r. some (record r.1 { inode = record r.1.inode { indirect1 = r.0 } }))
    else some g

-- The loop over the block `indirect1`, with `n` rounds left.
pub fill_indirect1 : ℕ → Growth → Option Growth
fill_indirect1 zero g = some g
fill_indirect1 (suc n) g = do
  (b, g') ← next_block g
  let disk' = set_word 4 g'.disk g'.inode.indirect1 g'.current_blocks b
  fill_indirect1 n (record g' { disk = disk'; current_blocks = g'.current_blocks + 1 })

pub alloc_indirect2 : Growth → Option Growth
alloc_indirect2 g =
    if g.current_blocks == inode_indirect1_count
    then (next_block g >>= λ r. some (record r.1 { inode = record r.1.inode { indirect2 = r.0 } }))
    else some g

-- if b0 == 0 { indirect2_block[a0] = .. }
pub alloc_entry : ℕ → ℕ → Growth → Option Growth
alloc_entry a0 b0 g =
    if b0 == 0
    then (next_block g >>= λ r.
        some (record r.1 { disk = set_word 4 r.1.disk r.1.inode.indirect2 a0 r.0 }))
    else some g

pub fill_entry : ℕ → ℕ → Growth → Option Growth
fill_entry a0 b0 g = do
  (b, g') ← next_block g
  some (record g' { disk = set_word 4 g'.disk (word 4 g'.disk g'.inode.indirect2 a0) b0 b })

-- The loop over the block `indirect2`, on fuel.
pub fill_indirect2 : ℕ → ℕ → ℕ → ℕ → ℕ → Growth → Option Growth
unfolding alloc_entry fill_entry
fill_indirect2 zero a1 b1 a0 b0 g = none
fill_indirect2 (suc fuel) a1 b1 a0 b0 g =
    let full = b0 + 1 == inode_indirect1_count in
    let next : Growth → Option Growth =
      fill_indirect2 fuel a1 b1 (if full then a0 + 1 else a0) (if full then 0 else b0 + 1) in
    if ltb a0 a1 || (a0 == a1 && ltb b0 b1)
    then (assert (ltb a0 inode_indirect1_count)
        >> alloc_entry a0 b0 g
        >>= fill_entry a0 b0
        >>= next)
    else some g

-- From `// alloc indirect2 block` on, with what is left to fill.
pub grow_indirect2 : ℕ → Growth → Option Growth
unfolding fill_indirect2 alloc_indirect2
grow_indirect2 total g = do
  g' ← alloc_indirect2 g
  let current = g'.current_blocks - inode_indirect1_count
  let rest = total - inode_indirect1_count
  fill_indirect2 (rest - current + 1) (rest / inode_indirect1_count) (rest % inode_indirect1_count)
      (current / inode_indirect1_count) (current % inode_indirect1_count) g'

-- From `// alloc indirect1 block` on.
pub grow_indirect1 : ℕ → Growth → Option Growth
unfolding grow_indirect2 alloc_indirect1 fill_indirect1
grow_indirect1 total g = do
  g1 ← alloc_indirect1 g
  let g2 : Growth = record g1 { current_blocks = g1.current_blocks - inode_direct_count }
  let rest = total - inode_direct_count
  g3 ← fill_indirect1 (min rest inode_indirect1_count - g2.current_blocks) g2
  if leb rest inode_indirect1_count then some g3 else grow_indirect2 rest g3

pub grow : ℕ → Growth → Option Growth
unfolding grow_indirect1 fill_direct
grow total g = do
  g' ← fill_direct (min total inode_direct_count - g.current_blocks) g
  if leb total inode_direct_count then some g' else grow_indirect1 total g'

pub increase_size : DiskInode → ℕ → List ℕ → Disk → Option (DiskInode × Disk)
unfolding grow
increase_size inode new_size new_blocks d = do
  g ← grow (data_blocks_of new_size) (record {
    current_blocks = data_blocks inode;
    inode = record inode { size = new_size };
    disk = d;
    new_blocks = new_blocks;
  })
  some (g.inode, g.disk)

-- The variables of `clear_size`.
pub record Clearing : Type 0 where
  pub inode : DiskInode
  pub disk : Disk
  pub v : List ℕ

pub push : Clearing → ℕ → Clearing
push c b = record c { v = c.v ++ (b ∷ []) }

-- The loop over `direct`, with `n` rounds left.
pub clear_direct : ℕ → ℕ → Clearing → Clearing
unfolding push
clear_direct zero current c = c
clear_direct (suc n) current c =
    let c' = push c (get_or c.inode.direct current 0) in
    clear_direct n (current + 1)
      (record c' { inode = record c'.inode { direct = set c'.inode.direct current 0 } })

-- The loop over the block `indirect1`.
pub clear_indirect1 : ℕ → ℕ → Clearing → Clearing
unfolding push
clear_indirect1 zero current c = c
clear_indirect1 (suc n) current c =
    let c' = push c (word 4 c.disk c.inode.indirect1 current) in
    clear_indirect1 n (current + 1)
      (record c' { disk = set_word 4 c'.disk c'.inode.indirect1 current 0 })

-- The first entries of a block, from the `j`-th on; nothing is written.
pub push_entries : ℕ → ℕ → ℕ → Clearing → Clearing
unfolding push
push_entries zero j b c = c
push_entries (suc n) j b c = push_entries n (j + 1) b (push c (word 4 c.disk b j))

-- The first entries of the block `indirect2`, each followed by the entries of its block.
pub push_full : ℕ → ℕ → Clearing → Clearing
unfolding push push_entries
push_full zero a c = c
push_full (suc n) a c =
    let entry = word 4 c.disk c.inode.indirect2 a in
    push_full n (a + 1) (push_entries inode_indirect1_count 0 entry (push c entry))

pub clear_indirect2 : ℕ → Clearing → Option Clearing
unfolding push push_entries push_full
clear_indirect2 rest c =
    let c1 = push c c.inode.indirect2 in
    let a1 = rest / inode_indirect1_count in
    let b1 = rest % inode_indirect1_count in
    let c2 = push_full (min a1 inode_indirect1_count) 0 c1 in
    let last = word 4 c2.disk c2.inode.indirect2 a1 in
    let c3 = if ltb 0 b1 then push_entries b1 0 last (push c2 last) else c2 in
    assert (leb rest inode_indirect2_count)
    >> some (record c3 { inode = record c3.inode { indirect2 = 0 } })

pub clear_index : ℕ → Clearing → Option Clearing
unfolding push clear_direct clear_indirect1 clear_indirect2
clear_index blocks c =
    let c1 = clear_direct (min blocks inode_direct_count) 0 c in
    let rest = blocks - inode_direct_count in
    let c2 = clear_indirect1 (min rest inode_indirect1_count) 0 (push c1 c1.inode.indirect1) in
    let c3 = record c2 { inode = record c2.inode { indirect1 = 0 } } in
    if leb blocks inode_direct_count
    then some c1
    else if leb rest inode_indirect1_count
    then some c3
    else clear_indirect2 (rest - inode_indirect1_count) c3

pub clear_size : DiskInode → Disk → Option Clearing
unfolding clear_index
clear_size inode d =
    clear_index (data_blocks inode) (record { inode = record inode { size = 0 }; disk = d; v = [] })
