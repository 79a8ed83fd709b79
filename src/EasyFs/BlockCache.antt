-- ===== src/EasyFs/BlockCache.antt =====
-- src/easy-fs/src/block_cache.rs: the cache of blocks, which keeps at most 16 of them and writes a modified
-- one back when it leaves the cache. The block device is the bytes of each block; a client that holds
-- an `Arc` of a block is counted in `refs`.
pub mod Refine
pub mod Sync
pub mod Modify
mod Tests
use project_r_core.Common.{
  ℕ, zero, suc, ◌+◌, Bool, true, false, Option, none, some, List, [], ◌∷◌, ◌++◌, ◌==◌, leb,
  if◌then◌else◌, assert, ◌>>=◌, ◌>>◌, length,
}
use project_r_core.Common.Bytes.{Bytes}
use project_r_core.EasyFs.Disk.{Disk, put}

abbrev pub block_cache_size : ℕ
block_cache_size = 16

pub record BlockCache : Type 0 where
  pub cache : Bytes
  pub block_id : ℕ
  pub modified : Bool
  pub refs : ℕ

-- BlockCacheManager with the device behind it.
pub record Manager : Type 0 where
  pub queue : List BlockCache
  pub device : Disk

-- BlockCache::new
pub new_cache : ℕ → Disk → BlockCache
new_cache block_id device = record {
  cache = device block_id;
  block_id = block_id;
  modified = false;
  refs = 0;
}

-- BlockCache::sync, also when the cache is dropped
unfoldable pub sync : BlockCache → Disk → Disk
sync c device = if c.modified then put device c.block_id c.cache else device

pub find : ℕ → List BlockCache → Option BlockCache
find block_id [] = none
find block_id (c ∷ cs) =
    let rest = find block_id cs in if c.block_id == block_id then some c else rest

-- The first block that nobody holds, and the queue without it: `find` and `drain`.
pub take_unused : List BlockCache → Option (BlockCache × List BlockCache)
take_unused [] = none
take_unused (c ∷ cs) =
    let rest = take_unused cs in
    if c.refs == 0 then some (c, cs) else (rest >>= λ r. some (r.0, c ∷ r.1))

-- The block is read from the device and put at the back.
pub push_new : ℕ → Manager → Manager
unfolding new_cache
push_new block_id m = record m { queue = m.queue ++ (new_cache block_id m.device ∷ []) }

-- BlockCacheManager::get_block_cache when the block is not there; `none` is a panic.
pub load : ℕ → Manager → Option Manager
unfolding push_new take_unused
load block_id m =
    assert (leb (length m.queue) block_cache_size)
    >> (if length m.queue == block_cache_size
        then (take_unused m.queue >>= λ r.
            some (push_new block_id (record { queue = r.1; device = sync r.0 m.device })))
        else some (push_new block_id m))

pub get_block_cache : ℕ → Manager → Option Manager
unfolding load find
get_block_cache block_id m = elim (find block_id m.queue) [
  | some c ↦ some m
  | none ↦ load block_id m
]

-- The closure of `modify`, on the block in the queue.
pub modify_in : ℕ → (Bytes → Bytes) → List BlockCache → List BlockCache
modify_in block_id f [] = []
modify_in block_id f (c ∷ cs) =
    let rest = modify_in block_id f cs in
    if c.block_id == block_id
    then record c { cache = f c.cache; modified = true } ∷ cs
    else c ∷ rest

-- get_block_cache(id, ..).lock().modify(0, f)
pub modify : ℕ → (Bytes → Bytes) → Manager → Option Manager
unfolding modify_in
modify block_id f m =
    get_block_cache block_id m >>= λ m'. some (record m' { queue = modify_in block_id f m'.queue })

-- get_block_cache(id, ..).lock().read(0, ..)
pub read : ℕ → Manager → Option (Bytes × Manager)
unfolding find
read block_id m =
    get_block_cache block_id m >>= λ m'. find block_id m'.queue >>= λ c. some (c.cache, m')

sync_queue : List BlockCache → Disk → Disk
sync_queue [] device = device
sync_queue (c ∷ cs) device = sync_queue cs (sync c device)

clean : List BlockCache → List BlockCache
clean [] = []
clean (c ∷ cs) = record c { modified = false } ∷ clean cs

pub block_cache_sync_all : Manager → Manager
unfolding sync_queue clean
block_cache_sync_all m = record { queue = clean m.queue; device = sync_queue m.queue m.device }
