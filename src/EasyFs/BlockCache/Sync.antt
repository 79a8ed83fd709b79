-- ===== src/EasyFs/BlockCache/Sync.antt =====
-- src/easy-fs/src/block_cache.rs: `block_cache_sync_all` writes every modified block back.
use project_r_core.Common.{ℕ, ◌≡◌, refl, ◌∙◌, List, [], ◌∷◌, IsDistinct}
use project_r_core.EasyFs.Disk.{Disk}
use project_r_core.EasyFs.BlockCache.{BlockCache, Manager, sync, sync_queue, block_cache_sync_all}
use project_r_core.EasyFs.BlockCache.Refine.{ids, look, view, Agrees, IsValid, evict_head}

sync_queue-look :
    (cs : List BlockCache) (d : Disk) (b : ℕ)
    → IsDistinct (ids cs)
    → Agrees cs d
    → sync_queue cs d b ≡ look cs d b
unfolding sync_queue ids look
sync_queue-look [] d b distinct agrees = refl
sync_queue-look (c ∷ cs) d b distinct agrees =
    let x = evict_head c cs d distinct agrees in
    sync_queue-look cs (sync c d) b distinct.1 x.agrees ∙ x.same b

-- After `block_cache_sync_all` the device itself holds what a reader saw through the cache before.
pub sync_all-view : (m : Manager) (b : ℕ) → IsValid m → (block_cache_sync_all m).device b ≡ view m b
unfolding block_cache_sync_all view
sync_all-view m b v = sync_queue-look m.queue m.device b v.distinct v.agrees
