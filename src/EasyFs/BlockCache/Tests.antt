-- ===== src/EasyFs/BlockCache/Tests.antt =====
-- The theorems on src/easy-fs/src/block_cache.rs at a concrete cache.
use project_r_core.Common.{◌≡◌, refl, arith, true, [], ◌∷◌}
use project_r_core.EasyFs.BlockCache.{Manager, block_cache_sync_all}
use project_r_core.EasyFs.BlockCache.Refine.{ids, view, IsValid}
use project_r_core.EasyFs.BlockCache.Sync.{sync_all-view}

-- Block 3 was modified and is not yet on the device.
abbrev manager : Manager
manager = record {
  queue = (record { cache = λ a. 7; block_id = 3; modified = true; refs = 0 }) ∷ [];
  device = λ b a. b;
}

manager-IsValid : IsValid manager
unfolding ids
manager-IsValid = record {
  distinct = (refl, tt);
  agrees = ((λ clean. cc), tt);
  bounded = omega arith;
}

sync_all-view_example : (block_cache_sync_all manager).device 3 ≡ view manager 3
sync_all-view_example = sync_all-view manager 3 manager-IsValid
