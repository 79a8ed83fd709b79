-- ===== src/EasyFs/BlockCache/Modify.antt =====
-- src/easy-fs/src/block_cache.rs: `modify` changes the block as a reader sees it.
use project_r_core.Common.{ℕ, ◌≡◌, ◌≢◌, ◌⊎◌, Option, none, some, length}
use project_r_core.Common.Bytes.{Bytes}
use project_r_core.EasyFs.Disk.{Disk}
use project_r_core.EasyFs.BlockCache.{BlockCache, Manager, take_unused}
use project_r_core.EasyFs.BlockCache.Refine.{view, IsValid}

-- The block `b` changed by `f`, and no other, as a reader sees them.
abbrev pub Modifies : ℕ → (Bytes → Bytes) → Manager → Option Manager → Type 0
Modifies b f m r =
    ((m' : Manager) × (r ≡ some m')
      × IsValid m'
      × (view m' b ≡ f (view m b))
      × ((b' : ℕ) → b' ≢ b → view m' b' ≡ view m b'))
    ⊎ ((r ≡ none) × (length m.queue ≡ 16) × (take_unused m.queue ≡ none))
