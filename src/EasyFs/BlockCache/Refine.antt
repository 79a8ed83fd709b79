-- ===== src/EasyFs/BlockCache/Refine.antt =====
-- src/easy-fs/src/block_cache.rs: through the cache, the device looks like one that is written at once.
use project_r_core.Common.{
  ℕ, suc, ◌≤◌, ◌≡◌, refl, ◌≢◌, ◌⊎◌, inl, inr, ◌∙◌, sym, arith, false, Option, none, some, List, [],
  ◌∷◌, ◌==◌, if◌then◌else◌, if_true, if_false, ℕ_discrete, Bool-cases, eq→==, ne→not-==, length,
  mem_b, All, IsDistinct,
}
use project_r_core.EasyFs.Disk.{Disk, put_self, put_ne}
use project_r_core.EasyFs.BlockCache.{BlockCache, Manager, sync, find, take_unused}

unfoldable pub ids : List BlockCache → List ℕ
ids [] = []
ids (c ∷ cs) = c.block_id ∷ ids cs

-- A block as a reader sees it: in the cache if it is there, otherwise on the device.
unfoldable pub look : List BlockCache → Disk → Disk
look [] device b = device b
look (c ∷ cs) device b = if c.block_id == b then c.cache else look cs device b

unfoldable pub view : Manager → Disk
unfolding look
view m = look m.queue m.device

-- A block that is not modified is the one on the device.
abbrev pub Agrees : List BlockCache → Disk → Type 0
Agrees cs device = All (λ c. c.modified ≡ false → c.cache ≡ device c.block_id) cs

pub record IsValid (m : Manager) : Type 0 where
  pub distinct : IsDistinct (ids m.queue)
  pub agrees : Agrees m.queue m.device
  pub bounded : length m.queue ≤ 16

look_ext : (cs : List BlockCache) (d d' : Disk) (b : ℕ) → d' b ≡ d b → look cs d' b ≡ look cs d b
unfolding look
look_ext [] d d' b e = e
look_ext (c ∷ cs) d d' b e = rw (look_ext cs d d' b e) refl

look_device :
    (cs : List BlockCache) (d : Disk) (b : ℕ) → mem_b b (ids cs) ≡ false → look cs d b ≡ d b
unfolding look ids
look_device [] d b h = refl
look_device (c ∷ cs) d b h = elim (Bool-cases (c.block_id == b)) [
  | inl same ↦ absurd (ground arith)
  | inr other ↦ if_false _ _ other ∙ look_device cs d b (ground arith)
]

sync_ne : (c : BlockCache) (d : Disk) (b : ℕ) → c.block_id ≢ b → sync c d b ≡ d b
unfolding sync
sync_ne c d b ne = elim (Bool-cases c.modified) [
  | inl dirty ↦ rw dirty (put_ne d c.block_id b c.cache ne)
  | inr clean ↦ rw clean refl
]

sync_self :
    (c : BlockCache) (d : Disk)
    → (c.modified ≡ false → c.cache ≡ d c.block_id)
    → sync c d c.block_id ≡ c.cache
unfolding sync
sync_self c d agrees = elim (Bool-cases c.modified) [
  | inl dirty ↦ rw dirty (put_self d c.block_id c.cache)
  | inr clean ↦ rw clean (sym (agrees clean))
]

Agrees-sync :
    (cs : List BlockCache) (c : BlockCache) (d : Disk)
    → mem_b c.block_id (ids cs) ≡ false
    → Agrees cs d
    → Agrees cs (sync c d)
unfolding ids
Agrees-sync [] c d out h = tt
Agrees-sync (c' ∷ cs) c d out h = (
  (λ clean. h.0 clean ∙ sym (sync_ne c d c'.block_id (λ e. ground arith))),
  Agrees-sync cs c d (ground arith) h.1,
)

-- The queue after the block that nobody holds was dropped.
pub record Evicts (cs : List BlockCache) (d : Disk) (c : BlockCache) (rest : List BlockCache)
    : Type 0 where
  pub same : (b : ℕ) → look rest (sync c d) b ≡ look cs d b
  pub distinct : IsDistinct (ids rest)
  pub agrees : Agrees rest (sync c d)
  pub shorter : suc (length rest) ≡ length cs
  pub fewer : (b : ℕ) → mem_b b (ids cs) ≡ false → (mem_b b (ids rest) ≡ false) × (c.block_id ≢ b)

pub evict_head :
    (c : BlockCache) (cs : List BlockCache) (d : Disk)
    → IsDistinct (ids (c ∷ cs))
    → Agrees (c ∷ cs) d
    → Evicts (c ∷ cs) d c cs
unfolding look ids
evict_head c cs d distinct agrees = record {
  same = λ b. elim (ℕ_discrete c.block_id b) [
    | yes e ↦ rw (← e) (
        look_device cs (sync c d) c.block_id distinct.0
        ∙ sync_self c d agrees.0
        ∙ sym (if_true _ _ (eq→== c.block_id c.block_id refl)))
    | no ne ↦
        look_ext cs d (sync c d) b (sync_ne c d b ne)
        ∙ sym (if_false _ _ (ne→not-== c.block_id b ne))
  ];
  distinct = distinct.1;
  agrees = Agrees-sync cs c d distinct.0 agrees.1;
  shorter = refl;
  fewer = λ b out. (ground arith, λ e. ground arith);
}

abbrev EvictsFirst : List BlockCache → Disk → Option (BlockCache × List BlockCache) → Type 0
EvictsFirst cs d none = Unit
EvictsFirst cs d (some r) = Evicts cs d r.0 r.1

pub find-mem_b : (b : ℕ) (cs : List BlockCache) → find b cs ≡ none → mem_b b (ids cs) ≡ false
unfolding find ids
find-mem_b b [] h = refl
find-mem_b b (c ∷ cs) h = ground (arith, find-mem_b b cs)

-- What a request for a block leaves: nothing that a reader can see changes. It fails only if every
-- one of 16 blocks is held.
abbrev pub Keeps : Manager → Option Manager → Type 0
Keeps m r =
    ((m' : Manager) × (r ≡ some m') × IsValid m' × ((b : ℕ) → view m' b ≡ view m b))
    ⊎ ((r ≡ none) × (length m.queue ≡ 16) × (take_unused m.queue ≡ none))
