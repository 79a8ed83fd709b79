-- ===== src/EasyFs/Disk.antt =====
-- The contents of the blocks that `get_block_cache` of src/easy-fs/src/block_cache.rs gives out, and the
-- integers that lie in them.
use project_r_core.Common.{
  ℕ, ◌*◌, ◌^◌, ◌<◌, ◌≡◌, refl, ◌≢◌, ◌⊎◌, inl, inr, arith, ◌==◌, if◌then◌else◌, ℕ_discrete, dec_lt,
  Bool-cases,
}
use project_r_core.Common.Bytes.{
  Bytes, le_read, le_write, le_read-le_write_self, le_read-le_write_apart, IsApart, IsBytes,
  le_read-lt, le_write-IsBytes,
}

-- The bytes of each block.
abbrev pub Disk : Type 0
Disk = ℕ → Bytes

abbrev pub block_size : ℕ
block_size = 512

-- A block is replaced.
unfoldable pub put : Disk → ℕ → Bytes → Disk
put d b bytes b' = if b == b' then bytes else d b'

pub put_self : (d : Disk) (b : ℕ) (bytes : Bytes) → put d b bytes b ≡ bytes
unfolding put
put_self d b bytes = ground arith

pub put_ne : (d : Disk) (b b' : ℕ) (bytes : Bytes) → b ≢ b' → put d b bytes b' ≡ d b'
unfolding put
put_ne d b b' bytes ne = ground arith

-- The `j`-th integer of `w` bytes of block `b`.
unfoldable pub word : ℕ → Disk → ℕ → ℕ → ℕ
word w d b j = le_read w (d b) (w * j)

unfoldable pub set_word : ℕ → Disk → ℕ → ℕ → ℕ → Disk
set_word w d b j v = put d b (le_write w (d b) (w * j) v)

pub word-set_word_self :
    (w : ℕ) (d : Disk) (b j v : ℕ) → v < 256 ^ w → word w (set_word w d b j v) b j ≡ v
unfolding word set_word
word-set_word_self w d b j v h =
    rw (put_self d b (le_write w (d b) (w * j) v)) (le_read-le_write_self w (d b) (w * j) v h)

pub word-set_word_block :
    (w w' : ℕ) (d : Disk) (b b' j j' v : ℕ)
    → b ≢ b'
    → word w' (set_word w d b j v) b' j' ≡ word w' d b' j'
unfolding word set_word
word-set_word_block w w' d b b' j j' v ne = rw (put_ne d b b' (le_write w (d b) (w * j) v) ne) refl

pub word-set_word_apart :
    (w : ℕ) (d : Disk) (b j j' v : ℕ)
    → IsApart (w * j) w (w * j') w
    → word w (set_word w d b j v) b j' ≡ word w d b j'
unfolding word set_word
word-set_word_apart w d b j j' v apart =
    rw (put_self d b (le_write w (d b) (w * j) v))
      (le_read-le_write_apart w w (d b) (w * j) (w * j') v apart)

-- Another integer is unchanged, for the two widths in use.
pub word32_ne :
    (d : Disk) (b b' j j' v : ℕ)
    → (b ≢ b') ⊎ (j ≢ j')
    → word 4 (set_word 4 d b j v) b' j' ≡ word 4 d b' j'
word32_ne d b b' j j' v ne = elim (ℕ_discrete b b') [
  | no off ↦ word-set_word_block 4 4 d b b' j j' v off
  | yes e ↦ rw (← e) (word-set_word_apart 4 d b j j' v (apart ne e))
]
  where
    apart : (b ≢ b') ⊎ (j ≢ j') → b ≡ b' → IsApart (4 * j) 4 (4 * j') 4
    apart ne e = elim (dec_lt j j') [ yes lt ↦ inl (omega arith) | no not_lt ↦ inr (omega arith) ]

pub word64_ne :
    (d : Disk) (b b' j j' v : ℕ)
    → (b ≢ b') ⊎ (j ≢ j')
    → word 8 (set_word 8 d b j v) b' j' ≡ word 8 d b' j'
word64_ne d b b' j j' v ne = elim (ℕ_discrete b b') [
  | no off ↦ word-set_word_block 8 8 d b b' j j' v off
  | yes e ↦ rw (← e) (word-set_word_apart 8 d b j j' v (apart ne e))
]
  where
    apart : (b ≢ b') ⊎ (j ≢ j') → b ≡ b' → IsApart (8 * j) 8 (8 * j') 8
    apart ne e = elim (dec_lt j j') [ yes lt ↦ inl (omega arith) | no not_lt ↦ inr (omega arith) ]

-- Every byte of every block is one.
abbrev pub IsDisk : Disk → Type 0
IsDisk d = (b : ℕ) → IsBytes (d b)

pub word-lt : (w : ℕ) (d : Disk) (b j : ℕ) → IsDisk d → word w d b j < 256 ^ w
unfolding word
word-lt w d b j h = le_read-lt w (d b) (w * j) (h b)

pub set_word-IsDisk : (w : ℕ) (d : Disk) (b j v : ℕ) → IsDisk d → IsDisk (set_word w d b j v)
unfolding set_word put
set_word-IsDisk w d b j v h b' = elim (Bool-cases (b == b')) [
  | inl same ↦ rw same (le_write-IsBytes w (d b) (w * j) v (h b))
  | inr other ↦ rw other (h b')
]
