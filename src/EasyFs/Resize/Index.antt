-- ===== src/EasyFs/Resize/Index.antt =====
-- src/easy-fs/src/layout.rs: the index of an inode as a sequence of blocks, in the order that the comment
-- on `increase_size` gives: the direct ones, `indirect1`, the blocks it lists, `indirect2`, then each
-- block that this one lists, followed by the blocks listed there.
use project_r_core.Common.{
  ℕ, zero, suc, ◌+◌, ◌-◌, ◌*◌, ◌/◌, ◌%◌, ◌≤◌, ◌<◌, ◌≡◌, refl, ◌≢◌, ◌∙◌, ap, ap₂, arith, true, List,
  [], ◌∷◌, ◌++◌, ◌==◌, ltb, if◌then◌else◌, length, get_or, mem_b, IsDistinct, ne→not-==, lt→ltb,
  le→not-ltb,
}
use project_r_core.EasyFs.Disk.{Disk, word}
use project_r_core.EasyFs.Layout.{DiskInode}

-- The places of `indirect1`, of `indirect2`, and of the first block that `indirect2` lists.
abbrev pub second_part : DiskInode → Disk → ℕ → ℕ
second_part inode d q =
    let entry = word 4 d inode.indirect2 (q / 129) in
    if q % 129 == 0 then entry else word 4 d entry (q % 129 - 1)

-- The `p`-th block of the index.
unfoldable pub slot : DiskInode → Disk → ℕ → ℕ
slot inode d p =
    if ltb p 28
    then get_or inode.direct p 0
    else if p == 28
    then inode.indirect1
    else if ltb p 157
    then word 4 d inode.indirect1 (p - 29)
    else if p == 157
    then inode.indirect2
    else second_part inode d (p - 158)

-- `n` blocks of the index from the `p`-th on.
unfoldable pub slots : DiskInode → Disk → ℕ → ℕ → List ℕ
slots inode d p zero = []
slots inode d p (suc n) = slot inode d p ∷ slots inode d (p + 1) n

-- The blocks in the index of `n` data blocks.
abbrev pub index_size : ℕ → ℕ
index_size n = if ltb 156 n then n + 2 + (n - 156 + 127) / 128 else if ltb 28 n then n + 1 else n

module _ (inode : DiskInode) (d : Disk) where
  pub slot-direct : (p : ℕ) → p < 28 → slot inode d p ≡ get_or inode.direct p 0
  unfolding slot
  slot-direct p h = rw (lt→ltb p 28 h) refl

  pub slot-indirect1 : slot inode d 28 ≡ inode.indirect1
  unfolding slot
  slot-indirect1 = refl

  pub slot-word1 : (p : ℕ) → 28 < p → p < 157 → slot inode d p ≡ word 4 d inode.indirect1 (p - 29)
  unfolding slot
  slot-word1 p h k =
      rw (le→not-ltb p 28 (omega arith), ne→not-== p 28 (omega arith), lt→ltb p 157 k) refl

  pub slot-indirect2 : slot inode d 157 ≡ inode.indirect2
  unfolding slot
  slot-indirect2 = refl

  pub slot-second : (p : ℕ) → 157 < p → slot inode d p ≡ second_part inode d (p - 158)
  unfolding slot
  slot-second p h =
      rw
        (
          le→not-ltb p 28 (omega arith),
          ne→not-== p 28 (omega arith),
          le→not-ltb p 157 (omega arith),
          ne→not-== p 157 (omega arith),
        )
        refl

  pub slot-entry : (a : ℕ) → slot inode d (158 + 129 * a) ≡ word 4 d inode.indirect2 a
  slot-entry a =
      let q : (158 + 129 * a - 158) / 129 ≡ a = omega arith in
      let r : (158 + 129 * a - 158) % 129 ≡ 0 = omega arith in
      slot-second (158 + 129 * a) (omega arith) ∙ rw (r, q) refl

  pub slot-word2 :
      (a b : ℕ)
      → b < 128
      → slot inode d (159 + 129 * a + b) ≡ word 4 d (word 4 d inode.indirect2 a) b
  slot-word2 a b h =
      let q : (159 + 129 * a + b - 158) / 129 ≡ a = omega arith in
      let r : (159 + 129 * a + b - 158) % 129 ≡ b + 1 = omega arith in
      slot-second (159 + 129 * a + b) (omega arith)
      ∙ rw (r, q, ne→not-== (b + 1) 0 (omega arith))
          (ap (word 4 d (word 4 d inode.indirect2 a)) (omega arith))

  pub length-slots : (p n : ℕ) → length (slots inode d p n) ≡ n
  unfolding slots
  length-slots p zero = refl
  length-slots p (suc n) = ap suc (length-slots (p + 1) n)

  pub slots-snoc :
      (p n : ℕ) (xs : List ℕ)
      → slots inode d p (suc n) ++ xs ≡ slots inode d p n ++ (slot inode d (p + n) ∷ xs)
  unfolding slots
  slots-snoc p zero xs = ap (λ q. slot inode d q ∷ xs) (omega arith)
  slots-snoc p (suc n) xs = ap (◌∷◌ (slot inode d p)) (
      slots-snoc (p + 1) n xs
      ∙ ap (λ q. slots inode d (p + 1) n ++ (slot inode d q ∷ xs)) (omega arith))

  pub get_or-slots :
      (p n i : ℕ) (xs : List ℕ)
      → i < n
      → get_or (slots inode d p n ++ xs) i 0 ≡ slot inode d (p + i)
  unfolding slots
  get_or-slots p zero i xs h = absurd (omega arith)
  get_or-slots p (suc n) zero xs h = ap (slot inode d) (omega arith)
  get_or-slots p (suc n) (suc i) xs h =
      get_or-slots (p + 1) n i xs (omega arith) ∙ ap (slot inode d) (omega arith)

pub get_or-append_middle :
    (ys : List ℕ) (b : ℕ) (rest : List ℕ) → get_or (ys ++ (b ∷ rest)) (length ys) 0 ≡ b
get_or-append_middle [] b rest = refl
get_or-append_middle (y ∷ ys) b rest = get_or-append_middle ys b rest

module _ (inode : DiskInode) (d : Disk) (p : ℕ) (xs : List ℕ) where
  pub slots_add : slots inode d 0 (suc p) ++ xs ≡ slots inode d 0 p ++ (slot inode d p ∷ xs)
  slots_add =
      slots-snoc inode d 0 p xs ∙ ap (λ q. slots inode d 0 p ++ (slot inode d q ∷ xs)) (omega arith)

  pub get_or-slots_first : (i : ℕ) → i < p → get_or (slots inode d 0 p ++ xs) i 0 ≡ slot inode d i
  get_or-slots_first i h = get_or-slots inode d 0 p i xs h ∙ ap (slot inode d) (omega arith)

pub slots_ext :
    (inode inode' : DiskInode) (d d' : Disk) (p n : ℕ)
    → ((i : ℕ) → p ≤ i → i < p + n → slot inode' d' i ≡ slot inode d i)
    → slots inode' d' p n ≡ slots inode d p n
unfolding slots
slots_ext inode inode' d d' p zero same = refl
slots_ext inode inode' d d' p (suc n) same =
    ap₂ ◌∷◌ (same p (omega arith) (omega arith))
      (slots_ext inode inode' d d' (p + 1) n (λ i lo hi. same i (omega arith) (omega arith)))

-- Elements of a list without repetition differ.
get_or-mem_b : (xs : List ℕ) (i : ℕ) → i < length xs → mem_b (get_or xs i 0) xs ≡ true
get_or-mem_b [] i h = absurd (omega arith)
get_or-mem_b (x ∷ xs) zero h = ground arith
get_or-mem_b (x ∷ xs) (suc i) h = ground (arith, get_or-mem_b xs i)

pub get_or-IsDistinct :
    (xs : List ℕ) (i j : ℕ) → IsDistinct xs → i < j → j < length xs → get_or xs i 0 ≢ get_or xs j 0
get_or-IsDistinct [] i j distinct h k = absurd (omega arith)
get_or-IsDistinct (x ∷ xs) zero zero distinct h k = absurd (omega arith)
get_or-IsDistinct (x ∷ xs) zero (suc j) distinct h k = λ e.
    let m = get_or-mem_b xs j (omega arith) in
    let n = distinct.0 in let e' = ap (λ y. mem_b y xs) e in cc
get_or-IsDistinct (x ∷ xs) (suc i) zero distinct h k = absurd (omega arith)
get_or-IsDistinct (x ∷ xs) (suc i) (suc j) distinct h k =
    get_or-IsDistinct xs i j distinct.1 (omega arith) (omega arith)
