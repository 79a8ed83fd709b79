-- ===== src/EasyFs/Resize/Take.antt =====
-- src/easy-fs/src/layout.rs: the loops of `clear_size` take out the blocks of the index.
use project_r_core.Common.{
  ℕ, zero, suc, ◌+◌, ◌*◌, ◌≤◌, ◌≡◌, refl, ◌≢◌, inl, inr, ◌∙◌, ap, ap₂, sym, subst, arith, List, [],
  ◌∷◌, ◌++◌, get_or, set, get_or-set_ne,
}
use project_r_core.EasyFs.Disk.{Disk, word, set_word, word32_ne}
use project_r_core.EasyFs.Layout.{DiskInode}
use project_r_core.EasyFs.Resize.{Clearing, push, clear_direct, clear_indirect1, push_entries}
use project_r_core.EasyFs.Resize.Index.{slot, slots, slot-direct, slot-word1, slot-word2, slots_add}

pub append_nil : (xs : List ℕ) → xs ++ [] ≡ xs
append_nil [] = refl
append_nil (x ∷ xs) = ap (◌∷◌ x) (append_nil xs)

module _ (inode : DiskInode) (d : Disk) where
  -- `v` holds the first `p` blocks of the index.
  abbrev pub Pushed : ℕ → List ℕ → Type 0
  Pushed p v = v ≡ slots inode d 0 p

  pub push-Pushed :
      (p b : ℕ) (v : List ℕ) → Pushed p v → b ≡ slot inode d p → Pushed (suc p) (v ++ (b ∷ []))
  push-Pushed p b v e here =
      ap₂ (λ xs x. xs ++ (x ∷ [])) e here
      ∙ sym (slots_add inode d p [])
      ∙ append_nil (slots inode d 0 (suc p))

  -- What the clearing has not touched yet.
  pub record Untouched (c : Clearing) : Type 0 where
    pub indirect1 : c.inode.indirect1 ≡ inode.indirect1
    pub indirect2 : c.inode.indirect2 ≡ inode.indirect2
    pub others : (b j : ℕ) → b ≢ inode.indirect1 → word 4 c.disk b j ≡ word 4 d b j
    pub empty : c.inode.size ≡ 0

  pub record Direct (p : ℕ) (c : Clearing) : Type 0 where
    pub pushed : Pushed p c.v
    pub untouched : Untouched c
    pub same_disk : c.disk ≡ d
    pub rest : (i : ℕ) → p ≤ i → get_or c.inode.direct i 0 ≡ get_or inode.direct i 0

  pub clear_direct-Direct :
      (n p : ℕ) (c : Clearing) → Direct p c → p + n ≤ 28 → Direct (p + n) (clear_direct n p c)
  unfolding clear_direct push
  clear_direct-Direct zero p c x bound = subst (λ q. Direct q c) (omega arith) x
  clear_direct-Direct (suc n) p c x bound =
      subst (λ q. Direct q (clear_direct (suc n) p c)) (omega arith)
        (clear_direct-Direct n (p + 1)
          (record {
            inode = record c.inode { direct = set c.inode.direct p 0 };
            disk = c.disk;
            v = c.v ++ (get_or c.inode.direct p 0 ∷ []);
          })
          (record {
            pushed =
                subst (λ q. Pushed q (c.v ++ (get_or c.inode.direct p 0 ∷ []))) (omega arith)
                  (push-Pushed p (get_or c.inode.direct p 0) c.v x.pushed
                    (x.rest p (omega arith) ∙ sym (slot-direct inode d p (omega arith))));
            untouched = record {
              indirect1 = x.untouched.indirect1;
              indirect2 = x.untouched.indirect2;
              others = x.untouched.others;
              empty = x.untouched.empty;
            };
            same_disk = x.same_disk;
            rest =
                λ i h. get_or-set_ne c.inode.direct p i 0 0 (omega arith) ∙ x.rest i (omega arith);
          })
          (omega arith))

  pub record First (k : ℕ) (c : Clearing) : Type 0 where
    pub pushed : Pushed (29 + k) c.v
    pub untouched : Untouched c
    pub rest : (j : ℕ) → k ≤ j → word 4 c.disk inode.indirect1 j ≡ word 4 d inode.indirect1 j

  pub clear_indirect1-First :
      (n k : ℕ) (c : Clearing) → First k c → k + n ≤ 128 → First (k + n) (clear_indirect1 n k c)
  unfolding clear_indirect1 push
  clear_indirect1-First zero k c x bound = subst (λ q. First q c) (omega arith) x
  clear_indirect1-First (suc n) k c x bound =
      let b = word 4 c.disk c.inode.indirect1 k in
      let disk' = set_word 4 c.disk c.inode.indirect1 k 0 in
      subst (λ q. First q (clear_indirect1 (suc n) k c)) (omega arith)
        (clear_indirect1-First n (k + 1)
          (record { inode = c.inode; disk = disk'; v = c.v ++ (b ∷ []) })
          (record {
            pushed =
                subst (λ q. Pushed q (c.v ++ (b ∷ []))) (omega arith)
                  (push-Pushed (29 + k) b c.v x.pushed (
                    ap (λ i. word 4 c.disk i k) x.untouched.indirect1
                    ∙ x.rest k (omega arith)
                    ∙ ap (word 4 d inode.indirect1) (omega arith)
                    ∙ sym (slot-word1 inode d (29 + k) (omega arith) (omega arith))));
            untouched = record {
              indirect1 = x.untouched.indirect1;
              indirect2 = x.untouched.indirect2;
              others = λ b' j ne.
                  word32_ne c.disk _ b' k j 0 (inl (λ e. ne (sym e ∙ x.untouched.indirect1)))
                  ∙ x.untouched.others b' j ne;
              empty = x.untouched.empty;
            };
            rest = λ j h. word32_ne c.disk _ _ k j 0 (inr (omega arith)) ∙ x.rest j (omega arith);
          })
          (omega arith))

  -- Nothing is written from here on.
  pub record Second (p : ℕ) (c : Clearing) : Type 0 where
    pub pushed : Pushed p c.v
    pub indirect2 : c.inode.indirect2 ≡ inode.indirect2
    pub others : (b j : ℕ) → b ≢ inode.indirect1 → word 4 c.disk b j ≡ word 4 d b j
    pub empty : c.inode.size ≡ 0

  pub Second-push :
      (p b : ℕ) (c : Clearing) → Second p c → b ≡ slot inode d p → Second (suc p) (push c b)
  unfolding push
  Second-push p b c x e = record {
    pushed = push-Pushed p b c.v x.pushed e;
    indirect2 = x.indirect2;
    others = x.others;
    empty = x.empty;
  }

  pub push_entries-Second :
      (n j a : ℕ) (c : Clearing)
      → Second (159 + 129 * a + j) c
      → j + n ≤ 128
      → inode.indirect1 ≢ word 4 d inode.indirect2 a
      → Second (159 + 129 * a + j + n) (push_entries n j (word 4 d inode.indirect2 a) c)
  unfolding push_entries
  push_entries-Second zero j a c x bound ne = subst (λ q. Second q c) (omega arith) x
  push_entries-Second (suc n) j a c x bound ne =
      let block = word 4 d inode.indirect2 a in
      let x' =
        Second-push (159 + 129 * a + j) (word 4 c.disk block j) c x
          (x.others block j (λ e. ne (sym e)) ∙ sym (slot-word2 inode d a j (omega arith))) in
      subst (λ q. Second q (push_entries (suc n) j block c)) (omega arith)
        (push_entries-Second n (j + 1) a (push c (word 4 c.disk block j))
          (subst (λ q. Second q (push c (word 4 c.disk block j))) (omega arith) x') (omega arith)
          ne)
