-- ===== src/EasyFs/Resize/Clear.antt =====
-- src/easy-fs/src/layout.rs: `clear_size` takes out all the blocks of the index.
use project_r_core.Common.{
  ℕ, zero, suc, ◌+◌, ◌-◌, ◌*◌, ◌/◌, ◌%◌, ◌≤◌, ◌<◌, ◌≡◌, refl, ◌≢◌, ◌∙◌, ap, sym, subst, arith, some,
  [], ℕ_discrete, dec_lt, length, min, get_or, IsDistinct, if_true, if_false, lt→ltb, le→leb,
  lt→not-leb,
}
use project_r_core.EasyFs.Disk.{Disk, word}
use project_r_core.EasyFs.Layout.{DiskInode, data_blocks, data_blocks_of, total_blocks}
use project_r_core.EasyFs.Resize.{
  Clearing, push, clear_direct, clear_indirect1, push_entries, push_full, clear_indirect2,
  clear_index, clear_size,
}
use project_r_core.EasyFs.Resize.Index.{
  slot, slots, index_size, slot-indirect1, slot-indirect2, slot-entry, length-slots,
  get_or-slots_first, get_or-IsDistinct,
}
use project_r_core.EasyFs.Resize.Second.{place}
use project_r_core.EasyFs.Resize.Loop.{place_lem}
use project_r_core.EasyFs.Resize.Grow.{index_size_low, index_size_mid}
use project_r_core.EasyFs.Resize.Increase.{total_blocks_lem, max_size, data_blocks_of_lem}
use project_r_core.EasyFs.Resize.Take.{
  Pushed, append_nil, Direct, First, Second, clear_direct-Direct, clear_indirect1-First,
  Second-push, push_entries-Second, push-Pushed,
}

module _ (inode : DiskInode) (d : Disk) where
  entry_same :
      {p : ℕ} (a : ℕ) (c : Clearing)
      → Second inode d p c
      → inode.indirect1 ≢ inode.indirect2
      → word 4 c.disk c.inode.indirect2 a ≡ word 4 d inode.indirect2 a
  entry_same a c x ne =
      ap (λ b. word 4 c.disk b a) x.indirect2 ∙ x.others inode.indirect2 a (λ e. ne (sym e))

  push_full-Second :
      (n a : ℕ) (c : Clearing)
      → Second inode d (158 + 129 * a) c
      → a + n ≤ 128
      → inode.indirect1 ≢ inode.indirect2
      → ((a' : ℕ) → a' < a + n → inode.indirect1 ≢ word 4 d inode.indirect2 a')
      → Second inode d (158 + 129 * (a + n)) (push_full n a c)
  unfolding push_full
  push_full-Second zero a c x bound ne nes = subst (λ q. Second inode d q c) (omega arith) x
  push_full-Second (suc n) a c x bound ne nes =
      let block = word 4 d inode.indirect2 a in
      let x1 : Second inode d (159 + 129 * a + 0) (push c block) =
        subst (λ q. Second inode d q (push c block)) (omega arith)
          (Second-push inode d (158 + 129 * a) block c x (sym (slot-entry inode d a))) in
      let x2 =
        push_entries-Second inode d 128 0 a (push c block) x1 (omega arith) (nes a (omega arith)) in
      let c2 = push_entries 128 0 block (push c block) in
      rw (entry_same a c x ne) (
        subst (λ q. Second inode d q (push_full n (a + 1) c2)) (omega arith)
          (push_full-Second n (a + 1) c2 (subst (λ q. Second inode d q c2) (omega arith) x2)
            (omega arith) ne (λ a' h. nes a' (omega arith))))

  -- The blocks behind `indirect2`.
  clear_indirect2-Pushed :
      (rest : ℕ) (c : Clearing)
      → Second inode d 157 c
      → 0 < rest
      → rest ≤ 16384
      → inode.indirect1 ≢ inode.indirect2
      → ((a : ℕ) → a * 128 < rest → inode.indirect1 ≢ word 4 d inode.indirect2 a)
      → (c' : Clearing) × (clear_indirect2 rest c ≡ some c')
        × Pushed inode d (place (rest / 128) (rest % 128)) c'.v
        × (c'.inode.size ≡ 0)
  unfolding clear_indirect2 place
  clear_indirect2-Pushed rest c x some_left bound ne nes =
      let a1 = rest / 128 in
      let b1 = rest % 128 in
      let few : min a1 128 ≡ a1 = omega arith in
      let x1 =
        Second-push inode d 157 c.inode.indirect2 c x
          (x.indirect2 ∙ sym (slot-indirect2 inode d)) in
      let c1 = push c c.inode.indirect2 in
      let c2 = push_full a1 0 c1 in
      let x2 : Second inode d (158 + 129 * a1) c2 =
        subst (λ q. Second inode d q c2) (omega arith)
          (push_full-Second a1 0 c1 (subst (λ q. Second inode d q c1) (omega arith) x1)
            (omega arith) ne (λ a h. nes a (omega arith))) in
      let fits = le→leb rest 16384 bound in
      elim (ℕ_discrete b1 0) [
        | yes e ↦ (
          record c2 { inode = record c2.inode { indirect2 = 0 } },
          rw (few, fits, e) refl,
          rw e x2.pushed,
          x2.empty,
        )
        | no some_last ↦
            let block = word 4 d inode.indirect2 a1 in
            let x3 : Second inode d (159 + 129 * a1 + 0) (push c2 block) =
              subst (λ q. Second inode d q (push c2 block)) (omega arith)
                (Second-push inode d (158 + 129 * a1) block c2 x2 (sym (slot-entry inode d a1))) in
            let c3 = push_entries b1 0 block (push c2 block) in
            let x4 =
              push_entries-Second inode d b1 0 a1 (push c2 block) x3 (omega arith)
                (nes a1 (omega arith)) in
            (
              record c3 { inode = record c3.inode { indirect2 = 0 } },
              rw (few, fits, lt→ltb 0 b1 (omega arith), entry_same a1 c2 x2 ne) refl,
              x4.pushed ∙ ap (slots inode d 0) (omega (arith, place_lem a1 b1)),
              x4.empty,
            )
      ]

  after-Direct :
      (c1 : Clearing) → Direct inode d 28 c1 → First inode d 0 (push c1 c1.inode.indirect1)
  unfolding push
  after-Direct c1 x1 = record {
    pushed =
        push-Pushed inode d 28 c1.inode.indirect1 c1.v x1.pushed
          (x1.untouched.indirect1 ∙ sym (slot-indirect1 inode d));
    untouched = record {
      indirect1 = x1.untouched.indirect1;
      indirect2 = x1.untouched.indirect2;
      others = x1.untouched.others;
      empty = x1.untouched.empty;
    };
    rest = λ j h. ap (λ e. word 4 e inode.indirect1 j) x1.same_disk;
  }

  size_high : (n : ℕ) → 156 < n → index_size n ≡ place ((n - 156) / 128) ((n - 156) % 128)
  size_high n h = ground (arith, place_lem ((n - 156) / 128) ((n - 156) % 128))

  slots_ne :
      (n i j : ℕ) → IsDistinct (slots inode d 0 n) → i < j → j < n → slot inode d i ≢ slot inode d j
  slots_ne n i j distinct h k e =
      get_or-IsDistinct (slots inode d 0 n) i j distinct h (omega (arith, length-slots inode d 0 n))
        (at i (omega arith) ∙ e ∙ sym (at j k))
    where
      at : (t : ℕ) → t < n → get_or (slots inode d 0 n) t 0 ≡ slot inode d t
      at t lt =
          ap (λ xs. get_or xs t 0) (sym (append_nil (slots inode d 0 n)))
          ∙ get_or-slots_first inode d n [] t lt

  apart12 :
      (n : ℕ)
      → 156 < n
      → IsDistinct (slots inode d 0 (index_size n))
      → inode.indirect1 ≢ inode.indirect2
  apart12 n h distinct e =
      slots_ne (index_size n) 28 157 distinct (omega arith) (ground arith)
        (slot-indirect1 inode d ∙ e ∙ sym (slot-indirect2 inode d))

  apart1 :
      (n : ℕ)
      → 156 < n
      → IsDistinct (slots inode d 0 (index_size n))
      → (a : ℕ) → a * 128 < n - 156
      → inode.indirect1 ≢ word 4 d inode.indirect2 a
  apart1 n h distinct a lt e =
      slots_ne (index_size n) 28 (158 + 129 * a) distinct (omega arith) (ground arith)
        (slot-indirect1 inode d ∙ e ∙ sym (slot-entry inode d a))

  -- The whole index of `n` data blocks.
  clear_index-Pushed :
      (n : ℕ) (c : Clearing)
      → Direct inode d 0 c
      → n ≤ 16540
      → IsDistinct (slots inode d 0 (index_size n))
      → (c' : Clearing) × (clear_index n c ≡ some c')
        × Pushed inode d (index_size n) c'.v
        × (c'.inode.size ≡ 0)
  unfolding clear_index
  clear_index-Pushed n c x bound distinct =
      let c1 = clear_direct (min n 28) 0 c in
      let x1 : Direct inode d (min n 28) c1 =
        subst (λ q. Direct inode d q c1) (omega arith)
          (clear_direct-Direct inode d (min n 28) 0 c x (omega arith)) in
      elim (dec_lt 28 n) [
        | no short ↦ (
          c1,
          if_true _ _ (le→leb n 28 (omega arith)),
          x1.pushed ∙ ap (slots inode d 0) (omega (arith, index_size_low n (omega arith))),
          x1.untouched.empty,
        )
        | yes long ↦
            let f1 : First inode d 0 (push c1 c1.inode.indirect1) =
              after-Direct c1 (subst (λ q. Direct inode d q c1) (omega arith) x1) in
            let k = min (n - 28) 128 in
            let c2 = clear_indirect1 k 0 (push c1 c1.inode.indirect1) in
            let f2 =
              clear_indirect1-First inode d k 0 (push c1 c1.inode.indirect1) f1 (omega arith) in
            let c3 = record c2 { inode = record c2.inode { indirect1 = 0 } } in
            elim (dec_lt 156 n) [
              | no mid ↦ (
                c3,
                if_false _ _ (lt→not-leb n 28 long)
                    ∙ if_true _ _ (le→leb (n - 28) 128 (omega arith)),
                f2.pushed
                    ∙ ap (slots inode d 0) (omega (arith, index_size_mid n long (omega arith))),
                f2.untouched.empty,
              )
              | yes high ↦
                  let x3 : Second inode d 157 c3 = record {
                    pushed = f2.pushed ∙ ap (slots inode d 0) (omega arith);
                    indirect2 = f2.untouched.indirect2;
                    others = f2.untouched.others;
                    empty = f2.untouched.empty;
                  } in
                  let (c', e, p, z) =
                    clear_indirect2-Pushed (n - 156) c3 x3 (omega arith) (omega arith)
                      (apart12 n high distinct) (apart1 n high distinct) in
                  (
                    c',
                    if_false _ _ (lt→not-leb n 28 long)
                        ∙ if_false _ _ (lt→not-leb (n - 28) 128 (omega arith))
                        ∙ ap (λ r. clear_indirect2 r c3) (omega arith)
                        ∙ e,
                    p ∙ ap (slots inode d 0) (sym (size_high n high)),
                    z,
                  )
            ]
      ]

-- `clear_size` returns every block of the index, in the order of the index, so that their number is
-- the one that `clear` of vfs.rs asserts, and leaves a file of size 0: provided that no block occurs
-- twice in the index and the size is not above the greatest.
pub clear_size-slots :
    (inode : DiskInode) (d : Disk)
    → inode.size ≤ max_size
    → IsDistinct (slots inode d 0 (total_blocks inode.size))
    → (c : Clearing) × (clear_size inode d ≡ some c)
      × (c.v ≡ slots inode d 0 (total_blocks inode.size))
      × (length c.v ≡ total_blocks inode.size)
      × (c.inode.size ≡ 0)
unfolding clear_size data_blocks slots
clear_size-slots inode d bound distinct =
    let n = data_blocks_of inode.size in
    let total = total_blocks_lem inode.size in
    let start : Clearing = record { inode = record inode { size = 0 }; disk = d; v = [] } in
    let x : Direct inode d 0 start = record {
      pushed = refl;
      untouched = record {
        indirect1 = refl;
        indirect2 = refl;
        others = λ b j ne. refl;
        empty = refl;
      };
      same_disk = refl;
      rest = λ i h. refl;
    } in
    let (c, e, p, z) =
      clear_index-Pushed inode d n start x (omega (arith, data_blocks_of_lem inode.size bound))
        (subst (λ k. IsDistinct (slots inode d 0 k)) total distinct) in
    let pushed = p ∙ ap (slots inode d 0) (sym total) in
    (c, e, pushed, ap length pushed ∙ length-slots inode d 0 (total_blocks inode.size), z)
