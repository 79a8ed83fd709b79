-- ===== src/Kernel/Pipe/Writing.antt =====
-- `write` of src/os/src/fs/pipe.rs over a schedule of what the other tasks do while it is suspended.
use project_r_core.Common.{
  ℕ, zero, suc, ◌+◌, ◌*◌, ◌≤◌, ◌≡◌, refl, sym, ap, ◌∙◌, ◌≢◌, some, List, [], ◌∷◌, ◌++◌, arith,
  length, take, drop, if◌then◌else◌, Bool-cases, ◌==◌, ℕ_discrete, inl, inr,
}
use mathlib.Core.List.{append-nil}
use project_r_core.Kernel.Pipe.{
  PipeRingBuffer, Writer, Others, Written, available_write, copy_in, write_loop, write,
  write_end_with_buffer,
}
use project_r_core.Kernel.Pipe.Queue.{IsValid, contents, available_write_lem}
use project_r_core.Kernel.Pipe.Transfer.{Stores, copy_in-Stores}

module _ (fuel : ℕ) (sched : List Others) (s : Writer) (r : PipeRingBuffer) where
  write_loop_waits : available_write r ≡ 0 → write_loop (suc fuel) [] s r ≡ Written.waiting s r
  unfolding write_loop
  write_loop_waits e = ground arith

  write_loop_resumes :
      (others : Others)
      → available_write r ≡ 0
      → write_loop (suc fuel) (others ∷ sched) s r ≡ write_loop fuel sched s (others r)
  unfolding write_loop
  write_loop_resumes others e = ground arith

  write_loop_copies :
      available_write r ≢ 0
      → let c = copy_in (available_write r) s r in
        write_loop (suc fuel) sched s r ≡ (
          if c.returned
          then Written.returned c.writer c.ring
          else write_loop fuel sched c.writer c.ring)
  unfolding write_loop
  write_loop_copies ne = ground arith

-- What the other tasks do to the pipe while the writer is suspended, which it is on a full pipe
-- only: they read `k` bytes.
abbrev pub Takes : Others → ℕ → Type 0
Takes others k =
    (r : PipeRingBuffer)
    → IsValid r
    → available_write r ≡ 0
    → IsValid (others r) × (contents (others r) ≡ drop k (contents r))

abbrev pub Drains : List Others → List ℕ → Type 0
Drains [] [] = Unit
Drains [] (k ∷ ks) = ⊥
Drains (others ∷ rest) [] = ⊥
Drains (others ∷ rest) (k ∷ ks) = (k ≤ 32) × Takes others k × Drains rest ks

abbrev pub total : List ℕ → ℕ
total [] = 0
total (k ∷ ks) = k + total ks

-- `stream` is what was in the pipe followed by what was to be written, `size` the whole length.
abbrev pub HandsOver : List ℕ → ℕ → List ℕ → Written → Type 0
HandsOver stream size ks Written.out_of_fuel = ⊥
HandsOver stream size ks (Written.returned s r) =
    IsValid r
    × (s.left ≡ [])
    × (s.write_size ≡ size)
    × ((j : ℕ) × (contents r ≡ drop (total (take j ks)) stream))
HandsOver stream size ks (Written.waiting s r) =
    IsValid r
    × (s.write_size + length s.left ≡ size)
    × (contents r ++ s.left ≡ drop (total ks) stream)

drop-append : (k : ℕ) (xs ys : List ℕ) → k ≤ length xs → drop k (xs ++ ys) ≡ drop k xs ++ ys
drop-append zero xs ys h = refl
drop-append (suc k) [] ys h = absurd (omega arith)
drop-append (suc k) (x ∷ xs) ys h = drop-append k xs ys (omega arith)

drop-drop : (k m : ℕ) (xs : List ℕ) → drop m (drop k xs) ≡ drop (k + m) xs
drop-drop zero m xs = ap (λ j. drop j xs) (omega arith)
drop-drop (suc k) m (x ∷ xs) =
    drop-drop k m xs
    ∙ ap (λ j. drop j (x ∷ xs)) (let e : suc (k + m) ≡ suc k + m = omega arith in e)
drop-drop (suc k) zero [] = ap (λ j. drop j []) (let e : suc k ≡ suc k + 0 = omega arith in e)
drop-drop (suc k) (suc m) [] =
    ap (λ j. drop j []) (let e : suc (k + m + 1) ≡ suc k + suc m = omega arith in e)

nil_of_length : (xs : List ℕ) → length xs ≡ 0 → xs ≡ []
nil_of_length [] h = refl
nil_of_length (x ∷ xs) h = absurd (omega arith)

HandsOver-more :
    (stream ks : List ℕ) (size k : ℕ) (w : Written)
    → HandsOver (drop k stream) size ks w
    → HandsOver stream size (k ∷ ks) w
HandsOver-more stream ks size k (Written.returned s r) (v, done, n, (j, e)) =
    (v, done, n, (suc j, e ∙ drop-drop k (total (take j ks)) stream))
HandsOver-more stream ks size k (Written.waiting s r) (v, n, e) =
    (v, n, e ∙ drop-drop k (total ks) stream)
HandsOver-more stream ks size k Written.out_of_fuel d = d

abbrev needed : ℕ → List Others → ℕ
needed space sched = 2 * length sched + (if space == 0 then 1 else 2)

abbrev Goal : ℕ → List Others → List ℕ → Writer → PipeRingBuffer → Type 0
Goal fuel sched ks s r =
    Drains sched ks
    → IsValid r
    → needed (available_write r) sched ≤ fuel
    → HandsOver (contents r ++ s.left) (s.write_size + length s.left) ks (write_loop fuel sched s r)

module _ (fuel : ℕ)
    (ih : (sched : List Others) (ks : List ℕ) (s : Writer) (r : PipeRingBuffer)
      → Goal fuel sched ks s r) where
  full_round :
      (sched : List Others) (ks : List ℕ) (s : Writer) (r : PipeRingBuffer)
      → available_write r ≡ 0
      → Goal (suc fuel) sched ks s r
  full_round [] [] s r full drains v h = rw (write_loop_waits fuel [] s r full) (v, refl, refl)
  full_round [] (k ∷ ks) s r full drains v h = absurd drains
  full_round (others ∷ rest) [] s r full drains v h = absurd drains
  full_round (others ∷ rest) (k ∷ ks) s r full (small, takes, drains) v h =
      let (v', taken) = takes r v full in
      let stream : contents (others r) ++ s.left ≡ drop k (contents r ++ s.left) =
        ap (λ xs. xs ++ s.left) taken
        ∙ sym (drop-append k (contents r) s.left (omega (arith, available_write_lem v))) in
      rw (write_loop_resumes fuel rest s r others full) (
        HandsOver-more (contents r ++ s.left) ks _ k (write_loop fuel rest s (others r))
          (rw stream at (ih rest ks s (others r) drains v' (ground arith))))

  copy_round :
      (sched : List Others) (ks : List ℕ) (s : Writer) (r : PipeRingBuffer)
      → available_write r ≢ 0
      → Goal (suc fuel) sched ks s r
  copy_round sched ks s r ne drains v h =
      let c = copy_in (available_write r) s r in
      let done : Stores (available_write r) s r c =
        copy_in-Stores _ s.write_size s.left v (omega arith) in
      elim (Bool-cases c.returned) [
        | inl stop ↦
            let none_left : c.writer.left ≡ [] =
              nil_of_length c.writer.left (ground (arith, done.left, done.stopped)) in
            rw (write_loop_copies fuel sched s r ne, stop)
              (
                done.valid,
                none_left,
                omega (arith, done.count, ap length none_left),
                (0, ground (arith, done.bytes, append-nil (contents c.ring))),
              )
        | inr more ↦
            rw (write_loop_copies fuel sched s r ne, more)
              (rw (done.bytes, done.count) at
                (ih sched ks c.writer c.ring drains done.valid
                  (ground (arith, done.space, done.stopped))))
      ]

write_loop-HandsOver :
    (fuel : ℕ) (sched : List Others) (ks : List ℕ) (s : Writer) (r : PipeRingBuffer)
    → Goal fuel sched ks s r
write_loop-HandsOver zero sched ks s r = λ drains v h. absurd (ground arith)
write_loop-HandsOver (suc fuel) sched ks s r = elim (ℕ_discrete (available_write r) 0) [
  | yes full ↦ full_round fuel (write_loop-HandsOver fuel) sched ks s r full
  | no ne ↦ copy_round fuel (write_loop-HandsOver fuel) sched ks s r ne
]

-- However `write` is interrupted, no byte is lost, repeated or reordered: the pipe ends with what
-- it held followed by the user's bytes, less those that were read meanwhile. `write` returns only
-- when it has written all, and returns their number; otherwise it is suspended with the rest still
-- to come. Two rounds for each suspension and two more are enough.
pub write_in_order :
    (r : PipeRingBuffer) (fuel : ℕ) (sched : List Others) (ks buf : List ℕ)
    → IsValid r
    → Drains sched ks
    → 2 * length sched + 2 ≤ fuel
    → (w : Written) × (write write_end_with_buffer fuel sched buf r ≡ some w)
      × HandsOver (contents r ++ buf) (length buf) ks w
unfolding write write_end_with_buffer
write_in_order r fuel sched ks buf v drains h =
    let s : Writer = record { write_size = 0; left = buf } in
    let n : 0 + length buf ≡ length buf = omega arith in
    (
      write_loop fuel sched s r,
      refl,
      rw n at (write_loop-HandsOver fuel sched ks s r drains v (ground arith)),
    )
