-- ===== src/Kernel/Pipe/Reading.antt =====
-- `read` of src/os/src/fs/pipe.rs over a schedule of what the other tasks do while it is suspended.
use project_r_core.Common.{
  ℕ, zero, suc, ◌+◌, ◌*◌, ◌≤◌, ◌≡◌, refl, sym, ◌∙◌, ◌≢◌, Option, none, some, List, [], ◌∷◌, ◌++◌,
  arith, min, length, concat, take, if◌then◌else◌, Bool-cases, ◌==◌, ℕ_discrete, inl, inr,
}
use mathlib.Core.List.{append_assoc, append-nil}
use project_r_core.Kernel.Pipe.{
  PipeRingBuffer, Reader, Others, Outcome, returned, waiting, available_read, copy_out, read_loop,
  read, all_write_ends_closed, read_end_with_buffer,
}
use project_r_core.Kernel.Pipe.Queue.{IsValid, contents, length-contents}
use project_r_core.Kernel.Pipe.Transfer.{Copies, copy_out-Copies}

module _ (fuel : ℕ) (sched : List Others) (s : Reader) (r : PipeRingBuffer) where
  pub read_loop_closed :
      available_read r ≡ 0
      → r.write_end ≡ some 0
      → read_loop (suc fuel) sched s r ≡ some (returned s r)
  unfolding read_loop all_write_ends_closed
  read_loop_closed e c = ground arith

  pub read_loop_waits :
      (n : ℕ)
      → available_read r ≡ 0
      → r.write_end ≡ some (suc n)
      → read_loop (suc fuel) [] s r ≡ some (waiting s r)
  unfolding read_loop all_write_ends_closed
  read_loop_waits n e c = ground arith

  pub read_loop_resumes :
      (others : Others) (n : ℕ)
      → available_read r ≡ 0
      → r.write_end ≡ some (suc n)
      → read_loop (suc fuel) (others ∷ sched) s r ≡ read_loop fuel sched s (others r)
  unfolding read_loop all_write_ends_closed
  read_loop_resumes others n e c = ground arith

  pub read_loop_copies :
      available_read r ≢ 0
      → let c = copy_out (available_read r) s r in
        read_loop (suc fuel) sched s r ≡ (
          if c.returned
          then some (returned c.reader c.ring)
          else read_loop fuel sched c.reader c.ring)
  unfolding read_loop
  read_loop_copies ne = ground arith

-- What the other tasks do to the pipe while the reader is suspended, which it is on an empty pipe
-- only: they write `bytes` into it. The writing end stays set; its strong count may change.
abbrev pub Appends : Others → List ℕ → Type 0
Appends others bytes =
    (r : PipeRingBuffer) (n : ℕ)
    → IsValid r
    → r.write_end ≡ some n
    → available_read r ≡ 0
    → IsValid (others r)
      × (contents (others r) ≡ bytes)
      × ((n : ℕ) × ((others r).write_end ≡ some n))

abbrev pub Feeds : List Others → List (List ℕ) → Type 0
Feeds [] [] = Unit
Feeds [] (bytes ∷ more) = ⊥
Feeds (others ∷ rest) [] = ⊥
Feeds (others ∷ rest) (bytes ∷ more) = Appends others bytes × Feeds rest more

-- `start` was in the user's buffer and the pipe; `more` came while the reader was suspended.
abbrev pub Delivers : List ℕ → List (List ℕ) → Option Outcome → Type 0
Delivers start more none = ⊥
Delivers start more (some Outcome.out_of_fuel) = ⊥
Delivers start more (some (Outcome.returned s r)) =
    IsValid r
    × (s.read_size ≡ length s.got)
    × ((k : ℕ) × (s.got ++ contents r ≡ start ++ concat (take k more)))
Delivers start more (some (Outcome.waiting s r)) =
    IsValid r × (s.read_size ≡ length s.got) × (s.got ≡ start ++ concat more)

contents_nil : (r : PipeRingBuffer) → available_read r ≡ 0 → contents r ≡ []
contents_nil r e = rw e

-- The rounds of fuel that a loop at `r` may still need.
abbrev needed : ℕ → List Others → ℕ
needed available sched = 2 * length sched + (if available == 0 then 1 else 2)

-- Bytes that have come are among those that may come.
Delivers-more :
    (start bytes : List ℕ) (more : List (List ℕ)) (o : Option Outcome)
    → Delivers (start ++ bytes) more o
    → Delivers start (bytes ∷ more) o
Delivers-more start bytes more (some (Outcome.returned s r)) (v, size, (k, e)) =
    (v, size, (suc k, e ∙ append_assoc start bytes (concat (take k more))))
Delivers-more start bytes more (some (Outcome.waiting s r)) (v, size, e) =
    (v, size, e ∙ append_assoc start bytes (concat more))
Delivers-more start bytes more (some Outcome.out_of_fuel) d = d
Delivers-more start bytes more none d = d

abbrev Goal : ℕ → List Others → List (List ℕ) → Reader → PipeRingBuffer → Type 0
Goal fuel sched more s r =
    (n : ℕ)
    → Feeds sched more
    → IsValid r
    → r.write_end ≡ some n
    → s.read_size ≡ length s.got
    → needed (available_read r) sched ≤ fuel
    → Delivers (s.got ++ contents r) more (read_loop fuel sched s r)

module _ (fuel : ℕ)
    (ih : (sched : List Others) (more : List (List ℕ)) (s : Reader) (r : PipeRingBuffer)
      → Goal fuel sched more s r) where
  dry_round :
      (sched : List Others) (more : List (List ℕ)) (s : Reader) (r : PipeRingBuffer)
      → available_read r ≡ 0
      → Goal (suc fuel) sched more s r
  dry_round sched more s r dry zero feeds v e size h =
      rw (read_loop_closed fuel sched s r dry e)
        (v, size, (0, sym (append-nil (s.got ++ contents r))))
  dry_round [] [] s r dry (suc n) feeds v e size h =
      rw (read_loop_waits fuel [] s r n dry e)
        (v, size, ground (arith, contents_nil r dry, append-nil s.got))
  dry_round [] (bytes ∷ more) s r dry (suc n) feeds v e size h = absurd feeds
  dry_round (others ∷ rest) [] s r dry (suc n) feeds v e size h = absurd feeds
  dry_round (others ∷ rest) (bytes ∷ more) s r dry (suc n) feeds v e size h =
      let (v', grown, bound) = feeds.0 r (suc n) v e dry in
      let all : s.got ++ contents (others r) ≡ s.got ++ contents r ++ bytes =
        ground (arith, contents_nil r dry, append-nil s.got) in
      rw (read_loop_resumes fuel rest s r others n dry e) (
        Delivers-more (s.got ++ contents r) bytes more (read_loop fuel rest s (others r))
          (rw all at (ih rest more s (others r) bound.0 feeds.1 v' bound.1 size (ground arith))))

  copy_round :
      (sched : List Others) (more : List (List ℕ)) (s : Reader) (r : PipeRingBuffer)
      → available_read r ≢ 0
      → Goal (suc fuel) sched more s r
  copy_round sched more s r ne n feeds v e size h =
      let c = copy_out (available_read r) s r in
      let done : Copies (available_read r) s r c =
        copy_out-Copies _ s.read_size s.room s.got v (omega arith) in
      elim (Bool-cases c.returned) [
        | inl yes_returned ↦
            rw (read_loop_copies fuel sched s r ne, yes_returned)
              (
                done.valid,
                omega (arith, done.count, done.size, size),
                (0, done.bytes ∙ sym (append-nil _)),
              )
        | inr not_yet ↦
            rw (read_loop_copies fuel sched s r ne, not_yet)
              (rw done.bytes at (
                ih sched more c.reader c.ring n feeds done.valid (done.write_end ∙ e)
                  (omega (arith, done.count, done.size, size))
                  (ground (arith, done.left, done.stopped))))
      ]

read_loop-Delivers :
    (fuel : ℕ) (sched : List Others) (more : List (List ℕ)) (s : Reader) (r : PipeRingBuffer)
    → Goal fuel sched more s r
read_loop-Delivers zero sched more s r = λ n feeds v e size h. absurd (ground arith)
read_loop-Delivers (suc fuel) sched more s r = elim (ℕ_discrete (available_read r) 0) [
  | yes dry ↦ dry_round fuel (read_loop-Delivers fuel) sched more s r dry
  | no ne ↦ copy_round fuel (read_loop-Delivers fuel) sched more s r ne
]

-- However `read` is interrupted, it loses, repeats and reorders no byte: what it has stored and
-- what is still in the pipe are what the pipe held and what was appended while it was suspended,
-- and `read_size` counts what it has stored. It does not panic, and two rounds for each suspension
-- and two more are enough.
pub read_in_order :
    (r : PipeRingBuffer) (n len fuel : ℕ) (sched : List Others) (more : List (List ℕ))
    → IsValid r
    → r.write_end ≡ some n
    → Feeds sched more
    → 2 * length sched + 2 ≤ fuel
    → Delivers (contents r) more (read read_end_with_buffer fuel sched len r)
unfolding read read_end_with_buffer
read_in_order r n len fuel sched more v e feeds h =
    read_loop-Delivers fuel sched more (record { read_size = 0; room = len; got = [] }) r n feeds v
      e refl (ground arith)

-- With every writing end closed one copy is all that `read` does.
read_loop_closed_twice :
    (fuel : ℕ) (sched : List Others) (s : Reader) (r : PipeRingBuffer)
    → IsValid r
    → r.write_end ≡ some 0
    → let c = copy_out (available_read r) s r in
      read_loop (suc (suc fuel)) sched s r ≡ some (Outcome.returned c.reader c.ring)
unfolding copy_out
read_loop_closed_twice fuel sched s r v closed = elim (ℕ_discrete (available_read r) 0) [
  | yes dry ↦ rw (read_loop_closed (suc fuel) sched s r dry closed, dry)
  | no ne ↦
      let c = copy_out (available_read r) s r in
      let done : Copies (available_read r) s r c =
        copy_out-Copies _ s.read_size s.room s.got v (omega arith) in
      ground (
        arith,
        read_loop_copies (suc fuel) sched s r ne,
        read_loop_closed fuel sched c.reader c.ring,
        done.left,
        done.stopped,
        done.write_end,
      )
]

-- With every writing end closed, `read` returns in at most two rounds: it has taken the oldest
-- bytes of the pipe, as many as fit in the buffer, in order, and `read_size` is their number.
pub read_closed :
    (r : PipeRingBuffer) (len fuel : ℕ) (sched : List Others)
    → IsValid r
    → r.write_end ≡ some 0
    → 2 ≤ fuel
    → (s : Reader) × (q : PipeRingBuffer) × (read read_end_with_buffer fuel sched len r
        ≡ some (returned s q))
      × (s.got ++ contents q ≡ contents r)
      × (s.read_size ≡ length s.got)
      × (length s.got ≡ min len (length (contents r)))
unfolding read read_end_with_buffer
read_closed r len zero sched v closed h = absurd (omega arith)
read_closed r len (suc zero) sched v closed h = absurd (omega arith)
read_closed r len (suc (suc fuel)) sched v closed h =
    let s : Reader = record { read_size = 0; room = len; got = [] } in
    let c = copy_out (available_read r) s r in
    let done : Copies (available_read r) s r c = copy_out-Copies _ 0 len [] v (omega arith) in
    (
      c.reader,
      c.ring,
      read_loop_closed_twice fuel sched s r v closed,
      done.bytes,
      omega (arith, done.count, done.size),
      omega (arith, done.count, length-contents r),
    )
