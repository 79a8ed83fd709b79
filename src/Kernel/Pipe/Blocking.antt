-- ===== src/Kernel/Pipe/Blocking.antt =====
-- `read` and `write` of src/os/src/fs/pipe.rs look for the end of the user's buffer only when they have
-- a byte (a place) at hand, so a call that is already served can go to sleep.
use project_r_core.Common.{ℕ, suc, ◌≡◌, ◌≢◌, some, [], ◌++◌, arith, length}
use project_r_core.Kernel.Pipe.{
  PipeRingBuffer, Reader, Outcome, read, read_end_with_buffer, available_read, copy_out,
}
use project_r_core.Kernel.Pipe.Queue.{IsValid, contents, length-contents}
use project_r_core.Kernel.Pipe.Transfer.{Copies, copy_out-Copies}
use project_r_core.Kernel.Pipe.Reading.{read_loop_copies, read_loop_waits}

-- A reader that asks for exactly the bytes that the pipe holds, while a writing end is open, has
-- its buffer full with all of them, and is suspended nevertheless.
pub read_exact_waits :
    (r : PipeRingBuffer) (n fuel : ℕ)
    → IsValid r
    → r.write_end ≡ some (suc n)
    → contents r ≢ []
    → (s : Reader) × (q : PipeRingBuffer) × (read read_end_with_buffer
          (suc (suc fuel))
          []
          (length (contents r))
          r
        ≡ some (Outcome.waiting s q))
      × (s.got ++ contents q ≡ contents r)
      × (length s.got ≡ length (contents r))
      × (s.room ≡ 0)
unfolding read read_end_with_buffer
read_exact_waits r n fuel v open_end ne =
    let s : Reader = record { read_size = 0; room = length (contents r); got = [] } in
    let some_bytes : available_read r ≢ 0 = λ e. ne (rw e) in
    let c = copy_out (available_read r) s r in
    let done : Copies (available_read r) s r c =
      copy_out-Copies _ 0 (length (contents r)) [] v (omega arith) in
    (
      c.reader,
      c.ring,
      ground (
        arith,
        length-contents r,
        read_loop_copies (suc fuel) [] s r some_bytes,
        read_loop_waits fuel [] c.reader c.ring n,
        done.left,
        done.stopped,
        done.write_end,
      ),
      done.bytes,
      omega (arith, done.count, length-contents r),
      omega (arith, done.room, length-contents r),
    )
