-- ===== src/Kernel/Pipe/Tests.antt =====
-- Runs of src/os/src/fs/pipe.rs, and its theorems at concrete pipes.
use project_r_core.Common.{
  ℕ, ◌≡◌, refl, ◌≢◌, some, List, [], ◌∷◌, ◌++◌, arith, length, min, drop, ◌+◌, replicate, ap, ◌∙◌,
}
use project_r_core.Kernel.Pipe.{
  PipeRingBuffer, RingBufferStatus, Reader, Others, Outcome, Written, new, read_byte, write_byte,
  available_read, available_write, set_write_end, make_pipe, read, write, read_end_with_buffer,
  write_end_with_buffer, read_loop, copy_out, all_write_ends_closed,
}
use project_r_core.Kernel.Pipe.Queue.{
  IsValid, contents, read_byte-IsValid, read_byte_refines, write_byte_refines, available_write_lem,
  write_byte-IsValid, length-contents,
}
use project_r_core.Kernel.Pipe.Reading.{Appends, Delivers, read_in_order, read_closed}
use project_r_core.Kernel.Pipe.Writing.{Takes, HandsOver, write_in_order}
use project_r_core.Kernel.Pipe.Blocking.{read_exact_waits}

abbrev zeros : ℕ → List ℕ
zeros n = replicate n 0

-- 8, then 9, round the end of the array; one writing end is open.
abbrev wrapped : PipeRingBuffer
wrapped = record {
  arr = 9 ∷ (zeros 30 ++ (8 ∷ []));
  head = 31;
  tail = 1;
  status = RingBufferStatus.normal;
  write_end = some 1;
}

abbrev fresh : PipeRingBuffer
fresh = record {
  arr = zeros 32;
  head = 0;
  tail = 0;
  status = RingBufferStatus.empty;
  write_end = some 1;
}

make_pipe_fresh : make_pipe.2 ≡ fresh
unfolding make_pipe set_write_end new
make_pipe_fresh = refl

wrapped-IsValid : IsValid wrapped
wrapped-IsValid = ground arith

fresh-IsValid : IsValid fresh
fresh-IsValid = ground arith

abbrev closed : PipeRingBuffer
closed = record wrapped { write_end = some 0 }

closed-IsValid : IsValid closed
closed-IsValid = ground arith

-- A shell at the other end, typing "hi".
abbrev writes_hi : Others
writes_hi r = write_byte (write_byte r 104) 105

write_end-write_byte : (r : PipeRingBuffer) (b : ℕ) → (write_byte r b).write_end ≡ r.write_end
unfolding write_byte
write_end-write_byte r b = refl

available_write_dry :
    {r : PipeRingBuffer} → IsValid r → available_read r ≡ 0 → available_write r ≢ 0
available_write_dry {r} v e = omega (arith, available_write_lem v, length-contents r)

run_read :
    read read_end_with_buffer 2 [] 1 wrapped
    ≡ some (
        Outcome.returned
          (record { read_size = 1; room = 0; got = 8 ∷ [] })
          (record wrapped { head = 0 }))
unfolding read read_end_with_buffer read_loop copy_out read_byte available_read
    all_write_ends_closed
run_read = refl

read_byte_refines_example : (read_byte wrapped).0 ∷ contents (read_byte wrapped).1 ≡ 8 ∷ 9 ∷ []
unfolding available_read
read_byte_refines_example = read_byte_refines wrapped-IsValid (omega arith)

write_byte_refines_example : contents (write_byte wrapped 5) ≡ 8 ∷ 9 ∷ 5 ∷ []
unfolding available_read available_write
write_byte_refines_example = write_byte_refines 5 wrapped-IsValid (omega arith)

available_write_lem_example : available_write wrapped + 2 ≡ 32
unfolding available_read
available_write_lem_example = available_write_lem wrapped-IsValid

read_closed_example :
    (s : Reader) × (q : PipeRingBuffer) × (read read_end_with_buffer 2 [] 5 closed
      ≡ some (Outcome.returned s q))
    × (s.got ++ contents q ≡ contents closed)
    × (s.read_size ≡ length s.got)
    × (length s.got ≡ min 5 (length (contents closed)))
read_closed_example = read_closed closed 5 2 [] closed-IsValid refl (omega arith)

read_exact_waits_example :
    (s : Reader) × (q : PipeRingBuffer) × (read read_end_with_buffer 2 []
        (length (contents wrapped))
        wrapped
      ≡ some (Outcome.waiting s q))
    × (s.got ++ contents q ≡ contents wrapped)
    × (length s.got ≡ length (contents wrapped))
    × (s.room ≡ 0)
unfolding available_read
read_exact_waits_example = read_exact_waits wrapped 0 0 wrapped-IsValid refl (λ e. cc)

abbrev full : PipeRingBuffer
full = record {
  arr = zeros 32;
  head = 0;
  tail = 0;
  status = RingBufferStatus.full;
  write_end = some 1;
}

full-IsValid : IsValid full
full-IsValid = ground arith

writes_hi-Appends : Appends writes_hi (104 ∷ 105 ∷ [])
writes_hi-Appends r n v e dry =
    let one = write_byte-IsValid 104 v in
    let first : contents (write_byte r 104) ≡ 104 ∷ [] =
      ground
        (arith, write_byte_refines 104 v (available_write_dry v dry), length-contents r, dry_nil) in
    let room : available_write (write_byte r 104) ≢ 0 =
      omega (arith, available_write_lem one, ap length first) in
    (
      write_byte-IsValid 105 one,
      ground (arith, write_byte_refines 105 one room, first),
      (n, write_end-write_byte (write_byte r 104) 105 ∙ write_end-write_byte r 104 ∙ e),
    )
  where
    dry_nil : contents r ≡ []
    dry_nil = rw dry

reads_one : Others
reads_one r = (read_byte r).1

reads_one-Takes : Takes reads_one 1
unfolding reads_one
reads_one-Takes r v no_room =
    let some_bytes : available_read r ≢ 0 =
      omega (arith, available_write_lem v, length-contents r, no_room) in
    (read_byte-IsValid v, ap (drop 1) (read_byte_refines v some_bytes))

read_in_order_example :
    Delivers
      (8 ∷ 9 ∷ [])
      ((104 ∷ 105 ∷ []) ∷ [])
      (read read_end_with_buffer 4 (writes_hi ∷ []) 3 wrapped)
unfolding available_read
read_in_order_example =
    read_in_order wrapped 1 3 4 (writes_hi ∷ []) ((104 ∷ 105 ∷ []) ∷ []) wrapped-IsValid refl
      (writes_hi-Appends, tt) (omega arith)

write_in_order_example :
    (w : Written) × (write write_end_with_buffer 4 (reads_one ∷ []) (1 ∷ 2 ∷ []) full ≡ some w)
    × HandsOver (contents full ++ 1 ∷ 2 ∷ []) 2 (1 ∷ []) w
write_in_order_example =
    write_in_order full 4 (reads_one ∷ []) (1 ∷ []) (1 ∷ 2 ∷ []) full-IsValid
      (omega arith, reads_one-Takes, tt) (omega arith)
