-- ===== src/Kernel/Pipe/Transfer.antt =====
-- The loops of `read` and `write` of src/os/src/fs/pipe.rs: which bytes they move, and in which order.
use project_r_core.Common.{
  ℕ, zero, suc, ap, ◌+◌, ◌-◌, ◌≤◌, ◌≡◌, refl, ◌≢◌, List, [], ◌∷◌, ◌++◌, arith, min, ltb, length,
  length-append,
}
use mathlib.Core.List.{append_assoc}
use project_r_core.Kernel.Pipe.{
  PipeRingBuffer, Reader, Copied, Writer, Stored, read_byte, write_byte, available_read,
  available_write, copy_out, copy_in,
}
use project_r_core.Kernel.Pipe.Queue.{
  IsValid, contents, length-contents, read_byte-IsValid, write_byte-IsValid, read_byte_refines,
  write_byte_refines, available_read-read_byte, available_write_lem,
}

-- What `n` rounds of the loop over the bytes do with a buffer that holds as many.
pub record Copies (n : ℕ) (s : Reader) (r : PipeRingBuffer) (c : Copied) : Type 0 where
  pub valid : IsValid c.ring
  pub bytes : c.reader.got ++ contents c.ring ≡ s.got ++ contents r
  pub count : length c.reader.got ≡ length s.got + min n s.room
  pub size : c.reader.read_size ≡ s.read_size + min n s.room
  pub room : c.reader.room ≡ s.room - n
  pub left : available_read c.ring ≡ available_read r - min n s.room
  pub stopped : c.returned ≡ ltb s.room n
  pub write_end : c.ring.write_end ≡ r.write_end

write_end-read_byte : (r : PipeRingBuffer) → (read_byte r).1.write_end ≡ r.write_end
unfolding read_byte
write_end-read_byte r = refl

-- One turn of the loop of `read`.
pub copy_out-Copies :
    (n size room : ℕ) (got : List ℕ) {r : PipeRingBuffer}
    → IsValid r
    → n ≤ available_read r
    → let s : Reader = record { read_size = size; room = room; got = got } in
      Copies n s r (copy_out n s r)
unfolding copy_out
copy_out-Copies zero size room got v h = ground arith
copy_out-Copies (suc n) size zero got v h = ground arith
copy_out-Copies (suc n) size (suc room) got {r} v h = ground (
  arith,
  copy_out-Copies n (size + 1) room (got ++ ((read_byte r).0 ∷ [])) (read_byte-IsValid v),
  read_byte_refines v,
  available_read-read_byte v,
  write_end-read_byte r,
  append_assoc got ((read_byte r).0 ∷ []) (contents (read_byte r).1),
  length-append got ((read_byte r).0 ∷ []),
)

-- What `n` rounds of the loop over the bytes do with a buffer that has as many places.
pub record Stores (n : ℕ) (s : Writer) (r : PipeRingBuffer) (c : Stored) : Type 0 where
  pub valid : IsValid c.ring
  pub bytes : contents c.ring ++ c.writer.left ≡ contents r ++ s.left
  pub count : c.writer.write_size + length c.writer.left ≡ s.write_size + length s.left
  pub left : length c.writer.left ≡ length s.left - n
  pub space : available_write c.ring ≡ available_write r - min n (length s.left)
  pub stopped : c.returned ≡ ltb (length s.left) n

available_write-write_byte :
    {r : PipeRingBuffer} (b : ℕ)
    → IsValid r
    → available_write r ≢ 0
    → available_write (write_byte r b) ≡ available_write r - 1
available_write-write_byte {r} b v ne = omega (
  arith,
  available_write_lem v,
  available_write_lem (write_byte-IsValid b v),
  length-contents r,
  length-contents (write_byte r b),
  ap length (write_byte_refines b v ne),
  length-append (contents r) (b ∷ []),
)

-- One turn of the loop of `write`.
pub copy_in-Stores :
    (n size : ℕ) (left : List ℕ) {r : PipeRingBuffer}
    → IsValid r
    → n ≤ available_write r
    → let s : Writer = record { write_size = size; left = left } in Stores n s r (copy_in n s r)
unfolding copy_in
copy_in-Stores zero size left v h = ground arith
copy_in-Stores (suc n) size [] v h = ground arith
copy_in-Stores (suc n) size (b ∷ left) {r} v h =
    let room : available_write r ≢ 0 = omega arith in
    ground (
      arith,
      copy_in-Stores n (size + 1) left (write_byte-IsValid b v),
      write_byte_refines b v room,
      available_write-write_byte b v room,
      append_assoc (contents r) (b ∷ []) left,
    )
