-- ===== src/Kernel/Pipe/Queue.antt =====
-- The ring buffer of src/os/src/fs/pipe.rs as the queue of the bytes between `head` and `tail`.
use project_r_core.Common.{
  ℕ, zero, suc, ◌+◌, ◌-◌, ◌%◌, ◌≤◌, ◌<◌, ◌≡◌, refl, ap, ap₂, ◌≢◌, List, [], ◌∷◌, ◌++◌, arith,
  length, get_or, set, get_or-set_self, get_or-set_ne, length-set,
}
use project_r_core.Kernel.Pipe.{
  PipeRingBuffer, RingBufferStatus, new, read_byte, write_byte, available_read, available_write,
}

-- `head == tail` is the empty and the full buffer, and `status` tells which.
pub record IsValid (r : PipeRingBuffer) : Type 0 where
  pub storage : length r.arr ≡ 32
  pub head_in : r.head < 32
  pub tail_in : r.tail < 32
  pub full_meets : r.status ≡ RingBufferStatus.full → r.head ≡ r.tail
  pub empty_meets : r.status ≡ RingBufferStatus.empty → r.head ≡ r.tail
  pub normal_apart : r.status ≡ RingBufferStatus.normal → r.head ≢ r.tail

-- The `n` bytes of the array from index `h` on, going round at its end.
abbrev pub bytes_from : List ℕ → ℕ → ℕ → List ℕ
bytes_from arr h zero = []
bytes_from arr h (suc n) = get_or arr h 0 ∷ bytes_from arr ((h + 1) % 32) n

abbrev pub contents : PipeRingBuffer → List ℕ
contents r = bytes_from r.arr r.head (available_read r)

length-bytes_from : (arr : List ℕ) (h n : ℕ) → length (bytes_from arr h n) ≡ n
length-bytes_from arr h zero = refl
length-bytes_from arr h (suc n) = ap suc (length-bytes_from arr ((h + 1) % 32) n)

pub length-contents : (r : PipeRingBuffer) → length (contents r) ≡ available_read r
length-contents r = length-bytes_from r.arr r.head (available_read r)

pub available_read-le : {r : PipeRingBuffer} → IsValid r → available_read r ≤ 32
unfolding available_read
available_read-le v = ground arith

-- The space for writing is what the bytes in the buffer leave of its 32 places.
pub available_write_lem :
    {r : PipeRingBuffer} → IsValid r → available_write r + length (contents r) ≡ 32
unfolding available_write available_read
available_write_lem {r} v = ground (arith, length-contents r, available_read-le v)

-- The place after a run of `n` bytes takes the next byte; a full turn is not reached before.
bytes_from-set :
    (arr : List ℕ) (b h n i : ℕ)
    → length arr ≡ 32
    → h < 32
    → n < 32
    → i ≡ (h + n) % 32
    → bytes_from (set arr i b) h (suc n) ≡ bytes_from arr h n ++ (b ∷ [])
bytes_from-set arr b h zero i s hh hn e =
    let at : i ≡ h = omega arith in rw (at, get_or-set_self arr h b 0 (omega arith))
bytes_from-set arr b h (suc n) i s hh hn e =
    ap₂ ◌∷◌ (get_or-set_ne arr i h b 0 (omega arith))
      (bytes_from-set arr b ((h + 1) % 32) n i s (omega arith) (omega arith) (omega arith))

bytes_from-suc :
    (arr : List ℕ) (h n : ℕ)
    → n ≢ 0
    → bytes_from arr h n ≡ get_or arr h 0 ∷ bytes_from arr ((h + 1) % 32) (n - 1)
bytes_from-suc arr h zero ne = absurd (ne refl)
bytes_from-suc arr h (suc n) ne = ap (λ k. bytes_from arr h (suc k)) (omega arith)

pub new-IsValid : IsValid new
unfolding new
new-IsValid = ground arith

pub read_byte-IsValid : {r : PipeRingBuffer} → IsValid r → IsValid (read_byte r).1
unfolding read_byte
read_byte-IsValid v = ground arith

pub write_byte-IsValid : {r : PipeRingBuffer} (b : ℕ) → IsValid r → IsValid (write_byte r b)
unfolding write_byte
write_byte-IsValid {r} b v = ground (arith, length-set r.arr r.tail b)

pub available_read-read_byte :
    {r : PipeRingBuffer}
    → IsValid r
    → available_read r ≢ 0
    → available_read (read_byte r).1 ≡ available_read r - 1
unfolding read_byte available_read
available_read-read_byte v ne = ground arith

pub available_read-write_byte :
    {r : PipeRingBuffer} (b : ℕ)
    → IsValid r
    → available_read r ≢ 32
    → available_read (write_byte r b) ≡ suc (available_read r)
unfolding write_byte available_read
available_read-write_byte b v ne = ground arith

-- `tail` is the place after the bytes in the buffer.
tail-place : {r : PipeRingBuffer} → IsValid r → r.tail ≡ (r.head + available_read r) % 32
unfolding available_read
tail-place v = ground arith

-- Reading takes the oldest byte off the queue.
pub read_byte_refines :
    {r : PipeRingBuffer}
    → IsValid r
    → available_read r ≢ 0
    → (read_byte r).0 ∷ contents (read_byte r).1 ≡ contents r
unfolding read_byte
read_byte_refines {r} v ne =
    ground (arith, available_read-read_byte v ne, bytes_from-suc r.arr r.head (available_read r) ne)

-- Writing appends the byte to the queue, if there is room.
pub write_byte_refines :
    {r : PipeRingBuffer} (b : ℕ)
    → IsValid r
    → available_write r ≢ 0
    → contents (write_byte r b) ≡ contents r ++ (b ∷ [])
unfolding write_byte
write_byte_refines {r} b v ne =
    let room : available_read r < 32 =
      omega (arith, available_write_lem v, length-contents r, ne) in
    ground (
      arith,
      available_read-write_byte b v (omega arith),
      tail-place v,
      bytes_from-set r.arr b r.head (available_read r) r.tail,
    )
