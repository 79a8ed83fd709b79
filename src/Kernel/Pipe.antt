-- ===== src/Kernel/Pipe.antt =====
-- src/os/src/fs/pipe.rs: the ring buffer behind a pipe, its two ends, and the loops of `read` and
-- `write`, which give the processor away while the buffer is empty (full). A byte is only moved,
-- so it is any number. The user's buffer is the number of places it still has (`read`), or the
-- list of bytes still to be taken from it (`write`).
pub mod Queue
pub mod Transfer
pub mod Reading
pub mod Writing
pub mod Blocking
mod Tests
use project_r_core.Common.{
  ℕ, zero, suc, ◌+◌, ◌-◌, ◌%◌, Bool, true, false, Option, none, some, List, [], ◌∷◌, ◌++◌, get_or,
  set, replicate, ltb, ◌==◌, if◌then◌else◌, assert, ◌>>=◌, ◌>>◌,
}

abbrev pub ring_buffer_size : ℕ
ring_buffer_size = 32

pub data RingBufferStatus : Type 0 where
  full empty normal : RingBufferStatus

-- `write_end` is the weak reference to the writing end: the number is the strong count that its
-- control block holds, which `upgrade` reads.
pub record PipeRingBuffer : Type 0 where
  pub arr : List ℕ
  pub head : ℕ
  pub tail : ℕ
  pub status : RingBufferStatus
  pub write_end : Option ℕ

pub new : PipeRingBuffer
new = record {
  arr = replicate ring_buffer_size 0;
  head = 0;
  tail = 0;
  status = RingBufferStatus.empty;
  write_end = none;
}

-- `head` is below the length of the array (`Queue.IsValid`), so the index does not panic.
pub read_byte : PipeRingBuffer → ℕ × PipeRingBuffer
read_byte r =
    let head' = (r.head + 1) % ring_buffer_size in
    (
      get_or r.arr r.head 0,
      record r {
        head = head';
        status = if head' == r.tail then RingBufferStatus.empty else RingBufferStatus.normal;
      },
    )

pub write_byte : PipeRingBuffer → ℕ → PipeRingBuffer
write_byte r b =
    let tail' = (r.tail + 1) % ring_buffer_size in
    record r {
      arr = set r.arr r.tail b;
      tail = tail';
      status = if r.head == tail' then RingBufferStatus.full else RingBufferStatus.normal;
    }

is_empty : RingBufferStatus → Bool
is_empty RingBufferStatus.empty = true
is_empty _ = false

is_full : RingBufferStatus → Bool
is_full RingBufferStatus.full = true
is_full _ = false

pub available_read : PipeRingBuffer → ℕ
unfolding is_empty
available_read r =
    if is_empty r.status
    then 0
    else if ltb r.head r.tail
    then r.tail - r.head
    else ring_buffer_size - r.head + r.tail

pub available_write : PipeRingBuffer → ℕ
unfolding is_full
available_write r = if is_full r.status then 0 else ring_buffer_size - available_read r

-- `none` is the panic of `unwrap` before `set_write_end`.
pub all_write_ends_closed : PipeRingBuffer → Option Bool
all_write_ends_closed r = elim r.write_end [ none ↦ none | some strong ↦ some (strong == 0) ]

pub set_write_end : PipeRingBuffer → ℕ → PipeRingBuffer
set_write_end r strong = record r { write_end = some strong }

-- The buffer that the two ends share is the state of the functions below.
pub record Pipe : Type 0 where
  pub readable : Bool
  pub writable : Bool

pub read_end_with_buffer : Pipe
read_end_with_buffer = record { readable = true; writable = false }

pub write_end_with_buffer : Pipe
write_end_with_buffer = record { readable = false; writable = true }

-- One strong reference to the writing end, the one that is returned.
pub make_pipe : Pipe × Pipe × PipeRingBuffer
make_pipe = (read_end_with_buffer, write_end_with_buffer, set_write_end new 1)

-- What the other tasks make of the shared buffer while this one is suspended.
abbrev pub Others : Type 0
Others = PipeRingBuffer → PipeRingBuffer

-- `read_size`, the places left in the user's buffer, and the bytes stored in it so far.
pub record Reader : Type 0 where
  pub read_size : ℕ
  pub room : ℕ
  pub got : List ℕ

-- `returned` is the `return` in the middle of the loop over the bytes.
pub record Copied : Type 0 where
  pub returned : Bool
  pub reader : Reader
  pub ring : PipeRingBuffer

-- for _ in 0..loop_read_size
pub copy_out : ℕ → Reader → PipeRingBuffer → Copied
copy_out zero s r = record { returned = false; reader = s; ring = r }
copy_out (suc n) s r = elim s.room [
  | zero ↦ record { returned = true; reader = s; ring = r }
  | suc room ↦
      let (b, r') = read_byte r in
      copy_out n (record { read_size = s.read_size + 1; room = room; got = s.got ++ (b ∷ []) }) r'
]

-- How a call ends: it returns, it is still suspended when the schedule ends, or the fuel is spent.
pub data Outcome : Type 0 where
  returned : Reader → PipeRingBuffer → Outcome
  waiting : Reader → PipeRingBuffer → Outcome
  out_of_fuel : Outcome

-- The loop of `read`: each round takes a unit of fuel, each suspension an entry of the schedule.
pub read_loop : ℕ → List Others → Reader → PipeRingBuffer → Option Outcome
read_loop zero sched s r = some out_of_fuel
read_loop (suc fuel) sched s r = elim (available_read r) [
  | zero ↦ elim (all_write_ends_closed r) [
    | none ↦ none
    | some true ↦ some (returned s r)
    | some false ↦ elim sched [
      | [] ↦ some (waiting s r)
      | others ∷ rest ↦ read_loop fuel rest s (others r)
    ]
  ]
  | suc n ↦
      let c = copy_out (suc n) s r in
      let again = read_loop fuel sched c.reader c.ring in
      if c.returned then some (returned c.reader c.ring) else again
]

pub read : Pipe → ℕ → List Others → ℕ → PipeRingBuffer → Option Outcome
read p fuel sched len r = do
  assert p.readable
  read_loop fuel sched (record { read_size = 0; room = len; got = [] }) r

-- `write_size`, and the bytes that are still to come from the user's buffer.
pub record Writer : Type 0 where
  pub write_size : ℕ
  pub left : List ℕ

pub record Stored : Type 0 where
  pub returned : Bool
  pub writer : Writer
  pub ring : PipeRingBuffer

-- for _ in 0..loop_write_size
pub copy_in : ℕ → Writer → PipeRingBuffer → Stored
copy_in zero s r = record { returned = false; writer = s; ring = r }
copy_in (suc n) s r = elim s.left [
  | [] ↦ record { returned = true; writer = s; ring = r }
  | b ∷ left ↦ copy_in n (record { write_size = s.write_size + 1; left = left }) (write_byte r b)
]

pub data Written : Type 0 where
  returned : Writer → PipeRingBuffer → Written
  waiting : Writer → PipeRingBuffer → Written
  out_of_fuel : Written

pub write_loop : ℕ → List Others → Writer → PipeRingBuffer → Written
write_loop zero sched s r = Written.out_of_fuel
write_loop (suc fuel) sched s r = elim (available_write r) [
  | zero ↦ elim sched [
    | [] ↦ Written.waiting s r
    | others ∷ rest ↦ write_loop fuel rest s (others r)
  ]
  | suc n ↦
      let c = copy_in (suc n) s r in
      let again = write_loop fuel sched c.writer c.ring in
      if c.returned then Written.returned c.writer c.ring else again
]

pub write : Pipe → ℕ → List Others → List ℕ → PipeRingBuffer → Option Written
write p fuel sched buf r = do
  assert p.writable
  some (write_loop fuel sched (record { write_size = 0; left = buf }) r)
