-- ===== src/Kernel/UserBuffer/Tests.antt =====
-- The iterator of src/os/src/mm/page_table.rs over a concrete buffer.
use project_r_core.Common.{◌≡◌, refl, some, [], ◌∷◌, length, arith}
use project_r_core.Kernel.UserBuffer.{UserBuffer, into_iter, collect, total_len}
use project_r_core.Kernel.UserBuffer.Pieces.{all_addresses, into_iter-collect}

-- Five bytes that lie on two pages.
abbrev buffer : UserBuffer
buffer = record {
  buffers = record { base = 4094; len = 2 } ∷ record { base = 20480; len = 3 } ∷ [];
}

into_iter-collect_example :
    (collect 6 (into_iter buffer) ≡ some (all_addresses buffer.buffers))
    × (length (all_addresses buffer.buffers) ≡ total_len buffer.buffers)
unfolding total_len
into_iter-collect_example = into_iter-collect buffer (omega arith, (omega arith, tt))

collect_runs : collect 6 (into_iter buffer) ≡ some (4094 ∷ 4095 ∷ 20480 ∷ 20481 ∷ 20482 ∷ [])
unfolding collect into_iter
collect_runs = refl
