-- ===== src/EasyFs/Bitmap/Tests.antt =====
-- The theorems of src/easy-fs/src/bitmap.rs at a concrete bitmap.
use project_r_core.Common.{ℕ, ◌<◌, ◌≡◌, refl, ◌⊎◌, arith, none, some, ◌==◌, ◌&&◌, if◌then◌else◌}
use project_r_core.Common.Bytes.{le_read}
use project_r_core.EasyFs.Disk.{Disk, IsDisk, word}
use project_r_core.EasyFs.Bitmap.{
  Bitmap, alloc, dealloc, maximum, find_pair, alloc_loop, mark, trailing_ones,
}
use project_r_core.EasyFs.Bitmap.Changes.{get_bit, Changes}
use project_r_core.EasyFs.Bitmap.Alloc.{alloc_first}
use project_r_core.EasyFs.Bitmap.Dealloc.{dealloc_bit}

abbrev bitmap : Bitmap
bitmap = record { start_block_id = 1; blocks = 1 }

-- The first integer is 0b1011.
abbrev disk : Disk
disk b a = if b == 1 && a == 0 then 11 else 0

disk-IsDisk : IsDisk disk
disk-IsDisk b a = ground arith

alloc_run : (alloc bitmap disk).0 ≡ some 2
unfolding alloc alloc_loop find_pair mark trailing_ones word le_read
alloc_run = refl

alloc_first_example :
    (((alloc bitmap disk).0 ≡ none)
      × ((alloc bitmap disk).1 ≡ disk)
      × ((j : ℕ) → j < maximum bitmap → get_bit bitmap disk j ≡ 1))
    ⊎ ((i : ℕ) × ((alloc bitmap disk).0 ≡ some i)
        × (i < maximum bitmap)
        × (get_bit bitmap disk i ≡ 0)
        × ((j : ℕ) → j < i → get_bit bitmap disk j ≡ 1)
        × Changes bitmap disk (alloc bitmap disk).1 i 1)
alloc_first_example = alloc_first bitmap disk disk-IsDisk

dealloc_bit_example :
    ((get_bit bitmap disk 3 ≡ 1)
      × ((d' : Disk) × (dealloc bitmap disk 3 ≡ some d') × Changes bitmap disk d' 3 0))
    ⊎ ((get_bit bitmap disk 3 ≡ 0) × (dealloc bitmap disk 3 ≡ none))
unfolding maximum
dealloc_bit_example = dealloc_bit bitmap disk 3 disk-IsDisk (omega arith)
