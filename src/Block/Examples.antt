-- ===== src/Block/Examples.antt =====
-- Runs of the memory functions, and the theorems about them at concrete blocks.
use test_os.Base.{◌≡◌, refl, codes}
use test_os.Base.Memory.{Memory, memory_at, read_bytes}
use test_os.Block.{memcpy, memmove}
use test_os.Block.Copy.{Copied, memmove-Copied}

abbrev letters : Memory
letters = memory_at 100 (codes "abcdefghij")

memmove_overlap : read_bytes (memmove letters 105 100 7).1 100 12 ≡ codes "abcdeabcdefg"
unfolding memmove
memmove_overlap = refl

-- The same call of `memcpy` copies five bytes, and then repeats them.
memcpy_overlap : read_bytes (memcpy letters 105 100 7).1 100 12 ≡ codes "abcdeabcdeab"
unfolding memcpy
memcpy_overlap = refl

memmove-Copied_example :
    ((memmove letters 105 100 7).0 ≡ 105) × Copied letters 105 100 7 (memmove letters 105 100 7).1
memmove-Copied_example = memmove-Copied letters 105 100 7
