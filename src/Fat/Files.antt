-- ===== src/Fat/Files.antt =====
-- Reading an opened file in kernel/fat32.c.
pub mod Whole
use test_os.Base.{ℕ, ◌+◌, ◌-◌, ◌%◌, ◌^◌, Bool, false, Option, none, some, ltb, if◌then◌else◌}
use test_os.Fat.{Device, FatFs, FatFile, fat_word}
use test_os.Fat.Transfer.{Io, fat32_file_rw}

-- A negative result as a `size_t`: -FAT_EIO is -2.
abbrev pub as_size : Option ℕ → ℕ
as_size (some n) = n
as_size none = fat_word - 2

-- The sum of the offset and the length is one of words.
unfoldable pub fat32_file_read :
    (d : Device) (disk : ℕ)
    → FatFs
    → FatFile
    → (buffer offset length : ℕ) → Io d.State
    → ℕ × Io d.State
unfolding fat32_file_rw
fat32_file_read d disk fs file buffer offset length io =
    let r = fat32_file_rw d disk fs file false buffer offset length io in
    if ltb file.size ((offset + length) % fat_word) then (0, io) else (as_size r.0, r.1)
