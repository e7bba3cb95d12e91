-- ===== src/Fat/Table/View.antt =====
-- The file allocation table of kernel/fat32.c as its readers see it: the buffer over the disk.
use native.Mathlib.Nat.{add-mul, mod-eq_of_lt}
use test_os.Base.{
  ℕ, zero, suc, ◌+◌, ◌-◌, ◌*◌, ◌%◌, ◌≤◌, ◌<◌, ◌≡◌, refl, ◌∙◌, arith, Bool, true, false, not, ◌&&◌,
  ◌==◌, if◌then◌else◌, if_elim,
}
use test_os.Base.Memory.{Memory, within}
use test_os.Fat.{Device, IsLawful, FatFs, fat_word, sector_size}
use test_os.Fat.Table.{Cache, write_fats}

-- The tables are words' worth of sectors, and there is one.
pub record IsTable (fs : FatFs) : Type 0 where
  pub some_fats : 0 < fs.num_fats
  pub is_word : fs.reserved_sectors + fs.num_fats * fs.fat_sectors + fs.fat_sectors < fat_word
  pub few_clusters : fs.fat_sectors * sector_size ≤ fat_word

-- The addresses of the first table.
abbrev pub in_fat : FatFs → ℕ → Bool
in_fat fs a = within (fs.reserved_sectors * sector_size) (fs.fat_sectors * sector_size) a

next_word :
    (sector n size : ℕ)
    → sector + suc n * size < fat_word
    → (sector + size) % fat_word ≡ sector + size
next_word sector n size fits = mod-eq_of_lt (omega (arith, fits, add-mul 1 n size))

module _ (d : Device) (laws : IsLawful d) (fs_at : ℕ → FatFs) (disk fs : ℕ) where
  abbrev pub view : Cache d.State → Memory
  view c a =
      if (c.fat32_buf_fs == fs) && within (c.fat32_buf_sector * sector_size) 1024 a
      then c.fat32_buf (a - c.fat32_buf_sector * sector_size)
      else laws.bytes c.device disk a

  -- The buffer is that of this file system, at one of its sectors, and as on the disk unless it has been
  -- changed; or it is another one's, and there is nothing to write.
  pub record IsCached (c : Cache d.State) : Type 0 where
    pub other :
        (c.fat32_buf_fs == fs) ≡ false → (c.fat32_buf_changed && not (c.fat32_buf_fs == 0)) ≡ false
    pub low : (c.fat32_buf_fs == fs) ≡ true → (fs_at fs).reserved_sectors ≤ c.fat32_buf_sector
    pub high :
        (c.fat32_buf_fs == fs) ≡ true
        → c.fat32_buf_sector < (fs_at fs).reserved_sectors + (fs_at fs).fat_sectors
    pub clean :
        (c.fat32_buf_fs == fs) ≡ true
        → c.fat32_buf_changed ≡ false
        → (a : ℕ) → in_fat (fs_at fs) a ≡ true
        → view c a ≡ laws.bytes c.device disk a

  -- The later tables lie behind the first.
  write_fats-behind :
      (n sector : ℕ) (buf : Memory) (s : d.State)
      → (fs_at fs).reserved_sectors + (fs_at fs).fat_sectors ≤ sector
      → sector + n * (fs_at fs).fat_sectors < fat_word
      → (write_fats d disk n ((fs_at fs).fat_sectors) sector buf s).0 ≡ true
      → (a : ℕ) → in_fat (fs_at fs) a ≡ true
      → laws.bytes (write_fats d disk n ((fs_at fs).fat_sectors) sector buf s).1 disk a
        ≡ laws.bytes s disk a
  unfolding write_fats
  write_fats-behind zero sector buf s behind fits = λ done a here. refl
  write_fats-behind (suc n) sector buf s behind fits =
      let size = (fs_at fs).fat_sectors in
      let w = d.device_write s disk sector 2 buf in
      let next = (sector + size) % fat_word in
      let rest = write_fats d disk n size next buf w.1 in
      let at : next ≡ sector + size = next_word sector n size fits in
      if_elim
        (λ (t : Bool × d.State).
          t.0 ≡ true
          → (a : ℕ) → in_fat (fs_at fs) a ≡ true
          → laws.bytes t.1 disk a ≡ laws.bytes s disk a)
        w.0
        (λ worked done a here.
          write_fats-behind n next buf w.1 (omega (arith, at, behind))
            (omega (arith, at, fits, add-mul 1 n size)) done a here
          ∙ laws.bytes-device_write s disk sector 2 buf disk a worked
          ∙ ground (arith, behind, here))
        (λ failed done. absurd (ground (arith, failed, done)))

  pub write_fats-bytes :
      (n sector : ℕ) (buf : Memory) (s : d.State)
      → 0 < n
      → (fs_at fs).reserved_sectors ≤ sector
      → sector + n * (fs_at fs).fat_sectors < fat_word
      → (write_fats d disk n ((fs_at fs).fat_sectors) sector buf s).0 ≡ true
      → (a : ℕ) → in_fat (fs_at fs) a ≡ true
      → laws.bytes (write_fats d disk n ((fs_at fs).fat_sectors) sector buf s).1 disk a ≡ (
          if within (sector * sector_size) 1024 a
          then buf (a - sector * sector_size)
          else laws.bytes s disk a)
  unfolding write_fats
  write_fats-bytes zero sector buf s positive low fits = absurd (omega (arith, positive))
  write_fats-bytes (suc n) sector buf s positive low fits =
      let size = (fs_at fs).fat_sectors in
      let w = d.device_write s disk sector 2 buf in
      let next = (sector + size) % fat_word in
      let rest = write_fats d disk n size next buf w.1 in
      let at : next ≡ sector + size = next_word sector n size fits in
      if_elim
        (λ (t : Bool × d.State).
          t.0 ≡ true
          → (a : ℕ) → in_fat (fs_at fs) a ≡ true
          → laws.bytes t.1 disk a ≡ (
              if within (sector * sector_size) 1024 a
              then buf (a - sector * sector_size)
              else laws.bytes s disk a))
        w.0
        (λ worked done a here.
          write_fats-behind n next buf w.1 (omega (arith, at, low))
            (omega (arith, at, fits, add-mul 1 n size)) done a here
          ∙ laws.bytes-device_write s disk sector 2 buf disk a worked
          ∙ ground (arith, here))
        (λ failed done. absurd (ground (arith, failed, done)))
