-- ===== src/Fat/Table/Total.antt =====
-- On devices that work, no access to the table of kernel/fat32.c fails.
use test_os.Base.{ℕ, zero, suc, ◌+◌, ◌%◌, ◌≡◌, refl, Bool, true, not, ◌&&◌, ◌==◌, if_elim}
use test_os.Base.Memory.{Memory}
use test_os.Fat.{Device, Works, FatFs, fat_word}
use test_os.Fat.Table.{Cache, write_fats, commit_fat32_buffer, load_fat32_buffer, get_fat32_buffer}

module _ (d : Device) (works : Works d) (fs_at : ℕ → FatFs) where
  pub write_fats-true :
      (disk n size sector : ℕ) (buf : Memory) (s : d.State)
      → (write_fats d disk n size sector buf s).0 ≡ true
  unfolding write_fats
  write_fats-true disk zero size sector buf s = refl
  write_fats-true disk (suc n) size sector buf s = rw (works.writes s disk sector 2 buf) (
      write_fats-true disk n size ((sector + size) % fat_word) buf
        (d.device_write s disk sector 2 buf).1)

  pub commit-true :
      (disk fs : ℕ) (c : Cache d.State) → (commit_fat32_buffer d fs_at disk fs c).0 ≡ true
  unfolding commit_fat32_buffer
  commit-true disk fs c =
      if_elim (λ (t : Bool × Cache d.State). t.0 ≡ true) (not (fs == c.fat32_buf_fs))
        (λ foreign. refl)
        (λ own.
          rw
            (write_fats-true disk ((fs_at fs).num_fats) ((fs_at fs).fat_sectors) c.fat32_buf_sector
              c.fat32_buf c.device)
            refl)

  load-true :
      (disk fs sector : ℕ) (c : Cache d.State)
      → (load_fat32_buffer d fs_at disk fs sector c).0 ≡ true
  unfolding load_fat32_buffer
  load-true disk fs sector c = rw (works.reads c.device disk sector 2) refl

  pub get_fat32_buffer-true :
      (disk fs sector : ℕ) (c : Cache d.State)
      → (get_fat32_buffer d fs_at disk fs sector c).0 ≡ true
  unfolding get_fat32_buffer
  get_fat32_buffer-true disk fs sector c =
      let there = (sector + (fs_at fs).reserved_sectors) % fat_word in
      let committed = commit_fat32_buffer d fs_at disk c.fat32_buf_fs c in
      let T = (λ (t : Bool × Cache d.State). t.0 ≡ true) in
      if_elim T ((fs == c.fat32_buf_fs) && (there == c.fat32_buf_sector)) (λ hit. refl)
        (λ missed.
          if_elim T (c.fat32_buf_changed && not (c.fat32_buf_fs == 0))
            (λ dirty.
              if_elim T committed.0 (λ worked. load-true disk fs there committed.1)
                (λ failed. absurd (cc (commit-true disk c.fat32_buf_fs c))))
            (λ tidy. load-true disk fs there c))
