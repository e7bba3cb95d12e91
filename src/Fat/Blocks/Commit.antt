-- ===== src/Fat/Blocks/Commit.antt =====
-- The commit of the table in kernel/fat32.c.
use test_os.Base.{
  ℕ, ◌≡◌, inl, inr, refl, sym, ◌∙◌, subst, arith, true, false, not, ◌==◌, Bool-cases,
}
use test_os.Base.Memory.{load32_frame}
use test_os.Fat.{Device, IsLawful, Works, FatFs}
use test_os.Fat.Table.{Cache, commit_fat32_buffer}
use test_os.Fat.Table.View.{IsTable, in_fat, view}
use test_os.Fat.Table.Entries.{entry_addr}
use test_os.Fat.Blocks.Free.{Seen}
use test_os.Fat.Table.Fetch.{commit-bytes}
use test_os.Fat.Table.Total.{commit-true, write_fats-true}

module _ (d : Device) (laws : IsLawful d) (works : Works d) (fs_at : ℕ → FatFs) (disk fs : ℕ)
    (some_fs : (fs == 0) ≡ false) (table : IsTable (fs_at fs)) where
  -- The table stands on the disk.
  abbrev pub IsSaved : Cache d.State → Type 0
  IsSaved c =
      (a : ℕ)
      → in_fat (fs_at fs) a ≡ true
      → laws.bytes c.device disk a ≡ view d laws fs_at disk fs c a

  abbrev After : (words : ℕ → ℕ) → Cache d.State → Type 0
  After words c = Seen d laws works fs_at disk fs some_fs table c words × IsSaved c

  flushed :
      (words : ℕ → ℕ) (c : Cache d.State) (s : d.State)
      → (c.fat32_buf_fs == fs) ≡ true
      → Seen d laws works fs_at disk fs some_fs table c words
      → ((a : ℕ) → in_fat (fs_at fs) a ≡ true → laws.bytes s disk a ≡ view d laws fs_at disk fs c a)
      → After words (record c { device = s; fat32_buf_changed = false })
  flushed words c s own (cached, shows) saved =
      let c' = record c { device = s; fat32_buf_changed = false } in
      let seen : (a : ℕ)
          → in_fat (fs_at fs) a ≡ true
          → view d laws fs_at disk fs c' a ≡ view d laws fs_at disk fs c a =
        λ a here. ground (arith, saved a here) in
      (
        (
          record {
            other = λ foreign. refl;
            low = cached.low;
            high = cached.high;
            clean = λ own' kept a here. seen a here ∙ sym (saved a here);
          },
          λ k lt.
              load32_frame (view d laws fs_at disk fs c) (view d laws fs_at disk fs c')
                (entry_addr d laws works fs_at disk fs some_fs table k)
                (λ a low high. seen a (ground arith))
              ∙ shows k lt,
        ),
        λ a here. saved a here ∙ sym (seen a here),
      )

  own_commit :
      (c : Cache d.State)
      → (c.fat32_buf_fs == fs) ≡ true
      → (commit_fat32_buffer d fs_at disk fs c).1 ≡ record c {
        device = (commit_fat32_buffer d fs_at disk fs c).1.device;
        fat32_buf_changed = false;
      }
  unfolding commit_fat32_buffer
  own_commit c own =
      let there : (not (fs == c.fat32_buf_fs)) ≡ false = ground (arith, own) in
      rw
        (
          there,
          write_fats-true d works fs_at disk ((fs_at fs).num_fats) ((fs_at fs).fat_sectors)
              c.fat32_buf_sector c.fat32_buf c.device,
        )
        refl

  foreign_commit :
      (c : Cache d.State)
      → (c.fat32_buf_fs == fs) ≡ false
      → (commit_fat32_buffer d fs_at disk fs c).1 ≡ c
  unfolding commit_fat32_buffer
  foreign_commit c foreign =
      let away : (not (fs == c.fat32_buf_fs)) ≡ true = ground (arith, foreign) in rw away refl

  -- After a commit the table stands on the disk, with the same words.
  pub commit_fat32_buffer-IsSaved :
      (words : ℕ → ℕ) (c : Cache d.State)
      → Seen d laws works fs_at disk fs some_fs table c words
      → Seen d laws works fs_at disk fs some_fs table
          (commit_fat32_buffer d fs_at disk fs c).1
          words
        × IsSaved (commit_fat32_buffer d fs_at disk fs c).1
  commit_fat32_buffer-IsSaved words c (cached, shows) = elim (Bool-cases (c.fat32_buf_fs == fs)) [
    | inr foreign ↦
        subst (After words) (sym (foreign_commit c foreign))
          ((cached, shows), λ a here. ground (arith, foreign))
    | inl own ↦ subst (After words) (sym (own_commit c own)) (
        flushed words c (commit_fat32_buffer d fs_at disk fs c).1.device own (cached, shows)
          (commit-bytes d laws fs_at disk fs some_fs table c cached own
            (commit-true d works fs_at disk fs c)))
  ]
