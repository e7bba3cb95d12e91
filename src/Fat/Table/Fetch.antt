-- ===== src/Fat/Table/Fetch.antt =====
-- Fetching and writing the buffer of kernel/fat32.c leaves what the readers of the table see.
use native.Mathlib.Nat.{mod-eq_of_lt}
use test_os.Base.{
  ℕ, ◌+◌, ◌-◌, ◌*◌, ◌%◌, ◌≤◌, ◌<◌, ◌≡◌, inl, inr, refl, sym, ◌∙◌, ap, subst, arith, Bool, true,
  false, not, ◌&&◌, ◌==◌, if_elim, Bool-cases,
}
use test_os.Base.Memory.{Memory, within}
use test_os.Fat.{Device, IsLawful, FatFs, fat_word, sector_size}
use test_os.Fat.Transfer.{fill}
use test_os.Fat.Table.{Cache, write_fats, commit_fat32_buffer, load_fat32_buffer, get_fat32_buffer}
use test_os.Fat.Table.View.{IsTable, IsCached, in_fat, view, write_fats-bytes}

module _ (d : Device) (laws : IsLawful d) (fs_at : ℕ → FatFs) (disk fs : ℕ)
    (some_fs : (fs == 0) ≡ false) (table : IsTable (fs_at fs)) where
  -- A commit brings the disk to what the readers see.
  pub commit-bytes :
      (c : Cache d.State)
      → IsCached d laws fs_at disk fs c
      → (c.fat32_buf_fs == fs) ≡ true
      → (commit_fat32_buffer d fs_at disk fs c).0 ≡ true
      → (a : ℕ) → in_fat (fs_at fs) a ≡ true
      → laws.bytes (commit_fat32_buffer d fs_at disk fs c).1.device disk a
        ≡ view d laws fs_at disk fs c a
  unfolding commit_fat32_buffer
  commit-bytes c cached own =
      let w =
        write_fats d disk ((fs_at fs).num_fats) ((fs_at fs).fat_sectors) c.fat32_buf_sector
          c.fat32_buf c.device in
      if_elim
        (λ (t : Bool × Cache d.State).
          t.0 ≡ true
          → (a : ℕ) → in_fat (fs_at fs) a ≡ true
          → laws.bytes t.1.device disk a ≡ view d laws fs_at disk fs c a)
        (not (fs == c.fat32_buf_fs)) (λ foreign. absurd (ground (arith, own, foreign)))
        (λ own'.
          if_elim
            (λ (t : Bool × Cache d.State).
              t.0 ≡ true
              → (a : ℕ) → in_fat (fs_at fs) a ≡ true
              → laws.bytes t.1.device disk a ≡ view d laws fs_at disk fs c a)
            w.0
            (λ worked done a here.
              write_fats-bytes d laws fs_at disk fs ((fs_at fs).num_fats) c.fat32_buf_sector
                c.fat32_buf c.device table.some_fats (cached.low own)
                (omega (arith, cached.high own, table.is_word)) worked a here
              ∙ ground (arith, own))
            (λ failed done. absurd (cc)))

  -- The buffer is at the sector, and the readers see `v`.
  abbrev Loaded : (sector : ℕ) (v : Memory) → Bool × Cache d.State → Type 0
  Loaded sector v r =
      r.0 ≡ true
      → IsCached d laws fs_at disk fs r.1
        × ((r.1.fat32_buf_fs == fs) ≡ true)
        × (r.1.fat32_buf_sector ≡ sector)
        × ((a : ℕ) → in_fat (fs_at fs) a ≡ true → view d laws fs_at disk fs r.1 a ≡ v a)

  load-Loaded :
      (sector : ℕ) (v : Memory) (c : Cache d.State)
      → (fs_at fs).reserved_sectors ≤ sector
      → sector < (fs_at fs).reserved_sectors + (fs_at fs).fat_sectors
      → ((a : ℕ) → in_fat (fs_at fs) a ≡ true → laws.bytes c.device disk a ≡ v a)
      → Loaded sector v (load_fat32_buffer d fs_at disk fs sector c)
  unfolding load_fat32_buffer
  load-Loaded sector v c low high seen =
      let r = d.device_read c.device disk sector 2 in
      let loaded = record c { fat32_buf = fill c.fat32_buf 0 1024 r.1 } in
      let full = record loaded {
        fat32_buf_fs = fs;
        fat32_buf_sector = sector;
        fat32_buf_changed = false;
      } in
      if_elim (Loaded sector v) r.0
        (λ worked done.
          let same : (a : ℕ) → view d laws fs_at disk fs full a ≡ laws.bytes c.device disk a = λ a.
            elim (Bool-cases (within (sector * sector_size) 1024 a)) [
              | inr off ↦ ground (arith, off)
              | inl on ↦
                  let i = a - sector * sector_size in
                  ground (
                    arith,
                    on,
                    ap r.1 {x = i - 0} {y = i} (omega arith),
                    laws.bytes-device_read c.device disk sector 2 i worked (ground (arith, on)),
                    ap (laws.bytes c.device disk) {x = sector * sector_size + i} {y = a}
                        (ground (arith, on)),
                  )
            ] in
          (
            record {
              other = λ foreign. refl;
              low = λ own. low;
              high = λ own. high;
              clean = λ own kept a here. same a;
            },
            ground arith,
            refl,
            λ a here. same a ∙ seen a here,
          ))
        (λ failed done. absurd (cc))

  -- Where there is nothing to write, the readers see the disk.
  tidy_bytes :
      (c : Cache d.State)
      → IsCached d laws fs_at disk fs c
      → (c.fat32_buf_changed && not (c.fat32_buf_fs == 0)) ≡ false
      → (a : ℕ) → in_fat (fs_at fs) a ≡ true
      → laws.bytes c.device disk a ≡ view d laws fs_at disk fs c a
  tidy_bytes c cached tidy a here = elim (Bool-cases (c.fat32_buf_fs == fs)) [
    | inl own ↦ sym (cached.clean own (ground (arith, tidy, own, some_fs)) a here)
    | inr foreign ↦ ground (arith, foreign)
  ]

  -- Otherwise the buffer is written first.
  dirty_bytes :
      (c : Cache d.State)
      → IsCached d laws fs_at disk fs c
      → (c.fat32_buf_changed && not (c.fat32_buf_fs == 0)) ≡ true
      → (commit_fat32_buffer d fs_at disk c.fat32_buf_fs c).0 ≡ true
      → (a : ℕ) → in_fat (fs_at fs) a ≡ true
      → laws.bytes (commit_fat32_buffer d fs_at disk c.fat32_buf_fs c).1.device disk a
        ≡ view d laws fs_at disk fs c a
  dirty_bytes c cached dirty = elim (Bool-cases (c.fat32_buf_fs == fs)) [
    | inr foreign ↦ absurd (cc (cached.other foreign))
    | inl own ↦
        subst
          (λ f.
            (commit_fat32_buffer d fs_at disk f c).0 ≡ true
            → (a : ℕ) → in_fat (fs_at fs) a ≡ true
            → laws.bytes (commit_fat32_buffer d fs_at disk f c).1.device disk a
              ≡ view d laws fs_at disk fs c a)
          {x = fs} {y = c.fat32_buf_fs} (ground (arith, own)) (commit-bytes c cached own)
  ]

  -- What the readers see is not changed by fetching a sector.
  pub get_fat32_buffer-Loaded :
      (sector : ℕ) (c : Cache d.State)
      → IsCached d laws fs_at disk fs c
      → sector < (fs_at fs).fat_sectors
      → Loaded
          (sector + (fs_at fs).reserved_sectors)
          (view d laws fs_at disk fs c)
          (get_fat32_buffer d fs_at disk fs sector c)
  unfolding get_fat32_buffer
  get_fat32_buffer-Loaded sector c cached lt =
      let at : (sector + (fs_at fs).reserved_sectors) % fat_word
          ≡ sector + (fs_at fs).reserved_sectors =
        mod-eq_of_lt (omega (arith, lt, table.is_word)) in
      let there = (sector + (fs_at fs).reserved_sectors) % fat_word in
      let committed = commit_fat32_buffer d fs_at disk c.fat32_buf_fs c in
      subst
        (λ t. Loaded t (view d laws fs_at disk fs c) (get_fat32_buffer d fs_at disk fs sector c)) at
        (if_elim (Loaded there (view d laws fs_at disk fs c))
          ((fs == c.fat32_buf_fs) && (there == c.fat32_buf_sector))
          (λ hit done. (cached, ground (arith, hit), ground (arith, hit), λ a here. refl))
          (λ missed.
            if_elim (Loaded there (view d laws fs_at disk fs c))
              (c.fat32_buf_changed && not (c.fat32_buf_fs == 0))
              (λ dirty.
                if_elim (Loaded there (view d laws fs_at disk fs c)) committed.0
                  (λ worked.
                    load-Loaded there (view d laws fs_at disk fs c) committed.1 (omega (arith, at))
                      (omega (arith, at, lt)) (dirty_bytes c cached dirty worked))
                  (λ failed done. absurd (cc)))
              (λ tidy.
                load-Loaded there (view d laws fs_at disk fs c) c (omega (arith, at))
                  (omega (arith, at, lt)) (tidy_bytes c cached tidy))))
