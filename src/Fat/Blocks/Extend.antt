-- ===== src/Fat/Blocks/Extend.antt =====
-- Growing the list of a file's clusters, `extend_blocks`, of kernel/fat32.c.
use native.Mathlib.Decide.{dec_lt, ℕ_discrete}
use test_os.Base.{
  ℕ, zero, suc, ◌+◌, ◌-◌, ◌*◌, ◌%◌, ◌≤◌, ◌<◌, ◌≡◌, ◌≢◌, ◌⊎◌, inl, inr, refl, sym, ◌∙◌, ap, subst,
  arith, true, false, ltb, leb, ◌==◌, if◌then◌else◌, if_elim, Option, some, none,
}
use test_os.Base.Memory.{Memory}
use test_os.Fat.{Device, IsLawful, Works, FatFs, FatFile, fat_word}
use test_os.Fat.Table.{Cache}
use test_os.Fat.Table.View.{IsTable}
use test_os.Fat.Blocks.{
  num_clusters, put_block, find_free, take_block, allocate, extend_blocks, Failure, enospc,
}
use test_os.Fat.Blocks.Chain.{IsChain}
use test_os.Fat.Blocks.Free.{Seen, find_free-Found}
use test_os.Fat.Blocks.Take.{IsSpace, taken_words, take_block-Taken}
use test_os.Fat.Table.Total.{commit-true}
use test_os.Fat.Blocks.Commit.{IsSaved, commit_fat32_buffer-IsSaved}
use test_os.Fat.Blocks.Grow.{
  IsChain-grow, IsChain-one, taken_frame, taken_zero, taken_used, put_before, put_at, later_first,
}

module _ (d : Device) (laws : IsLawful d) (works : Works d) (fs_at : ℕ → FatFs) (disk fs : ℕ)
    (some_fs : (fs == 0) ≡ false) (table : IsTable (fs_at fs)) where
  -- A list of `i` clusters, which may be empty, and its first cluster.
  pub record HasChain (words : ℕ → ℕ) (i : ℕ) (file : FatFile) : Type 0 where
    pub chain : 0 < i → IsChain words ((fs_at fs).fat_sectors * 128) i file.blocklist
    pub first : 0 < i → file.dir_entry.first_cluster ≡ file.blocklist 0

  -- The list has grown by `rounds` clusters, which were free; no other word has changed but that of the
  -- old end. Or there was no free cluster left.
  abbrev pub Grown :
      (words : ℕ → ℕ) (end rounds i : ℕ)
      → FatFile
      → Option Failure × FatFile × Cache d.State
      → Type 0
  Grown words end rounds i file r =
      (words' : ℕ → ℕ) × Seen d laws works fs_at disk fs some_fs table r.2 words'
      × ((r.0 ≡ none
            × HasChain words' (i + rounds) r.1
            × (r.1.blocklist_size ≡ file.blocklist_size)
            × ((k : ℕ) → k < i → r.1.blocklist k ≡ file.blocklist k)
            × ((k : ℕ) → i ≤ k → k < i + rounds → words (r.1.blocklist k) ≡ 0)
            × ((x : ℕ) → words x ≢ 0 → (0 < i → x ≢ file.blocklist (i - 1)) → words' x ≡ words x))
          ⊎ ((r.0 ≡ some enospc) × ((k : ℕ) → 2 ≤ k → k < end → words' k ≢ 0)))

  taken_HasChain :
      (words : ℕ → ℕ) (end i j : ℕ) (file file' : FatFile)
      → IsSpace (fs_at fs) end
      → HasChain words i file
      → words j ≡ 0
      → 2 ≤ j
      → j < end
      → file'.blocklist ≡ put_block file.blocklist i j
      → file'.dir_entry.first_cluster ≡ (if i == 0 then j else file.dir_entry.first_cluster)
      → HasChain (taken_words i (file.blocklist (i - 1)) j words) (i + 1) file'
  taken_HasChain words end zero j file file' space has free two lt list first = record {
    chain = λ more.
        subst (IsChain (taken_words 0 (file.blocklist 0) j words) ((fs_at fs).fat_sectors * 128) 1)
          (sym list)
          (IsChain-one words file.blocklist ((fs_at fs).fat_sectors * 128) (file.blocklist 0) j
            (omega (arith, lt, space.in_table)) two (omega (arith, lt, space.unmarked)));
    first = λ more. first ∙ sym (ap (λ l. l 0) list);
  }
  taken_HasChain words end (suc i) j file file' space has free two lt list first = record {
    chain = λ more.
        subst
          (λ p.
            IsChain (taken_words (suc i) p j words) ((fs_at fs).fat_sectors * 128) (suc i + 1)
              file'.blocklist)
          {x = file.blocklist i} {y = file.blocklist (suc i - 1)} (ap file.blocklist (omega arith))
          (subst
            (IsChain (taken_words (suc i) (file.blocklist i) j words) ((fs_at fs).fat_sectors * 128)
              (suc i + 1))
            (sym list)
            (IsChain-grow words file.blocklist ((fs_at fs).fat_sectors * 128) i j
              (has.chain (omega arith)) free (omega (arith, lt, space.in_table)) two
              (omega (arith, lt, space.unmarked))));
    first = λ more.
        first
        ∙ later_first i j file.dir_entry.first_cluster
        ∙ has.first (omega arith)
        ∙ put_before file.blocklist (suc i) j 0 (omega arith)
        ∙ sym (ap (λ l. l 0) list);
  }

  -- What has grown from the list with one more cluster has grown from the list.
  extended :
      (words : ℕ → ℕ) (end rounds i j : ℕ) (file file' : FatFile)
      (r : Option Failure × FatFile × Cache d.State)
      → words j ≡ 0
      → 2 ≤ j
      → file'.blocklist ≡ put_block file.blocklist i j
      → file'.blocklist_size ≡ file.blocklist_size
      → Grown (taken_words i (file.blocklist (i - 1)) j words) end rounds (i + 1) file' r
      → Grown words end (suc rounds) i file r
  extended words end rounds i j file file' r free two list size (words', shows, inr full) =
      (words', shows, inr full)
  extended words end rounds i j file file' r free two list size
        (words', shows, inl (done, has, size', old, new, frame)) =
      (
        words',
        shows,
        inl (
          done,
          subst (λ n. HasChain words' n r.1) {x = i + 1 + rounds} {y = i + suc rounds} (omega arith)
              has,
          size' ∙ size,
          λ k lt.
              old k (omega (arith, lt))
              ∙ ap (λ l. l k) list
              ∙ sym (put_before file.blocklist i j k lt),
          λ k low high. elim (ℕ_discrete k i) [
            | yes e ↦
                ap (λ t. words (r.1.blocklist t)) e
                ∙ ap words (old i (omega arith) ∙ ap (λ l. l i) list ∙ put_at file.blocklist i j)
                ∙ free
            | no ne ↦
                taken_zero i (file.blocklist (i - 1)) j (r.1.blocklist k) words two
                  (new k (omega (arith, ne, low)) (omega (arith, high)))
          ],
          λ x occupied away.
              let same = taken_frame i (file.blocklist (i - 1)) j x words free occupied away in
              let last : file'.blocklist (i + 1 - 1) ≡ j =
                ap file'.blocklist {x = i + 1 - 1} {y = i} (omega arith)
                ∙ ap (λ l. l i) list
                ∙ put_at file.blocklist i j in
              frame x (λ z. occupied (sym same ∙ z))
                (λ later e. occupied (ap words (e ∙ last) ∙ free))
              ∙ same,
        ),
      )

  module _ (zero_cluster : Memory) where
    allocate-Grown :
        (end rounds i free_index : ℕ) (words : ℕ → ℕ) (file : FatFile) (c : Cache d.State)
        → IsSpace (fs_at fs) end
        → Seen d laws works fs_at disk fs some_fs table c words
        → HasChain words i file
        → 2 ≤ free_index
        → free_index ≤ end
        → ((k : ℕ) → 2 ≤ k → k < free_index → words k ≢ 0)
        → Grown words end rounds i file
            (allocate d fs_at disk fs zero_cluster end rounds i free_index file c)
    unfolding allocate
    allocate-Grown end zero i free_index words file c space shows has two le used = (
      words,
      shows,
      inl (
        refl,
        subst (λ n. HasChain words n file) {x = i} {y = i + 0} (omega arith) has,
        refl,
        λ k lt. refl,
        λ k low high. absurd (omega (arith, low, high)),
        λ x occupied away. refl,
      ),
    )
    allocate-Grown end (suc rounds) i free_index words file c space shows has two le used =
        let found = find_free d fs_at disk fs (end - free_index) free_index c in
        let taken = take_block d fs_at disk fs zero_cluster i found.0 file found.1 in
        let rest =
          allocate d fs_at disk fs zero_cluster end rounds (i + 1) (found.0 + 1) taken.1 taken.2 in
        let (shows0, low, high, passed, free) =
          find_free-Found d laws works fs_at disk fs some_fs table words (end - free_index)
            free_index c shows two (omega (arith, le, space.in_table)) in
        if_elim (Grown words end (suc rounds) i file) (leb end found.0)
          (λ full. (
            words,
            shows0,
            inr (
              refl,
              λ k two' lt. elim (dec_lt k free_index) [
                | yes before ↦ used k two' before
                | no behind ↦ passed k (omega (arith, behind)) (ground (arith, full, lt))
              ],
            ),
          ))
          (λ room.
            let j = found.0 in
            let lt : j < end = ground (arith, room) in
            let j_free = free (omega (arith, lt, le)) in
            let (worked, list, size, first, shows1) =
              take_block-Taken d laws works fs_at disk fs some_fs table zero_cluster words end i j
                file found.1 space (omega (arith, two, low)) lt
                (λ later. (has.chain later).in_table (i - 1) (omega (arith, later))) shows0 in
            let words1 = taken_words i (file.blocklist (i - 1)) j words in
            if_elim (Grown words end (suc rounds) i file) taken.0
              (λ done.
                extended words end rounds i j file taken.1 rest j_free (omega (arith, two, low))
                  list size
                  (allocate-Grown end rounds (i + 1) (j + 1) words1 taken.1 taken.2 space shows1
                    (taken_HasChain words end i j file taken.1 space has j_free
                      (omega (arith, two, low)) lt list first)
                    (omega (arith, two, low)) (omega (arith, lt))
                    (λ k two' lt'.
                      taken_used i (file.blocklist (i - 1)) j k words (omega (arith, two, low))
                        (λ ne. elim (dec_lt k free_index) [
                          | yes before ↦ used k two' before
                          | no behind ↦ passed k (omega (arith, behind)) (omega (arith, ne, lt'))
                        ]))))
              (λ failed. absurd (cc (failed, worked))))

    -- The first cluster behind the last.
    abbrev pub end_cluster : FatFs → ℕ
    end_cluster g =
        num_clusters ((g.total_sectors + (fat_word - g.first_data_cluster)) % fat_word)
          g.cluster_sectors
        + 2

    -- A list that has to grow takes free clusters, which stand behind the old ones in the file's chain,
    -- and leaves the chains of other files; the table is on the disk then. Or all clusters are in use.
    -- Nothing else happens on a device that works.
    pub extend_blocks-Grown :
        (new_blocklist_size : ℕ) (words : ℕ → ℕ) (file : FatFile) (c : Cache d.State)
        → IsSpace (fs_at fs) (end_cluster (fs_at fs))
        → Seen d laws works fs_at disk fs some_fs table c words
        → HasChain words file.blocklist_size file
        → file.blocklist_size < new_blocklist_size
        → let r = extend_blocks d fs_at disk fs zero_cluster new_blocklist_size file c in
          Grown words
            (end_cluster (fs_at fs))
            (new_blocklist_size - file.blocklist_size)
            file.blocklist_size
            (record file { blocklist_size = new_blocklist_size })
            r
          × (r.0 ≡ none → IsSaved d laws works fs_at disk fs some_fs table r.2)
    unfolding extend_blocks
    extend_blocks-Grown new_blocklist_size words file c space shows has more =
        let end = end_cluster (fs_at fs) in
        let file1 = record file { blocklist_size = new_blocklist_size } in
        let rounds = new_blocklist_size - file.blocklist_size in
        let r = allocate d fs_at disk fs zero_cluster end rounds file.blocklist_size 2 file1 c in
        let larger : ltb file.blocklist_size new_blocklist_size ≡ true = ground (arith, more) in
        let has1 : HasChain words file.blocklist_size file1 = record {
          chain = has.chain;
          first = has.first;
        } in
        let (words', shows', outcome) =
          allocate-Grown end rounds file.blocklist_size 2 words file1 c space shows has1
            (omega arith) (omega arith) (λ k low lt. absurd (omega (arith, low, lt))) in
        elim outcome [
          | inr (full, all) ↦
              rw (larger, full) ((words', shows', inr (full, all)), λ e. absurd (cc (e, full)))
          | inl (done, has', size, old, new, frame) ↦
              let (shows'', saved) =
                commit_fat32_buffer-IsSaved d laws works fs_at disk fs some_fs table words' r.2
                  shows' in
              rw (larger, done, commit-true d works fs_at disk fs r.2)
                ((words', shows'', inl (refl, has', size, old, new, frame)), λ e. saved)
        ]
