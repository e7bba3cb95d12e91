-- ===== src/Fat/Transfer/Placed.antt =====
-- Where the clusters of a file of kernel/fat32.c lie: the sectors that the code computes in words.
use native.Mathlib.Nat.{mul-le-mul_right, mod-eq_of_lt}
use native.Mathlib.Decide.{dec_lt}
use test_os.Base.{ℕ, ◌+◌, ◌-◌, ◌*◌, ◌%◌, ◌≤◌, ◌<◌, ◌≡◌, ◌∙◌, ap, arith}
use test_os.Fat.{FatFs, FatFile, sector_size, fat_word}
use test_os.Fat.Transfer.{get_data_cluster_offset}
use test_os.Fat.Transfer.Spots.{mod_block, cluster_addr}

-- The clusters of a file are numbers from 2 on, and their sectors are words.
pub record IsPlaced (fs : FatFs) (file : FatFile) : Type 0 where
  pub in_data : (i : ℕ) → i < file.blocklist_size → 2 ≤ file.blocklist i
  pub is_word :
      (i : ℕ)
      → i < file.blocklist_size
      → fs.first_data_cluster + fs.cluster_sectors * (file.blocklist i - 2) < fat_word

pub offset_word :
    (first n c : ℕ)
    → 2 ≤ c
    → first + n * (c - 2) < fat_word
    → 0 < n
    → (first + n * ((c + (fat_word - 2)) % fat_word)) % fat_word ≡ first + n * (c - 2)
offset_word first n c two word positive =
    let small : c - 2 < fat_word =
      omega (arith, mul-le-mul_right {m = 1} {n = n} (c - 2) positive) in
    let wraps : (c + (fat_word - 2)) % fat_word ≡ c - 2 =
      ap (λ t. t % fat_word) {x = c + (fat_word - 2)} {y = 1 * fat_word + (c - 2)} (omega arith)
      ∙ mod_block 1 fat_word (c - 2) small in
    ap (λ t. (first + n * t) % fat_word) wraps ∙ mod-eq_of_lt word

-- The sector of a cluster is where the cluster lies.
pub data_sector :
    (fs : FatFs) (file : FatFile) (i : ℕ)
    → IsPlaced fs file
    → i < file.blocklist_size
    → get_data_cluster_offset fs (file.blocklist i) * sector_size
      ≡ cluster_addr fs (file.blocklist i)
unfolding get_data_cluster_offset
data_sector fs file i placed lt =
    let c = file.blocklist i in
    let word = placed.is_word i lt in
    elim (dec_lt 0 fs.cluster_sectors) [
      | yes positive ↦
          ap (λ t. t * sector_size)
            (offset_word fs.first_data_cluster fs.cluster_sectors c (placed.in_data i lt) word
              positive)
      | no none_there ↦
          let zero_size : fs.cluster_sectors ≡ 0 = omega (arith, none_there) in
          let none_wrapped : fs.cluster_sectors * ((c + (fat_word - 2)) % fat_word) ≡ 0 =
            ap (λ t. t * ((c + (fat_word - 2)) % fat_word)) zero_size ∙ omega arith in
          let none_counted : fs.cluster_sectors * (c - 2) ≡ 0 =
            ap (λ t. t * (c - 2)) zero_size ∙ omega arith in
          omega (arith, none_wrapped, none_counted, word)
    ]
