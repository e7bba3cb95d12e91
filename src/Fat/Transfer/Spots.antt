-- ===== src/Fat/Transfer/Spots.antt =====
-- Where the bytes of a file of kernel/fat32.c lie.
use native.Mathlib.Nat.{mul-add-div_right, div-eq_of_lt, div-add-mod'}
use test_os.Base.{◌-◌, ℕ, ◌+◌, ◌*◌, ◌/◌, ◌%◌, ◌<◌, ◌≡◌, ◌∙◌, ap, ap₂, arith}
use test_os.Fat.{Device, IsLawful, FatFs, FatFile, sector_size}
use test_os.Fat.Transfer.{cluster_size}

pub div_block : (k c o : ℕ) → o < c → (k * c + o) / c ≡ k
div_block k c o lt =
    mul-add-div_right {m = c} (omega arith) k o ∙ omega (arith, div-eq_of_lt {n = o} {m = c} lt)

pub mod_block : (k c o : ℕ) → o < c → (k * c + o) % c ≡ o
mod_block k c o lt =
    omega (arith, div-add-mod' (k * c + o) c, ap (λ (t : ℕ). t * c) (div_block k c o lt))

-- The first byte of a cluster: the clusters are counted from 2 on.
abbrev pub cluster_addr : FatFs → ℕ → ℕ
cluster_addr fs c = (fs.first_data_cluster + fs.cluster_sectors * (c - 2)) * sector_size

-- The byte `k` of the file.
abbrev pub file_spot : FatFs → FatFile → ℕ → ℕ
file_spot fs file k = cluster_addr fs (file.blocklist (k / cluster_size fs)) + k % cluster_size fs

pub file_spot-block :
    (fs : FatFs) (file : FatFile) (k o : ℕ)
    → o < cluster_size fs
    → file_spot fs file (k * cluster_size fs + o) ≡ cluster_addr fs (file.blocklist k) + o
file_spot-block fs file k o lt =
    ap₂ (λ (i j : ℕ). cluster_addr fs (file.blocklist i) + j) (div_block k (cluster_size fs) o lt)
      (mod_block k (cluster_size fs) o lt)

abbrev pub file_byte : (d : Device) → IsLawful d → ℕ → FatFs → FatFile → d.State → ℕ → ℕ
file_byte d laws disk fs file s k = laws.bytes s disk (file_spot fs file k)
