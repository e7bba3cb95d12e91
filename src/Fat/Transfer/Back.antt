-- ===== src/Fat/Transfer/Back.antt =====
-- Writing a file of kernel/fat32.c and reading it back.
use test_os.Base.{
  ℕ, ◌+◌, ◌-◌, ◌^◌, ◌≤◌, ◌<◌, ◌≡◌, ◌∙◌, ap, arith, true, false, ◌==◌, some, Bool-cases, inl, inr,
}
use test_os.Base.Memory.{Memory, within}
use test_os.Fat.{Device, IsLawful, Works, FatFs, FatFile}
use test_os.Fat.Transfer.{fill, cluster_size, Io, fat32_file_rw}
use test_os.Fat.Transfer.Sound.{IsSound, capacity}
use test_os.Fat.Transfer.Read.{fat32_file_rw-ReadTo}
use test_os.Fat.Transfer.Write.{fat32_file_rw-Wrote}
use test_os.Fat.Transfer.Total.{fat32_file_rw-some}

-- What has been written comes back: on devices that work, `len` bytes from `buf` that go to the file
-- at `offset`, inside its clusters, are those that a request for them then brings to `buf'`. Neither
-- place is `NULL`, the clusters are distinct numbers from 2 on with sectors that are words, and a
-- cluster has a power of two of bytes.
pub fat32_file_rw-fat32_file_rw :
    (d : Device) (laws : IsLawful d) (works : Works d) (disk : ℕ) (fs : FatFs) (file : FatFile)
    → IsSound fs file
    → (j buf buf' offset len : ℕ) (io : Io d.State) → cluster_size fs ≡ 2 ^ j
    → 0 < buf
    → 0 < buf'
    → offset + len ≤ capacity fs file
    → ((fat32_file_rw d disk fs file false buf' offset len
          (fat32_file_rw d disk fs file true buf offset len io).1).0
        ≡ some len)
      × ((a : ℕ)
          → (fat32_file_rw d disk fs file false buf' offset len
                (fat32_file_rw d disk fs file true buf offset len io).1).1.memory
              a
            ≡ fill io.memory buf' len (λ i. io.memory (buf + i)) a)
fat32_file_rw-fat32_file_rw d laws works disk fs file sound j buf buf' offset len io power
      some_place some_place' fits =
    let set : (i : ℕ) → i < file.blocklist_size → (file.blocklist i == 0) ≡ false =
      λ i lt. ground (arith, sound.placed.in_data i lt) in
    let io1 = (fat32_file_rw d disk fs file true buf offset len io).1 in
    let written =
      fat32_file_rw-Wrote d laws disk fs file sound j buf offset len io power some_place
        (fat32_file_rw-some d works disk fs file true set j buf offset len io power fits) in
    let result =
      fat32_file_rw-some d works disk fs file false set j buf' offset len io1 power fits in
    let read =
      fat32_file_rw-ReadTo d laws disk fs file sound.placed j buf' offset len io1 power some_place'
        result in
    (
      result,
      λ a. read.1 a ∙ elim (Bool-cases (within buf' len a)) [
        | inr away ↦ rw away (ap (λ (m : Memory). m a) written.0)
        | inl here ↦
            let x = offset + (a - buf') in
            rw here (
              written.1 x (ground (arith, here, fits))
              ∙ ground (
                arith,
                here,
                ap io.memory {x = buf + (x - offset)} {y = buf + (a - buf')} (omega arith),
              ))
      ],
    )
