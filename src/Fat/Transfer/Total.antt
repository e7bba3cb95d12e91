-- ===== src/Fat/Transfer/Total.antt =====
-- `fat32_file_rw` of kernel/fat32.c on devices that work: nothing fails.
use native.Mathlib.Nat.{one-le-pow, add-mul, div-add-mod', mod-lt, mul-le-mul_right}
use test_os.Base.{
  if_elim, ℕ, zero, suc, ◌+◌, ◌-◌, ◌*◌, ◌/◌, ◌%◌, ◌^◌, ◌≤◌, ◌<◌, ◌≡◌, refl, sym, ◌∙◌, ap, arith,
  Bool, true, false, min, bit_and, ◌==◌, if◌then◌else◌, some, none,
}
use test_os.Fat.{Device, FatFs, FatFile}
use test_os.Fat.Transfer.{
  fill, cluster_size, get_data_cluster_offset, file_get_cluster, Io, read_cluster,
  write_cluster_part, write_cluster, read_cluster_part, rw_cluster, rw_cluster_part, rw_part,
  rw_whole, rw_rest, fat32_file_rw,
}
use native.Mathlib.Decide.{dec_lt}
use test_os.Fat.Transfer.Sound.{capacity}
use test_os.Fat.{Works}
use test_os.Base.Bits.{bit_and-mask}

lt_of_scaled : (a b size : ℕ) → a * size < b * size → a < b
lt_of_scaled a b size lt = elim (dec_lt a b) [
  | yes less ↦ less
  | no over ↦ absurd (omega (arith, mul-le-mul_right {m = b} {n = a} size (omega arith)))
]

le_of_scaled : (a b size : ℕ) → 0 < size → a * size ≤ b * size → a ≤ b
le_of_scaled a b size positive le = elim (dec_lt b a) [
  | no over ↦ omega arith
  | yes less ↦
      absurd
        (omega (arith, mul-le-mul_right {m = b + 1} {n = a} size (omega arith), add-mul b 1 size))
]

-- A request of the device works, whichever way.
part_works :
    (d : Device)
    → Works d
    → (disk : ℕ) (fs : FatFs) (is_write : Bool) (p c o n : ℕ) (io : Io d.State)
    → (rw_cluster_part d disk fs is_write p c o n io).0 ≡ true
unfolding rw_cluster_part read_cluster_part write_cluster_part
part_works d works disk fs true p c o n io =
    let start = get_data_cluster_offset fs c in
    let r = d.device_read io.device disk start fs.cluster_sectors in
    rw (works.reads io.device disk start fs.cluster_sectors) (
      works.writes io.device disk start fs.cluster_sectors
        (if p == 0 then r.1 else fill r.1 o n (λ i. io.memory (p + i))))
part_works d works disk fs false p c o n io =
    let start = get_data_cluster_offset fs c in
    rw (works.reads io.device disk start fs.cluster_sectors) refl

whole_works :
    (d : Device)
    → Works d
    → (disk : ℕ) (fs : FatFs) (is_write : Bool) (p c : ℕ) (io : Io d.State)
    → (rw_cluster d disk fs is_write p c io).0 ≡ true
unfolding rw_cluster read_cluster write_cluster
whole_works d works disk fs true p c io =
    works.writes io.device disk (get_data_cluster_offset fs c) fs.cluster_sectors
      (λ i. io.memory (p + i))
whole_works d works disk fs false p c io =
    works.reads io.device disk (get_data_cluster_offset fs c) fs.cluster_sectors

module _ (d : Device) (works : Works d) (disk : ℕ) (fs : FatFs) (file : FatFile) (is_write : Bool)
    (set : (i : ℕ) → i < file.blocklist_size → (file.blocklist i == 0) ≡ false) where
  there : (k : ℕ) → k < file.blocklist_size → (file_get_cluster file k == 0) ≡ false
  unfolding file_get_cluster
  there k lt = ground (arith, set k lt)

  rw_part-true :
      (p k o n : ℕ) (io : Io d.State)
      → k < file.blocklist_size
      → (rw_part d disk fs file is_write p k o n io).0 ≡ true
  unfolding rw_part
  rw_part-true p k o n io lt =
      rw (there k lt) (part_works d works disk fs is_write p (file_get_cluster file k) o n io)

  rw_whole-true :
      (rounds p k : ℕ) (io : Io d.State)
      → k + rounds ≤ file.blocklist_size
      → (rw_whole d disk fs file is_write rounds p k io).0 ≡ true
  unfolding rw_whole
  rw_whole-true zero p k io fits = refl
  rw_whole-true (suc rounds) p k io fits =
      let r = rw_cluster d disk fs is_write p (file_get_cluster file k) io in
      rw
        (there k (omega arith), whole_works d works disk fs is_write p (file_get_cluster file k) io)
        (rw_whole-true rounds (p + cluster_size fs) (k + 1) r.1 (omega arith))

  rw_rest-true :
      (p k n : ℕ) (io : Io d.State)
      → 0 < cluster_size fs
      → k * cluster_size fs + n ≤ capacity fs file
      → (rw_rest d disk fs file is_write p k n io).0 ≡ true
  unfolding rw_rest
  rw_rest-true p k n io some_size fits =
      let size = cluster_size fs in
      let r = rw_whole d disk fs file is_write (n / size) p k io in
      let left = n % size in
      let split = div-add-mod' n size in
      let whole_fits : k + n / size ≤ file.blocklist_size =
        le_of_scaled (k + n / size) file.blocklist_size size some_size
          (omega (arith, split, fits, add-mul k (n / size) size)) in
      let worked = rw_whole-true (n / size) p k io whole_fits in
      rw worked (
        if_elim (λ (t : Bool × Io d.State). t.0 ≡ true) (left == 0) (λ even. worked)
          (λ odd. rw_part-true (p + n / size * size) (k + n / size) 0 left r.1 (
            lt_of_scaled (k + n / size) file.blocklist_size size
              (ground (arith, split, odd, fits, add-mul k (n / size) size)))))

  -- On devices that work, a transfer that lies in the file's clusters, none of which has the number 0,
  -- is not refused, whichever way it goes: the result is the length. A cluster has a power of two of
  -- bytes.
  pub fat32_file_rw-some :
      (j buf offset len : ℕ) (io : Io d.State)
      → cluster_size fs ≡ 2 ^ j
      → offset + len ≤ capacity fs file
      → (fat32_file_rw d disk fs file is_write buf offset len io).0 ≡ some len
  unfolding fat32_file_rw
  fat32_file_rw-some j buf offset len io power fits =
      let size = cluster_size fs in
      let k = offset / size in
      let off = bit_and offset (size - 1) in
      let some_size : 0 < size = omega (arith, one-le-pow j 2) in
      let in_cluster : off ≡ offset % size =
        ap (λ t. bit_and offset (t - 1)) power
        ∙ bit_and-mask j offset
        ∙ ap (λ t. offset % t) (sym power) in
      let small : off < size = omega (arith, mod-lt offset some_size) in
      let split : k * size + off ≡ offset = omega (arith, div-add-mod' offset size) in
      let count = min len (size - off) in
      let first = rw_part d disk fs file is_write buf k off count io in
      ap (λ (t : Bool). if t then some len else none)
        (if_elim (λ (t : Bool × Io d.State). t.0 ≡ true) (off == 0)
          {x = rw_rest d disk fs file is_write buf k len io}
          {y = if first.0
            then rw_rest d disk fs file is_write (buf + count) (k + 1) (len - count) first.1
            else first}
          (λ even. rw_rest-true buf k len io some_size (ground (arith, split, even)))
          (λ odd.
            let lt : k < file.blocklist_size =
              lt_of_scaled k file.blocklist_size size (ground (arith, split, odd)) in
            rw (rw_part-true buf k off count io lt) (
              rw_rest-true (buf + count) (k + 1) (len - count) first.1 some_size
                (elim (dec_lt (size - off) len) [
                  | yes more ↦ omega (arith, split, fits, add-mul k 1 size)
                  | no over ↦ omega (
                    arith,
                    mul-le-mul_right {m = k + 1} {n = file.blocklist_size} size (omega (arith, lt)),
                  )
                ]))))
