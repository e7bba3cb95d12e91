-- ===== src/Fat/Transfer/Sound.antt =====
-- The clusters of a file of kernel/fat32.c and the bytes in them lie apart.
use native.Mathlib.Nat.{
  add-mul, div-add-mod', mod-lt, mul-le-mul_right, mul_comm, mul_assoc, div-lt_iff_lt-mul,
}
use test_os.Base.{
  ℕ, ◌+◌, ◌-◌, ◌*◌, ◌/◌, ◌%◌, ◌≤◌, ◌<◌, ◌≡◌, ◌⊎◌, inl, inr, sym, ◌∙◌, ap, ap₂, arith, true, false,
  Bool-cases,
}
use test_os.Base.Memory.{within}
use test_os.Fat.{FatFs, FatFile, sector_size}
use test_os.Fat.Transfer.{cluster_size}
use test_os.Fat.Transfer.Spots.{div_block, mod_block, cluster_addr, file_spot, file_spot-block}
use test_os.Fat.Transfer.Placed.{IsPlaced}
use native.Mathlib.Decide.{dec_lt}

-- The clusters of a file are distinct, and they are where the code looks for them.
pub record IsSound (fs : FatFs) (file : FatFile) : Type 0 where
  pub distinct :
      (i j : ℕ)
      → i < file.blocklist_size
      → j < file.blocklist_size
      → file.blocklist i ≡ file.blocklist j
      → i ≡ j
  pub placed : IsPlaced fs file

-- The number of bytes in the clusters of a file.
abbrev pub capacity : FatFs → FatFile → ℕ
capacity fs file = file.blocklist_size * cluster_size fs

affine : (a b c : ℕ) → (a + b * c) * 512 ≡ c * (b * 512) + a * 512
affine a b c = omega (arith, add-mul a (b * c) 512, mul_comm b c, mul_assoc c b 512)

module _ (fs : FatFs) (file : FatFile) (sound : IsSound fs file) where
  addr_word :
      (i : ℕ)
      → i < file.blocklist_size
      → 0 < cluster_size fs
      → cluster_addr fs (file.blocklist i)
        ≡ (file.blocklist i - 2) * cluster_size fs + fs.first_data_cluster * sector_size
  addr_word i lt positive = affine fs.first_data_cluster fs.cluster_sectors (file.blocklist i - 2)

  positive_size : (x : ℕ) → x < capacity fs file → 0 < cluster_size fs
  positive_size x lt = elim (dec_lt 0 (cluster_size fs)) [
    | yes some_size ↦ some_size
    | no empty ↦ absurd (
        let none_left : cluster_size fs ≡ 0 = omega arith in
        omega (arith, ap (λ t. file.blocklist_size * t) none_left))
  ]

  block_lt : (x : ℕ) → x < capacity fs file → x / cluster_size fs < file.blocklist_size
  block_lt x lt = (div-lt_iff_lt-mul (positive_size x lt)).1 lt

  pub spot_apart :
      (x y : ℕ)
      → x < capacity fs file
      → y < capacity fs file
      → file_spot fs file x ≡ file_spot fs file y
      → x ≡ y
  spot_apart x y lt lt' e =
      let size = cluster_size fs in
      let positive = positive_size x lt in
      let base = fs.first_data_cluster * sector_size in
      let i = x / size in
      let j = y / size in
      let same : (file.blocklist i - 2) * size + x % size
          ≡ (file.blocklist j - 2) * size + y % size =
        omega
          (arith, e, addr_word i (block_lt x lt) positive, addr_word j (block_lt y lt') positive) in
      let small = mod-lt x positive in
      let small' = mod-lt y positive in
      let mods : x % size ≡ y % size =
        sym (mod_block (file.blocklist i - 2) size (x % size) small)
        ∙ ap (λ t. t % size) same
        ∙ mod_block (file.blocklist j - 2) size (y % size) small' in
      let divs : file.blocklist i - 2 ≡ file.blocklist j - 2 =
        sym (div_block (file.blocklist i - 2) size (x % size) small)
        ∙ ap (λ t. t / size) same
        ∙ div_block (file.blocklist j - 2) size (y % size) small' in
      let clusters : file.blocklist i ≡ file.blocklist j = omega (
        arith,
        divs,
        sound.placed.in_data i (block_lt x lt),
        sound.placed.in_data j (block_lt y lt'),
      ) in
      let blocks : i ≡ j = sound.distinct i j (block_lt x lt) (block_lt y lt') clusters in
      sym (div-add-mod' x size) ∙ ap₂ (λ k o. k * size + o) blocks mods ∙ div-add-mod' y size

  -- A byte of the file lies in a part of a cluster when its position does.
  pub spot_within :
      (k o n x : ℕ)
      → k < file.blocklist_size
      → o + n ≤ cluster_size fs
      → x < capacity fs file
      → (within (k * cluster_size fs + o) n x ≡ true
          × (within (cluster_addr fs (file.blocklist k) + o) n (file_spot fs file x) ≡ true)
          × (file_spot fs file x - (cluster_addr fs (file.blocklist k) + o)
              ≡ x - (k * cluster_size fs + o)))
        ⊎ ((within (k * cluster_size fs + o) n x ≡ false)
            × (within (cluster_addr fs (file.blocklist k) + o) n (file_spot fs file x) ≡ false))
  spot_within k o n x lt fits in_file =
      let size = cluster_size fs in
      let addr = cluster_addr fs (file.blocklist k) in
      let spot = file_spot fs file x in
      elim (Bool-cases (within (k * size + o) n x)) [
        | inl here ↦
            let i = x - k * size in
            let at : spot ≡ addr + i =
              ap (file_spot fs file) {x = x} {y = k * size + i} (ground (arith, here))
              ∙ file_spot-block fs file k i (ground (arith, here)) in
            inl (
              here,
              ap (within (addr + o) n) at ∙ ground (arith, here),
              ap (λ t. t - (addr + o)) at ∙ ground (arith, here),
            )
        | inr away ↦ elim (Bool-cases (within (addr + o) n spot)) [
          | inr off ↦ inr (away, off)
          | inl on ↦
              let i = spot - addr in
              let small : i < size = ground (arith, on) in
              let at : spot ≡ file_spot fs file (k * size + i) =
                ground (arith, on) ∙ sym (file_spot-block fs file k i (ground (arith, on))) in
              let in_file_too : k * size + i < capacity fs file = omega (
                arith,
                mul-le-mul_right {m = k + 1} {n = file.blocklist_size} size (omega arith),
                add-mul k 1 size,
                small,
              ) in
              absurd (ground (arith, away, spot_apart x (k * size + i) in_file in_file_too at))
        ]
      ]

pub in_block : (k blocks size i : ℕ) → k < blocks → i < size → k * size + i < blocks * size
in_block k blocks size i lt small =
    omega (arith, mul-le-mul_right {m = k + 1} {n = blocks} size (omega arith), add-mul k 1 size)
