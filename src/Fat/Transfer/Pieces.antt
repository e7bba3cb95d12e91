-- ===== src/Fat/Transfer/Pieces.antt =====
-- The pieces of a transfer in `fat32_file_rw` of kernel/fat32.c, for any relation that adds up.
use native.Mathlib.Nat.{one-le-pow, add-mul, div-add-mod', mod-lt}
use test_os.Base.{
  if_elim, ℕ, zero, suc, ◌+◌, ◌-◌, ◌*◌, ◌/◌, ◌%◌, ◌^◌, ◌≤◌, ◌<◌, ◌≡◌, refl, sym, ◌∙◌, ap, subst,
  arith, Bool, true, false, not, min, bit_and, ◌==◌, if◌then◌else◌, some, none,
}
use test_os.Fat.{Device, FatFs, FatFile}
use test_os.Fat.Transfer.{
  cluster_size, file_get_cluster, Io, rw_cluster, rw_cluster_part, rw_part, rw_whole, rw_rest,
  fat32_file_rw,
}
use native.Mathlib.Decide.{dec_lt}
use test_os.Base.Bits.{bit_and-mask}

-- The cluster `k` of the file, if there is one.
pub some_cluster :
    (file : FatFile) (k : ℕ)
    → (file_get_cluster file k == 0) ≡ false
    → (file_get_cluster file k ≡ file.blocklist k) × (k < file.blocklist_size)
unfolding file_get_cluster
some_cluster file k e = ground arith

some-true : (b : Bool) (n : ℕ) → (if b then some n else none) ≡ some n → b ≡ true
some-true true n e = refl
some-true false n e = absurd (cc)

-- `R io p pos n io'`: between the states, `n` bytes have gone between memory from `p` on and the file
-- from `pos` on.
module _ {κ} (d : Device) (disk : ℕ) (fs : FatFs) (file : FatFile) (is_write : Bool)
    (R : Io d.State → (p pos n : ℕ) → Io d.State → Type κ) where
  -- If the request has been served, the bytes have gone.
  abbrev pub Served : Io d.State → (p pos n : ℕ) → Bool × Io d.State → Type κ
  Served io p pos n r = r.0 ≡ true → R io p pos n r.1

  pub record Pieces : Type κ where
    pub moot : (io io' : Io d.State) (p pos pos' : ℕ) → R io p pos 0 io' → R io p pos' 0 io'
    pub nothing : (io : Io d.State) (p pos : ℕ) → R io p pos 0 io
    pub add :
        (io io1 io2 : Io d.State) (p pos c n : ℕ)
        → R io p pos c io1
        → R io1 (p + c) (pos + c) n io2
        → R io p pos (c + n) io2
    pub part :
        (p k o n : ℕ) (io : Io d.State)
        → k < file.blocklist_size
        → o + n ≤ cluster_size fs
        → 0 < p
        → Served io p
            (k * cluster_size fs + o)
            n
            (rw_cluster_part d disk fs is_write p (file.blocklist k) o n io)
    pub whole :
        (p k : ℕ) (io : Io d.State)
        → k < file.blocklist_size
        → Served io p
            (k * cluster_size fs)
            (cluster_size fs)
            (rw_cluster d disk fs is_write p (file.blocklist k) io)

  module _ (pieces : Pieces) where
    rw_part-Served :
        (p k o n : ℕ) (io : Io d.State)
        → o + n ≤ cluster_size fs
        → 0 < p
        → Served io p (k * cluster_size fs + o) n (rw_part d disk fs file is_write p k o n io)
    unfolding rw_part
    rw_part-Served p k o n io fits some_place =
        if_elim (Served io p (k * cluster_size fs + o) n) (file_get_cluster file k == 0)
          (λ none_there done. absurd (cc))
          (λ there.
            let (at, lt) = some_cluster file k there in
            subst
              (λ c.
                Served io p (k * cluster_size fs + o) n
                  (rw_cluster_part d disk fs is_write p c o n io))
              (sym at) (pieces.part p k o n io lt fits some_place))

    next_block : (k : ℕ) → k * cluster_size fs + cluster_size fs ≡ (k + 1) * cluster_size fs
    next_block k = omega (arith, add-mul k 1 (cluster_size fs))

    rw_whole-Served :
        (rounds p k : ℕ) (io : Io d.State)
        → Served io p
            (k * cluster_size fs)
            (rounds * cluster_size fs)
            (rw_whole d disk fs file is_write rounds p k io)
    unfolding rw_whole
    rw_whole-Served zero p k io = λ done.
        subst (λ n. R io p (k * cluster_size fs) n io) {x = 0} (omega arith)
          (pieces.nothing io p (k * cluster_size fs))
    rw_whole-Served (suc rounds) p k io =
        let size = cluster_size fs in
        let c = file_get_cluster file k in
        let r = rw_cluster d disk fs is_write p c io in
        let rest = rw_whole d disk fs file is_write rounds (p + size) (k + 1) r.1 in
        if_elim (Served io p (k * size) (suc rounds * size)) (c == 0)
          (λ none_there done. absurd (cc))
          (λ there.
            let (at, lt) = some_cluster file k there in
            if_elim (Served io p (k * size) (suc rounds * size)) r.0
              (λ worked done.
                subst (λ n. R io p (k * size) n rest.1) {x = size + rounds * size}
                  (omega (arith, add-mul 1 rounds size))
                  (pieces.add io r.1 rest.1 p (k * size) size (rounds * size)
                    (subst (λ c. Served io p (k * size) size (rw_cluster d disk fs is_write p c io))
                      (sym at) (pieces.whole p k io lt) worked)
                    (subst (λ pos. R r.1 (p + size) pos (rounds * size) rest.1) (sym (next_block k))
                      (rw_whole-Served rounds (p + size) (k + 1) r.1 done))))
              (λ failed done. absurd (cc)))

    rw_rest-Served :
        (p k n : ℕ) (io : Io d.State)
        → 0 < cluster_size fs
        → 0 < p
        → Served io p (k * cluster_size fs) n (rw_rest d disk fs file is_write p k n io)
    unfolding rw_rest
    rw_rest-Served p k n io some_size some_place =
        let size = cluster_size fs in
        let r = rw_whole d disk fs file is_write (n / size) p k io in
        let left = n % size in
        let last =
          rw_part d disk fs file is_write (p + n / size * size) (k + n / size) 0 left r.1 in
        let whole = rw_whole-Served (n / size) p k io in
        if_elim (Served io p (k * size) n) (not r.0) (λ failed done. absurd (ground arith))
          (λ worked.
            if_elim (Served io p (k * size) n) (left == 0)
              (λ even done.
                subst (λ t. R io p (k * size) t r.1) {x = n / size * size}
                  (ground (arith, div-add-mod' n size)) (whole done))
              (λ odd done.
                subst (λ t. R io p (k * size) t last.1) {x = n / size * size + left}
                  (div-add-mod' n size)
                  (pieces.add io r.1 last.1 p (k * size) (n / size * size) left
                    (whole (ground arith))
                    (subst (λ pos. R r.1 (p + n / size * size) pos left last.1)
                      {x = (k + n / size) * size + 0} (omega (arith, add-mul k (n / size) size))
                      (rw_part-Served (p + n / size * size) (k + n / size) 0 left r.1
                        (omega (arith, mod-lt n some_size)) (omega (arith, some_place)) done)))))

    -- Behind the first piece: at the next cluster, or there is nothing left.
    behind_first :
        (k off len : ℕ) (buf : ℕ) (io : Io d.State)
        → 0 < cluster_size fs
        → off < cluster_size fs
        → 0 < buf
        → Served io buf
            (k * cluster_size fs + off + min len (cluster_size fs - off))
            (len - min len (cluster_size fs - off))
            (rw_rest d disk fs file is_write buf (k + 1) (len - min len (cluster_size fs - off)) io)
    behind_first k off len buf io some_size small some_place done =
        let size = cluster_size fs in
        let n = len - min len (size - off) in
        let r = rw_rest d disk fs file is_write buf (k + 1) n io in
        let rest = rw_rest-Served buf (k + 1) n io some_size some_place done in
        elim (dec_lt (size - off) len) [
          | yes more ↦
              subst (λ pos. R io buf pos n r.1) {x = (k + 1) * size}
                (omega (arith, add-mul k 1 size)) rest
          | no over ↦
              let none_left : n ≡ 0 = omega arith in
              subst (λ t. R io buf (k * size + off + min len (size - off)) t r.1) (sym none_left)
                (pieces.moot io r.1 buf ((k + 1) * size) (k * size + off + min len (size - off))
                  (subst (λ t. R io buf ((k + 1) * size) t r.1) none_left rest))
        ]

    -- The whole transfer, with a power of two for the size of a cluster.
    pub fat32_file_rw-R :
        (j buf offset len : ℕ) (io : Io d.State)
        → cluster_size fs ≡ 2 ^ j
        → 0 < buf
        → (fat32_file_rw d disk fs file is_write buf offset len io).0 ≡ some len
        → R io buf offset len (fat32_file_rw d disk fs file is_write buf offset len io).1
    unfolding fat32_file_rw
    fat32_file_rw-R j buf offset len io power some_place result =
        let size = cluster_size fs in
        let k = offset / size in
        let off = bit_and offset (size - 1) in
        let some_size : 0 < size = omega (arith, one-le-pow j 2) in
        let in_cluster : off ≡ offset % size =
          ap (λ t. bit_and offset (t - 1)) power
          ∙ bit_and-mask j offset
          ∙ ap (λ t. offset % t) (sym power) in
        let small : off < size = omega (arith, mod-lt offset some_size) in
        let split : k * size + off ≡ offset = omega (arith, div-add-mod' offset size) in
        let count = min len (size - off) in
        let first = rw_part d disk fs file is_write buf k off count io in
        let rest = rw_rest d disk fs file is_write (buf + count) (k + 1) (len - count) first.1 in
        let all =
          if_elim (Served io buf offset len) (off == 0)
            {x = rw_rest d disk fs file is_write buf k len io} {y = if first.0 then rest else first}
            (λ even done.
              subst (λ pos. R io buf pos len (rw_rest d disk fs file is_write buf k len io).1)
                {x = k * size} (ground (arith, split))
                (rw_rest-Served buf k len io some_size some_place done))
            (λ odd.
              if_elim (Served io buf offset len) first.0
                (λ worked done.
                  subst (λ t. R io buf offset t rest.1) {x = count + (len - count)} (omega arith)
                    (subst (λ pos. R io buf pos (count + (len - count)) rest.1) split
                      (pieces.add io first.1 rest.1 buf (k * size + off) count (len - count)
                        (rw_part-Served buf k off count io (omega arith) some_place worked)
                        (behind_first k off len (buf + count) first.1 some_size small
                          (omega (arith, some_place)) done))))
                (λ failed done. absurd (cc))) in
        all (some-true _ len result)
