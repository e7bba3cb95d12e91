-- ===== src/Disk/Requests/Every.antt =====
-- Each request of kernel/disk.c against the table of requests.
use test_os.Base.{
  ℕ, zero, suc, ◌+◌, ◌%◌, ◌^◌, ◌<◌, ◌≡◌, ◌⊎◌, inl, inr, refl, ◌∙◌, ap, arith, Bool, true, false,
  ◌&&◌, ◌||◌, some, List, [], ◌∷◌, length, ◌==◌, if◌then◌else◌, ◌>>=◌, Bool-cases,
}
use test_os.Disk.{
  Disk, Disks, Call, failed, with_ref, to_driver, skip_path, disk_path_id, write_file, write_dir,
  free_some,
}
use test_os.Disk.Register.{IsDisks, disk_number}
use test_os.Disk.Requests.{
  Request, file_open, file_close, file_read, file_write, file_seek, dir_open, dir_close, dir_read,
  dir_create_entry, dir_create, fs_request, disk_file_open, disk_file_close, disk_file_read,
  disk_file_write, disk_file_seek, disk_dir_open, disk_dir_close, disk_dir_read,
  disk_dir_create_entry, disk_dir_create, disk_fs_request, serve,
}
use test_os.Disk.Requests.Served.{Quiet, Minds, Quiet-refl, Quiet-trans, Quiet-IsDisks}
use test_os.Disk.Requests.Table.{op_of, allowed, wanted, refusal}
use test_os.Disk.Requests.Answers.{Called, can, Answer, asked, passed_on, simply}

free_some-Quiet : {W : Type 0} → (p : ℕ) (s : Disks W) → Quiet s (free_some p s)
free_some-Quiet p s = record {
  same_list = ground arith;
  same_lock = ground arith;
  same_id = ground arith;
  same_ids = λ q. ground arith;
  same_next = λ q. ground arith;
  same_ref = λ q _. ground arith;
}

-- The path of a request ends within the fuel.
abbrev pub PathEnds : {W : Type 0} → Disks W → ℕ → Request → Type 0
PathEnds s fuel (file_open path file) = (n : ℕ) × (n < fuel) × (s.memory (path + n) ≡ 0)
PathEnds s fuel (dir_open path dir) = (n : ℕ) × (n < fuel) × (s.memory (path + n) ≡ 0)
PathEnds s fuel r = Unit

skip_path_ends :
    (n fuel : ℕ) (m : ℕ → ℕ) (path : ℕ)
    → n < fuel
    → m (path + n) ≡ 0
    → (rest : ℕ) × (skip_path fuel m path ≡ some rest)
unfolding skip_path
skip_path_ends n zero m path lt end = absurd (omega arith)
skip_path_ends zero (suc fuel) m path lt end =
    let stop : ((m path == 0) || (m path == b'/')) ≡ true =
      ground (arith, ap m {x = path + 0} {y = path} (omega arith)) in
    rw stop (path, refl)
skip_path_ends (suc n) (suc fuel) m path lt end =
    elim (Bool-cases ((m path == 0) || (m path == b'/'))) [
      | inl stop ↦ rw stop (path, refl)
      | inr on ↦ rw on (
          skip_path_ends n fuel m (path + 1) (omega arith)
            (ap m {x = path + 1 + n} {y = path + suc n} (omega arith) ∙ end))
    ]

-- What `serve` does with the request `r`: the disks stay registered as they are, no count has changed, and
-- the driver was called if the arguments are allowed, the disk is there and its driver has the operation;
-- otherwise the answer is the refusal and nothing has changed.
abbrev pub Served : {W : Type 0} → Call W → Disks W → List ℕ → Request → ℕ → Disks W → Type 0
Served call s ds r v s' =
    let p = disk_number ds (wanted s r) in
    IsDisks s' ds
    × Quiet s s'
    × ((((allowed r && can s p (op_of r)) ≡ true) × Called call s p (op_of r) v)
        ⊎ (((allowed r && can s p (op_of r)) ≡ false) × (v ≡ refusal r) × (s' ≡ s)))

module _ {W : Type 0} (call : Call W) (minds : Minds call) (s : Disks W) (ds : List ℕ)
    (h : IsDisks s ds) (fuel : ℕ) (enough : length ds < fuel) where
  plainly :
      (ok : Bool) (id : ℕ) (op : Disk → ℕ) (error : ℕ) (args : List ℕ)
      → (v : ℕ) × (s' : Disks W) × ((if ok
            then to_driver fuel id op error (λ p t. some (with_ref call p op args t)) s
            else some (error, s))
          ≡ some (v, s'))
        × Quiet s s'
        × Answer call minds s ds h fuel enough ok (disk_number ds id) op error v s'
  plainly ok id op error args =
      asked call minds s ds h fuel enough ok id op error (λ p t. some (with_ref call p op args t))
        (simply call minds s ds h fuel enough op args)

  -- `disk_file_close` and `disk_dir_close`: what the driver has kept is given back.
  closing :
      (ok : Bool) (id : ℕ) (op : Disk → ℕ) (error : ℕ) (args : List ℕ) (kept : Disks W → ℕ)
      → (v : ℕ) × (s' : Disks W) × ((if ok
            then to_driver fuel id op error
                (λ p t.
                  let done = with_ref call p op args t in
                  some (done.0, free_some (kept done.1) done.1))
                s
            else some (error, s))
          ≡ some (v, s'))
        × Quiet s s'
        × Answer call minds s ds h fuel enough ok (disk_number ds id) op error v s'
  closing ok id op error args kept =
      asked call minds s ds h fuel enough ok id op error
        (λ p t.
          let done = with_ref call p op args t in some (done.0, free_some (kept done.1) done.1))
        (λ p.
          let done = with_ref call p op args s in
          let (quiet, called) =
            passed_on call minds s ds h fuel enough s op args p (Quiet-refl s) refl in
          (
            done.0,
            free_some (kept done.1) done.1,
            refl,
            Quiet-trans s done.1 (free_some (kept done.1) done.1) quiet
                (free_some-Quiet (kept done.1) done.1),
            called,
          ))

  -- `disk_file_open` and `disk_dir_open`: the disk is noted, the path is cut.
  opening :
      (ok : Bool) (id : ℕ) (op : Disk → ℕ) (error path handle : ℕ) (note : Disks W → Disks W)
      → Quiet s (note s)
      → (note s).disk ≡ s.disk
      → (rest : ℕ) × (skip_path fuel (note s).memory path ≡ some rest)
      → (v : ℕ) × (s' : Disks W) × ((if ok
            then to_driver fuel id op error
                (λ p t.
                  skip_path fuel (note t).memory path
                  >>= (λ rest. some (with_ref call p op (rest ∷ handle ∷ []) (note t))))
                s
            else some (error, s))
          ≡ some (v, s'))
        × Quiet s s'
        × Answer call minds s ds h fuel enough ok (disk_number ds id) op error v s'
  opening ok id op error path handle note quiet same (rest, cut) =
      asked call minds s ds h fuel enough ok id op error
        (λ p t.
          skip_path fuel (note t).memory path
          >>= (λ rest. some (with_ref call p op (rest ∷ handle ∷ []) (note t))))
        (λ p.
          let done = with_ref call p op (rest ∷ handle ∷ []) (note s) in
          let (after, called) =
            passed_on call minds s ds h fuel enough (note s) op (rest ∷ handle ∷ []) p quiet same in
          (
            done.0,
            done.1,
            ap (λ r. r >>= (λ q. some (with_ref call p op (q ∷ handle ∷ []) (note s)))) cut,
            after,
            called,
          ))

  answered :
      (r : Request)
      → PathEnds s fuel r
      → (v : ℕ) × (s' : Disks W) × (serve call fuel r s ≡ some (v, s'))
        × Quiet s s'
        × Answer call minds s ds h fuel enough
            (allowed r)
            (disk_number ds (wanted s r))
            (op_of r)
            (refusal r)
            v
            s'
  unfolding serve disk_file_open disk_file_close disk_file_read disk_file_write disk_file_seek
      disk_dir_open disk_dir_close disk_dir_read disk_dir_create_entry disk_dir_create
      disk_fs_request
  answered (file_open path file) (n, lt, end) =
      opening (allowed (file_open path file)) (disk_path_id s.memory path) (λ d. d.fs_file_open)
        failed path file
        (λ t. record t {
          file =
              write_file t.file file (record (t.file file) { disk = disk_path_id s.memory path });
        })
        (record {
          same_list = refl;
          same_lock = refl;
          same_id = refl;
          same_ids = λ q. refl;
          same_next = λ q. refl;
          same_ref = λ q _. refl;
        })
        refl (skip_path_ends n fuel s.memory path lt end)
  answered (file_close file) end =
      closing (allowed (file_close file)) (s.file file).disk (λ d. d.fs_file_close) failed
        (file ∷ []) (λ t. (t.file file).fs_file)
  answered (file_read file buffer offset length) end =
      plainly (allowed (file_read file buffer offset length)) (s.file file).disk
        (λ d. d.fs_file_read) 0 (file ∷ buffer ∷ offset ∷ length ∷ [])
  answered (file_write file buffer offset length) end =
      plainly (allowed (file_write file buffer offset length)) (s.file file).disk
        (λ d. d.fs_file_write) 0 (file ∷ buffer ∷ offset ∷ length ∷ [])
  answered (file_seek file offset whence) end =
      plainly (allowed (file_seek file offset whence)) (s.file file).disk (λ d. d.fs_file_seek)
        failed (file ∷ offset ∷ whence ∷ [])
  answered (dir_open path dir) (n, lt, end) =
      opening (allowed (dir_open path dir)) (disk_path_id s.memory path) (λ d. d.fs_dir_open) failed
        path dir
        (λ t. record t {
          dir = write_dir t.dir dir (record (t.dir dir) { disk = disk_path_id s.memory path });
        })
        (record {
          same_list = refl;
          same_lock = refl;
          same_id = refl;
          same_ids = λ q. refl;
          same_next = λ q. refl;
          same_ref = λ q _. refl;
        })
        refl (skip_path_ends n fuel s.memory path lt end)
  answered (dir_close dir) end =
      closing (allowed (dir_close dir)) (s.dir dir).disk (λ d. d.fs_dir_close) failed (dir ∷ [])
        (λ t. (t.dir dir).fs_dir)
  answered (dir_read dir entry) end =
      plainly (allowed (dir_read dir entry)) (s.dir dir).disk (λ d. d.fs_dir_read) failed
        (dir ∷ entry ∷ [])
  answered (dir_create_entry dir name attribute dir_entry) end =
      plainly (allowed (dir_create_entry dir name attribute dir_entry)) (s.dir dir).disk
        (λ d. d.fs_dir_create_entry) failed (dir ∷ name ∷ attribute ∷ dir_entry ∷ [])
  answered (dir_create dir name dir_entry) end =
      plainly (allowed (dir_create dir name dir_entry)) (s.dir dir).disk (λ d. d.fs_dir_create)
        failed (dir ∷ name ∷ dir_entry ∷ [])
  answered (fs_request disk_id kind params ret) end =
      plainly (allowed (fs_request disk_id kind params ret)) (disk_id % 2 ^ 16) (λ d. d.fs_request)
        failed (kind ∷ params ∷ ret ∷ [])

-- With drivers that mind the list and its counts, disks that are registered, fuel above their number and a path that
-- ends within the fuel, each of the eleven requests is answered: the list, the ids and the counts are as before,
-- and either the driver of the disk that is meant was called, with its count one up, and gave the
-- answer; or an argument is not allowed, there is no such disk or its driver has no such operation, and
-- then nothing has changed and the answer is -1, of reading and writing a file 0.
pub serve-Served :
    {W : Type 0}
    → (call : Call W) (s : Disks W) (ds : List ℕ) (fuel : ℕ) (r : Request) → Minds call
    → IsDisks s ds
    → length ds < fuel
    → PathEnds s fuel r
    → (v : ℕ) × (s' : Disks W) × (serve call fuel r s ≡ some (v, s')) × Served call s ds r v s'
serve-Served call s ds fuel r minds h enough ends =
    let (v, s', ran, quiet, answer) = answered call minds s ds h fuel enough r ends in
    (v, s', ran, (Quiet-IsDisks s s' ds quiet h, quiet, answer))
