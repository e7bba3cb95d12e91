-- ===== src/Disk/Requests.antt =====
-- The requests of kernel/disk.c: files, directories and the other requests, and which of them is meant.
pub mod Served
pub mod Table
pub mod Answers
pub mod Every
use test_os.Base.{
  ℕ, zero, suc, ◌+◌, ◌-◌, ◌*◌, ◌%◌, ◌^◌, Bool, true, false, ◌&&◌, ◌||◌, not, Option, none, some,
  List, [], ◌∷◌, ltb, leb, ◌==◌, if◌then◌else◌, ◌>>=◌,
}
use test_os.Disk.{
  Disk, File, Dir, Disks, Call, failed, disk_word, file_seek_end, fs_request_type_size, with_ref,
  to_driver, skip_path, disk_path_id, write_file, write_dir, free_some,
}

-- The arguments of `disk_file_open`, …, `disk_fs_request`; pointers are addresses.
pub data Request : Type 0 where
  file_open : (path file : ℕ) → Request
  file_close : (file : ℕ) → Request
  file_read : (file buffer offset length : ℕ) → Request
  file_write : (file buffer offset length : ℕ) → Request
  file_seek : (file offset whence : ℕ) → Request
  dir_open : (path dir : ℕ) → Request
  dir_close : (dir : ℕ) → Request
  dir_read : (dir entry : ℕ) → Request
  dir_create_entry : (dir name attribute dir_entry : ℕ) → Request
  dir_create : (dir name dir_entry : ℕ) → Request
  fs_request : (disk_id kind params ret : ℕ) → Request

module _ {W : Type 0} (call : Call W) (fuel : ℕ) where
  unfoldable pub disk_file_open : (path file : ℕ) → Disks W → Option (ℕ × Disks W)
  unfolding to_driver with_ref skip_path
  disk_file_open path file s =
      let id = disk_path_id s.memory path in
      if not (path == 0) && not (file == 0)
      then to_driver fuel id (λ d. d.fs_file_open) failed
          (λ p s'.
            let s'' = record s' {
              file = write_file s'.file file (record (s'.file file) { disk = id });
            } in
            skip_path fuel s''.memory path
            >>= (λ rest. some (with_ref call p (λ d. d.fs_file_open) (rest ∷ file ∷ []) s'')))
          s
      else some (failed, s)

  unfoldable pub disk_file_close : (file : ℕ) → Disks W → Option (ℕ × Disks W)
  unfolding to_driver with_ref
  disk_file_close file s =
      if not (file == 0)
      then to_driver fuel (s.file file).disk (λ d. d.fs_file_close) failed
          (λ p s'.
            let done = with_ref call p (λ d. d.fs_file_close) (file ∷ []) s' in
            some (done.0, free_some (done.1.file file).fs_file done.1))
          s
      else some (failed, s)

  unfoldable pub disk_file_read : (file buffer offset length : ℕ) → Disks W → Option (ℕ × Disks W)
  unfolding to_driver with_ref
  disk_file_read file buffer offset length s =
      if not (file == 0) && (not (buffer == 0) && not (length == 0))
      then to_driver fuel (s.file file).disk (λ d. d.fs_file_read) 0
          (λ p s'.
            some (with_ref call p (λ d. d.fs_file_read) (file ∷ buffer ∷ offset ∷ length ∷ []) s'))
          s
      else some (0, s)

  unfoldable pub disk_file_write : (file buffer offset length : ℕ) → Disks W → Option (ℕ × Disks W)
  unfolding to_driver with_ref
  disk_file_write file buffer offset length s =
      if not (file == 0) && (not (buffer == 0) && not (length == 0))
      then to_driver fuel (s.file file).disk (λ d. d.fs_file_write) 0
          (λ p s'.
            some (with_ref call p (λ d. d.fs_file_write) (file ∷ buffer ∷ offset ∷ length ∷ []) s'))
          s
      else some (0, s)

  -- `whence` is an `int`: a negative one is a word above `FILE_SEEK_END`.
  unfoldable pub disk_file_seek : (file offset whence : ℕ) → Disks W → Option (ℕ × Disks W)
  unfolding to_driver with_ref
  disk_file_seek file offset whence s =
      if not (file == 0) && leb whence file_seek_end
      then to_driver fuel (s.file file).disk (λ d. d.fs_file_seek) failed
          (λ p s'. some (with_ref call p (λ d. d.fs_file_seek) (file ∷ offset ∷ whence ∷ []) s')) s
      else some (failed, s)

  unfoldable pub disk_dir_open : (path dir : ℕ) → Disks W → Option (ℕ × Disks W)
  unfolding to_driver with_ref skip_path
  disk_dir_open path dir s =
      let id = disk_path_id s.memory path in
      if not (path == 0) && not (dir == 0)
      then to_driver fuel id (λ d. d.fs_dir_open) failed
          (λ p s'.
            let s'' = record s' {
              dir = write_dir s'.dir dir (record (s'.dir dir) { disk = id });
            } in
            skip_path fuel s''.memory path
            >>= (λ rest. some (with_ref call p (λ d. d.fs_dir_open) (rest ∷ dir ∷ []) s'')))
          s
      else some (failed, s)

  unfoldable pub disk_dir_close : (dir : ℕ) → Disks W → Option (ℕ × Disks W)
  unfolding to_driver with_ref
  disk_dir_close dir s =
      if not (dir == 0)
      then to_driver fuel (s.dir dir).disk (λ d. d.fs_dir_close) failed
          (λ p s'.
            let done = with_ref call p (λ d. d.fs_dir_close) (dir ∷ []) s' in
            some (done.0, free_some (done.1.dir dir).fs_dir done.1))
          s
      else some (failed, s)

  unfoldable pub disk_dir_read : (dir entry : ℕ) → Disks W → Option (ℕ × Disks W)
  unfolding to_driver with_ref
  disk_dir_read dir entry s =
      if not (dir == 0) && not (entry == 0)
      then to_driver fuel (s.dir dir).disk (λ d. d.fs_dir_read) failed
          (λ p s'. some (with_ref call p (λ d. d.fs_dir_read) (dir ∷ entry ∷ []) s')) s
      else some (failed, s)

  unfoldable pub disk_dir_create_entry :
      (dir name attribute dir_entry : ℕ) → Disks W → Option (ℕ × Disks W)
  unfolding to_driver with_ref
  disk_dir_create_entry dir name attribute dir_entry s =
      if not (dir == 0) && not (name == 0)
      then to_driver fuel (s.dir dir).disk (λ d. d.fs_dir_create_entry) failed
          (λ p s'. some (
            with_ref call p (λ d. d.fs_dir_create_entry) (dir ∷ name ∷ attribute ∷ dir_entry ∷ [])
              s'))
          s
      else some (failed, s)

  unfoldable pub disk_dir_create : (dir name dir_entry : ℕ) → Disks W → Option (ℕ × Disks W)
  unfolding to_driver with_ref
  disk_dir_create dir name dir_entry s =
      if not (dir == 0) && (not (name == 0) && not (dir_entry == 0))
      then to_driver fuel (s.dir dir).disk (λ d. d.fs_dir_create) failed
          (λ p s'. some (with_ref call p (λ d. d.fs_dir_create) (dir ∷ name ∷ dir_entry ∷ []) s')) s
      else some (failed, s)

  unfoldable pub disk_fs_request : (disk_id kind params ret : ℕ) → Disks W → Option (ℕ × Disks W)
  unfolding to_driver with_ref
  disk_fs_request disk_id kind params ret s =
      if ltb kind fs_request_type_size
      then to_driver fuel (disk_id % 2 ^ 16) (λ d. d.fs_request) failed
          (λ p s'. some (with_ref call p (λ d. d.fs_request) (kind ∷ params ∷ ret ∷ []) s')) s
      else some (failed, s)

  -- The function that serves the request.
  unfoldable pub serve : Request → Disks W → Option (ℕ × Disks W)
  serve (file_open path file) = disk_file_open path file
  serve (file_close file) = disk_file_close file
  serve (file_read file buffer offset length) = disk_file_read file buffer offset length
  serve (file_write file buffer offset length) = disk_file_write file buffer offset length
  serve (file_seek file offset whence) = disk_file_seek file offset whence
  serve (dir_open path dir) = disk_dir_open path dir
  serve (dir_close dir) = disk_dir_close dir
  serve (dir_read dir entry) = disk_dir_read dir entry
  serve (dir_create_entry dir name attribute dir_entry) =
      disk_dir_create_entry dir name attribute dir_entry
  serve (dir_create dir name dir_entry) = disk_dir_create dir name dir_entry
  serve (fs_request disk_id kind params ret) = disk_fs_request disk_id kind params ret
