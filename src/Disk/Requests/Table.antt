-- ===== src/Disk/Requests/Table.antt =====
-- A table of the requests of kernel/disk.c.
use test_os.Base.{ℕ, ◌-◌, ◌%◌, ◌^◌, Bool, not, ◌&&◌, length, ltb, leb, ◌==◌}
use test_os.Disk.{Disk, Disks, disk_path_id}
use test_os.Disk.Requests.{
  Request, file_open, file_close, file_read, file_write, file_seek, dir_open, dir_close, dir_read,
  dir_create_entry, dir_create, fs_request,
}

-- The operation of the driver that a request asks for.
abbrev pub op_of : Request → Disk → ℕ
op_of (file_open path file) d = d.fs_file_open
op_of (file_close file) d = d.fs_file_close
op_of (file_read file buffer offset length) d = d.fs_file_read
op_of (file_write file buffer offset length) d = d.fs_file_write
op_of (file_seek file offset whence) d = d.fs_file_seek
op_of (dir_open path dir) d = d.fs_dir_open
op_of (dir_close dir) d = d.fs_dir_close
op_of (dir_read dir entry) d = d.fs_dir_read
op_of (dir_create_entry dir name attribute dir_entry) d = d.fs_dir_create_entry
op_of (dir_create dir name dir_entry) d = d.fs_dir_create
op_of (fs_request disk_id kind params ret) d = d.fs_request

-- The arguments that must not be NULL or zero, and the ranges of the others.
abbrev pub allowed : Request → Bool
allowed (file_open path file) = not (path == 0) && not (file == 0)
allowed (file_close file) = not (file == 0)
allowed (file_read file buffer offset length) =
    not (file == 0) && (not (buffer == 0) && not (length == 0))
allowed (file_write file buffer offset length) =
    not (file == 0) && (not (buffer == 0) && not (length == 0))
allowed (file_seek file offset whence) = not (file == 0) && leb whence 2
allowed (dir_open path dir) = not (path == 0) && not (dir == 0)
allowed (dir_close dir) = not (dir == 0)
allowed (dir_read dir entry) = not (dir == 0) && not (entry == 0)
allowed (dir_create_entry dir name attribute dir_entry) = not (dir == 0) && not (name == 0)
allowed (dir_create dir name dir_entry) =
    not (dir == 0) && (not (name == 0) && not (dir_entry == 0))
allowed (fs_request disk_id kind params ret) = ltb kind 16

-- The id of the disk that a request is for: in the path, in the open file or directory, or given.
abbrev pub wanted : {W : Type 0} → Disks W → Request → ℕ
wanted s (file_open path file) = disk_path_id s.memory path
wanted s (file_close file) = (s.file file).disk
wanted s (file_read file buffer offset length) = (s.file file).disk
wanted s (file_write file buffer offset length) = (s.file file).disk
wanted s (file_seek file offset whence) = (s.file file).disk
wanted s (dir_open path dir) = disk_path_id s.memory path
wanted s (dir_close dir) = (s.dir dir).disk
wanted s (dir_read dir entry) = (s.dir dir).disk
wanted s (dir_create_entry dir name attribute dir_entry) = (s.dir dir).disk
wanted s (dir_create dir name dir_entry) = (s.dir dir).disk
wanted s (fs_request disk_id kind params ret) = disk_id % 2 ^ 16

-- The answer to a request that is not passed on.
abbrev pub refusal : Request → ℕ
refusal (file_read file buffer offset length) = 0
refusal (file_write file buffer offset length) = 0
refusal r = 2 ^ 32 - 1
