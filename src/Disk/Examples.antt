-- ===== src/Disk/Examples.antt =====
-- Two disks of kernel/disk.c, and the theorems at them.
use test_os.Base.{
  ℕ, ◌<◌, ◌≡◌, ◌≢◌, ◌⊎◌, refl, arith, List, [], ◌∷◌, Option, some, none, length, ◌==◌,
  if◌then◌else◌,
}
use test_os.Base.Memory.{memory_at}
use test_os.Disk.{Disk, Disks, Call, new_disk, disk_register}
use test_os.Disk.Register.{IsDisks, Registered, disk_register-Registered}
use test_os.Disk.Requests.{disk_file_read, file_open, file_read, serve}
use test_os.Disk.Requests.Served.{Minds}
use test_os.Disk.Requests.Every.{Served, serve-Served}

-- A driver that opens (77) and reads (78) files, and always answers 5 or 6.
abbrev small_driver : Call Unit
small_driver fn args s = if fn == 77 then (5, s) else (6, s)

abbrev small_disk : (id next : ℕ) → Disk
small_disk id next = record (new_disk id 0 0 next) { fs_file_open = 77; fs_file_read = 78 }

-- "a:" at 1000 and "b:" at 2000; an open file of "b:" at 50; the path "b:/x" at 300.
abbrev two_disks : Disks Unit
two_disks = record {
  disk_list = 2000;
  disk_lock = 0;
  disk_id = 14947;
  disk = λ q. if q == 2000 then small_disk 14946 1000 else small_disk 14945 0;
  file = λ q. record { id = 0; disk = 14946; path = []; fs_file = 0 };
  dir = λ q. record { id = 0; disk = 0; path = []; fs_dir = 0 };
  memory = memory_at 300 (b'b' ∷ b':' ∷ b'/' ∷ b'x' ∷ []);
  freed = [];
  driver = tt;
}

abbrev registered : List ℕ
registered = 2000 ∷ 1000 ∷ []

two_disks-IsDisks : IsDisks two_disks registered
two_disks-IsDisks = record {
  listed = (refl, omega arith, refl, omega arith, (refl, omega arith, refl, omega arith, refl));
  next_id = refl;
  few = omega arith;
  free_lock = refl;
}

small_driver-Minds : Minds small_driver
small_driver-Minds fn args s = record {
  same_list = ground arith;
  same_lock = ground arith;
  same_id = ground arith;
  same_ids = λ q. ground arith;
  same_next = λ q. ground arith;
  same_ref = λ q _. ground arith;
}

abbrev answer : Option (ℕ × Disks Unit) → Option ℕ
answer none = none
answer (some (v, s)) = some v

abbrev third : ℕ
third = 3000

-- A third disk is registered.
disk_register-Registered_example :
    ((length registered ≡ 26) × (disk_register third 7 8 two_disks ≡ some (0, two_disks)))
    ⊎ (((length registered < 26) × (third ≡ 0) × (disk_register third 7 8 two_disks ≡ none))
        ⊎ ((length registered < 26)
            × (third ≢ 0)
            × (s' : Disks Unit) × (disk_register third 7 8 two_disks ≡ some (third, s'))
            × Registered two_disks registered third s'))
disk_register-Registered_example =
    disk_register-Registered two_disks registered third 7 8 two_disks-IsDisks
      (omega arith, (omega arith, tt))

-- A file of "b:" is opened by its path.
serve-Served_example :
    (v : ℕ) × (s' : Disks Unit) × (serve small_driver 5 (file_open 300 50) two_disks ≡ some (v, s'))
    × Served small_driver two_disks registered (file_open 300 50) v s'
serve-Served_example =
    serve-Served small_driver two_disks registered 5 (file_open 300 50) small_driver-Minds
      two_disks-IsDisks (omega arith) (4, omega arith, refl)

-- Reading nothing is refused, reading is passed on.
reads :
    (serve small_driver 5 (file_read 50 60 0 0) two_disks ≡ some (0, two_disks))
    × (answer (serve small_driver 5 (file_read 50 60 0 9) two_disks) ≡ some 6)
unfolding serve disk_file_read
reads = (refl, refl)
