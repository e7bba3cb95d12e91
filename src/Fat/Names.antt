-- ===== src/Fat/Names.antt =====
-- Directory entries in kernel/fat32.c, `short_fn_to_string` to `dir_entry_to_disk`.
pub mod Loops
pub mod Short
use test_os.Base.{
  ℕ, zero, suc, ◌+◌, ◌-◌, ◌*◌, ◌%◌, ◌^◌, Bool, true, false, not, ◌&&◌, bit_and, ltb, leb, ◌==◌,
  if◌then◌else◌, Option, some, none,
}
use test_os.Fat.{DirEntry, FatFile}
use test_os.Fat.Transfer.{fill}
use test_os.Ctype.{toupper, tolower, isprint}

-- `struct fat32_disk_dir_entry` without its `data`.
pub record DiskEntry : Type 0 where
  pub name : ℕ → ℕ
  pub ext : ℕ → ℕ
  pub attrib : ℕ
  pub first_cluster : ℕ
  pub size : ℕ

-- `b[i] = c`
abbrev pub put : (ℕ → ℕ) → (i c : ℕ) → ℕ → ℕ
put b i c k = if k == i then c else b k

-- The `n` characters of a field from `i` on in lower case, at `start` in the buffer. The second result
-- is behind the last of them that prints, or `end`.
unfoldable pub lower_chars : (n i start : ℕ) (field buf : ℕ → ℕ) (end : ℕ) → (ℕ → ℕ) × ℕ
unfolding tolower isprint
lower_chars zero i start field buf end = (buf, end)
lower_chars (suc n) i start field buf end =
    let c = tolower (field i) % 256 in
    lower_chars n (i + 1) start field (put buf (start + i) c)
      (if isprint c == 0 then end else start + i + 1)

unfoldable pub short_fn_to_string : DiskEntry → (buf : ℕ → ℕ) → ℕ → ℕ
unfolding lower_chars
short_fn_to_string entry buf =
    let name = lower_chars 8 0 0 entry.name buf 0 in
    let ext = lower_chars 3 0 (name.1 + 1) entry.ext (put name.0 name.1 b'.') name.1 in
    put ext.0 ext.1 0

-- The first loop of `string_to_short_fn`, with the rest of the string where it stops early.
unfoldable pub upper_name : (n i : ℕ) (buf name : ℕ → ℕ) → (ℕ → ℕ) × Option ℕ
unfolding toupper
upper_name zero i buf name = (name, none)
upper_name (suc n) i buf name =
    let rest = upper_name n (i + 1) buf (put name i (toupper (buf i) % 256)) in
    let padded = fill name i (8 - i) (λ k. b' ') in
    if buf i == b'.' then (padded, some (i + 1)) else if buf i == 0 then (padded, some i) else rest

-- The second loop, with the string from `p` on.
unfoldable pub upper_ext : (n i p : ℕ) (buf ext : ℕ → ℕ) → ℕ → ℕ
unfolding toupper
upper_ext zero i p buf ext = ext
upper_ext (suc n) i p buf ext =
    let rest = upper_ext n (i + 1) p buf (put ext i (toupper (buf (p + i)) % 256)) in
    if buf (p + i) == 0 then fill ext i (3 - i) (λ k. b' ') else rest

-- From `parse_ext` on.
unfoldable pub parse_ext : (p : Option ℕ) (buf ext : ℕ → ℕ) → ℕ → ℕ
unfolding upper_ext
parse_ext none buf ext = fill ext 0 3 (λ k. b' ')
parse_ext (some p) buf ext =
    let parsed = upper_ext 3 0 p buf ext in if buf p == 0 then fill ext 0 3 (λ k. b' ') else parsed

abbrev or_else : Option ℕ → Option ℕ → Option ℕ
or_else (some p) q = some p
or_else none q = q

-- `strchr buf c p` is the index of the first `c` in the string from `p` on.
module _ (strchr : (buf : ℕ → ℕ) (c p : ℕ) → Option ℕ) where
  unfoldable pub string_to_short_fn : DiskEntry → (buf : ℕ → ℕ) → DiskEntry
  unfolding upper_name parse_ext
  string_to_short_fn entry buf =
      let r = upper_name 8 0 buf entry.name in
      let p = or_else r.1 (strchr buf b'.' 8) in
      record entry { name = r.0; ext = parse_ext p buf entry.ext }

  unfoldable pub dir_entry_to_disk : FatFile → DiskEntry → DiskEntry
  unfolding string_to_short_fn
  dir_entry_to_disk file disk_entry = record (string_to_short_fn disk_entry file.dir_entry.name) {
    first_cluster = file.dir_entry.first_cluster % 2 ^ 16;
    size = file.size;
    attrib = file.dir_entry.attrib % 2 ^ 8;
  }

unfoldable pub is_free_entry : DiskEntry → Bool
is_free_entry entry = if entry.name 0 == 0 then true else entry.name 0 == 0xe5

-- The attribute of a volume is 8.
unfoldable pub is_valid_entry : DiskEntry → Bool
unfolding is_free_entry
is_valid_entry entry =
    if is_free_entry entry
    then false
    else if not (bit_and entry.attrib 8 == 0)
    then false
    else not (entry.name 0 == b'.')

unfoldable pub dir_entry_from_disk : DirEntry → DiskEntry → DirEntry
unfolding short_fn_to_string
dir_entry_from_disk entry disk_entry = record entry {
  name = short_fn_to_string disk_entry entry.name;
  first_cluster = disk_entry.first_cluster;
  size = disk_entry.size;
  attrib = disk_entry.attrib;
}
