-- ===== src/Bitmap.antt =====
-- kernel/bitmap.c: the kernel heap. One bit of a map stands for one 4 KB page; the map lies at the
-- start of the heap area, in the byte memory that it manages. Sums of `uint32_t` wrap at 2 ^ 32.
-- An index into the map is not checked by the code: a read at `map + i` is a read of memory there.
-- The lock is held throughout each call, so a call is one step here.
pub mod Pages
pub mod Scan
pub mod Mark
pub mod Malloc
pub mod Wrap
pub mod Free
pub mod Init
pub mod Realloc
pub mod Report
mod Examples
use test_os.Base.{
  ℕ, zero, suc, ◌+◌, ◌-◌, ◌*◌, ◌/◌, ◌%◌, ◌^◌, Bool, true, false, ◌&&◌, not, Option, none, some,
  bit_and, bit_or, ltb, ◌==◌, if◌then◌else◌,
}
use test_os.Base.Bits.{bit_not}
use test_os.Base.Memory.{Memory, store, store32, load32}
use test_os.Block.{memset, memcpy}

-- KERNEL_HEAP_BOTTOM of include/memory.h, where the map lies, and KERNEL_MAP_BASE_VADDR.
abbrev pub kernel_map_base_vaddr : ℕ
kernel_map_base_vaddr = 0x8000_0000

abbrev pub kernel_heap_bottom : ℕ
kernel_heap_bottom = 0x8040_0000

abbrev pub page : ℕ
page = 4 * 1024

abbrev pub malloc_magic : ℕ
malloc_magic = 0x5041_4548

abbrev pub free_magic : ℕ
free_magic = 0x7061_6568

abbrev pub word : ℕ
word = 2 ^ 32

-- `struct bitmap` without its constant `map`, beside the memory.
pub record Bitmap : Type 0 where
  pub map_size : ℕ
  pub bits_ptr : ℕ
  pub bits_start : ℕ
  pub bits_end : ℕ
  pub memory : Memory

unfoldable pub init_bitmap : Memory → ℕ → Bitmap
unfolding memset
init_bitmap m bytes_len =
    let left = (bytes_len + word - (kernel_heap_bottom - kernel_map_base_vaddr)) % word in
    let map_size = left / (8 * page + 1) in
    let bits_start = (kernel_heap_bottom + map_size) % word in
    record {
      map_size = map_size;
      bits_ptr = bits_start;
      bits_start = bits_start;
      bits_end = (bits_start + (left - map_size)) % word;
      memory = (memset m kernel_heap_bottom 0 map_size).1;
    }

-- `((bitmap.map[i] >> j) & 1) == 0`
abbrev pub is_free : Memory → ℕ → ℕ → Bool
is_free m i j = bit_and (m (kernel_heap_bottom + i) / 2 ^ j) 1 == 0

-- How a search ends: at the bit that completes a run, or with the loop variables behind the loop.
pub data Search : Type 0 where
  hit : (i j : ℕ) → Search
  miss : (j found : ℕ) → Search

-- `for (; j < 8; ++j)`, on the rounds left, for the byte `i`.
unfoldable pub scan_byte : ℕ → Memory → ℕ → ℕ → ℕ → ℕ → Search
scan_byte zero m size i j found = Search.miss j found
scan_byte (suc rounds) m size i j found =
    let found' = if is_free m i j then found + 1 else 0 in
    let rest = scan_byte rounds m size i (j + 1) found' in
    if found' == size then Search.hit i j else rest

-- `for (; i < len; ++i)`, on the rounds left.
unfoldable pub scan_map : ℕ → Memory → ℕ → ℕ → ℕ → ℕ → Search
unfolding scan_byte
scan_map zero m size i j found = Search.miss j found
scan_map (suc rounds) m size i j found = elim (scan_byte (8 - j) m size i j found) [
  | hit i' j' ↦ Search.hit i' j'
  | miss j' found' ↦ scan_map rounds m size (i + 1) 0 found'
]

-- `while (size > 0) { bitmap.map[i] |= 1 << j; … }`, at the address `p` of the byte `i`.
unfoldable pub mark : ℕ → Memory → ℕ → ℕ → Memory
mark zero m p j = m
mark (suc size) m p zero = mark size (store m p (bit_or (m p) (2 ^ 0))) (p - 1) 7
mark (suc size) m p (suc j) = mark size (store m p (bit_or (m p) (2 ^ suc j))) p j

-- The pages of a request: one byte in place of none, and eight bytes of header.
unfoldable pub request_pages : ℕ → ℕ
request_pages size =
    let bytes = ((if size == 0 then 1 else size) + 8) % word in
    bytes / page + (if bytes % page == 0 then 0 else 1)

-- The body of `if (found == size)`: the header, the next search position, the marks.
unfoldable pub take_run : Bitmap → ℕ → ℕ → ℕ → ℕ × Bitmap
unfolding mark
take_run b size i j =
    let alloc_size = (size * page) % word in
    let ret = (b.bits_start + (i * 8 + j + 1) * page + word - alloc_size) % word in
    let headed = store32 (store32 b.memory ret malloc_magic) (ret + 4) size in
    (
      (ret + 8) % word,
      record b {
        bits_ptr = (ret + alloc_size) % word;
        memory = mark size headed (kernel_heap_bottom + i) j;
      },
    )

-- The number of bytes that the second search looks at.
abbrev pub second_len : Bitmap → ℕ
second_len b =
    (b.map_size + word - ((b.bits_end + word - b.bits_ptr) % word) / (8 * page) - 1) % word

-- Behind the second search. Its `len` is not the size of the map, so there is no third.
unfoldable pub malloc_last : Bitmap → ℕ → Search → ℕ × Bitmap
unfolding take_run
malloc_last b size (hit i j) = take_run b size i j
malloc_last b size (miss _ _) = (0, b)

-- Behind the first search. The second starts at the first byte and goes on with the `j` and the
-- `found` of the first.
unfoldable pub malloc_next : Bitmap → ℕ → Search → ℕ × Bitmap
unfolding scan_map malloc_last
malloc_next b size (hit i j) = take_run b size i j
malloc_next b size (miss j found) =
    malloc_last (record b { bits_ptr = b.bits_start }) size
      (scan_map (second_len b) b.memory size 0 j found)

-- The first search, from the page of `bits_ptr` on.
unfoldable pub first_search : Bitmap → ℕ → Search
unfolding scan_map
first_search b size =
    let offset = (b.bits_ptr + word - b.bits_start) % word in
    let i = offset / (8 * page) in
    scan_map (b.map_size - i) b.memory size i (offset / page - i * 8) 0

-- The returned pointer, 0 for `NULL`, and the heap behind the call.
unfoldable pub bitmap_malloc : Bitmap → ℕ → ℕ × Bitmap
unfolding request_pages malloc_next first_search
bitmap_malloc b size = let pages = request_pages size in malloc_next b pages (first_search b pages)

-- How a round over the bits of one byte leaves `bitmap_free`: at `end`, or with the size left.
pub data Sweep : Type 0 where
  finished : Memory → Sweep
  remaining : Memory → ℕ → Sweep

-- `--size; if (size == 0)` on a `size_t`.
abbrev pub decrement : ℕ → ℕ
decrement size = (size + word - 1) % word

-- `for (; j < 8; ++j)` of `bitmap_free`.
unfoldable pub clear_byte : ℕ → Memory → ℕ → ℕ → ℕ → Sweep
clear_byte zero m size i j = Sweep.remaining m size
clear_byte (suc rounds) m size i j =
    let p = kernel_heap_bottom + i in
    let m' = store m p (bit_and (m p) (bit_not 32 (2 ^ j))) in
    let rest = clear_byte rounds m' (decrement size) i (j + 1) in
    if decrement size == 0 then Sweep.finished m' else rest

-- `for (; i < bitmap.map_size; ++i)` of `bitmap_free`.
unfoldable pub clear_map : ℕ → Memory → ℕ → ℕ → ℕ → Memory
unfolding clear_byte
clear_map zero m size i j = m
clear_map (suc rounds) m size i j = elim (clear_byte (8 - j) m size i j) [
  | finished m' ↦ m'
  | remaining m' size' ↦ clear_map rounds m' size' (i + 1) 0
]

-- `none` is the failed assertion on the magic number, which stops the kernel.
unfoldable pub bitmap_free : Bitmap → ℕ → Option Bitmap
unfolding clear_map
bitmap_free b addr =
    let start = (addr + word - 8) % word in
    let m = store32 b.memory start free_magic in
    let offset = (start + word - b.bits_start) % word in
    let i = offset / (8 * page) in
    let j = (offset + word - i * (page * 8)) % word / page in
    if load32 b.memory start == malloc_magic
    then some (record b { memory = clear_map (b.map_size - i) m (load32 m (start + 4)) i j })
    else none
