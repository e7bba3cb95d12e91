-- ===== src/Bitmap/Init.antt =====
-- `init_bitmap` of kernel/bitmap.c: the heap that the kernel starts with.
use test_os.Base.{ℕ, ◌+◌, ◌-◌, ◌*◌, ◌/◌, ◌%◌, ◌^◌, ◌≤◌, ◌<◌, ◌≡◌, refl, ap, arith}
use test_os.Base.Bits.{bit, bit-of-zero}
use test_os.Base.Memory.{Memory}
use test_os.Block.{memset}
use test_os.Block.Copy.{memset_lem}
use test_os.Bitmap.{kernel_heap_bottom, kernel_map_base_vaddr, page, word, init_bitmap}
use test_os.Bitmap.Pages.{used, RunFree}
use test_os.Bitmap.Malloc.{IsHeap, cursor}

-- KERNEL_HEAP_BOTTOM - KERNEL_MAP_BASE_VADDR, the memory that the kernel keeps for itself.
abbrev pub reserved : ℕ
reserved = kernel_heap_bottom - kernel_map_base_vaddr

module _ (m : Memory) (len : ℕ) (least : reserved ≤ len) (most : len < 2 ^ 31) where
  abbrev map_len : ℕ
  map_len = (len - reserved) / (8 * page + 1)

  left_lem : (len + word - reserved) % word ≡ len - reserved
  left_lem = omega arith

  start_lem : (kernel_heap_bottom + map_len) % word ≡ kernel_heap_bottom + map_len
  start_lem = omega arith

  end_lem :
      (kernel_heap_bottom + map_len + (len - reserved - map_len)) % word
      ≡ kernel_heap_bottom + (len - reserved)
  end_lem = omega arith

  init_bitmap_lem : init_bitmap m len ≡ record {
    map_size = map_len;
    bits_ptr = kernel_heap_bottom + map_len;
    bits_start = kernel_heap_bottom + map_len;
    bits_end = kernel_heap_bottom + (len - reserved);
    memory = (memset m kernel_heap_bottom 0 map_len).1;
  }
  unfolding init_bitmap
  init_bitmap_lem = rw (left_lem, start_lem, end_lem) refl

  cleared : (k : ℕ) → k < map_len * 8 → used (memset m kernel_heap_bottom 0 map_len).1 k ≡ 0
  unfolding used
  cleared k lt = ground (
    arith,
    bit-of-zero (k % 8),
    ap (λ (x : ℕ). bit x (k % 8))
        {x = (memset m kernel_heap_bottom 0 map_len).1 (kernel_heap_bottom + k / 8)} {y = 0}
        (ground
          (arith, (memset_lem map_len m kernel_heap_bottom 0 (kernel_heap_bottom + k / 8)).1)),
  )

  init_heap : IsHeap (init_bitmap m len)
  init_heap = rw init_bitmap_lem (record {
    start = refl;
    top = omega arith;
    ends = (omega arith, omega arith);
    from_start = omega arith;
    to_end = omega arith;
    at_page = omega arith;
  })

-- With the reserved 4 MB and less than 2 GB of memory, `init_bitmap` makes a well-formed heap that ends
-- with the memory and whose pages are all free, the search at the first; the map and the pages leave
-- less than a map byte and its eight pages of it unused.
pub init_bitmap-IsHeap :
    (m : Memory) (len : ℕ)
    → reserved ≤ len
    → len < 2 ^ 31
    → IsHeap (init_bitmap m len)
      × RunFree (init_bitmap m len).memory 0 ((init_bitmap m len).map_size * 8)
      × (cursor (init_bitmap m len) ≡ 0)
      × ((init_bitmap m len).bits_end ≡ kernel_map_base_vaddr + len)
      × (len < reserved + ((init_bitmap m len).map_size + 1) * (8 * page + 1))
init_bitmap-IsHeap m len least most = (
  init_heap m len least most,
  rw (init_bitmap_lem m len least most) (λ k _ lt. cleared m len least most k (omega arith)),
  rw (init_bitmap_lem m len least most) (omega arith),
  rw (init_bitmap_lem m len least most) (omega arith),
  rw (init_bitmap_lem m len least most) (omega arith),
)
