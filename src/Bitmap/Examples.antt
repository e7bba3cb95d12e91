-- ===== src/Bitmap/Examples.antt =====
-- Runs of the heap, and the theorems about it at concrete heaps of sixteen pages.
use test_os.Base.{
  ℕ, ◌+◌, ◌-◌, ◌*◌, ◌%◌, ◌≤◌, ◌<◌, ◌≡◌, ◌⊎◌, refl, sym, subst, arith, if◌then◌else◌, some,
}
use test_os.Base.Bits.{bit-of-zero}
use test_os.Base.Memory.{Memory, store, store32, within}
use test_os.Bitmap.{
  Bitmap, kernel_heap_bottom, kernel_map_base_vaddr, page, malloc_magic, request_pages, init_bitmap,
  bitmap_malloc, bitmap_free,
}
use test_os.Bitmap.Pages.{used, RunFree}
use test_os.Bitmap.Malloc.{IsHeap, Given, cursor, bitmap_malloc-Given}
use test_os.Bitmap.Wrap.{NoRun, behind, rewound, bitmap_malloc-again, bitmap_malloc-below}
use test_os.Bitmap.Free.{IsBlock, bitmap_free-IsBlock, bitmap_free-bitmap_malloc}
use test_os.Bitmap.Init.{reserved, init_bitmap-IsHeap}
use test_os.Bitmap.Realloc.{bitmap_realloc, bitmap_realloc-IsBlock}
use native.Mathlib.Decide.{dec_le}

abbrev zeros : Memory
zeros = λ q. 0

-- Sixteen pages, with the search at page `k`.
abbrev heap : Memory → ℕ → Bitmap
heap m k = record {
  map_size = 2;
  bits_ptr = kernel_heap_bottom + 2 + k * page;
  bits_start = kernel_heap_bottom + 2;
  bits_end = kernel_heap_bottom + 2 + 16 * page;
  memory = m;
}

heap-IsHeap : (m : Memory) (k : ℕ) → k ≤ 16 → IsHeap (heap m k)
heap-IsHeap m k h = record {
  start = refl;
  top = omega arith;
  ends = (omega arith, omega arith);
  from_start = omega arith;
  to_end = omega arith;
  at_page = omega arith;
}

zeros-free : (a n : ℕ) → RunFree zeros a n
unfolding used
zeros-free a n k from to = bit-of-zero (k % 8)

-- The second eight pages are in use, less the last.
abbrev ragged : Memory
ragged = store zeros (kernel_heap_bottom + 1) 0x7f

-- The last eight pages are in use.
abbrev full_end : Memory
full_end = store zeros (kernel_heap_bottom + 1) 0xff

abbrev one_block : Memory
one_block =
    store32
      (store32 (store zeros kernel_heap_bottom 6) (kernel_heap_bottom + 2 + 1 * page) malloc_magic)
      (kernel_heap_bottom + 2 + 1 * page + 4) 2

two_pages : request_pages 5000 ≡ 2
unfolding request_pages
two_pages = refl

-- The first request gets the first page, and the second the next two.
first_pages :
    ((bitmap_malloc (heap zeros 0) 100).0 ≡ kernel_heap_bottom + 2 + 8)
    × ((bitmap_malloc (bitmap_malloc (heap zeros 0) 100).1 5000).0
        ≡ kernel_heap_bottom + 2 + page + 8)
unfolding bitmap_malloc
first_pages = (refl, refl)

-- A request for two pages where the last page and the first are free gets an address below the heap.
below_heap : (bitmap_malloc (heap ragged 12) 4096).0 ≡ kernel_heap_bottom + 2 - page + 8
unfolding bitmap_malloc
below_heap = refl

init_bitmap-IsHeap_example :
    IsHeap (init_bitmap zeros (reserved + 100000))
    × RunFree
        (init_bitmap zeros (reserved + 100000)).memory
        0
        ((init_bitmap zeros (reserved + 100000)).map_size * 8)
    × (cursor (init_bitmap zeros (reserved + 100000)) ≡ 0)
    × ((init_bitmap zeros (reserved + 100000)).bits_end
        ≡ kernel_map_base_vaddr + (reserved + 100000))
    × (reserved + 100000
        < reserved + ((init_bitmap zeros (reserved + 100000)).map_size + 1) * (8 * page + 1))
init_bitmap-IsHeap_example =
    init_bitmap-IsHeap zeros (reserved + 100000) (omega arith) (omega arith)

bitmap_malloc-Given_example :
    (a' : ℕ) × (cursor (heap zeros 3) ≤ a')
    × (a' ≤ 3)
    × Given (heap zeros 3) a' (request_pages 5000) (bitmap_malloc (heap zeros 3) 5000)
bitmap_malloc-Given_example =
    bitmap_malloc-Given (heap zeros 3) 5000 3 (heap-IsHeap zeros 3 (omega arith)) (omega arith)
      (omega arith) (omega (arith, two_pages)) (zeros-free 3 (request_pages 5000))

last_page : NoRun full_end (request_pages 100) (cursor (heap full_end 15)) 16
unfolding request_pages used
last_page a from to = (15, omega arith, omega arith, refl)

bitmap_malloc-again_example :
    ((a : ℕ) × (a + request_pages 100 ≤ behind (heap full_end 15) * 8)
      × Given (heap full_end 15) a (request_pages 100) (bitmap_malloc (heap full_end 15) 100))
    ⊎ ((bitmap_malloc (heap full_end 15) 100 ≡ (0, rewound (heap full_end 15)))
        × NoRun full_end (request_pages 100) 0 (behind (heap full_end 15) * 8))
unfolding used
bitmap_malloc-again_example =
    bitmap_malloc-again (heap full_end 15) 100 (heap-IsHeap full_end 15 (omega arith)) (omega arith)
      (omega arith) last_page refl

ragged_end : NoRun ragged 2 12 16
unfolding used
ragged_end a from to = elim (dec_le a 13) [
  | yes le ↦ (13, omega arith, omega arith, refl)
  | no gt ↦ (14, omega arith, omega arith, refl)
]

ragged_last : RunFree ragged 15 1
unfolding used
ragged_last k from to = let e : k ≡ 15 = omega arith in subst (λ t. used ragged t ≡ 0) (sym e) refl

bitmap_malloc-below_example :
    (bitmap_malloc (heap ragged 12) 4096).0 + 1 * page ≡ kernel_heap_bottom + 2 + 8
unfolding request_pages used
bitmap_malloc-below_example =
    bitmap_malloc-below (heap ragged 12) 4096 1 (heap-IsHeap ragged 12 (omega arith)) (omega arith)
      refl (omega arith) (omega arith) (omega arith) ragged_end ragged_last refl

one_block-IsBlock : IsBlock (heap one_block 3) 1 2
one_block-IsBlock = record {
  some_page = omega arith;
  inside = omega arith;
  magic = refl;
  length = refl;
}

bitmap_free-IsBlock_example :
    (b' : Bitmap) × (bitmap_free (heap one_block 3) (kernel_heap_bottom + 2 + 1 * page + 8)
      ≡ some b')
    × IsHeap b'
    × ((k : ℕ) → k < 2 * 8 → used b'.memory k ≡ (if within 1 2 k then 0 else used one_block k))
    × (b'.map_size ≡ 2)
    × (b'.bits_start ≡ kernel_heap_bottom + 2)
    × (b'.bits_ptr ≡ kernel_heap_bottom + 2 + 3 * page)
    × (b'.bits_end ≡ (heap one_block 3).bits_end)
bitmap_free-IsBlock_example =
    bitmap_free-IsBlock (heap one_block 3) 1 2 (heap-IsHeap one_block 3 (omega arith))
      one_block-IsBlock

bitmap_free-bitmap_malloc_example :
    (b' : Bitmap) × (bitmap_free
        (bitmap_malloc (heap zeros 3) 5000).1
        (bitmap_malloc (heap zeros 3) 5000).0
      ≡ some b')
    × IsHeap b'
    × ((k : ℕ) → k < 2 * 8 → used b'.memory k ≡ used zeros k)
bitmap_free-bitmap_malloc_example =
    bitmap_free-bitmap_malloc (heap zeros 3) 5000 3 (heap-IsHeap zeros 3 (omega arith))
      (omega arith) (omega arith) (omega (arith, two_pages)) (zeros-free 3 (request_pages 5000))

bitmap_realloc-IsBlock_example :
    (bitmap_realloc (heap one_block 3) (kernel_heap_bottom + 2 + 1 * page + 8) 8190
      ≡ some (kernel_heap_bottom + 2 + 1 * page + 8, heap one_block 3))
    × (2 * page < 8190 + 8
        → kernel_heap_bottom + 2 + (1 + 2) * page < kernel_heap_bottom + 2 + 1 * page + 8 + 8190)
bitmap_realloc-IsBlock_example =
    bitmap_realloc-IsBlock (heap one_block 3) 1 2 8190 (heap-IsHeap one_block 3 (omega arith))
      one_block-IsBlock (omega arith) (omega arith)
