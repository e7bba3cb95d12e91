-- ===== src/Bitmap/Free.antt =====
-- `bitmap_free` of kernel/bitmap.c, and what it makes of a block that `bitmap_malloc` gave out.
use test_os.Base.{
  ℕ, ◌+◌, ◌-◌, ◌*◌, ◌/◌, ◌%◌, ◌^◌, ◌≤◌, ◌<◌, ◌≡◌, refl, ap, sym, ◌∙◌, subst, arith, ◌==◌,
  if◌then◌else◌, true, some,
}
use test_os.Base.Memory.{Memory, store32, load32, load32_frame, store32_ne, within}
use test_os.Bitmap.{
  request_pages, Bitmap, kernel_heap_bottom, page, word, malloc_magic, free_magic, clear_map,
  bitmap_malloc, bitmap_free,
}
use test_os.Bitmap.Pages.{used, RunFree, used-frame}
use test_os.Bitmap.Mark.{used-clear_map}
use test_os.Bitmap.Malloc.{cursor, request_pages_lem, bitmap_malloc-Given, IsHeap, Given}

-- A block of `n` pages from page `a` on stands in the heap, with its header.
pub record IsBlock (b : Bitmap) (a n : ℕ) : Type 0 where
  pub some_page : 0 < n
  pub inside : a + n ≤ b.map_size * 8
  pub magic : load32 b.memory (b.bits_start + a * page) ≡ malloc_magic
  pub length : load32 b.memory (b.bits_start + a * page + 4) ≡ n

module _ (b : Bitmap) (h : IsHeap b) (a n : ℕ) (block : IsBlock b a n) where
  abbrev start : ℕ
  start = b.bits_start + a * page

  abbrev released : Memory
  released = store32 b.memory start free_magic

  small : n < 2 ^ 32
  small = omega (arith, h.top, h.start, block.inside)

  header : (start + 8 + word - 8) % word ≡ start
  header = omega (arith, h.top, h.start, block.inside, block.some_page)

  offset : (start + word - b.bits_start) % word ≡ a * page
  offset = omega (arith, h.top, h.start, block.inside, block.some_page)

  bit_index : (a * page + word - a * page / (8 * page) * (page * 8)) % word / page ≡ a % 8
  bit_index = omega (arith, h.top, h.start, block.inside, block.some_page)

  byte_index : a * page / (8 * page) ≡ a / 8
  byte_index = omega arith

  kept_length : load32 released (start + 4) ≡ n
  kept_length =
      load32_frame b.memory released (start + 4)
        (λ q le lt. store32_ne b.memory start free_magic q (ground arith))
      ∙ block.length

  has_magic : (load32 b.memory start == malloc_magic) ≡ true
  has_magic = ground (arith, block.magic)

  bitmap_free_lem :
      bitmap_free b (start + 8)
      ≡ some (record b { memory = clear_map (b.map_size - a / 8) released n (a / 8) (a % 8) })
  unfolding bitmap_free
  bitmap_free_lem = rw (header, offset, bit_index, byte_index, kept_length, has_magic) refl

  freed :
      (k : ℕ)
      → k < b.map_size * 8
      → used (clear_map (b.map_size - a / 8) released n (a / 8) (a % 8)) k
        ≡ (if within a n k then 0 else used b.memory k)
  freed k lt = ground (
    arith,
    used-clear_map (b.map_size - a / 8) released n (a / 8) (a % 8) k block.some_page small
        (omega arith) (omega (arith, block.inside)),
    used-frame b.memory released k (
        store32_ne b.memory start free_magic (kernel_heap_bottom + k / 8)
          (ground (arith, h.start))),
  )

-- Freeing a block that stands in the heap succeeds: exactly its pages become free, and the size, the
-- start and the end of the map and the search position stay.
pub bitmap_free-IsBlock :
    (b : Bitmap) (a n : ℕ)
    → IsHeap b
    → IsBlock b a n
    → (b' : Bitmap) × (bitmap_free b (b.bits_start + a * page + 8) ≡ some b')
      × IsHeap b'
      × ((k : ℕ)
          → k < b.map_size * 8
          → used b'.memory k ≡ (if within a n k then 0 else used b.memory k))
      × (b'.map_size ≡ b.map_size)
      × (b'.bits_start ≡ b.bits_start)
      × (b'.bits_ptr ≡ b.bits_ptr)
      × (b'.bits_end ≡ b.bits_end)
bitmap_free-IsBlock b a n h block = (
  record b { memory = clear_map (b.map_size - a / 8) (released b h a n block) n (a / 8) (a % 8) },
  bitmap_free_lem b h a n block,
  record {
    start = h.start;
    top = h.top;
    ends = h.ends;
    from_start = h.from_start;
    to_end = h.to_end;
    at_page = h.at_page;
  },
  freed b h a n block,
  refl,
  refl,
  refl,
  refl,
)

Given-IsBlock :
    (b : Bitmap) (a pages : ℕ) (out : ℕ × Bitmap)
    → 0 < pages
    → Given b a pages out
    → IsBlock out.1 a pages
Given-IsBlock b a pages out p g = record {
  some_page = p;
  inside = omega (arith, g.inside, g.same_map.0);
  magic = subst (λ s. load32 out.1.memory (s + a * page) ≡ malloc_magic) (sym g.same_map.1) g.magic;
  length = subst (λ s. load32 out.1.memory (s + a * page + 4) ≡ pages) (sym g.same_map.1) g.length;
}

release :
    (b : Bitmap) (a pages : ℕ) (out : ℕ × Bitmap)
    → 0 < pages
    → Given b a pages out
    → (b' : Bitmap) × (bitmap_free out.1 out.0 ≡ some b')
      × IsHeap b'
      × ((k : ℕ) → k < b.map_size * 8 → used b'.memory k ≡ used b.memory k)
release b a pages out p g =
    let (b', ran, heap, pages_back, _, _, _, _) =
      bitmap_free-IsBlock out.1 a pages g.heap (Given-IsBlock b a pages out p g) in
    (
      b',
      ap (bitmap_free out.1) {x = out.0} {y = out.1.bits_start + a * page + 8}
            (omega (arith, g.pointer, g.same_map.1))
          ∙ ran,
      heap,
      λ k lt.
          ground (arith, pages_back k (omega (arith, g.same_map.0)), g.taken k lt, g.was_free k),
    )

-- Where a free run that serves the request lies behind the search position, freeing what
-- `bitmap_malloc` returns succeeds and gives the map back page for page.
pub bitmap_free-bitmap_malloc :
    (b : Bitmap) (size a : ℕ)
    → IsHeap b
    → size + 8 < word
    → cursor b ≤ a
    → a + request_pages size ≤ b.map_size * 8
    → RunFree b.memory a (request_pages size)
    → (b' : Bitmap) × (bitmap_free (bitmap_malloc b size).1 (bitmap_malloc b size).0 ≡ some b')
      × IsHeap b'
      × ((k : ℕ) → k < b.map_size * 8 → used b'.memory k ≡ used b.memory k)
bitmap_free-bitmap_malloc b size a h bound from to free =
    let (a', _, _, given) = bitmap_malloc-Given b size a h bound from to free in
    release b a' (request_pages size) (bitmap_malloc b size) (request_pages_lem size bound).0 given
