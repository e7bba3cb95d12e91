-- ===== src/Bitmap/Malloc.antt =====
-- `bitmap_malloc` of kernel/bitmap.c on a well-formed heap.
use test_os.Base.{
  subst₂, ℕ, ◌+◌, ◌-◌, ◌*◌, ◌/◌, ◌%◌, ◌^◌, ◌≤◌, ◌<◌, ◌≡◌, inr, refl, ◌∙◌, arith, ◌==◌,
  if◌then◌else◌,
}
use test_os.Base.Memory.{load32_pair, load32_frame, Memory, store32, load32, store32_ne, within}
use test_os.Bitmap.{
  Bitmap, kernel_heap_bottom, page, malloc_magic, word, mark, request_pages, take_run, Search, hit,
  miss, scan_map, malloc_next, first_search, bitmap_malloc,
}
use test_os.Bitmap.Pages.{used, RunFree, used-frame}
use test_os.Bitmap.Scan.{Outcome, scan_map-first}
use test_os.Bitmap.Mark.{used-mark, mark_frame}
use native.Mathlib.Decide.{dec_le}

-- The map lies before the pages, the pages end below 2 ^ 32, and the search position is at a page.
pub record IsHeap (b : Bitmap) : Type 0 where
  pub start : b.bits_start ≡ kernel_heap_bottom + b.map_size
  pub top : b.bits_start + b.map_size * (8 * page) < word
  pub ends : (b.bits_start + b.map_size * (8 * page) ≤ b.bits_end) × (b.bits_end < word)
  pub from_start : b.bits_start ≤ b.bits_ptr
  pub to_end : b.bits_ptr ≤ b.bits_start + b.map_size * (8 * page)
  pub at_page : (b.bits_ptr - b.bits_start) % page ≡ 0

-- The page of the search position.
abbrev pub cursor : Bitmap → ℕ
cursor b = (b.bits_ptr - b.bits_start) / page

-- `out` is the result of giving out the `pages` free pages from page `a` on.
pub record Given (b : Bitmap) (a pages : ℕ) (out : ℕ × Bitmap) : Type 0 where
  pub inside : a + pages ≤ b.map_size * 8
  pub was_free : RunFree b.memory a pages
  pub pointer : out.0 ≡ b.bits_start + a * page + 8
  pub taken :
      (k : ℕ)
      → k < b.map_size * 8
      → used out.1.memory k ≡ (if within a pages k then 1 else used b.memory k)
  pub magic : load32 out.1.memory (b.bits_start + a * page) ≡ malloc_magic
  pub length : load32 out.1.memory (b.bits_start + a * page + 4) ≡ pages
  pub heap : IsHeap out.1
  pub same_map :
      (out.1.map_size ≡ b.map_size)
      × (out.1.bits_start ≡ b.bits_start)
      × (out.1.bits_end ≡ b.bits_end)
  pub next : cursor out.1 ≡ a + pages

-- The pages of a request hold its bytes and the header, and no page too many.
pub request_pages_lem :
    (size : ℕ)
    → size + 8 < word
    → (0 < request_pages size)
      × (size + 8 ≤ request_pages size * page)
      × ((request_pages size - 1) * page < (if size == 0 then 1 else size) + 8)
      × (request_pages size < 2 ^ 21)
unfolding request_pages
request_pages_lem size h = (ground arith, ground arith, ground arith, ground arith)

module _ (b : Bitmap) (h : IsHeap b) (pages i j : ℕ) (p : 0 < pages) (low : j < 8)
    (fit : pages ≤ i * 8 + j + 1) (lim : i < b.map_size) where
  abbrev pub first_page : ℕ
  first_page = i * 8 + j + 1 - pages

  abbrev pub block : ℕ
  block = b.bits_start + first_page * page

  abbrev pub headed : Memory
  headed = store32 (store32 b.memory block malloc_magic) (block + 4) pages

  small : pages < 2 ^ 19
  small = omega (arith, h.top, h.start)

  ret_lem : (b.bits_start + (i * 8 + j + 1) * page + word - (pages * page) % word) % word ≡ block
  ret_lem = omega (arith, h.top, h.start, small)

  behind_header : (block + 8) % word ≡ block + 8
  behind_header = omega (arith, h.top, h.start)

  behind_run : (block + (pages * page) % word) % word ≡ block + pages * page
  behind_run = omega (arith, h.top, h.start, small)

  headed_frame : (q : ℕ) → q < b.bits_start → headed q ≡ b.memory q
  headed_frame q lt =
      store32_ne (store32 b.memory block malloc_magic) (block + 4) pages q (ground arith)
      ∙ store32_ne b.memory block malloc_magic q (ground arith)

  marked_frame :
      (q : ℕ) → b.bits_start ≤ q → mark pages headed (kernel_heap_bottom + i) j q ≡ headed q
  marked_frame q le = mark_frame pages headed i j q low fit (inr (omega (arith, h.start)))

  used-marked :
      (k : ℕ)
      → k < b.map_size * 8
      → used (mark pages headed (kernel_heap_bottom + i) j) k
        ≡ (if within first_page pages k then 1 else used b.memory k)
  used-marked k lt = ground (
    arith,
    used-mark pages headed i j k low fit,
    used-frame b.memory headed k
        (headed_frame (kernel_heap_bottom + k / 8) (omega (arith, h.start))),
  )

  pub take_run_lem : take_run b pages i j ≡ (
    block + 8,
    record b {
      bits_ptr = block + pages * page;
      memory = mark pages headed (kernel_heap_bottom + i) j;
    },
  )
  unfolding take_run
  take_run_lem = rw (ret_lem, behind_header, behind_run)

  pub take_run-Given :
      RunFree b.memory first_page pages → Given b first_page pages (take_run b pages i j)
  take_run-Given free =
      let words =
        load32_pair b.memory block malloc_magic pages (omega arith) (omega (arith, small)) in
      let m' = mark pages headed (kernel_heap_bottom + i) j in
      rw take_run_lem (record {
        inside = omega arith;
        was_free = free;
        pointer = refl;
        taken = used-marked;
        magic = load32_frame headed m' block (λ q le lt. marked_frame q (omega arith)) ∙ words.0;
        length =
            load32_frame headed m' (block + 4) (λ q le lt. marked_frame q (omega arith)) ∙ words.1;
        heap = record {
          start = h.start;
          top = h.top;
          ends = h.ends;
          from_start = omega arith;
          to_end = omega arith;
          at_page = omega arith;
        };
        same_map = (refl, refl, refl);
        next = omega arith;
      })

pub run_broken :
    (m : Memory) (a n : ℕ) → RunFree m a n → ((k : ℕ) × (a ≤ k) × (k < a + n) × (used m k ≡ 1)) → ⊥
run_broken m a n free (k, le, lt, e) = omega (arith, free k le lt)

-- The start of the search in the terms of the map: byte and bit of the cursor.
module _ (b : Bitmap) (h : IsHeap b) where
  offset_lem : (b.bits_ptr + word - b.bits_start) % word ≡ b.bits_ptr - b.bits_start
  offset_lem = omega (arith, h.top, h.start, h.from_start, h.to_end)

  -- `bitmap_malloc` searches from the cursor to the end of the map, with nothing found yet.
  pub first_search-Outcome :
      (pages : ℕ)
      → 0 < pages
      → Outcome b.memory pages (cursor b) 0 (b.map_size * 8) (first_search b pages)
  unfolding first_search
  first_search-Outcome pages p =
      let i = (b.bits_ptr - b.bits_start) / (8 * page) in
      let j = (b.bits_ptr - b.bits_start) / page - i * 8 in
      let rounds = b.map_size - i in
      let from : i * 8 + j ≡ cursor b = omega arith in
      let to : (i + rounds) * 8 ≡ b.map_size * 8 = omega (arith, h.to_end) in
      rw offset_lem (
        subst₂ (λ lo e. Outcome b.memory pages lo 0 e (scan_map rounds b.memory pages i j 0)) from
          to (scan_map-first b.memory pages rounds i j p (omega arith) (omega (arith, h.to_end))))

  -- A first search that hits gives out a run.
  malloc_next-Given :
      (pages a : ℕ) (r : Search)
      → 0 < pages
      → cursor b ≤ a
      → a + pages ≤ b.map_size * 8
      → RunFree b.memory a pages
      → Outcome b.memory pages (cursor b) 0 (b.map_size * 8) r
      → (a' : ℕ) × (cursor b ≤ a') × (a' ≤ a) × Given b a' pages (malloc_next b pages r)
  unfolding malloc_next
  malloc_next-Given pages a (hit i j) p from to free (found, below) = (
    i * 8 + j + 1 - pages,
    omega (arith, found.fits),
    elim (dec_le (a + pages) (i * 8 + j)) [
      | yes le ↦ absurd (run_broken b.memory a pages free (found.first a from le))
      | no gt ↦ omega arith
    ],
    take_run-Given b h pages i j p found.bit (omega (arith, found.fits)) (omega arith) found.free,
  )
  malloc_next-Given pages a (miss j found) p from to free (_, t) =
      absurd (run_broken b.memory a pages free (t.none_before a from to))

-- If a run of free pages that serves the request lies between the search position and the end of the
-- map, `bitmap_malloc` gives out the first such run: it marks its pages and no other, writes its magic
-- number and its length before the returned address, and goes on searching behind it.
pub bitmap_malloc-Given :
    (b : Bitmap) (size a : ℕ)
    → IsHeap b
    → size + 8 < word
    → cursor b ≤ a
    → a + request_pages size ≤ b.map_size * 8
    → RunFree b.memory a (request_pages size)
    → (a' : ℕ) × (cursor b ≤ a') × (a' ≤ a) × Given b a' (request_pages size) (bitmap_malloc b size)
unfolding bitmap_malloc
bitmap_malloc-Given b size a h bound from to free =
    let p = (request_pages_lem size bound).0 in
    malloc_next-Given b h (request_pages size) a (first_search b (request_pages size)) p from to
      free (first_search-Outcome b h (request_pages size) p)
