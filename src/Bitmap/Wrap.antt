-- ===== src/Bitmap/Wrap.antt =====
-- The second search of `bitmap_malloc`, from the start of the map, and what it makes of the free
-- pages that the first search has counted at the end of the map (kernel/bitmap.c, from `end` on).
use test_os.Base.{
  subst₂, ℕ, zero, suc, ◌+◌, ◌-◌, ◌*◌, ◌/◌, ◌≤◌, ◌<◌, ◌≡◌, ◌⊎◌, inl, inr, refl, arith,
}
use test_os.Base.Memory.{Memory}
use test_os.Bitmap.{
  scan_byte, Bitmap, page, word, request_pages, take_run, Search, hit, miss, scan_map, second_len,
  malloc_next, malloc_last, first_search, bitmap_malloc,
}
use test_os.Bitmap.Pages.{is_free-used, used, RunFree}
use test_os.Bitmap.Scan.{Tracked, Outcome, scan_map-first}
use test_os.Bitmap.Malloc.{
  IsHeap, Given, cursor, request_pages_lem, run_broken, take_run-Given, first_search-Outcome,
}
use native.Mathlib.Decide.{dec_lt}

-- Some page of each run of `n` pages from `lo` up to `hi` is in use.
abbrev pub NoRun : Memory → ℕ → ℕ → ℕ → Type 0
NoRun m n lo hi = (a : ℕ) → lo ≤ a → a + n ≤ hi → (k : ℕ) × (a ≤ k) × (k < a + n) × (used m k ≡ 1)

-- The heap with the search position at the start.
abbrev pub rewound : Bitmap → Bitmap
rewound b = record b { bits_ptr = b.bits_start }

-- The bytes before the search position that the second search looks at.
abbrev pub behind : Bitmap → ℕ
behind b = b.map_size - (b.bits_end - b.bits_ptr) / (8 * page) - 1

module _ (b : Bitmap) (h : IsHeap b) where
  rewound-IsHeap : IsHeap (rewound b)
  rewound-IsHeap = record {
    start = h.start;
    top = h.top;
    ends = h.ends;
    from_start = omega arith;
    to_end = omega arith;
    at_page = omega arith;
  }

  second_len_lem : (b.bits_end - b.bits_ptr) / (8 * page) < b.map_size → second_len b ≡ behind b
  second_len_lem w = omega (arith, h.top, h.start, h.from_start, h.to_end, h.ends)

  -- The second search, if the first has counted no page.
  Settles : ℕ → ℕ × Bitmap → Type 0
  Settles pages out =
      ((a : ℕ) × (a + pages ≤ behind b * 8) × Given b a pages out)
      ⊎ ((out ≡ (0, rewound b)) × NoRun b.memory pages 0 (behind b * 8))

  malloc_last-Settles :
      (pages : ℕ) (r : Search)
      → 0 < pages
      → behind b < b.map_size
      → Outcome b.memory pages 0 0 (behind b * 8) r
      → Settles pages (malloc_last (rewound b) pages r)
  unfolding malloc_last Settles
  malloc_last-Settles pages (hit i j) p w (found, below) =
      let given =
        take_run-Given (rewound b) rewound-IsHeap pages i j p found.bit (omega (arith, found.fits))
          (omega arith) found.free in
      inl (
        i * 8 + j + 1 - pages,
        omega (arith, found.fits),
        record {
          inside = given.inside;
          was_free = given.was_free;
          pointer = given.pointer;
          taken = given.taken;
          magic = given.magic;
          length = given.length;
          heap = given.heap;
          same_map = given.same_map;
          next = given.next;
        },
      )
  malloc_last-Settles pages (miss j found) p w (_, t) = inr (refl, t.none_before)

  malloc_next-Settles :
      (pages : ℕ) (r : Search)
      → 0 < pages
      → (b.bits_end - b.bits_ptr) / (8 * page) < b.map_size
      → NoRun b.memory pages (cursor b) (b.map_size * 8)
      → used b.memory (b.map_size * 8 - 1) ≡ 1
      → Outcome b.memory pages (cursor b) 0 (b.map_size * 8) r
      → Settles pages (malloc_next b pages r)
  unfolding malloc_next
  malloc_next-Settles pages (hit i j) p w none_free full (found, below) = absurd (
      run_broken b.memory (i * 8 + j + 1 - pages) pages found.free
        (none_free (i * 8 + j + 1 - pages) (omega (arith, found.fits)) (omega (arith, found.fits))))
  malloc_next-Settles pages (miss j found) p w none_free full (at, t) =
      rw (at, none_counted, second_len_lem w)
        (malloc_last-Settles pages (scan_map (behind b) b.memory pages 0 0 0) p (omega arith)
          second)
    where
      none_counted : found ≡ 0
      none_counted = elim (dec_lt 0 found) [
        | yes lt ↦
            absurd (
              omega
                (arith, full, t.free (b.map_size * 8 - 1) (omega arith) (omega (arith, t.fits))))
        | no ge ↦ omega arith
      ]

      second : Outcome b.memory pages 0 0 (behind b * 8) (scan_map (behind b) b.memory pages 0 0 0)
      second =
          let from : 0 * 8 + 0 ≡ 0 = omega arith in
          let to : (0 + behind b) * 8 ≡ behind b * 8 = omega arith in
          subst₂ (λ lo e. Outcome b.memory pages lo 0 e (scan_map (behind b) b.memory pages 0 0 0))
            from to (scan_map-first b.memory pages (behind b) 0 0 p (omega arith) (omega arith))

-- If no run behind the search position serves the request, the last page of the map is in use and the
-- map has more bytes than there are full 32 KB from the search position to the end, `bitmap_malloc`
-- looks at as many bytes from the start of the map as it has more, less one: it gives out a run that
-- lies there, or returns `NULL`, changes only the search position, and there is no such run.
pub bitmap_malloc-again :
    (b : Bitmap) (size : ℕ)
    → IsHeap b
    → size + 8 < word
    → (b.bits_end - b.bits_ptr) / (8 * page) < b.map_size
    → NoRun b.memory (request_pages size) (cursor b) (b.map_size * 8)
    → used b.memory (b.map_size * 8 - 1) ≡ 1
    → ((a : ℕ) × (a + request_pages size ≤ behind b * 8)
        × Given b a (request_pages size) (bitmap_malloc b size))
      ⊎ ((bitmap_malloc b size ≡ (0, rewound b))
          × NoRun b.memory (request_pages size) 0 (behind b * 8))
unfolding bitmap_malloc Settles
bitmap_malloc-again b size h bound w none_free full =
    let p = (request_pages_lem size bound).0 in
    malloc_next-Settles b h (request_pages size) (first_search b (request_pages size)) p w none_free
      full (first_search-Outcome b h (request_pages size) p)

-- A count of `n` that goes on at a free first page.
first_bit : (m : Memory) (n : ℕ) → used m 0 ≡ 0 → scan_byte 8 m (n + 1) 0 0 n ≡ Search.hit 0 0
unfolding scan_byte
first_bit m n free = ground (arith, is_free-used m 0 0 (omega arith))

carried_hit :
    (len : ℕ) (m : Memory) (n : ℕ)
    → 0 < len
    → used m 0 ≡ 0
    → scan_map len m (n + 1) 0 0 n ≡ Search.hit 0 0
unfolding scan_map
carried_hit zero m n p free = absurd (omega arith)
carried_hit (suc len) m n p free = rw (first_bit m n free, scan_map) refl

module _ (b : Bitmap) (h : IsHeap b) (n : ℕ) (small : 0 < n) where
  below_lem :
      n + 1 ≤ b.map_size * 8 → (take_run (rewound b) (n + 1) 0 0).0 + n * page ≡ b.bits_start + 8
  unfolding take_run
  below_lem fit = omega (arith, h.top, h.start)

  counted :
      (found : ℕ)
      → cursor b + n ≤ b.map_size * 8
      → RunFree b.memory (b.map_size * 8 - n) n
      → Tracked b.memory (n + 1) (cursor b) (b.map_size * 8) found
      → found ≡ n
  counted found fit free t = elim (dec_lt found n) [
    | no ge ↦ omega (arith, t.short)
    | yes lt ↦ elim t.longest [
      | inl all ↦ omega arith
      | inr (less, full) ↦
          absurd
            (omega (arith, full, free (b.map_size * 8 - found - 1) (omega arith) (omega arith)))
    ]
  ]

  malloc_next-below :
      (r : Search)
      → cursor b + n ≤ b.map_size * 8
      → (b.bits_end - b.bits_ptr) / (8 * page) + 1 < b.map_size
      → NoRun b.memory (n + 1) (cursor b) (b.map_size * 8)
      → RunFree b.memory (b.map_size * 8 - n) n
      → used b.memory 0 ≡ 0
      → Outcome b.memory (n + 1) (cursor b) 0 (b.map_size * 8) r
      → (malloc_next b (n + 1) r).0 + n * page ≡ b.bits_start + 8
  unfolding malloc_next malloc_last
  malloc_next-below (hit i j) fit w none_free free first (found, below) = absurd (
      run_broken b.memory (i * 8 + j + 1 - (n + 1)) (n + 1) found.free (
        none_free (i * 8 + j + 1 - (n + 1)) (omega (arith, found.fits))
          (omega (arith, found.fits))))
  malloc_next-below (miss j found) fit w none_free free first (at, t) =
      let room : 0 < second_len b = omega (arith, second_len_lem b h (omega arith)) in
      rw (at, counted found fit free t, carried_hit (second_len b) b.memory n room first)
        (below_lem (omega arith))

-- Where the first search ends on `n > 0` free pages, the first page of the map is free and the second
-- search has a byte to look at (the map has more bytes than the full 32 KB from the search position to
-- the end, and one more), a request for `n + 1` pages that no run behind the search position serves is
-- answered by the address `n` pages below the start of the pages (plus the header): the count of the
-- first search goes on in the second.
pub bitmap_malloc-below :
    (b : Bitmap) (size n : ℕ)
    → IsHeap b
    → size + 8 < word
    → request_pages size ≡ n + 1
    → 0 < n
    → cursor b + n ≤ b.map_size * 8
    → (b.bits_end - b.bits_ptr) / (8 * page) + 1 < b.map_size
    → NoRun b.memory (n + 1) (cursor b) (b.map_size * 8)
    → RunFree b.memory (b.map_size * 8 - n) n
    → used b.memory 0 ≡ 0
    → (bitmap_malloc b size).0 + n * page ≡ b.bits_start + 8
unfolding bitmap_malloc
bitmap_malloc-below b size n h bound pages p fit w none_free free first = rw pages (
    malloc_next-below b h n p (first_search b (n + 1)) fit w none_free free first
      (first_search-Outcome b h (n + 1) (omega arith)))
