-- ===== src/Bitmap/Report.antt =====
-- `print_mem` of kernel/bitmap.c: the numbers it prints.
use test_os.Base.{ℕ, zero, suc, ◌+◌, ◌*◌, ◌/◌, ◌%◌, ◌≤◌, ◌≡◌, refl, ap, arith, if◌then◌else◌}
use test_os.Base.Memory.{Memory}
use test_os.Bitmap.{Bitmap, page, word, is_free}
use test_os.Bitmap.Pages.{used, used-lt, is_free-used}
use test_os.Bitmap.Malloc.{IsHeap}

-- The counters `free` and `used`.
pub record Tally : Type 0 where
  pub free : ℕ
  pub taken : ℕ

-- `for (j = 0; j < 8; ++j)`, on the rounds left.
unfoldable pub tally_byte : ℕ → Memory → ℕ → ℕ → Tally → Tally
tally_byte zero m i j t = t
tally_byte (suc rounds) m i j t =
    tally_byte rounds m i (j + 1)
      (if is_free m i j then record t { free = t.free + 1 } else record t { taken = t.taken + 1 })

-- `for (i = total - 1; i >= 0; --i)`, on the bytes left.
unfoldable pub tally_map : ℕ → Memory → Tally → Tally
tally_map zero m t = t
tally_map (suc i) m t = tally_map i m (tally_byte 8 m i 0 t)

-- The three printed numbers: KB in all, free and used.
unfoldable pub print_mem : Bitmap → ℕ × ℕ × ℕ
unfolding tally_map
print_mem b =
    let t = tally_map b.map_size b.memory (record { free = 0; taken = 0 }) in
    (
      (b.map_size * (page * 8)) % word / 1024,
      (t.free * page) % word / 1024,
      (t.taken * page) % word / 1024,
    )

-- The number of pages in use among the first `n`.
unfoldable pub pages_used : ℕ → Memory → ℕ
unfolding used
pages_used zero m = 0
pages_used (suc n) m = pages_used n m + used m n

pages_used-zero : (m : Memory) → pages_used 0 m ≡ 0
unfolding pages_used
pages_used-zero m = refl

pages_used-suc : (n : ℕ) (m : Memory) → pages_used (suc n) m ≡ pages_used n m + used m n
unfolding pages_used
pages_used-suc n m = refl

tally_byte_lem :
    (rounds : ℕ) (m : Memory) (i j : ℕ) (t : Tally)
    → j + rounds ≤ 8
    → ((tally_byte rounds m i j t).taken + pages_used (i * 8 + j) m
        ≡ t.taken + pages_used (i * 8 + j + rounds) m)
      × ((tally_byte rounds m i j t).free + (tally_byte rounds m i j t).taken
          ≡ t.free + t.taken + rounds)
unfolding tally_byte
tally_byte_lem zero m i j t h = (
  ground (arith, ap (λ (n : ℕ). pages_used n m) {x = i * 8 + j + 0} {y = i * 8 + j}),
  omega arith,
)
tally_byte_lem (suc rounds) m i j t h =
    let t' =
      if is_free m i j then record t { free = t.free + 1 } else record t { taken = t.taken + 1 } in
    let ih = tally_byte_lem rounds m i (j + 1) t' (omega arith) in
    (
      ground (
        arith,
        ih.0,
        is_free-used m i j,
        used-lt m (i * 8 + j),
        pages_used-suc (i * 8 + j) m,
        ap (λ (n : ℕ). pages_used n m) {x = i * 8 + j + suc rounds} {y = i * 8 + (j + 1) + rounds},
        ap (λ (n : ℕ). pages_used n m) {x = i * 8 + (j + 1)} {y = suc (i * 8 + j)},
      ),
      ground (arith, ih.1),
    )

tally_map_lem :
    (n : ℕ) (m : Memory) (t : Tally)
    → ((tally_map n m t).taken ≡ t.taken + pages_used (n * 8) m)
      × ((tally_map n m t).free + (tally_map n m t).taken ≡ t.free + t.taken + n * 8)
unfolding tally_map
tally_map_lem zero m t = (
  ground (arith, pages_used-zero m, ap (λ (n : ℕ). pages_used n m) {x = 0 * 8} {y = 0}),
  omega arith,
)
tally_map_lem (suc n) m t =
    let ih = tally_map_lem n m (tally_byte 8 m n 0 t) in
    let byte = tally_byte_lem 8 m n 0 t (omega arith) in
    (
      ground (
        arith,
        ih.0,
        byte.0,
        ap (λ (k : ℕ). pages_used k m) {x = n * 8 + 0} {y = n * 8},
        ap (λ (k : ℕ). pages_used k m) {x = n * 8 + 0 + 8} {y = suc n * 8},
      ),
      omega (arith, ih.1, byte.1),
    )

-- On a well-formed heap `print_mem` prints 32 KB in all for each byte of the map, 4 KB for each page
-- in use, and the rest as free.
pub print_mem-IsHeap :
    (b : Bitmap)
    → IsHeap b
    → ((print_mem b).0 ≡ b.map_size * 32)
      × ((print_mem b).2 ≡ 4 * pages_used (b.map_size * 8) b.memory)
      × ((print_mem b).1 + (print_mem b).2 ≡ (print_mem b).0)
unfolding print_mem
print_mem-IsHeap b h =
    let (taken, sum) = tally_map_lem b.map_size b.memory (record { free = 0; taken = 0 }) in
    (
      omega (arith, h.top, h.start),
      omega (arith, h.top, h.start, taken, sum),
      omega (arith, h.top, h.start, taken, sum),
    )
