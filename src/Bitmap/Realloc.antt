-- ===== src/Bitmap/Realloc.antt =====
-- `bitmap_realloc` of kernel/bitmap.c.
use test_os.Base.{
  ℕ, ◌+◌, ◌-◌, ◌*◌, ◌%◌, ◌≤◌, ◌<◌, ◌≡◌, arith, if◌then◌else◌, Option, some, ltb, ◌==◌, ◌>>=◌,
}
use test_os.Base.Memory.{load32}
use test_os.Block.{memcpy}
use test_os.Bitmap.{Bitmap, page, word, bitmap_malloc, bitmap_free}
use test_os.Bitmap.Malloc.{IsHeap}
use test_os.Bitmap.Free.{IsBlock}

-- A free inside another operation, which goes on to return `ret`.
abbrev pub free_and_return : ℕ → Bitmap → ℕ → Option (ℕ × Bitmap)
free_and_return ret b addr = do b' ← bitmap_free b addr; some (ret, b')

-- `if (new_ptr != NULL)`, on the result of the allocation.
unfoldable pub move_block : ℕ → ℕ → ℕ → ℕ × Bitmap → Option (ℕ × Bitmap)
unfolding memcpy
move_block addr size old_size (new_ptr, b) =
    let n = if ltb size old_size then size else old_size in
    let b' = record b { memory = (memcpy b.memory new_ptr addr n).1 } in
    if new_ptr == 0 then some (new_ptr, b) else free_and_return new_ptr b' addr

-- The returned pointer and the heap behind the call; `none` is the failed assertion of `bitmap_free`.
unfoldable pub bitmap_realloc : Bitmap → ℕ → ℕ → Option (ℕ × Bitmap)
unfolding move_block
bitmap_realloc b addr size =
    let old_size = (load32 b.memory ((addr + word - 4) % word) * page) % word in
    if addr == 0
    then some (bitmap_malloc b size)
    else if size == 0
    then free_and_return 0 b addr
    else if ltb old_size size
    then move_block addr size old_size (bitmap_malloc b size)
    else some (addr, b)

module _ (b : Bitmap) (h : IsHeap b) (a n : ℕ) (block : IsBlock b a n) where
  length_at : (b.bits_start + a * page + 8 + word - 4) % word ≡ b.bits_start + a * page + 4
  length_at = omega (arith, h.top, h.start, block.inside, block.some_page)

  old_size_lem :
      (load32 b.memory ((b.bits_start + a * page + 8 + word - 4) % word) * page) % word ≡ n * page
  old_size_lem = rw (length_at, block.length) (omega (arith, h.top, h.start, block.inside))

-- A block of `n` pages stays where it is, and the heap with it, for every size up to all of its pages.
-- Its header takes eight bytes of them: for the last eight such sizes the bytes that the caller may use
-- go beyond the end of the block.
pub bitmap_realloc-IsBlock :
    (b : Bitmap) (a n size : ℕ)
    → IsHeap b
    → IsBlock b a n
    → 0 < size
    → size ≤ n * page
    → (bitmap_realloc b (b.bits_start + a * page + 8) size ≡ some (b.bits_start + a * page + 8, b))
      × (n * page < size + 8 → b.bits_start + (a + n) * page < b.bits_start + a * page + 8 + size)
unfolding bitmap_realloc
bitmap_realloc-IsBlock b a n size h block p le =
    (rw (old_size_lem b h a n block) (ground arith), λ over. omega arith)
