-- ===== src/Block.antt =====
-- The memory functions of libraries/string.c, over the byte memory. A pointer is a number and its
-- arithmetic is that of ℕ: a block is taken not to run past the end of the address space.
pub mod Copy
pub mod Compare
mod Examples
use test_os.Base.{
  ℕ, zero, suc, ◌+◌, ◌-◌, ◌%◌, ◌^◌, Bool, true, false, ◌||◌, Option, none, some, ltb, leb, ◌==◌,
  if◌then◌else◌,
}
use test_os.Base.Memory.{Memory, store}

-- `while (size--) *d++ = *s++;`
unfoldable pub copy_up : ℕ → Memory → ℕ → ℕ → Memory
copy_up zero m d s = m
copy_up (suc size) m d s = copy_up size (store m d (m s)) (d + 1) (s + 1)

-- `while (size--) *--tmp = *--s;`, where `d` and `s` are the starts of the blocks: a round copies the
-- last byte that is left. The loop of `memcpy`, `*d-- = *s--` from the last bytes on, does the same.
unfoldable pub copy_down : ℕ → Memory → ℕ → ℕ → Memory
copy_down zero m d s = m
copy_down (suc size) m d s = copy_down size (store m (d + size) (m (s + size))) d s

-- `sizeof(src)` is the size of a pointer.
abbrev pub sizeof_pointer : ℕ
sizeof_pointer = 4

-- The returned pointer beside the memory.
unfoldable pub memcpy : Memory → ℕ → ℕ → ℕ → ℕ × Memory
unfolding copy_up copy_down
memcpy m dst src size =
    if dst == 0 || src == 0
    then (0, m)
    else if ltb (src + sizeof_pointer) dst || ltb dst src
    then (dst, copy_up size m dst src)
    else (dst, copy_down size m dst src)

unfoldable pub memmove : Memory → ℕ → ℕ → ℕ → ℕ × Memory
unfolding copy_up copy_down
memmove m dst src size =
    if leb dst src then (dst, copy_up size m dst src) else (dst, copy_down size m dst src)

-- `dst` is advanced by the loop, and what is returned is the advanced pointer.
unfoldable pub memset : Memory → ℕ → ℕ → ℕ → ℕ × Memory
memset m dst val zero = (dst, m)
memset m dst val (suc size) = memset (store m dst (val % 256)) (dst + 1) val size

unfoldable pub memcmp : Memory → ℕ → ℕ → ℕ → ℕ
memcmp m buf1 buf2 zero = 0
memcmp m buf1 buf2 (suc size) =
    let rest = memcmp m (buf1 + 1) (buf2 + 1) size in if m buf1 == m buf2 then rest else 1

-- A `char` promoted to `int`, as a 32-bit pattern.
abbrev pub promote : ℕ → ℕ
promote c = if ltb c 128 then c else c + (2 ^ 32 - 256)

-- `NULL` is 0.
unfoldable pub memchr : Memory → ℕ → ℕ → ℕ → ℕ
memchr m p c zero = 0
memchr m p c (suc size) =
    let rest = memchr m (p + 1) c size in if promote (m p) == c then p else rest
