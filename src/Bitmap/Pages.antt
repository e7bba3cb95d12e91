-- ===== src/Bitmap/Pages.antt =====
-- The heap map of kernel/bitmap.c as a set of pages, page `k` in bit `k % 8` of byte `k / 8`.
use test_os.Base.{
  ℕ, ◌+◌, ◌*◌, ◌/◌, ◌%◌, ◌^◌, ◌≤◌, ◌<◌, ◌≡◌, refl, ap, arith, ◌==◌, if◌then◌else◌, bit_and, bit_or,
}
use test_os.Base.Bits.{
  bit, bit-bit_or, bit-bit_and, bit-two-pow, bit-bit_not, bit_not, bit_and-mask, bit-lt,
}
use test_os.Base.Memory.{Memory, store}
use test_os.Bitmap.{kernel_heap_bottom, is_free}
use native.Mathlib.Decide.{ℕ_discrete}
use native.Mathlib.Nat.{pow-le-pow_right}

-- 1 if page `k` is in use, 0 if it is free.
unfoldable pub used : Memory → ℕ → ℕ
used m k = bit (m (kernel_heap_bottom + k / 8)) (k % 8)

pub used-lt : (m : Memory) (k : ℕ) → used m k < 2
unfolding used
used-lt m k = bit-lt (m (kernel_heap_bottom + k / 8)) (k % 8)

-- The `n` pages from `a` on are free.
abbrev pub RunFree : Memory → ℕ → ℕ → Type 0
RunFree m a n = (k : ℕ) → a ≤ k → k < a + n → used m k ≡ 0

pub is_free-used : (m : Memory) (i j : ℕ) → j < 8 → is_free m i j ≡ (used m (i * 8 + j) == 0)
unfolding used
is_free-used m i j h =
    let e : (i * 8 + j) / 8 ≡ i = omega arith in
    let f : (i * 8 + j) % 8 ≡ j = omega arith in
    rw (e, f, bit_and-mask 1 (m (kernel_heap_bottom + i) / 2 ^ j)) refl

used-store :
    (m : Memory) (i v k : ℕ)
    → used (store m (kernel_heap_bottom + i) v) k ≡ (if k / 8 == i then bit v (k % 8) else used m k)
unfolding used
used-store m i v k = elim (ℕ_discrete (k / 8) i) [
  | yes e ↦ ground (
    arith,
    ap (λ (b : ℕ). bit b (k % 8))
        {x = store m (kernel_heap_bottom + i) v (kernel_heap_bottom + k / 8)} {y = v}
        (ground arith),
  )
  | no ne ↦ ground (
    arith,
    ap (λ (b : ℕ). bit b (k % 8))
        {x = store m (kernel_heap_bottom + i) v (kernel_heap_bottom + k / 8)}
        {y = m (kernel_heap_bottom + k / 8)} (ground arith),
  )
]

same_byte : (m : Memory) (i k : ℕ) → k / 8 ≡ i → used m k ≡ bit (m (kernel_heap_bottom + i)) (k % 8)
unfolding used
same_byte m i k e = ap (λ (t : ℕ). bit (m (kernel_heap_bottom + t)) (k % 8)) e

two-pow-lt : (j : ℕ) → j < 8 → 2 ^ j < 2 ^ 32
two-pow-lt j h = omega (arith, pow-le-pow_right {n = 2} (omega arith) {i = j} {j = 8} (omega arith))

-- Setting bit `j` of byte `i` takes page `i * 8 + j` and no other.
pub used-set :
    (m : Memory) (i j k : ℕ)
    → j < 8
    → used (store m (kernel_heap_bottom + i) (bit_or (m (kernel_heap_bottom + i)) (2 ^ j))) k
      ≡ (if k == i * 8 + j then 1 else used m k)
unfolding used
used-set m i j k h =
    let byte = m (kernel_heap_bottom + i) in
    ground (
      arith,
      used-store m i (bit_or byte (2 ^ j)) k,
      bit-bit_or (k % 8) byte (2 ^ j),
      bit-two-pow j (k % 8),
      bit-lt byte (k % 8),
      same_byte m i k,
    )

-- Clearing bit `j` of byte `i` frees page `i * 8 + j` and no other.
pub used-clear :
    (m : Memory) (i j k : ℕ)
    → j < 8
    → used
        (store m
          (kernel_heap_bottom + i)
          (bit_and (m (kernel_heap_bottom + i)) (bit_not 32 (2 ^ j))))
        k
      ≡ (if k == i * 8 + j then 0 else used m k)
unfolding used
used-clear m i j k h =
    let byte = m (kernel_heap_bottom + i) in
    ground (
      arith,
      used-store m i (bit_and byte (bit_not 32 (2 ^ j))) k,
      bit-bit_and (k % 8) byte (bit_not 32 (2 ^ j)),
      bit-bit_not 32 (k % 8) (2 ^ j) (omega arith) (two-pow-lt j h),
      bit-two-pow j (k % 8),
      bit-lt byte (k % 8),
      same_byte m i k,
    )

-- A write outside the bytes of the map changes no page.
pub used-frame :
    (m m' : Memory) (k : ℕ)
    → m' (kernel_heap_bottom + k / 8) ≡ m (kernel_heap_bottom + k / 8)
    → used m' k ≡ used m k
unfolding used
used-frame m m' k e = ap (λ x. bit x (k % 8)) e
