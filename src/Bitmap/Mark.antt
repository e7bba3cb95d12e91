-- ===== src/Bitmap/Mark.antt =====
-- The loops of kernel/bitmap.c that take and free a run of pages.
use test_os.Base.{
  ℕ, zero, suc, ◌+◌, ◌-◌, ◌*◌, ◌^◌, ◌≤◌, ◌<◌, ◌≡◌, ◌⊎◌, inl, inr, refl, arith, ◌==◌, if◌then◌else◌,
  Bool-cases, bit_or, bit_and,
}
use test_os.Base.Memory.{Memory, store, within}
use test_os.Bitmap.{
  kernel_heap_bottom, mark, clear_byte, clear_map, Sweep, finished, remaining, decrement,
}
use test_os.Bitmap.Pages.{used, used-set, used-clear}
use test_os.Base.Bits.{bit_not}

-- Marking `size` pages that end at bit `j` of byte `i` takes these pages and no other.
pub used-mark :
    (size : ℕ) (m : Memory) (i j k : ℕ)
    → j < 8
    → size ≤ i * 8 + j + 1
    → used (mark size m (kernel_heap_bottom + i) j) k
      ≡ (if within (i * 8 + j + 1 - size) size k then 1 else used m k)
unfolding mark
used-mark zero m i j k h e = ground arith
used-mark (suc zero) m zero zero k h e = ground (arith, used-set m 0 0 k (omega arith))
used-mark (suc (suc size)) m zero zero k h e = absurd (omega arith)
used-mark (suc size) m (suc i) zero k h e =
    let p = kernel_heap_bottom + suc i in
    let m' = store m p (bit_or (m p) (2 ^ 0)) in
    let below : p - 1 ≡ kernel_heap_bottom + i = omega arith in
    rw below (
      ground (
        arith,
        used-mark size m' i 7 k (omega arith) (omega arith),
        used-set m (suc i) 0 k (omega arith),
      ))
used-mark (suc size) m i (suc j) k h e =
    let p = kernel_heap_bottom + i in
    let m' = store m p (bit_or (m p) (2 ^ suc j)) in
    ground (arith, used-mark size m' i j k (omega arith) (omega arith), used-set m i (suc j) k h)

-- Marking writes to bytes of the map up to the byte of the last page only.
pub mark_frame :
    (size : ℕ) (m : Memory) (i j q : ℕ)
    → j < 8
    → size ≤ i * 8 + j + 1
    → (q < kernel_heap_bottom) ⊎ (kernel_heap_bottom + i < q)
    → mark size m (kernel_heap_bottom + i) j q ≡ m q
unfolding mark
mark_frame zero m i j q h e out = refl
mark_frame (suc zero) m zero zero q h e out = ground arith
mark_frame (suc (suc size)) m zero zero q h e out = absurd (omega arith)
mark_frame (suc size) m (suc i) zero q h e out =
    let p = kernel_heap_bottom + suc i in
    let m' = store m p (bit_or (m p) (2 ^ 0)) in
    let below : p - 1 ≡ kernel_heap_bottom + i = omega arith in
    rw below (ground (arith, mark_frame size m' i 7 q (omega arith) (omega arith) (omega arith)))
mark_frame (suc size) m i (suc j) q h e out =
    let p = kernel_heap_bottom + i in
    let m' = store m p (bit_or (m p) (2 ^ suc j)) in
    ground (arith, mark_frame size m' i j q (omega arith) (omega arith) out)

-- What a round of `bitmap_free` over the bits of byte `i` has done, of `size` pages from bit `j` on.
abbrev Cleared : Memory → ℕ → ℕ → ℕ → Sweep → Type 0
Cleared m pos size rounds (finished m') =
    (size ≤ rounds) × ((k : ℕ) → used m' k ≡ (if within pos size k then 0 else used m k))
Cleared m pos size rounds (remaining m' left) =
    (left + rounds ≡ size)
    × (0 < left)
    × ((k : ℕ) → used m' k ≡ (if within pos rounds k then 0 else used m k))

-- One page cleared before the others.
Cleared-suc :
    (m m' : Memory) (pos pos' size size' rounds : ℕ) (r : Sweep)
    → pos' ≡ pos + 1
    → size ≡ size' + 1
    → ((k : ℕ) → used m' k ≡ (if k == pos then 0 else used m k))
    → Cleared m' pos' size' rounds r
    → Cleared m pos size (suc rounds) r
Cleared-suc m m' pos pos' size size' rounds (finished _) e f one (le, rest) =
    (omega arith, λ k. ground (arith, one k, rest k))
Cleared-suc m m' pos pos' size size' rounds (remaining _ left) e f one (sum, some_left, rest) =
    (omega arith, some_left, λ k. ground (arith, one k, rest k))

clear_byte-Cleared :
    (rounds : ℕ) (m : Memory) (size i j : ℕ)
    → 0 < size
    → size < 2 ^ 32
    → j + rounds ≡ 8
    → Cleared m (i * 8 + j) size rounds (clear_byte rounds m size i j)
unfolding clear_byte
clear_byte-Cleared zero m size i j p w e = (omega arith, p, λ k. ground arith)
clear_byte-Cleared (suc rounds) m size i j p w e =
    let b = m (kernel_heap_bottom + i) in
    let m' = store m (kernel_heap_bottom + i) (bit_and b (bit_not 32 (2 ^ j))) in
    let one = λ (k : ℕ). used-clear m i j k (omega arith) in
    elim (Bool-cases (decrement size == 0)) [
      | inl last ↦ rw last (ground arith, λ k. ground (arith, used-clear m i j k (omega arith)))
      | inr more ↦ rw more (
          Cleared-suc m m' (i * 8 + j) (i * 8 + (j + 1)) size (decrement size) rounds
            (clear_byte rounds m' (decrement size) i (j + 1)) (omega arith) (omega arith) one
            (clear_byte-Cleared rounds m' (decrement size) i (j + 1) (ground arith) (omega arith)
              (omega arith)))
    ]

-- Clearing frees the `size` pages from bit `j` of byte `i` on, and no other, if the map has so many.
pub used-clear_map :
    (rounds : ℕ) (m : Memory) (size i j k : ℕ)
    → 0 < size
    → size < 2 ^ 32
    → j < 8
    → j + size ≤ rounds * 8
    → used (clear_map rounds m size i j) k ≡ (if within (i * 8 + j) size k then 0 else used m k)
unfolding clear_map
used-clear_map zero m size i j k p w h e = absurd (omega arith)
used-clear_map (suc rounds) m size i j k p w h e =
    (elim (clear_byte (8 - j) m size i j)
        as (λ r.
          Cleared m (i * 8 + j) size (8 - j) r
          → used
              (elim r [ finished m' ↦ m' | remaining m' left ↦ clear_map rounds m' left (i + 1) 0 ])
              k
            ≡ (if within (i * 8 + j) size k then 0 else used m k)) [
              | finished m' ↦ λ c. c.1 k
              | remaining m' left ↦ λ c. ground (
                arith,
                c.2 k,
                used-clear_map rounds m' left (i + 1) 0 k (c.1) (omega (arith, c.0)) (omega arith)
                    (omega (arith, c.0)),
              )
            ])
      (clear_byte-Cleared (8 - j) m size i j p w (omega arith))
