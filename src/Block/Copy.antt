-- ===== src/Block/Copy.antt =====
-- What the copying loops of libraries/string.c do to memory, byte for byte.
use test_os.Base.{ℕ, zero, suc, ◌+◌, ◌-◌, ◌%◌, ◌≤◌, ◌<◌, ◌≡◌, ◌≢◌, ◌⊎◌, arith, ◌==◌, if◌then◌else◌}
use native.Mathlib.Nat.{mod-lt, mod-add-mod, mod-eq_of_lt, mod_self}
use native.Mathlib.Decide.{dec_lt}
use test_os.Base.Memory.{Memory, store, within}
use test_os.Block.{copy_up, copy_down, memcpy, memmove, memset}

-- `m'` is `m` with the block at `dst` holding what the block at `src` held.
abbrev pub Copied : Memory → ℕ → ℕ → ℕ → Memory → Type 0
Copied m dst src size m' = (q : ℕ) → m' q ≡ (if within dst size q then m (src + (q - dst)) else m q)

copy_up-at :
    (size : ℕ) (m : Memory) (d s q : ℕ)
    → (d ≤ s) ⊎ (s + size ≤ d)
    → copy_up size m d s q ≡ (if within d size q then m (s + (q - d)) else m q)
unfolding copy_up
copy_up-at zero m d s q h = ground arith
copy_up-at (suc size) m d s q h =
    ground (arith, copy_up-at size (store m d (m s)) (d + 1) (s + 1) q)

copy_down-at :
    (size : ℕ) (m : Memory) (d s q : ℕ)
    → (s ≤ d) ⊎ (d + size ≤ s)
    → copy_down size m d s q ≡ (if within d size q then m (s + (q - d)) else m q)
unfolding copy_down
copy_down-at zero m d s q h = ground arith
copy_down-at (suc size) m d s q h =
    ground (arith, copy_down-at size (store m (d + size) (m (s + size))) d s q)

-- `memmove` returns `dst` and copies the block, also where the two blocks overlap.
pub memmove-Copied :
    (m : Memory) (dst src size : ℕ)
    → ((memmove m dst src size).0 ≡ dst) × Copied m dst src size (memmove m dst src size).1
unfolding memmove
memmove-Copied m dst src size =
    (ground arith, λ q. ground (arith, copy_up-at size m dst src q, copy_down-at size m dst src q))

-- `memcpy` returns `dst` and copies the block if neither pointer is `NULL`, and the destination starts
-- at most four bytes behind the source (or before it) or behind the whole source block.
pub memcpy-Copied :
    (m : Memory) (dst src size : ℕ)
    → dst ≢ 0
    → src ≢ 0
    → (dst ≤ src + 4) ⊎ (src + size ≤ dst)
    → ((memcpy m dst src size).0 ≡ dst) × Copied m dst src size (memcpy m dst src size).1
unfolding memcpy
memcpy-Copied m dst src size hd hs h =
    (ground arith, λ q. ground (arith, copy_up-at size m dst src q, copy_down-at size m dst src q))

suc-mod : (k p : ℕ) → 0 < p → (k + 1) % p ≡ (if k % p + 1 == p then 0 else k % p + 1)
suc-mod k p h = elim (dec_lt (k % p + 1) p) [
  | yes lt ↦ ground (arith, mod-add-mod k p 1, mod-eq_of_lt lt)
  | no ge ↦ ground (arith, mod-add-mod k p 1, mod-lt k h, mod_self p)
]

-- A forward copy onto the bytes behind the source repeats the first `d - s` bytes.
copy_up-repeats :
    (size : ℕ) (m : Memory) (d s q : ℕ)
    → s < d
    → copy_up size m d s q ≡ (if within d size q then m (s + (q - d) % (d - s)) else m q)
unfolding copy_up
copy_up-repeats zero m d s q h = ground arith
copy_up-repeats (suc size) m d s q h = ground (
  arith,
  copy_up-repeats size (store m d (m s)) (d + 1) (s + 1) q,
  suc-mod (q - (d + 1)) (d - s),
  mod-lt (q - (d + 1)) {m = d - s},
)

-- Where the destination starts more than four bytes behind the source, `memcpy` copies forward: it
-- fills the destination with the first `dst - src` bytes of the source, again and again. If the blocks
-- overlap this is not a copy of the source block.
pub memcpy-repeats :
    (m : Memory) (dst src size q : ℕ)
    → src ≢ 0
    → src + 4 < dst
    → (memcpy m dst src size).1 q
      ≡ (if within dst size q then m (src + (q - dst) % (dst - src)) else m q)
unfolding memcpy
memcpy-repeats m dst src size q hs h = ground (arith, copy_up-repeats size m dst src q)

-- `memset` sets exactly the `size` bytes from `dst` on to the low byte of `val`. It returns the
-- address behind the block.
pub memset_lem :
    (size : ℕ) (m : Memory) (dst val q : ℕ)
    → ((memset m dst val size).0 ≡ dst + size)
      × ((memset m dst val size).1 q ≡ (if within dst size q then val % 256 else m q))
unfolding memset
memset_lem zero m dst val q = (omega arith, ground arith)
memset_lem (suc size) m dst val q =
    let ih = memset_lem size (store m dst (val % 256)) (dst + 1) val q in
    (omega (arith, ih.0), ground (arith, ih.1))
