-- ===== src/Base/Memory.antt =====
-- The byte-addressed memory of the kernel: a pointer is a number, `NULL` is 0, a byte is a number
-- below 256. Words are little endian.
use Prim.Native.Nat.{◌≤◌, ◌-◌, ℕ, zero, suc, ◌+◌, ◌*◌, ◌/◌, ◌%◌, ◌^◌, ◌<◌}
use mathlib.Core.Path.{◌∙◌, ◌≡◌}
use mathlib.Core.List.{List, [], ◌∷◌}
use mathlib.Core.Bool.{Bool, false, ◌&&◌}
use native.Mathlib.Omega.{arith}
use test_os.Base.Tests.{ltb, leb, ◌==◌, if◌then◌else◌}
use test_os.Base.Lists.{length, get_or}

abbrev pub Memory : Type 0
Memory = ℕ → ℕ

-- `*p = v` for a byte.
abbrev pub store : Memory → ℕ → ℕ → Memory
store m p v q = if p == q then v else m q

-- `p ≤ q < p + n`
abbrev pub within : ℕ → ℕ → ℕ → Bool
within p n q = leb p q && ltb q (p + n)

-- `*(uint32_t *)p = v` and `*(uint32_t *)p`.
abbrev pub store32 : Memory → ℕ → ℕ → Memory
store32 m p v =
    store (store (store (store m p (v % 256)) (p + 1) (v / 256 % 256)) (p + 2) (v / 65536 % 256))
      (p + 3) (v / 16777216 % 256)

abbrev pub load32 : Memory → ℕ → ℕ
load32 m p = m p + m (p + 1) * 256 + m (p + 2) * 65536 + m (p + 3) * 16777216

pub load32-store32 : (m : Memory) (p v : ℕ) → v < 2 ^ 32 → load32 (store32 m p v) p ≡ v
load32-store32 m p v h = ground arith

pub store32_ne : (m : Memory) (p v q : ℕ) → within p 4 q ≡ false → store32 m p v q ≡ m q
store32_ne m p v q h = ground arith

-- The `n` bytes from `p` on.
abbrev pub read_bytes : Memory → ℕ → ℕ → List ℕ
read_bytes m p zero = []
read_bytes m p (suc n) = m p ∷ read_bytes m (p + 1) n

-- A memory that holds some bytes from `p` on, and zeros elsewhere.
abbrev pub memory_at : ℕ → List ℕ → Memory
memory_at p bytes q = if within p (length bytes) q then get_or bytes (q - p) 0 else 0

pub load32_frame :
    (m m' : Memory) (p : ℕ) → ((q : ℕ) → p ≤ q → q < p + 4 → m' q ≡ m q) → load32 m' p ≡ load32 m p
load32_frame m m' p same = omega (
  arith,
  same p (omega arith) (omega arith),
  same (p + 1) (omega arith) (omega arith),
  same (p + 2) (omega arith) (omega arith),
  same (p + 3) (omega arith) (omega arith),
)

-- Two words side by side are read back.
pub load32_pair :
    (m : Memory) (p v w : ℕ)
    → v < 2 ^ 32
    → w < 2 ^ 32
    → (load32 (store32 (store32 m p v) (p + 4) w) p ≡ v)
      × (load32 (store32 (store32 m p v) (p + 4) w) (p + 4) ≡ w)
load32_pair m p v w hv hw = (
  load32_frame (store32 m p v) (store32 (store32 m p v) (p + 4) w) p
        (λ q a b. store32_ne (store32 m p v) (p + 4) w q (ground arith))
      ∙ load32-store32 m p v hv,
  load32-store32 (store32 m p v) (p + 4) w hw,
)
