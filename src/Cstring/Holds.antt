-- ===== src/Cstring/Holds.antt =====
-- A terminated string in memory, and the length that `strlen` finds.
use test_os.Base.{
  ℕ, zero, suc, ◌+◌, ◌≤◌, ◌<◌, ◌≡◌, ◌≢◌, refl, ap, List, [], ◌∷◌, some, arith, length,
}
use test_os.Base.Memory.{Memory}
use test_os.Cstring.{strlen, strlen_loop}

-- At `p` stand the bytes of `text`, none of them 0, and a terminator.
abbrev pub Holds : Memory → ℕ → List ℕ → Type 0
Holds m p [] = m p ≡ 0
Holds m p (c ∷ text) = (m p ≡ c) × (c ≢ 0) × (c < 256) × Holds m (p + 1) text

-- A string depends on its own bytes only.
pub Holds-frame :
    (m m' : Memory) (p : ℕ) (text : List ℕ)
    → Holds m p text
    → ((q : ℕ) → p ≤ q → q ≤ p + length text → m' q ≡ m q)
    → Holds m' p text
Holds-frame m m' p [] h same = ground (arith, same p)
Holds-frame m m' p (c ∷ text) (e, nz, lt, h) same = (
  ground (arith, same p, e),
  nz,
  lt,
  Holds-frame m m' (p + 1) text h (λ q a b. same q (omega arith) (omega arith)),
)

strlen_loop-Holds :
    (text : List ℕ) (fuel : ℕ) (m : Memory) (p : ℕ)
    → length text < fuel
    → Holds m p text
    → strlen_loop fuel m p ≡ some (p + length text + 1)
unfolding strlen_loop
strlen_loop-Holds text zero m p f h = absurd (omega arith)
strlen_loop-Holds [] (suc fuel) m p f h = ground arith
strlen_loop-Holds (c ∷ text) (suc fuel) m p f h =
    ground (arith, strlen_loop-Holds text fuel m (p + 1) (omega arith) (h.3))

-- With one round for each byte and one for the terminator `strlen` ends, and returns the length.
pub strlen-Holds :
    (text : List ℕ) (fuel : ℕ) (m : Memory) (p : ℕ)
    → length text < fuel
    → Holds m p text
    → strlen fuel m p ≡ some (length text)
unfolding strlen
strlen-Holds text fuel m p f h = rw (strlen_loop-Holds text fuel m p f h) (ap some (omega arith))

-- The bytes at an address are those of one text at most.
pub Holds-unique : (s t : List ℕ) (m : Memory) (p : ℕ) → Holds m p s → Holds m p t → s ≡ t
Holds-unique [] [] m p h k = refl
Holds-unique [] (d ∷ t) m p h k = ground arith
Holds-unique (c ∷ s) [] m p h k = ground arith
Holds-unique (c ∷ s) (d ∷ t) m p h k = ground (arith, Holds-unique s t m (p + 1))
