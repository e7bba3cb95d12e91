-- ===== src/Cstring/Copy.antt =====
-- What `strcpy` and `strncpy` do to memory, and what `strrchr` finds.
use test_os.Base.{
  ℕ, zero, suc, ◌+◌, ◌-◌, ◌≤◌, ◌<◌, ◌≡◌, ◌≢◌, ◌⊎◌, refl, List, [], ◌∷◌, ◌++◌, some, arith, ◌==◌,
  if◌then◌else◌, length, get_or, false, Bool-cases, All, inl, inr, ap,
}
use test_os.Base.Memory.{Memory, store, within}
use test_os.Cstring.{strcpy, strncpy, pad_zero, strrchr, strrchr_loop}
use test_os.Cstring.Holds.{Holds, Holds-frame}

-- The terminated bytes of `text`, read at an index: 0 from its end on.
abbrev pub at : List ℕ → ℕ → ℕ
at text i = get_or text i 0

at-cons :
    (c : ℕ) (text : List ℕ) (i : ℕ) → at (c ∷ text) i ≡ (if i == 0 then c else at text (i - 1))
at-cons c text zero = refl
at-cons c text (suc i) = ground (arith, ap (at text) {x = i} {y = suc i - 1} (omega arith))

-- `strcpy` ends within one round for each byte and one for the terminator, if the destination does not
-- start inside the source behind its first byte. Then the destination holds the text, and no byte
-- outside its `length + 1` bytes has changed.
pub strcpy-at :
    (text : List ℕ) (fuel : ℕ) (m : Memory) (d s : ℕ)
    → length text < fuel
    → (d ≤ s) ⊎ (s + length text < d)
    → Holds m s text
    → (m' : Memory) × (strcpy fuel m d s ≡ some m')
      × Holds m' d text
      × ((q : ℕ) → within d (length text + 1) q ≡ false → m' q ≡ m q)
unfolding strcpy
strcpy-at text zero m d s f sep h = absurd (omega arith)
strcpy-at [] (suc fuel) m d s f sep h =
    (store m d (m s), ground arith, ground arith, λ q out. ground arith)
strcpy-at (c ∷ text) (suc fuel) m d s f sep (e, nz, lt, h) =
    let m1 = store m d (m s) in
    let kept = Holds-frame m m1 (s + 1) text h (λ q a b. ground arith) in
    let (m', ran, copied, frame) =
      strcpy-at text fuel m1 (d + 1) (s + 1) (omega arith) (omega arith) kept in
    (
      m',
      ground (arith, ran),
      (ground (arith, frame d (ground arith), e), nz, lt, copied),
      λ q out. ground (arith, frame q),
    )

pad_zero-at : (n : ℕ) (m : Memory) (d q : ℕ) → pad_zero n m d q ≡ (if within d n q then 0 else m q)
unfolding pad_zero
pad_zero-at zero m d q = ground arith
pad_zero-at (suc n) m d q = ground (arith, pad_zero-at n (store m d 0) (d + 1) q)

-- `strncpy` writes exactly the `n` bytes from the destination on: the first `n` bytes of the text,
-- and zeros behind it if it is shorter. (A longer text is cut with no terminator.)
pub strncpy-at :
    (text : List ℕ) (n : ℕ) (m : Memory) (d s q : ℕ)
    → (s + length text < d) ⊎ (d + n ≤ s)
    → Holds m s text
    → strncpy m d s n q ≡ (if within d n q then at text (q - d) else m q)
unfolding strncpy
strncpy-at text zero m d s q sep h = ground arith
strncpy-at [] (suc n) m d s q sep h = ground (arith, pad_zero-at n (store m d (m s)) (d + 1) q)
strncpy-at (c ∷ text) (suc n) m d s q sep (e, nz, lt, h) =
    let m1 = store m d (m s) in
    let kept = Holds-frame m m1 (s + 1) text h (λ q a b. ground arith) in
    ground
      (arith, strncpy-at text n m1 (d + 1) (s + 1) q (omega arith) kept, at-cons c text (q - d), e)

abbrev pub Lacks : ℕ → List ℕ → Type 0
Lacks c = All (λ b. b ≢ c)

strrchr_loop-Holds :
    (text : List ℕ) (fuel : ℕ) (m : Memory) (p c ret : ℕ)
    → length text < fuel
    → c ≢ 0
    → c < 128
    → Holds m p text
    → (Lacks c text × (strrchr_loop fuel m p c ret ≡ some ret))
      ⊎ ((before after : List ℕ) × (text ≡ before ++ (c ∷ after))
          × Lacks c after
          × (strrchr_loop fuel m p c ret ≡ some (p + length before)))
unfolding strrchr_loop
strrchr_loop-Holds text zero m p c ret f nz lt h = absurd (omega arith)
strrchr_loop-Holds [] (suc fuel) m p c ret f nz lt h = inl (tt, ground arith)
strrchr_loop-Holds (b ∷ text) (suc fuel) m p c ret f nz lt (e, bz, bl, h) =
    elim (Bool-cases (b == c)) [
      | inl hit ↦ elim (strrchr_loop-Holds text fuel m (p + 1) c p (omega arith) nz lt h) [
        | inl (none_left, ran) ↦ inr ([], text, ground arith, none_left, ground (arith, ran))
        | inr (before, after, split, rest, ran) ↦
            inr (b ∷ before, after, ap (λ t. b ∷ t) split, rest, ground (arith, ran))
      ]
      | inr miss ↦ elim (strrchr_loop-Holds text fuel m (p + 1) c ret (omega arith) nz lt h) [
        | inl (none_left, ran) ↦ inl ((ground arith, none_left), ground (arith, ran))
        | inr (before, after, split, rest, ran) ↦
            inr (b ∷ before, after, ap (λ t. b ∷ t) split, rest, ground (arith, ran))
      ]
    ]

-- For a character other than the terminator, of the lower half of the byte range, `strrchr` ends and
-- returns the address of its last occurrence in the string, or `NULL` if the string has none.
pub strrchr-Holds :
    (text : List ℕ) (fuel : ℕ) (m : Memory) (p c : ℕ)
    → length text < fuel
    → c ≢ 0
    → c < 128
    → Holds m p text
    → (Lacks c text × (strrchr fuel m p c ≡ some 0))
      ⊎ ((before after : List ℕ) × (text ≡ before ++ (c ∷ after))
          × Lacks c after
          × (strrchr fuel m p c ≡ some (p + length before)))
unfolding strrchr
strrchr-Holds text fuel m p c f nz lt h = strrchr_loop-Holds text fuel m p c 0 f nz lt h
