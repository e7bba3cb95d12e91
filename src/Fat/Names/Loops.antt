-- ===== src/Fat/Names/Loops.antt =====
-- The loops over the characters of a short name in kernel/fat32.c.
use native.Mathlib.Decide.{dec_lt, ℕ_discrete}
use test_os.Base.{
  ℕ, zero, suc, ◌+◌, ◌-◌, ◌%◌, ◌≤◌, ◌<◌, ◌≡◌, refl, ◌∙◌, ap, arith, true, false, ltb, ◌==◌,
  if◌then◌else◌, some,
}
use test_os.Base.Memory.{within}
use test_os.Fat.Transfer.{fill}
use test_os.Ctype.{toupper, tolower, isprint}
use test_os.Ctype.Laws.{IsLower, IsUpper, toupper-tolower}
use test_os.Fat.Names.{put, lower_chars, upper_name, upper_ext}

pub toupper-IsUpper :
    (c : ℕ) → IsLower c → IsUpper (toupper c % 256) × (tolower (toupper c % 256) % 256 ≡ c)
toupper-IsUpper c (low, high) =
    let (there, back) = (toupper-tolower c (omega (arith, high))).0 (low, high) in
    let same : toupper c % 256 ≡ toupper c = omega (arith, there) in
    (
      (omega (arith, there, same), omega (arith, there, same)),
      ap (λ t. tolower t % 256) same ∙ ap (λ t. t % 256) back ∙ omega (arith, high),
    )

tolower-IsLower : (c : ℕ) → IsUpper c → IsLower (tolower c % 256)
tolower-IsLower c (low, high) =
    let (there, back) = (toupper-tolower c (omega (arith, high))).1 (low, high) in
    (omega (arith, there), omega (arith, there))

prints : (c : ℕ) → IsLower c → (isprint c == 0) ≡ false
unfolding isprint
prints c (low, high) = ground (arith, low, high)

blank : isprint (tolower b' ' % 256) ≡ 0
unfolding isprint tolower
blank = refl

-- A field with `len` capitals, and blanks behind them.
abbrev pub IsField : (size len : ℕ) → (ℕ → ℕ) → Type 0
IsField size len field =
    ((k : ℕ) → k < len → IsUpper (field k)) × ((k : ℕ) → len ≤ k → k < size → field k ≡ b' ')

-- Where the characters that print end.
abbrev pub printed : (i len start end : ℕ) → ℕ
printed i len start end = if ltb i len then start + len else end

-- How the end moves with one character.
printed_step :
    (i start size len : ℕ) (field : ℕ → ℕ) (end : ℕ)
    → i < size
    → IsField size len field
    → printed
        (i + 1)
        len
        start
        (if isprint (tolower (field i) % 256) == 0 then end else start + i + 1)
      ≡ printed i len start end
printed_step i start size len field end lt (letters, blanks) = elim (dec_lt i len) [
  | yes inside ↦ ground (
    arith,
    inside,
    prints (tolower (field i) % 256) (tolower-IsLower (field i) (letters i inside)),
  )
  | no behind ↦ ground (
    arith,
    behind,
    ap (λ t. isprint (tolower t % 256)) (blanks i (omega (arith, behind)) lt) ∙ blank,
  )
]

put_step :
    (n i start k : ℕ) (buf field : ℕ → ℕ)
    → (if within (start + (i + 1)) n k
        then tolower (field (k - start)) % 256
        else put buf (start + i) (tolower (field i) % 256) k)
      ≡ (if within (start + i) (suc n) k then tolower (field (k - start)) % 256 else buf k)
put_step n i start k buf field = elim (ℕ_discrete k (start + i)) [
  | yes e ↦
      ground
        (arith, e, ap (λ t. tolower (field t) % 256) {x = k - start} {y = i} (omega (arith, e)))
  | no ne ↦ ground (arith, ne)
]

pub lower_chars_lem :
    (n i start size len : ℕ) (field buf : ℕ → ℕ) (end : ℕ)
    → i + n ≡ size
    → len ≤ size
    → IsField size len field
    → ((k : ℕ)
        → (lower_chars n i start field buf end).0 k
          ≡ (if within (start + i) n k then tolower (field (k - start)) % 256 else buf k))
      × ((lower_chars n i start field buf end).1 ≡ printed i len start end)
unfolding lower_chars
lower_chars_lem zero i start size len field buf end whole fits shape =
    (λ k. ground arith, ground (arith, whole, fits))
lower_chars_lem (suc n) i start size len field buf end whole fits shape =
    let c = tolower (field i) % 256 in
    let end' = if isprint c == 0 then end else start + i + 1 in
    let (chars, last) =
      lower_chars_lem n (i + 1) start size len field (put buf (start + i) c) end'
        (omega (arith, whole)) fits shape in
    (
      λ k. chars k ∙ put_step n i start k buf field,
      last ∙ printed_step i start size len field end (omega (arith, whole)) shape,
    )

-- A string: `n` lower-case letters, and then its end, or a dot and up to three letters.
pub record IsShort (s : ℕ → ℕ) (n m : ℕ) : Type 0 where
  pub letters : (k : ℕ) → k < n → IsLower (s k)
  pub more : (k : ℕ) → k < m → IsLower (s (n + 1 + k))
  pub name_fits : n < 8
  pub ext_fits : m ≤ 3
  pub no_ext : m ≡ 0 → s n ≡ 0
  pub dot : 0 < m → s n ≡ b'.'
  pub stop : 0 < m → s (n + 1 + m) ≡ 0

put_char :
    (i n k c : ℕ) (f old : ℕ → ℕ)
    → i < n
    → c ≡ f i
    → (if ltb k (i + 1) then put old i c k else if ltb k n then f k else b' ')
      ≡ (if ltb k i then old k else if ltb k n then f k else b' ')
put_char i n k c f old inside at = elim (ℕ_discrete k i) [
  | yes e ↦ ground (arith, e, inside, at, ap f e)
  | no ne ↦ ground (arith, ne)
]

padded :
    (i n size k : ℕ) (old f : ℕ → ℕ)
    → i ≡ n
    → k < size
    → fill old i (size - i) (λ t. b' ') k
      ≡ (if ltb k i then old k else if ltb k n then f k else b' ')
padded i n size k old f here lt = ground (arith, here, lt)

pub upper_name_lem :
    (s name : ℕ → ℕ) (n m left i : ℕ)
    → IsShort s n m
    → i + left ≡ 8
    → i ≤ n
    → ((k : ℕ)
        → k < 8
        → (upper_name left i s name).0 k
          ≡ (if ltb k i then name k else if ltb k n then toupper (s k) % 256 else b' '))
      × ((upper_name left i s name).1 ≡ some (if m == 0 then n else n + 1))
unfolding upper_name
upper_name_lem s name n m zero i short whole le = absurd (omega (arith, whole, le, short.name_fits))
upper_name_lem s name n m (suc left) i short whole le = elim (dec_lt i n) [
  | yes inside ↦
      let (low, high) = short.letters i inside in
      let no_dot : (s i == b'.') ≡ false = ground (arith, low) in
      let no_end : (s i == 0) ≡ false = ground (arith, low) in
      let c = toupper (s i) % 256 in
      let (chars, at) =
        upper_name_lem s (put name i c) n m left (i + 1) short (omega (arith, whole))
          (omega (arith, inside)) in
      rw (no_dot, no_end)
        (λ k lt. chars k lt ∙ put_char i n k c (λ t. toupper (s t) % 256) name inside refl, at)
  | no behind ↦
      let here : i ≡ n = omega (arith, behind, le) in
      elim (dec_lt 0 m) [
        | yes some_ext ↦
            let is_dot : (s i == b'.') ≡ true =
              ground (arith, here, ap s here, short.dot some_ext) in
            rw is_dot (
              λ k lt. padded i n 8 k name (λ t. toupper (s t) % 256) here lt,
              ap some (ground (arith, here, some_ext)),
            )
        | no none_there ↦
            let no_ext : m ≡ 0 = omega (arith, none_there) in
            let at : s i ≡ 0 = ap s here ∙ short.no_ext no_ext in
            let no_dot : (s i == b'.') ≡ false = ground (arith, at) in
            let is_end : (s i == 0) ≡ true = ground (arith, at) in
            rw (no_dot, is_end)
              (
                λ k lt. padded i n 8 k name (λ t. toupper (s t) % 256) here lt,
                ap some (ground (arith, here, no_ext)),
              )
      ]
]

pub upper_ext_lem :
    (s ext : ℕ → ℕ) (n m left i : ℕ)
    → IsShort s n m
    → 0 < m
    → i + left ≡ 3
    → i ≤ m
    → (k : ℕ) → k < 3
    → upper_ext left i (n + 1) s ext k
      ≡ (if ltb k i then ext k else if ltb k m then toupper (s (n + 1 + k)) % 256 else b' ')
unfolding upper_ext
upper_ext_lem s ext n m zero i short some_ext whole le k lt = ground (arith, whole, lt)
upper_ext_lem s ext n m (suc left) i short some_ext whole le k lt = elim (dec_lt i m) [
  | yes inside ↦
      let (low, high) = short.more i inside in
      let no_end : (s (n + 1 + i) == 0) ≡ false = ground (arith, low) in
      let c = toupper (s (n + 1 + i)) % 256 in
      rw no_end (
        upper_ext_lem s (put ext i c) n m left (i + 1) short some_ext (omega (arith, whole))
          (omega (arith, inside)) k lt
        ∙ put_char i m k c (λ t. toupper (s (n + 1 + t)) % 256) ext inside refl)
  | no behind ↦
      let here : i ≡ m = omega (arith, behind, le) in
      let is_end : (s (n + 1 + i) == 0) ≡ true =
        ground (arith, ap (λ t. s (n + 1 + t)) here, short.stop some_ext) in
      rw is_end (padded i m 3 k ext (λ t. toupper (s (n + 1 + t)) % 256) here lt)
]
