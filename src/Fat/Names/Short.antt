-- ===== src/Fat/Names/Short.antt =====
-- Short names of kernel/fat32.c on their way to the disk and back.
use native.Mathlib.Decide.{dec_lt, ℕ_discrete}
use test_os.Base.{
  ℕ, ◌+◌, ◌-◌, ◌%◌, ◌≤◌, ◌<◌, ◌≡◌, ◌≢◌, refl, sym, ◌∙◌, ap, arith, true, false, ltb, ◌==◌,
  if◌then◌else◌, Option, some,
}
use test_os.Base.Memory.{within}
use test_os.Ctype.{toupper, tolower}
use test_os.Ctype.Laws.{IsLower, IsUpper}
use test_os.Fat.Names.{
  DiskEntry, put, lower_chars, short_fn_to_string, parse_ext, string_to_short_fn,
}
use test_os.Fat.Names.Loops.{
  toupper-IsUpper, IsField, printed, lower_chars_lem, IsShort, upper_name_lem, upper_ext_lem,
}

parse_ext_lem :
    (s ext : ℕ → ℕ) (n m j : ℕ)
    → IsShort s n m
    → j < 3
    → parse_ext (some (if m == 0 then n else n + 1)) s ext j
      ≡ (if ltb j m then toupper (s (n + 1 + j)) % 256 else b' ')
unfolding parse_ext
parse_ext_lem s ext n m j short lt = elim (dec_lt 0 m) [
  | yes some_ext ↦
      let there : (m == 0) ≡ false = ground (arith, some_ext) in
      let letter = short.more 0 some_ext in
      let start : (s (n + 1) == 0) ≡ false =
        ground (arith, letter, ap s {x = n + 1 + 0} {y = n + 1} (omega arith)) in
      rw (there, start)
        (upper_ext_lem s ext n m 3 0 short some_ext refl (omega arith) j lt ∙ ground arith)
  | no none_there ↦
      let no_ext : m ≡ 0 = omega (arith, none_there) in
      let empty : (m == 0) ≡ true = ground (arith, no_ext) in
      let start : (s n == 0) ≡ true = ground (arith, short.no_ext no_ext) in
      rw (empty, start) (ground (arith, lt, no_ext))
]

-- The fields on the disk.
abbrev IsOnDisk : (s : ℕ → ℕ) (n m : ℕ) → DiskEntry → Type 0
IsOnDisk s n m e =
    ((k : ℕ) → k < 8 → e.name k ≡ (if ltb k n then toupper (s k) % 256 else b' '))
    × ((k : ℕ) → k < 3 → e.ext k ≡ (if ltb k m then toupper (s (n + 1 + k)) % 256 else b' '))

string_to_short_fn-IsOnDisk :
    (strchr : (buf : ℕ → ℕ) (c p : ℕ) → Option ℕ) (entry : DiskEntry) (s : ℕ → ℕ) (n m : ℕ)
    → IsShort s n m
    → IsOnDisk s n m (string_to_short_fn strchr entry s)
unfolding string_to_short_fn
string_to_short_fn-IsOnDisk strchr entry s n m short =
    let (chars, at) = upper_name_lem s entry.name n m 8 0 short refl (omega arith) in
    (λ k lt. chars k lt ∙ ground arith, λ k lt. rw at (parse_ext_lem s entry.ext n m k short lt))

field-IsUpper : (v c : ℕ) → v ≡ toupper c % 256 → IsLower c → IsUpper v
field-IsUpper v c at lower =
    let (low, high) = (toupper-IsUpper c lower).0 in
    (omega (arith, at, low), omega (arith, at, high))

field_back : (v c : ℕ) → v ≡ toupper c % 256 → IsLower c → tolower v % 256 ≡ c
field_back v c at lower = ap (λ t. tolower t % 256) at ∙ (toupper-IsUpper c lower).1

if_below : (k n x y : ℕ) → k < n → (if ltb k n then x else y) ≡ x
if_below k n x y lt = ground (arith, lt)

if_empty : (m x y k n : ℕ) → m ≡ 0 → k ≤ (if m == 0 then x else y) → ¬ (k < n) → x ≡ n → k ≡ n
if_empty m x y k n no_ext le behind at = ground (arith, no_ext, le, behind, at)

put_ne : (b : ℕ → ℕ) (i c k : ℕ) → k ≢ i → put b i c k ≡ b k
put_ne b i c k ne = ground (arith, ne)

put_at : (b : ℕ → ℕ) (i c k : ℕ) → k ≡ i → put b i c k ≡ c
put_at b i c k e = ground (arith, e)

in_within :
    (start n k x y : ℕ) → start ≤ k → k < start + n → (if within start n k then x else y) ≡ x
in_within start n k x y low high = ground (arith, low, high)

in_before : (start n k x y : ℕ) → k < start → (if within start n k then x else y) ≡ y
in_before start n k x y low = ground (arith, low)

before_end : (n m pos k : ℕ) → k < n → pos ≡ (if ltb 0 m then n + 1 + m else n) → k ≢ pos
before_end n m pos k lt at e = absurd (ground (arith, lt, at, e))

-- Back from the disk.
short_fn_to_string-IsOnDisk :
    (e : DiskEntry) (s buf : ℕ → ℕ) (n m k : ℕ)
    → IsShort s n m
    → IsOnDisk s n m e
    → k ≤ (if m == 0 then n else n + 1 + m)
    → short_fn_to_string e buf k ≡ s k
unfolding short_fn_to_string
short_fn_to_string-IsOnDisk e s buf n m k short (name_at, ext_at) le =
    let name_field : IsField 8 n e.name = (
      λ k lt.
          field-IsUpper (e.name k) (s k)
            (name_at k (omega (arith, lt, short.name_fits)) ∙ if_below k _ _ b' ' lt)
            (short.letters k lt),
      λ k low lt. name_at k lt ∙ ground (arith, low),
    ) in
    let ext_field : IsField 3 m e.ext = (
      λ k lt.
          field-IsUpper (e.ext k) (s (n + 1 + k))
            (ext_at k (omega (arith, lt, short.ext_fits)) ∙ if_below k _ _ b' ' lt)
            (short.more k lt),
      λ k low lt. ext_at k lt ∙ ground (arith, low),
    ) in
    let (chars, end) =
      lower_chars_lem 8 0 0 8 n e.name buf 0 refl (omega (arith, short.name_fits)) name_field in
    let name = lower_chars 8 0 0 e.name buf 0 in
    let whole : name.1 ≡ n = end ∙ ground arith in
    let with_dot = put name.0 name.1 b'.' in
    let (chars', end') =
      lower_chars_lem 3 0 (name.1 + 1) 3 m e.ext with_dot name.1 refl short.ext_fits ext_field in
    let ext = lower_chars 3 0 (name.1 + 1) e.ext with_dot name.1 in
    let pos = ext.1 in
    let at_end : pos ≡ (if ltb 0 m then n + 1 + m else n) =
      end' ∙ ap (λ t. printed 0 m (t + 1) t) whole in
    elim (dec_lt k n) [
      | yes inside ↦
          put_ne ext.0 pos 0 k (before_end n m pos k inside at_end)
          ∙ chars' k
          ∙ in_before (name.1 + 1 + 0) 3 k _ (with_dot k) (omega (arith, whole, inside))
          ∙ put_ne name.0 name.1 b'.' k (λ same. absurd (omega (arith, same, whole, inside)))
          ∙ chars k
          ∙ in_within (0 + 0) 8 k _ (buf k) (omega arith) (omega (arith, inside, short.name_fits))
          ∙ ap (λ t. tolower (e.name t) % 256) {x = k - 0} {y = k} (omega arith)
          ∙ field_back (e.name k) (s k)
              (name_at k (omega (arith, inside, short.name_fits)) ∙ if_below k n _ b' ' inside)
              (short.letters k inside)
      | no behind ↦ elim (dec_lt 0 m) [
        | no none_there ↦
            let no_ext : m ≡ 0 = omega (arith, none_there) in
            let here : k ≡ n = if_empty m n (n + 1 + m) k n no_ext le behind refl in
            put_at ext.0 pos 0 k (here ∙ ground (arith, at_end, no_ext))
            ∙ sym (ap s here ∙ short.no_ext no_ext)
        | yes some_ext ↦
            let last : pos ≡ n + 1 + m = at_end ∙ ground (arith, some_ext) in
            let most : k ≤ n + 1 + m = ground (arith, some_ext, le) in
            elim (ℕ_discrete k (n + 1 + m)) [
              | yes at_stop ↦
                  put_at ext.0 pos 0 k (at_stop ∙ sym last)
                  ∙ sym (ap s at_stop ∙ short.stop some_ext)
              | no before ↦
                  put_ne ext.0 pos 0 k (λ same. before (same ∙ last))
                  ∙ chars' k
                  ∙ elim (ℕ_discrete k n) [
                    | yes at_dot ↦
                        in_before (name.1 + 1 + 0) 3 k _ (with_dot k) (omega (arith, whole, at_dot))
                        ∙ put_at name.0 name.1 b'.' k (at_dot ∙ sym whole)
                        ∙ sym (ap s at_dot ∙ short.dot some_ext)
                    | no off_dot ↦
                        let j = k - (n + 1) in
                        let in_ext : j < m = omega (arith, most, before, behind, off_dot) in
                        in_within (name.1 + 1 + 0) 3 k _ (with_dot k)
                          (omega (arith, whole, behind, off_dot))
                          (omega (arith, whole, most, before, short.ext_fits))
                        ∙ ap (λ t. tolower (e.ext t) % 256) {x = k - (name.1 + 1)} {y = j}
                            (omega (arith, whole))
                        ∙ field_back (e.ext j) (s (n + 1 + j))
                            (ext_at j (omega (arith, in_ext, short.ext_fits))
                              ∙ if_below j m _ b' ' in_ext)
                            (short.more j in_ext)
                        ∙ ap s {x = n + 1 + j} {y = k} (omega (arith, behind, off_dot))
                  ]
            ]
      ]
    ]

-- A name comes back from the disk: of up to seven lower-case letters alone, or with a dot and one to
-- three more behind it. What stood in the entry and in the buffer before does not matter.
pub short_fn_to_string-string_to_short_fn :
    (strchr : (buf : ℕ → ℕ) (c p : ℕ) → Option ℕ) (entry : DiskEntry) (s buf : ℕ → ℕ) (n m k : ℕ)
    → IsShort s n m
    → k ≤ (if m == 0 then n else n + 1 + m)
    → short_fn_to_string (string_to_short_fn strchr entry s) buf k ≡ s k
short_fn_to_string-string_to_short_fn strchr entry s buf n m k short le =
    short_fn_to_string-IsOnDisk (string_to_short_fn strchr entry s) s buf n m k short
      (string_to_short_fn-IsOnDisk strchr entry s n m short) le
