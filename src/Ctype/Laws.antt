-- ===== src/Ctype/Laws.antt =====
-- Case conversion of libraries/ctype.c, decided over all bytes.
use test_os.Base.{
  ℕ, ◌≡◌, ◌≤◌, ◌<◌, ◌+◌, ◌-◌, ◌⊎◌, refl, true, ◌&&◌, arith, leb, ◌==◌, if◌then◌else◌,
}
use test_os.Base.Bits.{table_holds, table_holds_lem}
use test_os.Ctype.{minus_one, toupper, tolower}

abbrev pub IsLower : ℕ → Type 0
IsLower c = (b'a' ≤ c) × (c ≤ b'z')

abbrev pub IsUpper : ℕ → Type 0
IsUpper c = (b'A' ≤ c) × (c ≤ b'Z')

upper_table :
    table_holds (λ c. toupper c == (if leb b'a' c && leb c b'z' then c - 32 else minus_one)) 256
    ≡ true
unfolding table_holds toupper
upper_table = refl

lower_table :
    table_holds (λ c. tolower c == (if leb b'A' c && leb c b'Z' then c + 32 else minus_one)) 256
    ≡ true
unfolding table_holds tolower
lower_table = refl

upper_lem : (c : ℕ) → c < 256 → toupper c ≡ (if leb b'a' c && leb c b'z' then c - 32 else minus_one)
upper_lem c h = ground (arith, table_holds_lem _ 256 c upper_table h)

lower_lem : (c : ℕ) → c < 256 → tolower c ≡ (if leb b'A' c && leb c b'Z' then c + 32 else minus_one)
lower_lem c h = ground (arith, table_holds_lem _ 256 c lower_table h)

-- On every byte: `toupper` takes a lower-case letter to its capital, from which `tolower` gives it
-- back, and the other way round; and `toupper` returns -1 exactly for what is no lower-case letter,
-- `tolower` exactly for what is no capital.
pub toupper-tolower :
    (c : ℕ)
    → c < 256
    → (IsLower c → IsUpper (toupper c) × (tolower (toupper c) ≡ c))
      × (IsUpper c → IsLower (tolower c) × (toupper (tolower c) ≡ c))
      × ((toupper c ≡ minus_one) ⊎ IsLower c)
      × ((tolower c ≡ minus_one) ⊎ IsUpper c)
toupper-tolower c h = (
  (λ l. ground (arith, upper_lem c h, lower_lem (toupper c))),
  (λ l. ground (arith, lower_lem c h, upper_lem (tolower c))),
  ground (arith, upper_lem c h),
  ground (arith, lower_lem c h),
)
