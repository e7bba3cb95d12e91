-- ===== src/Text/Examples.antt =====
-- Runs of the conversions, and the theorems about them at concrete numbers.
use test_os.Base.{inl, ◌≡◌, ℕ, refl, List, [], ◌∷◌, ◌++◌, arith, codes, length}
use test_os.Text.{fill_tmp, base10_string, base8_string, base16_string, base2_string}
use test_os.Text.Print.{Spells, decimal_value, IsDecimal, base10_string-unsigned}

prints :
    ((base10_string 1024 0).stored ≡ codes "1024" ++ (0 ∷ []))
    × ((base16_string 0xbeef 0).stored ≡ codes "beef" ++ (0 ∷ []))
    × ((base8_string 8 0).stored ≡ codes "10")
    × ((base2_string 5 0).stored ≡ codes "101" ++ (0 ∷ []))
unfolding base10_string base16_string base8_string base2_string fill_tmp
prints = (refl, refl, refl, refl)

-- -1 is printed as -2147483647.
prints_minus_one : (base10_string 0xffff_ffff 1).stored ≡ codes "-2147483647" ++ (0 ∷ [])
unfolding base10_string fill_tmp
prints_minus_one = refl

base10_string-unsigned_example :
    (text : List ℕ) × ((base10_string 0xffff_ffff 0).stored ≡ text ++ (0 ∷ []))
    × ((base10_string 0xffff_ffff 0).count ≡ length text)
    × Spells 10 decimal_value IsDecimal 1 10 text 0xffff_ffff
base10_string-unsigned_example = base10_string-unsigned 0xffff_ffff 0 (omega arith) (inl refl)
