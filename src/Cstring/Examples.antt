-- ===== src/Cstring/Examples.antt =====
-- Runs of the string functions, and the theorems about them at concrete strings.
use test_os.Base.{ℕ, ◌+◌, ◌≡◌, ◌⊎◌, ◌↔◌, refl, List, [], ◌∷◌, ◌++◌, arith, codes, length, some}
use test_os.Base.Memory.{Memory, memory_at}
use test_os.Cstring.{Order, Tokenizer, strlen, strcmp, strtok}
use test_os.Cstring.Compare.{TextLt, strcmp-Holds}
use test_os.Cstring.Token.{Skips, Cuts, strtok-Cuts}

-- "/usr/bin" at 100, "/" at 109, "/usr/lib" at 111.
abbrev paths : Memory
paths = memory_at 100 (codes "/usr/bin" ++ (0 ∷ (codes "/" ++ (0 ∷ codes "/usr/lib"))))

lengths : (strlen 9 paths 100 ≡ some 8) × (strlen 9 paths 109 ≡ some 1)
unfolding strlen
lengths = (refl, refl)

strcmp-Holds_example :
    (answer : Order) × (strcmp 9 paths 100 111 ≡ some answer)
    × ((answer ≡ Order.less) ↔ TextLt (codes "/usr/bin") (codes "/usr/lib"))
    × ((answer ≡ Order.more) ↔ TextLt (codes "/usr/lib") (codes "/usr/bin"))
    × ((answer ≡ Order.same) ↔ (codes "/usr/bin" ≡ codes "/usr/lib"))
strcmp-Holds_example =
    strcmp-Holds (codes "/usr/bin") (codes "/usr/lib") 9 paths 100 111 (omega arith) (omega arith)
      (omega arith)

strtok-Cuts_example :
    (lead rest : List ℕ) × (codes "/usr/bin" ≡ lead ++ rest)
    × Skips (codes "/") lead rest
    × (((rest ≡ [])
          × (strtok 2 9 paths 0 100 109 ≡ some (record { tok = 0; last = 0; memory = paths })))
        ⊎ ((token tail : List ℕ) × (r : Tokenizer) × (strtok 2 9 paths 0 100 109 ≡ some r)
            × Cuts (codes "/") paths (100 + length lead) rest token tail r))
strtok-Cuts_example =
    strtok-Cuts (codes "/") (codes "/usr/bin") 2 9 paths 0 100 109 (omega arith) (omega arith)
      (omega arith) (omega arith) (omega arith)
