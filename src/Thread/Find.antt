-- ===== src/Thread/Find.antt =====
-- `thread_find_by_tid` of kernel/thread.c, and the searches of two lists that its callers make.
use test_os.Base.{
  ℕ, zero, suc, ◌<◌, ◌≡◌, ◌≢◌, ◌⊎◌, inl, inr, refl, ap, arith, false, List, [], ◌∷◌, ◌++◌, All,
  length, ◌==◌, Bool-cases, Option, some, none,
}
use test_os.Thread.{
  Threads, Found, found, missing, out_of_fuel, find_loop, thread_find_by_tid, in_either, pe_unlock,
}
use test_os.Thread.Chain.{Nodes, Chain, last}

-- The list holds the node `p` with the id `tid` between `ws` and `ys`, the first such.
pub record Split (nodes : Nodes) (tid : ℕ) (xs ws : List ℕ) (p : ℕ) (ys : List ℕ) : Type 0 where
  pub parts : xs ≡ ws ++ (p ∷ ys)
  pub earlier : All (λ q. (nodes q).tid ≢ tid) ws
  pub named : (nodes p).tid ≡ tid

-- What a search of the list `xs` from its head on gives.
abbrev pub Lookup : Nodes → ℕ → ℕ → List ℕ → Found → Type 0
Lookup nodes tid prev xs (found prev' p) =
    (ws : List ℕ) × (ys : List ℕ) × Split nodes tid xs ws p ys × (prev' ≡ last prev ws)
Lookup nodes tid prev xs missing = All (λ q. (nodes q).tid ≢ tid) xs
Lookup nodes tid prev xs out_of_fuel = ⊥

Lookup-cons :
    (nodes : Nodes) (tid prev x : ℕ) (xs : List ℕ) (r : Found)
    → (nodes x).tid ≢ tid
    → Lookup nodes tid x xs r
    → Lookup nodes tid prev (x ∷ xs) r
Lookup-cons nodes tid prev x xs (found prev' p) ne (ws, ys, s, at) = (
  x ∷ ws,
  ys,
  record { parts = ap (λ t. x ∷ t) s.parts; earlier = (ne, s.earlier); named = s.named },
  at,
)
Lookup-cons nodes tid prev x xs missing ne all = (ne, all)
Lookup-cons nodes tid prev x xs out_of_fuel ne fault = fault

pub find_loop-Lookup :
    (xs : List ℕ) (fuel : ℕ) (nodes : Nodes) (tid prev p : ℕ)
    → length xs < fuel
    → Chain nodes p xs
    → Lookup nodes tid prev xs (find_loop fuel nodes tid prev p)
unfolding find_loop
find_loop-Lookup [] zero nodes tid prev p lt at = absurd (omega arith)
find_loop-Lookup [] (suc fuel) nodes tid prev p lt at = rw at tt
find_loop-Lookup (x ∷ xs) zero nodes tid prev p lt chain = absurd (omega arith)
find_loop-Lookup (x ∷ xs) (suc fuel) nodes tid prev p lt (at, ne, chain) =
    let some_node : (x == 0) ≡ false = ground arith in
    rw (at, some_node)
      (elim (Bool-cases ((nodes x).tid == tid)) [
        | inl hit ↦
            rw hit ([], xs, record { parts = refl; earlier = tt; named = ground arith }, refl)
        | inr miss ↦ rw miss (
            Lookup-cons nodes tid prev x xs (find_loop fuel nodes tid x (nodes x).next)
              (ground arith)
              (find_loop-Lookup xs fuel nodes tid x (nodes x).next (omega arith) chain))
      ])

-- What a search of two lists comes to: `act` on the node that one of them holds, or nothing.
abbrev pub Either :
    Threads
    → ℕ
    → (first second : ℕ) → (ℕ → List ℕ)
    → (ℕ → ℕ → ℕ → Threads → Threads)
    → Option Threads
    → Type 0
Either s tid first second lists act r =
    ((a : ℕ) × (ws : List ℕ) × (p : ℕ) × (ys : List ℕ) × ((a ≡ first) ⊎ (a ≡ second))
      × Split s.node tid (lists a) ws p ys
      × (r ≡ some (act a (last 0 ws) p s)))
    ⊎ (All (λ q. (s.node q).tid ≢ tid) (lists first)
        × All (λ q. (s.node q).tid ≢ tid) (lists second)
        × (r ≡ some (pe_unlock s)))

module _ (fuel tid first second : ℕ) (act : ℕ → ℕ → ℕ → Threads → Threads) (s : Threads)
    (lists : ℕ → List ℕ) where
  second_search :
      (r : Found)
      → All (λ q. (s.node q).tid ≢ tid) (lists first)
      → Lookup s.node tid 0 (lists second) r
      → Either s tid first second lists act (elim r [
        | found prev p ↦ some (act second prev p s)
        | out_of_fuel ↦ none
        | missing ↦ some (pe_unlock s)
      ])
  second_search (found prev p) none_first (ws, ys, split, at) =
      inl (second, ws, p, ys, inr refl, split, ap (λ t. some (act second t p s)) at)
  second_search missing none_first none_second = inr (none_first, none_second, refl)
  second_search out_of_fuel none_first fault = absurd fault

  first_search :
      (r : Found)
      → Lookup s.node tid 0 (lists first) r
      → Lookup s.node tid 0 (lists second) (thread_find_by_tid fuel s tid second)
      → Either s tid first second lists act (elim r [
        | found prev p ↦ some (act first prev p s)
        | out_of_fuel ↦ none
        | missing ↦ elim (thread_find_by_tid fuel s tid second) [
          | found prev p ↦ some (act second prev p s)
          | out_of_fuel ↦ none
          | missing ↦ some (pe_unlock s)
        ]
      ])
  first_search (found prev p) (ws, ys, split, at) behind =
      inl (first, ws, p, ys, inl refl, split, ap (λ t. some (act first t p s)) at)
  first_search missing none_first behind =
      second_search (thread_find_by_tid fuel s tid second) none_first behind
  first_search out_of_fuel fault behind = absurd fault

  pub in_either-Either :
      Chain s.node (s.thread_head first) (lists first)
      → Chain s.node (s.thread_head second) (lists second)
      → length (lists first) < fuel
      → length (lists second) < fuel
      → Either s tid first second lists act (in_either fuel tid first second act s)
  unfolding in_either thread_find_by_tid
  in_either-Either one two lt lt' =
      first_search (find_loop fuel s.node tid 0 (s.thread_head first))
        (find_loop-Lookup (lists first) fuel s.node tid 0 (s.thread_head first) lt one)
        (find_loop-Lookup (lists second) fuel s.node tid 0 (s.thread_head second) lt' two)
