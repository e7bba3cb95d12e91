-- ===== src/Timer/Wake.antt =====
-- Waking a thread whose place on the suspended list is known.
use test_os.Base.{
  ap₂, ℕ, zero, suc, ◌<◌, ◌≡◌, ◌≢◌, refl, sym, ◌∙◌, ap, subst, arith, true, false, List, [], ◌∷◌,
  ◌++◌, All, length, ◌==◌, Option, some, none,
}
use test_os.Thread.{
  Threads, Found, found, missing, out_of_fuel, find_loop, thread_find_by_tid, in_either, pe_lock,
  pe_unlock, wake_found, thread_wake, thread_ready, thread_suspended,
}
use test_os.Thread.Chain.{
  Nodes, Chain, Distinct, last, All-mono, All-zip, All-split, Distinct-split,
}
use test_os.Thread.State.{Member, IsThreads}
use test_os.Thread.Unlink.{at_p, Chain-here}

pub find_loop-at :
    (ws : List ℕ) (y : ℕ) (ys : List ℕ) (fuel : ℕ) (nodes : Nodes) (tid prev p : ℕ)
    → length (ws ++ (y ∷ ys)) < fuel
    → Chain nodes p (ws ++ (y ∷ ys))
    → All (λ q. (nodes q).tid ≢ tid) ws
    → (nodes y).tid ≡ tid
    → find_loop fuel nodes tid prev p ≡ found (last prev ws) y
unfolding find_loop
find_loop-at ws y ys zero nodes tid prev p few chain others named = absurd (omega arith)
find_loop-at [] y ys (suc fuel) nodes tid prev p few (at, ne, chain) others named =
    let some_node : (y == 0) ≡ false = ground arith in
    let hit : ((nodes y).tid == tid) ≡ true = ground arith in rw (at, some_node, hit) refl
find_loop-at (w ∷ ws) y ys (suc fuel) nodes tid prev p few (at, ne, chain) (other, others) named =
    let some_node : (w == 0) ≡ false = ground arith in
    let miss : ((nodes w).tid == tid) ≡ false = ground arith in
    rw (at, some_node, miss)
      (find_loop-at ws y ys fuel nodes tid w (nodes w).next (omega arith) chain others named
        ∙ ap (λ t. found t y) (last_cons w ws prev))
  where
    last_cons : (v : ℕ) (vs : List ℕ) (u : ℕ) → last v vs ≡ last u (v ∷ vs)
    last_cons v vs u = refl

find_loop-missing :
    (xs : List ℕ) (fuel : ℕ) (nodes : Nodes) (tid prev p : ℕ)
    → length xs < fuel
    → Chain nodes p xs
    → All (λ q. (nodes q).tid ≢ tid) xs
    → find_loop fuel nodes tid prev p ≡ missing
unfolding find_loop
find_loop-missing xs zero nodes tid prev p few chain others = absurd (omega arith)
find_loop-missing [] (suc fuel) nodes tid prev p few at others = rw at refl
find_loop-missing (x ∷ xs) (suc fuel) nodes tid prev p few (at, ne, chain) (other, others) =
    let some_node : (x == 0) ≡ false = ground arith in
    let miss : ((nodes x).tid == tid) ≡ false = ground arith in
    rw (at, some_node, miss)
      (find_loop-missing xs fuel nodes tid x (nodes x).next (omega arith) chain others)

in_either_second :
    (fuel tid first second : ℕ) (act : ℕ → ℕ → ℕ → Threads → Threads) (s : Threads) (prev p : ℕ)
    → thread_find_by_tid fuel s tid first ≡ missing
    → thread_find_by_tid fuel s tid second ≡ found prev p
    → in_either fuel tid first second act s ≡ some (act second prev p s)
unfolding in_either
in_either_second fuel tid first second act s prev p none_first at =
    ap₂
      (λ (one two : Found). elim one as (λ _. Option Threads) [
        | found prev p ↦ some (act first prev p s)
        | out_of_fuel ↦ none
        | missing ↦ elim two as (λ _. Option Threads) [
          | found prev p ↦ some (act second prev p s)
          | out_of_fuel ↦ none
          | missing ↦ some (pe_unlock s)
        ]
      ])
      none_first at

module _ (s : Threads) (owner : ℕ → ℕ) (lists : ℕ → List ℕ) (h : IsThreads s owner lists)
    (ws : List ℕ) (y : ℕ) (ys : List ℕ) (parts : lists thread_suspended ≡ ws ++ (y ∷ ys)) where
  here : Member s owner thread_suspended y
  here = at_p s owner lists h thread_suspended (omega arith) ws y ys parts

  -- Other members have other ids.
  other_tid : (a q : ℕ) → q ≢ y → Member s owner a q → (s.node q).tid ≢ (s.node y).tid
  other_tid a q ne m e = ne (sym m.own ∙ ap owner e ∙ here.own)

  pub earlier_tids : All (λ q. (s.node q).tid ≢ (s.node y).tid) ws
  earlier_tids =
      let distinct = subst Distinct parts (h.distinct thread_suspended (omega arith)) in
      let members =
        subst (All (Member s owner thread_suspended)) parts
          (h.members thread_suspended (omega arith)) in
      All-mono (λ q. (q ≢ y) × Member s owner thread_suspended q)
        (λ q. (s.node q).tid ≢ (s.node y).tid) ws (λ q (ne, m). other_tid thread_suspended q ne m)
        (All-zip (λ q. q ≢ y) (Member s owner thread_suspended) ws
          (All-split (λ q. q ≢ y) ws ys (Distinct-split ws y ys distinct).1).0
          (All-split (Member s owner thread_suspended) ws (y ∷ ys) members).0)

  none_ready : All (λ q. (s.node q).tid ≢ (s.node y).tid) (lists thread_ready)
  none_ready =
      All-mono (Member s owner thread_ready) (λ q. (s.node q).tid ≢ (s.node y).tid)
        (lists thread_ready)
        (λ q m.
          other_tid thread_ready q
            (λ e. absurd (omega (arith, m.status, here.status, ap (λ t. (s.node t).status) e))) m)
        (h.members thread_ready (omega arith))

  pub wake_here :
      (fuel : ℕ)
      → length (lists thread_ready) < fuel
      → length (lists thread_suspended) < fuel
      → thread_wake fuel (s.node y).tid s
        ≡ some (pe_unlock (wake_found thread_suspended (last 0 ws) y (pe_lock s)))
  unfolding thread_wake thread_find_by_tid
  wake_here fuel few few' =
      in_either_second fuel (s.node y).tid thread_ready thread_suspended
        (λ status prev p s'. pe_unlock (wake_found status prev p s')) (pe_lock s) (last 0 ws) y
        (find_loop-missing (lists thread_ready) fuel s.node (s.node y).tid 0
          (s.thread_head thread_ready) few (h.chain thread_ready (omega arith)) none_ready)
        (find_loop-at ws y ys fuel s.node (s.node y).tid 0 (s.thread_head thread_suspended)
          (subst (λ xs. length xs < fuel) parts few')
          (Chain-here s owner lists h thread_suspended (omega arith) ws y ys parts) earlier_tids
          refl)
