-- ===== src/Thread/Chain.antt =====
-- Linked lists of threads: from a pointer the `next` fields lead through the given addresses to NULL.
use test_os.Base.{ℕ, ◌≡◌, ◌≢◌, sym, arith, List, [], ◌∷◌, ◌++◌, All, All-append, subst}
use test_os.Thread.{Thread, set_next}

abbrev pub Nodes : Type 0
Nodes = ℕ → Thread

abbrev pub Chain : Nodes → ℕ → List ℕ → Type 0
Chain nodes p [] = p ≡ 0
Chain nodes p (x ∷ xs) = (p ≡ x) × (x ≢ 0) × Chain nodes (nodes x).next xs

abbrev pub Lacks : ℕ → List ℕ → Type 0
Lacks p xs = All (λ q. q ≢ p) xs

-- No address stands in the list twice.
abbrev pub Distinct : List ℕ → Type 0
Distinct [] = Unit
Distinct (x ∷ xs) = Lacks x xs × Distinct xs

-- The last of `w ∷ ws`.
abbrev pub last : ℕ → List ℕ → ℕ
last w [] = w
last w (v ∷ vs) = last v vs

module _ {κ λ'} (P : ℕ → Type κ) (Q : ℕ → Type λ') where
  pub All-mono : (xs : List ℕ) → ((a : ℕ) → P a → Q a) → All P xs → All Q xs
  All-mono [] h all = tt
  All-mono (x ∷ xs) h (p, all) = (h x p, All-mono xs h all)

  pub All-zip : (xs : List ℕ) → All P xs → All Q xs → All (λ a. P a × Q a) xs
  All-zip [] p q = tt
  All-zip (x ∷ xs) (p, ps) (q, qs) = ((p, q), All-zip xs ps qs)

module _ {κ} (P : ℕ → Type κ) where
  pub All-split : (xs ys : List ℕ) → All P (xs ++ ys) → All P xs × All P ys
  All-split [] ys all = (tt, all)
  All-split (x ∷ xs) ys (p, all) = let (l, r) = All-split xs ys all in ((p, l), r)

  pub All-last : (w : ℕ) (ws : List ℕ) → P w → All P ws → P (last w ws)
  All-last w [] p all = p
  All-last w (v ∷ vs) p (q, all) = All-last v vs q all

-- A change that keeps the `next` of each member keeps the chain.
pub Chain-frame :
    (nodes nodes' : Nodes) (p : ℕ) (xs : List ℕ)
    → All (λ q. (nodes' q).next ≡ (nodes q).next) xs
    → Chain nodes p xs
    → Chain nodes' p xs
Chain-frame nodes nodes' p [] same chain = chain
Chain-frame nodes nodes' p (x ∷ xs) (e, same) (at, ne, chain) =
    (at, ne, rw e (Chain-frame nodes nodes' (nodes x).next xs same chain))

pub Distinct-split :
    (xs : List ℕ) (x : ℕ) (ys : List ℕ)
    → Distinct (xs ++ (x ∷ ys))
    → Distinct (xs ++ ys) × Lacks x (xs ++ ys)
Distinct-split [] x ys (out, d) = (d, out)
Distinct-split (w ∷ ws) x ys (out, d) =
    let (l, r) = All-split (λ q. q ≢ w) ws (x ∷ ys) out in
    let (d', out') = Distinct-split ws x ys d in
    ((All-append (λ q. q ≢ w) ws ys l r.1, d'), ((λ e. r.0 (sym e)), out'))

pub set_next_self : (nodes : Nodes) (p q : ℕ) → (set_next nodes p q p).next ≡ q
set_next_self nodes p q = ground arith

pub set_next_ne : (nodes : Nodes) (p q a : ℕ) → a ≢ p → (set_next nodes p q a).next ≡ (nodes a).next
set_next_ne nodes p q a ne = ground arith

-- A write to the `next` of a node outside the chain.
pub Chain-set_next :
    (nodes : Nodes) (a q p : ℕ) (xs : List ℕ)
    → Lacks a xs
    → Chain nodes p xs
    → Chain (set_next nodes a q) p xs
Chain-set_next nodes a q p xs out = Chain-frame nodes (set_next nodes a q) p xs (
    All-mono (λ b. b ≢ a) (λ b. (set_next nodes a q b).next ≡ (nodes b).next) xs
      (λ b ne. set_next_ne nodes a q b ne) out)

-- Taking out the node behind `w ∷ ws`.
pub Chain-unlink :
    (nodes : Nodes) (p w : ℕ) (ws : List ℕ) (x : ℕ) (ys : List ℕ)
    → Distinct ((w ∷ ws) ++ (x ∷ ys))
    → Chain nodes p ((w ∷ ws) ++ (x ∷ ys))
    → Chain (set_next nodes (last w ws) (nodes x).next) p ((w ∷ ws) ++ ys)
Chain-unlink nodes p w [] x ys (out, d) (at, ne, (at', ne', chain)) = (
  at,
  ne,
  subst (λ q. Chain (set_next nodes w (nodes x).next) q ys)
      (sym (set_next_self nodes w (nodes x).next))
      (Chain-set_next nodes w (nodes x).next (nodes x).next ys out.1 chain),
)
Chain-unlink nodes p w (v ∷ vs) x ys (out, d) (at, ne, chain) =
    let nodes' = set_next nodes (last v vs) (nodes x).next in
    let behind = Chain-unlink nodes (nodes w).next v vs x ys d chain in
    let other : w ≢ last v vs =
      λ e. All-last (λ q. q ≢ w) v vs out.0 (All-split (λ q. q ≢ w) vs (x ∷ ys) out.1).0 (sym e) in
    (
      at,
      ne,
      subst (λ q. Chain nodes' q ((v ∷ vs) ++ ys))
          (sym (set_next_ne nodes (last v vs) (nodes x).next w other)) behind,
    )

pub Chain-last :
    (nodes : Nodes) (p w : ℕ) (ws ys : List ℕ) → Chain nodes p ((w ∷ ws) ++ ys) → last w ws ≢ 0
Chain-last nodes p w [] ys (at, ne, chain) = ne
Chain-last nodes p w (v ∷ vs) ys (at, ne, chain) = Chain-last nodes (nodes w).next v vs ys chain
