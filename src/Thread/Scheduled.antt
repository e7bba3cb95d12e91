-- ===== src/Thread/Scheduled.antt =====
-- The running list of kernel/thread.c holds the current thread and the cleaner, thread 0.
use test_os.Base.{ℕ, ◌≡◌, ◌≢◌, ◌⊎◌, inl, inr, refl, sym, ◌∙◌, subst, List, [], ◌∷◌, ◌++◌, All}
use test_os.Thread.{Threads, thread_running}
use test_os.Thread.Chain.{Nodes, Chain}
use test_os.Thread.Switch.{successor}

abbrev pub Has : ℕ → List ℕ → Type 0
Has q [] = ⊥
Has q (x ∷ xs) = (q ≡ x) ⊎ Has q xs

pub record IsScheduled (s : Threads) (lists : ℕ → List ℕ) : Type 0 where
  pub here : Has s.current_thread (lists thread_running)
  pub none_fixed : s.fix_next_thread ≡ 0
  pub cleaner : (c : ℕ) × Has c (lists thread_running) × ((s.node c).tid ≡ 0)

pub Has-remove :
    (q : ℕ) (ws : List ℕ) (p : ℕ) (ys : List ℕ) → q ≢ p → Has q (ws ++ (p ∷ ys)) → Has q (ws ++ ys)
Has-remove q [] p ys ne (inl e) = absurd (ne e)
Has-remove q [] p ys ne (inr has) = has
Has-remove q (w ∷ ws) p ys ne (inl e) = inl e
Has-remove q (w ∷ ws) p ys ne (inr has) = inr (Has-remove q ws p ys ne has)

Has-append : (q : ℕ) (xs ys : List ℕ) → Has q ys → Has q (xs ++ ys)
Has-append q [] ys has = has
Has-append q (x ∷ xs) ys has = inr (Has-append q xs ys has)

-- With another thread in the list, there is a successor.
pub Has-successor : (q : ℕ) (ws ys : List ℕ) → Has q (ws ++ ys) → Has (successor ws ys) (ws ++ ys)
Has-successor q [] [] has = has
Has-successor q (w ∷ ws) [] has = inl refl
Has-successor q ws (y ∷ ys) has = Has-append y ws (y ∷ ys) (inl refl)

pub Has-some : (nodes : Nodes) (p q : ℕ) (xs : List ℕ) → Chain nodes p xs → Has q xs → q ≢ 0
Has-some nodes p q [] at has = absurd has
Has-some nodes p q (x ∷ xs) (at, ne, chain) (inl e) = λ e'. ne (sym e ∙ e')
Has-some nodes p q (x ∷ xs) (at, ne, chain) (inr has) = Has-some nodes (nodes x).next q xs chain has

pub All-Has {κ} : (P : ℕ → Type κ) (q : ℕ) (xs : List ℕ) → All P xs → Has q xs → P q
All-Has P q [] all has = absurd has
All-Has P q (x ∷ xs) (p, all) (inl e) = subst P (sym e) p
All-Has P q (x ∷ xs) (p, all) (inr has) = All-Has P q xs all has
