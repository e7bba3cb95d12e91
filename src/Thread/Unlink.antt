-- ===== src/Thread/Unlink.antt =====
-- Taking a thread out of its list in kernel/thread.c.
use test_os.Base.{
  ℕ, ◌<◌, ◌≡◌, ◌≢◌, inl, inr, refl, sym, ◌∙◌, ap, subst, arith, false, List, [], ◌∷◌, ◌++◌, All,
  All-append, ◌==◌, Bool-cases,
}
use test_os.Base.Memory.{store}
use test_os.Thread.{Threads, set_next, thread_status_size, unlink}
use test_os.Thread.Chain.{
  Chain, Lacks, Distinct, last, All-mono, All-split, All-last, Distinct-split, Chain-unlink,
  Chain-set_next, Chain-last,
}
use test_os.Thread.State.{
  Member, IsThreads, Detached, with_list, with_list-all, Keeps, Member-frame, store_self, store_ne,
}

pub unlink-Keeps : (s : Threads) (a prev p q : ℕ) → Keeps s (unlink a prev p s) q
unfolding unlink
unlink-Keeps s a prev p q = elim (Bool-cases (prev == 0)) [
  | inl e ↦ rw e (record { same_status = refl; same_tid = refl; same_bitmap = refl })
  | inr ne ↦
      rw ne (record { same_status = ground arith; same_tid = ground arith; same_bitmap = refl })
]

module _ (s : Threads) (owner : ℕ → ℕ) (lists : ℕ → List ℕ) (h : IsThreads s owner lists) (a : ℕ)
    (lt : a < thread_status_size) (ws : List ℕ) (p : ℕ) (ys : List ℕ)
    (parts : lists a ≡ ws ++ (p ∷ ys)) where
  whole : Distinct (ws ++ (p ∷ ys))
  whole = subst Distinct parts (h.distinct a lt)

  members_here : All (Member s owner a) (ws ++ (p ∷ ys))
  members_here = subst (All (Member s owner a)) parts (h.members a lt)

  pub Chain-here : Chain s.node (s.thread_head a) (ws ++ (p ∷ ys))
  Chain-here = subst (Chain s.node (s.thread_head a)) parts (h.chain a lt)

  -- The list of another status has no node of the list `a`.
  apart : (q b : ℕ) → b < thread_status_size → b ≢ a → Member s owner a q → Lacks q (lists b)
  apart q b below ne m =
      All-mono (Member s owner b) (λ r. r ≢ q) (lists b)
        (λ r m' e. ne (sym m'.status ∙ ap (λ t. (s.node t).status) e ∙ m.status))
        (h.members b below)

  pub at_p : Member s owner a p
  at_p = (All-split (Member s owner a) ws (p ∷ ys) members_here).1.0

  pub unlink-Detached : Detached p (with_list lists a (ws ++ ys))
  unlink-Detached =
      with_list-all (λ b xs. b < thread_status_size → Lacks p xs) lists a (ws ++ ys)
        (λ _. (Distinct-split ws p ys whole).1) (λ b ne below. apart p b below ne at_p)

  unlink-Distinct : (b : ℕ) → b < thread_status_size → Distinct (with_list lists a (ws ++ ys) b)
  unlink-Distinct =
      with_list-all (λ b xs. b < thread_status_size → Distinct xs) lists a (ws ++ ys)
        (λ _. (Distinct-split ws p ys whole).0) (λ b ne below. h.distinct b below)

  members_left : All (Member s owner a) (ws ++ ys)
  members_left =
      let (l, r) = All-split (Member s owner a) ws (p ∷ ys) members_here in
      All-append (Member s owner a) ws ys l r.1

  unlink-members :
      (s' : Threads)
      → ((q : ℕ) → Keeps s s' q)
      → (b : ℕ) → b < thread_status_size
      → All (Member s' owner b) (with_list lists a (ws ++ ys) b)
  unlink-members s' keeps =
      with_list-all (λ b xs. b < thread_status_size → All (Member s' owner b) xs) lists a (ws ++ ys)
        (λ _.
          All-mono (Member s owner a) (Member s' owner a) (ws ++ ys)
            (λ q. Member-frame s s' owner a q (keeps q)) members_left)
        (λ b ne below.
          All-mono (Member s owner b) (Member s' owner b) (lists b)
            (λ q. Member-frame s s' owner b q (keeps q)) (h.members b below))

  -- Taking out the first node.
  unlink_first :
      Chain s.node (s.thread_head a) (p ∷ ys)
      → (b : ℕ) → b < thread_status_size
      → Chain (unlink a 0 p s).node ((unlink a 0 p s).thread_head b) (with_list lists a ys b)
  unfolding unlink
  unlink_first (at, ne, chain) =
      with_list-all
        (λ b xs. b < thread_status_size → Chain s.node (store s.thread_head a (s.node p).next b) xs)
        lists a ys
        (λ _.
          subst (λ q. Chain s.node q ys) (sym (store_self s.thread_head a (s.node p).next)) chain)
        (λ b ne below.
          subst (λ q. Chain s.node q (lists b))
            (sym (store_ne s.thread_head a (s.node p).next b ne)) (h.chain b below))

  -- Taking out the node behind `w ∷ vs`.
  unlink_behind :
      (w : ℕ) (vs : List ℕ)
      → Distinct ((w ∷ vs) ++ (p ∷ ys))
      → Chain s.node (s.thread_head a) ((w ∷ vs) ++ (p ∷ ys))
      → All (Member s owner a) ((w ∷ vs) ++ (p ∷ ys))
      → (b : ℕ) → b < thread_status_size
      → Chain
          (unlink a (last w vs) p s).node
          ((unlink a (last w vs) p s).thread_head b)
          (with_list lists a ((w ∷ vs) ++ ys) b)
  unfolding unlink
  unlink_behind w vs distinct chain members =
      let before = All-split (Member s owner a) (w ∷ vs) (p ∷ ys) members in
      let at_prev = All-last (Member s owner a) w vs before.0.0 before.0.1 in
      let some_prev : (last w vs == 0) ≡ false =
        ground (arith, Chain-last s.node (s.thread_head a) w vs (p ∷ ys) chain) in
      rw some_prev (
        with_list-all
          (λ b xs.
            b < thread_status_size
            → Chain (set_next s.node (last w vs) (s.node p).next) (s.thread_head b) xs)
          lists a ((w ∷ vs) ++ ys)
          (λ _. Chain-unlink s.node (s.thread_head a) w vs p ys distinct chain)
          (λ b ne below.
            Chain-set_next s.node (last w vs) (s.node p).next (s.thread_head b) (lists b)
              (apart (last w vs) b below ne at_prev) (h.chain b below)))

-- Taking out a thread that a search has found leaves the lists well formed, without it.
pub unlink-IsThreads :
    (s : Threads) (owner : ℕ → ℕ) (lists : ℕ → List ℕ)
    → IsThreads s owner lists
    → (a : ℕ) → a < thread_status_size
    → (ws : List ℕ) (p : ℕ) (ys : List ℕ) → lists a ≡ ws ++ (p ∷ ys)
    → IsThreads (unlink a (last 0 ws) p s) owner (with_list lists a (ws ++ ys))
unlink-IsThreads s owner lists h a lt [] p ys parts = record {
  chain =
      unlink_first s owner lists h a lt [] p ys parts
        (Chain-here s owner lists h a lt [] p ys parts);
  distinct = unlink-Distinct s owner lists h a lt [] p ys parts;
  members =
      unlink-members s owner lists h a lt [] p ys parts (unlink a 0 p s) (unlink-Keeps s a 0 p);
}
unlink-IsThreads s owner lists h a lt (w ∷ vs) p ys parts = record {
  chain =
      unlink_behind s owner lists h a lt (w ∷ vs) p ys parts w vs
        (whole s owner lists h a lt (w ∷ vs) p ys parts)
        (Chain-here s owner lists h a lt (w ∷ vs) p ys parts)
        (members_here s owner lists h a lt (w ∷ vs) p ys parts);
  distinct = unlink-Distinct s owner lists h a lt (w ∷ vs) p ys parts;
  members =
      unlink-members s owner lists h a lt (w ∷ vs) p ys parts (unlink a (last w vs) p s)
        (unlink-Keeps s a (last w vs) p);
}
