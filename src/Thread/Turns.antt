-- ===== src/Thread/Turns.antt =====
-- `thread_schedule` of kernel/thread.c gives the processor to the running threads in turn.
use test_os.Base.{
  ℕ, zero, suc, ◌+◌, ◌≤◌, ◌<◌, ◌≡◌, ◌≢◌, ◌⊎◌, inl, inr, sym, ◌∙◌, ap, subst, arith, List, [], ◌∷◌,
  ◌++◌, length, length-append, append_assoc, append-nil,
}
use test_os.Thread.{Threads, thread_running, thread_schedule}
use test_os.Thread.Chain.{Chain}
use test_os.Thread.Switch.{first, Chain-first, Chain-next}
use test_os.Thread.Move.{some_member}
use test_os.Thread.State.{IsThreads}
use test_os.Thread.Scheduled.{Has, IsScheduled}

-- `n` calls of `thread_schedule`.
unfoldable pub turns : ℕ → Threads → Threads
turns zero s = s
turns (suc n) s = turns n (thread_schedule s)

turns_add : (n m : ℕ) (s : Threads) → turns (n + m) s ≡ turns m (turns n s)
unfolding turns
turns_add zero m s = ap (λ k. turns k s) {x = 0 + m} {y = m} (omega arith)
turns_add (suc n) m s =
    ap (λ k. turns k s) {x = suc n + m} {y = suc (n + m)} (omega arith)
    ∙ turns_add n m (thread_schedule s)

abbrev at : Threads → ℕ → Threads
at s q = record s { current_thread = q }

-- `q` stands in one of the parts of the list.
Has-split : (q : ℕ) (xs ys : List ℕ) → Has q (xs ++ ys) → Has q xs ⊎ Has q ys
Has-split q [] ys has = inr has
Has-split q (x ∷ xs) ys (inl e) = inl (inl e)
Has-split q (x ∷ xs) ys (inr has) = elim (Has-split q xs ys has) [
  | inl l ↦ inl (inr l)
  | inr r ↦ inr r
]

-- A member with what stands before and behind it.
pub Has-parts :
    (q : ℕ) (xs : List ℕ) → Has q xs → (ws : List ℕ) × (ys : List ℕ) × (xs ≡ ws ++ (q ∷ ys))
Has-parts q [] has = absurd has
Has-parts q (x ∷ xs) (inl e) = ([], xs, ap (λ t. t ∷ xs) (sym e))
Has-parts q (x ∷ xs) (inr has) =
    let (ws, ys, e) = Has-parts q xs has in (x ∷ ws, ys, ap (λ t. x ∷ t) e)

module _ (s : Threads) (xs : List ℕ) (chain : Chain s.node (s.thread_head thread_running) xs)
    (none_fixed : s.fix_next_thread ≡ 0) where
  Chain-at :
      (ws : List ℕ) (c : ℕ) (ys : List ℕ)
      → xs ≡ ws ++ (c ∷ ys)
      → Chain s.node (s.thread_head thread_running) (ws ++ (c ∷ ys))
  Chain-at ws c ys parts = subst (Chain s.node (s.thread_head thread_running)) parts chain

  some_at : (ws : List ℕ) (c : ℕ) (ys : List ℕ) → xs ≡ ws ++ (c ∷ ys) → c ≢ 0
  some_at ws c ys parts =
      some_member s.node (s.thread_head thread_running) ws c ys (Chain-at ws c ys parts)

  regroup : (ws : List ℕ) (c : ℕ) (zs : List ℕ) → xs ≡ ws ++ (c ∷ zs) → xs ≡ (ws ++ (c ∷ [])) ++ zs
  regroup ws c zs parts = parts ∙ sym (append_assoc ws (c ∷ []) zs)

  step_next :
      (ws : List ℕ) (c y : ℕ) (ys : List ℕ)
      → xs ≡ ws ++ (c ∷ (y ∷ ys))
      → thread_schedule (at s c) ≡ at s y
  unfolding thread_schedule
  step_next ws c y ys parts =
      let next =
        Chain-next s.node (s.thread_head thread_running) ws c (y ∷ ys)
          (Chain-at ws c (y ∷ ys) parts) in
      ground (
        arith,
        next,
        some_at ws c (y ∷ ys) parts,
        some_at (ws ++ (c ∷ [])) y ys (regroup ws c (y ∷ ys) parts),
      )

  step_wrap :
      (ws : List ℕ) (c : ℕ) → xs ≡ ws ++ (c ∷ []) → thread_schedule (at s c) ≡ at s (first xs)
  unfolding thread_schedule
  step_wrap ws c parts =
      let next =
        Chain-next s.node (s.thread_head thread_running) ws c [] (Chain-at ws c [] parts) in
      ground (
        arith,
        next,
        some_at ws c [] parts,
        Chain-first s.node (s.thread_head thread_running) xs chain,
      )

  -- A thread further on in the list has its turn.
  later :
      (zs : List ℕ) (ws : List ℕ) (c : ℕ) (ys : List ℕ) (q : ℕ)
      → xs ≡ ws ++ (c ∷ (zs ++ ys))
      → Has q zs
      → (n : ℕ) × (0 < n) × (n ≤ length zs) × (turns n (at s c) ≡ at s q)
  unfolding turns
  later [] ws c ys q parts has = absurd has
  later (z ∷ zs) ws c ys q parts (inl e) =
      (1, omega arith, omega arith, step_next ws c z (zs ++ ys) parts ∙ ap (at s) (sym e))
  later (z ∷ zs) ws c ys q parts (inr has) =
      let (n, some_n, le, there) =
        later zs (ws ++ (c ∷ [])) z ys q (regroup ws c (z ∷ (zs ++ ys)) parts) has in
      (suc n, omega arith, omega arith, ap (turns n) (step_next ws c z (zs ++ ys) parts) ∙ there)

  -- Behind the last thread comes the first.
  around :
      (ys : List ℕ) (ws : List ℕ) (c : ℕ)
      → xs ≡ ws ++ (c ∷ ys)
      → turns (length ys + 1) (at s c) ≡ at s (first xs)
  unfolding turns
  around [] ws c parts = step_wrap ws c parts
  around (y ∷ ys) ws c parts =
      ap (λ k. turns k (at s c)) {x = suc (length ys) + 1} {y = suc (length ys + 1)} (omega arith)
      ∙ ap (turns (length ys + 1)) (step_next ws c y ys parts)
      ∙ around ys (ws ++ (c ∷ [])) y (regroup ws c (y ∷ ys) parts)

  from_first :
      (zs ys : List ℕ) (q : ℕ)
      → xs ≡ zs ++ ys
      → Has q zs
      → (n : ℕ) × (n < length zs) × (turns n (at s (first xs)) ≡ at s q)
  unfolding turns
  from_first [] ys q parts has = absurd has
  from_first (z ∷ zs) ys q parts (inl e) = (0, omega arith, ap (at s) (ap first parts ∙ sym e))
  from_first (z ∷ zs) ys q parts (inr has) =
      let (n, some_n, le, there) = later zs [] z ys q parts has in
      (n, omega arith, ap (λ t. turns n (at s t)) (ap first parts) ∙ there)

  all_turns :
      (ws : List ℕ) (c : ℕ) (ys : List ℕ) (q : ℕ)
      → xs ≡ ws ++ (c ∷ ys)
      → Has q xs
      → (n : ℕ) × (0 < n) × (n ≤ length xs) × (turns n (at s c) ≡ at s q)
  all_turns ws c ys q parts has =
      elim (Has-split q (ws ++ (c ∷ [])) ys (subst (Has q) (regroup ws c ys parts) has)) [
        | inl before ↦
            let (n, lt, there) = from_first (ws ++ (c ∷ [])) ys q (regroup ws c ys parts) before in
            (
              (length ys + 1) + n,
              omega arith,
              omega (arith, length-append ws (c ∷ []), length-append ws (c ∷ ys), ap length parts),
              turns_add (length ys + 1) n (at s c) ∙ ap (turns n) (around ys ws c parts) ∙ there,
            )
        | inr behind ↦
            let (n, some_n, le, there) =
              later ys ws c [] q (parts ∙ ap (λ t. ws ++ (c ∷ t)) (sym (append-nil ys))) behind in
            (n, some_n, omega (arith, length-append ws (c ∷ ys), ap length parts), there)
      ]

-- While no list changes, every running thread is the current thread again after at most as many calls of
-- `thread_schedule` as there are running threads, and nothing else of the state changes.
pub turns-Has :
    (s : Threads) (owner : ℕ → ℕ) (lists : ℕ → List ℕ) (q : ℕ)
    → IsThreads s owner lists
    → IsScheduled s lists
    → Has q (lists thread_running)
    → (n : ℕ) × (0 < n)
      × (n ≤ length (lists thread_running))
      × (turns n s ≡ record s { current_thread = q })
turns-Has s owner lists q h sched has =
    let (ws, ys, parts) = Has-parts s.current_thread (lists thread_running) sched.here in
    all_turns s (lists thread_running) (h.chain thread_running (omega arith)) sched.none_fixed ws
      s.current_thread ys q parts has
