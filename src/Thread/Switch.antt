-- ===== src/Thread/Switch.antt =====
-- Which thread of kernel/thread.c runs after the current one has left its list.
use test_os.Base.{
  ℕ, ◌≡◌, ◌≢◌, refl, sym, ◌∙◌, ap, arith, true, false, List, [], ◌∷◌, ◌++◌, All, ◌==◌,
  if◌then◌else◌,
}
use test_os.Thread.{
  Threads, thread_running, thread_suspended, thread_died, unlink, link, fix_switch, drop_sleep,
  thread_schedule, suspend_found, exit_found, leave,
}
use test_os.Thread.Chain.{Nodes, Chain, last, Distinct, Chain-last, set_next_ne}

-- The first address of a list, NULL if there is none.
abbrev pub first : List ℕ → ℕ
first [] = 0
first (x ∷ xs) = x

-- The thread behind the place between `ws` and `ys`, around the list.
abbrev pub successor : List ℕ → List ℕ → ℕ
successor ws [] = first ws
successor ws (y ∷ ys) = y

pub Chain-first : (nodes : Nodes) (p : ℕ) (xs : List ℕ) → Chain nodes p xs → p ≡ first xs
Chain-first nodes p [] at = at
Chain-first nodes p (x ∷ xs) (at, ne, chain) = at

pub Chain-next :
    (nodes : Nodes) (q : ℕ) (ws : List ℕ) (p : ℕ) (ys : List ℕ)
    → Chain nodes q (ws ++ (p ∷ ys))
    → (nodes p).next ≡ first ys
Chain-next nodes q [] p ys (at, ne, chain) = Chain-first nodes (nodes p).next ys chain
Chain-next nodes q (w ∷ ws) p ys (at, ne, chain) = Chain-next nodes (nodes w).next ws p ys chain

Chain-some_next : (nodes : Nodes) (q : ℕ) (xs : List ℕ) → Chain nodes q xs → first xs ≡ 0 → xs ≡ []
Chain-some_next nodes q [] at e = refl
Chain-some_next nodes q (x ∷ xs) (at, ne, chain) e = absurd (ne e)

Chain-behind :
    (nodes : Nodes) (q : ℕ) (ws : List ℕ) (p : ℕ) (ys : List ℕ)
    → Chain nodes q (ws ++ (p ∷ ys))
    → Chain nodes (nodes p).next ys
Chain-behind nodes q [] p ys (at, ne, chain) = chain
Chain-behind nodes q (w ∷ ws) p ys (at, ne, chain) = Chain-behind nodes (nodes w).next ws p ys chain

last_other :
    (w : ℕ) (vs : List ℕ) (p : ℕ) (ys : List ℕ) → Distinct ((w ∷ vs) ++ (p ∷ ys)) → p ≢ last w vs
last_other w [] p ys (out, d) = out.0
last_other w (v ∷ vs) p ys (out, d) = last_other v vs p ys d

-- The unlinked node still points to the rest of its list, and the list starts as it should.
unlink_next :
    (s : Threads) (ws : List ℕ) (p : ℕ) (ys : List ℕ)
    → Chain s.node (s.thread_head thread_running) (ws ++ (p ∷ ys))
    → Distinct (ws ++ (p ∷ ys))
    → (((unlink thread_running (last 0 ws) p s).node p).next ≡ first ys)
      × ((unlink thread_running (last 0 ws) p s).thread_head thread_running ≡ first (ws ++ ys))
unfolding unlink
unlink_next s [] p ys chain distinct =
    let rest = Chain-next s.node (s.thread_head thread_running) [] p ys chain in (rest, rest)
unlink_next s (w ∷ vs) p ys chain distinct =
    let some_prev : (last w vs == 0) ≡ false =
      ground (arith, Chain-last s.node (s.thread_head thread_running) w vs (p ∷ ys) chain) in
    rw some_prev (
      set_next_ne s.node (last w vs) (s.node p).next p (last_other w vs p ys distinct)
          ∙ Chain-next s.node (s.thread_head thread_running) (w ∷ vs) p ys chain,
      chain.0,
    )

first-append-nil : (ws : List ℕ) → first (ws ++ []) ≡ first ws
first-append-nil [] = refl
first-append-nil (w ∷ ws) = refl

choose_successor :
    (next head : ℕ) (ws ys : List ℕ)
    → next ≡ first ys
    → head ≡ first (ws ++ ys)
    → All (λ y. y ≢ 0) ys
    → (if next == 0 then head else next) ≡ successor ws ys
choose_successor next head ws [] at at' some_node = rw at (at' ∙ first-append-nil ws)
choose_successor next head ws (y ∷ ys) at at' some_node = ground (arith, some_node.0)

pub Chain-some : (nodes : Nodes) (q : ℕ) (xs : List ℕ) → Chain nodes q xs → All (λ y. y ≢ 0) xs
Chain-some nodes q [] at = tt
Chain-some nodes q (x ∷ xs) (at, ne, chain) = (ne, Chain-some nodes (nodes x).next xs chain)

-- What `leave` makes of a state whose `fix_next_thread` is set.
leave_fixed :
    (tid : ℕ) (t : Threads)
    → t.current_thread ≢ 0
    → t.fix_next_thread ≢ 0
    → tid ≡ (t.node t.current_thread).tid
    → ((leave tid t).current_thread ≡ t.fix_next_thread) × ((leave tid t).fix_next_thread ≡ 0)
unfolding leave thread_schedule
leave_fixed tid t some_current some_fix named = (ground arith, ground arith)

pub leave_other :
    (tid : ℕ) (t : Threads)
    → tid ≢ (t.node t.current_thread).tid
    → ((leave tid t).current_thread ≡ t.current_thread)
      × ((leave tid t).fix_next_thread ≡ t.fix_next_thread)
unfolding leave
leave_other tid t other = (ground arith, ground arith)

module _ (s : Threads) (tid p : ℕ) (ws ys : List ℕ)
    (chain : Chain s.node (s.thread_head thread_running) (ws ++ (p ∷ ys)))
    (distinct : Distinct (ws ++ (p ∷ ys))) (named : tid ≡ (s.node s.current_thread).tid)
    (some_current : s.current_thread ≢ 0) (some_successor : successor ws ys ≢ 0) where
  abbrev taken : Threads
  taken = unlink thread_running (last 0 ws) p s

  taken_tid : (taken.node taken.current_thread).tid ≡ (s.node s.current_thread).tid
  unfolding unlink
  taken_tid = ground arith

  fixed : (fix_switch tid p taken).fix_next_thread ≡ successor ws ys
  unfolding fix_switch
  fixed =
      let (at, at') = unlink_next s ws p ys chain distinct in
      let mine : (tid == (taken.node taken.current_thread).tid) ≡ true =
        ground (arith, taken_tid) in
      rw mine (
        choose_successor (taken.node p).next (taken.thread_head thread_running) ws ys at at' (
          Chain-some s.node (s.node p).next ys
            (Chain-behind s.node (s.thread_head thread_running) ws p ys chain)))

  -- The current thread and its id, through the rest of the way.
  fixed_current : ((fix_switch tid p taken).current_thread ≡ s.current_thread)
  unfolding fix_switch unlink
  fixed_current = ground arith

  fixed_tid : ((fix_switch tid p taken).node s.current_thread).tid ≡ (s.node s.current_thread).tid
  unfolding fix_switch unlink
  fixed_tid = ground arith

  module _ (b : ℕ) (t : Threads)
      (same_fix : t.fix_next_thread ≡ (fix_switch tid p taken).fix_next_thread)
      (same_current : t.current_thread ≡ (fix_switch tid p taken).current_thread)
      (same_tid : (t.node s.current_thread).tid
        ≡ ((fix_switch tid p taken).node s.current_thread).tid) where
    link_current :
        ((link b p t).current_thread ≡ s.current_thread)
        × ((link b p t).fix_next_thread ≡ successor ws ys)
    unfolding link
    link_current = (same_current ∙ fixed_current, same_fix ∙ fixed)

    link_tid : ((link b p t).node s.current_thread).tid ≡ (t.node s.current_thread).tid
    unfolding link
    link_tid = ground arith

    switched :
        ((leave tid (link b p t)).current_thread ≡ successor ws ys)
        × ((leave tid (link b p t)).fix_next_thread ≡ 0)
    switched =
        let (at_current, at_fix) = link_current in
        let mine : tid ≡ ((link b p t).node (link b p t).current_thread).tid =
          named
          ∙ sym
              (ap (λ q. ((link b p t).node q).tid) at_current ∙ link_tid ∙ same_tid ∙ fixed_tid) in
        let (now, none_left) =
          leave_fixed tid (link b p t) (λ e. some_current (sym at_current ∙ e))
            (λ e. some_successor (sym at_fix ∙ e)) mine in
        (now ∙ at_fix, none_left)

  pub suspend_found_switch :
      ((leave tid (suspend_found tid (last 0 ws) p s)).current_thread ≡ successor ws ys)
      × ((leave tid (suspend_found tid (last 0 ws) p s)).fix_next_thread ≡ 0)
  unfolding suspend_found
  suspend_found_switch = switched thread_suspended (fix_switch tid p taken) refl refl refl

  drop_sleep_same :
      (t : Threads) (q : ℕ)
      → ((drop_sleep p t).fix_next_thread ≡ t.fix_next_thread)
        × ((drop_sleep p t).current_thread ≡ t.current_thread)
        × (((drop_sleep p t).node q).tid ≡ (t.node q).tid)
  unfolding drop_sleep
  drop_sleep_same t q = (ground arith, ground arith, ground arith)

  pub exit_found_switch :
      ((leave tid (exit_found thread_running tid (last 0 ws) p s)).current_thread ≡ successor ws ys)
      × ((leave tid (exit_found thread_running tid (last 0 ws) p s)).fix_next_thread ≡ 0)
  unfolding exit_found
  exit_found_switch =
      let same = drop_sleep_same (fix_switch tid p taken) s.current_thread in
      switched thread_died (drop_sleep p (fix_switch tid p taken)) same.0 same.1 same.2
