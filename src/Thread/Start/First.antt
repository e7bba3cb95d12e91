-- ===== src/Thread/Start/First.antt =====
-- The first state of the scheduler of kernel/thread.c.
use test_os.Base.{
  fun_ext, Bool-cases, ℕ, zero, suc, ◌<◌, ◌≡◌, ◌≢◌, inl, inr, refl, ◌∙◌, ap, subst, arith, true,
  false, List, [], ◌∷◌, All, Option, some, none, ◌==◌, ◌>>=◌,
}
use test_os.Thread.{
  thread_suspended, Threads, Found, found, missing, out_of_fuel, find_loop, thread_find_by_tid,
  in_either, pe_lock, pe_unlock, wake_found, thread_wake, thread_running, thread_ready,
}
use test_os.Thread.Chain.{Chain, Distinct}
use test_os.Thread.State.{
  with_list-all, store_self, store_ne, tid_used, Member, IsThreads, with_list,
}
use test_os.Thread.Move.{pe_unlock-lock, SameLists-Inner, moved}
use test_os.Thread.Moves.{wake_found-IsThreads, unlocked}
use test_os.Thread.Scheduled.{IsScheduled}
use test_os.Thread.Start.{thread_cleaner, set_up, start_thread}
use test_os.Base.Bits.{bit}
use test_os.Thread.Link.{Inner-IsThreads}
use test_os.Thread.After.{wake_same}

-- Nothing is on a list, and the first id alone is given out.
pub record IsStatic (s : Threads) (cleaner : ℕ) : Type 0 where
  pub no_thread : (a : ℕ) → s.thread_head a ≡ 0
  pub only_first : s.tid_bitmap 0 ≡ 1
  pub none_fixed : s.fix_next_thread ≡ 0
  pub zero_next : (s.node cleaner).next ≡ 0

-- The cleaner alone, on the list `a`.
abbrev pub alone : ℕ → ℕ → ℕ → List ℕ
alone cleaner a = with_list (λ _. []) a (cleaner ∷ [])

in_either_first :
    (fuel tid first second : ℕ) (act : ℕ → ℕ → ℕ → Threads → Threads) (s : Threads) (prev p : ℕ)
    → thread_find_by_tid fuel s tid first ≡ found prev p
    → in_either fuel tid first second act s ≡ some (act first prev p s)
unfolding in_either
in_either_first fuel tid first second act s prev p at =
    ap
      (λ (one : Found). elim one as (λ _. Option Threads) [
        | found prev p ↦ some (act first prev p s)
        | out_of_fuel ↦ none
        | missing ↦ elim (thread_find_by_tid fuel s tid second) as (λ _. Option Threads) [
          | found prev p ↦ some (act second prev p s)
          | out_of_fuel ↦ none
          | missing ↦ some (pe_unlock s)
        ]
      ])
      at

module _ (s : Threads) (cleaner : ℕ) (name : List ℕ) (handler esp : ℕ) (h : IsStatic s cleaner)
    (some_node : cleaner ≢ 0) where
  abbrev ready : Threads
  ready = set_up cleaner (thread_cleaner name handler esp (s.node cleaner)) s

  ready-Member : Member ready (λ _. cleaner) thread_ready cleaner
  ready-Member = record {
    status = ground arith;
    own = refl;
    small = ground arith;
    given =
        ap (tid_used ready.tid_bitmap) {x = (ready.node cleaner).tid} {y = 0} (ground arith)
        ∙ ap (λ w. bit w 0) h.only_first;
  }

  ready-IsThreads : IsThreads ready (λ _. cleaner) (alone cleaner thread_ready)
  ready-IsThreads = record {
    chain = λ b below.
        with_list-all (λ b xs. Chain ready.node (ready.thread_head b) xs) (λ _. []) thread_ready
          (cleaner ∷ [])
          (store_self s.thread_head thread_ready cleaner, some_node, ground (arith, h.zero_next))
          (λ b ne. store_ne s.thread_head thread_ready cleaner b ne ∙ h.no_thread b) b;
    distinct = λ b below.
        with_list-all (λ b xs. Distinct xs) (λ _. []) thread_ready (cleaner ∷ []) (tt, tt)
          (λ b ne. tt) b;
    members = λ b below.
        with_list-all (λ b xs. All (Member ready (λ _. cleaner) b) xs) (λ _. []) thread_ready
          (cleaner ∷ []) (ready-Member, tt) (λ b ne. tt) b;
  }

  found_ready :
      (fuel : ℕ) → 0 < fuel → thread_find_by_tid fuel ready 0 thread_ready ≡ found 0 cleaner
  unfolding thread_find_by_tid find_loop
  found_ready zero some_fuel = absurd (omega arith)
  found_ready (suc fuel) some_fuel =
      let head : ready.thread_head thread_ready ≡ cleaner =
        store_self s.thread_head thread_ready cleaner in
      let some_head : (cleaner == 0) ≡ false = ground arith in
      let hit : ((ready.node cleaner).tid == 0) ≡ true = ground arith in
      ground (arith, head, some_head, hit)

  abbrev running : Threads
  running = pe_unlock (wake_found thread_ready 0 cleaner (pe_lock ready))

  running-IsThreads :
      IsThreads running
        (λ _. cleaner)
        (moved (alone cleaner thread_ready) thread_ready thread_running [] cleaner [])
  running-IsThreads =
      unlocked ready (λ _. cleaner) (alone cleaner thread_ready) ready-IsThreads
        (wake_found thread_ready 0 cleaner (pe_lock ready))
        (moved (alone cleaner thread_ready) thread_ready thread_running [] cleaner [])
        (wake_found-IsThreads ready (λ _. cleaner) (alone cleaner thread_ready) ready-IsThreads
          thread_ready (omega arith) [] cleaner [] refl (omega arith))

  start_thread-running :
      (fuel : ℕ)
      → 0 < fuel
      → start_thread fuel cleaner name handler esp s
        ≡ some (record running { current_thread = cleaner })
  unfolding start_thread thread_wake
  start_thread-running fuel some_fuel =
      ap (λ (r : Option Threads). r >>= (λ s'. some (record s' { current_thread = cleaner })))
        (in_either_first fuel 0 thread_ready thread_suspended
          (λ status prev p s'. pe_unlock (wake_found status prev p s')) (pe_lock ready) 0 cleaner
          (found_ready fuel some_fuel))

  moved-alone :
      moved (alone cleaner thread_ready) thread_ready thread_running [] cleaner []
      ≡ alone cleaner thread_running
  moved-alone = fun_ext (λ b. elim (Bool-cases (b == 0)) [
    | inl e ↦ rw e refl
    | inr ne ↦ elim (Bool-cases (b == 1)) [ inl f ↦ rw (ne, f) refl | inr g ↦ rw (ne, g) refl ]
  ])

  abbrev first_state : Threads
  first_state = record running { current_thread = cleaner }

  first_state-IsThreads : IsThreads first_state (λ _. cleaner) (alone cleaner thread_running)
  first_state-IsThreads =
      subst (IsThreads (record running { current_thread = cleaner }) (λ _. cleaner)) moved-alone (
        Inner-IsThreads running (record running { current_thread = cleaner }) (λ _. cleaner)
          (moved (alone cleaner thread_ready) thread_ready thread_running [] cleaner [])
          (SameLists-Inner running (record running { current_thread = cleaner }) (refl, refl, refl))
          running-IsThreads)

  first_state-IsScheduled : IsScheduled first_state (alone cleaner thread_running)
  first_state-IsScheduled =
      let same = wake_same ready thread_ready 0 cleaner cleaner in
      record {
        here = inl refl;
        none_fixed = same.1 ∙ h.none_fixed;
        cleaner = (cleaner, inl refl, same.2 ∙ ground arith);
      }

-- From the static state, with the word `next` of the cleaner's memory zero and any fuel, the beginning of
-- `start_thread` returns with the cleaner as the only thread, running and current, on well-formed lists
-- with well-formed ids, and the lock free.
pub start_thread-IsScheduled :
    (s : Threads) (cleaner : ℕ) (name : List ℕ) (handler esp fuel : ℕ)
    → IsStatic s cleaner
    → cleaner ≢ 0
    → 0 < fuel
    → (s' : Threads) × (start_thread fuel cleaner name handler esp s ≡ some s')
      × IsThreads s' (λ _. cleaner) (alone cleaner thread_running)
      × IsScheduled s' (alone cleaner thread_running)
      × (s'.current_thread ≡ cleaner)
      × (s'.thread_lock ≡ 0)
start_thread-IsScheduled s cleaner name handler esp fuel h some_node some_fuel = (
  first_state s cleaner name handler esp h some_node,
  start_thread-running s cleaner name handler esp h some_node fuel some_fuel,
  first_state-IsThreads s cleaner name handler esp h some_node,
  first_state-IsScheduled s cleaner name handler esp h some_node,
  refl,
  pe_unlock-lock
      (wake_found thread_ready 0 cleaner (pe_lock (ready s cleaner name handler esp h some_node))),
)
