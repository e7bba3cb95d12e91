-- ===== src/Thread/Lists.antt =====
-- `thread_wake`, `thread_suspend` and `thread_exit` of kernel/thread.c on the four lists.
use test_os.Base.{
  ℕ, ◌<◌, ◌≡◌, ◌≢◌, ◌⊎◌, inl, inr, refl, ◌∙◌, ap, subst, arith, false, List, All, length, ◌==◌,
  if◌then◌else◌, Option, some,
}
use test_os.Thread.{
  Threads, Found, found, missing, out_of_fuel, thread_running, thread_ready, thread_suspended,
  thread_died, pe_lock, pe_unlock, wake_found, exit_found, suspend_found, leave, in_either,
  thread_find_by_tid, find_loop, thread_wake, thread_exit, suspend_if, thread_suspend,
}
use test_os.Thread.Chain.{last}
use test_os.Thread.Find.{Split, Lookup, Either, in_either-Either, find_loop-Lookup}
use test_os.Thread.State.{IsThreads}
use test_os.Thread.Move.{moved, pe_unlock-lock}
use test_os.Thread.Switch.{successor}
use test_os.Thread.Scheduled.{IsScheduled}
use test_os.Thread.Moves.{unlocked, locked}
use test_os.Thread.After.{
  After, wake_same, wake-After, suspend-After, exit-After, exit_suspended-After,
}

-- The thread `tid` goes from the list `a` to the list `b`; `cur ws ys` runs afterwards.
abbrev pub Goes :
    Threads → ℕ → (ℕ → ℕ) → (ℕ → List ℕ) → (a b : ℕ) → (List ℕ → List ℕ → ℕ) → Threads → Type 0
Goes s tid owner lists a b cur s' =
    (ws : List ℕ) × (p : ℕ) × (ys : List ℕ) × Split s.node tid (lists a) ws p ys
    × After s owner (moved lists a b ws p ys) s'
    × (s'.current_thread ≡ cur ws ys)

-- No thread of the list has the id.
abbrev pub NoneNamed : Threads → ℕ → List ℕ → Type 0
NoneNamed s tid xs = All (λ q. (s.node q).tid ≢ tid) xs

-- The call changes nothing.
abbrev pub Stays : Threads → (ℕ → ℕ) → (ℕ → List ℕ) → Threads → Type 0
Stays s owner lists s' = After s owner lists s' × (s'.current_thread ≡ s.current_thread)

-- Who runs after the thread `tid` has left the running list from between `ws` and `ys`.
abbrev pub next_current : Threads → ℕ → List ℕ → List ℕ → ℕ
next_current s tid ws ys =
    if tid == (s.node s.current_thread).tid then successor ws ys else s.current_thread

module _ (s : Threads) (owner : ℕ → ℕ) (lists : ℕ → List ℕ) (h : IsThreads s owner lists)
    (sched : IsScheduled s lists) (fuel tid : ℕ) where
  nothing_done : Stays s owner lists (pe_unlock (pe_lock s))
  nothing_done = (
    record {
      well_formed = unlocked s owner lists h (pe_lock s) lists (locked s owner lists h);
      scheduled = record {
        here = sched.here;
        none_fixed = sched.none_fixed;
        cleaner = sched.cleaner;
      };
      free_lock = pe_unlock-lock (pe_lock s);
      same_tids = λ q. refl;
    },
    refl,
  )

  -- A search of two lists, read list by list.
  by_list {κ} :
      (first second : ℕ) (act : ℕ → ℕ → ℕ → Threads → Threads) (P : Threads → Type κ)
      → ((ws : List ℕ) (p : ℕ) (ys : List ℕ)
          → Split s.node tid (lists first) ws p ys
          → P (act first (last 0 ws) p (pe_lock s)))
      → ((ws : List ℕ) (p : ℕ) (ys : List ℕ)
          → Split s.node tid (lists second) ws p ys
          → P (act second (last 0 ws) p (pe_lock s)))
      → (NoneNamed s tid (lists first) → NoneNamed s tid (lists second) → P (pe_unlock (pe_lock s)))
      → (r : Option Threads) → Either (pe_lock s) tid first second lists act r
      → (s' : Threads) × (r ≡ some s') × P s'
  by_list first second act P one two neither r (inl (a, ws, p, ys, inl e, split, ran)) = (
    act first (last 0 ws) p (pe_lock s),
    ran ∙ ap (λ b. some (act b (last 0 ws) p (pe_lock s))) e,
    one ws p ys (subst (λ b. Split s.node tid (lists b) ws p ys) e split),
  )
  by_list first second act P one two neither r (inl (a, ws, p, ys, inr e, split, ran)) = (
    act second (last 0 ws) p (pe_lock s),
    ran ∙ ap (λ b. some (act b (last 0 ws) p (pe_lock s))) e,
    two ws p ys (subst (λ b. Split s.node tid (lists b) ws p ys) e split),
  )
  by_list first second act P one two neither r (inr (none_first, none_second, ran)) =
      (pe_unlock (pe_lock s), ran, neither none_first none_second)

  searched :
      (first second : ℕ) (act : ℕ → ℕ → ℕ → Threads → Threads)
      → first < 4
      → second < 4
      → length (lists first) < fuel
      → length (lists second) < fuel
      → Either
          (pe_lock s)
          tid
          first
          second
          lists
          act
          (in_either fuel tid first second act (pe_lock s))
  searched first second act lt lt' few few' =
      in_either-Either fuel tid first second act (pe_lock s) lists (h.chain first lt)
        (h.chain second lt') few few'

-- `s'` is the state behind `thread_wake`.
abbrev pub Woken : Threads → ℕ → (ℕ → ℕ) → (ℕ → List ℕ) → Threads → Type 0
Woken s tid owner lists s' =
    Goes s tid owner lists thread_ready thread_running (λ ws ys. s.current_thread) s'
    ⊎ (Goes s tid owner lists thread_suspended thread_running (λ ws ys. s.current_thread) s'
        ⊎ (NoneNamed s tid (lists thread_ready)
            × NoneNamed s tid (lists thread_suspended)
            × Stays s owner lists s'))

-- `s'` is the state behind `thread_exit`.
abbrev pub Ended : Threads → ℕ → (ℕ → ℕ) → (ℕ → List ℕ) → Threads → Type 0
Ended s tid owner lists s' =
    Goes s tid owner lists thread_running thread_died (next_current s tid) s'
    ⊎ (Goes s tid owner lists thread_suspended thread_died (λ ws ys. s.current_thread) s'
        ⊎ (NoneNamed s tid (lists thread_running)
            × NoneNamed s tid (lists thread_suspended)
            × Stays s owner lists s'))

-- With fuel above the lengths of the two lists, `thread_wake` returns: a ready thread with the id goes to
-- the head of the running list, or else a suspended one does, or else there is none and no list changes.
-- The current thread runs on.
pub thread_wake-Goes :
    (s : Threads) (owner : ℕ → ℕ) (lists : ℕ → List ℕ) (fuel tid : ℕ)
    → IsThreads s owner lists
    → IsScheduled s lists
    → length (lists thread_ready) < fuel
    → length (lists thread_suspended) < fuel
    → (s' : Threads) × (thread_wake fuel tid s ≡ some s') × Woken s tid owner lists s'
unfolding thread_wake
thread_wake-Goes s owner lists fuel tid h sched few few' =
    let act : ℕ → ℕ → ℕ → Threads → Threads =
      λ status prev p t. pe_unlock (wake_found status prev p t) in
    by_list s owner lists h sched fuel tid thread_ready thread_suspended act
      (Woken s tid owner lists)
      (λ ws p ys split. inl (
        ws,
        p,
        ys,
        split,
        wake-After s owner lists h sched tid ws p ys thread_ready (omega arith) (omega arith) split,
        (wake_same s thread_ready (last 0 ws) p 0).0,
      ))
      (λ ws p ys split. inr (
        inl (
          ws,
          p,
          ys,
          split,
          wake-After s owner lists h sched tid ws p ys thread_suspended (omega arith) (omega arith)
              split,
          (wake_same s thread_suspended (last 0 ws) p 0).0,
        )))
      (λ none_ready none_suspended.
        inr (inr (none_ready, none_suspended, nothing_done s owner lists h sched fuel tid)))
      (in_either fuel tid thread_ready thread_suspended act (pe_lock s))
      (searched s owner lists h sched fuel tid thread_ready thread_suspended act (omega arith)
        (omega arith) few few')

-- With fuel above the lengths of the two lists, `thread_exit` of any thread but the cleaner returns: a
-- running thread with the id goes to the head of the died list, or else a suspended one does, or else
-- there is none and no list changes. If it was the current thread, its successor around the running list
-- is the current thread now; any other current thread runs on.
pub thread_exit-Goes :
    (s : Threads) (owner : ℕ → ℕ) (lists : ℕ → List ℕ) (fuel tid : ℕ)
    → IsThreads s owner lists
    → IsScheduled s lists
    → tid ≢ 0
    → length (lists thread_running) < fuel
    → length (lists thread_suspended) < fuel
    → (s' : Threads) × (thread_exit fuel tid s ≡ some s') × Ended s tid owner lists s'
unfolding thread_exit
thread_exit-Goes s owner lists fuel tid h sched some_tid few few' =
    let act : ℕ → ℕ → ℕ → Threads → Threads =
      λ status prev p t. leave tid (exit_found status tid prev p t) in
    let not_cleaner : (tid == 0) ≡ false = ground arith in
    rw not_cleaner (
      by_list s owner lists h sched fuel tid thread_running thread_suspended act
        (Ended s tid owner lists)
        (λ ws p ys split.
          let (a, c) = exit-After s owner lists h sched tid ws p ys some_tid split in
          inl (ws, p, ys, split, a, c))
        (λ ws p ys split.
          let (a, c) = exit_suspended-After s owner lists h sched tid ws p ys split in
          inr (inl (ws, p, ys, split, a, c)))
        (λ none_running none_suspended.
          inr (inr (none_running, none_suspended, nothing_done s owner lists h sched fuel tid)))
        (in_either fuel tid thread_running thread_suspended act (pe_lock s))
        (searched s owner lists h sched fuel tid thread_running thread_suspended act (omega arith)
          (omega arith) few few'))

suspend_if-Goes :
    (s : Threads) (owner : ℕ → ℕ) (lists : ℕ → List ℕ) (tid : ℕ)
    → IsThreads s owner lists
    → IsScheduled s lists
    → tid ≢ 0
    → (r : Found) → Lookup s.node tid 0 (lists thread_running) r
    → (s' : Threads) × (suspend_if tid (pe_lock s) r ≡ some s')
      × (Goes s tid owner lists thread_running thread_suspended (next_current s tid) s'
          ⊎ (NoneNamed s tid (lists thread_running) × Stays s owner lists s'))
unfolding suspend_if
suspend_if-Goes s owner lists tid h sched some_tid (found prev p) (ws, ys, split, at) =
    let (a, c) = suspend-After s owner lists h sched tid ws p ys some_tid split in
    (
      leave tid (suspend_found tid (last 0 ws) p (pe_lock s)),
      ap (λ t. some (leave tid (suspend_found tid t p (pe_lock s)))) at,
      inl (ws, p, ys, split, a, c),
    )
suspend_if-Goes s owner lists tid h sched some_tid missing none_running =
    (pe_unlock (pe_lock s), refl, inr (none_running, nothing_done s owner lists h sched 0 tid))
suspend_if-Goes s owner lists tid h sched some_tid out_of_fuel fault = absurd fault

-- With fuel above the length of the running list, `thread_suspend` of any thread but the cleaner returns:
-- a running thread with the id goes to the head of the suspended list, or else there is none and no list
-- changes. If it was the current thread, its successor around the running list is the current thread
-- now; any other current thread runs on.
pub thread_suspend-Goes :
    (s : Threads) (owner : ℕ → ℕ) (lists : ℕ → List ℕ) (fuel tid : ℕ)
    → IsThreads s owner lists
    → IsScheduled s lists
    → tid ≢ 0
    → length (lists thread_running) < fuel
    → (s' : Threads) × (thread_suspend fuel tid s ≡ some s')
      × (Goes s tid owner lists thread_running thread_suspended (next_current s tid) s'
          ⊎ (NoneNamed s tid (lists thread_running) × Stays s owner lists s'))
unfolding thread_suspend thread_find_by_tid
thread_suspend-Goes s owner lists fuel tid h sched some_tid few =
    let not_cleaner : (tid == 0) ≡ false = ground arith in
    rw not_cleaner (
      suspend_if-Goes s owner lists tid h sched some_tid
        (find_loop fuel s.node tid 0 (s.thread_head thread_running))
        (find_loop-Lookup (lists thread_running) fuel s.node tid 0 (s.thread_head thread_running)
          few (h.chain thread_running (omega arith))))
