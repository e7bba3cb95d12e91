-- ===== src/Thread/After.antt =====
-- What the moves of kernel/thread.c leave behind for the scheduler.
use test_os.Base.{
  ℕ, ◌<◌, ◌≡◌, ◌≢◌, inl, inr, refl, sym, ◌∙◌, ap, subst, subst₂, arith, All-append, List, ◌∷◌, ◌++◌,
  ◌==◌, if◌then◌else◌, Bool-cases,
}
use test_os.Thread.{
  Threads, thread_status_size, thread_running, thread_suspended, thread_died, pe_lock, pe_unlock,
  wake_found, suspend_found, exit_found, leave,
}
use test_os.Thread.Chain.{Nodes, Chain, Distinct, last, All-split}
use test_os.Thread.Find.{Split}
use test_os.Thread.State.{IsThreads, Member}
use test_os.Thread.Unlink.{at_p}
use test_os.Thread.Move.{moved, pe_unlock-lock}
use test_os.Thread.Switch.{
  successor, suspend_found_switch, exit_found_switch, leave_other, Chain-some,
}
use test_os.Thread.Scheduled.{Has, IsScheduled, Has-remove, Has-successor, Has-some, All-Has}
use test_os.Thread.Moves.{
  wake_found-IsThreads, suspend_found-IsThreads, exit_found-IsThreads, unlocked, leave-IsThreads,
}

-- What a call leaves behind: well-formed lists, the current thread and the cleaner on the running list,
-- the lock free and every thread with its id.
pub record After (s : Threads) (owner : ℕ → ℕ) (lists' : ℕ → List ℕ) (s' : Threads) : Type 0 where
  pub well_formed : IsThreads s' owner lists'
  pub scheduled : IsScheduled s' lists'
  pub free_lock : s'.thread_lock ≡ 0
  pub same_tids : (q : ℕ) → (s'.node q).tid ≡ (s.node q).tid

pub wake_same :
    (s : Threads) (a prev p q : ℕ)
    → ((wake_found a prev p (pe_lock s)).current_thread ≡ s.current_thread)
      × ((wake_found a prev p (pe_lock s)).fix_next_thread ≡ s.fix_next_thread)
      × (((wake_found a prev p (pe_lock s)).node q).tid ≡ (s.node q).tid)
unfolding wake_found
wake_same s a prev p q = (ground arith, ground arith, ground arith)

suspend_same :
    (s : Threads) (tid prev p q : ℕ)
    → ((suspend_found tid prev p (pe_lock s)).current_thread ≡ s.current_thread)
      × (tid ≢ (s.node s.current_thread).tid
          → (suspend_found tid prev p (pe_lock s)).fix_next_thread ≡ s.fix_next_thread)
      × (((suspend_found tid prev p (pe_lock s)).node q).tid ≡ (s.node q).tid)
unfolding suspend_found
suspend_same s tid prev p q = (ground arith, λ ne. ground arith, ground arith)

exit_same :
    (s : Threads) (a tid prev p q : ℕ)
    → ((exit_found a tid prev p (pe_lock s)).current_thread ≡ s.current_thread)
      × (tid ≢ (s.node s.current_thread).tid
          → (exit_found a tid prev p (pe_lock s)).fix_next_thread ≡ s.fix_next_thread)
      × (((exit_found a tid prev p (pe_lock s)).node q).tid ≡ (s.node q).tid)
unfolding exit_found
exit_same s a tid prev p q = (ground arith, λ ne. ground arith, ground arith)

leave_node :
    (tid : ℕ) (t : Threads) → ((leave tid t).node ≡ t.node) × ((leave tid t).thread_lock ≡ 0)
unfolding leave
leave_node tid t = (ground arith, ground (arith, pe_unlock-lock t))

module _ (s : Threads) (owner : ℕ → ℕ) (lists : ℕ → List ℕ) (h : IsThreads s owner lists)
    (sched : IsScheduled s lists) (tid : ℕ) (ws : List ℕ) (p : ℕ) (ys : List ℕ) where
  pub wake-After :
      (a : ℕ)
      → a < thread_status_size
      → thread_running ≢ a
      → Split s.node tid (lists a) ws p ys
      → After s owner
          (moved lists a thread_running ws p ys)
          (pe_unlock (wake_found a (last 0 ws) p (pe_lock s)))
  wake-After a lt other split =
      let t = wake_found a (last 0 ws) p (pe_lock s) in
      let same = wake_same s a (last 0 ws) p in
      let (c, has, named) = sched.cleaner in
      record {
        well_formed =
            unlocked s owner lists h t (moved lists a thread_running ws p ys)
              (wake_found-IsThreads s owner lists h a lt ws p ys split.parts other);
        scheduled = record {
          here = inr (subst (λ q. Has q (lists thread_running)) (sym (same 0).0) sched.here);
          none_fixed = (same 0).1 ∙ sched.none_fixed;
          cleaner = (c, inr has, (same c).2 ∙ named);
        };
        free_lock = pe_unlock-lock t;
        same_tids = λ q. (same q).2;
      }

  -- The thread leaves the running list, and the scheduler is left in order.
  module _ (some_tid : tid ≢ 0) (split : Split s.node tid (lists thread_running) ws p ys) where
    left : (q : ℕ) → (s.node q).tid ≢ tid → Has q (lists thread_running) → Has q (ws ++ ys)
    left q ne has =
        Has-remove q ws p ys (λ e. ne (ap (λ t. (s.node t).tid) e ∙ split.named))
          (subst (Has q) split.parts has)

    next_runs : Has (successor ws ys) (ws ++ ys)
    next_runs =
        let (c, has, named) = sched.cleaner in
        Has-successor c ws ys (left c (λ e. some_tid (sym e ∙ named)) has)

    Chain-running : Chain s.node (s.thread_head thread_running) (ws ++ (p ∷ ys))
    Chain-running =
        subst (Chain s.node (s.thread_head thread_running)) split.parts
          (h.chain thread_running (omega arith))

    Distinct-running : Distinct (ws ++ (p ∷ ys))
    Distinct-running = subst Distinct split.parts (h.distinct thread_running (omega arith))

    some_current : s.current_thread ≢ 0
    some_current =
        Has-some s.node (s.thread_head thread_running) s.current_thread (lists thread_running)
          (h.chain thread_running (omega arith)) sched.here

    some_next : successor ws ys ≢ 0
    some_next =
        let (before, behind) =
          All-split (λ q. q ≢ 0) ws (p ∷ ys)
            (Chain-some s.node (s.thread_head thread_running) (ws ++ (p ∷ ys)) Chain-running) in
        All-Has (λ q. q ≢ 0) (successor ws ys) (ws ++ ys)
          (All-append (λ q. q ≢ 0) ws ys before behind.1) next_runs

    left-After :
        (t : Threads) (lists' : ℕ → List ℕ) (cur : ℕ)
        → lists' thread_running ≡ ws ++ ys
        → IsThreads t owner lists'
        → ((q : ℕ) → (t.node q).tid ≡ (s.node q).tid)
        → (leave tid t).current_thread ≡ cur
        → (leave tid t).fix_next_thread ≡ 0
        → Has cur (ws ++ ys)
        → After s owner lists' (leave tid t)
    left-After t lists' cur now well tids at_cur none_left has_cur =
        let (c, has, named) = sched.cleaner in
        let (same_node, free) = leave_node tid t in
        record {
          well_formed = leave-IsThreads s owner lists h t tid lists' well;
          scheduled = record {
            here = subst₂ Has (sym at_cur) (sym now) has_cur;
            none_fixed = none_left;
            cleaner = (
              c,
              subst (Has c) (sym now) (left c (λ e. some_tid (sym e ∙ named)) has),
              ap (λ (f : Nodes). (f c).tid) same_node ∙ tids c ∙ named,
            );
          };
          free_lock = free;
          same_tids = λ q. ap (λ (f : Nodes). (f q).tid) same_node ∙ tids q;
        }

    leave-After :
        (t : Threads) (lists' : ℕ → List ℕ)
        → lists' thread_running ≡ ws ++ ys
        → IsThreads t owner lists'
        → ((q : ℕ) → (t.node q).tid ≡ (s.node q).tid)
        → t.current_thread ≡ s.current_thread
        → (tid ≢ (s.node s.current_thread).tid → t.fix_next_thread ≡ s.fix_next_thread)
        → (tid ≡ (s.node s.current_thread).tid
            → ((leave tid t).current_thread ≡ successor ws ys)
              × ((leave tid t).fix_next_thread ≡ 0))
        → After s owner lists' (leave tid t)
          × ((leave tid t).current_thread ≡ (
              if tid == (s.node s.current_thread).tid then successor ws ys else s.current_thread))
    leave-After t lists' now well tids same_current same_fix switch =
        elim (Bool-cases (tid == (s.node s.current_thread).tid)) [
          | inl e ↦
              let (to, none_left) = switch (ground arith) in
              rw e (left-After t lists' (successor ws ys) now well tids to none_left next_runs, to)
          | inr ne ↦
              let mine : (t.node t.current_thread).tid ≡ (s.node s.current_thread).tid =
                ap (λ q. (t.node q).tid) same_current ∙ tids s.current_thread in
              let (stays, fix) = leave_other tid t (ground arith) in
              rw ne (
                left-After t lists' s.current_thread now well tids (stays ∙ same_current)
                    (fix ∙ same_fix (ground arith) ∙ sched.none_fixed)
                    (left s.current_thread (ground arith) sched.here),
                stays ∙ same_current,
              )
        ]

    -- The thread is suspended.
    pub suspend-After :
        After s owner
          (moved lists thread_running thread_suspended ws p ys)
          (leave tid (suspend_found tid (last 0 ws) p (pe_lock s)))
        × ((leave tid (suspend_found tid (last 0 ws) p (pe_lock s))).current_thread
            ≡ (if tid == (s.node s.current_thread).tid then successor ws ys else s.current_thread))
    suspend-After =
        let t = suspend_found tid (last 0 ws) p (pe_lock s) in
        let same = suspend_same s tid (last 0 ws) p in
        leave-After t (moved lists thread_running thread_suspended ws p ys) refl
          (suspend_found-IsThreads s owner lists h thread_running (omega arith) ws p ys split.parts
            tid refl)
          (λ q. (same q).2) (same 0).0 (same 0).1
          (λ mine.
            suspend_found_switch (pe_lock s) tid p ws ys Chain-running Distinct-running mine
              some_current some_next)

    -- The thread ends.
    pub exit-After :
        After s owner
          (moved lists thread_running thread_died ws p ys)
          (leave tid (exit_found thread_running tid (last 0 ws) p (pe_lock s)))
        × ((leave tid (exit_found thread_running tid (last 0 ws) p (pe_lock s))).current_thread
            ≡ (if tid == (s.node s.current_thread).tid then successor ws ys else s.current_thread))
    exit-After =
        let t = exit_found thread_running tid (last 0 ws) p (pe_lock s) in
        let same = exit_same s thread_running tid (last 0 ws) p in
        leave-After t (moved lists thread_running thread_died ws p ys) refl
          (exit_found-IsThreads s owner lists h thread_running (omega arith) ws p ys split.parts tid
            (omega arith))
          (λ q. (same q).2) (same 0).0 (same 0).1
          (λ mine.
            exit_found_switch (pe_lock s) tid p ws ys Chain-running Distinct-running mine
              some_current some_next)

  -- A suspended thread ends; it is not the current one.
  pub exit_suspended-After :
      Split s.node tid (lists thread_suspended) ws p ys
      → After s owner
          (moved lists thread_suspended thread_died ws p ys)
          (leave tid (exit_found thread_suspended tid (last 0 ws) p (pe_lock s)))
        × ((leave tid (exit_found thread_suspended tid (last 0 ws) p (pe_lock s))).current_thread
            ≡ s.current_thread)
  exit_suspended-After split =
      let t = exit_found thread_suspended tid (last 0 ws) p (pe_lock s) in
      let same = exit_same s thread_suspended tid (last 0 ws) p in
      let there = at_p s owner lists h thread_suspended (omega arith) ws p ys split.parts in
      let here =
        All-Has (Member s owner thread_running) s.current_thread (lists thread_running)
          (h.members thread_running (omega arith)) sched.here in
      let other : tid ≢ (s.node s.current_thread).tid = λ e.
        let one : p ≡ s.current_thread = sym there.own ∙ ap owner (split.named ∙ e) ∙ here.own in
        absurd (omega (arith, there.status, here.status, ap (λ q. (s.node q).status) one)) in
      let mine : (t.node t.current_thread).tid ≡ (s.node s.current_thread).tid =
        ap (λ q. (t.node q).tid) (same 0).0 ∙ (same s.current_thread).2 in
      let (stays, fix) = leave_other tid t (λ e. other (e ∙ mine)) in
      let (same_node, free) = leave_node tid t in
      let (c, has, named) = sched.cleaner in
      (
        record {
          well_formed =
              leave-IsThreads s owner lists h t tid
                (moved lists thread_suspended thread_died ws p ys)
                (exit_found-IsThreads s owner lists h thread_suspended (omega arith) ws p ys
                  split.parts tid (omega arith));
          scheduled = record {
            here = subst (λ q. Has q (lists thread_running)) (sym (stays ∙ (same 0).0)) sched.here;
            none_fixed = fix ∙ (same 0).1 other ∙ sched.none_fixed;
            cleaner = (c, has, ap (λ (f : Nodes). (f c).tid) same_node ∙ (same c).2 ∙ named);
          };
          free_lock = free;
          same_tids = λ q. ap (λ (f : Nodes). (f q).tid) same_node ∙ (same q).2;
        },
        stays ∙ (same 0).0,
      )
