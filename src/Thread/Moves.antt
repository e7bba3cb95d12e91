-- ===== src/Thread/Moves.antt =====
-- The found thread of `thread_wake`, `thread_suspend` and `thread_exit` of kernel/thread.c, moved.
use test_os.Base.{ℕ, ◌<◌, ◌≡◌, ◌≢◌, inl, inr, subst, arith, List, ◌∷◌, ◌++◌, ◌==◌, Bool-cases}
use test_os.Thread.{
  Threads, thread_status_size, thread_running, thread_suspended, thread_died, unlink, link,
  fix_switch, drop_sleep, pe_lock, pe_unlock, thread_schedule, wake_found, suspend_found,
  exit_found, leave,
}
use test_os.Thread.Chain.{last}
use test_os.Thread.State.{IsThreads}
use test_os.Thread.Link.{Inner-IsThreads, fix_switch-Inner, drop_sleep-Inner}
use test_os.Thread.Move.{
  moved, move-IsThreads, SameLists-Inner, Inner-refl, Inner-trans, pe_lock-SameLists,
  pe_unlock-SameLists, thread_schedule-SameLists,
}

module _ (s : Threads) (owner : ℕ → ℕ) (lists : ℕ → List ℕ) (h : IsThreads s owner lists) where
  pub locked : IsThreads (pe_lock s) owner lists
  locked =
      Inner-IsThreads s (pe_lock s) owner lists
        (SameLists-Inner s (pe_lock s) (pe_lock-SameLists s)) h

  pub unlocked :
      (t : Threads) (lists' : ℕ → List ℕ)
      → IsThreads t owner lists'
      → IsThreads (pe_unlock t) owner lists'
  unlocked t lists' =
      Inner-IsThreads t (pe_unlock t) owner lists'
        (SameLists-Inner t (pe_unlock t) (pe_unlock-SameLists t))

  pub leave-IsThreads :
      (t : Threads) (tid : ℕ) (lists' : ℕ → List ℕ)
      → IsThreads t owner lists'
      → IsThreads (leave tid t) owner lists'
  unfolding leave
  leave-IsThreads t tid lists' k = elim (Bool-cases (tid == (t.node t.current_thread).tid)) [
    | inl e ↦ rw e (
        Inner-IsThreads (pe_unlock t) (thread_schedule (pe_unlock t)) owner lists'
          (SameLists-Inner (pe_unlock t) (thread_schedule (pe_unlock t))
            (thread_schedule-SameLists (pe_unlock t)))
          (unlocked t lists' k))
    | inr ne ↦ rw ne (unlocked t lists' k)
  ]

  module _ (a : ℕ) (lt : a < thread_status_size) (ws : List ℕ) (p : ℕ) (ys : List ℕ)
      (parts : lists a ≡ ws ++ (p ∷ ys)) where
    pub wake_found-IsThreads :
        thread_running ≢ a
        → IsThreads
            (wake_found a (last 0 ws) p (pe_lock s))
            owner
            (moved lists a thread_running ws p ys)
    unfolding wake_found
    wake_found-IsThreads other =
        move-IsThreads (pe_lock s) owner lists locked a thread_running lt (omega arith) other ws p
          ys parts (unlink a (last 0 ws) p (pe_lock s))
          (Inner-refl (unlink a (last 0 ws) p (pe_lock s)))

    pub suspend_found-IsThreads :
        (tid : ℕ)
        → a ≡ thread_running
        → IsThreads
            (suspend_found tid (last 0 ws) p (pe_lock s))
            owner
            (moved lists a thread_suspended ws p ys)
    unfolding suspend_found
    suspend_found-IsThreads tid e =
        let taken = unlink a (last 0 ws) p (pe_lock s) in
        subst
          (λ b.
            IsThreads
              (link thread_suspended p (fix_switch tid p (unlink b (last 0 ws) p (pe_lock s))))
              owner (moved lists a thread_suspended ws p ys))
          e
          (move-IsThreads (pe_lock s) owner lists locked a thread_suspended lt (omega arith)
            (omega arith) ws p ys parts (fix_switch tid p taken) (fix_switch-Inner tid p taken))

    pub exit_found-IsThreads :
        (tid : ℕ)
        → thread_died ≢ a
        → IsThreads
            (exit_found a tid (last 0 ws) p (pe_lock s))
            owner
            (moved lists a thread_died ws p ys)
    unfolding exit_found
    exit_found-IsThreads tid other =
        let taken = unlink a (last 0 ws) p (pe_lock s) in
        let fixed = fix_switch tid p taken in
        move-IsThreads (pe_lock s) owner lists locked a thread_died lt (omega arith) other ws p ys
          parts (drop_sleep p fixed)
          (Inner-trans taken fixed (drop_sleep p fixed) (fix_switch-Inner tid p taken)
            (drop_sleep-Inner p fixed))
