-- ===== src/Thread/Examples.antt =====
-- Small states of kernel/thread.c: the theorems at work.
use test_os.Base.{
  if◌then◌else◌, ◌==◌, ◌≤◌, ℕ, ◌<◌, ◌≡◌, ◌≢◌, ◌⊎◌, inl, refl, arith, [], ◌∷◌, some, none,
}
use test_os.Thread.{
  thread_died, Threads, thread_running, thread_ready, thread_suspended, thread_wake, thread_suspend,
  thread_exit,
}
use test_os.Thread.State.{IsThreads, with_list}
use test_os.Thread.Scheduled.{IsScheduled}
use test_os.Thread.Lists.{
  Woken, Ended, Goes, NoneNamed, Stays, next_current, thread_wake-Goes, thread_exit-Goes,
  thread_suspend-Goes,
}
use test_os.Thread.Turns.{turns, turns-Has}
use test_os.Thread.Create.{thread_create}
use test_os.Thread.Create.Enlist.{Outcome, thread_create-Outcome}
use test_os.Thread.Chain.{Lacks}
use test_os.Thread.Clean.{thread_clean}
use test_os.Thread.Clean.Node.{kept, freed_by, SweptFrom}
use test_os.Thread.Clean.Sweep.{thread_clean-SweptFrom}
use test_os.Thread.Small.{
  thread, nodes, lists, owner, some_threads, each_status, some_threads-IsThreads,
  some_threads-IsScheduled,
}
use test_os.Thread.Start.{start_thread}
use test_os.Thread.Start.First.{IsStatic, alone, start_thread-IsScheduled}

-- The ready thread 3 is woken.
thread_wake-Goes_example :
    (s' : Threads) × (thread_wake 4 3 some_threads ≡ some s') × Woken some_threads 3 owner lists s'
thread_wake-Goes_example =
    thread_wake-Goes some_threads owner lists 4 3 some_threads-IsThreads some_threads-IsScheduled
      (omega arith) (omega arith)

-- The current thread ends.
thread_exit-Goes_example :
    (s' : Threads) × (thread_exit 4 1 some_threads ≡ some s') × Ended some_threads 1 owner lists s'
thread_exit-Goes_example =
    thread_exit-Goes some_threads owner lists 4 1 some_threads-IsThreads some_threads-IsScheduled
      (omega arith) (omega arith) (omega arith)

-- The current thread suspends itself.
thread_suspend-Goes_example :
    (s' : Threads) × (thread_suspend 4 1 some_threads ≡ some s')
    × (Goes some_threads 1 owner lists thread_running thread_suspended
          (next_current some_threads 1)
          s'
        ⊎ (NoneNamed some_threads 1 (lists thread_running) × Stays some_threads owner lists s'))
thread_suspend-Goes_example =
    thread_suspend-Goes some_threads owner lists 4 1 some_threads-IsThreads some_threads-IsScheduled
      (omega arith) (omega arith)

-- The cleaner has its turn.
turns-Has_example :
    (n : ℕ) × (0 < n)
    × (n ≤ 2)
    × (turns n some_threads ≡ record some_threads { current_thread = 100 })
turns-Has_example =
    turns-Has some_threads owner lists 100 some_threads-IsThreads some_threads-IsScheduled
      (inl refl)

abbrev memory : ℕ
memory = 500

-- A new thread gets memory at 500.
thread_create-Outcome_example :
    ((memory ≡ 0) × (thread_create memory [] 7 8 9 some_threads ≡ (none, some_threads)))
    ⊎ ((memory ≢ 0)
        × Outcome some_threads owner lists memory (thread_create memory [] 7 8 9 some_threads))
thread_create-Outcome_example =
    thread_create-Outcome some_threads owner lists memory [] 7 8 9 some_threads-IsThreads
      some_threads-IsScheduled
      (each_status (λ a. Lacks memory (lists a)) (omega arith, (omega arith, tt)) (omega arith, tt)
        (omega arith, tt) (omega arith, (omega arith, tt)))

-- Its id is 4, and it is at the head of the ready list.
new_thread_4 :
    ((thread_create memory [] 7 8 9 some_threads).0 ≡ some 4)
    × ((thread_create memory [] 7 8 9 some_threads).1.thread_head thread_ready ≡ memory)
unfolding thread_create
new_thread_4 = (refl, refl)

-- The cleaner gives back the thread at 600 and keeps the one at 700.
thread_clean-SweptFrom_example :
    (s' : Threads) × (thread_clean 4 some_threads ≡ some s')
    × SweptFrom nodes some_threads owner lists [] (lists thread_died) s'
    × IsScheduled s' (with_list lists thread_died (kept nodes (lists thread_died)))
thread_clean-SweptFrom_example =
    thread_clean-SweptFrom some_threads owner lists 4 some_threads-IsThreads
      some_threads-IsScheduled (omega arith)

what_stays :
    (kept nodes (lists thread_died) ≡ 700 ∷ []) × (freed_by nodes (lists thread_died) [] ≡ 600 ∷ [])
what_stays = (refl, refl)

abbrev static_threads : Threads
static_threads = record {
  thread_head = λ a. 0;
  node = λ q. thread 9 9 0;
  tid_bitmap = λ w. if w == 0 then 1 else 7;
  current_thread = 0;
  fix_next_thread = 0;
  thread_lock = 0;
  freed = [];
}

static_threads-IsStatic : IsStatic static_threads 100
static_threads-IsStatic = record {
  no_thread = λ a. refl;
  only_first = refl;
  none_fixed = refl;
  zero_next = refl;
}

-- The cleaner starts at 100.
start_thread-IsScheduled_example :
    (s' : Threads) × (start_thread 1 100 [] 5 6 static_threads ≡ some s')
    × IsThreads s' (λ _. 100) (alone 100 thread_running)
    × IsScheduled s' (alone 100 thread_running)
    × (s'.current_thread ≡ 100)
    × (s'.thread_lock ≡ 0)
start_thread-IsScheduled_example =
    start_thread-IsScheduled static_threads 100 [] 5 6 1 static_threads-IsStatic (omega arith)
      (omega arith)
