-- ===== src/Timer/Examples.antt =====
-- A pass over the suspended threads of a small state.
use test_os.Base.{ℕ, ◌-◌, ◌≡◌, refl, arith, [], ◌∷◌, some, ◌^◌}
use test_os.Thread.{Threads, thread_suspended, thread_running}
use test_os.Thread.Small.{
  nodes, lists, owner, some_threads, some_threads-IsThreads, some_threads-IsScheduled,
}
use test_os.Timer.{poll_sleepers}
use test_os.Timer.Due.{Polled, soonest, polled, counted}
use test_os.Timer.Poll.{poll_sleepers-Polled}

abbrev wake : ℕ → ℕ
wake q = (nodes q).wake_millisecond

-- The thread at 300 was suspended without a time.
poll_sleepers-Polled_example :
    (s' : Threads) × (poll_sleepers 4 50 some_threads
      ≡ some (soonest wake 50 (lists thread_suspended) (2 ^ 32 - 1), s'))
    × Polled wake 50 some_threads owner lists [] (lists thread_suspended) s'
poll_sleepers-Polled_example =
    poll_sleepers-Polled some_threads owner lists 4 50 some_threads-IsThreads
      some_threads-IsScheduled (omega arith) (omega arith)

-- It runs again, and its count is the greatest word.
awake :
    (polled wake 50 lists [] (lists thread_suspended) thread_running ≡ 300 ∷ 100 ∷ 200 ∷ [])
    × (counted wake 50 (lists thread_suspended) 300 0 ≡ 2 ^ 32 - 1)
awake = (refl, refl)
