-- ===== src/Timer.antt =====
-- kernel/timer.c on the threads of kernel/thread.c: the tick, going to sleep, and the polling of the
-- sleeping threads. The tick does not advance during one pass over the suspended threads, and no other
-- thread runs in between. Loops over a list run on fuel; `none` means that it is used up.
pub mod Wake
pub mod Due
pub mod Poll
mod Examples
use test_os.Base.{
  ℕ, zero, suc, ◌+◌, ◌-◌, ◌*◌, ◌/◌, ◌%◌, ◌^◌, Bool, true, false, Option, none, some, leb, ltb, not,
  ◌==◌, if◌then◌else◌, ◌>>=◌,
}
use test_os.Thread.{
  Threads, write, word, thread_died, thread_suspended, thread_schedule, thread_wake, thread_suspend,
}

abbrev pub kernel_tick_hz : ℕ
kernel_tick_hz = 100

abbrev pub kernel_thread_step : ℕ
kernel_thread_step = 2

-- `tick_val`, with the threads.
pub record Timer : Type 0 where
  pub tick_val : ℕ
  pub threads : Threads

abbrev pub tick_to_millisecond : ℕ → ℕ
tick_to_millisecond tick_val = tick_val * (kernel_tick_hz / 10) % word

unfoldable pub timer_isr : Timer → Timer
unfolding thread_schedule
timer_isr t =
    let tick = (t.tick_val + 1) % word in
    if tick % kernel_thread_step == 0
    then record t { tick_val = tick; threads = thread_schedule t.threads }
    else record t { tick_val = tick }

-- The branch of `sleep` that suspends the current thread.
unfoldable pub sleep_long : ℕ → (millisecond now : ℕ) → Threads → Option Threads
unfolding thread_suspend
sleep_long fuel millisecond now s =
    let p = s.current_thread in
    let t = s.node p in
    thread_suspend fuel t.tid (record s {
      node =
          write s.node p
            (record t { wake_millisecond = (now + millisecond) % word; ref = (t.ref + 1) % word });
    })

-- `--(node->ref)`
abbrev pub drop_ref : ℕ → Threads → Threads
drop_ref p s = record s {
  node = write s.node p (record (s.node p) { ref = ((s.node p).ref + (word - 1)) % word });
}

-- A thread whose time has come.
unfoldable pub wake_due : ℕ → ℕ → Threads → Option Threads
unfolding thread_wake
wake_due fuel p s =
    let s' = drop_ref p s in
    if not ((s'.node p).status == thread_died) then thread_wake fuel (s'.node p).tid s' else some s'

-- `while (node != NULL)`, on the rounds left; the least time to come, and the state.
unfoldable pub poll_loop : ℕ → (fuel now node min_wake : ℕ) → Threads → Option (ℕ × Threads)
unfolding wake_due
poll_loop zero fuel now p min_wake s = none
poll_loop (suc rounds) fuel now p min_wake s = elim (p == 0) [
  | true ↦ some (min_wake, s)
  | false ↦ elim (leb (s.node p).wake_millisecond now) [
    | true ↦ wake_due fuel p s >>= λ s'. poll_loop rounds fuel now (s.node p).next min_wake s'
    | false ↦
        poll_loop rounds fuel now (s.node p).next
          (if ltb (s.node p).wake_millisecond min_wake
            then (s.node p).wake_millisecond
            else min_wake)
          s
  ]
]

-- One round of `for (;;)`, up to the test of the least time to come.
unfoldable pub poll_sleepers : ℕ → (now : ℕ) → Threads → Option (ℕ × Threads)
unfolding poll_loop
poll_sleepers fuel now s = poll_loop fuel fuel now (s.thread_head thread_suspended) (word - 1) s
