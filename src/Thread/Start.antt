-- ===== src/Thread/Start.antt =====
-- The beginning of `start_thread` of kernel/thread.c with no list of threads to create, up to where the
-- cleaner runs. Its structure is in memory that the function does not clear.
pub mod First
use test_os.Base.{
  ℕ, zero, suc, ◌+◌, ◌-◌, ◌%◌, ◌==◌, if◌then◌else◌, List, [], ◌∷◌, ◌++◌, Option, none, some, ◌>>=◌,
}
use test_os.Base.Memory.{store}
use test_os.Thread.{Thread, Threads, write, thread_ready, thread_wake, word}

-- The fields that are set; `name` is "thread cleaner" with its zero, copied over the old name.
abbrev pub thread_cleaner : (name : List ℕ) → (handler esp : ℕ) → Thread → Thread
thread_cleaner name handler esp t = record t {
  tid = 0;
  status = thread_ready;
  wake_millisecond = 0;
  ref = 0;
  name = name;
  handler = handler;
  params = 0;
  esp = esp;
}

-- `memset` of the bitmap behind its first word, and the ready list.
abbrev pub set_up : (cleaner : ℕ) → Thread → Threads → Threads
set_up cleaner t s = record s {
  tid_bitmap = λ w. if w == 0 then s.tid_bitmap 0 else 0;
  thread_head = store s.thread_head thread_ready cleaner;
  node = write s.node cleaner t;
}

unfoldable pub start_thread :
    ℕ → (cleaner : ℕ) → (name : List ℕ) → (handler esp : ℕ) → Threads → Option Threads
unfolding thread_wake
start_thread fuel cleaner name handler esp s =
    thread_wake fuel 0 (set_up cleaner (thread_cleaner name handler esp (s.node cleaner)) s)
    >>= λ s'. some (record s' { current_thread = cleaner })
