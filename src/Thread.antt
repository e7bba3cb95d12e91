-- ===== src/Thread.antt =====
-- kernel/thread.c and include/thread.h: the lists of threads, their ids and the scheduler. A thread
-- structure is a record at its address; the four lists are linked through the field `next`, NULL is 0.
-- `malloc` of the kernel heap is an argument, the address that it returns; what is given to `free` is
-- listed. The stack switch itself is left out: a call that switches ends with the new current thread.
-- Loops over a list run on fuel; `none` means that it is used up.
pub mod Chain
pub mod Find
pub mod State
pub mod Unlink
pub mod Link
pub mod Move
pub mod Switch
pub mod Scheduled
pub mod Moves
pub mod After
pub mod Lists
pub mod Turns
pub mod Create
pub mod Clean
pub mod Start
pub mod Small
mod Examples
use test_os.Base.{
  ℕ, zero, suc, ◌+◌, ◌-◌, ◌*◌, ◌/◌, ◌%◌, ◌^◌, Bool, true, false, ◌&&◌, not, Option, none, some,
  List, [], ◌∷◌, ◌++◌, bit_and, bit_or, ltb, ◌==◌, if◌then◌else◌, ◌>>=◌,
}
use test_os.Base.Bits.{bit, bit_not}
use test_os.Base.Memory.{Memory, store}

-- `enum THREAD_STATUS`
abbrev pub thread_running : ℕ
thread_running = 0

abbrev pub thread_ready : ℕ
thread_ready = 1

abbrev pub thread_suspended : ℕ
thread_suspended = 2

abbrev pub thread_died : ℕ
thread_died = 3

abbrev pub thread_status_size : ℕ
thread_status_size = 4

abbrev pub kernel_thread_max : ℕ
kernel_thread_max = 256

abbrev pub kernel_thread_name_len : ℕ
kernel_thread_name_len = 16

abbrev pub kernel_thread_stack_size : ℕ
kernel_thread_stack_size = 4 * 1024

abbrev pub tid_bit_nr : ℕ
tid_bit_nr = 32

abbrev pub word : ℕ
word = 2 ^ 32

-- `struct thread`. Of the context only the stack pointer is set by the code here; `stack` are the words
-- from there to the end of the structure's page.
pub record Thread : Type 0 where
  pub tid : ℕ
  pub status : ℕ
  pub wake_millisecond : ℕ
  pub ref : ℕ
  pub name : List ℕ
  pub handler : ℕ
  pub params : ℕ
  pub esp : ℕ
  pub stack : List ℕ
  pub next : ℕ

-- The static variables, the thread structures in memory, and what was given to `free`.
pub record Threads : Type 0 where
  pub thread_head : ℕ → ℕ
  pub node : ℕ → Thread
  pub tid_bitmap : ℕ → ℕ
  pub current_thread : ℕ
  pub fix_next_thread : ℕ
  pub thread_lock : ℕ
  pub freed : List ℕ

abbrev pub write : (ℕ → Thread) → ℕ → Thread → ℕ → Thread
write nodes p t q = if p == q then t else nodes q

-- `p->next = q`
abbrev pub set_next : (ℕ → Thread) → ℕ → ℕ → ℕ → Thread
set_next nodes p q = write nodes p (record (nodes p) { next = q })

-- The result of `thread_find_by_tid`.
pub data Found : Type 0 where
  found : (prev node : ℕ) → Found
  missing : Found
  out_of_fuel : Found

unfoldable pub find_loop : ℕ → (ℕ → Thread) → ℕ → (prev node : ℕ) → Found
find_loop zero nodes tid prev p = Found.out_of_fuel
find_loop (suc fuel) nodes tid prev p =
    let rest = find_loop fuel nodes tid p (nodes p).next in
    if p == 0 then Found.missing else if (nodes p).tid == tid then Found.found prev p else rest

unfoldable pub thread_find_by_tid : ℕ → Threads → (tid status : ℕ) → Found
thread_find_by_tid fuel s tid status = find_loop fuel s.node tid 0 (s.thread_head status)

-- `if (prev != NULL) prev->next = node->next; else thread_head[status] = node->next;`
unfoldable pub unlink : (status prev p : ℕ) → Threads → Threads
unlink status prev p s =
    if prev == 0
    then record s { thread_head = store s.thread_head status (s.node p).next }
    else record s { node = set_next s.node prev (s.node p).next }

-- The status of a thread, and its place at the head of the list of that status.
unfoldable pub link : (status p : ℕ) → Threads → Threads
link status p s = record s {
  node = write s.node p (record (s.node p) { status = status; next = s.thread_head status });
  thread_head = store s.thread_head status p;
}

-- At the time when the lock is got; the waiting for it before that is other threads' running.
abbrev pub pe_lock : Threads → Threads
pe_lock s = record s { thread_lock = bit_or s.thread_lock 1 }

abbrev pub pe_unlock : Threads → Threads
pe_unlock s = record s { thread_lock = bit_and s.thread_lock 0 }

-- `thread_schedule` up to the switch.
unfoldable pub thread_schedule : Threads → Threads
thread_schedule s =
    let next = (s.node s.current_thread).next in
    if s.current_thread == 0
    then s
    else if not (s.fix_next_thread == 0)
    then (record s { current_thread = s.fix_next_thread; fix_next_thread = 0 })
    else if not (next == 0)
    then record s { current_thread = next }
    else record s { current_thread = s.thread_head thread_running }

unfoldable pub wake_found : (status prev p : ℕ) → Threads → Threads
unfolding unlink link
wake_found status prev p s = link thread_running p (unlink status prev p s)

-- `if (tid == current->tid && (fix_next_thread = node->next) == NULL) …`, behind the unlinking.
unfoldable pub fix_switch : (tid p : ℕ) → Threads → Threads
fix_switch tid p s =
    let next = (s.node p).next in
    let fix = if next == 0 then s.thread_head thread_running else next in
    if tid == (s.node s.current_thread).tid then record s { fix_next_thread = fix } else s

unfoldable pub suspend_found : (tid prev p : ℕ) → Threads → Threads
unfolding fix_switch unlink link
suspend_found tid prev p s =
    link thread_suspended p (fix_switch tid p (unlink thread_running prev p s))

-- A sleeping thread gives back the reference that its sleep has taken.
unfoldable pub drop_sleep : ℕ → Threads → Threads
drop_sleep p s =
    let t = s.node p in
    if (t.status == thread_suspended) && (not (t.wake_millisecond == 0) && ltb 0 t.ref)
    then record s { node = write s.node p (record t { ref = t.ref - 1 }) }
    else s

unfoldable pub exit_found : (status tid prev p : ℕ) → Threads → Threads
unfolding fix_switch drop_sleep unlink link
exit_found status tid prev p s =
    link thread_died p (drop_sleep p (fix_switch tid p (unlink status prev p s)))

-- The end of `thread_suspend` and `thread_exit`, up to the switch if the current thread is meant.
unfoldable pub leave : ℕ → Threads → Threads
unfolding thread_schedule
leave tid s =
    if tid == (s.node s.current_thread).tid then thread_schedule (pe_unlock s) else pe_unlock s

-- The search in the list `first`, and if it fails in the list `second`; then `act` on what is found.
unfoldable pub in_either :
    ℕ → ℕ → (first second : ℕ) → (ℕ → ℕ → ℕ → Threads → Threads) → Threads → Option Threads
unfolding thread_find_by_tid
in_either fuel tid first second act s = elim (thread_find_by_tid fuel s tid first) [
  | found prev p ↦ some (act first prev p s)
  | out_of_fuel ↦ none
  | missing ↦ elim (thread_find_by_tid fuel s tid second) [
    | found prev p ↦ some (act second prev p s)
    | out_of_fuel ↦ none
    | missing ↦ some (pe_unlock s)
  ]
]

unfoldable pub thread_wake : ℕ → ℕ → Threads → Option Threads
unfolding in_either
thread_wake fuel tid s =
    in_either fuel tid thread_ready thread_suspended
      (λ status prev p s'. pe_unlock (wake_found status prev p s')) (pe_lock s)

unfoldable pub thread_exit : ℕ → ℕ → Threads → Option Threads
unfolding in_either
thread_exit fuel tid s =
    if tid == 0
    then some s
    else in_either fuel tid thread_running thread_suspended
        (λ status prev p s'. leave tid (exit_found status tid prev p s')) (pe_lock s)

unfoldable pub suspend_if : ℕ → Threads → Found → Option Threads
suspend_if tid s (found prev p) = some (leave tid (suspend_found tid prev p s))
suspend_if tid s missing = some (pe_unlock s)
suspend_if tid s out_of_fuel = none

unfoldable pub thread_suspend : ℕ → ℕ → Threads → Option Threads
thread_suspend fuel tid s =
    if tid == 0
    then some s
    else suspend_if tid (pe_lock s) (thread_find_by_tid fuel (pe_lock s) tid thread_running)
