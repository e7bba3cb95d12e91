-- ===== src/Thread/Clean.antt =====
-- The cleaner of kernel/thread.c, thread 0: the loop of `start_thread` over the died threads. A sweep is
-- a sequence of steps of the cleaner with no other thread in between.
pub mod Ids
pub mod Node
pub mod Sweep
use test_os.Base.{
  ℕ, zero, suc, ◌+◌, ◌/◌, ◌%◌, ◌^◌, Bool, true, false, Option, none, some, List, ◌∷◌, bit_and, ◌==◌,
  if◌then◌else◌,
}
use test_os.Base.Bits.{bit_not}
use test_os.Base.Memory.{store}
use test_os.Thread.{Threads, unlink, thread_died, tid_bit_nr}

-- `tid_bitmap[tid / TID_BIT_NR] &= ~(1 << (tid % TID_BIT_NR))`
abbrev pub take_id : (ℕ → ℕ) → ℕ → ℕ → ℕ
take_id bitmap tid =
    store bitmap (tid / tid_bit_nr)
      (bit_and (bitmap (tid / tid_bit_nr)) (bit_not tid_bit_nr (2 ^ (tid % tid_bit_nr))))

-- A died thread that nobody waits for leaves the list, its id and its memory are given back.
unfoldable pub clean_node : (prev p : ℕ) → Threads → Threads
unfolding unlink
clean_node prev p s =
    let s' = unlink thread_died prev p s in
    record s' { tid_bitmap = take_id s'.tid_bitmap (s'.node p).tid; freed = p ∷ s'.freed }

-- `while (node != NULL)`
unfoldable pub clean_loop : ℕ → (prev p : ℕ) → Threads → Option Threads
unfolding clean_node
clean_loop zero prev p s = none
clean_loop (suc fuel) prev p s = elim (p == 0) [
  | true ↦ some s
  | false ↦ elim ((s.node p).ref == 0) [
    | true ↦ clean_loop fuel prev (s.node p).next (clean_node prev p s)
    | false ↦ clean_loop fuel p (s.node p).next s
  ]
]

-- One round of `for (;;)`, up to `thread_yield`.
unfoldable pub thread_clean : ℕ → Threads → Option Threads
unfolding clean_loop
thread_clean fuel s = clean_loop fuel 0 (s.thread_head thread_died) s
