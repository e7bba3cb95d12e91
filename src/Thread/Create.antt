-- ===== src/Thread/Create.antt =====
-- `thread_create` of kernel/thread.c: the first free id, and a new thread on the ready list.
pub mod Ids
pub mod Written
pub mod Enlist
use test_os.Base.{
  ℕ, zero, suc, ◌+◌, ◌-◌, ◌*◌, ◌/◌, ◌%◌, ◌^◌, Option, none, some, List, [], ◌∷◌, ◌++◌, bit_or, ◌==◌,
  if◌then◌else◌,
}
use test_os.Base.Bits.{bit}
use test_os.Base.Memory.{store}
use test_os.Thread.{
  Thread, Threads, write, link, pe_lock, pe_unlock, thread_ready, kernel_thread_max,
  kernel_thread_name_len, kernel_thread_stack_size, tid_bit_nr, word,
}

-- `for (bit_idx = 0; …)`, on the rounds left.
unfoldable pub scan_bits : ℕ → (map bit_idx : ℕ) → Option ℕ
scan_bits zero map bit_idx = none
scan_bits (suc rounds) map bit_idx =
    let rest = scan_bits rounds map (bit_idx + 1) in
    if bit map bit_idx == 0 then some bit_idx else rest

-- `for (map_idx = 0; …)`, on the rounds left; the free id.
unfoldable pub scan_ids : ℕ → (ℕ → ℕ) → ℕ → Option ℕ
unfolding scan_bits
scan_ids zero bitmap map_idx = none
scan_ids (suc rounds) bitmap map_idx = elim (scan_bits tid_bit_nr (bitmap map_idx) 0) [
  | some bit_idx ↦ some (map_idx * tid_bit_nr + bit_idx)
  | none ↦ scan_ids rounds bitmap (map_idx + 1)
]

-- `tid_bitmap[map_idx] |= 1 << bit_idx`
abbrev pub give_id : (ℕ → ℕ) → ℕ → ℕ → ℕ
give_id bitmap tid =
    store bitmap (tid / tid_bit_nr) (bit_or (bitmap (tid / tid_bit_nr)) (2 ^ (tid % tid_bit_nr)))

-- The first bytes of the name, filled up with zeros, and a last zero.
abbrev pub name_bytes : ℕ → List ℕ → List ℕ
name_bytes zero name = 0 ∷ []
name_bytes (suc n) [] = 0 ∷ name_bytes n []
name_bytes (suc n) (c ∷ name) = c ∷ name_bytes n name

-- The structure after `memset`.
abbrev pub zero_thread : Thread
zero_thread = record {
  tid = 0;
  status = 0;
  wake_millisecond = 0;
  ref = 0;
  name = name_bytes (kernel_thread_name_len - 1) [];
  handler = 0;
  params = 0;
  esp = 0;
  stack = [];
  next = 0;
}

-- `died` is the address of `thread_died`; the name of a `NULL` is "unnamed".
abbrev pub new_thread : (p tid : ℕ) → List ℕ → (handler params died : ℕ) → Thread
new_thread p tid name handler params died = record {
  tid = tid;
  status = thread_ready;
  wake_millisecond = 0;
  ref = 0;
  name = name_bytes (kernel_thread_name_len - 1) name;
  handler = handler;
  params = params;
  esp = (p + kernel_thread_stack_size - 12) % word;
  stack = handler ∷ died ∷ params ∷ [];
  next = 0;
}

-- Behind the search for an id: the result, `none` for -1, and the state.
unfoldable pub create_with :
    Option ℕ → (p : ℕ) → List ℕ → (handler params died : ℕ) → Threads → Option ℕ × Threads
unfolding link
create_with none p name handler params died s =
    (none, pe_unlock (record s { node = write s.node p zero_thread; freed = p ∷ s.freed }))
create_with (some tid) p name handler params died s = (
  some tid,
  pe_unlock (
      link thread_ready p (record s {
        node = write s.node p (new_thread p tid name handler params died);
        tid_bitmap = give_id s.tid_bitmap tid;
      })),
)

-- `p` is what `malloc` returns.
unfoldable pub thread_create :
    (p : ℕ) → List ℕ → (handler params died : ℕ) → Threads → Option ℕ × Threads
unfolding scan_ids create_with
thread_create p name handler params died s =
    if p == 0
    then (none, s)
    else create_with (scan_ids (kernel_thread_max / tid_bit_nr) s.tid_bitmap 0) p name handler
        params died (pe_lock s)
