-- ===== src/Thread/Small.antt =====
-- A small state of kernel/thread.c for the examples.
use test_os.Base.{
  All, ℕ, zero, suc, ◌+◌, ◌*◌, ◌<◌, ◌≡◌, inl, inr, refl, arith, List, [], ◌∷◌, ◌==◌, if◌then◌else◌,
}
use test_os.Thread.{kernel_thread_max, Thread, Threads, thread_status_size}
use test_os.Thread.State.{tid_used, Member, IsThreads}
use test_os.Thread.Scheduled.{IsScheduled}
use test_os.Thread.Chain.{Chain, Distinct}

-- A thread with its id, its status and the next of its list.
abbrev pub thread : (tid status next : ℕ) → Thread
thread tid status next = record {
  tid = tid;
  status = status;
  wake_millisecond = 0;
  ref = 0;
  name = [];
  handler = 0;
  params = 0;
  esp = 0;
  stack = [];
  next = next;
}

-- The cleaner at 100 and a thread at 200 are running, the latter is the current one; one thread is
-- suspended at 300 and one is ready at 400; two have died, and somebody waits for the second of them, at 700.
abbrev pub nodes : ℕ → Thread
nodes q =
    if q == 100
    then thread 0 0 200
    else if q == 200
    then thread 1 0 0
    else if q == 300
    then thread 2 2 0
    else if q == 400
    then thread 3 1 0
    else if q == 600
    then thread 5 3 700
    else record (thread 6 3 0) { ref = 1 }

abbrev pub heads : ℕ → ℕ
heads a = if a == 0 then 100 else if a == 1 then 400 else if a == 2 then 300 else 600

abbrev pub lists : ℕ → List ℕ
lists a =
    if a == 0
    then 100 ∷ 200 ∷ []
    else if a == 1
    then 400 ∷ []
    else if a == 2
    then 300 ∷ []
    else 600 ∷ 700 ∷ []

abbrev pub owner : ℕ → ℕ
owner tid = (tid + 1) * 100

abbrev pub some_threads : Threads
some_threads = record {
  thread_head = heads;
  node = nodes;
  tid_bitmap = λ w. if w == 0 then 111 else 0;
  current_thread = 200;
  fix_next_thread = 0;
  thread_lock = 0;
  freed = [];
}

pub each_status {κ} :
    (P : ℕ → Type κ) → P 0 → P 1 → P 2 → P 3 → (a : ℕ) → a < thread_status_size → P a
each_status P p q r t zero lt = p
each_status P p q r t (suc zero) lt = q
each_status P p q r t (suc (suc zero)) lt = r
each_status P p q r t (suc (suc (suc zero))) lt = t
each_status P p q r t (suc (suc (suc (suc a)))) lt = absurd (omega arith)

member :
    (a p : ℕ)
    → (nodes p).status ≡ a
    → owner (nodes p).tid ≡ p
    → (nodes p).tid < kernel_thread_max
    → tid_used some_threads.tid_bitmap (nodes p).tid ≡ 1
    → Member some_threads owner a p
member a p status own small given = record {
  status = status;
  own = own;
  small = small;
  given = given;
}

pub some_threads-IsThreads : IsThreads some_threads owner lists
some_threads-IsThreads = record {
  chain =
      each_status (λ a. Chain nodes (heads a) (lists a))
        (refl, omega arith, (refl, omega arith, refl)) (refl, omega arith, refl)
        (refl, omega arith, refl) (refl, omega arith, (refl, omega arith, refl));
  distinct =
      each_status (λ a. Distinct (lists a)) ((omega arith, tt), (tt, tt)) (tt, tt) (tt, tt)
        ((omega arith, tt), (tt, tt));
  members =
      each_status (λ a. All (Member some_threads owner a) (lists a))
        (member 0 100 refl refl (omega arith) refl, (member 0 200 refl refl (omega arith) refl, tt))
        (member 1 400 refl refl (omega arith) refl, tt)
        (member 2 300 refl refl (omega arith) refl, tt)
        (
          member 3 600 refl refl (omega arith) refl,
          (member 3 700 refl refl (omega arith) refl, tt),
        );
}

pub some_threads-IsScheduled : IsScheduled some_threads lists
some_threads-IsScheduled = record {
  here = inr (inl refl);
  none_fixed = refl;
  cleaner = (100, inl refl, refl);
}
