-- ===== src/Thread/Create/Enlist.antt =====
-- `thread_create` of kernel/thread.c on well-formed lists.
use test_os.Base.{
  ℕ, ◌/◌, ◌≡◌, ◌≢◌, ◌⊎◌, inl, inr, refl, ◌∙◌, ap, arith, true, false, List, ◌∷◌, Option, some, none,
  ◌==◌, if◌then◌else◌,
}
use test_os.Base.Memory.{store}
use test_os.Thread.{
  tid_bit_nr, Thread, Threads, write, link, pe_lock, pe_unlock, thread_ready, thread_running,
  kernel_thread_max,
}
use test_os.Thread.Chain.{All-mono, All-zip}
use test_os.Thread.State.{Member-frame, tid_used, Member, IsThreads, Detached, with_list}
use test_os.Thread.Move.{pe_unlock-lock}
use test_os.Thread.Scheduled.{IsScheduled}
use test_os.Thread.Moves.{locked}
use test_os.Thread.Create.{give_id, zero_thread, new_thread, scan_ids, create_with, thread_create}
use test_os.Thread.Create.Ids.{tid_used-give_id, FirstId, scan_ids-FirstId}
use native.Mathlib.Decide.{ℕ_discrete}
use test_os.Thread.Create.Written.{
  written-Chain, other_node, enlisted-IsThreads, enlisted_node, enlisted-IsScheduled,
}

-- The new thread `p` has got the first free id `tid`, and stands at the head of the ready list.
pub record Created (s : Threads) (owner : ℕ → ℕ) (lists : ℕ → List ℕ) (p tid : ℕ) (s' : Threads)
    : Type 0 where
  pub first : FirstId s.tid_bitmap 0 kernel_thread_max (some tid)
  pub its_id : (s'.node p).tid ≡ tid
  pub well_formed :
      IsThreads s' (store owner tid p) (with_list lists thread_ready (p ∷ lists thread_ready))
  pub scheduled : IsScheduled s' (with_list lists thread_ready (p ∷ lists thread_ready))
  pub ids : (i : ℕ) → tid_used s'.tid_bitmap i ≡ (if i == tid then 1 else tid_used s.tid_bitmap i)
  pub same_nodes : (q : ℕ) → q ≢ p → s'.node q ≡ s.node q
  pub same_current : s'.current_thread ≡ s.current_thread
  pub same_freed : s'.freed ≡ s.freed
  pub free_lock : s'.thread_lock ≡ 0

-- Every id is given out; the memory `p` is given back.
pub record Refused (s : Threads) (owner : ℕ → ℕ) (lists : ℕ → List ℕ) (p : ℕ) (s' : Threads)
    : Type 0 where
  pub all_used : FirstId s.tid_bitmap 0 kernel_thread_max none
  pub well_formed : IsThreads s' owner lists
  pub scheduled : IsScheduled s' lists
  pub given_back : s'.freed ≡ p ∷ s.freed
  pub same_ids : s'.tid_bitmap ≡ s.tid_bitmap
  pub same_current : s'.current_thread ≡ s.current_thread
  pub free_lock : s'.thread_lock ≡ 0

-- The result and the state of `thread_create`.
abbrev pub Outcome : Threads → (ℕ → ℕ) → (ℕ → List ℕ) → ℕ → Option ℕ × Threads → Type 0
Outcome s owner lists p (some tid, s') = Created s owner lists p tid s'
Outcome s owner lists p (none, s') = Refused s owner lists p s'

module _ (s : Threads) (owner : ℕ → ℕ) (lists : ℕ → List ℕ) (h : IsThreads s owner lists)
    (sched : IsScheduled s lists) (p : ℕ) (some_node : p ≢ 0) (fresh : Detached p lists) where
  enlisted-Created :
      (tid : ℕ) (t : Thread)
      → FirstId s.tid_bitmap 0 kernel_thread_max (some tid)
      → t.tid ≡ tid
      → Created s owner lists p tid (
          pe_unlock (
            link thread_ready p
              (record s { node = write s.node p t; tid_bitmap = give_id s.tid_bitmap tid })))
  unfolding link
  enlisted-Created tid t (le, lt, free, before) named = record {
    first = (le, lt, free, before);
    its_id = ground (arith, named);
    well_formed = enlisted-IsThreads s owner lists h sched p some_node fresh tid lt free t named;
    scheduled = enlisted-IsScheduled s owner lists h sched p some_node fresh tid lt free t named;
    ids = λ i. tid_used-give_id s.tid_bitmap tid i;
    same_nodes = enlisted_node s owner lists h sched p some_node fresh tid lt free t named;
    same_current = refl;
    same_freed = refl;
    free_lock = pe_unlock-lock (
        link thread_ready p
          (record s { node = write s.node p t; tid_bitmap = give_id s.tid_bitmap tid }));
  }

  abbrev given_back : Threads
  given_back = pe_unlock (record s { node = write s.node p zero_thread; freed = p ∷ s.freed })

  given_back_node : (q : ℕ) → q ≢ p → given_back.node q ≡ s.node q
  given_back_node q ne = ground arith

  given_back-IsThreads : IsThreads given_back owner lists
  given_back-IsThreads = record {
    chain = written-Chain s owner lists h sched p some_node fresh zero_thread;
    distinct = h.distinct;
    members = λ b below.
        All-mono (λ q. (q ≢ p) × Member s owner b q) (Member given_back owner b) (lists b)
          (λ q (ne, m).
            Member-frame s given_back owner b q
              (record {
                same_status = ap (λ (u : Thread). u.status) (given_back_node q ne);
                same_tid = ap (λ (u : Thread). u.tid) (given_back_node q ne);
                same_bitmap = refl;
              })
              m)
          (All-zip (λ q. q ≢ p) (Member s owner b) (lists b) (fresh b below) (h.members b below));
  }

  refused : FirstId s.tid_bitmap 0 kernel_thread_max none → Refused s owner lists p given_back
  refused all_used =
      let (c, has, cleaner) = sched.cleaner in
      record {
        all_used = all_used;
        well_formed = given_back-IsThreads;
        scheduled = record {
          here = sched.here;
          none_fixed = sched.none_fixed;
          cleaner = (
            c,
            has,
            ap (λ (u : Thread). u.tid)
                  (given_back_node c (
                    other_node s owner lists h sched p some_node fresh c thread_running
                      (omega arith) has))
                ∙ cleaner,
          );
        };
        given_back = refl;
        same_ids = refl;
        same_current = refl;
        free_lock =
            pe_unlock-lock (record s { node = write s.node p zero_thread; freed = p ∷ s.freed });
      }

-- Taking the lock first makes no difference to the outcome.
from_locked :
    (s : Threads) (owner : ℕ → ℕ) (lists : ℕ → List ℕ) (p : ℕ) (r : Option ℕ × Threads)
    → Outcome (pe_lock s) owner lists p r
    → Outcome s owner lists p r
from_locked s owner lists p (some tid, s') c = record {
  first = c.first;
  its_id = c.its_id;
  well_formed = c.well_formed;
  scheduled = c.scheduled;
  ids = c.ids;
  same_nodes = c.same_nodes;
  same_current = c.same_current;
  same_freed = c.same_freed;
  free_lock = c.free_lock;
}
from_locked s owner lists p (none, s') c = record {
  all_used = c.all_used;
  well_formed = c.well_formed;
  scheduled = c.scheduled;
  given_back = c.given_back;
  same_ids = c.same_ids;
  same_current = c.same_current;
  free_lock = c.free_lock;
}

create_with-Outcome :
    (s : Threads) (owner : ℕ → ℕ) (lists : ℕ → List ℕ) (p : ℕ) (r : Option ℕ) (name : List ℕ)
    (handler params died : ℕ)
    → IsThreads s owner lists
    → IsScheduled s lists
    → p ≢ 0
    → Detached p lists
    → FirstId s.tid_bitmap 0 kernel_thread_max r
    → Outcome s owner lists p (create_with r p name handler params died s)
unfolding create_with
create_with-Outcome s owner lists p (some tid) name handler params died h sched some_node fresh
      first =
    enlisted-Created s owner lists h sched p some_node fresh tid
      (new_thread p tid name handler params died) first refl
create_with-Outcome s owner lists p none name handler params died h sched some_node fresh all_used =
    refused s owner lists h sched p some_node fresh all_used

-- With memory at the address `p`, on no list, `thread_create` either gives the new thread the first free
-- id and puts it at the head of the ready list, which keeps the lists and ids well-formed; or every id is
-- given out, the result is -1, the memory is given back and nothing changes on the lists. Without
-- memory, the result is -1 and nothing changes.
pub thread_create-Outcome :
    (s : Threads) (owner : ℕ → ℕ) (lists : ℕ → List ℕ) (p : ℕ) (name : List ℕ)
    (handler params died : ℕ)
    → IsThreads s owner lists
    → IsScheduled s lists
    → Detached p lists
    → ((p ≡ 0) × (thread_create p name handler params died s ≡ (none, s)))
      ⊎ ((p ≢ 0) × Outcome s owner lists p (thread_create p name handler params died s))
unfolding thread_create
thread_create-Outcome s owner lists p name handler params died h sched fresh =
    elim (ℕ_discrete p 0) [
      | yes no_memory ↦ let test : (p == 0) ≡ true = ground arith in rw test (inl (no_memory, refl))
      | no some_node ↦
          let test : (p == 0) ≡ false = ground arith in
          let r = scan_ids (kernel_thread_max / tid_bit_nr) s.tid_bitmap 0 in
          rw test (
            inr (
              some_node,
              from_locked s owner lists p (create_with r p name handler params died (pe_lock s)) (
                  create_with-Outcome (pe_lock s) owner lists p r name handler params died
                    (locked s owner lists h)
                    (record {
                      here = sched.here;
                      none_fixed = sched.none_fixed;
                      cleaner = sched.cleaner;
                    })
                    some_node fresh (scan_ids-FirstId 8 s.tid_bitmap 0)),
            ))
    ]
