-- ===== src/Thread/Create/Written.antt =====
-- A new thread of kernel/thread.c, written into fresh memory and put on the ready list.
use test_os.Base.{ℕ, ◌<◌, ◌≡◌, ◌≢◌, refl, sym, ◌∙◌, ap, subst, arith, List, ◌∷◌}
use test_os.Base.Memory.{store}
use test_os.Thread.{
  Thread, Threads, write, link, pe_unlock, thread_ready, thread_running, thread_status_size,
  kernel_thread_max,
}
use test_os.Thread.Chain.{Chain, All-mono, All-zip, Chain-frame}
use test_os.Thread.State.{store_self, store_ne, tid_used, Member, IsThreads, Detached, with_list}
use test_os.Thread.Link.{Inner-IsThreads, link-IsThreads}
use test_os.Thread.Move.{SameLists-Inner, pe_unlock-SameLists}
use test_os.Thread.Scheduled.{Has, IsScheduled, All-Has}
use test_os.Thread.Create.{give_id}
use test_os.Thread.Create.Ids.{tid_used-give_id}

module _ (s : Threads) (owner : ℕ → ℕ) (lists : ℕ → List ℕ) (h : IsThreads s owner lists)
    (sched : IsScheduled s lists) (p : ℕ) (some_node : p ≢ 0) (fresh : Detached p lists) where
  -- A write to the fresh node.
  pub written-Chain :
      (t : Thread) (b : ℕ)
      → b < thread_status_size
      → Chain (write s.node p t) (s.thread_head b) (lists b)
  written-Chain t b below =
      Chain-frame s.node (write s.node p t) (s.thread_head b) (lists b)
        (All-mono (λ q. q ≢ p) (λ q. (write s.node p t q).next ≡ (s.node q).next) (lists b)
          (λ q ne. ground arith) (fresh b below))
        (h.chain b below)

  pub other_node : (q b : ℕ) → b < thread_status_size → Has q (lists b) → q ≢ p
  other_node q b below has = All-Has (λ r. r ≢ p) q (lists b) (fresh b below) has

  module _ (tid : ℕ) (small : tid < kernel_thread_max) (free : tid_used s.tid_bitmap tid ≡ 0)
      (t : Thread) (named : t.tid ≡ tid) where
    abbrev given : Threads
    given = record s { node = write s.node p t; tid_bitmap = give_id s.tid_bitmap tid }

    Member-kept : (a q : ℕ) → q ≢ p → Member s owner a q → Member given (store owner tid p) a q
    Member-kept a q ne m =
        let same : given.node q ≡ s.node q = ground arith in
        let same_tid : (given.node q).tid ≡ (s.node q).tid = ap (λ (u : Thread). u.tid) same in
        let other : (s.node q).tid ≢ tid =
          λ e. absurd (omega (arith, m.given, free, ap (tid_used s.tid_bitmap) e)) in
        record {
          status = ap (λ (u : Thread). u.status) same ∙ m.status;
          own = ap (store owner tid p) same_tid ∙ store_ne owner tid p (s.node q).tid other ∙ m.own;
          small = subst (λ i. i < kernel_thread_max) (sym same_tid) m.small;
          given =
              ap (tid_used (give_id s.tid_bitmap tid)) same_tid
              ∙ tid_used-give_id s.tid_bitmap tid (s.node q).tid
              ∙ ground (arith, m.given);
        }

    given-IsThreads : IsThreads given (store owner tid p) lists
    given-IsThreads = record {
      chain = written-Chain t;
      distinct = h.distinct;
      members = λ b below.
          All-mono (λ q. (q ≢ p) × Member s owner b q) (Member given (store owner tid p) b)
            (lists b) (λ q (ne, m). Member-kept b q ne m)
            (All-zip (λ q. q ≢ p) (Member s owner b) (lists b) (fresh b below) (h.members b below));
    }

    given_tid : (given.node p).tid ≡ tid
    given_tid = ap (λ (u : Thread). u.tid) {x = given.node p} {y = t} (ground arith) ∙ named

    new-Member : Member given (store owner tid p) (given.node p).status p
    new-Member = record {
      status = refl;
      own = ap (store owner tid p) given_tid ∙ store_self owner tid p;
      small = subst (λ i. i < kernel_thread_max) (sym given_tid) small;
      given =
          ap (tid_used (give_id s.tid_bitmap tid)) given_tid
          ∙ tid_used-give_id s.tid_bitmap tid tid
          ∙ ground arith;
    }

    abbrev enlisted : Threads
    enlisted = pe_unlock (link thread_ready p given)

    pub enlisted-IsThreads :
        IsThreads enlisted
          (store owner tid p)
          (with_list lists thread_ready (p ∷ lists thread_ready))
    enlisted-IsThreads =
        Inner-IsThreads (link thread_ready p given) enlisted (store owner tid p)
          (with_list lists thread_ready (p ∷ lists thread_ready))
          (SameLists-Inner (link thread_ready p given) enlisted
            (pe_unlock-SameLists (link thread_ready p given)))
          (link-IsThreads given (store owner tid p) lists given-IsThreads thread_ready p
            (omega arith) some_node fresh new-Member)

    pub enlisted_node : (q : ℕ) → q ≢ p → enlisted.node q ≡ s.node q
    unfolding link
    enlisted_node q ne = ground arith

    pub enlisted-IsScheduled :
        IsScheduled enlisted (with_list lists thread_ready (p ∷ lists thread_ready))
    unfolding link
    enlisted-IsScheduled =
        let (c, has, cleaner) = sched.cleaner in
        record {
          here = sched.here;
          none_fixed = sched.none_fixed;
          cleaner = (
            c,
            has,
            ap (λ (u : Thread). u.tid)
                  (enlisted_node c (other_node c thread_running (omega arith) has))
                ∙ cleaner,
          );
        }
