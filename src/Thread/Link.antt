-- ===== src/Thread/Link.antt =====
-- Putting a thread at the head of a list of kernel/thread.c, and what else is done to one on the way.
use test_os.Base.{
  ℕ, ◌<◌, ◌≡◌, ◌≢◌, refl, sym, ap, subst, arith, List, ◌∷◌, All, ◌==◌, Bool-cases, inl, inr,
}
use test_os.Base.Memory.{store}
use test_os.Thread.{
  Thread, Threads, write, thread_status_size, kernel_thread_max, link, fix_switch, drop_sleep,
}
use test_os.Thread.Chain.{Chain, Distinct, All-mono, All-zip, Chain-frame}
use test_os.Thread.State.{
  tid_used, Member, IsThreads, Detached, with_list, with_list-all, Keeps, Member-frame, store_self,
  store_ne,
}

-- A change of fields other than `next` and those that a thread is known by.
pub record Inner (s s' : Threads) : Type 0 where
  pub same_heads : s'.thread_head ≡ s.thread_head
  pub same_next : (q : ℕ) → (s'.node q).next ≡ (s.node q).next
  pub keeps : (q : ℕ) → Keeps s s' q

pub Inner-IsThreads :
    (s s' : Threads) (owner : ℕ → ℕ) (lists : ℕ → List ℕ)
    → Inner s s'
    → IsThreads s owner lists
    → IsThreads s' owner lists
Inner-IsThreads s s' owner lists i h = record {
  chain = λ b below. rw i.same_heads (
      Chain-frame s.node s'.node (s.thread_head b) (lists b)
        (All-mono (Member s owner b) (λ q. (s'.node q).next ≡ (s.node q).next) (lists b)
          (λ q m. i.same_next q) (h.members b below))
        (h.chain b below));
  distinct = h.distinct;
  members = λ b below.
      All-mono (Member s owner b) (Member s' owner b) (lists b)
        (λ q. Member-frame s s' owner b q (i.keeps q)) (h.members b below);
}

pub fix_switch-Inner : (tid p : ℕ) (s : Threads) → Inner s (fix_switch tid p s)
unfolding fix_switch
fix_switch-Inner tid p s = elim (Bool-cases (tid == (s.node s.current_thread).tid)) [
  | inl e ↦ rw e (record {
    same_heads = refl;
    same_next = λ q. refl;
    keeps = λ q. record { same_status = refl; same_tid = refl; same_bitmap = refl };
  })
  | inr ne ↦ rw ne (record {
    same_heads = refl;
    same_next = λ q. refl;
    keeps = λ q. record { same_status = refl; same_tid = refl; same_bitmap = refl };
  })
]

pub drop_sleep-Inner : (p : ℕ) (s : Threads) → Inner s (drop_sleep p s)
unfolding drop_sleep
drop_sleep-Inner p s = record {
  same_heads = ground arith;
  same_next = λ q. ground arith;
  keeps = λ q. record {
    same_status = ground arith;
    same_tid = ground arith;
    same_bitmap = ground arith;
  };
}

module _ (s : Threads) (owner : ℕ → ℕ) (lists : ℕ → List ℕ) (h : IsThreads s owner lists) (a p : ℕ)
    (lt : a < thread_status_size) (some_node : p ≢ 0) (out : Detached p lists) where
  pub link_elsewhere : (q : ℕ) → q ≢ p → (link a p s).node q ≡ s.node q
  unfolding link
  link_elsewhere q ne = ground arith

  link_next : ((link a p s).node p).next ≡ s.thread_head a
  unfolding link
  link_next = ground arith

  pub link_bitmap : (link a p s).tid_bitmap ≡ s.tid_bitmap
  unfolding link
  link_bitmap = refl

  link_heads : (link a p s).thread_head ≡ store s.thread_head a p
  unfolding link
  link_heads = refl

  link-Chain_old :
      (b : ℕ)
      → b < thread_status_size
      → (q : ℕ) → Chain s.node q (lists b)
      → Chain (link a p s).node q (lists b)
  link-Chain_old b below q = Chain-frame s.node (link a p s).node q (lists b) (
      All-mono (λ r. r ≢ p) (λ r. ((link a p s).node r).next ≡ (s.node r).next) (lists b)
        (λ r ne. ap (λ (t : Thread). t.next) (link_elsewhere r ne)) (out b below))

  link-Member_old : (b q : ℕ) → q ≢ p → Member s owner b q → Member (link a p s) owner b q
  link-Member_old b q ne =
      let same = link_elsewhere q ne in
      Member-frame s (link a p s) owner b q (record {
        same_status = ap (λ (t : Thread). t.status) same;
        same_tid = ap (λ (t : Thread). t.tid) same;
        same_bitmap = link_bitmap;
      })

  link-Member : Member s owner (s.node p).status p → Member (link a p s) owner a p
  unfolding link
  link-Member m = record {
    status = ground arith;
    own = subst (λ t. owner t ≡ p) (sym same_tid) m.own;
    small = subst (λ t. t < kernel_thread_max) (sym same_tid) m.small;
    given = subst (λ t. tid_used s.tid_bitmap t ≡ 1) (sym same_tid) m.given;
  }
    where
      same_tid :
          (write s.node p (record (s.node p) { status = a; next = s.thread_head a }) p).tid
          ≡ (s.node p).tid
      same_tid = ground arith

  link-Chain :
      (b : ℕ)
      → b < thread_status_size
      → Chain (link a p s).node (store s.thread_head a p b) (with_list lists a (p ∷ lists a) b)
  link-Chain =
      with_list-all
        (λ b xs. b < thread_status_size → Chain (link a p s).node (store s.thread_head a p b) xs)
        lists a (p ∷ lists a)
        (λ _. (
          store_self s.thread_head a p,
          some_node,
          rw link_next (link-Chain_old a lt (s.thread_head a) (h.chain a lt)),
        ))
        (λ b ne below.
          rw (store_ne s.thread_head a p b ne)
            (link-Chain_old b below (s.thread_head b) (h.chain b below)))

  link-members_old : (b : ℕ) → b < thread_status_size → All (Member (link a p s) owner b) (lists b)
  link-members_old b below =
      All-mono (λ q. (q ≢ p) × Member s owner b q) (Member (link a p s) owner b) (lists b)
        (λ q (ne, m). link-Member_old b q ne m)
        (All-zip (λ q. q ≢ p) (Member s owner b) (lists b) (out b below) (h.members b below))

  -- A thread on no list is put at the head of the list of its new status.
  pub link-IsThreads :
      Member s owner (s.node p).status p
      → IsThreads (link a p s) owner (with_list lists a (p ∷ lists a))
  link-IsThreads m = record {
    chain = λ b below. rw link_heads (link-Chain b below);
    distinct =
        with_list-all (λ b xs. b < thread_status_size → Distinct xs) lists a (p ∷ lists a)
          (λ _. (out a lt, h.distinct a lt)) (λ b ne below. h.distinct b below);
    members =
        with_list-all (λ b xs. b < thread_status_size → All (Member (link a p s) owner b) xs) lists
          a (p ∷ lists a) (λ _. (link-Member m, link-members_old a lt))
          (λ b ne below. link-members_old b below);
  }
