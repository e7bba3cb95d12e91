-- ===== src/Thread/Move.antt =====
-- A thread goes from one list of kernel/thread.c to another, and steps that leave the lists alone.
use test_os.Base.{
  ℕ, ◌<◌, ◌≡◌, ◌≢◌, refl, ◌∙◌, ap, subst, arith, false, List, [], ◌∷◌, ◌++◌, ◌==◌, if◌then◌else◌,
}
use test_os.Base.Bits.{bit_and-mask}
use test_os.Thread.{Threads, thread_status_size, unlink, link, pe_lock, pe_unlock, thread_schedule}
use test_os.Thread.Chain.{Nodes, Chain, last}
use test_os.Thread.State.{IsThreads, with_list, Member-frame}
use test_os.Thread.Unlink.{unlink-IsThreads, unlink-Detached, unlink-Keeps, at_p, Chain-here}
use test_os.Thread.Link.{Inner, Inner-IsThreads, link-IsThreads}

-- The lists with `p` gone from between `ws` and `ys` in the list `a`, to the head of the list `b`.
abbrev pub moved : (ℕ → List ℕ) → (a b : ℕ) → List ℕ → ℕ → List ℕ → ℕ → List ℕ
moved lists a b ws p ys = with_list (with_list lists a (ws ++ ys)) b (p ∷ lists b)

pub some_member :
    (nodes : Nodes) (q : ℕ) (ws : List ℕ) (p : ℕ) (ys : List ℕ)
    → Chain nodes q (ws ++ (p ∷ ys))
    → p ≢ 0
some_member nodes q [] p ys (at, ne, chain) = ne
some_member nodes q (w ∷ ws) p ys (at, ne, chain) = some_member nodes (nodes w).next ws p ys chain

module _ (s : Threads) (owner : ℕ → ℕ) (lists : ℕ → List ℕ) (h : IsThreads s owner lists) (a b : ℕ)
    (lt : a < thread_status_size) (lt' : b < thread_status_size) (other : b ≢ a) (ws : List ℕ)
    (p : ℕ) (ys : List ℕ) (parts : lists a ≡ ws ++ (p ∷ ys)) where
  -- A thread is taken out of one list, changed inside, and put at the head of another list.
  pub move-IsThreads :
      (s1 : Threads)
      → Inner (unlink a (last 0 ws) p s) s1
      → IsThreads (link b p s1) owner (moved lists a b ws p ys)
  move-IsThreads s1 inner =
      let taken =
        Inner-IsThreads (unlink a (last 0 ws) p s) s1 owner (with_list lists a (ws ++ ys)) inner
          (unlink-IsThreads s owner lists h a lt ws p ys parts) in
      let m = Member-frame (unlink a (last 0 ws) p s) s1 owner a p (inner.keeps p) (
        Member-frame s (unlink a (last 0 ws) p s) owner a p (unlink-Keeps s a (last 0 ws) p p)
          (at_p s owner lists h a lt ws p ys parts)) in
      let elsewhere : with_list lists a (ws ++ ys) b ≡ lists b =
        ap (λ t. if t then ws ++ ys else lists b) {x = b == a} {y = false} (ground arith) in
      subst
        (λ xs. IsThreads (link b p s1) owner (with_list (with_list lists a (ws ++ ys)) b (p ∷ xs)))
        elsewhere
        (link-IsThreads s1 owner (with_list lists a (ws ++ ys)) taken b p lt'
          (some_member s.node (s.thread_head a) ws p ys
            (Chain-here s owner lists h a lt ws p ys parts))
          (unlink-Detached s owner lists h a lt ws p ys parts)
          (record { status = refl; own = m.own; small = m.small; given = m.given }))

-- Steps that change neither lists nor threads.
abbrev pub SameLists : Threads → Threads → Type 0
SameLists s s' =
    (s'.thread_head ≡ s.thread_head) × (s'.node ≡ s.node) × (s'.tid_bitmap ≡ s.tid_bitmap)

pub SameLists-Inner : (s s' : Threads) → SameLists s s' → Inner s s'
SameLists-Inner s s' (heads, nodes, bits) = record {
  same_heads = heads;
  same_next = λ q. ap (λ (f : Nodes). (f q).next) nodes;
  keeps = λ q. record {
    same_status = ap (λ (f : Nodes). (f q).status) nodes;
    same_tid = ap (λ (f : Nodes). (f q).tid) nodes;
    same_bitmap = bits;
  };
}

pub Inner-refl : (s : Threads) → Inner s s
Inner-refl s = SameLists-Inner s s (refl, refl, refl)

pub Inner-trans : (s t u : Threads) → Inner s t → Inner t u → Inner s u
Inner-trans s t u i j = record {
  same_heads = j.same_heads ∙ i.same_heads;
  same_next = λ q. j.same_next q ∙ i.same_next q;
  keeps = λ q. record {
    same_status = (j.keeps q).same_status ∙ (i.keeps q).same_status;
    same_tid = (j.keeps q).same_tid ∙ (i.keeps q).same_tid;
    same_bitmap = (j.keeps q).same_bitmap ∙ (i.keeps q).same_bitmap;
  };
}

pub pe_lock-SameLists : (s : Threads) → SameLists s (pe_lock s)
pe_lock-SameLists s = (refl, refl, refl)

pub pe_unlock-SameLists : (s : Threads) → SameLists s (pe_unlock s)
pe_unlock-SameLists s = (refl, refl, refl)

pub thread_schedule-SameLists : (s : Threads) → SameLists s (thread_schedule s)
unfolding thread_schedule
thread_schedule-SameLists s = (ground arith, ground arith, ground arith)

pub pe_unlock-lock : (s : Threads) → (pe_unlock s).thread_lock ≡ 0
pe_unlock-lock s = omega (arith, bit_and-mask 0 s.thread_lock)
