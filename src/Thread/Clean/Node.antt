-- ===== src/Thread/Clean/Node.antt =====
-- One step of the cleaner of kernel/thread.c: a died thread leaves its list.
use test_os.Base.{
  ap₂, ℕ, ◌≡◌, inl, inr, refl, ◌∙◌, ap, subst, arith, Bool, false, ◌&&◌, ◌||◌, List, [], ◌∷◌, ◌++◌,
  ◌==◌, if◌then◌else◌, Bool-cases, fun_ext,
}
use test_os.Thread.{Threads, thread_died, unlink}
use test_os.Thread.Chain.{Nodes, last}
use test_os.Thread.State.{Detached, tid_used, IsThreads, with_list}
use test_os.Thread.Unlink.{unlink-IsThreads, unlink-Detached, at_p, unlink-Keeps}
use test_os.Thread.Clean.{clean_node}
use test_os.Thread.Clean.Ids.{tid_used-take_id, taken_back-IsThreads}

-- The died threads that somebody waits for.
abbrev pub kept : Nodes → List ℕ → List ℕ
kept nodes [] = []
kept nodes (x ∷ xs) = if (nodes x).ref == 0 then kept nodes xs else x ∷ kept nodes xs

-- The memory of the others, given back one after the other.
abbrev pub freed_by : Nodes → List ℕ → List ℕ → List ℕ
freed_by nodes [] freed = freed
freed_by nodes (x ∷ xs) freed = freed_by nodes xs (if (nodes x).ref == 0 then x ∷ freed else freed)

-- `tid` is the id of one of the others.
abbrev pub given_back : Nodes → List ℕ → ℕ → Bool
given_back nodes [] tid = false
given_back nodes (x ∷ xs) tid =
    ((nodes x).ref == 0 && tid == (nodes x).tid) || given_back nodes xs tid

-- `s'` is the state behind a sweep over `xs`, which stands behind `ws` in the list of died threads.
pub record SweptFrom (nodes : Nodes) (s : Threads) (owner : ℕ → ℕ) (lists : ℕ → List ℕ)
    (ws xs : List ℕ) (s' : Threads) : Type 0 where
  pub well_formed : IsThreads s' owner (with_list lists thread_died (ws ++ kept nodes xs))
  pub freed : s'.freed ≡ freed_by nodes xs s.freed
  pub ids :
      (i : ℕ)
      → tid_used s'.tid_bitmap i ≡ (if given_back nodes xs i then 0 else tid_used s.tid_bitmap i)
  pub same_current : s'.current_thread ≡ s.current_thread
  pub same_fix : s'.fix_next_thread ≡ s.fix_next_thread
  pub same_tids : (q : ℕ) → (s'.node q).tid ≡ (s.node q).tid

-- What an unlinking does not touch.
pub unlink_same :
    (a prev p : ℕ) (s : Threads)
    → ((unlink a prev p s).freed ≡ s.freed)
      × ((unlink a prev p s).tid_bitmap ≡ s.tid_bitmap)
      × ((unlink a prev p s).current_thread ≡ s.current_thread)
      × ((unlink a prev p s).fix_next_thread ≡ s.fix_next_thread)
unfolding unlink
unlink_same a prev p s = (ground arith, ground arith, ground arith, ground arith)

pub unlink_ref : (a prev p q : ℕ) (s : Threads) → ((unlink a prev p s).node q).ref ≡ (s.node q).ref
unfolding unlink
unlink_ref a prev p q s = ground arith

pub with_list-again :
    (lists : ℕ → List ℕ) (a : ℕ) (xs ys : List ℕ)
    → with_list (with_list lists a xs) a ys ≡ with_list lists a ys
with_list-again lists a xs ys =
    fun_ext (λ b. elim (Bool-cases (b == a)) [ inl e ↦ rw e refl | inr ne ↦ rw ne refl ])

pub last-append : (ws : List ℕ) (y : ℕ) → last 0 (ws ++ (y ∷ [])) ≡ y
last-append ws y = last_from 0 ws y
  where
    last_from : (v : ℕ) (vs : List ℕ) (z : ℕ) → last v (vs ++ (z ∷ [])) ≡ z
    last_from v [] z = refl
    last_from v (w ∷ vs) z = last_from w vs z

-- One died thread goes.
module _ (s : Threads) (owner : ℕ → ℕ) (lists : ℕ → List ℕ) (ws : List ℕ) (y : ℕ) (ys : List ℕ)
    (h : IsThreads s owner (with_list lists thread_died (ws ++ (y ∷ ys)))) where
  abbrev left : Threads
  left = unlink thread_died (last 0 ws) y s

  pub clean_node-IsThreads :
      IsThreads (clean_node (last 0 ws) y s) owner (with_list lists thread_died (ws ++ ys))
  unfolding clean_node
  clean_node-IsThreads =
      let all = with_list lists thread_died (ws ++ (y ∷ ys)) in
      let again = with_list-again lists thread_died (ws ++ (y ∷ ys)) (ws ++ ys) in
      let member = at_p s owner all h thread_died (omega arith) ws y ys refl in
      taken_back-IsThreads left owner (with_list lists thread_died (ws ++ ys))
        (subst (IsThreads left owner) again
          (unlink-IsThreads s owner all h thread_died (omega arith) ws y ys refl))
        y (ap owner (unlink-Keeps s thread_died (last 0 ws) y y).same_tid ∙ member.own)
        (subst (Detached y) again
          (unlink-Detached s owner all h thread_died (omega arith) ws y ys refl))
        (y ∷ left.freed)

  pub clean_node_ids :
      (i : ℕ)
      → tid_used (clean_node (last 0 ws) y s).tid_bitmap i
        ≡ (if i == (s.node y).tid then 0 else tid_used s.tid_bitmap i)
  unfolding clean_node
  clean_node_ids i =
      tid_used-take_id left.tid_bitmap (left.node y).tid i
      ∙ ap₂ (λ (t : ℕ) (b : ℕ → ℕ). if i == t then 0 else tid_used b i)
          (unlink-Keeps s thread_died (last 0 ws) y y).same_tid
          (unlink_same thread_died (last 0 ws) y s).1

  pub clean_node_same :
      ((clean_node (last 0 ws) y s).freed ≡ y ∷ s.freed)
      × ((clean_node (last 0 ws) y s).current_thread ≡ s.current_thread)
      × ((clean_node (last 0 ws) y s).fix_next_thread ≡ s.fix_next_thread)
  unfolding clean_node
  clean_node_same =
      let (freed, bits, current, fix) = unlink_same thread_died (last 0 ws) y s in
      (ap (λ t. y ∷ t) freed, current, fix)

  pub clean_node_node :
      (q : ℕ)
      → (((clean_node (last 0 ws) y s).node q).ref ≡ (s.node q).ref)
        × (((clean_node (last 0 ws) y s).node q).tid ≡ (s.node q).tid)
  unfolding clean_node
  clean_node_node q = (
    unlink_ref thread_died (last 0 ws) y q s,
    (unlink-Keeps s thread_died (last 0 ws) y q).same_tid,
  )
