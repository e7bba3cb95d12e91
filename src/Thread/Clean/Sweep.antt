-- ===== src/Thread/Clean/Sweep.antt =====
-- One sweep of the cleaner of kernel/thread.c.
use test_os.Base.{
  ap₂, ℕ, zero, suc, ◌<◌, ◌≡◌, inl, inr, refl, sym, ◌∙◌, ap, subst, arith, Bool, true, false, List,
  [], ◌∷◌, ◌++◌, length, append_assoc, ◌==◌, Bool-cases, fun_ext, Option, some,
}
use test_os.Thread.{Threads, thread_died, thread_running}
use test_os.Thread.Chain.{Nodes, last}
use test_os.Thread.State.{IsThreads, with_list}
use test_os.Thread.Unlink.{Chain-here}
use test_os.Thread.Move.{some_member}
use test_os.Thread.Switch.{first, Chain-first, Chain-next}
use test_os.Thread.Scheduled.{Has, IsScheduled}
use test_os.Thread.Clean.{clean_node, clean_loop, thread_clean}
use native.Mathlib.Decide.{ℕ_discrete}
use test_os.Thread.Clean.Node.{
  kept, freed_by, SweptFrom, last-append, clean_node-IsThreads, clean_node_ids, clean_node_same,
  clean_node_node,
}

-- The counts and ids are those of `nodes`.
abbrev Agrees : Nodes → Threads → Type 0
Agrees nodes s = (q : ℕ) → ((s.node q).ref ≡ (nodes q).ref) × ((s.node q).tid ≡ (nodes q).tid)

-- One round of the loop.
clean_loop_step :
    (fuel prev p : ℕ) (s : Threads) (b c : Bool)
    → (p == 0) ≡ b
    → ((s.node p).ref == 0) ≡ c
    → clean_loop (suc fuel) prev p s ≡ (elim b [
      | true ↦ some s
      | false ↦ elim c [
        | true ↦ clean_loop fuel prev (s.node p).next (clean_node prev p s)
        | false ↦ clean_loop fuel p (s.node p).next s
      ]
    ])
unfolding clean_loop
clean_loop_step fuel prev p s b c = ap₂ (λ (b c : Bool). elim b as (λ _. Option Threads) [
  | true ↦ some s
  | false ↦ elim c as (λ _. Option Threads) [
    | true ↦ clean_loop fuel prev (s.node p).next (clean_node prev p s)
    | false ↦ clean_loop fuel p (s.node p).next s
  ]
])

Swept-gone :
    (nodes : Nodes) (s : Threads) (owner : ℕ → ℕ) (lists : ℕ → List ℕ) (ws : List ℕ) (y : ℕ)
    (ys : List ℕ) (h : IsThreads s owner (with_list lists thread_died (ws ++ (y ∷ ys))))
    (s' : Threads)
    → ((nodes y).ref == 0) ≡ true
    → (s.node y).tid ≡ (nodes y).tid
    → SweptFrom nodes (clean_node (last 0 ws) y s) owner lists ws ys s'
    → SweptFrom nodes s owner lists ws (y ∷ ys) s'
Swept-gone nodes s owner lists ws y ys h s' unused tid swept =
    let (freed, current, fix) = clean_node_same s owner lists ws y ys h in
    record {
      well_formed = rw unused swept.well_formed;
      freed = swept.freed ∙ rw unused (ap (freed_by nodes ys) freed);
      ids = λ i.
          swept.ids i ∙ rw unused (ground (arith, clean_node_ids s owner lists ws y ys h i, tid));
      same_current = swept.same_current ∙ current;
      same_fix = swept.same_fix ∙ fix;
      same_tids = λ q. swept.same_tids q ∙ (clean_node_node s owner lists ws y ys h q).1;
    }

Swept-stays :
    (nodes : Nodes) (s : Threads) (owner : ℕ → ℕ) (lists : ℕ → List ℕ) (ws : List ℕ) (y : ℕ)
    (ys : List ℕ) (s' : Threads)
    → ((nodes y).ref == 0) ≡ false
    → SweptFrom nodes s owner lists (ws ++ (y ∷ [])) ys s'
    → SweptFrom nodes s owner lists ws (y ∷ ys) s'
Swept-stays nodes s owner lists ws y ys s' waited swept = record {
  well_formed = rw waited (
      subst (λ xs. IsThreads s' owner (with_list lists thread_died xs))
        (append_assoc ws (y ∷ []) (kept nodes ys)) swept.well_formed);
  freed = swept.freed ∙ rw waited refl;
  ids = λ i. swept.ids i ∙ rw waited refl;
  same_current = swept.same_current;
  same_fix = swept.same_fix;
  same_tids = swept.same_tids;
}

pub clean_loop-SweptFrom :
    (ys ws : List ℕ) (nodes : Nodes) (owner : ℕ → ℕ) (lists : ℕ → List ℕ) (fuel p : ℕ) (s : Threads)
    → IsThreads s owner (with_list lists thread_died (ws ++ ys))
    → Agrees nodes s
    → p ≡ first ys
    → length ys < fuel
    → (s' : Threads) × (clean_loop fuel (last 0 ws) p s ≡ some s')
      × SweptFrom nodes s owner lists ws ys s'
clean_loop-SweptFrom ys ws nodes owner lists zero p s h agree at few = absurd (omega arith)
clean_loop-SweptFrom [] ws nodes owner lists (suc fuel) p s h agree at few = (
  s,
  clean_loop_step fuel (last 0 ws) p s true ((s.node p).ref == 0) (ground arith) refl,
  record {
    well_formed = h;
    freed = refl;
    ids = λ i. refl;
    same_current = refl;
    same_fix = refl;
    same_tids = λ q. refl;
  },
)
clean_loop-SweptFrom (y ∷ ys) ws nodes owner lists (suc fuel) p s h agree at few =
    let all = with_list lists thread_died (ws ++ (y ∷ ys)) in
    let chain = Chain-here s owner all h thread_died (omega arith) ws y ys refl in
    let some_node = some_member s.node (s.thread_head thread_died) ws y ys chain in
    let next : (s.node p).next ≡ first ys =
      ap (λ q. (s.node q).next) at ∙ Chain-next s.node (s.thread_head thread_died) ws y ys chain in
    let test : (p == 0) ≡ false = ground (arith, some_node, at) in
    elim (Bool-cases ((nodes y).ref == 0))
      as (λ _.
        (s' : Threads) × (clean_loop (suc fuel) (last 0 ws) p s ≡ some s')
        × SweptFrom nodes s owner lists ws (y ∷ ys) s') [
          | inl unused ↦
              let branch : ((s.node p).ref == 0) ≡ true =
                ap (λ q. (s.node q).ref == 0) at ∙ ap (λ r. r == 0) (agree y).0 ∙ unused in
              let s1 = clean_node (last 0 ws) y s in
              let (s', ran, swept) =
                clean_loop-SweptFrom ys ws nodes owner lists fuel (s.node p).next s1
                  (clean_node-IsThreads s owner lists ws y ys h)
                  (λ q.
                    let (ref, tid) = clean_node_node s owner lists ws y ys h q in
                    (ref ∙ (agree q).0, tid ∙ (agree q).1))
                  next (omega arith) in
              (
                s',
                clean_loop_step fuel (last 0 ws) p s false true test branch
                    ∙ ap
                        (λ q.
                          clean_loop fuel (last 0 ws) (s.node p).next (clean_node (last 0 ws) q s))
                        at
                    ∙ ran,
                Swept-gone nodes s owner lists ws y ys h s' unused (agree y).1 swept,
              )
          | inr waited ↦
              let branch : ((s.node p).ref == 0) ≡ false =
                ap (λ q. (s.node q).ref == 0) at ∙ ap (λ r. r == 0) (agree y).0 ∙ waited in
              let (s', ran, swept) =
                clean_loop-SweptFrom ys (ws ++ (y ∷ [])) nodes owner lists fuel (s.node p).next s
                  (subst (λ xs. IsThreads s owner (with_list lists thread_died xs))
                    (sym (append_assoc ws (y ∷ []) ys)) h)
                  agree next (omega arith) in
              (
                s',
                clean_loop_step fuel (last 0 ws) p s false false test branch
                    ∙ ap (λ q. clean_loop fuel q (s.node p).next s) (at ∙ sym (last-append ws y))
                    ∙ ran,
                Swept-stays nodes s owner lists ws y ys s' waited swept,
              )
        ]

with_list-same : (lists : ℕ → List ℕ) (a : ℕ) → lists ≡ with_list lists a (lists a)
with_list-same lists a =
    fun_ext
      (λ b. elim (ℕ_discrete b a) [ yes e ↦ ground (arith, ap lists e) | no ne ↦ ground arith ])

-- With fuel above the number of died threads, a sweep of the cleaner returns: the threads that somebody
-- waits for stay on the list of died threads, in their order, the memory of each of the others is given
-- back once, its id is free again and no other id is; lists and ids are well-formed, and the current
-- thread and the next one are as before.
pub thread_clean-SweptFrom :
    (s : Threads) (owner : ℕ → ℕ) (lists : ℕ → List ℕ) (fuel : ℕ)
    → IsThreads s owner lists
    → IsScheduled s lists
    → length (lists thread_died) < fuel
    → (s' : Threads) × (thread_clean fuel s ≡ some s')
      × SweptFrom s.node s owner lists [] (lists thread_died) s'
      × IsScheduled s' (with_list lists thread_died (kept s.node (lists thread_died)))
unfolding thread_clean
thread_clean-SweptFrom s owner lists fuel h sched few =
    let (s', ran, swept) =
      clean_loop-SweptFrom (lists thread_died) [] s.node owner lists fuel
        (s.thread_head thread_died) s
        (subst (IsThreads s owner) (with_list-same lists thread_died) h) (λ q. (refl, refl))
        (Chain-first s.node (s.thread_head thread_died) (lists thread_died)
          (h.chain thread_died (omega arith)))
        few in
    let (c, has, cleaner) = sched.cleaner in
    (
      s',
      ran,
      swept,
      record {
        here = subst (λ q. Has q (lists thread_running)) (sym swept.same_current) sched.here;
        none_fixed = swept.same_fix ∙ sched.none_fixed;
        cleaner = (c, has, swept.same_tids c ∙ cleaner);
      },
    )
