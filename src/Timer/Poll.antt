-- ===== src/Timer/Poll.antt =====
-- One pass of `sleeper_polling` of kernel/timer.c.
use test_os.Base.{
  ℕ, zero, suc, ◌-◌, ◌<◌, ◌≡◌, inl, inr, refl, sym, ◌∙◌, ap, ap₂, subst, arith, Bool, true, false,
  leb, ltb, List, [], ◌∷◌, ◌++◌, length, length-append, append_assoc, ◌==◌, if◌then◌else◌,
  Bool-cases, fun_ext, Option, some, ◌>>=◌,
}
use test_os.Thread.{Threads, word, thread_ready, thread_running, thread_suspended}
use test_os.Thread.State.{IsThreads, with_list}
use test_os.Thread.Unlink.{Chain-here}
use test_os.Thread.Move.{some_member, moved}
use test_os.Thread.Switch.{first, Chain-first, Chain-next}
use test_os.Thread.Scheduled.{IsScheduled}
use test_os.Timer.{wake_due, poll_loop, poll_sleepers}
use test_os.Timer.Due.{
  late, onto, polled, counted, soonest, Polled, woken, woken-After, wake_due-woken, woken_inside,
  woken_current,
}
use native.Mathlib.Decide.{ℕ_discrete}

poll_loop_step :
    (rounds fuel now p min_wake : ℕ) (s : Threads) (b c : Bool)
    → (p == 0) ≡ b
    → leb (s.node p).wake_millisecond now ≡ c
    → poll_loop (suc rounds) fuel now p min_wake s ≡ (elim b [
      | true ↦ some (min_wake, s)
      | false ↦ elim c [
        | true ↦ wake_due fuel p s >>= (λ s'. poll_loop rounds fuel now (s.node p).next min_wake s')
        | false ↦
            poll_loop rounds fuel now
              (s.node p).next
              (if ltb (s.node p).wake_millisecond min_wake
                then (s.node p).wake_millisecond
                else min_wake)
              s
      ]
    ])
unfolding poll_loop
poll_loop_step rounds fuel now p min_wake s b c = ap₂ (λ (b c : Bool).
    elim b as (λ _. Option (ℕ × Threads)) [
      | true ↦ some (min_wake, s)
      | false ↦ elim c as (λ _. Option (ℕ × Threads)) [
        | true ↦ wake_due fuel p s >>= (λ s'. poll_loop rounds fuel now (s.node p).next min_wake s')
        | false ↦
            poll_loop rounds fuel now (s.node p).next
              (if ltb (s.node p).wake_millisecond min_wake
                then (s.node p).wake_millisecond
                else min_wake)
              s
      ]
    ])

-- The lists, when the first thread is due.
polled_due :
    (wake : ℕ → ℕ) (now : ℕ) (lists : ℕ → List ℕ) (ws : List ℕ) (y : ℕ) (ys : List ℕ)
    → leb (wake y) now ≡ true
    → polled wake now (moved lists thread_suspended thread_running ws y ys) ws ys
      ≡ polled wake now lists ws (y ∷ ys)
polled_due wake now lists ws y ys due = fun_ext (λ b. rw due (elim (Bool-cases (b == 0)) [
  | inl e ↦ rw e refl
  | inr ne ↦ elim (Bool-cases (b == 2)) [ inl f ↦ rw (ne, f) refl | inr g ↦ rw (ne, g) refl ]
]))

polled_late :
    (wake : ℕ → ℕ) (now : ℕ) (lists : ℕ → List ℕ) (ws : List ℕ) (y : ℕ) (ys : List ℕ)
    → leb (wake y) now ≡ false
    → polled wake now lists (ws ++ (y ∷ [])) ys ≡ polled wake now lists ws (y ∷ ys)
polled_late wake now lists ws y ys not_yet = rw not_yet (
    ap
      (λ xs.
        with_list (with_list lists thread_suspended xs) thread_running
          (onto wake now ys (lists thread_running)))
      (append_assoc ws (y ∷ []) (late wake now ys)))

Polled-due :
    (wake : ℕ → ℕ) (now : ℕ) (s : Threads) (owner : ℕ → ℕ) (lists : ℕ → List ℕ)
    (h : IsThreads s owner lists) (sched : IsScheduled s lists) (ws : List ℕ) (y : ℕ) (ys : List ℕ)
    (parts : lists thread_suspended ≡ ws ++ (y ∷ ys)) (s' : Threads)
    → leb (wake y) now ≡ true
    → Polled wake now
        (woken s owner lists h sched ws y ys parts)
        owner
        (moved lists thread_suspended thread_running ws y ys)
        ws
        ys
        s'
    → Polled wake now s owner lists ws (y ∷ ys) s'
Polled-due wake now s owner lists h sched ws y ys parts s' due passed =
    let same = polled_due wake now lists ws y ys due in
    record {
      well_formed = subst (IsThreads s' owner) same passed.well_formed;
      scheduled = subst (IsScheduled s') same passed.scheduled;
      refs = λ q.
          passed.refs q
          ∙ rw due
              (ap (counted wake now ys q) (woken_inside s owner lists h sched ws y ys parts q).0);
      same_current = passed.same_current ∙ woken_current s owner lists h sched ws y ys parts;
    }

Polled-late :
    (wake : ℕ → ℕ) (now : ℕ) (s : Threads) (owner : ℕ → ℕ) (lists : ℕ → List ℕ) (ws : List ℕ)
    (y : ℕ) (ys : List ℕ) (s' : Threads)
    → leb (wake y) now ≡ false
    → Polled wake now s owner lists (ws ++ (y ∷ [])) ys s'
    → Polled wake now s owner lists ws (y ∷ ys) s'
Polled-late wake now s owner lists ws y ys s' not_yet passed =
    let same = polled_late wake now lists ws y ys not_yet in
    record {
      well_formed = subst (IsThreads s' owner) same passed.well_formed;
      scheduled = subst (IsScheduled s') same passed.scheduled;
      refs = λ q. passed.refs q ∙ rw not_yet refl;
      same_current = passed.same_current;
    }

polled_none :
    (wake : ℕ → ℕ) (now : ℕ) (lists : ℕ → List ℕ) (ws : List ℕ)
    → lists thread_suspended ≡ ws ++ []
    → lists ≡ polled wake now lists ws []
polled_none wake now lists ws parts = fun_ext (λ b. elim (ℕ_discrete b 0) [
  | yes e ↦ let here : (b == 0) ≡ true = ground arith in rw here (ap lists e)
  | no ne ↦
      let other : (b == 0) ≡ false = ground arith in
      elim (ℕ_discrete b 2) [
        | yes f ↦ let here : (b == 2) ≡ true = ground arith in rw (other, here) (ap lists f ∙ parts)
        | no nf ↦ let elsewhere : (b == 2) ≡ false = ground arith in rw (other, elsewhere) refl
      ]
])

poll_loop-Polled :
    (ys ws : List ℕ) (wake : ℕ → ℕ) (owner : ℕ → ℕ) (lists : ℕ → List ℕ)
    (rounds fuel now p min_wake : ℕ) (s : Threads)
    → IsThreads s owner lists
    → IsScheduled s lists
    → lists thread_suspended ≡ ws ++ ys
    → ((q : ℕ) → (s.node q).wake_millisecond ≡ wake q)
    → p ≡ first ys
    → length ys < rounds
    → length (lists thread_ready) < fuel
    → length (lists thread_suspended) < fuel
    → (s' : Threads) × (poll_loop rounds fuel now p min_wake s
        ≡ some (soonest wake now ys min_wake, s'))
      × Polled wake now s owner lists ws ys s'
poll_loop-Polled ys ws wake owner lists zero fuel now p min_wake s h sched parts agree at few r t =
    absurd (omega arith)
poll_loop-Polled [] ws wake owner lists (suc rounds) fuel now p min_wake s h sched parts agree at
      few r t =
    let same = polled_none wake now lists ws parts in
    (
      s,
      poll_loop_step rounds fuel now p min_wake s true (leb (s.node p).wake_millisecond now)
          (ground arith) refl,
      record {
        well_formed = subst (IsThreads s owner) same h;
        scheduled = subst (IsScheduled s) same sched;
        refs = λ q. refl;
        same_current = refl;
      },
    )
poll_loop-Polled (y ∷ ys) ws wake owner lists (suc rounds) fuel now p min_wake s h sched parts agree
      at few r t =
    let chain = Chain-here s owner lists h thread_suspended (omega arith) ws y ys parts in
    let some_node = some_member s.node (s.thread_head thread_suspended) ws y ys chain in
    let next : (s.node p).next ≡ first ys =
      ap (λ q. (s.node q).next) at
      ∙ Chain-next s.node (s.thread_head thread_suspended) ws y ys chain in
    let test : (p == 0) ≡ false = ground (arith, some_node, at) in
    let its_time : (s.node p).wake_millisecond ≡ wake y =
      ap (λ q. (s.node q).wake_millisecond) at ∙ agree y in
    elim (Bool-cases (leb (wake y) now))
      as (λ _.
        (s' : Threads) × (poll_loop (suc rounds) fuel now p min_wake s
          ≡ some (soonest wake now (y ∷ ys) min_wake, s'))
        × Polled wake now s owner lists ws (y ∷ ys) s') [
          | inl due ↦
              let branch : leb (s.node p).wake_millisecond now ≡ true =
                ap (λ t. leb t now) its_time ∙ due in
              let u = woken s owner lists h sched ws y ys parts in
              let after = woken-After s owner lists h sched ws y ys parts in
              let (s', ran, passed) =
                poll_loop-Polled ys ws wake owner
                  (moved lists thread_suspended thread_running ws y ys) rounds fuel now
                  (s.node p).next min_wake u after.well_formed after.scheduled refl
                  (λ q. (woken_inside s owner lists h sched ws y ys parts q).1 ∙ agree q) next
                  (omega arith) r
                  (omega
                    (arith, ap length parts, length-append ws (y ∷ ys), length-append ws ys)) in
              (
                s',
                poll_loop_step rounds fuel now p min_wake s false true test branch
                    ∙ ap
                        (λ w. w >>= (λ s''. poll_loop rounds fuel now (s.node p).next min_wake s''))
                        (ap (λ q. wake_due fuel q s) at
                          ∙ wake_due-woken s owner lists h sched ws y ys parts fuel r t)
                    ∙ ran
                    ∙ rw due refl,
                Polled-due wake now s owner lists h sched ws y ys parts s' due passed,
              )
          | inr not_yet ↦
              let branch : leb (s.node p).wake_millisecond now ≡ false =
                ap (λ t. leb t now) its_time ∙ not_yet in
              let least = if ltb (wake y) min_wake then wake y else min_wake in
              let (s', ran, passed) =
                poll_loop-Polled ys (ws ++ (y ∷ [])) wake owner lists rounds fuel now
                  (s.node p).next least s h sched (parts ∙ sym (append_assoc ws (y ∷ []) ys)) agree
                  next (omega arith) r t in
              (
                s',
                poll_loop_step rounds fuel now p min_wake s false false test branch
                    ∙ ap
                        (λ w.
                          poll_loop rounds fuel now (s.node p).next
                            (if ltb w min_wake then w else min_wake) s)
                        its_time
                    ∙ ran
                    ∙ rw not_yet refl,
                Polled-late wake now s owner lists ws y ys s' not_yet passed,
              )
        ]

-- With fuel above the numbers of the ready and of the suspended threads, a pass of `sleeper_polling` at
-- the time `now` returns: every suspended thread whose time has come, also one that is not asleep, goes
-- to the head of the running list, one after the other, and its count goes down by one in a word,
-- below zero too; the others stay suspended in their order with their counts, and the least of their
-- times is what the pass returns, at most 2 ^ 32 - 1. The lists and ids are well-formed, and the
-- current thread runs on.
pub poll_sleepers-Polled :
    (s : Threads) (owner : ℕ → ℕ) (lists : ℕ → List ℕ) (fuel now : ℕ)
    → IsThreads s owner lists
    → IsScheduled s lists
    → length (lists thread_ready) < fuel
    → length (lists thread_suspended) < fuel
    → (s' : Threads) × (poll_sleepers fuel now s
        ≡ some (
          soonest (λ q. (s.node q).wake_millisecond) now (lists thread_suspended) (word - 1),
          s',
        ))
      × Polled (λ q. (s.node q).wake_millisecond) now s owner lists [] (lists thread_suspended) s'
unfolding poll_sleepers
poll_sleepers-Polled s owner lists fuel now h sched few few' =
    poll_loop-Polled (lists thread_suspended) [] (λ q. (s.node q).wake_millisecond) owner lists fuel
      fuel now (s.thread_head thread_suspended) (word - 1) s h sched refl (λ q. refl)
      (Chain-first s.node (s.thread_head thread_suspended) (lists thread_suspended)
        (h.chain thread_suspended (omega arith)))
      few' few few'
