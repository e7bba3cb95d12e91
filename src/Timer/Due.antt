-- ===== src/Timer/Due.antt =====
-- A suspended thread whose time has come, in `sleeper_polling` of kernel/timer.c.
use test_os.Base.{
  ℕ, ◌+◌, ◌-◌, ◌%◌, ◌<◌, ◌≡◌, refl, ◌∙◌, ap, arith, false, ◌&&◌, not, leb, ltb, List, [], ◌∷◌, ◌++◌,
  length, ◌==◌, if◌then◌else◌, some,
}
use test_os.Thread.{
  Threads, word, thread_ready, thread_running, thread_suspended, thread_died, pe_lock, pe_unlock,
  wake_found, thread_wake,
}
use test_os.Thread.Chain.{last}
use test_os.Thread.State.{IsThreads, with_list}
use test_os.Thread.Unlink.{at_p}
use test_os.Thread.Link.{Inner, Inner-IsThreads}
use test_os.Thread.Move.{moved}
use test_os.Thread.Scheduled.{IsScheduled}
use test_os.Thread.After.{After, wake-After, wake_same}
use test_os.Timer.{drop_ref, wake_due}
use test_os.Timer.Wake.{wake_here, earlier_tids}

-- The suspended threads whose time has not come.
abbrev pub late : (wake : ℕ → ℕ) → (now : ℕ) → List ℕ → List ℕ
late wake now [] = []
late wake now (x ∷ xs) = if leb (wake x) now then late wake now xs else x ∷ late wake now xs

-- The others, one after the other at the head of the running threads.
abbrev pub onto : (wake : ℕ → ℕ) → (now : ℕ) → List ℕ → List ℕ → List ℕ
onto wake now [] running = running
onto wake now (x ∷ xs) running =
    onto wake now xs (if leb (wake x) now then x ∷ running else running)

abbrev pub polled : (wake : ℕ → ℕ) → (now : ℕ) → (ℕ → List ℕ) → List ℕ → List ℕ → ℕ → List ℕ
polled wake now lists ws ys =
    with_list (with_list lists thread_suspended (ws ++ late wake now ys)) thread_running
      (onto wake now ys (lists thread_running))

-- The count of the thread `q`, each of the others one down, in a word.
abbrev pub counted : (wake : ℕ → ℕ) → (now : ℕ) → List ℕ → (q : ℕ) → ℕ → ℕ
counted wake now [] q ref = ref
counted wake now (x ∷ xs) q ref =
    counted wake now xs q (if leb (wake x) now && q == x then (ref + (word - 1)) % word else ref)

-- The least time to come.
abbrev pub soonest : (wake : ℕ → ℕ) → (now : ℕ) → List ℕ → ℕ → ℕ
soonest wake now [] least = least
soonest wake now (x ∷ xs) least =
    soonest wake now xs
      (if leb (wake x) now then least else if ltb (wake x) least then wake x else least)

-- `s'` is the state behind a pass over `ys`, which stands behind `ws` in the list of suspended threads.
pub record Polled (wake : ℕ → ℕ) (now : ℕ) (s : Threads) (owner : ℕ → ℕ) (lists : ℕ → List ℕ)
    (ws ys : List ℕ) (s' : Threads) : Type 0 where
  pub well_formed : IsThreads s' owner (polled wake now lists ws ys)
  pub scheduled : IsScheduled s' (polled wake now lists ws ys)
  pub refs : (q : ℕ) → (s'.node q).ref ≡ counted wake now ys q (s.node q).ref
  pub same_current : s'.current_thread ≡ s.current_thread

-- What waking a found thread leaves as it is.
wake_found_inside :
    (a prev p q : ℕ) (s : Threads)
    → (((pe_unlock (wake_found a prev p (pe_lock s))).node q).ref ≡ (s.node q).ref)
      × (((pe_unlock (wake_found a prev p (pe_lock s))).node q).wake_millisecond
          ≡ (s.node q).wake_millisecond)
unfolding wake_found
wake_found_inside a prev p q s = (ground arith, ground arith)

drop_ref-Inner : (p : ℕ) (s : Threads) → Inner s (drop_ref p s)
drop_ref-Inner p s = record {
  same_heads = refl;
  same_next = λ q. ground arith;
  keeps = λ q. record { same_status = ground arith; same_tid = ground arith; same_bitmap = refl };
}

drop_ref_inside :
    (p q : ℕ) (s : Threads)
    → (((drop_ref p s).node q).ref
        ≡ (if q == p then ((s.node q).ref + (word - 1)) % word else (s.node q).ref))
      × (((drop_ref p s).node q).wake_millisecond ≡ (s.node q).wake_millisecond)
drop_ref_inside p q s = (ground (arith, ap (λ t. (s.node t).ref) {x = q} {y = p}), ground arith)

-- One thread is woken.
module _ (s : Threads) (owner : ℕ → ℕ) (lists : ℕ → List ℕ) (h : IsThreads s owner lists)
    (sched : IsScheduled s lists) (ws : List ℕ) (y : ℕ) (ys : List ℕ)
    (parts : lists thread_suspended ≡ ws ++ (y ∷ ys)) where
  dropped-IsThreads : IsThreads (drop_ref y s) owner lists
  dropped-IsThreads = Inner-IsThreads s (drop_ref y s) owner lists (drop_ref-Inner y s) h

  dropped-IsScheduled : IsScheduled (drop_ref y s) lists
  dropped-IsScheduled =
      let (c, has, cleaner) = sched.cleaner in
      record {
        here = sched.here;
        none_fixed = sched.none_fixed;
        cleaner = (c, has, ((drop_ref-Inner y s).keeps c).same_tid ∙ cleaner);
      }

  abbrev pub woken : Threads
  woken = pe_unlock (wake_found thread_suspended (last 0 ws) y (pe_lock (drop_ref y s)))

  pub woken-After :
      After (drop_ref y s) owner (moved lists thread_suspended thread_running ws y ys) woken
  woken-After =
      wake-After (drop_ref y s) owner lists dropped-IsThreads dropped-IsScheduled
        ((drop_ref y s).node y).tid ws y ys thread_suspended (omega arith) (omega arith)
        (record {
          parts = parts;
          earlier = earlier_tids (drop_ref y s) owner lists dropped-IsThreads ws y ys parts;
          named = refl;
        })

  pub wake_due-woken :
      (fuel : ℕ)
      → length (lists thread_ready) < fuel
      → length (lists thread_suspended) < fuel
      → wake_due fuel y s ≡ some woken
  unfolding wake_due
  wake_due-woken fuel few few' =
      let member =
        at_p (drop_ref y s) owner lists dropped-IsThreads thread_suspended (omega arith) ws y ys
          parts in
      let alive : (((drop_ref y s).node y).status == thread_died) ≡ false =
        ap (λ t. t == thread_died) member.status in
      ap
        (λ b.
          if not b
          then thread_wake fuel ((drop_ref y s).node y).tid (drop_ref y s)
          else some (drop_ref y s))
        alive
      ∙ wake_here (drop_ref y s) owner lists dropped-IsThreads ws y ys parts fuel few few'

  pub woken_inside :
      (q : ℕ)
      → ((woken.node q).ref
          ≡ (if q == y then ((s.node q).ref + (word - 1)) % word else (s.node q).ref))
        × ((woken.node q).wake_millisecond ≡ (s.node q).wake_millisecond)
  woken_inside q =
      let (ref, wake) = wake_found_inside thread_suspended (last 0 ws) y q (drop_ref y s) in
      let (ref', wake') = drop_ref_inside y q s in (ref ∙ ref', wake ∙ wake')

  pub woken_current : woken.current_thread ≡ s.current_thread
  woken_current = (wake_same (drop_ref y s) thread_suspended (last 0 ws) y 0).0
