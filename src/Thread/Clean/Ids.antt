-- ===== src/Thread/Clean/Ids.antt =====
-- Ids of kernel/thread.c that are given back.
use test_os.Base.{
  ℕ, zero, suc, ◌/◌, ◌%◌, ◌^◌, ◌<◌, ◌≡◌, ◌≢◌, sym, ◌∙◌, ap, arith, false, List, bit_and, ◌==◌,
  if◌then◌else◌,
}
use native.Mathlib.Decide.{ℕ_discrete}
use native.Mathlib.Nat.{pow-suc, one-le-pow}
use test_os.Base.Bits.{bit, bit_not, bit-lt, bit-bit_and, bit-bit_not, bit-two-pow}
use test_os.Base.Memory.{store}
use test_os.Thread.{Threads}
use test_os.Thread.Chain.{All-mono, All-zip}
use test_os.Thread.State.{tid_used, Member, IsThreads, Detached, store_self, store_ne}
use test_os.Thread.Clean.{take_id}

pow-lt : (k w : ℕ) → k < w → 2 ^ k < 2 ^ w
pow-lt k zero lt = absurd (omega arith)
pow-lt zero (suc w) lt = omega (arith, pow-suc 2 w, one-le-pow w 2)
pow-lt (suc k) (suc w) lt = omega (arith, pow-suc 2 k, pow-suc 2 w, pow-lt k w (omega arith))

-- Taking an id back clears it and no other.
pub tid_used-take_id :
    (bitmap : ℕ → ℕ) (t k : ℕ)
    → tid_used (take_id bitmap t) k ≡ (if k == t then 0 else tid_used bitmap k)
tid_used-take_id bitmap t k = elim (ℕ_discrete (k / 32) (t / 32)) [
  | no ne ↦
      let other : (k == t) ≡ false = ground (arith, ap (λ (x : ℕ). x / 32) {x = k} {y = t}) in
      rw other (
        ap (λ b. bit b (k % 32))
          (store_ne bitmap (t / 32) (bit_and (bitmap (t / 32)) (bit_not 32 (2 ^ (t % 32)))) (k / 32)
            ne))
  | yes e ↦
      let word = bit_and (bitmap (t / 32)) (bit_not 32 (2 ^ (t % 32))) in
      let here : store bitmap (t / 32) word (k / 32) ≡ word =
        ap (store bitmap (t / 32) word) e ∙ store_self bitmap (t / 32) word in
      ap (λ b. bit b (k % 32)) here
      ∙ bit-bit_and (k % 32) (bitmap (t / 32)) (bit_not 32 (2 ^ (t % 32)))
      ∙ ground (
        arith,
        bit-bit_not 32 (k % 32) (2 ^ (t % 32)) (omega arith) (pow-lt (t % 32) 32 (omega arith)),
        bit-two-pow (t % 32) (k % 32),
        bit-lt (bitmap (k / 32)) (k % 32),
        ap (λ (w : ℕ). bit (bitmap w) (k % 32)) e,
      )
]

module _ (s : Threads) (owner : ℕ → ℕ) (lists : ℕ → List ℕ) (h : IsThreads s owner lists) (p : ℕ)
    (own : owner (s.node p).tid ≡ p) (out : Detached p lists) (freed : List ℕ) where
  abbrev taken_back : Threads
  taken_back = record s { tid_bitmap = take_id s.tid_bitmap (s.node p).tid; freed = freed }

  still-Member : (b q : ℕ) → q ≢ p → Member s owner b q → Member taken_back owner b q
  still-Member b q ne m =
      let other : (s.node q).tid ≢ (s.node p).tid = λ e. ne (sym m.own ∙ ap owner e ∙ own) in
      record {
        status = m.status;
        own = m.own;
        small = m.small;
        given =
            tid_used-take_id s.tid_bitmap (s.node p).tid (s.node q).tid ∙ ground (arith, m.given);
      }

  -- The id of a thread on no list is given back.
  pub taken_back-IsThreads : IsThreads taken_back owner lists
  taken_back-IsThreads = record {
    chain = h.chain;
    distinct = h.distinct;
    members = λ b below.
        All-mono (λ q. (q ≢ p) × Member s owner b q) (Member taken_back owner b) (lists b)
          (λ q (ne, m). still-Member b q ne m)
          (All-zip (λ q. q ≢ p) (Member s owner b) (lists b) (out b below) (h.members b below));
  }
