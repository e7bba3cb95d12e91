-- ===== src/Thread/State.antt =====
-- The well-formed states of kernel/thread.c.
use test_os.Base.{
  ℕ, ◌/◌, ◌%◌, ◌<◌, ◌≡◌, ◌≢◌, sym, ◌∙◌, ap, subst, arith, ap₂, true, false, List, All, ◌==◌,
  if◌then◌else◌,
}
use test_os.Base.Bits.{bit}
use test_os.Base.Memory.{store}
use native.Mathlib.Decide.{ℕ_discrete}
use test_os.Thread.{Threads, thread_status_size, kernel_thread_max, tid_bit_nr}
use test_os.Thread.Chain.{Chain, Lacks, Distinct}

-- 1 if the id `t` is given out.
abbrev pub tid_used : (ℕ → ℕ) → ℕ → ℕ
tid_used bitmap t = bit (bitmap (t / tid_bit_nr)) (t % tid_bit_nr)

-- The node `p` has the status `a`, and its id is given out to it and to no other node.
pub record Member (s : Threads) (owner : ℕ → ℕ) (a p : ℕ) : Type 0 where
  pub status : (s.node p).status ≡ a
  pub own : owner (s.node p).tid ≡ p
  pub small : (s.node p).tid < kernel_thread_max
  pub given : tid_used s.tid_bitmap (s.node p).tid ≡ 1

-- The four lists hold `lists a`, for each status `a`.
pub record IsThreads (s : Threads) (owner : ℕ → ℕ) (lists : ℕ → List ℕ) : Type 0 where
  pub chain : (a : ℕ) → a < thread_status_size → Chain s.node (s.thread_head a) (lists a)
  pub distinct : (a : ℕ) → a < thread_status_size → Distinct (lists a)
  pub members : (a : ℕ) → a < thread_status_size → All (Member s owner a) (lists a)

-- `p` is on no list.
abbrev pub Detached : ℕ → (ℕ → List ℕ) → Type 0
Detached p lists = (a : ℕ) → a < thread_status_size → Lacks p (lists a)

abbrev pub with_list : (ℕ → List ℕ) → ℕ → List ℕ → ℕ → List ℕ
with_list lists a xs b = if b == a then xs else lists b

-- A statement about every list, after one of them has changed.
pub with_list-all {κ} :
    (P : ℕ → List ℕ → Type κ) (lists : ℕ → List ℕ) (a : ℕ) (xs : List ℕ)
    → P a xs
    → ((b : ℕ) → b ≢ a → P b (lists b))
    → (b : ℕ) → P b (with_list lists a xs b)
with_list-all P lists a xs new old b = elim (ℕ_discrete b a) [
  | yes e ↦ let here : (b == a) ≡ true = ground arith in rw here (subst (λ t. P t xs) (sym e) new)
  | no ne ↦ let elsewhere : (b == a) ≡ false = ground arith in rw elsewhere (old b ne)
]

-- A change of the state that keeps what the node `p` is known by.
pub record Keeps (s s' : Threads) (p : ℕ) : Type 0 where
  pub same_status : (s'.node p).status ≡ (s.node p).status
  pub same_tid : (s'.node p).tid ≡ (s.node p).tid
  pub same_bitmap : s'.tid_bitmap ≡ s.tid_bitmap

pub Member-frame :
    (s s' : Threads) (owner : ℕ → ℕ) (a p : ℕ)
    → Keeps s s' p
    → Member s owner a p
    → Member s' owner a p
Member-frame s s' owner a p k m = record {
  status = k.same_status ∙ m.status;
  own = ap owner k.same_tid ∙ m.own;
  small = subst (λ t. t < kernel_thread_max) (sym k.same_tid) m.small;
  given = ap₂ (λ (b : ℕ → ℕ) (t : ℕ). tid_used b t) k.same_bitmap k.same_tid ∙ m.given;
}

pub store_self : (m : ℕ → ℕ) (a v : ℕ) → store m a v a ≡ v
store_self m a v = ground arith

pub store_ne : (m : ℕ → ℕ) (a v b : ℕ) → b ≢ a → store m a v b ≡ m b
store_ne m a v b ne = ground arith
