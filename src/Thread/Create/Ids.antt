-- ===== src/Thread/Create/Ids.antt =====
-- The bitmap of ids of kernel/thread.c as a set.
use test_os.Base.{
  subst, ap₂, ℕ, zero, suc, ◌+◌, ◌-◌, ◌*◌, ◌/◌, ◌%◌, ◌^◌, ◌≤◌, ◌<◌, ◌≡◌, inl, inr, refl, sym, ◌∙◌,
  ap, arith, false, Option, some, none, bit_or, ◌==◌, if◌then◌else◌, Bool-cases,
}
use native.Mathlib.Decide.{ℕ_discrete, dec_lt}
use test_os.Base.Bits.{bit, bit-lt, bit-bit_or, bit-two-pow}
use test_os.Base.Memory.{store}
use test_os.Thread.{tid_bit_nr}
use test_os.Thread.State.{tid_used, store_self, store_ne}
use test_os.Thread.Create.{scan_bits, scan_ids, give_id}

pub tid_used-lt : (bitmap : ℕ → ℕ) (t : ℕ) → tid_used bitmap t < 2
tid_used-lt bitmap t = bit-lt (bitmap (t / tid_bit_nr)) (t % tid_bit_nr)

-- Giving out an id marks it and no other.
pub tid_used-give_id :
    (bitmap : ℕ → ℕ) (t k : ℕ)
    → tid_used (give_id bitmap t) k ≡ (if k == t then 1 else tid_used bitmap k)
tid_used-give_id bitmap t k = elim (ℕ_discrete (k / 32) (t / 32)) [
  | no ne ↦
      let other : (k == t) ≡ false = ground (arith, ap (λ (x : ℕ). x / 32) {x = k} {y = t}) in
      rw other (
        ap (λ b. bit b (k % 32))
          (store_ne bitmap (t / 32) (bit_or (bitmap (t / 32)) (2 ^ (t % 32))) (k / 32) ne))
  | yes e ↦
      let here : store bitmap (t / 32) (bit_or (bitmap (t / 32)) (2 ^ (t % 32))) (k / 32)
          ≡ bit_or (bitmap (t / 32)) (2 ^ (t % 32)) =
        ap (store bitmap (t / 32) (bit_or (bitmap (t / 32)) (2 ^ (t % 32)))) e
        ∙ store_self bitmap (t / 32) (bit_or (bitmap (t / 32)) (2 ^ (t % 32))) in
      ap (λ b. bit b (k % 32)) here
      ∙ bit-bit_or (k % 32) (bitmap (t / 32)) (2 ^ (t % 32))
      ∙ ground (
        arith,
        bit-two-pow (t % 32) (k % 32),
        bit-lt (bitmap (k / 32)) (k % 32),
        ap (λ (w : ℕ). bit (bitmap w) (k % 32)) e,
      )
]

-- The first clear bit of a word from `j` on.
abbrev pub FirstBit : ℕ → (lo hi : ℕ) → Option ℕ → Type 0
FirstBit map lo hi (some j) =
    (lo ≤ j) × (j < hi) × (bit map j ≡ 0) × ((i : ℕ) → lo ≤ i → i < j → bit map i ≡ 1)
FirstBit map lo hi none = (i : ℕ) → lo ≤ i → i < hi → bit map i ≡ 1

FirstBit-later :
    (map j hi : ℕ) (r : Option ℕ) → bit map j ≡ 1 → FirstBit map (j + 1) hi r → FirstBit map j hi r
FirstBit-later map j hi (some k) taken (le, lt, free, before) =
    (omega arith, lt, free, λ i from to. from_next map j k taken before i from to)
  where
    from_next :
        (m a b : ℕ)
        → bit m a ≡ 1
        → ((i : ℕ) → a + 1 ≤ i → i < b → bit m i ≡ 1)
        → (i : ℕ) → a ≤ i
        → i < b
        → bit m i ≡ 1
    from_next m a b one rest i from to = elim (ℕ_discrete i a) [
      | yes e ↦ ap (bit m) e ∙ one
      | no ne ↦ rest i (omega arith) to
    ]
FirstBit-later map j hi none taken all = λ i from to. elim (ℕ_discrete i j) [
  | yes e ↦ ap (bit map) e ∙ taken
  | no ne ↦ all i (omega arith) to
]

scan_bits-FirstBit : (rounds map j : ℕ) → FirstBit map j (j + rounds) (scan_bits rounds map j)
unfolding scan_bits
scan_bits-FirstBit zero map j = λ i le lt. absurd (omega arith)
scan_bits-FirstBit (suc rounds) map j = elim (Bool-cases (bit map j == 0)) [
  | inl free ↦ rw free (omega arith, omega arith, ground arith, λ i le lt. absurd (omega arith))
  | inr taken ↦
      let hi : j + 1 + rounds ≡ j + suc rounds = omega arith in
      let one : bit map j ≡ 1 = ground (arith, bit-lt map j) in
      rw taken (
        FirstBit-later map j (j + suc rounds) (scan_bits rounds map (j + 1)) one (
          subst (λ h. FirstBit map (j + 1) h (scan_bits rounds map (j + 1))) hi
            (scan_bits-FirstBit rounds map (j + 1))))
]

-- The first free id from `lo` on.
abbrev pub FirstId : (ℕ → ℕ) → (lo hi : ℕ) → Option ℕ → Type 0
FirstId bitmap lo hi (some t) =
    (lo ≤ t)
    × (t < hi)
    × (tid_used bitmap t ≡ 0)
    × ((i : ℕ) → lo ≤ i → i < t → tid_used bitmap i ≡ 1)
FirstId bitmap lo hi none = (i : ℕ) → lo ≤ i → i < hi → tid_used bitmap i ≡ 1

-- The bits of one word are those of its ids.
id_bit :
    (bitmap : ℕ → ℕ) (w j i : ℕ) → i ≡ w * 32 + j → j < 32 → bit (bitmap w) j ≡ tid_used bitmap i
id_bit bitmap w j i e lt =
    ap₂ (λ (a b : ℕ). bit (bitmap a) b) {x = w} {y = i / 32} {u = j} {v = i % 32} (omega arith)
      (omega arith)

FirstId-later :
    (bitmap : ℕ → ℕ) (w hi : ℕ) (r : Option ℕ)
    → ((i : ℕ) → w * 32 ≤ i → i < (w + 1) * 32 → tid_used bitmap i ≡ 1)
    → FirstId bitmap ((w + 1) * 32) hi r
    → FirstId bitmap (w * 32) hi r
FirstId-later bitmap w hi (some t) here (le, lt, free, before) = (
  omega arith,
  lt,
  free,
  λ i from to. elim (dec_lt i ((w + 1) * 32)) [
    | yes near ↦ here i from near
    | no far ↦ before i (omega arith) to
  ],
)
FirstId-later bitmap w hi none here all = λ i from to. elim (dec_lt i ((w + 1) * 32)) [
  | yes near ↦ here i from near
  | no far ↦ all i (omega arith) to
]

pub scan_ids-FirstId :
    (rounds : ℕ) (bitmap : ℕ → ℕ) (w : ℕ)
    → FirstId bitmap (w * 32) ((w + rounds) * 32) (scan_ids rounds bitmap w)
unfolding scan_ids
scan_ids-FirstId zero bitmap w = λ i le lt. absurd (omega arith)
scan_ids-FirstId (suc rounds) bitmap w =
    elim (scan_bits 32 (bitmap w) 0)
        as (λ r.
          FirstBit (bitmap w) 0 32 r
          → FirstId bitmap (w * 32) ((w + suc rounds) * 32)
              (elim r [ some j ↦ some (w * 32 + j) | none ↦ scan_ids rounds bitmap (w + 1) ])) [
                | some j ↦ λ (le, lt, free, before). (
                  omega arith,
                  omega arith,
                  sym (id_bit bitmap w j (w * 32 + j) refl lt) ∙ free,
                  λ i from to.
                      sym (id_bit bitmap w (i - w * 32) i (omega arith) (omega arith))
                      ∙ before (i - w * 32) (omega arith) (omega arith),
                )
                | none ↦ λ all.
                    FirstId-later bitmap w ((w + suc rounds) * 32) (scan_ids rounds bitmap (w + 1))
                      (λ i from to.
                        sym (id_bit bitmap w (i - w * 32) i (omega arith) (omega arith))
                        ∙ all (i - w * 32) (omega arith) (omega arith))
                      (subst (λ h. FirstId bitmap ((w + 1) * 32) h (scan_ids rounds bitmap (w + 1)))
                        {x = (w + 1 + rounds) * 32} {y = (w + suc rounds) * 32} (omega arith)
                        (scan_ids-FirstId rounds bitmap (w + 1)))
              ]
      (scan_bits-FirstBit 32 (bitmap w) 0)
