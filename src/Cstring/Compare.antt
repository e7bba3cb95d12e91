-- ===== src/Cstring/Compare.antt =====
-- What `strcmp` answers about two strings in memory.
use test_os.Base.{
  ℕ, zero, suc, ◌+◌, ◌≤◌, ◌<◌, ◌≡◌, ◌≢◌, ◌⊎◌, ◌↔◌, refl, ap, subst, ==_iff, sym, ◌∙◌, inl, inr,
  Bool-cases, List, [], ◌∷◌, some, arith, ◌==◌, if◌then◌else◌, length, true,
}
use test_os.Base.Memory.{Memory}
use test_os.Cstring.{Order, strcmp, strcmp_loop, char_order, char_lt}
use native.Mathlib.Decide.{dec_lt, ℕ_discrete}
use test_os.Cstring.Holds.{Holds, Holds-unique}

-- The order of two texts, the first difference deciding, with the end of a text counted as a 0.
abbrev pub text_order : List ℕ → List ℕ → Order
text_order [] [] = Order.same
text_order [] (d ∷ t) = char_order 0 d
text_order (c ∷ s) [] = char_order c 0
text_order (c ∷ s) (d ∷ t) = if c == d then text_order s t else char_order c d

strcmp_loop-Holds :
    (s t : List ℕ) (fuel : ℕ) (m : Memory) (p q : ℕ)
    → length s < fuel
    → Holds m p s
    → Holds m q t
    → strcmp_loop fuel m p q ≡ some (text_order s t)
unfolding strcmp_loop
strcmp_loop-Holds s t zero m p q f h k = absurd (omega arith)
strcmp_loop-Holds [] [] (suc fuel) m p q f h k = ground arith
strcmp_loop-Holds [] (d ∷ t) (suc fuel) m p q f h k = ground arith
strcmp_loop-Holds (c ∷ s) [] (suc fuel) m p q f h k = ground arith
strcmp_loop-Holds (c ∷ s) (d ∷ t) (suc fuel) m p q f h k =
    ground (arith, strcmp_loop-Holds s t fuel m (p + 1) (q + 1))

-- Bytes of a text: neither 0 nor out of range.
abbrev pub IsText : List ℕ → Type 0
IsText [] = Unit
IsText (c ∷ s) = (c ≢ 0) × (c < 256) × IsText s

Holds-IsText : (s : List ℕ) (m : Memory) (p : ℕ) → Holds m p s → IsText s
Holds-IsText [] m p h = tt
Holds-IsText (c ∷ s) m p (e, nz, lt, h) = (nz, lt, Holds-IsText s m (p + 1) h)

text_order_self : (s : List ℕ) → text_order s s ≡ Order.same
text_order_self [] = refl
text_order_self (c ∷ s) = ground (arith, text_order_self s)

text_order_same : (s t : List ℕ) → IsText s → IsText t → text_order s t ≡ Order.same → s ≡ t
text_order_same [] [] h k e = refl
text_order_same [] (d ∷ t) h k e = ground arith
text_order_same (c ∷ s) [] h k e = ground arith
text_order_same (c ∷ s) (d ∷ t) h k e = ground (arith, text_order_same s t h.2 k.2)

-- The order of two bytes as signed `char`s: those from 128 on are the negative ones.
abbrev pub CharLt : ℕ → ℕ → Type 0
CharLt c d = ((128 ≤ c) × (d < 128)) ⊎ ((c < d) × ((d < 128) ⊎ (128 ≤ c)))

-- The order of two texts, in which the first difference decides, with the end of a text counted as a 0.
abbrev pub TextLt : List ℕ → List ℕ → Type 0
TextLt [] [] = 1 ≤ 0
TextLt [] (d ∷ t) = CharLt 0 d
TextLt (c ∷ s) [] = CharLt c 0
TextLt (c ∷ s) (d ∷ t) = CharLt c d ⊎ ((c ≡ d) × TextLt s t)

char_lt-CharLt : (c d : ℕ) → c < 256 → d < 256 → (char_lt c d ≡ true) ↔ CharLt c d
char_lt-CharLt c d h k = (
  λ e. elim (dec_lt c 128) [
    | yes low ↦ inr (ground (arith, e, low, h, k), inl (ground (arith, e, low, h, k)))
    | no high ↦ elim (dec_lt d 128) [
      | yes low' ↦ inl (omega (arith, high), low')
      | no high' ↦ inr (ground (arith, e, high, high', h, k), inr (omega (arith, high)))
    ]
  ],
  λ l. elim l [
    | inl (high, low) ↦ ground (arith, high, low, h, k)
    | inr (less, inl low) ↦ ground (arith, less, low, h, k)
    | inr (less, inr high) ↦ ground (arith, less, high, h, k)
  ],
)

order_less : (c d : ℕ) → (char_order c d ≡ Order.less) ↔ (char_lt c d ≡ true)
order_less c d = (λ e. ground (arith, e), λ e. ground (arith, e))

order_more : (c d : ℕ) → (char_order c d ≡ Order.more) ↔ (char_lt d c ≡ true)
order_more c d = (λ e. ground (arith, e), λ e. ground (arith, e))

char_less : (c d : ℕ) → c < 256 → d < 256 → (char_order c d ≡ Order.less) ↔ CharLt c d
char_less c d h k =
    let (a, b) = order_less c d in
    let (e, f) = char_lt-CharLt c d h k in (λ o. e (a o), λ l. b (f l))

char_more : (c d : ℕ) → c < 256 → d < 256 → (char_order c d ≡ Order.more) ↔ CharLt d c
char_more c d h k =
    let (a, b) = order_more c d in
    let (e, f) = char_lt-CharLt d c k h in (λ o. e (a o), λ l. b (f l))

CharLt-ne : (c d : ℕ) → CharLt c d → c ≢ d
CharLt-ne c d l e = elim l [
  | inl (high, low) ↦ absurd (omega (arith, high, low, e))
  | inr (less, _) ↦ absurd (omega (arith, less, e))
]

text_less : (s t : List ℕ) → IsText s → IsText t → (text_order s t ≡ Order.less) ↔ TextLt s t
text_less [] [] h k = (λ e. absurd (cc), λ e. absurd (omega (arith, e)))
text_less [] (d ∷ t) h k = char_less 0 d (omega arith) k.1
text_less (c ∷ s) [] h k = char_less c 0 h.1 (omega arith)
text_less (c ∷ s) (d ∷ t) h k = elim (ℕ_discrete c d) [
  | yes e ↦
      let (a, b) = text_less s t h.2 k.2 in
      (
        λ o. inr (e, a (ground (arith, e, o))),
        λ l. elim l [
          | inl less ↦ absurd (CharLt-ne c d less e)
          | inr (_, rest) ↦ ground (arith, e, b rest)
        ],
      )
  | no ne ↦
      let (a, b) = char_less c d h.1 k.1 in
      (
        λ o. inl (a (ground (arith, ne, o))),
        λ l. elim l [ inl less ↦ ground (arith, ne, b less) | inr (e, _) ↦ absurd (ne e) ],
      )
]

text_more : (s t : List ℕ) → IsText s → IsText t → (text_order s t ≡ Order.more) ↔ TextLt t s
text_more [] [] h k = (λ e. absurd (cc), λ e. absurd (omega (arith, e)))
text_more [] (d ∷ t) h k = char_more 0 d (omega arith) k.1
text_more (c ∷ s) [] h k = char_more c 0 h.1 (omega arith)
text_more (c ∷ s) (d ∷ t) h k = elim (ℕ_discrete c d) [
  | yes e ↦
      let (a, b) = text_more s t h.2 k.2 in
      (
        λ o. inr (sym e, a (ground (arith, e, o))),
        λ l. elim l [
          | inl less ↦ absurd (CharLt-ne d c less (sym e))
          | inr (_, rest) ↦ ground (arith, e, b rest)
        ],
      )
  | no ne ↦
      let (a, b) = char_more c d h.1 k.1 in
      (
        λ o. inl (a (ground (arith, ne, o))),
        λ l. elim l [ inl less ↦ ground (arith, ne, b less) | inr (e, _) ↦ absurd (ne (sym e)) ],
      )
]

-- On two strings `strcmp` ends. Its answer is -1 exactly when the first text comes before the second in
-- the order of signed `char`s, 1 exactly when it comes behind, and 0 exactly when the texts are equal.
pub strcmp-Holds :
    (s t : List ℕ) (fuel : ℕ) (m : Memory) (p q : ℕ)
    → length s < fuel
    → Holds m p s
    → Holds m q t
    → (answer : Order) × (strcmp fuel m p q ≡ some answer)
      × ((answer ≡ Order.less) ↔ TextLt s t)
      × ((answer ≡ Order.more) ↔ TextLt t s)
      × ((answer ≡ Order.same) ↔ (s ≡ t))
unfolding strcmp
strcmp-Holds s t fuel m p q f h k = (
  text_order s t,
  elim (Bool-cases (p == q)) [
    | inl e ↦ rw e (ap some (sym (ap (text_order s) (sym (one e)) ∙ text_order_self s)))
    | inr e ↦ rw e (strcmp_loop-Holds s t fuel m p q f h k)
  ],
  text_less s t (Holds-IsText s m p h) (Holds-IsText t m q k),
  text_more s t (Holds-IsText s m p h) (Holds-IsText t m q k),
  (
    text_order_same s t (Holds-IsText s m p h) (Holds-IsText t m q k),
    λ e. rw (← e) (text_order_self s),
  ),
)
  where
    one : (p == q) ≡ true → s ≡ t
    one e = Holds-unique s t m q (subst (λ x. Holds m x s) ((==_iff p q).0 e) h) k
