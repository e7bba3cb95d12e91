-- ===== src/Keyboard/Ring.antt =====
-- The ring of keys of kernel/keyboard.c, between `keyboard_isr` and `get_key`.
use test_os.Base.{
  ℕ, zero, suc, ◌+◌, ◌-◌, ◌%◌, ◌≤◌, ◌<◌, ◌≡◌, refl, ◌∙◌, ap, ap₂, arith, List, [], ◌∷◌, get_or, ◌⊎◌,
  inl, inr, bit_and, bit_or, not, Bool-cases, ◌==◌,
}
use test_os.Base.Memory.{Memory, store}
use Prim.Native.Nat.{bit_xor}
use test_os.Base.Bits.{bit_not}
use test_os.Keyboard.{
  Keyboard, Keymap, key_buf_size, kbs_dib, e0esc, charcode, capital, put_key, press, release,
  keyboard_isr, get_key,
}

-- `n` calls of `get_key`.
unfoldable pub get_keys : ℕ → Keyboard → List ℕ × Keyboard
unfolding get_key
get_keys zero k = ([], k)
get_keys (suc n) k = let (key, k1) = get_key k in let (keys, k2) = get_keys n k1 in (key ∷ keys, k2)

-- What stands in the `n` places of the ring from `out` on.
unfoldable pub ring_from : ℕ → Memory → ℕ → List ℕ
ring_from zero fifo out = []
ring_from (suc n) fifo out = fifo (out % key_buf_size) ∷ ring_from n fifo (out + 1)

at : (fifo : Memory) (p q : ℕ) → p ≡ q → fifo p ≡ fifo q
at fifo p q e = ap fifo e

get_keys-ring :
    (n : ℕ) (k : Keyboard) (fifo : Memory) (out : ℕ)
    → n ≤ key_buf_size
    → out % key_buf_size ≡ k.cursor_out % key_buf_size
    → ((i : ℕ) → i < n → k.chars_fifo ((out + i) % key_buf_size) ≡ fifo ((out + i) % key_buf_size))
    → (get_keys n k).0 ≡ ring_from n fifo out
unfolding get_keys ring_from
get_keys-ring zero k fifo out le e same = refl
get_keys-ring (suc n) k fifo out le e same =
    ap₂ ◌∷◌
      (at k.chars_fifo (k.cursor_out % 32) ((out + 0) % 32) (omega arith)
        ∙ same 0 (omega arith)
        ∙ at fifo ((out + 0) % 32) (out % 32) (omega arith))
      (get_keys-ring n (get_key k).1 fifo (out + 1) (omega arith) (omega arith) (λ i lt. ground (
        arith,
        same (i + 1) (omega arith),
        at k.chars_fifo ((out + 1 + i) % 32) ((out + (i + 1)) % 32) (omega arith),
        at fifo ((out + 1 + i) % 32) ((out + (i + 1)) % 32) (omega arith),
      )))

get_keys-stays :
    (n : ℕ) (k : Keyboard) (q : ℕ) → k.chars_fifo q ≡ 0 → (get_keys n k).1.chars_fifo q ≡ 0
unfolding get_keys
get_keys-stays zero k q e = e
get_keys-stays (suc n) k q e = get_keys-stays n (get_key k).1 q (ground (arith, e))

get_keys-clears :
    (n : ℕ) (k : Keyboard) (i : ℕ)
    → i < n
    → (get_keys n k).1.chars_fifo ((k.cursor_out + i) % key_buf_size) ≡ 0
unfolding get_keys
get_keys-clears zero k i lt = absurd (omega arith)
get_keys-clears (suc n) k zero lt =
    get_keys-stays n (get_key k).1 ((k.cursor_out + 0) % 32) (ground arith)
get_keys-clears (suc n) k (suc i) lt =
    at (get_keys n (get_key k).1).1.chars_fifo ((k.cursor_out + suc i) % 32)
      (((get_key k).1.cursor_out + i) % 32) (omega arith)
    ∙ get_keys-clears n (get_key k).1 i (omega arith)

get_or-ring_from :
    (n : ℕ) (fifo : Memory) (out i : ℕ)
    → i < n
    → get_or (ring_from n fifo out) i 0 ≡ fifo ((out + i) % key_buf_size)
unfolding ring_from
get_or-ring_from zero fifo out i lt = absurd (omega arith)
get_or-ring_from (suc n) fifo out zero lt = at fifo (out % 32) ((out + 0) % 32) (omega arith)
get_or-ring_from (suc n) fifo out (suc i) lt =
    get_or-ring_from n fifo (out + 1) i (omega arith)
    ∙ at fifo ((out + 1 + i) % 32) ((out + suc i) % 32) (omega arith)

-- Thirty-two calls of `get_key` return what stands in the ring, once around from the cursor on, and
-- leave nothing in it.
pub get_keys-around :
    (k : Keyboard)
    → ((get_keys key_buf_size k).0 ≡ ring_from key_buf_size k.chars_fifo k.cursor_out)
      × ((q : ℕ) → q < key_buf_size → (get_keys key_buf_size k).1.chars_fifo q ≡ 0)
get_keys-around k = (
  get_keys-ring key_buf_size k k.chars_fifo k.cursor_out (omega arith) refl (λ i lt. refl),
  λ q lt.
      at (get_keys key_buf_size k).1.chars_fifo q
        ((k.cursor_out + (q + 32 - k.cursor_out % 32) % 32) % 32) (omega arith)
      ∙ get_keys-clears key_buf_size k ((q + 32 - k.cursor_out % 32) % 32) (omega arith),
)

-- Where the reading cursor is one place before the writing cursor, as when the kernel starts, of two
-- keys typed before the next call of `get_key` the second is returned first, and the first after a whole
-- turn of the ring.
pub get_keys-put_key :
    (k : Keyboard) (a b : ℕ)
    → k.cursor_in < key_buf_size
    → k.cursor_out % key_buf_size ≡ (k.cursor_in + 1) % key_buf_size
    → (get_or (get_keys key_buf_size (put_key b (put_key a k))).0 0 0 ≡ b % 256)
      × (get_or (get_keys key_buf_size (put_key b (put_key a k))).0 31 0 ≡ a % 256)
unfolding put_key
get_keys-put_key k a b lt e =
    let typed = put_key b (put_key a k) in
    let ring = (get_keys-around typed).0 in
    (
      rw ring
          (get_or-ring_from 32 typed.chars_fifo typed.cursor_out 0 (omega arith) ∙ ground arith),
      rw ring
          (get_or-ring_from 32 typed.chars_fifo typed.cursor_out 31 (omega arith) ∙ ground arith),
    )

-- One step of the ring: nothing, or one byte at the writing cursor, which goes on around the ring.
abbrev pub Typed : Keyboard → Keyboard → Type 0
Typed k k' =
    (k'.cursor_out ≡ k.cursor_out)
    × (((k'.chars_fifo ≡ k.chars_fifo) × (k'.cursor_in ≡ k.cursor_in))
        ⊎ ((c : ℕ) × (c < 256)
            × (k'.chars_fifo ≡ store k.chars_fifo k.cursor_in c)
            × (k'.cursor_in ≡ (k.cursor_in + 1) % key_buf_size)))

press-Typed :
    (maps : Keymap) (code shift : ℕ) (k : Keyboard)
    → k.cursor_in < key_buf_size
    → Typed k (press maps code (record k { shift = shift }))
unfolding press
press-Typed maps code shift k lt =
    let new = bit_xor (bit_or shift (maps.shiftcode code)) (maps.togglecode code) in
    (refl, inr (capital new (charcode maps new code) % 256, omega arith, refl, omega arith))

isr-Typed :
    (maps : Keymap) (st code : ℕ) (k : Keyboard)
    → k.cursor_in < key_buf_size
    → Typed k (keyboard_isr maps st code k)
unfolding keyboard_isr release
isr-Typed maps st code k lt = elim (Bool-cases (bit_and st kbs_dib == 0)) [
  | inl e ↦ rw e (refl, inl (refl, refl))
  | inr ne ↦ elim (Bool-cases (code == 0xe0)) [
    | inl e ↦ rw (ne, e) (refl, inl (refl, refl))
    | inr ne2 ↦ elim (Bool-cases (not (bit_and code 0x80 == 0))) [
      | inl e ↦ rw (ne, ne2, e) (refl, inl (refl, refl))
      | inr ne3 ↦ elim (Bool-cases (not (bit_and k.shift e0esc == 0))) [
        | inl e ↦
            rw (ne, ne2, ne3, e)
              (press-Typed maps (bit_or code 0x80) (bit_and k.shift (bit_not 32 e0esc)) k lt)
        | inr ne4 ↦ rw (ne, ne2, ne3, ne4) (press-Typed maps code k.shift k lt)
      ]
    ]
  ]
]

-- On every interrupt, whatever the tables and the bytes of the two ports, the ring takes at most one
-- byte, at the writing cursor, which stays inside the ring; the reading cursor does not move.
pub keyboard_isr-Typed :
    (maps : Keymap) (st code : ℕ) (k : Keyboard)
    → k.cursor_in < key_buf_size
    → Typed k (keyboard_isr maps st code k)
      × ((keyboard_isr maps st code k).cursor_in < key_buf_size)
keyboard_isr-Typed maps st code k lt =
    let typed = isr-Typed maps st code k lt in
    (typed, elim typed.1 [ inl (_, e) ↦ omega arith | inr (_, _, _, e) ↦ omega arith ])
