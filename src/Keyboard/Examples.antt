-- ===== src/Keyboard/Examples.antt =====
-- Runs of the keyboard, and the theorems about it at the keyboard that the kernel starts with.
use test_os.Base.{ℕ, ◌%◌, ◌<◌, ◌≡◌, refl, arith, get_or, if◌then◌else◌, ◌==◌}
use test_os.Keyboard.{
  Keyboard, Keymap, key_buf_size, keyboard_static, put_key, get_key, keyboard_isr,
}
use test_os.Keyboard.Ring.{
  get_keys, ring_from, Typed, get_keys-around, get_keys-put_key, keyboard_isr-Typed,
}

-- Two scan codes, and a shift key.
abbrev small_map : Keymap
small_map = record {
  normalmap = λ k. if k == 30 then b'a' else if k == 48 then b'b' else 0;
  shiftmap = λ k. if k == 30 then b'A' else if k == 48 then b'B' else 0;
  ctlmap = λ k. 0;
  shiftcode = λ k. if k == 42 then 1 else 0;
  togglecode = λ k. 0;
}

-- "a" and "b" are typed before the first call of `get_key`.
ab : Keyboard
ab = keyboard_isr small_map 1 48 (keyboard_isr small_map 1 30 keyboard_static)

b_first : ((get_key ab).0 ≡ b'b') × (get_or (get_keys 32 ab).0 31 0 ≡ b'a')
unfolding ab keyboard_isr get_key get_keys
b_first = (refl, refl)

get_keys-around_example :
    ((get_keys key_buf_size ab).0 ≡ ring_from key_buf_size ab.chars_fifo ab.cursor_out)
    × ((q : ℕ) → q < key_buf_size → (get_keys key_buf_size ab).1.chars_fifo q ≡ 0)
get_keys-around_example = get_keys-around ab

get_keys-put_key_example :
    (get_or (get_keys key_buf_size (put_key b'b' (put_key b'a' keyboard_static))).0 0 0
      ≡ b'b' % 256)
    × (get_or (get_keys key_buf_size (put_key b'b' (put_key b'a' keyboard_static))).0 31 0
        ≡ b'a' % 256)
get_keys-put_key_example = get_keys-put_key keyboard_static b'a' b'b' (omega arith) refl

keyboard_isr-Typed_example :
    Typed keyboard_static (keyboard_isr small_map 1 30 keyboard_static)
    × ((keyboard_isr small_map 1 30 keyboard_static).cursor_in < key_buf_size)
keyboard_isr-Typed_example = keyboard_isr-Typed small_map 1 30 keyboard_static (omega arith)
