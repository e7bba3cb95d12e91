-- ===== src/Keyboard.antt =====
-- kernel/keyboard.c: the keyboard interrupt and the ring of keys. The tables of kernel/keymap.h are a
-- parameter. Interrupt and reader are steps that do not overlap.
pub mod Ring
mod Examples
use test_os.Base.{
  ℕ, zero, suc, ◌+◌, ◌-◌, ◌*◌, ◌/◌, ◌%◌, ◌^◌, Bool, true, false, ◌&&◌, not, List, [], ◌∷◌, bit_and,
  bit_or, leb, ◌==◌, if◌then◌else◌,
}
use Prim.Native.Nat.{bit_xor}
use test_os.Base.Bits.{bit_not}
use test_os.Base.Memory.{Memory, store}

abbrev pub key_buf_size : ℕ
key_buf_size = 32

abbrev pub kbs_dib : ℕ
kbs_dib = 1

abbrev shift_key : ℕ
shift_key = 1

abbrev ctl : ℕ
ctl = 2

abbrev capslock : ℕ
capslock = 8

abbrev e0esc : ℕ
e0esc = 64

pub record Keymap : Type 0 where
  pub normalmap : ℕ → ℕ
  pub shiftmap : ℕ → ℕ
  pub ctlmap : ℕ → ℕ
  pub shiftcode : ℕ → ℕ
  pub togglecode : ℕ → ℕ

-- The static variables; `chars_fifo` is read and written below `key_buf_size` only.
pub record Keyboard : Type 0 where
  pub chars_fifo : Memory
  pub cursor_in : ℕ
  pub cursor_out : ℕ
  pub shift : ℕ

abbrev pub keyboard_static : Keyboard
keyboard_static = record { chars_fifo = λ q. 0; cursor_in = 0; cursor_out = 1; shift = 0 }

-- `charcode[shift & (CTL | SHIFT)][data]`
unfoldable pub charcode : Keymap → ℕ → ℕ → ℕ
charcode maps shift code =
    let table = bit_and shift (bit_or ctl shift_key) in
    if table == 0
    then maps.normalmap code
    else if table == 1
    then maps.shiftmap code
    else maps.ctlmap code

-- `if (shift & CAPSLOCK)`
unfoldable pub capital : ℕ → ℕ → ℕ
capital shift c =
    if bit_and shift capslock == 0
    then c
    else if leb b'a' c && leb c b'z'
    then c - 32
    else if leb b'A' c && leb c b'Z'
    then c + 32
    else c

-- `chars_fifo[cursor_in++] = c; cursor_in %= KEY_BUF_SIZE;`
unfoldable pub put_key : ℕ → Keyboard → Keyboard
put_key c k = record k {
  chars_fifo = store k.chars_fifo k.cursor_in (c % 256);
  cursor_in = (k.cursor_in + 1) % 256 % key_buf_size;
}

-- The interrupt from `shift |= shiftcode[data]` on.
unfoldable pub press : Keymap → ℕ → Keyboard → Keyboard
unfolding charcode capital put_key
press maps code k =
    let shift = bit_xor (bit_or k.shift (maps.shiftcode code)) (maps.togglecode code) in
    put_key (capital shift (charcode maps shift code)) (record k { shift = shift })

-- `else if (data & 0x80)`
unfoldable pub release : Keymap → ℕ → Keyboard → Keyboard
release maps code k =
    let code' = if bit_and k.shift e0esc == 0 then bit_and code 0x7f else code in
    record k { shift = bit_and k.shift (bit_not 32 (bit_or (maps.shiftcode code') e0esc)) }

-- `st` and `data` are the bytes that the two ports give.
unfoldable pub keyboard_isr : Keymap → ℕ → ℕ → Keyboard → Keyboard
unfolding press release
keyboard_isr maps st code k =
    let unescaped = record k { shift = bit_and k.shift (bit_not 32 e0esc) } in
    if bit_and st kbs_dib == 0
    then k
    else if code == 0xe0
    then record k { shift = bit_or k.shift e0esc }
    else if not (bit_and code 0x80 == 0)
    then release maps code k
    else if not (bit_and k.shift e0esc == 0)
    then press maps (bit_or code 0x80) unescaped
    else press maps code k

-- The key, 0 if there is none at the cursor, and the keyboard behind the call.
unfoldable pub get_key : Keyboard → ℕ × Keyboard
get_key k =
    let out = k.cursor_out % key_buf_size in
    (k.chars_fifo out, record k { chars_fifo = store k.chars_fifo out 0; cursor_out = out + 1 })
