-- ===== src/Console.antt =====
-- kernel/console.c: the text cursor. A call into kernel/vbe.c is kept as a value in the list of what
-- was drawn, the latest first. Interrupts are off within each call, so a call is one step.
-- Arithmetic on `uint32_t` wraps at 2 ^ 32.
pub mod Cells
pub mod Text
mod Examples
use test_os.Base.{
  ℕ, ◌+◌, ◌-◌, ◌*◌, ◌/◌, ◌%◌, ◌^◌, Bool, true, false, List, [], ◌∷◌, ltb, leb, ◌==◌, if◌then◌else◌,
}

abbrev pub font_w : ℕ
font_w = 8

abbrev pub font_h : ℕ
font_h = 16

abbrev pub word : ℕ
word = 2 ^ 32

abbrev pub console_fill : ℕ
console_fill = 0x4488_3cff

abbrev pub console_clear : ℕ
console_clear = 0x1e22_29ff

-- The character code of CONSOLE_BACK_FORCE, '\27' in octal.
abbrev pub console_back_force : ℕ
console_back_force = 23

abbrev pub space : ℕ
space = 32

-- The calls into the video driver; `put_dword_pixels` takes the colour apart.
pub data Draw : Type 0 where
  put_char : (n x y : ℕ) → Draw
  set_color : (color background : ℕ) → Draw
  set_color_invert : Draw
  send_dword_pixels : (x1 y1 width height x2 y2 : ℕ) → Draw
  put_dword_pixels : (x y width height color : ℕ) → Draw

-- The static structure `console`, `last_x` and `last_y` of `console_cur`, and what was drawn.
pub record Console : Type 0 where
  pub x : ℕ
  pub y : ℕ
  pub max_x : ℕ
  pub max_y : ℕ
  pub width : ℕ
  pub height : ℕ
  pub fill : ℕ
  pub clear : ℕ
  pub last_x : ℕ
  pub last_y : ℕ
  pub drawn : List Draw

abbrev pub draw : Draw → Console → Console
draw d c = record c { drawn = d ∷ c.drawn }

-- `console_cur`: `c1` is the console behind `if (flush_old)`.
unfoldable pub console_cur : Bool → Bool → Console → Console
console_cur flush_old flush_new c =
    let c1 = if flush_old then draw (Draw.put_char space c.last_x c.last_y) c else c in
    let c2 = record c1 { last_x = c1.x; last_y = c1.y } in
    let inverted = draw (Draw.put_char space c2.x c2.y) (draw Draw.set_color_invert c2) in
    if flush_new then draw Draw.set_color_invert inverted else c2

-- The body of `if (console.y >= console.max_y)`.
unfoldable pub scroll : Console → Console
unfolding console_cur
scroll c =
    let c1 = console_cur true false c in
    let moved = draw (Draw.send_dword_pixels 0 font_h c1.max_x c1.max_y 0 0) c1 in
    let last_line = (moved.max_y + word - font_h) % word in
    let cleared = draw (Draw.put_dword_pixels 0 last_line moved.max_x font_h moved.clear) moved in
    record cleared { y = (cleared.y + word - font_h) % word }

unfoldable pub console_roll : Console → Console
unfolding scroll
console_roll c =
    let c1 = record c { x = 0; y = (c.y + font_h) % word } in
    if leb c1.max_y c1.y then scroll c1 else c1

-- `if (console.x >= console.max_x)` of two of the cases.
unfoldable pub console_wrap : Bool → Console → Console
unfolding console_roll console_cur
console_wrap flush_old c =
    if leb c.max_x c.x then console_roll (console_cur flush_old false c) else c

unfoldable pub console_tab : Console → Console
unfolding console_wrap console_cur
console_tab c =
    let next_x = (c.x + (4 - c.x / font_w % 4) * font_w) % word in
    console_cur true true (console_wrap true (record c { x = next_x }))

-- The tests of CONSOLE_BACK_FORCE, which goes back to the line before, too.
unfoldable pub move_back : Console → Console
move_back c =
    let before = record c { x = (c.x + word - font_w) % word } in
    let above = record c {
      x = (c.max_x + word - font_w) % word;
      y = (c.y + word - font_h) % word;
    } in
    if c.x == 0 then (if c.y == 0 then c else above) else before

unfoldable pub console_put : ℕ → Console → Console
unfolding console_wrap console_cur
console_put n c =
    let put = draw (Draw.put_char n c.x c.y) c in
    console_cur false true (console_wrap false (record put { x = (put.x + font_w) % word }))

-- The `switch` on one character.
unfoldable pub console_char : Console → ℕ → Console
unfolding console_tab move_back console_put
console_char c n =
    if n == b'\n'
    then console_cur true true (console_roll c)
    else if n == b'\t'
    then console_tab c
    else if n == console_back_force
    then console_cur true true (move_back c)
    else if n == 8
    then (if c.x == 0
        then c
        else console_cur true true (record c { x = (c.x + word - font_w) % word }))
    else if n == 13
    then console_cur true true (record c { x = 0 })
    else console_put n c

-- `while (*string)`, on the bytes of the string before its terminator.
unfoldable pub console_chars : List ℕ → Console → Console
console_chars [] c = c
console_chars (n ∷ string) c = console_chars string (console_char c n)

unfoldable pub console_out : List ℕ → ℕ → ℕ → Console → Console
console_out string color background c =
    console_chars string
      (if color == background then c else draw (Draw.set_color color background) c)

unfoldable pub console_cls : Console → Console
console_cls c =
    let cleared = draw (Draw.put_dword_pixels 0 0 c.width c.height c.clear) c in
    record cleared { x = 0; y = 0 }

-- The console before `init_console`.
abbrev pub console_static : Console
console_static = record {
  x = 0;
  y = 0;
  max_x = 0;
  max_y = 0;
  width = 0;
  height = 0;
  fill = console_fill;
  clear = console_clear;
  last_x = 0;
  last_y = 0;
  drawn = [];
}

-- `init_console` up to the version text.
unfoldable pub init_console : ℕ → ℕ → Console → Console
unfolding console_cls
init_console width height c = console_cls (
    draw (Draw.set_color c.fill c.clear) (record c {
      width = width;
      height = height;
      max_x = width / font_w * font_w;
      max_y = height / font_h * font_h;
    }))

unfoldable pub get_console_cols : Console → ℕ
get_console_cols c = c.max_x / font_w

unfoldable pub get_console_rows : Console → ℕ
get_console_rows c = c.max_y / font_h
