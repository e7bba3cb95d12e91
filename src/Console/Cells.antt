-- ===== src/Console/Cells.antt =====
-- The console of kernel/console.c as a terminal of character cells.
use test_os.Base.{
  ℕ, ◌+◌, ◌-◌, ◌*◌, ◌/◌, ◌%◌, ◌^◌, ◌<◌, ◌≡◌, refl, ◌∙◌, arith, Bool, true, false, ltb, leb, ◌==◌,
  if◌then◌else◌,
}
use native.Mathlib.Decide.{dec_lt}
use test_os.Console.{
  Console, font_w, font_h, word, Draw, draw, console_cur, scroll, console_roll, console_tab,
  console_wrap, move_back, console_put,
}

-- A terminal of `cols` by `rows` cells, and its cursor.
pub record Cell : Type 0 where
  pub col : ℕ
  pub row : ℕ

-- The start of the next line; the last line stays the last, for the text moves up.
abbrev pub feed : ℕ → Cell → Cell
feed rows p = record { col = 0; row = if ltb (p.row + 1) rows then p.row + 1 else p.row }

-- To the cell `col`, or to the next line if there is none.
abbrev pub go_to : ℕ → ℕ → ℕ → Cell → Cell
go_to cols rows col p = if ltb col cols then record p { col = col } else feed rows p

-- One cell back, over the start of the line too.
abbrev pub back : ℕ → Cell → Cell
back cols p =
    if p.col == 0
    then (if p.row == 0 then p else record { col = cols - 1; row = p.row - 1 })
    else record p { col = p.col - 1 }

-- The cursor and the size of two consoles are equal.
record Same (c d : Console) : Type 0 where
  same_x : c.x ≡ d.x
  same_y : c.y ≡ d.y
  same_max_x : c.max_x ≡ d.max_x
  same_max_y : c.max_y ≡ d.max_y

-- `console_cur` draws, and moves nothing.
console_cur-Same :
    (flush_old flush_new : Bool) (c : Console) → Same (console_cur flush_old flush_new c) c
unfolding console_cur
console_cur-Same false false c = record {
  same_x = refl;
  same_y = refl;
  same_max_x = refl;
  same_max_y = refl;
}
console_cur-Same false true c = record {
  same_x = refl;
  same_y = refl;
  same_max_x = refl;
  same_max_y = refl;
}
console_cur-Same true false c = record {
  same_x = refl;
  same_y = refl;
  same_max_x = refl;
  same_max_y = refl;
}
console_cur-Same true true c = record {
  same_x = refl;
  same_y = refl;
  same_max_x = refl;
  same_max_y = refl;
}

module _ (cols rows : ℕ) where
  -- `c` has its cursor at column `x` and line `y` in dots, and `cols` by `rows` cells.
  unfoldable pub IsNear : Console → ℕ → ℕ → Type 0
  IsNear c x y = (c.x ≡ x) × (c.y ≡ y) × (c.max_x ≡ cols * font_w) × (c.max_y ≡ rows * font_h)

  pub console_cur-IsNear :
      (flush_old flush_new : Bool) (c : Console) (x y : ℕ)
      → IsNear c x y
      → IsNear (console_cur flush_old flush_new c) x y
  unfolding IsNear
  console_cur-IsNear flush_old flush_new c x y (ex, ey, ew, eh) =
      let s = console_cur-Same flush_old flush_new c in
      (s.same_x ∙ ex, s.same_y ∙ ey, s.same_max_x ∙ ew, s.same_max_y ∙ eh)

  scroll-IsNear :
      (c : Console) (row : ℕ)
      → (row + 1) * font_h < 2 ^ 32
      → IsNear c 0 ((row + 1) * font_h)
      → IsNear (scroll c) 0 (row * font_h)
  unfolding scroll IsNear
  scroll-IsNear c row lt near =
      let (ex, ey, ew, eh) = console_cur-IsNear true false c 0 ((row + 1) * font_h) near in
      (ex, omega (arith, ey), ew, eh)

  module _ (wide : 0 < cols) (low : cols * font_w < 2 ^ 31) (low_y : rows * font_h < 2 ^ 31) where
    -- A roll from line `row`, wherever the cursor is in it.
    pub console_roll-IsNear :
        (c : Console) (x row : ℕ)
        → row < rows
        → IsNear c x (row * font_h)
        → IsNear (console_roll c) 0 ((if ltb (row + 1) rows then row + 1 else row) * font_h)
    unfolding console_roll IsNear
    console_roll-IsNear c x row lt (ex, ey, ew, eh) = elim (dec_lt (row + 1) rows) [
      | yes more ↦
          let stays : leb c.max_y ((row + 1) * font_h) ≡ false = ground (arith) in
          let line : ltb (row + 1) rows ≡ true = ground (arith) in
          rw (below, stays, line) (refl, refl, ew, eh)
      | no last ↦
          let over : leb c.max_y ((row + 1) * font_h) ≡ true = ground (arith) in
          let line : ltb (row + 1) rows ≡ false = ground (arith) in
          rw (below, over, line)
            (scroll-IsNear (record c { x = 0; y = (row + 1) * font_h }) row (omega arith)
              (refl, refl, ew, eh))
    ]
      where
        below : (c.y + font_h) % word ≡ (row + 1) * font_h
        below = omega arith

    console_wrap-IsNear :
        (flush_old : Bool) (c : Console) (col : ℕ) (p : Cell)
        → p.row < rows
        → IsNear c (col * font_w) (p.row * font_h)
        → IsNear
            (if leb c.max_x c.x then console_roll (console_cur flush_old false c) else c)
            ((go_to cols rows col p).col * font_w)
            ((go_to cols rows col p).row * font_h)
    unfolding IsNear console_wrap
    console_wrap-IsNear flush_old c col p lt near = elim (dec_lt col cols) [
      | yes more ↦
          let stays : leb c.max_x c.x ≡ false = ground (arith, near) in
          let fits : ltb col cols ≡ true = ground (arith) in rw (stays, fits) near
      | no last ↦
          let over : leb c.max_x c.x ≡ true = ground (arith, near) in
          let full : ltb col cols ≡ false = ground (arith) in
          rw (over, full)
            (console_roll-IsNear (console_cur flush_old false c) (col * font_w) p.row lt
              (console_cur-IsNear flush_old false c (col * font_w) (p.row * font_h) near))
    ]

    pub console_tab-IsNear :
        (c : Console) (p : Cell)
        → p.col < cols
        → p.row < rows
        → IsNear c (p.col * font_w) (p.row * font_h)
        → IsNear
            (console_tab c)
            ((go_to cols rows ((p.col / 4 + 1) * 4) p).col * font_w)
            ((go_to cols rows ((p.col / 4 + 1) * 4) p).row * font_h)
    unfolding console_tab IsNear
    console_tab-IsNear c p inside lt near =
        let stop = (p.col / 4 + 1) * 4 in
        let to : (c.x + (4 - c.x / font_w % 4) * font_w) % word ≡ stop * font_w =
          omega (arith, near.0) in
        let moved = record c { x = (c.x + (4 - c.x / font_w % 4) * font_w) % word } in
        console_cur-IsNear true true (console_wrap true moved) _ _
          (console_wrap-IsNear true moved stop p lt (to, near.1, near.2, near.3))

    pub console_put-IsNear :
        (n : ℕ) (c : Console) (p : Cell)
        → p.col < cols
        → p.row < rows
        → IsNear c (p.col * font_w) (p.row * font_h)
        → IsNear
            (console_put n c)
            ((go_to cols rows (p.col + 1) p).col * font_w)
            ((go_to cols rows (p.col + 1) p).row * font_h)
    unfolding console_put IsNear
    console_put-IsNear n c p inside lt near =
        let to : (c.x + font_w) % word ≡ (p.col + 1) * font_w = omega (arith, near.0) in
        let moved = record (draw (Draw.put_char n c.x c.y) c) { x = (c.x + font_w) % word } in
        console_cur-IsNear false true (console_wrap false moved) _ _
          (console_wrap-IsNear false moved (p.col + 1) p lt (to, near.1, near.2, near.3))

    pub move_back-IsNear :
        (c : Console) (p : Cell)
        → p.col < cols
        → p.row < rows
        → IsNear c (p.col * font_w) (p.row * font_h)
        → IsNear (move_back c) ((back cols p).col * font_w) ((back cols p).row * font_h)
    unfolding move_back IsNear
    move_back-IsNear c p inside lt near =
        (ground (arith, near), ground (arith, near), ground (arith, near), ground (arith, near))
