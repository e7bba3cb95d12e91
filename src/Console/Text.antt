-- ===== src/Console/Text.antt =====
-- Whole strings on the console of kernel/console.c.
use test_os.Base.{
  ℕ, ◌+◌, ◌-◌, ◌*◌, ◌/◌, ◌^◌, ◌≤◌, ◌<◌, ◌≡◌, refl, arith, true, List, [], ◌∷◌, ◌==◌, if◌then◌else◌,
  inl, inr, Bool-cases,
}
use test_os.Console.{
  Console, Draw, draw, font_w, font_h, console_back_force, console_roll, move_back, console_char,
  console_chars, console_out, init_console, get_console_cols, get_console_rows,
}
use test_os.Console.Cells.{
  Cell, feed, go_to, back, IsNear, console_cur-IsNear, console_roll-IsNear, console_tab-IsNear,
  move_back-IsNear, console_put-IsNear,
}

-- What a terminal of `cols` by `rows` cells makes of one character.
unfoldable pub step : ℕ → ℕ → Cell → ℕ → Cell
step cols rows p n =
    if n == b'\n'
    then feed rows p
    else if n == b'\t'
    then go_to cols rows ((p.col / 4 + 1) * 4) p
    else if n == console_back_force
    then back cols p
    else if n == 8
    then record p { col = p.col - 1 }
    else if n == 13
    then record p { col = 0 }
    else go_to cols rows (p.col + 1) p

-- The text `text`, one character after the other.
unfoldable pub steps : ℕ → ℕ → Cell → List ℕ → Cell
steps cols rows p [] = p
steps cols rows p (n ∷ text) = steps cols rows (step cols rows p n) text

-- The console has `cols` by `rows` cells, and its cursor is the cell `p` of them.
pub record IsAt (cols rows : ℕ) (c : Console) (p : Cell) : Type 0 where
  pub near : IsNear cols rows c (p.col * font_w) (p.row * font_h)
  pub in_line : p.col < cols
  pub in_screen : p.row < rows

step-inside :
    (cols rows : ℕ) (p : Cell) (n : ℕ)
    → p.col < cols
    → p.row < rows
    → ((step cols rows p n).col < cols) × ((step cols rows p n).row < rows)
unfolding step
step-inside cols rows p n inside lt = (ground arith, ground arith)

module _ (cols rows : ℕ) (low : cols * font_w < 2 ^ 31) (low_y : rows * font_h < 2 ^ 31) where
  console_char-IsNear :
      (n : ℕ) (c : Console) (p : Cell)
      → p.col < cols
      → p.row < rows
      → IsNear cols rows c (p.col * font_w) (p.row * font_h)
      → IsNear cols rows
          (console_char c n)
          ((step cols rows p n).col * font_w)
          ((step cols rows p n).row * font_h)
  unfolding console_char step IsNear
  console_char-IsNear n c p inside lt near =
      let wide : 0 < cols = omega arith in
      elim (Bool-cases (n == b'\n')) [
        | inl e ↦ rw e (
            console_cur-IsNear cols rows true true (console_roll c) _ _
              (console_roll-IsNear cols rows wide low low_y c (p.col * font_w) p.row lt near))
        | inr ne ↦ elim (Bool-cases (n == b'\t')) [
          | inl e ↦ rw (ne, e) (console_tab-IsNear cols rows wide low low_y c p inside lt near)
          | inr ne2 ↦ elim (Bool-cases (n == console_back_force)) [
            | inl e ↦
                rw (ne, ne2, e)
                  (console_cur-IsNear cols rows true true (move_back c) _ _
                    (move_back-IsNear cols rows wide low low_y c p inside lt near))
            | inr ne3 ↦ elim (Bool-cases (n == 8)) [
              | inl e ↦
                  rw (ne, ne2, ne3, e)
                    (
                      ground (arith, near),
                      ground (arith, near),
                      ground (arith, near),
                      ground (arith, near),
                    )
              | inr ne4 ↦ elim (Bool-cases (n == 13)) [
                | inl e ↦
                    rw (ne, ne2, ne3, ne4, e)
                      (console_cur-IsNear cols rows true true (record c { x = 0 }) _ _
                        (omega arith, near.1, near.2, near.3))
                | inr ne5 ↦
                    rw (ne, ne2, ne3, ne4, ne5)
                      (console_put-IsNear cols rows wide low low_y n c p inside lt near)
              ]
            ]
          ]
        ]
      ]

  console_chars-IsAt :
      (text : List ℕ) (c : Console) (p : Cell)
      → IsAt cols rows c p
      → IsAt cols rows (console_chars text c) (steps cols rows p text)
  unfolding console_chars steps
  console_chars-IsAt [] c p h = h
  console_chars-IsAt (n ∷ text) c p h =
      let inside = step-inside cols rows p n h.in_line h.in_screen in
      console_chars-IsAt text (console_char c n) (step cols rows p n) (record {
        near = console_char-IsNear n c p h.in_line h.in_screen h.near;
        in_line = inside.0;
        in_screen = inside.1;
      })

-- On a screen of less than 2 ^ 31 dots either way, `console_out` moves the cursor as the terminal of
-- `cols` by `rows` cells does for every text, and leaves it inside the screen.
pub console_out-IsAt :
    (cols rows : ℕ) (c : Console) (p : Cell) (text : List ℕ) (color background : ℕ)
    → cols * font_w < 2 ^ 31
    → rows * font_h < 2 ^ 31
    → IsAt cols rows c p
    → IsAt cols rows (console_out text color background c) (steps cols rows p text)
unfolding console_out IsNear
console_out-IsAt cols rows c p text color background low low_y h =
    elim (Bool-cases (color == background)) [
      | inl same ↦ rw same (console_chars-IsAt cols rows low low_y text c p h)
      | inr other ↦ rw other (
          console_chars-IsAt cols rows low low_y text (draw (Draw.set_color color background) c) p
            (record {
              near = (h.near.0, h.near.1, h.near.2, h.near.3);
              in_line = h.in_line;
              in_screen = h.in_screen;
            }))
    ]

-- On a screen with room for a character, `init_console`, up to its version text, puts the cursor into the first cell, and the
-- numbers of columns and rows that the console reports are those of the whole characters that fit.
pub init_console-IsAt :
    (width height : ℕ) (c : Console)
    → font_w ≤ width
    → font_h ≤ height
    → IsAt
        (get_console_cols (init_console width height c))
        (get_console_rows (init_console width height c))
        (init_console width height c)
        (record { col = 0; row = 0 })
      × (get_console_cols (init_console width height c) ≡ width / font_w)
      × (get_console_rows (init_console width height c) ≡ height / font_h)
unfolding init_console get_console_cols get_console_rows IsNear
init_console-IsAt width height c wide high = (
  record {
    near = (refl, refl, omega arith, omega arith);
    in_line = omega arith;
    in_screen = omega arith;
  },
  omega arith,
  omega arith,
)
