-- ===== src/Console/Examples.antt =====
-- Runs of the console, and the theorems about it on a screen of 10 by 3 characters.
use test_os.Base.{◌≡◌, refl, arith, ◌∷◌, ◌++◌, codes}
use test_os.Console.{Console, console_static, console_out}
use test_os.Console.Cells.{IsNear}
use test_os.Console.Text.{steps, step, IsAt, console_out-IsAt}

abbrev screen : Console
screen = record console_static { width = 80; height = 50; max_x = 80; max_y = 48; y = 32; x = 16 }

screen-IsAt : IsAt 10 3 screen (record { col = 2; row = 2 })
unfolding IsNear
screen-IsAt = record {
  near = (refl, refl, refl, refl);
  in_line = omega arith;
  in_screen = omega arith;
}

-- A tabulator that finds no stop left goes to the next line.
tab_at_end :
    steps 10 3 (record { col = 0; row = 0 }) (codes "12345678" ++ (b'\t' ∷ codes "x"))
    ≡ record { col = 1; row = 1 }
unfolding steps step
tab_at_end = refl

console_out-IsAt_example :
    IsAt 10 3
      (console_out (codes "12345678" ++ (b'\t' ∷ codes "x")) 0 1 screen)
      (steps 10 3 (record { col = 2; row = 2 }) (codes "12345678" ++ (b'\t' ∷ codes "x")))
console_out-IsAt_example =
    console_out-IsAt 10 3 screen (record { col = 2; row = 2 })
      (codes "12345678" ++ (b'\t' ∷ codes "x")) 0 1 (omega arith) (omega arith) screen-IsAt
