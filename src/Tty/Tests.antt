-- ===== src/Tty/Tests.antt =====
-- The terminal with its cursor in the last cell of the screen.
use simple_kernel.Base.{◌≡◌, arith, [], ◌∷◌}
use simple_kernel.Tty.{Terminal, terminal_putchar, terminal_write}
use simple_kernel.Tty.Cursor.{IsOnScreen, cursor, written, terminal_putchar_lem, terminal_write_lem}

abbrev at_corner : Terminal
at_corner = record { row = 24; column = 79; color = 7; buffer = λ j. j }

at_corner-IsOnScreen : IsOnScreen at_corner
at_corner-IsOnScreen = record { row_bound = omega arith; column_bound = omega arith }

terminal_putchar_lem_example :
    (cursor (terminal_putchar b'x' at_corner) ≡ 1920)
    × ((terminal_putchar b'x' at_corner).buffer 1919
        ≡ written b'x' at_corner at_corner-IsOnScreen 1999)
    × ((terminal_putchar b'x' at_corner).color ≡ 7)
terminal_putchar_lem_example = terminal_putchar_lem b'x' at_corner at_corner-IsOnScreen 1919

terminal_write_lem_example :
    IsOnScreen (terminal_write (b'o' ∷ b'k' ∷ []) at_corner)
    × ((terminal_write (b'o' ∷ b'k' ∷ []) at_corner).buffer 2000 ≡ 2000)
terminal_write_lem_example =
    terminal_write_lem (b'o' ∷ b'k' ∷ []) at_corner 2000 at_corner-IsOnScreen (omega arith)
