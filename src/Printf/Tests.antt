-- ===== src/Printf/Tests.antt =====
-- The format "%s: %c%%" with a text and a letter.
use simple_kernel.Base.{ℕ, ◌<◌, ◌⊎◌, length, ◌≡◌, refl, arith, some, List, [], ◌∷◌, map, u8, codes}
use simple_kernel.Tty.{Terminal, terminal_write}
use simple_kernel.Printf.{Argument, char, string, Printed, written, printf, int_max}
use simple_kernel.Printf.Render.{render}
use simple_kernel.Printf.Types.{Fits, wants}
use simple_kernel.Printf.Fitting.{printf-Fits}
use simple_kernel.Printf.Rounds.{printf-render}

abbrev home : Terminal
home = record { row = 0; column = 0; color = 7; buffer = λ j. 0 }

abbrev arguments : List Argument
arguments = string (codes "load") ∷ char b'7' ∷ []

shown : render (codes "%s: %c%%") arguments ≡ some (codes "load: 7%")
unfolding render
shown = refl

printf-render_example :
    printf (codes "%s: %c%%") arguments home
    ≡ some (written 8 (terminal_write (map u8 (codes "load: 7%")) home))
printf-render_example =
    printf-render (codes "%s: %c%%") arguments home (codes "load: 7%") shown (omega arith)

typed : Fits (wants (codes "%s: %c%%")) arguments
unfolding wants
typed = (refl, (refl, tt))

printf-Fits_example :
    (text : List ℕ) × (p : Printed) × (render (codes "%s: %c%%") arguments ≡ some text)
    × (printf (codes "%s: %c%%") arguments home ≡ some p)
    × ((int_max < length text) ⊎ (p ≡ written (length text) (terminal_write (map u8 text) home)))
printf-Fits_example = printf-Fits (codes "%s: %c%%") arguments home typed
