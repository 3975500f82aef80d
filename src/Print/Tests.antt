-- ===== src/Print/Tests.antt =====
-- A number of three digits.
use simple_kernel.Base.{ℕ, ◌≤◌, ◌≡◌, arith, some, List, length}
use simple_kernel.Tty.{Terminal, terminal_write}
use simple_kernel.Print.{iprint}
use simple_kernel.Print.Decimal.{IsDecimal, iprint_lem}

abbrev home : Terminal
home = record { row = 0; column = 0; color = 7; buffer = λ j. 0 }

iprint_lem_example :
    (text : List ℕ) × (iprint 407 home ≡ some (terminal_write text home))
    × IsDecimal 407 text
    × (length text ≤ 20)
iprint_lem_example = iprint_lem 407 home (omega arith)
