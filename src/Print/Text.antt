-- ===== src/Print/Text.antt =====
-- `terminal_writestring` on a text in memory.
use simple_kernel.Base.{ℕ, ◌^◌, ◌<◌, ◌≡◌, refl, some}
use simple_kernel.Memory.{Memory}
use simple_kernel.Strings.{IsText, strlen_lem}
use simple_kernel.Tty.{Terminal, terminal_write}
use simple_kernel.Print.{load_bytes, terminal_writestring}

-- `terminal_writestring` of a text in memory ends and writes the bytes before its zero, in order.
pub terminal_writestring_lem :
    (m : Memory) (p n : ℕ) (t : Terminal)
    → IsText m p n
    → n < 2 ^ 32
    → terminal_writestring m p t ≡ some (terminal_write (load_bytes m p n) t)
unfolding terminal_writestring
terminal_writestring_lem m p n t text h = rw (strlen_lem m p n text h) refl
