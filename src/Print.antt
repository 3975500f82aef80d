-- ===== src/Print.antt =====
-- Output above the terminal: `terminal_writestring` of kernel/arch/i386/tty.c, `iprint` of
-- kernel/arch/i386/mem.c and `putchar` of libc/stdio.
pub mod Decimal
pub mod Text
mod Tests
use simple_kernel.Base.{
  ℕ, zero, suc, ◌+◌, ◌-◌, ◌*◌, ◌/◌, ◌%◌, ◌^◌, Option, none, some, true, false, List, [], ◌∷◌, ltb,
  u8,
}
use simple_kernel.Memory.{Memory, load8}
use simple_kernel.Strings.{strlen}
use simple_kernel.Tty.{Terminal, terminal_putchar, terminal_write}

infixl 5 ◌>>=◌
abbrev pub ◌>>=◌ : {A B : Type 0} → Option A → (A → Option B) → Option B
none >>= k = none
some x >>= k = k x

-- The `size` bytes from `p` on.
unfoldable pub load_bytes : Memory → ℕ → ℕ → List ℕ
load_bytes m p zero = []
load_bytes m p (suc size) = load8 m p ∷ load_bytes m (p + 1) size

-- `none` if no zero byte ends the string.
unfoldable pub terminal_writestring : Memory → ℕ → Terminal → Option Terminal
terminal_writestring m text t = do
  size ← strlen m text
  some (terminal_write (load_bytes m text size) t)

-- A number of 64 bits has 20 digits at most.
abbrev pub digit_rounds : ℕ
digit_rounds = 20

unfoldable pub iprint_rounds : ℕ → ℕ → Terminal → Option Terminal
iprint_rounds zero n t = none
iprint_rounds (suc left) n t = elim (ltb 9 n) [
  | true ↦ do
    let a = n / 10
    t' ← iprint_rounds left a t
    some (terminal_putchar (b'0' + (n - 10 * a)) t')
  | false ↦ some (terminal_putchar (b'0' + n) t)
]

unfoldable pub iprint : ℕ → Terminal → Option Terminal
iprint n t = iprint_rounds digit_rounds n t

-- The result is never `EOF`, which is negative.
unfoldable pub putchar : ℕ → Terminal → ℕ × Terminal
putchar ca t = (ca, terminal_write (u8 ca ∷ []) t)
