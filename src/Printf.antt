-- ===== src/Printf.antt =====
-- `printf` and `puts` of libc/stdio. A string is the list of its bytes before the zero that ends
-- it, and the variable arguments are a list.
pub mod Render
pub mod Rounds
pub mod Types
pub mod Fitting
mod Tests
use simple_kernel.Base.{
  ℕ, zero, suc, ◌+◌, ◌-◌, ◌^◌, Option, none, some, Bool, true, false, List, [], ◌∷◌, ◌++◌, ltb,
  ◌==◌, if◌then◌else◌, length, u8,
}
use simple_kernel.Tty.{Terminal}
use simple_kernel.Print.{putchar}

abbrev pub int_max : ℕ
int_max = 2 ^ 31 - 1

pub data Argument : Type 0 where
  char : ℕ → Argument
  string : List ℕ → Argument

-- The value that `printf` returns, and the terminal then.
pub data Printed : Type 0 where
  written : ℕ → Terminal → Printed
  -- The return value -1.
  failed : Terminal → Printed

-- `print`, which always returns `true`, since no byte is `EOF`.
unfoldable pub print : List ℕ → Terminal → Terminal
print [] t = t
print (c ∷ bytes) t = print bytes (putchar c t).1

-- The bytes of a format up to the next percent sign, and the format from there on.
unfoldable pub plain : List ℕ → List ℕ
plain [] = []
plain (c ∷ rest) = if c == b'%' then [] else c ∷ plain rest

unfoldable pub from_percent : List ℕ → List ℕ
from_percent [] = []
from_percent (c ∷ rest) = if c == b'%' then c ∷ rest else from_percent rest

-- What the round of the loop at `%` or another byte `c` is about.
pub data Directive : Type 0 where
  -- `amount` bytes of the format, and the format behind them.
  literal : List ℕ → List ℕ → Directive
  one_char : List ℕ → Directive
  one_string : List ℕ → Directive
  -- Anything else: the rest of the format is printed as it stands.
  unknown : Directive

unfoldable pub directive : ℕ → List ℕ → Directive
directive c [] = if c == b'%' then unknown else literal (c ∷ []) []
directive c (d ∷ rest) =
    if c == b'%'
    then (if d == b'%'
        then literal (d ∷ plain rest) (from_percent rest)
        else if d == b'c'
        then one_char rest
        else if d == b's'
        then one_string rest
        else unknown)
    else literal (c ∷ plain (d ∷ rest)) (from_percent (d ∷ rest))

-- One `print` of `bytes`, guarded by the room that is left for the count.
unfoldable pub emit : List ℕ → ℕ → Terminal → Printed
emit bytes n t =
    if ltb (int_max - n) (length bytes)
    then failed t
    else written (n + length bytes) (print bytes t)

infixl 5 ◌>>=◌
abbrev pub ◌>>=◌ : Printed → (ℕ → Terminal → Option Printed) → Option Printed
written n t >>= k = k n t
failed t >>= k = some (failed t)

-- `none` where an argument is missing or of another type, which C leaves undefined, or where the
-- rounds run out.
unfoldable pub printf_rounds : ℕ → List ℕ → List Argument → ℕ → Terminal → Option Printed
printf_rounds left [] arguments n t = some (written n t)
printf_rounds zero (c ∷ format) arguments n t = none
printf_rounds (suc left) (c ∷ format) arguments n t = elim (directive c format) [
  | literal bytes rest ↦ emit bytes n t >>= printf_rounds left rest arguments
  | one_char rest ↦ elim arguments [
    | [] ↦ none
    | argument ∷ others ↦ elim argument [
      | char b ↦ emit (u8 b ∷ []) n t >>= printf_rounds left rest others
      | string bytes ↦ none
    ]
  ]
  | one_string rest ↦ elim arguments [
    | [] ↦ none
    | argument ∷ others ↦ elim argument [
      | char b ↦ none
      | string bytes ↦ emit bytes n t >>= printf_rounds left rest others
    ]
  ]
  | unknown ↦ emit (c ∷ format) n t >>= λ n' t'. some (written n' t')
]

-- Each round takes a byte of the format or more.
unfoldable pub printf : List ℕ → List Argument → Terminal → Option Printed
printf format arguments t = printf_rounds (length format) format arguments 0 t

unfoldable pub puts : List ℕ → Terminal → Option Printed
puts str t = printf (b'%' ∷ b's' ∷ b'\n' ∷ []) (string str ∷ []) t
