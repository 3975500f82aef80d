-- ===== src/Print/Decimal.antt =====
-- `iprint` prints the decimal digits of its number.
use simple_kernel.Base.{
  ℕ, zero, suc, ◌+◌, ◌-◌, ◌*◌, ◌/◌, ◌^◌, ◌≤◌, ◌<◌, ◌≡◌, ◌≢◌, ◌⊎◌, inl, inr, refl, sym, ap, ◌∙◌,
  arith, some, List, [], ◌∷◌, ◌++◌, Bool-cases, ltb, length, length-append, true, false,
}
use simple_kernel.Tty.{Terminal, terminal_putchar, terminal_write}
use simple_kernel.Print.{iprint_rounds, iprint, digit_rounds}

-- The number that a row of digits stands for, after digits that stand for `acc`.
abbrev pub number_from : ℕ → List ℕ → ℕ
number_from acc [] = acc
number_from acc (c ∷ text) = number_from (acc * 10 + (c - b'0')) text

abbrev pub AllDigits : List ℕ → Type 0
AllDigits [] = Unit {0}
AllDigits (c ∷ text) = ((b'0' ≤ c) × (c ≤ b'9')) × AllDigits text

abbrev pub first : List ℕ → ℕ
first [] = b'0'
first (c ∷ text) = c

-- The usual decimal print of `n`: digits that stand for it, with no zero before them.
pub record IsDecimal (n : ℕ) (text : List ℕ) : Type 0 where
  pub digits : AllDigits text
  pub number : number_from 0 text ≡ n
  pub leading : (first text ≢ b'0') ⊎ (text ≡ b'0' ∷ [])

number_from-append :
    (acc : ℕ) (xs : List ℕ) (c : ℕ)
    → number_from acc (xs ++ c ∷ []) ≡ number_from acc xs * 10 + (c - b'0')
number_from-append acc [] c = refl
number_from-append acc (x ∷ xs) c = number_from-append (acc * 10 + (x - b'0')) xs c

AllDigits-append :
    (xs : List ℕ) (c : ℕ) → AllDigits xs → b'0' ≤ c → c ≤ b'9' → AllDigits (xs ++ c ∷ [])
AllDigits-append [] c h lo hi = ((lo, hi), tt)
AllDigits-append (x ∷ xs) c (head, rest) lo hi = (head, AllDigits-append xs c rest lo hi)

first-append : (xs : List ℕ) (c : ℕ) → first xs ≢ b'0' → first (xs ++ c ∷ []) ≢ b'0'
first-append [] c h = absurd (h refl)
first-append (x ∷ xs) c h = h

pub terminal_write-append :
    (xs ys : List ℕ) (t : Terminal)
    → terminal_write (xs ++ ys) t ≡ terminal_write ys (terminal_write xs t)
unfolding terminal_write
terminal_write-append [] ys t = refl
terminal_write-append (x ∷ xs) ys t = terminal_write-append xs ys (terminal_putchar x t)

terminal_write_one : (c : ℕ) (t : Terminal) → terminal_write (c ∷ []) t ≡ terminal_putchar c t
unfolding terminal_write
terminal_write_one c t = refl

abbrev power_of_ten : ℕ → ℕ
power_of_ten zero = 1
power_of_ten (suc k) = 10 * power_of_ten k

abbrev Prints : ℕ → ℕ → List ℕ → Type 0
Prints left n text = (t : Terminal) → iprint_rounds left n t ≡ some (terminal_write text t)

-- One digit.
IsDecimal-digit : (n : ℕ) → n ≤ 9 → IsDecimal n ((b'0' + n) ∷ [])
IsDecimal-digit n h = record {
  digits = ((omega arith, omega arith), tt);
  number = omega arith;
  leading = ground arith;
}

-- A further digit behind those of a number that is not zero.
IsDecimal-append :
    (n c : ℕ) (text : List ℕ)
    → 9 < n
    → c ≡ b'0' + (n - 10 * (n / 10))
    → IsDecimal (n / 10) text
    → IsDecimal n (text ++ c ∷ [])
IsDecimal-append n c text large e decimal = record {
  digits = AllDigits-append text c decimal.digits (omega arith) (omega arith);
  number = omega (arith, number_from-append 0 text c, decimal.number);
  leading = elim decimal.leading [
    | inl h ↦ inl (first-append text c h)
    | inr zero_text ↦
        let zero_number : n / 10 ≡ 0 = sym decimal.number ∙ ap (number_from 0) zero_text in
        absurd (omega arith)
  ];
}

iprint_rounds-small :
    (left n : ℕ) (t : Terminal)
    → ltb 9 n ≡ false
    → iprint_rounds (suc left) n t ≡ some (terminal_write ((b'0' + n) ∷ []) t)
unfolding iprint_rounds
iprint_rounds-small left n t h =
    rw (h, iprint_rounds) (ap some (sym (terminal_write_one (b'0' + n) t)))

iprint_rounds-large :
    (left n : ℕ) (t : Terminal) (text : List ℕ)
    → ltb 9 n ≡ true
    → iprint_rounds left (n / 10) t ≡ some (terminal_write text t)
    → iprint_rounds (suc left) n t
      ≡ some (terminal_write (text ++ (b'0' + (n - 10 * (n / 10))) ∷ []) t)
unfolding iprint_rounds
iprint_rounds-large left n t text h e =
    let c : ℕ = b'0' + (n - 10 * (n / 10)) in
    rw (h, e, iprint_rounds)
      (ap some (
        sym (terminal_write-append text (c ∷ []) t ∙ terminal_write_one c (terminal_write text t))))

iprint_rounds_lem :
    (left n : ℕ)
    → n < power_of_ten left
    → 0 < left
    → (text : List ℕ) × Prints left n text × IsDecimal n text × (length text ≤ left)
iprint_rounds_lem zero n h pos = absurd (omega arith)
iprint_rounds_lem (suc left) n h pos = elim (Bool-cases (ltb 9 n)) [
  | inr small ↦ (
    (b'0' + n) ∷ [],
    λ t. iprint_rounds-small left n t small,
    IsDecimal-digit n (ground arith),
    omega arith,
  )
  | inl large ↦
      let (text, prints, decimal, short) =
        iprint_rounds_lem left (n / 10) (omega arith) (ground arith) in
      (
        text ++ (b'0' + (n - 10 * (n / 10))) ∷ [],
        λ t. iprint_rounds-large left n t text large (prints t),
        IsDecimal-append n _ text (ground arith) refl decimal,
        omega (arith, length-append text ((b'0' + (n - 10 * (n / 10))) ∷ [])),
      )
]

-- `iprint` of a 64-bit number ends and writes its decimal digits, 20 at most.
pub iprint_lem :
    (n : ℕ) (t : Terminal)
    → n < 2 ^ 64
    → (text : List ℕ) × (iprint n t ≡ some (terminal_write text t))
      × IsDecimal n text
      × (length text ≤ 20)
unfolding iprint
iprint_lem n t h =
    let (text, prints, decimal, short) =
      iprint_rounds_lem digit_rounds n (omega arith) (omega arith) in
    (text, prints t, decimal, short)
