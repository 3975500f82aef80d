-- ===== src/Printf/Fitting.antt =====
-- `printf` on arguments of the types that its format asks for.
use mathlib.Core.Option.{some-injective}
use simple_kernel.Base.{
  ℕ, zero, suc, ◌≤◌, ◌<◌, ◌≡◌, ◌⊎◌, leb, refl, inl, inr, ap, sym, ◌∙◌, subst, arith, some,
  Bool-cases, true, false, List, [], ◌∷◌, ◌++◌, map, ◌==◌, length, u8,
}
use simple_kernel.Tty.{Terminal, terminal_write}
use simple_kernel.Printf.{Argument, char, string, Printed, written, printf, int_max}
use simple_kernel.Printf.Render.{render, prefix}
use simple_kernel.Printf.Rounds.{printf-render}
use simple_kernel.Printf.Types.{Kind, character, text, wants, Fits, printf-Ends}

-- The arguments are enough for the format's text.
abbrev Shows : List ℕ → List Argument → Type 0
Shows format arguments = (shown : List ℕ) × (render format arguments ≡ some shown)

module _ (c d : ℕ) (rest : List ℕ)
    (rounds : (arguments : List Argument) → Fits (wants rest) arguments → Shows rest arguments)
    (percent : (c == b'%') ≡ true) (single : (d == b'%') ≡ false) where
  Shows-character :
      (arguments : List Argument)
      → (d == b'c') ≡ true
      → Fits (character ∷ wants rest) arguments
      → Shows (c ∷ d ∷ rest) arguments
  unfolding render
  Shows-character [] letter fits = absurd fits
  Shows-character (string bytes ∷ others) letter (e, fits) = cc
  Shows-character (char b ∷ others) letter (e, fits) =
      let (shown, e') = rounds others fits in
      (u8 b ∷ shown, rw (percent, single, letter, render) (ap (prefix (u8 b ∷ [])) e'))

  Shows-text :
      (arguments : List Argument)
      → (d == b'c') ≡ false
      → (d == b's') ≡ true
      → Fits (text ∷ wants rest) arguments
      → Shows (c ∷ d ∷ rest) arguments
  unfolding render
  Shows-text [] other letter fits = absurd fits
  Shows-text (char b ∷ others) other letter (e, fits) = cc
  Shows-text (string bytes ∷ others) other letter (e, fits) =
      let (shown, e') = rounds others fits in
      (bytes ++ shown, rw (percent, single, other, letter, render) (ap (prefix bytes) e'))

Fits-Shows :
    (left : ℕ) (format : List ℕ) (arguments : List Argument)
    → length format ≤ left
    → Fits (wants format) arguments
    → Shows format arguments
unfolding wants render
Fits-Shows left [] arguments short fits = ([], refl)
Fits-Shows left (c ∷ []) arguments short fits = (c ∷ [], refl)
Fits-Shows zero (c ∷ d ∷ rest) arguments short fits = absurd (omega arith)
Fits-Shows (suc left) (c ∷ d ∷ rest) arguments short fits =
    let given = λ (kinds : List Kind) (e : wants (c ∷ d ∷ rest) ≡ kinds).
      subst (λ k. Fits k arguments) e fits in
    let rounds =
      λ (a : List Argument) (f : Fits (wants rest) a). Fits-Shows left rest a (omega arith) f in
    elim (Bool-cases (c == b'%')) [
      | inr ordinary ↦
          let (shown, e) =
            Fits-Shows left (d ∷ rest) arguments (omega arith)
              (given (wants (d ∷ rest)) (rw (ordinary, wants) refl)) in
          (c ∷ shown, rw (ordinary, render) (ap (prefix (c ∷ [])) e))
      | inl percent ↦ elim (Bool-cases (d == b'%')) [
        | inl double ↦
            let (shown, e) =
              rounds arguments (given (wants rest) (rw (percent, double, wants) refl)) in
            (d ∷ shown, rw (percent, double, render) (ap (prefix (d ∷ [])) e))
        | inr single ↦ elim (Bool-cases (d == b'c')) [
          | inl letter ↦
              Shows-character c d rest rounds percent single arguments letter
                (given (character ∷ wants rest) (rw (percent, single, letter, wants) refl))
          | inr other ↦ elim (Bool-cases (d == b's')) [
            | inl letter ↦
                Shows-text c d rest rounds percent single arguments other letter
                  (given (text ∷ wants rest) (rw (percent, single, other, letter, wants) refl))
            | inr letter ↦ (c ∷ d ∷ rest, rw (percent, single, other, letter, render) refl)
          ]
        ]
      ]
    ]

-- Where the arguments begin with ones of the types that a format asks for, the format and they have
-- a text, and `printf` ends: it takes no argument of another type and none that is not there. If the
-- text has `INT_MAX` bytes at most, `printf` writes them and returns how many they are.
pub printf-Fits :
    (format : List ℕ) (arguments : List Argument) (t : Terminal)
    → Fits (wants format) arguments
    → (shown : List ℕ) × (p : Printed) × (render format arguments ≡ some shown)
      × (printf format arguments t ≡ some p)
      × ((int_max < length shown) ⊎ (p ≡ written (length shown) (terminal_write (map u8 shown) t)))
printf-Fits format arguments t fits =
    let (shown, e) = Fits-Shows (length format) format arguments (omega arith) fits in
    let (p, run) = printf-Ends format arguments t fits in
    (
      shown,
      p,
      e,
      run,
      elim (Bool-cases (leb (length shown) int_max)) [
        | inl room ↦ inr (
            some-injective _ _
              (sym run ∙ printf-render format arguments t shown e (ground (arith, room))))
        | inr long ↦ inl (ground (arith, long))
      ],
    )
