-- ===== src/Printf/Types.antt =====
-- The types of the arguments that a format takes, and that `printf` does not go wrong on them.
use simple_kernel.Base.{
  ℕ, zero, suc, ◌-◌, ◌≤◌, ◌≡◌, refl, inl, inr, sym, ◌∙◌, subst, arith, Option, some, Bool-cases,
  true, false, List, [], ◌∷◌, ltb, ◌==◌, length,
}
use simple_kernel.Tty.{Terminal}
use simple_kernel.Printf.{
  Argument, char, string, Printed, written, failed, directive, plain, from_percent, emit,
  printf_rounds, printf, int_max, ◌>>=◌,
}
use simple_kernel.Printf.Render.{length-from_percent}

pub data Kind : Type 0 where
  character text : Kind

abbrev pub kind : Argument → Kind
kind (char b) = character
kind (string bytes) = text

-- The types that the conversions of a format ask for, in order; from a conversion that is not known
-- on the format asks for nothing.
unfoldable pub wants : List ℕ → List Kind
wants [] = []
wants (c ∷ []) = []
wants (c ∷ d ∷ rest) = elim (c == b'%') [
  | false ↦ wants (d ∷ rest)
  | true ↦ elim (d == b'%') [
    | true ↦ wants rest
    | false ↦ elim (d == b'c') [
      | true ↦ character ∷ wants rest
      | false ↦ elim (d == b's') [ true ↦ text ∷ wants rest | false ↦ [] ]
    ]
  ]
]

-- The arguments begin with ones of those types.
abbrev pub Fits : List Kind → List Argument → Type 0
Fits [] arguments = Unit {0}
Fits (k ∷ kinds) [] = ⊥
Fits (k ∷ kinds) (a ∷ arguments) = (kind a ≡ k) × Fits kinds arguments

pub wants-ordinary : (c : ℕ) (rest : List ℕ) → (c == b'%') ≡ false → wants (c ∷ rest) ≡ wants rest
unfolding wants
wants-ordinary c [] h = refl
wants-ordinary c (d ∷ rest) h = rw (h, wants) refl

wants-from_percent : (rest : List ℕ) → wants (from_percent rest) ≡ wants rest
unfolding from_percent
wants-from_percent [] = refl
wants-from_percent (c ∷ rest) = elim (Bool-cases (c == b'%')) [
  | inl percent ↦ rw percent refl
  | inr ordinary ↦ rw ordinary (wants-from_percent rest ∙ sym (wants-ordinary c rest ordinary))
]

abbrev Ends : Option Printed → Type 0
Ends r = (p : Printed) × (r ≡ some p)

Ends-emit :
    (bytes : List ℕ) (n : ℕ) (t : Terminal) (k : ℕ → Terminal → Option Printed)
    → ((n' : ℕ) (t' : Terminal) → Ends (k n' t'))
    → Ends (emit bytes n t >>= k)
unfolding emit
Ends-emit bytes n t k next = elim (Bool-cases (ltb (int_max - n) (length bytes))) [
  | inl long ↦ (failed t, rw long refl)
  | inr fits ↦ rw fits (next _ _)
]

-- The rest of a format is printed by `left` rounds.
abbrev Rounds : ℕ → Type 0
Rounds left =
    (format : List ℕ) (arguments : List Argument) (n : ℕ) (t : Terminal)
    → length format ≤ left
    → Fits (wants format) arguments
    → Ends (printf_rounds left format arguments n t)

module _ (left : ℕ) (rounds : Rounds left) (n : ℕ) (t : Terminal) where
  Ends-round :
      (bytes rest : List ℕ) (arguments : List Argument)
      → length rest ≤ left
      → Fits (wants rest) arguments
      → Ends (emit bytes n t >>= printf_rounds left rest arguments)
  Ends-round bytes rest arguments short fits =
      Ends-emit bytes n t (printf_rounds left rest arguments)
        (λ n' t'. rounds rest arguments n' t' short fits)

  Ends-ordinary :
      (c : ℕ) (rest : List ℕ) (arguments : List Argument)
      → (c == b'%') ≡ false
      → length rest ≤ left
      → Fits (wants (c ∷ rest)) arguments
      → Ends (printf_rounds (suc left) (c ∷ rest) arguments n t)
  unfolding printf_rounds directive
  Ends-ordinary c [] arguments ordinary short fits =
      rw (ordinary, printf_rounds, directive)
        (Ends-round (c ∷ []) [] arguments short
          (subst (λ k. Fits k arguments) (wants-ordinary c [] ordinary) fits))
  Ends-ordinary c (d ∷ rest) arguments ordinary short fits =
      rw (ordinary, printf_rounds, directive)
        (Ends-round (c ∷ plain (d ∷ rest)) (from_percent (d ∷ rest)) arguments
          (omega (arith, length-from_percent (d ∷ rest)))
          (subst (λ k. Fits k arguments)
            (wants-ordinary c (d ∷ rest) ordinary ∙ sym (wants-from_percent (d ∷ rest))) fits))

  module _ (c d : ℕ) (rest : List ℕ) (percent : (c == b'%') ≡ true)
      (short : length rest ≤ left) where
    Ends-percent :
        (arguments : List Argument)
        → (d == b'%') ≡ true
        → Fits (wants (c ∷ d ∷ rest)) arguments
        → Ends (printf_rounds (suc left) (c ∷ d ∷ rest) arguments n t)
    unfolding printf_rounds directive wants
    Ends-percent arguments double fits =
        let asked : wants (c ∷ d ∷ rest) ≡ wants rest = rw (percent, double, wants) refl in
        rw (percent, double, printf_rounds, directive)
          (Ends-round (d ∷ plain rest) (from_percent rest) arguments
            (omega (arith, length-from_percent rest))
            (subst (λ k. Fits k arguments) (asked ∙ sym (wants-from_percent rest)) fits))

    module _ (single : (d == b'%') ≡ false) where
      Ends-character :
          (arguments : List Argument)
          → (d == b'c') ≡ true
          → Fits (character ∷ wants rest) arguments
          → Ends (printf_rounds (suc left) (c ∷ d ∷ rest) arguments n t)
      unfolding printf_rounds directive
      Ends-character [] letter fits = absurd fits
      Ends-character (string bytes ∷ others) letter (e, fits) = cc
      Ends-character (char b ∷ others) letter (e, fits) =
          rw (percent, single, letter, printf_rounds, directive)
            (Ends-round _ rest others short fits)

      Ends-text :
          (arguments : List Argument)
          → (d == b'c') ≡ false
          → (d == b's') ≡ true
          → Fits (text ∷ wants rest) arguments
          → Ends (printf_rounds (suc left) (c ∷ d ∷ rest) arguments n t)
      unfolding printf_rounds directive
      Ends-text [] other letter fits = absurd fits
      Ends-text (char b ∷ others) other letter (e, fits) = cc
      Ends-text (string bytes ∷ others) other letter (e, fits) =
          rw (percent, single, other, letter, printf_rounds, directive)
            (Ends-round bytes rest others short fits)

      Ends-unknown :
          (arguments : List Argument)
          → (d == b'c') ≡ false
          → (d == b's') ≡ false
          → Ends (printf_rounds (suc left) (c ∷ d ∷ rest) arguments n t)
      unfolding printf_rounds directive
      Ends-unknown arguments other letter =
          rw (percent, single, other, letter, printf_rounds, directive)
            (Ends-emit (c ∷ d ∷ rest) n t (λ n' t'. some (written n' t'))
              (λ n' t'. (written n' t', refl)))

  Ends-lone :
      (c : ℕ) (arguments : List Argument)
      → (c == b'%') ≡ true
      → Ends (printf_rounds (suc left) (c ∷ []) arguments n t)
  unfolding printf_rounds directive
  Ends-lone c arguments percent =
      rw (percent, printf_rounds, directive)
        (Ends-emit (c ∷ []) n t (λ n' t'. some (written n' t')) (λ n' t'. (written n' t', refl)))

  Ends-directive :
      (c : ℕ) (rest : List ℕ) (arguments : List Argument)
      → (c == b'%') ≡ true
      → length rest ≤ left
      → Fits (wants (c ∷ rest)) arguments
      → Ends (printf_rounds (suc left) (c ∷ rest) arguments n t)
  unfolding wants
  Ends-directive c [] arguments percent short fits = Ends-lone c arguments percent
  Ends-directive c (d ∷ rest) arguments percent short fits =
      let given = λ (kinds : List Kind) (e : wants (c ∷ d ∷ rest) ≡ kinds).
        subst (λ k. Fits k arguments) e fits in
      elim (Bool-cases (d == b'%')) [
        | inl double ↦ Ends-percent c d rest percent (omega arith) arguments double fits
        | inr single ↦ elim (Bool-cases (d == b'c')) [
          | inl letter ↦
              Ends-character c d rest percent (omega arith) single arguments letter
                (given (character ∷ wants rest) (rw (percent, single, letter, wants) refl))
          | inr other ↦ elim (Bool-cases (d == b's')) [
            | inl letter ↦
                Ends-text c d rest percent (omega arith) single arguments other letter
                  (given (text ∷ wants rest) (rw (percent, single, other, letter, wants) refl))
            | inr letter ↦ Ends-unknown c d rest percent (omega arith) single arguments other letter
          ]
        ]
      ]

  Ends-any :
      (c : ℕ) (rest : List ℕ) (arguments : List Argument)
      → length rest ≤ left
      → Fits (wants (c ∷ rest)) arguments
      → Ends (printf_rounds (suc left) (c ∷ rest) arguments n t)
  Ends-any c rest arguments short fits = elim (Bool-cases (c == b'%')) [
    | inr ordinary ↦ Ends-ordinary c rest arguments ordinary short fits
    | inl percent ↦ Ends-directive c rest arguments percent short fits
  ]

rounds_lem : (left : ℕ) → Rounds left
unfolding printf_rounds
rounds_lem left [] arguments n t short fits = (written n t, refl)
rounds_lem zero (c ∷ rest) arguments n t short fits = absurd (omega arith)
rounds_lem (suc left) (c ∷ rest) arguments n t short fits =
    Ends-any left (rounds_lem left) n t c rest arguments (omega arith) fits

pub printf-Ends :
    (format : List ℕ) (arguments : List Argument) (t : Terminal)
    → Fits (wants format) arguments
    → (p : Printed) × (printf format arguments t ≡ some p)
unfolding printf
printf-Ends format arguments t fits =
    rounds_lem (length format) format arguments 0 t (omega arith) fits
