-- ===== src/Printf/Rounds.antt =====
-- The rounds of `printf` print what `render` gives.
use mathlib.Core.List.{append-nil}
use mathlib.Core.Option.{some-injective}
use simple_kernel.Base.{
  ℕ, zero, suc, ◌+◌, ◌≤◌, ◌≡◌, inl, inr, refl, sym, ap, ◌∙◌, subst, arith, none, some, Bool-cases,
  true, false, List, [], ◌∷◌, ◌++◌, map, ◌==◌, length, length-append, u8,
}
use simple_kernel.Tty.{Terminal, terminal_write}
use simple_kernel.Printf.{
  Argument, char, string, written, directive, plain, from_percent, emit, printf_rounds, printf,
  puts, int_max, ◌>>=◌,
}
use simple_kernel.Printf.Render.{
  render, prefix, prefix-some, render-ordinary, render-plain, length-from_percent, Prints,
  Prints-emit,
}

Prints-nil : (n : ℕ) (t : Terminal) → Prints n [] t (some (written n t))
unfolding terminal_write
Prints-nil n t = ap (λ x. some (written x t)) (omega arith)

-- The rest of a format is printed by `left` rounds.
abbrev Rounds : ℕ → Type 0
Rounds left =
    (format : List ℕ) (arguments : List Argument) (n : ℕ) (t : Terminal) (text : List ℕ)
    → length format ≤ left
    → render format arguments ≡ some text
    → n + length text ≤ int_max
    → Prints n text t (printf_rounds left format arguments n t)

module _ (left : ℕ) (rounds : Rounds left) (n : ℕ) (t : Terminal) (text : List ℕ)
    (room : n + length text ≤ int_max) where
  -- A round that prints `bytes` and leaves `rest`.
  Prints-round :
      (bytes rest : List ℕ) (arguments : List Argument)
      → length rest ≤ left
      → prefix bytes (render rest arguments) ≡ some text
      → Prints n text t (emit bytes n t >>= printf_rounds left rest arguments)
  Prints-round bytes rest arguments short e =
      let (others, e', place) = prefix-some bytes (render rest arguments) text e in
      let room' : n + length (bytes ++ others) ≤ int_max =
        subst (λ x. n + length x ≤ int_max) place room in
      subst (λ x. Prints n x t (emit bytes n t >>= printf_rounds left rest arguments)) (sym place)
        (Prints-emit bytes others n t (printf_rounds left rest arguments) room' (λ t'.
          rounds rest arguments (n + length bytes) t' others short e'
            (omega (arith, length-append bytes others))))

  -- A round that prints the plain bytes of the format.
  Prints-literal :
      (c : ℕ) (rest : List ℕ) (arguments : List Argument)
      → length rest ≤ left
      → prefix (c ∷ []) (render rest arguments) ≡ some text
      → Prints n text t
          (emit (c ∷ plain rest) n t >>= printf_rounds left (from_percent rest) arguments)
  Prints-literal c rest arguments short e =
      let (text', e', place) = prefix-some (c ∷ []) (render rest arguments) text e in
      let (others, e'', place') = render-plain rest arguments text' e' in
      Prints-round (c ∷ plain rest) (from_percent rest) arguments
        (omega (arith, length-from_percent rest))
        (rw e'' (ap some (sym (place ∙ ap (◌∷◌ c) place'))))

  -- The round that ends the loop.
  Prints-rest :
      (format : List ℕ)
      → some format ≡ some text
      → Prints n text t (emit format n t >>= λ n' t'. some (written n' t'))
  Prints-rest format e =
      let place : text ≡ format ++ [] = some-injective _ _ (sym e) ∙ sym (append-nil format) in
      subst (λ x. Prints n x t (emit format n t >>= λ n' t'. some (written n' t'))) (sym place)
        (Prints-emit format [] n t (λ n' t'. some (written n' t'))
          (subst (λ x. n + length x ≤ int_max) place room)
          (λ t'. Prints-nil (n + length format) t'))

  module _ (c d : ℕ) (rest : List ℕ) (percent : (c == b'%') ≡ true)
      (short : length (d ∷ rest) ≤ left) where
    Prints-percent :
        (arguments : List Argument)
        → (d == b'%') ≡ true
        → render (c ∷ d ∷ rest) arguments ≡ some text
        → Prints n text t (printf_rounds (suc left) (c ∷ d ∷ rest) arguments n t)
    unfolding render printf_rounds directive
    Prints-percent arguments double e =
        let step : printf_rounds (suc left) (c ∷ d ∷ rest) arguments n t
            ≡ (emit (d ∷ plain rest) n t >>= printf_rounds left (from_percent rest) arguments) =
          rw (percent, double, printf_rounds, directive) refl in
        let shown : render (c ∷ d ∷ rest) arguments ≡ prefix (d ∷ []) (render rest arguments) =
          rw (percent, double, render) refl in
        step ∙ Prints-literal d rest arguments (omega arith) (sym shown ∙ e)

    module _ (single : (d == b'%') ≡ false) where
      Prints-char :
          (arguments : List Argument)
          → (d == b'c') ≡ true
          → render (c ∷ d ∷ rest) arguments ≡ some text
          → Prints n text t (printf_rounds (suc left) (c ∷ d ∷ rest) arguments n t)
      unfolding render printf_rounds directive
      Prints-char [] letter e =
          let shown : render (c ∷ d ∷ rest) [] ≡ none = rw (percent, single, letter, render) refl in
          cc
      Prints-char (string bytes ∷ others) letter e =
          let shown : render (c ∷ d ∷ rest) (string bytes ∷ others) ≡ none =
            rw (percent, single, letter, render) refl in
          cc
      Prints-char (char b ∷ others) letter e =
          let step : printf_rounds (suc left) (c ∷ d ∷ rest) (char b ∷ others) n t
              ≡ (emit (u8 b ∷ []) n t >>= printf_rounds left rest others) =
            rw (percent, single, letter, printf_rounds, directive) refl in
          let shown : render (c ∷ d ∷ rest) (char b ∷ others)
              ≡ prefix (u8 b ∷ []) (render rest others) =
            rw (percent, single, letter, render) refl in
          step ∙ Prints-round (u8 b ∷ []) rest others (omega arith) (sym shown ∙ e)

      module _ (other : (d == b'c') ≡ false) where
        Prints-string :
            (arguments : List Argument)
            → (d == b's') ≡ true
            → render (c ∷ d ∷ rest) arguments ≡ some text
            → Prints n text t (printf_rounds (suc left) (c ∷ d ∷ rest) arguments n t)
        unfolding render printf_rounds directive
        Prints-string [] letter e =
            let shown : render (c ∷ d ∷ rest) [] ≡ none =
              rw (percent, single, other, letter, render) refl in
            cc
        Prints-string (char b ∷ others) letter e =
            let shown : render (c ∷ d ∷ rest) (char b ∷ others) ≡ none =
              rw (percent, single, other, letter, render) refl in
            cc
        Prints-string (string bytes ∷ others) letter e =
            let step : printf_rounds (suc left) (c ∷ d ∷ rest) (string bytes ∷ others) n t
                ≡ (emit bytes n t >>= printf_rounds left rest others) =
              rw (percent, single, other, letter, printf_rounds, directive) refl in
            let shown : render (c ∷ d ∷ rest) (string bytes ∷ others)
                ≡ prefix bytes (render rest others) =
              rw (percent, single, other, letter, render) refl in
            step ∙ Prints-round bytes rest others (omega arith) (sym shown ∙ e)

        Prints-unknown :
            (arguments : List Argument)
            → (d == b's') ≡ false
            → render (c ∷ d ∷ rest) arguments ≡ some text
            → Prints n text t (printf_rounds (suc left) (c ∷ d ∷ rest) arguments n t)
        unfolding render printf_rounds directive
        Prints-unknown arguments letter e =
            let step : printf_rounds (suc left) (c ∷ d ∷ rest) arguments n t
                ≡ (emit (c ∷ d ∷ rest) n t >>= λ n' t'. some (written n' t')) =
              rw (percent, single, other, letter, printf_rounds, directive) refl in
            let shown : render (c ∷ d ∷ rest) arguments ≡ some (c ∷ d ∷ rest) =
              rw (percent, single, other, letter, render) refl in
            step ∙ Prints-rest (c ∷ d ∷ rest) (sym shown ∙ e)

  Prints-ordinary :
      (c : ℕ) (rest : List ℕ) (arguments : List Argument)
      → (c == b'%') ≡ false
      → length rest ≤ left
      → render (c ∷ rest) arguments ≡ some text
      → Prints n text t (printf_rounds (suc left) (c ∷ rest) arguments n t)
  unfolding printf_rounds directive
  Prints-ordinary c [] arguments ordinary short e =
      let step : printf_rounds (suc left) (c ∷ []) arguments n t
          ≡ (emit (c ∷ []) n t >>= printf_rounds left [] arguments) =
        rw (ordinary, printf_rounds, directive) refl in
      step
      ∙ Prints-round (c ∷ []) [] arguments short (sym (render-ordinary c [] arguments ordinary) ∙ e)
  Prints-ordinary c (d ∷ rest) arguments ordinary short e =
      let step : printf_rounds (suc left) (c ∷ d ∷ rest) arguments n t ≡ (
          emit (c ∷ plain (d ∷ rest)) n t
          >>= printf_rounds left (from_percent (d ∷ rest)) arguments) =
        rw (ordinary, printf_rounds, directive) refl in
      step
      ∙ Prints-literal c (d ∷ rest) arguments short
          (sym (render-ordinary c (d ∷ rest) arguments ordinary) ∙ e)

  Prints-lone :
      (c : ℕ) (arguments : List Argument)
      → (c == b'%') ≡ true
      → render (c ∷ []) arguments ≡ some text
      → Prints n text t (printf_rounds (suc left) (c ∷ []) arguments n t)
  unfolding printf_rounds directive render
  Prints-lone c arguments percent e =
      let step : printf_rounds (suc left) (c ∷ []) arguments n t
          ≡ (emit (c ∷ []) n t >>= λ n' t'. some (written n' t')) =
        rw (percent, printf_rounds, directive) refl in
      step ∙ Prints-rest (c ∷ []) e

  Prints-any :
      (c : ℕ) (rest : List ℕ) (arguments : List Argument)
      → length rest ≤ left
      → render (c ∷ rest) arguments ≡ some text
      → Prints n text t (printf_rounds (suc left) (c ∷ rest) arguments n t)
  Prints-any c [] arguments short e = elim (Bool-cases (c == b'%')) [
    | inr ordinary ↦ Prints-ordinary c [] arguments ordinary short e
    | inl percent ↦ Prints-lone c arguments percent e
  ]
  Prints-any c (d ∷ rest) arguments short e = elim (Bool-cases (c == b'%')) [
    | inr ordinary ↦ Prints-ordinary c (d ∷ rest) arguments ordinary short e
    | inl percent ↦ elim (Bool-cases (d == b'%')) [
      | inl double ↦ Prints-percent c d rest percent short arguments double e
      | inr single ↦ elim (Bool-cases (d == b'c')) [
        | inl letter ↦ Prints-char c d rest percent short single arguments letter e
        | inr other ↦ elim (Bool-cases (d == b's')) [
          | inl letter ↦ Prints-string c d rest percent short single other arguments letter e
          | inr letter ↦ Prints-unknown c d rest percent short single other arguments letter e
        ]
      ]
    ]
  ]

rounds_lem : (left : ℕ) → Rounds left
unfolding printf_rounds render
rounds_lem left [] arguments n t text short e room =
    subst (λ x. Prints n x t (some (written n t))) (some-injective _ _ e) (Prints-nil n t)
rounds_lem zero (c ∷ rest) arguments n t text short e room = absurd (omega arith)
rounds_lem (suc left) (c ∷ rest) arguments n t text short e room =
    Prints-any left (rounds_lem left) n t text room c rest arguments (omega arith) e

-- Where a format takes the arguments that are there and prints no more than `INT_MAX` bytes,
-- `printf` ends, writes those bytes and returns how many they are.
pub printf-render :
    (format : List ℕ) (arguments : List Argument) (t : Terminal) (text : List ℕ)
    → render format arguments ≡ some text
    → length text ≤ int_max
    → printf format arguments t ≡ some (written (length text) (terminal_write (map u8 text) t))
unfolding printf
printf-render format arguments t text e room =
    rounds_lem (length format) format arguments 0 t text (omega arith) e (omega arith)
    ∙ ap (λ x. some (written x (terminal_write (map u8 text) t))) (omega arith)

puts_shown :
    (str : List ℕ) → render (b'%' ∷ b's' ∷ b'\n' ∷ []) (string str ∷ []) ≡ some (str ++ b'\n' ∷ [])
unfolding render
puts_shown str = refl

-- `puts` prints its text and a new line, where they are `INT_MAX` bytes at most.
pub puts_lem :
    (str : List ℕ) (t : Terminal)
    → length (str ++ b'\n' ∷ []) ≤ int_max
    → puts str t
      ≡ some (written (length (str ++ b'\n' ∷ [])) (terminal_write (map u8 (str ++ b'\n' ∷ [])) t))
unfolding puts
puts_lem str t room =
    printf-render (b'%' ∷ b's' ∷ b'\n' ∷ []) (string str ∷ []) t (str ++ b'\n' ∷ [])
      (puts_shown str) room
