-- ===== src/Printf/Render.antt =====
-- What `printf` prints, byte by byte, and that its rounds print that.
use simple_kernel.Base.{
  ℕ, ◌+◌, ◌-◌, ◌≤◌, ◌≡◌, inl, inr, refl, sym, ap, ◌∙◌, arith, Option, none, some, Bool-cases, true,
  false, List, [], ◌∷◌, ◌++◌, map, ltb, ◌==◌, length, length-append, u8,
}
use simple_kernel.Tty.{Terminal, terminal_write}
use simple_kernel.Print.{putchar}
use simple_kernel.Print.Decimal.{terminal_write-append}
use simple_kernel.Printf.{
  Argument, char, string, Printed, written, plain, from_percent, print, emit, int_max, ◌>>=◌,
}

abbrev pub prefix : List ℕ → Option (List ℕ) → Option (List ℕ)
prefix bytes none = none
prefix bytes (some text) = some (bytes ++ text)

-- `%%` is a percent sign, `%c` and `%s` take an argument, and from any other percent sign on the
-- format stands for itself.
unfoldable pub render : List ℕ → List Argument → Option (List ℕ)
render [] arguments = some []
render (c ∷ []) arguments = some (c ∷ [])
render (c ∷ d ∷ rest) arguments = elim (c == b'%') [
  | false ↦ prefix (c ∷ []) (render (d ∷ rest) arguments)
  | true ↦ elim (d == b'%') [
    | true ↦ prefix (d ∷ []) (render rest arguments)
    | false ↦ elim (d == b'c') [
      | true ↦ elim arguments [
        | [] ↦ none
        | argument ∷ others ↦ elim argument [
          | char b ↦ prefix (u8 b ∷ []) (render rest others)
          | string bytes ↦ none
        ]
      ]
      | false ↦ elim (d == b's') [
        | true ↦ elim arguments [
          | [] ↦ none
          | argument ∷ others ↦ elim argument [
            | char b ↦ none
            | string bytes ↦ prefix bytes (render rest others)
          ]
        ]
        | false ↦ some (c ∷ d ∷ rest)
      ]
    ]
  ]
]

pub prefix-some :
    (bytes : List ℕ) (o : Option (List ℕ)) (text : List ℕ)
    → prefix bytes o ≡ some text
    → (rest : List ℕ) × (o ≡ some rest) × (text ≡ bytes ++ rest)
prefix-some bytes none text e = cc
prefix-some bytes (some rest) text e = (rest, refl, cc)

pub render-ordinary :
    (c : ℕ) (rest : List ℕ) (arguments : List Argument)
    → (c == b'%') ≡ false
    → render (c ∷ rest) arguments ≡ prefix (c ∷ []) (render rest arguments)
unfolding render
render-ordinary c [] arguments h = refl
render-ordinary c (d ∷ rest) arguments h = rw (h, render) refl

-- The bytes up to the next percent sign come first.
pub render-plain :
    (rest : List ℕ) (arguments : List Argument) (text : List ℕ)
    → render rest arguments ≡ some text
    → (others : List ℕ) × (render (from_percent rest) arguments ≡ some others)
      × (text ≡ plain rest ++ others)
unfolding plain from_percent
render-plain [] arguments text e = (text, e, refl)
render-plain (c ∷ rest) arguments text e = elim (Bool-cases (c == b'%')) [
  | inl percent ↦ rw percent (text, e, refl)
  | inr ordinary ↦
      let (text', e', place) =
        prefix-some (c ∷ []) (render rest arguments) text
          (sym (render-ordinary c rest arguments ordinary) ∙ e) in
      let (others, e'', place') = render-plain rest arguments text' e' in
      rw ordinary (others, e'', place ∙ ap (◌∷◌ c) place')
]

pub length-from_percent : (rest : List ℕ) → length (from_percent rest) ≤ length rest
unfolding from_percent
length-from_percent [] = omega arith
length-from_percent (c ∷ rest) = ground (arith, length-from_percent rest)

print_lem : (bytes : List ℕ) (t : Terminal) → print bytes t ≡ terminal_write (map u8 bytes) t
unfolding print putchar terminal_write
print_lem [] t = refl
print_lem (c ∷ bytes) t = print_lem bytes (putchar c t).1

map-append_u8 : (xs ys : List ℕ) → map u8 (xs ++ ys) ≡ map u8 xs ++ map u8 ys
map-append_u8 [] ys = refl
map-append_u8 (x ∷ xs) ys = ap (◌∷◌ (u8 x)) (map-append_u8 xs ys)

-- `text` fits the count after `n` bytes, and is what is printed from there on.
abbrev pub Prints : ℕ → List ℕ → Terminal → Option Printed → Type 0
Prints n text t r = r ≡ some (written (n + length text) (terminal_write (map u8 text) t))

pub Prints-emit :
    (bytes others : List ℕ) (n : ℕ) (t : Terminal) (k : ℕ → Terminal → Option Printed)
    → n + length (bytes ++ others) ≤ int_max
    → ((t' : Terminal) → Prints (n + length bytes) others t' (k (n + length bytes) t'))
    → Prints n (bytes ++ others) t (emit bytes n t >>= k)
unfolding emit
Prints-emit bytes others n t k room next =
    let longer = length-append bytes others in
    let fits : ltb (int_max - n) (length bytes) ≡ false = ground (arith, longer) in
    let count : n + length bytes + length others ≡ n + length (bytes ++ others) =
      omega (arith, longer) in
    rw fits (
      next (print bytes t)
      ∙ ap (λ x. some (written x (terminal_write (map u8 others) (print bytes t)))) count
      ∙ ap (λ x. some (written (n + length (bytes ++ others)) x))
          (ap (terminal_write (map u8 others)) (print_lem bytes t)
            ∙ sym (terminal_write-append (map u8 bytes) (map u8 others) t)
            ∙ ap (λ x. terminal_write x t) (sym (map-append_u8 bytes others))))
