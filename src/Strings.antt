-- ===== src/Strings.antt =====
-- Strings that end with a zero byte: `strlen` and `strcpy` of libc/string.
pub mod Compare
mod Tests
use simple_kernel.Base.{
  ℕ, zero, suc, ◌+◌, ◌-◌, ◌≤◌, ◌<◌, ◌≡◌, ◌≢◌, ◌⊎◌, inl, inr, refl, arith, ◌&&◌, Option, none, some,
  true, false, ltb, leb, ◌==◌, if◌then◌else◌, Bool-cases, not, u8, u32, ◌%◌, ◌^◌,
}
use simple_kernel.Memory.{Memory, load8, store8}
use simple_kernel.Memory.Copy.{copied}

-- The loop of `strlen`; `none` if the rounds run out.
unfoldable pub strlen_from : ℕ → Memory → ℕ → ℕ → Option ℕ
strlen_from zero m str len = none
strlen_from (suc left) m str len = elim (load8 m (str + len) == b'\0') [
  | true ↦ some len
  | false ↦ strlen_from left m str (len + 1)
]

-- An index that has come round the address space would have met every byte.
abbrev pub string_rounds : ℕ
string_rounds = 2 ^ 32

unfoldable pub strlen : Memory → ℕ → Option ℕ
strlen m str = strlen_from string_rounds m str 0

unfoldable pub strcpy_from : ℕ → ℕ → ℕ → ℕ → Memory → Option Memory
strcpy_from zero dest src i m = none
strcpy_from (suc left) dest src i m = elim (load8 m (src + i) == b'\0') [
  | true ↦ some (store8 m (dest + i) b'\0')
  | false ↦ strcpy_from left dest src (i + 1) (store8 m (dest + i) (load8 m (src + i)))
]

unfoldable pub strcpy : Memory → ℕ → ℕ → Option Memory
strcpy m dest src = strcpy_from string_rounds dest src 0 m

-- A byte as the signed `char` of i386, as a 32-bit `int`.
unfoldable pub signed_char : ℕ → ℕ
signed_char c = if ltb c 128 then c else c + (2 ^ 32 - 2 ^ 8)

-- The loop of `strcmp`, `i` bytes behind the starts.
unfoldable pub strcmp_from : ℕ → Memory → ℕ → ℕ → ℕ → Option ℕ
strcmp_from zero m s1 s2 i = none
strcmp_from (suc left) m s1 s2 i =
    elim (not (load8 m (s1 + i) == b'\0') && (load8 m (s1 + i) == load8 m (s2 + i))) [
      | true ↦ strcmp_from left m s1 s2 (i + 1)
      | false ↦
          some (u32 (signed_char (load8 m (s1 + i)) + 2 ^ 32 - signed_char (load8 m (s2 + i))))
    ]

unfoldable pub strcmp : Memory → ℕ → ℕ → Option ℕ
strcmp m s1 s2 = strcmp_from string_rounds m s1 s2 0

-- From `str` on there are `n` bytes that are not zero, and then a zero.
pub record IsText (m : Memory) (str n : ℕ) : Type 0 where
  pub body : (i : ℕ) → i < n → load8 m (str + i) ≢ 0
  pub end : load8 m (str + n) ≡ 0

strlen_from_lem :
    (m : Memory) (str n left len k : ℕ)
    → IsText m str n
    → len + k ≡ n
    → k < left
    → strlen_from left m str len ≡ some n
unfolding strlen_from
strlen_from_lem m str n zero len k text e enough = absurd (omega arith)
strlen_from_lem m str n (suc left) len zero text e enough = ground (arith, text.end)
strlen_from_lem m str n (suc left) len (suc k) text e enough =
    ground (arith, text.body len, strlen_from_lem m str n left (len + 1) k text)

-- `strlen` of a text in the address space ends and gives the number of bytes before the zero.
pub strlen_lem : (m : Memory) (str n : ℕ) → IsText m str n → n < 2 ^ 32 → strlen m str ≡ some n
unfolding strlen
strlen_lem m str n text h = strlen_from_lem m str n string_rounds 0 n text (omega arith) h

stored_apart : (m : Memory) (a v b : ℕ) → a ≢ b → load8 (store8 m a v) b ≡ load8 m b
unfolding load8 store8
stored_apart m a v b h = ground arith

stored_self : (m : Memory) (a b : ℕ) → load8 (store8 m a (load8 m b)) a ≡ load8 m b
unfolding load8 store8
stored_self m a b = ground arith

stored_zero : (m : Memory) (a : ℕ) → load8 (store8 m a 0) a ≡ 0
unfolding load8 store8
stored_zero m a = ground arith

module _ (dest src n : ℕ) where
  strcpy_from_lem :
      (left i k : ℕ) (m : Memory)
      → ((j : ℕ) → i ≤ j → j < n → load8 m (src + j) ≢ 0)
      → load8 m (src + n) ≡ 0
      → (dest + n < src) ⊎ (src + n < dest)
      → i + k ≡ n
      → k < left
      → (m' : Memory) × (strcpy_from left dest src i m ≡ some m')
        × ((b : ℕ) → load8 m' b ≡ copied m (dest + i) (src + i) (k + 1) b)
  unfolding strcpy_from
  strcpy_from_lem zero i k m body end apart e enough = absurd (omega arith)
  strcpy_from_lem (suc left) i zero m body end apart e enough = (
    store8 m (dest + i) 0,
    ground arith,
    λ b. ground (arith, stored_zero m (dest + i), stored_apart m (dest + i) 0 b),
  )
  strcpy_from_lem (suc left) i (suc k) m body end apart e enough =
      let m₁ = store8 m (dest + i) (load8 m (src + i)) in
      let same : (j : ℕ) → i ≤ j → j ≤ n → load8 m₁ (src + j) ≡ load8 m (src + j) =
        λ j p q. stored_apart m (dest + i) (load8 m (src + i)) (src + j) (omega arith) in
      let (m', e', bytes) =
        strcpy_from_lem left (i + 1) k m₁ (λ j p q. ground (arith, same j, body j))
          (ground (arith, same n)) apart (omega arith) (omega arith) in
      (
        m',
        ground (arith, body i),
        λ b. ground (
          arith,
          bytes b,
          stored_self m (dest + i) (src + i),
          stored_apart m (dest + i) (load8 m (src + i)) b,
          stored_apart m (dest + i) (load8 m (src + i)) (src + (b - dest)),
          stored_apart m (dest + i) (load8 m (src + i)) (src + (i + 1) + (b - (dest + (i + 1)))),
        ),
      )

-- `strcpy` of a text to a place that does not overlap it ends, and leaves a copy of the text with
-- its zero there, and no other address changes.
pub strcpy_lem :
    (m : Memory) (dest src n : ℕ)
    → IsText m src n
    → (dest + n < src) ⊎ (src + n < dest)
    → n < 2 ^ 32
    → (m' : Memory) × (strcpy m dest src ≡ some m')
      × ((b : ℕ) → load8 m' b ≡ copied m dest src (n + 1) b)
unfolding strcpy
strcpy_lem m dest src n text apart h =
    let (m', e, bytes) =
      strcpy_from_lem dest src n string_rounds 0 n m (λ j p q. text.body j q) text.end apart
        (omega arith) h in
    (m', e, λ b. ground (arith, bytes b))
