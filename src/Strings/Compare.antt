-- ===== src/Strings/Compare.antt =====
-- `strcmp` against the first byte in which two texts differ.
use simple_kernel.Base.{
  ℕ, zero, suc, ◌+◌, ◌-◌, ◌%◌, ◌^◌, ◌<◌, ◌≡◌, ◌≢◌, ◌⊎◌, inl, inr, refl, ap, ◌∙◌, arith, ◌&&◌, not,
  some, ◌==◌, Bool-cases, u32,
}
use simple_kernel.Memory.{Memory, load8}
use simple_kernel.Strings.{IsText, string_rounds, signed_char, strcmp_from, strcmp}

-- Up to index `i` both texts are the same, and there they differ or both end. The result is the
-- difference of the bytes there as signed characters.
pub record Differ (m : Memory) (s1 s2 result : ℕ) : Type 0 where
  pub index : ℕ
  pub same : (j : ℕ) → j < index → load8 m (s1 + j) ≡ load8 m (s2 + j)
  pub inside : (j : ℕ) → j < index → load8 m (s1 + j) ≢ 0
  pub stops : (load8 m (s1 + index) ≢ load8 m (s2 + index)) ⊎ (load8 m (s1 + index) ≡ 0)
  pub difference :
      (result + signed_char (load8 m (s2 + index))) % 2 ^ 32 ≡ signed_char (load8 m (s1 + index))
  pub zero_if_equal : (result == 0) ≡ (load8 m (s1 + index) == load8 m (s2 + index))

-- The texts are equal as far as index `i`.
record Agrees (m : Memory) (s1 s2 i : ℕ) : Type 0 where
  same : (j : ℕ) → j < i → load8 m (s1 + j) ≡ load8 m (s2 + j)
  inside : (j : ℕ) → j < i → load8 m (s1 + j) ≢ 0

difference_lem :
    (c d : ℕ)
    → c < 2 ^ 8
    → d < 2 ^ 8
    → (u32 (signed_char c + 2 ^ 32 - signed_char d) + signed_char d) % 2 ^ 32 ≡ signed_char c
unfolding signed_char
difference_lem c d hc hd = ground arith

zero_if_equal_lem :
    (c d : ℕ)
    → c < 2 ^ 8
    → d < 2 ^ 8
    → (u32 (signed_char c + 2 ^ 32 - signed_char d) == 0) ≡ (c == d)
unfolding signed_char
zero_if_equal_lem c d hc hd = ground arith

load8-lt : (m : Memory) (a : ℕ) → load8 m a < 2 ^ 8
unfolding load8
load8-lt m a = omega arith

module _ (m : Memory) (s1 s2 : ℕ) where
  Agrees-next :
      (i : ℕ)
      → Agrees m s1 s2 i
      → load8 m (s1 + i) ≡ load8 m (s2 + i)
      → load8 m (s1 + i) ≢ 0
      → Agrees m s1 s2 (i + 1)
  Agrees-next i agrees here there = record {
    same = λ j h. elim (Bool-cases (j == i)) [
      | inl at ↦ let e : j ≡ i = ground arith in rw e here
      | inr before ↦ agrees.same j (ground arith)
    ];
    inside = λ j h. elim (Bool-cases (j == i)) [
      | inl at ↦ let e : j ≡ i = ground arith in rw e there
      | inr before ↦ agrees.inside j (ground arith)
    ];
  }

  before_end : (i k n : ℕ) → IsText m s1 n → load8 m (s1 + i) ≢ 0 → i + k ≡ n → i + 1 + (k - 1) ≡ n
  before_end i zero n text there e =
      let at : i ≡ n = omega arith in absurd (there (ap (λ j. load8 m (s1 + j)) at ∙ text.end))
  before_end i (suc k) n text there e = omega arith

  strcmp_from-Differ :
      (n left i k : ℕ)
      → IsText m s1 n
      → Agrees m s1 s2 i
      → i + k ≡ n
      → k < left
      → (r : ℕ) × (strcmp_from left m s1 s2 i ≡ some r) × Differ m s1 s2 r
  unfolding strcmp_from
  strcmp_from-Differ n zero i k text agrees e enough = absurd (omega arith)
  strcmp_from-Differ n (suc left) i k text agrees e enough =
      elim (Bool-cases
        (not (load8 m (s1 + i) == b'\0') && (load8 m (s1 + i) == load8 m (s2 + i)))) [
          | inr stop ↦ (
            u32 (signed_char (load8 m (s1 + i)) + 2 ^ 32 - signed_char (load8 m (s2 + i))),
            rw (stop, strcmp_from) refl,
            record {
              index = i;
              same = agrees.same;
              inside = agrees.inside;
              stops = ground arith;
              difference = difference_lem _ _ (load8-lt m (s1 + i)) (load8-lt m (s2 + i));
              zero_if_equal = zero_if_equal_lem _ _ (load8-lt m (s1 + i)) (load8-lt m (s2 + i));
            },
          )
          | inl go ↦
              let there : load8 m (s1 + i) ≢ 0 = ground arith in
              let here : load8 m (s1 + i) ≡ load8 m (s2 + i) = ground arith in
              let (r, e', differ) =
                strcmp_from-Differ n left (i + 1) (k - 1) text (Agrees-next i agrees here there)
                  (before_end i k n text there e) (ground (arith, before_end i k n text there e)) in
              (r, rw (go, strcmp_from) e', differ)
        ]

  -- `strcmp` with a text as its first argument ends at the first byte that differs or at the end of
  -- both, none before it being zero, and returns the difference of the signed characters there,
  -- which is 0 exactly if those are equal.
  pub strcmp-Differ :
      (n : ℕ) → IsText m s1 n → n < 2 ^ 32 → (r : ℕ) × (strcmp m s1 s2 ≡ some r) × Differ m s1 s2 r
  unfolding strcmp
  strcmp-Differ n text small =
      strcmp_from-Differ n string_rounds 0 n text
        record { same = λ j h. absurd (omega arith); inside = λ j h. absurd (omega arith) }
        (omega arith) small
