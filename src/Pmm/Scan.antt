-- ===== src/Pmm/Scan.antt =====
-- The search for a clear bit: `first_zero_in_byte` and the loop of `get_page`.
use simple_kernel.Base.{
  ℕ, zero, suc, ◌+◌, ◌≤◌, ◌<◌, ◌≡◌, ◌≢◌, refl, arith, Bool, true, ◌&&◌, ◌||◌, List, Option, some,
  inl, inr, length, get_or, get_elem?-eq-get_or, ◌==◌, leb, ltb, Bool-cases,
}
use simple_kernel.Pmm.{first_zero_in_byte, scan}
use simple_kernel.Pmm.Bitmap.{bit, every, every_at, IsBytes}

zero_test : ℕ → ℕ → Bool
zero_test b o = (b == 0xFF) || (ltb o 8 && bit b o == 0 && every 8 (λ j. leb o j || bit b j == 1))

first_zero_table : every 256 (λ b. zero_test b (first_zero_in_byte b)) ≡ true
unfolding zero_test first_zero_in_byte every
first_zero_table = refl

full_table : every 8 (λ j. bit 0xFF j == 1) ≡ true
unfolding every
full_table = refl

pub bit_full : (j : ℕ) → j < 8 → bit 0xFF j ≡ 1
bit_full j h = ground (arith, every_at 8 (λ j. bit 0xFF j == 1) j full_table h)

-- Bit `o` is the lowest clear bit of the byte `b`.
pub record IsFirstZero (b o : ℕ) : Type 0 where
  pub in_byte : o < 8
  pub clear : bit b o ≡ 0
  pub set_below : (j : ℕ) → j < o → bit b j ≡ 1

zero_test-IsFirstZero : (b o : ℕ) → zero_test b o ≡ true → b ≢ 0xFF → IsFirstZero b o
unfolding zero_test
zero_test-IsFirstZero b o tested ne = record {
  in_byte = in_byte;
  clear = ground arith;
  set_below = λ j below. ground (arith, every_at 8 (λ j. leb o j || bit b j == 1) j);
}
  where
    in_byte : o < 8
    in_byte = ground arith

-- In a byte that is not 0xFF, `first_zero_in_byte` finds the lowest clear bit.
pub first_zero_in_byte-IsFirstZero :
    (b : ℕ) → b < 256 → b ≢ 0xFF → IsFirstZero b (first_zero_in_byte b)
first_zero_in_byte-IsFirstZero b h =
    zero_test-IsFirstZero b (first_zero_in_byte b)
      (every_at 256 (λ b. zero_test b (first_zero_in_byte b)) b first_zero_table h)

-- What the search from byte `i` comes back with: the first byte with a clear bit and the lowest
-- such bit, or the end of the bitmap and the old offset.
pub record IsFirstFree (bitmap : List ℕ) (i o i' o' : ℕ) : Type 0 where
  pub bounded : i' ≤ length bitmap
  pub skipped : (j : ℕ) → i ≤ j → j < i' → get_or bitmap j 0xFF ≡ 0xFF
  pub found : i' < length bitmap → IsFirstZero (get_or bitmap i' 0xFF) o'
  pub exhausted : i' ≡ length bitmap → o' ≡ o

abbrev pub Scans : List ℕ → ℕ → ℕ → Option (ℕ × ℕ) → Type 0
Scans bitmap i o r = (i' o' : ℕ) × (r ≡ some (i', o')) × IsFirstFree bitmap i o i' o'

module _ {bitmap : List ℕ} {i o i' o' : ℕ} (full : get_or bitmap i 0xFF ≡ 0xFF) where
  skip_byte : IsFirstFree bitmap (i + 1) o i' o' → IsFirstFree bitmap i o i' o'
  skip_byte rest = record {
    bounded = rest.bounded;
    skipped = λ j p q. elim (Bool-cases (i == j)) [
      | inl here ↦ ground arith
      | inr later ↦ rest.skipped j (ground arith) q
    ];
    found = rest.found;
    exhausted = rest.exhausted;
  }

-- The loop of `get_page`, from byte `i` of a bitmap to its end, ends at the first byte that is not
-- 0xFF with the lowest clear bit there, or at the end of the bitmap with the old offset.
pub scan-Scans :
    (bitmap : List ℕ) (o left i : ℕ)
    → IsBytes bitmap
    → i + left ≡ length bitmap
    → Scans bitmap i o (scan bitmap o left i)
unfolding scan
scan-Scans bitmap o zero i bytes e = (
  i,
  o,
  refl,
  record {
    bounded = omega arith;
    skipped = λ j p q. absurd (omega arith);
    found = λ h. absurd (omega arith);
    exhausted = λ h. refl;
  },
)
scan-Scans bitmap o (suc left) i bytes e =
    rw (get_elem?-eq-get_or bitmap i 0xFF (omega arith), scan)
      (elim (Bool-cases (get_or bitmap i 0xFF == 0xFF)) [
        | inl full ↦
            rw (full, scan)
              (let (i', o', e', rest) = scan-Scans bitmap o left (i + 1) bytes (omega arith) in
                (i', o', e', skip_byte (ground arith) rest))
        | inr more ↦
            rw (more, scan)
              (
                i,
                first_zero_in_byte (get_or bitmap i 0xFF),
                refl,
                record {
                  bounded = omega arith;
                  skipped = λ j p q. absurd (omega arith);
                  found = λ h. first_zero_in_byte-IsFirstZero _ (bytes i) (ground arith);
                  exhausted = λ h. absurd (omega arith);
                },
              )
      ])
