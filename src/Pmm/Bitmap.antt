-- ===== src/Pmm/Bitmap.antt =====
-- Single bits of a byte, by evaluation over all bytes, and of a bitmap.
use simple_kernel.Base.{
  ℕ, zero, suc, ◌+◌, ◌*◌, ◌/◌, ◌%◌, ◌^◌, ◌<◌, bit_and, bit_or, Bool, true, false, ◌&&◌, not, List,
  ◌≡◌, refl, arith, ◌==◌, ==_iff, if◌then◌else◌, u8, ◌<<<◌, complement32, length, get_or, set,
  get_or-set,
}

abbrev pub bit : ℕ → ℕ → ℕ
bit b o = b / 2 ^ o % 2

unfoldable pub bool_eq : Bool → Bool → Bool
bool_eq true c = c
bool_eq false c = not c

bool_eq_sound : (b c : Bool) → bool_eq b c ≡ true → b ≡ c
unfolding bool_eq
bool_eq_sound b c h = ground arith

-- `b |= 1 << o` and `b &= ~(1 << o)` on a `uint8_t`.
abbrev pub set_bit : ℕ → ℕ → ℕ
set_bit b o = u8 (bit_or b (1 <<< o))

abbrev pub clear_bit : ℕ → ℕ → ℕ
clear_bit b o = u8 (bit_and b (complement32 (1 <<< o)))

unfoldable pub every : ℕ → (ℕ → Bool) → Bool
every zero test = true
every (suc n) test = test n && every n test

pub every_at : (n : ℕ) (test : ℕ → Bool) (x : ℕ) → every n test ≡ true → x < n → test x ≡ true
unfolding every
every_at zero test x all below = absurd (omega arith)
every_at (suc n) test x all below = ground (arith, every_at n test x)

-- A test of a byte and one of its bits, and of a second bit.
byte_bits : (ℕ → ℕ → Bool) → Bool
unfolding every
byte_bits test = every 256 (λ b. every 8 (λ o. test b o))

byte_bits_at :
    (test : ℕ → ℕ → Bool) (b o : ℕ) → byte_bits test ≡ true → b < 256 → o < 8 → test b o ≡ true
unfolding byte_bits
byte_bits_at test b o all hb ho =
    every_at 8 (test b) o (every_at 256 (λ b. every 8 (test b)) b all hb) ho

bits_after : (ℕ → ℕ → ℕ) → (ℕ → ℕ) → ℕ → ℕ → Bool
unfolding every
bits_after change new b o = every 8 (λ j. bit (change b o) j == (if o == j then new o else bit b j))

set_bit_test : byte_bits (bits_after set_bit (λ o. 1)) ≡ true
unfolding byte_bits bits_after
set_bit_test = refl

clear_bit_test : byte_bits (bits_after clear_bit (λ o. 0)) ≡ true
unfolding byte_bits bits_after
clear_bit_test = refl

bits_after_at :
    (change : ℕ → ℕ → ℕ) (new : ℕ → ℕ) (b o j : ℕ)
    → byte_bits (bits_after change new) ≡ true
    → b < 256
    → o < 8
    → j < 8
    → bit (change b o) j ≡ (if o == j then new o else bit b j)
unfolding bits_after
bits_after_at change new b o j all hb ho hj = (==_iff _ _).0 (
    every_at 8 (λ x. bit (change b o) x == (if o == x then new o else bit b x)) j
      (byte_bits_at (bits_after change new) b o all hb ho) hj)

pub bit-set_bit :
    (b o j : ℕ) → b < 256 → o < 8 → j < 8 → bit (set_bit b o) j ≡ (if o == j then 1 else bit b j)
bit-set_bit b o j = bits_after_at set_bit (λ o. 1) b o j set_bit_test

pub bit-clear_bit :
    (b o j : ℕ) → b < 256 → o < 8 → j < 8 → bit (clear_bit b o) j ≡ (if o == j then 0 else bit b j)
bit-clear_bit b o j = bits_after_at clear_bit (λ o. 0) b o j clear_bit_test

and_test : byte_bits (λ b o. bool_eq (bit_and b (1 <<< o) == 0) (bit b o == 0)) ≡ true
unfolding byte_bits bool_eq
and_test = refl

pub bit_and_shift : (b o : ℕ) → b < 256 → o < 8 → (bit_and b (1 <<< o) == 0) ≡ (bit b o == 0)
bit_and_shift b o hb ho =
    bool_eq_sound _ _
      (byte_bits_at (λ b o. bool_eq (bit_and b (1 <<< o) == 0) (bit b o == 0)) b o and_test hb ho)

-- The bit of page number `p`; a page beyond the bitmap reads as one in use.
abbrev pub page_bit : List ℕ → ℕ → ℕ
page_bit bitmap p = bit (get_or bitmap (p / 8) 0xFF) (p % 8)

abbrev pub IsBytes : List ℕ → Type 0
IsBytes bitmap = (i : ℕ) → get_or bitmap i 0xFF < 256

module _ (bitmap : List ℕ) (i o : ℕ) (in_range : i < length bitmap) (in_byte : o < 8)
    (bytes : IsBytes bitmap) where
  pub page_bit-set_bit :
      (q : ℕ)
      → page_bit (set bitmap i (set_bit (get_or bitmap i 0xFF) o)) q
        ≡ (if i * 8 + o == q then 1 else page_bit bitmap q)
  page_bit-set_bit q = ground (
    arith,
    get_or-set bitmap i (q / 8) (set_bit (get_or bitmap i 0xFF) o) 0xFF,
    bit-set_bit (get_or bitmap i 0xFF) o (q % 8),
    bytes i,
  )

  pub page_bit-clear_bit :
      (q : ℕ)
      → page_bit (set bitmap i (clear_bit (get_or bitmap i 0xFF) o)) q
        ≡ (if i * 8 + o == q then 0 else page_bit bitmap q)
  page_bit-clear_bit q = ground (
    arith,
    get_or-set bitmap i (q / 8) (clear_bit (get_or bitmap i 0xFF) o) 0xFF,
    bit-clear_bit (get_or bitmap i 0xFF) o (q % 8),
    bytes i,
  )

  pub IsBytes-set-u8 : (v : ℕ) → IsBytes (set bitmap i (u8 v))
  IsBytes-set-u8 v j = ground (arith, get_or-set bitmap i j (u8 v) 0xFF in_range, bytes j)
