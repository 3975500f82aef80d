-- ===== src/Bits.antt =====
-- `&` and `|` on words as arithmetic. The native operations have no laws at variables but their
-- definition by binary digits.
mod Step
pub mod Masks
pub use Step.{zero-bit_or, zero-bit_and, bit_or_step, bit_and_step}
use mathlib.Core.WellFounded
use native.Mathlib.Nat.{pow-suc, one-le-pow}
use simple_kernel.Base.{
  ℕ, zero, suc, ◌+◌, ◌-◌, ◌*◌, ◌/◌, ◌%◌, ◌^◌, ◌<◌, ◌≡◌, refl, ap, arith, bit_and, bit_or, lt_wf,
}

pub bit_or-zero : (a : ℕ) → bit_or a 0 ≡ a
bit_or-zero a = WellFounded.induction lt_wf {C = λ n. bit_or n 0 ≡ n} a halve
  where
    halve : (n : ℕ) → ((m : ℕ) → m < n → bit_or m 0 ≡ m) → bit_or n 0 ≡ n
    halve zero ih = refl
    halve (suc n) ih = omega (arith, bit_or_step (suc n) 0, ih (suc n / 2) (omega arith))

pub bit_and-zero : (a : ℕ) → bit_and a 0 ≡ 0
bit_and-zero a = WellFounded.induction lt_wf {C = λ n. bit_and n 0 ≡ 0} a halve
  where
    halve : (n : ℕ) → ((m : ℕ) → m < n → bit_and m 0 ≡ 0) → bit_and n 0 ≡ 0
    halve zero ih = refl
    halve (suc n) ih = omega (arith, bit_and_step (suc n) 0, ih (suc n / 2) (omega arith))

pub bit_or_comm : (a b : ℕ) → bit_or a b ≡ bit_or b a
bit_or_comm a = WellFounded.induction lt_wf {C = λ n. (b : ℕ) → bit_or n b ≡ bit_or b n} a halve
  where
    halve :
        (n : ℕ)
        → ((m : ℕ) → m < n → (b : ℕ) → bit_or m b ≡ bit_or b m)
        → (b : ℕ) → bit_or n b ≡ bit_or b n
    halve zero ih b = omega (arith, bit_or-zero b, zero-bit_or b)
    halve (suc n) ih b =
        omega (
          arith,
          bit_or_step (suc n) b,
          bit_or_step b (suc n),
          ih (suc n / 2) (omega arith) (b / 2),
        )

bit_and_comm : (a b : ℕ) → bit_and a b ≡ bit_and b a
bit_and_comm a = WellFounded.induction lt_wf {C = λ n. (b : ℕ) → bit_and n b ≡ bit_and b n} a halve
  where
    halve :
        (n : ℕ)
        → ((m : ℕ) → m < n → (b : ℕ) → bit_and m b ≡ bit_and b m)
        → (b : ℕ) → bit_and n b ≡ bit_and b n
    halve zero ih b = omega (arith, bit_and-zero b, zero-bit_and b)
    halve (suc n) ih b = omega (
      arith,
      bit_and_step (suc n) b,
      bit_and_step b (suc n),
      ih (suc n / 2) (omega arith) (b / 2),
    )

double_pow : (q k : ℕ) → q * 2 ^ suc k ≡ 2 * (q * 2 ^ k)
double_pow q k = omega (arith, ap (λ (t : ℕ). q * t) (pow-suc 2 k))

-- A mask with `k` zeros at its end leaves the low `k` bits out.
pub bit_and_high :
    (k q r m : ℕ) → r < 2 ^ k → bit_and (q * 2 ^ k + r) (m * 2 ^ k) ≡ bit_and q m * 2 ^ k
bit_and_high zero q r m h = ground arith
bit_and_high (suc k) q r m h = ground (
  arith,
  bit_and_step (q * 2 ^ suc k + r) (m * 2 ^ suc k),
  double_pow q k,
  double_pow m k,
  double_pow (bit_and q m) k,
  bit_and_high k q (r / 2) m (omega arith),
)

-- Setting bits from the `k`th on leaves the low `k` bits as they are.
pub bit_or_high :
    (k q r m : ℕ) → r < 2 ^ k → bit_or (q * 2 ^ k + r) (m * 2 ^ k) ≡ bit_or q m * 2 ^ k + r
bit_or_high zero q r m h = ground arith
bit_or_high (suc k) q r m h = ground (
  arith,
  bit_or_step (q * 2 ^ suc k + r) (m * 2 ^ suc k),
  double_pow q k,
  double_pow m k,
  double_pow (bit_or q m) k,
  bit_or_high k q (r / 2) m (omega arith),
)

-- `(q << k) | r` is a sum where `r` fits `k` bits.
pub bit_or_fields : (k q r : ℕ) → r < 2 ^ k → bit_or (q * 2 ^ k) r ≡ q * 2 ^ k + r
bit_or_fields k q r h =
    ground (arith, bit_or_comm (q * 2 ^ k) r, bit_or_high k 0 r q h, zero-bit_or q)

bit_and_fields : (k q r : ℕ) → r < 2 ^ k → bit_and (q * 2 ^ k + r) (2 ^ k - 1) ≡ r
bit_and_fields zero q r h = rw bit_and-zero (omega arith)
bit_and_fields (suc k) q r h = ground (
  arith,
  bit_and_step (q * 2 ^ suc k + r) (2 ^ suc k - 1),
  double_pow q k,
  pow-suc 2 k,
  bit_and_fields k q (r / 2) (omega arith),
)

-- A mask of `k` ones is the remainder by `2 ^ k`.
pub bit_and_mask : (k a : ℕ) → bit_and a (2 ^ k - 1) ≡ a % 2 ^ k
bit_and_mask k a = ground (arith, one-le-pow k 2, bit_and_fields k (a / 2 ^ k) (a % 2 ^ k))
