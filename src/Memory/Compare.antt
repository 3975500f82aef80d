-- ===== src/Memory/Compare.antt =====
-- `memcmp` against the first byte in which two regions differ.
use simple_kernel.Base.{ℕ, zero, suc, ◌+◌, ◌<◌, ◌≡◌, inl, inr, arith, ltb, ◌==◌, Bool-cases}
use simple_kernel.Memory.{Memory, load8, memcmp, memcmp_from, minus_one}

-- How the `size` bytes at `a` compare with those at `b`: they are equal, or index `i` is the first
-- where they differ, and the result is the order of the bytes there.
pub data Compares (m : Memory) (a b size : ℕ) : ℕ → Type 0 where
  equal : ((j : ℕ) → j < size → load8 m (a + j) ≡ load8 m (b + j)) → Compares m a b size 0
  smaller :
      (i : ℕ)
      → i < size
      → ((j : ℕ) → j < i → load8 m (a + j) ≡ load8 m (b + j))
      → load8 m (a + i) < load8 m (b + i)
      → Compares m a b size minus_one
  larger :
      (i : ℕ)
      → i < size
      → ((j : ℕ) → j < i → load8 m (a + j) ≡ load8 m (b + j))
      → load8 m (b + i) < load8 m (a + i)
      → Compares m a b size 1

module _ (m : Memory) (a b : ℕ) where
  next_equal :
      (i : ℕ)
      → ((j : ℕ) → j < i → load8 m (a + j) ≡ load8 m (b + j))
      → load8 m (a + i) ≡ load8 m (b + i)
      → (j : ℕ) → j < i + 1
      → load8 m (a + j) ≡ load8 m (b + j)
  next_equal i same here j h = elim (Bool-cases (j == i)) [
    | inl at ↦ let e : j ≡ i = ground arith in rw e here
    | inr before ↦ same j (ground arith)
  ]

  memcmp_from-Compares :
      (left i size : ℕ)
      → i + left ≡ size
      → ((j : ℕ) → j < i → load8 m (a + j) ≡ load8 m (b + j))
      → Compares m a b size (memcmp_from m a b left i)
  unfolding memcmp_from
  memcmp_from-Compares zero i size e same = equal (λ j h. same j (omega arith))
  memcmp_from-Compares (suc left) i size e same =
      elim (Bool-cases (ltb (load8 m (a + i)) (load8 m (b + i)))) [
        | inl less ↦ rw less (smaller i (omega arith) same (ground arith))
        | inr not_less ↦ elim (Bool-cases (ltb (load8 m (b + i)) (load8 m (a + i)))) [
          | inl greater ↦ rw (not_less, greater) (larger i (omega arith) same (ground arith))
          | inr not_greater ↦
              rw (not_less, not_greater)
                (memcmp_from-Compares left (i + 1) size (omega arith)
                  (next_equal i same (ground arith)))
        ]
      ]

  -- `memcmp` is 0 if the bytes are equal, and otherwise -1 or 1 by the order of the first two that
  -- differ, as unsigned bytes.
  pub memcmp-Compares : (size : ℕ) → Compares m a b size (memcmp m a b size)
  unfolding memcmp
  memcmp-Compares size =
      memcmp_from-Compares size 0 size (omega arith) (λ j h. absurd (omega arith))
