-- ===== src/Heap/Write.antt =====
-- What the writes to headers leave in memory.
use simple_kernel.Base.{
  ℕ, ◌+◌, ◌*◌, ◌/◌, ◌%◌, ◌^◌, ◌≤◌, ◌<◌, ◌≡◌, inl, inr, arith, Bool, true, false, ap, bit_and,
  bit_or, complement32, ◌∙◌,
}
use simple_kernel.Bits.Masks.{
  and_seven, and_not_seven, and_not_one, and_not_two, or_one, or_two, or_flags,
}
use simple_kernel.Memory.{
  Memory, load32, store32, load32-lt, load32-store32_self, load32-store32-Apart, Apart,
}
use simple_kernel.Heap.Header.{
  get_next_address, set_next_address, set_prev_address, set_area_used, set_area_epsilon, prev_field,
}
use simple_kernel.Heap.{insert_header}

link_word :
    (x w : ℕ)
    → x % 8 ≡ 0
    → x < 2 ^ 32
    → bit_or (bit_and x (complement32 7)) (bit_and w 7) ≡ x + w % 8
link_word x w al small = ground (arith, and_not_seven x, and_seven w, or_flags x (w % 8))

module _ (m : Memory) (a x : ℕ) (al : x % 8 ≡ 0) (small : x < 2 ^ 32) where
  pub load32-set_next_self : load32 (set_next_address m a x) a ≡ x + load32 m a % 8
  unfolding set_next_address
  load32-set_next_self =
      rw (link_word x (load32 m a) al small)
        (load32-store32_self m a (x + load32 m a % 8) (omega arith))

  pub load32-set_prev_self :
      load32 (set_prev_address m a x) (prev_field a) ≡ x + load32 m (prev_field a) % 8
  unfolding set_prev_address
  load32-set_prev_self =
      rw (link_word x (load32 m (prev_field a)) al small)
        (load32-store32_self m (prev_field a) (x + load32 m (prev_field a) % 8) (omega arith))

module _ (m : Memory) (a x c : ℕ) where
  pub load32-set_next-Apart : Apart a c → load32 (set_next_address m a x) c ≡ load32 m c
  unfolding set_next_address
  load32-set_next-Apart = load32-store32-Apart m a c _

  pub load32-set_prev-Apart :
      Apart (prev_field a) c → load32 (set_prev_address m a x) c ≡ load32 m c
  unfolding set_prev_address
  load32-set_prev-Apart = load32-store32-Apart m (prev_field a) c _

module _ (m : Memory) (a : ℕ) where
  pub load32-set_used_self : load32 (set_area_used m a true) a ≡ load32 m a / 2 * 2 + 1
  unfolding set_area_used
  load32-set_used_self =
      ground
        (arith, load32-store32_self m a (bit_or (load32 m a) 1), or_one (load32 m a), load32-lt m a)

  pub load32-set_unused_self : load32 (set_area_used m a false) a ≡ load32 m a / 2 * 2
  unfolding set_area_used
  load32-set_unused_self = ground (
    arith,
    load32-store32_self m a (bit_and (load32 m a) (complement32 1)),
    and_not_one (load32 m a),
    load32-lt m a,
  )

module _ (m : Memory) (a c : ℕ) where
  pub load32-set_used-Apart : (u : Bool) → Apart a c → load32 (set_area_used m a u) c ≡ load32 m c
  unfolding set_area_used
  load32-set_used-Apart true = load32-store32-Apart m a c _
  load32-set_used-Apart false = load32-store32-Apart m a c _

module _ (m : Memory) (a : ℕ) where
  pub load32-set_epsilon_self :
      load32 (set_area_epsilon m a true) a ≡ load32 m a / 4 * 4 + 2 + load32 m a % 2
  unfolding set_area_epsilon
  load32-set_epsilon_self =
      ground
        (arith, load32-store32_self m a (bit_or (load32 m a) 2), or_two (load32 m a), load32-lt m a)

  pub load32-clear_epsilon_self :
      load32 (set_area_epsilon m a false) a ≡ load32 m a / 4 * 4 + load32 m a % 2
  unfolding set_area_epsilon
  load32-clear_epsilon_self = ground (
    arith,
    load32-store32_self m a (bit_and (load32 m a) (complement32 2)),
    and_not_two (load32 m a),
    load32-lt m a,
  )

module _ (m : Memory) (a c : ℕ) where
  pub load32-set_epsilon-Apart :
      (ep : Bool) → Apart a c → load32 (set_area_epsilon m a ep) c ≡ load32 m c
  unfolding set_area_epsilon
  load32-set_epsilon-Apart true = load32-store32-Apart m a c _
  load32-set_epsilon-Apart false = load32-store32-Apart m a c _

-- After `insert_header`, `area` links to `new`, which has the old successor behind it and `area`
-- before it; no other word has changed.
pub record IsInserted (m : Memory) (area new : ℕ) (m' : Memory) : Type 0 where
  pub area_word : load32 m' area ≡ new + load32 m area % 8
  pub new_word : load32 m' new ≡ get_next_address m area
  pub new_prev : load32 m' (prev_field new) ≡ area
  pub elsewhere :
      (c : ℕ) → Apart area c → Apart new c → Apart (prev_field new) c → load32 m' c ≡ load32 m c

next_aligned :
    (m : Memory) (a : ℕ) → (get_next_address m a % 8 ≡ 0) × (get_next_address m a < 2 ^ 32)
unfolding get_next_address
next_aligned m a = omega (arith, and_not_seven (load32 m a) (load32-lt m a), load32-lt m a)

next_of_word :
    (m m' : Memory) (a : ℕ)
    → load32 m' a ≡ load32 m a
    → get_next_address m' a ≡ get_next_address m a
unfolding get_next_address
next_of_word m m' a e = ap (λ w. bit_and w (complement32 7)) e

module _ (m : Memory) (area new : ℕ) (al : area % 8 ≡ 0) (nal : new % 8 ≡ 0)
    (above : area + 8 ≤ new) (small : new < 2 ^ 32) where
  abbrev cleared : Memory
  cleared = store32 (store32 m (prev_field new) 0) new 0

  cleared-Apart : (c : ℕ) → Apart new c → Apart (prev_field new) c → load32 cleared c ≡ load32 m c
  cleared-Apart c p q =
      load32-store32-Apart (store32 m (prev_field new) 0) new c 0 p
      ∙ load32-store32-Apart m (prev_field new) c 0 q

  cleared_new : load32 cleared new ≡ 0
  cleared_new = load32-store32_self (store32 m (prev_field new) 0) new 0 (omega arith)

  cleared_prev : load32 cleared (prev_field new) ≡ 0
  cleared_prev =
      load32-store32-Apart (store32 m (prev_field new) 0) new (prev_field new) 0 (inl (omega arith))
      ∙ load32-store32_self m (prev_field new) 0 (omega arith)

  pub insert_header-IsInserted : IsInserted m area new (insert_header m area new)
  unfolding insert_header
  insert_header-IsInserted =
      let next = get_next_address cleared area in
      let m₃ : Memory = set_next_address cleared new next in
      let m₄ : Memory = set_prev_address m₃ new area in
      let (next_al, next_small) = next_aligned cleared area in
      let old =
        next_of_word m cleared area (cleared-Apart area (inr (omega arith)) (inr (omega arith))) in
      record {
        area_word = omega (
          arith,
          load32-set_next_self m₄ area new nal small,
          load32-set_prev-Apart m₃ new area area (inr (omega arith)),
          load32-set_next-Apart cleared new next area (inr (omega arith)),
          cleared-Apart area (inr (omega arith)) (inr (omega arith)),
        );
        new_word = omega (
          arith,
          load32-set_next-Apart m₄ area new new (inl (omega arith)),
          load32-set_prev-Apart m₃ new area new (inr (omega arith)),
          load32-set_next_self cleared new next next_al next_small,
          cleared_new,
          old,
        );
        new_prev = omega (
          arith,
          load32-set_next-Apart m₄ area new (prev_field new) (inl (omega arith)),
          load32-set_prev_self m₃ new area al (omega arith),
          load32-set_next-Apart cleared new next (prev_field new) (inl (omega arith)),
          cleared_prev,
        );
        elsewhere = λ c p q r.
            load32-set_next-Apart m₄ area new c p
            ∙ load32-set_prev-Apart m₃ new area c r
            ∙ load32-set_next-Apart cleared new next c q
            ∙ cleared-Apart c q r;
      }
