-- ===== src/Early/Release.antt =====
-- The second loop of `init_frame_allocator`: which pages it frees.
use simple_kernel.Base.{
  ℕ, zero, suc, ◌+◌, ◌*◌, ◌/◌, ◌%◌, ◌^◌, ◌≤◌, ◌<◌, ◌≡◌, inl, inr, refl, sym, ap, ◌∙◌, arith, Bool,
  Bool-cases, true, false, ◌&&◌, ◌||◌, not, Option, some, List, [], ◌∷◌, ltb, leb, ◌==◌,
  if◌then◌else◌, u32, ◌<<<◌, bit_and, complement32, length, length-set, set, get_or,
  get_elem?-eq-get_or,
}
use simple_kernel.Pmm.{ManagedMemory, page_size}
use simple_kernel.Pmm.Bitmap.{page_bit, IsBytes, IsBytes-set-u8, clear_bit, page_bit-clear_bit}
use simple_kernel.Early.{
  MmapEntry, is_available, Freeing, is_kept, early_physaddr_to_offsets, free_round, free_rounds,
  free_entries,
}

-- `s` after the pages with `free` have been freed in a bitmap of `size` bytes full of ones: the bits
-- say so, and the next page to hand out is one of them as soon as there is one.
pub record Progress (size : ℕ) (free : ℕ → Bool) (s : Freeing) : Type 0 where
  pub sized : length s.pmm.bitmap ≡ size
  pub kept_size : s.pmm.size ≡ size
  pub bytes : IsBytes s.pmm.bitmap
  pub bits : (p : ℕ) → page_bit s.pmm.bitmap p ≡ (if free p then 0 else 1)
  pub next_bound : s.next_set ≡ true → s.pmm.next_index < size
  pub next_in_byte : s.next_set ≡ true → s.pmm.next_offset < 8
  pub next_free : s.next_set ≡ true → free (s.pmm.next_index * 8 + s.pmm.next_offset) ≡ true
  pub none_free : s.next_set ≡ false → (p : ℕ) → free p ≡ false

pub Progress-ext :
    (size : ℕ) (free free' : ℕ → Bool) (s : Freeing)
    → ((p : ℕ) → free p ≡ free' p)
    → Progress size free s
    → Progress size free' s
Progress-ext size free free' s same h = record {
  sized = h.sized;
  kept_size = h.kept_size;
  bytes = h.bytes;
  bits = λ p. h.bits p ∙ ap (λ b. if b then 0 else 1) (same p);
  next_bound = h.next_bound;
  next_in_byte = h.next_in_byte;
  next_free = λ e. sym (same (s.pmm.next_index * 8 + s.pmm.next_offset)) ∙ h.next_free e;
  none_free = λ e p. sym (same p) ∙ h.none_free e p;
}

abbrev pub Frees : ℕ → (ℕ → Bool) → Option Freeing → Type 0
Frees size free r = (s' : Freeing) × (r ≡ some s') × Progress size free s'

-- A page that the loop frees when it comes to it.
abbrev pub is_open : ℕ → ℕ → ℕ → Bool
is_open lo hi p = not (is_kept lo hi (p * page_size))

-- The pages from number `b` on, `n` of them.
abbrev pub is_between : ℕ → ℕ → ℕ → Bool
is_between b n p = leb b p && ltb p (b + n)

-- Whether a page lies whole in an available entry.
abbrev pub is_covered : List MmapEntry → ℕ → Bool
is_covered [] p = false
is_covered (e ∷ mmap) p =
    (is_available e && is_between (e.addr / page_size) (e.length / page_size) p)
    || is_covered mmap p

-- The available entries start at a page and end where the bitmap does or before.
abbrev pub IsTidy : ℕ → List MmapEntry → Type 0
IsTidy size [] = Unit {0}
IsTidy size (e ∷ mmap) =
    (is_available e ≡ true
      → (e.addr % page_size ≡ 0) × (e.addr / page_size + e.length / page_size ≤ size * 8))
    × IsTidy size mmap

module _ (size lo hi : ℕ) where
  module _ (free : ℕ → Bool) (s : Freeing) (h : Progress size free s) where
    free_round-kept :
        (p : ℕ)
        → is_open lo hi p ≡ false
        → Frees size
            (λ q. free q || (q == p && is_open lo hi q))
            (free_round lo hi (p * page_size) s)
    unfolding free_round
    free_round-kept p kept =
        let kept' : is_kept lo hi (p * page_size) ≡ true = ground arith in
        (
          s,
          rw (kept', free_round) refl,
          Progress-ext size free (λ q. free q || (q == p && is_open lo hi q)) s (λ q. ground arith)
              h,
        )

    module _ (p : ℕ) (opens : is_open lo hi p ≡ true) (room : p / 8 < size) where
      offsets_lem : early_physaddr_to_offsets (p * page_size) ≡ (p / 8, p % 8)
      unfolding early_physaddr_to_offsets
      offsets_lem =
          let page : p * page_size / page_size ≡ p = omega arith in ap (λ x. (x / 8, x % 8)) page

      abbrev byte : ℕ
      byte = get_or s.pmm.bitmap (p / 8) 0xFF

      abbrev cleared : List ℕ
      cleared = set s.pmm.bitmap (p / 8) (clear_bit byte (p % 8))

      abbrev counted : ManagedMemory
      counted = record s.pmm { bitmap = cleared; free_pages = u32 (s.pmm.free_pages + 1) }

      abbrev freed : Freeing
      freed = if s.next_set then record { pmm = counted; next_set = true } else record {
        pmm = record counted { next_index = p / 8; next_offset = p % 8 };
        next_set = true;
      }

      free_round_result : free_round lo hi (p * page_size) s ≡ some freed
      unfolding free_round
      free_round_result =
          let opens' : is_kept lo hi (p * page_size) ≡ false = ground arith in
          rw
            (
              opens',
              offsets_lem,
              get_elem?-eq-get_or s.pmm.bitmap (p / 8) 0xFF (omega (arith, h.sized)),
              free_round,
            )
            (elim (Bool-cases s.next_set) [ inl e ↦ rw e refl | inr e ↦ rw e refl ])

      bits_cleared :
          (q : ℕ) → page_bit cleared q ≡ (if free q || (q == p && is_open lo hi q) then 0 else 1)
      bits_cleared q = ground (
        arith,
        page_bit-clear_bit s.pmm.bitmap (p / 8) (p % 8) (omega (arith, h.sized)) (omega arith)
            h.bytes q,
        h.bits q,
      )

      free_round-open :
          Frees size
            (λ q. free q || (q == p && is_open lo hi q))
            (free_round lo hi (p * page_size) s)
      free_round-open = (
        freed,
        free_round_result,
        record {
          sized = ground (arith, length-set s.pmm.bitmap (p / 8) (clear_bit byte (p % 8)), h.sized);
          kept_size = ground (arith, h.kept_size);
          bytes = λ j. ground (
            arith,
            IsBytes-set-u8 s.pmm.bitmap (p / 8) (p % 8) (omega (arith, h.sized)) (omega arith)
                h.bytes (bit_and byte (complement32 (1 <<< (p % 8)))) j,
          );
          bits = λ q. ground (arith, bits_cleared q);
          next_bound = λ e. ground (arith, h.next_bound);
          next_in_byte = λ e. ground (arith, h.next_in_byte);
          next_free = λ e. ground (arith, h.next_free);
          none_free = λ e. ground arith;
        },
      )

    free_round_lem :
        (p : ℕ)
        → p / 8 < size
        → Frees size
            (λ q. free q || (q == p && is_open lo hi q))
            (free_round lo hi (p * page_size) s)
    free_round_lem p room = elim (Bool-cases (is_open lo hi p)) [
      | inl opens ↦ free_round-open p opens room
      | inr kept ↦ free_round-kept p kept
    ]

  free_rounds-step :
      (addr left i : ℕ) (s s₁ : Freeing)
      → free_round lo hi (u32 (addr + u32 (i * page_size))) s ≡ some s₁
      → free_rounds lo hi addr (suc left) i s ≡ free_rounds lo hi addr left (i + 1) s₁
  unfolding free_rounds
  free_rounds-step addr left i s s₁ e = rw e refl

  free_entries-step :
      (e : MmapEntry) (mmap : List MmapEntry) (s s₁ : Freeing)
      → is_available e ≡ true
      → free_rounds lo hi e.addr (u32 (e.length / page_size)) 0 s ≡ some s₁
      → free_entries lo hi (e ∷ mmap) s ≡ free_entries lo hi mmap s₁
  unfolding free_entries
  free_entries-step e mmap s s₁ available run = rw (available, run, free_entries) refl

  free_rounds_lem :
      (b left i : ℕ) (free : ℕ → Bool) (s : Freeing)
      → Progress size free s
      → b + i + left ≤ size * 8
      → b + i + left ≤ 2 ^ 20
      → Frees size
          (λ q. free q || (is_between (b + i) left q && is_open lo hi q))
          (free_rounds lo hi (b * page_size) left i s)
  unfolding free_rounds
  free_rounds_lem b zero i free s h room small =
      (s, refl, Progress-ext size free _ s (λ q. ground arith) h)
  free_rounds_lem b (suc left) i free s h room small =
      let here : u32 (b * page_size + u32 (i * page_size)) ≡ (b + i) * page_size = omega arith in
      let (s₁, e₁, h₁) = free_round_lem free s h (b + i) (omega arith) in
      let (s₂, e₂, h₂) = free_rounds_lem b left (i + 1) _ s₁ h₁ (omega arith) (omega arith) in
      (
        s₂,
        free_rounds-step (b * page_size) left i s s₁ (ap (λ x. free_round lo hi x s) here ∙ e₁)
            ∙ e₂,
        Progress-ext size _ _ s₂ (λ q. ground arith) h₂,
      )

  pub free_entries_lem :
      (mmap : List MmapEntry) (free : ℕ → Bool) (s : Freeing)
      → Progress size free s
      → IsTidy size mmap
      → size ≤ 2 ^ 17
      → Frees size
          (λ q. free q || (is_covered mmap q && is_open lo hi q))
          (free_entries lo hi mmap s)
  unfolding free_entries
  free_entries_lem [] free s h tidy small =
      (s, refl, Progress-ext size free _ s (λ q. ground arith) h)
  free_entries_lem (e ∷ mmap) free s h (tidy, others) small = elim (Bool-cases (is_available e)) [
    | inr reserved ↦
        let (s', e', h') = free_entries_lem mmap free s h others small in
        (s', rw (reserved, free_entries) e', Progress-ext size _ _ s' (λ q. ground arith) h')
    | inl available ↦
        let (aligned, bound) = tidy available in
        let b = e.addr / page_size in
        let n = e.length / page_size in
        let at : e.addr ≡ b * page_size = omega (arith, aligned) in
        let count : u32 n ≡ n = omega (arith, bound) in
        let (s₁, e₁, h₁) =
          free_rounds_lem b n 0 free s h (omega (arith, bound)) (omega (arith, bound)) in
        let (s₂, e₂, h₂) = free_entries_lem mmap _ s₁ h₁ others small in
        (
          s₂,
          free_entries-step e mmap s s₁ available (
                ap (λ x. free_rounds lo hi x (u32 n) 0 s) at
                ∙ ap (λ x. free_rounds lo hi (b * page_size) x 0 s) count
                ∙ e₁)
              ∙ e₂,
          Progress-ext size _ _ s₂ (λ q. ground arith) h₂,
        )
  ]
