-- ===== src/Pmm/Allocate.antt =====
-- `get_page`, `free_page` and `get_page_state` against the set of used pages.
use mathlib.Core.Path.{subst}
use mathlib.Core.Option.{some-injective}
use simple_kernel.Base.{
  ℕ, ◌+◌, ◌*◌, ◌/◌, ◌%◌, ◌^◌, ◌<◌, ◌≡◌, refl, sym, ◌∙◌, ltb, Bool-cases, arith, List, Option, some,
  none, inl, inr, bit_or, set, length, get_or, get_elem?-eq-get_or, get_elem?-none, length-set,
  ◌==◌, if◌then◌else◌, ◌<<<◌,
}
use simple_kernel.Pmm.{ManagedMemory, get_page, free_page, page_size, offsets_to_physaddr}
use simple_kernel.Pmm.Bitmap.{
  page_bit, page_bit-set_bit, page_bit-clear_bit, IsBytes-set-u8, set_bit, clear_bit,
}
use simple_kernel.Pmm.Scan.{scan-Scans}
use simple_kernel.Pmm.Sound.{IsSound, next_page, IsSound-scanned}

-- `m'` is `m` with page number `p` in use as well, and sound; `p` was free and is `page`.
pub record Allocated (m : ManagedMemory) (page : ℕ) (m' : ManagedMemory) : Type 0 where
  pub sound : IsSound m'
  pub same_size : m'.size ≡ m.size
  pub address : page ≡ page_size * next_page m
  pub in_range : page / page_size / 8 < m.size
  pub was_free : page_bit m.bitmap (page / page_size) ≡ 0
  pub bits :
      (q : ℕ) → page_bit m'.bitmap q ≡ (if page / page_size == q then 1 else page_bit m.bitmap q)

-- Below 4 GB a page's address and its offsets in the bitmap determine each other.
pub offsets_to_physaddr_lem :
    (i o : ℕ) → i < 2 ^ 17 → o < 8 → offsets_to_physaddr i o ≡ page_size * (i * 8 + o)
unfolding offsets_to_physaddr
offsets_to_physaddr_lem i o hi ho = omega arith

-- `m'` is `m` with the page at `page` free, and sound; that page is the next one handed out.
pub record Freed (m : ManagedMemory) (page : ℕ) (m' : ManagedMemory) : Type 0 where
  pub sound : IsSound m'
  pub same_size : m'.size ≡ m.size
  pub next : next_page m' ≡ page / page_size
  pub room : m'.next_index < m'.size
  pub bits :
      (q : ℕ) → page_bit m'.bitmap q ≡ (if page / page_size == q then 0 else page_bit m.bitmap q)

Allocated-of_eq :
    {m m₀ m' : ManagedMemory} {p₀ p : ℕ}
    → ◌≡◌ {A = Option (ℕ × ManagedMemory)} (some (p₀, m₀)) (some (p, m'))
    → Allocated m p₀ m₀
    → Allocated m p m'
Allocated-of_eq {m} e allocated = subst (λ r. Allocated m r.0 r.1) (some-injective _ _ e) allocated

module _ {m : ManagedMemory} (sound : IsSound m) where
  -- On a sound allocator with a page free, `get_page` returns: it hands out a page that was free,
  -- marks it and no other page, and leaves the allocator sound.
  pub get_page-Allocated :
      m.next_index < m.size
      → (page : ℕ) × (m' : ManagedMemory) × (get_page m ≡ some (page, m')) × Allocated m page m'
  unfolding get_page
  get_page-Allocated room =
      let byte = get_or m.bitmap m.next_index 0xFF in
      let marked : List ℕ = set m.bitmap m.next_index (set_bit byte m.next_offset) in
      let within : m.next_index < length m.bitmap = omega (arith, sound.sized) in
      let in_byte = sound.next_in_byte room in
      let bytes =
        IsBytes-set-u8 m.bitmap m.next_index m.next_offset within in_byte sound.bytes
          (bit_or byte (1 <<< m.next_offset)) in
      let same = length-set m.bitmap m.next_index (set_bit byte m.next_offset) in
      let (i, o, e, first) =
        scan-Scans marked m.next_offset m.size 0 bytes (omega (arith, same, sound.sized)) in
      let address =
        offsets_to_physaddr_lem m.next_index m.next_offset (omega (arith, sound.addressable))
          in_byte in
      (
        offsets_to_physaddr m.next_index m.next_offset,
        record m { bitmap = marked; next_index = i; next_offset = o },
        rw (get_elem?-eq-get_or m.bitmap m.next_index 0xFF within, e) refl,
        record {
          sound = IsSound-scanned m marked i o sound same bytes first;
          same_size = refl;
          address = address;
          in_range = omega (arith, address);
          was_free = ground (arith, address, sound.next_free);
          bits = λ q. ground (
            arith,
            address,
            page_bit-set_bit m.bitmap m.next_index m.next_offset within in_byte sound.bytes q,
          );
        },
      )

  -- On a sound allocator with every page in use, `get_page` writes behind the bitmap.
  pub get_page-exhausted : ((p : ℕ) → page_bit m.bitmap p ≡ 1) → get_page m ≡ none
  unfolding get_page
  get_page-exhausted full =
      let at_end : m.next_index ≡ m.size =
        ground (arith, sound.next_bound, sound.next_free, full (next_page m)) in
      rw (get_elem?-none m.bitmap m.next_index (omega (arith, sound.sized))) refl

  pub get_page_inverse :
      {page : ℕ} {m' : ManagedMemory} → get_page m ≡ some (page, m') → Allocated m page m'
  get_page_inverse e = elim (Bool-cases (ltb m.next_index m.size)) [
    | inl room ↦
        let (page₀, m₀, e₀, allocated) = get_page-Allocated (ground arith) in
        Allocated-of_eq (sym e₀ ∙ e) allocated
    | inr full ↦
        let at_end : m.next_index ≡ m.size = ground (arith, sound.next_bound) in
        cc (get_page-exhausted (sound.all_used at_end))
  ]

  -- `free_page` of an address inside a sound bitmap clears that page's bit and no other, keeps the
  -- allocator sound, and makes the page the next one to hand out.
  pub free_page-Freed :
      (page : ℕ)
      → page / page_size / 8 < m.size
      → (m' : ManagedMemory) × (free_page page m ≡ some m') × Freed m page m'
  unfolding free_page
  free_page-Freed page in_range =
      let index = page / page_size / 8 in
      let offset = page / page_size % 8 in
      let byte = get_or m.bitmap index 0xFF in
      let within : index < length m.bitmap = omega (arith, sound.sized) in
      let in_byte : offset < 8 = omega arith in
      let bits = page_bit-clear_bit m.bitmap index offset within in_byte sound.bytes in
      (
        record m {
          bitmap = set m.bitmap index (clear_bit byte offset);
          next_index = index;
          next_offset = offset;
        },
        rw (get_elem?-eq-get_or m.bitmap index 0xFF within) refl,
        record {
          sound = record {
            sized = length-set m.bitmap index (clear_bit byte offset) ∙ sound.sized;
            addressable = sound.addressable;
            bytes = IsBytes-set-u8 m.bitmap index offset within in_byte sound.bytes _;
            next_bound = omega arith;
            next_in_byte = λ h. in_byte;
            next_free = λ h. ground (arith, bits (index * 8 + offset));
            all_used = λ h. absurd (omega arith);
          };
          same_size = refl;
          next = omega arith;
          room = in_range;
          bits = λ q. ground (arith, bits q);
        },
      )
