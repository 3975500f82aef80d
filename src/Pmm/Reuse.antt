-- ===== src/Pmm/Reuse.antt =====
-- What sequences of calls do: two allocations, an allocation and a free, and the query between.
use simple_kernel.Base.{
  ℕ, ◌/◌, ◌%◌, ◌<◌, ◌≡◌, ◌≢◌, ap, arith, true, false, some, if◌then◌else◌, get_or,
  get_elem?-eq-get_or, ◌==◌,
}
use simple_kernel.Pmm.{ManagedMemory, get_page, free_page, get_page_state, page_size, ◌>>=◌}
use simple_kernel.Pmm.Bitmap.{page_bit, bit_and_shift}
use simple_kernel.Pmm.Sound.{IsSound}
use simple_kernel.Pmm.Allocate.{get_page-Allocated, get_page_inverse, free_page-Freed}

module _ {m : ManagedMemory} (sound : IsSound m) where
  -- Inside the bitmap `get_page_state` reads the page's bit.
  get_page_state_lem :
      (page : ℕ)
      → page / page_size / 8 < m.size
      → get_page_state page m ≡ some (page_bit m.bitmap (page / page_size) == 1)
  unfolding get_page_state
  get_page_state_lem page in_range =
      rw (get_elem?-eq-get_or m.bitmap (page / page_size / 8) 0xFF (omega (arith, sound.sized))) (
        ground (
          arith,
          bit_and_shift (get_or m.bitmap (page / page_size / 8) 0xFF) (page / page_size % 8),
          sound.bytes (page / page_size / 8),
        ))

module _ {m : ManagedMemory} (sound : IsSound m) where
  -- On a sound allocator with a page free, `get_page_state` answers "free" for the page that
  -- `get_page` hands out before the call, and "in use" after it.
  pub get_page_state-get_page :
      m.next_index < m.size
      → (page : ℕ) × (m' : ManagedMemory) × (get_page m ≡ some (page, m'))
        × (get_page_state page m ≡ some false)
        × (get_page_state page m' ≡ some true)
  get_page_state-get_page room =
      let (page, m', e, got) = get_page-Allocated sound room in
      (
        page,
        m',
        e,
        ground (arith, get_page_state_lem sound page got.in_range, got.was_free),
        ground (
          arith,
          get_page_state_lem got.sound page,
          got.in_range,
          got.same_size,
          got.bits (page / page_size),
        ),
      )

  -- Two pages that a sound allocator hands out one after the other differ.
  pub get_page_twice :
      {p q : ℕ} {m₁ m₂ : ManagedMemory}
      → get_page m ≡ some (p, m₁)
      → get_page m₁ ≡ some (q, m₂)
      → p ≢ q
  get_page_twice {p} {q} e₁ e₂ =
      let got₁ = get_page_inverse sound e₁ in
      let got₂ = get_page_inverse got₁.sound e₂ in
      λ same. ground (arith, got₂.was_free, got₁.bits (q / page_size))

  -- On a sound allocator, the page at an aligned address inside the bitmap that is freed is the
  -- one that the next `get_page` hands out; after both that page is in use and no other bit has
  -- changed.
  pub get_page-free_page :
      (page : ℕ)
      → page / page_size / 8 < m.size
      → page % page_size ≡ 0
      → (m' : ManagedMemory) × ((free_page page m >>= get_page) ≡ some (page, m'))
        × ((q : ℕ)
            → page_bit m'.bitmap q ≡ (if page / page_size == q then 1 else page_bit m.bitmap q))
  get_page-free_page page in_range aligned =
      let (m₁, e₁, freed) = free_page-Freed sound page in_range in
      let (page', m₂, e₂, got) = get_page-Allocated freed.sound freed.room in
      let again : page' ≡ page = omega (arith, got.address, freed.next) in
      (
        m₂,
        rw e₁ (rw e₂ (ap (λ x. some (x, m₂)) again)),
        λ q. ground (arith, got.bits q, freed.bits q, again),
      )
