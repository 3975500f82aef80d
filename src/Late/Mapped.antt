-- ===== src/Late/Mapped.antt =====
-- Behind `late_pmm_init` the bitmap's pages are where its new address says.
use simple_kernel.Base.{
  ℕ, zero, suc, ◌+◌, ◌-◌, ◌*◌, ◌/◌, ◌%◌, ◌^◌, ◌≤◌, ◌<◌, ◌≡◌, inl, inr, refl, ap, ◌∙◌, ◌&&◌, arith,
  bit_or, Bool-cases, Option, none, some, true, false, leb, ltb, ◌==◌, if◌then◌else◌, u32, ◌<<<◌,
}
use simple_kernel.Bits.{bit_or_fields}
use simple_kernel.Heap.{div_ceil}
use simple_kernel.Pmm.{ManagedMemory, page_size}
use simple_kernel.Paging.Mmu.{Vm, walk}
use simple_kernel.Paging.{map_page}
use simple_kernel.Paging.Window.{IsMapped, Present}
use simple_kernel.Paging.Lookup.{two_ways, walk-absent}
use simple_kernel.Paging.Entry.{is_some}
use simple_kernel.Paging.Map.{Maps, map_page-Present}
use simple_kernel.Late.{KernelSymbols, kernel_page_count, late_rounds, late_pmm_init}

-- The virtual address of the page numbered `i`.
abbrev pub page_at : ℕ → ℕ
page_at i = 0xC0000000 + 4096 * i

page_at_lem : (i : ℕ) → i < 1024 → bit_or 0xC0000000 (u32 (i <<< 12)) ≡ page_at i
page_at_lem i h = ground (arith, bit_or_fields 22 0x300 (u32 (i <<< 12)))

page_apart : (i j : ℕ) → i + 1 ≤ j → (page_at j / 4096 == page_at i / 4096) ≡ false
page_apart i j h = ground arith

-- A page that is mapped has a page table.
walk-Present :
    (vm : Vm) (m : IsMapped vm) (i : ℕ)
    → i < 1024
    → is_some (walk vm (page_at i)) ≡ true
    → Present vm.ram vm.cr3 768
walk-Present vm m i h mapped = elim (two_ways (vm.ram vm.cr3 768)) [
  | inr there ↦ there
  | inl absent ↦
      let at : page_at i / 2 ^ 22 ≡ 768 = omega arith in
      let none_there : walk vm (page_at i) ≡ none =
        walk-absent vm m (page_at i) (omega arith) (ap (λ d. vm.ram vm.cr3 d % 2) at ∙ absent) in
      cc
]

-- Mapping a page that was not mapped.
fresh_walks :
    (pa va : ℕ) (vm vm₁ : Vm) (code : ℕ)
    → Maps pa va vm code vm₁
    → walk vm va ≡ none
    → (x : ℕ) → x < 0xFFC00000
    → walk vm₁ x ≡ (if x / 4096 == va / 4096 then some (pa / 4096) else walk vm x)
fresh_walks pa va vm vm₁ code maps fresh x h =
    let done : code ≡ 0 = maps.code_lem ∙ ap (λ w. if is_some w then 5 else 0) fresh in
    maps.walks x h
    ∙ ap (λ c. if c == 0 && x / 4096 == va / 4096 then some (pa / 4096) else walk vm x) done

-- What `x` translates to where the pages from `i` to `stop` are those of the bitmap, and `old`
-- elsewhere.
abbrev pub behind : ℕ → ℕ → ℕ → ℕ → Option ℕ → ℕ → Option ℕ
behind kernel_pages bitmap i stop old x =
    if leb (page_at i) x && ltb x (page_at stop)
    then some (bitmap / 4096 + (x / 4096 - (0xC0000 + kernel_pages)))
    else old

behind_round :
    (kernel_pages bitmap i stop x : ℕ) (old old₁ : Option ℕ)
    → kernel_pages ≤ i
    → i < stop
    → old₁ ≡ (
        if x / 4096 == page_at i / 4096
        then some ((bitmap + (i - kernel_pages) * 4096) / 4096)
        else old)
    → behind kernel_pages bitmap (i + 1) stop old₁ x ≡ behind kernel_pages bitmap i stop old x
behind_round kernel_pages bitmap i stop x old old₁ lo hi e =
    elim (Bool-cases (x / 4096 == page_at i / 4096)) [
      | inl here ↦ ground arith
      | inr elsewhere ↦ ground arith
    ]

module _ (kernel_pages bitmap : ℕ) (al : bitmap % 4096 ≡ 0) where
  late_round :
      (left i : ℕ) (vm vm₁ : Vm) (code : ℕ) (r : Option Vm)
      → i < 1024
      → bitmap + (i - kernel_pages) * 4096 < 2 ^ 32
      → map_page (bitmap + (i - kernel_pages) * 4096) (page_at i) 0x103 vm ≡ some (code, vm₁)
      → late_rounds kernel_pages bitmap left (i + 1) vm₁ ≡ r
      → late_rounds kernel_pages bitmap (suc left) i vm ≡ r
  unfolding late_rounds
  late_round left i vm vm₁ code r low fits e e' =
      let pa_eq : u32 (bitmap + (i - kernel_pages) * page_size)
          ≡ bitmap + (i - kernel_pages) * 4096 =
        omega arith in
      rw (page_at_lem i low, pa_eq, e) e'

  late_rounds_lem :
      (left i : ℕ) (vm : Vm)
      → IsMapped vm
      → Present vm.ram vm.cr3 768
      → kernel_pages ≤ i
      → i + left ≤ 1024
      → bitmap + 4096 * (i + left - kernel_pages) ≤ 2 ^ 32
      → ((j : ℕ) → i ≤ j → j < i + left → walk vm (page_at j) ≡ none)
      → (vm' : Vm) × (late_rounds kernel_pages bitmap left i vm ≡ some vm')
        × IsMapped vm'
        × (vm'.pmm ≡ vm.pmm)
        × ((x : ℕ)
            → x < 0xFFC00000
            → walk vm' x ≡ behind kernel_pages bitmap i (i + left) (walk vm x) x)
  unfolding late_rounds
  late_rounds_lem zero i vm m there lo hi fits unmapped = (vm, refl, m, refl, λ x h. ground arith)
  late_rounds_lem (suc left) i vm m there lo hi fits unmapped =
      let pa = bitmap + (i - kernel_pages) * 4096 in
      let at : page_at i / 2 ^ 22 ≡ 768 = omega arith in
      let (code, vm₁, e, maps, kept) =
        map_page-Present pa (page_at i) 0x103 (omega (arith, al)) (omega arith) (omega arith)
          (omega arith) vm m (ap (λ d. vm.ram vm.cr3 d % 2) at ∙ there) in
      let fresh = unmapped i (omega arith) (omega arith) in
      let walks₁ = fresh_walks pa (page_at i) vm vm₁ code maps fresh in
      let here : walk vm₁ (page_at i) ≡ some (pa / 4096) = ground (arith, walks₁ (page_at i)) in
      let there₁ = walk-Present vm₁ maps.mapped i (omega arith) (ap is_some here) in
      let (vm', e', m', kept', walks) =
        late_rounds_lem left (i + 1) vm₁ maps.mapped there₁ (omega arith) (omega arith)
          (omega arith)
          (λ j p q.
            walks₁ (page_at j) (omega arith)
            ∙ ap (λ b. if b then some (pa / 4096) else walk vm (page_at j)) (page_apart i j p)
            ∙ unmapped j (omega arith) (omega arith)) in
      (
        vm',
        late_round left i vm vm₁ code (some vm') (omega arith) (omega arith) e e',
        m',
        kept' ∙ kept,
        λ x h.
            walks x h
            ∙ ap (λ n. behind kernel_pages bitmap (i + 1) n (walk vm₁ x) x) (omega arith)
            ∙ behind_round kernel_pages bitmap i (i + suc left) x (walk vm x) (walk vm₁ x) lo
                (omega arith) (walks₁ x h),
      )

-- The kernel and the bitmap have the pages that the code counts.
abbrev pub pages_of : ℕ → ℕ
pages_of size = div_ceil size page_size

module _ (image : KernelSymbols) (bitmap : ℕ) (p : ManagedMemory) (vm : Vm)
    (m : IsMapped (record vm { pmm = p })) (there : Present vm.ram vm.cr3 768)
    (al : bitmap % 4096 ≡ 0) (hi : kernel_page_count image + pages_of p.size < 1024)
    (fits : bitmap + 4096 * pages_of p.size ≤ 2 ^ 32)
    (unmapped : (j : ℕ)
      → kernel_page_count image ≤ j
      → j < kernel_page_count image + pages_of p.size
      → walk vm (page_at j) ≡ none) where
  abbrev first : ℕ
  first = kernel_page_count image

  abbrev stop : ℕ
  stop = first + pages_of p.size

  late_pmm_init_run :
      {vm' : Vm}
      → late_rounds first bitmap (pages_of p.size) first (record vm { pmm = p }) ≡ some vm'
      → late_pmm_init image bitmap p vm
        ≡ some (page_at first, record vm' { pmm = record vm'.pmm { set_up = true } })
  unfolding late_pmm_init
  late_pmm_init_run e =
      let left_eq : u32 (first + div_ceil p.size page_size) - first ≡ pages_of p.size =
        omega arith in
      rw (left_eq, e, page_at_lem first (omega (arith, hi))) refl

  -- With page tables that are mapped to themselves and have a table for the kernel's 4 MB, into
  -- which the kernel and the bitmap fit with a page to spare, with the bitmap at a page, and with
  -- no page behind the kernel mapped, `late_pmm_init` ends. The allocator is set up and else as
  -- before, the page tables stay well formed, and the pages from the bitmap's new address on are
  -- those of the bitmap, in order; every other page below 0xFFC00000 keeps its translation.
  pub late_pmm_init-walk :
      (vm' : Vm) × (late_pmm_init image bitmap p vm ≡ some (page_at first, vm'))
      × IsMapped vm'
      × (vm'.pmm ≡ record p { set_up = true })
      × ((x : ℕ) → x < 0xFFC00000 → walk vm' x ≡ behind first bitmap first stop (walk vm x) x)
  late_pmm_init-walk =
      let (vm', e, m', kept, walks) =
        late_rounds_lem first bitmap al (pages_of p.size) first (record vm { pmm = p }) m there
          (omega arith) (omega (arith, hi)) (omega (arith, fits)) unmapped in
      (
        record vm' { pmm = record vm'.pmm { set_up = true } },
        late_pmm_init_run e,
        record {
          words = m'.words;
          recursive = m'.recursive;
          itself = m'.itself;
          apart = m'.apart;
          owned = m'.owned;
          sound = record {
            sized = m'.sound.sized;
            addressable = m'.sound.addressable;
            bytes = m'.sound.bytes;
            next_bound = m'.sound.next_bound;
            next_in_byte = m'.sound.next_in_byte;
            next_free = m'.sound.next_free;
            all_used = m'.sound.all_used;
          };
        },
        ap (λ (q : ManagedMemory). record q { set_up = true }) kept,
        walks,
      )
