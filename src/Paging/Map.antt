-- ===== src/Paging/Map.antt =====
-- `map_page` against the processor's translation.
use simple_kernel.Base.{
  ℕ, ◌+◌, ◌*◌, ◌/◌, ◌%◌, ◌^◌, ◌<◌, ◌≡◌, ◌≢◌, none, ◌⊎◌, inl, inr, refl, ap, sym, ◌∙◌, ◌&&◌, arith,
  bit_and, bit_or, some, true, ◌==◌, if◌then◌else◌, false,
}
use simple_kernel.Bits.Masks.{and_one, and_page_mask, and_index_mask, or_page_flags, or_one}
use simple_kernel.Pmm.{get_page}
use simple_kernel.Pmm.Allocate.{get_page-Allocated}
use simple_kernel.Paging.Mmu.{Vm, walk, put_word}
use simple_kernel.Paging.{
  map_page, set_entry, ensure_table, table_window, map_page_mapping_already_present,
  map_page_physaddr_unaligned, map_page_virtualaddr_unaligned,
}
use simple_kernel.Paging.Lookup.{two_ways, walk-Present}
use simple_kernel.Paging.Table.{HasTable, ensure_table-new, ensure_table-Present}
use simple_kernel.Paging.Entry.{
  is_some, directory_index, table_index, written, written-IsMapped, written_walk,
}
use simple_kernel.Paging.Window.{
  IsMapped, Present, vload-table, vstore-table, entry_frame-Present, entry_frame-absent,
}

-- The outcome of `map_page pa va` from `vm`: the code says whether `va` was mapped before; if so
-- nothing changes, and otherwise the page of `va` translates to the frame of `pa`. Every other
-- page below the windows keeps its translation.
pub record Maps (pa va : ℕ) (vm : Vm) (code : ℕ) (vm' : Vm) : Type 0 where
  pub mapped : IsMapped vm'
  pub unchanged : code ≡ map_page_mapping_already_present → vm' ≡ vm
  pub code_lem : code ≡ (if is_some (walk vm va) then map_page_mapping_already_present else 0)
  pub walks :
      (x : ℕ)
      → x < 0xFFC00000
      → walk vm' x ≡ (if code == 0 && x / 4096 == va / 4096 then some (pa / 4096) else walk vm x)

-- The allocator after the call: as before, or after one `get_page`.
abbrev pub Takes : Vm → Vm → Type 0
Takes vm vm' = (vm'.pmm ≡ vm.pmm) ⊎ ((page : ℕ) × (get_page vm.pmm ≡ some (page, vm'.pmm)))

-- The word of a new entry.
abbrev pub new_entry : ℕ → ℕ → ℕ
new_entry pa flags = bit_or (bit_or pa (bit_and flags 0b111111111111)) 1

new_entry_lem :
    (pa flags : ℕ)
    → pa % 4096 ≡ 0
    → pa < 2 ^ 32
    → (new_entry pa flags / 4096 ≡ pa / 4096)
      × (new_entry pa flags % 2 ≡ 1)
      × (new_entry pa flags < 2 ^ 32)
new_entry_lem pa flags al h = omega (
  arith,
  and_page_mask flags,
  or_page_flags pa (bit_and flags 0xFFF) al (omega (arith, and_page_mask flags)),
  or_one (bit_or pa (bit_and flags 0xFFF)),
)

module _ (vm : Vm) (m : IsMapped vm) (i k : ℕ) (hi : i < 1023) (hk : k < 1024)
    (there : Present vm.ram vm.cr3 i) where
  window_at : table_window i + 4 * k ≡ 0xFFC00000 + 4096 * i + 4 * k
  window_at = omega arith

  abbrev old_entry : ℕ
  old_entry = vm.ram (vm.ram vm.cr3 i / 4096) k

  set_entry-taken :
      (pa flags : ℕ)
      → old_entry % 2 ≡ 1
      → set_entry pa i k flags vm ≡ some (map_page_mapping_already_present, vm)
  unfolding set_entry
  set_entry-taken pa flags h =
      let taken : (bit_and old_entry 1 == 1) ≡ true = ground (arith, and_one old_entry) in
      rw (window_at, vload-table vm m i (omega arith) k hk there, taken)

  set_entry-free :
      (pa flags : ℕ)
      → old_entry % 2 ≡ 0
      → set_entry pa i k flags vm
        ≡ some
            (0, record vm { ram = put_word vm.ram (vm.ram vm.cr3 i / 4096) k (new_entry pa flags) })
  unfolding set_entry
  set_entry-free pa flags h =
      let free : (bit_and old_entry 1 == 1) ≡ false = ground (arith, and_one old_entry) in
      rw (
        window_at,
        vload-table vm m i (omega arith) k hk there,
        free,
        vstore-table vm m i (omega arith) k hk there (new_entry pa flags),
      )

module _ (pa va flags : ℕ) (pal : pa % 4096 ≡ 0) (hpa : pa < 2 ^ 32) (val : va % 4096 ≡ 0)
    (hva : va < 0xFFC00000) where
  set_entry-Maps :
      (vm : Vm)
      → IsMapped vm
      → Present vm.ram vm.cr3 (directory_index va)
      → (code : ℕ) × (vm' : Vm) × (set_entry pa (directory_index va) (table_index va) flags vm
          ≡ some (code, vm'))
        × Maps pa va vm code vm'
        × (vm'.pmm ≡ vm.pmm)
  set_entry-Maps vm m there =
      let i = directory_index va in
      let k = table_index va in
      let hi : i < 1023 = omega arith in
      let hk : k < 1024 = omega arith in
      let (frame, on, fits) = new_entry_lem pa flags pal hpa in
      let v = new_entry pa flags in
      let entry = vm.ram (vm.ram vm.cr3 i / 4096) k in
      elim (two_ways entry) [
        | inr taken ↦ (
          map_page_mapping_already_present,
          vm,
          set_entry-taken vm m i k hi hk there pa flags taken,
          record {
            mapped = m;
            unchanged = λ taken. refl;
            code_lem = ground (
              arith,
              walk-Present vm m va (omega arith) there,
              entry_frame-Present vm.ram (vm.ram vm.cr3 i / 4096) k taken,
            );
            walks = λ x h. refl;
          },
          refl,
        )
        | inl free ↦ (
          0,
          record vm { ram = written vm m i k hi hk there v fits },
          set_entry-free vm m i k hi hk there pa flags free,
          record {
            mapped = written-IsMapped vm m i k hi hk there v fits;
            unchanged = λ none_there. absurd (omega arith);
            code_lem = ground (
              arith,
              walk-Present vm m va (omega arith) there,
              entry_frame-absent vm.ram (vm.ram vm.cr3 i / 4096) k free,
            );
            walks = λ x h. ground (arith, written_walk vm m i k hi hk there v fits x h, frame, on);
          },
          refl,
        )
      ]

  map_page-table :
      (vm vm₁ : Vm)
      → ensure_table (directory_index va) vm ≡ some vm₁
      → map_page pa va flags vm ≡ set_entry pa (directory_index va) (table_index va) flags vm₁
  unfolding map_page
  map_page-table vm vm₁ e = ground (arith, and_index_mask (va / 2 ^ 12))

  -- The code for a page that is mapped is not returned for one that is not.
  taken_walk :
      (vm vm₁ : Vm) (code : ℕ)
      → HasTable vm (directory_index va) vm₁
      → code ≡ (if is_some (walk vm₁ va) then map_page_mapping_already_present else 0)
      → code ≡ map_page_mapping_already_present
      → walk vm va ≢ none
  taken_walk vm vm₁ code has e taken absent =
      let free : code ≡ 0 =
        e
        ∙ ap (λ w. if is_some w then map_page_mapping_already_present else 0)
            (has.same_walk va hva ∙ absent) in
      omega arith

  pub Maps-HasTable :
      (vm vm₁ : Vm)
      → ensure_table (directory_index va) vm ≡ some vm₁
      → HasTable vm (directory_index va) vm₁
      → (code : ℕ) × (vm' : Vm) × (map_page pa va flags vm ≡ some (code, vm'))
        × Maps pa va vm code vm'
        × (vm'.pmm ≡ vm₁.pmm)
  Maps-HasTable vm vm₁ e has =
      let (code, vm', e', maps, same) = set_entry-Maps vm₁ has.mapped has.present in
      (
        code,
        vm',
        map_page-table vm vm₁ e ∙ e',
        record {
          mapped = maps.mapped;
          unchanged = λ taken.
              maps.unchanged taken
              ∙ has.untouched va refl (taken_walk vm vm₁ code has maps.code_lem taken);
          code_lem =
              maps.code_lem
              ∙ ap (λ w. if is_some w then map_page_mapping_already_present else 0)
                  (has.same_walk va hva);
          walks = λ x h.
              maps.walks x h
              ∙ ap (λ w. if code == 0 && x / 4096 == va / 4096 then some (pa / 4096) else w)
                  (has.same_walk x h);
        },
        same,
      )

  -- With the page table of `va` there, no page is taken.
  pub map_page-Present :
      (vm : Vm)
      → IsMapped vm
      → Present vm.ram vm.cr3 (directory_index va)
      → (code : ℕ) × (vm' : Vm) × (map_page pa va flags vm ≡ some (code, vm'))
        × Maps pa va vm code vm'
        × (vm'.pmm ≡ vm.pmm)
  map_page-Present vm m there =
      let (e, has) = ensure_table-Present vm (directory_index va) m (omega arith) there in
      Maps-HasTable vm vm e has

  -- With the page table of `va` there or a free page to make one of, `map_page` of two aligned
  -- addresses, the virtual one below the windows, returns. It returns 0 and maps the page of `va`
  -- to that of `pa`, or, if `va` was mapped, 5 and changes nothing. No other page below 0xFFC00000
  -- changes its translation, and the page tables stay well formed. One page is taken from the
  -- allocator, or none.
  pub map_page-Maps :
      (vm : Vm)
      → IsMapped vm
      → Present vm.ram vm.cr3 (directory_index va) ⊎ (vm.pmm.next_index < vm.pmm.size)
      → (code : ℕ) × (vm' : Vm) × (map_page pa va flags vm ≡ some (code, vm'))
        × Maps pa va vm code vm'
        × Takes vm vm'
  map_page-Maps vm m supply = elim (two_ways (vm.ram vm.cr3 (directory_index va))) [
    | inr there ↦
        let (code, vm', e', maps, same) = map_page-Present vm m there in
        (code, vm', e', maps, inl same)
    | inl absent ↦
        let room : vm.pmm.next_index < vm.pmm.size = ground arith in
        let (page, pmm, got, allocated) = get_page-Allocated m.sound room in
        let (vm₁, e, has, same) =
          ensure_table-new vm m (directory_index va) (omega arith) absent page pmm got in
        let (code, vm', e', maps, same') = Maps-HasTable vm vm₁ e has in
        (code, vm', e', maps, inr (page, got ∙ ap (λ x. some (page, x)) (sym (same' ∙ same))))
  ]

-- With an unaligned address `map_page` changes nothing and returns the code of the address that is
-- unaligned, that of the physical one if both are.
pub map_page-unaligned :
    (pa va flags : ℕ) (vm : Vm)
    → (pa % 4096 ≢ 0) ⊎ (va % 4096 ≢ 0)
    → map_page pa va flags vm
      ≡ some (
        if pa % 4096 == 0 then map_page_virtualaddr_unaligned else map_page_physaddr_unaligned,
        vm,
      )
unfolding map_page
map_page-unaligned pa va flags vm h = ground arith
