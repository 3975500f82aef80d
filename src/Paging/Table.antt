-- ===== src/Paging/Table.antt =====
-- `ensure_table`: the directory gets a page table where it has none, and no translation changes.
use simple_kernel.Base.{
  ℕ, ◌+◌, ◌*◌, ◌/◌, ◌%◌, ◌^◌, ◌≤◌, ◌<◌, ◌≡◌, ◌≢◌, inl, inr, refl, ap, subst, sym, Bool-cases, ◌∙◌,
  arith, bit_and, bit_or, none, some, true, ◌==◌, if◌then◌else◌,
}
use simple_kernel.Bits.Masks.{and_one, or_page_flags}
use simple_kernel.Pmm.{get_page, ManagedMemory}
use simple_kernel.Pmm.Bitmap.{page_bit}
use simple_kernel.Pmm.Allocate.{Allocated, get_page_inverse}
use simple_kernel.Paging.Mmu.{Vm, Ram, entry_frame, translate, walk, put_word, zero_frame}
use simple_kernel.Paging.{ensure_table, memset_page, table_window}
use simple_kernel.Paging.Lookup.{two_ways, walk-absent}
use simple_kernel.Paging.Window.{
  IsMapped, Present, vload-directory, vstore-directory, translate-table, entry_frame-Present,
  entry_frame-absent,
}

-- `vm'` is `vm` with a page table at `i`, and its pages below the windows translate as before.
pub record HasTable (vm : Vm) (i : ℕ) (vm' : Vm) : Type 0 where
  pub mapped : IsMapped vm'
  pub present : Present vm'.ram vm'.cr3 i
  pub same_walk : (va : ℕ) → va < 0xFFC00000 → walk vm' va ≡ walk vm va
  pub untouched : (va : ℕ) → va / 2 ^ 22 ≡ i → walk vm va ≢ none → vm' ≡ vm

-- The tables stay well formed when the allocator hands out a page.
pub IsMapped-Allocated :
    (vm : Vm) (page : ℕ) (pmm : ManagedMemory)
    → IsMapped vm
    → Allocated vm.pmm page pmm
    → IsMapped (record vm { pmm = pmm })
IsMapped-Allocated vm page pmm m allocated = record {
  words = m.words;
  recursive = m.recursive;
  itself = m.itself;
  apart = m.apart;
  owned = λ j p h. ground (arith, allocated.bits (vm.ram vm.cr3 j / 4096), m.owned j p h);
  sound = allocated.sound;
}

module _ (vm : Vm) (m : IsMapped vm) (i : ℕ) (hi : i < 1023) (absent : vm.ram vm.cr3 i % 2 ≡ 0)
    (page : ℕ) (pmm : ManagedMemory) (got : get_page vm.pmm ≡ some (page, pmm)) where
  abbrev frame : ℕ
  frame = page / 4096

  allocated : Allocated vm.pmm page pmm
  allocated = get_page_inverse m.sound got

  abbrev linked : Ram
  linked = put_word vm.ram vm.cr3 i (page + 3)

  abbrev cleared : Ram
  cleared = zero_frame linked frame

  -- The new frame is neither the directory nor one of its page tables: those are in use.
  fresh_directory : frame ≢ vm.cr3
  fresh_directory e = ground (arith, allocated.was_free, m.owned 1023 m.recursive, m.itself)

  fresh_table : (j : ℕ) → j < 1024 → Present vm.ram vm.cr3 j → vm.ram vm.cr3 j / 4096 ≢ frame
  fresh_table j h p e = ground (arith, allocated.was_free, m.owned j p h)

  aligned : (page % 4096 ≡ 0) × (page + 4096 ≤ 2 ^ 32)
  aligned = omega (arith, allocated.address, allocated.in_range, m.sound.addressable)

  entry_value : bit_or page 0x3 ≡ page + 3
  entry_value = or_page_flags page 3 aligned.0 (omega arith)

  directory_entry : (j : ℕ) → cleared vm.cr3 j ≡ (if i == j then page + 3 else vm.ram vm.cr3 j)
  directory_entry j = ground (arith, fresh_directory)

  new_owned :
      (j : ℕ)
      → Present cleared vm.cr3 j
      → j < 1024
      → page_bit pmm.bitmap (cleared vm.cr3 j / 4096) ≡ 1
  new_owned j p h = elim (Bool-cases (i == j)) [
    | inl here ↦
        let at : frame ≡ cleared vm.cr3 j / 4096 = ground (arith, directory_entry j, aligned) in
        subst (λ x. page_bit pmm.bitmap x ≡ 1) at (ground (arith, allocated.bits frame))
    | inr there ↦
        let old : vm.ram vm.cr3 j ≡ cleared vm.cr3 j = ground (arith, directory_entry j) in
        subst (λ x. page_bit pmm.bitmap (x / 4096) ≡ 1) old
          (ground (arith, allocated.bits (vm.ram vm.cr3 j / 4096), m.owned j (ground arith) h))
  ]

  new-IsMapped : IsMapped (record { ram = cleared; cr3 = vm.cr3; pmm = pmm })
  new-IsMapped = record {
    words = λ f j. ground (arith, m.words f j, aligned);
    recursive = ground (arith, directory_entry 1023, m.recursive);
    itself = ground (arith, directory_entry 1023, m.itself);
    apart = λ j k p q e hj hk. ground (
      arith,
      directory_entry j,
      directory_entry k,
      fresh_table j hj,
      fresh_table k hk,
      m.apart j k,
      aligned,
    );
    owned = new_owned;
    sound = allocated.sound;
  }

  not_directory : (j : ℕ) → j < 1023 → Present vm.ram vm.cr3 j → vm.ram vm.cr3 j / 4096 ≢ vm.cr3
  not_directory j h p e = ground (arith, m.apart j 1023 p m.recursive (e ∙ sym m.itself))

  kept_entry : (j : ℕ) → i ≢ j → entry_frame cleared vm.cr3 j ≡ entry_frame vm.ram vm.cr3 j
  unfolding entry_frame
  kept_entry j ne = ground (arith, directory_entry j)

  kept_table : (t k : ℕ) → t ≢ frame → t ≢ vm.cr3 → entry_frame cleared t k ≡ entry_frame vm.ram t k
  unfolding entry_frame
  kept_table t k ne ne' = ground arith

  fresh_entry : (k : ℕ) → entry_frame cleared frame k ≡ none
  unfolding entry_frame
  fresh_entry k = ground arith

  linked_entry : entry_frame cleared vm.cr3 i ≡ some frame
  unfolding entry_frame
  linked_entry = ground (arith, directory_entry i, aligned)

  new_walk : (va : ℕ) → va < 0xFFC00000 → translate cleared vm.cr3 va ≡ translate vm.ram vm.cr3 va
  unfolding translate
  new_walk va h =
      let d = va / 2 ^ 22 in
      let k = va / 2 ^ 12 % 2 ^ 10 in
      elim (two_ways (vm.ram vm.cr3 d)) [
        | inr there ↦ ground (
          arith,
          kept_entry d,
          entry_frame-Present vm.ram vm.cr3 d there,
          kept_table (vm.ram vm.cr3 d / 4096) k,
          fresh_table d (omega arith) there,
          not_directory d (omega arith) there,
        )
        | inl missing ↦ ground (
          arith,
          kept_entry d,
          linked_entry,
          fresh_entry k,
          entry_frame-absent vm.ram vm.cr3 d missing,
        )
      ]

  absent_walk : (va : ℕ) → va / 2 ^ 22 ≡ i → walk vm va ≡ none
  absent_walk va at =
      walk-absent vm m va (omega (arith, hi)) (ap (λ d. vm.ram vm.cr3 d % 2) at ∙ absent)

  with_pmm : IsMapped (record vm { pmm = pmm })
  with_pmm = IsMapped-Allocated vm page pmm m allocated

  linked_window : translate linked vm.cr3 (table_window i) ≡ some frame
  linked_window =
      let at : table_window i ≡ 0xFFC00000 + 4096 * i + 4 * 0 = omega arith in
      let present : linked vm.cr3 i % 2 ≡ 1 = ground (arith, aligned) in
      let value : linked vm.cr3 i / 4096 ≡ frame = ground (arith, aligned) in
      ap (translate linked vm.cr3) at
      ∙ translate-table linked vm.cr3 (ground (arith, m.recursive)) (ground (arith, m.itself)) i 0
          (omega arith) (omega arith)
      ∙ entry_frame-Present linked vm.cr3 i present
      ∙ ap some value

  ensure_table_new : ensure_table i vm ≡ some (record { ram = cleared; cr3 = vm.cr3; pmm = pmm })
  unfolding ensure_table memset_page
  ensure_table_new =
      let clear : (bit_and (vm.ram vm.cr3 i) 1 == 0) ≡ true =
        ground (arith, and_one (vm.ram vm.cr3 i)) in
      rw (
        vload-directory vm m i (omega arith),
        clear,
        got,
        vstore-directory (record vm { pmm = pmm }) with_pmm i (omega arith) (bit_or page 0x3),
        entry_value,
        linked_window,
      )

  pub ensure_table-new :
      (vm' : Vm) × (ensure_table i vm ≡ some vm') × HasTable vm i vm' × (vm'.pmm ≡ pmm)
  ensure_table-new = (
    record { ram = cleared; cr3 = vm.cr3; pmm = pmm },
    ensure_table_new,
    record {
      mapped = new-IsMapped;
      present = ground (arith, directory_entry i, aligned);
      same_walk = new_walk;
      untouched = λ va at mapped. absurd (mapped (absent_walk va at));
    },
    refl,
  )

pub ensure_table-Present :
    (vm : Vm) (i : ℕ)
    → IsMapped vm
    → i < 1023
    → Present vm.ram vm.cr3 i
    → (ensure_table i vm ≡ some vm) × HasTable vm i vm
unfolding ensure_table
ensure_table-Present vm i m hi there = (
  ground (arith, vload-directory vm m i, and_one (vm.ram vm.cr3 i)),
  record {
    mapped = m;
    present = there;
    same_walk = λ va h. refl;
    untouched = λ va at mapped. refl;
  },
)
