-- ===== src/Paging/Unmap.antt =====
-- `unmap_page` writes a word whose lowest bit is set, so the page stays mapped.
use simple_kernel.Base.{ℕ, ◌+◌, ◌-◌, ◌*◌, ◌/◌, ◌%◌, ◌^◌, ◌<◌, ◌≡◌, ap, ◌∙◌, arith, some}
use simple_kernel.Bits.Masks.{and_index_mask}
use simple_kernel.Paging.Mmu.{Vm, walk, put_word}
use simple_kernel.Paging.{unmap_page, get_physaddr, table_window}
use simple_kernel.Paging.Lookup.{get_physaddr-walk, physical}
use simple_kernel.Paging.Entry.{directory_index, table_index, written-IsMapped, written_walk}
use simple_kernel.Paging.Window.{IsMapped, Present, vstore-table}

abbrev pub ones : ℕ
ones = 2 ^ 32 - 1

module _ (vm : Vm) (m : IsMapped vm) (va : ℕ) (hva : va < 0xFFC00000)
    (there : Present vm.ram vm.cr3 (directory_index va)) where
  abbrev index : ℕ
  index = directory_index va

  small : ones < 2 ^ 32
  small = omega arith

  abbrev unmapped : Vm
  unmapped = record vm {
    ram = put_word vm.ram (vm.ram vm.cr3 (directory_index va) / 4096) (table_index va) ones;
  }

  unmap_page_result : unmap_page va vm ≡ some (0, unmapped)
  unfolding unmap_page
  unmap_page_result =
      let at : table_window (directory_index va) + 4 * table_index va
          ≡ 0xFFC00000 + 4096 * directory_index va + 4 * table_index va =
        omega arith in
      rw (
        and_index_mask (va / 2 ^ 12),
        at,
        vstore-table vm m (directory_index va) (omega arith) (table_index va) (omega arith) there
            ones,
      )

  -- After `unmap_page` of a page with a page table the tables are well formed, but the page is
  -- still mapped: `get_physaddr` gives an address in the last frame instead of `NULL`, whatever
  -- the page was mapped to before.
  pub get_physaddr-unmap_page :
      (vm' : Vm) × (unmap_page va vm ≡ some (0, vm'))
      × IsMapped vm'
      × (get_physaddr va vm' ≡ some (0xFFFFF000 + va % 4096))
  get_physaddr-unmap_page =
      let i = directory_index va in
      let k = table_index va in
      let m' = written-IsMapped vm m i k (omega arith) (omega arith) there ones small in
      let last_frame : walk unmapped va ≡ some 0xFFFFF =
        ground (arith, written_walk vm m i k (omega arith) (omega arith) there ones small va hva) in
      (
        unmapped,
        unmap_page_result,
        m',
        get_physaddr-walk unmapped m' va (omega arith) ∙ ap (λ w. some (physical va w)) last_frame,
      )
