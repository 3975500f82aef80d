-- ===== src/Paging/Lookup.antt =====
-- `get_physaddr` is the processor's own translation.
use simple_kernel.Base.{
  ℕ, ◌+◌, ◌*◌, ◌/◌, ◌%◌, ◌^◌, ◌<◌, ◌≡◌, ◌⊎◌, inl, inr, arith, bit_or, Option, none, some, ◌<<<◌,
}
use simple_kernel.Bits.{bit_or_fields}
use simple_kernel.Bits.Masks.{and_one, and_index_mask, and_page_mask, and_not_page, or_page_flags}
use simple_kernel.Paging.Mmu.{Vm, entry_frame, translate, walk}
use simple_kernel.Paging.{get_physaddr}
use simple_kernel.Paging.Window.{
  IsMapped, Present, vload-directory, vload-table, entry_frame-Present, entry_frame-absent,
}

-- The physical address behind `va`, and 0 where it has none.
abbrev pub physical : ℕ → Option ℕ → ℕ
physical va none = 0
physical va (some f) = f * 4096 + va % 4096

pub two_ways : (x : ℕ) → (x % 2 ≡ 0) ⊎ (x % 2 ≡ 1)
two_ways x = ground arith

pub table_address :
    (i k : ℕ)
    → i < 1024
    → k < 1024
    → bit_or (bit_or 0xFFC00000 (i <<< 12)) (k <<< 2) ≡ 0xFFC00000 + 4096 * i + 4 * k
table_address i k h h' =
    ground (arith, bit_or_fields 22 0x3FF (i <<< 12), bit_or_fields 12 (0xFFC00 + i) (k <<< 2))

module _ (vm : Vm) (m : IsMapped vm) (va : ℕ) (h : va < 2 ^ 32) where
  pub walk-absent : vm.ram vm.cr3 (va / 2 ^ 22) % 2 ≡ 0 → walk vm va ≡ none
  unfolding translate
  walk-absent absent = rw (entry_frame-absent vm.ram vm.cr3 (va / 2 ^ 22) absent, translate)

  pub walk-Present :
      Present vm.ram vm.cr3 (va / 2 ^ 22)
      → walk vm va ≡ entry_frame vm.ram (vm.ram vm.cr3 (va / 2 ^ 22) / 4096) (va / 2 ^ 12 % 2 ^ 10)
  unfolding translate
  walk-Present present = rw (entry_frame-Present vm.ram vm.cr3 (va / 2 ^ 22) present, translate)

  -- On page tables that are mapped to themselves and for an address of 32 bits, `get_physaddr`
  -- returns the physical address that the processor translates `va` to, and `NULL` if there is
  -- none; it never faults.
  pub get_physaddr-walk : get_physaddr va vm ≡ some (physical va (walk vm va))
  unfolding get_physaddr
  get_physaddr-walk =
      let i = va / 2 ^ 22 in
      let k = va / 2 ^ 12 % 2 ^ 10 in
      let table = vm.ram vm.cr3 i / 4096 in
      let page = vm.ram table k in
      elim (two_ways (vm.ram vm.cr3 i)) [
        | inl absent ↦ ground (
          arith,
          vload-directory vm m i (omega arith),
          and_one (vm.ram vm.cr3 i),
          walk-absent absent,
        )
        | inr present ↦ elim (two_ways page) [
          | inl absent ↦ ground (
            arith,
            vload-directory vm m i (omega arith),
            and_one (vm.ram vm.cr3 i),
            and_index_mask (va / 2 ^ 12),
            table_address i k (omega arith) (omega arith),
            vload-table vm m i (omega arith) k (omega arith) present,
            and_one page,
            walk-Present present,
            entry_frame-absent vm.ram table k absent,
          )
          | inr there ↦ ground (
            arith,
            vload-directory vm m i (omega arith),
            and_one (vm.ram vm.cr3 i),
            and_index_mask (va / 2 ^ 12),
            table_address i k (omega arith) (omega arith),
            vload-table vm m i (omega arith) k (omega arith) present,
            and_one page,
            walk-Present present,
            entry_frame-Present vm.ram table k there,
            and_page_mask va,
            and_not_page page (m.words table k),
            or_page_flags (page / 4096 * 4096) (va % 4096),
          )
        ]
      ]
