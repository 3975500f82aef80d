-- ===== src/Paging/Entry.antt =====
-- What a write to an entry of a page table does to the translation.
use simple_kernel.Base.{
  ℕ, ◌/◌, ◌%◌, ◌^◌, ◌<◌, ◌≡◌, ◌≢◌, inl, inr, subst, sym, ◌∙◌, ◌&&◌, arith, Option, none, some, true,
  ◌==◌, if◌then◌else◌, Bool, false,
}
use simple_kernel.Pmm.Bitmap.{page_bit}
use simple_kernel.Paging.Mmu.{Vm, Ram, entry_frame, translate, put_word}
use simple_kernel.Paging.Lookup.{two_ways}
use simple_kernel.Paging.Window.{IsMapped, Present, entry_frame-Present, entry_frame-absent}

abbrev pub is_some : Option ℕ → Bool
is_some none = false
is_some (some f) = true

abbrev pub directory_index : ℕ → ℕ
directory_index va = va / 2 ^ 22

abbrev pub table_index : ℕ → ℕ
table_index va = va / 2 ^ 12 % 2 ^ 10

-- A write to one entry of the page table at `i` changes the translation of one page.
module _ (vm : Vm) (m : IsMapped vm) (i k : ℕ) (hi : i < 1023) (hk : k < 1024)
    (present : Present vm.ram vm.cr3 i) (v : ℕ) (small : v < 2 ^ 32) where
  abbrev pub table : ℕ
  table = vm.ram vm.cr3 i / 4096

  abbrev pub written : Ram
  written = put_word vm.ram table k v

  table_ne : table ≢ vm.cr3
  table_ne e = ground (arith, m.apart i 1023 present m.recursive (e ∙ sym m.itself))

  same_directory : (j : ℕ) → written vm.cr3 j ≡ vm.ram vm.cr3 j
  same_directory j = ground (arith, table_ne)

  pub written-IsMapped : IsMapped (record vm { ram = written })
  written-IsMapped = record {
    words = λ f j. ground (arith, m.words f j);
    recursive = ground (arith, same_directory 1023, m.recursive);
    itself = ground (arith, same_directory 1023, m.itself);
    apart = λ j l p q e hj hl.
        m.apart j l (ground (arith, same_directory j)) (ground (arith, same_directory l))
          (ground (arith, same_directory j, same_directory l)) hj hl;
    owned = λ j p h.
        subst (λ x. page_bit vm.pmm.bitmap (x / 4096) ≡ 1) (sym (same_directory j))
          (m.owned j (ground (arith, same_directory j)) h);
    sound = m.sound;
  }

  directory_same : (j : ℕ) → entry_frame written vm.cr3 j ≡ entry_frame vm.ram vm.cr3 j
  unfolding entry_frame
  directory_same j = ground (arith, same_directory j)

  table_entry :
      (t l : ℕ)
      → entry_frame written t l ≡ (
          if table == t && k == l
          then (if v % 2 == 0 then none else some (v / 4096))
          else entry_frame vm.ram t l)
  unfolding entry_frame
  table_entry t l = ground arith

  pub written_walk :
      (va : ℕ)
      → va < 0xFFC00000
      → translate written vm.cr3 va ≡ (
          if directory_index va == i && table_index va == k
          then (if v % 2 == 0 then none else some (v / 4096))
          else translate vm.ram vm.cr3 va)
  unfolding translate
  written_walk va h =
      let d = directory_index va in
      elim (two_ways (vm.ram vm.cr3 d)) [
        | inr there ↦ ground (
          arith,
          directory_same d,
          entry_frame-Present vm.ram vm.cr3 d there,
          table_entry (vm.ram vm.cr3 d / 4096) (table_index va),
          m.apart d i there present,
        )
        | inl missing ↦
            ground (arith, directory_same d, entry_frame-absent vm.ram vm.cr3 d missing, present)
      ]
