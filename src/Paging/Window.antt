-- ===== src/Paging/Window.antt =====
-- What the two windows of the recursive mapping show, and the invariant of the page tables.
use simple_kernel.Base.{
  ℕ, ◌+◌, ◌*◌, ◌/◌, ◌%◌, ◌^◌, ◌<◌, ◌≡◌, ap, ◌∙◌, arith, bit_or, none, some, ◌<<<◌,
}
use simple_kernel.Bits.{bit_or_fields}
use simple_kernel.Pmm.Bitmap.{page_bit}
use simple_kernel.Pmm.Sound.{IsSound}
use simple_kernel.Paging.Mmu.{Vm, Ram, entry_frame, translate, walk, vload, vstore, put_word}

abbrev pub Present : Ram → ℕ → ℕ → Type 0
Present ram table i = ram table i % 2 ≡ 1

-- The last entry of the directory maps the directory, no two entries share a page table, and the
-- frames of the directory and the tables are in use for the page allocator, which is sound.
pub record IsMapped (vm : Vm) : Type 0 where
  pub words : (f i : ℕ) → vm.ram f i < 2 ^ 32
  pub recursive : Present vm.ram vm.cr3 1023
  pub itself : vm.ram vm.cr3 1023 / 4096 ≡ vm.cr3
  pub apart :
      (i j : ℕ)
      → Present vm.ram vm.cr3 i
      → Present vm.ram vm.cr3 j
      → vm.ram vm.cr3 i / 4096 ≡ vm.ram vm.cr3 j / 4096
      → i < 1024
      → j < 1024
      → i ≡ j
  pub owned :
      (i : ℕ)
      → Present vm.ram vm.cr3 i
      → i < 1024
      → page_bit vm.pmm.bitmap (vm.ram vm.cr3 i / 4096) ≡ 1
  pub sound : IsSound vm.pmm

pub entry_frame-Present :
    (ram : Ram) (table i : ℕ)
    → Present ram table i
    → entry_frame ram table i ≡ some (ram table i / 4096)
unfolding entry_frame
entry_frame-Present ram table i h = ground arith

pub entry_frame-absent :
    (ram : Ram) (table i : ℕ) → ram table i % 2 ≡ 0 → entry_frame ram table i ≡ none
unfolding entry_frame
entry_frame-absent ram table i h = ground arith

pub directory_window : (i : ℕ) → i < 1024 → bit_or 0xFFFFF000 (i <<< 2) ≡ 0xFFFFF000 + 4 * i
directory_window i h = ground (arith, bit_or_fields 12 0xFFFFF (i <<< 2))

module _ (ram : Ram) (cr3 : ℕ) (recursive : Present ram cr3 1023)
    (itself : ram cr3 1023 / 4096 ≡ cr3) where
  last_entry : entry_frame ram cr3 1023 ≡ some cr3
  last_entry = entry_frame-Present ram cr3 1023 recursive ∙ ap some itself

  -- The addresses from 0xFFFFF000 on show the directory.
  pub translate-directory : (i : ℕ) → i < 1024 → translate ram cr3 (0xFFFFF000 + 4 * i) ≡ some cr3
  unfolding translate
  translate-directory i h =
      let e₁ : (0xFFFFF000 + 4 * i) / 2 ^ 22 ≡ 1023 = omega arith in
      let e₂ : (0xFFFFF000 + 4 * i) / 2 ^ 12 % 2 ^ 10 ≡ 1023 = omega arith in
      ground (arith, last_entry)

  -- Those from 0xFFC00000 on show the page tables, one after the other.
  pub translate-table :
      (i k : ℕ)
      → i < 1024
      → k < 1024
      → translate ram cr3 (0xFFC00000 + 4096 * i + 4 * k) ≡ entry_frame ram cr3 i
  unfolding translate
  translate-table i k h h' =
      let e₁ : (0xFFC00000 + 4096 * i + 4 * k) / 2 ^ 22 ≡ 1023 = omega arith in
      let e₂ : (0xFFC00000 + 4096 * i + 4 * k) / 2 ^ 12 % 2 ^ 10 ≡ i = omega arith in
      ground (arith, last_entry)

module _ (vm : Vm) (m : IsMapped vm) (i : ℕ) (hi : i < 1024) where
  pub vload-directory : vload (bit_or 0xFFFFF000 (i <<< 2)) vm ≡ some (vm.ram vm.cr3 i)
  unfolding vload
  vload-directory =
      ground
        (arith, directory_window i hi, translate-directory vm.ram vm.cr3 m.recursive m.itself i)

  pub vstore-directory :
      (v : ℕ)
      → vstore (bit_or 0xFFFFF000 (i <<< 2)) v vm
        ≡ some (record vm { ram = put_word vm.ram vm.cr3 i v })
  unfolding vstore
  vstore-directory v =
      let at : (0xFFFFF000 + 4 * i) / 4 % 1024 ≡ i = omega arith in
      rw (directory_window i hi, translate-directory vm.ram vm.cr3 m.recursive m.itself i hi, at)

  module _ (k : ℕ) (hk : k < 1024) (present : Present vm.ram vm.cr3 i) where
    pub walk-table : walk vm (0xFFC00000 + 4096 * i + 4 * k) ≡ some (vm.ram vm.cr3 i / 4096)
    walk-table =
        translate-table vm.ram vm.cr3 m.recursive m.itself i k hi hk
        ∙ entry_frame-Present vm.ram vm.cr3 i present

    pub vload-table :
        vload (0xFFC00000 + 4096 * i + 4 * k) vm ≡ some (vm.ram (vm.ram vm.cr3 i / 4096) k)
    unfolding vload
    vload-table =
        let at : (0xFFC00000 + 4096 * i + 4 * k) / 4 % 1024 ≡ k = omega arith in rw (walk-table, at)

    pub vstore-table :
        (v : ℕ)
        → vstore (0xFFC00000 + 4096 * i + 4 * k) v vm
          ≡ some (record vm { ram = put_word vm.ram (vm.ram vm.cr3 i / 4096) k v })
    unfolding vstore
    vstore-table v =
        let at : (0xFFC00000 + 4096 * i + 4 * k) / 4 % 1024 ≡ k = omega arith in rw (walk-table, at)
