-- ===== src/Paging/Tests.antt =====
-- Page tables of which only the directory is there, in the frame 1.
use simple_kernel.Base.{
  ℕ, zero, suc, ◌/◌, ◌^◌, ◌<◌, ◌≡◌, ◌⊎◌, inl, inr, refl, arith, some, [], ◌∷◌, ◌==◌, ◌&&◌,
  if◌then◌else◌, true,
}
use simple_kernel.Pmm.{ManagedMemory}
use simple_kernel.Pmm.Bitmap.{IsBytes, page_bit}
use simple_kernel.Pmm.Sound.{IsSound}
use simple_kernel.Paging.Mmu.{Vm, walk}
use simple_kernel.Paging.{get_physaddr, map_page, unmap_page}
use simple_kernel.Paging.Window.{IsMapped, Present}
use simple_kernel.Paging.Lookup.{physical, get_physaddr-walk}
use simple_kernel.Paging.Map.{Maps, Takes, map_page-Maps}
use simple_kernel.Paging.Unmap.{get_physaddr-unmap_page}

-- Pages 0 to 3 of eight are in use.
abbrev one_byte : ManagedMemory
one_byte = record {
  bitmap = 0x0F ∷ [];
  size = 1;
  next_index = 0;
  next_offset = 4;
  free_pages = 4;
  set_up = true;
}

one_byte-IsBytes : IsBytes one_byte.bitmap
one_byte-IsBytes zero = omega arith
one_byte-IsBytes (suc i) = omega arith

one_byte-IsSound : IsSound one_byte
one_byte-IsSound = record {
  sized = refl;
  addressable = omega arith;
  bytes = one_byte-IsBytes;
  next_bound = omega arith;
  next_in_byte = λ h. omega arith;
  next_free = λ h. refl;
  all_used = λ h p. absurd (omega arith);
}

-- The directory in frame 1, its last entry naming it, and a page table in frame 2 for the lowest
-- 4 MB, whose first page is in frame 3.
abbrev small_vm : Vm
small_vm = record {
  ram = λ f i.
      if f == 1 && i == 1023
      then 0x1003
      else if f == 1 && i == 0
      then 0x2003
      else if f == 2 && i == 0
      then 0x3003
      else 0;
  cr3 = 1;
  pmm = one_byte;
}

small_vm-words : (f i : ℕ) → small_vm.ram f i < 2 ^ 32
small_vm-words f i = ground arith

small_vm-apart :
    (i j : ℕ)
    → Present small_vm.ram 1 i
    → Present small_vm.ram 1 j
    → small_vm.ram 1 i / 4096 ≡ small_vm.ram 1 j / 4096
    → i ≡ j
small_vm-apart i j = ground arith

small_vm-owned :
    (i : ℕ)
    → Present small_vm.ram 1 i
    → (small_vm.ram 1 i / 4096 ≡ 1) ⊎ (small_vm.ram 1 i / 4096 ≡ 2)
small_vm-owned i = ground arith

owned_bit : (f : ℕ) → (f ≡ 1) ⊎ (f ≡ 2) → page_bit one_byte.bitmap f ≡ 1
owned_bit f (inl e) = rw e refl
owned_bit f (inr e) = rw e refl

small_vm-IsMapped : IsMapped small_vm
small_vm-IsMapped = record {
  words = small_vm-words;
  recursive = refl;
  itself = refl;
  apart = λ i j p q e hi hj. small_vm-apart i j p q e;
  owned = λ i p hi. owned_bit (small_vm.ram 1 i / 4096) (small_vm-owned i p);
  sound = one_byte-IsSound;
}

get_physaddr-walk_example :
    get_physaddr 0x123 small_vm ≡ some (physical 0x123 (walk small_vm 0x123))
get_physaddr-walk_example = get_physaddr-walk small_vm small_vm-IsMapped 0x123 (omega arith)

map_page-Maps_example :
    (code : ℕ) × (vm' : Vm) × (map_page 0x7000 0xE0000000 0x103 small_vm ≡ some (code, vm'))
    × Maps 0x7000 0xE0000000 small_vm code vm'
    × Takes small_vm vm'
map_page-Maps_example =
    map_page-Maps 0x7000 0xE0000000 0x103 refl (omega arith) refl (omega arith) small_vm
      small_vm-IsMapped (inr (omega arith))

get_physaddr-unmap_page_example :
    (vm' : Vm) × (unmap_page 0x10 small_vm ≡ some (0, vm'))
    × IsMapped vm'
    × (get_physaddr 0x10 vm' ≡ some 0xFFFFF010)
get_physaddr-unmap_page_example =
    get_physaddr-unmap_page small_vm small_vm-IsMapped 0x10 (omega arith) refl
