-- ===== src/Late/Samples.antt =====
-- A kernel of one page, and a bitmap of three bytes in the frame 5.
use simple_kernel.Base.{
  ℕ, zero, suc, ◌+◌, ◌/◌, ◌^◌, ◌≤◌, ◌<◌, ◌≡◌, ◌⊎◌, inl, inr, refl, arith, none, [], ◌∷◌, ◌==◌, ◌&&◌,
  false, if◌then◌else◌,
}
use simple_kernel.Heap.{div_ceil}
use simple_kernel.Pmm.{ManagedMemory}
use simple_kernel.Pmm.Bitmap.{IsBytes, page_bit}
use simple_kernel.Pmm.Sound.{IsSound}
use simple_kernel.Paging.Mmu.{Vm, walk, translate, entry_frame}
use simple_kernel.Paging.Window.{IsMapped, Present}
use simple_kernel.Late.{KernelSymbols, kernel_page_count}
use simple_kernel.Late.Mapped.{page_at, pages_of}

-- Pages 0 to 3 of 24 are in use.
abbrev pub early_memory : ManagedMemory
early_memory = record {
  bitmap = 0x0F ∷ 0 ∷ 0 ∷ [];
  size = 3;
  next_index = 0;
  next_offset = 4;
  free_pages = 20;
  set_up = false;
}

early_memory-IsBytes : IsBytes early_memory.bitmap
early_memory-IsBytes zero = omega arith
early_memory-IsBytes (suc zero) = omega arith
early_memory-IsBytes (suc (suc zero)) = omega arith
early_memory-IsBytes (suc (suc (suc i))) = omega arith

pub early_memory-IsSound : IsSound early_memory
early_memory-IsSound = record {
  sized = refl;
  addressable = omega arith;
  bytes = early_memory-IsBytes;
  next_bound = omega arith;
  next_in_byte = λ h. omega arith;
  next_free = λ h. refl;
  all_used = λ h p. absurd (omega arith);
}

-- The directory in frame 1, and the page table of the kernel in frame 2, which maps its page and has
-- the entry `v` for the page at 0xC03FE000.
abbrev pub boot_vm : ℕ → Vm
boot_vm v = record {
  ram = λ f i.
      if f == 1 && i == 1023
      then 0x1003
      else if f == 1 && i == 768
      then 0x2003
      else if f == 2 && i == 0
      then 0x3003
      else if f == 2 && i == 1022
      then v
      else 0;
  cr3 = 1;
  pmm = early_memory;
}

boot_vm-words : (v f i : ℕ) → v < 2 ^ 32 → (boot_vm v).ram f i < 2 ^ 32
boot_vm-words v f i h = ground arith

boot_vm-apart :
    (v i j : ℕ)
    → Present (boot_vm v).ram 1 i
    → Present (boot_vm v).ram 1 j
    → (boot_vm v).ram 1 i / 4096 ≡ (boot_vm v).ram 1 j / 4096
    → i ≡ j
boot_vm-apart v i j = ground arith

boot_vm-owned :
    (v i : ℕ)
    → Present (boot_vm v).ram 1 i
    → ((boot_vm v).ram 1 i / 4096 ≡ 1) ⊎ ((boot_vm v).ram 1 i / 4096 ≡ 2)
boot_vm-owned v i = ground arith

owned_bit : (f : ℕ) → (f ≡ 1) ⊎ (f ≡ 2) → page_bit early_memory.bitmap f ≡ 1
owned_bit f (inl e) = rw e refl
owned_bit f (inr e) = rw e refl

pub boot_vm-IsMapped : (v : ℕ) → v < 2 ^ 32 → IsMapped (boot_vm v)
boot_vm-IsMapped v small = record {
  words = λ f i. boot_vm-words v f i small;
  recursive = refl;
  itself = refl;
  apart = λ i j p q e hi hj. boot_vm-apart v i j p q e;
  owned = λ i p h. owned_bit ((boot_vm v).ram 1 i / 4096) (boot_vm-owned v i p);
  sound = early_memory-IsSound;
}

abbrev pub image : KernelSymbols
image = record { start = 0xC0000000; stop = 0xC0001000 }

pub one_page : kernel_page_count image ≡ 1
unfolding kernel_page_count div_ceil
one_page = refl

pub one_more : pages_of 3 ≡ 1
unfolding div_ceil
one_more = refl

pub unmapped :
    (v j : ℕ)
    → kernel_page_count image ≤ j
    → j < kernel_page_count image + pages_of 3
    → walk (boot_vm v) (page_at j) ≡ none
unfolding translate entry_frame
unmapped v j lo hi = let at : j ≡ 1 = omega (arith, one_page, one_more) in rw at refl
