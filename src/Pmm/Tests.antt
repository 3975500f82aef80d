-- ===== src/Pmm/Tests.antt =====
-- The page allocator on a bitmap of two bytes.
use simple_kernel.Base.{
  ℕ, zero, suc, ◌%◌, refl, ◌≡◌, arith, some, none, List, [], ◌∷◌, get_or, true, if◌then◌else◌, ◌==◌,
  ◌/◌,
}
use simple_kernel.Pmm.{ManagedMemory, get_page, free_page, page_size, scan, ◌>>=◌}
use simple_kernel.Pmm.Bitmap.{IsBytes, page_bit}
use simple_kernel.Pmm.Sound.{IsSound}
use simple_kernel.Pmm.Scan.{bit_full}
use simple_kernel.Pmm.Allocate.{
  Allocated, Freed, get_page-Allocated, get_page-exhausted, free_page-Freed,
}
use simple_kernel.Pmm.Reuse.{get_page-free_page}

-- All pages but numbers 1 and 9 are in use.
abbrev two_bytes : List ℕ
two_bytes = 0xFD ∷ 0xFD ∷ []

abbrev two_free : ManagedMemory
two_free = record {
  bitmap = two_bytes;
  size = 2;
  next_index = 0;
  next_offset = 1;
  free_pages = 2;
  set_up = true;
}

abbrev one_free : ManagedMemory
one_free = record two_free { bitmap = 0xFF ∷ 0xFD ∷ []; next_index = 1; next_offset = 1 }

abbrev none_free : ManagedMemory
none_free = record two_free { bitmap = 0xFF ∷ 0xFF ∷ []; next_index = 2; next_offset = 1 }

two_bytes-IsBytes : IsBytes two_bytes
two_bytes-IsBytes zero = omega arith
two_bytes-IsBytes (suc zero) = omega arith
two_bytes-IsBytes (suc (suc i)) = omega arith

none_free-IsBytes : IsBytes none_free.bitmap
none_free-IsBytes zero = omega arith
none_free-IsBytes (suc zero) = omega arith
none_free-IsBytes (suc (suc i)) = omega arith

two_free-IsSound : IsSound two_free
two_free-IsSound = record {
  sized = refl;
  addressable = omega arith;
  bytes = two_bytes-IsBytes;
  next_bound = omega arith;
  next_in_byte = λ h. omega arith;
  next_free = λ h. refl;
  all_used = λ h p. absurd (omega arith);
}

byte_of_full : (i : ℕ) → get_or none_free.bitmap i 0xFF ≡ 0xFF
byte_of_full zero = refl
byte_of_full (suc zero) = refl
byte_of_full (suc (suc i)) = refl

none_free_used : (p : ℕ) → page_bit none_free.bitmap p ≡ 1
none_free_used p = ground (arith, byte_of_full (p / 8), bit_full (p % 8))

none_free-IsSound : IsSound none_free
none_free-IsSound = record {
  sized = refl;
  addressable = omega arith;
  bytes = none_free-IsBytes;
  next_bound = omega arith;
  next_in_byte = λ h. absurd (omega arith);
  next_free = λ h. absurd (omega arith);
  all_used = λ h. none_free_used;
}

get_page-Allocated_example :
    (page : ℕ) × (m' : ManagedMemory) × (get_page two_free ≡ some (page, m'))
    × Allocated two_free page m'
get_page-Allocated_example = get_page-Allocated two_free-IsSound (omega arith)

get_page-exhausted_example : get_page none_free ≡ none
get_page-exhausted_example = get_page-exhausted none_free-IsSound none_free_used

free_page-Freed_example :
    (m' : ManagedMemory) × (free_page 0x5000 none_free ≡ some m') × Freed none_free 0x5000 m'
free_page-Freed_example = free_page-Freed none_free-IsSound 0x5000 (omega arith)

first_call : get_page two_free ≡ some (0x1000, one_free)
unfolding get_page scan
first_call = refl

second_call : get_page one_free ≡ some (0x9000, none_free)
unfolding get_page scan
second_call = refl

get_page-free_page_example :
    (m' : ManagedMemory) × ((free_page 0x5000 none_free >>= get_page) ≡ some (0x5000, m'))
    × ((q : ℕ)
        → page_bit m'.bitmap q
          ≡ (if 0x5000 / page_size == q then 1 else page_bit none_free.bitmap q))
get_page-free_page_example = get_page-free_page none_free-IsSound 0x5000 (omega arith) refl
