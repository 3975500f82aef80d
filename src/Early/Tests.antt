-- ===== src/Early/Tests.antt =====
-- A machine of 16 MB with a reserved region, and the kernel at its second megabyte.
use simple_kernel.Base.{
  ◌^◌, ◌≤◌, ◌≡◌, refl, arith, false, some, List, [], ◌∷◌, bit_and, ◌<<<◌, ◌==◌,
}
use simple_kernel.Base.{ℕ, set, replicate}
use simple_kernel.Heap.{div_ceil}
use simple_kernel.Pmm.{ManagedMemory, get_page, scan}
use simple_kernel.Pmm.Runs.{AllDistinct, stop, call}
use simple_kernel.Early.{
  configured, survey, survey_round, sanitize_rounds, sanitize_round, kernel_size, configure,
  free_entries, free_rounds, free_round, early_physaddr_to_offsets,
}
use simple_kernel.Early.Handed.{AllUsable, init_frame_allocator-Run}
use simple_kernel.Early.{
  MmapEntry, KernelImage, EarlyResult, multiboot_magic, align_entry, sanitize_available,
  init_frame_allocator,
}
use simple_kernel.Early.Cut.{IsCut, sanitize_available-IsCut, align_entry-wraps}
use simple_kernel.Early.Configured.{IsOrdered, EarlyOutcome, init_frame_allocator-EarlyOutcome}

abbrev low_memory : MmapEntry
low_memory = record { addr = 0; length = 0x9F000; kind = 1 }

abbrev high_memory : MmapEntry
high_memory = record { addr = 0x100000; length = 0xF00000; kind = 1 }

abbrev hole : MmapEntry
hole = record { addr = 0xE00000; length = 0x100000; kind = 2 }

abbrev regions : List MmapEntry
regions = low_memory ∷ high_memory ∷ hole ∷ []

abbrev image : KernelImage
image = record { start = 0x100000; stop = 0x140000 }

regions-IsOrdered : IsOrdered 0 regions
regions-IsOrdered = (
  λ h. (refl, omega arith, omega arith),
  (λ h. (refl, omega arith, omega arith), (λ h. absurd ground arith, tt)),
)

has_map : (bit_and 0x4F (1 <<< 6) == 0) ≡ false
has_map = refl

init_frame_allocator-EarlyOutcome_example :
    (r : EarlyResult) × (init_frame_allocator image multiboot_magic 0x4F regions ≡ some r)
    × EarlyOutcome image regions r
init_frame_allocator-EarlyOutcome_example =
    init_frame_allocator-EarlyOutcome image regions regions-IsOrdered 0x4F has_map

sanitize_available-IsCut_example :
    IsCut regions high_memory (sanitize_available regions high_memory)
sanitize_available-IsCut_example =
    sanitize_available-IsCut regions high_memory refl refl (omega arith)

abbrev short_region : MmapEntry
short_region = record { addr = 0x9F400; length = 0x100; kind = 1 }

align_entry-wraps_example : 2 ^ 63 ≤ (align_entry short_region).length
align_entry-wraps_example =
    align_entry-wraps short_region (λ h. omega arith) (omega arith) (omega arith)

-- Eight pages from the second megabyte on, with a kernel of one page at their start.
abbrev eight_pages : List MmapEntry
eight_pages = record { addr = 0x100000; length = 0x8000; kind = 1 } ∷ []

abbrev small_image : KernelImage
small_image = record { start = 0x100000; stop = 0x101000 }

-- The allocator with its last byte, and the next page's number in it.
abbrev memory_with : ℕ → ℕ → ManagedMemory
memory_with byte offset = record {
  bitmap = set (replicate 33 0xFF) 32 byte;
  size = 33;
  next_index = 32;
  next_offset = offset;
  free_pages = 6;
  set_up = false;
}

small_set_up :
    init_frame_allocator small_image multiboot_magic 0x4F eight_pages
    ≡ some (configured 0x101000 (memory_with 3 2))
unfolding init_frame_allocator survey survey_round sanitize_available sanitize_rounds sanitize_round
    align_entry kernel_size configure free_entries free_rounds free_round early_physaddr_to_offsets
    div_ceil
small_set_up = refl

first_call : get_page (memory_with 3 2) ≡ some (0x102000, memory_with 7 3)
unfolding get_page scan
first_call = refl

second_call : get_page (memory_with 7 3) ≡ some (0x103000, memory_with 15 4)
unfolding get_page scan
second_call = refl

eight_pages-IsOrdered : IsOrdered 0 eight_pages
eight_pages-IsOrdered = (λ h. (refl, omega arith, omega arith), tt)

init_frame_allocator-Run_example :
    AllUsable small_image eight_pages 33 (0x102000 ∷ 0x103000 ∷ [])
    × AllDistinct (0x102000 ∷ 0x103000 ∷ [])
init_frame_allocator-Run_example =
    init_frame_allocator-Run small_image eight_pages eight_pages-IsOrdered 0x4F 0x101000
      (memory_with 3 2) (memory_with 15 4) (0x102000 ∷ 0x103000 ∷ []) 258 has_map small_set_up refl
      (call first_call (call second_call stop))
