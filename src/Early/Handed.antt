-- ===== src/Early/Handed.antt =====
-- What the allocator hands out after its set-up.
use mathlib.Core.Option.{some-injective}
use simple_kernel.Base.{
  ℕ, ◌/◌, ◌≡◌, ◌⊎◌, inl, inr, sym, ◌∙◌, subst, arith, bit_and, Bool, true, false, ◌&&◌, some, List,
  [], ◌∷◌, map, ◌==◌, if◌then◌else◌, ◌<<<◌,
}
use simple_kernel.Pmm.{ManagedMemory, page_size}
use simple_kernel.Pmm.Bitmap.{page_bit}
use simple_kernel.Pmm.Sound.{IsSound}
use simple_kernel.Pmm.Runs.{Run, AllFree, AllDistinct, Run-AllDistinct}
use simple_kernel.Early.{
  MmapEntry, KernelImage, EarlyResult, configured, multiboot_magic, sanitize_available,
  init_frame_allocator,
}
use simple_kernel.Early.Release.{is_covered, is_open}
use simple_kernel.Early.Configured.{
  IsOrdered, IsConfigured, EarlyOutcome, kept_end, init_frame_allocator-EarlyOutcome,
}

-- The page at `page` lies whole in an available entry, above the first megabyte and outside the
-- kernel and the bitmap of `size` bytes.
abbrev pub IsUsable : KernelImage → List MmapEntry → ℕ → ℕ → Type 0
IsUsable image mmap size page =
    (is_covered (map (sanitize_available mmap) mmap) (page / page_size) ≡ true)
    × (is_open image.start (kept_end image size) (page / page_size) ≡ true)

abbrev pub AllUsable : KernelImage → List MmapEntry → ℕ → List ℕ → Type 0
AllUsable image mmap size [] = Unit {0}
AllUsable image mmap size (page ∷ pages) =
    IsUsable image mmap size page × AllUsable image mmap size pages

configured-injective :
    (a a' : ℕ) (m m' : ManagedMemory)
    → ◌≡◌ {A = EarlyResult} (configured a m) (configured a' m')
    → (a ≡ a') × (m ≡ m')
configured-injective a a' m m' e = (cc, cc)

outcome-IsConfigured :
    (image : KernelImage) (mmap : List MmapEntry) (a : ℕ) (m : ManagedMemory) (r : EarlyResult)
    → r ≡ configured a m
    → EarlyOutcome image mmap r
    → IsConfigured image mmap a m
outcome-IsConfigured image mmap a m r e outcome = (subst (EarlyOutcome image mmap) e outcome).1

free_usable :
    (covered opened : Bool) (bit : ℕ)
    → bit ≡ 0
    → bit ≡ (if covered && opened then 0 else 1)
    → (covered ≡ true) × (opened ≡ true)
free_usable covered opened bit free e = ground arith

AllFree-AllUsable :
    (image : KernelImage) (mmap : List MmapEntry) (a : ℕ) (m : ManagedMemory) (pages : List ℕ)
    → IsConfigured image mmap a m
    → AllFree m pages
    → AllUsable image mmap m.size pages
AllFree-AllUsable image mmap a m [] set_up free = tt
AllFree-AllUsable image mmap a m (page ∷ pages) set_up (free, others) = (
  free_usable _ _ _ free (set_up.bits (page / page_size)),
  AllFree-AllUsable image mmap a m pages set_up others,
)

free_page-IsSound :
    (m : ManagedMemory) (q : ℕ)
    → IsSound m ⊎ ((p : ℕ) → page_bit m.bitmap p ≡ 1)
    → page_bit m.bitmap q ≡ 0
    → IsSound m
free_page-IsSound m q (inl sound) free = sound
free_page-IsSound m q (inr used) free = absurd (omega (arith, used q, free))

-- After a set-up that left a page free, from a map whose available entries start at pages, in order
-- and below 4 GB, every page that a run of `get_page` calls hands out lies in an available entry, as
-- sanitized, above the first megabyte and outside the kernel and the bitmap, and no page is handed
-- out twice.
pub init_frame_allocator-Run :
    (image : KernelImage) (mmap : List MmapEntry) (ordered : IsOrdered 0 mmap) (flags a : ℕ)
    (m m' : ManagedMemory) (pages : List ℕ) (q : ℕ)
    → (bit_and flags (1 <<< 6) == 0) ≡ false
    → init_frame_allocator image multiboot_magic flags mmap ≡ some (configured a m)
    → page_bit m.bitmap q ≡ 0
    → Run m pages m'
    → AllUsable image mmap m.size pages × AllDistinct pages
init_frame_allocator-Run image mmap ordered flags a m m' pages q has_map e free run =
    let (r, e', outcome) = init_frame_allocator-EarlyOutcome image mmap ordered flags has_map in
    let set_up = outcome-IsConfigured image mmap a m r (some-injective _ _ (sym e' ∙ e)) outcome in
    let (frees, distinct) =
      Run-AllDistinct m pages m' (free_page-IsSound m q set_up.sound free) run in
    (AllFree-AllUsable image mmap a m pages set_up frees, distinct)
