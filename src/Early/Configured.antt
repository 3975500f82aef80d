-- ===== src/Early/Configured.antt =====
-- `init_frame_allocator`: the bitmap that it leaves, and that the allocator may start from it.
use mathlib.Core.Path.{subst}
use simple_kernel.Base.{
  ℕ, ◌+◌, ◌*◌, ◌/◌, ◌%◌, ◌^◌, ◌≤◌, ◌≡◌, ◌⊎◌, inl, inr, refl, sym, ap, ◌∙◌, arith, bit_and, Bool,
  Bool-cases, Option-cases, true, false, ◌&&◌, Option, none, some, List, [], ◌∷◌, map, leb, ◌==◌,
  if◌then◌else◌, u32, ◌<<<◌, replicate, length-replicate, get_or-replicate,
}
use simple_kernel.Pmm.{ManagedMemory, page_size}
use simple_kernel.Pmm.Bitmap.{page_bit}
use simple_kernel.Pmm.Scan.{bit_full}
use simple_kernel.Pmm.Sound.{IsSound}
use simple_kernel.Heap.{div_ceil}
use simple_kernel.Early.{
  MmapEntry, KernelImage, Survey, Freeing, EarlyResult, hangs, gives_up, configured, is_available,
  sanitize_available, survey_round, survey, kernel_size, configure, init_frame_allocator,
  multiboot_magic, u64,
}
use simple_kernel.Early.Cut.{sanitize_available-IsCut}
use simple_kernel.Early.Release.{Progress, is_covered, is_open, IsTidy, free_entries_lem}

-- The available entries start at pages, one behind the other, and end below 4 GB.
abbrev pub IsOrdered : ℕ → List MmapEntry → Type 0
IsOrdered from [] = Unit {0}
IsOrdered from (e ∷ mmap) =
    (is_available e ≡ true
      → (e.addr % page_size ≡ 0) × (from ≤ e.addr) × (e.addr + e.length ≤ 2 ^ 32))
    × IsOrdered (if is_available e then e.addr + e.length else from) mmap

-- The available entries start at pages and end at `bound` or before.
abbrev EndsBefore : ℕ → List MmapEntry → Type 0
EndsBefore bound [] = Unit {0}
EndsBefore bound (e ∷ mmap) =
    (is_available e ≡ true → (e.addr % page_size ≡ 0) × (e.addr + e.length ≤ bound))
    × EndsBefore bound mmap

abbrev pub last_end : Survey → ℕ
last_end s = s.last_addr + s.last_size

module _ (image : KernelImage) (mmap : List MmapEntry) where
  round_available :
      (e : MmapEntry) (s : Survey) (from : ℕ)
      → is_available e ≡ true
      → e.addr % page_size ≡ 0
      → e.addr + e.length ≤ 2 ^ 32
      → let e' = sanitize_available mmap e in
        (is_available e' ≡ true)
        × (e'.addr ≡ e.addr)
        × (e'.length ≤ e.length)
        × (last_end (survey_round image mmap e s) ≡ e'.addr + e'.length)
  unfolding survey_round
  round_available e s from available aligned small =
      let cut = sanitize_available-IsCut mmap e available aligned (omega arith) in
      (ground (arith, cut.same_kind), cut.same_addr, cut.shorter, ground (arith, cut.same_kind))

  round_reserved :
      (e : MmapEntry) (s : Survey)
      → is_available e ≡ false
      → (sanitize_available mmap e ≡ e) × (last_end (survey_round image mmap e s) ≡ last_end s)
  unfolding survey_round sanitize_available
  round_reserved e s reserved = (rw (reserved, sanitize_available) refl, ground arith)

  survey_lem :
      (rest : List MmapEntry) (s : Survey) (from : ℕ)
      → IsOrdered from rest
      → last_end s ≤ from
      → from ≤ 2 ^ 32
      → (last_end s ≤ last_end (survey image mmap rest s))
        × (last_end (survey image mmap rest s) ≤ 2 ^ 32)
        × EndsBefore (last_end (survey image mmap rest s)) (map (sanitize_available mmap) rest)
  unfolding survey
  survey_lem [] s from ordered before low = (omega arith, omega arith, tt)
  survey_lem (e ∷ rest) s from (here, ordered) before low = elim (Bool-cases (is_available e)) [
    | inl available ↦
        let (aligned, behind, bound) = here available in
        let (kept, at, shorter, end) = round_available e s from available aligned bound in
        let s' = survey_round image mmap e s in
        let (grows, fits, others) =
          survey_lem rest s' (e.addr + e.length)
            (subst (λ b. IsOrdered (if b then e.addr + e.length else from) rest) available ordered)
            (omega (arith, end, at, shorter)) bound in
        (
          omega (arith, grows, end, at, behind),
          fits,
          (λ h. (omega (arith, at, aligned), omega (arith, grows, end)), others),
        )
    | inr reserved ↦
        let (same, end) = round_reserved e s reserved in
        let s' = survey_round image mmap e s in
        let (grows, fits, others) =
          survey_lem rest s' from
            (subst (λ b. IsOrdered (if b then e.addr + e.length else from) rest) reserved ordered)
            (omega (arith, end)) low in
        let not_available : is_available (sanitize_available mmap e) ≡ false =
          ap is_available same ∙ reserved in
        (omega (arith, grows, end), fits, (λ h. cc, others))
  ]

-- The bytes of the bitmap that the code makes for memory up to `total`.
abbrev pub bitmap_bytes : ℕ → ℕ
bitmap_bytes total = div_ceil (u32 (u64 total / page_size)) 8

bitmap_bytes_lem :
    (total : ℕ)
    → total ≤ 2 ^ 32
    → (total / page_size ≤ bitmap_bytes total * 8) × (bitmap_bytes total ≤ 2 ^ 17)
unfolding div_ceil
bitmap_bytes_lem total h = omega arith

EndsBefore-IsTidy :
    (bound size : ℕ) (mmap : List MmapEntry)
    → bound / page_size ≤ size * 8
    → EndsBefore bound mmap
    → IsTidy size mmap
EndsBefore-IsTidy bound size [] h e = tt
EndsBefore-IsTidy bound size (e ∷ mmap) h (here, others) = (
  λ available. let (aligned, fits) = here available in (aligned, omega (arith, fits)),
  EndsBefore-IsTidy bound size mmap h others,
)

full_pmm : ℕ → ManagedMemory
full_pmm size = record {
  bitmap = replicate size 0xFF;
  size = size;
  next_index = 0;
  next_offset = 0;
  free_pages = 0;
  set_up = false;
}

full_Progress :
    (size : ℕ) → Progress size (λ p. false) (record { pmm = full_pmm size; next_set = false })
unfolding full_pmm
full_Progress size = record {
  sized = length-replicate size 0xFF;
  kept_size = refl;
  bytes = λ i. omega (arith, get_or-replicate {A = ℕ} size i 0xFF);
  bits = λ p. ground (arith, get_or-replicate {A = ℕ} size (p / 8) 0xFF, bit_full (p % 8));
  next_bound = λ e. cc;
  next_in_byte = λ e. cc;
  next_free = λ e. cc;
  none_free = λ e p. refl;
}

Progress-IsSound :
    (size : ℕ) (free : ℕ → Bool) (s : Freeing)
    → Progress size free s
    → size ≤ 2 ^ 17
    → IsSound s.pmm ⊎ ((p : ℕ) → page_bit s.pmm.bitmap p ≡ 1)
Progress-IsSound size free s h small = elim (Bool-cases s.next_set) [
  | inr unset ↦ inr (λ p. ground (arith, h.bits p, h.none_free unset p))
  | inl set ↦
      let bound = h.next_bound set in
      inl record {
        sized = h.sized ∙ sym h.kept_size;
        addressable = omega (arith, h.kept_size);
        bytes = h.bytes;
        next_bound = omega (arith, h.kept_size);
        next_in_byte = λ e. h.next_in_byte set;
        next_free =
            λ e. ground (arith, h.bits (s.pmm.next_index * 8 + s.pmm.next_offset), h.next_free set);
        all_used = λ e. absurd (omega (arith, h.kept_size));
      }
]

-- The end of the kernel's pages and the bitmap's, which stands behind them.
abbrev pub kept_end : KernelImage → ℕ → ℕ
kept_end image size = u32 (
    image.start
    + page_size * u32 (div_ceil (kernel_size image) page_size + div_ceil size page_size))

abbrev pub surveyed : KernelImage → List MmapEntry → Survey
surveyed image mmap =
    survey image mmap mmap (record { kernel_entry = none; last_addr = 0; last_size = 0 })

-- Whether the kernel's entry has the pages for the kernel and a bitmap of `size` bytes.
abbrev pub has_room : KernelImage → ℕ → Option MmapEntry → Bool
has_room image size none = false
has_room image size (some e) =
    leb (u32 (div_ceil (kernel_size image) page_size + div_ceil size page_size))
      (e.length / page_size)

-- The allocator that is set up covers memory up to the last available entry's end. A page is free
-- exactly if it lies whole in an available entry as it is sanitized, above the first megabyte and
-- outside the kernel and the bitmap; and either the invariant of `get_page` holds or no page is
-- free.
pub record IsConfigured (image : KernelImage) (mmap : List MmapEntry) (bitmap_addr : ℕ)
    (m : ManagedMemory) : Type 0 where
  pub sized : m.size ≡ bitmap_bytes (last_end (surveyed image mmap))
  pub place : bitmap_addr ≡ u32 (image.start + div_ceil (kernel_size image) page_size * page_size)
  pub bits :
      (p : ℕ)
      → page_bit m.bitmap p ≡ (
          if is_covered (map (sanitize_available mmap) mmap) p
            && is_open image.start (kept_end image m.size) p
          then 0
          else 1)
  pub sound : IsSound m ⊎ ((p : ℕ) → page_bit m.bitmap p ≡ 1)

-- Either nothing is set up, since the kernel's entry has no room for the bitmap, or it has and the
-- allocator is set up.
abbrev pub EarlyOutcome : KernelImage → List MmapEntry → EarlyResult → Type 0
EarlyOutcome image mmap hangs = ⊥
EarlyOutcome image mmap gives_up =
    has_room image (bitmap_bytes (last_end (surveyed image mmap)))
      (surveyed image mmap).kernel_entry
    ≡ false
EarlyOutcome image mmap (configured bitmap_addr m) =
    (has_room image (bitmap_bytes (last_end (surveyed image mmap)))
        (surveyed image mmap).kernel_entry
      ≡ true)
    × IsConfigured image mmap bitmap_addr m

module _ (image : KernelImage) (mmap : List MmapEntry) (ordered : IsOrdered 0 mmap) where
  abbrev size : ℕ
  size = bitmap_bytes (last_end (surveyed image mmap))

  configure_lem :
      (addr : ℕ) × (m : ManagedMemory) × (configure image
          (map (sanitize_available mmap) mmap)
          size
          (div_ceil (kernel_size image) page_size)
        ≡ some (configured addr m))
      × IsConfigured image mmap addr m
  unfolding configure full_pmm
  configure_lem =
      let (grows, low, ends) =
        survey_lem image mmap mmap (record { kernel_entry = none; last_addr = 0; last_size = 0 }) 0
          ordered (omega arith) (omega arith) in
      let (covers, small) = bitmap_bytes_lem (last_end (surveyed image mmap)) low in
      let sanitized = map (sanitize_available mmap) mmap in
      let tidy = EndsBefore-IsTidy (last_end (surveyed image mmap)) size sanitized covers ends in
      let (s, e, h) =
        free_entries_lem size image.start (kept_end image size) sanitized (λ p. false) _
          (full_Progress size) tidy small in
      (
        u32 (image.start + div_ceil (kernel_size image) page_size * page_size),
        s.pmm,
        rw e refl,
        record {
          sized = h.kept_size;
          place = refl;
          bits = λ p.
              subst
                (λ x. page_bit s.pmm.bitmap p ≡ (
                  if is_covered sanitized p && is_open image.start (kept_end image x) p
                  then 0
                  else 1))
                (sym h.kept_size) (ground (arith, h.bits p));
          sound = Progress-IsSound size _ s h small;
        },
      )

  abbrev entry : Option MmapEntry
  entry = (surveyed image mmap).kernel_entry

  -- With the boot loader's magic number and a memory map whose available entries start at pages, in
  -- order and below 4 GB, `init_frame_allocator` ends without a write outside the bitmap. It gives
  -- up if the kernel's entry has no room for the bitmap; otherwise it sets up the allocator, with a
  -- page free exactly if it lies in an available entry, as sanitized, above the first megabyte and
  -- outside the kernel and the bitmap, and with the invariant of `get_page` unless no page is free.
  pub init_frame_allocator-EarlyOutcome :
      (flags : ℕ)
      → (bit_and flags (1 <<< 6) == 0) ≡ false
      → (r : EarlyResult) × (init_frame_allocator image multiboot_magic flags mmap ≡ some r)
        × EarlyOutcome image mmap r
  unfolding init_frame_allocator
  init_frame_allocator-EarlyOutcome flags has_map = elim (Option-cases entry) [
    | inl missing ↦ (
      gives_up,
      rw (has_map, missing, init_frame_allocator) refl,
      ap (has_room image size) missing,
    )
    | inr (e, found) ↦ elim (Bool-cases (has_room image size (some e))) [
      | inr short ↦ (
        gives_up,
        rw (has_map, found, short, init_frame_allocator) refl,
        ap (has_room image size) found ∙ short,
      )
      | inl room ↦
          let (addr, m, run, set_up) = configure_lem in
          (
            configured addr m,
            rw (has_map, found, room, init_frame_allocator) run,
            (ap (has_room image size) found ∙ room, set_up),
          )
    ]
  ]
