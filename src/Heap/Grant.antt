-- ===== src/Heap/Grant.antt =====
-- What `kmalloc` and `kpagealloc` have in common: a free block makes room for an area in use.
use simple_kernel.Base.{
  ℕ, ◌+◌, ◌-◌, ◌*◌, ◌%◌, ◌≤◌, ◌<◌, ◌≡◌, inl, inr, refl, sym, subst, arith, false, List, [], ◌∷◌,
  ◌++◌, ltb, ◌==◌, Bool-cases,
}
use simple_kernel.Memory.{Memory}
use simple_kernel.Heap.Header.{header_size, null, heap_start}
use simple_kernel.Heap.Layout.{Block, block, span, Heap}
use simple_kernel.Heap.Replace.{Segment-middle}
use simple_kernel.Heap.InUse.{InUse}
use simple_kernel.Heap.Allocate
use simple_kernel.Heap.Allocate.{carve}
use simple_kernel.Heap.Paged.Search.{gap, need}
use simple_kernel.Heap.Paged.Taken.{spare_of, from_page}
use simple_kernel.Heap.Paged.Placed.{paged}
use simple_kernel.Heap.Paged.Returned.{PagesOutcome}

-- From the layout `bs` the call made the area of `size` bytes at `ptr`, or returned `NULL`.
pub data Grant (size : ℕ) (bs : List Block) : ℕ → Memory → Type 0 where
  refused : {m : Memory} → Heap m bs → Grant size bs null m
  granted :
      {ptr : ℕ} {m : Memory} (before after new : List Block) (s : ℕ)
      → bs ≡ before ++ block s false ∷ after
      → span new ≡ header_size + s
      → Heap m (before ++ (new ++ after))
      → InUse (heap_start + span before) new ptr size
      → Grant size bs ptr m

pub carve_lem :
    (a need s size : ℕ)
    → need < s
    → size + header_size ≤ need
    → (span (carve need s) ≡ header_size + s) × InUse a (carve need s) (a + header_size) size
carve_lem a need s size fits low = elim (Bool-cases (ltb (header_size * 2) (s - need))) [
  | inl more ↦ rw more (omega arith, inl (refl, refl, omega arith))
  | inr exact ↦ rw exact (omega arith, inl (refl, refl, omega arith))
]

pub Outcome-Grant :
    (size need : ℕ) (bs : List Block) (m : Memory) (ptr : ℕ) (m' : Memory)
    → size + header_size ≤ need
    → Heap m bs
    → Allocate.Outcome need bs m ptr m'
    → Grant size bs ptr m'
Outcome-Grant size need bs m _ _ low heap (Allocate.refused none_fits) = refused heap
Outcome-Grant size need bs m _ _ low heap (Allocate.granted before after s best heap' same) =
    let (whole, used) = carve_lem (heap_start + span before) need s size best.fits low in
    granted before after (carve need s) s best.place whole heap' used

from_page_lem :
    (a size s : ℕ)
    → size + header_size * 2 < s
    → (span (from_page size s) ≡ header_size + s)
      × InUse a (from_page size s) (a + header_size) size
from_page_lem a size s fits = elim (Bool-cases (ltb (header_size * 2) (spare_of size s))) [
  | inl more ↦ rw more (ground arith, inl (refl, refl, omega arith))
  | inr exact ↦ rw exact (omega arith, inl (refl, refl, omega arith))
]

paged_lem :
    (size s a : ℕ)
    → a % 8 ≡ 0
    → need size a < s
    → (span (paged size s a) ≡ header_size + s) × InUse a (paged size s a) (a + gap a) size
paged_lem size s a al fits = elim (Bool-cases (gap a == header_size)) [
  | inl exact ↦
      let at : a + header_size ≡ a + gap a = ground arith in
      let (whole, used) = from_page_lem a size s (ground (arith, fits)) in
      rw exact (whole, subst (λ x. InUse a (from_page size s) x size) at used)
  | inr inside ↦
      let far : header_size * 2 ≤ gap a = ground arith in
      let start = a + header_size + (gap a - header_size * 2) in
      let at : start + header_size ≡ a + gap a = omega (arith, far) in
      let rest = s + header_size - gap a in
      let (whole, used) = from_page_lem start size rest (ground (arith, fits, inside)) in
      rw inside (
        ground (arith, whole, far, fits),
        inr (subst (λ x. InUse start (from_page size rest) x size) at used),
      )
]

pub PagesOutcome-Grant :
    (size : ℕ) (bs : List Block) (m : Memory) (ptr : ℕ) (m' : Memory)
    → Heap m bs
    → PagesOutcome size bs m ptr m'
    → Grant size bs ptr m'
PagesOutcome-Grant size bs m _ _ heap (PagesOutcome.refused none_fits) = refused heap
PagesOutcome-Grant size bs m ptr m' heap
      (PagesOutcome.granted before after s ptr' best heap' page at same) =
    let a = heap_start + span before in
    let (whole, used) =
      paged_lem size s a
        (Segment-middle m m before (block s false ∷ []) after
          (subst (Heap m) best.place heap)).0.aligned
        best.fits in
    granted before after (paged size s a) s best.place whole heap'
      (subst (λ x. InUse a (paged size s a) x size) (sym at) used)
