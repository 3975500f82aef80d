-- ===== src/Heap/Clear.antt =====
-- `kcalloc`: the test for overflow, and the memory that it clears.
use native.Mathlib.Nat.{mul-div-le, mul-div_cancel_left}
use simple_kernel.Base.{
  ℕ, ◌+◌, ◌*◌, ◌/◌, ◌^◌, ◌≤◌, ◌<◌, ◌≡◌, inl, inr, refl, subst, ap, ◌∙◌, arith, Bool-cases, true,
  false, ◌&&◌, ◌||◌, not, none, some, ◌==◌, if◌then◌else◌, ltb, leb, u32,
}
use simple_kernel.Memory.{Memory, load8, memset}
use simple_kernel.Memory.Copy.{memset_lem}
use simple_kernel.Heap.Header.{null}
use simple_kernel.Heap.Pages.{Pager, reaches}
use simple_kernel.Heap.{Kernel, kmalloc, kcalloc}

module _ (pager : Pager) (nmemb size : ℕ) (k : Kernel pager.Vm) (members : 0 < nmemb)
    (bytes : 0 < size) where
  none_zero : (nmemb == 0 || size == 0) ≡ false
  none_zero = ground arith

  wraps : 2 ^ 32 ≤ nmemb * size → (size == u32 (nmemb * size) / nmemb) ≡ false
  wraps h = elim (Bool-cases (size == u32 (nmemb * size) / nmemb)) [
    | inr differ ↦ differ
    | inl same ↦
        let e : u32 (nmemb * size) / nmemb ≡ size = ground arith in
        let low : nmemb * size ≤ u32 (nmemb * size) =
          subst (λ x. nmemb * x ≤ u32 (nmemb * size)) e (mul-div-le (u32 (nmemb * size)) nmemb) in
        absurd (omega arith)
  ]

  fits : nmemb * size < 2 ^ 32 → (size == u32 (nmemb * size) / nmemb) ≡ true
  fits h =
      let whole : u32 (nmemb * size) ≡ nmemb * size = omega arith in
      let e : u32 (nmemb * size) / nmemb ≡ size =
        ap (λ x. x / nmemb) whole ∙ mul-div_cancel_left size members in
      ground arith

  -- `kcalloc` of members whose sizes come to 2^32 bytes or more returns `NULL` and changes nothing.
  pub kcalloc-overflow : 2 ^ 32 ≤ nmemb * size → kcalloc pager nmemb size k ≡ some (null, k)
  unfolding kcalloc
  kcalloc-overflow h = rw (none_zero, wraps h) refl

  -- For members whose sizes come to less than 2^32 bytes, where `kmalloc` of the product returns and
  -- every byte that it grants is mapped, `kcalloc` returns the same pointer, and unless that is `NULL`
  -- the bytes from it on, as many as the product, are zero. No other byte differs from what `kmalloc`
  -- left. Where `kmalloc` grants a byte that is not mapped, `kcalloc` faults.
  pub kcalloc-kmalloc :
      {ptr : ℕ} {k₁ : Kernel pager.Vm}
      → nmemb * size < 2 ^ 32
      → kmalloc pager (nmemb * size) k ≡ some (ptr, k₁)
      → (m : Memory) × (kcalloc pager nmemb size k ≡ (
          if ptr == null || reaches (pager.is_mapped k₁.vm) ptr (nmemb * size)
          then some (ptr, record k₁ { mem = m })
          else none))
        × ((b : ℕ)
            → load8 m b ≡ (
                if not (ptr == null) && (leb ptr b && ltb b (ptr + nmemb * size))
                then 0
                else load8 k₁.mem b))
  unfolding kcalloc
  kcalloc-kmalloc {ptr} {k₁} h e =
      let whole : u32 (nmemb * size) ≡ nmemb * size = omega arith in
      let run : kmalloc pager (u32 (nmemb * size)) k ≡ some (ptr, k₁) =
        ap (λ x. kmalloc pager x k) whole ∙ e in
      let reach = ap (reaches (pager.is_mapped k₁.vm) ptr) whole in
      elim (Bool-cases (ptr == null)) [
        | inl refused ↦ (k₁.mem, rw (none_zero, fits h, run, refused) refl, λ b. ground arith)
        | inr granted ↦ (
          memset k₁.mem ptr 0 (u32 (nmemb * size)),
          rw (none_zero, fits h, run, granted, reach) refl,
          λ b. ground (arith, memset_lem k₁.mem ptr 0 (u32 (nmemb * size)) b),
        )
      ]
