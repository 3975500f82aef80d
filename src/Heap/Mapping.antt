-- ===== src/Heap/Mapping.antt =====
-- The loop of `kmalloc` over the pages of a new area ends, and takes two pages a round at most.
use simple_kernel.Base.{
  ℕ, zero, suc, ◌+◌, ◌*◌, ◌%◌, ◌^◌, ◌<◌, ◌≡◌, inl, inr, arith, Bool-cases, some, true, false, leb,
  ◌==◌, u32, subst, ◌∙◌,
}
use simple_kernel.Heap.{map_pages}
use simple_kernel.Heap.Header.{null}
use simple_kernel.Heap.Pages.{Pager}

module _ (pager : Pager) where
  open pager use {
    Vm, get_physaddr, get_page, map_page, Supplies, get_physaddr_total, map_new, weaken,
  }

  supplies_eq : {n n' : ℕ} {vm : Vm} → n ≡ n' → Supplies n vm → Supplies n' vm
  supplies_eq {vm} e h = subst (λ x. Supplies x vm) e h

  module _ (flags left p last : ℕ) (vm : Vm) (more : leb p last ≡ true)
      (low : p + 4096 < 2 ^ 32) where
    advance : u32 (p + 4096) ≡ p + 4096
    advance = omega arith

    skip_page :
        {pa : ℕ}
        → get_physaddr p vm ≡ some pa
        → (pa == null) ≡ false
        → map_pages pager flags (suc left) p last vm ≡ map_pages pager flags left (p + 4096) last vm
    unfolding map_pages
    skip_page looked mapped = ground (arith, advance)

    take_page :
        {pa page code : ℕ} {vm₁ vm₂ : Vm}
        → get_physaddr p vm ≡ some pa
        → (pa == null) ≡ true
        → get_page vm ≡ some (page, vm₁)
        → map_page page p flags vm₁ ≡ some (code, vm₂)
        → map_pages pager flags (suc left) p last vm
          ≡ map_pages pager flags left (p + 4096) last vm₂
    unfolding map_pages
    take_page looked unmapped got mapped = ground (arith, advance)

  -- The loop over the pages from the aligned address `p` to `last`, below 0xFFC00000, ends without
  -- a fault where `rounds` pages reach beyond `last`, more than `rounds` rounds are left and two
  -- free pages are there for each; `n` pages stay free.
  pub map_pages_total :
      (n flags rounds left p last : ℕ) (vm : Vm)
      → rounds < left
      → p % 4096 ≡ 0
      → last < p + 4096 * rounds
      → last < 0xFFC00000
      → Supplies (n + 2 * rounds) vm
      → (vm' : Vm) × (map_pages pager flags left p last vm ≡ some vm') × Supplies n vm'
  unfolding map_pages
  map_pages_total n flags rounds zero p last vm enough al reach low h = absurd (omega arith)
  map_pages_total n flags zero (suc left) p last vm enough al reach low h =
      (vm, ground arith, supplies_eq (omega arith) h)
  map_pages_total n flags (suc rounds) (suc left) p last vm enough al reach low h =
      elim (Bool-cases (leb p last)) [
        | inr past ↦ (vm, ground arith, weaken n (2 * suc rounds) vm h)
        | inl more ↦
            let (pa, looked) = get_physaddr_total _ p vm h (ground arith) in
            let below : p + 4096 < 2 ^ 32 = ground arith in
            elim (Bool-cases (pa == null)) [
              | inl unmapped ↦
                  let (page, code, vm₁, vm₂, e₁, e₂, h₂) =
                    map_new (n + 2 * rounds) p flags vm (supplies_eq (omega arith) h) al
                      (ground arith) in
                  let (vm', e, h') =
                    map_pages_total n flags rounds left (p + 4096) last vm₂ (omega arith)
                      (omega arith) (omega arith) low h₂ in
                  (vm', take_page flags left p last vm more below looked unmapped e₁ e₂ ∙ e, h')
              | inr mapped ↦
                  let (vm', e, h') =
                    map_pages_total n flags rounds left (p + 4096) last vm (omega arith)
                      (omega arith) (omega arith) low
                      (weaken (n + 2 * rounds) 2 vm (supplies_eq (omega arith) h)) in
                  (vm', skip_page flags left p last vm more below looked mapped ∙ e, h')
            ]
      ]
