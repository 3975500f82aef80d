-- ===== src/Paging/Supply.antt =====
-- The page tables and the page allocator are what the heap asks for: an instance of its interface.
use mathlib.Core.Option
use native.Mathlib.Nat.{le-add_right}
use simple_kernel.Base.{
  ℕ, zero, suc, ◌+◌, ◌%◌, ◌^◌, ◌<◌, ◌≡◌, inl, inr, ◌≤◌, refl, sym, subst, arith, Option, some,
}
use simple_kernel.Heap.Pages.{Pager}
use simple_kernel.Pmm.{get_page, ManagedMemory}
use simple_kernel.Pmm.Allocate.{get_page-Allocated}
use simple_kernel.Paging.Mmu.{Vm, walk}
use simple_kernel.Paging.{get_physaddr, map_page}
use simple_kernel.Paging.Lookup.{get_physaddr-walk, physical}
use simple_kernel.Paging.Table.{IsMapped-Allocated}
use simple_kernel.Paging.Map.{Takes, map_page-Maps}
use simple_kernel.Paging.Window.{IsMapped}
use simple_kernel.Paging.Entry.{is_some}

-- `get_page` on the state that holds the allocator's.
unfoldable pub get_page_of : Vm → Option (ℕ × Vm)
get_page_of vm = Option.map (λ r. (r.0, record vm { pmm = r.1 })) (get_page vm.pmm)

pub below : (va : ℕ) → va < 0xFFC00000 → va < 2 ^ 32
below va h = omega arith

-- `n` calls of `get_page` in a row succeed.
abbrev pub Stocks : ℕ → ManagedMemory → Type 0
Stocks zero m = Unit {0}
Stocks (suc n) m =
    (m.next_index < m.size)
    × ((page : ℕ) (m' : ManagedMemory) → get_page m ≡ some (page, m') → Stocks n m')

pub record Ready (n : ℕ) (vm : Vm) : Type 0 where
  pub mapped : IsMapped vm
  pub stock : Stocks n vm.pmm

pub Stocks-le : (n k : ℕ) (m : ManagedMemory) → n ≤ k → Stocks k m → Stocks n m
Stocks-le zero k m le s = tt
Stocks-le (suc n) zero m le s = absurd (omega arith)
Stocks-le (suc n) (suc k) m le (room, next) =
    (room, λ page m' e. Stocks-le n k m' (omega arith) (next page m' e))

Stocks-eq : (n k : ℕ) (m : ManagedMemory) → n ≡ k → Stocks n m → Stocks k m
Stocks-eq n k m e s = subst (λ x. Stocks x m) e s

Stocks-pmm : (n : ℕ) (m m' : ManagedMemory) → m' ≡ m → Stocks n m → Stocks n m'
Stocks-pmm n m m' e s = subst (Stocks n) (sym e) s

pub after_map : (n : ℕ) (vm vm' : Vm) → Stocks (suc n) vm.pmm → Takes vm vm' → Stocks n vm'.pmm
after_map n vm vm' s (inl same) =
    Stocks-pmm n vm.pmm vm'.pmm same (Stocks-le n (suc n) vm.pmm (omega arith) s)
after_map n vm vm' s (inr (page, e)) = s.1 page vm'.pmm e

pub map_new :
    (n va flags : ℕ) (vm : Vm)
    → Ready (n + 2) vm
    → va % 4096 ≡ 0
    → va < 0xFFC00000
    → (page code : ℕ) × (vm₁ vm₂ : Vm) × (get_page_of vm ≡ some (page, vm₁))
      × (map_page page va flags vm₁ ≡ some (code, vm₂))
      × Ready n vm₂
unfolding get_page_of
map_new n va flags vm ready al low =
    let stock : Stocks (suc (suc n)) vm.pmm =
      Stocks-eq (n + 2) (suc (suc n)) vm.pmm (omega arith) ready.stock in
    let (page, pmm, got, allocated) = get_page-Allocated ready.mapped.sound stock.0 in
    let vm₁ : Vm = record vm { pmm = pmm } in
    let stock₁ : Stocks (suc n) pmm = stock.1 page pmm got in
    let m₁ = IsMapped-Allocated vm page pmm ready.mapped allocated in
    let (code, vm₂, e, maps, takes) =
      map_page-Maps page va flags (omega (arith, allocated.address))
        (omega (arith, allocated.address, allocated.in_range, ready.mapped.sound.addressable)) al
        low vm₁ m₁ (inr stock₁.0) in
    (
      page,
      code,
      vm₁,
      vm₂,
      rw got refl,
      e,
      record { mapped = maps.mapped; stock = after_map n vm₁ vm₂ stock₁ takes },
    )

-- What the heap's theorems ask of paging holds of the code: lookups do not fault, and each new
-- mapping takes two pages at most.
abbrev pub kernel_pager : Pager
kernel_pager = record {
  Vm = Vm;
  is_mapped = λ vm va. is_some (walk vm va);
  get_physaddr = get_physaddr;
  get_page = get_page_of;
  map_page = map_page;
  Supplies = Ready;
  get_physaddr_total = λ n va vm ready low.
      (physical va (walk vm va), get_physaddr-walk vm ready.mapped va (below va low));
  map_new = map_new;
  weaken = λ n k vm ready. record {
    mapped = ready.mapped;
    stock = Stocks-le n (n + k) vm.pmm (le-add_right n k) ready.stock;
  };
}
