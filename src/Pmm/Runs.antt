-- ===== src/Pmm/Runs.antt =====
-- Any number of `get_page` calls in a row.
use simple_kernel.Base.{ℕ, ◌/◌, ◌≡◌, ◌≢◌, ap, arith, some, List, [], ◌∷◌}
use simple_kernel.Pmm.{ManagedMemory, get_page, page_size}
use simple_kernel.Pmm.Bitmap.{page_bit}
use simple_kernel.Pmm.Sound.{IsSound}
use simple_kernel.Pmm.Allocate.{Allocated, get_page_inverse}

-- From the first state calls of `get_page` hand out the pages, in order, and end in the last state.
pub data Run : ManagedMemory → List ℕ → ManagedMemory → Type 0 where
  stop : {m : ManagedMemory} → Run m [] m
  call :
      {m m₁ m' : ManagedMemory} {page : ℕ} {pages : List ℕ}
      → get_page m ≡ some (page, m₁)
      → Run m₁ pages m'
      → Run m (page ∷ pages) m'

abbrev pub AllFree : ManagedMemory → List ℕ → Type 0
AllFree m [] = Unit {0}
AllFree m (page ∷ pages) = (page_bit m.bitmap (page / page_size) ≡ 0) × AllFree m pages

abbrev pub NotIn : ℕ → List ℕ → Type 0
NotIn page [] = Unit {0}
NotIn page (other ∷ pages) = (page ≢ other) × NotIn page pages

abbrev pub AllDistinct : List ℕ → Type 0
AllDistinct [] = Unit {0}
AllDistinct (page ∷ pages) = NotIn page pages × AllDistinct pages

-- What is free after a call was free before it, and is another page.
Allocated-AllFree :
    (m m₁ : ManagedMemory) (page : ℕ) (pages : List ℕ)
    → Allocated m page m₁
    → AllFree m₁ pages
    → NotIn page pages × AllFree m pages
Allocated-AllFree m m₁ page [] got free = (tt, tt)
Allocated-AllFree m m₁ page (other ∷ pages) got (free, frees) =
    let (apart, others) = Allocated-AllFree m m₁ page pages got frees in
    let different : page / page_size ≢ other / page_size =
      λ same. ground (arith, got.bits (other / page_size), free) in
    (
      ((λ same. different (ap (λ x. x / page_size) same)), apart),
      (ground (arith, got.bits (other / page_size), free, different), others),
    )

-- From a sound allocator, the pages that any run of `get_page` calls hands out were free before the
-- first of them, and no page is handed out twice.
pub Run-AllDistinct :
    (m : ManagedMemory) (pages : List ℕ) (m' : ManagedMemory)
    → IsSound m
    → Run m pages m'
    → AllFree m pages × AllDistinct pages
Run-AllDistinct m _ _ sound stop = (tt, tt)
Run-AllDistinct m _ m' sound (call {m₁} {page} {pages} e rest) =
    let got = get_page_inverse sound e in
    let (frees, distinct) = Run-AllDistinct m₁ pages m' got.sound rest in
    let (apart, others) = Allocated-AllFree m m₁ page pages got frees in
    ((got.was_free, others), (apart, distinct))
