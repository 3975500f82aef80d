-- ===== src/Heap/Client/Kept.antt =====
-- What an allocation of such a client keeps: the areas in use, and apart from each other.
use mathlib.Core.Option.{some-injective}
use simple_kernel.Base.{
  ℕ, zero, suc, ◌+◌, ◌≤◌, ◌<◌, ◌≡◌, ◌≢◌, ◌⊎◌, inl, inr, refl, sym, subst, arith, true, false, some,
  List, [], ◌∷◌, ◌++◌, ltb, get_elem?,
}
use simple_kernel.Memory.{Memory, load8, store8}
use simple_kernel.Heap.Header.{header_size, null, heap_start}
use simple_kernel.Heap.Layout.{Block, block, span, Heap}
use simple_kernel.Heap.InUse.{
  InUse, AreApart, InUse-bounds, InUse-later, InUse-sooner, InUse-replace,
}
use simple_kernel.Heap.Grant.{Grant, refused, granted}
use simple_kernel.Heap.Client.{Areas, keep}

abbrev pub AllInUse : List Block → Areas → Type 0
AllInUse bs [] = Unit {0}
AllInUse bs ((ptr, size) ∷ areas) = InUse heap_start bs ptr size × AllInUse bs areas

abbrev pub AllApart : ℕ → ℕ → Areas → Type 0
AllApart ptr size [] = Unit {0}
AllApart ptr size ((ptr', size') ∷ areas) = AreApart ptr size ptr' size' × AllApart ptr size areas

abbrev pub Disjoint : Areas → Type 0
Disjoint [] = Unit {0}
Disjoint ((ptr, size) ∷ areas) = AllApart ptr size areas × Disjoint areas

-- Memory spells a heap in which every area that was handed out is in use, and no two overlap.
pub record IsSafe (m : Memory) (areas : Areas) : Type 0 where
  pub layout : List Block
  pub heap : Heap m layout
  pub held : AllInUse layout areas
  pub disjoint : Disjoint areas

AllInUse-replace :
    (before after new : List Block) (s ptr size : ℕ) (areas : Areas)
    → span new ≡ header_size + s
    → InUse (heap_start + span before) new ptr size
    → AllInUse (before ++ block s false ∷ after) areas
    → AllInUse (before ++ (new ++ after)) areas × AllApart ptr size areas
AllInUse-replace before after new s ptr size [] whole used held = (tt, tt)
AllInUse-replace before after new s ptr size ((ptr', size') ∷ areas) whole used (h, held) =
    let (kept, apart) = InUse-replace heap_start before s new after ptr' size' whole h in
    let (low, high) = InUse-bounds (heap_start + span before) new ptr size used in
    let (others, apart') = AllInUse-replace before after new s ptr size areas whole used held in
    ((kept, others), (elim apart [ inl p ↦ inr (omega arith) | inr p ↦ inl (omega arith) ], apart'))

keep-null : (size : ℕ) (areas : Areas) → keep null size areas ≡ areas
keep-null size areas = refl

pub keep-area : (ptr size : ℕ) (areas : Areas) → 0 < ptr → keep ptr size areas ≡ (ptr, size) ∷ areas
keep-area ptr size areas h = ground arith

pub Grant-IsSafe :
    (size ptr : ℕ) (m m' : Memory) (areas : Areas) (safe : IsSafe m areas)
    → Grant size safe.layout ptr m'
    → IsSafe m' (keep ptr size areas)
Grant-IsSafe size _ m m' areas safe (refused heap) = record {
  layout = safe.layout;
  heap = heap;
  held = safe.held;
  disjoint = safe.disjoint;
}
Grant-IsSafe size ptr m m' areas safe (granted before after new s place whole heap used) =
    let (held, apart) =
      AllInUse-replace before after new s ptr size areas whole used
        (subst (λ bs. AllInUse bs areas) place safe.held) in
    let (low, high) = InUse-bounds (heap_start + span before) new ptr size used in
    let here =
      InUse-later heap_start before (new ++ after) ptr size
        (InUse-sooner (heap_start + span before) new after ptr size used) in
    subst (IsSafe m') (sym (keep-area ptr size areas (omega (arith, low)))) record {
      layout = before ++ (new ++ after);
      heap = heap;
      held = (here, held);
      disjoint = (apart, safe.disjoint);
    }

pub AllInUse-get_elem? :
    (bs : List Block) (areas : Areas) (j ptr size : ℕ)
    → AllInUse bs areas
    → get_elem? areas j ≡ some (ptr, size)
    → InUse heap_start bs ptr size
AllInUse-get_elem? bs [] j ptr size held e = cc
AllInUse-get_elem? bs ((ptr', size') ∷ areas) zero ptr size (h, held) e =
    subst (λ (a : ℕ × ℕ). InUse heap_start bs a.0 a.1) (some-injective _ _ e) h
AllInUse-get_elem? bs (a ∷ areas) (suc j) ptr size (h, held) e =
    AllInUse-get_elem? bs areas j ptr size held e

pub store8-elsewhere : (m : Memory) (a v b : ℕ) → a ≢ b → load8 (store8 m a v) b ≡ load8 m b
unfolding load8 store8
store8-elsewhere m a v b h = ground arith

pub off : (ptr size i b : ℕ) → ltb i size ≡ true → (b < ptr) ⊎ (ptr + size ≤ b) → ptr + i ≢ b
off ptr size i b inside (inl h) e = ground arith
off ptr size i b inside (inr h) e = ground arith
