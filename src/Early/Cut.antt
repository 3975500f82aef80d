-- ===== src/Early/Cut.antt =====
-- `sanitize_available`: an available entry is cut where the first reserved one inside it starts.
use simple_kernel.Base.{
  ℕ, ◌+◌, ◌-◌, ◌%◌, ◌^◌, ◌≤◌, ◌<◌, ◌≡◌, ◌≢◌, ◌⊎◌, inl, inr, refl, sym, subst, ap, ◌∙◌, arith, Bool,
  true, false, ◌&&◌, not, Option, none, some, List, [], ◌∷◌, ltb, ◌==◌, if◌then◌else◌,
}
use simple_kernel.Pmm.{page_size}
use simple_kernel.Early.{
  MmapEntry, is_available, is_below, sanitize_round, sanitize_rounds, align_entry,
  sanitize_available, u64,
}

-- No reserved entry starts inside the `length` bytes from `addr` on.
abbrev pub IsClear : List MmapEntry → ℕ → ℕ → Type 0
IsClear [] addr length = Unit {0}
IsClear (cur ∷ mmap) addr length =
    (is_available cur ≡ false → (cur.addr ≤ addr) ⊎ (addr + length ≤ cur.addr))
    × IsClear mmap addr length

-- A reserved entry starts at `addr`.
abbrev pub StartsAt : List MmapEntry → ℕ → Type 0
StartsAt [] addr = ⊥
StartsAt (cur ∷ mmap) addr = ((is_available cur ≡ false) × (cur.addr ≡ addr)) ⊎ StartsAt mmap addr

-- `e'` is `e` up to the first reserved entry inside it, or whole.
pub record IsCut (mmap : List MmapEntry) (e e' : MmapEntry) : Type 0 where
  pub same_addr : e'.addr ≡ e.addr
  pub same_kind : e'.kind ≡ e.kind
  pub shorter : e'.length ≤ e.length
  pub clear : IsClear mmap e.addr e'.length
  pub reason : (e'.length ≡ e.length) ⊎ StartsAt mmap (e.addr + e'.length)

abbrev Cuts : Option ℕ → MmapEntry → Type 0
Cuts none e = Unit {0}
Cuts (some lowest) e = e.addr + e.length ≡ lowest

-- What one round does, whichever way it goes.
pub record Round (cur : MmapEntry) (lowest : Option ℕ) (e : MmapEntry) (r : Option ℕ × MmapEntry)
    : Type 0 where
  pub cuts : Cuts r.0 r.1
  pub same_addr : r.1.addr ≡ e.addr
  pub same_kind : r.1.kind ≡ e.kind
  pub shorter : r.1.length ≤ e.length
  pub clear : is_available cur ≡ false → (cur.addr ≤ e.addr) ⊎ (e.addr + r.1.length ≤ cur.addr)
  pub reason :
      (r.1.length ≡ e.length) ⊎ ((is_available cur ≡ false) × (cur.addr ≡ e.addr + r.1.length))

Cuts-if :
    (b : Bool) (x y : Option ℕ × MmapEntry)
    → (b ≡ true → Cuts x.0 x.1)
    → (b ≡ false → Cuts y.0 y.1)
    → Cuts (if b then x else y).0 (if b then x else y).1
Cuts-if true x y h h' = h refl
Cuts-if false x y h h' = h' refl

abbrev reaches : MmapEntry → Option ℕ → MmapEntry → Bool
reaches cur lowest e =
    (not (is_available cur) && (ltb e.addr cur.addr && ltb cur.addr (u64 (e.addr + e.length))))
    && is_below cur.addr lowest

abbrev cut_at : MmapEntry → MmapEntry → Option ℕ × MmapEntry
cut_at cur e = (some cur.addr, record e { length = cur.addr - e.addr })

sanitize_round_lem :
    (cur : MmapEntry) (lowest : Option ℕ) (e : MmapEntry)
    → Cuts lowest e
    → e.addr + e.length < 2 ^ 64
    → Round cur lowest e (sanitize_round cur (lowest, e))
unfolding sanitize_round
sanitize_round_lem cur none e cuts small = record {
  cuts = Cuts-if (reaches cur none e) (cut_at cur e) (none, e) (λ h. ground arith) (λ h. tt);
  same_addr = ground arith;
  same_kind = ground arith;
  shorter = ground arith;
  clear = ground arith;
  reason = ground arith;
}
sanitize_round_lem cur (some lowest) e cuts small = record {
  cuts =
      Cuts-if (reaches cur (some lowest) e) (cut_at cur e) (some lowest, e) (λ h. ground arith)
        (λ h. cuts);
  same_addr = ground arith;
  same_kind = ground arith;
  shorter = ground arith;
  clear = ground arith;
  reason = ground arith;
}

sanitize_rounds_lem :
    (mmap : List MmapEntry) (lowest : Option ℕ) (e : MmapEntry)
    → Cuts lowest e
    → e.addr + e.length < 2 ^ 64
    → IsCut mmap e (sanitize_rounds mmap (lowest, e)).1
unfolding sanitize_rounds
sanitize_rounds_lem [] lowest e cuts small = record {
  same_addr = refl;
  same_kind = refl;
  shorter = omega arith;
  clear = tt;
  reason = inl refl;
}
sanitize_rounds_lem (cur ∷ mmap) lowest e cuts small =
    let r = sanitize_round cur (lowest, e) in
    let round = sanitize_round_lem cur lowest e cuts small in
    let rest =
      sanitize_rounds_lem mmap r.0 r.1 round.cuts (omega (arith, round.same_addr, round.shorter)) in
    let e' = (sanitize_rounds mmap r).1 in
    record {
      same_addr = rest.same_addr ∙ round.same_addr;
      same_kind = rest.same_kind ∙ round.same_kind;
      shorter = omega (arith, rest.shorter, round.shorter);
      clear = (
        λ reserved. ground (arith, round.clear reserved, rest.shorter),
        subst (λ x. IsClear mmap x e'.length) round.same_addr rest.clear,
      );
      reason = elim rest.reason [
        | inr at ↦ inr (inr (subst (λ x. StartsAt mmap (x + e'.length)) round.same_addr at))
        | inl kept ↦ elim round.reason [
          | inl kept' ↦ inl (kept ∙ kept')
          | inr (reserved, at) ↦ inr (inl (reserved, at ∙ ap (λ x. e.addr + x) (sym kept)))
        ]
      ];
    }

-- `sanitize_available` of an available entry that starts at a page and does not reach past 2^64
-- cuts it where the first reserved entry inside it starts, or leaves it whole if there is none.
pub sanitize_available-IsCut :
    (mmap : List MmapEntry) (e : MmapEntry)
    → is_available e ≡ true
    → e.addr % page_size ≡ 0
    → e.addr + e.length < 2 ^ 64
    → IsCut mmap e (sanitize_available mmap e)
unfolding sanitize_available align_entry
sanitize_available-IsCut mmap e available aligned small =
    let cut = sanitize_rounds_lem mmap none e tt small in
    let e' = (sanitize_rounds mmap (none, e)).1 in
    let at_page : (e'.addr % page_size == 0) ≡ true = ground (arith, cut.same_addr) in
    let same : sanitize_available mmap e ≡ e' =
      rw (available, sanitize_available) (rw (at_page, align_entry) refl) in
    subst (IsCut mmap e) (sym same) cut

-- An entry of less than 2048 bytes, below 2^63, that does not start at a page gets a length of 2^63
-- bytes or more.
pub align_entry-wraps :
    (e : MmapEntry)
    → e.addr % page_size ≢ 0
    → e.length < 2048
    → e.addr < 2 ^ 63
    → 2 ^ 63 ≤ (align_entry e).length
unfolding align_entry
align_entry-wraps e unaligned short small = ground arith
