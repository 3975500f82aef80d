-- ===== src/Heap/Client/Safe.antt =====
-- No such client corrupts the heap, and its areas never overlap.
use simple_kernel.Base.{
  ℕ, ◌+◌, ◌*◌, ◌≤◌, ◌<◌, ◌≡◌, ◌⊎◌, inl, inr, refl, ap, subst, arith, false, Option, none, some,
  List, [], ◌∷◌, ◌++◌, ltb, Bool-cases, get_elem?,
}
use simple_kernel.Memory.{store8}
use simple_kernel.Heap.Pages.{Pager}
use simple_kernel.Heap.{Kernel, padded}
use simple_kernel.Heap.InUse.{Heap-payload}
use simple_kernel.Heap.Grant.{Outcome-Grant, PagesOutcome-Grant}
use simple_kernel.Heap.Allocate.{padded_lem, kmalloc-Returned}
use simple_kernel.Heap.Paged.Returned.{kpagealloc-Returned}
use simple_kernel.Heap.Client.{
  Action, malloc, pages, write, Areas, keep, write_byte, act, run, cost, total_cost, IsFine,
  AllFine,
}
use simple_kernel.Heap.Client.Kept.{IsSafe, Grant-IsSafe, AllInUse-get_elem?, store8-elsewhere, off}

module _ (pager : Pager) where
  open pager use {Vm, Supplies}

  -- A finished action.
  record Acted (n : ℕ) (areas : Areas) (result : Option (Kernel Vm × Areas)) : Type 0 where
    state : Kernel Vm
    areas' : Areas
    acts : result ≡ some (state, areas')
    safe : IsSafe state.mem areas'
    supplies : Supplies n state.vm

  -- A write to a byte, in an area that was handed out, that is not mapped.
  pub record IsUnmapped (action : Action) (areas : Areas) (vm : Vm) : Type 0 where
    pub back : ℕ
    pub index : ℕ
    pub value : ℕ
    pub ptr : ℕ
    pub size : ℕ
    pub writes : action ≡ write back index value
    pub found : get_elem? areas back ≡ some (ptr, size)
    pub inside : index < size
    pub unmapped : pager.is_mapped vm (ptr + index) ≡ false

  write-Acted :
      (n j i v : ℕ) (k : Kernel Vm) (areas : Areas) (found : Option (ℕ × ℕ))
      → get_elem? areas j ≡ found
      → IsSafe k.mem areas
      → Supplies n k.vm
      → ((k' : Kernel Vm) × (write_byte pager found i v k ≡ some k')
          × IsSafe k'.mem areas
          × Supplies n k'.vm)
        ⊎ ((write_byte pager found i v k ≡ none) × IsUnmapped (write j i v) areas k.vm)
  write-Acted n j i v k areas none e safe supplies = inl (k, refl, safe, supplies)
  write-Acted n j i v k areas (some (ptr, size)) e safe supplies = elim (Bool-cases (ltb i size)) [
    | inr outside ↦ inl (k, rw outside refl, safe, supplies)
    | inl inside ↦ elim (Bool-cases (pager.is_mapped k.vm (ptr + i))) [
      | inr unmapped ↦ inr (
        rw (inside, unmapped) refl,
        record {
          back = j;
          index = i;
          value = v;
          ptr = ptr;
          size = size;
          writes = refl;
          found = e;
          inside = ground (arith, inside);
          unmapped = unmapped;
        },
      )
      | inl mapped ↦
          let used = AllInUse-get_elem? safe.layout areas j ptr size safe.held e in
          let kept = λ (b : ℕ) (h : (b < ptr) ⊎ (ptr + size ≤ b)).
            store8-elsewhere k.mem (ptr + i) v b (off ptr size i b inside h) in
          inl (
            record k { mem = store8 k.mem (ptr + i) v },
            rw (inside, mapped) refl,
            record {
              layout = safe.layout;
              heap =
                  Heap-payload k.mem (store8 k.mem (ptr + i) v) safe.layout ptr size used kept
                    safe.heap;
              held = safe.held;
              disjoint = safe.disjoint;
            },
            supplies,
          )
    ]
  ]

  act-Acted :
      (n : ℕ) (action : Action) (k : Kernel Vm) (areas : Areas)
      → IsSafe k.mem areas
      → IsFine action
      → Supplies (n + cost action) k.vm
      → Acted n areas (act pager action (k, areas))
        ⊎ ((act pager action (k, areas) ≡ none) × IsUnmapped action areas k.vm)
  unfolding act cost
  act-Acted n (malloc size) k areas safe (pos, no_wrap) supplies =
      let r = kmalloc-Returned pager n size safe.layout k safe.heap pos no_wrap supplies in
      inl record {
        state = r.state;
        areas' = keep r.ptr size areas;
        acts = rw r.returns refl;
        safe = Grant-IsSafe size r.ptr k.mem r.state.mem areas safe (
            Outcome-Grant size (padded size) safe.layout k.mem r.ptr r.state.mem
              (omega (arith, padded_lem size no_wrap)) safe.heap r.outcome);
        supplies = r.supplies;
      }
  act-Acted n (pages count) k areas safe (pos, no_wrap) supplies =
      let r = kpagealloc-Returned pager count k pos no_wrap n safe.layout safe.heap supplies in
      inl record {
        state = r.state;
        areas' = keep r.ptr (count * 4096) areas;
        acts = rw r.returns refl;
        safe = Grant-IsSafe (count * 4096) r.ptr k.mem r.state.mem areas safe (
            PagesOutcome-Grant (count * 4096) safe.layout k.mem r.ptr r.state.mem safe.heap
              r.outcome);
        supplies = r.supplies;
      }
  act-Acted n (write j i v) k areas safe fine supplies =
      let left = subst (λ x. Supplies x k.vm) (omega arith) supplies in
      elim (write-Acted n j i v k areas (get_elem? areas j) refl safe left) [
        | inl (k', e, safe', more) ↦
            inl
              record { state = k'; areas' = areas; acts = rw e refl; safe = safe'; supplies = more }
        | inr (e, bad) ↦ inr (rw e refl, bad)
      ]

  -- The run came to its end.
  pub record Ended (n : ℕ) (actions : List Action) (s : Kernel Vm × Areas) : Type 0 where
    pub state : Kernel Vm
    pub areas : Areas
    pub runs : run pager actions s ≡ some (state, areas)
    pub safe : IsSafe state.mem areas
    pub supplies : Supplies n state.vm

  -- The run faulted at a write: `done` are the actions before it.
  pub record Stopped (actions : List Action) (s : Kernel Vm × Areas) : Type 0 where
    pub done : List Action
    pub action : Action
    pub rest : List Action
    pub state : Kernel Vm
    pub areas : Areas
    pub split : actions ≡ done ++ action ∷ rest
    pub runs : run pager done s ≡ some (state, areas)
    pub faults : run pager actions s ≡ none
    pub safe : IsSafe state.mem areas
    pub at : IsUnmapped action areas state.vm

  -- From a safe heap with the pages that its actions may take and `n` more, and with the headers
  -- of the areas taken to be mapped, no allocation of such a client faults: the run comes to its
  -- end, or faults at a write to a byte that is not mapped, of an area that was handed out. At the
  -- end, or before that write, memory spells a heap in which every area that was handed out is in
  -- one block in use, and no two of these areas, with their headers, overlap.
  pub run-IsSafe :
      (n : ℕ) (actions : List Action) (k : Kernel Vm) (areas : Areas)
      → IsSafe k.mem areas
      → AllFine actions
      → Supplies (n + total_cost actions) k.vm
      → Ended n actions (k, areas) ⊎ Stopped actions (k, areas)
  unfolding run
  run-IsSafe n [] k areas safe fine supplies = inl record {
    state = k;
    areas = areas;
    runs = refl;
    safe = safe;
    supplies = subst (λ x. Supplies x k.vm) (omega arith) supplies;
  }
  run-IsSafe n (action ∷ actions) k areas safe (fine, others) supplies =
      elim (act-Acted (n + total_cost actions) action k areas safe fine
        (subst (λ x. Supplies x k.vm) (omega arith) supplies)) [
          | inr (faults, bad) ↦ inr record {
            done = [];
            action = action;
            rest = actions;
            state = k;
            areas = areas;
            split = refl;
            runs = refl;
            faults = rw faults refl;
            safe = safe;
            at = bad;
          }
          | inl a ↦ elim (run-IsSafe n actions a.state a.areas' a.safe others a.supplies) [
            | inl end ↦ inl record {
              state = end.state;
              areas = end.areas;
              runs = rw a.acts end.runs;
              safe = end.safe;
              supplies = end.supplies;
            }
            | inr stop ↦ inr record {
              done = action ∷ stop.done;
              action = stop.action;
              rest = stop.rest;
              state = stop.state;
              areas = stop.areas;
              split = ap (λ (xs : List Action). action ∷ xs) stop.split;
              runs = rw a.acts stop.runs;
              faults = rw a.acts stop.faults;
              safe = stop.safe;
              at = stop.at;
            }
          ]
        ]
