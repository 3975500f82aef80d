-- ===== src/Heap/Paged/Split.antt =====
-- What the header in front of the page leaves in memory.
use simple_kernel.Base.{ℕ, ◌+◌, ◌-◌, ◌%◌, ◌^◌, ◌≤◌, ◌<◌, ◌≡◌, inl, inr, refl, ◌∙◌, arith, false}
use simple_kernel.Memory.{Memory, load32, store32, load32-store32_self, load32-store32-Apart, Apart}
use simple_kernel.Heap.Header.{header_size, prev_field, set_next_address, set_prev_address}
use simple_kernel.Heap.Layout.{block, IsHeader, next_of_header}
use simple_kernel.Heap.Write.{load32-set_next_self, load32-set_next-Apart, load32-set_prev-Apart}
use simple_kernel.Heap.Merge.{aligned-Apart}
use simple_kernel.Heap.Replace.{SameHeaders, SameOutside, Apart-outside}
use simple_kernel.Heap.Paged.{insert_before_page}

module _ (m : Memory) (area ret s : ℕ) (head : IsHeader m area (block s false))
    (aligned : ret % 8 ≡ 0) (above : area + header_size ≤ ret) (inside : ret ≤ area + s)
    (small : area + header_size + s < 2 ^ 32) where
  abbrev next : ℕ
  next = area + header_size + s

  abbrev cleared : Memory
  cleared = store32 (store32 m (prev_field ret) 0) ret 0

  abbrev backed : Memory
  backed = set_prev_address cleared ret area

  abbrev linked : Memory
  linked = set_next_address backed ret next

  abbrev followed : Memory
  followed = set_prev_address linked next ret

  abbrev split : Memory
  split = set_next_address followed area ret

  next_aligned : next % 8 ≡ 0
  next_aligned = omega (arith, head.aligned, head.whole)

  split_lem : insert_before_page m area ret ≡ split
  unfolding insert_before_page
  split_lem = rw (next_of_header m area (block s false) head) refl

  -- A word `next` of another header.
  split_elsewhere : (c : ℕ) → c % 8 ≡ 0 → Apart area c → Apart ret c → load32 split c ≡ load32 m c
  split_elsewhere c al p q =
      load32-set_next-Apart followed area ret c p
      ∙ load32-set_prev-Apart linked next ret c (aligned-Apart c next al next_aligned)
      ∙ load32-set_next-Apart backed ret next c q
      ∙ load32-set_prev-Apart cleared ret area c (aligned-Apart c ret al aligned)
      ∙ load32-store32-Apart (store32 m (prev_field ret) 0) ret c 0 q
      ∙ load32-store32-Apart m (prev_field ret) c 0 (aligned-Apart c ret al aligned)

  area_word : load32 split area ≡ ret + load32 m area % 8
  area_word = omega (
    arith,
    load32-set_next_self followed area ret aligned (omega arith),
    load32-set_prev-Apart linked next ret area (inr (omega arith)),
    load32-set_next-Apart backed ret next area (inr (omega arith)),
    load32-set_prev-Apart cleared ret area area (inr (omega arith)),
    load32-store32-Apart (store32 m (prev_field ret) 0) ret area 0 (inr (omega arith)),
    load32-store32-Apart m (prev_field ret) area 0 (inr (omega arith)),
  )

  ret_word : load32 split ret ≡ next
  ret_word = omega (
    arith,
    load32-set_next-Apart followed area ret ret (inl (omega arith)),
    load32-set_prev-Apart linked next ret ret (inr (omega arith)),
    load32-set_next_self backed ret next next_aligned small,
    load32-set_prev-Apart cleared ret area ret (inr (omega arith)),
    load32-store32_self (store32 m (prev_field ret) 0) ret 0 (omega arith),
  )

  pub split_same : SameHeaders area next m (insert_before_page m area ret)
  split_same c al h = rw split_lem (
      split_elsewhere c al (Apart-outside (omega arith) (omega arith) h)
        (Apart-outside (omega arith) (omega arith) h))

  -- The header behind the block gets a new predecessor.
  pub split_outside : SameOutside area (next + header_size) m (insert_before_page m area ret)
  split_outside c h = rw split_lem (
      load32-set_next-Apart followed area ret c (Apart-outside (omega arith) (omega arith) h)
      ∙ load32-set_prev-Apart linked next ret c (Apart-outside (omega arith) (omega arith) h)
      ∙ load32-set_next-Apart backed ret next c (Apart-outside (omega arith) (omega arith) h)
      ∙ load32-set_prev-Apart cleared ret area c (Apart-outside (omega arith) (omega arith) h)
      ∙ load32-store32-Apart (store32 m (prev_field ret) 0) ret c 0
          (Apart-outside (omega arith) (omega arith) h)
      ∙ load32-store32-Apart m (prev_field ret) c 0 (Apart-outside (omega arith) (omega arith) h))

  pub split_first :
      IsHeader (insert_before_page m area ret) area (block (ret - area - header_size) false)
  split_first = rw split_lem record {
    aligned = head.aligned;
    whole = omega (arith, head.aligned, aligned);
    word = omega (arith, area_word, head.word, head.aligned, head.whole);
  }

  pub split_second :
      IsHeader (insert_before_page m area ret) ret (block (next - ret - header_size) false)
  split_second = rw split_lem record {
    aligned = aligned;
    whole = omega (arith, next_aligned, aligned);
    word = omega (arith, ret_word);
  }
