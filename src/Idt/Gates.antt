-- ===== src/Idt/Gates.antt =====
-- Which handler the processor finds for each vector.
use simple_kernel.Base.{
  ℕ, zero, suc, ◌+◌, ◌*◌, ◌^◌, ◌≤◌, ◌<◌, ◌≡◌, refl, ◌∙◌, arith, Bool, ◌&&◌, ◌||◌, ltb, leb, ◌==◌,
  if◌then◌else◌, List, length, get_or, length-set, get_or-set, length-replicate, get_or-replicate,
  replicate,
}
use simple_kernel.Idt.{
  IdtEntry, Wrappers, idt_size, config_idt_entry, zero_entry, set_gate, set_gates, reserve_gates,
  config_entries, load_initial_idt,
}

abbrev pub within : ℕ → ℕ → ℕ → Bool
within lo hi j = leb lo j && ltb j hi

abbrev pub gate : ℕ → IdtEntry
gate addr = config_idt_entry addr 0x08 0b10001110

length-set_gate : (i addr : ℕ) (idt : List IdtEntry) → length (set_gate i addr idt) ≡ length idt
unfolding set_gate
length-set_gate i addr idt = length-set idt i _

entry-set_gate :
    (i addr v : ℕ) (idt : List IdtEntry)
    → i < length idt
    → get_or (set_gate i addr idt) v zero_entry
      ≡ (if i == v then gate addr else get_or idt v zero_entry)
unfolding set_gate
entry-set_gate i addr v idt h = get_or-set idt i v _ zero_entry h

module _ (w : Wrappers) where
  length-set_gates :
      (left i : ℕ) (idt : List IdtEntry) → length (set_gates w left i idt) ≡ length idt
  unfolding set_gates
  length-set_gates zero i idt = refl
  length-set_gates (suc left) i idt =
      length-set_gates left (i + 1) (set_gate i (w.isr_wrapper i) idt) ∙ length-set_gate i _ idt

  length-reserve_gates :
      (left i : ℕ) (idt : List IdtEntry) → length (reserve_gates w left i idt) ≡ length idt
  unfolding reserve_gates
  length-reserve_gates zero i idt = refl
  length-reserve_gates (suc left) i idt =
      length-reserve_gates left (i + 1) (set_gate i w.isr_wrapper_reserved idt)
      ∙ length-set_gate i _ idt

  entry-set_gates :
      (left i v : ℕ) (idt : List IdtEntry)
      → i + left ≤ length idt
      → get_or (set_gates w left i idt) v zero_entry
        ≡ (if within i (i + left) v then gate (w.isr_wrapper v) else get_or idt v zero_entry)
  unfolding set_gates
  entry-set_gates zero i v idt h = ground arith
  entry-set_gates (suc left) i v idt h = ground (
    arith,
    length-set_gate i (w.isr_wrapper i) idt,
    entry-set_gate i (w.isr_wrapper i) v idt,
    entry-set_gates left (i + 1) v (set_gate i (w.isr_wrapper i) idt),
  )

  entry-reserve_gates :
      (left i v : ℕ) (idt : List IdtEntry)
      → i + left ≤ length idt
      → get_or (reserve_gates w left i idt) v zero_entry
        ≡ (if within i (i + left) v then gate w.isr_wrapper_reserved else get_or idt v zero_entry)
  unfolding reserve_gates
  entry-reserve_gates zero i v idt h = ground arith
  entry-reserve_gates (suc left) i v idt h = ground (
    arith,
    length-set_gate i w.isr_wrapper_reserved idt,
    entry-set_gate i w.isr_wrapper_reserved v idt,
    entry-reserve_gates left (i + 1) v (set_gate i w.isr_wrapper_reserved idt),
  )

-- The address of the routine that serves a gate.
abbrev pub handler_of : IdtEntry → ℕ
handler_of e = e.addr_low + e.addr_high * 2 ^ 16

-- A gate holds its handler's address of 32 bits whole, the code segment and the attributes.
pub config_idt_entry_fields :
    (addr cs attributes : ℕ)
    → addr < 2 ^ 32
    → let e = config_idt_entry addr cs attributes in
      (handler_of e ≡ addr) × (e.kernel_cs ≡ cs) × (e.attributes ≡ attributes) × (e.reserved ≡ 0)
unfolding config_idt_entry
config_idt_entry_fields addr cs attributes h = (omega arith, refl, refl, refl)

-- What vector `v` is to be: the exceptions with a wrapper of their own, timer and keyboard; the
-- vectors that Intel reserves; and none for the others.
abbrev pub expected : Wrappers → ℕ → IdtEntry
expected w v =
    if (ltb v 15 || within 16 22 v) || within 32 34 v
    then gate (w.isr_wrapper v)
    else if ltb v 32
    then gate w.isr_wrapper_reserved
    else zero_entry

module _ (w : Wrappers) (idt₀ : List IdtEntry) (sized : length idt₀ ≡ idt_size) where
  length-config_entries : length (config_entries w idt₀) ≡ idt_size
  unfolding config_entries
  length-config_entries =
      length-set_gates w 2 32 _
      ∙ length-reserve_gates w 10 22 _
      ∙ length-set_gates w 6 16 _
      ∙ length-set_gate 15 _ _
      ∙ length-set_gates w 15 0 idt₀
      ∙ sized

  entry-config_entries :
      (v : ℕ)
      → get_or idt₀ v zero_entry ≡ zero_entry
      → get_or (config_entries w idt₀) v zero_entry ≡ expected w v
  unfolding config_entries
  entry-config_entries v clear =
      let idt₁ = set_gates w 15 0 idt₀ in
      let idt₂ = set_gate 15 w.isr_wrapper_reserved idt₁ in
      let idt₃ = set_gates w 6 16 idt₂ in
      let idt₄ = reserve_gates w 10 22 idt₃ in
      let l₁ : length idt₁ ≡ 256 = length-set_gates w 15 0 idt₀ ∙ sized in
      let l₂ : length idt₂ ≡ 256 = length-set_gate 15 w.isr_wrapper_reserved idt₁ ∙ l₁ in
      let l₃ : length idt₃ ≡ 256 = length-set_gates w 6 16 idt₂ ∙ l₂ in
      let l₄ : length idt₄ ≡ 256 = length-reserve_gates w 10 22 idt₃ ∙ l₃ in
      ground (
        arith,
        entry-set_gates w 15 0 v idt₀,
        entry-set_gate 15 w.isr_wrapper_reserved v idt₁,
        entry-set_gates w 6 16 v idt₂,
        entry-reserve_gates w 10 22 v idt₃,
        entry-set_gates w 2 32 v idt₄,
      )

-- After `load_initial_idt` each vector has the gate that is meant for it, and those from 34 on
-- have none. The table has 256 entries, and the limit is its last byte.
pub load_initial_idt_lem :
    (w : Wrappers) (table v : ℕ)
    → let (idt, idtr) = load_initial_idt w table in
      (get_or idt v zero_entry ≡ expected w v)
      × (length idt ≡ idt_size)
      × (idtr.limit + 1 ≡ 8 * length idt)
unfolding load_initial_idt
load_initial_idt_lem w table v =
    let idt₀ = replicate idt_size zero_entry in
    let sized : length idt₀ ≡ idt_size = length-replicate idt_size zero_entry in
    (
      entry-config_entries w idt₀ sized v (get_or-replicate idt_size v zero_entry),
      length-config_entries w idt₀ sized,
      omega (arith, length-config_entries w idt₀ sized),
    )
