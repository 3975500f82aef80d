-- ===== src/Gdt.antt =====
-- The segment descriptors of kernel/arch/i386/gdt.c, with the macros and records of
-- kernel/include/kernel/arch/i386/gdt.h.
pub mod Fields
use simple_kernel.Base.{
  ℕ, ◌+◌, ◌-◌, ◌*◌, ◌/◌, ◌%◌, ◌^◌, bit_and, bit_or, List, [], ◌∷◌, u8, u16, ◌<<<◌, ◌>>>◌,
}

abbrev pub gdt_access_pr_bit : ℕ → ℕ
gdt_access_pr_bit x = x <<< 7

abbrev pub gdt_access_privl_bits : ℕ → ℕ
gdt_access_privl_bits x = bit_and x 3 <<< 5

abbrev pub gdt_access_s_bit : ℕ → ℕ
gdt_access_s_bit x = x <<< 4

abbrev pub gdt_access_ex_bit : ℕ → ℕ
gdt_access_ex_bit x = x <<< 3

abbrev pub gdt_access_rw_bit : ℕ → ℕ
gdt_access_rw_bit x = x <<< 1

abbrev pub gdt_flags_gr : ℕ → ℕ
gdt_flags_gr x = x <<< 7

abbrev pub gdt_flags_sz : ℕ → ℕ
gdt_flags_sz x = x <<< 6

pub record GdtEntry : Type 0 where
  pub limit_low : ℕ
  pub base_low : ℕ
  pub base_middle : ℕ
  pub access : ℕ
  pub flags : ℕ
  pub base_high : ℕ

pub record GdtrEntry : Type 0 where
  pub limit : ℕ
  pub base : ℕ

-- Every field of `*entry` is written, so its old value does not matter.
unfoldable pub config_gdt_entry : ℕ → ℕ → ℕ → ℕ → GdtEntry
config_gdt_entry base limit access flags = record {
  limit_low = u16 limit;
  base_low = u16 base;
  base_middle = u8 (base >>> 16);
  access = access;
  flags = u8 (bit_or (u8 (bit_and flags 0b11110000)) (bit_and (limit >>> 16) 0b00001111));
  base_high = u8 (base >>> 24);
}

abbrev pub all_ones : ℕ
all_ones = 2 ^ 32 - 1

-- The table and the register that `lgdt` loads; `table` is the address of `initial_gdt`.
unfoldable pub load_initial_gdt : ℕ → List GdtEntry × GdtrEntry
unfolding config_gdt_entry
load_initial_gdt table =
    let access : ℕ =
      u8 (bit_or (bit_or (gdt_access_pr_bit 1) (gdt_access_s_bit 1)) (gdt_access_rw_bit 1)) in
    let flags : ℕ = u8 (bit_or (gdt_flags_gr 1) (gdt_flags_sz 1)) in
    (
      config_gdt_entry 0 0 0 0
          ∷ config_gdt_entry 0 all_ones (u8 (bit_or access (gdt_access_ex_bit 1))) flags
          ∷ config_gdt_entry 0 all_ones access flags
          ∷ config_gdt_entry 0 all_ones
              (u8 (bit_or (bit_or access (gdt_access_privl_bits 3)) (gdt_access_ex_bit 1))) flags
          ∷ config_gdt_entry 0 all_ones (u8 (bit_or access (gdt_access_privl_bits 3))) flags
          ∷ [],
      record { limit = 8 * 5 - 1; base = table },
    )
