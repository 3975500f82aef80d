-- ===== src/Memory/Tests.antt =====
-- Copies within a memory that holds at each address its lowest byte.
use simple_kernel.Base.{◌≡◌}
use simple_kernel.Memory.{Memory, load8, memmove}
use simple_kernel.Memory.Copy.{copied, memmove_lem}

abbrev numbered : Memory
numbered = λ a. a

memmove_lem_example :
    load8 (memmove numbered 0x104 0x100 16) 0x108 ≡ copied numbered 0x104 0x100 16 0x108
memmove_lem_example = memmove_lem numbered 0x104 0x100 16 0x108
