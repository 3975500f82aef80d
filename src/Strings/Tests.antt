-- ===== src/Strings/Tests.antt =====
-- The text "ok" at address 0x100.
use simple_kernel.Base.{ℕ, ◌≡◌, refl, arith, some, ◌==◌, if◌then◌else◌}
use simple_kernel.Memory.{Memory, load8}
use simple_kernel.Strings.{IsText, strcmp}
use simple_kernel.Strings.Compare.{Differ, strcmp-Differ}

abbrev greeting : Memory
greeting = λ a. if a == 0x100 then b'o' else if a == 0x101 then b'k' else 0

greeting-IsText : IsText greeting 0x100 2
unfolding load8
greeting-IsText = record { body = λ i h. ground arith; end = refl }

strcmp-Differ_example :
    (r : ℕ) × (strcmp greeting 0x100 0x101 ≡ some r) × Differ greeting 0x100 0x101 r
strcmp-Differ_example = strcmp-Differ greeting 0x100 0x101 2 greeting-IsText (omega arith)
