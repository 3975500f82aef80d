-- ===== src/Tty/Cells.antt =====
-- What the loops over cells leave at each index.
use simple_kernel.Base.{
  ℕ, zero, suc, ◌+◌, ◌-◌, ◌*◌, ◌≤◌, ◌≡◌, ap, arith, Bool, ◌&&◌, ltb, leb, if◌then◌else◌,
}
use simple_kernel.Tty.{
  Buffer, put, vga_entry, vga_width, blank_cells, blank_rows, copy_cells, copy_rows,
}

abbrev pub within : ℕ → ℕ → ℕ → Bool
within lo hi j = leb lo j && ltb j hi

pub blank_cells_lem :
    (left i color : ℕ) (b : Buffer) (j : ℕ)
    → blank_cells left i color b j ≡ (if within i (i + left) j then vga_entry b' ' color else b j)
unfolding blank_cells
blank_cells_lem zero i color b j = ground arith
blank_cells_lem (suc left) i color b j =
    ground (arith, blank_cells_lem left (i + 1) color (put b i (vga_entry b' ' color)) j)

pub blank_rows_lem :
    (left y color : ℕ) (b : Buffer) (j : ℕ)
    → blank_rows left y color b j
      ≡ (if within (y * vga_width) ((y + left) * vga_width) j then vga_entry b' ' color else b j)
unfolding blank_rows
blank_rows_lem zero y color b j = ground arith
blank_rows_lem (suc left) y color b j = ground (
  arith,
  blank_cells_lem vga_width (y * vga_width) color b j,
  blank_rows_lem left (y + 1) color (blank_cells vga_width (y * vga_width) color b) j,
)

-- The source lies at least `left` cells behind the destination, so nothing is read after it is
-- written.
pub copy_cells_lem :
    (left dest src : ℕ) (b : Buffer) (j : ℕ)
    → dest + left ≤ src
    → copy_cells left dest src b j
      ≡ (if within dest (dest + left) j then b (src + (j - dest)) else b j)
unfolding copy_cells
copy_cells_lem zero dest src b j h = ground arith
copy_cells_lem (suc left) dest src b j h = ground (
  arith,
  copy_cells_lem left (dest + 1) (src + 1) (put b dest (b src)) j,
  λ (e : src + 1 + (j - (dest + 1)) ≡ src + (j - dest)). ap b e,
  λ (e : j ≡ dest). ap (λ (x : ℕ). b (src + (x - dest))) e,
)

pub copy_rows_lem :
    (left i : ℕ) (b : Buffer) (j : ℕ)
    → copy_rows left i b j
      ≡ (if within (vga_width * i) (vga_width * (i + left)) j then b (j + vga_width) else b j)
unfolding copy_rows
copy_rows_lem zero i b j = ground arith
copy_rows_lem (suc left) i b j =
    let b' = copy_cells vga_width (vga_width * i) (vga_width * (i + 1)) b in
    ground (
      arith,
      copy_rows_lem left (i + 1) b' j,
      copy_cells_lem vga_width (vga_width * i) (vga_width * (i + 1)) b j,
      copy_cells_lem vga_width (vga_width * i) (vga_width * (i + 1)) b (j + vga_width),
      λ (e : vga_width * (i + 1) + (j - vga_width * i) ≡ j + vga_width). ap b e,
    )
