-- ===== src/Tty/Scroll.antt =====
-- Clearing and scrolling the whole screen.
use simple_kernel.Base.{ℕ, ◌+◌, ◌-◌, ◌*◌, ◌≡◌, refl, arith, ltb, if◌then◌else◌}
use simple_kernel.Tty.{
  Buffer, Terminal, vga_entry, vga_width, vga_height, copy_rows, terminal_scroll,
  terminal_initialize,
}
use simple_kernel.Tty.Cells.{blank_cells_lem, blank_rows_lem, copy_rows_lem}

abbrev pub screen_size : ℕ
screen_size = vga_height * vga_width

abbrev pub last_line : ℕ
last_line = vga_width * (vga_height - 1)

abbrev pub blank : ℕ → ℕ
blank color = vga_entry b' ' color

-- `terminal_scroll` moves each row one up, blanks the last one in the current colour, and touches
-- no cell outside the screen, nor the cursor and the colour.
pub terminal_scroll_lem :
    (t : Terminal) (j : ℕ)
    → ((terminal_scroll t).buffer j ≡ (
        if ltb j last_line
        then t.buffer (j + vga_width)
        else if ltb j screen_size
        then blank t.color
        else t.buffer j))
      × ((terminal_scroll t).row ≡ t.row)
      × ((terminal_scroll t).column ≡ t.column)
      × ((terminal_scroll t).color ≡ t.color)
unfolding terminal_scroll
terminal_scroll_lem t j = (
  ground (
    arith,
    copy_rows_lem (vga_height - 1) 0 t.buffer j,
    blank_cells_lem vga_width last_line t.color (copy_rows (vga_height - 1) 0 t.buffer) j,
  ),
  refl,
  refl,
  refl,
)

-- `terminal_initialize` puts the cursor in the corner and blanks the whole screen, and no cell
-- outside it changes.
pub terminal_initialize_lem :
    (vga_memory : Buffer) (j : ℕ)
    → let t = terminal_initialize vga_memory in
      (t.row ≡ 0)
      × (t.column ≡ 0)
      × (t.color ≡ 7)
      × (t.buffer j ≡ (if ltb j screen_size then blank 7 else vga_memory j))
unfolding terminal_initialize
terminal_initialize_lem vga_memory j =
    (refl, refl, refl, ground (arith, blank_rows_lem vga_height 0 7 vga_memory j))
