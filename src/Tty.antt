-- ===== src/Tty.antt =====
-- The text terminal of kernel/arch/i386/tty.c over the VGA text buffer, with the cell format of
-- kernel/arch/i386/vga.h. The buffer is a cell at each index from `terminal_buffer` on.
pub mod Cells
pub mod Scroll
pub mod Cursor
pub mod Tests
use simple_kernel.Base.{
  ℕ, zero, suc, ◌+◌, ◌-◌, ◌*◌, ◌/◌, ◌%◌, ◌^◌, bit_or, List, [], ◌∷◌, ◌==◌, if◌then◌else◌, u8, u16,
  ◌<<<◌,
}

pub data VgaColor : Type 0 where
  black blue green cyan red magenta brown light_grey dark_grey light_blue light_green light_cyan
        light_red light_magenta light_brown white :
      VgaColor

-- The value that the enumeration gives a colour.
unfoldable pub color_code : VgaColor → ℕ
color_code black = 0
color_code blue = 1
color_code green = 2
color_code cyan = 3
color_code red = 4
color_code magenta = 5
color_code brown = 6
color_code light_grey = 7
color_code dark_grey = 8
color_code light_blue = 9
color_code light_green = 10
color_code light_cyan = 11
color_code light_red = 12
color_code light_magenta = 13
color_code light_brown = 14
color_code white = 15

unfoldable pub vga_entry_color : VgaColor → VgaColor → ℕ
unfolding color_code
vga_entry_color fg bg = u8 (bit_or (color_code fg) (color_code bg <<< 4))

unfoldable pub vga_entry : ℕ → ℕ → ℕ
vga_entry uc color = u16 (bit_or (u16 (u8 uc)) (u16 (u8 color) <<< 8))

abbrev pub vga_width : ℕ
vga_width = 80

abbrev pub vga_height : ℕ
vga_height = 25

abbrev pub Buffer : Type 0
Buffer = ℕ → ℕ

abbrev pub put : Buffer → ℕ → ℕ → Buffer
put b i v j = if i == j then v else b j

pub record Terminal : Type 0 where
  pub row : ℕ
  pub column : ℕ
  pub color : ℕ
  pub buffer : Buffer

-- `left` cells from index `i` on become blanks: the body of the inner loops of
-- `terminal_initialize` and of the loop of `terminal_delete_last_line`.
unfoldable pub blank_cells : ℕ → ℕ → ℕ → Buffer → Buffer
blank_cells zero i color b = b
blank_cells (suc left) i color b = blank_cells left (i + 1) color (put b i (vga_entry b' ' color))

unfoldable pub blank_rows : ℕ → ℕ → ℕ → Buffer → Buffer
blank_rows zero y color b = b
blank_rows (suc left) y color b =
    blank_rows left (y + 1) color (blank_cells vga_width (y * vga_width) color b)

unfoldable pub terminal_initialize : Buffer → Terminal
unfolding vga_entry_color
terminal_initialize vga_memory =
    let color = vga_entry_color light_grey black in
    record { row = 0; column = 0; color = color; buffer = blank_rows vga_height 0 color vga_memory }

unfoldable pub terminal_setcolor : ℕ → Terminal → Terminal
terminal_setcolor color t = record t { color = color }

unfoldable pub terminal_putentryat : ℕ → ℕ → ℕ → ℕ → Terminal → Terminal
terminal_putentryat c color x y t = record t {
  buffer = put t.buffer (y * vga_width + x) (vga_entry c color);
}

unfoldable pub terminal_delete_last_line : Terminal → Terminal
terminal_delete_last_line t = record t {
  buffer = blank_cells vga_width (vga_width * (vga_height - 1)) t.color t.buffer;
}

-- `memcpy` of `left` cells.
unfoldable pub copy_cells : ℕ → ℕ → ℕ → Buffer → Buffer
copy_cells zero dest src b = b
copy_cells (suc left) dest src b = copy_cells left (dest + 1) (src + 1) (put b dest (b src))

-- The loop of `terminal_scroll` from row `i` on.
unfoldable pub copy_rows : ℕ → ℕ → Buffer → Buffer
copy_rows zero i b = b
copy_rows (suc left) i b =
    copy_rows left (i + 1) (copy_cells vga_width (vga_width * i) (vga_width * (i + 1)) b)

unfoldable pub terminal_scroll : Terminal → Terminal
unfolding terminal_delete_last_line
terminal_scroll t =
    terminal_delete_last_line (record t { buffer = copy_rows (vga_height - 1) 0 t.buffer })

-- The cursor's part of `terminal_putchar`, before it looks whether to scroll.
unfoldable pub put_and_advance : ℕ → Terminal → Terminal
unfolding terminal_putentryat
put_and_advance c t =
    if c == b'\n'
    then record t { row = t.row + 1; column = 0 }
    else (let t' = record (terminal_putentryat c t.color t.column t.row t) {
      column = t.column + 1;
    } in
        if t'.column == vga_width then record t' { row = t'.row + 1; column = 0 } else t')

unfoldable pub terminal_putchar : ℕ → Terminal → Terminal
terminal_putchar c t =
    let t' = put_and_advance c t in
    if t'.row == vga_height
    then (let s = terminal_scroll t' in record s { row = s.row - 1 })
    else t'

unfoldable pub terminal_write : List ℕ → Terminal → Terminal
terminal_write [] t = t
terminal_write (c ∷ rest) t = terminal_write rest (terminal_putchar c t)
