-- ===== src/Tty/Cursor.antt =====
-- The cursor stays on the screen, and a character is written there and nowhere else.
use simple_kernel.Base.{
  ℕ, ◌+◌, ◌-◌, ◌*◌, ◌≤◌, ◌<◌, ◌≡◌, refl, ◌∙◌, arith, List, [], ◌∷◌, ltb, ◌==◌, if◌then◌else◌,
}
use simple_kernel.Tty.{
  Terminal, put, vga_entry, vga_width, vga_height, put_and_advance, terminal_putchar,
  terminal_write,
}
use simple_kernel.Tty.Scroll.{screen_size, last_line, blank, terminal_scroll_lem}

pub record IsOnScreen (t : Terminal) : Type 0 where
  pub row_bound : t.row < vga_height
  pub column_bound : t.column < vga_width

-- The index of the cell under the cursor.
abbrev pub cursor : Terminal → ℕ
cursor t = t.row * vga_width + t.column

-- Where the cursor stands after the character `c`, counted in cells, before any scrolling.
abbrev pub advanced : ℕ → Terminal → ℕ
advanced c t = if c == b'\n' then (t.row + 1) * vga_width else cursor t + 1

module _ (c : ℕ) (t : Terminal) (on : IsOnScreen t) where
  advance_cursor :
      (cursor (put_and_advance c t) ≡ advanced c t)
      × ((put_and_advance c t).column < vga_width)
      × ((put_and_advance c t).row ≤ vga_height)
      × ((put_and_advance c t).color ≡ t.color)
  unfolding put_and_advance
  advance_cursor = (ground arith, ground arith, ground arith, ground arith)

  advance_buffer :
      (j : ℕ)
      → (put_and_advance c t).buffer j
        ≡ (if c == b'\n' then t.buffer j else put t.buffer (cursor t) (vga_entry c t.color) j)
  unfolding put_and_advance
  advance_buffer j = ground arith

  -- From a screen with its cursor on it, `terminal_putchar` keeps the cursor on the screen.
  pub terminal_putchar-IsOnScreen : IsOnScreen (terminal_putchar c t)
  unfolding terminal_putchar
  terminal_putchar-IsOnScreen = record {
    row_bound = ground (arith, advance_cursor, terminal_scroll_lem (put_and_advance c t) 0);
    column_bound = ground (arith, advance_cursor, terminal_scroll_lem (put_and_advance c t) 0);
  }

  -- The cells once `c` is written at the cursor; a newline writes nothing.
  abbrev pub written : ℕ → ℕ
  written j = if c == b'\n' then t.buffer j else put t.buffer (cursor t) (vga_entry c t.color) j

  -- On a screen with its cursor on it, `terminal_putchar` writes the character at the cursor and
  -- moves the cursor on by one cell, or to the start of the next row for a newline. Where that
  -- leaves the screen, the cursor goes back by a row, every row moves up and the last one is
  -- blank. No cell outside the screen changes.
  pub terminal_putchar_lem :
      (j : ℕ)
      → (cursor (terminal_putchar c t)
          ≡ (if advanced c t == screen_size then advanced c t - vga_width else advanced c t))
        × ((terminal_putchar c t).buffer j ≡ (
            if advanced c t == screen_size
            then (if ltb j last_line
                then written (j + vga_width)
                else if ltb j screen_size
                then blank t.color
                else t.buffer j)
            else written j))
        × ((terminal_putchar c t).color ≡ t.color)
  unfolding terminal_putchar
  terminal_putchar_lem j = (
    ground (arith, advance_cursor, terminal_scroll_lem (put_and_advance c t) j),
    ground (
      arith,
      advance_cursor,
      advance_buffer j,
      advance_buffer (j + vga_width),
      terminal_scroll_lem (put_and_advance c t) j,
    ),
    ground (arith, advance_cursor, terminal_scroll_lem (put_and_advance c t) j),
  )

-- From a screen with its cursor on it, after any text the cursor is still on the screen, and a
-- cell outside the screen is as before.
pub terminal_write_lem :
    (text : List ℕ) (t : Terminal) (j : ℕ)
    → IsOnScreen t
    → screen_size ≤ j
    → IsOnScreen (terminal_write text t) × ((terminal_write text t).buffer j ≡ t.buffer j)
unfolding terminal_write
terminal_write_lem [] t j on h = (on, refl)
terminal_write_lem (c ∷ rest) t j on h =
    let (on', same) =
      terminal_write_lem rest (terminal_putchar c t) j (terminal_putchar-IsOnScreen c t on) h in
    (on', same ∙ ground (arith, terminal_putchar_lem c t on j))
