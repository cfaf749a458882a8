-- ===== src/Screen.antt =====
-- The text screen of kernel/screen.c. The characters that are mirrored to the serial port are left out,
-- and so are the calls of `update_cursor`, which writes to ports only.
pub mod Cursor
pub mod Numbers
pub mod Text
mod Tests
use mx_os.Prelude.{
  ℕ, zero, suc, ◌+◌, ◌-◌, ◌*◌, ◌/◌, ◌%◌, ◌^◌, Bool, true, false, List, [], ◌∷◌, ◌++◌, get_or, ltb,
  leb, ◌==◌, if◌then◌else◌, update,
}
use mx_os.Pit.{Out}

abbrev pub max_rows : ℕ
max_rows = 25

abbrev pub max_cols : ℕ
max_cols = 80

-- `vidmem` is the memory from `VIDEO_ADDRESS` on.
pub record Screen : Type 0 where
  pub vidmem : ℕ → ℕ
  pub cursor_x : ℕ
  pub cursor_y : ℕ
  pub current_color : ℕ

-- Two bytes for each of `n` cells, from byte `i` on.
pub blank_cells : ℕ → ℕ → ℕ → (ℕ → ℕ) → ℕ → ℕ
blank_cells zero i color mem = mem
blank_cells (suc n) i color mem =
    blank_cells n (i + 2) color (update (update mem i 32) (i + 1) color)

-- `n` bytes, each from a line further down, from byte `i` on.
pub copy_up : ℕ → ℕ → (ℕ → ℕ) → ℕ → ℕ
copy_up zero i mem = mem
copy_up (suc n) i mem = copy_up n (i + 1) (update mem i (mem (i + max_cols * 2)))

pub scroll : Screen → Screen
scroll s = record s {
  vidmem =
      blank_cells max_cols ((max_rows - 1) * max_cols * 2) s.current_color
        (copy_up ((max_rows - 1) * max_cols * 2) 0 s.vidmem);
  cursor_y = max_rows - 1;
}

pub clear_screen : Screen → Screen
clear_screen s = record s {
  vidmem = blank_cells (max_rows * max_cols) 0 s.current_color s.vidmem;
  cursor_x = 0;
  cursor_y = 0;
}

pub kprint_char_at : ℕ → ℕ → ℕ → Screen → Screen
kprint_char_at c x y s =
    let offset = (y * max_cols + x) * 2 in
    record s { vidmem = update (update s.vidmem offset c) (offset + 1) s.current_color }

-- Where a backspace moves the cursor to.
pub step_back : Screen → Screen
step_back s =
    if ltb 0 s.cursor_x
    then record s { cursor_x = s.cursor_x - 1 }
    else if ltb 0 s.cursor_y
    then record s { cursor_y = s.cursor_y - 1; cursor_x = max_cols - 1 }
    else s

-- `if (cursor_x >= MAX_COLS)`
pub wrap_line : Screen → Screen
wrap_line s =
    if leb max_cols s.cursor_x then record s { cursor_x = 0; cursor_y = s.cursor_y + 1 } else s

-- `if (cursor_y >= MAX_ROWS)`
pub wrap_screen : Screen → Screen
wrap_screen s = if leb max_rows s.cursor_y then scroll s else s

pub kprint_char : ℕ → Screen → Screen
kprint_char c s =
    let b = step_back s in
    if c == 10
    then wrap_screen (wrap_line (record s { cursor_x = 0; cursor_y = s.cursor_y + 1 }))
    else if c == 8
    then kprint_char_at 32 b.cursor_x b.cursor_y b
    else wrap_screen (
        wrap_line (record (kprint_char_at c s.cursor_x s.cursor_y s) { cursor_x = s.cursor_x + 1 }))

-- `str` gives the bytes up to the terminator.
unfoldable pub kprint : List ℕ → Screen → Screen
kprint [] s = s
kprint (c ∷ cs) s = if c == 0 then s else kprint cs (kprint_char c s)

-- The loop of `kprint_dec`, which fills the buffer from its end; `n` is its `i`, so `digits` has the
-- bytes written so far.
pub dec_loop : ℕ → ℕ → List ℕ → List ℕ
dec_loop zero value digits = digits
dec_loop (suc n) value digits =
    let rest = dec_loop n (value / 10) ((48 + value % 10) ∷ digits) in
    if value == 0 then digits else rest

-- The characters that `kprint_dec` prints.
unfoldable pub dec_text : ℕ → List ℕ
dec_text value = if value == 0 then 48 ∷ [] else dec_loop 10 value []

unfoldable pub kprint_dec : ℕ → Screen → Screen
kprint_dec value s = kprint (dec_text value) s

abbrev pub hex_digits : List ℕ
hex_digits = 48 ∷ 49 ∷ 50 ∷ 51 ∷ 52 ∷ 53 ∷ 54 ∷ 55 ∷ 56 ∷ 57 ∷ 65 ∷ 66 ∷ 67 ∷ 68 ∷ 69 ∷ 70 ∷ []

-- The loop of `kprint_hex`, for the `n` lowest digits of `value`, the highest of them first.
pub hex_loop : ℕ → ℕ → List ℕ
hex_loop zero value = []
hex_loop (suc n) value = get_or hex_digits (value / 16 ^ n % 16) 0 ∷ hex_loop n value

pub hex_text : ℕ → List ℕ
hex_text value = 48 ∷ 120 ∷ hex_loop 8 value

unfoldable pub kprint_hex : ℕ → Screen → Screen
kprint_hex value s = kprint (hex_text value) s

-- `x` and `y` are not tested.
abbrev pub kprint_at : List ℕ → ℕ → ℕ → Screen → Screen
kprint_at str x y s = kprint str (record s { cursor_x = x; cursor_y = y })

-- The bytes that `update_cursor` writes to the ports of the display; `pos` is a `uint16_t`.
pub update_cursor : Screen → List Out
update_cursor s =
    let pos = (s.cursor_y * max_cols + s.cursor_x) % 65536 in
    (0x3D4, 0x0F) ∷ (0x3D5, pos % 256) ∷ (0x3D4, 0x0E) ∷ (0x3D5, pos / 256 % 256) ∷ []
