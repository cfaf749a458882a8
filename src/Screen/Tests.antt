-- ===== src/Screen/Tests.antt =====
-- The screen of kernel/screen.c at concrete cursors.
use mx_os.Prelude.{◌≡◌, refl, [], ◌∷◌, arith}
use mx_os.Screen.{Screen, kprint, dec_loop, dec_text, hex_loop, hex_text}
use mx_os.Screen.Cursor.{OnScreen, Kept, kprint-OnScreen}
use mx_os.Screen.Numbers.{read_dec, Digits, read-dec_text}

-- The cursor is in the last cell.
abbrev last_cell : Screen
last_cell = record { vidmem = λ a. a; cursor_x = 79; cursor_y = 24; current_color = 0x1F }

hundred_twenty : dec_text 120 ≡ 49 ∷ 50 ∷ 48 ∷ []
unfolding dec_text dec_loop
hundred_twenty = refl

dead_beef : hex_text 0xDEADBEEF ≡ 48 ∷ 120 ∷ 68 ∷ 69 ∷ 65 ∷ 68 ∷ 66 ∷ 69 ∷ 69 ∷ 70 ∷ []
unfolding hex_text hex_loop
dead_beef = refl

kprint-OnScreen_example :
    OnScreen (kprint (65 ∷ 10 ∷ 8 ∷ []) last_cell)
    × Kept last_cell (kprint (65 ∷ 10 ∷ 8 ∷ []) last_cell)
kprint-OnScreen_example =
    kprint-OnScreen (65 ∷ 10 ∷ 8 ∷ []) last_cell
      (record { column = omega arith; row = omega arith })

read-dec_text_example :
    (read_dec 0 (dec_text 4294967295) ≡ 4294967295) × Digits (dec_text 4294967295)
read-dec_text_example = read-dec_text 4294967295 (omega arith)
