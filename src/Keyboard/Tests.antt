-- ===== src/Keyboard/Tests.antt =====
-- The keyboard driver at concrete inputs.
use mx_os.Prelude.{ℕ, ◌≡◌, refl, true, false, arith, replicate, length-replicate}
use mx_os.Keyboard.{Keyboard, keyboard_handler}
use mx_os.Keyboard.Refine.{IsKeyboard, contents}
use mx_os.Keyboard.Keys.{typed, press_release_refines}

-- An empty queue at the end of the array.
abbrev empty : Keyboard
empty = record {
  key_queue = replicate 256 0;
  queue_read = 255;
  queue_write = 255;
  shift_pressed = true;
  extended_prefix = false;
}

empty-IsKeyboard : IsKeyboard empty
empty-IsKeyboard = record {
  full_size = length-replicate {A = ℕ} 256 0;
  read_in = omega arith;
  write_in = omega arith;
}

press_release_refines_example :
    contents (keyboard_handler 158 (keyboard_handler 30 empty)) ≡ typed true 30 (contents empty)
press_release_refines_example =
    press_release_refines 30 empty empty-IsKeyboard refl (omega arith) (omega arith) (omega arith)
      (omega arith)
