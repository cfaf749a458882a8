-- ===== src/Keyboard.antt =====
-- The keyboard driver of kernel/keyboard.c: the queue of key presses and the interrupt handler.
pub mod Fifo
pub mod Refine
pub mod Keys
mod Tests
use mx_os.Prelude.{
  ℕ, ◌+◌, ◌%◌, Bool, true, false, Option, none, some, List, [], ◌∷◌, set, get_or, length, ltb, ◌==◌,
  if◌then◌else◌, ◌||◌,
}

pub record Keyboard : Type 0 where
  pub key_queue : List ℕ
  pub queue_read : ℕ
  pub queue_write : ℕ
  pub shift_pressed : Bool
  pub extended_prefix : Bool

abbrev pub key_arrow_up : ℕ
key_arrow_up = 17

abbrev pub key_arrow_down : ℕ
key_arrow_down = 18

-- The characters of `kbd`, in ASCII.
abbrev pub kbd : List ℕ
kbd =
    0 ∷ 27 ∷ 49 ∷ 50 ∷ 51 ∷ 52 ∷ 53 ∷ 54 ∷ 55 ∷ 56 ∷ 57 ∷ 48 ∷ 45 ∷ 61 ∷ 8 ∷ 9 ∷ 113 ∷ 119 ∷ 101
    ∷ 114 ∷ 116 ∷ 121 ∷ 117 ∷ 105 ∷ 111 ∷ 112 ∷ 91 ∷ 93 ∷ 10 ∷ 0 ∷ 97 ∷ 115 ∷ 100 ∷ 102 ∷ 103 ∷ 104
    ∷ 106 ∷ 107 ∷ 108 ∷ 59 ∷ 39 ∷ 96 ∷ 0 ∷ 92 ∷ 122 ∷ 120 ∷ 99 ∷ 118 ∷ 98 ∷ 110 ∷ 109 ∷ 44 ∷ 46 ∷ 47
    ∷ 0 ∷ 42 ∷ 0 ∷ 32 ∷ []

abbrev pub kbd_shift : List ℕ
kbd_shift =
    0 ∷ 27 ∷ 33 ∷ 64 ∷ 35 ∷ 36 ∷ 37 ∷ 94 ∷ 38 ∷ 42 ∷ 40 ∷ 41 ∷ 95 ∷ 43 ∷ 8 ∷ 9 ∷ 81 ∷ 87 ∷ 69 ∷ 82
    ∷ 84 ∷ 89 ∷ 85 ∷ 73 ∷ 79 ∷ 80 ∷ 123 ∷ 125 ∷ 10 ∷ 0 ∷ 65 ∷ 83 ∷ 68 ∷ 70 ∷ 71 ∷ 72 ∷ 74 ∷ 75 ∷ 76
    ∷ 58 ∷ 34 ∷ 126 ∷ 0 ∷ 124 ∷ 90 ∷ 88 ∷ 67 ∷ 86 ∷ 66 ∷ 78 ∷ 77 ∷ 60 ∷ 62 ∷ 63 ∷ 0 ∷ 42 ∷ 0 ∷ 32
    ∷ []

-- The indices are `uint8_t`. A character that finds the queue full is dropped.
pub queue_push : ℕ → Keyboard → Keyboard
queue_push c k =
    let next = (k.queue_write + 1) % 256 in
    if next == k.queue_read
    then k
    else record k { key_queue = set k.key_queue k.queue_write c; queue_write = next }

-- The branch for a key behind the prefix 0xE0.
pub extended_key : Bool → ℕ → Keyboard → Keyboard
extended_key make code k =
    if make
    then if code == 72
      then queue_push key_arrow_up k
      else if code == 80
      then queue_push key_arrow_down k
      else k
    else k

-- The branch for a key press that is neither extended nor Shift.
pub plain_key : ℕ → Keyboard → Keyboard
plain_key code k =
    let c = if k.shift_pressed then get_or kbd_shift code 0 else get_or kbd code 0 in
    if ltb code (length kbd) then if c == 0 then k else queue_push c k else k

-- `keyboard_handler`, for the scan code `sc` that the controller gives. The acknowledgment that each
-- path sends to the interrupt controller is left out.
pub keyboard_handler : ℕ → Keyboard → Keyboard
keyboard_handler sc k =
    let make = ltb (sc % 256) 128 in
    let code = sc % 128 in
    if sc == 224
    then record k { extended_prefix = true }
    else if k.extended_prefix
    then extended_key make code (record k { extended_prefix = false })
    else if sc == 42 || sc == 54
    then record k { shift_pressed = true }
    else if sc == 170 || sc == 182
    then record k { shift_pressed = false }
    else if make
    then plain_key code k
    else k

-- `none` is the result 0; otherwise the character written to `out`.
unfoldable pub keyboard_read_char : Keyboard → Option ℕ × Keyboard
keyboard_read_char k = if k.queue_read == k.queue_write then (none, k) else (
  some (get_or k.key_queue k.queue_read 0),
  record k { queue_read = (k.queue_read + 1) % 256 },
)
