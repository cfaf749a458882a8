-- ===== src/Shell.antt =====
-- The command line and the history of kernel/shell.c. A buffer of characters is a function from
-- indices; -1 in `history_nav` is `none`. `history_count` is an int in the code, so the history is
-- modelled up to 2^31 - 1 commands.
pub mod Command
pub mod Echo
pub mod Keys
pub mod Line
pub mod Recent
pub mod Run
pub mod Start
mod Tests
use mx_os.Prelude.{
  ℕ, zero, suc, ◌+◌, ◌-◌, ◌%◌, Bool, true, false, Option, none, some, List, [], ◌∷◌, ltb, leb, ◌==◌,
  if◌then◌else◌, update, min,
}
use mx_os.Keyboard.{key_arrow_up, key_arrow_down}

abbrev pub history_size : ℕ
history_size = 8

-- `echo` has what `kprint_char` was given since the last prompt, the last character first.
pub record Shell : Type 0 where
  pub input_buffer : ℕ → ℕ
  pub buffer_idx : ℕ
  pub history : ℕ → ℕ → ℕ
  pub history_len : ℕ → ℕ
  pub history_count : ℕ
  pub history_nav : Option ℕ
  pub saved_line : ℕ → ℕ
  pub saved_line_len : ℕ
  pub echo : List ℕ

-- `for (k = i; k < i + n; k++) dst[k] = src[k]`
pub copy : ℕ → ℕ → (ℕ → ℕ) → (ℕ → ℕ) → ℕ → ℕ
copy zero i src dst = dst
copy (suc n) i src dst = copy n (i + 1) src (update dst i (src i))

-- The loop of `trim_to_first_nul` with `n` rounds left.
pub trim_from : ℕ → ℕ → (ℕ → ℕ) → ℕ
trim_from zero i buf = i
trim_from (suc n) i buf = let rest = trim_from n (i + 1) buf in if buf i == 0 then i else rest

pub trim_to_first_nul : (ℕ → ℕ) → ℕ → ℕ
trim_to_first_nul buf size = trim_from size 0 buf

pub history_push : (ℕ → ℕ) → ℕ → Shell → Shell
history_push cmd length_of s =
    let len = if ltb 255 length_of then 255 else length_of in
    let slot = s.history_count % history_size in
    record s {
      history = update s.history slot (copy len 0 cmd (s.history slot));
      history_len = update s.history_len slot len;
      history_count = s.history_count + 1;
    }

-- The loop of `history_load_from_disk` with `n` rounds left: at the end or at a line feed, the line
-- from `start` is pushed, unless it is empty.
pub push_lines : ℕ → ℕ → ℕ → (ℕ → ℕ) → ℕ → Shell → Shell
push_lines zero i start buf size s = s
push_lines (suc n) i start buf size s =
    let pushed = if ltb start i then history_push (λ k. buf (start + k)) (i - start) s else s in
    let on = push_lines n (i + 1) (i + 1) buf size pushed in
    let past = push_lines n (i + 1) start buf size s in
    if i == size then on else if buf i == 10 then on else past

-- `history_load_from_disk` with what `fs_load_file` gave.
pub history_from_bytes : (ℕ → ℕ) → ℕ → Shell → Shell
history_from_bytes buf loaded s =
    let size = trim_to_first_nul buf loaded in push_lines (size + 1) 0 0 buf size s

-- `kprint_char`
pub put_char : ℕ → Shell → Shell
put_char c s = record s { echo = c ∷ s.echo }

-- The two loops of `redraw_input_line`.
pub erase : ℕ → Shell → Shell
erase zero s = s
erase (suc n) s = erase n (record (put_char 8 s) { buffer_idx = n })

pub print_from : ℕ → ℕ → Shell → Shell
print_from zero i s = s
print_from (suc n) i s = print_from n (i + 1) (put_char (s.input_buffer i) s)

pub redraw_input_line : ℕ → Shell → Shell
redraw_input_line new_len s = record (print_from new_len 0 (erase s.buffer_idx s)) {
  buffer_idx = new_len;
}

-- `(history_count - 1 - steps_back + HISTORY_SIZE) % HISTORY_SIZE`
pub slot_back : ℕ → Shell → ℕ
slot_back steps_back s = (s.history_count + history_size - 1 - steps_back) % history_size

pub history_load : ℕ → Shell → Shell
history_load steps_back s =
    let slot = slot_back steps_back s in
    let len = s.history_len slot in
    redraw_input_line len (record s { input_buffer = copy len 0 (s.history slot) s.input_buffer })

pub max_steps : Shell → ℕ
max_steps s = if ltb s.history_count history_size then s.history_count else history_size

pub history_up : Shell → Shell
history_up s = if s.history_count == 0 then s else elim s.history_nav [
  | none ↦ history_load 0 (record s {
    saved_line_len = s.buffer_idx;
    saved_line = copy s.buffer_idx 0 s.input_buffer s.saved_line;
    history_nav = some 0;
  })
  | some nav ↦
      let older = history_load (nav + 1) (record s { history_nav = some (nav + 1) }) in
      let same = history_load nav s in if ltb (nav + 1) (max_steps s) then older else same
]

-- The branch of `history_down` in which a navigation is under way.
pub history_back : ℕ → Shell → Shell
history_back zero s = redraw_input_line s.saved_line_len (record s {
  history_nav = none;
  input_buffer = copy s.saved_line_len 0 s.saved_line s.input_buffer;
})
history_back (suc nav) s = history_load nav (record s { history_nav = some nav })

pub history_down : Shell → Shell
history_down s = elim s.history_nav [ none ↦ s | some nav ↦ history_back nav s ]

pub type_char : ℕ → Shell → Shell
type_char c s = put_char c (record s {
  input_buffer = update s.input_buffer s.buffer_idx c;
  buffer_idx = s.buffer_idx + 1;
})

-- `shell_update` for a key other than Enter.
pub edit_key : ℕ → Shell → Shell
edit_key c s =
    if c == 8
    then if ltb 0 s.buffer_idx then put_char c (record s { buffer_idx = s.buffer_idx - 1 }) else s
    else if c == key_arrow_up
    then history_up s
    else if c == key_arrow_down
    then history_down s
    else if ltb s.buffer_idx 255
    then type_char c s
    else s

-- `shell_execute` up to its first test on the command, without `history_save`.
pub record_line : Shell → Shell
record_line s =
    let ended = record s { input_buffer = update s.input_buffer s.buffer_idx 0 } in
    let kept =
      if ltb 0 s.buffer_idx then history_push ended.input_buffer s.buffer_idx ended else ended in
    record kept { history_nav = none }

-- The prompt at the end of `shell_execute`.
pub prompt : Shell → Shell
prompt s = record s { buffer_idx = 0; echo = [] }
