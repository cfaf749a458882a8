-- ===== src/Shell/Command.antt =====
-- How `shell_execute` of kernel/shell.c reads its command. A string is the list of the bytes before its
-- terminator.
pub mod Pids
pub mod Words
use mx_os.Prelude.{
  ℕ, zero, suc, ◌+◌, ◌-◌, ◌*◌, ◌≤◌, Bool, true, false, not, ◌&&◌, List, [], ◌∷◌, get_or, drop, ltb,
  leb, ◌==◌, if◌then◌else◌, u32,
}
use mx_os.Prelude.Int.{ℤ, pos, negsuc}

abbrev pub exec_max_args : ℕ
exec_max_args = 8

-- A command with its arguments; a usage is what a command prints in place of running.
pub data Command : Type 0 where
  help : Command
  clear : Command
  ver : Command
  ls : Command
  cat : List ℕ → Command
  rm : List ℕ → Command
  exec_usage : Command
  exec : List (List ℕ) → Command
  ps : Command
  kill_usage : Command
  kill : ℕ → Command
  priority_usage : Command
  priority : ℕ → ℤ → Command
  write_usage : Command
  write : List ℕ → List ℕ → Command
  mem : Command
  uptime : Command
  reboot : Command
  unknown : List ℕ → Command
  nothing : Command

-- `m_strcmp(s1, s2) == 0`
pub m_strcmp : List ℕ → List ℕ → Bool
m_strcmp [] [] = true
m_strcmp [] (d ∷ s2) = false
m_strcmp (c ∷ s1) [] = false
m_strcmp (c ∷ s1) (d ∷ s2) = let rest = m_strcmp s1 s2 in if c == d then rest else false

-- `m_strncmp(s1, s2, n) == 0`
pub m_strncmp : List ℕ → List ℕ → ℕ → Bool
m_strncmp s1 s2 zero = true
m_strncmp [] [] (suc n) = true
m_strncmp [] (d ∷ s2) (suc n) = false
m_strncmp (c ∷ s1) [] (suc n) = false
m_strncmp (c ∷ s1) (d ∷ s2) (suc n) = let rest = m_strncmp s1 s2 n in if c == d then rest else false

-- `while (*p == ' ') p++;`
pub skip_spaces : List ℕ → List ℕ
skip_spaces [] = []
skip_spaces (c ∷ p) = let rest = skip_spaces p in if c == 32 then rest else c ∷ p

-- `while (*p && *p != ' ') p++;`: what is passed, and where it stops.
pub word : List ℕ → List ℕ
word [] = []
word (c ∷ p) = let rest = word p in if c == 32 then [] else c ∷ rest

pub after_word : List ℕ → List ℕ
after_word [] = []
after_word (c ∷ p) = let rest = after_word p in if c == 32 then c ∷ p else rest

-- The loop that fills `argv`, with room for `n` more arguments. The spaces behind them become
-- terminators.
pub split_args : ℕ → List ℕ → List (List ℕ)
split_args zero p = []
split_args (suc n) [] = []
split_args (suc n) (c ∷ p) = word (c ∷ p) ∷ split_args n (skip_spaces (after_word (c ∷ p)))

pub is_digit : ℕ → Bool
is_digit c = leb 48 c && leb c 57

-- `while (*p >= '0' && *p <= '9') { value = value * 10 + (*p - '0'); p++; }`: the value and the
-- rest. It is the bit pattern of an int, taken to wrap around.
pub read_number : ℕ → List ℕ → ℕ × List ℕ
read_number value [] = (value, [])
read_number value (c ∷ p) =
    let rest = read_number (u32 (value * 10 + (c - 48))) p in
    if is_digit c then rest else (value, c ∷ p)

-- `*p < '0' || *p > '9'` for the character at `p`, which is 0 at the end.
pub no_digit : List ℕ → Bool
no_digit p = not (is_digit (get_or p 0 0))

-- The value of an int with this bit pattern.
pub int_of : ℕ → ℤ
int_of n = if ltb n 0x80000000 then pos n else negsuc (0xFFFFFFFF - n)

-- `-level`
pub negated : ℕ → ℕ
negated n = u32 (0x100000000 - n)

pub kill_command : List ℕ → Command
kill_command args =
    let p = skip_spaces args in if no_digit p then kill_usage else kill (read_number 0 p).0

-- The part of the command "priority" behind its first number.
pub priority_level : ℕ → List ℕ → Command
priority_level pid rest =
    let neg = get_or rest 0 0 == 45 in
    let p = if neg then drop 1 rest else rest in
    let level = (read_number 0 p).0 in
    if no_digit p
    then priority_usage
    else priority pid (int_of (if neg then negated level else level))

pub priority_command : List ℕ → Command
priority_command args =
    let p = skip_spaces args in
    let number = read_number 0 p in
    if no_digit p then priority_usage else priority_level number.0 (skip_spaces number.1)

pub exec_command : List ℕ → Command
exec_command args = no_args (split_args exec_max_args (skip_spaces args))
  where
    no_args : List (List ℕ) → Command
    no_args [] = exec_usage
    no_args (name ∷ argv) = exec (name ∷ argv)

pub write_command : List ℕ → Command
write_command args =
    let p = skip_spaces args in
    let sep = after_word p in
    if get_or sep 0 0 == 32 then write (word p) (drop 1 sep) else write_usage

-- The tests of `shell_execute` on `input_buffer`, in their order; `idx` is `buffer_idx`.
pub parse : List ℕ → ℕ → Command
parse line idx =
    if m_strcmp line (b'h' ∷ b'e' ∷ b'l' ∷ b'p' ∷ [])
    then help
    else if m_strcmp line (b'c' ∷ b'l' ∷ b'e' ∷ b'a' ∷ b'r' ∷ [])
    then clear
    else if m_strcmp line (b'v' ∷ b'e' ∷ b'r' ∷ [])
    then ver
    else if m_strcmp line (b'l' ∷ b's' ∷ [])
    then ls
    else if m_strncmp line (b'c' ∷ b'a' ∷ b't' ∷ b' ' ∷ []) 4
    then cat (drop 4 line)
    else if m_strncmp line (b'r' ∷ b'm' ∷ b' ' ∷ []) 3
    then rm (drop 3 line)
    else if m_strncmp line (b'e' ∷ b'x' ∷ b'e' ∷ b'c' ∷ b' ' ∷ []) 5
    then exec_command (drop 5 line)
    else if m_strcmp line (b'p' ∷ b's' ∷ [])
    then ps
    else if m_strncmp line (b'k' ∷ b'i' ∷ b'l' ∷ b'l' ∷ b' ' ∷ []) 5
    then kill_command (drop 5 line)
    else if m_strncmp line (b'p' ∷ b'r' ∷ b'i' ∷ b'o' ∷ b'r' ∷ b'i' ∷ b't' ∷ b'y' ∷ b' ' ∷ []) 9
    then priority_command (drop 9 line)
    else if m_strncmp line (b'w' ∷ b'r' ∷ b'i' ∷ b't' ∷ b'e' ∷ b' ' ∷ []) 6
    then write_command (drop 6 line)
    else if m_strcmp line (b'm' ∷ b'e' ∷ b'm' ∷ [])
    then mem
    else if m_strcmp line (b'u' ∷ b'p' ∷ b't' ∷ b'i' ∷ b'm' ∷ b'e' ∷ [])
    then uptime
    else if m_strcmp line (b'r' ∷ b'e' ∷ b'b' ∷ b'o' ∷ b'o' ∷ b't' ∷ [])
    then reboot
    else if ltb 0 idx
    then unknown line
    else nothing
