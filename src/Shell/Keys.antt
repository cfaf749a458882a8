-- ===== src/Shell/Keys.antt =====
-- The keys of the editor of kernel/shell.c and Enter keep the shell's invariant.
use mx_os.Prelude.{
  ℕ, zero, suc, ◌+◌, ◌-◌, ◌%◌, ◌<◌, ◌≡◌, refl, ◌∙◌, sym, ap, subst, ◌≢◌, true, false, none, List,
  [], ◌∷◌, arith, drop, ltb, ◌==◌, if◌then◌else◌, update, Bool-cases, inl, inr,
}
use mx_os.Keyboard.{key_arrow_up, key_arrow_down}
use mx_os.Shell.{Shell, history_push, put_char, max_steps, type_char, edit_key, record_line, prompt}
use mx_os.Shell.Echo.{shown, last_first, IsPlain, last_first-suc, last_first-cong, shown-put}
use mx_os.Shell.Line.{IsShell, IsPlain-copy, none_some, history_up-IsShell, history_down-IsShell}

IsPlain-update : (n c : ℕ) (buf : ℕ → ℕ) → c ≢ 8 → IsPlain n buf → IsPlain (n + 1) (update buf n c)
unfolding IsPlain
IsPlain-update n c buf other plain i below = elim (Bool-cases (i == n)) [
  | inl last ↦ rw last other
  | inr before ↦ rw before (plain i (ground arith))
]

last_first-update :
    (n c : ℕ) (buf : ℕ → ℕ) → last_first (n + 1) (update buf n c) ≡ c ∷ last_first n buf
last_first-update n c buf =
    last_first-suc n (update buf n c)
    ∙ (let same : (n == n) ≡ true = ground arith in
        rw (same, last_first-cong n (update buf n c) buf before) refl)
  where
    before : (i : ℕ) → i < n → update buf n c i ≡ buf i
    before i below = let other : (i == n) ≡ false = ground arith in rw other refl

type_char-IsShell :
    (c : ℕ) (s : Shell) → c ≢ 8 → s.buffer_idx < 255 → IsShell s → IsShell (type_char c s)
unfolding type_char put_char
type_char-IsShell c s other room h = record {
  typed = record {
    idx = omega arith;
    saved = h.typed.saved;
    lens = h.typed.lens;
    line =
        shown-put c s.echo other
        ∙ ap (λ xs. c ∷ xs) h.typed.line
        ∙ sym (last_first-update s.buffer_idx c s.input_buffer);
    plain = IsPlain-update s.buffer_idx c s.input_buffer other h.typed.plain;
    plain_saved = h.typed.plain_saved;
    plain_history = h.typed.plain_history;
  };
  nav = λ n at. unfold max_steps in h.nav n at;
}

shown-back :
    (n : ℕ) (buf : ℕ → ℕ) (echo : List ℕ)
    → 0 < n
    → shown echo ≡ last_first n buf
    → shown (8 ∷ echo) ≡ last_first (n - 1) buf
unfolding shown last_first
shown-back zero buf echo some_typed h = absurd (omega arith)
shown-back (suc n) buf echo some_typed h =
    let at : suc n - 1 ≡ n = omega arith in rw at (ap (drop 1) h)

step_back-IsShell :
    (c : ℕ) (s : Shell)
    → c ≡ 8
    → 0 < s.buffer_idx
    → IsShell s
    → IsShell (put_char c (record s { buffer_idx = s.buffer_idx - 1 }))
unfolding put_char IsPlain
step_back-IsShell c s back some_typed h = record {
  typed = record {
    idx = omega arith;
    saved = h.typed.saved;
    lens = h.typed.lens;
    line = rw back (shown-back s.buffer_idx s.input_buffer s.echo some_typed h.typed.line);
    plain = λ i below. h.typed.plain i (omega arith);
    plain_saved = h.typed.plain_saved;
    plain_history = h.typed.plain_history;
  };
  nav = λ n at. unfold max_steps in h.nav n at;
}

-- On every key but Enter, the editor keeps its buffers within bounds, its navigation within the
-- commands that are kept, and what is shown after the prompt equal to the line in `input_buffer`.
pub edit_key-IsShell : (c : ℕ) (s : Shell) → IsShell s → IsShell (edit_key c s)
unfolding edit_key
edit_key-IsShell c s h = elim (Bool-cases (c == 8)) [
  | inl back ↦ elim (Bool-cases (ltb 0 s.buffer_idx)) [
    | inl typed ↦ rw (back, typed) (step_back-IsShell c s (ground arith) (ground arith) h)
    | inr empty ↦ rw (back, empty) h
  ]
  | inr other ↦ elim (Bool-cases (c == key_arrow_up)) [
    | inl up ↦ rw (other, up) (history_up-IsShell s h)
    | inr not_up ↦ elim (Bool-cases (c == key_arrow_down)) [
      | inl down ↦ rw (other, not_up, down) (history_down-IsShell s h)
      | inr not_down ↦ elim (Bool-cases (ltb s.buffer_idx 255)) [
        | inl room ↦
            rw (other, not_up, not_down, room)
              (type_char-IsShell c s (ground arith) (ground arith) h)
        | inr full ↦ rw (other, not_up, not_down, full) h
      ]
    ]
  ]
]

pub history_push-IsShell :
    (cmd : ℕ → ℕ) (len : ℕ) (s : Shell)
    → IsPlain len cmd
    → IsShell s
    → IsShell (history_push cmd len s)
unfolding history_push IsPlain
history_push-IsShell cmd len s plain h = record {
  typed = record {
    idx = h.typed.idx;
    saved = h.typed.saved;
    lens = λ k below. elim (Bool-cases (k == s.history_count % 8)) [
      | inl here ↦ rw here (ground arith)
      | inr other ↦ rw other (h.typed.lens k below)
    ];
    line = h.typed.line;
    plain = h.typed.plain;
    plain_saved = h.typed.plain_saved;
    plain_history = λ k below. elim (Bool-cases (k == s.history_count % 8)) [
      | inl here ↦ rw here (
          IsPlain-copy (if ltb 255 len then 255 else len) cmd (s.history (s.history_count % 8))
            (λ i inside. plain i (ground arith)))
      | inr other ↦ rw other (h.typed.plain_history k below)
    ];
  };
  nav = λ n at. more n (h.nav n at);
}
  where
    more : (n : ℕ) → n < max_steps s → n < max_steps (history_push cmd len s)
    more n below = unfold max_steps in ground arith

terminated-IsShell :
    (s : Shell)
    → IsShell s
    → IsShell (record s { input_buffer = update s.input_buffer s.buffer_idx 0 })
unfolding IsPlain max_steps
terminated-IsShell s h = record {
  typed = record {
    idx = h.typed.idx;
    saved = h.typed.saved;
    lens = h.typed.lens;
    line =
        h.typed.line
        ∙ last_first-cong s.buffer_idx s.input_buffer (update s.input_buffer s.buffer_idx 0)
            (λ i below. sym (before i below));
    plain = λ i below. subst (λ c. c ≢ 8) (sym (before i below)) (h.typed.plain i below);
    plain_saved = h.typed.plain_saved;
    plain_history = h.typed.plain_history;
  };
  nav = h.nav;
}
  where
    before : (i : ℕ) → i < s.buffer_idx → update s.input_buffer s.buffer_idx 0 i ≡ s.input_buffer i
    before i below = let other : (i == s.buffer_idx) ≡ false = ground arith in rw other refl

emptied-IsShell :
    (s : Shell) → IsShell s → IsShell (record s { history_nav = none; buffer_idx = 0; echo = [] })
unfolding IsPlain
emptied-IsShell s h = record {
  typed = record {
    idx = omega arith;
    saved = h.typed.saved;
    lens = h.typed.lens;
    line = unfold shown last_first in refl;
    plain = λ i below. absurd (omega arith);
    plain_saved = h.typed.plain_saved;
    plain_history = h.typed.plain_history;
  };
  nav = λ n at. none_some n at;
}

-- Enter keeps the line's invariant too, whatever the command does: the line is put in the history, and
-- an empty line is shown after the new prompt.
pub prompt-IsShell : (s : Shell) → IsShell s → IsShell (prompt (record_line s))
unfolding prompt record_line
prompt-IsShell s h =
    let ended = record s { input_buffer = update s.input_buffer s.buffer_idx 0 } in
    let ok : IsShell ended = terminated-IsShell s h in
    elim (Bool-cases (ltb 0 s.buffer_idx)) [
      | inl typed ↦ rw typed (
          emptied-IsShell (history_push ended.input_buffer s.buffer_idx ended)
            (history_push-IsShell ended.input_buffer s.buffer_idx ended ok.typed.plain ok))
      | inr empty ↦ rw empty (emptied-IsShell ended ok)
    ]
