-- ===== src/Shell/Line.antt =====
-- The line on the screen is the one in `input_buffer`, for the editor of kernel/shell.c.
use mx_os.Prelude.{
  ℕ, zero, suc, ◌+◌, ◌≤◌, ◌<◌, ◌≡◌, refl, ◌∙◌, sym, ap, subst, Option, none, some, arith, length,
  ltb, ◌==◌, Bool-cases, Option-cases, inl, inr,
}
use mx_os.Shell.{
  Shell, copy, redraw_input_line, slot_back, history_load, max_steps, history_up, history_back,
  history_down,
}
use mx_os.Shell.Echo.{
  shown, last_first, IsPlain, redraw-printed, redraw-shown, copy-in, length-last_first,
}

-- The buffers are not overrun, what is shown is the line that is typed, and no line has a backspace.
pub record IsLine (s : Shell) : Type 0 where
  pub idx : s.buffer_idx ≤ 255
  pub saved : s.saved_line_len ≤ 255
  pub lens : (k : ℕ) → k < 8 → s.history_len k ≤ 255
  pub line : shown s.echo ≡ last_first s.buffer_idx s.input_buffer
  pub plain : IsPlain s.buffer_idx s.input_buffer
  pub plain_saved : IsPlain s.saved_line_len s.saved_line
  pub plain_history : (k : ℕ) → k < 8 → IsPlain (s.history_len k) (s.history k)

-- A navigation stays in the commands that are kept.
pub record IsShell (s : Shell) : Type 0 where
  pub typed : IsLine s
  pub nav : (n : ℕ) → s.history_nav ≡ some n → n < max_steps s

pub IsPlain-copy : (n : ℕ) (src dst : ℕ → ℕ) → IsPlain n src → IsPlain n (copy n 0 src dst)
unfolding IsPlain
IsPlain-copy n src dst plain i below =
    rw (copy-in n 0 src dst i (omega arith) (omega arith)) (plain i below)

-- Another line of `n` characters takes the place of the one that is shown.
abbrev pub replaced : ℕ → (ℕ → ℕ) → Shell → Shell
replaced n src s = redraw_input_line n (record s { input_buffer = copy n 0 src s.input_buffer })

replaced-IsLine :
    (n : ℕ) (src : ℕ → ℕ) (s : Shell)
    → n ≤ 255
    → IsPlain n src
    → IsLine s
    → IsLine (replaced n src s)
replaced-IsLine n src s short plain h =
    subst IsLine (sym (redraw-printed n (record s { input_buffer = copy n 0 src s.input_buffer })))
      (record {
        idx = short;
        saved = h.saved;
        lens = h.lens;
        line = redraw-shown n s.buffer_idx (copy n 0 src s.input_buffer) s.echo before fresh;
        plain = fresh;
        plain_saved = h.plain_saved;
        plain_history = h.plain_history;
      })
  where
    fresh : IsPlain n (copy n 0 src s.input_buffer)
    fresh = IsPlain-copy n src s.input_buffer plain

    before : length (shown s.echo) ≤ s.buffer_idx
    before = rw (h.line, length-last_first s.buffer_idx s.input_buffer) (omega arith)

replaced-nav : (n : ℕ) (src : ℕ → ℕ) (s : Shell) → (replaced n src s).history_nav ≡ s.history_nav
replaced-nav n src s =
    ap (λ (t : Shell). t.history_nav)
      (redraw-printed n (record s { input_buffer = copy n 0 src s.input_buffer }))

replaced-max_steps : (n : ℕ) (src : ℕ → ℕ) (s : Shell) → max_steps (replaced n src s) ≡ max_steps s
replaced-max_steps n src s =
    ap max_steps (redraw-printed n (record s { input_buffer = copy n 0 src s.input_buffer }))
    ∙ unfold max_steps in refl

pub replaced-IsShell :
    (n : ℕ) (src : ℕ → ℕ) (s : Shell)
    → n ≤ 255
    → IsPlain n src
    → IsShell s
    → IsShell (replaced n src s)
replaced-IsShell n src s short plain h = record {
  typed = replaced-IsLine n src s short plain h.typed;
  nav = λ m at.
      subst (λ b. m < b) (sym (replaced-max_steps n src s))
        (h.nav m (sym (replaced-nav n src s) ∙ at));
}

history_load-IsShell : (k : ℕ) (s : Shell) → IsShell s → IsShell (history_load k s)
unfolding history_load
history_load-IsShell k s h =
    let slot : slot_back k s < 8 = unfold slot_back in omega arith in
    replaced-IsShell (s.history_len (slot_back k s)) (s.history (slot_back k s)) s
      (h.typed.lens (slot_back k s) slot) (h.typed.plain_history (slot_back k s) slot) h

any_nav : (o : Option ℕ) (s : Shell) → IsLine s → IsLine (record s { history_nav = o })
any_nav o s typed = record {
  idx = typed.idx;
  saved = typed.saved;
  lens = typed.lens;
  line = typed.line;
  plain = typed.plain;
  plain_saved = typed.plain_saved;
  plain_history = typed.plain_history;
}

at_step :
    (n : ℕ) (s : Shell) → n < max_steps s → IsLine s → IsShell (record s { history_nav = some n })
at_step n s inside typed = record {
  typed = any_nav (some n) s typed;
  nav = λ m at. let same : m ≡ n = cc at in rw (same, max_steps) (unfold max_steps in inside);
}

-- The line is kept as a navigation starts.
abbrev pub entered : Shell → Shell
entered s = record s {
  saved_line_len = s.buffer_idx;
  saved_line = copy s.buffer_idx 0 s.input_buffer s.saved_line;
}

typing_kept : (s : Shell) → IsLine s → IsLine (entered s)
typing_kept s typed = record {
  idx = typed.idx;
  saved = typed.idx;
  lens = typed.lens;
  line = typed.line;
  plain = typed.plain;
  plain_saved = IsPlain-copy s.buffer_idx s.input_buffer s.saved_line typed.plain;
  plain_history = typed.plain_history;
}

pub none_some : {P : Type 0} (m : ℕ) → none ≡ some m → P
none_some m at = cc at

some_step : (s : Shell) → 0 < s.history_count → 0 < max_steps s
unfolding max_steps
some_step s h = ground arith

pub history_up-IsShell : (s : Shell) → IsShell s → IsShell (history_up s)
unfolding history_up
history_up-IsShell s h = elim (Bool-cases (s.history_count == 0)) [
  | inl never ↦ rw never h
  | inr some_kept ↦ elim (Option-cases s.history_nav) [
    | inl typing ↦
        rw (some_kept, typing)
          (history_load-IsShell 0 (record (entered s) { history_nav = some 0 })
            (at_step 0 (entered s) (some_step (entered s) (ground arith)) (typing_kept s h.typed)))
    | inr (n, at) ↦ elim (Bool-cases (ltb (n + 1) (max_steps s))) [
      | inl more ↦
          rw (some_kept, at, more)
            (history_load-IsShell (n + 1) _ (at_step (n + 1) s (ground arith) h.typed))
      | inr oldest ↦ rw (some_kept, at, oldest) (history_load-IsShell n s h)
    ]
  ]
]

history_back-IsShell : (n : ℕ) (s : Shell) → n < max_steps s → IsLine s → IsShell (history_back n s)
unfolding history_back
history_back-IsShell zero s inside typed = record {
  typed =
      replaced-IsLine s.saved_line_len s.saved_line (record s { history_nav = none }) typed.saved
        typed.plain_saved (any_nav none s typed);
  nav = λ m at.
      none_some m
        (sym (replaced-nav s.saved_line_len s.saved_line (record s { history_nav = none })) ∙ at);
}
history_back-IsShell (suc n) s inside typed =
    history_load-IsShell n _ (at_step n s (omega arith) typed)

pub history_down-IsShell : (s : Shell) → IsShell s → IsShell (history_down s)
unfolding history_down
history_down-IsShell s h = at_nav s.history_nav refl
  where
    at_nav :
        (o : Option ℕ)
        → s.history_nav ≡ o
        → IsShell (elim o as (λ x. Shell) [ none ↦ s | some nav ↦ history_back nav s ])
    at_nav none at = h
    at_nav (some n) at = history_back-IsShell n s (h.nav n at) h.typed
