-- ===== src/Shell/Recent.antt =====
-- The history of kernel/shell.c against a list of commands, the last one first.
use mx_os.Prelude.{
  ℕ, zero, suc, ◌+◌, ◌-◌, ◌%◌, ◌<◌, ◌≡◌, refl, ◌∙◌, sym, ap, subst, ◌≢◌, true, false, none, some,
  List, [], ◌∷◌, arith, length, get_or, ltb, ◌==◌, if◌then◌else◌, update,
}
use mx_os.Shell.{
  Shell, copy, history_push, slot_back, history_load, max_steps, history_up, history_back,
  history_down,
}
use mx_os.Shell.Echo.{shown, last_first, redraw-printed, copy-in, last_first-cong}
use mx_os.Shell.Line.{IsShell, entered, replaced, history_up-IsShell, history_down-IsShell}

-- The history keeps the last eight of the commands `cs`, each as its characters, the last one first.
unfoldable pub Keeps : Shell → List (List ℕ) → Type 0
Keeps s cs =
    (s.history_count ≡ length cs)
    × ((k : ℕ)
        → k < 8
        → k < length cs
        → last_first (s.history_len (slot_back k s)) (s.history (slot_back k s)) ≡ get_or cs k [])

last_first-copy : (n : ℕ) (src dst : ℕ → ℕ) → last_first n (copy n 0 src dst) ≡ last_first n src
last_first-copy n src dst =
    last_first-cong n (copy n 0 src dst) src
      (λ i below. copy-in n 0 src dst i (omega arith) (omega arith))

-- What slot `j` has after a write to slot `k`.
entry-new :
    (j k : ℕ) (lens : ℕ → ℕ) (rows : ℕ → ℕ → ℕ) (n : ℕ) (row : ℕ → ℕ)
    → j ≡ k
    → last_first (update lens k n j) (update rows k row j) ≡ last_first n row
entry-new j k lens rows n row same = let here : (j == k) ≡ true = ground arith in rw here refl

entry-old :
    (j i k : ℕ) (lens : ℕ → ℕ) (rows : ℕ → ℕ → ℕ) (n : ℕ) (row : ℕ → ℕ)
    → j ≡ i
    → i ≢ k
    → last_first (update lens k n j) (update rows k row j) ≡ last_first (lens i) (rows i)
entry-old j i k lens rows n row same other =
    let there : (i == k) ≡ false = ground arith in rw (same, there) refl

-- `history_push` refines putting a command in front, cut off after 255 characters.
pub history_push-Keeps :
    (cmd : ℕ → ℕ) (len : ℕ) (s : Shell) (cs : List (List ℕ))
    → Keeps s cs
    → Keeps (history_push cmd len s) (last_first (if ltb 255 len then 255 else len) cmd ∷ cs)
unfolding Keeps history_push slot_back
history_push-Keeps cmd len s cs (count, kept) = (omega (arith, count), entries)
  where
    entries :
        (k : ℕ)
        → k < 8
        → k < suc (length cs)
        → last_first
            ((history_push cmd len s).history_len (slot_back k (history_push cmd len s)))
            ((history_push cmd len s).history (slot_back k (history_push cmd len s)))
          ≡ get_or (last_first (if ltb 255 len then 255 else len) cmd ∷ cs) k []
    entries zero near below =
        let slot : (s.history_count + 1 + 8 - 1 - 0) % 8 ≡ s.history_count % 8 = omega arith in
        entry-new (slot_back 0 (history_push cmd len s)) (s.history_count % 8) s.history_len
          s.history (if ltb 255 len then 255 else len)
          (copy (if ltb 255 len then 255 else len) 0 cmd (s.history (s.history_count % 8))) slot
        ∙ last_first-copy (if ltb 255 len then 255 else len) cmd (s.history (s.history_count % 8))
    entries (suc k) near below =
        let older : (s.history_count + 1 + 8 - 1 - suc k) % 8 ≡ (s.history_count + 8 - 1 - k) % 8 =
          omega arith in
        let other : (s.history_count + 8 - 1 - k) % 8 ≢ s.history_count % 8 = omega arith in
        entry-old (slot_back (suc k) (history_push cmd len s)) (slot_back k s) (s.history_count % 8)
          s.history_len s.history (if ltb 255 len then 255 else len)
          (copy (if ltb 255 len then 255 else len) 0 cmd (s.history (s.history_count % 8))) older
          other
        ∙ kept k (omega arith) (omega arith)

-- After `n + 1` presses of the arrow up from state `s`.
record Reached (n : ℕ) (s t : Shell) : Type 0 where
  nav : t.history_nav ≡ some n
  count : t.history_count ≡ s.history_count
  lens : t.history_len ≡ s.history_len
  rows : t.history ≡ s.history
  line :
      last_first t.buffer_idx t.input_buffer
      ≡ last_first (s.history_len (slot_back n s)) (s.history (slot_back n s))
  saved : last_first t.saved_line_len t.saved_line ≡ last_first s.buffer_idx s.input_buffer

-- A state of navigation before its line is loaded.
record IsAt (n : ℕ) (s t : Shell) : Type 0 where
  nav : t.history_nav ≡ some n
  count : t.history_count ≡ s.history_count
  lens : t.history_len ≡ s.history_len
  rows : t.history ≡ s.history
  saved : last_first t.saved_line_len t.saved_line ≡ last_first s.buffer_idx s.input_buffer

replaced-Reached :
    (n m : ℕ) (src : ℕ → ℕ) (s t : Shell)
    → IsAt n s t
    → last_first m src ≡ last_first (s.history_len (slot_back n s)) (s.history (slot_back n s))
    → Reached n s (replaced m src t)
replaced-Reached n m src s t at line =
    subst (Reached n s)
      (sym (redraw-printed m (record t { input_buffer = copy m 0 src t.input_buffer })))
      (record {
        nav = at.nav;
        count = at.count;
        lens = at.lens;
        rows = at.rows;
        line = last_first-copy m src t.input_buffer ∙ line;
        saved = at.saved;
      })

history_load-Reached : (n : ℕ) (s t : Shell) → IsAt n s t → Reached n s (history_load n t)
unfolding history_load
history_load-Reached n s t at =
    replaced-Reached n (t.history_len (slot_back n t)) (t.history (slot_back n t)) s t at (
      let slot : slot_back n t ≡ slot_back n s = unfold slot_back in rw at.count refl in
      rw (slot, at.lens, at.rows) refl)

history_up-Reached :
    (n : ℕ) (s t : Shell) → Reached n s t → n + 1 < max_steps s → Reached (n + 1) s (history_up t)
unfolding history_up max_steps
history_up-Reached n s t r more =
    let some_kept : (t.history_count == 0) ≡ false = rw r.count (ground arith) in
    let steps : ltb (n + 1) (max_steps t) ≡ true = rw r.count (ground arith) in
    rw (some_kept, r.nav, steps)
      (history_load-Reached (n + 1) s (record t { history_nav = some (n + 1) })
        (record { nav = refl; count = r.count; lens = r.lens; rows = r.rows; saved = r.saved }))

history_up-first :
    (s : Shell) → s.history_nav ≡ none → 0 < s.history_count → Reached 0 s (history_up s)
unfolding history_up
history_up-first s typing h =
    let some_kept : (s.history_count == 0) ≡ false = ground arith in
    subst (Reached 0 s) (sym (rw (some_kept, typing) refl)) start
  where
    start : Reached 0 s (history_load 0 (record (entered s) { history_nav = some 0 }))
    start =
        history_load-Reached 0 s (record (entered s) { history_nav = some 0 })
          (record {
            nav = refl;
            count = refl;
            lens = refl;
            rows = refl;
            saved = last_first-copy s.buffer_idx s.input_buffer s.saved_line;
          })

history_down-Reached : (n : ℕ) (s t : Shell) → Reached (suc n) s t → Reached n s (history_down t)
unfolding history_down history_back
history_down-Reached n s t r = rw r.nav (
    history_load-Reached n s (record t { history_nav = some n })
      (record { nav = refl; count = r.count; lens = r.lens; rows = r.rows; saved = r.saved }))

history_down-last :
    (s t : Shell)
    → Reached 0 s t
    → ((history_down t).history_nav ≡ none)
      × (last_first (history_down t).buffer_idx (history_down t).input_buffer
          ≡ last_first s.buffer_idx s.input_buffer)
unfolding history_down history_back
history_down-last s t r = rw r.nav (restored (record t { history_nav = none }) refl r.saved)
  where
    restored :
        (u : Shell)
        → u.history_nav ≡ none
        → last_first u.saved_line_len u.saved_line ≡ last_first s.buffer_idx s.input_buffer
        → ((replaced u.saved_line_len u.saved_line u).history_nav ≡ none)
          × (last_first
                (replaced u.saved_line_len u.saved_line u).buffer_idx
                (replaced u.saved_line_len u.saved_line u).input_buffer
              ≡ last_first s.buffer_idx s.input_buffer)
    restored u typing saved =
        let same =
          redraw-printed u.saved_line_len
            (record u { input_buffer = copy u.saved_line_len 0 u.saved_line u.input_buffer }) in
        (
          ap (λ (v : Shell). v.history_nav) same ∙ typing,
          ap (λ (v : Shell). last_first v.buffer_idx v.input_buffer) same
              ∙ last_first-copy u.saved_line_len u.saved_line u.input_buffer
              ∙ saved,
        )

-- The state after `n` presses of an arrow.
unfoldable pub press_up : ℕ → Shell → Shell
press_up zero s = s
press_up (suc n) s = history_up (press_up n s)

unfoldable pub press_down : ℕ → Shell → Shell
press_down zero s = s
press_down (suc n) s = press_down n (history_down s)

press_up-Reached :
    (n : ℕ) (s : Shell) → s.history_nav ≡ none → n < max_steps s → Reached n s (press_up (suc n) s)
unfolding press_up
press_up-Reached zero s typing h = history_up-first s typing (unfold max_steps in ground arith)
press_up-Reached (suc n) s typing h =
    let at : n + 1 ≡ suc n = omega arith in
    rw⁻¹ at (
      history_up-Reached n s (press_up (suc n) s) (press_up-Reached n s typing (omega arith))
        (omega arith))

press_down-typed :
    (n : ℕ) (s t : Shell)
    → Reached n s t
    → ((press_down (suc n) t).history_nav ≡ none)
      × (last_first (press_down (suc n) t).buffer_idx (press_down (suc n) t).input_buffer
          ≡ last_first s.buffer_idx s.input_buffer)
unfolding press_down
press_down-typed zero s t r = history_down-last s t r
press_down-typed (suc n) s t r =
    press_down-typed n s (history_down t) (history_down-Reached n s t r)

press_up-IsShell : (n : ℕ) (s : Shell) → IsShell s → IsShell (press_up n s)
unfolding press_up
press_up-IsShell zero s h = h
press_up-IsShell (suc n) s h = history_up-IsShell (press_up n s) (press_up-IsShell n s h)

press_down-IsShell : (n : ℕ) (s : Shell) → IsShell s → IsShell (press_down n s)
unfolding press_down
press_down-IsShell zero s h = h
press_down-IsShell (suc n) s h = press_down-IsShell n (history_down s) (history_down-IsShell s h)

-- From a line that is typed, the arrow up `n + 1` times, at most as often as there are commands
-- kept and at most eight times, shows the command `n` before the last one of the list that the
-- history refines, and the arrow down as often shows the line that was typed again and ends the
-- navigation.
pub press_up-shown :
    (n : ℕ) (s : Shell) (cs : List (List ℕ))
    → IsShell s
    → Keeps s cs
    → s.history_nav ≡ none
    → n < 8
    → n < length cs
    → (shown (press_up (suc n) s).echo ≡ get_or cs n [])
      × (shown (press_down (suc n) (press_up (suc n) s)).echo ≡ shown s.echo)
      × ((press_down (suc n) (press_up (suc n) s)).history_nav ≡ none)
unfolding Keeps
press_up-shown n s cs ok (count, kept) typing near below =
    let up : IsShell (press_up (suc n) s) = press_up-IsShell (suc n) s ok in
    let down : IsShell (press_down (suc n) (press_up (suc n) s)) =
      press_down-IsShell (suc n) (press_up (suc n) s) up in
    let steps : n < max_steps s = unfold max_steps in ground arith in
    let reached : Reached n s (press_up (suc n) s) = press_up-Reached n s typing steps in
    let back = press_down-typed n s (press_up (suc n) s) reached in
    (
      up.typed.line ∙ reached.line ∙ kept n near below,
      down.typed.line ∙ back.1 ∙ sym ok.typed.line,
      back.0,
    )
