-- ===== src/Keyboard/Keys.antt =====
-- What `keyboard_handler` of kernel/keyboard.c makes of the scan codes of one key.
use mx_os.Prelude.{
  ℕ, ◌+◌, ◌≡◌, ◌≢◌, ◌<◌, ◌≤◌, ◌%◌, refl, ◌∙◌, Bool, true, false, List, get_or, arith,
  get_or-default, ltb, ◌==◌, if◌then◌else◌, Bool-cases, inl, inr,
}
use mx_os.Keyboard.{
  Keyboard, kbd, key_arrow_up, kbd_shift, queue_push, plain_key, extended_key, keyboard_handler,
}
use mx_os.Keyboard.Fifo
use mx_os.Keyboard.Refine.{IsKeyboard, contents, queue_push_refines}

-- The queue once a key is typed: the character that the table has for it is offered, if there is one.
unfoldable pub typed : Bool → ℕ → List ℕ → List ℕ
typed shift code q =
    let c = get_or (if shift then kbd_shift else kbd) code 0 in if c == 0 then q else Fifo.offer c q

pick :
    (shift : Bool) (code : ℕ)
    → (if shift then get_or kbd_shift code 0 else get_or kbd code 0)
      ≡ get_or (if shift then kbd_shift else kbd) code 0
pick true code = refl
pick false code = refl

no_char :
    (shift : Bool) (code : ℕ) → 58 ≤ code → get_or (if shift then kbd_shift else kbd) code 0 ≡ 0
no_char true code h = get_or-default kbd_shift code 0 h
no_char false code h = get_or-default kbd code 0 h

offered :
    (c : ℕ) (k : Keyboard)
    → IsKeyboard k
    → contents (if c == 0 then k else queue_push c k)
      ≡ (if c == 0 then contents k else Fifo.offer c (contents k))
offered c k v = elim (Bool-cases (c == 0)) [
  | inl e ↦ rw e refl
  | inr e ↦ rw e (queue_push_refines c k v)
]

plain_key_refines :
    (code : ℕ) (k : Keyboard)
    → IsKeyboard k
    → contents (plain_key code k) ≡ typed k.shift_pressed code (contents k)
unfolding plain_key typed
plain_key_refines code k v = elim (Bool-cases (ltb code 58)) [
  | inl h ↦
      rw (h, pick k.shift_pressed code)
        (offered (get_or (if k.shift_pressed then kbd_shift else kbd) code 0) k v)
  | inr h ↦ rw (h, no_char k.shift_pressed code (ground arith)) refl
]

queue_push-extended : (c : ℕ) (k : Keyboard) → (queue_push c k).extended_prefix ≡ k.extended_prefix
unfolding queue_push
queue_push-extended c k = elim (Bool-cases ((k.queue_write + 1) % 256 == k.queue_read)) [
  | inl e ↦ rw e refl
  | inr e ↦ rw e refl
]

plain_key-extended :
    (code : ℕ) (k : Keyboard) → (plain_key code k).extended_prefix ≡ k.extended_prefix
unfolding plain_key
plain_key-extended code k = elim (Bool-cases (ltb code 58)) [
  | inr h ↦ rw h refl
  | inl h ↦ elim (Bool-cases (c == 0)) [
    | inl z ↦ rw (h, z) refl
    | inr z ↦ rw (h, z) (queue_push-extended c k)
  ]
]
  where
    c : ℕ
    c = if k.shift_pressed then get_or kbd_shift code 0 else get_or kbd code 0

press :
    (code : ℕ) (k : Keyboard)
    → k.extended_prefix ≡ false
    → code < 128
    → code ≢ 42
    → code ≢ 54
    → keyboard_handler code k ≡ plain_key code k
unfolding keyboard_handler
press code k off h a b =
    let down : ltb (code % 256) 128 ≡ true = ground arith in
    let same : code % 128 ≡ code = omega arith in
    let p0 : (code == 224) ≡ false = ground arith in
    let p1 : (code == 42) ≡ false = ground arith in
    let p2 : (code == 54) ≡ false = ground arith in
    let p3 : (code == 170) ≡ false = ground arith in
    let p4 : (code == 182) ≡ false = ground arith in rw (down, same, p0, p1, p2, p3, p4, off) refl

release :
    (code : ℕ) (k : Keyboard)
    → k.extended_prefix ≡ false
    → code < 128
    → code ≢ 42
    → code ≢ 54
    → code ≢ 96
    → keyboard_handler (code + 128) k ≡ k
unfolding keyboard_handler
release code k off h a b c =
    let up : ltb ((code + 128) % 256) 128 ≡ false = ground arith in
    let p0 : (code + 128 == 224) ≡ false = ground arith in
    let p1 : (code + 128 == 42) ≡ false = ground arith in
    let p2 : (code + 128 == 54) ≡ false = ground arith in
    let p3 : (code + 128 == 170) ≡ false = ground arith in
    let p4 : (code + 128 == 182) ≡ false = ground arith in rw (up, p0, p1, p2, p3, p4, off) refl

-- With no prefix pending, the press and the release of a key other than Shift offer the character of
-- the table that Shift selects, if there is one, and nothing else. (The code 96 is left out: its
-- release is the prefix.)
pub press_release_refines :
    (code : ℕ) (k : Keyboard)
    → IsKeyboard k
    → k.extended_prefix ≡ false
    → code < 128
    → code ≢ 42
    → code ≢ 54
    → code ≢ 96
    → contents (keyboard_handler (code + 128) (keyboard_handler code k))
      ≡ typed k.shift_pressed code (contents k)
press_release_refines code k v off h a b c =
    rw
      (
        press code k off h a b,
        release code (plain_key code k) (plain_key-extended code k ∙ off) h a b c,
      )
      (plain_key_refines code k v)

-- The up arrow, pressed and released, offers `KEY_ARROW_UP`, whatever was pending.
pub arrow_up_refines :
    (k : Keyboard)
    → IsKeyboard k
    → contents
        (keyboard_handler 200 (keyboard_handler 224 (keyboard_handler 72 (keyboard_handler 224 k))))
      ≡ Fifo.offer key_arrow_up (contents k)
unfolding keyboard_handler extended_key contents
arrow_up_refines k v =
    queue_push_refines key_arrow_up (record k { extended_prefix = false })
      (record { full_size = v.full_size; read_in = v.read_in; write_in = v.write_in })
