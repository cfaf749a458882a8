-- ===== src/Keyboard/Refine.antt =====
-- The key queue of kernel/keyboard.c refines the queue of Keyboard/Fifo.
use mx_os.Prelude.{
  ℕ, zero, suc, ◌+◌, ◌-◌, ◌%◌, ◌≤◌, ◌<◌, ◌≡◌, refl, ◌∙◌, ap, List, [], ◌∷◌, ◌++◌, arith, length,
  set, get_or, length-set, get_or-set_ne, get_or-set_self, leb, ◌==◌, ==_iff, ◌≢◌, Bool-cases, true,
  false, Option, none, some, inl, inr,
}
use mx_os.Keyboard.{Keyboard, queue_push, keyboard_read_char}
use mx_os.Keyboard.Fifo

-- The array has its size, and the indices are bytes.
pub record IsKeyboard (k : Keyboard) : Type 0 where
  pub full_size : length k.key_queue ≡ 256
  pub read_in : k.queue_read < 256
  pub write_in : k.queue_write < 256

-- `n` characters from index `r` on, round the array.
unfoldable pub ring : List ℕ → ℕ → ℕ → List ℕ
ring q r zero = []
ring q r (suc n) = get_or q r 0 ∷ ring q ((r + 1) % 256) n

-- How many characters wait.
abbrev pub waiting : Keyboard → ℕ
waiting k = (k.queue_write + 256 - k.queue_read) % 256

-- The characters that wait, oldest first.
unfoldable pub contents : Keyboard → List ℕ
contents k = ring k.key_queue k.queue_read (waiting k)

length-ring : (q : List ℕ) (r n : ℕ) → length (ring q r n) ≡ n
unfolding ring
length-ring q r zero = refl
length-ring q r (suc n) = ap suc (length-ring q ((r + 1) % 256) n)

-- A write behind the last character does not change the others.
ring-set :
    (q : List ℕ) (r n w c : ℕ)
    → r < 256
    → n ≤ (w + 256 - r) % 256
    → w < 256
    → ring (set q w c) r n ≡ ring q r n
unfolding ring
ring-set q r zero w c hr hn hw = refl
ring-set q r (suc n) w c hr hn hw = rw (
  get_or-set_ne q w r c 0 (λ e. absurd (omega arith)),
  ring-set q ((r + 1) % 256) n w c (omega arith) (omega arith) hw,
)

-- The last of `n + 1` characters.
ring-snoc :
    (q : List ℕ) (r n : ℕ)
    → r < 256
    → ring q r (suc n) ≡ ring q r n ++ get_or q ((r + n) % 256) 0 ∷ []
unfolding ring
ring-snoc q r zero hr = let at : (r + 0) % 256 ≡ r = omega arith in rw at
ring-snoc q r (suc n) hr =
    let at : ((r + 1) % 256 + n) % 256 ≡ (r + suc n) % 256 = omega arith in
    ap (λ s. get_or q r 0 ∷ s)
      (ring-snoc q ((r + 1) % 256) n (omega arith)
        ∙ ap (λ i. ring q ((r + 1) % 256) n ++ get_or q i 0 ∷ []) at)

-- `queue_push` and `keyboard_read_char` keep the queue in order.
pub queue_push-IsKeyboard : (c : ℕ) (k : Keyboard) → IsKeyboard k → IsKeyboard (queue_push c k)
unfolding queue_push
queue_push-IsKeyboard c k v = elim (Bool-cases ((k.queue_write + 1) % 256 == k.queue_read)) [
  | inl is_full ↦ rw is_full v
  | inr room ↦ rw room (record {
    full_size = length-set k.key_queue k.queue_write c ∙ v.full_size;
    read_in = v.read_in;
    write_in = omega arith;
  })
]

pub keyboard_read_char-IsKeyboard :
    (k : Keyboard) → IsKeyboard k → IsKeyboard (keyboard_read_char k).1
unfolding keyboard_read_char
keyboard_read_char-IsKeyboard k v = elim (Bool-cases (k.queue_read == k.queue_write)) [
  | inl e ↦ rw e v
  | inr e ↦ rw e (record { full_size = v.full_size; read_in = omega arith; write_in = v.write_in })
]

-- A character that finds room waits behind those before it.
ring-push :
    (q : List ℕ) (r w c : ℕ)
    → length q ≡ 256
    → r < 256
    → w < 256
    → ring (set q w c) r (suc ((w + 256 - r) % 256)) ≡ ring q r ((w + 256 - r) % 256) ++ c ∷ []
ring-push q r w c hq hr hw =
    let at : (r + (w + 256 - r) % 256) % 256 ≡ w = omega arith in
    ring-snoc (set q w c) r ((w + 256 - r) % 256) hr
    ∙ rw (
      at,
      get_or-set_self q w c 0 (omega (arith, hq)),
      ring-set q r ((w + 256 - r) % 256) w c hr (omega arith) hw,
    )

leb-small : (n : ℕ) → n < 255 → leb 255 n ≡ false
leb-small n h = ground arith

read-none :
    (k : Keyboard) → (k.queue_read == k.queue_write) ≡ true → keyboard_read_char k ≡ (none, k)
unfolding keyboard_read_char
read-none k e = rw e refl

read-some :
    (k : Keyboard)
    → (k.queue_read == k.queue_write) ≡ false
    → keyboard_read_char k ≡ (
      some (get_or k.key_queue k.queue_read 0),
      record k { queue_read = (k.queue_read + 1) % 256 },
    )
unfolding keyboard_read_char
read-some k e = rw e refl

-- A push appends the character to those that wait, and drops it where 255 wait already.
pub queue_push_refines :
    (c : ℕ) (k : Keyboard) → IsKeyboard k → contents (queue_push c k) ≡ Fifo.offer c (contents k)
unfolding queue_push contents Fifo.offer
queue_push_refines c k v = elim (Bool-cases ((k.queue_write + 1) % 256 == k.queue_read)) [
  | inl is_full ↦
      let last : (k.queue_write + 1) % 256 ≡ k.queue_read =
        (==_iff ((k.queue_write + 1) % 256) k.queue_read).0 is_full in
      let most : waiting k ≡ 255 = omega arith in
      rw (is_full, length-ring k.key_queue k.queue_read (waiting k), most)
  | inr room ↦
      let apart : (k.queue_write + 1) % 256 ≢ k.queue_read = ground arith in
      let few : leb 255 (waiting k) ≡ false = leb-small (waiting k) (omega arith) in
      let more : ((k.queue_write + 1) % 256 + 256 - k.queue_read) % 256 ≡ suc (waiting k) =
        omega arith in
      rw (
        room,
        length-ring k.key_queue k.queue_read (waiting k),
        few,
        more,
        ring-push k.key_queue k.queue_read k.queue_write c v.full_size v.read_in v.write_in,
      )
]

-- A read takes the oldest character, and gives none exactly where none waits.
pub keyboard_read_char_refines :
    (k : Keyboard)
    → IsKeyboard k
    → ((keyboard_read_char k).0, contents (keyboard_read_char k).1) ≡ Fifo.poll (contents k)
unfolding contents ring Fifo.poll
keyboard_read_char_refines k v = elim (Bool-cases (k.queue_read == k.queue_write)) [
  | inl e ↦
      let same : k.queue_read ≡ k.queue_write = (==_iff k.queue_read k.queue_write).0 e in
      let empty : waiting k ≡ 0 = omega arith in
      ap (λ (r : Option ℕ × Keyboard). (r.0, contents r.1)) (read-none k e)
      ∙ rw (empty, ring, Fifo.poll)
  | inr e ↦
      let apart : k.queue_read ≢ k.queue_write = ground arith in
      let (n, one, rest) : (n : ℕ) × (waiting k ≡ suc n)
          × ((k.queue_write + 256 - (k.queue_read + 1) % 256) % 256 ≡ n) =
        (waiting k - 1, omega arith, omega arith) in
      ap (λ (r : Option ℕ × Keyboard). (r.0, contents r.1)) (read-some k e)
      ∙ rw (one, rest, ring, Fifo.poll)
]
