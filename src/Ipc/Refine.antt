-- ===== src/Ipc/Refine.antt =====
-- The mailbox of kernel/sched.c refines the queue of Ipc/Fifo.
use mx_os.Prelude.{
  ℕ, zero, suc, ◌+◌, ◌-◌, ◌%◌, ◌≤◌, ◌<◌, ◌≡◌, ◌≢◌, refl, ◌∙◌, sym, ap, List, [], ◌∷◌, ◌++◌, arith,
  length, some, set, get_or, take, length-set, get_or-set_ne, get_or-set_self, leb, ◌==◌,
  Bool-cases, inl, inr, append-nil, append_assoc, ap₂,
}
use mx_os.Prelude.Int.{negsuc, pos}
use mx_os.Ipc.{Mailbox, Message, mailbox_reset, copy_bytes, tail_slot, clip, post, fetch}
use mx_os.Ipc.Fifo

-- Every slot is a buffer of 128 bytes.
abbrev pub Full : List (List ℕ) → Type 0
Full [] = Unit
Full (s ∷ ss) = (length s ≡ 128) × Full ss

-- The arrays have their sizes, and head and count are in range.
pub record IsMailbox (b : Mailbox) : Type 0 where
  pub four : length b.mailbox ≡ 4
  pub lens : length b.mailbox_len ≡ 4
  pub senders : length b.mailbox_sender ≡ 4
  pub full : Full b.mailbox
  pub head_in : b.mailbox_head < 4
  pub count_in : b.mailbox_count ≤ 4

length-copy_bytes :
    (n k : ℕ) (src : ℕ → ℕ) (dst : List ℕ) → length (copy_bytes n k src dst) ≡ length dst
unfolding copy_bytes
length-copy_bytes zero k src dst = refl
length-copy_bytes (suc n) k src dst =
    length-copy_bytes n (k + 1) src (set dst k (src k)) ∙ length-set dst k (src k)

Full-set : (ss : List (List ℕ)) (i : ℕ) (s : List ℕ) → Full ss → length s ≡ 128 → Full (set ss i s)
Full-set [] i s f h = tt
Full-set (t ∷ ss) zero s f h = (h, f.1)
Full-set (t ∷ ss) (suc i) s f h = (f.0, Full-set ss i s f.1 h)

Full-get_or : (ss : List (List ℕ)) (i : ℕ) → Full ss → i < length ss → length (get_or ss i []) ≡ 128
Full-get_or [] i f h = absurd (omega arith)
Full-get_or (s ∷ ss) zero f h = f.0
Full-get_or (s ∷ ss) (suc i) f h = Full-get_or ss i f.1 (omega arith)

-- `mailbox_reset`, `ipc_send` and `ipc_recv` keep the mailbox in order.
pub mailbox_reset-IsMailbox : (b : Mailbox) → IsMailbox b → IsMailbox (mailbox_reset b)
unfolding mailbox_reset
mailbox_reset-IsMailbox b v = ground (arith, v.four, v.full)

pub post-IsMailbox :
    (b : Mailbox) (src : ℕ → ℕ) (len sender : ℕ) → IsMailbox b → IsMailbox (post b src len sender).1
unfolding post tail_slot
post-IsMailbox b src len sender v = elim (Bool-cases (leb 4 b.mailbox_count)) [
  | inl is_full ↦ rw is_full v
  | inr room ↦ rw room (record {
    four = length-set b.mailbox _ _ ∙ v.four;
    lens = length-set b.mailbox_len _ _ ∙ v.lens;
    senders = length-set b.mailbox_sender _ _ ∙ v.senders;
    full = Full-set b.mailbox _ _ v.full (
        length-copy_bytes (clip len) 0 src (get_or b.mailbox slot [])
        ∙ Full-get_or b.mailbox slot v.full (omega (arith, v.four)));
    head_in = v.head_in;
    count_in = ground arith;
  })
]
  where
    slot : ℕ
    slot = (b.mailbox_head + b.mailbox_count) % 4

pub fetch-IsMailbox : (b : Mailbox) → IsMailbox b → IsMailbox (fetch b).1
unfolding fetch
fetch-IsMailbox b v = ground arith

take-set : (xs : List ℕ) (k v : ℕ) → k < length xs → take (suc k) (set xs k v) ≡ take k xs ++ v ∷ []
take-set [] k v h = absurd (omega arith)
take-set (x ∷ xs) zero v h = refl
take-set (x ∷ xs) (suc k) v h = ap (λ ys. x ∷ ys) (take-set xs k v (omega arith))

-- The copy loop from `k` on writes the bytes from `k` on behind those before.
take-copy_bytes :
    (n k m : ℕ) (src : ℕ → ℕ) (dst : List ℕ)
    → m ≡ k + n
    → m ≤ length dst
    → take m (copy_bytes n k src dst) ≡ take k dst ++ Fifo.bytes_from n k src
unfolding copy_bytes Fifo.bytes_from
take-copy_bytes zero k m src dst e h = let at : m ≡ k = omega arith in rw (at, append-nil)
take-copy_bytes (suc n) k m src dst e h =
    let fits : m ≤ length (set dst k (src k)) = omega (arith, length-set dst k (src k)) in
    let next : k + 1 ≡ suc k = omega arith in
    take-copy_bytes n (k + 1) m src (set dst k (src k)) (omega arith) fits
    ∙ ap (λ i. take i (set dst k (src k)) ++ Fifo.bytes_from n (k + 1) src) next
    ∙ ap (λ ys. ys ++ Fifo.bytes_from n (k + 1) src) (take-set dst k (src k) (omega arith))
    ∙ append_assoc (take k dst) (src k ∷ []) (Fifo.bytes_from n (k + 1) src)

-- The message in a slot.
abbrev pub message_at : Mailbox → ℕ → Message
message_at b s = record {
  bytes = take (get_or b.mailbox_len s 0) (get_or b.mailbox s []);
  sender = get_or b.mailbox_sender s (negsuc 0);
}

-- `n` messages from slot `h` on, round the four slots.
pub queued : Mailbox → ℕ → ℕ → List Message
queued b h zero = []
queued b h (suc n) = message_at b h ∷ queued b ((h + 1) % 4) n

-- The messages that wait in a mailbox, oldest first.
unfoldable pub contents : Mailbox → List Message
unfolding queued
contents b = queued b b.mailbox_head b.mailbox_count

length-queued : (b : Mailbox) (h n : ℕ) → length (queued b h n) ≡ n
unfolding queued
length-queued b h zero = refl
length-queued b h (suc n) = ap suc (length-queued b ((h + 1) % 4) n)

-- A change in the slot behind a window adds that slot's message to the window.
queued-extend :
    (b c : Mailbox) (h n s : ℕ)
    → h < 4
    → n < 4
    → s ≡ (h + n) % 4
    → ((i : ℕ) → i ≢ s → message_at c i ≡ message_at b i)
    → queued c h (suc n) ≡ queued b h n ++ message_at c s ∷ []
unfolding queued
queued-extend b c h zero s hh hn e same =
    let at : h ≡ s = omega arith in ap (λ i. message_at c i ∷ []) at
queued-extend b c h (suc n) s hh hn e same =
    ap₂ ◌∷◌ (same h (omega arith))
      (queued-extend b c ((h + 1) % 4) n s (omega arith) (omega arith) (omega arith) same)

queued-same :
    (b c : Mailbox) (h n : ℕ)
    → ((i : ℕ) → message_at c i ≡ message_at b i)
    → queued c h n ≡ queued b h n
unfolding queued
queued-same b c h zero same = refl
queued-same b c h (suc n) same = ap₂ ◌∷◌ (same h) (queued-same b c ((h + 1) % 4) n same)

queued-first :
    (b : Mailbox) (h n : ℕ) → n ≢ 0 → queued b h n ≡ message_at b h ∷ queued b ((h + 1) % 4) (n - 1)
unfolding queued
queued-first b h zero ne = absurd (ne refl)
queued-first b h (suc n) ne = ap (λ k. message_at b h ∷ queued b ((h + 1) % 4) k) (omega arith)

-- The mailbox after a message has been put into its slot.
abbrev posted : Mailbox → (ℕ → ℕ) → ℕ → ℕ → Mailbox
posted b src len sender = record b {
  mailbox = set b.mailbox slot (copy_bytes (clip len) 0 src (get_or b.mailbox slot []));
  mailbox_len = set b.mailbox_len slot (clip len);
  mailbox_sender = set b.mailbox_sender slot (pos sender);
  mailbox_count = b.mailbox_count + 1;
}
  where
    slot : ℕ
    slot = tail_slot b

module _ (b : Mailbox) (src : ℕ → ℕ) (len sender : ℕ) (v : IsMailbox b) where
  slot_in : tail_slot b < 4
  unfolding tail_slot
  slot_in = omega arith

  message_at-posted :
      message_at (posted b src len sender) (tail_slot b) ≡ Fifo.message src len sender
  unfolding Fifo.message clip
  message_at-posted =
      let s = tail_slot b in
      let old = get_or b.mailbox s [] in
      let size : length old ≡ 128 =
        Full-get_or b.mailbox s v.full (omega (arith, slot_in, v.four)) in
      rw (
        get_or-set_self b.mailbox_len s (clip len) 0 (omega (arith, slot_in, v.lens)),
        get_or-set_self b.mailbox s (copy_bytes (clip len) 0 src old) []
            (omega (arith, slot_in, v.four)),
        get_or-set_self b.mailbox_sender s (pos sender) (negsuc 0)
            (omega (arith, slot_in, v.senders)),
        take-copy_bytes (clip len) 0 (clip len) src old (omega arith) (ground (arith, size)),
      )

  message_at-posted_ne :
      (i : ℕ) → i ≢ tail_slot b → message_at (posted b src len sender) i ≡ message_at b i
  message_at-posted_ne i ne =
      let ne' : tail_slot b ≢ i = λ e. ne (sym e) in
      rw (
        get_or-set_ne b.mailbox_len (tail_slot b) i (clip len) 0 ne',
        get_or-set_ne b.mailbox (tail_slot b) i
            (copy_bytes (clip len) 0 src (get_or b.mailbox (tail_slot b) [])) [] ne',
        get_or-set_ne b.mailbox_sender (tail_slot b) i (pos sender) (negsuc 0) ne',
      )

  contents-posted :
      b.mailbox_count < 4
      → contents (posted b src len sender) ≡ contents b ++ Fifo.message src len sender ∷ []
  unfolding contents
  contents-posted room =
      let next : b.mailbox_count + 1 ≡ suc b.mailbox_count = omega arith in
      rw next (
        queued-extend b (posted b src len sender) b.mailbox_head b.mailbox_count (tail_slot b)
          v.head_in room (unfold tail_slot in refl) message_at-posted_ne
        ∙ ap (λ m. queued b b.mailbox_head b.mailbox_count ++ m ∷ []) message_at-posted)

  -- `ipc_send` answers as the queue does, and leaves the queue with the message, cut at 128 bytes.
  pub post_refines :
      let (r, b') = post b src len sender in
      (r, contents b') ≡ Fifo.send (contents b) (Fifo.message src len sender)
  unfolding post Fifo.send
  post_refines =
      let count : length (contents b) ≡ b.mailbox_count =
        unfold contents in (length-queued b b.mailbox_head b.mailbox_count) in
      elim (Bool-cases (leb 4 b.mailbox_count)) [
        | inl is_full ↦ rw (is_full, count) (rw is_full)
        | inr room ↦ rw (room, count) (rw room (ap (λ q. (1, q)) (contents-posted (ground arith))))
      ]

-- `ipc_recv` takes the oldest message, and none from an empty mailbox.
pub fetch_refines :
    (b : Mailbox) → let (m, b') = fetch b in (m, contents b') ≡ Fifo.receive (contents b)
unfolding fetch Fifo.receive contents
fetch_refines b = elim (Bool-cases (b.mailbox_count == 0)) [
  | inl empty ↦
      let zero_left : b.mailbox_count ≡ 0 = ground arith in
      rw (empty, zero_left) (unfold queued in refl)
  | inr more ↦
      rw (more, queued-first b b.mailbox_head b.mailbox_count (ground arith))
        (ap (λ q. (some (message_at b b.mailbox_head), q))
          (queued-same b
            (record b {
              mailbox_head = (b.mailbox_head + 1) % 4;
              mailbox_count = b.mailbox_count - 1;
            })
            ((b.mailbox_head + 1) % 4) (b.mailbox_count - 1) (λ i. refl)))
]
