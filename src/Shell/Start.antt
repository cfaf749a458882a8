-- ===== src/Shell/Start.antt =====
-- `shell_init`, `shell_poll` and `shell_poll_ipc` of kernel/shell.c. The texts that they print are
-- values.
use mx_os.Prelude.{
  ℕ, zero, suc, ◌+◌, ◌-◌, ◌%◌, ◌≤◌, ◌≡◌, ◌≢◌, ◌⊎◌, refl, Option, none, some, List, [], ◌∷◌, arith,
  length, take, get_or, ltb, ◌==◌, if◌then◌else◌, Bool-cases, inl, inr,
}
use mx_os.Exec.{Machine}
use mx_os.Fs.{Disk, Fs, fs_file_exists, fs_load_file}
use mx_os.Keyboard.{Keyboard, keyboard_read_char}
use mx_os.Keyboard.Refine.{IsKeyboard}
use mx_os.Paging.{Layout}
use mx_os.Prelude.Int.{ℤ}
use mx_os.Sched.{ipc_recv}
use mx_os.Task.{Kernel}
use mx_os.Shell.{Shell, trim_to_first_nul}
use mx_os.Shell.Run.{string_from, history_load_from_disk, shell_update, poll_keys}

-- "motd"
abbrev pub motd_file : List ℕ
motd_file = b'm' ∷ b'o' ∷ b't' ∷ b'd' ∷ []

-- The text of the file, if it is shown.
pub shell_show_motd : {D : Type 0} → Disk D → Fs D → Option (List ℕ) × Fs D
shell_show_motd dev fs =
    let file = fs_load_file dev motd_file 512 fs in
    let text = take (trim_to_first_nul (λ i. get_or file.0.1 i 0) (length file.0.1)) file.0.1 in
    if fs_file_exists dev motd_file fs
    then (if file.0.0 then (some text, file.1) else (none, file.1))
    else (none, fs)

-- The message of the day is the first result.
pub shell_init : {D : Type 0} → Disk D → Shell → Fs D → Option (List ℕ) × (Shell × Fs D)
shell_init dev s fs =
    let loaded = history_load_from_disk dev s fs in
    let motd = shell_show_motd dev loaded.1 in
    (motd.0, (record loaded.0 { buffer_idx = 0; echo = [] }, motd.1))

-- The sender and the text that are printed: at most 127 bytes, up to the first that is 0.
unfoldable pub shell_poll_ipc : Kernel → Option (ℤ × List ℕ) × Kernel
shell_poll_ipc k =
    let got = ipc_recv k in
    elim got.0 [
      | none ↦ (none, got.1)
      | some msg ↦ (
        some (
          msg.sender,
          string_from (if ltb 127 (length msg.bytes) then 127 else length msg.bytes) 0
              (λ i. get_or msg.bytes i 0),
        ),
        got.1,
      )
    ]

module _ {D : Type 0} (dev : Disk D) (l : Layout) (exec_stacks input_address : ℕ) where
  -- The queue never has more than 255 keys.
  pub shell_poll :
      Keyboard → Shell → Machine D → Option (Option (ℤ × List ℕ) × (Keyboard × (Shell × Machine D)))
  shell_poll keys s m = elim (poll_keys dev l exec_stacks input_address 255 keys s m) [
    | none ↦ none
    | some after ↦
        let polled = shell_poll_ipc after.1.1.kernel in
        some (polled.0, (after.0, (after.1.0, record after.1.1 { kernel = polled.1 })))
  ]

-- The keys that wait.
abbrev pub pending : Keyboard → ℕ
pending keys = (keys.queue_write + 256 - keys.queue_read) % 256

unfoldable pub after_read : Keyboard → Keyboard
after_read keys = record keys { queue_read = (keys.queue_read + 1) % 256 }

pending-after_read :
    (keys : Keyboard)
    → IsKeyboard keys
    → keys.queue_read ≢ keys.queue_write
    → IsKeyboard (after_read keys) × (pending (after_read keys) + 1 ≡ pending keys)
unfolding after_read
pending-after_read keys ok some_key = (
  record { full_size = ok.full_size; read_in = omega arith; write_in = ok.write_in },
  let lo = ok.read_in in let hi = ok.write_in in omega (arith, lo, hi),
)

read_cases :
    (keys : Keyboard)
    → IsKeyboard keys
    → (((keyboard_read_char keys).0 ≡ none) × (keys.queue_read ≡ keys.queue_write))
      ⊎ (((c : ℕ) × ((keyboard_read_char keys).0 ≡ some c))
          × IsKeyboard (keyboard_read_char keys).1
          × (pending (keyboard_read_char keys).1 + 1 ≡ pending keys))
unfolding keyboard_read_char after_read
read_cases keys ok = elim (Bool-cases (keys.queue_read == keys.queue_write)) [
  | inl empty ↦ rw empty (inl (refl, ground arith))
  | inr more ↦
      let (kept, less) = pending-after_read keys ok (ground arith) in
      rw more (inr ((get_or keys.key_queue keys.queue_read 0, refl), kept, less))
]

module _ {D : Type 0} (dev : Disk D) (l : Layout) (exec_stacks input_address : ℕ) where
  -- No key waits, or the machine is started again.
  abbrev IsDone : Option (Keyboard × (Shell × Machine D)) → Type 0
  IsDone none = Unit
  IsDone (some after) = after.0.queue_read ≡ after.0.queue_write

  -- As many rounds as keys that wait are enough.
  pub poll_keys-IsDone :
      (n : ℕ) (keys : Keyboard) (s : Shell) (m : Machine D)
      → IsKeyboard keys
      → pending keys ≤ n
      → IsDone (poll_keys dev l exec_stacks input_address n keys s m)
  unfolding poll_keys
  poll_keys-IsDone zero keys s m ok few =
      let lo = ok.read_in in let hi = ok.write_in in omega (arith, lo, hi)
  poll_keys-IsDone (suc n) keys s m ok few =
      round (λ k s' m' kept less. poll_keys-IsDone n k s' m' kept less) (keyboard_read_char keys).0
        (keyboard_read_char keys).1 (read_cases keys ok)
    where
      next :
          ((k : Keyboard) (s' : Shell) (m' : Machine D)
            → IsKeyboard k
            → pending k ≤ n
            → IsDone (poll_keys dev l exec_stacks input_address n k s' m'))
          → (o : Option (Shell × Machine D)) (k : Keyboard) → IsKeyboard k
          → pending k ≤ n
          → IsDone (elim o as (λ x. Option (Keyboard × (Shell × Machine D))) [
            | none ↦ none
            | some after ↦ poll_keys dev l exec_stacks input_address n k after.0 after.1
          ])
      next rest none k ok few = tt
      next rest (some after) k ok few = rest k after.0 after.1 ok few

      round :
          ((k : Keyboard) (s' : Shell) (m' : Machine D)
            → IsKeyboard k
            → pending k ≤ n
            → IsDone (poll_keys dev l exec_stacks input_address n k s' m'))
          → (o : Option ℕ) (k : Keyboard)
          → ((o ≡ none) × (keys.queue_read ≡ keys.queue_write))
            ⊎ (((c : ℕ) × (o ≡ some c)) × IsKeyboard k × (pending k + 1 ≡ pending keys))
          → IsDone (elim o as (λ x. Option (Keyboard × (Shell × Machine D))) [
            | none ↦ some (keys, (s, m))
            | some c ↦
                elim (shell_update dev l exec_stacks input_address c s m)
                  as (λ x. Option (Keyboard × (Shell × Machine D))) [
                    | none ↦ none
                    | some after ↦ poll_keys dev l exec_stacks input_address n k after.0 after.1
                  ]
          ])
      round rest none k (inl (e, empty)) = empty
      round rest none k (inr ((c, e), kept, less)) = cc e
      round rest (some c) k (inl (e, empty)) = cc e
      round rest (some c) k (inr (some_key, kept, less)) =
          next rest (shell_update dev l exec_stacks input_address c s m) k kept
            (omega (arith, less, few))
