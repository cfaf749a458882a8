-- ===== src/User/Hello.antt =====
-- What hello_user.c of userprogs prints.
use mx_os.Prelude.{
  ℕ, zero, suc, ◌+◌, ◌*◌, ◌^◌, ◌≤◌, ◌<◌, ◌≡◌, ◌≢◌, refl, ◌∙◌, sym, ap, true, inl, inr, List, [],
  ◌∷◌, ◌++◌, arith, length, ltb, ◌==◌, u32, Bool-cases,
}
use mx_os.Exec.{build_argv}
use mx_os.Paging.{Layout}
use mx_os.Screen.Text.{IsText, kprint-append}
use mx_os.Screen.{Screen, kprint}
use mx_os.Syscall.{Registers, System, string_at, syscall_dispatch}
use mx_os.User.{argument, printed, print_args, hello_user}
use mx_os.User.Arguments.{args_size, AreTexts, read_args, read_args-build_argv}
use mx_os.User.Echo.{AreStrings, AreStrings-read_args}
use mx_os.User.Libc.{sys_print, sys_exit}

string_at-IsText : (n p : ℕ) (mem : ℕ → ℕ) → IsText (string_at n p mem)
unfolding string_at IsText
string_at-IsText zero p mem = tt
string_at-IsText (suc n) p mem = elim (Bool-cases (mem (u32 p) == 0)) [
  | inl end ↦ rw end tt
  | inr more ↦
      let nonzero : mem (u32 p) ≢ 0 = ground arith in
      rw more (nonzero, string_at-IsText n (p + 1) mem)
]

-- Each of the arguments and a text behind it.
unfoldable pub each_with : List ℕ → List (List ℕ) → List ℕ
each_with space [] = []
each_with space (arg ∷ args) = arg ++ (space ++ each_with space args)

module _ (l : Layout) (esp : ℕ) (regs : Registers) where
  printed-screen :
      (msg : ℕ) (s : System)
      → printed l esp regs msg s
        ≡ record s { screen = kprint (string_at (2 ^ 32) msg s.memory) s.screen }
  unfolding sys_print syscall_dispatch
  printed-screen msg s = refl

  print_args-each_with :
      (args : List (List ℕ)) (i argv space : ℕ) (s : System)
      → AreStrings i argv s.memory args
      → print_args l esp regs (length args) i argv space s
        ≡ record s { screen = kprint (each_with (string_at (2 ^ 32) space s.memory) args) s.screen }
  unfolding print_args each_with AreStrings sys_print syscall_dispatch
  print_args-each_with [] i argv space s strings = unfold kprint in refl
  print_args-each_with (arg ∷ args) i argv space s (string, strings) =
      let gap = string_at (2 ^ 32) space s.memory in
      let text = string_at (2 ^ 32) (argument argv i s.memory) s.memory in
      let next : System = record s { screen = kprint gap (kprint text s.screen) } in
      print_args-each_with args (i + 1) argv space next strings
      ∙ ap (λ (shown : Screen). record s { screen = shown })
          (sym (
              kprint-append gap (each_with gap args) (kprint text s.screen)
                (string_at-IsText (2 ^ 32) space s.memory))
            ∙ sym (
                kprint-append text (gap ++ each_with gap args) s.screen
                  (string_at-IsText (2 ^ 32) (argument argv i s.memory) s.memory))
            ∙ ap (λ t. kprint (t ++ (gap ++ each_with gap args)) s.screen) string)

  -- hello_user runs with one argument at least, which `build_argv` left and which fit and have no
  -- byte 0. On the screen are its greeting, its second text, each argument with the third text
  -- behind it, and the fourth; the memory is as it was.
  pub hello_user-screen :
      (hello received space newline base : ℕ) (args : List (List ℕ)) (mem : ℕ → ℕ) (s : System)
      → base + 512 ≤ 2 ^ 32
      → AreTexts args
      → 4 * (length args + 1) + args_size args ≤ 512
      → 0 < length args
      → s.memory ≡ build_argv base args mem
      → let text : ℕ → List ℕ = λ p. string_at (2 ^ 32) p s.memory in
        let ended = (hello_user l esp regs hello received space newline (length args) base s).1.1 in
        (ended.memory ≡ s.memory)
        × (ended.screen
            ≡ kprint (text newline) (
                kprint
                  (each_with (text space) args)
                  (kprint (text received) (kprint (text hello) s.screen))))
  unfolding hello_user sys_print sys_exit syscall_dispatch
  hello_user-screen hello received space newline base args mem s top texts fits some_arg built =
      let text : ℕ → List ℕ = λ p. string_at (2 ^ 32) p s.memory in
      let started : System = record s {
        screen = kprint (text received) (kprint (text hello) s.screen);
      } in
      let given : ltb 0 (length args) ≡ true = ground arith in
      let start : base + 4 * 0 ≡ base = omega arith in
      let read = read_args-build_argv base args mem top texts fits in
      let strings : AreStrings 0 base s.memory args =
        AreStrings-read_args args 0 base s.memory (omega arith) (
          ap (λ a. read_args (length args) a s.memory) start
          ∙ ap (read_args (length args) base) built
          ∙ read.0) in
      let listed = print_args-each_with args 0 base space started strings in
      rw (given, listed) (refl, refl)
