-- ===== src/Common/Terminal.antt =====
-- common/terminal_launcher.c: a command in a new terminal, or in a pane of tmux.
pub mod Laws
use Prim.Native.String.{String}
use nhan_linux_process.Prelude.{
  Bool, true, false, ◌||◌, ◌==◌, Option, none, some, List, [], ◌∷◌, ◌++◌, if◌then◌else◌, codes,
  Bytes, str_eq, ℤ, pos, minus_one,
}
use nhan_linux_process.Libc.Strings.{is_empty, copy_to}
use nhan_linux_process.System.World.{
  World, M, pure, skip, ◌>>=◌, ◌>>◌, log_info, log_error, print, fork_failed,
}
use nhan_linux_process.System.Script.{fork_exec}
use nhan_linux_process.Modules.Shell.Variables.{getenv}

abbrev pub terminals : List String
terminals =
    "ptyxis" ∷ "gnome-terminal" ∷ "konsole" ∷ "kitty" ∷ "wezterm" ∷ "xfce4-terminal" ∷ "xterm" ∷ []

-- strtok(s, ":") called until it returns NULL, where `word` holds what is read of the current run.
unfoldable pub split_colons : Bytes → Bytes → List Bytes
split_colons word [] = if is_empty word then [] else word ∷ []
split_colons word (c ∷ cs) =
    let rest = split_colons (if c == b':' then [] else word ++ (c ∷ [])) cs in
    if c == b':' then (if is_empty word then rest else word ∷ rest) else rest

abbrev pub full_path : Bytes → String → Bytes
full_path dir cmd = copy_to 512 (dir ++ (b'/' ∷ codes cmd))

abbrev pub shell_line : Bytes → Bytes
shell_line command = copy_to 1024 (command ++ codes "; echo; read -p 'Press Enter to close...'")

-- sh -c and the command
abbrev by_shell : Bytes → List Bytes
by_shell full_cmd = codes "sh" ∷ codes "-c" ∷ full_cmd ∷ []

abbrev pub tmux_argv : Bytes → List Bytes
tmux_argv full_cmd = codes "tmux" ∷ codes "split-window" ∷ codes "-h" ∷ by_shell full_cmd

abbrev titled : Bytes → List Bytes → List Bytes
titled title rest = codes "--title" ∷ title ∷ rest

abbrev is_terminal : String → String → Bool
is_terminal term name = str_eq (codes term) (codes name)

-- The arguments behind the name of the terminal
unfoldable pub terminal_args : String → Bytes → Bytes → List Bytes
terminal_args term title full_cmd =
    if is_terminal term "ptyxis"
    then titled title (codes "--" ∷ by_shell full_cmd)
    else if is_terminal term "gnome-terminal"
    then titled title (codes "--" ∷ by_shell full_cmd)
    else if is_terminal term "konsole"
    then titled title (codes "-e" ∷ by_shell full_cmd)
    else if is_terminal term "kitty"
    then titled title (by_shell full_cmd)
    else if is_terminal term "wezterm"
    then codes "start" ∷ titled title (codes "--" ∷ by_shell full_cmd)
    else if is_terminal term "xfce4-terminal"
    then titled title (codes "-e" ∷ full_cmd ∷ [])
    else if is_terminal term "xterm"
    then codes "-T" ∷ title ∷ codes "-hold" ∷ codes "-e" ∷ by_shell full_cmd
    else []

-- The fork, whose child is not waited for
unfoldable pub launch : String → List Bytes → M ℤ
unfolding fork_exec
launch program argv = do
  o ← fork_exec program argv
  elim o [
    | fork_failed ↦ do log_error "LAUNCHER" "Fork failed" []; pure minus_one
    | _ ↦ pure (pos 0)
  ]

unfoldable pub no_terminal : M ℤ
no_terminal = do
  print
      "\n\u{1b}[1;31m[Error]\u{1b}[0m No supported desktop GUI terminal emulator found on this system.\n"
      []
  print
      "\u{1b}[1;36m[Pro Tip]\u{1b}[0m Since you are running in a headless SSH environment, please install and run 'tmux' first:\n"
      []
  print "          1. Run: \u{1b}[1;32msudo apt install tmux -y && tmux\u{1b}[0m\n" []
  print "          2. Run: \u{1b}[1;32m./sysmgr\u{1b}[0m\n" []
  print "          This will enable automatic horizontal terminal splits for socket tools.\n\n" []
  log_error "LAUNCHER" "No supported terminal found!" []
  pure minus_one

-- The environment, and whether stat finds a file that its owner may execute.
module _ (environ : List Bytes) (is_executable : Bytes → Bool) where
  unfoldable pub in_dirs : List Bytes → String → Bool
  in_dirs [] cmd = false
  in_dirs (dir ∷ dirs) cmd =
      let rest = in_dirs dirs cmd in if is_executable (full_path dir cmd) then true else rest

  unfoldable pub command_exists : String → Bool
  unfolding getenv split_colons in_dirs
  command_exists cmd = elim (getenv (codes "PATH") environ) [
    | none ↦ false
    | some path ↦ in_dirs (split_colons [] path) cmd
  ]

  unfoldable pub first_found : List String → Option String
  unfolding command_exists
  first_found [] = none
  first_found (term ∷ terms) =
      let rest = first_found terms in if command_exists term then some term else rest

  unfoldable pub detect_terminal : Option String
  unfolding first_found
  detect_terminal = first_found terminals

  unfoldable pub in_tmux : Bool
  unfolding getenv command_exists
  in_tmux = elim (getenv (codes "TMUX") environ) [ none ↦ false | some _ ↦ command_exists "tmux" ]

  unfoldable pub terminal_open : Bytes → Bytes → M ℤ
  unfolding in_tmux detect_terminal launch no_terminal terminal_args
  terminal_open title command w =
      if in_tmux
      then (do
        log_info "SOCKET" "TMUX session detected. Spawning split-window..." []
        launch "tmux" (tmux_argv (shell_line command)))
          w
      else elim detect_terminal [
        | none ↦ no_terminal w
        | some term ↦
            (do
              log_info "SOCKET" "Terminal launched" []
              launch term (codes term ∷ terminal_args term title (shell_line command)))
              w
      ]
