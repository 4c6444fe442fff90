-- ===== src/Common/Terminal/Laws.antt =====
-- common/terminal_launcher.c: which program a terminal is opened with, and what it runs.
use Prim.Native.String.{String}
use nhan_linux_process.Prelude.{
  ◌+◌, Bool, true, false, none, some, List, [], ◌∷◌, ◌++◌, if◌then◌else◌, codes, Bytes, ℤ, pos,
  minus_one, All, map, take, ◌↔◌, ◌≡◌, refl, sym, ap, ◌∙◌, arith, Bool-cases, Option-cases, inl,
  inr,
}
use mathlib.Core.Path.{subst}
use nhan_linux_process.Modules.Shell.Variables.{getenv}
use nhan_linux_process.System.World.{World, log_info, fork_failed}
use nhan_linux_process.System.Script.{programs, started}
use nhan_linux_process.Common.Terminal.{
  full_path, in_dirs, split_colons, terminals, shell_line, terminal_args, tmux_argv, launch,
  no_terminal, command_exists, first_found, detect_terminal, in_tmux, terminal_open,
}

abbrev pub forks_well : World → Bool
forks_well w = elim (w.children w.forks) [ fork_failed ↦ false | _ ↦ true ]

abbrev pub last : List Bytes → Bytes
last [] = []
last (a ∷ []) = a
last (a ∷ b ∷ rest) = last (b ∷ rest)

-- The program is there, and none of those in front of it is.
pub record FirstOf (there : String → Bool) (term : String) (terms : List String) : Type 0 where
  pub front : List String
  pub behind : List String
  pub place : terms ≡ front ++ (term ∷ behind)
  pub is_there : there term ≡ true
  pub none_before : All (λ t. there t ≡ false) front

-- One fork, whose child runs the program with these arguments, the last of them being `line`.
pub record Launches (program : String) (argv : List Bytes) (line : Bytes) (w : World)
    (r : ℤ × World) : Type 0 where
  pub result : r.0 ≡ (if forks_well w then pos 0 else minus_one)
  pub one_fork : r.1.forks ≡ w.forks + 1
  pub runs : programs r.1.trace ≡ started w program argv
  pub last_arg : last argv ≡ line
  pub input_kept : r.1.stdin ≡ w.stdin

-- A directory of the path has the program, and its owner may execute it.
pub record OnPath (environ : List Bytes) (is_executable : Bytes → Bool) (cmd : String)
    : Type 0 where
  pub path : Bytes
  pub is_path : getenv (codes "PATH") environ ≡ some path
  pub front : List Bytes
  pub dir : Bytes
  pub behind : List Bytes
  pub place : split_colons [] path ≡ front ++ (dir ∷ behind)
  pub has_it : is_executable (take 511 (dir ++ (b'/' ∷ codes cmd))) ≡ true

-- What each terminal is started with, for a title and a command line
abbrev pub argument_table : Bytes → Bytes → List (String × List Bytes)
argument_table title line =
    let sh : List Bytes = codes "sh" ∷ codes "-c" ∷ line ∷ [] in
    ("ptyxis", codes "--title" ∷ title ∷ codes "--" ∷ sh)
    ∷ ("gnome-terminal", codes "--title" ∷ title ∷ codes "--" ∷ sh)
    ∷ ("konsole", codes "--title" ∷ title ∷ codes "-e" ∷ sh)
    ∷ ("kitty", codes "--title" ∷ title ∷ sh)
    ∷ ("wezterm", codes "start" ∷ codes "--title" ∷ title ∷ codes "--" ∷ sh)
    ∷ ("xfce4-terminal", codes "--title" ∷ title ∷ codes "-e" ∷ line ∷ [])
    ∷ ("xterm", codes "-T" ∷ title ∷ codes "-hold" ∷ codes "-e" ∷ sh)
    ∷ []

table_lem :
    (title line : Bytes)
    → map (λ t. (t, terminal_args t title line)) terminals ≡ argument_table title line
unfolding terminal_args
table_lem title line = refl

module _ (environ : List Bytes) (is_executable : Bytes → Bool) where
  abbrev exists : String → Bool
  exists = command_exists environ is_executable

  in_dirs-some :
      (dirs : List Bytes) (cmd : String)
      → in_dirs environ is_executable dirs cmd ≡ true
      → (front : List Bytes) × (dir : Bytes) × (behind : List Bytes) × (dirs
          ≡ front ++ (dir ∷ behind))
        × (is_executable (full_path dir cmd) ≡ true)
  unfolding in_dirs
  in_dirs-some [] cmd e = absurd (cc e)
  in_dirs-some (d ∷ dirs) cmd e = elim (Bool-cases (is_executable (full_path d cmd))) [
    | inl h ↦ ([], d, dirs, refl, h)
    | inr h ↦
        let (front, dir, behind, place, has_it) = in_dirs-some dirs cmd (rw h at e) in
        (d ∷ front, dir, behind, ap (◌∷◌ d) place, has_it)
  ]

  in_dirs-there :
      (front : List Bytes) (dir : Bytes) (behind : List Bytes) (cmd : String)
      → is_executable (full_path dir cmd) ≡ true
      → in_dirs environ is_executable (front ++ (dir ∷ behind)) cmd ≡ true
  unfolding in_dirs
  in_dirs-there [] dir behind cmd h = rw h refl
  in_dirs-there (d ∷ front) dir behind cmd h = elim (Bool-cases (is_executable (full_path d cmd))) [
    | inl k ↦ rw k refl
    | inr k ↦ rw k (in_dirs-there front dir behind cmd h)
  ]

  exists_iff : (cmd : String) → (exists cmd ≡ true) ↔ OnPath environ is_executable cmd
  unfolding command_exists
  exists_iff cmd = (
    (λ e. elim (Option-cases (getenv (codes "PATH") environ)) [
      | inl n ↦ absurd (cc (rw (command_exists, n) at e))
      | inr (path, p) ↦
          let (front, dir, behind, place, has_it) =
            in_dirs-some (split_colons [] path) cmd (rw (command_exists, p) at e) in
          record {
            path = path;
            is_path = p;
            front = front;
            dir = dir;
            behind = behind;
            place = place;
            has_it = has_it;
          }
    ]),
    (λ o.
        rw (command_exists, o.is_path, o.place)
          (in_dirs-there o.front o.dir o.behind cmd o.has_it)),
  )

  in_tmux_iff : (in_tmux environ is_executable ≡ true) ↔ (
      (v : Bytes) × (getenv (codes "TMUX") environ ≡ some v) × OnPath environ is_executable "tmux")
  unfolding in_tmux
  in_tmux_iff = (
    (λ e. elim (Option-cases (getenv (codes "TMUX") environ)) [
      | inl n ↦ absurd (cc (rw (in_tmux, n) at e))
      | inr (v, p) ↦ (v, p, (exists_iff "tmux").0 (rw (in_tmux, p) at e))
    ]),
    (λ t. rw (in_tmux, t.1) ((exists_iff "tmux").1 t.2)),
  )

  found_here :
      (u : String) (terms : List String)
      → exists u ≡ true
      → first_found environ is_executable (u ∷ terms) ≡ some u
  unfolding first_found
  found_here u terms h = rw h refl

  found_later :
      (u : String) (terms : List String)
      → exists u ≡ false
      → first_found environ is_executable (u ∷ terms) ≡ first_found environ is_executable terms
  unfolding first_found
  found_later u terms h = rw h refl

  this_one :
      (u t : String) (terms : List String)
      → exists u ≡ true
      → first_found environ is_executable (u ∷ terms) ≡ some t
      → u ≡ t
  this_one u t terms h e = cc (found_here u terms h, e)

  first_found-some :
      (terms : List String) (t : String)
      → first_found environ is_executable terms ≡ some t
      → FirstOf exists t terms
  unfolding first_found
  first_found-some [] t e = ground arith
  first_found-some (u ∷ terms) t e = elim (Bool-cases (exists u)) [
    | inl h ↦
        subst (λ v. FirstOf exists v (u ∷ terms)) (this_one u t terms h e)
          (record { front = []; behind = terms; place = refl; is_there = h; none_before = tt })
    | inr h ↦
        let r = first_found-some terms t (sym (found_later u terms h) ∙ e) in
        record {
          front = u ∷ r.front;
          behind = r.behind;
          place = ap (◌∷◌ u) r.place;
          is_there = r.is_there;
          none_before = (h, r.none_before);
        }
  ]

  first_found-none :
      (terms : List String)
      → first_found environ is_executable terms ≡ none
      → All (λ t. exists t ≡ false) terms
  unfolding first_found
  first_found-none [] e = tt
  first_found-none (u ∷ terms) e = elim (Bool-cases (exists u)) [
    | inl h ↦ absurd (cc (found_here u terms h, e))
    | inr h ↦ (h, first_found-none terms (sym (found_later u terms h) ∙ e))
  ]

  first_found-All :
      (P : String → Type 0) (terms : List String) (t : String)
      → All P terms
      → first_found environ is_executable terms ≡ some t
      → P t
  unfolding first_found
  first_found-All P [] t h e = ground arith
  first_found-All P (u ∷ terms) t h e = elim (Bool-cases (exists u)) [
    | inl k ↦ subst P (this_one u t terms k e) h.0
    | inr k ↦ first_found-All P terms t h.1 (sym (found_later u terms k) ∙ e)
  ]

  launch-Launches :
      (program message : String) (argv : List Bytes) (line : Bytes) (w : World)
      → last argv ≡ line
      → Launches program argv line w (launch program argv (log_info "SOCKET" message [] w).1)
  unfolding launch
  launch-Launches program message argv line w h = ground arith

  line_last :
      (title line : Bytes) → All (λ t. last (codes t ∷ terminal_args t title line) ≡ line) terminals
  unfolding terminal_args
  line_last title line = ground arith

  module _ (title command : Bytes) (w : World) where
    abbrev opened : ℤ × World
    opened = terminal_open environ is_executable title command w

    abbrev line : Bytes
    line = shell_line command

    -- In tmux a new pane; else the first terminal of the list that is there; else nothing.
    pub data Opens : Type 0 where
      in_pane :
          in_tmux environ is_executable ≡ true
          → Launches "tmux" (tmux_argv line) line w opened
          → Opens
      in_terminal :
          in_tmux environ is_executable ≡ false
          → (term : String) → FirstOf exists term terminals
          → Launches term (codes term ∷ terminal_args term title line) line w opened
          → Opens
      nowhere :
          in_tmux environ is_executable ≡ false
          → All (λ t. exists t ≡ false) terminals
          → opened.0 ≡ minus_one
          → opened.1.forks ≡ w.forks
          → programs opened.1.trace ≡ programs w.trace
          → Opens

    opens_pane :
        in_tmux environ is_executable ≡ true
        → opened
          ≡ launch "tmux"
              (tmux_argv line)
              (log_info "SOCKET" "TMUX session detected. Spawning split-window..." [] w).1
    unfolding terminal_open
    opens_pane e = rw e refl

    opens_terminal :
        (term : String)
        → in_tmux environ is_executable ≡ false
        → detect_terminal environ is_executable ≡ some term
        → opened
          ≡ launch term
              (codes term ∷ terminal_args term title line)
              (log_info "SOCKET" "Terminal launched" [] w).1
    unfolding terminal_open
    opens_terminal term e f = rw (e, f) refl

    opens_nothing :
        in_tmux environ is_executable ≡ false
        → detect_terminal environ is_executable ≡ none
        → opened ≡ no_terminal w
    unfolding terminal_open
    opens_nothing e f = rw (e, f) refl

    in_terminal_found :
        (term : String)
        → in_tmux environ is_executable ≡ false
        → first_found environ is_executable terminals ≡ some term
        → Opens
    unfolding detect_terminal
    in_terminal_found term e f =
        let last_is =
          first_found-All (λ t. last (codes t ∷ terminal_args t title line) ≡ line) terminals term
            (line_last title line) f in
        in_terminal e term (first_found-some terminals term f) (
          rw (opens_terminal term e f) (
            launch-Launches term "Terminal launched" (codes term ∷ terminal_args term title line)
              line w last_is))

    opens_lem : Opens
    unfolding detect_terminal no_terminal
    opens_lem = elim (Bool-cases (in_tmux environ is_executable)) [
      | inl e ↦ in_pane e (
          rw (opens_pane e) (
            launch-Launches "tmux" "TMUX session detected. Spawning split-window..."
              (tmux_argv line) line w refl))
      | inr e ↦ elim (Option-cases (first_found environ is_executable terminals)) [
        | inl n ↦
            nowhere e (first_found-none terminals n) (rw (opens_nothing e n) refl)
              (rw (opens_nothing e n) refl) (rw (opens_nothing e n) refl)
        | inr f ↦ in_terminal_found f.0 e f.1
      ]
    ]

    -- Opening a terminal: in a tmux session with tmux on the path, tmux is launched; else the first
    -- terminal of the list that is on the path, or nothing is forked and -1 is returned if there is
    -- none. A launch forks once, its child runs the program with arguments of which the last is the
    -- command with the wait for a key behind it (cut to 1023 bytes), it reads no input, and it
    -- returns 0 exactly when the fork works and -1 otherwise. In a tmux session means that TMUX is
    -- set; a program is on the path exactly when the owner may execute it in one of the directories
    -- of PATH (the name of the file cut to 511 bytes); and each terminal of the list gets the
    -- arguments that the table gives for it.
    pub terminal_open-Opens :
        (cmd : String)
        → Opens
          × ((in_tmux environ is_executable ≡ true) ↔ (
              (v : Bytes) × (getenv (codes "TMUX") environ ≡ some v)
              × OnPath environ is_executable "tmux"))
          × ((command_exists environ is_executable cmd ≡ true) ↔ OnPath environ is_executable cmd)
          × (map (λ t. (t, terminal_args t title line)) terminals ≡ argument_table title line)
    terminal_open-Opens cmd = (opens_lem, in_tmux_iff, exists_iff cmd, table_lem title line)
