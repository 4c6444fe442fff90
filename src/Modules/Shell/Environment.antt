-- ===== src/Modules/Shell/Environment.antt =====
-- modules/shell/shell_mgr.c: the choices of `shell_mgr_env_run`, on the variables of the
-- environment.
pub mod Loop
pub mod Assigned
use Prim.Native.String.{String}
use nhan_linux_process.Prelude.{
  ℕ, zero, suc, ◌+◌, Bool, true, false, Option, none, some, List, [], ◌∷◌, if◌then◌else◌, ◌==◌, ltb,
  codes, Bytes, ℤ, pos, negsuc, minus_one,
}
use nhan_linux_process.Libc.Strings.{is_empty, copy_to, chomp}
use nhan_linux_process.Libc.Stdio.{fgets}
use nhan_linux_process.System.World.{World, M, skip, ◌>>=◌, ◌>>◌, text, print, log_info, log_error}
use nhan_linux_process.Cli.Prompt.{linenoise}
use nhan_linux_process.Cli.Ui.Menu.{ui_select_menu}
use nhan_linux_process.App.Menu.{menu_read_choice, menu_pause}
use nhan_linux_process.Modules.Shell.Variables.{getenv, setenv, unsetenv}

-- The environment of the process, and the two buffers of the function, which keep what they hold
-- from one round to the next.
pub record Env : Type 0 where
  pub world : World
  pub environ : List Bytes
  pub name_buf : Bytes
  pub val_buf : Bytes

abbrev pub does : M (Unit {0}) → Env → Env
does m s = record s { world = (m s.world).1 }

abbrev pub take_answer : Bytes → World → Option (Bytes × Bytes) → Bytes × World
take_answer buf u none = (buf, u)
take_answer buf u (some (line, rest)) = (chomp line, record u { stdin = rest })

-- What is in a buffer of `size` bytes after a question: a NULL of the line editor empties it, an
-- fgets at the end of the input leaves it as it was.
unfoldable pub ask_into : ℕ → String → String → Bytes → World → Bytes × World
unfolding linenoise fgets chomp
ask_into size typed_prompt piped_prompt buf w =
    if w.is_interactive
    then (let r = linenoise w in (elim r.0 [ none ↦ [] | some line ↦ copy_to size line ], r.1))
    else let u : World = (print piped_prompt [] w).1 in take_answer buf u (fgets size u.stdin)

unfoldable pub ask_env_name : String → String → Env → Env
ask_env_name typed_prompt piped_prompt s =
    let r = ask_into 128 typed_prompt piped_prompt s.name_buf s.world in
    record s { name_buf = r.0; world = r.1 }

abbrev empty_name : M (Unit {0})
empty_name = print "Error: Empty variable name.\n" []

unfoldable pub list_variables : List Bytes → List Bytes → M (Unit {0})
unfolding getenv
list_variables environ [] = skip
list_variables environ (v ∷ vs) = do
  print "%-10s | %s\n"
      (text v ∷ text (elim (getenv v environ) [ none ↦ codes "N/A" | some val ↦ val ]) ∷ [])
  list_variables environ vs

abbrev important : List Bytes
important =
    codes "PATH"
    ∷ codes "HOME"
    ∷ codes "USER"
    ∷ codes "PWD"
    ∷ codes "SHELL"
    ∷ codes "LANG"
    ∷ codes "TERM"
    ∷ []

unfoldable pub env_list : Env → Env
unfolding list_variables
env_list s =
    does
      (do
        print "\n%-10s | Value\n" (text (codes "Variable") ∷ [])
        print "----------------------------------------\n" []
        list_variables s.environ important)
      s

unfoldable pub env_query : Env → Env
env_query s0 =
    let s : Env =
      ask_env_name "Enter variable name to query: " "\nEnter variable name to query: " s0 in
    if is_empty s.name_buf then does empty_name s else elim (getenv s.name_buf s.environ) [
      | some val ↦
          does
            (do
              print "\n%s = %s\n" (text s.name_buf ∷ text val ∷ [])
              log_info "SHELL" "Variable queried: '%s' = '%s'" (text s.name_buf ∷ text val ∷ []))
            s
      | none ↦
          does
            (do
              print "\nVariable '%s' is not set.\n" (text s.name_buf ∷ [])
              log_info "SHELL" "Variable queried: '%s' = N/A" (text s.name_buf ∷ []))
            s
    ]

-- The value, which is asked for only where a name was given just now: at the end of the input the
-- name that the buffer holds is kept with the old value.
unfoldable pub ask_env_value : Env → Env
ask_env_value s =
    let r = ask_into 256 "Enter variable value: " "Enter variable value: " s.val_buf s.world in
    record s { val_buf = r.0; world = r.1 }

-- Whether the question for the name was answered at all.
abbrev is_answered : World → Bool
is_answered w = if w.is_interactive then true else elim w.stdin [ [] ↦ false | _ ∷ _ ↦ true ]

unfoldable pub ask_assignment : Env → Env
ask_assignment s0 =
    let s : Env = ask_env_name "Enter variable name: " "\nEnter variable name: " s0 in
    if is_empty s.name_buf then s else if is_answered s0.world then ask_env_value s else s

unfoldable pub assign_named : Env → Env
assign_named s =
    if is_empty s.name_buf
    then does empty_name s
    else elim (setenv s.name_buf s.val_buf s.environ) [
      | some environ ↦
          does
            (do
              print "\nSuccessfully set %s = %s\n" (text s.name_buf ∷ text s.val_buf ∷ [])
              log_info "SHELL" "Variable set: '%s' = '%s'" (text s.name_buf ∷ text s.val_buf ∷ []))
            (record s { environ = environ })
      | none ↦
          does
            (do
              print "\nError setting variable '%s'.\n" (text s.name_buf ∷ [])
              log_error "SHELL" "Errors: failed to set variable '%s'" (text s.name_buf ∷ []))
            s
    ]

unfoldable pub env_set : Env → Env
env_set s = assign_named (ask_assignment s)

unfoldable pub remove_named : Env → Env
remove_named s =
    if is_empty s.name_buf
    then does empty_name s
    else let warned : Env = elim (getenv s.name_buf s.environ) [
      | none ↦ does (print "\nWarning: Variable '%s' is not set.\n" (text s.name_buf ∷ [])) s
      | some val ↦ s
    ] in
      elim (unsetenv s.name_buf s.environ) [
        | some environ ↦
            does
              (do
                print "\nSuccessfully removed variable '%s'\n" (text s.name_buf ∷ [])
                log_info "SHELL" "Variable removed: '%s'" (text s.name_buf ∷ []))
              (record warned { environ = environ })
        | none ↦
            does
              (do
                print "\nError removing variable '%s'.\n" (text s.name_buf ∷ [])
                log_error "SHELL" "Errors: failed to remove variable '%s'" (text s.name_buf ∷ []))
              warned
      ]

unfoldable pub env_remove : Env → Env
env_remove s =
    remove_named
      (ask_env_name "Enter variable name to remove: " "\nEnter variable name to remove: " s)
