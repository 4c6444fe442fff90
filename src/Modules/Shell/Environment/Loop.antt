-- ===== src/Modules/Shell/Environment/Loop.antt =====
-- modules/shell/shell_mgr.c: `shell_mgr_env_run`, the menu for the variables of the environment.
use Prim.Native.String.{String}
use nhan_linux_process.Prelude.{
  ℕ, zero, suc, ◌+◌, Bool, Option, none, some, List, [], ◌∷◌, if◌then◌else◌, ◌==◌, ltb, Bytes, ℤ,
  pos, negsuc,
}
use nhan_linux_process.System.World.{World, M, ◌>>◌, print}
use nhan_linux_process.Cli.Ui.Menu.{ui_select_menu}
use nhan_linux_process.App.Menu.{menu_read_choice, menu_pause}
use nhan_linux_process.Modules.Shell.Environment.{
  Env, does, env_list, env_query, env_set, env_remove,
}

pub data EnvRound : Type 0 where
  env_leaves env_again : Env → EnvRound
  env_hangs : EnvRound

abbrev env_pause : Env → EnvRound
env_pause s = env_again (does menu_pause s)

unfoldable pub env_choice : ℕ → Env → EnvRound
unfolding env_list env_query env_set env_remove
env_choice choice s =
    if choice == 1
    then env_pause (env_list s)
    else if choice == 2
    then env_pause (env_query s)
    else if choice == 3
    then env_pause (env_set s)
    else if choice == 4
    then env_pause (env_remove s)
    else env_again s

abbrev pub env_options : List String
env_options =
    "List Important Environment Variables (Xem các biến quan trọng)"
    ∷ "Query Variable (Truy vấn biến)" ∷ "Set Temporary Variable (Thiết lập biến tạm thời)"
    ∷ "Remove Temporary Variable (Xoá biến tạm thời)" ∷ "Return (Trở về)" ∷ []

abbrev pub print_env_menu : M (Unit {0})
print_env_menu = do
  print "\n========================================\n" []
  print "          Environment Manager\n" []
  print "========================================\n" []
  print "1. List Important Environment Variables\n" []
  print "2. Query Variable\n" []
  print "3. Set Temporary Variable\n" []
  print "4. Remove Temporary Variable\n" []
  print "5. Return\n" []
  print "========================================\n" []
  print "Select option: " []

unfoldable pub on_env_selection : Env → Option (ℤ × World) → EnvRound
unfolding env_choice
on_env_selection s none = env_hangs
on_env_selection s (some (pos n, u)) =
    let t : Env = record s { world = u } in if n == 4 then env_leaves t else env_choice (n + 1) t
on_env_selection s (some (negsuc zero, u)) = env_leaves (record s { world = u })
on_env_selection s (some (negsuc (suc n), u)) = env_again (record s { world = u })

unfoldable pub on_env_number : ℤ → Env → EnvRound
unfolding env_choice
on_env_number (negsuc n) s = env_again s
on_env_number (pos n) s =
    if ltb 5 n
    then env_pause (does (print "\nInvalid input. Please choose a number between 0 and 5.\n" []) s)
    else if n == 0
    then env_leaves s
    else if n == 5
    then env_leaves s
    else env_choice n s

unfoldable pub env_round : Bool → Env → EnvRound
unfolding on_env_selection on_env_number
env_round has_settings s =
    if s.world.is_interactive
    then on_env_selection s (ui_select_menu has_settings "Environment Manager" env_options s.world)
    else let r = menu_read_choice (print_env_menu s.world).1 in
      on_env_number r.0 (record s { world = r.1 })

-- The loop on fuel; `none` is a loop that still goes on, or hangs.
unfoldable pub env_rounds : Bool → ℕ → Env → Option Env
unfolding env_round
env_rounds has_settings zero s = none
env_rounds has_settings (suc fuel) s = elim (env_round has_settings s) [
  | env_leaves t ↦ some t
  | env_again t ↦ env_rounds has_settings fuel t
  | env_hangs ↦ none
]

-- The buffers hold `garbage` when the function starts.
unfoldable pub shell_mgr_env_run :
    Bool → ℕ → Bytes × Bytes → List Bytes → World → Option (List Bytes × World)
unfolding env_rounds
shell_mgr_env_run has_settings fuel garbage environ w =
    elim (env_rounds has_settings fuel
      (record { world = w; environ = environ; name_buf = garbage.0; val_buf = garbage.1 })) [
        | none ↦ none
        | some s ↦ some (s.environ, s.world)
      ]
