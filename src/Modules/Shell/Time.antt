-- ===== src/Modules/Shell/Time.antt =====
-- modules/shell/shell_mgr.c: `shell_mgr_time_execute`, the system's clock.
use Prim.Native.String.{String}
use nhan_linux_process.Prelude.{
  Bool, Option, none, some, List, [], ◌∷◌, ◌++◌, if◌then◌else◌, get_elem?, str_eq, codes, Bytes, ℤ,
  pos, int_eq,
}
use nhan_linux_process.Libc.Strings.{is_empty, copy_to}
use nhan_linux_process.System.World.{World, M, skip, ◌>>=◌, ◌>>◌, text, print}
use nhan_linux_process.System.Files.{Files}
use nhan_linux_process.Cli.Prompt.{linenoise}
use nhan_linux_process.Cli.Ui.Menu.{ui_select_menu}
use nhan_linux_process.Modules.Shell.{shell_mgr_execute}
use nhan_linux_process.Modules.Shell.Cron.{run, given_or_asked}

unfoldable pub show_zone : Files → M (Unit {0})
unfolding shell_mgr_execute
show_zone fs w =
    if fs.exists "/usr/bin/timedatectl" w.forks
    then (do run (codes "timedatectl | grep 'Time zone'"); skip) w
    else (do print "Time zone: " []; run (codes "cat /etc/timezone 2>/dev/null || date +%Z"); skip)
        w

abbrev pub date_command : Bytes → Bytes
date_command datetime = copy_to 256 (codes "sudo date -s \"" ++ (datetime ++ codes "\""))

unfoldable pub set_time : Bytes → M (Unit {0})
unfolding shell_mgr_execute
set_time datetime = do
  value ← run (date_command datetime)
  if int_eq value (pos 0)
      then print "System time updated successfully.\n" []
      else print "Failed to set system time (requires root/sudo).\n" []

abbrev pub time_prompt : String
time_prompt = "Enter YYYY-MM-DD HH:MM:SS: "

unfoldable pub time_subcommand : Files → Bytes → List Bytes → M (Unit {0})
unfolding show_zone set_time given_or_asked
time_subcommand fs sub args =
    if str_eq sub (codes "show")
    then (do run (codes "date"); skip)
    else if str_eq sub (codes "zone")
    then show_zone fs
    else if str_eq sub (codes "set")
    then (do
      datetime ← given_or_asked 128 (get_elem? args 0) none time_prompt
      if is_empty datetime then skip else set_time datetime)
    else if str_eq sub (codes "sync")
    then (do run (codes "shell/autosync.sh"); skip)
    else print "Unknown time subcommand '%s'. Use: show, zone, set, sync.\n" (text sub ∷ [])

abbrev pub time_options : List String
time_options =
    "Xem thời gian hiện tại (Show current time)" ∷ "Xem múi giờ (Show timezone)"
    ∷ "Thiết lập thời gian thủ công (Set time manually)"
    ∷ "Đồng bộ thời gian qua Internet (Internet time sync - Auto-recovery)" ∷ "Cancel" ∷ []

unfoldable pub on_time_selection : Files → ℤ → M (Unit {0})
unfolding show_zone set_time linenoise
on_time_selection fs sel =
    if int_eq sel (pos 0)
    then (do run (codes "date"); skip)
    else if int_eq sel (pos 1)
    then show_zone fs
    else if int_eq sel (pos 2)
    then (do input ← linenoise; elim input [ none ↦ skip | some datetime ↦ set_time datetime ])
    else if int_eq sel (pos 3)
    then (do run (codes "shell/autosync.sh"); skip)
    else skip

unfoldable pub shell_mgr_time_execute : Files → Bool → List Bytes → World → Option World
unfolding time_subcommand on_time_selection
shell_mgr_time_execute fs has_settings (sub ∷ args) w = some (time_subcommand fs sub args w).1
shell_mgr_time_execute fs has_settings [] w =
    if w.is_interactive
    then elim (ui_select_menu has_settings "Time Configuration Manager" time_options w) [
      | none ↦ none
      | some (sel, u) ↦ some (on_time_selection fs sel u).1
    ]
    else some (print "Usage: time {show|zone|set|sync} [args...]\n" [] w).1
