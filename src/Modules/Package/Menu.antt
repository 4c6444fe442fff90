-- ===== src/Modules/Package/Menu.antt =====
-- modules/package/package_mgr.c: the menu of the module.
use Prim.Native.String.{String}
use nhan_linux_process.Prelude.{
  ℕ, zero, suc, ◌+◌, Bool, ◌||◌, not, Option, none, some, List, [], ◌∷◌, if◌then◌else◌, ◌==◌, codes,
  Bytes, ℤ, pos, negsuc, int_eq, at_least, at_most,
}
use nhan_linux_process.Libc.Strings.{is_empty, chomp}
use nhan_linux_process.Libc.Stdio.{fgets}
use nhan_linux_process.System.World.{World, M, skip, ◌>>◌, print, log_info}
use nhan_linux_process.System.Round.{Round, leaves, again, hangs}
use nhan_linux_process.Cli.Explain.{print_prompt_explanation}
use nhan_linux_process.Cli.Ui.Menu.{ui_select_menu}
use nhan_linux_process.App.Menu.{menu_read_choice, menu_pause}
use nhan_linux_process.Modules.Package.{
  package_mgr_search, package_mgr_info, package_mgr_install, package_mgr_remove, package_mgr_demo,
  package_mgr_setup,
}

abbrev pub package_options : List String
package_options =
    "Search Package (Tìm kiếm gói)" ∷ "Package Information (Thông tin gói)"
    ∷ "Install Package (Cài đặt gói)" ∷ "Remove Package (Gỡ bỏ gói)"
    ∷ "Safe Demonstration (Chạy Demo an toàn)" ∷ "Setup Environment (Cài đặt môi trường SSH Docker)"
    ∷ "Return (Trở về)" ∷ []

-- read_package_choice and package_menu_pause have the bodies of those of app/menu.c.
abbrev pub read_package_choice : M ℤ
read_package_choice = menu_read_choice

abbrev pub package_menu_pause : M (Unit {0})
package_menu_pause = menu_pause

-- The name on the line that is read, if one is, and the operation on it
unfoldable pub on_name : (Option Bytes → M ℤ) → Option (Bytes × Bytes) → M (Unit {0})
unfolding chomp
on_name operation none w = skip w
on_name operation (some (line, rest)) w =
    let u : World = record w { stdin = rest } in
    (if is_empty (chomp line) then skip else (do operation (some (chomp line)); skip)) u

-- A choice that asks for the name of a package.
unfoldable pub ask_name : String → String → (Option Bytes → M ℤ) → M (Unit {0})
unfolding on_name fgets
ask_name explanation prompt operation w =
    let asks : M (Unit {0}) = (do
      (if w.is_interactive then print_prompt_explanation (codes explanation) else skip)
      print prompt []) in
    let u : World = (asks w).1 in menu_pause (on_name operation (fgets 128 u.stdin) u).1

unfoldable pub package_choice : ℤ → M (Unit {0})
package_choice choice =
    if int_eq choice (pos 1)
    then ask_name "Enter package query to search"
        "Enter package name to search (e.g. nginx, python, gcc, docker, git): " package_mgr_search
    else if int_eq choice (pos 2)
    then ask_name "Enter package name"
        "Enter package name for information (e.g. tmux, curl, htop, wget, git): " package_mgr_info
    else if int_eq choice (pos 3)
    then ask_name "Enter package to install"
        "Enter package name to install (e.g. tmux, curl, htop, wget, git): " package_mgr_install
    else if int_eq choice (pos 4)
    then ask_name "Enter package to remove"
        "Enter package name to remove (e.g. tmux, curl, htop, wget, git): " package_mgr_remove
    else if int_eq choice (pos 5)
    then (do package_mgr_demo; package_menu_pause)
    else if int_eq choice (pos 6)
    then (do package_mgr_setup; package_menu_pause)
    else skip

abbrev pub print_package_menu : M (Unit {0})
print_package_menu = do
  print "\n========================================\n" []
  print "Package Manager\n" []
  print "===============\n" []
  print "1. Search Package\n" []
  print "2. Package Information\n" []
  print "3. Install Package\n" []
  print "4. Remove Package\n" []
  print "5. Safe Demonstration\n" []
  print "6. Setup Environment\n" []
  print "7. Return\n" []
  print "========================================\n" []
  print "Select option: " []

-- `sel == 6 || sel == -1` returns, any other entry is a choice one above its number.
unfoldable pub on_package_selection : Option (ℤ × World) → Round
on_package_selection none = hangs
on_package_selection (some (pos n, u)) =
    if n == 6 then leaves u else again (package_choice (pos (n + 1)) u).1
on_package_selection (some (negsuc zero, u)) = leaves u
on_package_selection (some (negsuc (suc n), u)) = again u

unfoldable pub on_package_choice : ℤ → World → Round
on_package_choice choice u =
    if not (at_least 1 choice) || not (at_most 7 choice)
    then again
        ((print "\nInvalid choice. Please enter a number between 1 and 7.\n" []
            >> package_menu_pause)
          u).1
    else if int_eq choice (pos 7)
    then leaves u
    else again (package_choice choice u).1

unfoldable pub package_round : Bool → World → Round
package_round has_settings w =
    if w.is_interactive
    then on_package_selection (ui_select_menu has_settings "Package Manager" package_options w)
    else let r = read_package_choice (print_package_menu w).1 in on_package_choice r.0 r.1

-- The loop, on fuel; `none` is a loop that still goes on, or hangs.
unfoldable pub package_loop : Bool → ℕ → World → Option World
unfolding package_round
package_loop has_settings zero w = none
package_loop has_settings (suc fuel) w = elim (package_round has_settings w) [
  | leaves u ↦ some (log_info "PACKAGE" "Leaving Package Manager" [] u).1
  | again u ↦ package_loop has_settings fuel u
  | hangs ↦ none
]

unfoldable pub package_mgr_run : Bool → ℕ → World → Option World
unfolding package_loop
package_mgr_run has_settings fuel w =
    package_loop has_settings fuel
      (log_info "PACKAGE" "Entering Package Manager (Shell script execution)" [] w).1
