-- ===== src/Modules/Kernel/Menu.antt =====
-- modules/kernel/kernel_mgr.c: the information on the module, and the menu.
use Prim.Native.String.{String}
use nhan_linux_process.Prelude.{
  ℕ, zero, suc, Bool, Option, none, some, List, [], ◌∷◌, if◌then◌else◌, ◌==◌, Bytes, ℤ, pos, negsuc,
  minus_one, int_eq, at_most,
}
use nhan_linux_process.Libc.Strings.{until_nul}
use nhan_linux_process.Libc.Stdio.{lines_by}
use nhan_linux_process.System.World.{
  World, M, pure, skip, ◌>>◌, text, errno_text, log_info, log_error, print,
}
use nhan_linux_process.System.Round.{Round, leaves, again, hangs, run_rounds}
use nhan_linux_process.System.Files.{Files}
use nhan_linux_process.Cli.Ui.Menu.{ui_select_menu}
use nhan_linux_process.App.Menu.{menu_read_choice, menu_pause}
use nhan_linux_process.Modules.Kernel.{kernel_mgr_load_module, kernel_mgr_unload_module}
use nhan_linux_process.Modules.Kernel.Overviews.{
  kernel_mgr_show_network_stack, kernel_mgr_show_sk_buff_overview, kernel_mgr_show_napi_overview,
}

-- read_kernel_choice and kernel_menu_pause have the bodies of those of app/menu.c.
abbrev pub read_kernel_choice : M ℤ
read_kernel_choice = menu_read_choice

abbrev pub kernel_menu_pause : M (Unit {0})
kernel_menu_pause = menu_pause

abbrev pub load_options : List String
load_options = "Yes (Tải module ngay)" ∷ "No (Không)" ∷ []

abbrev load_on : Files → Bool → World → World
load_on fs yes_chosen u = if yes_chosen then (kernel_mgr_load_module fs u).1 else u

-- The question whether to load the module; `none` is a menu that does not return.
unfoldable pub offer_load : Files → Bool → World → Option World
unfolding menu_read_choice
offer_load fs has_settings w =
    if w.is_interactive
    then elim (ui_select_menu has_settings "Would you like to load it now?" load_options w) [
      | none ↦ none
      | some (sel, u) ↦ some (load_on fs (int_eq sel (pos 0)) u)
    ]
    else let asks : M ℤ = (do
      print "Would you like to load it now?\n" []
      print "1. Yes\n" []
      print "2. No\n" []
      print "Select option: " []
      read_kernel_choice) in
      let r = asks w in some (load_on fs (int_eq r.0 (pos 1)) r.1)

unfoldable pub print_file : List Bytes → M (Unit {0})
print_file [] = skip
print_file (l ∷ ls) = do print "%s" (text (until_nul l) ∷ []); print_file ls

-- The file that was opened, printed line by line.
unfoldable pub show_file : List Bytes → M ℤ
unfolding print_file
show_file lines = do
  print "\n========================================\n" []
  print "Kernel Module Information (/proc/sysmgr)\n" []
  print "----------------------------------------\n" []
  print_file lines
  print "========================================\n" []
  elim lines [
    | [] ↦ do log_error "KERNEL" "Read failure: read 0 lines from /proc/sysmgr" []; pure minus_one
    | _ ∷ _ ↦ do log_info "KERNEL" "Read success" []; pure (pos 0)
  ]

unfoldable pub kernel_mgr_show_info : Files → Bool → World → Option (ℤ × World)
unfolding offer_load show_file lines_by
kernel_mgr_show_info fs has_settings w =
    let v : World = (log_info "KERNEL" "Kernel module information requested" [] w).1 in
    elim (fs.content "/proc/sysmgr" v.forks) [
      | some s ↦ some (show_file (lines_by 255 s) v)
      | none ↦
          let fails : M (Unit {0}) = (do
            log_error "KERNEL" "Read failure: failed to open /proc/sysmgr (errno %d)"
                (errno_text ∷ [])
            print "\nKernel module is not loaded.\n" []) in
          elim (offer_load fs has_settings (fails v).1) [
            | none ↦ none
            | some u ↦ some (minus_one, u)
          ]
    ]

abbrev pub kernel_options : List String
kernel_options =
    "Show Module Information (Xem thông tin module)" ∷ "Load Module (Tải module)"
    ∷ "Unload Module (Gỡ module)" ∷ "Show Network Stack Overview (Tổng quan network stack)"
    ∷ "Show sk_buff Overview (Tổng quan sk_buff)" ∷ "Show NAPI Overview (Tổng quan NAPI)"
    ∷ "Return (Trở về)" ∷ []

abbrev then_pause : {A : Type 0} → M A → World → Round
then_pause m u = again (kernel_menu_pause (m u).1).1

-- The entry of number `n` of the list; any other number goes back to the menu.
unfoldable pub kernel_entry : Files → Bool → ℕ → World → Round
unfolding kernel_mgr_show_info
kernel_entry fs has_settings n u =
    if n == 0
    then elim (kernel_mgr_show_info fs has_settings u) [
      | none ↦ hangs
      | some (value, v) ↦ again (kernel_menu_pause v).1
    ]
    else if n == 1
    then then_pause (kernel_mgr_load_module fs) u
    else if n == 2
    then then_pause (kernel_mgr_unload_module fs) u
    else if n == 3
    then then_pause kernel_mgr_show_network_stack u
    else if n == 4
    then then_pause kernel_mgr_show_sk_buff_overview u
    else if n == 5
    then then_pause kernel_mgr_show_napi_overview u
    else again u

abbrev leave_kernel : World → Round
leave_kernel u = leaves (log_info "KERNEL" "Leaving Kernel Module Manager" [] u).1

unfoldable pub on_kernel_selection : Files → Bool → Option (ℤ × World) → Round
unfolding kernel_entry
on_kernel_selection fs has_settings none = hangs
on_kernel_selection fs has_settings (some (pos n, u)) =
    if n == 6 then leave_kernel u else kernel_entry fs has_settings n u
on_kernel_selection fs has_settings (some (negsuc zero, u)) = leave_kernel u
on_kernel_selection fs has_settings (some (negsuc (suc n), u)) = again u

unfoldable pub on_kernel_choice : Files → Bool → ℤ → World → Round
unfolding kernel_entry
on_kernel_choice fs has_settings (negsuc n) u = again u
on_kernel_choice fs has_settings (pos zero) u = leave_kernel u
on_kernel_choice fs has_settings (pos (suc n)) u =
    if at_most 6 (pos (suc n))
    then kernel_entry fs has_settings n u
    else then_pause (print "\nInvalid input. Please choose a number between 0 and 6.\n" []) u

abbrev pub print_kernel_menu : M (Unit {0})
print_kernel_menu = do
  print "\n========================================\n" []
  print "Kernel Module\n" []
  print "========================================\n" []
  print "1. Show Module Information\n" []
  print "2. Load Module\n" []
  print "3. Unload Module\n" []
  print "4. Show Network Stack Overview\n" []
  print "5. Show sk_buff Overview\n" []
  print "6. Show NAPI Overview\n" []
  print "0. Return\n" []
  print "========================================\n" []
  print "Select option: " []

unfoldable pub kernel_round : Files → Bool → World → Round
unfolding on_kernel_selection on_kernel_choice
kernel_round fs has_settings w =
    if w.is_interactive
    then on_kernel_selection fs has_settings
        (ui_select_menu has_settings "Kernel Module" kernel_options w)
    else let r = read_kernel_choice (print_kernel_menu w).1 in
      on_kernel_choice fs has_settings r.0 r.1

unfoldable pub kernel_mgr_run : Files → Bool → ℕ → World → Option World
unfolding kernel_round run_rounds
kernel_mgr_run fs has_settings fuel w =
    run_rounds (kernel_round fs has_settings) fuel
      (log_info "KERNEL" "Entering Kernel Module Manager" [] w).1
