-- ===== src/Modules/Process/Menu.antt =====
-- modules/process/process_mgr.c: `process_mgr_run`, the menu of the module.
use Prim.Native.String.{String}
use nhan_linux_process.Prelude.{
  ℕ, zero, suc, ◌+◌, Bool, Option, none, some, List, [], ◌∷◌, if◌then◌else◌, ◌==◌, ltb, codes,
  Bytes, ℤ, pos, negsuc,
}
use nhan_linux_process.Libc.Strings.{chomp}
use nhan_linux_process.Libc.Stdio.{fgets}
use nhan_linux_process.Libc.Numbers.{atoi}
use nhan_linux_process.System.Call.{
  demo, Demo, fork_demo, exec_demo, wait_demo, zombie_demo, orphan_demo, daemon_demo,
}
use nhan_linux_process.System.World.{World, M, skip, ◌>>=◌, ◌>>◌, emit, called, print, log_info}
use nhan_linux_process.System.Round.{Round, leaves, again, hangs, run_rounds}
use nhan_linux_process.Cli.Explain.{print_prompt_explanation}
use nhan_linux_process.Cli.Ui.Menu.{ui_select_menu}
use nhan_linux_process.App.Menu.{menu_read_choice, menu_pause}
use nhan_linux_process.Modules.Process.{Proc}
use nhan_linux_process.Modules.Process.Control.{Control, process_mgr_send_signal}
use nhan_linux_process.Modules.Process.Priority.{process_mgr_set_priority}
use nhan_linux_process.Modules.Process.Search.{process_mgr_list, process_mgr_search}

abbrev pub process_options : List String
process_options =
    "List Processes (Xem danh sách tiến trình)" ∷ "Search Process (Tìm kiếm tiến trình)"
    ∷ "Send Signal (Gửi tín hiệu/Kill)" ∷ "Change Priority (Đổi độ ưu tiên Nice)"
    ∷ "Fork Demo (Demo tạo tiến trình fork)" ∷ "Exec Demo (Demo thực thi exec)"
    ∷ "Wait Demo (Demo chờ wait)" ∷ "Zombie Demo (Demo tiến trình Zombie)"
    ∷ "Orphan Demo (Demo tiến trình mồ côi)" ∷ "Daemon Demo (Demo tiến trình chạy ngầm)"
    ∷ "Initialize Signals (Khởi tạo tín hiệu)"
    ∷ "Restore Default Signals (Khôi phục tín hiệu mặc định)" ∷ "Return (Trở về)" ∷ []

abbrev explained : String → String → M (Unit {0})
explained explanation prompt w =
    (do
      (if w.is_interactive then print_prompt_explanation (codes explanation) else skip)
      print prompt [])
      w

-- The number on the next line, 0 at the end of the input.
abbrev pub number_line : World → Option (Bytes × Bytes) → ℤ × World
number_line u none = (pos 0, u)
number_line u (some (line, rest)) = (atoi line, record u { stdin = rest })

unfoldable pub ask_number : String → String → M ℤ
unfolding fgets atoi
ask_number explanation prompt w =
    let u : World = (explained explanation prompt w).1 in number_line u (fgets 128 u.stdin)

unfoldable pub signal_mgr_init : M (Unit {0})
signal_mgr_init = log_info "SIGNAL" "signal_mgr_init called." []

unfoldable pub signal_mgr_restore_defaults : M (Unit {0})
signal_mgr_restore_defaults = log_info "SIGNAL" "signal_mgr_restore_defaults called." []

abbrev signal_prompt : String
signal_prompt =
    "Enter signal number (e.g. 15 for SIGTERM, 9 for SIGKILL, 19 for SIGSTOP, 18 for SIGCONT): "

abbrev run_demo : Demo → M (Unit {0})
run_demo d = emit (called (demo d))

abbrev pub print_process_menu : M (Unit {0})
print_process_menu = do
  print "\n========================================\n" []
  print "           Process Manager\n" []
  print "========================================\n" []
  print "1. List Processes\n" []
  print "2. Search Process\n" []
  print "3. Send Signal\n" []
  print "4. Change Priority\n" []
  print "----------------------------------------\n" []
  print "5. Fork Demo\n" []
  print "6. Exec Demo\n" []
  print "7. Wait Demo\n" []
  print "8. Zombie Demo\n" []
  print "9. Orphan Demo\n" []
  print "10. Daemon Demo\n" []
  print "11. Initialize Signals\n" []
  print "12. Restore Default Signals\n" []
  print "0. Return\n" []
  print "========================================\n" []
  print "Select option: " []

abbrev pub refuse_number : World → Round
refuse_number u =
    again
      ((do print "\nInvalid input. Please choose a number between 0 and 12.\n" []; menu_pause) u).1

-- The /proc directory, the answers of the system calls, and the names of its entries.
module _ (proc : Proc) (control : Control) (entries : Option (List Bytes)) where
  abbrev search_line : World → Option (Bytes × Bytes) → World
  search_line u none = u
  search_line u (some (line, rest)) =
      (process_mgr_search proc entries (some (chomp line)) (record u { stdin = rest })).1

  unfoldable pub ask_search : M (Unit {0})
  unfolding fgets chomp process_mgr_search
  ask_search w =
      let u : World =
        (explained "Enter process name or PID to search" "Enter PID or Process Name to search: "
          w).1 in
      (tt, search_line u (fgets 128 u.stdin))

  unfoldable pub ask_signal : M (Unit {0})
  unfolding ask_number process_mgr_send_signal
  ask_signal = do
    pid ← ask_number "Enter PID" "Enter target PID: "
    sig ← ask_number "Enter signal number" signal_prompt
    process_mgr_send_signal proc control pid sig
    skip

  unfoldable pub ask_priority : M (Unit {0})
  unfolding ask_number process_mgr_set_priority
  ask_priority = do
    pid ← ask_number "Enter PID" "Enter target PID: "
    nice_val ← ask_number "Enter nice value" "Enter new nice value (-20 to 19): "
    process_mgr_set_priority proc control pid nice_val
    skip

  -- The cases of the switch; `none` is a number without one.
  unfoldable pub process_operation : ℕ → Option (M (Unit {0}))
  unfolding ask_search ask_signal ask_priority process_mgr_list signal_mgr_init
      signal_mgr_restore_defaults
  process_operation choice =
      if choice == 1
      then some (do process_mgr_list proc entries; skip)
      else if choice == 2
      then some ask_search
      else if choice == 3
      then some ask_signal
      else if choice == 4
      then some ask_priority
      else if choice == 5
      then some (run_demo fork_demo)
      else if choice == 6
      then some (run_demo exec_demo)
      else if choice == 7
      then some (run_demo wait_demo)
      else if choice == 8
      then some (run_demo zombie_demo)
      else if choice == 9
      then some (run_demo orphan_demo)
      else if choice == 10
      then some (run_demo daemon_demo)
      else if choice == 11
      then some signal_mgr_init
      else if choice == 12
      then some signal_mgr_restore_defaults
      else none

  unfoldable pub process_choice : ℕ → World → Round
  unfolding process_operation
  process_choice choice u = elim (process_operation choice) [
    | none ↦ again u
    | some operation ↦ again (menu_pause (operation u).1).1
  ]

  abbrev leave_process : World → Round
  leave_process u = leaves (log_info "PROCESS" "Process manager interactive loop ended." [] u).1

  unfoldable pub on_process_selection : Option (ℤ × World) → Round
  unfolding process_choice
  on_process_selection none = hangs
  on_process_selection (some (pos n, u)) =
      if n == 12 then leave_process u else process_choice (n + 1) u
  on_process_selection (some (negsuc zero, u)) = leave_process u
  on_process_selection (some (negsuc (suc n), u)) = again u

  unfoldable pub on_process_choice : ℤ → World → Round
  unfolding process_choice
  on_process_choice (negsuc n) u = refuse_number u
  on_process_choice (pos n) u =
      if ltb 12 n then refuse_number u else if n == 0 then leave_process u else process_choice n u

  unfoldable pub process_round : Bool → World → Round
  unfolding on_process_selection on_process_choice
  process_round has_settings w =
      if w.is_interactive
      then on_process_selection (ui_select_menu has_settings "Process Manager" process_options w)
      else (let r = menu_read_choice (print_process_menu w).1 in on_process_choice r.0 r.1)

  unfoldable pub process_mgr_run : Bool → ℕ → World → Option World
  unfolding process_round run_rounds
  process_mgr_run has_settings fuel w =
      run_rounds (process_round has_settings) fuel
        (log_info "PROCESS" "Process manager interactive loop started." [] w).1
