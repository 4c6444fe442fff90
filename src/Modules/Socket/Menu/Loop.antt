-- ===== src/Modules/Socket/Menu/Loop.antt =====
-- modules/socket/socket_mgr.c: `socket_mgr_run` and the loop inside of it for chats.
use Prim.Native.String.{String}
use nhan_linux_process.Prelude.{
  ℕ, zero, suc, ◌+◌, Bool, Option, none, some, List, [], ◌∷◌, if◌then◌else◌, ◌==◌, ltb, Bytes, ℤ,
  pos, negsuc,
}
use nhan_linux_process.System.World.{World, M, ◌>>◌, print, log_info}
use nhan_linux_process.System.Round.{Round, leaves, again, hangs, run_rounds}
use nhan_linux_process.Cli.Ui.Menu.{ui_select_menu}
use nhan_linux_process.App.Menu.{menu_read_choice, menu_pause}
use nhan_linux_process.Modules.Socket.Menu.{open_at_port, open_at_address, open_demo}

abbrev pub socket_options : List String
socket_options =
    "Run TCP Server (Chạy TCP Server)" ∷ "Run TCP Client (Chạy TCP Client)"
    ∷ "Multi Client Echo (Echo nhiều Client)" ∷ "Socket Chat (Phòng chat Socket)"
    ∷ "Return (Trở về)" ∷ []

abbrev pub chat_options : List String
chat_options =
    "Host Chat (Tạo phòng chat)" ∷ "Join Chat (Tham gia phòng chat)"
    ∷ "Open Host + Client Demo (Mở Demo Host + Client)" ∷ "Return (Trở về)" ∷ []

abbrev pub print_socket_menu : M (Unit {0})
print_socket_menu = do
  print "\n========================================\n" []
  print "             Socket Manager\n" []
  print "========================================\n" []
  print "1. Run TCP Server\n" []
  print "2. Run TCP Client\n" []
  print "3. Multi Client Echo\n" []
  print "4. Socket Chat\n" []
  print "0. Return\n" []
  print "========================================\n" []
  print "Select option: " []

abbrev pub print_chat_menu : M (Unit {0})
print_chat_menu = do
  print "\n========================================\n" []
  print "              Socket Chat\n" []
  print "========================================\n" []
  print "1. Host Chat\n" []
  print "2. Join Chat\n" []
  print "3. Open Host + Client Demo\n" []
  print "0. Return\n" []
  print "========================================\n" []
  print "Select option: " []

abbrev leave_socket : World → Round
leave_socket u = leaves (log_info "SOCKET" "Socket Manager submenu closed." [] u).1

abbrev goes_on_after : Option World → Round
goes_on_after none = hangs
goes_on_after (some u) = again u

module _ (environ : List Bytes) (is_executable : Bytes → Bool) (has_sysmgr : Bool) where
  -- The choices of the menu for chats end its loop.
  unfoldable pub chat_choice : ℕ → World → Round
  unfolding open_at_port open_at_address open_demo
  chat_choice choice u =
      if choice == 1
      then leaves
          (open_at_port environ is_executable has_sysmgr "Chat Host" " socket chat --host "
            "\nFailed to launch Chat Host terminal.\n" u).1
      else if choice == 2
      then leaves
          (open_at_address environ is_executable has_sysmgr "Chat Client" " socket chat --client "
            "\nFailed to launch Chat Client terminal.\n" u).1
      else if choice == 3
      then leaves (open_demo environ is_executable has_sysmgr u).1
      else again u

  unfoldable pub on_chat_selection : Option (ℤ × World) → Round
  unfolding chat_choice
  on_chat_selection none = hangs
  on_chat_selection (some (pos n, u)) = if n == 3 then leaves u else chat_choice (n + 1) u
  on_chat_selection (some (negsuc zero, u)) = leaves u
  on_chat_selection (some (negsuc (suc n), u)) = again u

  unfoldable pub on_chat_choice : ℤ → World → Round
  unfolding chat_choice
  on_chat_choice (negsuc n) u = again u
  on_chat_choice (pos n) u =
      if ltb 3 n
      then again (print "\nInvalid input. Please choose a number between 0 and 3.\n" [] u).1
      else if n == 0
      then leaves u
      else chat_choice n u

  unfoldable pub chat_round : Bool → World → Round
  unfolding on_chat_selection on_chat_choice
  chat_round has_settings w =
      if w.is_interactive
      then on_chat_selection (ui_select_menu has_settings "Socket Chat Options" chat_options w)
      else (let r = menu_read_choice (print_chat_menu w).1 in on_chat_choice r.0 r.1)

  -- `fuel` bounds the rounds of the menu for chats.
  unfoldable pub socket_choice : Bool → ℕ → ℕ → World → Round
  unfolding open_at_port open_at_address chat_round run_rounds
  socket_choice has_settings fuel choice u =
      if choice == 1
      then again
          (open_at_port environ is_executable has_sysmgr "TCP Server" " socket server "
            "\nFailed to launch TCP Server terminal.\n" u).1
      else if choice == 2
      then again
          (open_at_address environ is_executable has_sysmgr "TCP Client" " socket client "
            "\nFailed to launch TCP Client terminal.\n" u).1
      else if choice == 3
      then again
          (open_at_port environ is_executable has_sysmgr "Multi Client Server" " socket multi "
            "\nFailed to launch Multi Client Server terminal.\n" u).1
      else if choice == 4
      then goes_on_after (run_rounds (chat_round has_settings) fuel u)
      else again u

  unfoldable pub on_socket_selection : Bool → ℕ → Option (ℤ × World) → Round
  unfolding socket_choice
  on_socket_selection has_settings fuel none = hangs
  on_socket_selection has_settings fuel (some (pos n, u)) =
      if n == 4 then leave_socket u else socket_choice has_settings fuel (n + 1) u
  on_socket_selection has_settings fuel (some (negsuc zero, u)) = leave_socket u
  on_socket_selection has_settings fuel (some (negsuc (suc n), u)) = again u

  unfoldable pub on_socket_choice : Bool → ℕ → ℤ → World → Round
  unfolding socket_choice
  on_socket_choice has_settings fuel (negsuc n) u = again u
  on_socket_choice has_settings fuel (pos n) u =
      if ltb 4 n
      then again
          ((do print "\nInvalid input. Please choose a number between 0 and 4.\n" []; menu_pause)
            u).1
      else if n == 0
      then leave_socket u
      else socket_choice has_settings fuel n u

  unfoldable pub socket_round : Bool → ℕ → World → Round
  unfolding on_socket_selection on_socket_choice
  socket_round has_settings fuel w =
      if w.is_interactive
      then on_socket_selection has_settings fuel
          (ui_select_menu has_settings "Socket Manager" socket_options w)
      else (let r = menu_read_choice (print_socket_menu w).1 in
          on_socket_choice has_settings fuel r.0 r.1)

  unfoldable pub socket_mgr_run : Bool → ℕ → World → Option World
  unfolding socket_round run_rounds
  socket_mgr_run has_settings fuel w =
      run_rounds (socket_round has_settings fuel) fuel
        (log_info "SOCKET" "Socket Manager submenu invoked." [] w).1
