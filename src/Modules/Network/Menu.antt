-- ===== src/Modules/Network/Menu.antt =====
-- modules/network/network_mgr.c: `network_mgr_run`, the menu of the module.
use Prim.Native.String.{String}
use nhan_linux_process.Prelude.{
  ℕ, zero, suc, ◌+◌, Bool, Option, none, some, List, [], ◌∷◌, if◌then◌else◌, ◌==◌, ltb, ◌⊎◌, codes,
  Bytes, ℤ, pos, negsuc,
}
use nhan_linux_process.System.World.{World, M, ◌>>◌, print, log_info}
use nhan_linux_process.System.Round.{Round, leaves, again, hangs, run_rounds}
use nhan_linux_process.Cli.Ui.Menu.{ui_select_menu}
use nhan_linux_process.App.Menu.{menu_read_choice, menu_pause}
use nhan_linux_process.Modules.Network.Interfaces.{
  IfAddr, Address, Net, network_list_interfaces_clean, network_interface_info,
}
use nhan_linux_process.Modules.Network.Links.{
  network_configure_interface_learning, network_bring_interface_state,
}
use nhan_linux_process.Modules.Network.Diagnostics.{
  network_show_routes_ip, network_ping_host, network_dns_lookup, network_socket_statistics,
}

abbrev pub network_options : List String
network_options =
    "List Network Interfaces (Liệt kê card mạng)" ∷ "Interface Information (Thông tin card mạng)"
    ∷ "Configure Interface - Learning Mode (Cấu hình card mạng)"
    ∷ "Bring Interface UP (Kích hoạt card mạng)" ∷ "Bring Interface DOWN (Tắt card mạng)"
    ∷ "Show Routing Table (Xem bảng định tuyến)" ∷ "Ping Host (Kiểm tra kết nối Ping)"
    ∷ "DNS Lookup (Tra cứu DNS)" ∷ "Socket Statistics (Thống kê Socket)" ∷ "Return (Trở về)" ∷ []

-- The answers of the system to the operations.
pub record NetAnswers : Type 0 where
  pub listed : Option (List IfAddr)
  pub net : Net
  pub route_file : Option (Option Bytes)
  pub resolve : Bytes → Bytes ⊎ List Address

abbrev then_pause : {A : Type 0} → M A → World → Round
then_pause m u = again (menu_pause (m u).1).1

abbrev pause_after : Option World → Round
pause_after none = hangs
pause_after (some u) = again (menu_pause u).1

abbrev pub print_network_menu : M (Unit {0})
print_network_menu = do
  print "\n========================================\n" []
  print "Network Manager\n" []
  print "========================================\n" []
  print "1. List Network Interfaces\n" []
  print "2. Interface Information\n" []
  print "3. Configure Interface (Learning Mode)\n" []
  print "4. Bring Interface UP\n" []
  print "5. Bring Interface DOWN\n" []
  print "6. Show Routing Table\n" []
  print "7. Ping Host\n" []
  print "8. DNS Lookup\n" []
  print "9. Socket Statistics\n" []
  print "0. Return\n" []
  print "========================================\n" []
  print "Select option: " []

module _ (a : NetAnswers) (has_settings : Bool) where
  unfoldable pub network_choice : ℕ → World → Round
  unfolding network_list_interfaces_clean network_interface_info
      network_configure_interface_learning network_bring_interface_state network_show_routes_ip
      network_ping_host network_dns_lookup network_socket_statistics
  network_choice choice u =
      if choice == 1
      then then_pause (network_list_interfaces_clean a.listed) u
      else if choice == 2
      then then_pause (network_interface_info a.listed a.net) u
      else if choice == 3
      then then_pause network_configure_interface_learning u
      else if choice == 4
      then pause_after (network_bring_interface_state has_settings (codes "up") u)
      else if choice == 5
      then pause_after (network_bring_interface_state has_settings (codes "down") u)
      else if choice == 6
      then then_pause (network_show_routes_ip a.route_file) u
      else if choice == 7
      then then_pause network_ping_host u
      else if choice == 8
      then then_pause (network_dns_lookup a.resolve) u
      else if choice == 9
      then then_pause network_socket_statistics u
      else again u

  abbrev leave_network : World → Round
  leave_network u = leaves (log_info "NETWORK" "Leaving Network Manager" [] u).1

  unfoldable pub on_network_selection : Option (ℤ × World) → Round
  unfolding network_choice
  on_network_selection none = hangs
  on_network_selection (some (pos n, u)) =
      if n == 9 then leave_network u else network_choice (n + 1) u
  on_network_selection (some (negsuc zero, u)) = leave_network u
  on_network_selection (some (negsuc (suc n), u)) = again u

  unfoldable pub on_network_choice : ℤ → World → Round
  unfolding network_choice
  on_network_choice (negsuc n) u = again u
  on_network_choice (pos n) u =
      if ltb 9 n
      then then_pause (print "\nInvalid input. Please choose a number between 0 and 9.\n" []) u
      else if n == 0
      then leave_network u
      else network_choice n u

  unfoldable pub network_round : World → Round
  unfolding on_network_selection on_network_choice
  network_round w =
      if w.is_interactive
      then on_network_selection (ui_select_menu has_settings "Network Manager" network_options w)
      else (let r = menu_read_choice (print_network_menu w).1 in on_network_choice r.0 r.1)

  unfoldable pub network_mgr_run : ℕ → World → Option World
  unfolding network_round run_rounds
  network_mgr_run fuel w =
      run_rounds network_round fuel (log_info "NETWORK" "Entering Network Manager" [] w).1
