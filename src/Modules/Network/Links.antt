-- ===== src/Modules/Network/Links.antt =====
-- modules/network/network_mgr.c: the configuration of an interface, and bringing it up or down.
use Prim.Native.String.{String}
use nhan_linux_process.Prelude.{
  ℕ, Bool, ◌||◌, not, Option, none, some, List, [], ◌∷◌, if◌then◌else◌, ◌==◌, codes, Bytes, ℤ, pos,
  minus_one, int_eq,
}
use nhan_linux_process.Libc.Stdio.{fgets}
use nhan_linux_process.Libc.Numbers.{atoi}
use nhan_linux_process.System.World.{
  World, M, pure, skip, ◌>>=◌, ◌>>◌, text, nat, errno_text, log_info, print,
}
use nhan_linux_process.System.Command.{run_command_direct}
use nhan_linux_process.Cli.Ui.Menu.{ui_select_menu}
use nhan_linux_process.Modules.Network.Interfaces.{ask}

abbrev run_program : String → List Bytes → M (ℤ × ℕ)
run_program cmd argv = run_command_direct "NETWORK" none cmd argv

abbrev address_prompt : String
address_prompt = "Enter IP address and subnet in CIDR notation (e.g. 192.168.1.100/24): "

unfoldable pub show_configuration : Bytes → Bytes → M (Unit {0})
show_configuration iface ip_cidr = do
  log_info "NETWORK" "Interface configuration command generated (learning mode)" []
  print "\n[Learning Mode] Exact Linux commands to configure interface:\n\n" []
  print "1. Assign IP address:\n" []
  print "   ip addr add %s dev %s\n\n" (text ip_cidr ∷ text iface ∷ [])
  print "   Explanation:\n" []
  print
      "   - ip: The modern Linux utility for network routing, device, and address configuration.\n"
      []
  print "   - addr add: Command to bind a protocol address to an interface.\n" []
  print
      "   - %s: The address to assign. The '/24' (or other value) defines the prefix length of the network mask.\n"
      (text ip_cidr ∷ [])
  print "   - dev %s: Specifies the network device to which the address will be bound.\n\n"
      (text iface ∷ [])
  print "2. Enable the link:\n" []
  print "   ip link set %s up\n\n" (text iface ∷ [])
  print "   Explanation:\n" []
  print "   - ip link set: Modifies device configuration parameters in the kernel.\n" []
  print "   - %s: The network interface name to modify.\n" (text iface ∷ [])
  print "   - up: Set the device status to operational/active.\n" []

unfoldable pub network_configure_interface_learning : M (Unit {0})
unfolding ask show_configuration
network_configure_interface_learning = do
  answer ← ask 64 "Enter interface name" "Enter interface name (e.g. eth0): "
  elim answer [
    | none ↦ skip
    | some iface ↦ do
      address ← ask 64 "Enter IP address and subnet in CIDR" address_prompt
      elim address [ none ↦ skip | some ip_cidr ↦ show_configuration iface ip_cidr ]
  ]

abbrev pub link_argv : Bytes → Bytes → List Bytes
link_argv iface state = codes "ip" ∷ codes "link" ∷ codes "set" ∷ iface ∷ state ∷ []

unfoldable pub run_ip_link_command : Bytes → Bytes → M ℤ
run_ip_link_command iface state = do
  r ← run_program "ip" (link_argv iface state)
  if not (int_eq r.0 (pos 0))
      then (do
        print "Error: Failed to execute system process: %s\n" (errno_text ∷ [])
        pure minus_one)
      else if not (r.1 == 0)
      then (do
        print "Error: Command execution failed (exit status %d).\n" (nat r.1 ∷ [])
        (if r.1 == 1 || r.1 == 255
            then (do
              print
                  "Permission Denied: Root privileges are required to change interface link status.\n"
                  []
              print "Try running with sudo, or execute: sudo ip link set %s %s\n"
                  (text iface ∷ text state ∷ []))
            else skip)
        pure minus_one)
      else do
        print "Successfully set interface %s link state to %s.\n" (text iface ∷ text state ∷ [])
        pure (pos 0)

abbrev pub mode_options : List String
mode_options =
    "Learning Mode (Chỉ hiển thị lệnh cấu hình)" ∷ "Apply for real (Áp dụng thật lên hệ thống)" ∷ []

-- What the mode that was chosen does
unfoldable pub bring_as : Bytes → Bytes → ℤ → M (Unit {0})
bring_as iface state choice =
    if int_eq choice (pos 1)
    then (do
      log_info "NETWORK" "Interface %s link state command shown (learning mode)" (text state ∷ [])
      print "\n[Learning Mode] Command to bring interface %s:\n" (text state ∷ [])
      print "ip link set %s %s\n" (text iface ∷ text state ∷ []))
    else if int_eq choice (pos 2)
    then (do
      log_info "NETWORK" "Applying interface %s link state UP/DOWN" (text state ∷ [])
      run_ip_link_command iface state
      skip)
    else print "Invalid choice.\n" []

abbrev mode_line : Bytes → Bytes → World → Option (Bytes × Bytes) → World
mode_line iface state u none = u
mode_line iface state u (some (line, rest)) =
    (bring_as iface state (atoi line) (record u { stdin = rest })).1

abbrev mode_chosen : Bytes → Bytes → Option (ℤ × World) → Option World
mode_chosen iface state none = none
mode_chosen iface state (some (sel, u)) = some (
    if int_eq sel (pos 0)
    then (bring_as iface state (pos 1) u).1
    else if int_eq sel (pos 1)
    then (bring_as iface state (pos 2) u).1
    else u)

unfoldable pub bring_interface : Bool → Bytes → Bytes → World → Option World
unfolding bring_as fgets atoi
bring_interface has_settings iface state w =
    if w.is_interactive
    then mode_chosen iface state (ui_select_menu has_settings "Choose action mode" mode_options w)
    else (let asks : M (Unit {0}) = (do
      print "\nChoose action mode:\n" []
      print "1. Learning Mode\n" []
      print "2. Apply for real\n" []
      print "Select option: " []) in
        let u : World = (asks w).1 in some (mode_line iface state u (fgets 128 u.stdin)))

-- `none` is a menu that does not return.
unfoldable pub network_bring_interface_state : Bool → Bytes → World → Option World
unfolding ask bring_interface
network_bring_interface_state has_settings state w =
    let r = ask 64 "Enter interface name" "Enter interface name: " w in
    elim r.0 [ none ↦ some r.1 | some iface ↦ bring_interface has_settings iface state r.1 ]
