-- ===== src/Modules/Network/Listing.antt =====
-- modules/network/network_mgr.c: `network_list_interfaces`, the interfaces with what is known of them.
use Prim.Native.String.{String}
use nhan_linux_process.Prelude.{
  ℕ, ◌==◌, true, false, ◌||◌, Option, none, some, List, [], ◌∷◌, if◌then◌else◌, codes, Bytes, ℤ,
  pos, at_least,
}
use nhan_linux_process.Libc.Strings.{copy_to, has_prefix}
use nhan_linux_process.System.World.{M, pure, skip, ◌>>◌, text, int, log_info, print}
use nhan_linux_process.Modules.Network.Interfaces.{
  Address, inet, inet6, IfAddr, Hardware, Net, is_processed, register, is_up, is_loopback, mac_text,
  addresses_of, no_interfaces,
}

-- The entries whose name is new, with the name.
unfoldable pub new_entries : List Bytes → List IfAddr → List (Bytes × IfAddr)
unfolding is_processed
new_entries processed [] = []
new_entries processed (i ∷ is) = elim i.ifa_name [
  | none ↦ new_entries processed is
  | some name ↦ elim (is_processed processed name) [
    | true ↦ new_entries processed is
    | false ↦ (name, i) ∷ new_entries (register processed name) is
  ]
]

-- `arphrd_ether` is 1.
abbrev pub ethernet_type : Bytes → String
ethernet_type name =
    if has_prefix name (codes "wl") || has_prefix name (codes "wlan")
    then "Wireless"
    else if has_prefix name (codes "docker")
        || (has_prefix name (codes "veth") || has_prefix name (codes "br"))
    then "Virtual/Bridge"
    else "Ethernet"

-- The hardware address, which is not asked for on the loopback
abbrev pub asked_address : ℕ → Option Hardware → Option (List ℕ × ℕ)
asked_address flags none = none
asked_address flags (some h) = if is_loopback flags then none else h.address

unfoldable pub interface_type : Bytes → ℕ → Option (List ℕ × ℕ) → String
interface_type name flags none = if is_loopback flags then "Loopback" else "Unknown"
interface_type name flags (some (bytes, family)) =
    if is_loopback flags then "Loopback" else if family == 1 then ethernet_type name else "Unknown"

abbrev mtu_of : Option Hardware → Option ℤ
mtu_of none = none
mtu_of (some h) = h.mtu

unfoldable pub print_all_addresses : List Address → M (Unit {0})
print_all_addresses [] = skip
print_all_addresses (inet (some ip) ∷ more) = do
  print "IPv4 Address:   %s\n" (text ip ∷ [])
  print_all_addresses more
print_all_addresses (inet6 (some ip) ∷ more) = do
  print "IPv6 Address:   %s\n" (text ip ∷ [])
  print_all_addresses more
print_all_addresses (_ ∷ more) = print_all_addresses more

abbrev list_rule : M (Unit {0})
list_rule = print "--------------------------------------------------\n" []

unfoldable pub print_interface : Net → List IfAddr → Bytes → IfAddr → M (Unit {0})
unfolding interface_type print_all_addresses addresses_of mac_text
print_interface net ifs name i = do
  let h = net.hardware (copy_to 16 name)
  let address = asked_address i.ifa_flags h
  list_rule
  print "Interface Name: %s\n" (text name ∷ [])
  print "Type:           %s\n" (text (codes (interface_type name i.ifa_flags address)) ∷ [])
  print "Status:         %s\n" (text (codes (if is_up i.ifa_flags then "UP" else "DOWN")) ∷ [])
  elim (mtu_of h) [
    | none ↦ print "MTU:            Unknown\n" []
    | some n ↦
        (if at_least 0 n
          then print "MTU:            %d\n" (int n ∷ [])
          else print "MTU:            Unknown\n" [])
  ]
  print "MAC Address:    %s\n"
      (text (elim address [ none ↦ codes "N/A" | some a ↦ mac_text a.0 ]) ∷ [])
  print_all_addresses (addresses_of name ifs)

unfoldable pub print_interfaces : Net → List IfAddr → List (Bytes × IfAddr) → M (Unit {0})
unfolding print_interface
print_interfaces net ifs [] = skip
print_interfaces net ifs ((name, i) ∷ more) = do
  print_interface net ifs name i
  print_interfaces net ifs more

-- An entry without a name has no meaning in C: the loop over the addresses reads the name unchecked.
unfoldable pub network_list_interfaces : Net → M ℤ
unfolding new_entries print_interfaces
network_list_interfaces net = do
  log_info "NETWORK" "Interface enumeration started (compatibility mode)" []
  elim net.interfaces [
    | none ↦ no_interfaces
    | some ifs ↦ do
      print "\nDiscovered Network Interfaces:\n" []
      print_interfaces net ifs (new_entries [] ifs)
      list_rule
      log_info "NETWORK" "Interfaces discovered" []
      pure (pos 0)
  ]
