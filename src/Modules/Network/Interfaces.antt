-- ===== src/Modules/Network/Interfaces.antt =====
-- modules/network/network_mgr.c: the names of the interfaces, and what is shown of one of them.
pub mod Names
use Prim.Native.String.{String}
use nhan_linux_process.Prelude.{
  ℕ, zero, suc, ◌+◌, ◌-◌, ◌/◌, ◌%◌, Bool, true, false, ◌&&◌, Option, none, some, List, [], ◌∷◌,
  ◌++◌, if◌then◌else◌, ◌==◌, ltb, length, str_eq, codes, Bytes, ℤ, pos, negsuc, minus_one, at_least,
}
use nhan_linux_process.Libc.Strings.{is_empty, chomp, copy_to, has_prefix}
use nhan_linux_process.Libc.Stdio.{fgets}
use nhan_linux_process.Libc.Numbers.{scan_long}
use nhan_linux_process.System.World.{
  World, M, pure, skip, ◌>>=◌, ◌>>◌, text, int, errno_text, log_info, log_error, print,
}
use nhan_linux_process.Cli.Explain.{print_prompt_explanation}

-- The address of an entry of getifaddrs, as inet_ntop gives it; `none` is a failure.
pub data Address : Type 0 where
  inet inet6 : Option Bytes → Address
  other_family : Address

pub record IfAddr : Type 0 where
  pub ifa_name : Option Bytes
  pub ifa_flags : ℕ
  pub ifa_addr : Option Address

-- strcmp(processed[i], name) == 0 for one of the names
unfoldable pub is_processed : List Bytes → Bytes → Bool
is_processed [] name = false
is_processed (p ∷ ps) name = let rest = is_processed ps name in if str_eq p name then true else rest

abbrev pub max_processed : ℕ
max_processed = 64

-- The array has room for 64 names of at most 15 bytes.
abbrev pub register : List Bytes → Bytes → List Bytes
register processed name =
    if ltb (length processed) max_processed then processed ++ (copy_to 16 name ∷ []) else processed

-- The names that the loop prints.
unfoldable pub new_names : List Bytes → List IfAddr → List Bytes
unfolding is_processed
new_names processed [] = []
new_names processed (i ∷ is) = elim i.ifa_name [
  | none ↦ new_names processed is
  | some name ↦ elim (is_processed processed name) [
    | true ↦ new_names processed is
    | false ↦ name ∷ new_names (register processed name) is
  ]
]

unfoldable pub print_names : List Bytes → M (Unit {0})
print_names [] = skip
print_names (n ∷ ns) = do print "%s\n" (text n ∷ []); print_names ns

abbrev pub no_interfaces : M ℤ
no_interfaces = do
  log_error "NETWORK" "API failure: getifaddrs() failed (errno %d)" (errno_text ∷ [])
  print "Error: Failed to retrieve network interfaces.\n" []
  pure minus_one

-- `found` is what getifaddrs gives, `none` where it fails.
unfoldable pub network_list_interfaces_clean : Option (List IfAddr) → M ℤ
unfolding new_names print_names
network_list_interfaces_clean found = do
  log_info "NETWORK" "Listing interface names only" []
  elim found [
    | none ↦ no_interfaces
    | some ifs ↦ do
      print "\n--- Available Network Interfaces ---\n" []
      print_names (new_names [] ifs)
      print "------------------------------------\n" []
      pure (pos 0)
  ]

-- A name or another answer read by fgets into `size` bytes: `none` where the operation gives up.
abbrev pub line_answer : Option (Bytes × Bytes) → M (Option Bytes)
line_answer none w = (none, w)
line_answer (some (line, rest)) w =
    ((if is_empty (chomp line) then none else some (chomp line)), record w { stdin = rest })

unfoldable pub ask : ℕ → String → String → M (Option Bytes)
unfolding fgets chomp
ask size explanation prompt w =
    let asks : M (Unit {0}) = (do
      (if w.is_interactive then print_prompt_explanation (codes explanation) else skip)
      print prompt []) in
    let u : World = (asks w).1 in line_answer (fgets size u.stdin) u

-- The flags of the first entry of that name
unfoldable pub find_flags : Bytes → List IfAddr → Option ℕ
find_flags name [] = none
find_flags name (i ∷ is) =
    let rest = find_flags name is in
    elim i.ifa_name [ none ↦ rest | some n ↦ if str_eq n name then some i.ifa_flags else rest ]

abbrev pub is_up : ℕ → Bool
is_up flags = flags % 2 == 1

abbrev pub is_loopback : ℕ → Bool
is_loopback flags = flags / 8 % 2 == 1

-- The addresses of the entries of that name
unfoldable pub addresses_of : Bytes → List IfAddr → List Address
addresses_of name [] = []
addresses_of name (i ∷ is) =
    let rest = addresses_of name is in
    elim i.ifa_name [
      | none ↦ rest
      | some n ↦ if str_eq n name then elim i.ifa_addr [ none ↦ rest | some a ↦ a ∷ rest ] else rest
    ]

unfoldable pub print_addresses : List Address → M (Unit {0})
print_addresses [] = skip
print_addresses (inet (some ip) ∷ rest) = do
  print "IPv4:           %s\n" (text ip ∷ [])
  print_addresses rest
print_addresses (inet6 (some ip) ∷ rest) = do
  print "IPv6:           %s\n" (text ip ∷ [])
  print_addresses rest
print_addresses (_ ∷ rest) = print_addresses rest

unfoldable pub has_inet : List Address → Bool
has_inet [] = false
has_inet (inet (some ip) ∷ rest) = true
has_inet (_ ∷ rest) = has_inet rest

unfoldable pub has_inet6 : List Address → Bool
has_inet6 [] = false
has_inet6 (inet6 (some ip) ∷ rest) = true
has_inet6 (_ ∷ rest) = has_inet6 rest

-- What the socket and ioctl give for a name: the MTU, and the six bytes and the family of the
-- hardware address.
pub record Hardware : Type 0 where
  pub mtu : Option ℤ
  pub address : Option (List ℕ × ℕ)

-- The system as the operations see it. `hardware` is `none` where socket fails.
pub record Net : Type 0 where
  pub interfaces : Option (List IfAddr)
  pub hardware : Bytes → Option Hardware
  pub statistics : Bytes → Option Bytes

abbrev pub hex_letter : ℕ → ℕ
hex_letter d = if ltb d 10 then b'0' + d else b'a' + (d - 10)

-- "%02x" of each byte, with colons between
unfoldable pub mac_text : List ℕ → Bytes
mac_text [] = []
mac_text (b ∷ []) = hex_letter (b / 16) ∷ hex_letter (b % 16) ∷ []
mac_text (b ∷ c ∷ bs) = hex_letter (b / 16) ∷ hex_letter (b % 16) ∷ b':' ∷ mac_text (c ∷ bs)

abbrev hardware_of : Net → Bytes → Hardware
hardware_of net iface = elim (net.hardware (copy_to 16 iface)) [
  | none ↦ record { mtu = none; address = none }
  | some h ↦ h
]

abbrev mac_of : Hardware → Bytes
mac_of h = elim h.address [ none ↦ codes "N/A" | some (bytes, family) ↦ mac_text bytes ]

unfoldable pub read_sysfs_stat : Net → Bytes → Bytes → ℤ
unfolding scan_long
read_sysfs_stat net iface stat_name =
    elim (net.statistics
      (copy_to 256 (codes "/sys/class/net/" ++ (iface ++ (codes "/statistics/" ++ stat_name))))) [
        | none ↦ minus_one
        | some s ↦ elim (scan_long s) [ none ↦ minus_one | some (val, rest) ↦ val ]
      ]

abbrev number_or : String → String → ℤ → M (Unit {0})
number_or shown missing n = if at_least 0 n then print shown (int n ∷ []) else print missing []

unfoldable pub show_interface : Net → Bytes → ℕ → List IfAddr → M ℤ
unfolding addresses_of print_addresses has_inet has_inet6 mac_text read_sysfs_stat
show_interface net iface flags ifs = do
  let addresses = addresses_of iface ifs
  let h = hardware_of net iface
  print "\n========================================\n" []
  print "Interface Name: %s\n" (text iface ∷ [])
  print "State:          %s\n" (text (codes (if is_up flags then "UP" else "DOWN")) ∷ [])
  print_addresses addresses
  (if has_inet addresses then skip else print "IPv4:           N/A\n" [])
  (if has_inet6 addresses then skip else print "IPv6:           N/A\n" [])
  print "MAC Address:    %s\n" (text (mac_of h) ∷ [])
  elim h.mtu [
    | none ↦ print "MTU:            N/A\n" []
    | some n ↦ number_or "MTU:            %d\n" "MTU:            N/A\n" n
  ]
  number_or "RX packets:     %lld\n" "RX packets:     N/A\n"
      (read_sysfs_stat net iface (codes "rx_packets"))
  number_or "TX packets:     %lld\n" "TX packets:     N/A\n"
      (read_sysfs_stat net iface (codes "tx_packets"))
  print "========================================\n" []
  pure (pos 0)

-- `listed` is what the call of getifaddrs for the list of names gives, before that of `net`.
unfoldable pub network_interface_info : Option (List IfAddr) → Net → M ℤ
unfolding network_list_interfaces_clean ask find_flags show_interface
network_interface_info listed net = do
  network_list_interfaces_clean listed
  answer ← ask 64 "Enter interface name" "Enter interface name: "
  elim answer [
    | none ↦ pure minus_one
    | some iface ↦ do
      log_info "NETWORK" "Interface details queried for %s" (text iface ∷ [])
      elim net.interfaces [
        | none ↦ no_interfaces
        | some ifs ↦ elim (find_flags iface ifs) [
          | none ↦ do print "Error: Interface '%s' not found.\n" (text iface ∷ []); pure minus_one
          | some flags ↦ show_interface net iface flags ifs
        ]
      ]
  ]
