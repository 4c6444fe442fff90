-- ===== src/Modules/Network/Diagnostics.antt =====
-- modules/network/network_mgr.c: the routing table, ping, DNS and the statistics of sockets.
use Prim.Native.String.{String}
use nhan_linux_process.Prelude.{
  ℕ, Bool, true, false, Option, none, some, List, [], ◌∷◌, if◌then◌else◌, ◌⊎◌, inl, inr, codes,
  Bytes, ℤ, pos, negsuc, minus_one, at_most,
}
use nhan_linux_process.Libc.Strings.{is_empty, chomp}
use nhan_linux_process.Libc.Stdio.{fgets}
use nhan_linux_process.Libc.Numbers.{atoi, decimal_bytes}
use nhan_linux_process.System.World.{
  World, M, pure, skip, ◌>>=◌, ◌>>◌, text, int, log_info, log_error, print,
}
use nhan_linux_process.System.Script.{succeeded}
use nhan_linux_process.System.Command.{run_command_direct}
use nhan_linux_process.Cli.Explain.{print_prompt_explanation}
use nhan_linux_process.Modules.Network.Interfaces.{ask, Address, inet, inet6, other_family}
use nhan_linux_process.Modules.Network.Routes.{network_show_routes}

abbrev run_program : String → List Bytes → M (ℤ × ℕ)
run_program cmd argv = run_command_direct "NETWORK" none cmd argv

-- `found` is what a read of /proc/net/route gives, should ip fail.
unfoldable pub network_show_routes_ip : Option (Option Bytes) → M ℤ
unfolding network_show_routes
network_show_routes_ip found = do
  log_info "NETWORK" "Routing table requested" []
  print "\n--- Routing Table (ip route) ---\n" []
  r ← run_program "ip" (codes "ip" ∷ codes "route" ∷ [])
  if succeeded r then pure (pos 0) else do
    print "Error: Failed to fetch routing table via 'ip route'.\n" []
    print "Attempting fallback to legacy /proc/net/route parsing...\n" []
    network_show_routes found

-- The number of packets that an answer asks for, 4 where it asks for none
unfoldable pub packets_of : Bytes → ℤ
unfolding atoi
packets_of answer =
    if is_empty answer then pos 4 else if at_most 0 (atoi answer) then pos 4 else atoi answer

abbrev count_line : World → Option (Bytes × Bytes) → ℤ × World
count_line u none = (pos 4, u)
count_line u (some (line, rest)) = (packets_of (chomp line), record u { stdin = rest })

unfoldable pub ask_count : M ℤ
unfolding fgets chomp packets_of
ask_count w =
    let asks : M (Unit {0}) = (do
      (if w.is_interactive
          then print_prompt_explanation (codes "Enter number of packets to send")
          else skip)
      print "Enter number of packets to send [%d]: " (int (pos 4) ∷ [])) in
    let u : World = (asks w).1 in count_line u (fgets 32 u.stdin)

-- "%d" of a count, which is at least 1
abbrev pub count_param : ℤ → Bytes
count_param (pos n) = decimal_bytes n
count_param (negsuc n) = []

abbrev pub ping_argv : ℤ → Bytes → List Bytes
ping_argv count host = codes "ping" ∷ codes "-c" ∷ count_param count ∷ host ∷ []

unfoldable pub ping : ℤ → Bytes → M (Unit {0})
unfolding decimal_bytes
ping count host = do
  log_info "NETWORK" "Pinging host %s (packets: %d)" (text host ∷ int count ∷ [])
  print "\n--- Pinging host %s with %d packets ---\n" (text host ∷ int count ∷ [])
  r ← run_program "ping" (ping_argv count host)
  if succeeded r
      then print "\nPing execution completed successfully.\n" []
      else print "\nError: Ping command failed or host was unreachable.\n" []

unfoldable pub network_ping_host : M (Unit {0})
unfolding ask ask_count ping
network_ping_host = do
  answer ← ask 256 "Enter host or IP to ping" "Enter host or IP to ping (e.g. 8.8.8.8): "
  elim answer [ none ↦ skip | some host ↦ do count ← ask_count; ping count host ]

-- The loop over the addresses, and whether one was found
unfoldable pub print_resolved : List Address → M Bool
print_resolved [] = pure false
print_resolved (inet ip ∷ more) = do
  elim ip [ none ↦ skip | some t ↦ print "- %s: %s\n" (text (codes "IPv4") ∷ text t ∷ []) ]
  print_resolved more
  pure true
print_resolved (inet6 ip ∷ more) = do
  elim ip [ none ↦ skip | some t ↦ print "- %s: %s\n" (text (codes "IPv6") ∷ text t ∷ []) ]
  print_resolved more
  pure true
print_resolved (other_family ∷ more) = print_resolved more

-- `resolve` is getaddrinfo: the addresses, or the text of its error.
unfoldable pub network_dns_lookup : (Bytes → Bytes ⊎ List Address) → M ℤ
unfolding ask print_resolved
network_dns_lookup resolve = do
  answer ← ask 256 "Enter hostname to resolve" "Enter hostname to resolve (e.g. google.com): "
  elim answer [
    | none ↦ pure minus_one
    | some hostname ↦ do
      log_info "NETWORK" "DNS lookup for %s" (text hostname ∷ [])
      elim (resolve hostname) [
        | inl message ↦ do
          log_error "NETWORK" "DNS resolution failed for %s: %s" (text hostname ∷ text message ∷ [])
          print "Error: DNS resolution failed: %s\n" (text message ∷ [])
          pure minus_one
        | inr addresses ↦ do
          print "\nResolved addresses for %s:\n" (text hostname ∷ [])
          found ← print_resolved addresses
          (if found then skip else print "No IP addresses resolved.\n" [])
          pure (pos 0)
      ]
  ]

abbrev pub ss_argv : List Bytes
ss_argv = codes "ss" ∷ codes "-tulnp" ∷ []

abbrev pub netstat_argv : List Bytes
netstat_argv = codes "netstat" ∷ codes "-tulnp" ∷ []

unfoldable pub network_socket_statistics : M ℤ
network_socket_statistics = do
  log_info "NETWORK" "Socket statistics requested" []
  print "\n--- Active TCP/UDP Sockets (ss -tulnp) ---\n" []
  print "Note: Process ownership (PID) information requires root permissions (sudo).\n\n" []
  r ← run_program "ss" ss_argv
  if succeeded r then pure (pos 0) else do
    print "Error: Failed to execute 'ss -tulnp'. Fallback to 'netstat -tulnp'...\n" []
    q ← run_program "netstat" netstat_argv
    if succeeded q
        then pure (pos 0)
        else do print "Error: Failed to retrieve socket statistics.\n" []; pure minus_one
