-- ===== src/Modules/Network/Routes.antt =====
-- modules/network/network_mgr.c: `parse_routing_table` on the text of /proc/net/route.
pub mod Laws
use Prim.Native.String.{String}
use nhan_linux_process.Prelude.{
  ℕ, zero, suc, ◌+◌, ◌/◌, ◌%◌, ◌^◌, Bool, true, false, ◌&&◌, not, Option, none, some, List, [], ◌∷◌,
  ◌++◌, if◌then◌else◌, ◌==◌, ltb, length, str_eq, codes, Bytes, ℤ, pos, minus_one,
}
use nhan_linux_process.Libc.Strings.{is_empty, copy_to, until_nul}
use nhan_linux_process.Libc.Numbers.{scan_long}
use nhan_linux_process.Libc.Scan.{scan_word, scan_hex, inet_text}
use nhan_linux_process.System.World.{
  World, M, pure, skip, ◌>>=◌, ◌>>◌, text, log_info, log_error, print, errno_text,
}

pub record RouteEntry : Type 0 where
  pub iface : Bytes
  pub dest : Bytes
  pub gw : Bytes
  pub mask : Bytes
  pub flags : Bytes

-- `routes`, and `gw_ip` once `gw_found` is set.
pub record RouteTable : Type 0 where
  pub routes : List RouteEntry
  pub gateway : Option Bytes

abbrev pub ip_of : Option (ℕ × Bytes) → Bytes
ip_of none = codes "0.0.0.0"
ip_of (some (val, rest)) = inet_text (val % 2 ^ 32)

unfoldable pub hex_to_ip : Bytes → Bytes
hex_to_ip hex = ip_of (scan_hex hex)

-- What the five conversions of sscanf store.
pub record RouteLine : Type 0 where
  pub iface : Bytes
  pub dest_hex : Bytes
  pub gw_hex : Bytes
  pub flags_val : ℕ
  pub mask_hex : Bytes

abbrev pub and_then : {A B : Type 0} → Option A → (A → Option B) → Option B
and_then none f = none
and_then (some a) f = f a

-- sscanf(line, "%31s %31s %31s %x %*d %*d %*d %31s", ...) == 5
unfoldable pub scan_route : Bytes → Option RouteLine
unfolding scan_word scan_hex scan_long
scan_route line = and_then (scan_word 31 line) λ iface. and_then (scan_word 31 iface.1) λ dest.
    and_then (scan_word 31 dest.1) λ gw. and_then (scan_hex gw.1) λ flags.
      and_then (scan_long flags.1) λ refs. and_then (scan_long refs.1) λ uses.
        and_then (scan_long uses.1) λ metric. and_then (scan_word 31 metric.1) λ mask.
          some (record {
            iface = iface.0;
            dest_hex = dest.0;
            gw_hex = gw.0;
            flags_val = flags.0 % 2 ^ 32;
            mask_hex = mask.0;
          })

-- The letters for the bits 1, 2 and 4
unfoldable pub flag_letters : ℕ → Bytes
flag_letters f =
    (if f % 2 == 1 then codes "U" else [])
    ++ ((if f / 2 % 2 == 1 then codes "G" else []) ++ (if f / 4 % 2 == 1 then codes "H" else []))

unfoldable pub entry_of : RouteLine → RouteEntry
unfolding hex_to_ip flag_letters
entry_of l = record {
  iface = copy_to 32 l.iface;
  dest = hex_to_ip l.dest_hex;
  gw = hex_to_ip l.gw_hex;
  mask = hex_to_ip l.mask_hex;
  flags = flag_letters l.flags_val;
}

abbrev pub is_default : RouteLine → Bool
is_default l = str_eq l.dest_hex (codes "00000000") && not (str_eq l.gw_hex (codes "00000000"))

abbrev pub max_routes : ℕ
max_routes = 64

-- A line that was read: an entry while there is room, and the first default gateway.
unfoldable pub add_route : RouteTable → RouteLine → RouteTable
add_route t l =
    if ltb (length t.routes) max_routes
    then record {
      routes = t.routes ++ (entry_of l ∷ []);
      gateway = elim t.gateway [
        | some gw ↦ some gw
        | none ↦ if is_default l then some (copy_to 16 (hex_to_ip l.gw_hex)) else none
      ];
    }
    else t

-- The lines of a text; `line` holds what is read of the current one.
unfoldable pub split_lines : Bytes → Bytes → List Bytes
split_lines line [] = if is_empty line then [] else line ∷ []
split_lines line (c ∷ cs) =
    let here = line ∷ split_lines [] cs in
    let more = split_lines (line ++ (c ∷ [])) cs in if c == b'\n' then here else more

-- The text behind the first newline; nothing is read of a text that has none.
unfoldable pub after_heading : Bytes → Bytes
after_heading [] = []
after_heading (c ∷ cs) = let rest = after_heading cs in if c == b'\n' then cs else rest

unfoldable pub add_lines : RouteTable → List Bytes → RouteTable
add_lines t [] = t
add_lines t (l ∷ ls) = add_lines (elim (scan_route l) [ none ↦ t | some r ↦ add_route t r ]) ls

unfoldable pub routing_table : Bytes → RouteTable
unfolding until_nul split_lines after_heading add_lines add_route scan_route entry_of hex_to_ip
routing_table buf =
    add_lines (record { routes = []; gateway = none })
      (split_lines [] (after_heading (until_nul buf)))

unfoldable pub print_routes : List RouteEntry → M (Unit {0})
print_routes [] = skip
print_routes (r ∷ rs) = do
  print "%-10s %-16s %-16s %-16s %-6s\n"
      (text r.iface ∷ text r.dest ∷ text r.gw ∷ text r.mask ∷ text r.flags ∷ [])
  print_routes rs

abbrev route_rule : M (Unit {0})
route_rule = print "----------------------------------------------------------------------\n" []

-- strdup is taken to succeed.
unfoldable pub parse_routing_table : Bytes → M ℤ
unfolding routing_table print_routes
parse_routing_table buf =
    let t = routing_table buf in
    (do
      elim t.gateway [ none ↦ skip | some gw ↦ log_info "NETWORK" "Default gateway detected" [] ]
      print "\nDefault Gateway: %s\n\n"
          (text (elim t.gateway [ none ↦ codes "None" | some gw ↦ gw ]) ∷ [])
      print "%-10s %-16s %-16s %-16s %-6s\n" (
          text (codes "Interface")
          ∷ text (codes "Destination")
          ∷ text (codes "Gateway")
          ∷ text (codes "Netmask")
          ∷ text (codes "Flags")
          ∷ [])
      route_rule
      print_routes t.routes
      route_rule
      log_info "NETWORK" "Route entries parsed" []
      pure (pos 0))

-- `read` gives what open and read of /proc/net/route give: `none` where open fails, `some none`
-- where read does; it stores at most 8191 bytes.
unfoldable pub network_show_routes : Option (Option Bytes) → M ℤ
unfolding parse_routing_table
network_show_routes found = do
  log_info "NETWORK" "Routing inspection started (proc-based)" []
  elim found [
    | none ↦ do
      log_error "NETWORK" "API failure: open() failed on /proc/net/route (errno %d)"
          (errno_text ∷ [])
      print "Error: Failed to open routing table file.\n" []
      pure minus_one
    | some bytes ↦ elim bytes [
      | none ↦ do
        log_error "NETWORK" "API failure: read() failed on /proc/net/route (errno %d)"
            (errno_text ∷ [])
        print "Error: Failed to read routing table.\n" []
        pure minus_one
      | some buf ↦ parse_routing_table (copy_to 8192 buf)
    ]
  ]
