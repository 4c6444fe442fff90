-- ===== src/Modules/Network/Routes/Laws.antt =====
-- modules/network/network_mgr.c: the routing table against the list of the lines that are read, and
-- an address against its hexadecimal text.
use Prim.Native.String.{String}
use nhan_linux_process.Prelude.{
  ℕ, zero, suc, ◌+◌, ◌-◌, ◌*◌, ◌/◌, ◌%◌, ◌^◌, ◌<◌, true, Option, none, some, List, [], ◌∷◌, ◌++◌,
  map, append-nil, append_assoc, if◌then◌else◌, ltb, length, take, codes, str_eq, ◌==◌, Bytes, ◌≡◌,
  refl, ap, ap₂, sym, ◌∙◌, arith, Option-cases, inl, inr, length-append,
}
use nhan_linux_process.Libc.Scan.{scan_hex-digits, hex_run, is_hex, hex_value, dotted, inet_text}
use nhan_linux_process.Modules.Network.Routes.{
  RouteTable, RouteLine, RouteEntry, flag_letters, scan_route, entry_of, add_route, add_lines,
  ip_of, hex_to_ip,
}

-- The lines that sscanf reads whole.
unfoldable pub read_routes : List Bytes → List RouteLine
read_routes [] = []
read_routes (l ∷ ls) = elim (scan_route l) [ none ↦ read_routes ls | some r ↦ r ∷ read_routes ls ]

-- The gateway of the first of them with the destination 00000000 and a gateway that is not.
unfoldable pub first_default : List RouteLine → Option Bytes
first_default [] = none
first_default (l ∷ ls) =
    let rest = first_default ls in
    if str_eq l.dest_hex (codes "00000000")
    then (if str_eq l.gw_hex (codes "00000000") then rest else some (take 15 (hex_to_ip l.gw_hex)))
    else rest

-- The letter for a bit that is set
abbrev pub letter : ℕ → String → Bytes
letter bit name = if bit == 1 then codes name else []

-- A line as an entry of the table
abbrev pub described : RouteLine → RouteEntry
described l = record {
  iface = take 31 l.iface;
  dest = hex_to_ip l.dest_hex;
  gw = hex_to_ip l.gw_hex;
  mask = hex_to_ip l.mask_hex;
  flags =
      letter (l.flags_val % 2) "U"
      ++ (letter (l.flags_val / 2 % 2) "G" ++ letter (l.flags_val / 4 % 2) "H");
}

entry_of-described : (l : RouteLine) → entry_of l ≡ described l
unfolding entry_of flag_letters
entry_of-described l = refl

map-described : (ls : List RouteLine) → map entry_of ls ≡ map described ls
map-described [] = refl
map-described (l ∷ ls) = ap₂ ◌∷◌ (entry_of-described l) (map-described ls)

abbrev or_else : Option Bytes → Option Bytes → Option Bytes
or_else none o = o
or_else (some g) o = some g

unfoldable pub add_all : RouteTable → List RouteLine → RouteTable
add_all t [] = t
add_all t (l ∷ ls) = add_all (add_route t l) ls

add_lines-add_all : (ls : List Bytes) (t : RouteTable) → add_lines t ls ≡ add_all t (read_routes ls)
unfolding add_lines add_all read_routes
add_lines-add_all [] t = refl
add_lines-add_all (l ∷ ls) t = elim (Option-cases (scan_route l)) [
  | inl skipped ↦ rw (skipped, read_routes) (add_lines-add_all ls t)
  | inr (r, read) ↦ rw (read, read_routes) (add_lines-add_all ls (add_route t r))
]

add_route_full : (t : RouteTable) (l : RouteLine) → length t.routes ≡ 64 → add_route t l ≡ t
unfolding add_route
add_route_full t l h = ground arith

add_route_room :
    (t : RouteTable) (l : RouteLine)
    → length t.routes < 64
    → ((add_route t l).routes ≡ t.routes ++ (entry_of l ∷ []))
      × ((add_route t l).gateway ≡ or_else t.gateway (first_default (l ∷ [])))
unfolding add_route first_default
add_route_room t l h = ground arith

add_all_full : (ls : List RouteLine) (t : RouteTable) → length t.routes ≡ 64 → add_all t ls ≡ t
unfolding add_all
add_all_full [] t h = refl
add_all_full (l ∷ ls) t h = rw (add_route_full t l h) (add_all_full ls t h)

first_default-cons :
    (g : Option Bytes) (l : RouteLine) (ls : List RouteLine)
    → or_else (or_else g (first_default (l ∷ []))) (first_default ls)
      ≡ or_else g (first_default (l ∷ ls))
unfolding first_default
first_default-cons none l ls = ground arith
first_default-cons (some gw) l ls = refl

none_found : (g : Option Bytes) → g ≡ or_else g (first_default [])
unfolding first_default
none_found none = refl
none_found (some gw) = refl

add_all_lem :
    (ls : List RouteLine) (k : ℕ) (t : RouteTable)
    → length t.routes + k ≡ 64
    → ((add_all t ls).routes ≡ t.routes ++ map entry_of (take k ls))
      × ((add_all t ls).gateway ≡ or_else t.gateway (first_default (take k ls)))
unfolding add_all first_default
add_all_lem ls zero t h =
    rw (add_all_full ls t (omega arith)) (sym (append-nil t.routes), none_found t.gateway)
add_all_lem [] (suc k) t h = (sym (append-nil t.routes), none_found t.gateway)
add_all_lem (l ∷ ls) (suc k) t h =
    let room = add_route_room t l (omega arith) in
    let rest =
      add_all_lem ls k (add_route t l)
        (omega (arith, ap length room.0, length-append t.routes (entry_of l ∷ []))) in
    (
      rest.0
          ∙ ap (λ rs. rs ++ map entry_of (take k ls)) room.0
          ∙ append_assoc t.routes (entry_of l ∷ []) (map entry_of (take k ls)),
      rest.1
          ∙ ap (λ g. or_else g (first_default (take k ls))) room.1
          ∙ first_default-cons t.gateway l (take k ls),
    )

-- The routing table made of any lines has the first 64 of those lines that the conversions of
-- sscanf read whole, in their order, each as an entry: the first 31 bytes of the name of the
-- interface, the addresses of the destination, the gateway and the mask from their hexadecimal
-- texts, and the letters U, G and H for the bits 1, 2 and 4 of the flags. Its gateway is that of
-- the first of them whose destination is 00000000 and whose gateway is not, cut to 15 bytes.
pub add_lines_lem :
    (ls : List Bytes)
    → let t = add_lines (record { routes = []; gateway = none }) ls in
      let first = take 64 (read_routes ls) in
      (t.routes ≡ map described first) × (t.gateway ≡ first_default first)
add_lines_lem ls =
    let first = take 64 (read_routes ls) in
    let all = add_all_lem (read_routes ls) 64 (record { routes = []; gateway = none }) refl in
    rw (add_lines-add_all ls (record { routes = []; gateway = none }))
      (all.0 ∙ map-described first, all.1)

-- A hexadecimal digit in upper case, as the kernel prints it
abbrev pub hex_digit : ℕ → ℕ
hex_digit d = if ltb d 10 then b'0' + d else b'A' + (d - 10)

hex_digit_lem : (d : ℕ) → d < 16 → (hex_value (hex_digit d) ≡ d) × (is_hex (hex_digit d) ≡ true)
hex_digit_lem d h = ground arith

hex_run-digit :
    (acc d : ℕ) (cs : Bytes) → d < 16 → hex_run acc (hex_digit d ∷ cs) ≡ hex_run (acc * 16 + d) cs
unfolding hex_run
hex_run-digit acc d cs h = ground (arith, hex_digit_lem d h)

abbrev pub hex_byte : ℕ → Bytes
hex_byte b = hex_digit (b / 16) ∷ hex_digit (b % 16) ∷ []

hex_run-byte :
    (acc b : ℕ) (cs : Bytes) → b < 256 → hex_run acc (hex_byte b ++ cs) ≡ hex_run (acc * 256 + b) cs
hex_run-byte acc b cs h =
    hex_run-digit acc (b / 16) (hex_digit (b % 16) ∷ cs) (omega arith)
    ∙ hex_run-digit (acc * 16 + b / 16) (b % 16) cs (omega arith)
    ∙ ap (λ n. hex_run n cs) (omega arith)

hex_run_address :
    (a b c d : ℕ)
    → a < 256
    → b < 256
    → c < 256
    → d < 256
    → hex_run 0 (hex_byte d ++ (hex_byte c ++ (hex_byte b ++ (hex_byte a ++ []))))
      ≡ (((d * 256 + c) * 256 + b) * 256 + a, [])
unfolding hex_run
hex_run_address a b c d ha hb hc hd =
    hex_run-byte 0 d (hex_byte c ++ (hex_byte b ++ (hex_byte a ++ []))) hd
    ∙ hex_run-byte (0 * 256 + d) c (hex_byte b ++ (hex_byte a ++ [])) hc
    ∙ hex_run-byte ((0 * 256 + d) * 256 + c) b (hex_byte a ++ []) hb
    ∙ hex_run-byte (((0 * 256 + d) * 256 + c) * 256 + b) a [] ha
    ∙ ap (λ n. (n, [])) (omega arith)

inet_text-bytes :
    (a b c d : ℕ)
    → a < 256
    → b < 256
    → c < 256
    → d < 256
    → inet_text ((((d * 256 + c) * 256 + b) * 256 + a) % 2 ^ 32) ≡ dotted a b c d
unfolding inet_text
inet_text-bytes a b c d ha hb hc hd =
    let n = ((d * 256 + c) * 256 + b) * 256 + a in
    let e0 : n % 2 ^ 32 % 256 ≡ a = omega arith in
    let e1 : n % 2 ^ 32 / 256 % 256 ≡ b = omega arith in
    let e2 : n % 2 ^ 32 / 65536 % 256 ≡ c = omega arith in
    let e3 : n % 2 ^ 32 / 16777216 % 256 ≡ d = omega arith in rw (e0, e1, e2, e3)

-- The eight hexadecimal digits, in upper case, that the kernel prints for an address of four bytes,
-- the last byte in front, are turned into the address in dotted decimal.
pub hex_to_ip-dotted :
    (a b c d : ℕ)
    → a < 256
    → b < 256
    → c < 256
    → d < 256
    → hex_to_ip (hex_byte d ++ (hex_byte c ++ (hex_byte b ++ hex_byte a))) ≡ dotted a b c d
unfolding hex_to_ip
hex_to_ip-dotted a b c d ha hb hc hd =
    let read =
      scan_hex-digits (hex_digit (d / 16)) (hex_digit (d % 16))
        (hex_byte c ++ (hex_byte b ++ hex_byte a)) [] (((d * 256 + c) * 256 + b) * 256 + a)
        (hex_digit_lem (d / 16) (omega arith)).1 (hex_digit_lem (d % 16) (omega arith)).1
        (omega arith) (hex_run_address a b c d ha hb hc hd) in
    ap ip_of read ∙ inet_text-bytes a b c d ha hb hc hd
