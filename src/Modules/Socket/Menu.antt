-- ===== src/Modules/Socket/Menu.antt =====
-- modules/socket/socket_mgr.c: the menu of the module, and what its choices open.
pub mod Loop
use Prim.Native.String.{String}
use nhan_linux_process.Prelude.{
  ℕ, ◌+◌, Bool, Option, none, some, List, [], ◌∷◌, ◌++◌, if◌then◌else◌, codes, Bytes, ℤ, pos,
  negsuc, int_eq,
}
use nhan_linux_process.Libc.Strings.{is_empty, chomp, copy_to}
use nhan_linux_process.Libc.Stdio.{fgets}
use nhan_linux_process.Libc.Numbers.{atoi, decimal_bytes}
use nhan_linux_process.System.World.{World, M, pure, skip, ◌>>=◌, ◌>>◌, int, text, print, log_info}
use nhan_linux_process.Cli.Explain.{print_prompt_explanation}
use nhan_linux_process.Common.Terminal.{terminal_open}
use nhan_linux_process.Common.Guide.{print_ssh_tunnel_guide}

abbrev default_port : ℤ
default_port = pos 8080

abbrev default_ip : Bytes
default_ip = codes "127.0.0.1"

-- "%d"
unfoldable pub int_text : ℤ → Bytes
unfolding decimal_bytes
int_text (pos n) = decimal_bytes n
int_text (negsuc n) = b'-' ∷ decimal_bytes (n + 1)

-- An answer that is not empty replaces the default.
abbrev pub answer_or : {A : Type 0} → A → (Bytes → A) → World → Option (Bytes × Bytes) → A × World
answer_or default use_line u none = (default, u)
answer_or default use_line u (some (line, rest)) =
    (if is_empty (chomp line) then default else use_line (chomp line), record u { stdin = rest })

abbrev pub explained : String → M (Unit {0})
explained explanation w =
    (if w.is_interactive then print_prompt_explanation (codes explanation) else skip) w

unfoldable pub ask_port : String → String → M ℤ
unfolding fgets chomp atoi
ask_port explanation prompt w =
    let u : World = ((do explained explanation; print prompt (int default_port ∷ [])) w).1 in
    answer_or default_port atoi u (fgets 128 u.stdin)

unfoldable pub ask_ip : M Bytes
unfolding fgets chomp
ask_ip w =
    let u : World =
      ((do explained "Enter Server IP"; print "Enter Server IP [%s]: " (text default_ip ∷ []))
        w).1 in
    answer_or default_ip (copy_to 128) u (fgets 128 u.stdin)

abbrev bind_port : M ℤ
bind_port = ask_port "Enter port to bind" "Enter port to bind [%d]: "

abbrev server_port : M ℤ
server_port = ask_port "Enter Server Port" "Enter Server Port [%d]: "

-- The environment, whether a file can be executed, and whether ./sysmgr is there.
module _ (environ : List Bytes) (is_executable : Bytes → Bool) (has_sysmgr : Bool) where
  abbrev pub sysmgr_program : Bytes
  sysmgr_program = if has_sysmgr then codes "./sysmgr" else codes "sysmgr"

  abbrev pub command_line : Bytes → Bytes
  command_line rest = copy_to 256 (sysmgr_program ++ rest)

  abbrev opens : String → Bytes → M ℤ
  opens title rest = terminal_open environ is_executable (codes title) (command_line rest)

  unfoldable pub open_or_say : String → Bytes → String → M (Unit {0})
  unfolding terminal_open
  open_or_say title rest failure = do
    r ← opens title rest
    if int_eq r (pos 0) then skip else print failure []

  abbrev guide : M (Unit {0})
  guide = print_ssh_tunnel_guide environ default_port

  unfoldable pub open_at_port : String → String → String → M (Unit {0})
  unfolding print_ssh_tunnel_guide ask_port open_or_say int_text
  open_at_port title command failure = do
    guide
    port ← bind_port
    open_or_say title (codes command ++ int_text port) failure

  unfoldable pub open_at_address : String → String → String → M (Unit {0})
  unfolding print_ssh_tunnel_guide ask_ip ask_port open_or_say int_text
  open_at_address title command failure = do
    guide
    ip ← ask_ip
    port ← server_port
    open_or_say title (codes command ++ (ip ++ (b' ' ∷ int_text port))) failure

  unfoldable pub open_demo : M (Unit {0})
  unfolding terminal_open open_or_say
  open_demo = do
    log_info "SOCKET" "Demo launched" []
    print "Launching Host Chat in a new terminal...\n" []
    r ← opens "Chat Host" (codes " socket chat --host 8080")
    if int_eq r (pos 0)
        then (do
          print "Waiting for Host Chat to initialize...\n" []
          print "Launching Client Chat in a new terminal...\n" []
          open_or_say "Chat Client" (codes " socket chat --client 127.0.0.1 8080")
              "Failed to launch demo Client Chat.\n")
        else print "Failed to launch demo Host Chat.\n" []
