-- ===== src/Common/Guide.antt =====
-- common/terminal_launcher.c: the guide to tunnels through ssh.
use nhan_linux_process.Prelude.{Option, none, some, List, [], ◌∷◌, codes, Bytes, ℤ, length}
use nhan_linux_process.Libc.Strings.{copy_to}
use nhan_linux_process.Libc.Scan.{scan_word}
use nhan_linux_process.System.World.{M, ◌>>◌, text, int, print}
use nhan_linux_process.Modules.Shell.Variables.{getenv}

abbrev behind_word : Option (Bytes × Bytes) → Option (Bytes × Bytes)
behind_word none = none
behind_word (some (word, rest)) = scan_word (length rest) rest

-- The third word, as far as it fits its array; `none` if there are fewer. A word of 64 bytes or
-- more (16 for the ports) writes past the arrays of the source.
unfoldable pub third_word : Bytes → Option Bytes
unfolding scan_word
third_word s = elim (behind_word (behind_word (scan_word (length s) s))) [
  | none ↦ none
  | some r ↦ some (copy_to 64 r.0)
]

abbrev or_else : Option Bytes → Option Bytes → Option Bytes
or_else none b = b
or_else (some a) b = some a

unfoldable pub server_ip : List Bytes → Bytes
unfolding getenv third_word
server_ip environ =
    elim (or_else (getenv (codes "SSH_CONNECTION") environ) (getenv (codes "SSH_CLIENT") environ)) [
      | none ↦ codes "<SSH_IP>"
      | some connection ↦ elim (third_word connection) [ none ↦ codes "<SSH_IP>" | some ip ↦ ip ]
    ]

unfoldable pub print_ssh_tunnel_guide : List Bytes → ℤ → M (Unit {0})
unfolding server_ip
print_ssh_tunnel_guide environ port = do
  print
      "\n\u{1b}[1;36m======================================================================\u{1b}[0m\n"
      []
  print "\u{1b}[1;33m       SSH PORT FORWARDING / TUNNELING GUIDE (HEADLESS DOCKER)\u{1b}[0m\n" []
  print "======================================================================\n" []
  print "If you are running this inside a headless SSH Docker container, your\n" []
  print "local machine cannot connect directly. Use one of these methods:\n\n" []
  print "\u{1b}[1;32mMETHOD A: Run Server on Docker, connect from Local PC (Client)\u{1b}[0m\n" []
  print "  1. On your local PC, start SSH with Local Port Forwarding:\n" []
  print "     \u{1b}[1;37mssh -p %s -L %d:localhost:%d root@%s\u{1b}[0m\n"
      (text (codes "<SSH_PORT>") ∷ int port ∷ int port ∷ text (server_ip environ) ∷ [])
  print "  2. In this Docker terminal, start the server on port %d.\n" (int port ∷ [])
  print "  3. On your local PC, start client connecting to \u{1b}[1;37m127.0.0.1 %d\u{1b}[0m.\n\n"
      (int port ∷ [])
  print "\u{1b}[1;32mMETHOD B: Run Server on Local PC, connect from Docker (Client)\u{1b}[0m\n" []
  print "  1. On your local PC, start the server on port %d.\n" (int port ∷ [])
  print "  2. On your local PC, start SSH with Remote Port Forwarding:\n" []
  print "     \u{1b}[1;37mssh -p %s -R %d:localhost:%d root@%s\u{1b}[0m\n"
      (text (codes "<SSH_PORT>") ∷ int port ∷ int port ∷ text (server_ip environ) ∷ [])
  print
      "  3. In this Docker terminal, start client connecting to \u{1b}[1;37m127.0.0.1 %d\u{1b}[0m.\n"
      (int port ∷ [])
  print "======================================================================\n\n" []
