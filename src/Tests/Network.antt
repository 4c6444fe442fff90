-- ===== src/Tests/Network.antt =====
-- Runs of the network module, and of the menu of the environment at the end of the input.
use nhan_linux_process.Prelude.{
  ◌≤◌, true, false, none, some, inl, List, [], ◌∷◌, map, take, length, codes, Bytes, pos, ◌≡◌, refl,
  arith,
}
use nhan_linux_process.System.World.{World}
use nhan_linux_process.System.Files.{Files}
use nhan_linux_process.Modules.Network.Routes.{hex_to_ip, add_lines}
use nhan_linux_process.Modules.Network.Routes.Laws.{
  described, hex_to_ip-dotted, add_lines_lem, read_routes, first_default,
}
use nhan_linux_process.Modules.Network.Interfaces.{IfAddr, is_processed, new_names}
use nhan_linux_process.Modules.Network.Interfaces.Names.{
  AreShort, names_of, are_distinct, new_names_lem,
}
use nhan_linux_process.Modules.Network.Menu.{NetAnswers}
use nhan_linux_process.Modules.Process.{Proc}
use nhan_linux_process.Modules.Process.Control.{Control}
use nhan_linux_process.Modules.Shell.Environment.Loop.{shell_mgr_env_run}
use nhan_linux_process.Modules.Shell.Menu.{EnvCall}
use nhan_linux_process.Modules.Ended.{env_started, env_menu_spins}
use nhan_linux_process.System.Call.{shell, env_run}
use nhan_linux_process.System.World.{skip}
use nhan_linux_process.App.Main.{main}
use nhan_linux_process.Tests.{world, recorder}

hex_to_ip-dotted_example : hex_to_ip (codes "0101A8C0") ≡ codes "192.168.1.1"
hex_to_ip-dotted_example =
    hex_to_ip-dotted 192 168 1 1 (omega arith) (omega arith) (omega arith) (omega arith)

abbrev routes : List Bytes
routes =
    codes "eth0 00000000 0101A8C0 0003 0 0 100 00000000 0 0 0"
    ∷ codes "junk"
    ∷ codes "eth0 0001A8C0 00000000 0001 0 0 100 00FFFFFF 0 0 0"
    ∷ []

add_lines_lem_example :
    ((add_lines (record { routes = []; gateway = none }) routes).routes
      ≡ map described (take 64 (read_routes routes)))
    × ((add_lines (record { routes = []; gateway = none }) routes).gateway
        ≡ first_default (take 64 (read_routes routes)))
add_lines_lem_example = add_lines_lem routes

abbrev entry : Bytes → IfAddr
entry name = record { ifa_name = some name; ifa_flags = 1; ifa_addr = none }

abbrev ifs : List IfAddr
ifs = entry (codes "lo") ∷ entry (codes "eth0") ∷ entry (codes "lo") ∷ []

short : AreShort (names_of ifs)
unfolding names_of
short = omega arith

few : length (new_names [] ifs) ≤ 64
unfolding new_names is_processed
few = omega arith

new_names_lem_example :
    (are_distinct (new_names [] ifs) ≡ true)
    × (is_processed (new_names [] ifs) (codes "eth0") ≡ is_processed (names_of ifs) (codes "eth0"))
new_names_lem_example = new_names_lem ifs (codes "eth0") short few

-- At the end of the input, with no terminal.
abbrev ended : World
ended = record (world [] []) { is_interactive = false }

abbrev files : Files
files = record { exists = λ _ _. false; content = λ _ _. none }

abbrev answers : NetAnswers
answers = record {
  listed = none;
  net = record { interfaces = none; hardware = λ _. none; statistics = λ _. none };
  route_file = none;
  resolve = λ _. inl [];
}

abbrev proc : Proc
proc = record { stat = λ _. none; status = λ _. none; cmdline = λ _. none }

abbrev control : Control
control = record { kill = λ _ _. none; getpriority = λ _. (pos 0, 0); setpriority = λ _ _. none }

abbrev env_call : EnvCall
env_call = record { fuel = 3; garbage = ([], []) }

env_menu_spins_example :
    (main true (λ _. skip) recorder 9 (codes "shell" ∷ codes "env" ∷ []) ended
      ≡ some (recorder.perform (shell env_run) (env_started ended)).1)
    × (shell_mgr_env_run true 9 ([], []) [] (env_started ended) ≡ none)
env_menu_spins_example = env_menu_spins recorder true (λ _. skip) 9 9 ended ([], []) [] refl
