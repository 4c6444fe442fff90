-- ===== src/Cli/Dispatch/Commands/Services.antt =====
-- cli/repl.c: the dispatchers of the process, network and package contexts.
use nhan_linux_process.Prelude.{List, [], ◌∷◌, codes, Bytes, pos}
use nhan_linux_process.Libc.Numbers.{atoi}
use nhan_linux_process.System.Call.{
  process, demo, network, package_op, PackageOp, ProcessOp, fork_demo, exec_demo, wait_demo,
  zombie_demo, orphan_demo, daemon_demo, list_interfaces, interface_info, configure_interface,
  show_routes, ping_host, dns_lookup, socket_statistics, bring_interface, signal_init,
  signal_restore, send_signal, set_priority,
}
use nhan_linux_process.System.World.{M, skip}
use nhan_linux_process.System.Backend.{Backend}
use nhan_linux_process.Cli.Dispatch.Ladder.{Table, ladder, act, with_arg, unknown}

module _ (b : Backend) where
  abbrev pub process_table : List Bytes → Table
  process_table argv =
      ("list", act b (process ProcessOp.list))
      ∷ (
        "info",
        with_arg 64 1 argv (codes "Enter process name or PID to search: ")
            λ pid_str. act b (process (ProcessOp.search pid_str)),
      )
      ∷ (
        "kill",
        with_arg 64 1 argv (codes "Enter PID to kill: ")
            λ pid_str. act b (process (send_signal (atoi pid_str) (pos 9))),
      )
      ∷ (
        "signal",
        with_arg 64 1 argv (codes "Enter PID: ") λ pid_str.
            with_arg 64 2 argv (codes "Enter signal number (e.g. 15 for SIGTERM): ")
              λ sig_str. act b (process (send_signal (atoi pid_str) (atoi sig_str))),
      )
      ∷ (
        "nice",
        with_arg 64 1 argv (codes "Enter PID: ") λ pid_str.
            with_arg 64 2 argv (codes "Enter nice value (-20 to 19): ")
              λ sig_str. act b (process (set_priority (atoi pid_str) (atoi sig_str))),
      )
      ∷ ("fork", act b (demo fork_demo))
      ∷ ("exec", act b (demo exec_demo))
      ∷ ("wait", act b (demo wait_demo))
      ∷ ("zombie", act b (demo zombie_demo))
      ∷ ("orphan", act b (demo orphan_demo))
      ∷ ("daemon", act b (demo daemon_demo))
      ∷ ("siginit", act b (process signal_init))
      ∷ ("sigreset", act b (process signal_restore))
      ∷ []

  unfoldable pub dispatch_process : List Bytes → M (Unit {0})
  unfolding act with_arg
  dispatch_process [] = skip
  dispatch_process (cmd ∷ args) =
      ladder cmd (process_table (cmd ∷ args))
        (unknown "Error: Unknown process command '%s'. Type / for options.\n" cmd)

  abbrev pub network_table : Table
  network_table =
      ("list", act b (network list_interfaces))
      ∷ ("info", act b (network interface_info))
      ∷ ("config", act b (network configure_interface))
      ∷ ("up", act b (network (bring_interface (codes "up"))))
      ∷ ("down", act b (network (bring_interface (codes "down"))))
      ∷ ("route", act b (network show_routes))
      ∷ ("ping", act b (network ping_host))
      ∷ ("dns", act b (network dns_lookup))
      ∷ ("stats", act b (network socket_statistics))
      ∷ []

  unfoldable pub dispatch_network : List Bytes → M (Unit {0})
  unfolding act with_arg
  dispatch_network [] = skip
  dispatch_network (cmd ∷ args) =
      ladder cmd network_table
        (unknown "Error: Unknown network command '%s'. Type / for options.\n" cmd)

  abbrev pub package_table : List Bytes → Table
  package_table argv =
      (
        "search",
        with_arg 256 1 argv
            (codes "Enter package query to search (e.g. nginx, python, gcc, docker, git): ")
            λ pkg_name. act b (package_op (PackageOp.search pkg_name)),
      )
      ∷ (
        "info",
        with_arg 256 1 argv (codes "Enter package name (e.g. tmux, curl, htop, wget, git): ")
            λ pkg_name. act b (package_op (PackageOp.info pkg_name)),
      )
      ∷ (
        "install",
        with_arg 256 1 argv (codes "Enter package to install (e.g. tmux, curl, htop, wget, git): ")
            λ pkg_name. act b (package_op (PackageOp.install pkg_name)),
      )
      ∷ (
        "remove",
        with_arg 256 1 argv (codes "Enter package to remove (e.g. tmux, curl, htop, wget, git): ")
            λ pkg_name. act b (package_op (PackageOp.remove pkg_name)),
      )
      ∷ ("demo", act b (package_op PackageOp.demo))
      ∷ ("setup", act b (package_op PackageOp.setup))
      ∷ []

  unfoldable pub dispatch_package : List Bytes → M (Unit {0})
  unfolding act with_arg
  dispatch_package [] = skip
  dispatch_package (cmd ∷ args) =
      ladder cmd (package_table (cmd ∷ args))
        (unknown "Error: Unknown package command '%s'. Type / for options.\n" cmd)
