-- ===== src/System/Call.antt =====
-- The operations of the modules that the command line calls (include/*_mgr.h, common/).
use nhan_linux_process.Prelude.{List, Bytes, ℤ}

-- Process demos, and the operations that take no argument, by module.
pub data Demo : Type 0 where
  fork_demo exec_demo wait_demo zombie_demo orphan_demo daemon_demo : Demo

pub data NetworkOp : Type 0 where
  list_interfaces interface_info configure_interface show_routes : NetworkOp
  ping_host dns_lookup socket_statistics : NetworkOp
  bring_interface : Bytes → NetworkOp

pub data KernelOp : Type 0 where
  show_info load_module unload_module show_status show_log : KernelOp
  show_network_stack show_sk_buff_overview show_napi_overview : KernelOp

pub data FileOp : Type 0 where
  create read delete get_info list_dir mkdir : Bytes → FileOp
  write rename copy move chmod search archive : Bytes → Bytes → FileOp

pub data PackageOp : Type 0 where
  search info install remove : Bytes → PackageOp
  demo setup : PackageOp

pub data ProcessOp : Type 0 where
  list signal_init signal_restore : ProcessOp
  search : Bytes → ProcessOp
  send_signal set_priority : ℤ → ℤ → ProcessOp

pub data SocketOp : Type 0 where
  server_start multi_server_start : ℤ → SocketOp
  client_start : Bytes → ℤ → Bytes → SocketOp
  terminal_open : Bytes → Bytes → SocketOp
  ssh_tunnel_guide : ℤ → SocketOp

pub data ShellOp : Type 0 where
  execute : Bytes → ShellOp
  env_run : ShellOp
  cron_execute time_execute : List Bytes → ShellOp

pub data Call : Type 0 where
  file : FileOp → Call
  process : ProcessOp → Call
  demo : Demo → Call
  network : NetworkOp → Call
  socket : SocketOp → Call
  package_op : PackageOp → Call
  shell : ShellOp → Call
  kernel : KernelOp → Call
  system_command : List Bytes → Call
