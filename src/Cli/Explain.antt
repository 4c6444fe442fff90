-- ===== src/Cli/Explain.antt =====
-- cli/repl.c: `print_prompt_explanation`, the texts that explain a prompt.
use Prim.Native.String.{String}
use nhan_linux_process.Prelude.{Option, none, some, List, [], ◌∷◌, if◌then◌else◌, codes, Bytes}
use nhan_linux_process.Libc.Strings.{contains}
use nhan_linux_process.System.World.{M, skip, ◌>>◌, print}

-- The tests of the ladder in their order, an `||` as two entries, each with what it prints.
abbrev pub explanations : List (String × List String)
explanations =
    (
      "Enter file path to create",
      "\n\u{1b}[0;36m[Action Info] This will create a new blank file at the specified workspace path.\u{1b}[0m\n"
          ∷ [],
    )
    ∷ (
      "Enter file path to read",
      "\n\u{1b}[0;36m[Action Info] This will output the text content of the specified file to the terminal.\u{1b}[0m\n"
          ∷ [],
    )
    ∷ (
      "Enter file path to write to",
      "\n\u{1b}[0;36m[Action Info] This will write or overwrite new text content into the specified file.\u{1b}[0m\n"
          ∷ [],
    )
    ∷ (
      "Enter content to write",
      "\n\u{1b}[0;36m[Action Info] Enter the text data to be written into the file and press ENTER.\u{1b}[0m\n"
          ∷ [],
    )
    ∷ (
      "Enter file path to delete",
      "\n\u{1b}[0;36m[Action Info] This will permanently delete the specified file or directory.\u{1b}[0m\n"
          ∷ [],
    )
    ∷ (
      "Enter source path",
      "\n\u{1b}[0;36m[Action Info] Enter the source file or directory path.\u{1b}[0m\n" ∷ [],
    )
    ∷ (
      "Enter destination path",
      "\n\u{1b}[0;36m[Action Info] Enter the destination target path to copy or move to.\u{1b}[0m\n"
          ∷ [],
    )
    ∷ (
      "Enter old path",
      "\n\u{1b}[0;36m[Action Info] Enter the path of the existing file/directory to rename.\u{1b}[0m\n"
          ∷ [],
    )
    ∷ (
      "Enter new path",
      "\n\u{1b}[0;36m[Action Info] Enter the new name or target path.\u{1b}[0m\n" ∷ [],
    )
    ∷ (
      "Enter file path to query info",
      "\n\u{1b}[0;36m[Action Info] This will display metadata (size, permissions, timestamps) of the file.\u{1b}[0m\n"
          ∷ [],
    )
    ∷ (
      "Enter directory path to create",
      "\n\u{1b}[0;36m[Action Info] This will create a new directory (folder) at the specified path.\u{1b}[0m\n"
          ∷ [],
    )
    ∷ (
      "Enter permission mode",
      "\n\u{1b}[0;36m[Action Info] Change file permissions using octal mode (e.g. 755 for rwxr-xr-x).\u{1b}[0m\n"
          ∷ [],
    )
    ∷ (
      "Enter start directory",
      "\n\u{1b}[0;36m[Action Info] Specifies the directory where the filename search should begin.\u{1b}[0m\n"
          ∷ [],
    )
    ∷ (
      "Enter search pattern",
      "\n\u{1b}[0;36m[Action Info] Pattern matching query. You MUST use wildcard '*' to match suffixes, e.g. '*.txt' (NOT '.txt').\u{1b}[0m\n"
          ∷ [],
    )
    ∷ (
      "Enter archive output path",
      "\n\u{1b}[0;36m[Action Info] Specifies the filename for the compressed tarball to create.\u{1b}[0m\n"
          ∷ [],
    )
    ∷ (
      "Enter source directory to archive",
      "\n\u{1b}[0;36m[Action Info] The directory whose files and folders will be zipped/archived.\u{1b}[0m\n"
          ∷ [],
    )
    ∷ (
      "Enter process name or PID to search",
      "\n\u{1b}[0;36m[Action Info] Query running processes using a process name or unique Process ID.\u{1b}[0m\n"
          ∷ [],
    )
    ∷ (
      "Enter PID to kill",
      "\n\u{1b}[0;36m[Action Info] Forcefully terminate the process with the given PID using SIGKILL (9).\u{1b}[0m\n"
          ∷ [],
    )
    ∷ (
      "Enter PID",
      "\n\u{1b}[0;36m[Action Info] Specifies the target Process ID (PID) to send a signal or nice change.\u{1b}[0m\n"
          ∷ [],
    )
    ∷ (
      "Enter signal number",
      "\n\u{1b}[0;36m[Action Info] POSIX signal number (e.g. 15 for SIGTERM, 9 for SIGKILL).\u{1b}[0m\n"
          ∷ [],
    )
    ∷ (
      "Enter nice value",
      "\n\u{1b}[0;36m[Action Info] CPU scheduling priority adjustment offset (-20 is highest, 19 is lowest).\u{1b}[0m\n"
          ∷ [],
    )
    ∷ (
      "Enter port to bind",
      "\n\u{1b}[0;36m[Action Info] Port number to bind the TCP chat server (default: 8080).\u{1b}[0m\n"
          ∷ [],
    )
    ∷ (
      "Enter server IP",
      "\n\u{1b}[0;36m[Action Info] Target IP address of the TCP server (default: 127.0.0.1).\u{1b}[0m\n"
          ∷ [],
    )
    ∷ (
      "Enter Server IP",
      "\n\u{1b}[0;36m[Action Info] Target IP address of the TCP server (default: 127.0.0.1).\u{1b}[0m\n"
          ∷ [],
    )
    ∷ (
      "Enter server port",
      "\n\u{1b}[0;36m[Action Info] Port number where the remote TCP server is listening (default: 8080).\u{1b}[0m\n"
          ∷ [],
    )
    ∷ (
      "Enter Server Port",
      "\n\u{1b}[0;36m[Action Info] Port number where the remote TCP server is listening (default: 8080).\u{1b}[0m\n"
          ∷ [],
    )
    ∷ (
      "Enter host IP",
      "\n\u{1b}[0;36m[Action Info] The hosted terminal chat server IP address (default: 127.0.0.1).\u{1b}[0m\n"
          ∷ [],
    )
    ∷ (
      "Enter port",
      "\n\u{1b}[0;36m[Action Info] Port number to connect to or listen on (default: 8080).\u{1b}[0m\n"
          ∷ [],
    )
    ∷ (
      "Enter package query to search",
      "\n\u{1b}[0;36m[Action Info] Query system repositories (apt/dnf) for package descriptions.\u{1b}[0m\n"
          ∷ [],
    )
    ∷ (
      "Enter package name",
      "\n\u{1b}[0;36m[Action Info] Name of the package to query or inspect metadata for.\u{1b}[0m\n"
          ∷ [],
    )
    ∷ (
      "Enter package to install",
      "\n\u{1b}[0;36m[Action Info] Download and install a package (requires root/sudo).\u{1b}[0m\n"
          ∷ [],
    )
    ∷ (
      "Enter package to remove",
      "\n\u{1b}[0;36m[Action Info] Uninstall and clean up a package from the system (requires root/sudo).\u{1b}[0m\n"
          ∷ [],
    )
    ∷ (
      "Enter command to execute",
      "\n\u{1b}[0;36m[Action Info] Run an arbitrary command directly in /bin/sh child process.\u{1b}[0m\n"
          ∷ [],
    )
    ∷ (
      "Enter file path to script",
      "\n\u{1b}[0;36m[Action Info] Target shell script to be executed.\u{1b}[0m\n" ∷ [],
    )
    ∷ (
      "Enter cron expression",
      "\n\u{1b}[0;36m[Action Info] Huong dan nhap bieu thuc Cron (gom 5 truong thoi gian + chuyen huong log tuy chon):\u{1b}[0m\n"
          ∷ "\u{1b}[0;36m              Cu phap: <phut> <gio> <ngay_thang> <thang> <ngay_tuan> [chuyen_huong_log]\u{1b}[0m\n"
          ∷ "\u{1b}[0;36m              1. Phut (minute): 0 - 59\u{1b}[0m\n"
          ∷ "\u{1b}[0;36m              2. Gio (hour): 0 - 23\u{1b}[0m\n"
          ∷ "\u{1b}[0;36m              3. Ngay trong thang (day of month): 1 - 31\u{1b}[0m\n"
          ∷ "\u{1b}[0;36m              4. Thang (month): 1 - 12\u{1b}[0m\n"
          ∷ "\u{1b}[0;36m              5. Ngay trong tuan (day of week): 0 - 6 (0 la Chu Nhat)\u{1b}[0m\n"
          ∷ "\u{1b}[0;36m              * Ky tu dac biet: '*' (chay moi don vi), '*/N' (lap lai moi N don vi).\u{1b}[0m\n"
          ∷ "\u{1b}[0;36m              * De luu log ra file (redirection), hay ghi kem chuyen huong vao cuoi bieu thuc:\u{1b}[0m\n"
          ∷ "\u{1b}[0;36m                Dung '>> /duong_dan/file.log' de ghi noi tiep hoac '> /duong_dan/file.log' de ghi de.\u{1b}[0m\n"
          ∷ "\u{1b}[0;36m              * Vi du cu the:\u{1b}[0m\n"
          ∷ "\u{1b}[0;36m                - '*/5 * * * *' : chay script moi 5 phut (khong luu log)\u{1b}[0m\n"
          ∷ "\u{1b}[0;36m                - '* * * * * >> /tmp/test.log' : chay moi phut va ghi noi tiep vao file test.log\u{1b}[0m\n"
          ∷ [],
    )
    ∷ (
      "Enter YYYY-MM-DD HH:MM:SS",
      "\n\u{1b}[0;36m[Action Info] Set custom system clock time (requires root/sudo).\u{1b}[0m\n"
          ∷ [],
    )
    ∷ (
      "Enter interface name",
      "\n\u{1b}[0;36m[Action Info] Specifies the network interface card (e.g. eth0, wlan0, lo) to query or modify.\u{1b}[0m\n"
          ∷ [],
    )
    ∷ (
      "Enter IP address and subnet in CIDR",
      "\n\u{1b}[0;36m[Action Info] Configures the static IP address and its subnet mask bits (e.g. 192.168.1.100/24).\u{1b}[0m\n"
          ∷ [],
    )
    ∷ (
      "Enter host or IP to ping",
      "\n\u{1b}[0;36m[Action Info] The address of the host you want to test connectivity to (e.g. google.com or 8.8.8.8).\u{1b}[0m\n"
          ∷ [],
    )
    ∷ (
      "Enter number of packets to send",
      "\n\u{1b}[0;36m[Action Info] Number of ICMP Echo Requests to send.\u{1b}[0m\n" ∷ [],
    )
    ∷ (
      "Enter hostname to resolve",
      "\n\u{1b}[0;36m[Action Info] Lookup domain DNS mappings or perform reverse resolution on an IP address.\u{1b}[0m\n"
          ∷ [],
    )
    ∷ (
      "Enter directory path to list",
      "\n\u{1b}[0;36m[Action Info] List the contents (files and folders) of the specified directory path.\u{1b}[0m\n"
          ∷ [],
    )
    ∷ (
      "Enter file path",
      "\n\u{1b}[0;36m[Action Info] This is the target file or directory path whose attributes/permissions will be modified.\u{1b}[0m\n"
          ∷ [],
    )
    ∷ []

-- The first entry whose pattern is somewhere in the prompt.
pub explain_in : List (String × List String) → Bytes → Option (List String)
explain_in [] prompt = none
explain_in ((part, texts) ∷ more) prompt =
    let later = explain_in more prompt in if contains prompt (codes part) then some texts else later

unfoldable pub print_all : List String → M (Unit {0})
print_all [] = skip
print_all (t ∷ ts) = do print t []; print_all ts

unfoldable pub print_prompt_explanation : Bytes → M (Unit {0})
unfolding explain_in print_all
print_prompt_explanation prompt = elim (explain_in explanations prompt) [
  | none ↦ skip
  | some texts ↦ print_all texts
]
