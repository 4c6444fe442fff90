-- ===== src/Modules/Process/Search.antt =====
-- modules/process/process_mgr.c: the list of processes, and the search in it.
use nhan_linux_process.Prelude.{
  ℕ, ◌+◌, ◌/◌, Bool, true, not, ◌&&◌, ◌||◌, Option, none, some, List, [], ◌∷◌, map, if◌then◌else◌,
  ◌==◌, codes, Bytes, ℤ, pos, minus_one, to_int,
}
use nhan_linux_process.Libc.Strings.{is_empty, to_lower, contains, copy_to}
use nhan_linux_process.Libc.Numbers.{is_digit, strtol}
use nhan_linux_process.System.World.{
  M, pure, ◌>>=◌, ◌>>◌, text, int, nat, print, log_info, log_warning, log_error,
}
use nhan_linux_process.Modules.Process.{Proc, ProcInfo, parse_proc_stat}

-- The bytes of the command line up to its last one, a space for each NUL
abbrev pub cmdline_text : Bytes → Bytes
cmdline_text [] = []
cmdline_text (c ∷ []) = []
cmdline_text (c ∷ d ∷ cs) = (if c == 0 then b' ' else c) ∷ cmdline_text (d ∷ cs)

unfoldable pub get_proc_cmdline : Proc → ℤ → ℕ → Bytes
get_proc_cmdline proc pid max_len = elim (proc.cmdline pid) [
  | none ↦ []
  | some buf ↦ copy_to max_len (cmdline_text buf)
]

abbrev pub cmdline_of : Proc → ℤ → Bytes
cmdline_of proc pid = get_proc_cmdline proc pid 256

-- The pid that an entry of /proc names, if it is a number
unfoldable pub pid_of_entry : Bytes → Option ℤ
unfolding strtol
pid_of_entry d_name =
    let (pid, end) = strtol d_name in if is_empty end then some (to_int pid) else none

-- A row of the table: the command line if there is one, or the short name.
abbrev pub print_row : Proc → ProcInfo → M (Unit {0})
print_row proc info = print "%-8d %-8d %-6c %-12lu KB %-8ld %-30s\n" (
    int info.pid
    ∷ int info.ppid
    ∷ nat info.state
    ∷ nat (info.memory_size / 1024)
    ∷ int info.priority
    ∷ text (if is_empty (cmdline_of proc info.pid) then info.name else cmdline_of proc info.pid)
    ∷ [])

-- What an entry of /proc stands for
abbrev pub entry_info : Proc → Bytes → Option ProcInfo
entry_info proc d_name = elim (pid_of_entry d_name) [
  | none ↦ none
  | some pid ↦ parse_proc_stat proc pid
]

-- The loop over readdir: a row for each process that passes the test, and their number.
unfoldable pub print_rows : Proc → (ProcInfo → Bool) → List Bytes → M ℕ
unfolding pid_of_entry get_proc_cmdline
print_rows proc test [] = pure 0
print_rows proc test (d_name ∷ entries) = elim (entry_info proc d_name) [
  | none ↦ print_rows proc test entries
  | some info ↦
      if test info
      then (do print_row proc info; count ← print_rows proc test entries; pure (count + 1))
      else print_rows proc test entries
]

abbrev table_head : M (Unit {0})
table_head = do
  print "%-8s %-8s %-6s %-12s %-8s %-30s\n" (
      text (codes "PID")
      ∷ text (codes "PPID")
      ∷ text (codes "State")
      ∷ text (codes "Memory")
      ∷ text (codes "Priority")
      ∷ text (codes "Name/Command")
      ∷ [])
  print
      "-----------------------------------------------------------------------------------------\n"
      []

abbrev table_end : M (Unit {0})
table_end =
    print
      "-----------------------------------------------------------------------------------------\n"
      []

-- The entries are those of /proc, `none` where opendir fails.
unfoldable pub process_mgr_list : Proc → Option (List Bytes) → M ℤ
unfolding print_rows
process_mgr_list proc none = do
  log_error "PROCESS" "Failed to open /proc directory" []
  pure minus_one
process_mgr_list proc (some entries) = do
  log_info "PROCESS" "Process list requested" []
  table_head
  count ← print_rows proc (λ _. true) entries
  table_end
  log_info "PROCESS" "Number of processes found: %d" (nat count ∷ [])
  pure (pos count)

abbrev pub is_numeric : Bytes → Bool
is_numeric [] = true
is_numeric (c ∷ cs) = is_digit c && is_numeric cs

-- strcasestr(s, part) != NULL
abbrev pub contains_any_case : Bytes → Bytes → Bool
contains_any_case s part = contains (map to_lower s) (map to_lower part)

abbrev pub matches_query : Proc → Bytes → ProcInfo → Bool
matches_query proc query info =
    contains_any_case info.name query
    || (not (is_empty (cmdline_of proc info.pid))
        && contains_any_case (cmdline_of proc info.pid) query)

abbrev print_info : Proc → ℤ → ProcInfo → M (Unit {0})
print_info proc target_pid info = do
  print "Process Information for PID: %d\n" (int target_pid ∷ [])
  print "----------------------------------------\n" []
  print "PID:        %d\n" (int info.pid ∷ [])
  print "PPID:       %d\n" (int info.ppid ∷ [])
  print "Name:       %s\n" (text info.name ∷ [])
  print "State:      %c\n" (nat info.state ∷ [])
  print "Priority:   %ld\n" (int info.priority ∷ [])
  print "Memory:     %lu KB\n" (nat (info.memory_size / 1024) ∷ [])
  print "Executable: %s\n" (
      text
        (if is_empty (cmdline_of proc target_pid) then codes "N/A" else cmdline_of proc target_pid)
      ∷ [])
  print "----------------------------------------\n" []

unfoldable pub search_pid : Proc → ℤ → Option ProcInfo → M ℤ
unfolding get_proc_cmdline
search_pid proc target_pid (some info) = do
  print_info proc target_pid info
  log_info "PROCESS" "Matched processes: 1 (PID search)" []
  pure (pos 1)
search_pid proc target_pid none = do
  print "Process with PID %d not found.\n" (int target_pid ∷ [])
  log_warning "PROCESS" "Search failure: PID %d not found" (int target_pid ∷ [])
  pure (pos 0)

unfoldable pub search_name : Proc → Option (List Bytes) → Bytes → M ℤ
unfolding print_rows
search_name proc none query = do
  log_error "PROCESS" "Failed to open /proc directory for searching" []
  pure minus_one
search_name proc (some entries) query = do
  table_head
  count ← print_rows proc (matches_query proc query) entries
  table_end
  (if count == 0
      then (do
        print "No matching processes found for query: '%s'\n" (text query ∷ [])
        log_warning "PROCESS" "Search failure: Name query '%s' matched 0 processes"
            (text query ∷ []))
      else log_info "PROCESS" "Matched processes: %d (Name search)" (nat count ∷ []))
  pure (pos count)

unfoldable pub process_mgr_search : Proc → Option (List Bytes) → Option Bytes → M ℤ
unfolding search_pid search_name strtol
process_mgr_search proc entries none = do
  log_error "PROCESS" "Search request failed: empty query" []
  pure minus_one
process_mgr_search proc entries (some []) = do
  log_error "PROCESS" "Search request failed: empty query" []
  pure minus_one
process_mgr_search proc entries (some (c ∷ cs)) = do
  log_info "PROCESS" "Search request: '%s'" (text (c ∷ cs) ∷ [])
  (if is_numeric (c ∷ cs)
      then search_pid proc (to_int (strtol (c ∷ cs)).0)
          (parse_proc_stat proc (to_int (strtol (c ∷ cs)).0))
      else search_name proc entries (c ∷ cs))
