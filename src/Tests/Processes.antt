-- ===== src/Tests/Processes.antt =====
-- Runs of the process module.
use nhan_linux_process.Prelude.{
  to_int, List, none, some, [], ◌∷◌, if◌then◌else◌, codes, Bytes, pos, All, ◌≡◌, ◌≢◌, refl, arith,
}
use nhan_linux_process.Modules.Process.{Proc, parse_proc_stat}
use nhan_linux_process.Modules.Process.Laws.{stat_line, info_of, parse_proc_stat-stat_line}
use nhan_linux_process.Modules.Process.Control.{Control}
use nhan_linux_process.Libc.Numbers.{strtol}
use nhan_linux_process.Modules.Process.Search.{is_numeric, process_mgr_search}
use nhan_linux_process.Modules.Process.Found.{
  mentions, processes, count, found_one, process_mgr_search_lem,
}
use nhan_linux_process.Tests.{world}

-- A process whose name holds a parenthesis and a space.
abbrev fields : Bytes
fields = codes " 1 7 7 0 -1 4194560 12 0 0 0 3 4 0 0 20 0 1"

abbrev proc : Proc
proc = record {
  stat = λ _. some (stat_line (codes "7 ") (codes "a) (b") b'S' fields);
  status = λ _. some (codes "Name: a\nVmRSS:   12 kB\n");
  cmdline = λ _. none;
}

abbrev control : Control
control = record { kill = λ _ _. none; getpriority = λ _. (pos 0, 0); setpriority = λ _ _. some 13 }

front_open : All (λ c. c ≢ b'(') (codes "7 ")
front_open = ground arith

fields_close : All (λ c. c ≢ b')') (b'S' ∷ fields)
fields_close = ground arith

parse_proc_stat-stat_line_example :
    parse_proc_stat proc (pos 7) ≡ some (info_of proc (pos 7) (codes "a) (b") b'S' fields)
parse_proc_stat-stat_line_example =
    parse_proc_stat-stat_line proc (pos 7) (codes "7 ") (codes "a) (b") fields b'S' refl front_open
      fields_close (omega arith)

reads_fields :
    parse_proc_stat proc (pos 7)
    ≡ some (record {
      pid = pos 7;
      ppid = pos 1;
      name = codes "a) (b";
      state = b'S';
      priority = pos 20;
      memory_size = 12288;
    })
unfolding parse_proc_stat
reads_fields = refl

abbrev entries : List Bytes
entries = codes "." ∷ codes "self" ∷ codes "7" ∷ codes "12" ∷ []

process_mgr_search_lem_example :
    (process_mgr_search proc (some entries) (some (b'A' ∷ codes ")")) (world [] [])).0 ≡ (
      if is_numeric (b'A' ∷ codes ")")
      then found_one (parse_proc_stat proc (to_int (strtol (b'A' ∷ codes ")")).0))
      else pos (count (mentions proc (b'A' ∷ codes ")")) (processes proc entries)))
process_mgr_search_lem_example = process_mgr_search_lem proc entries b'A' (codes ")") (world [] [])

finds_two : (process_mgr_search proc (some entries) (some (codes "A)")) (world [] [])).0 ≡ pos 2
unfolding process_mgr_search parse_proc_stat
finds_two = refl
