-- ===== src/Modules/Process.antt =====
-- modules/process/process_mgr.c: what is read of a process under /proc.
pub mod Menu
pub mod Laws
pub mod Control
pub mod Priority
pub mod Search
pub mod Found
use nhan_linux_process.Prelude.{
  ℕ, zero, suc, ◌+◌, ◌-◌, ◌*◌, ◌%◌, ◌^◌, ◌≤◌, Bool, true, false, not, ◌&&◌, Option, none, some,
  List, [], ◌∷◌, ◌++◌, if◌then◌else◌, ◌==◌, leb, length, take, drop, get_or, codes, Bytes, ℤ, pos,
  to_int,
}
use nhan_linux_process.Libc.Strings.{index_of, last_index_of, find_part, copy_to}
use nhan_linux_process.Libc.Numbers.{scan_long, scan_ulong}

-- What open and read give of the files of a process, `none` where one of them fails or nothing is
-- read. None of the texts of `stat` and `status` holds a NUL.
pub record Proc : Type 0 where
  pub stat : ℤ → Option Bytes
  pub status : ℤ → Option Bytes
  pub cmdline : ℤ → Option Bytes

-- `state` is the code of a character.
pub record ProcInfo : Type 0 where
  pub pid : ℤ
  pub ppid : ℤ
  pub name : Bytes
  pub state : ℕ
  pub priority : ℤ
  pub memory_size : ℕ

-- The fields that `%*d` and `%*u` skip
unfoldable pub skip_fields : ℕ → Bytes → Option Bytes
unfolding scan_long
skip_fields zero s = some s
skip_fields (suc n) s = elim (scan_long s) [ none ↦ none | some (v, rest) ↦ skip_fields n rest ]

-- `priority_val`, which stays 0 if the text ends before it
abbrev pub scan_priority : Bytes → ℤ
unfolding scan_long skip_fields
scan_priority s = elim (skip_fields 13 s) [
  | none ↦ pos 0
  | some rest ↦ elim (scan_long rest) [ none ↦ pos 0 | some (v, more) ↦ v ]
]

-- sscanf on the text behind the state: the parent and the priority, both 0 if not even the first is
-- a number.
unfoldable pub scan_fields : Bytes → ℤ × ℤ
unfolding scan_priority scan_long
scan_fields s = elim (scan_long s) [
  | none ↦ (pos 0, pos 0)
  | some (v, rest) ↦ (to_int v, scan_priority rest)
]

unfoldable pub parse_proc_status_memory : Proc → ℤ → ℕ
unfolding find_part scan_ulong
parse_proc_status_memory proc pid = elim (proc.status pid) [
  | none ↦ 0
  | some buf ↦ elim (find_part buf (codes "VmRSS:")) [
    | none ↦ 0
    | some p ↦ elim (scan_ulong (drop 6 p)) [ none ↦ 0 | some rss_val ↦ rss_val * 1024 % 2 ^ 64 ]
  ]
]

-- The text of `stat` taken apart, `p` the index of the last `)` and `start` that of the first `(`.
unfoldable pub parse_stat : Proc → ℤ → Bytes → ℕ → ℕ → Option ProcInfo
unfolding scan_fields parse_proc_status_memory
parse_stat proc pid buf p start =
    if leb p start
    then none
    else if get_or buf (p + 1) 0 == b' ' && not (get_or buf (p + 2) 0 == 0)
    then some (record {
      pid = pid;
      ppid = (scan_fields (drop (p + 3) buf)).0;
      name = copy_to 256 (take (p - (start + 1)) (drop (start + 1) buf));
      state = get_or buf (p + 2) 0;
      priority = (scan_fields (drop (p + 3) buf)).1;
      memory_size = parse_proc_status_memory proc pid;
    })
    else none

unfoldable pub parse_proc_stat : Proc → ℤ → Option ProcInfo
unfolding parse_stat index_of last_index_of
parse_proc_stat proc pid = elim (proc.stat pid) [
  | none ↦ none
  | some buf ↦ elim (last_index_of b')' buf) [
    | none ↦ none
    | some p ↦ elim (index_of b'(' buf) [
      | none ↦ none
      | some start ↦ parse_stat proc pid buf p start
    ]
  ]
]
