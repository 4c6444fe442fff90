-- ===== src/Modules/Process/Found.antt =====
-- modules/process/process_mgr.c: what the list and the search count.
use nhan_linux_process.Prelude.{
  ℕ, ◌+◌, Bool, true, false, not, ◌&&◌, ◌||◌, map, take, Option, none, some, List, [], ◌∷◌,
  if◌then◌else◌, length, Bytes, ℤ, pos, to_int, ◌≡◌, refl, ap, ◌∙◌, arith, inl, inr, Bool-cases,
  Option-cases,
}
use nhan_linux_process.Libc.Strings.{is_empty, to_lower, contains}
use nhan_linux_process.Libc.Numbers.{strtol}
use nhan_linux_process.System.World.{World}
use nhan_linux_process.Modules.Process.{Proc, ProcInfo, parse_proc_stat}
use nhan_linux_process.Modules.Process.Search.{
  entry_info, print_row, print_rows, process_mgr_list, is_numeric, matches_query, search_pid,
  search_name, process_mgr_search, cmdline_text, get_proc_cmdline,
}

-- The processes that /proc shows.
unfoldable pub processes : Proc → List Bytes → List ProcInfo
processes proc [] = []
processes proc (d_name ∷ entries) =
    let rest = processes proc entries in
    elim (entry_info proc d_name) [ none ↦ rest | some info ↦ info ∷ rest ]

unfoldable pub count : (ProcInfo → Bool) → List ProcInfo → ℕ
count test [] = 0
count test (i ∷ infos) = let rest = count test infos in if test i then rest + 1 else rest

print_rows-count :
    (proc : Proc) (test : ProcInfo → Bool) (entries : List Bytes) (w : World)
    → (print_rows proc test entries w).0 ≡ count test (processes proc entries)
unfolding print_rows processes count
print_rows-count proc test [] w = refl
print_rows-count proc test (d ∷ entries) w = elim (Option-cases (entry_info proc d)) [
  | inl e ↦ rw (print_rows, processes, e) (print_rows-count proc test entries w)
  | inr s ↦ elim (Bool-cases (test s.0)) [
    | inl t ↦
        rw (print_rows, processes, s.1, count, t)
          (ap (λ n. n + 1) (print_rows-count proc test entries (print_row proc s.0 w).1))
    | inr t ↦ rw (print_rows, processes, s.1, count, t) (print_rows-count proc test entries w)
  ]
]

count-all : (infos : List ProcInfo) → count (λ _. true) infos ≡ length infos
unfolding count
count-all [] = refl
count-all (i ∷ infos) = omega (arith, count-all infos)

-- Where /proc can be opened, the list of processes returns the number of its entries that are
-- numbers and whose stat file can be read.
pub process_mgr_list_lem :
    (proc : Proc) (entries : List Bytes) (w : World)
    → (process_mgr_list proc (some entries) w).0 ≡ pos (length (processes proc entries))
unfolding process_mgr_list
process_mgr_list_lem proc entries w =
    ap pos (print_rows-count proc (λ _. true) entries _ ∙ count-all (processes proc entries))

-- 1 for a process that is there, and 0 for one that is not
abbrev pub found_one : Option ProcInfo → ℤ
found_one none = pos 0
found_one (some info) = pos 1

search_pid_lem :
    (proc : Proc) (target_pid : ℤ) (o : Option ProcInfo) (w : World)
    → (search_pid proc target_pid o w).0 ≡ found_one o
unfolding search_pid
search_pid_lem proc target_pid none w = refl
search_pid_lem proc target_pid (some info) w = refl

search_name_lem :
    (proc : Proc) (entries : List Bytes) (query : Bytes) (w : World)
    → (search_name proc (some entries) query w).0
      ≡ pos (count (matches_query proc query) (processes proc entries))
unfolding search_name
search_name_lem proc entries query w =
    ap pos (print_rows-count proc (matches_query proc query) entries _)

-- A text in which letters are in lower case
abbrev pub lowered : Bytes → Bytes
lowered = map to_lower

-- The command line of a process, cut to 255 bytes: without its last byte, a space for each NUL.
abbrev pub command_text : Proc → ℤ → Bytes
command_text proc pid = elim (proc.cmdline pid) [
  | none ↦ []
  | some buf ↦ take 255 (cmdline_text buf)
]

-- The name or the command line contains the text, upper and lower case alike.
abbrev pub mentions : Proc → Bytes → ProcInfo → Bool
mentions proc query i =
    contains (lowered i.name) (lowered query)
    || contains (lowered (command_text proc i.pid)) (lowered query)

not_in_empty : (c : ℕ) (cs : Bytes) → contains [] (c ∷ cs) ≡ false
not_in_empty c cs = refl

or_and :
    (p : Bool) (s query : Bytes)
    → contains [] (lowered query) ≡ false
    → (p || (not (is_empty s) && contains (lowered s) (lowered query)))
      ≡ (p || contains (lowered s) (lowered query))
or_and p [] query h = rw h refl
or_and p (c ∷ cs) query h = refl

matches-mentions :
    (proc : Proc) (c : ℕ) (cs : Bytes) (i : ProcInfo)
    → matches_query proc (c ∷ cs) i ≡ mentions proc (c ∷ cs) i
unfolding get_proc_cmdline
matches-mentions proc c cs i =
    or_and (contains (lowered i.name) (lowered (c ∷ cs))) (command_text proc i.pid) (c ∷ cs)
      (not_in_empty (to_lower c) (lowered cs))

count-same :
    (f g : ProcInfo → Bool) (infos : List ProcInfo)
    → ((i : ProcInfo) → f i ≡ g i)
    → count f infos ≡ count g infos
unfolding count
count-same f g [] e = refl
count-same f g (i ∷ infos) e = rw (e i, count-same f g infos e) refl

-- A search for a text that is not empty, where /proc can be opened: for a text of digits it returns
-- 1 if the stat file of that pid can be read, the number converted to int, and 0 if not; for any
-- other text it returns the number of the readable processes whose name or command line (with
-- spaces for its NULs, cut to 255 bytes) contains it, upper and lower case alike.
pub process_mgr_search_lem :
    (proc : Proc) (entries : List Bytes) (c : ℕ) (cs : Bytes) (w : World)
    → (process_mgr_search proc (some entries) (some (c ∷ cs)) w).0 ≡ (
        if is_numeric (c ∷ cs)
        then found_one (parse_proc_stat proc (to_int (strtol (c ∷ cs)).0))
        else pos (count (mentions proc (c ∷ cs)) (processes proc entries)))
unfolding process_mgr_search
process_mgr_search_lem proc entries c cs w = elim (Bool-cases (is_numeric (c ∷ cs))) [
  | inl e ↦ rw (process_mgr_search, e) (search_pid_lem proc _ _ _)
  | inr e ↦
      rw (process_mgr_search, e)
        (search_name_lem proc entries (c ∷ cs) _
          ∙ ap pos (
              count-same (matches_query proc (c ∷ cs)) (mentions proc (c ∷ cs))
                (processes proc entries) (matches-mentions proc c cs)))
]
