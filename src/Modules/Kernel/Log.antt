-- ===== src/Modules/Kernel/Log.antt =====
-- modules/kernel/kernel_mgr.c: the lines of dmesg that are about the module, and the last 20.
use Prim.Native.String.{String}
use nhan_linux_process.Prelude.{
  ℕ, zero, suc, ◌+◌, ◌-◌, ◌%◌, Bool, true, false, not, ◌&&◌, ◌||◌, List, [], ◌∷◌, if◌then◌else◌,
  ◌==◌, ltb, length, codes, Bytes, ℤ, pos, negsuc, minus_one, int_eq,
}
use nhan_linux_process.Libc.Strings.{to_lower, until_nul, chomp, copy_to}
use nhan_linux_process.Libc.Stdio.{lines_by}
use nhan_linux_process.System.World.{
  M, pure, skip, ◌>>=◌, ◌>>◌, text, errno_text, log_info, log_error, print, fork_failed,
  wait_failed, signalled, exited,
}
use nhan_linux_process.System.Script.{fork_exec, exit_status}
use nhan_linux_process.Modules.File.Read.{piped}

-- The inner loop, from one position of the text: `j == kw_len` at its end.
unfoldable pub matches_at : Bytes → Bytes → Bool
matches_at s [] = true
matches_at [] (k ∷ ks) = false
matches_at (c ∷ cs) (k ∷ ks) = to_lower c == to_lower k && matches_at cs ks

-- The outer loop, with the number of positions that are left.
unfoldable pub matches_from : ℕ → Bytes → Bytes → Bool
unfolding matches_at
matches_from zero s keyword = false
matches_from (suc n) [] keyword = matches_at [] keyword
matches_from (suc n) (c ∷ cs) keyword =
    let rest = matches_from n cs keyword in if matches_at (c ∷ cs) keyword then true else rest

unfoldable pub contains_keyword : Bytes → Bytes → Bool
unfolding matches_from
contains_keyword s keyword =
    if ltb (length s) (length keyword)
    then false
    else matches_from (length s - length keyword + 1) s keyword

-- `log_lines` as a function of the index, and `log_line_count`.
pub record Recent : Type 0 where
  pub slots : ℕ → Bytes
  pub count : ℕ

abbrev pub max_log_lines : ℕ
max_log_lines = 20

abbrev pub update : (ℕ → Bytes) → ℕ → Bytes → ℕ → Bytes
update slots i v j = if j == i then v else slots j

unfoldable pub is_denial : Bytes → Bool
unfolding contains_keyword until_nul
is_denial line =
    contains_keyword (until_nul line) (codes "permission denied")
    || contains_keyword (until_nul line) (codes "not permitted")

unfoldable pub is_about_module : Bytes → Bool
unfolding contains_keyword until_nul
is_about_module line =
    contains_keyword (until_nul line) (codes "system_monitor")
    || contains_keyword (until_nul line) (codes "sysmgr")

-- What is kept of a line: its text up to the newline, cut to fit the buffer of 512 bytes.
abbrev pub kept : Bytes → Bytes
kept line = copy_to 512 (chomp line)

unfoldable pub keep_line : Recent → Bytes → Recent
unfolding is_about_module chomp
keep_line r line =
    if is_about_module line
    then record r {
      slots = update r.slots (r.count % max_log_lines) (kept line);
      count = r.count + 1;
    }
    else r

-- The loop over the output, without the flag
unfoldable pub keep_lines : Recent → List Bytes → Recent
keep_lines r [] = r
keep_lines r (l ∷ ls) = keep_lines (keep_line r l) ls

-- `has_permission_error` at the end of the loop
unfoldable pub any_denial : List Bytes → Bool
unfolding is_denial
any_denial [] = false
any_denial (l ∷ ls) = let rest = any_denial ls in if is_denial l then true else rest

-- What a call leaves: its result, `exit_code`, and the lines.
pub record Dmesg : Type 0 where
  pub result : ℤ
  pub exit_code : ℕ
  pub recent : Recent

-- The lines that fgets reads into 1024 bytes.
abbrev pub output_lines : List Bytes → List Bytes
output_lines output = lines_by 1023 (piped output)

-- The count starts again at 0, the slots keep what they hold.
abbrev pub collect : Dmesg → List Bytes → Recent
collect d lines = keep_lines (record { slots = d.recent.slots; count = 0 }) lines

abbrev pub ended_by : Dmesg → List Bytes → ℕ → Dmesg
ended_by d lines code = record {
  result = if code == 0 && not (any_denial lines) then pos 0 else negsuc 1;
  exit_code = code;
  recent = collect d lines;
}

abbrev pub dmesg_program : Bool → String
dmesg_program use_sudo = if use_sudo then "sudo" else "dmesg"

abbrev pub dmesg_argv : Bool → List Bytes
dmesg_argv use_sudo = if use_sudo then codes "sudo" ∷ codes "dmesg" ∷ [] else codes "dmesg" ∷ []

-- `has_stream` is whether fdopen gives a stream.
unfoldable pub run_dmesg_filtered : Bool → Bool → Dmesg → M Dmesg
unfolding fork_exec keep_line keep_lines any_denial lines_by
run_dmesg_filtered has_stream use_sudo d w =
    if w.pipe_fails w.forks
    then (do
      log_error "KERNEL" "pipe creation failed: %s" (errno_text ∷ [])
      pure (record d { result = minus_one }))
        w
    else (do
      o ← fork_exec (dmesg_program use_sudo) (dmesg_argv use_sudo)
      let lines = output_lines (w.outputs w.forks)
      elim o [
        | fork_failed ↦ do
          log_error "KERNEL" "fork failed: %s" (errno_text ∷ [])
          pure (record d { result = minus_one })
        | wait_failed _ ↦ pure (
            if has_stream
            then record d { result = minus_one; recent = collect d lines }
            else record d { result = minus_one })
        | signalled ↦ pure (
            if has_stream
            then record d { result = minus_one; recent = collect d lines }
            else record d { result = minus_one })
        | exited n ↦ pure (
            if has_stream
            then ended_by d lines (exit_status n)
            else record d { result = minus_one })
      ])
        w

-- The lines from index `start` on, going round.
unfoldable pub shown_from : (ℕ → Bytes) → ℕ → ℕ → List Bytes
shown_from slots start zero = []
shown_from slots start (suc n) = slots (start % max_log_lines) ∷ shown_from slots (start + 1) n

unfoldable pub shown : Recent → List Bytes
shown r =
    if ltb max_log_lines r.count
    then shown_from r.slots (r.count % max_log_lines) max_log_lines
    else shown_from r.slots 0 r.count

unfoldable pub print_lines : List Bytes → M (Unit {0})
print_lines [] = skip
print_lines (l ∷ ls) = do print "%s\n" (text l ∷ []); print_lines ls

-- What is shown of a successful call.
unfoldable pub show_recent : Recent → M (Unit {0})
unfolding shown shown_from print_lines
show_recent r = do
  log_info "KERNEL" "Kernel log viewed" []
  print "\n========================================\n" []
  print "Kernel Log (Last 20 Lines)\n" []
  print "----------------------------------------\n" []
  (if r.count == 0
      then print "No logs found matching 'system_monitor' or 'sysmgr'.\n" []
      else print_lines (shown r))
  print "========================================\n" []

-- The second call, with sudo, if the first was refused
unfoldable pub dmesg_again : Bool → Dmesg → M Dmesg
unfolding run_dmesg_filtered
dmesg_again has_stream d =
    if int_eq d.result (negsuc 1) || not (d.exit_code == 0)
    then (do
      print "dmesg permission denied. Attempting sudo dmesg...\n" []
      run_dmesg_filtered has_stream true d)
    else pure d

-- `garbage` is what the array holds before the first call.
unfoldable pub kernel_mgr_show_log : Bool → (ℕ → Bytes) → M ℤ
unfolding run_dmesg_filtered dmesg_again show_recent
kernel_mgr_show_log has_stream garbage = do
  d ←
      run_dmesg_filtered has_stream false
        (record { result = pos 0; exit_code = 0; recent = record { slots = garbage; count = 0 } })
  e ← dmesg_again has_stream d
  if not (int_eq e.result (pos 0)) || not (e.exit_code == 0)
      then (do
        log_error "KERNEL" "Permission denied" []
        print "Error: Permission denied. Cannot access dmesg logs.\n" []
        pure minus_one)
      else do show_recent e.recent; pure (pos 0)
