-- ===== src/Modules/Process/Control.antt =====
-- modules/process/process_mgr.c: sending signals.
use Prim.Native.String.{String}
use nhan_linux_process.Prelude.{
  ℕ, zero, suc, ◌&&◌, Bool, true, false, Option, none, some, List, [], ◌∷◌, if◌then◌else◌, ◌==◌,
  codes, Bytes, ℤ, pos, negsuc, minus_one, at_least, int_eq, ◌≡◌, refl, arith,
}
use nhan_linux_process.Libc.Strings.{copy_to}
use nhan_linux_process.System.World.{
  World, Event, logged, printed, spawned, called, requested, M, pure, ◌>>◌, emit, text, int, nat,
  print, log_info, log_error, entered, gone,
}
use nhan_linux_process.Modules.Process.{Proc, ProcInfo, parse_proc_stat}

-- The answers of the system calls: the errno of one that fails, and of getpriority its value with
-- the errno that was 0 before it.
pub record Control : Type 0 where
  pub kill : ℤ → ℤ → Option ℕ
  pub getpriority : ℤ → ℤ × ℕ
  pub setpriority : ℤ → ℤ → Option ℕ

abbrev pub eperm : ℕ
eperm = 1

abbrev pub esrch : ℕ
esrch = 3

abbrev pub eacces : ℕ
eacces = 13

abbrev pub einval : ℕ
einval = 22

abbrev pub is_positive : ℤ → Bool
is_positive pid = at_least 1 pid

-- SIGTERM, SIGKILL, SIGSTOP and SIGCONT by their numbers
abbrev pub get_signal_name : ℤ → Bytes
get_signal_name sig =
    if int_eq sig (pos 15)
    then codes "SIGTERM"
    else if int_eq sig (pos 9)
    then codes "SIGKILL"
    else if int_eq sig (pos 19)
    then codes "SIGSTOP"
    else if int_eq sig (pos 18)
    then codes "SIGCONT"
    else codes "UNKNOWN"

-- `proc_name`
abbrev found_name : Option ProcInfo → Bytes
found_name none = codes "N/A"
found_name (some info) = copy_to 256 info.name

unfoldable pub process_name : Proc → ℤ → Bytes
process_name proc pid =
    if is_positive pid then found_name (parse_proc_stat proc pid) else codes "N/A"

-- The four lines that are printed on every branch
abbrev report_signal : ℤ → Bytes → ℤ → M (Unit {0}) → M (Unit {0})
report_signal pid proc_name sig result = do
  print "PID:              %d\n" (int pid ∷ [])
  print "Process Name:     %s\n" (text proc_name ∷ [])
  print "Signal Sent:      %s (%d)\n" (text (get_signal_name sig) ∷ int sig ∷ [])
  result

unfoldable pub signal_failed : ℤ → Bytes → ℤ → ℕ → M ℤ
signal_failed pid proc_name sig errno =
    (if errno == esrch
      then (do
        log_error "PROCESS" "Invalid PID: %d (not found)" (int pid ∷ [])
        report_signal pid proc_name sig
            (print "Operation Result: Error: Process not found (ESRCH)\n" []))
      else if errno == eperm
      then (do
        log_error "PROCESS" "Permission denied for PID %d" (int pid ∷ [])
        report_signal pid proc_name sig
            (print "Operation Result: Error: Permission denied (EPERM)\n" []))
      else if errno == einval
      then (do
        log_error "PROCESS" "Invalid signal %d" (int sig ∷ [])
        report_signal pid proc_name sig
            (print "Operation Result: Error: Invalid signal (EINVAL)\n" []))
      else do
        log_error "PROCESS" "Signal failed for PID %d (errno %d)" (int pid ∷ nat errno ∷ [])
        report_signal pid proc_name sig
            (print "Operation Result: Error: Failed (errno %d)\n" (nat errno ∷ [])))
    >> pure minus_one

unfoldable pub signal_sent : ℤ → Bytes → ℤ → Option ℕ → M ℤ
unfolding signal_failed
signal_sent pid proc_name sig (some errno) = signal_failed pid proc_name sig errno
signal_sent pid proc_name sig none = do
  log_info "PROCESS" "Signal sent: %s (%d) to PID %d"
      (text (get_signal_name sig) ∷ int sig ∷ int pid ∷ [])
  report_signal pid proc_name sig (print "Operation Result: Success\n" [])
  pure (pos 0)

unfoldable pub process_mgr_send_signal : Proc → Control → ℤ → ℤ → M ℤ
process_mgr_send_signal proc control pid sig =
    if is_positive pid
    then (do
      emit (requested "kill" (pid ∷ sig ∷ []))
      signal_sent pid (process_name proc pid) sig (control.kill pid sig))
    else do
      log_error "PROCESS" "Invalid PID: %d" (int pid ∷ [])
      report_signal pid (process_name proc pid) sig
          (print "Operation Result: Error: Invalid PID (Negative/Zero)\n" [])
      pure minus_one

-- The system calls made, the last one in front
unfoldable pub requests : List Event → List (String × List ℤ)
requests [] = []
requests (requested name args ∷ es) = (name, args) ∷ requests es
requests (logged _ _ _ _ ∷ es) = requests es
requests (printed _ _ ∷ es) = requests es
requests (spawned _ _ ∷ es) = requests es
requests (entered _ ∷ es) = requests es
requests (gone _ ∷ es) = requests es
requests (called _ ∷ es) = requests es

abbrev pub worked : Option ℕ → Bool
worked none = true
worked (some errno) = false

signal_sent_lem :
    (pid : ℤ) (proc_name : Bytes) (sig : ℤ) (o : Option ℕ) (w : World)
    → let r = signal_sent pid proc_name sig o w in
      (r.0 ≡ (if worked o then pos 0 else minus_one)) × (requests r.1.trace ≡ requests w.trace)
unfolding signal_sent signal_failed requests
signal_sent_lem pid proc_name sig none w = (refl, refl)
signal_sent_lem pid proc_name sig (some errno) w = ground arith

-- Sending a signal makes exactly one call of kill, with the pid and the signal, if the pid is
-- positive, and no system call if it is zero or negative; it returns 0 if the pid is positive and
-- the call works, and -1 otherwise.
pub process_mgr_send_signal_lem :
    (proc : Proc) (control : Control) (pid sig : ℤ) (w : World)
    → let r = process_mgr_send_signal proc control pid sig w in
      (r.0 ≡ (if at_least 1 pid && worked (control.kill pid sig) then pos 0 else minus_one))
      × (requests r.1.trace ≡ (
          if at_least 1 pid then ("kill", pid ∷ sig ∷ []) ∷ requests w.trace else requests w.trace))
unfolding process_mgr_send_signal requests
process_mgr_send_signal_lem proc control (pos zero) sig w = (refl, refl)
process_mgr_send_signal_lem proc control (pos (suc n)) sig w =
    let positive : at_least 1 (pos (suc n)) ≡ true = ground arith in
    let pid : ℤ = pos (suc n) in
    rw (process_mgr_send_signal, positive)
      (signal_sent_lem pid (process_name proc pid) sig (control.kill pid sig)
        (emit (requested "kill" (pid ∷ sig ∷ [])) w).1)
process_mgr_send_signal_lem proc control (negsuc n) sig w = (refl, refl)
