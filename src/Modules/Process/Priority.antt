-- ===== src/Modules/Process/Priority.antt =====
-- modules/process/process_mgr.c: changing priorities.
use Prim.Native.String.{String}
use nhan_linux_process.Prelude.{
  ℕ, zero, suc, ◌&&◌, ◌||◌, Bool, true, not, Option, none, some, List, [], ◌∷◌, if◌then◌else◌, ◌==◌,
  Bytes, ℤ, pos, negsuc, minus_one, at_least, int_eq, ◌≡◌, refl, arith, ◌++◌, inl, inr, Bool-cases,
}
use nhan_linux_process.System.World.{
  World, requested, M, pure, ◌>>◌, emit, text, int, nat, print, log_info, log_error,
}
use nhan_linux_process.Modules.Process.{Proc}
use nhan_linux_process.Modules.Process.Control.{
  Control, eperm, esrch, eacces, einval, is_positive, process_name, requests, worked,
}

abbrev report_priority : ℤ → Bytes → M (Unit {0}) → ℤ → M (Unit {0}) → M (Unit {0})
report_priority pid proc_name current nice_val result = do
  print "PID:              %d\n" (int pid ∷ [])
  print "Process Name:     %s\n" (text proc_name ∷ [])
  current
  print "New Nice:         %d\n" (int nice_val ∷ [])
  result

abbrev not_known : M (Unit {0})
not_known = print "Current Nice:     N/A\n" []

abbrev known : ℤ → M (Unit {0})
known current_nice = print "Current Nice:     %d\n" (int current_nice ∷ [])

unfoldable pub query_failed : ℤ → Bytes → ℤ → ℕ → M ℤ
query_failed pid proc_name nice_val errno =
    (if errno == esrch
      then (do
        log_error "PROCESS" "Invalid PID: %d (not found)" (int pid ∷ [])
        report_priority pid proc_name not_known nice_val
            (print "Operation Result: Error: Process not found (ESRCH)\n" []))
      else if errno == eperm
      then (do
        log_error "PROCESS" "Permission denied for PID %d" (int pid ∷ [])
        report_priority pid proc_name not_known nice_val
            (print "Operation Result: Error: Permission denied (EPERM)\n" []))
      else do
        log_error "PROCESS" "Priority query failed for PID %d (errno %d)" (int pid ∷ nat errno ∷ [])
        report_priority pid proc_name not_known nice_val
            (print "Operation Result: Error: Priority query failed (errno %d)\n" (nat errno ∷ [])))
    >> pure minus_one

unfoldable pub change_failed : ℤ → Bytes → ℤ → ℤ → ℕ → M ℤ
change_failed pid proc_name current_nice nice_val errno =
    (if errno == eperm || errno == eacces
      then (do
        log_error "PROCESS" "Permission denied for PID %d" (int pid ∷ [])
        report_priority pid proc_name (known current_nice) nice_val
            (print "Operation Result: Error: Permission denied (EPERM/EACCES)\n" []))
      else if errno == einval
      then (do
        log_error "PROCESS" "Invalid nice value %d" (int nice_val ∷ [])
        report_priority pid proc_name (known current_nice) nice_val
            (print "Operation Result: Error: Invalid nice value (EINVAL)\n" []))
      else if errno == esrch
      then (do
        log_error "PROCESS" "Invalid PID: %d (not found)" (int pid ∷ [])
        report_priority pid proc_name (known current_nice) nice_val
            (print "Operation Result: Error: Process not found (ESRCH)\n" []))
      else do
        log_error "PROCESS" "Priority change failed for PID %d (errno %d)"
            (int pid ∷ nat errno ∷ [])
        report_priority pid proc_name (known current_nice) nice_val
            (print "Operation Result: Error: Priority change failed (errno %d)\n" (nat errno ∷ [])))
    >> pure minus_one

unfoldable pub priority_set : ℤ → Bytes → ℤ → ℤ → Option ℕ → M ℤ
unfolding change_failed
priority_set pid proc_name current_nice nice_val (some errno) =
    change_failed pid proc_name current_nice nice_val errno
priority_set pid proc_name current_nice nice_val none = do
  log_info "PROCESS" "Priority changed: PID %d nice from %d to %d"
      (int pid ∷ int current_nice ∷ int nice_val ∷ [])
  report_priority pid proc_name (known current_nice) nice_val
      (print "Operation Result: Success\n" [])
  pure (pos 0)

-- `current_nice == -1 && errno != 0`
abbrev pub query_fails : ℤ × ℕ → Bool
query_fails (value, errno) = int_eq value minus_one && not (errno == 0)

unfoldable pub process_mgr_set_priority : Proc → Control → ℤ → ℤ → M ℤ
process_mgr_set_priority proc control pid nice_val =
    if is_positive pid
    then (do
      emit (requested "getpriority" (pid ∷ []))
      (if query_fails (control.getpriority pid)
          then query_failed pid (process_name proc pid) nice_val (control.getpriority pid).1
          else do
            emit (requested "setpriority" (pid ∷ nice_val ∷ []))
            priority_set pid (process_name proc pid) (control.getpriority pid).0 nice_val
                (control.setpriority pid nice_val)))
    else do
      log_error "PROCESS" "Invalid PID: %d" (int pid ∷ [])
      report_priority pid (process_name proc pid) not_known nice_val
          (print "Operation Result: Error: Invalid PID (Negative/Zero)\n" [])
      pure minus_one

query_failed_lem :
    (pid : ℤ) (proc_name : Bytes) (nice_val : ℤ) (errno : ℕ) (w : World)
    → let r = query_failed pid proc_name nice_val errno w in
      (r.0 ≡ minus_one) × (requests r.1.trace ≡ requests w.trace)
unfolding query_failed requests
query_failed_lem pid proc_name nice_val errno w = ground arith

priority_set_lem :
    (pid : ℤ) (proc_name : Bytes) (current nice_val : ℤ) (o : Option ℕ) (w : World)
    → let r = priority_set pid proc_name current nice_val o w in
      (r.0 ≡ (if worked o then pos 0 else minus_one)) × (requests r.1.trace ≡ requests w.trace)
unfolding priority_set change_failed requests
priority_set_lem pid proc_name current nice_val none w = (refl, refl)
priority_set_lem pid proc_name current nice_val (some errno) w = ground arith

-- What set_priority asks of the system.
abbrev pub priority_requests : Control → ℤ → ℤ → List (String × List ℤ)
priority_requests control pid nice_val =
    if at_least 1 pid
    then (if query_fails (control.getpriority pid)
        then ("getpriority", pid ∷ []) ∷ []
        else ("setpriority", pid ∷ nice_val ∷ []) ∷ ("getpriority", pid ∷ []) ∷ [])
    else []

-- Changing a priority asks for the present one of a positive pid and, if that does not fail, sets
-- the new one; it makes no other of these system calls, none at all for a pid of zero or below, and
-- returns 0 exactly when both work.
pub process_mgr_set_priority_lem :
    (proc : Proc) (control : Control) (pid nice_val : ℤ) (w : World)
    → let r = process_mgr_set_priority proc control pid nice_val w in
      (r.0 ≡ (
        if at_least 1 pid
          && not (query_fails (control.getpriority pid))
          && worked (control.setpriority pid nice_val)
        then pos 0
        else minus_one))
      × (requests r.1.trace ≡ priority_requests control pid nice_val ++ requests w.trace)
unfolding process_mgr_set_priority requests
process_mgr_set_priority_lem proc control (pos zero) nice_val w = (refl, refl)
process_mgr_set_priority_lem proc control (negsuc n) nice_val w = (refl, refl)
process_mgr_set_priority_lem proc control (pos (suc n)) nice_val w =
    let positive : at_least 1 (pos (suc n)) ≡ true = ground arith in
    let pid : ℤ = pos (suc n) in
    let u : World = (emit (requested "getpriority" (pid ∷ [])) w).1 in
    elim (Bool-cases (query_fails (control.getpriority pid))) [
      | inl fails ↦
          rw (process_mgr_set_priority, positive, fails)
            (query_failed_lem pid (process_name proc pid) nice_val (control.getpriority pid).1 u)
      | inr asks ↦
          rw (process_mgr_set_priority, positive, asks)
            (priority_set_lem pid (process_name proc pid) (control.getpriority pid).0 nice_val
              (control.setpriority pid nice_val)
              (emit (requested "setpriority" (pid ∷ nice_val ∷ [])) u).1)
    ]
