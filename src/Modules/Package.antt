-- ===== src/Modules/Package.antt =====
-- modules/package/package_mgr.c: the operations, each of which hands its work to shell/program.sh,
-- and the test for an installed package.
pub mod Laws
pub mod Menu
pub mod Named
use nhan_linux_process.Prelude.{
  ℕ, Bool, true, false, Option, none, some, List, [], ◌∷◌, if◌then◌else◌, codes, Bytes, ℤ, pos,
  minus_one, str_eq, ◌==◌,
}
use nhan_linux_process.Libc.Strings.{is_empty}
use nhan_linux_process.System.World.{
  World, M, pure, ◌>>=◌, ◌>>◌, text, nat, log_info, log_error, print, fork_failed, wait_failed,
  signalled, exited,
}
use nhan_linux_process.System.Script.{run_script_as, fork_exec, exit_status, succeeded}

abbrev pub run_script : List Bytes → M (ℤ × ℕ)
run_script argv = run_script_as "PACKAGE" "shell/program.sh" argv

abbrev pub command : Bytes → List Bytes → List Bytes
command verb args = codes "shell/program.sh" ∷ verb ∷ args

unfoldable pub package_mgr_search : Option Bytes → M ℤ
package_mgr_search none = pure minus_one
package_mgr_search (some query) = if is_empty query then pure minus_one else do
  log_info "PACKAGE" "Package search" []
  r ← run_script (command (codes "search") (query ∷ []))
  if succeeded r then pure (pos 0) else do
    log_error "PACKAGE" "Search failed: shell script returned status %d" (nat r.1 ∷ [])
    pure minus_one

unfoldable pub package_mgr_info : Option Bytes → M ℤ
package_mgr_info none = pure minus_one
package_mgr_info (some pkg_name) = if is_empty pkg_name then pure minus_one else do
  log_info "PACKAGE" "Package information" []
  r ← run_script (command (codes "info") (pkg_name ∷ []))
  if succeeded r then pure (pos 0) else do
    log_error "PACKAGE" "Info query failed: shell script returned status %d" (nat r.1 ∷ [])
    pure minus_one

unfoldable pub package_mgr_install : Option Bytes → M ℤ
package_mgr_install none = pure minus_one
package_mgr_install (some pkg_name) = if is_empty pkg_name then pure minus_one else do
  log_info "PACKAGE" "Package install requested" []
  r ← run_script (command (codes "install") (pkg_name ∷ []))
  if succeeded r then pure (pos 0) else do
    log_error "PACKAGE" "Install failed: shell script returned status %d" (nat r.1 ∷ [])
    pure minus_one

unfoldable pub package_mgr_remove : Option Bytes → M ℤ
package_mgr_remove none = pure minus_one
package_mgr_remove (some pkg_name) = if is_empty pkg_name then pure minus_one else do
  log_info "PACKAGE" "Package removal requested" []
  r ← run_script (command (codes "remove") (pkg_name ∷ []))
  if succeeded r then pure (pos 0) else do
    log_error "PACKAGE" "Removal failed: shell script returned status %d" (nat r.1 ∷ [])
    pure minus_one

unfoldable pub package_mgr_demo : M ℤ
package_mgr_demo = do
  log_info "PACKAGE" "Safe demonstration started" []
  r ← run_script (command (codes "demo") [])
  if succeeded r then pure (pos 0) else do
    log_error "PACKAGE" "Safe demonstration failed with status %d" (nat r.1 ∷ [])
    print "\nSafe Demonstration failed.\n" []
    pure minus_one

unfoldable pub package_mgr_setup : M ℤ
package_mgr_setup = do
  log_info "PACKAGE" "System setup started" []
  r ← run_script (command (codes "setup") [])
  if succeeded r
      then (do
        log_info "PACKAGE" "System setup completed successfully" []
        print "\nSystem setup completed successfully.\n" []
        pure (pos 0))
      else do
        log_error "PACKAGE" "System setup failed with status %d" (nat r.1 ∷ [])
        print "\nSystem setup failed.\n" []
        pure minus_one

-- The two calls of access are given as their answers.
unfoldable pub package_mgr_detect : Bool → Bool → Option Bytes
package_mgr_detect has_dpkg has_rpm =
    if has_dpkg then some (codes "dpkg") else if has_rpm then some (codes "rpm") else none

-- The query that the child runs for the package manager found.
abbrev pub query_of : Bytes → Bytes → List Bytes
query_of pm pkg_name =
    if str_eq pm (codes "dpkg")
    then codes "dpkg-query" ∷ codes "-W" ∷ codes "-f=${Status}" ∷ pkg_name ∷ []
    else codes "rpm" ∷ codes "-q" ∷ pkg_name ∷ []

-- WIFEXITED(status) && WEXITSTATUS(status) == 0; a failed wait is not noticed.
abbrev pub exited_ok : Option ℕ → Bool
exited_ok none = false
exited_ok (some n) = exit_status n == 0

unfoldable pub is_package_installed : Bool → Bool → Option Bytes → M Bool
unfolding package_mgr_detect fork_exec
is_package_installed has_dpkg has_rpm none = pure false
is_package_installed has_dpkg has_rpm (some pkg_name) =
    if is_empty pkg_name then pure false else elim (package_mgr_detect has_dpkg has_rpm) [
      | none ↦ pure false
      | some pm ↦ do
        o ←
            fork_exec (if str_eq pm (codes "dpkg") then "dpkg-query" else "rpm")
              (query_of pm pkg_name)
        elim o [
          | fork_failed ↦ pure false
          | signalled ↦ pure false
          | wait_failed status ↦ pure (exited_ok status)
          | exited n ↦ pure (exited_ok (some n))
        ]
    ]
