-- ===== src/Modules/Package/Laws.antt =====
-- modules/package/package_mgr.c: the operations by their calls of shell/program.sh, and the
-- test for an installed package.
use Prim.Native.String.{String}
use nhan_linux_process.Prelude.{
  ◌&&◌, ◌||◌, Bool, true, false, not, some, List, [], ◌∷◌, codes, Bytes, ℤ, pos, ◌≡◌, arith,
  if◌then◌else◌,
}
use nhan_linux_process.Libc.Strings.{is_empty}
use nhan_linux_process.System.Call.{PackageOp, info, install, remove, demo, setup}
use nhan_linux_process.System.World.{World, M, log_info}
use nhan_linux_process.System.Script.{
  programs, RunsOnce, Refused, ends_run, next_child_ok, is_waited,
}
use nhan_linux_process.Modules.Package.{
  package_mgr_search, package_mgr_info, package_mgr_install, package_mgr_remove, package_mgr_demo,
  package_mgr_setup, query_of, is_package_installed,
}

abbrev pub arguments : PackageOp → List Bytes
arguments (PackageOp.search q) = codes "search" ∷ q ∷ []
arguments (info p) = codes "info" ∷ p ∷ []
arguments (install p) = codes "install" ∷ p ∷ []
arguments (remove p) = codes "remove" ∷ p ∷ []
arguments demo = codes "demo" ∷ []
arguments setup = codes "setup" ∷ []

-- An operation called with a pointer to a text, as every caller does.
unfoldable pub package_run : PackageOp → M ℤ
unfolding package_mgr_search package_mgr_info package_mgr_install package_mgr_remove
    package_mgr_demo package_mgr_setup
package_run (PackageOp.search q) = package_mgr_search (some q)
package_run (info p) = package_mgr_info (some p)
package_run (install p) = package_mgr_install (some p)
package_run (remove p) = package_mgr_remove (some p)
package_run demo = package_mgr_demo
package_run setup = package_mgr_setup

abbrev pub accepts : PackageOp → Bool
accepts (PackageOp.search q) = not (is_empty q)
accepts (info p) = not (is_empty p)
accepts (install p) = not (is_empty p)
accepts (remove p) = not (is_empty p)
accepts _ = true

-- The log line with which an operation begins.
abbrev announced : PackageOp → String
announced (PackageOp.search q) = "Package search"
announced (info p) = "Package information"
announced (install p) = "Package install requested"
announced (remove p) = "Package removal requested"
announced demo = "Safe demonstration started"
announced setup = "System setup started"

abbrev argv_of : PackageOp → List Bytes
argv_of op = codes "shell/program.sh" ∷ arguments op

-- Every operation of the package module on a name that is not empty, and the two without a name: it
-- forks once, starts shell/program.sh (unless the fork fails) with the name of the operation and
-- its argument, and no other program, returns 0 exactly when the child ends with status 0 and -1
-- otherwise, and reads no input.
pub package_run-RunsOnce :
    (op : PackageOp) (w : World)
    → accepts op ≡ true
    → RunsOnce "shell/program.sh"
        (codes "shell/program.sh" ∷ arguments op)
        (pos 0)
        w
        (package_run op w)
unfolding package_run
package_run-RunsOnce demo w h = ground (
  arith,
  ends_run "PACKAGE" "shell/program.sh" (argv_of demo) (log_info "PACKAGE" (announced demo) [] w).1,
)
package_run-RunsOnce op w h = ground (
  arith,
  ends_run "PACKAGE" "shell/program.sh" (argv_of op) (log_info "PACKAGE" (announced op) [] w).1,
)

-- A search, an information, an installation and a removal of an empty name return -1, fork nothing
-- and read no input.
pub package_run-Refused :
    (op : PackageOp) (w : World) → accepts op ≡ false → Refused w (package_run op w)
unfolding package_run
package_run-Refused demo w h = ground arith
package_run-Refused op w h = ground arith

-- For a name that is not empty, if the child would be waited for: a package counts as installed
-- exactly when dpkg or rpm is there and the query ends with status 0; the query is run with
-- dpkg-query if dpkg is there, else with rpm if that is, and else nothing is run.
pub is_package_installed_lem :
    (has_dpkg has_rpm : Bool) (p : Bytes) (w : World)
    → is_empty p ≡ false
    → is_waited (w.children w.forks) ≡ true
    → let r = is_package_installed has_dpkg has_rpm (some p) w in
      (r.0 ≡ (has_dpkg || has_rpm) && next_child_ok w)
      × (programs r.1.trace ≡ (
          if has_dpkg
          then ("dpkg-query", query_of (codes "dpkg") p) ∷ programs w.trace
          else if has_rpm
          then ("rpm", query_of (codes "rpm") p) ∷ programs w.trace
          else programs w.trace))
unfolding is_package_installed
is_package_installed_lem has_dpkg has_rpm p w h c = ground arith
