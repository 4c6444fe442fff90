-- ===== src/Modules/Kernel/Status.antt =====
-- modules/kernel/kernel_mgr.c: the status of the module, and the version that its file shows.
use nhan_linux_process.Prelude.{
  ℕ, Bool, ◌||◌, Option, none, some, List, [], ◌∷◌, if◌then◌else◌, ◌==◌, drop, codes, Bytes, ℤ, pos,
}
use nhan_linux_process.Libc.Strings.{is_empty, has_prefix, until_nul, copy_to}
use nhan_linux_process.Libc.Stdio.{lines_by}
use nhan_linux_process.System.World.{M, pure, ◌>>=◌, ◌>>◌, text, log_info, print}
use nhan_linux_process.System.Files.{Files}
use nhan_linux_process.Modules.Kernel.{sees_module}

abbrev pub is_blank : ℕ → Bool
is_blank c = c == b' ' || c == 9

abbrev pub is_line_space : ℕ → Bool
is_line_space c = c == b'\n' || c == 13 || is_blank c

-- while (*val == ' ' || *val == '\t') val++;
unfoldable pub skip_blanks : Bytes → Bytes
skip_blanks [] = []
skip_blanks (c ∷ cs) = let rest = skip_blanks cs in if is_blank c then rest else c ∷ cs

-- The loop that cuts white space off the end
unfoldable pub trim_end : Bytes → Bytes
trim_end [] = []
trim_end (c ∷ cs) =
    let rest = trim_end cs in
    if is_empty rest then (if is_line_space c then [] else c ∷ []) else c ∷ rest

-- The version on a line that begins with `Version:`, as it fits into 64 bytes.
unfoldable pub version_on : Bytes → Bytes
unfolding skip_blanks trim_end until_nul
version_on line = copy_to 64 (trim_end (skip_blanks (drop 8 (until_nul line))))

-- The first line that begins with `Version:`
unfoldable pub version_in : List Bytes → Option Bytes
unfolding version_on
version_in [] = none
version_in (l ∷ ls) =
    let rest = version_in ls in
    if has_prefix l (codes "Version:") then some (version_on l) else rest

unfoldable pub module_version : Option Bytes → Bytes
unfolding version_in lines_by
module_version none = codes "1.0"
module_version (some s) = elim (version_in (lines_by 255 s)) [ none ↦ codes "1.0" | some v ↦ v ]

-- `release` is what uname gives, `none` where it fails.
unfoldable pub kernel_mgr_show_status : Files → Option Bytes → M ℤ
unfolding sees_module module_version
kernel_mgr_show_status fs release = do
  log_info "KERNEL" "Module status checked" []
  print "\n========================================\n" []
  print "Kernel Module Status\n" []
  print "----------------------------------------\n" []
  print "Module Name:    system_monitor\n" []
  loaded ← sees_module fs
  print "Loaded:         %s\n" (text (codes (if loaded then "YES" else "NO")) ∷ [])
  elim release [
    | some r ↦ print "Kernel Version: %s\n" (text r ∷ [])
    | none ↦ print "Kernel Version: Unknown\n" []
  ]
  version ← (λ w.
      ((if loaded then module_version (fs.content "/proc/sysmgr" w.forks) else codes "1.0"), w))
  print "Module Version: %s\n" (text version ∷ [])
  there ← (λ w. (fs.exists "/proc/sysmgr" w.forks, w))
  print "/proc/sysmgr:   %s\n" (text (codes (if there then "Available" else "Missing")) ∷ [])
  print "========================================\n" []
  pure (pos 0)
