-- ===== src/Modules/Kernel/Described.antt =====
-- modules/kernel/kernel_mgr.c: the lines of the kernel's log that are shown, by their text alone.
use Prim.Native.String.{String}
use nhan_linux_process.Prelude.{
  ℕ, ◌-◌, Bool, ◌||◌, List, [], ◌∷◌, map, if◌then◌else◌, length, drop, codes, Bytes, ◌≡◌, refl, ap,
  ap₂, ◌∙◌,
}
use nhan_linux_process.Libc.Strings.{to_lower, until_nul, contains}
use nhan_linux_process.Modules.Kernel.Log.{is_about_module, kept, keep_lines, shown}
use nhan_linux_process.Modules.Kernel.Recent.{about_lines, contains_keyword_lem, shown_last_20}

-- The text of a line, with its letters in lower case, has that word in it.
abbrev pub mentions : String → Bytes → Bool
mentions word line = contains (map to_lower (until_nul line)) (codes word)

-- The lines that mention the module, each as it is kept.
pub module_lines : List Bytes → List Bytes
module_lines [] = []
module_lines (l ∷ ls) =
    let rest = module_lines ls in
    if mentions "system_monitor" l || mentions "sysmgr" l then kept l ∷ rest else rest

is_about_module_lem :
    (l : Bytes) → is_about_module l ≡ mentions "system_monitor" l || mentions "sysmgr" l
unfolding is_about_module
is_about_module_lem l =
    ap₂ ◌||◌ (contains_keyword_lem (until_nul l) (codes "system_monitor"))
      (contains_keyword_lem (until_nul l) (codes "sysmgr"))

about_lines-module_lines : (ls : List Bytes) → about_lines ls ≡ module_lines ls
unfolding about_lines module_lines
about_lines-module_lines [] = refl
about_lines-module_lines (l ∷ ls) =
    ap₂ (λ (b : Bool) (rest : List Bytes). if b then kept l ∷ rest else rest)
      (is_about_module_lem l) (about_lines-module_lines ls)

-- Whatever the array of 20 lines holds before, what is shown of it once the lines of the kernel's
-- log have gone through it is the last 20 of those lines whose text, with letters in lower case,
-- has system_monitor or sysmgr in it, in their order, each up to its newline and cut to 511 bytes.
pub shown_lem :
    (slots : ℕ → Bytes) (lines : List Bytes)
    → shown (keep_lines (record { slots = slots; count = 0 }) lines)
      ≡ drop (length (module_lines lines) - 20) (module_lines lines)
shown_lem slots lines =
    shown_last_20 slots lines ∙ ap (λ ls. drop (length ls - 20) ls) (about_lines-module_lines lines)
