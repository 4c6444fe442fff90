-- ===== src/Modules/Package/Named.antt =====
-- modules/package/package_mgr.c: the choices of the menu that ask for a name.
use Prim.Native.String.{String}
use nhan_linux_process.Prelude.{
  ℕ, zero, suc, ◌+◌, ◌<◌, Bool, true, false, not, Option, none, some, List, [], ◌∷◌, ◌++◌,
  if◌then◌else◌, length, codes, Bytes, ℤ, pos, ◌≡◌, ◌≢◌, refl, ap, ◌∙◌, arith,
}
use nhan_linux_process.Libc.Strings.{is_empty}
use nhan_linux_process.Libc.Stdio.{fgets, OneLine, fgets-OneLine, chomp-OneLine}
use nhan_linux_process.System.Call.{PackageOp, search, info, install, remove}
use nhan_linux_process.System.World.{World, M, skip, ◌>>◌, print}
use nhan_linux_process.System.Script.{programs, started, RunsOnce}
use nhan_linux_process.Cli.Explain.{explain_in, explanations, print_all, print_prompt_explanation}
use nhan_linux_process.App.Menu.{after_newline, menu_pause}
use nhan_linux_process.Modules.Package.{
  package_mgr_search, package_mgr_info, package_mgr_install, package_mgr_remove,
}
use nhan_linux_process.Modules.Package.Laws.{package_run, arguments, package_run-RunsOnce}
use nhan_linux_process.Modules.Package.Menu.{on_name, ask_name, package_choice}

-- A transition that only prints.
record Shows (w u : World) : Type 0 where
  stdin_kept : u.stdin ≡ w.stdin
  forks_kept : u.forks ≡ w.forks
  children_kept : u.children ≡ w.children
  programs_kept : programs u.trace ≡ programs w.trace

print_all-Shows : (ts : List String) (w : World) → Shows w (print_all ts w).1
unfolding print_all
print_all-Shows [] w = record {
  stdin_kept = refl;
  forks_kept = refl;
  children_kept = refl;
  programs_kept = refl;
}
print_all-Shows (t ∷ ts) w =
    let r = print_all-Shows ts (print t [] w).1 in
    record {
      stdin_kept = r.stdin_kept;
      forks_kept = r.forks_kept;
      children_kept = r.children_kept;
      programs_kept = r.programs_kept;
    }

explanation-Shows : (prompt : Bytes) (w : World) → Shows w (print_prompt_explanation prompt w).1
unfolding print_prompt_explanation
explanation-Shows prompt w = go (explain_in explanations prompt)
  where
    go :
        (o : Option (List String))
        → Shows w (
            (λ (m : M (Unit {0})). (m w).1) (elim o [ none ↦ skip | some texts ↦ print_all texts ]))
    go none = record {
      stdin_kept = refl;
      forks_kept = refl;
      children_kept = refl;
      programs_kept = refl;
    }
    go (some texts) = print_all-Shows texts w

-- What a choice leaves: one run of the operation, and the input behind the pause.
pub record Asked (w : World) (op : PackageOp) (rest : Bytes) (u : World) : Type 0 where
  pub one_fork : u.forks ≡ w.forks + 1
  pub runs :
      programs u.trace ≡ started w "shell/program.sh" (codes "shell/program.sh" ∷ arguments op)
  pub left : u.stdin ≡ after_newline rest

on_line_name :
    (operation : Option Bytes → M ℤ) (name rest : Bytes) (w : World)
    → OneLine name
    → name ≢ []
    → (on_name operation (some (name ++ (b'\n' ∷ []), rest)) w).1
      ≡ (operation (some name) (record w { stdin = rest })).1
unfolding on_name
on_line_name operation [] rest w h ne = absurd (ne refl)
on_line_name operation (c ∷ name) rest w h ne = rw (chomp-OneLine (c ∷ name) h) refl

read_name :
    (operation : Option Bytes → M ℤ) (name rest : Bytes) (w : World)
    → OneLine name
    → name ≢ []
    → length name < 127
    → w.stdin ≡ name ++ (b'\n' ∷ rest)
    → (on_name operation (fgets 128 w.stdin) w).1
      ≡ (operation (some name) (record w { stdin = rest })).1
read_name operation name rest w h ne k e =
    ap (λ s. (on_name operation (fgets 128 s) w).1) e
    ∙ ap (λ o. (on_name operation o w).1) (fgets-OneLine 127 name rest h k)
    ∙ on_line_name operation name rest w h ne

named_lem :
    (operation : Option Bytes → M ℤ) (op : PackageOp) (name rest : Bytes) (w : World)
    → OneLine name
    → name ≢ []
    → length name < 127
    → w.stdin ≡ name ++ (b'\n' ∷ rest)
    → ((u : World)
        → RunsOnce "shell/program.sh"
            (codes "shell/program.sh" ∷ arguments op)
            (pos 0)
            u
            (operation (some name) u))
    → Asked w op rest (menu_pause (on_name operation (fgets 128 w.stdin) w).1).1
unfolding menu_pause
named_lem operation op name rest w h ne k e run =
    let r = run (record w { stdin = rest }) in
    rw (read_name operation name rest w h ne k e)
      (record { one_fork = r.one_fork; runs = r.runs; left = ap after_newline r.input_kept.1 })

asks-Shows :
    (explanation prompt : String) (b : Bool) (w : World)
    → Shows w
        ((do (if b then print_prompt_explanation (codes explanation) else skip); print prompt [])
          w).1
asks-Shows explanation prompt true w =
    let r = explanation-Shows (codes explanation) w in
    record {
      stdin_kept = r.stdin_kept;
      forks_kept = r.forks_kept;
      children_kept = r.children_kept;
      programs_kept = r.programs_kept;
    }
asks-Shows explanation prompt false w = record {
  stdin_kept = refl;
  forks_kept = refl;
  children_kept = refl;
  programs_kept = refl;
}

Asked-Shows :
    {w u v : World} {op : PackageOp} {rest : Bytes}
    → Shows w u
    → Asked u op rest v
    → Asked w op rest v
Asked-Shows {w} {u} {v} {op} {rest} s a = record {
  one_fork = a.one_fork ∙ ap (λ n. n + 1) s.forks_kept;
  runs = a.runs ∙ ground arith;
  left = a.left;
}

ask_name_lem :
    (explanation prompt : String) (operation : Option Bytes → M ℤ) (op : PackageOp)
    (name rest : Bytes) (w : World)
    → OneLine name
    → name ≢ []
    → length name < 127
    → w.stdin ≡ name ++ (b'\n' ∷ rest)
    → ((u : World)
        → RunsOnce "shell/program.sh"
            (codes "shell/program.sh" ∷ arguments op)
            (pos 0)
            u
            (operation (some name) u))
    → Asked w op rest (ask_name explanation prompt operation w).1
unfolding ask_name
ask_name_lem explanation prompt operation op name rest w h ne k e run =
    let s = asks-Shows explanation prompt w.is_interactive w in
    Asked-Shows s (named_lem operation op name rest _ h ne k (s.stdin_kept ∙ e) run)

-- The operation of a choice from 1 to 4
abbrev pub named_op : ℕ → Bytes → PackageOp
named_op zero name = search name
named_op (suc zero) name = info name
named_op (suc (suc zero)) name = install name
named_op (suc (suc (suc n))) name = remove name

accepted : (name : Bytes) → name ≢ [] → not (is_empty name) ≡ true
accepted [] ne = absurd (ne refl)
accepted (c ∷ name) ne = refl

-- The choices 1 to 4 of the menu of the package module, with a line on standard input that is the
-- name of a package of 1 to 126 bytes with no NUL, and its newline: the choice forks once, starts
-- shell/program.sh (unless the fork fails) with search, info, install or remove, in this order of
-- the choices, and the name, and no other program, and its pause consumes the input up to the next
-- newline.
pub package_choice_lem :
    (n : ℕ) (name rest : Bytes) (w : World)
    → n < 4
    → OneLine name
    → name ≢ []
    → length name < 127
    → w.stdin ≡ name ++ (b'\n' ∷ rest)
    → Asked w (named_op n name) rest (package_choice (pos (suc n)) w).1
unfolding package_choice package_run package_mgr_search package_mgr_info package_mgr_install
    package_mgr_remove
package_choice_lem zero name rest w b h ne k e =
    ask_name_lem _ _ package_mgr_search (search name) name rest w h ne k e
      (λ u. package_run-RunsOnce (search name) u (accepted name ne))
package_choice_lem (suc zero) name rest w b h ne k e =
    ask_name_lem _ _ package_mgr_info (info name) name rest w h ne k e
      (λ u. package_run-RunsOnce (info name) u (accepted name ne))
package_choice_lem (suc (suc zero)) name rest w b h ne k e =
    ask_name_lem _ _ package_mgr_install (install name) name rest w h ne k e
      (λ u. package_run-RunsOnce (install name) u (accepted name ne))
package_choice_lem (suc (suc (suc zero))) name rest w b h ne k e =
    ask_name_lem _ _ package_mgr_remove (remove name) name rest w h ne k e
      (λ u. package_run-RunsOnce (remove name) u (accepted name ne))
package_choice_lem (suc (suc (suc (suc n)))) name rest w b h ne k e = absurd (omega arith)
