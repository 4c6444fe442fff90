-- ===== src/Modules/Linked.antt =====
-- modules/: the command line with the models of the file, package and shell modules behind it.
use nhan_linux_process.Prelude.{
  ◌≤◌, false, some, List, [], ◌∷◌, length, Bytes, ℤ, ◌≡◌, refl, arith, inl, inr, Bool-cases,
}
use nhan_linux_process.System.Call.{Call, FileOp, PackageOp, execute, file, package_op, shell}
use nhan_linux_process.System.World.{World}
use nhan_linux_process.System.Backend.{Backend, Reply}
use nhan_linux_process.Modules.File.Read.{file_mgr_read}
use nhan_linux_process.Modules.File.Laws.{
  file_run, file_run-RunsOnce, file_run-Refused, accepts as accepts_file, is_read, read_size,
}
use nhan_linux_process.Modules.Shell.{shell_mgr_execute}
use nhan_linux_process.Modules.Shell.Laws.{execute-Executes, execute-Refused}
use nhan_linux_process.Modules.Package.Laws.{
  package_run, package_run-RunsOnce, package_run-Refused, accepts as accepts_package,
}

file_run_typed : (op : FileOp) (w : World) → is_read op ≡ false → (file_run op w).1.typed ≡ w.typed
file_run_typed op w r = elim (Bool-cases (accepts_file w op)) [
  | inl a ↦ (file_run-RunsOnce op w r a).input_kept.0
  | inr a ↦ (file_run-Refused op w a).input_kept.0
]

package_run_typed : (op : PackageOp) (w : World) → (package_run op w).1.typed ≡ w.typed
package_run_typed op w = elim (Bool-cases (accepts_package op)) [
  | inl a ↦ (package_run-RunsOnce op w a).input_kept.0
  | inr a ↦ (package_run-Refused op w a).input_kept.0
]

read_typed :
    (path : Bytes) (w : World) → (file_mgr_read (some path) (some read_size) w).1.typed ≡ w.typed
unfolding file_mgr_read
read_typed path w = ground arith

execute_typed :
    (command : Bytes) (w : World) → (shell_mgr_execute (some command) w).1.typed ≡ w.typed
execute_typed [] w = (execute-Refused (some []) w (inr refl)).input_kept.0
execute_typed (c ∷ cs) w = (execute-Executes (c ∷ cs) w refl).input_kept.0

abbrev pub replied : ℤ × World → Reply × World
replied r = (record { value = r.0; contents = [] }, r.1)

-- A call of a file or a package operation.
abbrev pub perform_linked : Backend → Call → World → Reply × World
perform_linked others (file (FileOp.read path)) w =
    let r = file_mgr_read (some path) (some read_size) w in
    (record { value = r.0.0; contents = r.0.1 }, r.1)
perform_linked others (file op) w = replied (file_run op w)
perform_linked others (package_op op) w = replied (package_run op w)
perform_linked others (shell (execute command)) w = replied (shell_mgr_execute (some command) w)
perform_linked others c w = others.perform c w

same_length : {A : Type 0} {xs ys : List A} → xs ≡ ys → length xs ≤ length ys
same_length {A} {xs} {ys} e = rw e (omega arith)

pub perform_linked_typed :
    (others : Backend) (c : Call) (w : World)
    → length (perform_linked others c w).1.typed ≤ length w.typed
perform_linked_typed others (file (FileOp.read path)) w = same_length (read_typed path w)
perform_linked_typed others (file op) w = same_length (file_run_typed op w refl)
perform_linked_typed others (package_op op) w = same_length (package_run_typed op w)
perform_linked_typed others (shell (execute command)) w = same_length (execute_typed command w)
perform_linked_typed others c w = others.perform_typed c w

-- The modules of the program, where `others` stands for those that are not modelled.
abbrev pub linked : Backend → Backend
linked others = record {
  perform = perform_linked others;
  select = others.select;
  has_sysmgr = others.has_sysmgr;
  perform_typed = perform_linked_typed others;
  select_typed = others.select_typed;
}
