-- ===== src/Modules/File/Laws.antt =====
-- modules/file/file_mgr.c: the operations by their calls of shell/file.sh.
use nhan_linux_process.Prelude.{
  ℕ, ◌+◌, Bool, true, false, not, some, List, [], ◌∷◌, codes, Bytes, ℤ, pos, to_int, ◌≡◌, take-ge,
  arith, length,
}
use nhan_linux_process.Libc.Strings.{is_empty}
use nhan_linux_process.System.Call.{
  FileOp, create, read, delete, get_info, list_dir, mkdir, write, rename, copy, move, chmod,
  archive,
}
use nhan_linux_process.System.World.{World, M, pure, ◌>>=◌}
use nhan_linux_process.System.Script.{RunsOnce, Refused, ends_run}
use nhan_linux_process.Modules.File.Read.{file_mgr_read}
use nhan_linux_process.Modules.File.{
  file_mgr_create, file_mgr_write, file_mgr_delete, file_mgr_rename, file_mgr_copy, file_mgr_move,
  file_mgr_get_info, file_mgr_list_dir, file_mgr_mkdir, file_mgr_chmod, file_mgr_search,
  file_mgr_archive,
}

-- What the script is called with.
abbrev pub arguments : FileOp → List Bytes
arguments (create p) = codes "create" ∷ p ∷ []
arguments (read p) = codes "read" ∷ p ∷ []
arguments (delete p) = codes "delete" ∷ p ∷ []
arguments (get_info p) = codes "info" ∷ p ∷ []
arguments (list_dir p) = codes "list" ∷ p ∷ []
arguments (mkdir p) = codes "mkdir" ∷ p ∷ []
arguments (write p t) = codes "write" ∷ p ∷ t ∷ []
arguments (rename p q) = codes "rename" ∷ p ∷ q ∷ []
arguments (copy p q) = codes "copy" ∷ p ∷ q ∷ []
arguments (move p q) = codes "move" ∷ p ∷ q ∷ []
arguments (chmod p m) = codes "chmod" ∷ p ∷ m ∷ []
arguments (FileOp.search d t) = codes "search" ∷ d ∷ t ∷ []
arguments (archive p d) = codes "archive" ∷ p ∷ d ∷ []

-- The dispatcher of the command line reads into 1023 bytes of its buffer.
abbrev pub read_size : ℕ
read_size = 1023

-- An operation called with pointers to texts, as every caller does, the text to write with its
-- length. Of a read this keeps the result.
unfoldable pub file_run : FileOp → M ℤ
unfolding file_mgr_create file_mgr_write file_mgr_delete file_mgr_rename file_mgr_copy file_mgr_move
    file_mgr_get_info file_mgr_list_dir file_mgr_mkdir file_mgr_chmod file_mgr_search
    file_mgr_archive
file_run (create p) = file_mgr_create (some p)
file_run (read p) = do r ← file_mgr_read (some p) (some read_size); pure r.0
file_run (delete p) = file_mgr_delete (some p)
file_run (get_info p) = file_mgr_get_info (some p)
file_run (list_dir p) = file_mgr_list_dir (some p)
file_run (mkdir p) = file_mgr_mkdir (some p)
file_run (write p t) = file_mgr_write (some p) (some t) (length t)
file_run (rename p q) = file_mgr_rename (some p) (some q)
file_run (copy p q) = file_mgr_copy (some p) (some q)
file_run (move p q) = file_mgr_move (some p) (some q)
file_run (chmod p m) = file_mgr_chmod (some p) (some m)
file_run (FileOp.search d t) = file_mgr_search (some d) (some t)
file_run (archive p d) = file_mgr_archive (some p) (some d)

-- Only a creation and a deletion look at the path; a write needs memory for a copy of the text.
abbrev pub accepts : World → FileOp → Bool
accepts w (create p) = not (is_empty p)
accepts w (delete p) = not (is_empty p)
accepts w (write p t) = w.memory (length t + 1)
accepts w _ = true

abbrev pub value_of : FileOp → ℤ
value_of (write p t) = to_int (pos (length t))
value_of _ = pos 0

abbrev pub is_read : FileOp → Bool
is_read (read p) = true
is_read _ = false

abbrev argv_of : FileOp → List Bytes
argv_of op = codes "shell/file.sh" ∷ arguments op

-- Every operation of the file module other than a read, called with texts, a creation or a deletion
-- with a path that is not empty, a write where malloc gives the copy of the text: it forks once,
-- starts shell/file.sh (unless the fork fails) with the name of the operation and its arguments in
-- order, and no other program, returns its value exactly when the child ends with status 0 and -1
-- otherwise, and reads no input.
pub file_run-RunsOnce :
    (op : FileOp) (w : World)
    → is_read op ≡ false
    → accepts w op ≡ true
    → RunsOnce "shell/file.sh"
        (codes "shell/file.sh" ∷ arguments op)
        (value_of op)
        w
        (file_run op w)
unfolding file_run
file_run-RunsOnce (write p t) w r h = ground (
  arith,
  take-ge (length t) t (omega arith),
  ends_run "FILE" "shell/file.sh" (argv_of (write p t)) w,
)
file_run-RunsOnce op w r h = ground (arith, ends_run "FILE" "shell/file.sh" (argv_of op) w)

-- A creation and a deletion of an empty path return -1, fork nothing and read no input.
pub file_run-Refused : (op : FileOp) (w : World) → accepts w op ≡ false → Refused w (file_run op w)
unfolding file_run
file_run-Refused (create p) w h = ground arith
file_run-Refused (write p t) w h = ground (arith, h)
file_run-Refused op w h = ground arith
