-- ===== src/Modules/File.antt =====
-- modules/file/file_mgr.c: the operations, each of which hands its work to shell/file.sh.
pub mod Menu
pub mod Read
pub mod Laws
use nhan_linux_process.Prelude.{
  ℕ, ◌+◌, Bool, true, false, ◌||◌, Option, none, some, List, [], ◌∷◌, if◌then◌else◌, take, codes,
  Bytes, ℤ, pos, minus_one, to_int,
}
use nhan_linux_process.Libc.Strings.{is_empty}
use nhan_linux_process.System.World.{
  World, M, pure, ◌>>=◌, ◌>>◌, text, int, nat, log_info, log_error,
}
use nhan_linux_process.System.Script.{run_script_as, succeeded}

abbrev pub run_file_script : List Bytes → M (ℤ × ℕ)
run_file_script argv = run_script_as "FILE" "shell/file.sh" argv

abbrev pub command : Bytes → List Bytes → List Bytes
command verb args = codes "shell/file.sh" ∷ verb ∷ args

-- log_error and return -1
abbrev pub reject_path : M ℤ
reject_path = do log_error "FILE" "Invalid path parameter" []; pure minus_one

abbrev pub reject_paths : M ℤ
reject_paths = do log_error "FILE" "Invalid path parameters" []; pure minus_one

unfoldable pub file_mgr_create : Option Bytes → M ℤ
file_mgr_create none = reject_path
file_mgr_create (some path) = if is_empty path then reject_path else do
  r ← run_file_script (command (codes "create") (path ∷ []))
  if succeeded r then (do log_info "FILE" "File created: %s" (text path ∷ []); pure (pos 0)) else do
    log_error "FILE" "Failed to create file: %s (status %d)" (text path ∷ nat r.1 ∷ [])
    pure minus_one

-- A write whose copy of the text was allocated
unfoldable pub write_copy : Bytes → Bytes → ℕ → M ℤ
write_copy path contents size = do
  r ← run_file_script (command (codes "write") (path ∷ take size contents ∷ []))
  if succeeded r
      then (do log_info "FILE" "File created: %s" (text path ∷ []); pure (to_int (pos size)))
      else do
        log_error "FILE" "Failed to write file: %s (status %d)" (text path ∷ nat r.1 ∷ [])
        pure minus_one

unfoldable pub file_mgr_write : Option Bytes → Option Bytes → ℕ → M ℤ
unfolding write_copy
file_mgr_write none _ size = do log_error "FILE" "Invalid parameters for write" []; pure minus_one
file_mgr_write (some path) none size = do
  log_error "FILE" "Invalid parameters for write" []
  pure minus_one
file_mgr_write (some path) (some contents) size =
    λ (w : World). if w.memory (size + 1) then write_copy path contents size w else (minus_one, w)

unfoldable pub file_mgr_delete : Option Bytes → M ℤ
file_mgr_delete none = reject_path
file_mgr_delete (some path) = if is_empty path then reject_path else do
  r ← run_file_script (command (codes "delete") (path ∷ []))
  if succeeded r then (do log_info "FILE" "File removed: %s" (text path ∷ []); pure (pos 0)) else do
    log_error "FILE" "Failed to remove file: %s (status %d)" (text path ∷ nat r.1 ∷ [])
    pure minus_one

unfoldable pub file_mgr_rename : Option Bytes → Option Bytes → M ℤ
file_mgr_rename none _ = reject_paths
file_mgr_rename (some old_path) none = reject_paths
file_mgr_rename (some old_path) (some new_path) = do
  r ← run_file_script (command (codes "rename") (old_path ∷ new_path ∷ []))
  if succeeded r
      then (do
        log_info "FILE" "File moved: %s to %s" (text old_path ∷ text new_path ∷ [])
        pure (pos 0))
      else do
        log_error "FILE" "Failed to rename: %s (status %d)" (text old_path ∷ nat r.1 ∷ [])
        pure minus_one

unfoldable pub file_mgr_copy : Option Bytes → Option Bytes → M ℤ
file_mgr_copy none _ = reject_paths
file_mgr_copy (some src_path) none = reject_paths
file_mgr_copy (some src_path) (some dest_path) = do
  r ← run_file_script (command (codes "copy") (src_path ∷ dest_path ∷ []))
  if succeeded r
      then (do
        log_info "FILE" "File copied: %s to %s" (text src_path ∷ text dest_path ∷ [])
        pure (pos 0))
      else do
        log_error "FILE" "Failed to copy: %s (status %d)" (text src_path ∷ nat r.1 ∷ [])
        pure minus_one

unfoldable pub file_mgr_move : Option Bytes → Option Bytes → M ℤ
file_mgr_move none _ = reject_paths
file_mgr_move (some src_path) none = reject_paths
file_mgr_move (some src_path) (some dest_path) = do
  r ← run_file_script (command (codes "move") (src_path ∷ dest_path ∷ []))
  if succeeded r
      then (do
        log_info "FILE" "File moved: %s to %s" (text src_path ∷ text dest_path ∷ [])
        pure (pos 0))
      else do
        log_error "FILE" "Failed to move: %s (status %d)" (text src_path ∷ nat r.1 ∷ [])
        pure minus_one

-- The fields of `statbuf` are constants and no caller reads them: only the result is kept.
unfoldable pub file_mgr_get_info : Option Bytes → M ℤ
file_mgr_get_info none = reject_path
file_mgr_get_info (some path) = do
  r ← run_file_script (command (codes "info") (path ∷ []))
  if succeeded r
      then pure (pos 0)
      else do log_error "FILE" "Failed to get info for: %s" (text path ∷ []); pure minus_one

unfoldable pub file_mgr_list_dir : Option Bytes → M ℤ
file_mgr_list_dir none = reject_path
file_mgr_list_dir (some path) = do
  r ← run_file_script (command (codes "list") (path ∷ []))
  if succeeded r
      then (do log_info "FILE" "Directory listed: %s" (text path ∷ []); pure (pos 0))
      else do log_error "FILE" "Failed to list directory: %s" (text path ∷ []); pure minus_one

unfoldable pub file_mgr_mkdir : Option Bytes → M ℤ
file_mgr_mkdir none = pure minus_one
file_mgr_mkdir (some path) = do
  r ← run_file_script (command (codes "mkdir") (path ∷ []))
  if succeeded r then pure (pos 0) else pure minus_one

unfoldable pub file_mgr_chmod : Option Bytes → Option Bytes → M ℤ
file_mgr_chmod none _ = pure minus_one
file_mgr_chmod (some path) none = pure minus_one
file_mgr_chmod (some path) (some mode) = do
  r ← run_file_script (command (codes "chmod") (path ∷ mode ∷ []))
  if succeeded r
      then (do
        log_info "FILE" "Permission changed: %s to %s" (text path ∷ text mode ∷ [])
        pure (pos 0))
      else pure minus_one

unfoldable pub file_mgr_search : Option Bytes → Option Bytes → M ℤ
file_mgr_search none _ = pure minus_one
file_mgr_search (some start_dir) none = pure minus_one
file_mgr_search (some start_dir) (some pattern_text) = do
  r ← run_file_script (command (codes "search") (start_dir ∷ pattern_text ∷ []))
  if succeeded r then pure (pos 0) else pure minus_one

unfoldable pub file_mgr_archive : Option Bytes → Option Bytes → M ℤ
file_mgr_archive none _ = pure minus_one
file_mgr_archive (some archive_path) none = pure minus_one
file_mgr_archive (some archive_path) (some src_dir) = do
  r ← run_file_script (command (codes "archive") (archive_path ∷ src_dir ∷ []))
  if succeeded r
      then (do log_info "FILE" "Archive created: %s" (text archive_path ∷ []); pure (pos 0))
      else pure minus_one
