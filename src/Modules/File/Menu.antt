-- ===== src/Modules/File/Menu.antt =====
-- modules/file/file_mgr.c: `file_mgr_run`, the menu of the module.
use Prim.Native.String.{String}
use nhan_linux_process.Prelude.{
  ℕ, zero, suc, ◌+◌, Bool, ◌&&◌, ◌||◌, not, Option, none, some, List, [], ◌∷◌, if◌then◌else◌, ◌==◌,
  length, codes, Bytes, ℤ, pos, negsuc, at_least, at_most,
}
use nhan_linux_process.Libc.Strings.{chomp, until_nul}
use nhan_linux_process.Libc.Stdio.{fgets}
use nhan_linux_process.System.World.{World, M, skip, ◌>>=◌, ◌>>◌, text, print, log_info}
use nhan_linux_process.System.Round.{Round, leaves, again, hangs, run_rounds}
use nhan_linux_process.Cli.Explain.{print_prompt_explanation}
use nhan_linux_process.Cli.Ui.Menu.{ui_select_menu}
use nhan_linux_process.App.Menu.{menu_read_choice, menu_pause}
use nhan_linux_process.Modules.File.{
  file_mgr_create, file_mgr_write, file_mgr_delete, file_mgr_rename, file_mgr_copy, file_mgr_move,
  file_mgr_get_info, file_mgr_list_dir, file_mgr_mkdir, file_mgr_chmod, file_mgr_search,
  file_mgr_archive,
}
use nhan_linux_process.Modules.File.Read.{file_mgr_read}

abbrev pub file_options : List String
file_options =
    "Create File (Tạo file)" ∷ "Read File (Đọc file)" ∷ "Write File (Ghi đè file)"
    ∷ "Delete File (Xóa file)" ∷ "Rename File (Đổi tên file)" ∷ "Copy File (Sao chép file)"
    ∷ "Move File (Di chuyển file)" ∷ "File Information (Thông tin file)"
    ∷ "Directory Listing (Xem thư mục)" ∷ "Create Directory (Tạo thư mục)"
    ∷ "Change Permission (Đổi quyền truy cập)" ∷ "Search Files (Tìm kiếm file)"
    ∷ "Archive (Nén/lưu trữ)" ∷ "Return (Trở về)" ∷ []

-- A question, and what is done with the line that answers it, if there is one.
abbrev pub answered : (Bytes → M (Unit {0})) → Option (Bytes × Bytes) → M (Unit {0})
answered use_line none w = (tt, w)
answered use_line (some (line, rest)) w = use_line (chomp line) (record w { stdin = rest })

unfoldable pub question : ℕ → String → String → (Bytes → M (Unit {0})) → M (Unit {0})
unfolding fgets chomp
question size explanation prompt use_line w =
    let asks : M (Unit {0}) = (do
      (if w.is_interactive then print_prompt_explanation (codes explanation) else skip)
      print prompt []) in
    let u : World = (asks w).1 in answered use_line (fgets size u.stdin) u

-- One path, and two answers.
unfoldable pub on_path : String → (Option Bytes → M ℤ) → M (Unit {0})
unfolding question
on_path prompt operation = question 256 prompt prompt λ path. do operation (some path); skip

unfoldable pub on_two :
    String → ℕ → String → String → (Option Bytes → Option Bytes → M ℤ) → M (Unit {0})
unfolding question
on_two first size explanation second operation =
    question 256 first first λ path.
      question size explanation second λ answer. do operation (some path) (some answer); skip

-- The buffer of 1024 bytes is cleared before the read, and printed as a text.
abbrev read_and_show : Bytes → M (Unit {0})
read_and_show path = do
  r ← file_mgr_read (some path) (some 1024)
  if at_least 0 r.0 then print "\nFile Content:\n%s\n" (text (until_nul r.1) ∷ []) else skip

abbrev write_text : Option Bytes → Option Bytes → M ℤ
write_text path none = file_mgr_write path none 0
write_text path (some t) = file_mgr_write path (some t) (length t)

unfoldable pub file_operation : ℕ → M (Unit {0})
unfolding question on_path on_two until_nul
file_operation choice =
    if choice == 1
    then on_path "Enter file path to create: " file_mgr_create
    else if choice == 2
    then question 256 "Enter file path to read: " "Enter file path to read: " read_and_show
    else if choice == 3
    then on_two "Enter file path to write to: " 1024 "Enter content to write: "
        "Enter content to write: " write_text
    else if choice == 4
    then on_path "Enter file path to delete: " file_mgr_delete
    else if choice == 5
    then on_two "Enter old path: " 256 "Enter new path: " "Enter new path: " file_mgr_rename
    else if choice == 6
    then on_two "Enter source path: " 256 "Enter destination path: " "Enter destination path: "
        file_mgr_copy
    else if choice == 7
    then on_two "Enter source path: " 256 "Enter destination path: " "Enter destination path: "
        file_mgr_move
    else if choice == 8
    then on_path "Enter file path to query info: " file_mgr_get_info
    else if choice == 9
    then on_path "Enter directory path to list: " file_mgr_list_dir
    else if choice == 10
    then on_path "Enter directory path to create: " file_mgr_mkdir
    else if choice == 11
    then on_two "Enter file path: " 64 "Enter permission mode (e.g. 755, 644, +x): "
        "Enter permission mode (e.g. 755, 644, +x): " file_mgr_chmod
    else if choice == 12
    then on_two "Enter start directory: " 256 "Enter search pattern (e.g. *.txt): "
        "Enter search pattern (e.g. *.txt): " file_mgr_search
    else if choice == 13
    then on_two "Enter archive output path (e.g. out.tar.gz): " 256
        "Enter source directory to archive: " "Enter target directory to archive: " file_mgr_archive
    else skip

abbrev is_operation : ℕ → Bool
is_operation choice = at_least 1 (pos choice) && at_most 13 (pos choice)

-- Every operation ends with a pause.
unfoldable pub file_choice : ℕ → World → Round
unfolding file_operation
file_choice choice u =
    if is_operation choice then again (menu_pause (file_operation choice u).1).1 else again u

abbrev pub print_file_menu : M (Unit {0})
print_file_menu = do
  print "\n========================================\n" []
  print "File Manager\n" []
  print "============\n" []
  print "1. Create File\n" []
  print "2. Read File\n" []
  print "3. Write File\n" []
  print "4. Delete File\n" []
  print "5. Rename File\n" []
  print "6. Copy File\n" []
  print "7. Move File\n" []
  print "8. File Information\n" []
  print "9. Directory Listing\n" []
  print "10. Create Directory\n" []
  print "11. Change Permission\n" []
  print "12. Search Files\n" []
  print "13. Archive\n" []
  print "14. Return\n" []
  print "========================================\n" []
  print "Select option: " []

unfoldable pub on_file_selection : Option (ℤ × World) → Round
unfolding file_choice
on_file_selection none = hangs
on_file_selection (some (pos n, u)) = if n == 13 then leaves u else file_choice (n + 1) u
on_file_selection (some (negsuc zero, u)) = leaves u
on_file_selection (some (negsuc (suc n), u)) = again u

abbrev pub refuse_choice : World → Round
refuse_choice u =
    again
      ((do print "\nInvalid choice. Please enter a number between 1 and 14.\n" []; menu_pause) u).1

unfoldable pub on_file_choice : ℤ → World → Round
unfolding file_choice
on_file_choice (negsuc n) u = refuse_choice u
on_file_choice (pos n) u =
    if not (at_least 1 (pos n)) || not (at_most 14 (pos n))
    then refuse_choice u
    else if n == 14
    then leaves u
    else file_choice n u

unfoldable pub file_round : Bool → World → Round
unfolding on_file_selection on_file_choice
file_round has_settings w =
    if w.is_interactive
    then on_file_selection (ui_select_menu has_settings "File Manager" file_options w)
    else (let r = menu_read_choice (print_file_menu w).1 in on_file_choice r.0 r.1)

unfoldable pub file_mgr_run : Bool → ℕ → World → Option World
unfolding file_round run_rounds
file_mgr_run has_settings fuel w =
    run_rounds (file_round has_settings) fuel
      (log_info "FILE" "File manager interactive loop started." [] w).1
