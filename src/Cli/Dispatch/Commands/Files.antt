-- ===== src/Cli/Dispatch/Commands/Files.antt =====
-- cli/repl.c: the dispatcher of the file context.
use nhan_linux_process.Prelude.{
  none, some, List, [], ◌∷◌, if◌then◌else◌, get_elem?, codes, Bytes, is_neg, not,
}
use nhan_linux_process.Libc.Strings.{copy_to}
use nhan_linux_process.System.Call.{file, FileOp}
use nhan_linux_process.System.World.{M, skip, text, print}
use nhan_linux_process.System.Backend.{Backend}
use nhan_linux_process.Cli.Dispatch.Ladder.{Table, ladder, act, with_arg, unknown}

module _ (b : Backend) where
  -- file_mgr_read into `data`, of which one byte is kept for the NUL
  unfoldable pub read_and_print : Bytes → M (Unit {0})
  read_and_print path w =
      let r = b.perform (file (FileOp.read path)) w in
      (if not (is_neg r.0.value)
          then print "\nFile Content:\n%s\n" (text r.0.contents ∷ [])
          else skip)
        r.1

  abbrev pub file_table : List Bytes → Table
  file_table argv =
      (
        "create",
        with_arg 256 1 argv (codes "Enter file path to create: ")
            λ path. act b (file (FileOp.create path)),
      )
      ∷ (
        "read",
        with_arg 256 1 argv (codes "Enter file path to read: ") λ path. read_and_print path,
      )
      ∷ (
        "write",
        with_arg 256 1 argv (codes "Enter file path to write to: ") λ path.
            with_arg 1024 2 argv (codes "Enter content to write: ")
              λ contents. act b (file (FileOp.write path contents)),
      )
      ∷ (
        "delete",
        with_arg 256 1 argv (codes "Enter file path to delete: ")
            λ path. act b (file (FileOp.delete path)),
      )
      ∷ (
        "copy",
        with_arg 256 1 argv (codes "Enter source path: ") λ path.
            with_arg 256 2 argv (codes "Enter destination path: ")
              λ dest. act b (file (FileOp.copy path dest)),
      )
      ∷ (
        "move",
        with_arg 256 1 argv (codes "Enter source path: ") λ path.
            with_arg 256 2 argv (codes "Enter destination path: ")
              λ dest. act b (file (FileOp.move path dest)),
      )
      ∷ (
        "rename",
        with_arg 256 1 argv (codes "Enter old path: ") λ path.
            with_arg 256 2 argv (codes "Enter new path: ")
              λ dest. act b (file (FileOp.rename path dest)),
      )
      ∷ (
        "info",
        with_arg 256 1 argv (codes "Enter file path to query info: ")
            λ path. act b (file (FileOp.get_info path)),
      )
      ∷ (
        "list",
        act b (
            file (
              FileOp.list_dir
                (elim (get_elem? argv 1) [ none ↦ codes "." | some arg ↦ copy_to 256 arg ]))),
      )
      ∷ (
        "mkdir",
        with_arg 256 1 argv (codes "Enter directory path to create: ")
            λ path. act b (file (FileOp.mkdir path)),
      )
      ∷ (
        "chmod",
        with_arg 256 1 argv (codes "Enter file path: ") λ path.
            with_arg 64 2 argv (codes "Enter permission mode (e.g. 755, 644, +x): ")
              λ mode. act b (file (FileOp.chmod path mode)),
      )
      ∷ (
        "search",
        with_arg 256 1 argv (codes "Enter start directory: ") λ path.
            with_arg 256 2 argv (codes "Enter search pattern (e.g. *.txt): ")
              λ dest. act b (file (FileOp.search path dest)),
      )
      ∷ (
        "archive",
        with_arg 256 1 argv (codes "Enter archive output path (e.g. out.tar.gz): ") λ path.
            with_arg 256 2 argv (codes "Enter source directory to archive: ")
              λ dest. act b (file (FileOp.archive path dest)),
      )
      ∷ []

  unfoldable pub dispatch_file : List Bytes → M (Unit {0})
  unfolding act with_arg read_and_print
  dispatch_file [] = skip
  dispatch_file (cmd ∷ args) =
      ladder cmd (file_table (cmd ∷ args))
        (unknown "Error: Unknown file command '%s'. Type / for options.\n" cmd)
