-- ===== src/System/Backend.antt =====
-- What the command line needs of the modules behind it: include/*_mgr.h as an interface.
use Prim.Native.String.{String}
use nhan_linux_process.Prelude.{◌≤◌, Bool, List, Bytes, ℤ, length}
use nhan_linux_process.System.Call.{Call}
use nhan_linux_process.System.World.{World}

-- The result of a call, and what it stored in a buffer of its caller.
pub record Reply : Type 0 where
  pub value : ℤ
  pub contents : Bytes

-- `select` is a menu, with the number of the entry chosen or -1; `has_sysmgr` is the answer of
-- access("./sysmgr", F_OK). No module takes part in the line editor of the command line, so that a
-- call leaves no more lines to read than there were. A call that ends the program, or that never
-- returns, says so by `gone` as the newest event of the world that it gives.
pub record Backend : Type 0 where
  pub perform : Call → World → Reply × World
  pub select : String → List String → World → ℤ × World
  pub has_sysmgr : Bool
  pub perform_typed : (c : Call) (w : World) → length (perform c w).1.typed ≤ length w.typed
  pub select_typed :
      (title : String) (options : List String) (w : World)
      → length (select title options w).1.typed ≤ length w.typed
