-- ===== src/System/Files.antt =====
-- Files that other programs change: what access and fopen find when the program has forked `n` times.
use Prim.Native.String.{String}
use nhan_linux_process.Prelude.{ℕ, Bool, Option, Bytes}

-- `exists path n` is access(path, F_OK) == 0, and `content path n` is what a reader of the file gets,
-- `none` where fopen fails.
pub record Files : Type 0 where
  pub exists : String → ℕ → Bool
  pub content : String → ℕ → Option Bytes
