-- ===== src/System/Round.antt =====
-- The loops of the menus: how a round ends.
use nhan_linux_process.Prelude.{ℕ, zero, suc, Option, none, some}
use nhan_linux_process.System.World.{World}

-- `hangs` is a menu that does not return.
pub data Round : Type 0 where
  leaves again : World → Round
  hangs : Round

-- A loop over rounds, on fuel; `none` is a loop that still goes on, or hangs.
unfoldable pub run_rounds : (World → Round) → ℕ → World → Option World
run_rounds round zero w = none
run_rounds round (suc fuel) w = elim (round w) [
  | leaves u ↦ some u
  | again u ↦ run_rounds round fuel u
  | hangs ↦ none
]
