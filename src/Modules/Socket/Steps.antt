-- ===== src/Modules/Socket/Steps.antt =====
-- modules/socket/: the thread that types and the thread that receives, one step after the other.
use nhan_linux_process.Prelude.{ℕ, true, Option, List, [], ◌∷◌}
use nhan_linux_process.Modules.Socket.{Side, Chat, Turn, goes, ends}
use nhan_linux_process.Modules.Socket.Typing.{on_byte}
use nhan_linux_process.Modules.Socket.Receiving.{Received, on_received}

-- A byte that is typed, or what recv gives. The lock is let go inside of the step for a newline,
-- but the other thread only reads the array.
pub data ChatStep : Type 0 where
  typed_byte : ℕ → ChatStep
  from_peer : Received → ChatStep

unfoldable pub on_step : Side → (ℕ → Option ℕ) → ChatStep → Chat → Turn
unfolding on_byte on_received
on_step side answers (typed_byte c) s = on_byte side answers c s
on_step side answers (from_peer r) s = on_received side true r s

-- The steps of the two threads in the order in which they come; the first thread that leaves its
-- loop ends the chat.
unfoldable pub chat : Side → (ℕ → Option ℕ) → List ChatStep → Chat → Turn
unfolding on_step
chat side answers [] s = goes s
chat side answers (t ∷ ts) s = elim (on_step side answers t s) [
  | goes u ↦ chat side answers ts u
  | ends u ↦ ends u
]

abbrev pub state_of : Turn → Chat
state_of (goes s) = s
state_of (ends s) = s
