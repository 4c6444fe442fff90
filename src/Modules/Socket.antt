-- ===== src/Modules/Socket.antt =====
-- modules/socket/: the two sides of a chat, the server and the client.
pub mod Typing
pub mod Receiving
pub mod Steps
pub mod Sent
pub mod Typed
pub mod Outcomes
pub mod Sends
pub mod Piped
pub mod Lines
pub mod Start
pub mod Multi
pub mod Menu
use nhan_linux_process.Prelude.{ℕ, zero, suc, Bool, false, List, [], ◌∷◌, Bytes}
use nhan_linux_process.System.World.{World}

pub data Side : Type 0 where
  server client : Side

-- The state of a chat at a terminal: the array with the line that is being typed and its length,
-- the texts given to send, the last one in front, and what the client has told of the connection.
pub record Chat : Type 0 where
  pub input_buffer : Bytes
  pub input_len : ℕ
  pub sent : List Bytes
  pub disconnected_printed : Bool
  pub world : World

-- Whether the thread goes on, or is behind its loop.
pub data Turn : Type 0 where
  goes ends : Chat → Turn

abbrev pub zeros : ℕ → Bytes
zeros zero = []
zeros (suc n) = 0 ∷ zeros n

-- The static variables at the start
abbrev pub new_chat : World → Chat
new_chat w = record {
  input_buffer = zeros 512;
  input_len = 0;
  sent = [];
  disconnected_printed = false;
  world = w;
}
