-- ===== src/Modules/Socket/Start/Laws.antt =====
-- modules/socket/: the descriptors of a chat, whichever call fails.
use Prim.Native.String.{String}
use nhan_linux_process.Prelude.{
  ℕ, ◌≤◌, All, ◌≡◌, refl, arith, Bool, true, false, ◌&&◌, ◌||◌, none, List, [], ◌∷◌,
}
use nhan_linux_process.System.World.{◌>>◌}
use nhan_linux_process.Modules.Socket.Start.{
  Sockets, Ending, returned, program_ended, Act, tells, closes, still_runs, ServerCalls,
  ClientCalls, without, first_failure, before_accept, before_chat,
}

-- What is open once the function has returned or the program has ended, and while the chat goes on
-- with `held` in front.
abbrev pub Leaves : List ℕ → List ℕ → Ending → Type 0
Leaves held fds (returned s pending) = s.open_fds ≡ fds
Leaves held fds (program_ended s) = s.open_fds ≡ fds
Leaves held fds (still_runs s) = s.open_fds ≡ held

pub without_first : (fd : ℕ) (xs : List ℕ) → without fd (fd ∷ xs) ≡ xs
without_first fd xs = ground arith

-- What is left once all of these are closed
abbrev closing : List ℕ → List ℕ → List ℕ
closing [] l = l
closing (x ∷ xs) l = closing xs (without x l)

abbrev closed_by : List Act → List ℕ
closed_by [] = []
closed_by (tells m ∷ acts) = closed_by acts
closed_by (closes fd ∷ acts) = fd ∷ closed_by acts

module _ (held fds : List ℕ) where
  -- A descriptor that is not one of those that stay open
  abbrev IsOther : ℕ → Type 0
  IsOther fd = without fd fds ≡ fds

  -- A thread that closes all but these, and none of them
  abbrev Closes : List Act → List ℕ → Type 0
  Closes acts open_fds = All IsOther (closed_by acts) × (closing (closed_by acts) open_fds ≡ fds)

-- No descriptor from the next number on is open.
abbrev pub AreBelow : Sockets → Type 0
AreBelow s = (fd : ℕ) → s.next_fd ≤ fd → without fd s.open_fds ≡ s.open_fds

abbrev pub is_returned : Ending → Bool
is_returned (returned s pending) = true
is_returned _ = false

abbrev pub all_work : List (Bool × String) → Bool
all_work [] = true
all_work ((b, message) ∷ calls) = b && all_work calls

pub all_work_lem :
    (calls : List (Bool × String)) → first_failure calls ≡ none → all_work calls ≡ true
all_work_lem [] e = refl
all_work_lem ((true, message) ∷ calls) e = all_work_lem calls e
all_work_lem ((false, message) ∷ calls) e = ground arith

abbrev pub server_works : ServerCalls → Bool
server_works c = c.socket && (all_work (before_accept c) && (c.accept && c.pthread_create))

abbrev pub client_works : ClientCalls → Bool
client_works c = c.socket && (all_work (before_chat c) && c.pthread_create)

-- The descriptors, and the return of a function whose calls do not all work.
abbrev pub Tidy : Bool → List ℕ → List ℕ → Ending → Type 0
Tidy works held fds r = Leaves held fds r × ((works || is_returned r) ≡ true)
