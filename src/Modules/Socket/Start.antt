-- ===== src/Modules/Socket/Start.antt =====
-- modules/socket/socket_server.c and socket_client.c: setting up a chat, and its end.
pub mod Laws
use Prim.Native.String.{String}
use nhan_linux_process.Prelude.{
  ℕ, suc, ◌+◌, Bool, true, false, Option, none, some, List, [], ◌∷◌, if◌then◌else◌, ◌==◌, Bytes, ℤ,
  length,
}
use nhan_linux_process.System.World.{
  World, M, skip, ◌>>◌, int, text, errno_text, log_info, log_error, print,
}
use nhan_linux_process.Modules.Socket.{Side, server, client, Chat, goes, ends, new_chat}
use nhan_linux_process.Modules.Socket.Steps.{ChatStep, typed_byte, from_peer, on_step}
use nhan_linux_process.Modules.Socket.Receiving.{on_closed}
use nhan_linux_process.Modules.Socket.Piped.{piped_loop}

-- The descriptors that are open, the newest in front, the number of the next, and the world.
pub record Sockets : Type 0 where
  pub open_fds : List ℕ
  pub next_fd : ℕ
  pub world : World

abbrev pub without : ℕ → List ℕ → List ℕ
without fd [] = []
without fd (x ∷ xs) = if x == fd then xs else x ∷ without fd xs

-- A call that gives a new descriptor, and close
unfoldable pub opened : Sockets → Sockets
opened s = record s { open_fds = s.next_fd ∷ s.open_fds; next_fd = suc s.next_fd }

unfoldable pub close_fd : ℕ → Sockets → Sockets
close_fd fd s = record s { open_fds = without fd s.open_fds }

abbrev pub says : M (Unit {0}) → Sockets → Sockets
says m s = record s { world = (m s.world).1 }

-- How the chat comes to its end: the thread that types leaves its loop, the thread that receives
-- ends the program, or it still goes on.
pub data Outcome : Type 0 where
  left : Chat → Outcome
  exited running : World → Outcome

abbrev pub step_outcome : ChatStep → Chat → Outcome
step_outcome (typed_byte c) u = left u
step_outcome (from_peer r) u = exited u.world

-- What comes in: the steps at a terminal, and whether the input ends behind them; or lines.
pub data Input : Type 0 where
  at_terminal : List ChatStep → Bool → Input
  piped : Input

abbrev pub has_terminal : Input → Bool
has_terminal (at_terminal ts at_end) = true
has_terminal piped = false

module _ (side : Side) (answers : ℕ → Option ℕ) where
  unfoldable pub session : List ChatStep → Bool → Chat → Outcome
  unfolding on_step
  session [] at_end s = if at_end then left s else running s.world
  session (t ∷ ts) at_end s = elim (on_step side answers t s) [
    | goes u ↦ session ts at_end u
    | ends u ↦ step_outcome t u
  ]

  abbrev after_lines : World → Option Chat → Outcome
  after_lines w none = running w
  after_lines w (some u) = left u

  -- A chat; without a terminal by its lines alone.
  unfoldable pub converse : Input → World → Outcome
  unfolding session piped_loop
  converse (at_terminal ts at_end) w = session ts at_end (new_chat (print "You > " [] w).1)
  converse piped w = after_lines w (piped_loop side answers (suc (length w.stdin)) (new_chat w))

-- What a thread still does, one thing after the other.
pub data Act : Type 0 where
  tells : M (Unit {0}) → Act
  closes : ℕ → Act

unfoldable pub do_act : Act → Sockets → Sockets
unfolding close_fd
do_act (tells m) s = says m s
do_act (closes fd) s = close_fd fd s

unfoldable pub do_all : List Act → Sockets → Sockets
unfolding do_act
do_all [] s = s
do_all (a ∷ acts) s = do_all acts (do_act a s)

-- The function returns, the program ends, or neither yet. Behind a chat that the thread that types
-- has left, the thread that receives may not be done when the function returns: it then still does
-- these things, and ends the program.
pub data Ending : Type 0 where
  returned : Sockets → Option (List Act) → Ending
  program_ended still_runs : Sockets → Ending

abbrev pub stops : Sockets → Ending
stops s = returned s none

-- The two threads at the end, in any order (`true` is a turn of the one that typed): the function
-- returns, or the other thread comes to its `_exit(0)` first.
unfoldable pub race : List Bool → List Act → List Act → Sockets → Ending
unfolding do_act do_all
race [] mine theirs s = returned (do_all mine s) (some theirs)
race (true ∷ order) [] theirs s = returned s (some theirs)
race (true ∷ order) (a ∷ mine) theirs s = race order mine theirs (do_act a s)
race (false ∷ order) mine [] s = program_ended s
race (false ∷ order) mine (r ∷ theirs) s = race order mine theirs (do_act r s)

-- What the thread that receives says when recv gives the end of the connection, and behind its loop
abbrev hears : Side → Bool → Chat → M (Unit {0})
hears side at_tty u w = (tt, (on_closed side at_tty (record u { world = w })).world)

abbrev closed_terminal : M (Unit {0})
closed_terminal = log_info "SOCKET" "Terminal closed" []

-- The calls in turn, whether each works, and what is logged if it fails.
abbrev pub first_failure : List (Bool × String) → Option String
first_failure [] = none
first_failure ((true, message) ∷ calls) = first_failure calls
first_failure ((false, message) ∷ calls) = some message

-- Which calls work.
pub record ServerCalls : Type 0 where
  pub socket : Bool
  pub setsockopt : Bool
  pub bind : Bool
  pub listen : Bool
  pub accept : Bool
  pub pthread_create : Bool

pub record ClientCalls : Type 0 where
  pub socket : Bool
  pub inet_pton : Bool
  pub connect : Bool
  pub pthread_create : Bool

abbrev pub fails : String → Sockets → Sockets
fails message = says (log_error "SOCKET" message (errno_text ∷ []))

abbrev pub before_accept : ServerCalls → List (Bool × String)
before_accept c =
    (c.setsockopt, "Errors: setsockopt failed (errno %d)")
    ∷ (c.bind, "Errors: bind failed (errno %d)")
    ∷ (c.listen, "Errors: listen failed (errno %d)")
    ∷ []

abbrev pub before_chat : ClientCalls → List (Bool × String)
before_chat c =
    (c.inet_pton, "Socket error: invalid address / address not supported (errno %d)")
    ∷ (c.connect, "Socket error: connection failed (errno %d)")
    ∷ []

abbrev pub both_closed : ℕ → ℕ → Sockets → Sockets
both_closed server_fd client_fd s = close_fd server_fd (close_fd client_fd s)

-- A thread that leaves the loop over what is typed shuts the connection down, which wakes the thread
-- that receives: that one closes the same descriptors and ends the program. What it has not received
-- by then is lost.
unfoldable pub server_ends : List Bool → Bool → ℕ → ℕ → Sockets → Outcome → Ending
unfolding close_fd race on_closed
server_ends order at_tty server_fd client_fd s (left u) =
    race order
      (closes client_fd
        ∷ closes server_fd
        ∷ tells (log_info "SOCKET" "Server stopped cleanly" [])
        ∷ [])
      (tells (hears server at_tty u)
        ∷ tells closed_terminal
        ∷ closes client_fd
        ∷ closes server_fd
        ∷ [])
      (says closed_terminal (record s { world = u.world }))
server_ends order at_tty server_fd client_fd s (exited w) =
    program_ended (both_closed server_fd client_fd (record s { world = w }))
server_ends order at_tty server_fd client_fd s (running w) = still_runs (record s { world = w })

unfoldable pub client_ends : List Bool → Bool → ℕ → Sockets → Outcome → Ending
unfolding close_fd race on_closed
client_ends order at_tty sock_fd s (left u) =
    race order
      (closes sock_fd ∷ tells (log_info "SOCKET" "Client connection closed cleanly" []) ∷ [])
      (tells (hears client at_tty u) ∷ tells closed_terminal ∷ closes sock_fd ∷ [])
      (says closed_terminal (record s { world = u.world }))
client_ends order at_tty sock_fd s (exited w) =
    program_ended (close_fd sock_fd (record s { world = w }))
client_ends order at_tty sock_fd s (running w) = still_runs (record s { world = w })

abbrev pub chat_title : String → M (Unit {0})
chat_title title = do
  log_info "SOCKET" "Connection established" []
  log_info "SOCKET" "Socket process started" []
  print "========================================\n" []
  print title []
  print "========================================\n" []

-- `order` is that of the two threads at the end of the chat.
module _ (answers : ℕ → Option ℕ) (input : Input) (order : List Bool) where
  -- Behind accept: the thread that receives, and the chat.
  unfoldable pub serve : ServerCalls → ℕ → Sockets → Ending
  unfolding opened close_fd converse server_ends
  serve c server_fd s =
      let client_fd = s.next_fd in
      let u : Sockets = says (chat_title "TCP Chat Server\n") (opened s) in
      if c.pthread_create
      then server_ends order (has_terminal input) server_fd client_fd u
          (converse server answers input u.world)
      else stops
          (both_closed server_fd client_fd (fails "Errors: pthread_create failed (errno %d)" u))

  -- From setsockopt on, by the first call that fails.
  unfoldable pub listen_at : Option String → ServerCalls → ℤ → ℕ → Sockets → Ending
  unfolding close_fd serve
  listen_at (some message) c port server_fd s = stops (close_fd server_fd (fails message s))
  listen_at none c port server_fd s =
      let u : Sockets =
        says
          (do
            log_info "SOCKET" "TCP Server launched" []
            print "Server listening on port %d...\n" (int port ∷ []))
          s in
      if c.accept
      then serve c server_fd u
      else stops (close_fd server_fd (fails "Errors: accept failed (errno %d)" u))

  unfoldable pub socket_mgr_server_start : ServerCalls → ℤ → Sockets → Ending
  unfolding opened listen_at
  socket_mgr_server_start c port s =
      let u : Sockets =
        says (log_info "SOCKET" "Server start requested on port %d" (int port ∷ [])) s in
      if c.socket
      then listen_at (first_failure (before_accept c)) c port u.next_fd (opened u)
      else stops (fails "Errors: socket creation failed (errno %d)" u)

  -- From inet_pton on
  unfoldable pub talk : Option String → ClientCalls → ℕ → Sockets → Ending
  unfolding close_fd converse client_ends
  talk (some message) c sock_fd s = stops (close_fd sock_fd (fails message s))
  talk none c sock_fd s =
      let u : Sockets =
        says (do log_info "SOCKET" "TCP Client launched" []; chat_title "TCP Chat Client\n") s in
      if c.pthread_create
      then client_ends order (has_terminal input) sock_fd u (converse client answers input u.world)
      else stops (close_fd sock_fd (fails "Errors: pthread_create failed (errno %d)" u))

  unfoldable pub socket_mgr_client_start : ClientCalls → Bytes → ℤ → Sockets → Ending
  unfolding opened close_fd talk
  socket_mgr_client_start c server_ip port s =
      let u : Sockets =
        says
          (log_info "SOCKET" "Client connect requested to %s:%d" (text server_ip ∷ int port ∷ []))
          s in
      if c.socket
      then talk (first_failure (before_chat c)) c u.next_fd (opened u)
      else stops (fails "Socket error: socket creation failed (errno %d)" u)
