-- ===== src/Modules/Socket/Multi.antt =====
-- modules/socket/socket_multi_server.c: the server that sends back what it receives, with a thread
-- for each connection.
pub mod Invariant
use Prim.Native.String.{String}
use nhan_linux_process.Prelude.{
  ℕ, zero, suc, ◌+◌, Bool, true, false, Option, none, some, List, [], ◌∷◌, if◌then◌else◌, ◌==◌,
  Bytes, ℤ, ltb, length,
}
use nhan_linux_process.System.World.{
  World, M, ◌>>◌, Arg, int, text, nat, errno_text, log_info, log_error, print,
}
use nhan_linux_process.Modules.Socket.Receiving.{Received, closed, recv_failed, bytes}
use nhan_linux_process.Modules.Socket.Start.{
  Sockets, says, opened, close_fd, without, fails, first_failure, ServerCalls, before_accept,
}

-- The descriptors, those of the live threads, and what went through recv and send with its
-- descriptor, the last in front.
pub record Multi : Type 0 where
  pub socks : Sockets
  pub sessions : List ℕ
  pub taken_in : List (ℕ × Bytes)
  pub sent : List (ℕ × Bytes)

abbrev pub count : ℕ → List ℕ → ℕ
count fd [] = 0
count fd (x ∷ xs) = if x == fd then suc (count fd xs) else count fd xs

-- What a round of the loop over accept meets.
pub data Accepted : Type 0 where
  accept_failed no_memory no_thread started : Accepted

-- A step of the main thread, or of the thread of a connection: its start, or a round of its loop
-- with what recv gives and what send answers.
pub data Move : Type 0 where
  accepts : Accepted → Move
  begins : ℕ → Move
  echoes : ℕ → Received → Option ℕ → Move

abbrev logs : M (Unit {0}) → Multi → Multi
logs m s = record s { socks = says m s.socks }

abbrev pub server_started : ℤ → M (Unit {0})
server_started port = do
  log_info "SOCKET" "Server started: Multi-threaded server listening on port %d" (int port ∷ [])
  print "Multi-client TCP Server listening on port %d...\n" (int port ∷ [])
  print "Press Ctrl+C to terminate server.\n" []

-- The address of the other side, by the descriptor
module _ (peer : ℕ → Bytes × ℕ) where
  abbrev address : ℕ → List Arg
  address fd = text (peer fd).0 ∷ nat (peer fd).1 ∷ []

  unfoldable pub on_accept : Accepted → Multi → Multi
  unfolding opened close_fd
  on_accept accept_failed s = record s { socks = fails "Errors: accept failed (errno %d)" s.socks }
  on_accept a s =
      let fd = s.socks.next_fd in
      let u : Sockets =
        says
          (do
            log_info "SOCKET" "Client connected: %s:%d" (address fd)
            print "[SERVER] Client connected from %s:%d\n" (address fd))
          (opened s.socks) in
      elim a [
        | no_memory ↦ record s {
          socks = close_fd fd (says (log_error "SOCKET" "Errors: malloc failed" []) u);
        }
        | no_thread ↦ record s {
          socks = close_fd fd (says (log_error "SOCKET" "Errors: thread creation failed" []) u);
        }
        | _ ↦ record s { socks = u; sessions = fd ∷ s.sessions }
      ]

  -- The end of a thread
  unfoldable pub end_session : ℕ → Multi → Multi
  unfolding close_fd
  end_session fd s = record s {
    socks =
        says
          (do
            log_info "SOCKET" "Thread exited: Finished client %s:%d" (address fd)
            print "[SERVER] Thread exited for client %s:%d\n" (address fd))
          (close_fd fd s.socks);
    sessions = without fd s.sessions;
  }

  unfoldable pub send_back : ℕ → Bytes → Option ℕ → Multi → Multi
  unfolding end_session
  send_back fd got answer s =
      let u : Multi = record s {
        socks =
            says (log_info "SOCKET" "Bytes received: %zd bytes" (nat (length got) ∷ [])) s.socks;
        taken_in = (fd, got) ∷ s.taken_in;
        sent = (fd, got) ∷ s.sent;
      } in
      elim answer [
        | none ↦
            end_session fd (record u { socks = fails "Errors: send failed (errno %d)" u.socks })
        | some n ↦ logs (log_info "SOCKET" "Bytes sent: %zd bytes" (nat n ∷ [])) u
      ]

  unfoldable pub session_handle_protocol : ℕ → Received → Option ℕ → Multi → Multi
  unfolding end_session send_back
  session_handle_protocol fd closed answer s = end_session fd (
      logs
        (do
          log_info "SOCKET" "Disconnect: Client closed connection" []
          print "[SERVER] Client disconnected.\n" [])
        s)
  session_handle_protocol fd recv_failed answer s =
      end_session fd (record s { socks = fails "Errors: recv failed (errno %d)" s.socks })
  session_handle_protocol fd (bytes got) answer s = send_back fd got answer s

  -- Only a thread that is there takes a step.
  unfoldable pub move : Move → Multi → Multi
  unfolding on_accept session_handle_protocol
  move (accepts a) s = on_accept a s
  move (begins fd) s =
      logs
        (do
          log_info "SOCKET" "Thread created: Handling client %s:%d" (address fd)
          print "[SERVER] Thread created for client %s:%d\n" (address fd))
        s
  move (echoes fd r answer) s =
      if ltb 0 (count fd s.sessions) then session_handle_protocol fd r answer s else s

  unfoldable pub moves : List Move → Multi → Multi
  unfolding move
  moves [] s = s
  moves (m ∷ ms) s = moves ms (move m s)

  abbrev pub listening : Sockets → Multi
  listening s = record { socks = s; sessions = []; taken_in = []; sent = [] }

  unfoldable pub serve_all : Option String → ℤ → ℕ → List Move → Sockets → Multi
  unfolding close_fd moves
  serve_all (some message) port fd ms s = listening (close_fd fd (fails message s))
  serve_all none port fd ms s = moves ms (listening (says (server_started port) s))

  -- The loop over accept does not end: the state is the one behind some moves of the threads.
  unfoldable pub socket_mgr_multi_server_start : ServerCalls → ℤ → List Move → Sockets → Multi
  unfolding opened serve_all
  socket_mgr_multi_server_start c port ms s =
      let u : Sockets =
        says (log_info "SOCKET" "Multi-client Server start requested on port %d" (int port ∷ []))
          s in
      if c.socket
      then serve_all (first_failure (before_accept c)) port u.next_fd ms (opened u)
      else listening (fails "Errors: socket creation failed (errno %d)" u)
