-- ===== src/Modules/Socket/Multi/Invariant.antt =====
-- modules/socket/socket_multi_server.c: the descriptors of the server and of its connections.
use Prim.Native.String.{String}
use nhan_linux_process.Prelude.{
  ℕ, suc, ◌+◌, ◌-◌, ◌≤◌, ◌≡◌, refl, ap, arith, Bool, true, false, ◌&&◌, Option, none, some, List,
  [], ◌∷◌, if◌then◌else◌, ◌==◌, Bytes, ℤ, ltb, Bool-cases, inl, inr,
}
use nhan_linux_process.System.World.{World, M, log_info, int}
use nhan_linux_process.Modules.Socket.Receiving.{Received, closed, recv_failed, bytes}
use nhan_linux_process.Modules.Socket.Start.{
  Sockets, says, opened, close_fd, without, first_failure, ServerCalls, before_accept,
}
use nhan_linux_process.Modules.Socket.Start.Laws.{without_first, all_work, all_work_lem}
use nhan_linux_process.Modules.Socket.Multi.{
  Multi, count, Accepted, accept_failed, no_memory, no_thread, started, Move, accepts, begins,
  echoes, on_accept, end_session, send_back, session_handle_protocol, move, server_started,
  listening, moves, serve_all, socket_mgr_multi_server_start,
}

-- The descriptors that are open are those of the live threads and `rest`, each once, and none of
-- them is a number to come.
pub record Holds (rest fds : List ℕ) (next : ℕ) (sessions : List ℕ) : Type 0 where
  pub balanced : (fd : ℕ) → count fd fds ≡ count fd sessions + count fd rest
  pub single : (fd : ℕ) → count fd fds ≤ 1
  pub fresh : (fd : ℕ) → next ≤ fd → count fd fds ≡ 0

-- What is given to send is what was received, connection by connection and in order.
abbrev pub Sound : List ℕ → Multi → Type 0
Sound rest s = Holds rest s.socks.open_fds s.socks.next_fd s.sessions × (s.sent ≡ s.taken_in)

count-without :
    (x y : ℕ) (xs : List ℕ)
    → count x (without y xs) ≡ (if x == y then count x xs - 1 else count x xs)
count-without x y [] = ground arith
count-without x y (z ∷ xs) = ground (arith, count-without x y xs)

module _ (rest fds : List ℕ) (next : ℕ) (sessions : List ℕ) (h : Holds rest fds next sessions) where
  begun : Holds rest (next ∷ fds) (suc next) (next ∷ sessions)
  begun = record {
    balanced = λ fd. ground (arith, h.balanced fd);
    single = λ fd. ground (arith, h.single fd, h.fresh fd);
    fresh = λ fd k. ground (arith, h.fresh fd);
  }

  opened_and_closed : Holds rest (without next (next ∷ fds)) (suc next) sessions
  opened_and_closed = record {
    balanced = λ fd. ground (arith, h.balanced fd);
    single = λ fd. ground (arith, h.single fd);
    fresh = λ fd k. ground (arith, h.fresh fd);
  }

  ended :
      (y : ℕ)
      → ltb 0 (count y sessions) ≡ true
      → Holds rest (without y fds) next (without y sessions)
  ended y l = record {
    balanced =
        λ fd. ground (arith, h.balanced fd, count-without fd y fds, count-without fd y sessions, l);
    single = λ fd. ground (arith, h.single fd, count-without fd y fds);
    fresh = λ fd k. ground (arith, h.fresh fd k, count-without fd y fds);
  }

module _ (peer : ℕ → Bytes × ℕ) (rest : List ℕ) where
  on_accept-Sound : (a : Accepted) (s : Multi) → Sound rest s → Sound rest (on_accept peer a s)
  unfolding on_accept opened close_fd
  on_accept-Sound accept_failed s h = h
  on_accept-Sound no_memory s (h, e) =
      (opened_and_closed rest s.socks.open_fds s.socks.next_fd s.sessions h, e)
  on_accept-Sound no_thread s (h, e) =
      (opened_and_closed rest s.socks.open_fds s.socks.next_fd s.sessions h, e)
  on_accept-Sound started s (h, e) = (begun rest s.socks.open_fds s.socks.next_fd s.sessions h, e)

  round-Sound :
      (fd : ℕ) (r : Received) (answer : Option ℕ) (s : Multi)
      → ltb 0 (count fd s.sessions) ≡ true
      → Sound rest s
      → Sound rest (session_handle_protocol peer fd r answer s)
  unfolding session_handle_protocol send_back end_session close_fd
  round-Sound fd closed answer s l (h, e) =
      (ended rest s.socks.open_fds s.socks.next_fd s.sessions h fd l, e)
  round-Sound fd recv_failed answer s l (h, e) =
      (ended rest s.socks.open_fds s.socks.next_fd s.sessions h fd l, e)
  round-Sound fd (bytes got) none s l (h, e) =
      (ended rest s.socks.open_fds s.socks.next_fd s.sessions h fd l, ap (◌∷◌ (fd, got)) e)
  round-Sound fd (bytes got) (some n) s l (h, e) = (h, ap (◌∷◌ (fd, got)) e)

  move-Sound : (m : Move) (s : Multi) → Sound rest s → Sound rest (move peer m s)
  unfolding move
  move-Sound (accepts a) s h = on_accept-Sound a s h
  move-Sound (begins fd) s h = h
  move-Sound (echoes fd r answer) s h = elim (Bool-cases (ltb 0 (count fd s.sessions))) [
    | inl l ↦ rw l (round-Sound fd r answer s l h)
    | inr l ↦ rw l h
  ]

  moves-Sound : (ms : List Move) (s : Multi) → Sound rest s → Sound rest (moves peer ms s)
  unfolding moves
  moves-Sound [] s h = h
  moves-Sound (m ∷ ms) s h = moves-Sound ms (move peer m s) (move-Sound m s h)

-- The descriptors in front of the call: each is open once, and none is a number to come.
pub record Distinct (s : Sockets) : Type 0 where
  pub once : (fd : ℕ) → count fd s.open_fds ≤ 1
  pub below : (fd : ℕ) → s.next_fd ≤ fd → count fd s.open_fds ≡ 0

abbrev pub listens : ServerCalls → Bool
listens c = c.socket && all_work (before_accept c)

some_fails :
    (calls : List (Bool × String)) (message : String)
    → first_failure calls ≡ some message
    → all_work calls ≡ false
some_fails [] message e = ground arith
some_fails ((true, m) ∷ calls) message e = some_fails calls message e
some_fails ((false, m) ∷ calls) message e = refl

module _ (peer : ℕ → Bytes × ℕ) (c : ServerCalls) (port : ℤ) (ms : List Move) (s : Sockets)
    (d : Distinct s) where
  abbrev rest_fds : List ℕ
  rest_fds = s.next_fd ∷ s.open_fds

  at_start : Holds rest_fds rest_fds (suc s.next_fd) []
  at_start = record {
    balanced = λ fd. ground arith;
    single = λ fd. ground (arith, d.once fd, d.below fd);
    fresh = λ fd k. ground (arith, d.below fd);
  }

  serves :
      (o : Option String) (w : World)
      → first_failure (before_accept c) ≡ o
      → let r =
          serve_all peer o port s.next_fd ms
            (record { open_fds = rest_fds; next_fd = suc s.next_fd; world = w }) in
        if all_work (before_accept c) then Sound rest_fds r else r.socks.open_fds ≡ s.open_fds
  unfolding serve_all close_fd
  serves (some message) w o =
      rw (some_fails (before_accept c) message o) (without_first s.next_fd s.open_fds)
  serves none w o =
      let u : Sockets =
        says (server_started port)
          (record { open_fds = rest_fds; next_fd = suc s.next_fd; world = w }) in
      rw (all_work_lem (before_accept c) o)
        (moves-Sound peer rest_fds ms (listening peer u) (at_start, refl))

  -- The server for several clients, started with descriptors that are distinct and below the next
  -- number: if one of the calls that set it up fails, it leaves the descriptors that were open. If
  -- they work, then behind every sequence of steps of the main thread and of the threads of the
  -- connections, in any order and with any failures of accept, malloc, pthread_create, recv and
  -- send, the open descriptors are those from before, the listening one and one for each live
  -- thread, each once, and the texts given to send are the texts received, each on its connection
  -- and in order.
  pub multi_start-Sound :
      let r = socket_mgr_multi_server_start peer c port ms s in
      if listens c then Sound rest_fds r else r.socks.open_fds ≡ s.open_fds
  unfolding socket_mgr_multi_server_start opened
  multi_start-Sound =
      let asked : M (Unit {0}) =
        log_info "SOCKET" "Multi-client Server start requested on port %d" (int port ∷ []) in
      elim (Bool-cases c.socket) [
        | inl t ↦ simp t (serves (first_failure (before_accept c)) (asked s.world).1 refl)
        | inr t ↦ rw t refl
      ]
