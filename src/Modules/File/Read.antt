-- ===== src/Modules/File/Read.antt =====
-- modules/file/file_mgr.c: `file_mgr_read`, which collects the output of the script from a pipe.
use nhan_linux_process.Prelude.{
  ℕ, zero, suc, ◌+◌, ◌-◌, ◌≤◌, ◌<◌, ◌≡◌, ◌⊎◌, take-nil, take-append, length-take, sym, arith, Bool,
  true, false, Option, none, some, List, [], ◌∷◌, ◌++◌, ◌==◌, if◌then◌else◌, length, take, codes,
  Bytes, ℤ, pos, minus_one, to_int,
}
use nhan_linux_process.Libc.Strings.{is_empty}
use nhan_linux_process.System.World.{
  fork_failed, wait_failed, signalled, exited, World, M, pure, ◌>>=◌, ◌>>◌, text, nat, log_info,
  log_error,
}
use nhan_linux_process.System.Script.{fork_exec, exit_status, programs, next_child_ok, is_waited}

-- The loop of reads into a buffer with `room` bytes before its last: a read takes what the pipe
-- offers, as far as it fits, and an empty one is the end of the output.
pub read_loop : ℕ → List Bytes → Bytes
read_loop room [] = []
read_loop room (c ∷ cs) =
    let rest = read_loop (room - length c) cs in if is_empty c then [] else take room c ++ rest

abbrev pub invalid_read : M (ℤ × Bytes)
invalid_read = do log_error "FILE" "Invalid parameters for read" []; pure (minus_one, [])

-- The end of the call: the status decides, and the bytes are in the buffer on either branch.
abbrev pub read_result : Bytes → Bytes → Bool → M (ℤ × Bytes)
read_result path got is_ok =
    if is_ok
    then (do
      log_info "FILE" "Read %zd bytes from file: %s" (nat (length got) ∷ text path ∷ [])
      pure (to_int (pos (length got)), got))
    else do log_error "FILE" "Failed to read file: %s" (text path ∷ []); pure (minus_one, got)

-- The buffer is given by its size, `none` for NULL; the result comes with what is in the buffer.
-- A wait that fails is not noticed: the call goes by the bytes that `status` happens to hold.
unfoldable pub file_mgr_read : Option Bytes → Option ℕ → M (ℤ × Bytes)
unfolding read_loop fork_exec
file_mgr_read none buffer w = invalid_read w
file_mgr_read (some path) none w = invalid_read w
file_mgr_read (some path) (some zero) w = invalid_read w
file_mgr_read (some path) (some (suc room)) w =
    if w.pipe_fails w.forks
    then (do log_error "FILE" "pipe creation failed" []; pure (minus_one, [])) w
    else (do
      o ← fork_exec "shell/file.sh" (codes "shell/file.sh" ∷ codes "read" ∷ path ∷ [])
      elim o [
        | fork_failed ↦ do log_error "FILE" "fork failed" []; pure (minus_one, [])
        | signalled ↦ read_result path (read_loop room (w.outputs w.forks)) false
        | wait_failed none ↦ read_result path (read_loop room (w.outputs w.forks)) false
        | wait_failed (some n) ↦
            read_result path (read_loop room (w.outputs w.forks)) (exit_status n == 0)
        | exited n ↦ read_result path (read_loop room (w.outputs w.forks)) (exit_status n == 0)
      ])
        w

-- The output up to its end.
abbrev pub piped : List Bytes → Bytes
piped [] = []
piped (c ∷ cs) = if is_empty c then [] else c ++ piped cs

read_loop-eq-take : (room : ℕ) (cs : List Bytes) → read_loop room cs ≡ take room (piped cs)
unfolding read_loop
read_loop-eq-take room [] = sym (take-nil room)
read_loop-eq-take room ([] ∷ cs) = sym (take-nil room)
read_loop-eq-take room ((x ∷ c) ∷ cs) =
    rw (read_loop-eq-take (room - length (x ∷ c)) cs, take-append room (x ∷ c) (piped cs))

-- Whatever the script prints, and in whatever pieces, the buffer gets its first bytes, and the NUL
-- behind them is inside the buffer.
pub read_loop-fits : (room : ℕ) (cs : List Bytes) → length (read_loop room cs) ≤ room
read_loop-fits room cs = rw (read_loop-eq-take room cs) (omega (arith, length-take room (piped cs)))

abbrev pub read_argv : Bytes → List Bytes
read_argv path = codes "shell/file.sh" ∷ codes "read" ∷ path ∷ []

-- A read with a buffer of at least one byte, when the pipe is made and the child is waited for,
-- forks once, starts shell/file.sh with read and the path, stores the first size - 1 bytes of what
-- the child prints up to the end of its output, so that the NUL behind them is in the buffer, and
-- returns the number of these bytes if the child ends with status 0 and -1 if not.
pub read_runs :
    (path : Bytes) (size : ℕ) (w : World)
    → 0 < size
    → w.pipe_fails w.forks ≡ false
    → is_waited (w.children w.forks) ≡ true
    → let r = file_mgr_read (some path) (some size) w in
      (r.0.0 ≡ (if next_child_ok w then to_int (pos (length r.0.1)) else minus_one))
      × (r.0.1 ≡ take (size - 1) (piped (w.outputs w.forks)))
      × (length r.0.1 < size)
      × (r.1.forks ≡ w.forks + 1)
      × (programs r.1.trace ≡ ("shell/file.sh", read_argv path) ∷ programs w.trace)
unfolding file_mgr_read fork_exec
read_runs path zero w h p c = absurd (omega arith)
read_runs path (suc room) w h p c =
    let e : suc room - 1 ≡ room = omega arith in
    rw e (
      ground (
        arith,
        read_loop-eq-take room (w.outputs w.forks),
        read_loop-fits room (w.outputs w.forks),
      ))

-- A read with no path, no buffer or a buffer of 0 bytes returns -1 and forks nothing.
pub invalid_read_refused :
    (path : Option Bytes) (buffer : Option ℕ) (w : World)
    → (path ≡ none) ⊎ (buffer ≡ none) ⊎ (buffer ≡ some 0)
    → let r = file_mgr_read path buffer w in
      (r.0.0 ≡ minus_one) × (r.1.forks ≡ w.forks) × (programs r.1.trace ≡ programs w.trace)
unfolding file_mgr_read
invalid_read_refused none buffer w h = ground arith
invalid_read_refused (some path) none w h = ground arith
invalid_read_refused (some path) (some zero) w h = ground arith
invalid_read_refused (some path) (some (suc n)) w h = ground arith
