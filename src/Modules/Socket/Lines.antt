-- ===== src/Modules/Socket/Lines.antt =====
-- modules/socket/: what a chat without a terminal sends.
use nhan_linux_process.Prelude.{
  ℕ, zero, suc, ◌≤◌, ◌≡◌, refl, sym, ap, ◌∙◌, arith, Option, some, List, [], ◌∷◌, ◌++◌,
  if◌then◌else◌, length, map, append-nil, append_assoc, Bytes, Bool-cases, Option-cases, inl, inr,
}
use nhan_linux_process.Libc.Strings.{is_empty}
use nhan_linux_process.Libc.Stdio.{fgets, line_of, line_of_shorter, read_lines, lines_by}
use nhan_linux_process.System.World.{World, log_error, errno_text}
use nhan_linux_process.Modules.Socket.{Side, Chat, Turn, goes, ends, new_chat, server, client}
use nhan_linux_process.Modules.Socket.Typing.{in_world, is_exit}
use nhan_linux_process.Modules.Socket.Sent.{reversed, messages, attempted}
use nhan_linux_process.Modules.Socket.Receiving.{tell_once}
use nhan_linux_process.Modules.Socket.Piped.{
  line_text, on_piped, send_piped, leave_piped, echo_sent, with_stdin, piped_loop,
}

leave_piped-sent : (side : Side) (s : Chat) → (leave_piped side s).sent ≡ s.sent
unfolding leave_piped tell_once
leave_piped-sent server s = refl
leave_piped-sent client s = ground arith

echo_sent-stdin :
    (side : Side) (n : ℕ) (message : Bytes) (w : World)
    → (echo_sent side n message w).1.stdin ≡ w.stdin
unfolding echo_sent
echo_sent-stdin server n message w = refl
echo_sent-stdin client n message w = refl

line_of_fits :
    (n c : ℕ) (cs : Bytes) (fuel : ℕ)
    → length cs ≤ fuel
    → length (line_of (suc n) (c ∷ cs)).1 ≤ fuel
line_of_fits n c cs fuel h = omega (arith, line_of_shorter n c cs)

module _ (side : Side) (answers : ℕ → Option ℕ) where
  -- A loop that ends after these texts were sent.
  abbrev Ends : Option Chat → List Bytes → Type 0
  Ends o sent = (u : Chat) × (o ≡ some u) × (reversed u.sent ≡ sent)

  abbrev rest_of : List Bytes → ℕ → List Bytes → List Bytes
  rest_of sent n lines =
      reversed sent ++ attempted answers n (messages (map (line_text side) lines))

  abbrev after : (Chat → Option Chat) → Turn → Option Chat
  after more t = elim t [ goes u ↦ more u | ends u ↦ some u ]

  -- What the loop does behind a line, with what is left of the input.
  module _ (s : Chat) (ls : List Bytes) (more : Chat → Option Chat)
      (next : (u : Chat)
        → u.world.stdin ≡ s.world.stdin
        → Ends (more u) (rest_of u.sent (length u.sent) ls)) where
    abbrev with_message : Bytes → Chat
    with_message message = record s { sent = message ∷ s.sent }

    -- Its text is given to send, and the loop ends if that fails or the text is exit.
    sent_line :
        (message : Bytes)
        → Ends (after more (send_piped side answers message s)) (
            reversed s.sent
            ++ attempted answers (length s.sent) (
                if is_exit message
                then message ∷ []
                else message ∷ messages (map (line_text side) ls)))
    unfolding send_piped
    sent_line message = elim (Option-cases (answers (length s.sent))) [
      | inl n ↦
          let u : Chat =
            in_world (log_error "SOCKET" "Socket error: send failed (errno %d)" (errno_text ∷ []))
              (with_message message) in
          elim (Bool-cases (is_exit message)) [
            | inl q ↦ (u, rw (n, send_piped) refl, rw (q, n) refl)
            | inr q ↦ (u, rw (n, send_piped) refl, rw (q, n) refl)
          ]
      | inr r ↦
          let v : Chat = in_world (echo_sent side r.0 message) (with_message message) in
          elim (Bool-cases (is_exit message)) [
            | inl q ↦ (
              leave_piped side v,
              rw (r.1, send_piped, q) refl,
              rw (q, r.1) (ap reversed (leave_piped-sent side v)),
            )
            | inr q ↦
                let t = next v (echo_sent-stdin side r.0 message s.world) in
                (
                  t.0,
                  rw (r.1, send_piped, q) t.1,
                  rw (q, r.1)
                      (t.2
                        ∙ append_assoc (reversed s.sent) (message ∷ []) (
                            attempted answers (suc (length s.sent))
                              (messages (map (line_text side) ls)))),
                )
          ]
    ]

    one_line :
        (line : Bytes)
        → Ends
            (after more (on_piped side answers line s))
            (rest_of s.sent (length s.sent) (line ∷ ls))
    unfolding on_piped
    one_line line = elim (Bool-cases (is_empty (line_text side line))) [
      | inl e ↦ rw e (next s refl)
      | inr e ↦ rw e (sent_line (line_text side line))
    ]

  by_input :
      (fuel : ℕ) (s : Chat) (input : Bytes)
      → s.world.stdin ≡ input
      → length input ≤ fuel
      → Ends
          (piped_loop side answers (suc fuel) s)
          (rest_of s.sent (length s.sent) (read_lines fuel 511 input))
  unfolding piped_loop fgets read_lines
  by_input zero s [] e h = (s, rw e refl, sym (append-nil (reversed s.sent)))
  by_input (suc fuel) s [] e h = (s, rw e refl, sym (append-nil (reversed s.sent)))
  by_input zero s (c ∷ cs) e h = absurd (omega arith)
  by_input (suc fuel) s (c ∷ cs) e h =
      let r = line_of 511 (c ∷ cs) in
      let fits : length r.1 ≤ fuel = line_of_fits 510 c cs fuel (omega arith) in
      rw e (
        one_line (with_stdin s r.1) (read_lines fuel 511 r.1) (piped_loop side answers (suc fuel))
          (λ u k. by_input fuel u r.1 k fits) r.0)

-- Either side of a chat without a terminal, where the other side does not end it: the loop over the
-- lines ends on every input, and the texts given to send are, as far as send works, the lines that
-- fgets gives in pieces of at most 511 bytes, cut at their end (the server cuts at a carriage
-- return too), without the empty ones, up to the first that is exit.
pub piped_loop-sends :
    (side : Side) (answers : ℕ → Option ℕ) (w : World)
    → (u : Chat) × (piped_loop side answers (suc (length w.stdin)) (new_chat w) ≡ some u)
      × (reversed u.sent
          ≡ attempted answers 0 (messages (map (line_text side) (lines_by 511 w.stdin))))
unfolding lines_by
piped_loop-sends side answers w =
    by_input side answers (length w.stdin) (new_chat w) w.stdin refl (omega arith)
