-- ===== src/Modules/Socket/Sends.antt =====
-- modules/socket/: what the steps of a chat send.
use nhan_linux_process.Prelude.{
  ℕ, suc, ◌≡◌, refl, sym, ◌∙◌, true, Option, none, List, [], ◌∷◌, ◌++◌, length, Bytes, append_assoc,
  append-nil, Bool-cases, Option-cases, inl, inr,
}
use nhan_linux_process.System.World.{World}
use nhan_linux_process.Modules.Socket.{Side, Chat, zeros, new_chat}
use nhan_linux_process.Modules.Socket.Typing.{is_exit, send_line, finish_line, on_byte}
use nhan_linux_process.Modules.Socket.Steps.{
  ChatStep, typed_byte, from_peer, on_step, chat, state_of,
}
use nhan_linux_process.Modules.Socket.Sent.{
  reversed, is_enter, edited, typed_lines, messages, attempted, closes, keys,
}
use nhan_linux_process.Modules.Socket.Outcomes.{
  finish_line_empty, send_fails, send_exits, send_goes, finish_line_sends, plain_byte,
  received_ends, received_goes, is_empty-last, ended_line, ended_line-IsTyping,
}
use nhan_linux_process.Modules.Socket.Typed.{IsTyping, GoesOn, Ended}

module _ (side : Side) (answers : ℕ → Option ℕ) where
  -- What is sent by the end of the steps, if `line` is being typed in front of them.
  abbrev Sends : List ChatStep → Chat → Bytes → Type 0
  Sends ts s line =
      reversed (state_of (chat side answers ts s)).sent
      ≡ reversed s.sent ++ attempted answers (length s.sent) (messages (typed_lines line (keys ts)))

  -- What the rest of the chat sends, behind a step that goes on and behind one that ends it.
  goes_on :
      (t : ChatStep) (ts : List ChatStep) (s : Chat) (line : Bytes) (sent : List Bytes)
      → GoesOn line sent (on_step side answers t s)
      → ((u : Chat) → IsTyping line u → Sends ts u line)
      → reversed (state_of (chat side answers (t ∷ ts) s)).sent
        ≡ reversed sent ++ attempted answers (length sent) (messages (typed_lines line (keys ts)))
  unfolding chat
  goes_on t ts s line sent g step = rw (g.goes_to, chat, ← g.all_sent) (step g.state g.typing)

  ended :
      (t : ChatStep) (ts : List ChatStep) (s : Chat) (sent : List Bytes)
      → Ended sent (on_step side answers t s)
      → reversed (state_of (chat side answers (t ∷ ts) s)).sent ≡ reversed sent
  unfolding chat
  ended t ts s sent g = rw (g.ends_with, chat, ← g.all_sent) refl

  on_enter :
      (c : ℕ) (s : Chat)
      → is_enter c ≡ true
      → on_step side answers (typed_byte c) s ≡ finish_line side answers s
  unfolding on_step on_byte
  on_enter c s e = rw e refl

  -- A line that is finished and not empty.
  module _ (c x : ℕ) (line : Bytes) (s : Chat) (h : IsTyping (x ∷ line) s)
      (e : is_enter c ≡ true) where
    abbrev this : Bytes
    this = reversed (x ∷ line)

    as_sent : on_step side answers (typed_byte c) s ≡ send_line side answers (ended_line s)
    as_sent = on_enter c s e ∙ finish_line_sends side answers x line s h

    finished : IsTyping (x ∷ line) (ended_line s)
    finished = ended_line-IsTyping (x ∷ line) s h

    fails :
        answers (length s.sent) ≡ none
        → Ended (this ∷ s.sent) (send_line side answers (ended_line s))
    fails n = send_fails side answers (x ∷ line) (ended_line s) finished n

    ends_here :
        (ts : List ChatStep)
        → Ended (this ∷ s.sent) (send_line side answers (ended_line s))
        → reversed (state_of (chat side answers (typed_byte c ∷ ts) s)).sent
          ≡ reversed (this ∷ s.sent)
    ends_here ts t = ended (typed_byte c) ts s (this ∷ s.sent) (rw as_sent t)

    newline_sends :
        (ts : List ChatStep)
        → ((u : Chat) → IsTyping [] u → Sends ts u [])
        → Sends (typed_byte c ∷ ts) s (x ∷ line)
    newline_sends ts step = elim (Option-cases (answers (length s.sent))) [
      | inl n ↦ elim (Bool-cases (is_exit this)) [
        | inl q ↦ rw (e, is_empty-last (reversed line) x, q, n) (ends_here ts (fails n))
        | inr q ↦ rw (e, is_empty-last (reversed line) x, q, n) (ends_here ts (fails n))
      ]
      | inr r ↦ elim (Bool-cases (is_exit this)) [
        | inl q ↦
            rw (e, is_empty-last (reversed line) x, q, r.1)
              (ends_here ts (send_exits side answers (x ∷ line) (ended_line s) finished r.0 r.1 q))
        | inr q ↦
            rw (e, is_empty-last (reversed line) x, q, r.1)
              (goes_on (typed_byte c) ts s [] (this ∷ s.sent)
                  (rw as_sent (send_goes side answers (x ∷ line) (ended_line s) finished r.0 r.1 q))
                  step
                ∙ append_assoc (reversed s.sent) (this ∷ [])
                    (attempted answers (suc (length s.sent)) (messages (typed_lines [] (keys ts)))))
      ]
    ]

  newline :
      (c : ℕ) (line : Bytes) (s : Chat)
      → IsTyping line s
      → is_enter c ≡ true
      → (ts : List ChatStep) → ((u : Chat) → IsTyping [] u → Sends ts u [])
      → Sends (typed_byte c ∷ ts) s line
  newline c [] s h e ts step = rw e (
      goes_on (typed_byte c) ts s [] s.sent
        (rw (on_enter c s e) (finish_line_empty side answers s h)) step)
  newline c (x ∷ line) s h e ts step = newline_sends c x line s h e ts step

  sends : (ts : List ChatStep) (s : Chat) (line : Bytes) → IsTyping line s → Sends ts s line
  unfolding chat on_step
  sends [] s line h = sym (append-nil (reversed s.sent))
  sends (typed_byte c ∷ ts) s line h = elim (Bool-cases (is_enter c)) [
    | inr e ↦ rw e (
        goes_on (typed_byte c) ts s (edited c line) s.sent (plain_byte side answers c line s h e)
          (λ u. sends ts u (edited c line)))
    | inl e ↦ newline c line s h e ts (λ u. sends ts u [])
  ]
  sends (from_peer r ∷ ts) s line h = elim (Bool-cases (closes r)) [
    | inl e ↦
        rw (e, append-nil (reversed s.sent))
          (ended (from_peer r) ts s s.sent (received_ends side answers r s e))
    | inr e ↦ rw e (
        goes_on (from_peer r) ts s line s.sent (received_goes side answers r line s h e)
          (λ u. sends ts u line))
  ]

new_chat-IsTyping : (w : World) → IsTyping [] (new_chat w)
new_chat-IsTyping w = record {
  rest = zeros 511;
  buffer = refl;
  len = refl;
  size = refl;
  no_nul = tt;
}

-- On either side of a chat at a terminal, for every order of the bytes that are typed and of what
-- recv gives, the array and its length starting empty: the texts given to send are, as far as send
-- works, the finished lines of what is typed before the other side ends the chat (by closing, an
-- error or an exit message), each edited by its backspaces and kept to 511 printable bytes, without
-- the empty ones, up to the first that is exit; received messages do not change them.
pub chat_sends :
    (side : Side) (answers : ℕ → Option ℕ) (ts : List ChatStep) (w : World)
    → reversed (state_of (chat side answers ts (new_chat w))).sent
      ≡ attempted answers 0 (messages (typed_lines [] (keys ts)))
chat_sends side answers ts w = sends side answers ts (new_chat w) [] (new_chat-IsTyping w)
