-- ===== src/Modules/Socket/Outcomes.antt =====
-- modules/socket/: how one step of a chat ends.
use nhan_linux_process.Prelude.{
  ℕ, ◌-◌, ◌≡◌, refl, ap, ap₂, ◌∙◌, arith, Bool, true, false, ◌&&◌, ◌||◌, Option, none, some, [],
  ◌∷◌, ◌++◌, if◌then◌else◌, ltb, leb, ◌==◌, length, set, take, Bytes, length-set, Bool-cases, inl,
  inr,
}
use nhan_linux_process.Libc.Strings.{is_empty, until_nul}
use nhan_linux_process.System.World.{log_info, log_error, errno_text}
use nhan_linux_process.Modules.Socket.{Side, server, client, Chat, goes}
use nhan_linux_process.Modules.Socket.Typing.{
  in_world, is_exit, store, erase, send_line, finish_line, log_sent, on_byte,
}
use nhan_linux_process.Modules.Socket.Receiving.{
  Received, closed, recv_failed, bytes, received_text, on_received, on_closed, tell_once,
  on_recv_failed, log_received, show_message, on_message, on_exit_message,
}
use nhan_linux_process.Modules.Socket.Sent.{reversed, is_enter, edited, closes}
use nhan_linux_process.Modules.Socket.Typed.{
  IsTyping, GoesOn, Ended, write_at_end, at_end, take_front, next_line-exit, next_line-goes,
  store-IsTyping, erase-IsTyping, erase_nothing,
}

-- The array once the line is finished.
abbrev pub ended_line : Chat → Chat
ended_line s = record s { input_buffer = set s.input_buffer s.input_len 0 }

pub ended_line-IsTyping : (line : Bytes) (s : Chat) → IsTyping line s → IsTyping line (ended_line s)
ended_line-IsTyping line s h = record {
  rest = h.rest;
  buffer = write_at_end line s h 0;
  len = h.len;
  size = length-set s.input_buffer s.input_len 0 ∙ h.size;
  no_nul = h.no_nul;
}

-- A byte that is stored in an array with `n` bytes.
abbrev fits : ℕ → ℕ → Bool
fits c n = leb 32 c && (ltb c 127 && ltb n 511)

pub is_empty-last : (xs : Bytes) (x : ℕ) → is_empty (xs ++ (x ∷ [])) ≡ false
is_empty-last [] x = refl
is_empty-last (y ∷ xs) x = refl

on_closed-sent : (side : Side) (s : Chat) → (on_closed side true s).sent ≡ s.sent
unfolding on_closed tell_once
on_closed-sent server s = refl
on_closed-sent client s = ground arith

on_exit_message-sent : (side : Side) (s : Chat) → (on_exit_message side true s).sent ≡ s.sent
unfolding on_exit_message tell_once
on_exit_message-sent server s = refl
on_exit_message-sent client s = ground arith

module _ (side : Side) (answers : ℕ → Option ℕ) where
  pub finish_line_empty : (s : Chat) → IsTyping [] s → GoesOn [] s.sent (finish_line side answers s)
  unfolding finish_line
  finish_line_empty s h =
      let nothing : ltb 0 s.input_len ≡ false = ground (arith, h.len) in
      rw nothing (next_line-goes side [] (ended_line s) (ended_line-IsTyping [] s h) refl)

  module _ (line : Bytes) (s : Chat) (h : IsTyping line s) where
    message : take s.input_len s.input_buffer ≡ reversed line
    message = ap₂ take (at_end line s h) h.buffer ∙ take_front (reversed line) (0 ∷ h.rest)

    abbrev after : Chat → Chat
    after u = record u { sent = reversed line ∷ u.sent }

    pub send_fails :
        answers (length s.sent) ≡ none → Ended (reversed line ∷ s.sent) (send_line side answers s)
    unfolding send_line
    send_fails e = record {
      state =
          in_world (log_error "SOCKET" "Socket error: send failed (errno %d)" (errno_text ∷ []))
            (after s);
      ends_with = rw (e, message, send_line) refl;
      all_sent = refl;
    }

    pub send_exits :
        (n : ℕ)
        → answers (length s.sent) ≡ some n
        → is_exit (reversed line) ≡ true
        → Ended (reversed line ∷ s.sent) (send_line side answers s)
    unfolding send_line
    send_exits n e x =
        rw (e, message, send_line)
          (next_line-exit side line
            (in_world (log_sent side n (until_nul s.input_buffer)) (after s)) h x)

    pub send_goes :
        (n : ℕ)
        → answers (length s.sent) ≡ some n
        → is_exit (reversed line) ≡ false
        → GoesOn [] (reversed line ∷ s.sent) (send_line side answers s)
    unfolding send_line
    send_goes n e x =
        rw (e, message, send_line)
          (next_line-goes side line
            (in_world (log_sent side n (until_nul s.input_buffer)) (after s)) h x)

  -- A newline on a line that is not empty sends it.
  module _ (x : ℕ) (line : Bytes) (s : Chat) (h : IsTyping (x ∷ line) s) where
    pub finish_line_sends : finish_line side answers s ≡ send_line side answers (ended_line s)
    unfolding finish_line
    finish_line_sends = let more : ltb 0 s.input_len ≡ true = ground (arith, h.len) in rw more refl

  erasing :
      (line : Bytes) (s : Chat)
      → IsTyping line s
      → GoesOn (elim line [ [] ↦ [] | x ∷ xs ↦ xs ]) s.sent (goes (erase s))
  erasing [] s h = record {
    state = s;
    goes_to = ap goes (erase_nothing s h);
    typing = h;
    all_sent = refl;
  }
  erasing (x ∷ line) s h = record {
    state = erase s;
    goes_to = refl;
    typing = (erase-IsTyping x line s h).0;
    all_sent = (erase-IsTyping x line s h).1;
  }

  typing_on :
      (c : ℕ) (line : Bytes) (s : Chat)
      → IsTyping line s
      → GoesOn
          (if leb 32 c && (ltb c 127 && ltb (length line) 511) then c ∷ line else line)
          s.sent
          (if leb 32 c && (ltb c 127 && ltb s.input_len (512 - 1))
            then goes (store c s)
            else goes s)
  unfolding store
  typing_on c line s h =
      let same : fits c s.input_len ≡ fits c (length line) = ap (fits c) h.len in
      elim (Bool-cases (fits c (length line))) [
        | inl e ↦
            rw (same ∙ e, e)
              (record {
                state = store c s;
                goes_to = refl;
                typing = store-IsTyping c line s (ground arith) (ground arith) h;
                all_sent = refl;
              })
        | inr e ↦
            rw (same ∙ e, e) (record { state = s; goes_to = refl; typing = h; all_sent = refl })
      ]

  pub plain_byte :
      (c : ℕ) (line : Bytes) (s : Chat)
      → IsTyping line s
      → is_enter c ≡ false
      → GoesOn (edited c line) s.sent (on_byte side answers c s)
  unfolding on_byte
  plain_byte c line s h e = elim (Bool-cases (c == 127 || c == 8)) [
    | inl b ↦ rw (e, b) (erasing line s h)
    | inr b ↦ rw (e, b) (typing_on c line s h)
  ]

  pub received_ends :
      (r : Received) (s : Chat) → closes r ≡ true → Ended s.sent (on_received side true r s)
  unfolding on_received on_message
  received_ends closed s e = record {
    state = in_world (log_info "SOCKET" "Terminal closed" []) (on_closed side true s);
    ends_with = refl;
    all_sent = on_closed-sent side s;
  }
  received_ends recv_failed s e = record {
    state =
        in_world (log_info "SOCKET" "Terminal closed" []) (in_world (on_recv_failed side true) s);
    ends_with = refl;
    all_sent = refl;
  }
  received_ends (bytes got) s e =
      let u : Chat = in_world (log_received side (length got) (received_text got)) s in
      record {
        state = in_world (log_info "SOCKET" "Terminal closed" []) (on_exit_message side true u);
        ends_with = rw e refl;
        all_sent = on_exit_message-sent side u;
      }

  pub received_goes :
      (r : Received) (line : Bytes) (s : Chat)
      → IsTyping line s
      → closes r ≡ false
      → GoesOn line s.sent (on_received side true r s)
  unfolding on_received on_message
  received_goes closed line s h e = ground arith
  received_goes recv_failed line s h e = ground arith
  received_goes (bytes got) line s h e =
      let message : Bytes = received_text got in
      let u : Chat = in_world (log_received side (length got) message) s in
      record {
        state = in_world (show_message side true message (until_nul u.input_buffer)) u;
        goes_to = rw e refl;
        typing = h;
        all_sent = refl;
      }
