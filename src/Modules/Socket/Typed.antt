-- ===== src/Modules/Socket/Typed.antt =====
-- modules/socket/: the array with the line that is being typed, against the line as a list.
use nhan_linux_process.Prelude.{
  ℕ, suc, ◌+◌, ◌-◌, ◌<◌, ◌≡◌, ◌≢◌, refl, sym, ap, ◌∙◌, arith, true, false, List, [], ◌∷◌, ◌++◌, ltb,
  length, set, take, drop, Bytes, NoNul, All-append, append_assoc, length-append, set-append,
  length-set,
}
use nhan_linux_process.Libc.Strings.{until_nul}
use nhan_linux_process.Modules.Socket.{Side, server, client, Chat, Turn, goes, ends}
use nhan_linux_process.Modules.Socket.Typing.{
  in_world, is_exit, store, erase, say_disconnected, next_line,
}
use nhan_linux_process.System.World.{print}
use nhan_linux_process.Modules.Socket.Sent.{reversed}

-- The array holds the line, whose byte typed last is in front, and a NUL behind it.
pub record IsLine (line input_buffer : Bytes) (input_len : ℕ) : Type 0 where
  pub rest : Bytes
  pub buffer : input_buffer ≡ reversed line ++ (0 ∷ rest)
  pub len : input_len ≡ length line
  pub size : length input_buffer ≡ 512
  pub no_nul : NoNul (reversed line)

abbrev pub IsTyping : Bytes → Chat → Type 0
IsTyping line s = IsLine line s.input_buffer s.input_len

length-reversed : (xs : Bytes) → length (reversed xs) ≡ length xs
length-reversed [] = refl
length-reversed (x ∷ xs) = omega (arith, length-append (reversed xs) (x ∷ []), length-reversed xs)

until_nul-append : (t rest : Bytes) → NoNul t → until_nul (t ++ (0 ∷ rest)) ≡ t
unfolding until_nul
until_nul-append [] rest h = refl
until_nul-append (c ∷ t) rest h = ground (arith, until_nul-append t rest h.1)

pub take_front : (t rest : Bytes) → take (length t) (t ++ rest) ≡ t
take_front [] rest = refl
take_front (c ∷ t) rest = ap (◌∷◌ c) (take_front t rest)

module _ (line : Bytes) (s : Chat) (h : IsTyping line s) where
  pub at_end : s.input_len ≡ length (reversed line)
  at_end = h.len ∙ sym (length-reversed line)

  rest_size : length line + suc (length h.rest) ≡ 512
  rest_size = omega (
    arith,
    h.size,
    ap length h.buffer,
    length-append (reversed line) (0 ∷ h.rest),
    length-reversed line,
  )

  -- A write where the NUL stands.
  pub write_at_end : (v : ℕ) → set s.input_buffer s.input_len v ≡ reversed line ++ (v ∷ h.rest)
  write_at_end v = rw h.buffer (set-append (reversed line) (0 ∷ h.rest) s.input_len v at_end)

-- A turn that goes on with a line, and one that ends the chat, after `sent` has been sent.
pub record GoesOn (line : Bytes) (sent : List Bytes) (t : Turn) : Type 0 where
  pub state : Chat
  pub goes_to : t ≡ goes state
  pub typing : IsTyping line state
  pub all_sent : state.sent ≡ sent

pub record Ended (sent : List Bytes) (t : Turn) : Type 0 where
  pub state : Chat
  pub ends_with : t ≡ ends state
  pub all_sent : state.sent ≡ sent

cleared : Chat → Chat
cleared s = record s { input_buffer = set s.input_buffer 0 0; input_len = 0 }

set_first : (xs : Bytes) (n : ℕ) → length xs ≡ suc n → set xs 0 0 ≡ 0 ∷ drop 1 xs
set_first [] n e = absurd (omega arith)
set_first (x ∷ xs) n e = refl

cleared-IsTyping : (s : Chat) → length s.input_buffer ≡ 512 → IsTyping [] (cleared s)
unfolding cleared
cleared-IsTyping s e = record {
  rest = drop 1 s.input_buffer;
  buffer = set_first s.input_buffer 511 e;
  len = refl;
  size = length-set s.input_buffer 0 0 ∙ e;
  no_nul = tt;
}

say_disconnected-sent : (side : Side) (s : Chat) → (say_disconnected side s).sent ≡ s.sent
unfolding say_disconnected
say_disconnected-sent server s = refl
say_disconnected-sent client s = ground arith

module _ (side : Side) (line : Bytes) (s : Chat) (h : IsTyping line s) where
  typed_line : until_nul s.input_buffer ≡ reversed line
  typed_line = ap until_nul h.buffer ∙ until_nul-append (reversed line) h.rest h.no_nul

  pub next_line-exit : is_exit (reversed line) ≡ true → Ended s.sent (next_line side s)
  unfolding next_line cleared
  next_line-exit e = record {
    state = say_disconnected side (cleared s);
    ends_with = rw (typed_line, e) refl;
    all_sent = say_disconnected-sent side (cleared s);
  }

  pub next_line-goes : is_exit (reversed line) ≡ false → GoesOn [] s.sent (next_line side s)
  unfolding next_line cleared
  next_line-goes e = record {
    state = in_world (print "You > " []) (cleared s);
    goes_to = rw (typed_line, e) refl;
    typing = cleared-IsTyping s h.size;
    all_sent = refl;
  }

store_at :
    (t rest : Bytes) (c n : ℕ)
    → n ≡ length t
    → length rest ≢ 0
    → set (set (t ++ (0 ∷ rest)) n c) (n + 1) 0 ≡ (t ++ (c ∷ [])) ++ (0 ∷ drop 1 rest)
store_at t [] c n e k = absurd (k refl)
store_at t (r ∷ rest) c n e k =
    let longer : n + 1 ≡ length (t ++ (c ∷ [])) = omega (arith, length-append t (c ∷ [])) in
    ap (λ b. set b (n + 1) 0) (set-append t (0 ∷ r ∷ rest) n c e)
    ∙ ap (λ b. set b (n + 1) 0) (sym (append_assoc t (c ∷ []) (r ∷ rest)))
    ∙ set-append (t ++ (c ∷ [])) (r ∷ rest) (n + 1) 0 longer

erase_at :
    (t rest : Bytes) (x n : ℕ)
    → n ≡ length t
    → set ((t ++ (x ∷ [])) ++ (0 ∷ rest)) n 0 ≡ t ++ (0 ∷ 0 ∷ rest)
erase_at t rest x n e =
    ap (λ b. set b n 0) (append_assoc t (x ∷ []) (0 ∷ rest)) ∙ set-append t (x ∷ 0 ∷ rest) n 0 e

NoNul-front : (t u : Bytes) → NoNul (t ++ u) → NoNul t
NoNul-front [] u h = tt
NoNul-front (c ∷ t) u h = (h.0, NoNul-front t u h.1)

pub store-IsTyping :
    (c : ℕ) (line : Bytes) (s : Chat)
    → c ≢ 0
    → length line < 511
    → IsTyping line s
    → IsTyping (c ∷ line) (store c s)
unfolding store
store-IsTyping c line s k l h = record {
  rest = drop 1 h.rest;
  buffer = rw h.buffer (
      store_at (reversed line) h.rest c s.input_len (at_end line s h)
        (λ e. absurd (omega (arith, rest_size line s h))));
  len = omega (arith, h.len);
  size =
      length-set (set s.input_buffer s.input_len c) (s.input_len + 1) 0
      ∙ length-set s.input_buffer s.input_len c
      ∙ h.size;
  no_nul = All-append (λ x. x ≢ 0) (reversed line) (c ∷ []) h.no_nul (k, tt);
}

pub erase-IsTyping :
    (x : ℕ) (line : Bytes) (s : Chat)
    → IsTyping (x ∷ line) s
    → IsTyping line (erase s) × ((erase s).sent ≡ s.sent)
unfolding erase
erase-IsTyping x line s h =
    let shorter : s.input_len - 1 ≡ length line = omega (arith, h.len) in
    let some_left : ltb 0 s.input_len ≡ true = ground (arith, h.len) in
    rw some_left (
      record {
        rest = 0 ∷ h.rest;
        buffer = rw h.buffer (
            erase_at (reversed line) h.rest x (s.input_len - 1)
              (shorter ∙ sym (length-reversed line)));
        len = shorter;
        size = length-set s.input_buffer (s.input_len - 1) 0 ∙ h.size;
        no_nul = NoNul-front (reversed line) (x ∷ []) h.no_nul;
      },
      refl,
    )

pub erase_nothing : (s : Chat) → IsTyping [] s → erase s ≡ s
unfolding erase
erase_nothing s h = ground (arith, h.len)
