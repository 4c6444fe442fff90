-- ===== src/Modules/Socket/Sent.antt =====
-- modules/socket/: what a chat sends, from the bytes that are typed alone.
use nhan_linux_process.Prelude.{
  ℕ, suc, Bool, true, ◌&&◌, ◌||◌, Option, none, some, List, [], ◌∷◌, ◌++◌, if◌then◌else◌, ltb, leb,
  ◌==◌, length, Bytes,
}
use nhan_linux_process.Libc.Strings.{is_empty}
use nhan_linux_process.Modules.Socket.Typing.{is_exit}
use nhan_linux_process.Modules.Socket.Receiving.{
  Received, closed, recv_failed, bytes, received_text,
}
use nhan_linux_process.Modules.Socket.Steps.{ChatStep, typed_byte, from_peer}

abbrev pub reversed {ℓ} : {A : Type ℓ} → List A → List A
reversed [] = []
reversed (c ∷ cs) = reversed cs ++ (c ∷ [])

abbrev pub is_enter : ℕ → Bool
is_enter c = c == b'\n' || c == b'\r'

-- A byte on the line of the editor, which has the byte typed last in front.
abbrev pub edited : ℕ → Bytes → Bytes
edited c line =
    if c == 127 || c == 8
    then (elim line [ [] ↦ [] | x ∷ xs ↦ xs ])
    else if leb 32 c && (ltb c 127 && ltb (length line) 511)
    then c ∷ line
    else line

-- The lines that are finished.
abbrev pub typed_lines : Bytes → Bytes → List Bytes
typed_lines line [] = []
typed_lines line (c ∷ cs) =
    if is_enter c then reversed line ∷ typed_lines [] cs else typed_lines (edited c line) cs

-- The lines that are not empty, up to the first that is `exit`.
abbrev pub messages : List Bytes → List Bytes
messages [] = []
messages (l ∷ ls) =
    if is_empty l then messages ls else if is_exit l then l ∷ [] else l ∷ messages ls

-- As far as send works: call number `n` is the next.
abbrev pub attempted : (ℕ → Option ℕ) → ℕ → List Bytes → List Bytes
attempted answers n [] = []
attempted answers n (m ∷ ms) =
    m ∷ elim (answers n) [ none ↦ [] | some _ ↦ attempted answers (suc n) ms ]

abbrev pub closes : Received → Bool
closes closed = true
closes recv_failed = true
closes (bytes got) = is_exit (received_text got)

-- The bytes that are typed before the other side ends the chat.
abbrev pub keys : List ChatStep → Bytes
keys [] = []
keys (typed_byte c ∷ ts) = c ∷ keys ts
keys (from_peer r ∷ ts) = if closes r then [] else keys ts
