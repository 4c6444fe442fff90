-- ===== src/Cli/Ui/Menu.antt =====
-- cli/ui.c: `ui_select_menu`, by keys at a terminal and by a number without one.
pub mod Laws
pub mod Arrows
use Prim.Native.String.{String}
use nhan_linux_process.Prelude.{
  ℕ, zero, suc, ◌+◌, ◌-◌, ◌%◌, Bool, true, false, ◌&&◌, ◌||◌, Option, none, some, List, [], ◌∷◌,
  if◌then◌else◌, ◌==◌, ltb, length, codes, Bytes, ℤ, pos, negsuc, minus_one,
}
use nhan_linux_process.Libc.Numbers.{atoi}
use nhan_linux_process.Libc.Stdio.{fgets}
use nhan_linux_process.System.World.{World, M, skip, ◌>>=◌, ◌>>◌, text, nat, int, print}

pub data Key : Type 0 where
  escape enter quit other : Key

-- The tests on the byte that was read, in their order.
abbrev pub key : ℕ → Key
key c =
    if c == 27
    then escape
    else if c == b'\r' || c == b'\n'
    then enter
    else if c == b'q' || c == b'Q'
    then quit
    else other

-- What the loop reads next: a key, or the first or the second byte of `seq`.
pub data Awaits : Type 0 where
  a_key seq_0 : Awaits
  seq_1 : ℕ → Awaits

-- `selected` behind the sequence of an arrow, for `selected` below `options_count`
abbrev pub arrow : ℕ → ℕ → ℕ → ℕ → ℕ
arrow options_count selected s t =
    if s == b'['
    then (if t == b'A'
        then (selected + options_count - 1) % options_count
        else if t == b'B'
        then (selected + 1) % options_count
        else selected)
    else selected

-- The lines of the options, the one of number `selected` marked.
unfoldable pub draw_options : List String → ℕ → ℕ → M (Unit {0})
draw_options [] i selected = skip
draw_options (o ∷ options) i selected = do
  (if i == selected
      then print "  %s-> %s%s\n" (text (codes o) ∷ [])
      else print "     %s\n" (text (codes o) ∷ []))
  draw_options options (suc i) selected

-- A round of the loop up to its read; the codes of the colours are left out.
unfoldable pub draw : String → List String → ℕ → Bool → M (Unit {0})
unfolding draw_options
draw title options selected first_draw = do
  (if first_draw then skip else print "\u{1b}[%dA" (nat (length options + 4) ∷ []))
  print "%s========================================%s\n" []
  print "  %s%s%s\n" (text (codes title) ∷ [])
  print "%s========================================%s\n" []
  draw_options options 0 selected
  print "%s========================================%s\n" []

-- The loop on the bytes that are typed: the result and the system, with what is left to read.
-- `none` is a loop that does not end: at the end of the input each round reads nothing and goes on.
unfoldable pub menu_loop : String → List String → Awaits → ℕ → World → Bytes → Option (ℤ × World)
unfolding draw
menu_loop title options a_key selected w [] = none
menu_loop title options seq_0 selected w [] = some (minus_one, record w { stdin = [] })
menu_loop title options (seq_1 s) selected w [] = some (minus_one, record w { stdin = [] })
menu_loop title options a_key selected w (c ∷ cs) = elim (key c) [
  | escape ↦ menu_loop title options seq_0 selected w cs
  | enter ↦ some (pos selected, record w { stdin = cs })
  | quit ↦ some (minus_one, record w { stdin = cs })
  | other ↦ menu_loop title options a_key selected (draw title options selected false w).1 cs
]
menu_loop title options seq_0 selected w (s ∷ cs) = menu_loop title options (seq_1 s) selected w cs
menu_loop title options (seq_1 s) selected w (t ∷ cs) =
    let next = arrow (length options) selected s t in
    menu_loop title options a_key next (draw title options next false w).1 cs

-- `printf("%d. %s\n", i + 1, options[i])` for each option
unfoldable pub number_options : List String → ℕ → M (Unit {0})
number_options [] i = skip
number_options (o ∷ options) i = do
  print "%d. %s\n" (nat (i + 1) ∷ text (codes o) ∷ [])
  number_options options (i + 1)

-- `atoi(input) - 1` where it is the number of an option, or -1
abbrev pub number_of : ℕ → ℤ → ℤ
number_of options_count (pos zero) = minus_one
number_of options_count (pos (suc n)) = if ltb n options_count then pos n else minus_one
number_of options_count (negsuc n) = minus_one

-- The cursor is shown again behind the loop.
abbrev pub restored : Option (ℤ × World) → Option (ℤ × World)
restored none = none
restored (some r) = some (r.0, (print "\u{1b}[?25h" [] r.1).1)

-- The menu at a terminal
unfoldable pub select_by_keys : String → List String → World → Option (ℤ × World)
unfolding menu_loop draw
select_by_keys title options w =
    let u = (print "\u{1b}[?25l" [] w).1 in
    restored (menu_loop title options a_key 0 (draw title options 0 true u).1 w.stdin)

unfoldable pub ask_number : String → List String → M (Unit {0})
unfolding number_options
ask_number title options = do
  print "\n--- %s ---\n" (text (codes title) ∷ [])
  number_options options 0
  print "Select option [1-%d]: " (nat (length options) ∷ [])

-- What follows from the line that was read.
unfoldable pub on_line : ℕ → Option (Bytes × Bytes) → World → ℤ × World
unfolding atoi
on_line options_count none w = (minus_one, w)
on_line options_count (some (input, rest)) w =
    (number_of options_count (atoi input), record w { stdin = rest })

-- The menu without one
unfoldable pub select_by_number : String → List String → World → ℤ × World
unfolding ask_number fgets on_line
select_by_number title options w =
    let u = (ask_number title options w).1 in on_line (length options) (fgets 64 u.stdin) u

-- `has_settings` is the answer of tcgetattr, which the menu asks at a terminal.
unfoldable pub ui_select_menu : Bool → String → List String → World → Option (ℤ × World)
ui_select_menu has_settings title [] w = some (minus_one, w)
ui_select_menu has_settings title (o ∷ options) w =
    if w.is_interactive
    then (if has_settings then select_by_keys title (o ∷ options) w else some (minus_one, w))
    else some (select_by_number title (o ∷ options) w)
