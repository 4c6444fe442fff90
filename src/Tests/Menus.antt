-- ===== src/Tests/Menus.antt =====
-- Runs of the menus and of the modes of app/main.c.
use Prim.Native.String.{String}
use nhan_linux_process.Prelude.{
  ℕ, ◌+◌, ◌-◌, ◌%◌, ◌^◌, ◌≢◌, min, true, false, some, List, [], ◌∷◌, ◌++◌, length, codes, Bytes,
  pos, to_int, All, ◌≡◌, refl, arith,
}
use nhan_linux_process.Libc.Numbers.{decimal, Digits}
use nhan_linux_process.System.World.{World, M}
use nhan_linux_process.Cli.Parser.RoundTrip.{Bare, spaced}
use nhan_linux_process.Cli.Ui.Menu.{ui_select_menu}
use nhan_linux_process.Cli.Ui.Menu.Laws.{Chooses, ui_select_menu-Chooses}
use nhan_linux_process.Cli.Ui.Menu.Arrows.{
  Arrow, up, down, presses, ups, downs, Reaches, ui_select_menu-presses,
}
use nhan_linux_process.Cli.Repl.{route_and_dispatch}
use nhan_linux_process.App.Menu.{menu_read_choice, menu_read_choice-Digits}
use nhan_linux_process.App.Main.{has_classic, direct_start, main, classic_round}
use nhan_linux_process.App.Main.Laws.{Goes, classic_round-presses, main_runs_words}
use nhan_linux_process.Tests.{world, recorder}

abbrev options : List String
options = "one" ∷ "two" ∷ "three" ∷ []

-- Two up and one down, then enter: the last of three options.
abbrev keys : Bytes
keys = 27 ∷ b'[' ∷ b'A' ∷ 27 ∷ b'[' ∷ b'A' ∷ 27 ∷ b'[' ∷ b'B' ∷ b'\n' ∷ b'x' ∷ []

abbrev arrows : List Arrow
arrows = up ∷ up ∷ down ∷ []

keys_are_arrows : (world [] keys).stdin ≡ presses arrows ++ (b'\n' ∷ (b'x' ∷ []))
unfolding presses
keys_are_arrows = refl

ui_select_menu-presses_example :
    Reaches
      (length options)
      0
      arrows
      (b'x' ∷ [])
      (ui_select_menu true "Numbers" options (world [] keys))
ui_select_menu-presses_example =
    ui_select_menu-presses "Numbers" options arrows (b'x' ∷ []) (world [] keys) (omega arith) refl
      keys_are_arrows

ui_select_menu-Chooses_example :
    Chooses (length options) (ui_select_menu true "Numbers" options (world [] keys))
ui_select_menu-Chooses_example = ui_select_menu-Chooses true "Numbers" options (world [] keys)

abbrev no_manager : ℕ → M (Unit {0})
no_manager n w = (tt, w)

classic_round-presses_example :
    (k : ℕ) × (u : World) × ((k + ups arrows) % 8 ≡ downs arrows % 8)
    × (u.stdin ≡ b'x' ∷ [])
    × Goes true no_manager u k (classic_round true no_manager (world [] keys))
classic_round-presses_example =
    classic_round-presses true no_manager arrows (b'x' ∷ []) (world [] keys) refl refl
      keys_are_arrows

-- A choice that is 2 ^ 32 + 1
abbrev large : World
large = world [] (codes "4294967297" ++ (b'\n' ∷ []))

large-Digits : Digits (codes "4294967297")
large-Digits = ground arith

menu_read_choice-Digits_example : menu_read_choice large ≡ (
  to_int (pos (min (decimal 0 (codes "4294967297")) (2 ^ 63 - 1))),
  record large { stdin = [] },
)
menu_read_choice-Digits_example =
    menu_read_choice-Digits b'4' (codes "294967297") [] large large-Digits (omega arith) refl

reads_one : (menu_read_choice large).0 ≡ pos 1
unfolding menu_read_choice
reads_one = refl

abbrev words : List Bytes
words = codes "file" ∷ codes "list" ∷ codes "docs" ∷ []

words-Bare : All (λ u. Bare u × (u ≢ [])) words
words-Bare = ground arith

not_classic : has_classic words ≡ false
unfolding has_classic
not_classic = refl

main_runs_words_example :
    main false no_manager recorder 0 words (world [] [])
    ≡ some
        (route_and_dispatch recorder words (
          direct_start
            (codes "file" ++ spaced (codes "list" ∷ codes "docs" ∷ []))
            (world [] []))).1.world
main_runs_words_example =
    main_runs_words false no_manager recorder 0 b'f' (codes "ile")
      (codes "list" ∷ codes "docs" ∷ []) (world [] []) words-Bare (λ e. cc) (omega arith)
      not_classic
