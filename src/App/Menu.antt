-- ===== src/App/Menu.antt =====
-- app/menu.c: reading a choice, and the pause behind a command.
use Prim.Native.String.{String}
use nhan_linux_process.Prelude.{
  ℕ, zero, suc, ◌-◌, ◌^◌, ◌<◌, Option, none, some, [], ◌∷◌, ◌++◌, if◌then◌else◌, ◌==◌, min, length,
  codes, Bytes, ℤ, pos, minus_one, to_int, ◌≡◌, refl, ap, ◌∙◌, arith,
}
use nhan_linux_process.Libc.Strings.{is_empty, chomp}
use nhan_linux_process.Libc.Numbers.{strtol, decimal, Digits, strtol-Digits}
use nhan_linux_process.Libc.Stdio.{fgets, line_of}
use nhan_linux_process.System.World.{World, M, ◌>>◌, text, print}

abbrev pub app_version : String
app_version = "0.7.0-shell-complete"

unfoldable pub menu_clear_screen : M (Unit {0})
menu_clear_screen = print "\u{1b}[H\u{1b}[2J" []

unfoldable pub menu_display_main : M (Unit {0})
menu_display_main = do
  print "%s========================================\n" []
  print "      Linux System Manager (v%s)\n" (text (codes app_version) ∷ [])
  print "========================================%s\n" []
  print "1. File Manager\n" []
  print "2. Process Manager\n" []
  print "3. Network Manager\n" []
  print "4. Socket Manager\n" []
  print "5. Package Manager\n" []
  print "6. Shell Manager\n" []
  print "7. Kernel Module\n" []
  print "0. Exit\n" []
  print "%s----------------------------------------%s\n" []
  print "Select option: " []

-- The number on a line without its newline, -1 where there is none
unfoldable pub choice_of : Bytes → ℤ
unfolding strtol
choice_of line =
    if is_empty line
    then minus_one
    else let (val, end) = strtol line in if is_empty end then to_int val else minus_one

unfoldable on_line : Option (Bytes × Bytes) → M ℤ
unfolding choice_of chomp
on_line none w = (minus_one, w)
on_line (some (line, rest)) w = (choice_of (chomp line), record w { stdin = rest })

unfoldable pub menu_read_choice : M ℤ
unfolding on_line fgets
menu_read_choice w = on_line (fgets 128 w.stdin) w

-- The input behind the next newline
pub after_newline : Bytes → Bytes
after_newline [] = []
after_newline (c ∷ cs) = let rest = after_newline cs in if c == b'\n' then cs else rest

unfoldable pub menu_pause : M (Unit {0})
unfolding after_newline
menu_pause w =
    let u = (print "\nPress ENTER to continue..." [] w).1 in
    (tt, record u { stdin = after_newline u.stdin })

-- A line of digits that fits the buffer is read whole, up to its newline.
line_of-Digits :
    (n : ℕ) (ds rest : Bytes)
    → Digits ds
    → length ds < n
    → line_of n (ds ++ (b'\n' ∷ rest)) ≡ (ds ++ (b'\n' ∷ []), rest)
unfolding line_of
line_of-Digits zero ds rest h k = absurd (omega arith)
line_of-Digits (suc n) [] rest h k = refl
line_of-Digits (suc n) (d ∷ ds) rest h k = ground (arith, line_of-Digits n ds rest h.1)

chomp-Digits : (ds : Bytes) → Digits ds → chomp (ds ++ (b'\n' ∷ [])) ≡ ds
unfolding chomp
chomp-Digits [] h = refl
chomp-Digits (d ∷ ds) h = ground (arith, chomp-Digits ds h.1)

choice_of-Digits :
    (d : ℕ) (ds : Bytes)
    → Digits (d ∷ ds)
    → choice_of (d ∷ ds) ≡ to_int (pos (min (decimal 0 (d ∷ ds)) (2 ^ 63 - 1)))
unfolding choice_of
choice_of-Digits d ds h = rw (strtol-Digits d ds h) refl

fgets-Digits :
    (d : ℕ) (ds rest : Bytes)
    → Digits (d ∷ ds)
    → length (d ∷ ds) < 127
    → fgets 128 ((d ∷ ds) ++ (b'\n' ∷ rest)) ≡ some ((d ∷ ds) ++ (b'\n' ∷ []), rest)
unfolding fgets
fgets-Digits d ds rest h k = ap some (line_of-Digits 127 (d ∷ ds) rest h k)

on_Digits :
    (d : ℕ) (ds rest : Bytes) (w : World)
    → Digits (d ∷ ds)
    → on_line (some ((d ∷ ds) ++ (b'\n' ∷ []), rest)) w
      ≡ (to_int (pos (min (decimal 0 (d ∷ ds)) (2 ^ 63 - 1))), record w { stdin = rest })
unfolding on_line
on_Digits d ds rest w h =
    ap (λ v. (v, record w { stdin = rest }))
      (ap choice_of (chomp-Digits (d ∷ ds) h) ∙ choice_of-Digits d ds h)

-- A line of fewer than 127 digits is read as a choice whose value is the number, at most 2 ^ 63 -
-- 1, converted to int by its low 32 bits, and the input behind the newline is left.
pub menu_read_choice-Digits :
    (d : ℕ) (ds rest : Bytes) (w : World)
    → Digits (d ∷ ds)
    → length (d ∷ ds) < 127
    → w.stdin ≡ (d ∷ ds) ++ (b'\n' ∷ rest)
    → menu_read_choice w
      ≡ (to_int (pos (min (decimal 0 (d ∷ ds)) (2 ^ 63 - 1))), record w { stdin = rest })
unfolding menu_read_choice
menu_read_choice-Digits d ds rest w h k e =
    ap (λ s. on_line (fgets 128 s) w) e
    ∙ ap (λ o. on_line o w) (fgets-Digits d ds rest h k)
    ∙ on_Digits d ds rest w h

-- At the end of the input there is no choice, and the pause reads nothing.
pub menu_read_choice_at_end : (w : World) → w.stdin ≡ [] → menu_read_choice w ≡ (minus_one, w)
unfolding menu_read_choice on_line
menu_read_choice_at_end w e = ap (λ s. on_line (fgets 128 s) w) e

pub menu_pause_at_end :
    (w : World)
    → w.stdin ≡ []
    → ((menu_pause w).1.stdin ≡ []) × ((menu_pause w).1.is_interactive ≡ w.is_interactive)
unfolding menu_pause after_newline
menu_pause_at_end w e = (ap after_newline e, refl)
