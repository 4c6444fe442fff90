-- ===== src/Cli/Ui/Menu/Laws.antt =====
-- cli/ui.c: what `ui_select_menu` returns.
use Prim.Native.String.{String}
use nhan_linux_process.Prelude.{
  ℕ, zero, suc, ◌<◌, Bool, false, Option, none, some, List, [], ◌∷◌, ltb, ltb→lt, length, Bytes, ℤ,
  pos, negsuc, minus_one, ◌≡◌, ◌⊎◌, refl, arith, inl, inr, Bool-cases, if_elim,
}
use nhan_linux_process.Libc.Numbers.{atoi}
use nhan_linux_process.Libc.Stdio.{fgets}
use nhan_linux_process.System.World.{World}
use nhan_linux_process.Cli.Ui.Menu.{
  Key, escape, enter, quit, other, key, Awaits, a_key, seq_0, seq_1, arrow, draw, menu_loop,
  number_of, restored, on_line, ask_number, select_by_keys, select_by_number, ui_select_menu,
}

-- The number of one of `n` options, or -1.
pub data Chosen (n : ℕ) : ℤ → Type 0 where
  chosen : (k : ℕ) → k < n → Chosen n (pos k)
  none_chosen : Chosen n minus_one

-- A result, if there is one, is a choice.
pub data Chooses (n : ℕ) : Option (ℤ × World) → Type 0 where
  does_not_end : Chooses n none
  returns : (v : ℤ) (w : World) → Chosen n v → Chooses n (some (v, w))

key_cases : (k : Key) → ((k ≡ escape) ⊎ (k ≡ enter)) ⊎ ((k ≡ quit) ⊎ (k ≡ other))
key_cases escape = inl (inl refl)
key_cases enter = inl (inr refl)
key_cases quit = inr (inl refl)
key_cases other = inr (inr refl)

pub arrow_in_range : (n selected s t : ℕ) → selected < n → arrow n selected s t < n
arrow_in_range n selected s t h = ground arith

menu_loop-Chooses :
    (title : String) (options : List String) (a : Awaits) (selected : ℕ) (w : World) (ks : Bytes)
    → selected < length options
    → Chooses (length options) (menu_loop title options a selected w ks)
unfolding menu_loop
menu_loop-Chooses title options a_key selected w [] h = does_not_end
menu_loop-Chooses title options seq_0 selected w [] h = returns _ _ none_chosen
menu_loop-Chooses title options (seq_1 s) selected w [] h = returns _ _ none_chosen
menu_loop-Chooses title options a_key selected w (c ∷ cs) h = elim (key_cases (key c)) [
  | inl (inl e) ↦ rw (menu_loop, e) (menu_loop-Chooses title options seq_0 selected w cs h)
  | inl (inr e) ↦ rw (menu_loop, e) (returns _ _ (chosen selected h))
  | inr (inl e) ↦ rw (menu_loop, e) (returns _ _ none_chosen)
  | inr (inr e) ↦
      rw (menu_loop, e)
        (menu_loop-Chooses title options a_key selected (draw title options selected false w).1 cs
          h)
]
menu_loop-Chooses title options seq_0 selected w (s ∷ cs) h =
    menu_loop-Chooses title options (seq_1 s) selected w cs h
menu_loop-Chooses title options (seq_1 s) selected w (t ∷ cs) h =
    menu_loop-Chooses title options a_key (arrow (length options) selected s t) _ cs
      (arrow_in_range (length options) selected s t h)

number_of-Chosen : (n : ℕ) (v : ℤ) → Chosen n (number_of n v)
number_of-Chosen n (pos zero) = none_chosen
number_of-Chosen n (pos (suc k)) = elim (Bool-cases (ltb k n)) [
  | inl e ↦ rw e (chosen k (ltb→lt k n e))
  | inr e ↦ rw e none_chosen
]
number_of-Chosen n (negsuc k) = none_chosen

on_line-Chosen : (n : ℕ) (o : Option (Bytes × Bytes)) (w : World) → Chosen n (on_line n o w).0
unfolding on_line
on_line-Chosen n none w = none_chosen
on_line-Chosen n (some (input, rest)) w = number_of-Chosen n (atoi input)

select_by_number-Chosen :
    (title : String) (options : List String) (w : World)
    → Chosen (length options) (select_by_number title options w).0
unfolding select_by_number
select_by_number-Chosen title options w =
    let u = (ask_number title options w).1 in on_line-Chosen (length options) (fgets 64 u.stdin) u

restored-Chooses : {n : ℕ} {o : Option (ℤ × World)} → Chooses n o → Chooses n (restored o)
restored-Chooses does_not_end = does_not_end
restored-Chooses (returns v w c) = returns v _ c

select_by_keys-Chooses :
    (title : String) (options : List String) (w : World)
    → 0 < length options
    → Chooses (length options) (select_by_keys title options w)
unfolding select_by_keys
select_by_keys-Chooses title options w h =
    restored-Chooses (menu_loop-Chooses title options a_key 0 _ w.stdin h)

-- At a terminal or not, with any options and any input, a menu that returns gives -1 or the number
-- of one of its options.
pub ui_select_menu-Chooses :
    (has_settings : Bool) (title : String) (options : List String) (w : World)
    → Chooses (length options) (ui_select_menu has_settings title options w)
unfolding ui_select_menu
ui_select_menu-Chooses has_settings title [] w = returns _ _ none_chosen
ui_select_menu-Chooses has_settings title (o ∷ options) w =
    if_elim (Chooses (length (o ∷ options))) w.is_interactive
      (if_elim (Chooses (length (o ∷ options))) has_settings
        (select_by_keys-Chooses title (o ∷ options) w (omega arith)) (returns _ _ none_chosen))
      (returns _ _ (select_by_number-Chosen title (o ∷ options) w))
