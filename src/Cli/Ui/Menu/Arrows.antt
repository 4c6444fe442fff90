-- ===== src/Cli/Ui/Menu/Arrows.antt =====
-- cli/ui.c: where the arrows of `ui_select_menu` lead.
use Prim.Native.String.{String}
use native.Mathlib.Nat.{mod-add-mod, add-mod_right}
use nhan_linux_process.Prelude.{
  ℕ, suc, ◌+◌, ◌-◌, ◌%◌, ◌<◌, true, false, Option, some, List, [], ◌∷◌, ◌++◌, length, Bytes, ℤ, pos,
  ◌≡◌, refl, sym, ap, ◌∙◌, arith,
}
use nhan_linux_process.System.World.{World}
use nhan_linux_process.Cli.Ui.Menu.{
  a_key, draw, menu_loop, restored, select_by_keys, ui_select_menu,
}
use nhan_linux_process.Cli.Ui.Menu.Laws.{arrow_in_range}

pub data Arrow : Type 0 where
  up down : Arrow

-- What a terminal sends for arrows
unfoldable pub presses : List Arrow → Bytes
presses [] = []
presses (up ∷ arrows) = 27 ∷ b'[' ∷ b'A' ∷ presses arrows
presses (down ∷ arrows) = 27 ∷ b'[' ∷ b'B' ∷ presses arrows

unfoldable pub ups : List Arrow → ℕ
ups [] = 0
ups (up ∷ arrows) = suc (ups arrows)
ups (down ∷ arrows) = ups arrows

unfoldable pub downs : List Arrow → ℕ
downs [] = 0
downs (up ∷ arrows) = downs arrows
downs (down ∷ arrows) = suc (downs arrows)

down_step :
    (n k u d selected : ℕ)
    → (k + u) % n ≡ ((selected + 1) % n + d) % n
    → (k + u) % n ≡ (selected + suc d) % n
down_step n k u d selected h = h ∙ mod-add-mod (selected + 1) n d ∙ ap (λ m. m % n) (omega arith)

up_step :
    (n k u d selected : ℕ)
    → 0 < n
    → (k + u) % n ≡ ((selected + n - 1) % n + d) % n
    → (k + suc u) % n ≡ (selected + d) % n
up_step n k u d selected p h =
    let split : k + suc u ≡ k + u + 1 = omega arith in
    let join : selected + n - 1 + d + 1 ≡ selected + d + n = omega arith in
    ap (λ m. m % n) split
    ∙ sym (mod-add-mod (k + u) n 1)
    ∙ ap (λ m. (m + 1) % n) (h ∙ mod-add-mod (selected + n - 1) n d)
    ∙ mod-add-mod (selected + n - 1 + d) n 1
    ∙ ap (λ m. m % n) join
    ∙ add-mod_right (selected + d) n

-- The option `k` that is reached from `selected`, and what is left to read.
pub record Reaches (n selected : ℕ) (arrows : List Arrow) (rest : Bytes) (o : Option (ℤ × World))
    : Type 0 where
  pub option : ℕ
  pub after : World
  pub result : o ≡ some (pos option, after)
  pub in_range : option < n
  pub moved : (option + ups arrows) % n ≡ (selected + downs arrows) % n
  pub left : after.stdin ≡ rest

menu_loop-presses :
    (title : String) (options : List String) (arrows : List Arrow) (rest : Bytes) (selected : ℕ)
    (w : World)
    → selected < length options
    → Reaches
        (length options)
        selected
        arrows
        rest
        (menu_loop title options a_key selected w (presses arrows ++ (b'\n' ∷ rest)))
unfolding menu_loop presses ups downs
menu_loop-presses title options [] rest selected w h = record {
  option = selected;
  after = _;
  result = refl;
  in_range = h;
  moved = refl;
  left = refl;
}
menu_loop-presses title options (up ∷ arrows) rest selected w h =
    let n = length options in
    let r =
      menu_loop-presses title options arrows rest ((selected + n - 1) % n)
        (draw title options ((selected + n - 1) % n) false w).1
        (arrow_in_range n selected b'[' b'A' h) in
    record {
      option = r.option;
      after = r.after;
      result = r.result;
      in_range = r.in_range;
      moved = up_step n r.option (ups arrows) (downs arrows) selected (omega arith) r.moved;
      left = r.left;
    }
menu_loop-presses title options (down ∷ arrows) rest selected w h =
    let n = length options in
    let r =
      menu_loop-presses title options arrows rest ((selected + 1) % n)
        (draw title options ((selected + 1) % n) false w).1
        (arrow_in_range n selected b'[' b'B' h) in
    record {
      option = r.option;
      after = r.after;
      result = r.result;
      in_range = r.in_range;
      moved = down_step n r.option (ups arrows) (downs arrows) selected r.moved;
      left = r.left;
    }

restored-Reaches :
    {n selected : ℕ} {arrows : List Arrow} {rest : Bytes} {o : Option (ℤ × World)}
    → Reaches n selected arrows rest o
    → Reaches n selected arrows rest (restored o)
restored-Reaches r = record {
  option = r.option;
  after = _;
  result = ap restored r.result;
  in_range = r.in_range;
  moved = r.moved;
  left = r.left;
}

-- At a terminal whose settings can be read, a menu with at least one option that is sent arrows and
-- then a newline returns an option k in range, where k plus the number of up arrows and the number
-- of down arrows are congruent modulo the number of options, and leaves the rest of the input
-- unread.
pub ui_select_menu-presses :
    (title : String) (options : List String) (arrows : List Arrow) (rest : Bytes) (w : World)
    → 0 < length options
    → w.is_interactive ≡ true
    → w.stdin ≡ presses arrows ++ (b'\n' ∷ rest)
    → Reaches (length options) 0 arrows rest (ui_select_menu true title options w)
unfolding ui_select_menu select_by_keys
ui_select_menu-presses title [] arrows rest w p i e = absurd (omega arith)
ui_select_menu-presses title (o ∷ options) arrows rest w p i e =
    rw (i, e) (restored-Reaches (menu_loop-presses title (o ∷ options) arrows rest 0 _ p))
