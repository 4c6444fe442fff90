-- ===== src/App/Main/Laws.antt =====
-- app/main.c: what the modes of the program do.
use Prim.Native.String.{String}
use nhan_linux_process.Prelude.{
  ℕ, zero, suc, ◌+◌, ◌<◌, Bool, true, false, none, some, List, [], ◌∷◌, ◌++◌, ◌==◌, ==_iff, length,
  Bytes, pos, All, ◌≡◌, ◌≢◌, refl, sym, ap, ◌∙◌, append-nil, ◌%◌, arith, inl, inr, Bool-cases,
}
use nhan_linux_process.System.World.{World, M, ◌>>◌, print, log_info}
use nhan_linux_process.System.Round.{Round, leaves, again}
use nhan_linux_process.System.Backend.{Backend}
use nhan_linux_process.Cli.Parser.RoundTrip.{Bare, spaced, parser_tokenize_words}
use nhan_linux_process.Cli.Ui.Menu.{ui_select_menu}
use nhan_linux_process.Cli.Ui.Menu.Arrows.{Arrow, presses, ups, downs, ui_select_menu-presses}
use nhan_linux_process.Cli.Repl.{
  Repl, stuck, repl_execute_command, route_and_dispatch, tokenize_and_route,
}
use nhan_linux_process.App.Menu.{menu_pause}
use nhan_linux_process.App.Main.{
  has_classic, cmd_line, main_options, enter_manager, dispatch_choice, on_selection, classic_round,
  classic_loop, direct_start, main,
}

cmd_line-spaced : (t : Bytes) (ts : List Bytes) → cmd_line (t ∷ ts) ≡ t ++ spaced ts
unfolding cmd_line
cmd_line-spaced t [] = sym (append-nil t)
cmd_line-spaced t (u ∷ ts) = ap (λ s. t ++ (b' ' ∷ s)) (cmd_line-spaced u ts)

module _ (has_settings : Bool) (manager : ℕ → M (Unit {0})) where
  -- Behind a choice: log lines around the menu of the module, then the pause.
  abbrev pub visit : String → String → ℕ → M (Unit {0})
  visit entering leaving n = do
    log_info "SYSTEM" entering []
    manager n
    log_info "SYSTEM" leaving []
    menu_pause

  -- The goodbye of the program
  abbrev pub farewell : M (Unit {0})
  farewell = do
    log_info "SYSTEM" "Application shutting down" []
    print "\nExiting Linux System Manager. Goodbye!\n" []

  -- With an interactive session on an input without terminal settings, such as a pipe, the classic
  -- loop says goodbye and leaves in its first round.
  pub classic_loop_without_terminal :
      (fuel : ℕ) (w : World)
      → has_settings ≡ false
      → w.is_interactive ≡ true
      → classic_loop has_settings manager (suc fuel) w ≡ some (farewell w).1
  unfolding classic_loop classic_round dispatch_choice ui_select_menu
  classic_loop_without_terminal fuel w s i = rw (i, s) refl

  -- A round in which option `k` was selected: the menu of a module is run, or the program leaves.
  pub data Goes (u : World) : ℕ → Round → Type 0 where
    visits :
        (k : ℕ) (entering leaving : String)
        → k < 7
        → Goes u k (again (visit entering leaving (suc k) u).1)
    shuts_down : Goes u 7 (leaves (farewell u).1)

  selection-Goes :
      (k : ℕ) (u : World) → k < 8 → Goes u k (on_selection has_settings manager (some (pos k, u)))
  unfolding dispatch_choice enter_manager
  selection-Goes zero u h = visits zero _ _ (omega arith)
  selection-Goes (suc zero) u h = visits 1 _ _ (omega arith)
  selection-Goes (suc (suc zero)) u h = visits 2 _ _ (omega arith)
  selection-Goes (suc (suc (suc zero))) u h = visits 3 _ _ (omega arith)
  selection-Goes (suc (suc (suc (suc zero)))) u h = visits 4 _ _ (omega arith)
  selection-Goes (suc (suc (suc (suc (suc zero))))) u h = visits 5 _ _ (omega arith)
  selection-Goes (suc (suc (suc (suc (suc (suc zero)))))) u h = visits 6 _ _ (omega arith)
  selection-Goes (suc (suc (suc (suc (suc (suc (suc zero))))))) u h = shuts_down
  selection-Goes (suc (suc (suc (suc (suc (suc (suc (suc n)))))))) u h = absurd (omega arith)

  at_terminal :
      (w : World)
      → w.is_interactive ≡ true
      → classic_round has_settings manager w
        ≡ on_selection has_settings manager
            (ui_select_menu has_settings "Linux System Manager" main_options w)
  unfolding classic_round
  at_terminal w i = rw i refl

  -- At a terminal whose settings can be read, arrows and a newline choose in a round of the classic
  -- menu an option k that is congruent to the down arrows less the up arrows modulo 8: for k below
  -- 7 the menu of the module k + 1 is run once between its two log lines and the program pauses,
  -- for k = 7 the program says goodbye and leaves.
  pub classic_round-presses :
      (arrows : List Arrow) (rest : Bytes) (w : World)
      → has_settings ≡ true
      → w.is_interactive ≡ true
      → w.stdin ≡ presses arrows ++ (b'\n' ∷ rest)
      → (k : ℕ) × (u : World) × ((k + ups arrows) % 8 ≡ downs arrows % 8)
        × (u.stdin ≡ rest)
        × Goes u k (classic_round has_settings manager w)
  classic_round-presses arrows rest w s i e =
      let r =
        ui_select_menu-presses "Linux System Manager" main_options arrows rest w (omega arith) i
          e in
      let selected : ui_select_menu has_settings "Linux System Manager" main_options w
          ≡ some (pos r.option, r.after) =
        rw s r.result in
      let none_first : 0 + downs arrows ≡ downs arrows = omega arith in
      (
        r.option,
        r.after,
        r.moved ∙ ap (λ d. d % 8) none_first,
        r.left,
        rw (at_terminal w i, selected) (selection-Goes r.option r.after r.in_range),
      )

execute_plain :
    (b : Backend) (c : ℕ) (cs : Bytes) (s : Repl)
    → c ≢ b'/'
    → repl_execute_command b (some (c ∷ cs)) s ≡ tokenize_and_route b (c ∷ cs) s
unfolding repl_execute_command
execute_plain b c cs s n = elim (Bool-cases (c == b'/')) [
  | inl e ↦ absurd (n ((==_iff c b'/').0 e))
  | inr e ↦ rw e refl
]

-- The program started with at most 64 arguments that are words (not empty, with no space, quote or
-- NUL), of which none is --classic and the first does not begin with a slash, runs the one command
-- made up of these arguments from the main context, with no prompt at a terminal.
pub main_runs_words :
    (has_settings : Bool) (manager : ℕ → M (Unit {0})) (b : Backend) (fuel : ℕ) (c : ℕ) (t : Bytes)
    (ts : List Bytes) (w : World)
    → All (λ u. Bare u × (u ≢ [])) ((c ∷ t) ∷ ts)
    → c ≢ b'/'
    → length ts < 64
    → has_classic ((c ∷ t) ∷ ts) ≡ false
    → main has_settings manager b fuel ((c ∷ t) ∷ ts) w
      ≡ some (route_and_dispatch b ((c ∷ t) ∷ ts) (direct_start ((c ∷ t) ++ spaced ts) w)).1.world
unfolding main
main_runs_words has_settings manager b fuel c t ts w h n k m =
    rw (m, cmd_line-spaced (c ∷ t) ts)
      (ap (λ r. some r.1.world)
        (execute_plain b c (t ++ spaced ts) (direct_start ((c ∷ t) ++ spaced ts) w) n
          ∙ ap
              (λ o. elim o [
                | none ↦ (stuck, direct_start ((c ∷ t) ++ spaced ts) w)
                | some argv ↦ route_and_dispatch b argv (direct_start ((c ∷ t) ++ spaced ts) w)
              ])
              (parser_tokenize_words (c ∷ t) ts 64 h k)))
