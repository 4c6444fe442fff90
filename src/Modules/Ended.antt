-- ===== src/Modules/Ended.antt =====
-- modules/shell/shell_mgr.c and app/main.c: the menu of the environment, opened by a command that
-- the program is started with, at the end of standard input.
use nhan_linux_process.Prelude.{
  ℕ, zero, suc, Bool, false, none, some, List, [], ◌∷◌, ◌++◌, codes, Bytes, ◌≡◌, refl, ap, ◌∙◌,
  arith,
}
use nhan_linux_process.System.Call.{shell, env_run}
use nhan_linux_process.System.World.{World, M}
use nhan_linux_process.System.Backend.{Backend}
use nhan_linux_process.Cli.Parser.RoundTrip.{spaced}
use nhan_linux_process.Cli.Context.{repl_get_current_context}
use nhan_linux_process.Cli.Names.{one_of}
use nhan_linux_process.Cli.Dispatch.Ladder.{ladder, act}
use nhan_linux_process.Cli.Dispatch.Commands.{dispatch_shell}
use nhan_linux_process.Cli.Repl.{dispatch_in}
use nhan_linux_process.Cli.Repl.Routes.{logged_command, prefixed}
use nhan_linux_process.App.Menu.{menu_read_choice_at_end}
use nhan_linux_process.App.Main.{has_classic, main, direct_start}
use nhan_linux_process.App.Main.Laws.{main_runs_words}
use nhan_linux_process.Modules.Shell.Environment.{Env}
use nhan_linux_process.Modules.Shell.Environment.Loop.{
  print_env_menu, on_env_number, env_again, env_round, env_rounds, shell_mgr_env_run,
}

abbrev AtEnd : World → Type 0
AtEnd w = (w.is_interactive ≡ false) × (w.stdin ≡ [])

env_goes_on :
    (b : Bool) (s : Env)
    → AtEnd s.world
    → env_round b s ≡ env_again (record s { world = (print_env_menu s.world).1 })
unfolding env_round on_env_number
env_goes_on b s e = ground (arith, menu_read_choice_at_end (print_env_menu s.world).1 e.1)

env_spins : (b : Bool) (fuel : ℕ) (s : Env) → AtEnd s.world → env_rounds b fuel s ≡ none
unfolding env_rounds
env_spins b zero s e = refl
env_spins b (suc fuel) s e =
    rw (env_goes_on b s e, env_rounds)
      (env_spins b fuel (record s { world = (print_env_menu s.world).1 }) e)

-- The command line behind the log lines of its start and of the command
abbrev pub env_started : World → World
env_started w =
    (logged_command (codes "shell") (codes "env" ∷ [])
      (direct_start (codes "shell" ++ spaced (codes "env" ∷ [])) w)).world

module _ (b : Backend) where
  runs_env :
      (w : World) → dispatch_in b (codes "shell") (codes "env" ∷ []) w ≡ act b (shell env_run) w
  unfolding dispatch_in ladder dispatch_shell
  runs_env w = refl

  env_starts :
      (has_settings : Bool) (manager : ℕ → M (Unit {0})) (fuel : ℕ) (w : World)
      → main has_settings manager b fuel (codes "shell" ∷ codes "env" ∷ []) w
        ≡ some (b.perform (shell env_run) (env_started w)).1
  unfolding one_of act repl_get_current_context has_classic
  env_starts has_settings manager fuel w =
      let args : List Bytes = codes "env" ∷ [] in
      main_runs_words has_settings manager b fuel b's' (codes "hell") args w (ground arith)
        (omega arith) (omega arith) refl
      ∙ ap (λ r. some r.1.world)
          (prefixed b (codes "shell") (codes "env") []
            (direct_start (codes "shell" ++ spaced args) w) refl refl)
      ∙ ap (λ r. some r.1) (runs_env (env_started w))

  -- The program started with the arguments shell and env makes one call of the modules, which opens
  -- the menu of the environment, and leaves the world that the call gives; and if standard input is
  -- at its end, that menu, opened there with any buffers and environment, does not return for any
  -- fuel.
  pub env_menu_spins :
      (has_settings : Bool) (manager : ℕ → M (Unit {0})) (fuel rounds : ℕ) (w : World)
      (garbage : Bytes × Bytes) (environ : List Bytes)
      → w.stdin ≡ []
      → (main has_settings manager b fuel (codes "shell" ∷ codes "env" ∷ []) w
          ≡ some (b.perform (shell env_run) (env_started w)).1)
        × (shell_mgr_env_run has_settings rounds garbage environ (env_started w) ≡ none)
  unfolding shell_mgr_env_run
  env_menu_spins has_settings manager fuel rounds w garbage environ e = (
    env_starts has_settings manager fuel w,
    rw (
      env_spins has_settings rounds
          (record {
            world = env_started w;
            environ = environ;
            name_buf = garbage.0;
            val_buf = garbage.1;
          })
          (refl, e),
      shell_mgr_env_run,
    ),
  )
