-- ===== src/Cli/Repl/Exits.antt =====
-- cli/repl.c: which routed commands end the program.
use Prim.Native.String.{String}
use nhan_linux_process.Prelude.{
  false, ◌||◌, List, [], ◌∷◌, if_elim, Bool-cases, str_eq, str_eq_iff, codes, Bytes, ◌≡◌, ◌⊎◌, inl,
  inr, sym, refl,
}
use nhan_linux_process.System.World.{
  World, M, Event, gone, by_exit, endless, logged, printed, spawned, called, requested, entered,
}
use nhan_linux_process.System.Call.{shell, cron_execute, time_execute}
use nhan_linux_process.Cli.Ui.{ui_show_help}
use nhan_linux_process.System.Backend.{Backend}
use nhan_linux_process.Cli.Context.{main_context}
use nhan_linux_process.Cli.Dispatch.Ladder.{act, unknown, ladder, ladder_all, ladder_case}
use nhan_linux_process.Cli.Dispatch.Socket.{dispatch_socket}
use nhan_linux_process.Cli.Dispatch.Commands.{
  dispatch_file, dispatch_process, dispatch_network, dispatch_package, dispatch_shell,
  dispatch_kernel,
}
use nhan_linux_process.Cli.Repl.{
  Repl, Flow, goes_on, exits, flow_after, effect, received, dispatch_in, current, main_table,
  route_main, enter, route_and_dispatch,
}

-- The flow behind the effect of a command is never the exit of the command line.
pub never_exits : (P : Type 0) (trace : List Event) → flow_after trace ≡ exits → P
never_exits P [] e = cc
never_exits P (gone by_exit ∷ trace) e = cc
never_exits P (gone endless ∷ trace) e = cc
never_exits P (logged l m f a ∷ trace) e = cc
never_exits P (printed f a ∷ trace) e = cc
never_exits P (spawned p a ∷ trace) e = cc
never_exits P (called c ∷ trace) e = cc
never_exits P (requested c a ∷ trace) e = cc
never_exits P (entered d ∷ trace) e = cc

effect_stays : (m : M (Unit {0})) (s : Repl) (P : Type 0) → (effect m s).0 ≡ exits → P
effect_stays m s P = never_exits P (m s.world).1.trace

-- The exit of the command line, or what the newest event says
abbrev pub AsNewest : Flow × Repl → Type 0
AsNewest r = (r.0 ≡ exits) ⊎ (r.0 ≡ flow_after r.1.world.trace)

abbrev logged_at : Bytes → List Bytes → Repl → World
logged_at cmd args s = (received cmd args (current s) s.world).1

module _ (b : Backend) where
  pub nested_stays :
      (cmd : Bytes) (args : List Bytes) (s : Repl)
      → str_eq (current s) main_context ≡ false
      → (P : Type 0) → (route_and_dispatch b (cmd ∷ args) s).0 ≡ exits
      → P
  unfolding route_and_dispatch
  nested_stays cmd args s m P = rw m (
      if_elim (λ (r : Flow × Repl). r.0 ≡ exits → P)
        (str_eq cmd (codes "back") || str_eq cmd (codes "..")) (λ e. cc)
        (never_exits P (dispatch_in b (current s) (cmd ∷ args) (logged_at cmd args s)).1.trace))

  enter_stays :
      (name : String) (dispatch : List Bytes → M (Unit {0})) (args : List Bytes) (s : Repl)
      → (P : Type 0) → (enter b name dispatch args s).0 ≡ exits
      → P
  enter_stays name dispatch [] s P e = cc
  enter_stays name dispatch (a ∷ args) s P e = never_exits P (dispatch (a ∷ args) s.world).1.trace e

  pub main_exit :
      (cmd : Bytes) (args : List Bytes) (s : Repl)
      → (route_main b cmd args s).0 ≡ exits
      → cmd ≡ codes "exit"
  unfolding route_main
  main_exit cmd args s =
      let into =
        λ (name : String) (dispatch : List Bytes → M (Unit {0}))
            (e : (enter b name dispatch args s).0 ≡ exits).
          enter_stays name dispatch args s (cmd ≡ codes "exit") e in
      ladder_case (λ f. (f s).0 ≡ exits → cmd ≡ codes "exit") cmd (main_table b cmd args) _
        (
          (λ _. into "file" (dispatch_file b)),
          (
            (λ _. into "process" (dispatch_process b)),
            (
              (λ _. into "network" (dispatch_network b)),
              (
                (λ _. into "socket" (dispatch_socket b)),
                (
                  (λ _. into "package" (dispatch_package b)),
                  (
                    (λ _. into "package" (dispatch_package b)),
                    (
                      (λ _. into "shell" (dispatch_shell b)),
                      (
                        (λ _. effect_stays (act b (shell (cron_execute (cmd ∷ args)))) s _),
                        (
                          (λ _. effect_stays (act b (shell (time_execute (cmd ∷ args)))) s _),
                          (
                            (λ _. into "kernel" (dispatch_kernel b)),
                            (
                              (λ _. effect_stays ui_show_help s _),
                              ((λ h _. (str_eq_iff cmd (codes "exit")).0 h), tt),
                            ),
                          ),
                        ),
                      ),
                    ),
                  ),
                ),
              ),
            ),
          ),
        )
        (effect_stays
          (unknown "Error: Unknown context or command '%s'. Type / to browse contexts.\n" cmd) s _)

  pub exit_ends : (args : List Bytes) (s : Repl) → (route_main b (codes "exit") args s).0 ≡ exits
  unfolding route_main ladder
  exit_ends args s = refl

  enter_newest :
      (name : String) (dispatch : List Bytes → M (Unit {0})) (args : List Bytes) (s : Repl)
      → flow_after s.world.trace ≡ goes_on
      → AsNewest (enter b name dispatch args s)
  enter_newest name dispatch [] s h = inr (sym h)
  enter_newest name dispatch (a ∷ args) s h = inr refl

  main_newest :
      (cmd : Bytes) (args : List Bytes) (s : Repl)
      → flow_after s.world.trace ≡ goes_on
      → AsNewest (route_main b cmd args s)
  unfolding route_main
  main_newest cmd args s h =
      let into = λ (name : String) (dispatch : List Bytes → M (Unit {0})).
        enter_newest name dispatch args s h in
      ladder_all (λ f. AsNewest (f s)) cmd (main_table b cmd args) _
        (
          into "file" (dispatch_file b),
          (
            into "process" (dispatch_process b),
            (
              into "network" (dispatch_network b),
              (
                into "socket" (dispatch_socket b),
                (
                  into "package" (dispatch_package b),
                  (
                    into "package" (dispatch_package b),
                    (
                      into "shell" (dispatch_shell b),
                      (
                        inr refl,
                        (inr refl, (into "kernel" (dispatch_kernel b), (inr refl, (inl refl, tt)))),
                      ),
                    ),
                  ),
                ),
              ),
            ),
          ),
        )
        (inr refl)

  pub newest_lem :
      (cmd : Bytes) (args : List Bytes) (s : Repl) → AsNewest (route_and_dispatch b (cmd ∷ args) s)
  unfolding route_and_dispatch
  newest_lem cmd args s = elim (Bool-cases (str_eq (current s) main_context)) [
    | inl m ↦ rw m (main_newest cmd args (record s { world = logged_at cmd args s }) refl)
    | inr m ↦ rw m (elim (Bool-cases (str_eq cmd (codes "back") || str_eq cmd (codes ".."))) [
      | inl k ↦ rw k (inr refl)
      | inr k ↦ rw k (inr refl)
    ])
  ]
