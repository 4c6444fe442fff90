-- ===== src/Cli/Repl/Routes.antt =====
-- cli/repl.c: where `route_and_dispatch` sends a command.
use Prim.Native.String.{String}
use nhan_linux_process.Prelude.{
  Bool, true, false, ◌||◌, List, [], ◌∷◌, str_eq, str_eq_iff, codes, Bytes, ◌≡◌, ◌↔◌, ◌⊎◌, ◌≢◌,
  refl, ap, ◌∙◌, arith, inl, inr,
}
use nhan_linux_process.System.Backend.{Backend}
use nhan_linux_process.Cli.Names.{one_of, one_of_elim}
use nhan_linux_process.Cli.Context.{main_context}
use nhan_linux_process.Cli.Dispatch.Ladder.{ladder, ladder_unknown, unknown}
use nhan_linux_process.Cli.Dispatch.Socket.{socket_table, dispatch_socket}
use nhan_linux_process.Cli.Dispatch.Commands.{
  file_table, process_table, network_table, package_table, shell_table, kernel_table, dispatch_file,
  dispatch_process, dispatch_network, dispatch_package, dispatch_shell, dispatch_kernel,
}
use nhan_linux_process.Cli.Repl.{
  Repl, current, effect, main_table, route_main, dispatch_in, received, route_and_dispatch,
  main_commands, is_valid_command,
}
use nhan_linux_process.Cli.Repl.Invariant.{context_names}
use nhan_linux_process.Cli.Repl.Valid.{NoSpace, commands, valid_iff_dispatched}

-- The program behind the log line for a command.
abbrev pub logged_command : Bytes → List Bytes → Repl → Repl
logged_command root args s = record s { world = (received root args (current s) s.world).1 }

not_main :
    (cmd : Bytes)
    → cmd ≢ []
    → is_valid_command main_context cmd ≡ false
    → one_of cmd main_commands ≡ false
unfolding is_valid_command
not_main [] ne i = absurd (ne refl)
not_main (c ∷ cs) ne i = i

both_false : {p q : Bool} → (p ≡ true) ↔ (q ≡ true) → p ≡ false → q ≡ false
both_false h e = ground arith

left_false : (p q : Bool) → (p || q) ≡ false → p ≡ false
left_false p q h = ground arith

right_false : (p q : Bool) → (p || q) ≡ false → q ≡ false
right_false p q h = ground arith

both_off : (p q : Bool) → p ≡ false → q ≡ false → (p || q) ≡ false
both_off p q a c = ground arith

not_str_eq : (a b : Bytes) → a ≢ b → str_eq a b ≡ false
not_str_eq a b n = ground (arith, str_eq_iff a b)

module _ (b : Backend) where
  at_main :
      (root : Bytes) (args : List Bytes) (s : Repl)
      → current s ≡ main_context
      → route_and_dispatch b (root ∷ args) s ≡ route_main b root args (logged_command root args s)
  unfolding route_and_dispatch
  at_main root args s m = rw ((str_eq_iff (current s) main_context).1 m) refl

  context_prefix :
      (ctx : Bytes) (args : List Bytes) (a : Bytes) (s : Repl)
      → one_of ctx context_names ≡ true
      → route_main b ctx (a ∷ args) s ≡ effect (dispatch_in b ctx (a ∷ args)) s
  unfolding route_main dispatch_in ladder
  context_prefix ctx args a s h =
      one_of_elim (λ c. route_main b c (a ∷ args) s ≡ effect (dispatch_in b c (a ∷ args)) s) ctx
        context_names (refl, (refl, (refl, (refl, (refl, (refl, (refl, tt))))))) h

  nested_not_main :
      (ctx : Bytes) → one_of ctx context_names ≡ true → str_eq ctx main_context ≡ false
  nested_not_main ctx h =
      one_of_elim (λ c. str_eq c main_context ≡ false) ctx context_names
        (refl, (refl, (refl, (refl, (refl, (refl, (refl, tt))))))) h

  in_context :
      (cmd : Bytes) (args : List Bytes) (s : Repl)
      → one_of (current s) context_names ≡ true
      → (str_eq cmd (codes "back") || str_eq cmd (codes "..")) ≡ false
      → route_and_dispatch b (cmd ∷ args) s
        ≡ effect (dispatch_in b (current s) (cmd ∷ args)) (logged_command cmd args s)
  unfolding route_and_dispatch
  in_context cmd args s h k = rw (nested_not_main (current s) h, k) refl

  -- What is not listed by the dispatcher of a context gets a message, whatever the arguments are.
  refused_in :
      (ctx cmd : Bytes) (args : List Bytes)
      → one_of ctx context_names ≡ true
      → one_of cmd (commands b (cmd ∷ args) ctx) ≡ false
      → (m : String) × (dispatch_in b ctx (cmd ∷ args) ≡ unknown m cmd)
  unfolding dispatch_in ladder dispatch_file dispatch_process dispatch_network dispatch_socket
      dispatch_package dispatch_shell dispatch_kernel
  refused_in ctx cmd args h =
      let argv : List Bytes = cmd ∷ args in
      one_of_elim
        (λ c.
          one_of cmd (commands b argv c) ≡ false
          → (m : String) × (dispatch_in b c argv ≡ unknown m cmd))
        ctx context_names
        (
          (λ k. (_, ladder_unknown cmd (file_table b argv) _ k)),
          (
            (λ k. (_, ladder_unknown cmd (process_table b argv) _ k)),
            (
              (λ k. (_, ladder_unknown cmd (network_table b) _ k)),
              (
                (λ k. (_, ladder_unknown cmd (socket_table b argv) _ k)),
                (
                  (λ k. (_, ladder_unknown cmd (package_table b argv) _ k)),
                  (
                    (λ k. (_, ladder_unknown cmd (shell_table b argv) _ k)),
                    ((λ k. (_, ladder_unknown cmd (kernel_table b) _ k)), tt),
                  ),
                ),
              ),
            ),
          ),
        )
        h

  refused_at_main :
      (cmd : Bytes) (args : List Bytes) (s : Repl)
      → one_of cmd main_commands ≡ false
      → (m : String) × (route_main b cmd args s ≡ effect (unknown m cmd) s)
  unfolding route_main one_of
  refused_at_main cmd args s h =
      (_, ap (λ f. f s) (ladder_unknown cmd (main_table b cmd args) _ (ground arith)))

  -- In the main context and in the seven contexts of the modules, a command that is a word with no
  -- space, neither empty nor `..`, and that the check for slash commands does not accept, has no
  -- effect when it is routed but the log line and one error message with its name, whatever its
  -- arguments are.
  pub refused_lem :
      (cmd : Bytes) (args : List Bytes) (s : Repl)
      → NoSpace cmd
      → cmd ≢ []
      → cmd ≢ codes ".."
      → (current s ≡ main_context) ⊎ (one_of (current s) context_names ≡ true)
      → is_valid_command (current s) cmd ≡ false
      → (m : String) × (route_and_dispatch b (cmd ∷ args) s
          ≡ effect (unknown m cmd) (logged_command cmd args s))
  unfolding one_of
  refused_lem [] args s n ne up at_ctx i = absurd (ne refl)
  refused_lem (c ∷ cs) args s n ne up (inl m) i =
      let r =
        refused_at_main (c ∷ cs) args (logged_command (c ∷ cs) args s)
          (not_main (c ∷ cs) ne (rw m at i)) in
      (r.0, at_main (c ∷ cs) args s m ∙ r.1)
  refused_lem (c ∷ cs) args s n ne up (inr k) i =
      let not_listed : one_of (c ∷ cs) ("back" ∷ commands b ((c ∷ cs) ∷ args) (current s)) ≡ false =
        both_false (valid_iff_dispatched b ((c ∷ cs) ∷ args) (current s) (c ∷ cs) k n ne) i in
      let r = refused_in (current s) (c ∷ cs) args k (right_false _ _ not_listed) in
      (
        r.0,
        in_context (c ∷ cs) args s k
              (both_off _ _ (left_false _ _ not_listed) (not_str_eq (c ∷ cs) (codes "..") up))
            ∙ ap (λ m. effect m (logged_command (c ∷ cs) args s)) r.1,
      )

  pub prefixed :
      (ctx cmd : Bytes) (args : List Bytes) (s : Repl)
      → one_of ctx context_names ≡ true
      → current s ≡ main_context
      → route_and_dispatch b (ctx ∷ cmd ∷ args) s
        ≡ effect (dispatch_in b ctx (cmd ∷ args)) (logged_command ctx (cmd ∷ args) s)
  prefixed ctx cmd args s k m =
      at_main ctx (cmd ∷ args) s m
      ∙ context_prefix ctx args cmd (logged_command ctx (cmd ∷ args) s) k

  -- For a command that is not `back` or `..`: typed in the main context behind the name of one of
  -- the seven contexts, and typed in that context alone, it has the effect of the same run of that
  -- context's dispatcher, behind the log line of the command.
  pub same_command :
      (ctx cmd : Bytes) (args : List Bytes) (s t : Repl)
      → one_of ctx context_names ≡ true
      → current s ≡ main_context
      → current t ≡ ctx
      → (str_eq cmd (codes "back") || str_eq cmd (codes "..")) ≡ false
      → (route_and_dispatch b (ctx ∷ cmd ∷ args) s
          ≡ effect (dispatch_in b ctx (cmd ∷ args)) (logged_command ctx (cmd ∷ args) s))
        × (route_and_dispatch b (cmd ∷ args) t
            ≡ effect (dispatch_in b ctx (cmd ∷ args)) (logged_command cmd args t))
  same_command ctx cmd args s t k m e nb =
      (prefixed ctx cmd args s k m, rw⁻¹ e (in_context cmd args t (rw e k) nb))
