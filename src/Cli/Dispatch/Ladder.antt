-- ===== src/Cli/Dispatch/Ladder.antt =====
-- The shape of the dispatchers of cli/repl.c: `if (strcmp(cmd, "a") == 0) … else if … else …`.
use Prim.Native.String.{String}
use nhan_linux_process.Prelude.{
  ℕ, true, false, List, [], ◌∷◌, if◌then◌else◌, str_eq, codes, Bytes, pos, ◌==◌, ◌≡◌, refl, inl,
  inr, Bool-cases, if_elim, All, arith,
}
use nhan_linux_process.System.Call.{Call}
use nhan_linux_process.System.World.{M, skip, ◌>>=◌, text, print}
use nhan_linux_process.System.Backend.{Backend}
use nhan_linux_process.Cli.Names.{one_of}
use nhan_linux_process.Cli.Prompt.{get_arg_or_prompt}

-- What each command does, by name
abbrev pub TableOf {ℓ} : Type ℓ → Type ℓ
TableOf A = List (String × A)

abbrev pub Table : Type 0
Table = TableOf (M (Unit {0}))

module _ {ℓ} {A : Type ℓ} where
  -- The first entry with the command's name, or the last `else`.
  unfoldable pub ladder : Bytes → TableOf A → A → A
  ladder cmd [] other = other
  ladder cmd ((name, action) ∷ more) other =
      let next = ladder cmd more other in if str_eq cmd (codes name) then action else next

  abbrev pub names : TableOf A → List String
  names [] = []
  names ((name, action) ∷ more) = name ∷ names more

  -- A name that is not listed falls through to the last `else`, whatever the entries do.
  pub ladder_unknown :
      (cmd : Bytes) (t : TableOf A) (other : A)
      → one_of cmd (names t) ≡ false
      → ladder cmd t other ≡ other
  unfolding ladder one_of
  ladder_unknown cmd [] other h = refl
  ladder_unknown cmd ((name, action) ∷ t) other h = ground (arith, ladder_unknown cmd t other)

  -- What holds of each entry and of the last `else` holds of what is chosen.
  pub ladder_all {κ} :
      (P : A → Type κ) (cmd : Bytes) (t : TableOf A) (other : A)
      → All (λ e. P e.1) t
      → P other
      → P (ladder cmd t other)
  unfolding ladder
  ladder_all P cmd [] other h o = o
  ladder_all P cmd ((name, action) ∷ t) other h o =
      if_elim P (str_eq cmd (codes name)) h.0 (ladder_all P cmd t other h.1 o)

  -- The same, where an entry may use that it is chosen for its name.
  pub ladder_case {κ} :
      (P : A → Type κ) (cmd : Bytes) (t : TableOf A) (other : A)
      → All (λ e. str_eq cmd (codes e.0) ≡ true → P e.1) t
      → P other
      → P (ladder cmd t other)
  unfolding ladder
  ladder_case P cmd [] other h o = o
  ladder_case P cmd ((name, action) ∷ t) other h o = elim (Bool-cases (str_eq cmd (codes name))) [
    | inl e ↦ rw e (h.0 e)
    | inr e ↦ rw e (ladder_case P cmd t other h.1 o)
  ]

  -- For a listed name the last `else` does not matter.
  pub ladder_known :
      (P : A → Type ℓ) (cmd : Bytes) (t : TableOf A) (other : A)
      → All (λ e. P e.1) t
      → one_of cmd (names t) ≡ true
      → P (ladder cmd t other)
  unfolding ladder one_of
  ladder_known P cmd [] other h k = cc
  ladder_known P cmd ((name, action) ∷ t) other h k = elim (Bool-cases (str_eq cmd (codes name))) [
    | inl e ↦ rw e h.0
    | inr e ↦ rw e (ladder_known P cmd t other h.1 (rw e at k))
  ]

-- A command of a module, called for its effect.
unfoldable pub act : Backend → Call → M (Unit {0})
act b c w = let r = b.perform c w in (tt, r.1)

-- `if (get_arg_or_prompt(…) == 0) { … }`
unfoldable pub with_arg : ℕ → ℕ → List Bytes → Bytes → (Bytes → M (Unit {0})) → M (Unit {0})
with_arg size index argv prompt next = do
  r ← get_arg_or_prompt size index argv prompt
  (elim r.0 [ pos n ↦ if n == 0 then next r.1 else skip | _ ↦ skip ])

-- `ui_print_error("Error: Unknown … command '%s'. Type / for options.\n", cmd)`
abbrev pub unknown : String → Bytes → M (Unit {0})
unknown message cmd = print message (text cmd ∷ [])
