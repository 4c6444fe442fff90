-- ===== src/Cli/Repl/Valid.antt =====
-- cli/repl.c: the check of a command against the palette, and the commands that are dispatched.
use Prim.Native.String.{String}
use nhan_linux_process.Prelude.{
  Bool, true, false, ◌&&◌, ◌||◌, List, [], ◌∷◌, if◌then◌else◌, ◌==◌, length, get_or, map, str_eq,
  str_eq_iff, codes, Bytes, All, ◌≡◌, ◌↔◌, ◌≢◌, refl, ap, arith, inl, inr, Bool-cases,
}
use nhan_linux_process.Libc.Strings.{has_prefix, first_word}
use nhan_linux_process.System.Backend.{Backend}
use nhan_linux_process.Cli.Names.{one_of, one_of_elim}
use nhan_linux_process.Cli.Context.{main_context}
use nhan_linux_process.Cli.Palette.Items.{PaletteItem, palette_items}
use nhan_linux_process.Cli.Dispatch.Ladder.{ladder, names}
use nhan_linux_process.Cli.Dispatch.Socket.{socket_table}
use nhan_linux_process.Cli.Dispatch.Commands.{
  file_table, process_table, network_table, package_table, shell_table, kernel_table,
}
use nhan_linux_process.Cli.Repl.{offered, is_valid_command}
use nhan_linux_process.Cli.Repl.Invariant.{context_names}

-- A word, as strtok cuts it out.
abbrev pub NoSpace : Bytes → Type 0
NoSpace = All (λ c. c ≢ b' ')

-- The test of an entry is a comparison with its first word.
offers_first :
    (x cmd : Bytes)
    → NoSpace cmd
    → (str_eq x cmd || (has_prefix x cmd && get_or x (length cmd) 0 == b' '))
      ≡ str_eq cmd (first_word x)
offers_first [] [] h = refl
offers_first [] (p ∷ ps) h = refl
offers_first (c ∷ cs) [] h = ground arith
offers_first (c ∷ cs) (p ∷ ps) h = ground (arith, offers_first cs ps h.1)

-- The first words of the entries of a context
words : Bytes → List PaletteItem → List Bytes
words ctx [] = []
words ctx (i ∷ items) =
    let rest = words ctx items in
    if str_eq (codes i.context) ctx then first_word (codes i.command) ∷ rest else rest

member : Bytes → List Bytes → Bool
member cmd [] = false
member cmd (w ∷ ws) = str_eq cmd w || member cmd ws

offered-words :
    (ctx cmd : Bytes) (items : List PaletteItem)
    → NoSpace cmd
    → offered ctx cmd items ≡ member cmd (words ctx items)
unfolding offered words member
offered-words ctx cmd [] h = refl
offered-words ctx cmd (i ∷ items) h = elim (Bool-cases (str_eq (codes i.context) ctx)) [
  | inl e ↦ rw (e, offers_first (codes i.command) cmd h, offered-words ctx cmd items h) refl
  | inr e ↦ rw (e, offered-words ctx cmd items h) refl
]

includes : List Bytes → List Bytes → Bool
includes [] vs = true
includes (w ∷ ws) vs = member w vs && includes ws vs

includes-member :
    (cmd : Bytes) (ws vs : List Bytes)
    → includes ws vs ≡ true
    → member cmd ws ≡ true
    → member cmd vs ≡ true
unfolding includes member
includes-member cmd [] vs h k = cc
includes-member cmd (w ∷ ws) vs h k = elim (Bool-cases (str_eq cmd w)) [
  | inl e ↦ let m : member w vs ≡ true = ground arith in rw ((str_eq_iff cmd w).0 e) m
  | inr e ↦ includes-member cmd ws vs (ground arith) (rw e at k)
]

-- The commands that a context dispatches
abbrev pub commands : Backend → List Bytes → Bytes → List String
commands b argv ctx =
    ladder ctx
      (("file", names (file_table b argv))
        ∷ ("process", names (process_table b argv))
        ∷ ("network", names (network_table b))
        ∷ ("socket", names (socket_table b argv))
        ∷ ("package", names (package_table b argv))
        ∷ ("shell", names (shell_table b argv))
        ∷ ("kernel", names (kernel_table b))
        ∷ [])
      []

one_of-member : (cmd : Bytes) (ns : List String) → one_of cmd ns ≡ member cmd (map codes ns)
unfolding one_of member
one_of-member cmd [] = refl
one_of-member cmd (n ∷ ns) = ap (λ r. str_eq cmd (codes n) || r) (one_of-member cmd ns)

valid_if_same :
    (ctx cmd : Bytes) (ns : List String)
    → NoSpace cmd
    → cmd ≢ []
    → str_eq ctx main_context ≡ false
    → includes (words ctx palette_items) (map codes ns) ≡ true
    → includes (map codes ns) (words ctx palette_items) ≡ true
    → (is_valid_command ctx cmd ≡ true) ↔ (one_of cmd ns ≡ true)
unfolding is_valid_command
valid_if_same ctx [] ns h ne m l k = absurd (ne refl)
valid_if_same ctx (c ∷ cs) ns h ne m l k =
    rw (m, offered-words ctx (c ∷ cs) palette_items h, one_of-member (c ∷ cs) ns)
      (includes-member (c ∷ cs) _ _ l, includes-member (c ∷ cs) _ _ k)

-- In each of the seven contexts of the modules, a word with no space that is not empty is accepted
-- behind a slash, by the table of the palette, exactly when it is `back` or a command that the
-- dispatcher of the context has a branch for.
pub valid_iff_dispatched :
    (b : Backend) (argv : List Bytes) (ctx cmd : Bytes)
    → one_of ctx context_names ≡ true
    → NoSpace cmd
    → cmd ≢ []
    → (is_valid_command ctx cmd ≡ true) ↔ (one_of cmd ("back" ∷ commands b argv ctx) ≡ true)
unfolding ladder words includes member
valid_iff_dispatched b argv ctx cmd k h ne =
    one_of_elim
      (λ c. (is_valid_command c cmd ≡ true) ↔ (one_of cmd ("back" ∷ commands b argv c) ≡ true)) ctx
      context_names
      (
        valid_if_same (codes "file") cmd ("back" ∷ commands b argv (codes "file")) h ne refl refl
            refl,
        (
          valid_if_same (codes "process") cmd ("back" ∷ commands b argv (codes "process")) h ne refl
              refl refl,
          (
            valid_if_same (codes "network") cmd ("back" ∷ commands b argv (codes "network")) h ne
                refl refl refl,
            (
              valid_if_same (codes "socket") cmd ("back" ∷ commands b argv (codes "socket")) h ne
                  refl refl refl,
              (
                valid_if_same (codes "package") cmd ("back" ∷ commands b argv (codes "package")) h
                    ne refl refl refl,
                (
                  valid_if_same (codes "shell") cmd ("back" ∷ commands b argv (codes "shell")) h ne
                      refl refl refl,
                  (
                    valid_if_same (codes "kernel") cmd ("back" ∷ commands b argv (codes "kernel")) h
                        ne refl refl refl,
                    tt,
                  ),
                ),
              ),
            ),
          ),
        ),
      )
      k
