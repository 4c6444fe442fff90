-- ===== src/Cli/Autocomplete.antt =====
-- cli/autocomplete.c: the completions of a line.
pub mod Laws
use Prim.Native.String.{String}
use nhan_linux_process.Prelude.{
  ℕ, Bool, true, false, ◌&&◌, ◌||◌, List, [], ◌∷◌, ◌++◌, if◌then◌else◌, ◌==◌, str_eq, codes, Bytes,
}
use nhan_linux_process.Libc.Strings.{has_prefix, copy_to, strtok_words}
use nhan_linux_process.Cli.Names.{one_of}
use nhan_linux_process.Cli.Context.{main_context}
use nhan_linux_process.Cli.Palette.Items.{PaletteItem, palette_items}

abbrev pub starts_with : Bytes → Bytes → Bool
starts_with str prefix = has_prefix str prefix

-- A loop over the table: what is added for each entry that passes its test.
unfoldable pub suggestions :
    (PaletteItem → Bool) → (PaletteItem → Bytes) → List PaletteItem → List Bytes
suggestions test suggestion [] = []
suggestions test suggestion (i ∷ items) =
    let rest = suggestions test suggestion items in if test i then suggestion i ∷ rest else rest

abbrev pub in_context : Bytes → PaletteItem → Bool
in_context ctx i = str_eq (codes i.context) ctx

-- snprintf into `suggestion[256]`
abbrev pub suggestion_text : Bytes → Bytes
suggestion_text s = copy_to 256 s

abbrev pub ends_with_space : Bytes → Bool
ends_with_space [] = false
ends_with_space (c ∷ []) = c == b' '
ends_with_space (c ∷ d ∷ cs) = ends_with_space (d ∷ cs)

-- The branch for a line that begins with a slash, the same in every context.
unfoldable pub slash_suggestions : Bytes → Bytes → List Bytes
unfolding suggestions
slash_suggestions ctx prefix =
    suggestions (λ i. in_context ctx i && starts_with (codes i.command) prefix)
      (λ i. suggestion_text (codes "/" ++ codes i.command)) palette_items

abbrev package_commands : List String
package_commands = "search" ∷ "info" ∷ "install" ∷ "remove" ∷ []

-- The examples of names behind a command for packages
abbrev package_examples : Bytes → List Bytes
package_examples front =
    suggestion_text (front ++ codes " hello")
    ∷ suggestion_text (front ++ codes " sl")
    ∷ suggestion_text (front ++ codes " cowsay")
    ∷ []

abbrev pub join : Bytes → Bytes → Bytes
join a b = a ++ (codes " " ++ b)

-- The chain over `word_count` in the main context
unfoldable pub main_suggestions : List Bytes → Bool → List Bytes
unfolding suggestions one_of
main_suggestions [] ends =
    suggestions (in_context main_context) (λ i. codes i.command) palette_items
main_suggestions (a ∷ []) false =
    suggestions (λ i. in_context main_context i && starts_with (codes i.command) a)
      (λ i. codes i.command) palette_items
main_suggestions (a ∷ []) true =
    suggestions (in_context a) (λ i. suggestion_text (join a (codes i.command))) palette_items
main_suggestions (a ∷ b ∷ []) false =
    suggestions (λ i. in_context a i && starts_with (codes i.command) b)
      (λ i. suggestion_text (join a (codes i.command))) palette_items
main_suggestions (a ∷ b ∷ []) true =
    if str_eq a (codes "package") && one_of b package_commands
    then package_examples (join a b)
    else []
main_suggestions (a ∷ b ∷ c ∷ ws) ends = []

-- The chain in another context
unfoldable pub nested_suggestions : Bytes → List Bytes → Bool → List Bytes
unfolding suggestions one_of
nested_suggestions ctx [] ends = suggestions (in_context ctx) (λ i. codes i.command) palette_items
nested_suggestions ctx (a ∷ []) false =
    suggestions (λ i. in_context ctx i && starts_with (codes i.command) a) (λ i. codes i.command)
      palette_items
nested_suggestions ctx (a ∷ []) true =
    if str_eq ctx (codes "package") && one_of a package_commands then package_examples a else []
nested_suggestions ctx (a ∷ b ∷ ws) ends = []

unfoldable pub word_suggestions : Bytes → Bytes → List Bytes
unfolding main_suggestions nested_suggestions strtok_words
word_suggestions ctx buf =
    let words = strtok_words 16 (copy_to 512 buf) in
    if str_eq ctx main_context
    then main_suggestions words (ends_with_space buf)
    else nested_suggestions ctx words (ends_with_space buf)

-- The completions that are added to `lc`, in order, with `in_command_prompt` and the current
-- context as arguments.
unfoldable pub completion_callback : Bool → Bytes → Bytes → List Bytes
unfolding slash_suggestions word_suggestions
completion_callback false ctx buf = []
completion_callback true ctx [] = word_suggestions ctx []
completion_callback true ctx (c ∷ cs) =
    if c == b'/' then slash_suggestions ctx cs else word_suggestions ctx (c ∷ cs)
