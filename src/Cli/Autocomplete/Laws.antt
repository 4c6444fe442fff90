-- ===== src/Cli/Autocomplete/Laws.antt =====
-- cli/autocomplete.c: the completions beside what is typed and the commands of the context.
use nhan_linux_process.Prelude.{
  ℕ, ◌≤◌, Bool, true, false, not, ◌&&◌, ◌||◌, List, [], ◌∷◌, ◌++◌, ◌==◌, length, drop, leb, leb→le,
  ==_iff, take, take-ge, str_eq, codes, Bytes, All, ◌≡◌, ◌≢◌, ◌⊎◌, refl, sym, ap, ◌∙◌, arith, inl,
  inr, Bool-cases, if_elim, append_assoc, append-nil,
}
use nhan_linux_process.Libc.Strings.{has_prefix, copy_to, first_word, strtok_words, split_spaces}
use nhan_linux_process.Cli.Names.{one_of, one_of_elim}
use nhan_linux_process.Cli.Context.{main_context}
use nhan_linux_process.Cli.Palette.Items.{PaletteItem, palette_items}
use nhan_linux_process.Cli.Repl.{is_valid_command, offered}
use nhan_linux_process.Cli.Repl.Invariant.{context_names}
use nhan_linux_process.Cli.Repl.Valid.{NoSpace}
use nhan_linux_process.Cli.Autocomplete.{
  suggestions, in_context, suggestion_text, ends_with_space, slash_suggestions, main_suggestions,
  nested_suggestions, word_suggestions, completion_callback,
}

-- What holds of the text of each entry that passes the test holds of each suggestion.
suggestions-All :
    (P : Bytes → Type 0) (test : PaletteItem → Bool) (text : PaletteItem → Bytes)
    (items : List PaletteItem)
    → All (λ i. test i ≡ true → P (text i)) items
    → All P (suggestions test text items)
unfolding suggestions
suggestions-All P test text [] h = tt
suggestions-All P test text (i ∷ items) h = elim (Bool-cases (test i)) [
  | inl e ↦ rw e (h.0 e, suggestions-All P test text items h.1)
  | inr e ↦ rw e (suggestions-All P test text items h.1)
]

All-each :
    (P : PaletteItem → Type 0)
    → ((i : PaletteItem) → P i)
    → (items : List PaletteItem) → All P items
All-each P h [] = tt
All-each P h (i ∷ items) = (h i, All-each P h items)

-- The command named by a completion behind a slash is accepted in the context.
abbrev pub Accepted : Bytes → Bytes → Type 0
Accepted ctx s = is_valid_command ctx (first_word (drop 1 s)) ≡ true

accepted : Bytes → PaletteItem → Bool
accepted ctx i =
    is_valid_command ctx (first_word (drop 1 (suggestion_text (codes "/" ++ codes i.command))))

accepts_entries : Bytes → List PaletteItem → Bool
accepts_entries ctx [] = true
accepts_entries ctx (i ∷ items) =
    (not (in_context ctx i) || accepted ctx i) && accepts_entries ctx items

accepts_entries-All :
    (ctx prefix : Bytes) (items : List PaletteItem)
    → accepts_entries ctx items ≡ true
    → All
        (λ i.
          (in_context ctx i && has_prefix (codes i.command) prefix) ≡ true
          → Accepted ctx (suggestion_text (codes "/" ++ codes i.command)))
        items
unfolding accepts_entries accepted
accepts_entries-All ctx prefix [] h = tt
accepts_entries-All ctx prefix (i ∷ items) h =
    ((λ t. ground arith), accepts_entries-All ctx prefix items (ground arith))

main_accepts : accepts_entries main_context palette_items ≡ true
unfolding accepts_entries accepted is_valid_command
main_accepts = refl

nested_accepts :
    (ctx : Bytes) → one_of ctx context_names ≡ true → accepts_entries ctx palette_items ≡ true
unfolding accepts_entries accepted is_valid_command offered
nested_accepts ctx k =
    one_of_elim (λ c. accepts_entries c palette_items ≡ true) ctx context_names
      (refl, (refl, (refl, (refl, (refl, (refl, (refl, tt))))))) k

-- What holds of each entry behind a slash holds of each completion there.
slash-All :
    (P : Bytes → Type 0) (ctx prefix : Bytes)
    → All
        (λ i.
          (in_context ctx i && has_prefix (codes i.command) prefix) ≡ true
          → P (suggestion_text (codes "/" ++ codes i.command)))
        palette_items
    → All P (completion_callback true ctx (b'/' ∷ prefix))
unfolding completion_callback slash_suggestions
slash-All P ctx prefix h =
    suggestions-All P (λ i. in_context ctx i && has_prefix (codes i.command) prefix)
      (λ i. suggestion_text (codes "/" ++ codes i.command)) palette_items h

-- In the main context and in the seven contexts of the modules, the first word of whatever is
-- completed behind a slash is a command that the check for slash commands accepts.
pub slash_completions-Accepted :
    (ctx prefix : Bytes)
    → (ctx ≡ main_context) ⊎ (one_of ctx context_names ≡ true)
    → All (Accepted ctx) (completion_callback true ctx (b'/' ∷ prefix))
slash_completions-Accepted ctx prefix (inl m) =
    slash-All (Accepted ctx) ctx prefix
      (accepts_entries-All ctx prefix palette_items (rw m main_accepts))
slash_completions-Accepted ctx prefix (inr k) =
    slash-All (Accepted ctx) ctx prefix
      (accepts_entries-All ctx prefix palette_items (nested_accepts ctx k))

-- A completion goes on from what is typed.
abbrev pub Extends : Bytes → Bytes → Type 0
Extends buf s = has_prefix s buf ≡ true

fits : List PaletteItem → Bool
fits [] = true
fits (i ∷ items) = leb (length (codes i.command)) 254 && fits items

all_fit : fits palette_items ≡ true
unfolding fits
all_fit = refl

and_right : (p q : Bool) → (p && q) ≡ true → q ≡ true
and_right p q h = ground arith

slash_entries :
    (ctx prefix : Bytes) (items : List PaletteItem)
    → fits items ≡ true
    → All
        (λ i.
          (in_context ctx i && has_prefix (codes i.command) prefix) ≡ true
          → Extends (b'/' ∷ prefix) (suggestion_text (codes "/" ++ codes i.command)))
        items
unfolding fits
slash_entries ctx prefix [] h = tt
slash_entries ctx prefix (i ∷ items) h = (
  (λ t.
      rw (take-ge 254 (codes i.command) (leb→le _ 254 (ground arith)))
        (and_right (in_context ctx i) _ t)),
  slash_entries ctx prefix items (ground arith),
)

word_entries :
    (ctx w : Bytes) (items : List PaletteItem)
    → All
        (λ i.
          (in_context ctx i && has_prefix (codes i.command) w) ≡ true → Extends w (codes i.command))
        items
word_entries ctx w items = All-each _ (λ i t. and_right (in_context ctx i) _ t) items

not_== : (a b : ℕ) → a ≢ b → (a == b) ≡ false
not_== a b n = ground arith

split_from : (a : ℕ) (acc w : Bytes) → NoSpace w → split_spaces (a ∷ acc) w ≡ ((a ∷ acc) ++ w) ∷ []
unfolding split_spaces
split_from a acc [] h = ap (λ u. (a ∷ u) ∷ []) (sym (append-nil acc))
split_from a acc (c ∷ cs) h =
    rw (not_== c b' ' h.0) (
      split_from a (acc ++ (c ∷ [])) cs h.1 ∙ ap (λ u. (a ∷ u) ∷ []) (append_assoc acc (c ∷ []) cs))

one_word :
    (c : ℕ) (w : Bytes)
    → NoSpace (c ∷ w)
    → length (c ∷ w) ≤ 511
    → strtok_words 16 (copy_to 512 (c ∷ w)) ≡ (c ∷ w) ∷ []
unfolding strtok_words split_spaces
one_word c w h k =
    rw (take-ge 510 w (omega (arith, k)), not_== c b' ' h.0) (ap (take 16) (split_from c [] w h.1))

ends_word : (w : Bytes) → NoSpace w → ends_with_space w ≡ false
ends_word [] h = refl
ends_word (c ∷ []) h = ground arith
ends_word (c ∷ d ∷ cs) h = ends_word (d ∷ cs) h.1

main_word-Extends : (w : Bytes) → All (Extends w) (main_suggestions (w ∷ []) false)
unfolding main_suggestions
main_word-Extends w =
    suggestions-All (Extends w) (λ i. in_context main_context i && has_prefix (codes i.command) w)
      (λ i. codes i.command) palette_items (word_entries main_context w palette_items)

nested_word-Extends : (ctx w : Bytes) → All (Extends w) (nested_suggestions ctx (w ∷ []) false)
unfolding nested_suggestions
nested_word-Extends ctx w =
    suggestions-All (Extends w) (λ i. in_context ctx i && has_prefix (codes i.command) w)
      (λ i. codes i.command) palette_items (word_entries ctx w palette_items)

word-Extends :
    (ctx : Bytes) (c : ℕ) (w : Bytes)
    → NoSpace (c ∷ w)
    → length (c ∷ w) ≤ 511
    → All (Extends (c ∷ w)) (word_suggestions ctx (c ∷ w))
unfolding word_suggestions
word-Extends ctx c w h k =
    rw (one_word c w h k, ends_word (c ∷ w) h)
      (if_elim (All (Extends (c ∷ w))) (str_eq ctx main_context) (main_word-Extends (c ∷ w))
        (nested_word-Extends ctx (c ∷ w)))

-- For a line that begins with a slash, and for one that is a word of at most 511 bytes with no
-- space, each completion in any context begins with what is typed.
pub completions-Extends :
    (ctx : Bytes) (c : ℕ) (w : Bytes)
    → (c ≡ b'/') ⊎ (NoSpace (c ∷ w) × (length (c ∷ w) ≤ 511))
    → All (Extends (c ∷ w)) (completion_callback true ctx (c ∷ w))
unfolding completion_callback
completions-Extends ctx c w (inl e) =
    rw e (slash-All (Extends (b'/' ∷ w)) ctx w (slash_entries ctx w palette_items all_fit))
completions-Extends ctx c w (inr h) = elim (Bool-cases (c == b'/')) [
  | inl e ↦
      rw ((==_iff c b'/').0 e)
        (slash-All (Extends (b'/' ∷ w)) ctx w (slash_entries ctx w palette_items all_fit))
  | inr e ↦ rw (completion_callback, e) (word-Extends ctx c w h.0 h.1)
]
