-- ===== src/Cli/Palette.antt =====
-- cli/palette.c: the search in the table of commands.
pub mod Items
use Prim.Native.String.{String}
use nhan_linux_process.Prelude.{
  ℕ, ◌-◌, Bool, true, false, not, ◌&&◌, ◌||◌, List, [], ◌∷◌, ◌++◌, map, if◌then◌else◌, ◌==◌, length,
  take, str_eq, codes, Bytes, ◌≡◌, refl, arith,
}
use nhan_linux_process.Libc.Strings.{is_empty, to_lower, contains, copy_to}
use nhan_linux_process.System.World.{M, skip, ◌>>=◌, ◌>>◌, text, print}
use nhan_linux_process.Cli.Palette.Items.{PaletteItem, palette_items}

-- `to_lowercase` into a buffer of `max_len` bytes
unfoldable pub to_lowercase : ℕ → Bytes → Bytes
to_lowercase max_len src = map to_lower (copy_to max_len src)

-- The filter: the query with no leading slash, in lower case.
unfoldable pub clean_query : Bytes → Bytes
unfolding to_lowercase
clean_query [] = to_lowercase 128 []
clean_query (c ∷ cs) = if c == b'/' then to_lowercase 128 cs else to_lowercase 128 (c ∷ cs)

-- An entry that the loop does not skip.
unfoldable pub shows : Bytes → Bytes → PaletteItem → Bool
unfolding to_lowercase
shows current_context query i =
    str_eq (codes i.context) current_context
    && (is_empty query
        || contains (to_lowercase 128 (codes i.command)) query
        || contains (to_lowercase 128 (codes i.display)) query)

-- The loop over the table: the entries printed, in order.
unfoldable pub matches : Bytes → Bytes → List PaletteItem → List PaletteItem
unfolding shows
matches current_context query [] = []
matches current_context query (i ∷ items) =
    let rest = matches current_context query items in
    if shows current_context query i then i ∷ rest else rest

unfoldable pub print_items : List PaletteItem → M (Unit {0})
print_items [] = skip
print_items (i ∷ items) = do
  print "  /%-15s  %s\n" (text (codes i.command) ∷ text (codes i.display) ∷ [])
  print_items items

-- What is printed around the entries that were found, the note that there are none included.
unfoldable pub print_palette : Bytes → Bytes → List PaletteItem → M (Unit {0})
print_palette current_context query found = do
  print "\n================= Command Palette =================\n" []
  print "Context: %s\n" (text current_context ∷ [])
  (if is_empty query then skip else print "Filter:  \"%s\"\n" (text query ∷ []))
  print "--------------------------------------------------\n" []
  print "  %-16s  %s\n" (text (codes "Command") ∷ text (codes "Description") ∷ [])
  print "  %-16s  %s\n" (text (codes "-------") ∷ text (codes "-----------") ∷ [])
  print_items found
  (elim found [ [] ↦ print "  No matching commands found.\n" [] | _ ∷ _ ↦ skip ])
  print "==================================================\n\n" []

unfoldable pub palette_search_and_show : Bytes → Bytes → M (Unit {0})
palette_search_and_show current_context search_query =
    let query = clean_query search_query in
    print_palette current_context query (matches current_context query palette_items)
