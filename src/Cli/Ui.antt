-- ===== src/Cli/Ui.antt =====
-- cli/ui.c: the help text and the menu.
pub mod Menu
use Prim.Native.String.{String}
use nhan_linux_process.Prelude.{List, [], ◌∷◌}
use nhan_linux_process.System.World.{M}
use nhan_linux_process.Cli.Explain.{print_all}

-- The formats of `ui_show_help`, in order; their arguments are the codes of two colours.
abbrev pub help_texts : List String
help_texts =
    "\n%s=================== Help Documentation ===================%s\n" ∷ "Navigation:\n"
    ∷ "  - Type the name of a module (e.g. 'file', 'package') to change context.\n"
    ∷ "  - Prompt changes to match: 'sysmgr/package > '.\n"
    ∷ "  - Type 'back' or '..' or press Escape to return to the parent context.\n"
    ∷ "  - Type 'exit' at the main prompt to close the application.\n\n" ∷ "Commands:\n"
    ∷ "  - Type '/' to show all available commands in your current context.\n"
    ∷ "  - Type '/<search>' to filter and display matching commands (e.g. '/pa').\n"
    ∷ "  - You can also execute commands directly with parameters (e.g. 'package search hello').\n\n"
    ∷ "Keyboard Shortcuts:\n" ∷ "  - %sTAB%s          : Autocomplete commands / cycle parameters.\n"
    ∷ "  - %sUp/Down Arrow%s: Navigate persistent execution history.\n"
    ∷ "  - %sCtrl+L%s       : Clear screen.\n"
    ∷ "  - %sCtrl+C%s       : Force exit the application.\n"
    ∷ "========================================================\n\n" ∷ []

unfoldable pub ui_show_help : M (Unit {0})
ui_show_help = print_all help_texts
