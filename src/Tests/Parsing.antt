-- ===== src/Tests/Parsing.antt =====
-- Runs of the tokenizer of cli/parser.c.
use nhan_linux_process.Prelude.{some, List, [], ◌∷◌, ◌++◌, codes, Bytes, All, ◌≡◌, refl, arith}
use nhan_linux_process.Cli.Parser.{parser_tokenize}
use nhan_linux_process.Cli.Parser.Tokens.{tokens}
use nhan_linux_process.Cli.Parser.Refine.{parser_tokenize-tokens}
use nhan_linux_process.Cli.Parser.RoundTrip.{
  Quotable, Bare, quote_all, parser_tokenize-quote_all, parser_tokenize_drops,
}

abbrev line : Bytes
line = codes "file copy \"my file\" b"

parser_tokenize-tokens_example : parser_tokenize line 64 ≡ some (tokens 64 line)
parser_tokenize-tokens_example = parser_tokenize-tokens line 64

abbrev arguments : List Bytes
arguments = codes "a b" ∷ [] ∷ codes "c" ∷ []

arguments-Quotable : All Quotable arguments
arguments-Quotable = ground arith

parser_tokenize-quote_all_example : parser_tokenize (quote_all arguments) 64 ≡ some arguments
parser_tokenize-quote_all_example =
    parser_tokenize-quote_all arguments 64 arguments-Quotable (omega arith)

word-Bare : Bare (codes "ab")
word-Bare = ground arith

text-Quotable : Quotable (codes "c d")
text-Quotable = ground arith

parser_tokenize_drops_example :
    parser_tokenize (codes "ab" ++ (b'"' ∷ (codes "c d" ++ (b'"' ∷ [])))) 64
    ≡ some (codes "c d" ∷ tokens 63 [])
parser_tokenize_drops_example =
    parser_tokenize_drops (codes "ab") (codes "c d") [] 63 word-Bare text-Quotable

splits :
    parser_tokenize line 64 ≡ some (codes "file" ∷ codes "copy" ∷ codes "my file" ∷ codes "b" ∷ [])
unfolding parser_tokenize
splits = refl
