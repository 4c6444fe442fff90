-- ===== src/Cli/Parser/RoundTrip.antt =====
-- cli/parser.c: the lines that are taken apart into the arguments that they
-- were made of.
use nhan_linux_process.Prelude.{
  ℕ, zero, suc, ◌≤◌, ◌<◌, false, some, List, [], ◌∷◌, ◌++◌, length, Bytes, All, ◌≡◌, ◌≢◌, refl, ap,
  ◌∙◌, arith, append-nil, append_assoc,
}
use nhan_linux_process.Libc.Strings.{is_space}
use nhan_linux_process.Cli.Parser.{parser_tokenize}
use nhan_linux_process.Cli.Parser.Tokens.{gap, word, quoted, tokens_in, tokens}
use nhan_linux_process.Cli.Parser.Refine.{parser_tokenize-tokens}

-- A quoted argument may hold any byte but the quote and the NUL.
abbrev pub Quotable : Bytes → Type 0
Quotable = All (λ c. (c ≢ b'"') × (c ≢ 0))

-- A bare argument holds no space either.
abbrev pub Bare : Bytes → Type 0
Bare = All (λ c. (c ≢ b'"') × (c ≢ 0) × (is_space c ≡ false))

quoted-tokens_in :
    (n : ℕ) (w t rest : Bytes)
    → Quotable t
    → tokens_in (suc n) (quoted w) (t ++ (b'"' ∷ rest)) ≡ (w ++ t) ∷ tokens_in n gap rest
unfolding tokens_in
quoted-tokens_in n w [] rest h = rw append-nil
quoted-tokens_in n w (c ∷ t) rest h =
    ground (arith, quoted-tokens_in n (w ++ (c ∷ [])) t rest h.1, append_assoc w (c ∷ []) t)

word-tokens_in :
    (n : ℕ) (w t rest : Bytes)
    → Bare t
    → tokens_in (suc n) (word w) (t ++ rest) ≡ tokens_in (suc n) (word (w ++ t)) rest
unfolding tokens_in
word-tokens_in n w [] rest h = rw append-nil
word-tokens_in n w (c ∷ t) rest h =
    ground (arith, word-tokens_in n (w ++ (c ∷ [])) t rest h.1, append_assoc w (c ∷ []) t)

-- Arguments in quotes, a space behind each.
abbrev pub quote_all : List Bytes → Bytes
quote_all [] = []
quote_all (t ∷ ts) = b'"' ∷ (t ++ (b'"' ∷ b' ' ∷ quote_all ts))

-- Words with a space between them and one in front of those that follow, as the direct command
-- mode of app/main.c writes its own arguments.
abbrev pub spaced : List Bytes → Bytes
spaced [] = []
spaced (t ∷ ts) = b' ' ∷ (t ++ spaced ts)

gap_space : (n : ℕ) (cs : Bytes) → tokens_in n gap (b' ' ∷ cs) ≡ tokens_in n gap cs
unfolding tokens_in
gap_space zero cs = refl
gap_space (suc n) cs = refl

tokens-quote_all :
    (n : ℕ) (ts : List Bytes)
    → All Quotable ts
    → length ts ≤ n
    → tokens_in n gap (quote_all ts) ≡ ts
unfolding tokens_in
tokens-quote_all zero [] h k = refl
tokens-quote_all (suc n) [] h k = refl
tokens-quote_all zero (t ∷ ts) h k = absurd (omega arith)
tokens-quote_all (suc n) (t ∷ ts) h k =
    quoted-tokens_in n [] t (b' ' ∷ quote_all ts) h.0
    ∙ ap (◌∷◌ t) (gap_space n (quote_all ts) ∙ tokens-quote_all n ts h.1 (omega arith))

abbrev IsBareByte : ℕ → Type 0
IsBareByte c = (c ≢ b'"') × (c ≢ 0) × (is_space c ≡ false)

starts_word :
    (n c : ℕ) (cs : Bytes)
    → IsBareByte c
    → tokens_in (suc n) gap (c ∷ cs) ≡ tokens_in (suc n) (word (c ∷ [])) cs
unfolding tokens_in
starts_word n c cs h = ground arith

before_quote :
    (n : ℕ) (w rest : Bytes)
    → Bare w
    → tokens_in (suc n) gap (w ++ (b'"' ∷ rest)) ≡ tokens_in (suc n) (quoted []) rest
before_quote n [] rest h = unfold tokens_in in refl
before_quote n (c ∷ w) rest h =
    starts_word n c (w ++ (b'"' ∷ rest)) h.0
    ∙ word-tokens_in n (c ∷ []) w (b'"' ∷ rest) h.1
    ∙ unfold tokens_in in refl

tokens-spaced :
    (n : ℕ) (w : Bytes) (ts : List Bytes)
    → All (λ t. Bare t × (t ≢ [])) ts
    → length ts < n
    → tokens_in n (word w) (spaced ts) ≡ w ∷ ts
unfolding tokens_in
tokens-spaced zero w ts h k = absurd (omega arith)
tokens-spaced (suc n) w [] h k = refl
tokens-spaced (suc n) w ([] ∷ ts) h k = absurd (h.0.1 refl)
tokens-spaced (suc zero) w ((c ∷ t) ∷ ts) h k = absurd (omega arith)
tokens-spaced (suc (suc n)) w ((c ∷ t) ∷ ts) h k = ap (◌∷◌ w) (
    starts_word n c (t ++ spaced ts) h.0.0.0
    ∙ word-tokens_in n (c ∷ []) t (spaced ts) h.0.0.1
    ∙ tokens-spaced (suc n) (c ∷ t) ts h.1 (omega arith))

-- Every list of arguments with no quote and no NUL, spaces and empty arguments included, written in
-- quotes with a space behind each, is what the tokenizer takes the line apart into, if argv has
-- room for the list.
pub parser_tokenize-quote_all :
    (ts : List Bytes) (max_args : ℕ)
    → All Quotable ts
    → length ts ≤ max_args
    → parser_tokenize (quote_all ts) max_args ≡ some ts
parser_tokenize-quote_all ts max_args h k =
    parser_tokenize-tokens (quote_all ts) max_args ∙ ap some (tokens-quote_all max_args ts h k)

pub parser_tokenize_words :
    (t : Bytes) (ts : List Bytes) (max_args : ℕ)
    → All (λ u. Bare u × (u ≢ [])) (t ∷ ts)
    → length ts < max_args
    → parser_tokenize (t ++ spaced ts) max_args ≡ some (t ∷ ts)
parser_tokenize_words [] ts max_args h k = absurd (h.0.1 refl)
parser_tokenize_words (c ∷ t) ts zero h k = absurd (omega arith)
parser_tokenize_words (c ∷ t) ts (suc n) h k =
    parser_tokenize-tokens ((c ∷ t) ++ spaced ts) (suc n)
    ∙ ap some (
        starts_word n c (t ++ spaced ts) h.0.0.0
        ∙ word-tokens_in n (c ∷ []) t (spaced ts) h.0.0.1
        ∙ tokens-spaced (suc n) (c ∷ t) ts h.1 (omega arith))

-- The bytes of a bare word that stand directly in front of an opening quote are lost: of such a
-- word and a quoted text the tokenizer stores the quoted text alone, and goes on behind the closing
-- quote.
pub parser_tokenize_drops :
    (w q rest : Bytes) (n : ℕ)
    → Bare w
    → Quotable q
    → parser_tokenize (w ++ (b'"' ∷ (q ++ (b'"' ∷ rest)))) (suc n) ≡ some (q ∷ tokens n rest)
parser_tokenize_drops w q rest n h k =
    parser_tokenize-tokens (w ++ (b'"' ∷ (q ++ (b'"' ∷ rest)))) (suc n)
    ∙ ap some (before_quote n w (q ++ (b'"' ∷ rest)) h ∙ quoted-tokens_in n [] q rest k)
