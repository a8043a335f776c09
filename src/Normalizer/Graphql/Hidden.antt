-- ===== src/Normalizer/Graphql/Hidden.antt =====
-- What a backslash before the end of a block string hides from the lexer.
--
-- In the GraphQL language a block string has one escape, `\"""`; any other backslash is a character. The
-- lexer takes every backslash for an escape of the byte after it.
use light_waf.Prelude.{
  ℕ, zero, suc, false, [], ◌∷◌, ◌++◌, Bytes, codes, ◌≡◌, ◌≢◌, refl, ap, ◌∙◌, arith, All, length,
  ◌=bytes◌,
}
use light_waf.Normalizer.Graphql.{
  Lexer, skip_block_string, skip_name, name_of, skip_quoted, open_brace, count_name, remaining,
  counted, lex, graphql_lex,
}

abbrev pub HasNoQuote : Bytes → Type 0
HasNoQuote = All (λ (c : ℕ). c ≢ b'"')

skip_block_string-HasNoQuote : (bs : Bytes) → HasNoQuote bs → skip_block_string bs ≡ []
unfolding skip_block_string
skip_block_string-HasNoQuote [] h = refl
skip_block_string-HasNoQuote (a ∷ []) h = refl
skip_block_string-HasNoQuote (a ∷ b ∷ []) h = refl
skip_block_string-HasNoQuote (a ∷ b ∷ c ∷ rest) h = ground (
  arith,
  skip_block_string-HasNoQuote (c ∷ rest) h.1.1,
  skip_block_string-HasNoQuote (b ∷ c ∷ rest) h.1,
)

-- neither a quotation mark nor a backslash in it
abbrev pub IsPlain : Bytes → Type 0
IsPlain = All (λ (c : ℕ). (c ≢ b'"') × (c ≢ b'\\'))

-- the end of a block string whose text ends in `\"""` and a space
abbrev ending : Bytes
ending = codes "\\\\\"\"\" \"\"\""

-- a selection set that is left open, with an argument; in the GraphQL language the argument is one block
-- string, which is closed
abbrev pub opening : Bytes → Bytes → Bytes
opening text hidden = codes "{a(x:\"\"\"" ++ (text ++ (ending ++ hidden))

skip_block_string-byte :
    (a b c : ℕ) (rest : Bytes)
    → (a ≢ b'"') × (a ≢ b'\\')
    → skip_block_string (a ∷ b ∷ c ∷ rest) ≡ skip_block_string (b ∷ c ∷ rest)
unfolding skip_block_string
skip_block_string-byte a b c rest h = ground arith

-- the lexer leaves the string at the first three quotation marks
skip_block_string-IsPlain :
    (text hidden : Bytes)
    → IsPlain text
    → skip_block_string (text ++ (ending ++ hidden)) ≡ codes " \"\"\"" ++ hidden
unfolding skip_block_string
skip_block_string-IsPlain [] hidden h = refl
skip_block_string-IsPlain (a ∷ []) hidden h =
    skip_block_string-byte a b'\\' b'\\' (codes "\"\"\" \"\"\"" ++ hidden) h.0
skip_block_string-IsPlain (a ∷ b ∷ []) hidden h =
    skip_block_string-byte a b b'\\' (codes "\\\"\"\" \"\"\"" ++ hidden) h.0
    ∙ skip_block_string-IsPlain (b ∷ []) hidden h.1
skip_block_string-IsPlain (a ∷ b ∷ c ∷ text) hidden h =
    skip_block_string-byte a b c (text ++ (ending ++ hidden)) h.0
    ∙ skip_block_string-IsPlain (b ∷ c ∷ text) hidden h.1

lex-empty : (fuel : ℕ) (l : Lexer) → lex fuel [] l ≡ l
unfolding lex
lex-empty zero l = refl
lex-empty (suc fuel) l = refl

-- the lexer in the argument of the first field
abbrev in_argument : Lexer
in_argument = record {
  depth = 1;
  paren = 1;
  st = record { max_depth = 1; aliases = 0; fields = 1; directives = 0; has_introspection = false };
}

-- Let a document begin with `{a(x:"""`, a text without quotation marks and backslashes, and `\\""" """`.
-- If there is no quotation mark in what follows, then, of whatever depth it is and whatever fields,
-- aliases, directives and introspection it has, the lexer reports for the whole document a depth of 1,
-- one field and nothing else.
pub graphql_lex-opening :
    (text hidden : Bytes)
    → IsPlain text
    → HasNoQuote hidden
    → graphql_lex (opening text hidden)
      ≡ record { max_depth = 1; aliases = 0; fields = 1; directives = 0; has_introspection = false }
unfolding graphql_lex lex remaining counted skip_quoted skip_block_string skip_name name_of
    open_brace count_name ◌=bytes◌
graphql_lex-opening text hidden plain h =
    let left = length (text ++ (ending ++ hidden)) in
    ap (λ rest. (lex (suc (suc left)) rest in_argument).st)
      (skip_block_string-IsPlain text hidden plain)
    ∙ (ap (λ rest. (lex left rest in_argument).st) (skip_block_string-HasNoQuote hidden h)
        ∙ ap (λ (l : Lexer). l.st) (lex-empty left in_argument))
