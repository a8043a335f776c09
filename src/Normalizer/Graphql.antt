-- ===== src/Normalizer/Graphql.antt =====
-- crates/waf-normalizer/src/graphql.rs: the cost of a GraphQL document, lexed without a parser, and the
-- documents in a JSON envelope.
--
-- The index into the text is the list of the bytes that are left; it is past the end where none are. The
-- counters have 32 bits. The JSON parser is a parameter.
pub mod Fuel
pub mod Hidden
use light_waf.Prelude.{
  ℕ, zero, suc, ◌+◌, ◌-◌, ◌^◌, ◌%◌, Bool, true, false, not, ◌&&◌, ◌||◌, Option, none, some, List,
  [], ◌∷◌, ◌++◌, Bytes, codes, ◌=bytes◌, ◌==◌, ltb, leb, length, trim_start, strip_prefix,
  if◌then◌else◌,
}
use light_waf.Schema.Value.{
  Value, Values, null, bool, number, string, array, object, no_values, value_and, get,
}
use light_waf.Schema.Value

pub record GraphqlStats : Type 0 where
  pub max_depth : ℕ
  pub aliases : ℕ
  pub fields : ℕ
  pub directives : ℕ
  pub has_introspection : Bool

-- the local variables of `graphql_lex`
pub record Lexer : Type 0 where
  pub depth : ℕ
  pub paren : ℕ
  pub st : GraphqlStats

abbrev pub lexer_start : Lexer
lexer_start = record {
  depth = 0;
  paren = 0;
  st = record { max_depth = 0; aliases = 0; fields = 0; directives = 0; has_introspection = false };
}

abbrev pub inc : ℕ → ℕ
inc n = (n + 1) % 2 ^ 32

-- from a `#` or a byte after it: up to the end of the line
unfoldable pub skip_comment : Bytes → Bytes
skip_comment [] = []
skip_comment (c ∷ cs) = let rest = skip_comment cs in if c == b'\n' then c ∷ cs else rest

abbrev pub is_quotes : ℕ → ℕ → ℕ → Bool
is_quotes a b c = a == b'"' && b == b'"' && c == b'"'

-- from a byte after the opening quotes: past the closing ones, or to the end
unfoldable pub skip_block_string : Bytes → Bytes
skip_block_string [] = []
skip_block_string (a ∷ []) = []
skip_block_string (a ∷ b ∷ []) = []
skip_block_string (a ∷ b ∷ c ∷ rest) =
    let after_escape = skip_block_string (c ∷ rest) in
    let after_byte = skip_block_string (b ∷ c ∷ rest) in
    if is_quotes a b c then rest else if a == b'\\' then after_escape else after_byte

-- from a byte after the opening quote: past the closing one, or to the end
unfoldable pub skip_string : Bytes → Bytes
skip_string [] = []
skip_string (a ∷ []) = []
skip_string (a ∷ b ∷ rest) =
    let after_escape = skip_string rest in
    let after_byte = skip_string (b ∷ rest) in
    if a == b'"' then b ∷ rest else if a == b'\\' then after_escape else after_byte

abbrev pub is_alphabetic : ℕ → Bool
is_alphabetic c = leb b'A' c && leb c b'Z' || leb b'a' c && leb c b'z'

abbrev pub is_name_byte : ℕ → Bool
is_name_byte c = c == b'_' || (is_alphabetic c || leb b'0' c && leb c b'9')

unfoldable pub name_of : Bytes → Bytes
name_of [] = []
name_of (c ∷ cs) = let rest = name_of cs in if is_name_byte c then c ∷ rest else []

unfoldable pub skip_name : Bytes → Bytes
skip_name [] = []
skip_name (c ∷ cs) = let rest = skip_name cs in if is_name_byte c then rest else c ∷ cs

-- a `"` with what follows it: a block string or a normal one
unfoldable pub skip_quoted : Bytes → Bytes
unfolding skip_block_string skip_string
skip_quoted (b ∷ c ∷ rest) =
    if is_quotes b'"' b c then skip_block_string rest else skip_string (b ∷ c ∷ rest)
skip_quoted [] = skip_string []
skip_quoted (b ∷ []) = skip_string (b ∷ [])

unfoldable pub open_brace : Lexer → Lexer
open_brace l =
    if l.paren == 0
    then record l {
      depth = inc l.depth;
      st = record l.st {
        max_depth = if ltb l.st.max_depth (inc l.depth) then inc l.depth else l.st.max_depth;
      };
    }
    else l

unfoldable pub close_brace : Lexer → Lexer
close_brace l = if l.paren == 0 then record l { depth = l.depth - 1 } else l

-- a name, counted where it is a selection
unfoldable pub count_name : Bytes → Lexer → Lexer
count_name name l =
    if l.paren == 0 && ltb 0 l.depth
    then record l {
      st = record l.st {
        fields = inc l.st.fields;
        has_introspection =
            l.st.has_introspection
            || ((name =bytes codes "__schema") || (name =bytes codes "__type"));
      };
    }
    else l

-- what the arms of the `match` leave of the text
unfoldable pub remaining : Bytes → Bytes
unfolding skip_comment skip_quoted skip_name
remaining [] = []
remaining (c ∷ cs) =
    if c == b'#'
    then skip_comment cs
    else if c == b'"'
    then skip_quoted cs
    else if c == b'_' || is_alphabetic c
    then skip_name cs
    else cs

-- what they do to the counters
unfoldable pub counted : ℕ → Bytes → Lexer → Lexer
unfolding open_brace close_brace count_name name_of
counted c cs l =
    if c == b'#' || c == b'"'
    then l
    else if c == b'('
    then record l { paren = inc l.paren }
    else if c == b')'
    then record l { paren = l.paren - 1 }
    else if c == b'{'
    then open_brace l
    else if c == b'}'
    then close_brace l
    else if c == b':' && l.paren == 0
    then record l { st = record l.st { aliases = inc l.st.aliases } }
    else if c == b'@'
    then record l { st = record l.st { directives = inc l.st.directives } }
    else if c == b'_' || is_alphabetic c
    then count_name (c ∷ name_of cs) l
    else l

-- the loop of `graphql_lex`
unfoldable pub lex : ℕ → Bytes → Lexer → Lexer
unfolding remaining counted
lex zero bs l = l
lex (suc fuel) [] l = l
lex (suc fuel) (c ∷ cs) l = lex fuel (remaining (c ∷ cs)) (counted c cs l)

unfoldable pub graphql_lex : Bytes → GraphqlStats
unfolding lex
graphql_lex s = (lex (length s) s lexer_start).st

abbrev query_string : Option Value → List Bytes
query_string none = []
query_string (some (string q)) = q ∷ []
query_string (some null) = []
query_string (some (bool b)) = []
query_string (some (number n)) = []
query_string (some (array items)) = []
query_string (some (object fields_of)) = []

-- what `push_query_leaf` adds
unfoldable pub query_leaf : Value → List Bytes
unfolding Value.get
query_leaf v = query_string (get (codes "query") v)

unfoldable pub query_leaves : Values → List Bytes
unfolding query_leaf
query_leaves no_values = []
query_leaves (value_and v rest) = query_leaf v ++ query_leaves rest

unfoldable pub envelope_queries : Value → List Bytes
unfolding query_leaf query_leaves
envelope_queries (object fields_of) = query_leaf (object fields_of)
envelope_queries (array items) = query_leaves items
envelope_queries null = []
envelope_queries (bool b) = []
envelope_queries (number n) = []
envelope_queries (string s) = []

abbrev starts_with_byte : ℕ → Bytes → Bool
starts_with_byte c [] = false
starts_with_byte c (x ∷ xs) = x == c

abbrev some_unless_empty : List Bytes → Option (List Bytes)
some_unless_empty [] = none
some_unless_empty (q ∷ queries) = some (q ∷ queries)

unfoldable pub unwrap_query_envelope : (Bytes → Option Value) → Bytes → Option (List Bytes)
unfolding envelope_queries
unwrap_query_envelope from_str s =
    let trimmed = trim_start s in
    if not (starts_with_byte b'{' trimmed || starts_with_byte b'[' trimmed)
    then none
    else elim (from_str trimmed) [
      | none ↦ none
      | some value ↦ some_unless_empty (envelope_queries value)
    ]
