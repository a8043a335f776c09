-- ===== src/Normalizer/Graphql/Fuel.antt =====
-- The length of a document is enough fuel to lex it.
use light_waf.Prelude.{
  ℕ, zero, suc, ◌≤◌, [], ◌∷◌, Bytes, ◌≡◌, refl, arith, length, Bool-cases, inl, inr, ◌==◌, ◌||◌,
}
use light_waf.Normalizer.Graphql.{
  Lexer, skip_comment, skip_block_string, skip_string, skip_name, skip_quoted, is_quotes,
  is_name_byte, is_alphabetic, remaining, counted, lex,
}

length-skip_comment : (bs : Bytes) → length (skip_comment bs) ≤ length bs
unfolding skip_comment
length-skip_comment [] = omega arith
length-skip_comment (c ∷ cs) = ground (arith, length-skip_comment cs)

length-skip_name : (bs : Bytes) → length (skip_name bs) ≤ length bs
unfolding skip_name
length-skip_name [] = omega arith
length-skip_name (c ∷ cs) = elim (Bool-cases (is_name_byte c)) [
  | inl name ↦ rw name (omega (arith, length-skip_name cs))
  | inr other ↦ rw other (omega arith)
]

length-skip_string : (bs : Bytes) → length (skip_string bs) ≤ length bs
unfolding skip_string
length-skip_string [] = omega arith
length-skip_string (a ∷ []) = omega arith
length-skip_string (a ∷ b ∷ rest) =
    ground (arith, length-skip_string rest, length-skip_string (b ∷ rest))

length-skip_block_string : (bs : Bytes) → length (skip_block_string bs) ≤ length bs
unfolding skip_block_string
length-skip_block_string [] = omega arith
length-skip_block_string (a ∷ []) = omega arith
length-skip_block_string (a ∷ b ∷ []) = omega arith
length-skip_block_string (a ∷ b ∷ c ∷ rest) =
    ground (arith, length-skip_block_string (c ∷ rest), length-skip_block_string (b ∷ c ∷ rest))

length-skip_quoted : (bs : Bytes) → length (skip_quoted bs) ≤ length bs
unfolding skip_quoted
length-skip_quoted [] = length-skip_string []
length-skip_quoted (b ∷ []) = length-skip_string (b ∷ [])
length-skip_quoted (b ∷ c ∷ rest) = elim (Bool-cases (is_quotes b'"' b c)) [
  | inl block ↦ rw block (omega (arith, length-skip_block_string rest))
  | inr plain ↦ rw plain (length-skip_string (b ∷ c ∷ rest))
]

length-remaining : (c : ℕ) (cs : Bytes) → length (remaining (c ∷ cs)) ≤ length cs
unfolding remaining
length-remaining c cs = elim (Bool-cases (c == b'#')) [
  | inl comment ↦ rw comment (length-skip_comment cs)
  | inr n1 ↦ elim (Bool-cases (c == b'"')) [
    | inl quote ↦ rw (n1, quote) (length-skip_quoted cs)
    | inr n2 ↦ elim (Bool-cases (c == b'_' || is_alphabetic c)) [
      | inl name ↦ rw (n1, n2, name) (length-skip_name cs)
      | inr n3 ↦ rw (n1, n2, n3) (omega arith)
    ]
  ]
]

-- Any two fuels from the length of the text on lex it to the same end.
pub lex_enough :
    (fuel fuel' : ℕ) (bs : Bytes) (l : Lexer)
    → length bs ≤ fuel
    → length bs ≤ fuel'
    → lex fuel bs l ≡ lex fuel' bs l
unfolding lex
lex_enough zero zero bs l h h' = refl
lex_enough zero (suc fuel') [] l h h' = refl
lex_enough (suc fuel) zero [] l h h' = refl
lex_enough (suc fuel) (suc fuel') [] l h h' = refl
lex_enough zero (suc fuel') (c ∷ cs) l h h' = absurd (omega arith)
lex_enough (suc fuel) zero (c ∷ cs) l h h' = absurd (omega arith)
lex_enough (suc fuel) (suc fuel') (c ∷ cs) l h h' =
    lex_enough fuel fuel' (remaining (c ∷ cs)) (counted c cs l)
      (omega (arith, length-remaining c cs)) (omega (arith, length-remaining c cs))
