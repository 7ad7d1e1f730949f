-- ===== src/Nginx/CustomCode/Parser.antt =====
-- parseStatements of src/nginx/nginx-custom-code.ts. The index into the tokens is the list of the
-- tokens that are left; fuel bounds the nested and repeated calls, and the number of tokens is
-- enough of it.
pub mod Sound
pub mod Total
use lyttle_nginx.Prelude.{
  ℕ, zero, suc, Bool, true, false, List, [], ◌∷◌, ◌++◌, length, ◌==◌, if◌then◌else◌,
}
use lyttle_nginx.Prelude.Texts.{Text}
use lyttle_nginx.Nginx.CustomCode.{
  Result, good, fail, ◌>>=◌, trailing_tokens, empty_statement, missing_brace, missing_delimiter,
  out_of_fuel, Statement, directive, block, Statements, nil, cons, is_delimiter,
}

-- The token is `c` and nothing else.
abbrev pub is_char : ℕ → Text → Bool
is_char c [] = false
is_char c (d ∷ []) = d == c
is_char c (d ∷ e ∷ s) = false

-- ['{', '}', ';'].includes(token)
abbrev pub is_delimiter_token : Text → Bool
is_delimiter_token [] = false
is_delimiter_token (d ∷ []) = is_delimiter d
is_delimiter_token (d ∷ e ∷ s) = false

-- The inner loop: the tokens before the next delimiter, and those from it on.
unfoldable pub take_head : List Text → List Text × List Text
unfolding is_delimiter
take_head [] = ([], [])
take_head (token ∷ tokens) =
    let (head, rest) = take_head tokens in
    if is_delimiter_token token then ([], token ∷ tokens) else (token ∷ head, rest)

-- What a round of the outer loop finds: the end, a statement's head with its delimiter, or one of
-- the two malformed cases.
pub data Found : Type 0 where
  done no_head no_delimiter : Found
  simple : Text → List Text → List Text → Found
  opening : Text → List Text → List Text → Found

abbrev pub at_end : List Text → Bool
at_end [] = true
at_end (token ∷ tokens) = is_char b'}' token

unfoldable pub after_head : Text → List Text → List Text → Found
after_head name args [] = no_delimiter
after_head name args (token ∷ tokens) =
    if is_char b';' token
    then simple name args tokens
    else if is_char b'{' token
    then opening name args tokens
    else no_delimiter

unfoldable pub of_head : List Text → List Text → Found
unfolding after_head
of_head [] rest = no_head
of_head (name ∷ args) rest = after_head name args rest

unfoldable pub look : List Text → Found
unfolding take_head of_head
look tokens =
    let (head, rest) = take_head tokens in if at_end tokens then done else of_head head rest

-- The tokens after the closing brace.
abbrev pub close_brace : List Text → Result (List Text)
close_brace [] = fail missing_brace
close_brace (token ∷ tokens) = if is_char b'}' token then good tokens else fail missing_brace

abbrev pub after_directive :
    Text → List Text → Statements × List Text → Result (Statements × List Text)
after_directive name args (statements, left) = good (cons (directive name args) statements, left)

abbrev pub after_block :
    Text → List Text → Statements → Statements × List Text → Result (Statements × List Text)
after_block name args children (statements, left) =
    good (cons (block name args children) statements, left)

-- A round, with the reader of the statements that follow or are nested.
abbrev pub read_found :
    (List Text → Result (Statements × List Text))
    → List Text
    → Found
    → Result (Statements × List Text)
read_found read tokens done = good (nil, tokens)
read_found read tokens no_head = fail empty_statement
read_found read tokens no_delimiter = fail missing_delimiter
read_found read tokens (simple name args more) = read more >>= after_directive name args
read_found read tokens (opening name args more) = read more >>= λ (children, left).
    close_brace left >>= λ left'. read left' >>= after_block name args children

unfoldable pub parse_statements : ℕ → List Text → Result (Statements × List Text)
unfolding look
parse_statements zero tokens = fail out_of_fuel
parse_statements (suc fuel) tokens = read_found (parse_statements fuel) tokens (look tokens)

abbrev pub no_trailing : Statements × List Text → Result Statements
no_trailing (statements, []) = good statements
no_trailing (statements, token ∷ tokens) = fail trailing_tokens

-- The whole list of tokens, as parseValidatedCustomCode reads it.
unfoldable pub parse_tokens : List Text → Result Statements
unfolding parse_statements
parse_tokens tokens = do result ← parse_statements (suc (length tokens)) tokens; no_trailing result

-- The tokens of statements, in order.
unfoldable mutual
  pub statement_tokens : Statement → List Text
  statement_tokens (directive name args) = name ∷ args ++ (b';' ∷ []) ∷ []
  statement_tokens (block name args children) =
      name ∷ args ++ (b'{' ∷ []) ∷ (statements_tokens children ++ (b'}' ∷ []) ∷ [])

  pub statements_tokens : Statements → List Text
  statements_tokens nil = []
  statements_tokens (cons statement statements) =
      statement_tokens statement ++ statements_tokens statements
