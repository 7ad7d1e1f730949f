-- ===== src/Nginx/CustomCode/Parser/Total.antt =====
-- parseStatements of src/nginx/nginx-custom-code.ts ends on every list of tokens, and the whole
-- list is read.
use lyttle_nginx.Prelude.{
  ℕ, zero, suc, ◌<◌, ◌≡◌, ◌≢◌, ap, List, [], ◌∷◌, length, arith, append-nil, length-append,
  Bool-cases, inl, inr,
}
use lyttle_nginx.Prelude.Texts.{Text}
use lyttle_nginx.Nginx.CustomCode.{Result, good, fail, ◌>>=◌, out_of_fuel, Statements}
use lyttle_nginx.Nginx.CustomCode.Parser.{read_found, no_trailing}
use lyttle_nginx.Nginx.CustomCode.Parser.{
  is_char, Found, done, no_head, no_delimiter, simple, opening, look, close_brace, after_directive,
  after_block, parse_statements, parse_tokens, statements_tokens,
}
use lyttle_nginx.Nginx.CustomCode.Parser.Sound.{Fits, Reads, look-Fits, parse_statements-Reads}

-- The fuel suffices: each call is made on fewer tokens.
module _ (fuel : ℕ)
    (ih : (ts : List Text) → length ts < fuel → parse_statements fuel ts ≢ fail out_of_fuel) where
  after_directive-fuel :
      (name : Text) (args : List Text) (r : Result (Statements × List Text))
      → r ≢ fail out_of_fuel
      → (r >>= after_directive name args) ≢ fail out_of_fuel
  after_directive-fuel name args (good x) h = cc
  after_directive-fuel name args (fail e) h = h

  after_block-fuel :
      (name : Text) (args : List Text) (children : Statements) (r : Result (Statements × List Text))
      → r ≢ fail out_of_fuel
      → (r >>= after_block name args children) ≢ fail out_of_fuel
  after_block-fuel name args children (good x) h = cc
  after_block-fuel name args children (fail e) h = h

  closing-fuel :
      (name : Text) (args : List Text) (children : Statements) (left : List Text)
      → length left < fuel
      → (close_brace left >>= λ left'.
          parse_statements fuel left' >>= after_block name args children)
        ≢ fail out_of_fuel
  closing-fuel name args children [] h = cc
  closing-fuel name args children (token ∷ tokens) h = elim (Bool-cases (is_char b'}' token)) [
    | inl brace ↦ rw brace (
        after_block-fuel name args children (parse_statements fuel tokens)
          (ih tokens (omega arith)))
    | inr other ↦ rw other (cc)
  ]

  opening-fuel :
      (name : Text) (args more : List Text) (r : Result (Statements × List Text))
      → length more < fuel
      → Reads more r
      → r ≢ fail out_of_fuel
      → (r >>= λ (children, left). close_brace left >>= λ left'.
          parse_statements fuel left' >>= after_block name args children)
        ≢ fail out_of_fuel
  opening-fuel name args more (good (children, left)) short reads h =
      closing-fuel name args children left
        (omega (arith, ap length reads, length-append (statements_tokens children) left))
  opening-fuel name args more (fail e) short reads h = h

  round-fuel :
      (tokens : List Text) (found : Found)
      → Fits tokens found
      → length tokens < suc fuel
      → read_found (parse_statements fuel) tokens found ≢ fail out_of_fuel
  round-fuel tokens done fits h = cc
  round-fuel tokens no_head fits h = cc
  round-fuel tokens no_delimiter fits h = cc
  round-fuel tokens (simple name args more) fits h =
      after_directive-fuel name args (parse_statements fuel more)
        (ih more (omega (arith, ap length fits, length-append args ((b';' ∷ []) ∷ more))))
  round-fuel tokens (opening name args more) fits h =
      let short : length more < fuel =
        omega (arith, ap length fits, length-append args ((b'{' ∷ []) ∷ more)) in
      opening-fuel name args more (parse_statements fuel more) short
        (parse_statements-Reads fuel more) (ih more short)

pub parse_statements-fuel :
    (fuel : ℕ) (tokens : List Text)
    → length tokens < fuel
    → parse_statements fuel tokens ≢ fail out_of_fuel
unfolding parse_statements
parse_statements-fuel zero tokens h = absurd (omega arith)
parse_statements-fuel (suc fuel) tokens h =
    round-fuel fuel (parse_statements-fuel fuel) tokens (look tokens) (look-Fits tokens) h

whole-tokens :
    (tokens : List Text) (r : Result (Statements × List Text)) (statements : Statements)
    → Reads tokens r
    → (r >>= no_trailing) ≡ good statements
    → tokens ≡ statements_tokens statements
whole-tokens tokens (good (ss, [])) statements h e =
    ground (arith, append-nil (statements_tokens ss))
whole-tokens tokens (good (ss, t ∷ ts)) statements h e = cc
whole-tokens tokens (fail x) statements h e = cc

whole-fuel :
    (r : Result (Statements × List Text))
    → r ≢ fail out_of_fuel
    → (r >>= no_trailing) ≢ fail out_of_fuel
whole-fuel (good (ss, [])) h = cc
whole-fuel (good (ss, t ∷ ts)) h = cc
whole-fuel (fail x) h = λ e. let same : x ≡ out_of_fuel = cc in h (ap fail same)

-- The parser ends on every list of tokens, with statements or with one of the errors of the
-- program; and the statements that it accepts have exactly the given tokens, in their order: none
-- is dropped, added or moved to another statement.
pub parse_tokens_sound :
    (tokens : List Text)
    → (parse_tokens tokens ≢ fail out_of_fuel)
      × ((statements : Statements)
          → parse_tokens tokens ≡ good statements
          → tokens ≡ statements_tokens statements)
unfolding parse_tokens
parse_tokens_sound tokens = (
  whole-fuel (parse_statements (suc (length tokens)) tokens)
      (parse_statements-fuel (suc (length tokens)) tokens (omega arith)),
  λ statements e.
      whole-tokens tokens (parse_statements (suc (length tokens)) tokens) statements
        (parse_statements-Reads (suc (length tokens)) tokens) e,
)
