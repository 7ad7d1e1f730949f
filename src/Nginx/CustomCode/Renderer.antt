-- ===== src/Nginx/CustomCode/Renderer.antt =====
-- parseValidatedCustomCode, sanitizeNginxCustomCode, extractManagedPathsFromCustomCode and
-- renderStatements (src/nginx/nginx-custom-code.ts).
pub mod Sanitized
use lyttle_nginx.Prelude.{
  ℕ, Bool, true, false, not, ◌&&◌, ◌||◌, Option, none, some, List, [], ◌∷◌, ◌++◌, any, or_else,
  if◌then◌else◌, ◌==◌, ltb,
}
use lyttle_nginx.Prelude.Texts.{Text, codes, text_eq, to_lower, join}
use lyttle_nginx.Nginx.CustomCode.{
  Result, good, fail, ◌>>=◌, ◌>>◌, require, control_character, Statement, directive, block,
  Statements, nil, cons,
}
use lyttle_nginx.Nginx.CustomCode.Tokenizer.{
  trim_end, normalize_fragment, has_control_character, tokenize,
}
use lyttle_nginx.Nginx.CustomCode.Parser.{parse_tokens}
use lyttle_nginx.Nginx.CustomCode.Arguments.{among}
use lyttle_nginx.Nginx.CustomCode.Validator.{
  Context, server, normalize_managed_path, validate_statements,
}

-- `${name} ${args.join(' ')}`
abbrev head_text : Text → List Text → Text
head_text name args = name ++ b' ' ∷ join (codes " ") args

-- The rendered statements, joined by a newline.
unfoldable mutual
  unfolding join

  pub render_statement : Text → Statement → Text
  render_statement indent (directive name args) = indent ++ head_text name args ++ b';' ∷ []
  render_statement indent (block name args children) =
      indent
      ++ head_text name args
      ++ codes " {"
      ++ 10 ∷ render_statements (indent ++ codes "  ") children
      ++ 10 ∷ indent
      ++ b'}' ∷ []

  pub render_statements : Text → Statements → Text
  render_statements indent nil = []
  render_statements indent (cons statement nil) = render_statement indent statement
  render_statements indent (cons statement (cons next statements)) =
      render_statement indent statement ++ 10 ∷ render_statements indent (cons next statements)

-- `return [...paths]` of the Set: the order of the first insertion.
abbrev pub add_path : List Text → Text → List Text
add_path paths path = if among path paths then paths else paths ++ path ∷ []

-- A blank fragment has no statements.
abbrev pub is_empty : Text → Bool
is_empty [] = true
is_empty (c ∷ s) = false

module _ (normalize : Text → Text) (configured : Option Text) where
  unfoldable pub parse_text : Text → Result Statements
  unfolding has_control_character tokenize parse_tokens validate_statements
  parse_text fragment = do
    require (not (has_control_character fragment)) control_character
    let tokens = tokenize fragment
    statements ← tokens >>= parse_tokens
    validate_statements normalize configured server statements >> good statements

  unfoldable pub parse_validated_custom_code : Option Text → Result Statements
  unfolding normalize_fragment parse_text
  parse_validated_custom_code fragment =
      let normalized = normalize_fragment (or_else fragment []) in
      if is_empty normalized then good nil else parse_text normalized

  abbrev pub rendered : Statements → Text
  rendered nil = []
  rendered (cons statement statements) =
      trim_end (render_statements (codes "  ") (cons statement statements)) ++ 10 ∷ []

  unfoldable pub sanitize_nginx_custom_code : Option Text → Result Text
  unfolding parse_validated_custom_code render_statements trim_end
  sanitize_nginx_custom_code fragment = do
    statements ← parse_validated_custom_code fragment
    good (rendered statements)

  -- What a root or alias directive adds: its first argument, when there is one and it is not
  -- empty.
  unfoldable pub collect_path : List Text → Text → List Text → Result (List Text)
  unfolding normalize_managed_path
  collect_path paths name [] = good paths
  collect_path paths name (token ∷ args) =
      if (text_eq (to_lower name) (codes "root") || text_eq (to_lower name) (codes "alias"))
        && not (is_empty token)
      then (do path ← normalize_managed_path normalize configured token; good (add_path paths path))
      else good paths

  unfoldable mutual
    unfolding collect_path

    pub collect_statement : List Text → Statement → Result (List Text)
    collect_statement paths (directive name args) = collect_path paths name args
    collect_statement paths (block name args children) = collect_managed_paths paths children

    pub collect_managed_paths : List Text → Statements → Result (List Text)
    collect_managed_paths paths nil = good paths
    collect_managed_paths paths (cons statement statements) = do
      paths' ← collect_statement paths statement
      collect_managed_paths paths' statements

  unfoldable pub extract_managed_paths_from_custom_code : Option Text → Result (List Text)
  unfolding parse_validated_custom_code collect_managed_paths
  extract_managed_paths_from_custom_code fragment = do
    statements ← parse_validated_custom_code fragment
    collect_managed_paths [] statements
