-- ===== src/Nginx/CustomCode.antt =====
-- nginx_custom_code (src/nginx/nginx-custom-code.ts): a fragment is read into statements, checked
-- against the allowlists and written out again. This module has the texts, the tokens and the
-- statements; the children have the stages.
pub mod Tokenizer
pub mod Parser
pub mod Arguments
pub mod Validator
pub mod Renderer
use lyttle_nginx.Prelude.{
  ℕ, Bool, true, false, ◌&&◌, ◌||◌, Option, none, some, List, [], ◌∷◌, ◌++◌, ltb, ◌==◌,
  if◌then◌else◌,
}
use lyttle_nginx.Prelude.Texts.{Text, codes, text_eq}
pub use lyttle_nginx.Prelude.Results.{Checked, good, fail, ◌>>=◌, ◌>>◌, require}
use lyttle_nginx.Prelude.Numbers.{is_space}

-- The messages of NginxCustomCodeValidationError, without the parts that quote the input.
pub data CustomCodeError : Type 0 where
  trailing_tokens control_character unterminated_quote empty_statement missing_brace :
      CustomCodeError
  missing_delimiter block_not_allowed directive_not_allowed bad_location bad_arguments :
      CustomCodeError
  bad_path : CustomCodeError
  -- No counterpart: the parser of the model ran out of fuel.
  out_of_fuel : CustomCodeError

abbrev pub Result : Type 0 → Type 0
Result A = Checked CustomCodeError A

mutual
  pub data Statement : Type 0 where
    directive : Text → List Text → Statement
    block : Text → List Text → Statements → Statement

  pub data Statements : Type 0 where
    nil : Statements
    cons : Statement → Statements → Statements

-- `{`, `}` and `;`
unfoldable pub is_delimiter : ℕ → Bool
is_delimiter c = c == b'{' || c == b'}' || c == b';'

unfoldable pub is_quote : ℕ → Bool
is_quote c = c == b'"' || c == 39
