-- ===== src/Nginx/CustomCode/Validator.antt =====
-- validateStatements, the managed paths and collectManagedPaths (src/nginx/nginx-custom-code.ts).
-- `normalize` is posix.normalize of Node; `configured` is the value of the environment variable
-- NGINX_CUSTOM_CODE_ALLOWED_PATH_PREFIXES.
pub mod Allowed
use lyttle_nginx.Prelude.{
  ℕ, Bool, true, false, not, ◌&&◌, ◌||◌, Option, none, some, List, [], ◌∷◌, ◌++◌, any, keep, map,
  ◌==◌, if◌then◌else◌,
}
use lyttle_nginx.Prelude.Texts.{Text, codes, text_eq, starts_with, includes, to_lower, split}
use lyttle_nginx.Prelude.Numbers.{is_space}
use lyttle_nginx.Nginx.CustomCode.{
  Result, good, fail, ◌>>=◌, ◌>>◌, require, block_not_allowed, directive_not_allowed, bad_arguments,
  bad_path, Statement, directive, block, Statements, nil, cons,
}
use lyttle_nginx.Nginx.CustomCode.Tokenizer.{trim, is_blank}
use lyttle_nginx.Nginx.CustomCode.Arguments.{
  among, is_special, validate_location_selector, validate_add_header, strip_wrapping_quotes,
  is_on_off, is_size, is_mime_type, is_expires, single, validate_index, validate_return,
  validate_try_files,
}

pub data Context : Type 0 where
  server location : Context

abbrev pub server_directives : List Text
server_directives = codes "add_header" ∷ codes "client_max_body_size" ∷ codes "expires" ∷ []

abbrev pub location_directives : List Text
location_directives =
    codes "add_header"
    ∷ codes "alias"
    ∷ codes "autoindex"
    ∷ codes "client_max_body_size"
    ∷ codes "default_type"
    ∷ codes "expires"
    ∷ codes "index"
    ∷ codes "return"
    ∷ codes "root"
    ∷ codes "try_files"
    ∷ []

abbrev pub allowlist : Context → List Text
allowlist server = server_directives
allowlist location = location_directives

abbrev pub default_allowed_path_prefixes : List Text
default_allowed_path_prefixes =
    codes "/etc/nginx/custom"
    ∷ codes "/etc/nginx/html"
    ∷ codes "/srv/www"
    ∷ codes "/usr/share/nginx/html"
    ∷ codes "/var/www"
    ∷ []

abbrev pub is_location_block : Context → Text → Bool
is_location_block server name = text_eq (to_lower name) (codes "location")
is_location_block location name = false

-- The path is an allowed prefix, or lies below one.
abbrev pub is_within : Text → List Text → Bool
is_within path prefixes =
    any (λ prefix. text_eq path prefix || starts_with path (prefix ++ b'/' ∷ [])) prefixes

module _ (normalize : Text → Text) (configured : Option Text) where
  abbrev configured_prefixes : Text → List Text
  configured_prefixes value =
      map (λ v. normalize (strip_wrapping_quotes v))
        (keep (λ v. not (is_blank v)) (map trim (split b',' value)))

  abbrev or_default : List Text → List Text
  or_default [] = default_allowed_path_prefixes
  or_default (prefix ∷ prefixes) = prefix ∷ prefixes

  unfoldable pub get_allowed_path_prefixes : List Text
  unfolding strip_wrapping_quotes trim split
  get_allowed_path_prefixes = elim configured [
    | none ↦ default_allowed_path_prefixes
    | some value ↦ or_default (configured_prefixes value)
  ]

  unfoldable pub normalize_managed_path : Text → Result Text
  unfolding strip_wrapping_quotes is_special is_space
  normalize_managed_path token = do
    let raw = strip_wrapping_quotes token
    require (starts_with raw (codes "/")) bad_path
    require (not (any is_special raw || includes raw (codes "..") || includes raw (92 ∷ [])))
        bad_path
    require (not (any is_space raw)) bad_path
    require (starts_with (normalize raw) (codes "/")) bad_path
    good (normalize raw)

  unfoldable pub validate_managed_path : List Text → Result (Unit {0})
  unfolding normalize_managed_path get_allowed_path_prefixes
  validate_managed_path (token ∷ []) = do
    path ← normalize_managed_path token
    require (is_within path get_allowed_path_prefixes) bad_path
  validate_managed_path args = fail bad_arguments

  -- The `switch` of validateDirective, on the name in lower case.
  unfoldable pub validate_arguments : Text → List Text → Result (Unit {0})
  unfolding validate_managed_path validate_add_header is_on_off is_size is_mime_type is_expires
      validate_index validate_return validate_try_files
  validate_arguments name args =
      if text_eq name (codes "add_header")
      then validate_add_header args
      else if text_eq name (codes "alias") || text_eq name (codes "root")
      then validate_managed_path args
      else if text_eq name (codes "autoindex")
      then single is_on_off args
      else if text_eq name (codes "client_max_body_size")
      then single is_size args
      else if text_eq name (codes "default_type")
      then single is_mime_type args
      else if text_eq name (codes "expires")
      then single is_expires args
      else if text_eq name (codes "index")
      then validate_index args
      else if text_eq name (codes "return")
      then validate_return args
      else if text_eq name (codes "try_files")
      then validate_try_files args
      else fail directive_not_allowed

  unfoldable pub validate_directive : Context → Text → List Text → Result (Unit {0})
  unfolding validate_arguments to_lower
  validate_directive context name args = do
    require (among (to_lower name) (allowlist context)) directive_not_allowed
    validate_arguments (to_lower name) args

  unfoldable mutual
    unfolding validate_directive validate_location_selector to_lower

    pub validate_statement : Context → Statement → Result (Unit {0})
    validate_statement context (directive name args) = validate_directive context name args
    validate_statement context (block name args children) = do
      require (is_location_block context name) block_not_allowed
      validate_location_selector args
      validate_statements location children

    pub validate_statements : Context → Statements → Result (Unit {0})
    validate_statements context nil = good tt
    validate_statements context (cons statement statements) = do
      validate_statement context statement
      validate_statements context statements
