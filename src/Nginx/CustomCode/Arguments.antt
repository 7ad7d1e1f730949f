-- ===== src/Nginx/CustomCode/Arguments.antt =====
-- The checks of a directive's arguments (src/nginx/nginx-custom-code.ts).
use lyttle_nginx.Prelude.{
  ℕ, Bool, true, false, not, ◌&&◌, ◌||◌, List, [], ◌∷◌, any, all, leb, ◌==◌, if◌then◌else◌,
}
use lyttle_nginx.Prelude.Texts.{Text, codes, text_eq, starts_with, includes, split}
use lyttle_nginx.Prelude.Numbers.{is_digit}
use lyttle_nginx.Nginx.CustomCode.{
  Result, good, fail, ◌>>◌, require, bad_location, bad_arguments, is_delimiter,
}
use lyttle_nginx.Nginx.CustomCode.Tokenizer.{is_blank}

abbrev pub among : Text → List Text → Bool
among name allowed = any (λ t. text_eq name t) allowed

is_alnum : ℕ → Bool
is_alnum c = leb b'A' c && leb c b'Z' || leb b'a' c && leb c b'z' || leb b'0' c && leb c b'9'

-- /[{};$]/ and /[{};]/
unfoldable pub is_special : ℕ → Bool
unfolding is_delimiter
is_special c = is_delimiter c || c == b'$'

-- A class with `+`, from start to end.
abbrev nonempty_all : (ℕ → Bool) → Text → Bool
nonempty_all p [] = false
nonempty_all p (c ∷ s) = p c && all p s

unfoldable pub validate_location_selector : List Text → Result (Unit {0})
unfolding is_special
validate_location_selector [] = fail bad_location
validate_location_selector (path ∷ []) = do
  require (starts_with path (codes "/")) bad_location
  require (not (any is_special path || includes path (codes ".."))) bad_location
validate_location_selector (modifier ∷ path ∷ []) = do
  require (is_blank modifier || among modifier (codes "=" ∷ codes "^~" ∷ [])) bad_location
  require (starts_with path (codes "/")) bad_location
  require (not (any is_special path || includes path (codes ".."))) bad_location
validate_location_selector (a ∷ b ∷ c ∷ rest) = fail bad_location

header_name : Text → Bool
unfolding is_alnum
header_name = nonempty_all (λ c. is_alnum c || c == b'-')

unfoldable pub validate_add_header : List Text → Result (Unit {0})
unfolding header_name
validate_add_header (name ∷ value ∷ []) = require (header_name name) bad_arguments
validate_add_header (name ∷ value ∷ flag ∷ []) =
    require (header_name name && text_eq flag (codes "always")) bad_arguments
validate_add_header args = fail bad_arguments

-- The first test is startsWith and endsWith of the same quote; a lone quote passes both.
ends_with : ℕ → Text → Bool
ends_with q [] = false
ends_with q (c ∷ []) = c == q
ends_with q (c ∷ d ∷ s) = ends_with q (d ∷ s)

drop_last : Text → Text
drop_last [] = []
drop_last (c ∷ []) = []
drop_last (c ∷ d ∷ s) = c ∷ drop_last (d ∷ s)

unfoldable pub strip_wrapping_quotes : Text → Text
unfolding ends_with drop_last
strip_wrapping_quotes [] = []
strip_wrapping_quotes (c ∷ s) =
    if c == b'"' && ends_with b'"' (c ∷ s) || c == 39 && ends_with 39 (c ∷ s)
    then drop_last s
    else c ∷ s

unfoldable pub is_on_off : Text → Bool
is_on_off value = among value (codes "on" ∷ codes "off" ∷ [])

-- /^(0|\d+[kKmMgG]?)$/
size_suffix : Text → Bool
unfolding is_digit
size_suffix [] = true
size_suffix (c ∷ []) =
    is_digit c || c == b'k' || c == b'K' || c == b'm' || c == b'M' || c == b'g' || c == b'G'
size_suffix (c ∷ d ∷ s) = is_digit c && size_suffix (d ∷ s)

unfoldable pub is_size : Text → Bool
unfolding is_digit size_suffix
is_size [] = false
is_size (c ∷ s) = is_digit c && size_suffix s

-- /^[A-Za-z0-9.+-]+\/[A-Za-z0-9.+-]+$/
unfoldable pub is_mime_type : Text → Bool
unfolding is_alnum
is_mime_type value = elim (split b'/' value) [
  | [] ↦ false
  | kind ∷ rest ↦ elim rest [
    | [] ↦ false
    | subtype ∷ more ↦ elim more [
      | [] ↦ nonempty_all mime_char kind && nonempty_all mime_char subtype
      | _ ∷ _ ↦ false
    ]
  ]
]
  where
    mime_char : ℕ → Bool
    mime_char c = is_alnum c || c == b'.' || c == b'+' || c == b'-'

expires_char : ℕ → Bool
unfolding is_alnum
expires_char c = is_alnum c || c == b'_' || c == b':' || c == b'+' || c == b'-'

-- The words of the pattern are in its last alternative, @?[A-Za-z0-9_:+-]+.
unfoldable pub is_expires : Text → Bool
unfolding expires_char
is_expires [] = false
is_expires (c ∷ s) =
    if c == b'@' then nonempty_all expires_char s else nonempty_all expires_char (c ∷ s)

abbrev pub single : (Text → Bool) → List Text → Result (Unit {0})
single p (value ∷ []) = require (p value) bad_arguments
single p args = fail bad_arguments

unfoldable pub validate_index : List Text → Result (Unit {0})
unfolding is_special
validate_index [] = fail bad_arguments
validate_index (value ∷ values) =
    require (all (λ v. not (any is_special v || includes v (codes ".."))) (value ∷ values))
      bad_arguments

is_status : Text → Bool
unfolding is_digit
is_status (a ∷ b ∷ c ∷ []) = is_digit a && is_digit b && is_digit c
is_status text = false

unfoldable pub validate_return : List Text → Result (Unit {0})
unfolding is_status
validate_return (value ∷ []) = good tt
validate_return (status ∷ value ∷ []) = require (is_status status) bad_arguments
validate_return args = fail bad_arguments

unfoldable pub validate_try_files : List Text → Result (Unit {0})
unfolding is_delimiter
validate_try_files (a ∷ b ∷ rest) =
    require (all (λ v. not (any is_delimiter v)) (a ∷ b ∷ rest)) bad_arguments
validate_try_files args = fail bad_arguments
