-- ===== src/Tests/Nginx.antt =====
-- The custom code of nginx (src/nginx/nginx-custom-code.ts) at concrete inputs.
use lyttle_nginx.Prelude.{◌≡◌, ◌≢◌, refl, Option, none, some, List, [], ◌∷◌, All}
use lyttle_nginx.Prelude.Texts.{Text, codes}
use lyttle_nginx.Nginx.CustomCode.{good, fail, out_of_fuel, Statements}
use lyttle_nginx.Nginx.CustomCode.Parser.{parse_tokens, statements_tokens}
use lyttle_nginx.Nginx.CustomCode.Parser.Total.{parse_tokens_sound}
use lyttle_nginx.Prelude.{true, false}
use lyttle_nginx.Nginx.CustomCode.Validator.{is_within, server, get_allowed_path_prefixes}
use lyttle_nginx.Nginx.CustomCode.Validator.Allowed.{IsBelow, AreAllowed}
use lyttle_nginx.Nginx.CustomCode.Renderer.{
  rendered, sanitize_nginx_custom_code, extract_managed_paths_from_custom_code,
}
use lyttle_nginx.Nginx.CustomCode.Renderer.Sanitized.{
  IsRead, sanitize_nginx_custom_code-AreAllowed, extract_managed_paths-IsBelow,
}

-- posix.normalize on paths that are in normal form.
abbrev same_path : Text → Text
same_path path = path

abbrev some_tokens : List Text
some_tokens = codes "expires" ∷ codes "1d" ∷ codes ";" ∷ []

parse_tokens_sound_example :
    (parse_tokens some_tokens ≢ fail out_of_fuel)
    × ((statements : Statements)
        → parse_tokens some_tokens ≡ good statements
        → some_tokens ≡ statements_tokens statements)
parse_tokens_sound_example = parse_tokens_sound some_tokens

abbrev fragment : Option Text
fragment = some (codes "location /a { root /var/www/a; }")

abbrev sanitized : Text
sanitized = codes "  location /a {\n    root /var/www/a;\n  }\n"

fragment_accepted : sanitize_nginx_custom_code same_path none fragment ≡ good sanitized
unfolding sanitize_nginx_custom_code
fragment_accepted = refl

sanitize_nginx_custom_code-AreAllowed_example :
    (ss : Statements) × IsRead fragment ss
    × AreAllowed same_path none server ss
    × (sanitized ≡ rendered same_path none ss)
unfolding sanitize_nginx_custom_code
sanitize_nginx_custom_code-AreAllowed_example =
    sanitize_nginx_custom_code-AreAllowed same_path none fragment sanitized refl

extract_managed_paths-IsBelow_example :
    All (IsBelow (get_allowed_path_prefixes same_path none)) (codes "/var/www/a" ∷ [])
unfolding extract_managed_paths_from_custom_code
extract_managed_paths-IsBelow_example =
    extract_managed_paths-IsBelow same_path none fragment (codes "/var/www/a" ∷ []) refl

-- posix.normalize keeps a slash at the end of a configured prefix; no path lies below it then.
nothing_below_slash : is_within (codes "/srv/www/a") (codes "/srv/www/" ∷ []) ≡ false
nothing_below_slash = refl

something_below : is_within (codes "/srv/www/a") (codes "/srv/www" ∷ []) ≡ true
something_below = refl
