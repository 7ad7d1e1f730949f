-- ===== src/Domains.antt =====
-- The normal form of domain names and of lists of them (src/utils/domain-utils.ts).
-- `domain_to_ascii` is domainToASCII of node:url, `is_ip` tells that isIP of node:net is not 0, and
-- `sha256` is the hexadecimal digest of createHash('sha256') of node:crypto.
pub mod Normal
use lyttle_nginx.Prelude.{
  ℕ, Bool, true, false, not, ◌&&◌, ◌||◌, List, [], ◌∷◌, ◌++◌, any, all, length, map, keep, ltb, leb,
  ◌==◌, if◌then◌else◌,
}
use lyttle_nginx.Prelude.Texts.{Text, codes, text_eq, starts_with, includes, to_lower, join, split}
use lyttle_nginx.Prelude.Numbers.{is_space, is_digit}
use lyttle_nginx.Prelude.Results.{Checked, good, fail, ◌>>=◌, ◌>>◌, require}
use lyttle_nginx.Nginx.CustomCode.Tokenizer.{trim, is_blank}

-- The messages of DomainValidationError.
pub data DomainError : Type 0 where
  not_qualified empty_label long_label bad_label empty_domain bad_separator : DomainError
  wildcard_not_allowed inner_wildcard double_dot not_ascii ip_address long_domain : DomainError
  unsupported_character no_domain : DomainError

abbrev pub max_domain_length : ℕ
max_domain_length = 253

abbrev pub max_label_length : ℕ
max_label_length = 63

is_lower_alnum : ℕ → Bool
unfolding is_digit
is_lower_alnum c = leb b'a' c && leb c b'z' || is_digit c

unfoldable pub label_char : ℕ → Bool
unfolding is_lower_alnum
label_char c = is_lower_alnum c || c == b'-'

-- The tail of DOMAIN_LABEL_PATTERN: inner characters, then a letter or a digit.
label_tail : Text → Bool
unfolding is_lower_alnum label_char
label_tail [] = true
label_tail (c ∷ []) = is_lower_alnum c
label_tail (c ∷ d ∷ s) = label_char c && label_tail (d ∷ s)

-- DOMAIN_LABEL_PATTERN
unfoldable pub is_domain_label : Text → Bool
unfolding is_lower_alnum label_tail
is_domain_label [] = false
is_domain_label (c ∷ s) = is_lower_alnum c && label_tail s && leb (length s) 62

unfoldable pub check_labels : List Text → Checked DomainError (Unit {0})
unfolding is_domain_label
check_labels [] = good tt
check_labels (label ∷ labels) = do
  require (not (length label == 0)) empty_label
  require (leb (length label) max_label_length) long_label
  require (is_domain_label label) bad_label
  check_labels labels

unfoldable pub ensure_label_rules : Text → Checked DomainError (Unit {0})
unfolding check_labels split
ensure_label_rules domain = do
  require (leb 2 (length (split b'.' domain))) not_qualified
  check_labels (split b'.' domain)

-- One dot at the end is dropped.
unfoldable pub drop_dot : Text → Text
drop_dot [] = []
drop_dot (c ∷ []) = if c == b'.' then [] else c ∷ []
drop_dot (c ∷ d ∷ s) = c ∷ drop_dot (d ∷ s)

unfoldable pub bad_char : ℕ → Bool
unfolding is_space
bad_char c = ltb c 32 || c == 127 || is_space c || c == b'/' || c == 92

unfoldable pub ascii_char : ℕ → Bool
unfolding label_char
ascii_char c = label_char c || c == b'.'

-- `domain.slice(2)` behind a `*.`
abbrev pub without_wildcard : Text → Text
without_wildcard (c ∷ d ∷ s) = if c == b'*' && d == b'.' then s else c ∷ d ∷ s
without_wildcard s = s

abbrev pub wildcard : Text
wildcard = codes "*."

module _ (domain_to_ascii : Text → Text) (is_ip : Text → Bool) where
  -- From the test for `*` on: the domain without its wildcard.
  unfoldable pub normalize_base : Text → Checked DomainError Text
  unfolding ensure_label_rules ascii_char
  normalize_base domain = do
    require (not (any (λ c. c == b'*') domain)) inner_wildcard
    require (not (includes domain (codes ".."))) double_dot
    let ascii = domain_to_ascii domain
    require (not (length ascii == 0)) not_ascii
    require (not (is_ip ascii)) ip_address
    require (leb (length ascii) max_domain_length) long_domain
    require (all ascii_char ascii) unsupported_character
    ensure_label_rules ascii
    good ascii

  unfoldable pub normalize_domain : Bool → Text → Checked DomainError Text
  unfolding normalize_base drop_dot trim to_lower bad_char
  normalize_domain allow_wildcard value = do
    let lowered = to_lower (trim value)
    require (not (length lowered == 0)) empty_domain
    require (not (any bad_char lowered)) bad_separator
    let domain = drop_dot lowered
    require (not (length domain == 0)) empty_domain
    require (not (starts_with domain wildcard) || allow_wildcard) wildcard_not_allowed
    base ← normalize_base (without_wildcard domain)
    good (if starts_with domain wildcard then wildcard ++ base else base)

  -- The loop of normalizeDomains: `normalized` and the set `seen` have the same members.
  unfoldable pub normalize_each : Bool → List Text → List Text → Checked DomainError (List Text)
  unfolding normalize_domain
  normalize_each allow_wildcard normalized [] = good normalized
  normalize_each allow_wildcard normalized (value ∷ values) = do
    domain ← normalize_domain allow_wildcard value
    normalize_each allow_wildcard
        (if any (λ d. text_eq domain d) normalized then normalized else normalized ++ domain ∷ [])
        values

  unfoldable pub normalize_domains : Bool → List Text → Checked DomainError (List Text)
  unfolding normalize_each
  normalize_domains allow_wildcard domains = do
    normalized ← normalize_each allow_wildcard [] domains
    require (not (length normalized == 0)) no_domain
    good normalized

  unfoldable pub parse_domains : Bool → Text → Checked DomainError (List Text)
  unfolding normalize_domains trim split
  parse_domains allow_wildcard text =
      normalize_domains allow_wildcard (keep (λ d. not (is_blank d)) (map trim (split b';' text)))

  unfoldable pub join_domains : Bool → List Text → Checked DomainError Text
  unfolding normalize_domains join
  join_domains allow_wildcard domains = do
    normalized ← normalize_domains allow_wildcard domains
    good (join (codes ";") normalized)

  unfoldable pub contains_wildcard_domain : List Text → Checked DomainError Bool
  unfolding normalize_domains
  contains_wildcard_domain domains = do
    normalized ← normalize_domains true domains
    good (any (λ d. starts_with d wildcard) normalized)

-- `<` on strings: the order of the code units.
abbrev pub text_before : Text → Text → Bool
text_before s [] = false
text_before [] (c ∷ t) = true
text_before (a ∷ s) (c ∷ t) = ltb a c || a == c && text_before s t

abbrev pub sorted_in : Text → List Text → List Text
sorted_in t [] = t ∷ []
sorted_in t (u ∷ us) = let rest = sorted_in t us in if text_before u t then u ∷ rest else t ∷ u ∷ us

-- `[...texts].sort()`
unfoldable pub sort : List Text → List Text
sort [] = []
sort (t ∷ ts) = sorted_in t (sort ts)

-- JSON.stringify of texts with no character that JSON escapes, as domains are.
unfoldable pub stringify : List Text → Text
unfolding join
stringify texts = b'[' ∷ (join (codes ",") (map (λ t. b'"' ∷ t ++ b'"' ∷ []) texts) ++ b']' ∷ [])

module _ (domain_to_ascii : Text → Text) (is_ip : Text → Bool) (sha256 : Text → Text) where
  -- On a list; on a string it is the same after parse_domains.
  unfoldable pub hash_domains : Bool → List Text → Checked DomainError Text
  unfolding normalize_domains sort stringify
  hash_domains allow_wildcard domains = do
    normalized ← normalize_domains domain_to_ascii is_ip allow_wildcard domains
    good (sha256 (stringify (sort normalized)))
