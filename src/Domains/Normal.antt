-- ===== src/Domains/Normal.antt =====
-- What normalizeDomains answers (src/utils/domain-utils.ts).
use lyttle_nginx.Prelude.{
  ◌≤◌, ◌≡◌, ◌≢◌, refl, sym, ap, ◌∙◌, subst, Bool, true, false, not, ◌||◌, List, [], ◌∷◌, ◌++◌, any,
  all, length, leb, ◌==◌, All, All-append, Bool-cases, inl, inr, arith,
}
use lyttle_nginx.Prelude.Texts.{
  Text, codes, text_eq, text_eq_iff, starts_with, includes, split, to_lower,
}
use lyttle_nginx.Nginx.CustomCode.Tokenizer.{trim}
use lyttle_nginx.Prelude.Results.{good, bind-good, after, good-inj}
use lyttle_nginx.Domains.{
  not_qualified, empty_label, long_label, bad_label, empty_domain, bad_separator,
  wildcard_not_allowed, inner_wildcard, double_dot, not_ascii, ip_address, long_domain,
  unsupported_character, no_domain, max_label_length, drop_dot, bad_char, is_domain_label,
  check_labels, ensure_label_rules, ascii_char, max_domain_length, wildcard, without_wildcard,
  normalize_base, normalize_domain, normalize_each, normalize_domains,
}

-- No text stands twice in the list.
abbrev pub IsDistinct : List Text → Type 0
IsDistinct [] = Unit
IsDistinct (t ∷ ts) = All (λ u. t ≢ u) ts × IsDistinct ts

fresh : (t u : Text) → text_eq t u ≡ false → u ≢ t
fresh t u h = ground (arith, text_eq_iff t u)

IsDistinct-append :
    (ts : List Text) (t : Text)
    → IsDistinct ts
    → any (λ u. text_eq t u) ts ≡ false
    → IsDistinct (ts ++ t ∷ [])
IsDistinct-append [] t distinct h = (tt, tt)
IsDistinct-append (u ∷ us) t (others, distinct) h = elim (Bool-cases (text_eq t u)) [
  | inl equal ↦ let no : true ≡ false = (rw equal at h) in cc
  | inr other ↦ (
    All-append _ us (t ∷ []) others (fresh t u other, tt),
    IsDistinct-append us t distinct (rw other at h),
  )
]

nonempty : (ts : List Text) → not (length ts == 0) ≡ true → ts ≢ []
nonempty [] h = cc
nonempty (t ∷ ts) h = cc

check_labels-All :
    (labels : List Text)
    → check_labels labels ≡ good tt
    → All (λ l. is_domain_label l ≡ true) labels
unfolding check_labels
check_labels-All [] h = tt
check_labels-All (l ∷ ls) h =
    let (nonempty, h1) = after (not (length l == 0)) empty_label _ tt h in
    let (short, h2) = after (leb (length l) max_label_length) long_label _ tt h1 in
    let (form, h3) = after (is_domain_label l) bad_label _ tt h2 in (form, check_labels-All ls h3)

ensure-labels :
    (domain : Text)
    → ensure_label_rules domain ≡ good tt
    → (2 ≤ length (split b'.' domain)) × All (λ l. is_domain_label l ≡ true) (split b'.' domain)
unfolding ensure_label_rules
ensure-labels domain h =
    let (two, rest) = after (leb 2 (length (split b'.' domain))) not_qualified _ tt h in
    (ground arith, check_labels-All (split b'.' domain) rest)

not-true : (b : Bool) → not b ≡ true → b ≡ false
not-true true h = cc
not-true false h = refl

module _ (domain_to_ascii : Text → Text) (is_ip : Text → Bool) where
  -- Two labels or more, all of the pattern's form, at most 253 characters, and no IP address.
  abbrev pub IsBase : Text → Type 0
  IsBase domain =
      (length domain ≤ max_domain_length)
      × (is_ip domain ≡ false)
      × (2 ≤ length (split b'.' domain))
      × All (λ l. is_domain_label l ≡ true) (split b'.' domain)

  -- Such a name, or one behind `*.` where wildcards are allowed.
  pub data IsNormal (allow_wildcard : Bool) (domain : Text) : Type 0 where
    plain : IsBase domain → IsNormal allow_wildcard domain
    wild :
        (base : Text)
        → allow_wildcard ≡ true
        → IsBase base
        → domain ≡ wildcard ++ base
        → IsNormal allow_wildcard domain

  normalize_base-IsBase :
      (domain base : Text) → normalize_base domain_to_ascii is_ip domain ≡ good base → IsBase base
  unfolding normalize_base
  normalize_base-IsBase domain base h =
      let ascii = domain_to_ascii domain in
      let (_, h1) = after (not (any (λ c. c == b'*') domain)) inner_wildcard _ base h in
      let (_, h2) = after (not (includes domain (codes ".."))) double_dot _ base h1 in
      let (_, h3) = after (not (length ascii == 0)) not_ascii _ base h2 in
      let (no_ip, h4) = after (not (is_ip ascii)) ip_address _ base h3 in
      let (short, h5) = after (leb (length ascii) max_domain_length) long_domain _ base h4 in
      let (_, h6) = after (all ascii_char ascii) unsupported_character _ base h5 in
      let (u, ruled, same) = bind-good (ensure_label_rules ascii) _ base h6 in
      let (two, labels) = ensure-labels ascii ruled in
      subst IsBase (good-inj ascii base same)
        (ground arith, not-true (is_ip ascii) no_ip, two, labels)

  normalize_domain-IsNormal :
      (allow : Bool) (value domain : Text)
      → normalize_domain domain_to_ascii is_ip allow value ≡ good domain
      → IsNormal allow domain
  unfolding normalize_domain
  normalize_domain-IsNormal allow value domain h =
      let lowered = to_lower (trim value) in
      let name = drop_dot lowered in
      let (_, h1) = after (not (length lowered == 0)) empty_domain _ domain h in
      let (_, h2) = after (not (any bad_char lowered)) bad_separator _ domain h1 in
      let (_, h3) = after (not (length name == 0)) empty_domain _ domain h2 in
      let (rule, h4) =
        after (not (starts_with name wildcard) || allow) wildcard_not_allowed _ domain h3 in
      let (base, normal, same) =
        bind-good (normalize_base domain_to_ascii is_ip (without_wildcard name)) _ domain h4 in
      let based = normalize_base-IsBase (without_wildcard name) base normal in
      elim (Bool-cases (starts_with name wildcard)) [
        | inl star ↦ wild base (rw star at rule) based (sym (good-inj _ domain (rw star at same)))
        | inr bare ↦ subst (IsNormal allow) (good-inj base domain (rw bare at same)) (plain based)
      ]

  normalize_each-IsNormal :
      (allow : Bool) (before values out : List Text)
      → All (IsNormal allow) before
      → IsDistinct before
      → normalize_each domain_to_ascii is_ip allow before values ≡ good out
      → All (IsNormal allow) out × IsDistinct out
  unfolding normalize_each
  normalize_each-IsNormal allow before [] out valid distinct h =
      subst (λ ts. All (IsNormal allow) ts × IsDistinct ts) (good-inj before out h)
        (valid, distinct)
  normalize_each-IsNormal allow before (value ∷ values) out valid distinct h =
      let (domain, one, rest) =
        bind-good (normalize_domain domain_to_ascii is_ip allow value) _ out h in
      elim (Bool-cases (any (λ d. text_eq domain d) before)) [
        | inl seen ↦
            normalize_each-IsNormal allow before values out valid distinct (rw seen at rest)
        | inr new ↦
            normalize_each-IsNormal allow (before ++ domain ∷ []) values out
              (All-append _ before (domain ∷ []) valid
                (normalize_domain-IsNormal allow value domain one, tt))
              (IsDistinct-append before domain distinct new) (rw new at rest)
      ]

  -- A list that normalizeDomains answers is not empty and has no name twice, and each name has the
  -- form of a domain: two labels or more of the pattern's form, at most 253 characters, no IP
  -- address, and in front of it a `*.` at most where wildcards are allowed.
  pub normalize_domains-IsNormal :
      (allow : Bool) (values out : List Text)
      → normalize_domains domain_to_ascii is_ip allow values ≡ good out
      → (out ≢ []) × IsDistinct out × All (IsNormal allow) out
  unfolding normalize_domains
  normalize_domains-IsNormal allow values out h =
      let (normalized, each, rest) =
        bind-good (normalize_each domain_to_ascii is_ip allow [] values) _ out h in
      let (full, same) = after (not (length normalized == 0)) no_domain _ out rest in
      let e : normalized ≡ out = good-inj normalized out same in
      let (valid, distinct) =
        normalize_each-IsNormal allow [] values out tt tt (each ∙ ap good e) in
      (
        λ none_left. nonempty out (subst (λ ts. not (length ts == 0) ≡ true) e full) none_left,
        distinct,
        valid,
      )
