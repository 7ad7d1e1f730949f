-- ===== src/Nginx/CustomCode/Validator/Allowed.antt =====
-- What validated statements can contain (src/nginx/nginx-custom-code.ts).
use mathlib.Core.List.{Memᴰ}
use lyttle_nginx.Prelude.{
  not, ◌≡◌, refl, sym, ◌⊎◌, inl, inr, true, ◌||◌, Option, List, [], ◌∷◌, ◌++◌, any, arith,
  append_assoc, ◌∙◌, subst, Bool-cases, ==_iff,
}
use lyttle_nginx.Prelude.Texts.{Text, codes, text_eq, text_eq_iff, starts_with, includes, to_lower}
use lyttle_nginx.Prelude.Numbers.{is_space}
use lyttle_nginx.Prelude.Results.{good-inj, require-good}
use lyttle_nginx.Nginx.CustomCode.{
  Result, good, fail, ◌>>=◌, ◌>>◌, require, block_not_allowed, directive_not_allowed, bad_path,
  Statement, directive, block, Statements, nil, cons,
}
use lyttle_nginx.Nginx.CustomCode.Arguments.{
  among, is_special, strip_wrapping_quotes, validate_location_selector,
}
use lyttle_nginx.Nginx.CustomCode.Validator.{
  Context, server, location, allowlist, is_location_block, get_allowed_path_prefixes,
  normalize_managed_path, is_within, validate_managed_path, validate_arguments, validate_directive,
  validate_statement, validate_statements,
}

abbrev pub IsPathName : Text → Type 0
IsPathName name = (name ≡ codes "root") ⊎ (name ≡ codes "alias")

-- The path is one of the prefixes, or one of them with `/` and more behind it.
pub data IsBelow (prefixes : List Text) (path : Text) : Type 0 where
  same : Memᴰ path prefixes → IsBelow prefixes path
  below :
      (prefix rest : Text)
      → Memᴰ prefix prefixes
      → path ≡ prefix ++ b'/' ∷ rest
      → IsBelow prefixes path

module _ (normalize : Text → Text) (configured : Option Text) where
  -- The one argument of a root or alias, without its quotes and normalized, is below a prefix.
  abbrev pub IsManaged : List Text → Type 0
  IsManaged args =
      (token : Text) × (args ≡ token ∷ [])
      × IsBelow (get_allowed_path_prefixes normalize configured)
          (normalize (strip_wrapping_quotes token))

  pub data IsAllowedDirective (context : Context) (name : Text) (args : List Text) : Type 0 where
    allowed :
        Memᴰ (to_lower name) (allowlist context)
        → (IsPathName (to_lower name) → IsManaged args)
        → IsAllowedDirective context name args

  -- At the server's level: allowed directives, and location blocks of allowed directives. Inside a
  -- location no block is allowed.
  mutual
    pub data IsAllowed : Context → Statement → Type 0 where
      a_directive :
          {context : Context} {name : Text} {args : List Text}
          → IsAllowedDirective context name args
          → IsAllowed context (directive name args)
      a_location :
          {context : Context} {name : Text} {args : List Text} {children : Statements}
          → context ≡ server
          → to_lower name ≡ codes "location"
          → AreAllowed location children
          → IsAllowed context (block name args children)

    pub data AreAllowed : Context → Statements → Type 0 where
      none_left : {context : Context} → AreAllowed context nil
      one_more :
          {context : Context} {statement : Statement} {statements : Statements}
          → IsAllowed context statement
          → AreAllowed context statements
          → AreAllowed context (cons statement statements)

among-Memᴰ : (name : Text) (allowed : List Text) → among name allowed ≡ true → Memᴰ name allowed
among-Memᴰ name [] h = cc
among-Memᴰ name (t ∷ ts) h = elim (Bool-cases (text_eq name t)) [
  | inl hit ↦ Memᴰ.head ((text_eq_iff name t).0 hit)
  | inr other ↦ Memᴰ.tail (among-Memᴰ name ts (rw other at h))
]

starts_with-append : (s p : Text) → starts_with s p ≡ true → (rest : Text) × (s ≡ p ++ rest)
starts_with-append s [] h = (s, refl)
starts_with-append [] (c ∷ p) h = cc
starts_with-append (a ∷ s) (c ∷ p) h =
    let (rest, e) = starts_with-append s p (ground arith) in
    let e0 : a ≡ c = ground (arith, ==_iff a c) in (rest, cc (e0, e))

weaken : (p path : Text) (ps : List Text) → IsBelow ps path → IsBelow (p ∷ ps) path
weaken p path ps (same m) = same (Memᴰ.tail m)
weaken p path ps (below prefix rest m e) = below prefix rest (Memᴰ.tail m) e

is_within-IsBelow :
    (path : Text) (prefixes : List Text) → is_within path prefixes ≡ true → IsBelow prefixes path
is_within-IsBelow path [] h = cc
is_within-IsBelow path (p ∷ ps) h = elim (Bool-cases (text_eq path p)) [
  | inl hit ↦ same (Memᴰ.head ((text_eq_iff path p).0 hit))
  | inr other ↦ elim (Bool-cases (starts_with path (p ++ b'/' ∷ []))) [
    | inl hit ↦
        let (rest, e) = starts_with-append path (p ++ b'/' ∷ []) hit in
        below p rest (Memᴰ.head refl) (e ∙ append_assoc p (b'/' ∷ []) rest)
    | inr neither ↦ weaken p path ps (is_within-IsBelow path ps (rw other at (rw neither at h)))
  ]
]

>>-good : (m k : Result (Unit {0})) → (m >> k) ≡ good tt → (m ≡ good tt) × (k ≡ good tt)
>>-good (good tt) k h = (refl, h)
>>-good (fail e) k h = cc

pub passed :
    {A : Type 0} (m : Result (Unit {0})) (k : Result A) (x : A) → (m >> k) ≡ good x → k ≡ good x
passed (good tt) k x h = h
passed (fail e) k x h = cc

module _ (normalize : Text → Text) (configured : Option Text) where
  pub normalize_managed_path-normalize :
      (token path : Text)
      → normalize_managed_path normalize configured token ≡ good path
      → path ≡ normalize (strip_wrapping_quotes token)
  unfolding normalize_managed_path
  normalize_managed_path-normalize token path h =
      let raw = strip_wrapping_quotes token in
      let after = passed (require (starts_with raw (codes "/")) bad_path) _ path h in
      let after' =
        passed
          (require (not (any is_special raw || includes raw (codes "..") || includes raw (92 ∷ [])))
            bad_path)
          _ path after in
      let after'' = passed (require (not (any is_space raw)) bad_path) _ path after' in
      sym (
        good-inj _ _
          (passed (require (starts_with (normalize raw) (codes "/")) bad_path) _ path after''))

  below_prefix :
      (token : Text) (m : Result Text)
      → ((path : Text) → m ≡ good path → path ≡ normalize (strip_wrapping_quotes token))
      → (m >>= λ path.
          require (is_within path (get_allowed_path_prefixes normalize configured)) bad_path)
        ≡ good tt
      → IsManaged normalize configured (token ∷ [])
  below_prefix token (fail e) written h = cc
  below_prefix token (good path) written h = (
    token,
    refl,
    subst (IsBelow (get_allowed_path_prefixes normalize configured)) (written path refl)
        (is_within-IsBelow path _ (require-good _ _ h)),
  )

  validate_managed_path-IsManaged :
      (args : List Text)
      → validate_managed_path normalize configured args ≡ good tt
      → IsManaged normalize configured args
  unfolding validate_managed_path
  validate_managed_path-IsManaged [] h = cc
  validate_managed_path-IsManaged (a ∷ b ∷ args) h = cc
  validate_managed_path-IsManaged (token ∷ []) h =
      below_prefix token (normalize_managed_path normalize configured token)
        (normalize_managed_path-normalize token) h

  path_argument-IsManaged :
      (name : Text) (args : List Text)
      → IsPathName name
      → validate_arguments normalize configured name args ≡ good tt
      → IsManaged normalize configured args
  unfolding validate_arguments
  path_argument-IsManaged name args (inl e) h =
      validate_managed_path-IsManaged args
        (subst (λ n. validate_arguments normalize configured n args ≡ good tt) e h)
  path_argument-IsManaged name args (inr e) h =
      validate_managed_path-IsManaged args
        (subst (λ n. validate_arguments normalize configured n args ≡ good tt) e h)

  directive-IsAllowed :
      (context : Context) (name : Text) (args : List Text)
      → validate_directive normalize configured context name args ≡ good tt
      → IsAllowed normalize configured context (directive name args)
  unfolding validate_directive
  directive-IsAllowed context name args h =
      let (first, second) =
        >>-good (require (among (to_lower name) (allowlist context)) directive_not_allowed)
          (validate_arguments normalize configured (to_lower name) args) h in
      a_directive (
        allowed (among-Memᴰ (to_lower name) (allowlist context) (require-good _ _ first))
          (λ path. path_argument-IsManaged (to_lower name) args path second))

  location-server :
      (context : Context) (name : Text)
      → is_location_block context name ≡ true
      → (context ≡ server) × (to_lower name ≡ codes "location")
  location-server server name h = (refl, (text_eq_iff _ _).0 h)
  location-server location name h = cc

  mutual
    unfolding validate_statements

    statement-IsAllowed :
        (context : Context) (s : Statement)
        → validate_statement normalize configured context s ≡ good tt
        → IsAllowed normalize configured context s
    statement-IsAllowed context (directive name args) h = directive-IsAllowed context name args h
    statement-IsAllowed context (block name args children) h =
        let (first, rest) =
          >>-good (require (is_location_block context name) block_not_allowed)
            (validate_location_selector args
              >> validate_statements normalize configured location children)
            h in
        let (second, third) =
          >>-good (validate_location_selector args)
            (validate_statements normalize configured location children) rest in
        let (at_server, named) = location-server context name (require-good _ _ first) in
        a_location at_server named (validate_statements-AreAllowed location children third)

    -- Statements that pass the validation have only directives of the allowlist of their level, a
    -- `root` or `alias` has one path, that lies below an allowed prefix after normalization, and the
    -- only blocks are `location` blocks at the server's level, with no block inside.
    pub validate_statements-AreAllowed :
        (context : Context) (ss : Statements)
        → validate_statements normalize configured context ss ≡ good tt
        → AreAllowed normalize configured context ss
    validate_statements-AreAllowed context nil h = none_left
    validate_statements-AreAllowed context (cons s ss) h =
        let (first, rest) =
          >>-good (validate_statement normalize configured context s)
            (validate_statements normalize configured context ss) h in
        one_more (statement-IsAllowed context s first)
          (validate_statements-AreAllowed context ss rest)
