-- ===== src/Nginx/CustomCode/Renderer/Sanitized.antt =====
-- What sanitizeNginxCustomCode and extractManagedPathsFromCustomCode answer
-- (src/nginx/nginx-custom-code.ts).
use lyttle_nginx.Prelude.{
  ◌≡◌, refl, sym, ap, ◌∙◌, subst, ◌⊎◌, inl, inr, true, not, ◌||◌, Option, or_else, List, [], ◌∷◌,
  All, All-append, Bool-cases,
}
use lyttle_nginx.Prelude.Texts.{Text, codes, text_eq, text_eq_iff, to_lower}
use lyttle_nginx.Prelude.Results.{good-inj, bind-good}
use lyttle_nginx.Nginx.CustomCode.{
  Result, good, fail, ◌>>=◌, require, control_character, Statement, directive, block, Statements,
  nil, cons,
}
use lyttle_nginx.Nginx.CustomCode.Tokenizer.{normalize_fragment, has_control_character, tokenize}
use lyttle_nginx.Nginx.CustomCode.Parser.{parse_tokens, statements_tokens}
use lyttle_nginx.Nginx.CustomCode.Parser.Total.{parse_tokens_sound}
use lyttle_nginx.Nginx.CustomCode.Arguments.{strip_wrapping_quotes, among}
use lyttle_nginx.Nginx.CustomCode.Validator.{
  Context, server, location, get_allowed_path_prefixes, normalize_managed_path, validate_statements,
}
use lyttle_nginx.Nginx.CustomCode.Validator.Allowed.{
  IsPathName, IsManaged, IsBelow, IsAllowedDirective, allowed, IsAllowed, a_directive, a_location,
  AreAllowed, none_left, one_more, passed, validate_statements-AreAllowed,
  normalize_managed_path-normalize,
}
use lyttle_nginx.Nginx.CustomCode.Renderer.{
  is_empty, parse_text, parse_validated_custom_code, rendered, sanitize_nginx_custom_code,
  collect_path, collect_statement, collect_managed_paths, add_path,
  extract_managed_paths_from_custom_code,
}

-- The fragment is blank and there are no statements, or its tokens are the statements' tokens.
abbrev pub IsRead : Option Text → Statements → Type 0
IsRead fragment ss =
    ((normalize_fragment (or_else fragment []) ≡ []) × (ss ≡ nil))
    ⊎ (tokenize (normalize_fragment (or_else fragment [])) ≡ good (statements_tokens ss))

empty-nil : (s : Text) → is_empty s ≡ true → s ≡ []
empty-nil [] h = refl
empty-nil (c ∷ s) h = cc

add_path-Memᴰ :
    (P : Text → Type 0) (paths : List Text) (path : Text)
    → All P paths
    → P path
    → All P (add_path paths path)
add_path-Memᴰ P paths path hs h = elim (Bool-cases (among path paths)) [
  | inl there ↦ rw there (hs)
  | inr new ↦ rw new (All-append P paths (path ∷ []) hs (h, tt))
]

path-name :
    (name : Text)
    → (text_eq name (codes "root") || text_eq name (codes "alias")) ≡ true
    → IsPathName name
path-name name h = elim (Bool-cases (text_eq name (codes "root"))) [
  | inl root ↦ inl ((text_eq_iff _ _).0 root)
  | inr other ↦ inr ((text_eq_iff _ _).0 (rw other at h))
]

one_token :
    {token : Text} {args : List Text} (other : Text) → (token ∷ args) ≡ (other ∷ []) → token ≡ other
one_token other h = cc

module _ (normalize : Text → Text) (configured : Option Text) where
  abbrev pub AllBelow : List Text → Type 0
  AllBelow = All (IsBelow (get_allowed_path_prefixes normalize configured))

  -- What a step of the collection may answer: no path that is not below a prefix.
  abbrev Collects : Result (List Text) → Type 0
  Collects r = (paths : List Text) → r ≡ good paths → AllBelow paths

  managed-IsBelow :
      (args : List Text) (token path : Text)
      → IsManaged normalize configured (token ∷ args)
      → normalize_managed_path normalize configured token ≡ good path
      → IsBelow (get_allowed_path_prefixes normalize configured) path
  managed-IsBelow args token path (other, e, below_prefix) h =
      subst (IsBelow (get_allowed_path_prefixes normalize configured))
        (sym (
          normalize_managed_path-normalize normalize configured token path h
          ∙ ap (λ t. normalize (strip_wrapping_quotes t)) (one_token other e)))
        below_prefix

  added :
      (paths : List Text) (args : List Text) (token : Text) (r : Result Text)
      → AllBelow paths
      → IsManaged normalize configured (token ∷ args)
      → normalize_managed_path normalize configured token ≡ r
      → Collects (r >>= λ path. good (add_path paths path))
  added paths args token (fail e) before managed h paths' answer = cc
  added paths args token (good path) before managed h paths' answer =
      subst AllBelow (good-inj _ _ answer)
        (add_path-Memᴰ _ paths path before (managed-IsBelow args token path managed h))

  collect_path-below :
      (context : Context) (paths : List Text) (name : Text) (args : List Text)
      → AllBelow paths
      → IsAllowedDirective normalize configured context name args
      → Collects (collect_path normalize configured paths name args)
  unfolding collect_path
  collect_path-below context paths name [] before h paths' e =
      subst AllBelow (good-inj _ _ e) before
  collect_path-below context paths name (token ∷ args) before (allowed m managed) paths' e =
      elim (Bool-cases
        (text_eq (to_lower name) (codes "root") || text_eq (to_lower name) (codes "alias"))) [
          | inl named ↦ elim (Bool-cases (is_empty token)) [
            | inl blank ↦ subst AllBelow (good-inj _ _ (rw blank at (rw named at e))) before
            | inr full ↦
                added paths args token (normalize_managed_path normalize configured token) before
                  (managed (path-name (to_lower name) named)) refl paths'
                  (rw full at (rw named at e))
          ]
          | inr other ↦ subst AllBelow (good-inj _ _ (rw other at e)) before
        ]

  mutual
    unfolding collect_managed_paths

    collect_statement-below :
        (context : Context) (paths : List Text) (s : Statement)
        → AllBelow paths
        → IsAllowed normalize configured context s
        → Collects (collect_statement normalize configured paths s)
    collect_statement-below context paths (directive name args) before (a_directive h) =
        collect_path-below context paths name args before h
    collect_statement-below context paths (block name args children) before (a_location _ _ h) =
        collect_managed_paths-below location paths children before h

    collect_managed_paths-below :
        (context : Context) (paths : List Text) (ss : Statements)
        → AllBelow paths
        → AreAllowed normalize configured context ss
        → Collects (collect_managed_paths normalize configured paths ss)
    collect_managed_paths-below context paths nil before h paths' e =
        subst AllBelow (good-inj _ _ e) before
    collect_managed_paths-below context paths (cons s ss) before (one_more h hs) paths' e =
        let (first, from_s, from_ss) =
          bind-good (collect_statement normalize configured paths s) _ paths' e in
        collect_managed_paths-below context first ss
          (collect_statement-below context paths s before h first from_s) hs paths' from_ss

  parse_text-AreAllowed :
      (text : Text) (ss : Statements)
      → parse_text normalize configured text ≡ good ss
      → (tokenize text ≡ good (statements_tokens ss)) × AreAllowed normalize configured server ss
  unfolding parse_text
  parse_text-AreAllowed text ss h =
      let after = passed (require (not (has_control_character text)) control_character) _ ss h in
      let (read, parsed, checked) = bind-good (tokenize text >>= parse_tokens) _ ss after in
      let (tokens, tokenized, from_tokens) = bind-good (tokenize text) parse_tokens read parsed in
      let (valid, same_valid, same) =
        bind-good (validate_statements normalize configured server read) _ ss checked in
      let same' : read ≡ ss = good-inj read ss same in
      (
        tokenized
            ∙ ap good ((parse_tokens_sound tokens).1 read from_tokens ∙ ap statements_tokens same'),
        subst (AreAllowed normalize configured server) same'
            (validate_statements-AreAllowed normalize configured server read same_valid),
      )

  parse_validated-AreAllowed :
      (fragment : Option Text) (ss : Statements)
      → parse_validated_custom_code normalize configured fragment ≡ good ss
      → IsRead fragment ss × AreAllowed normalize configured server ss
  unfolding parse_validated_custom_code
  parse_validated-AreAllowed fragment ss h =
      let text = normalize_fragment (or_else fragment []) in
      elim (Bool-cases (is_empty text)) [
        | inl blank ↦
            let same : nil ≡ ss = good-inj nil ss (rw blank at h) in
            (
              inl (empty-nil text blank, sym same),
              subst (AreAllowed normalize configured server) same none_left,
            )
        | inr full ↦
            let (read, checked) = parse_text-AreAllowed text ss (rw full at h) in
            (inr read, checked)
      ]

  -- A sanitized fragment is the rendering of statements that were read from exactly the tokens of
  -- the fragment and that are all allowed: only directives of the allowlist of their level, root
  -- and alias paths below an allowed prefix, and no blocks but `location` blocks at the top.
  pub sanitize_nginx_custom_code-AreAllowed :
      (fragment : Option Text) (out : Text)
      → sanitize_nginx_custom_code normalize configured fragment ≡ good out
      → (ss : Statements) × IsRead fragment ss
        × AreAllowed normalize configured server ss
        × (out ≡ rendered normalize configured ss)
  unfolding sanitize_nginx_custom_code
  sanitize_nginx_custom_code-AreAllowed fragment out h =
      let (ss, parsed, same) =
        bind-good (parse_validated_custom_code normalize configured fragment) _ out h in
      let (read, checked) = parse_validated-AreAllowed fragment ss parsed in
      (ss, read, checked, sym (good-inj _ _ same))

  -- Every path that extractManagedPathsFromCustomCode answers is an allowed prefix or lies below
  -- one.
  pub extract_managed_paths-IsBelow :
      (fragment : Option Text) (paths : List Text)
      → extract_managed_paths_from_custom_code normalize configured fragment ≡ good paths
      → All (IsBelow (get_allowed_path_prefixes normalize configured)) paths
  unfolding extract_managed_paths_from_custom_code
  extract_managed_paths-IsBelow fragment paths h =
      let (ss, parsed, collected) =
        bind-good (parse_validated_custom_code normalize configured fragment) _ paths h in
      collect_managed_paths-below server [] ss tt (parse_validated-AreAllowed fragment ss parsed).1
        paths collected
