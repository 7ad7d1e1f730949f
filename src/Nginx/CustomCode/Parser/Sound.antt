-- ===== src/Nginx/CustomCode/Parser/Sound.antt =====
-- The statements that parseStatements of src/nginx/nginx-custom-code.ts returns have exactly the
-- tokens that it has read.
use lyttle_nginx.Prelude.{
  ℕ, zero, suc, ◌≡◌, refl, sym, true, List, [], ◌∷◌, ◌++◌, arith, append_assoc, Bool-cases, inl,
  inr, subst,
}
use lyttle_nginx.Prelude.Texts.{Text}
use lyttle_nginx.Nginx.CustomCode.{Result, good, fail, ◌>>=◌, Statements}
use lyttle_nginx.Nginx.CustomCode.Parser.{read_found}
use lyttle_nginx.Nginx.CustomCode.Parser.{
  is_char, take_head, Found, done, no_head, no_delimiter, simple, opening, at_end, after_head,
  of_head, look, close_brace, after_directive, after_block, parse_statements, statements_tokens,
}

pub is_char_lem : (c : ℕ) (token : Text) → is_char c token ≡ true → token ≡ c ∷ []
is_char_lem c [] h = cc
is_char_lem c (d ∷ []) h = ground arith
is_char_lem c (d ∷ e ∷ s) h = cc

pub take_head-append : (tokens : List Text) → tokens ≡ (take_head tokens).0 ++ (take_head tokens).1
unfolding take_head
take_head-append [] = refl
take_head-append (token ∷ tokens) = ground (arith, take_head-append tokens)

-- What `look` finds, as an equation for the tokens.
abbrev pub Fits : List Text → Found → Type 0
Fits tokens done = Unit
Fits tokens no_head = Unit
Fits tokens no_delimiter = Unit
Fits tokens (simple name args more) = tokens ≡ name ∷ args ++ (b';' ∷ []) ∷ more
Fits tokens (opening name args more) = tokens ≡ name ∷ args ++ (b'{' ∷ []) ∷ more

after_head-Fits :
    (name : Text) (args rest : List Text) → Fits (name ∷ args ++ rest) (after_head name args rest)
unfolding after_head
after_head-Fits name args [] = tt
after_head-Fits name args (token ∷ tokens) = elim (Bool-cases (is_char b';' token)) [
  | inl semi ↦ rw semi (rw (is_char_lem b';' token semi))
  | inr other ↦ rw other (elim (Bool-cases (is_char b'{' token)) [
    | inl brace ↦ rw brace (rw (is_char_lem b'{' token brace))
    | inr neither ↦ rw neither tt
  ])
]

of_head-Fits : (head rest : List Text) → Fits (head ++ rest) (of_head head rest)
unfolding of_head
of_head-Fits [] rest = tt
of_head-Fits (name ∷ args) rest = after_head-Fits name args rest

pub look-Fits : (tokens : List Text) → Fits tokens (look tokens)
unfolding look
look-Fits tokens = elim (Bool-cases (at_end tokens)) [
  | inl over ↦ rw over tt
  | inr more ↦ rw more (
      subst (λ ts. Fits ts (of_head (take_head tokens).0 (take_head tokens).1))
        (sym (take_head-append tokens)) (of_head-Fits (take_head tokens).0 (take_head tokens).1))
]

abbrev pub Reads : List Text → Result (Statements × List Text) → Type 0
Reads tokens (good (statements, left)) = tokens ≡ statements_tokens statements ++ left
Reads tokens (fail e) = Unit

simple-Reads :
    (tokens : List Text) (name : Text) (args more : List Text) (r : Result (Statements × List Text))
    → tokens ≡ name ∷ args ++ (b';' ∷ []) ∷ more
    → Reads more r
    → Reads tokens (r >>= after_directive name args)
unfolding statements_tokens
simple-Reads tokens name args more (good (statements, left)) p h = rw p (rw h (simp append_assoc))
simple-Reads tokens name args more (fail e) p h = tt

close_brace_lem :
    (left left' : List Text) → close_brace left ≡ good left' → left ≡ (b'}' ∷ []) ∷ left'
close_brace_lem [] left' h = cc
close_brace_lem (token ∷ tokens) left' h = elim (Bool-cases (is_char b'}' token)) [
  | inl brace ↦ rw (is_char_lem b'}' token brace) (ground arith)
  | inr other ↦ cc (rw other at h)
]

block-Reads :
    (tokens : List Text) (name : Text) (args more : List Text) (children : Statements)
    (left left' : List Text) (r : Result (Statements × List Text))
    → tokens ≡ name ∷ args ++ (b'{' ∷ []) ∷ more
    → more ≡ statements_tokens children ++ left
    → left ≡ (b'}' ∷ []) ∷ left'
    → Reads left' r
    → Reads tokens (r >>= after_block name args children)
unfolding statements_tokens
block-Reads tokens name args more children left left' (good (statements, rest)) p q c h =
    rw p (rw q (rw c (rw h (simp append_assoc))))
block-Reads tokens name args more children left left' (fail e) p q c h = tt

-- The rest of a block, after its children.
module _ (fuel : ℕ) (ih : (ts : List Text) → Reads ts (parse_statements fuel ts)) where
  closing-Reads :
      (tokens : List Text) (name : Text) (args more : List Text) (children : Statements)
      (left : List Text) (c : Result (List Text))
      → close_brace left ≡ c
      → tokens ≡ name ∷ args ++ (b'{' ∷ []) ∷ more
      → more ≡ statements_tokens children ++ left
      → Reads tokens (c >>= λ left'. parse_statements fuel left' >>= after_block name args children)
  closing-Reads tokens name args more children left (good left') e p q =
      block-Reads tokens name args more children left left' (parse_statements fuel left') p q
        (close_brace_lem left left' e) (ih left')
  closing-Reads tokens name args more children left (fail x) e p q = tt

  opening-Reads :
      (tokens : List Text) (name : Text) (args more : List Text)
      (r : Result (Statements × List Text))
      → tokens ≡ name ∷ args ++ (b'{' ∷ []) ∷ more
      → Reads more r
      → Reads tokens (
          r >>= λ (children, left). close_brace left >>= λ left'.
          parse_statements fuel left' >>= after_block name args children)
  opening-Reads tokens name args more (good (children, left)) p q =
      closing-Reads tokens name args more children left (close_brace left) refl p q
  opening-Reads tokens name args more (fail e) p q = tt

  round-Reads :
      (tokens : List Text) (found : Found)
      → Fits tokens found
      → Reads tokens (read_found (parse_statements fuel) tokens found)
  unfolding statements_tokens
  round-Reads tokens done fits = refl
  round-Reads tokens no_head fits = tt
  round-Reads tokens no_delimiter fits = tt
  round-Reads tokens (simple name args more) fits =
      simple-Reads tokens name args more (parse_statements fuel more) fits (ih more)
  round-Reads tokens (opening name args more) fits =
      opening-Reads tokens name args more (parse_statements fuel more) fits (ih more)

pub parse_statements-Reads :
    (fuel : ℕ) (tokens : List Text) → Reads tokens (parse_statements fuel tokens)
unfolding parse_statements
parse_statements-Reads zero tokens = tt
parse_statements-Reads (suc fuel) tokens =
    round-Reads fuel (parse_statements-Reads fuel) tokens (look tokens) (look-Fits tokens)
