-- ===== src/Prelude/Strings.antt =====
-- The operations of JavaScript on whole strings: trim, split and join, on native strings.
use Prim.Native.Char.{Char, code}
use Prim.Native.Nat.{ℕ}
use Prim.Native.String.{String}
use mathlib.Core.Bool.{Bool, true, false, not, ◌&&◌}
use mathlib.Core.List.{List, [], ◌∷◌}
use mathlib.Core.Logic.{inl, inr}
use mathlib.Core.Path.{◌≡◌, refl, sym, ap, ◌∙◌, subst}
use native.Mathlib.Omega.{arith}
use lyttle_nginx.Prelude.Tests.{◌==◌, Bool-cases, if◌then◌else◌}
use lyttle_nginx.Prelude.Lists.{all}
use lyttle_nginx.Prelude.Numbers.{is_space}

infixr 60 ◌<>◌
abbrev pub ◌<>◌ : String → String → String
String.[] <> t = t
String.◌∷◌ c s <> t = String.◌∷◌ c (s <> t)

abbrev pub no_text : String → Bool
no_text String.[] = true
no_text (String.◌∷◌ c s) = false

abbrev pub blank_char : Char → Bool
blank_char c = is_space (code c)

unfoldable pub trim_left : String → String
unfolding is_space
trim_left String.[] = ""
trim_left (String.◌∷◌ c s) = if blank_char c then trim_left s else String.◌∷◌ c s

unfoldable pub trim_right : String → String
unfolding is_space
trim_right String.[] = ""
trim_right (String.◌∷◌ c s) =
    let rest = trim_right s in if blank_char c && no_text rest then "" else String.◌∷◌ c rest

-- `text.trim()`
unfoldable pub trimmed : String → String
unfolding trim_left trim_right
trimmed s = trim_right (trim_left s)

-- The text before the first separator, and the pieces behind it.
unfoldable pub pieces : ℕ → String → String × List String
pieces separator String.[] = ("", [])
pieces separator (String.◌∷◌ c s) =
    let (first, rest) = pieces separator s in
    if code c == separator then ("", first ∷ rest) else (String.◌∷◌ c first, rest)

-- `text.split(separator)` for a separator of one character.
unfoldable pub split_on : ℕ → String → List String
unfolding pieces
split_on separator s = let (first, rest) = pieces separator s in first ∷ rest

abbrev pub with_word : String → List String → List String
with_word String.[] rest = rest
with_word (String.◌∷◌ c s) rest = String.◌∷◌ c s ∷ rest

-- The word at the start, empty at a space, and the words behind it.
unfoldable pub word_pieces : String → String × List String
unfolding is_space
word_pieces String.[] = ("", [])
word_pieces (String.◌∷◌ c s) =
    let (first, rest) = word_pieces s in
    if blank_char c then ("", with_word first rest) else (String.◌∷◌ c first, rest)

-- `text.split(/\s+/)` without the empty items, which stand only at the two ends.
unfoldable pub words : String → List String
unfolding word_pieces
words s = let (first, rest) = word_pieces s in with_word first rest

-- `texts.join(' ')`
unfoldable pub spaced : List String → String
spaced [] = ""
spaced (s ∷ []) = s
spaced (s ∷ t ∷ ss) = s <> " " <> spaced (t ∷ ss)

-- A text that is not empty and has no character of the kind.
abbrev pub all_chars : (Char → Bool) → String → Bool
all_chars p String.[] = true
all_chars p (String.◌∷◌ c s) = p c && all_chars p s

abbrev pub is_word : String → Bool
is_word s = not (no_text s) && all_chars (λ c. not (blank_char c)) s

pub pieces-append :
    (separator : ℕ) (s t : String)
    → all_chars (λ c. not (code c == separator)) s ≡ true
    → pieces separator (s <> t) ≡ (s <> (pieces separator t).0, (pieces separator t).1)
unfolding pieces
pieces-append separator String.[] t h = refl
pieces-append separator (String.◌∷◌ c s) t h =
    let other : (code c == separator) ≡ false = ground arith in
    let rest : all_chars (λ c. not (code c == separator)) s ≡ true = ground arith in
    rw (other, pieces-append separator s t rest) refl

pub word_pieces-append :
    (s t : String)
    → all_chars (λ c. not (blank_char c)) s ≡ true
    → word_pieces (s <> t) ≡ (s <> (word_pieces t).0, (word_pieces t).1)
unfolding word_pieces
word_pieces-append String.[] t h = refl
word_pieces-append (String.◌∷◌ c s) t h =
    let other : blank_char c ≡ false = ground arith in
    let rest : all_chars (λ c. not (blank_char c)) s ≡ true = ground arith in
    rw (other, word_pieces-append s t rest) refl

append_empty : (s : String) → s <> "" ≡ s
append_empty String.[] = refl
append_empty (String.◌∷◌ c s) = rw (append_empty s) refl

-- A piece without the separator is split off.
pub split_on-piece :
    (separator : ℕ) (c : Char) (s t : String)
    → all_chars (λ d. not (code d == separator)) s ≡ true
    → (code c == separator) ≡ true
    → split_on separator (s <> String.◌∷◌ c t) ≡ s ∷ split_on separator t
unfolding split_on pieces
split_on-piece separator c s t whole here =
    rw (pieces-append separator s (String.◌∷◌ c t) whole, here, append_empty s) refl

pub split_on-last :
    (separator : ℕ) (s : String)
    → all_chars (λ d. not (code d == separator)) s ≡ true
    → split_on separator s ≡ s ∷ []
unfolding split_on pieces
split_on-last separator s whole =
    let end : pieces separator s ≡ (s <> "", []) =
      subst (λ u. pieces separator u ≡ (s <> "", [])) (append_empty s)
        (pieces-append separator s "" whole) in
    rw (end, append_empty s) refl

with_word_lem : (w : String) (rest : List String) → no_text w ≡ false → with_word w rest ≡ w ∷ rest
with_word_lem String.[] rest h = cc
with_word_lem (String.◌∷◌ c s) rest h = refl

-- Words joined by spaces are the words of the text.
pub words-spaced : (ss : List String) → all is_word ss ≡ true → words (spaced ss) ≡ ss
unfolding words spaced word_pieces is_space
words-spaced [] h = refl
words-spaced (s ∷ []) h =
    let filled : no_text s ≡ false = ground arith in
    let whole : all_chars (λ c. not (blank_char c)) s ≡ true = ground arith in
    let end : word_pieces s ≡ (s <> "", []) =
      subst (λ u. word_pieces u ≡ (s <> "", [])) (append_empty s) (word_pieces-append s "" whole) in
    rw (end, append_empty s, with_word_lem s [] filled) refl
words-spaced (s ∷ t ∷ ss) h =
    let filled : no_text s ≡ false = ground arith in
    let whole : all_chars (λ c. not (blank_char c)) s ≡ true = ground arith in
    let others : all is_word (t ∷ ss) ≡ true = ground arith in
    rw
      (
        word_pieces-append s (" " <> spaced (t ∷ ss)) whole,
        append_empty s,
        with_word_lem s _ filled,
        words-spaced (t ∷ ss) others,
      )
      refl

pub append_assoc_text : (s t u : String) → (s <> t) <> u ≡ s <> (t <> u)
append_assoc_text String.[] t u = refl
append_assoc_text (String.◌∷◌ c s) t u = rw (append_assoc_text s t u) refl

pub no_text_lem : (s : String) → no_text s ≡ true → s ≡ ""
no_text_lem String.[] h = refl
no_text_lem (String.◌∷◌ c s) h = cc

words-trim_left : (s : String) → words (trim_left s) ≡ words s
unfolding words word_pieces trim_left
words-trim_left String.[] = refl
words-trim_left (String.◌∷◌ c s) = elim (Bool-cases (blank_char c)) [
  | inl space ↦ rw space (words-trim_left s)
  | inr other ↦ rw (other, other) refl
]

word_pieces-trim_right : (s : String) → word_pieces (trim_right s) ≡ word_pieces s
unfolding word_pieces trim_right
word_pieces-trim_right String.[] = refl
word_pieces-trim_right (String.◌∷◌ c s) =
    elim (Bool-cases (blank_char c && no_text (trim_right s))) [
      | inl end ↦
          let space : blank_char c ≡ true = ground arith in
          let gone : no_text (trim_right s) ≡ true = ground arith in
          let none_left : word_pieces s ≡ ("", []) =
            sym (word_pieces-trim_right s) ∙ ap word_pieces (no_text_lem (trim_right s) gone) in
          rw (end, space, none_left) refl
      | inr more ↦ rw (more, word_pieces-trim_right s) refl
    ]

-- Trimming takes no word away.
pub words-trimmed : (s : String) → words (trimmed s) ≡ words s
unfolding words trimmed
words-trimmed s = rw (word_pieces-trim_right (trim_left s)) (words-trim_left s)
