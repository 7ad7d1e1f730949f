-- ===== src/Nginx/CustomCode/Tokenizer.antt =====
-- normalizeFragment, assertNoDisallowedControlCharacters and tokenize of
-- src/nginx/nginx-custom-code.ts.
use lyttle_nginx.Prelude.{
  ℕ, Bool, true, false, ◌&&◌, ◌||◌, Option, none, some, List, [], ◌∷◌, ◌++◌, ltb, ◌==◌,
  if◌then◌else◌, not,
}
use lyttle_nginx.Prelude.Texts.{Text}
use lyttle_nginx.Prelude.Numbers.{is_space, trim_start}
use lyttle_nginx.Nginx.CustomCode.{Result, good, fail, unterminated_quote, is_delimiter, is_quote}

abbrev pub is_blank : Text → Bool
is_blank [] = true
is_blank (c ∷ s) = false

-- trimEnd: the spaces before the end are dropped.
unfoldable pub trim_end : Text → Text
unfolding is_space
trim_end [] = []
trim_end (c ∷ s) = let rest = trim_end s in if is_space c && is_blank rest then [] else c ∷ rest

unfoldable pub trim : Text → Text
unfolding trim_start trim_end
trim s = trim_end (trim_start s)

-- replace(/\r\n?/g, '\n'); the flag says that a \r has just been replaced.
newlines : Bool → Text → Text
newlines after [] = []
newlines after (c ∷ s) =
    let rest = newlines (c == 13) s in
    if c == 13 then 10 ∷ rest else if after && c == 10 then rest else c ∷ rest

unfoldable pub normalize_fragment : Text → Text
unfolding newlines trim
normalize_fragment fragment = trim (newlines false fragment)

unfoldable pub has_control_character : Text → Bool
has_control_character [] = false
has_control_character (c ∷ s) = ltb c 32 && not (c == 10) && not (c == 9) || has_control_character s

-- The loop of `tokenize`: `tokens` in order, the token that is being read, the open quote, and
-- whether a backslash has just been read in it. The flag `comment` stands for the inner loop,
-- which runs to the end of the line.
pub record Scanner : Type 0 where
  pub tokens : List Text
  pub current : Text
  pub quote : Option ℕ
  pub escaped : Bool
  pub comment : Bool

-- pushCurrent
unfoldable pub push_current : List Text → Text → List Text
push_current tokens [] = tokens
push_current tokens (c ∷ s) = tokens ++ (c ∷ s) ∷ []

scan_quoted : ℕ → Scanner → ℕ → Scanner
scan_quoted quote s c =
    let longer = s.current ++ c ∷ [] in
    if s.escaped
    then record s { current = longer; escaped = false }
    else if c == 92
    then record s { current = longer; escaped = true }
    else if c == quote
    then record s { current = longer; quote = none }
    else record s { current = longer }

scan_plain : Scanner → ℕ → Scanner
unfolding is_quote is_space is_delimiter push_current
scan_plain s c =
    if c == b'#' && is_blank s.current
    then record s { comment = true }
    else if is_quote c
    then record s { current = s.current ++ c ∷ []; quote = some c }
    else if is_space c
    then record s { tokens = push_current s.tokens s.current; current = [] }
    else if is_delimiter c
    then record s { tokens = push_current s.tokens s.current ++ (c ∷ []) ∷ []; current = [] }
    else record s { current = s.current ++ c ∷ [] }

unfoldable pub scan : Scanner → ℕ → Scanner
unfolding scan_quoted scan_plain
scan s c =
    if s.comment
    then (if c == 10 then record s { comment = false } else s)
    else (elim s.quote [ none ↦ scan_plain s c | some quote ↦ scan_quoted quote s c ])

unfoldable pub scan_all : Scanner → Text → Scanner
unfolding scan
scan_all s [] = s
scan_all s (c ∷ cs) = scan_all (scan s c) cs

abbrev pub start : Scanner
start = record { tokens = []; current = []; quote = none; escaped = false; comment = false }

unfoldable pub finish : Scanner → Result (List Text)
unfolding push_current
finish s = elim s.quote [
  | none ↦ good (push_current s.tokens s.current)
  | some quote ↦ fail unterminated_quote
]

unfoldable pub tokenize : Text → Result (List Text)
unfolding scan_all finish
tokenize fragment = finish (scan_all start fragment)
