-- ===== src/Prelude/Numbers.antt =====
-- Number.parseInt(text, 10): white space, a sign, and the longest run of digits. `none` is NaN;
-- the value is exact below 2 ^ 53.
use lyttle_nginx.Prelude.Tests.{leb, ◌==◌, if◌then◌else◌}
use lyttle_nginx.Prelude.Texts.{Text}
use Prim.Native.Nat.{ℕ, zero, suc, ◌+◌, ◌-◌, ◌*◌}
use mathlib.Core.Bool.{Bool, false, ◌&&◌, ◌||◌}
use mathlib.Core.List.{[], ◌∷◌}
use mathlib.Core.Option.{Option, none, some}

-- `negsuc n` is -(n + 1).
pub data ℤ : Type 0 where
  pos : ℕ → ℤ
  negsuc : ℕ → ℤ

-- The class \s of the regular expressions, which is also what `trim` drops.
unfoldable pub is_space : ℕ → Bool
is_space c =
    leb 9 c && leb c 13
    || c == 32
    || c == 160
    || c == 0x1680
    || leb 0x2000 c && leb c 0x200a
    || c == 0x2028
    || c == 0x2029
    || c == 0x202f
    || c == 0x205f
    || c == 0x3000
    || c == 0xfeff

unfoldable pub is_digit : ℕ → Bool
is_digit c = leb b'0' c && leb c b'9'

unfoldable pub trim_start : Text → Text
unfolding is_space
trim_start [] = []
trim_start (c ∷ s) = if is_space c then trim_start s else c ∷ s

digits : ℕ → Text → ℕ
digits n [] = n
digits n (c ∷ s) = let more = digits (n * 10 + (c - b'0')) s in if is_digit c then more else n

unsigned : Text → Option ℕ
unfolding digits is_digit
unsigned [] = none
unsigned (c ∷ s) = if is_digit c then some (digits 0 (c ∷ s)) else none

negate : ℕ → ℤ
negate zero = pos 0
negate (suc n) = negsuc n

signed : Text → Option ℤ
unfolding unsigned negate
signed [] = none
signed (c ∷ s) =
    if c == b'-'
    then (elim (unsigned s) [ none ↦ none | some n ↦ some (negate n) ])
    else (elim (unsigned (if c == b'+' then s else c ∷ s)) [ none ↦ none | some n ↦ some (pos n) ])

unfoldable pub parse_int : Text → Option ℤ
unfolding signed trim_start
parse_int s = signed (trim_start s)

-- `n <= i`
unfoldable pub at_least : ℕ → ℤ → Bool
at_least n (pos m) = leb n m
at_least n (negsuc m) = false
